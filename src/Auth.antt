-- ===== src/Auth.antt =====
-- src/auth/challenge.rs: the check of a client's response to the challenge.
-- An i64 is a 64-bit word in two's complement; `-` and `abs` wrap around, as in a release build.
-- Text is a list of bytes. `compute_response` is the parameter `respond`, of a time: the HMAC of the
-- pass phrase, the nonce and the time as hexadecimal text. What the clock shows is an argument.
pub mod Response
use srt_vpn.Prelude.{
  ℕ, ◌+◌, ◌-◌, ◌%◌, ◌^◌, bit_or, bit_xor, Bool, true, false, not, List, [], ◌∷◌, ltb, ◌==◌,
  if◌then◌else◌, length, ◌&&◌,
}
use srt_vpn.Prelude.Bytes.{bytes_eq}

abbrev pub auth_time_window_secs : ℕ
auth_time_window_secs = 90

-- `a - b`
abbrev pub sub_i64 : ℕ → ℕ → ℕ
sub_i64 a b = (a + 2 ^ 64 - b) % 2 ^ 64

-- `a.abs()`
abbrev pub abs_i64 : ℕ → ℕ
abs_i64 a = if ltb a (2 ^ 63) then a else (2 ^ 64 - a) % 2 ^ 64

-- `a > AUTH_TIME_WINDOW_SECS`: no negative number is.
abbrev pub beyond_window : ℕ → Bool
beyond_window a = ltb a (2 ^ 63) && ltb auth_time_window_secs a

-- `diff |= x ^ y` over the pairs of bytes
unfoldable pub diff_from : ℕ → List ℕ → List ℕ → ℕ
diff_from diff (x ∷ xs) (y ∷ ys) = diff_from (bit_or diff (bit_xor x y)) xs ys
diff_from diff _ _ = diff

unfoldable pub constant_time_eq : List ℕ → List ℕ → Bool
constant_time_eq a b = if not (length a == length b) then false else diff_from 0 a b == 0

unfoldable pub verify_response : (ℕ → List ℕ) → ℕ → ℕ → List ℕ → Bool
verify_response respond now timestamp response =
    if beyond_window (abs_i64 (sub_i64 now timestamp))
    then false
    else constant_time_eq (respond timestamp) response

-- The result, and the deviation of the clocks. `verify_response` reads the clock again, `later`.
unfoldable pub verify_response_dual : (ℕ → List ℕ) → ℕ → ℕ → ℕ → ℕ → List ℕ → Bool × ℕ
verify_response_dual respond now later server_ts client_ts response =
    if bytes_eq (respond server_ts) response
    then (not (beyond_window (abs_i64 (sub_i64 now server_ts))), sub_i64 now server_ts)
    else (verify_response respond later client_ts response, sub_i64 now client_ts)
