-- ===== src/Auth/Response.antt =====
-- src/auth/challenge.rs: which responses are accepted.
use srt_vpn.Prelude.{
  ℕ, ◌-◌, ◌^◌, ◌<◌, ◌≤◌, ◌≡◌, ◌≢◌, ◌⊎◌, ◌↔◌, inl, inr, refl, bit_or, bit_xor, true, false, not,
  List, [], ◌∷◌, arith, ◌==◌, ==_iff, if◌then◌else◌, length, All, Bool-cases, ap, sym, ◌∙◌,
}
use srt_vpn.Prelude.Bytes.{IsByte, bytes_eq, bytes_eq_iff}
use srt_vpn.Prelude.Words.{xor_zero, xor_self, or_fits, or_zero}
use srt_vpn.Auth.{
  sub_i64, abs_i64, beyond_window, diff_from, constant_time_eq, verify_response,
  verify_response_dual,
}

-- Nothing apart was found: none before, and the bytes are equal.
pub diff_from_zero :
    (d : ℕ) (a b : List ℕ)
    → d < 256
    → All IsByte a
    → All IsByte b
    → length a ≡ length b
    → diff_from d a b ≡ 0
    → (d ≡ 0) × (a ≡ b)
unfolding diff_from
diff_from_zero d [] [] hd ha hb n e = (e, refl)
diff_from_zero d [] (y ∷ ys) hd ha hb n e = absurd (omega (arith, n))
diff_from_zero d (x ∷ xs) [] hd ha hb n e = absurd (omega (arith, n))
diff_from_zero d (x ∷ xs) (y ∷ ys) hd (hx, ha) (hy, hb) n e =
    let fits = (or_fits x y hx hy).1 in
    let (nothing, tails) =
      diff_from_zero (bit_or d (bit_xor x y)) xs ys (or_fits d (bit_xor x y) hd fits).0 ha hb
        (omega (arith, n)) e in
    let (d0, x0) = or_zero d (bit_xor x y) hd fits nothing in
    let heads : x ≡ y = xor_zero x y hx hy x0 in (d0, cc)

pub diff_from_same : (a : List ℕ) → All IsByte a → diff_from 0 a a ≡ 0
unfolding diff_from
diff_from_same [] h = refl
diff_from_same (x ∷ xs) (hx, h) =
    let none_apart : bit_or 0 (bit_xor x x) ≡ 0 = rw (xor_self x hx) refl in
    rw none_apart (diff_from_same xs h)

-- The comparison that looks at every byte accepts two byte strings just when they are equal.
pub constant_time_eq_iff :
    (a b : List ℕ) → All IsByte a → All IsByte b → (constant_time_eq a b ≡ true) ↔ (a ≡ b)
unfolding constant_time_eq
constant_time_eq_iff a b ha hb = (forth, back)
  where
    forth : (if not (length a == length b) then false else diff_from 0 a b == 0) ≡ true → a ≡ b
    forth h = elim (Bool-cases (length a == length b)) [
      | inr e ↦ cc (rw e at h)
      | inl e ↦
          (diff_from_zero 0 a b (omega arith) ha hb ((==_iff (length a) (length b)).0 e)
            ((==_iff (diff_from 0 a b) 0).0 (rw e at h))).1
    ]

    back : a ≡ b → (if not (length a == length b) then false else diff_from 0 a b == 0) ≡ true
    back e =
        let n : (length a == length b) ≡ true = (==_iff (length a) (length b)).1 (ap length e) in
        let z : (diff_from 0 a b == 0) ≡ true =
          (==_iff (diff_from 0 a b) 0).1 (ap (diff_from 0 a) (sym e) ∙ diff_from_same a ha) in
        rw (n, z) refl

-- A time at most 90 s before or after `now`, or just 2^63 s away from it, where `abs` overflows.
abbrev pub InWindow : ℕ → ℕ → Type 0
InWindow now ts =
    (sub_i64 now ts ≤ 90) ⊎ ((2 ^ 64 - 90 ≤ sub_i64 now ts) ⊎ (sub_i64 now ts ≡ 2 ^ 63))

window_iff :
    (now ts : ℕ) → (not (beyond_window (abs_i64 (sub_i64 now ts))) ≡ true) ↔ InWindow now ts
window_iff now ts = (λ h. ground arith, λ h. ground arith)

-- A response is accepted on the path of `timestamp` just when it is the one for that time and the
-- time is in the window.
verify_response_iff :
    (respond : ℕ → List ℕ) (now ts : ℕ) (response : List ℕ)
    → All IsByte (respond ts)
    → All IsByte response
    → (verify_response respond now ts response ≡ true) ↔ ((respond ts ≡ response) × InWindow now ts)
unfolding verify_response
verify_response_iff respond now ts response ha hb =
    let same = constant_time_eq_iff (respond ts) response ha hb in
    elim (Bool-cases (beyond_window (abs_i64 (sub_i64 now ts)))) [
      | inl out ↦
          ((λ h. cc (rw out at h)), (λ h. let q = (window_iff now ts).1 h.1 in cc (rw out at q)))
      | inr inside ↦ (
        (λ h. (same.0 (rw inside at h), (window_iff now ts).0 (rw inside refl))),
        (λ h. rw inside (same.1 h.0)),
      )
    ]

-- The server, which sent `server_ts` with the challenge, accepts a response of a client that claims
-- the time `client_ts` just when it is the response for `server_ts` and that time is in the window,
-- or it is another one, the response for `client_ts`, and that time is in the window of the clock's
-- second reading, `later`. All times that are at most 90 s from the server's clock are in the window,
-- and the one 2^63 s away, where `abs` overflows. Texts are bytes.
pub verify_response_dual_iff :
    (respond : ℕ → List ℕ) (now later server_ts client_ts : ℕ) (response : List ℕ)
    → ((ts : ℕ) → All IsByte (respond ts))
    → All IsByte response
    → ((verify_response_dual respond now later server_ts client_ts response).0 ≡ true) ↔ (
        ((respond server_ts ≡ response) × InWindow now server_ts)
        ⊎ ((respond server_ts ≢ response)
            × (respond client_ts ≡ response)
            × InWindow later client_ts))
unfolding verify_response_dual
verify_response_dual_iff respond now later server_ts client_ts response ha hb =
    let text = bytes_eq_iff (respond server_ts) response in
    let old = verify_response_iff respond later client_ts response (ha client_ts) hb in
    let window = window_iff now server_ts in
    elim (Bool-cases (bytes_eq (respond server_ts) response)) [
      | inl e ↦ (
        (λ h. inl (text.0 e, window.0 (rw e at h))),
        (λ h. elim h [ inl p ↦ rw e (window.1 p.1) | inr p ↦ absurd (p.0 (text.0 e)) ]),
      )
      | inr e ↦ (
        (λ h. let p = old.0 (rw e at h) in inr ((λ q. cc (text.1 q)), p.0, p.1)),
        (λ h. elim h [ inl p ↦ cc (text.1 p.0) | inr p ↦ rw e (old.1 (p.1, p.2)) ]),
      )
    ]
