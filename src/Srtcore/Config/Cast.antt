-- ===== src/Srtcore/Config/Cast.antt =====
-- srt-1.5.6/srtcore/socketconfig.h: cast_optval, which reads a value of an option from memory. The
-- memory is the list of its bytes, least significant byte first as on the machines of the build;
-- `optlen` is not negative. `none` is CUDTException(MJ_NOTSUP, MN_INVAL).
use srt_vpn.Prelude.{
  ℕ, ◌+◌, ◌-◌, ◌*◌, ◌^◌, Bool, false, not, Option, none, some, List, ltb, ◌==◌, ◌&&◌, if◌then◌else◌,
  get_or,
}
use srt_vpn.Prelude.Ints.{ℤ, pos, negsuc, int_eq}

-- The word of four bytes at an index.
abbrev pub le_u32 : List ℕ → ℕ → ℕ
le_u32 m i =
    get_or m i 0
    + get_or m (i + 1) 0 * 2 ^ 8
    + get_or m (i + 2) 0 * 2 ^ 16
    + get_or m (i + 3) 0 * 2 ^ 24

-- A word as a signed integer in two's complement, of 32 and of 64 bits.
abbrev pub signed32 : ℕ → ℤ
signed32 u = if ltb u (2 ^ 31) then pos u else negsuc (2 ^ 32 - 1 - u)

abbrev pub signed64 : ℕ → ℤ
signed64 u = if ltb u (2 ^ 63) then pos u else negsuc (2 ^ 64 - 1 - u)

abbrev pub le_i32 : List ℕ → ℕ → ℤ
le_i32 m i = signed32 (le_u32 m i)

abbrev pub le_i64 : List ℕ → ℤ
le_i64 m = signed64 (le_u32 m 0 + le_u32 m 4 * 2 ^ 32)

-- The test of `cast_optval<T>(optval, optlen)`, for a type of `size` bytes.
abbrev pub sized {ℓ} : {A : Type ℓ} → ℕ → ℕ → A → Option A
sized size optlen a = if ltb 0 optlen && not (optlen == size) then none else some a

abbrev pub cast_int : List ℕ → ℕ → Option ℤ
cast_int optval optlen = sized 4 optlen (le_i32 optval 0)

abbrev pub cast_u32 : List ℕ → ℕ → Option ℕ
cast_u32 optval optlen = sized 4 optlen (le_u32 optval 0)

abbrev pub cast_i64 : List ℕ → ℕ → Option ℤ
cast_i64 optval optlen = sized 8 optlen (le_i64 optval)

-- `cast_optval<bool>`, which takes a bool or an int
abbrev pub cast_bool : List ℕ → ℕ → Bool
cast_bool optval optlen =
    if optlen == 1
    then not (get_or optval 0 0 == 0)
    else if optlen == 4
    then not (int_eq (le_i32 optval 0) (pos 0))
    else false
