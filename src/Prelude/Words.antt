-- ===== src/Prelude/Words.antt =====
-- Exclusive and inclusive or of bytes, tried at all bytes.
use Prim.Native.Nat.{ℕ, ◌<◌, bit_or, bit_xor}
use mathlib.Core.Path.{◌≡◌, refl}
use mathlib.Core.Bool.{Bool, true, not, ◌&&◌, ◌||◌}
use native.Mathlib.Omega.{arith}
use srt_vpn.Prelude.Tests.{◌==◌, ==_iff, leb}
use srt_vpn.Prelude.Bytes.{passes, passes_each}

-- Two bytes with no bit apart are equal.
apart_or_equal : ℕ → ℕ → Bool
apart_or_equal x y = not (bit_xor x y == 0) || x == y

xor_table : passes (λ x. passes (apart_or_equal x) 255) 255 ≡ true
unfolding passes apart_or_equal
xor_table = refl

pub xor_zero : (x y : ℕ) → x < 256 → y < 256 → bit_xor x y ≡ 0 → x ≡ y
unfolding apart_or_equal
xor_zero x y hx hy e =
    let row = passes_each (λ i. passes (apart_or_equal i) 255) x 255 (omega arith) xor_table in
    let cell = passes_each (apart_or_equal x) y 255 (omega arith) row in ground (arith, cell)

pub xor_self : (x : ℕ) → x < 256 → bit_xor x x ≡ 0
unfolding passes
xor_self x h =
    (==_iff (bit_xor x x) 0).0 (passes_each (λ i. bit_xor i i == 0) x 255 (omega arith) refl)

-- A byte or a byte is a byte, and 0 only if both are.
or_of_bytes : ℕ → ℕ → Bool
or_of_bytes x y =
    leb (bit_or x y) 255 && leb (bit_xor x y) 255 && (not (bit_or x y == 0) || (x == 0 && y == 0))

or_table : passes (λ x. passes (or_of_bytes x) 255) 255 ≡ true
unfolding passes or_of_bytes
or_table = refl

or_cell : (x y : ℕ) → x < 256 → y < 256 → or_of_bytes x y ≡ true
or_cell x y hx hy =
    passes_each (or_of_bytes x) y 255 (omega arith)
      (passes_each (λ i. passes (or_of_bytes i) 255) x 255 (omega arith) or_table)

pub or_fits : (x y : ℕ) → x < 256 → y < 256 → (bit_or x y < 256) × (bit_xor x y < 256)
unfolding or_of_bytes
or_fits x y hx hy = let c = or_cell x y hx hy in (ground (arith, c), ground (arith, c))

pub or_zero : (x y : ℕ) → x < 256 → y < 256 → bit_or x y ≡ 0 → (x ≡ 0) × (y ≡ 0)
unfolding or_of_bytes
or_zero x y hx hy e = let c = or_cell x y hx hy in (ground (arith, c), ground (arith, c))
