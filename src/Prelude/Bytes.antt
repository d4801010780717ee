-- ===== src/Prelude/Bytes.antt =====
-- Big-endian bytes of machine words, and the bits of a flag byte.
use Prim.Native.Nat.{ℕ, zero, suc, ◌+◌, ◌*◌, ◌/◌, ◌%◌, ◌^◌, ◌<◌, ◌≤◌}
use mathlib.Core.Path.{◌≡◌, refl, ap}
use mathlib.Core.Bool.{Bool, true, false, ◌&&◌}
use mathlib.Core.List.{List, [], ◌∷◌, ◌++◌}
use mathlib.Core.Logic.{inl, inr, ◌↔◌}
use native.Mathlib.Omega.{arith}
use srt_vpn.Prelude.Maps.{Eq}
use srt_vpn.Prelude.Lists.{length, get_or, drop}
use srt_vpn.Prelude.Tests.{◌==◌, ==_iff, &&-eq-true, ℕ_eq-cases}

abbrev pub IsByte : ℕ → Type 0
IsByte b = b < 256

-- `u16::to_be_bytes` and `u32::to_be_bytes`
abbrev pub u16_be : ℕ → List ℕ
u16_be n = (n / 256 % 256) ∷ (n % 256) ∷ []

abbrev pub u32_be : ℕ → List ℕ
u32_be n = (n / 2 ^ 24 % 256) ∷ (n / 2 ^ 16 % 256) ∷ (n / 256 % 256) ∷ (n % 256) ∷ []

-- `u16::from_be_bytes` and `u32::from_be_bytes`
abbrev pub be_u16 : ℕ → ℕ → ℕ
be_u16 a b = a * 256 + b

abbrev pub be_u32 : ℕ → ℕ → ℕ → ℕ → ℕ
be_u32 a b c d = a * 2 ^ 24 + b * 2 ^ 16 + c * 256 + d

pub be_u16-u16_be : (n : ℕ) → n < 2 ^ 16 → be_u16 (n / 256 % 256) (n % 256) ≡ n
be_u16-u16_be n h = omega arith

pub be_u32-u32_be :
    (n : ℕ)
    → n < 2 ^ 32
    → be_u32 (n / 2 ^ 24 % 256) (n / 2 ^ 16 % 256) (n / 256 % 256) (n % 256) ≡ n
be_u32-u32_be n h = omega arith

-- `==` on byte slices
abbrev pub bytes_eq : List ℕ → List ℕ → Bool
bytes_eq [] [] = true
bytes_eq [] (y ∷ ys) = false
bytes_eq (x ∷ xs) [] = false
bytes_eq (x ∷ xs) (y ∷ ys) = x == y && bytes_eq xs ys

pub bytes_eq_iff : (a b : List ℕ) → (bytes_eq a b ≡ true) ↔ (a ≡ b)
bytes_eq_iff [] [] = (λ _. refl, λ _. refl)
bytes_eq_iff [] (y ∷ ys) = (λ e. cc, λ e. cc)
bytes_eq_iff (x ∷ xs) [] = (λ e. cc, λ e. cc)
bytes_eq_iff (x ∷ xs) (y ∷ ys) = (
  λ e.
      let both = &&-eq-true (x == y) (bytes_eq xs ys) e in
      cc ((==_iff x y).0 both.0, (bytes_eq_iff xs ys).0 both.1),
  λ e.
      let head : x ≡ y = cc in
      let tail : xs ≡ ys = cc in rw ((==_iff x y).1 head) ((bytes_eq_iff xs ys).1 tail),
)

instance abbrev pub list_eq : Eq (List ℕ)
list_eq = record { beq = bytes_eq; beq_iff = bytes_eq_iff }

-- A target of datagrams, a host and a port, as a key.
abbrev pub target_beq : List ℕ × ℕ → List ℕ × ℕ → Bool
target_beq (h, p) (j, q) = bytes_eq h j && p == q

pub target_beq_iff : (a b : List ℕ × ℕ) → (target_beq a b ≡ true) ↔ (a ≡ b)
target_beq_iff (h, p) (j, q) = (
  λ e.
      let both = &&-eq-true (bytes_eq h j) (p == q) e in
      let hosts = (bytes_eq_iff h j).0 both.0 in let ports = (==_iff p q).0 both.1 in cc,
  λ e.
      let hosts : h ≡ j = ap (λ (x : List ℕ × ℕ). x.0) e in
      let ports : p ≡ q = ap (λ (x : List ℕ × ℕ). x.1) e in
      rw ((bytes_eq_iff h j).1 hosts) ((==_iff p q).1 ports),
)

instance abbrev pub target_eq : Eq (List ℕ × ℕ)
target_eq = record { beq = target_beq; beq_iff = target_beq_iff }

-- Every number up to a bound passes a test, tried one by one.
unfoldable pub passes : (ℕ → Bool) → ℕ → Bool
passes test zero = test 0
passes test (suc top) = passes test top && test (suc top)

pub passes_each :
    (test : ℕ → Bool) (i : ℕ) (top : ℕ) → i ≤ top → passes test top ≡ true → test i ≡ true
unfolding passes
passes_each test i zero le ok = let e : i ≡ 0 = omega arith in rw e ok
passes_each test i (suc top) le ok =
    let both = &&-eq-true (passes test top) (test (suc top)) ok in
    elim (ℕ_eq-cases i (suc top)) [
      | inl e ↦ rw e both.1
      | inr ne ↦ passes_each test i top (omega arith) both.0
    ]

-- What stands behind the first of two lists.
pub get_or-append :
    (xs ys : List ℕ) (i j d : ℕ) → j ≡ length xs + i → get_or (xs ++ ys) j d ≡ get_or ys i d
get_or-append [] ys i j d e = let same : j ≡ i = omega arith in rw same refl
get_or-append (x ∷ xs) ys i zero d e = absurd (omega arith)
get_or-append (x ∷ xs) ys i (suc j) d e = get_or-append xs ys i j d (omega arith)

pub drop-append : (xs ys : List ℕ) (i j : ℕ) → j ≡ length xs + i → drop j (xs ++ ys) ≡ drop i ys
drop-append [] ys i j e = let same : j ≡ i = omega arith in rw same refl
drop-append (x ∷ xs) ys i zero e = absurd (omega arith)
drop-append (x ∷ xs) ys i (suc j) e = drop-append xs ys i j (omega arith)
