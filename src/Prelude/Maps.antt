-- ===== src/Prelude/Maps.antt =====
-- HashMap and BTreeMap as association lists with one entry for a key, over any type of keys.
use Prim.Native.Nat.{ℕ, zero, suc, ◌+◌, ◌≤◌, ◌<◌}
use mathlib.Core.Path.{◌≡◌, refl, sym, ap, ◌∙◌}
use mathlib.Core.Logic.{◌≢◌, ◌↔◌, ◌⊎◌, inl, inr}
use mathlib.Core.Bool.{Bool, true, false, ◌&&◌}
use mathlib.Core.List.{List, [], ◌∷◌}
use mathlib.Core.Option.{Option, none, some}
use native.Mathlib.Omega.{arith}
use srt_vpn.Prelude.Tests.{
  ◌==◌ as nat_beq, ==_iff, if◌then◌else◌, Bool-cases, Option-cases, ℕ_eq-cases,
}
use srt_vpn.Prelude.Lists.{length}

pub record Eq {ℓ} (A : Type ℓ) : Type ℓ where
  pub beq : A → A → Bool
  pub beq_iff : (a b : A) → (beq a b ≡ true) ↔ (a ≡ b)

instance abbrev pub nat_eq : Eq ℕ
nat_eq = record { beq = nat_beq; beq_iff = ==_iff }

abbrev pub bool_beq : Bool → Bool → Bool
bool_beq true true = true
bool_beq true false = false
bool_beq false true = false
bool_beq false false = true

pub bool_beq_iff : (a b : Bool) → (bool_beq a b ≡ true) ↔ (a ≡ b)
bool_beq_iff true true = (λ _. refl, λ _. refl)
bool_beq_iff true false = (λ e. cc, λ e. cc)
bool_beq_iff false true = (λ e. cc, λ e. cc)
bool_beq_iff false false = (λ _. refl, λ _. refl)

-- The key of a reorder state: a session and a direction.
abbrev pub pair_beq : ℕ × Bool → ℕ × Bool → Bool
pair_beq (a, b) (c, d) = nat_beq a c && bool_beq b d

pub pair_beq_iff : (p q : ℕ × Bool) → (pair_beq p q ≡ true) ↔ (p ≡ q)
pair_beq_iff (a, true) (c, true) = ground arith
pair_beq_iff (a, true) (c, false) = ground arith
pair_beq_iff (a, false) (c, true) = ground arith
pair_beq_iff (a, false) (c, false) = ground arith

instance abbrev pub pair_eq : Eq (ℕ × Bool)
pair_eq = record { beq = pair_beq; beq_iff = pair_beq_iff }

module _ {ℓ κ} {K : Type ℓ} {V : Type κ} ⦃e : Eq K⦄ where
  unfoldable pub get : K → List (K × V) → Option V
  get k [] = none
  get k ((j, v) ∷ m) = if e.beq j k then some v else get k m

  -- A key that is there keeps its place.
  unfoldable pub insert : K → V → List (K × V) → List (K × V)
  insert k v [] = (k, v) ∷ []
  insert k v ((j, w) ∷ m) = if e.beq j k then (k, v) ∷ m else (j, w) ∷ insert k v m

  unfoldable pub remove : K → List (K × V) → List (K × V)
  remove k [] = []
  remove k ((j, v) ∷ m) = if e.beq j k then remove k m else (j, v) ∷ remove k m

  abbrev pub keys : List (K × V) → List K
  keys [] = []
  keys ((j, v) ∷ m) = j ∷ keys m

pub eq-cases {ℓ} : {K : Type ℓ} ⦃e : Eq K⦄ (a b : K) → (a ≡ b) ⊎ (a ≢ b)
eq-cases ⦃e⦄ a b = elim (Bool-cases (e.beq a b)) [
  | inl h ↦ inl ((e.beq_iff a b).0 h)
  | inr h ↦ inr (λ p. ground (arith, (e.beq_iff a b).1 p))
]

beq_refl {ℓ} : {K : Type ℓ} ⦃e : Eq K⦄ (k : K) → e.beq k k ≡ true
beq_refl ⦃e⦄ k = (e.beq_iff k k).1 refl

module _ {ℓ κ} {K : Type ℓ} {V : Type κ} ⦃e : Eq K⦄ where
  pub get-insert_self : (k : K) (v : V) (m : List (K × V)) → get k (insert k v m) ≡ some v
  unfolding get insert
  get-insert_self k v [] = rw (beq_refl k)
  get-insert_self k v ((j, w) ∷ m) = elim (Bool-cases (e.beq j k)) [
    | inl h ↦ rw h (rw (beq_refl k))
    | inr h ↦ rw (h, h) (get-insert_self k v m)
  ]

  pub get-insert_ne : (i k : K) (v : V) (m : List (K × V)) → i ≢ k → get i (insert k v m) ≡ get i m
  unfolding get insert
  get-insert_ne i k v [] h = ground (arith, (e.beq_iff k i).0)
  get-insert_ne i k v ((j, w) ∷ m) h =
      ground (arith, (e.beq_iff k i).0, (e.beq_iff j k).0, get-insert_ne i k v m h)

  pub get-remove_self : (k : K) (m : List (K × V)) → get k (remove k m) ≡ none
  unfolding get remove
  get-remove_self k [] = refl
  get-remove_self k ((j, w) ∷ m) = elim (Bool-cases (e.beq j k)) [
    | inl h ↦ rw h (get-remove_self k m)
    | inr h ↦ rw (h, h) (get-remove_self k m)
  ]

  pub get-remove_ne : (i k : K) (m : List (K × V)) → i ≢ k → get i (remove k m) ≡ get i m
  unfolding get remove
  get-remove_ne i k [] h = refl
  get-remove_ne i k ((j, w) ∷ m) h =
      ground (arith, (e.beq_iff j i).0, (e.beq_iff j k).0, get-remove_ne i k m h)

  pub length-remove-le : (k : K) (m : List (K × V)) → length (remove k m) ≤ length m
  unfolding remove
  length-remove-le k [] = omega arith
  length-remove-le k ((j, w) ∷ m) = ground (arith, length-remove-le k m)

  -- Removing a key that is there makes the map shorter.
  pub length-remove-lt :
      (k : K) (v : V) (m : List (K × V)) → get k m ≡ some v → length (remove k m) < length m
  unfolding get remove
  length-remove-lt k v [] h = cc
  length-remove-lt k v ((j, w) ∷ m) h = ground (arith, length-remove-le k m, length-remove-lt k v m)

  pub length-insert-le : (k : K) (v : V) (m : List (K × V)) → length (insert k v m) ≤ length m + 1
  unfolding insert
  length-insert-le k v [] = omega arith
  length-insert-le k v ((j, w) ∷ m) = ground (arith, length-insert-le k v m)

  pub get-none_of_length : (k : K) (m : List (K × V)) → length m ≤ 0 → get k m ≡ none
  unfolding get
  get-none_of_length k [] h = refl
  get-none_of_length k ((j, w) ∷ m) h = absurd (omega arith)

  -- No key stands twice.
  abbrev pub Distinct : List (K × V) → Type κ
  Distinct [] = Unit {κ}
  Distinct ((j, v) ∷ m) = (get j m ≡ none) × Distinct m

module _ {ℓ κ} {K : Type ℓ} {V : Type κ} ⦃e : Eq K⦄ where
  pub insert-Distinct : (k : K) (v : V) (m : List (K × V)) → Distinct m → Distinct (insert k v m)
  unfolding insert get
  insert-Distinct k v [] h = (refl, tt)
  insert-Distinct k v ((j, w) ∷ m) h = elim (Bool-cases (e.beq j k)) [
    | inl same ↦ rw same (rw (← (e.beq_iff j k).0 same) h.0, h.1)
    | inr other ↦ rw other (
      get-insert_ne j k v m (λ q. cc (other, (e.beq_iff j k).1 q)) ∙ h.0,
      insert-Distinct k v m h.1,
    )
  ]

  pub length-insert_new :
      (k : K) (v : V) (m : List (K × V)) → get k m ≡ none → length (insert k v m) ≡ length m + 1
  unfolding insert get
  length-insert_new k v [] h = omega arith
  length-insert_new k v ((j, w) ∷ m) h = ground (arith, length-insert_new k v m)

  pub length-insert_old :
      (k : K) (v w : V) (m : List (K × V)) → get k m ≡ some w → length (insert k v m) ≡ length m
  unfolding insert get
  length-insert_old k v w [] h = cc
  length-insert_old k v w ((j, x) ∷ m) h = ground (arith, length-insert_old k v w m)

  pub remove-none : (k : K) (m : List (K × V)) → get k m ≡ none → remove k m ≡ m
  unfolding remove get
  remove-none k [] h = refl
  remove-none k ((j, x) ∷ m) h = ground (arith, remove-none k m)

  pub length-remove :
      (k : K) (v : V) (m : List (K × V))
      → Distinct m
      → get k m ≡ some v
      → length m ≡ length (remove k m) + 1
  unfolding remove get
  length-remove k v [] d h = cc
  length-remove k v ((j, w) ∷ m) d h = elim (Bool-cases (e.beq j k)) [
    | inl same ↦
        rw same (omega (arith, ap length (remove-none k m (rw (← (e.beq_iff j k).0 same) d.0))))
    | inr other ↦ rw other (omega (arith, length-remove k v m d.1 (rw other at h)))
  ]

  pub remove-Distinct : (k : K) (m : List (K × V)) → Distinct m → Distinct (remove k m)
  unfolding remove get
  remove-Distinct k [] d = tt
  remove-Distinct k ((j, w) ∷ m) d = elim (Bool-cases (e.beq j k)) [
    | inl same ↦ rw same (remove-Distinct k m d.1)
    | inr other ↦
        rw other (
          get-remove_ne j k m (λ q. cc (other, (e.beq_iff j k).1 q)) ∙ d.0,
          remove-Distinct k m d.1,
        )
  ]

get-cons_self {κ} : {V : Type κ} (j : ℕ) (v : V) (m : List (ℕ × V)) → get j ((j, v) ∷ m) ≡ some v
unfolding get
get-cons_self j v m = rw (beq_refl j)

-- At most n distinct numbers lie below n.
pub length-le_of_keys {κ} :
    {V : Type κ} (n : ℕ) (m : List (ℕ × V))
    → Distinct m
    → ((i : ℕ) (v : V) → get i m ≡ some v → i < n)
    → length m ≤ n
length-le_of_keys zero [] d h = omega arith
length-le_of_keys zero ((j, v) ∷ m) d h = absurd (omega (arith, h j v (get-cons_self j v m)))
length-le_of_keys (suc n) m d h = elim (Option-cases (get n m)) [
  | inl e ↦ omega (
    arith,
    length-le_of_keys n m d
        (λ i v at. elim (ℕ_eq-cases i n) [ inl q ↦ cc | inr ne ↦ omega (arith, h i v at) ]),
  )
  | inr (v, e) ↦ omega (
    arith,
    length-remove n v m d e,
    length-le_of_keys n (remove n m) (remove-Distinct n m d) (λ i w at. elim (ℕ_eq-cases i n) [
      | inl q ↦ cc (get-remove_self n m)
      | inr ne ↦ omega (arith, h i w (sym (get-remove_ne i n m ne) ∙ at))
    ]),
  )
]
