-- ===== src/Srtcore/Config/Leaves.antt =====
-- What holds of the configuration that a setter leaves, where it does not throw.
use srt_vpn.Prelude.{
  ℕ, Bool, true, false, not, Option, none, some, ◌>>=◌, ltb, ◌==◌, ◌&&◌, if◌then◌else◌, subst, ap,
  ◌≡◌, refl, Bool-cases, inl, inr,
}
use srt_vpn.Srtcore.Config.{SrtConfig}
use srt_vpn.Srtcore.Config.Cast.{sized}

pub record Leaves (P : SrtConfig → Type 0) (o : Option SrtConfig) : Type 0 where
  pub at : (c : SrtConfig) → o ≡ some c → P c

module _ {P : SrtConfig → Type 0} where
  pub Leaves-some : (c : SrtConfig) → P c → Leaves P (some c)
  Leaves-some c v = record { at = λ d e. subst P (ap (λ o. elim o [ none ↦ c | some x ↦ x ]) e) v }

  pub Leaves-none : Leaves P none
  Leaves-none = record { at = λ d e. cc }

  pub Leaves-if :
      (b : Bool) (o : Option SrtConfig)
      → (b ≡ false → Leaves P o)
      → Leaves P (if b then none else o)
  Leaves-if true o k = record { at = λ d e. cc }
  Leaves-if false o k = k refl

  pub Leaves-when :
      (b : Bool) (o : Option SrtConfig) → (b ≡ true → Leaves P o) → Leaves P (if b then o else none)
  Leaves-when true o k = k refl
  Leaves-when false o k = record { at = λ d e. cc }

  pub Leaves-unless :
      (b : Bool) (o p : Option SrtConfig) → Leaves P o → Leaves P p → Leaves P (if b then o else p)
  Leaves-unless true o p k l = k
  Leaves-unless false o p k l = l

  pub Leaves-bind {ℓ} :
      {A : Type ℓ} (o : Option A) (f : A → Option SrtConfig)
      → ((a : A) → Leaves P (f a))
      → Leaves P (o >>= f)
  Leaves-bind none f k = record { at = λ d e. cc }
  Leaves-bind (some a) f k = k a

  -- A value that is read is the one that stands in memory.
  pub Leaves-sized {ℓ} :
      {A : Type ℓ} (size optlen : ℕ) (a : A) (f : A → Option SrtConfig)
      → Leaves P (f a)
      → Leaves P (sized size optlen a >>= f)
  Leaves-sized size optlen a f k = elim (Bool-cases (ltb 0 optlen && not (optlen == size))) [
    | inl h ↦ rw h Leaves-none
    | inr h ↦ rw h k
  ]
