-- ===== src/Client/Conn/Inversion.antt =====
-- What an action that succeeded has done.
use srt_vpn.Prelude.{
  ℕ, Bool, true, false, Option, none, some, List, [], ◌∷◌, ◌++◌, ltb, leb, length, get_or, ◌≡◌, inl,
  inr, refl, sym, ap, ap₂, ◌∙◌, arith, Bool-cases, take-append-drop,
}
use srt_vpn.Client.Conn.{
  Conn, Error, Result, ok, err, Action, or_raise, require, read_exact, write_all, ◌>>=◌,
}
use srt_vpn.Client.Conn.Exact.{Result-cases, all_taken}

module _ {A : Type 0} where
  value_of : A → Result A → A
  value_of d (ok a) = a
  value_of d (err e) = d

  pub ok-value : {a b : A} {c d : Conn} → ◌≡◌ {A = Result A × Conn} (ok a, c) (ok b, d) → a ≡ b
  unfolding value_of
  ok-value {a} e = ap (λ (r : Result A × Conn). value_of a r.0) e

  pub ok-state : {a b : A} {c d : Conn} → ◌≡◌ {A = Result A × Conn} (ok a, c) (ok b, d) → c ≡ d
  ok-state e = ap (λ (r : Result A × Conn). r.1) e

pub bind-ok :
    {A B : Type 0} (m : Action A) (f : A → Action B) (c : Conn) {b : B} {after : Conn}
    → (m >>= f) c ≡ (ok b, after)
    → (a : A) × (mid : Conn) × (m c ≡ (ok a, mid)) × (f a mid ≡ (ok b, after))
bind-ok m f c h = elim (Result-cases (m c)) [
  | inl (a, mid, same) ↦ (a, mid, same, rw same at h)
  | inr (e, mid, same) ↦ cc (rw same at h)
]

-- The bytes read were at the front; nothing else has changed.
pub record Took (n : ℕ) (c : Conn) (bytes : List ℕ) (after : Conn) : Type 0 where
  pub size : length bytes ≡ n
  pub front : c.input ≡ bytes ++ after.input
  pub same_output : after.output ≡ c.output

pub read_exact-Took :
    (n : ℕ) (c : Conn) {bytes : List ℕ} {after : Conn}
    → read_exact n c ≡ (ok bytes, after)
    → Took n c bytes after
unfolding read_exact
read_exact-Took n c {bytes} {after} h = elim (Bool-cases (ltb (length c.input) n)) [
  | inl e ↦ cc (rw e at h)
  | inr e ↦
      let taken = ok-value (rw e at h) in
      let left = ok-state (rw e at h) in
      record {
        size = ap length (sym taken) ∙ all_taken n c.input e;
        front =
            sym (take-append-drop n c.input)
            ∙ ap₂ (λ xs ys. xs ++ ys) taken (ap (λ (d : Conn). d.input) left);
        same_output = ap (λ (d : Conn). d.output) (sym left);
      }
]

pub write_all-ok :
    (bytes : List ℕ) (c : Conn) {u : Unit {0}} {after : Conn}
    → write_all bytes c ≡ (ok u, after)
    → (after.input ≡ c.input) × (after.output ≡ c.output ++ bytes)
unfolding write_all
write_all-ok bytes c h = elim (Bool-cases (leb (length bytes) c.room)) [
  | inr e ↦ cc (rw e at h)
  | inl e ↦
      let left = ok-state (rw e at h) in
      (ap (λ (d : Conn). d.input) (sym left), ap (λ (d : Conn). d.output) (sym left))
]

-- Lists of one and of two bytes.
pub one_byte : (bytes : List ℕ) → length bytes ≡ 1 → bytes ≡ get_or bytes 0 0 ∷ []
one_byte [] h = absurd (omega (arith, h))
one_byte (a ∷ []) h = refl
one_byte (a ∷ b ∷ bytes) h = absurd (omega (arith, h))

pub two_bytes :
    (bytes : List ℕ) → length bytes ≡ 2 → bytes ≡ get_or bytes 0 0 ∷ get_or bytes 1 0 ∷ []
two_bytes [] h = absurd (omega (arith, h))
two_bytes (a ∷ bytes) h = ap (◌∷◌ a) (one_byte bytes (omega (arith, h)))

pub four_bytes :
    (bytes : List ℕ)
    → length bytes ≡ 4
    → bytes ≡ get_or bytes 0 0 ∷ get_or bytes 1 0 ∷ get_or bytes 2 0 ∷ get_or bytes 3 0 ∷ []
four_bytes [] h = absurd (omega (arith, h))
four_bytes (a ∷ []) h = absurd (omega (arith, h))
four_bytes (a ∷ b ∷ bytes) h = ap (λ r. a ∷ b ∷ r) (two_bytes bytes (omega (arith, h)))

-- A read that a further action follows, where the whole has succeeded: the bytes that were at the
-- front of the input.
module _ {B : Type 0} {b : B} {after : Conn} where
  pub read-then :
      (n : ℕ) (f : List ℕ → Action B) (c : Conn)
      → (read_exact n >>= f) c ≡ (ok b, after)
      → (bytes : List ℕ) × (mid : Conn) × (length bytes ≡ n)
        × (c.input ≡ bytes ++ mid.input)
        × (mid.output ≡ c.output)
        × (f bytes mid ≡ (ok b, after))
  read-then n f c h =
      let (bytes, mid, read, rest) = bind-ok (read_exact n) f c h in
      let took = read_exact-Took n c read in
      (bytes, mid, took.size, took.front, took.same_output, rest)

  pub read_1-then :
      (f : List ℕ → Action B) (c : Conn)
      → (read_exact 1 >>= f) c ≡ (ok b, after)
      → (x : ℕ) × (mid : Conn) × (c.input ≡ x ∷ mid.input)
        × (mid.output ≡ c.output)
        × (f (x ∷ []) mid ≡ (ok b, after))
  read_1-then f c h =
      let (bytes, mid, size, front, output, rest) = read-then 1 f c h in
      let shape = one_byte bytes size in
      (
        get_or bytes 0 0,
        mid,
        front ∙ ap (λ r. r ++ mid.input) shape,
        output,
        ap (λ r. f r mid) (sym shape) ∙ rest,
      )

  pub read_2-then :
      (f : List ℕ → Action B) (c : Conn)
      → (read_exact 2 >>= f) c ≡ (ok b, after)
      → (x y : ℕ) × (mid : Conn) × (c.input ≡ x ∷ y ∷ mid.input)
        × (mid.output ≡ c.output)
        × (f (x ∷ y ∷ []) mid ≡ (ok b, after))
  read_2-then f c h =
      let (bytes, mid, size, front, output, rest) = read-then 2 f c h in
      let shape = two_bytes bytes size in
      (
        get_or bytes 0 0,
        get_or bytes 1 0,
        mid,
        front ∙ ap (λ r. r ++ mid.input) shape,
        output,
        ap (λ r. f r mid) (sym shape) ∙ rest,
      )

  pub read_4-then :
      (f : List ℕ → Action B) (c : Conn)
      → (read_exact 4 >>= f) c ≡ (ok b, after)
      → (x y z w : ℕ) × (mid : Conn) × (c.input ≡ x ∷ y ∷ z ∷ w ∷ mid.input)
        × (mid.output ≡ c.output)
        × (f (x ∷ y ∷ z ∷ w ∷ []) mid ≡ (ok b, after))
  read_4-then f c h =
      let (bytes, mid, size, front, output, rest) = read-then 4 f c h in
      let shape = four_bytes bytes size in
      (
        get_or bytes 0 0,
        get_or bytes 1 0,
        get_or bytes 2 0,
        get_or bytes 3 0,
        mid,
        front ∙ ap (λ r. r ++ mid.input) shape,
        output,
        ap (λ r. f r mid) (sym shape) ∙ rest,
      )

  pub require-then :
      (t : Bool) (e : Error) (f : Unit {0} → Action B) (c : Conn)
      → (require t e >>= f) c ≡ (ok b, after)
      → (t ≡ true) × (f tt c ≡ (ok b, after))
  require-then true e f c h = (refl, h)
  require-then false e f c h = cc

  pub or_raise-then :
      {A : Type 0} (o : Option A) (e : Error) (f : A → Action B) (c : Conn)
      → (or_raise o e >>= f) c ≡ (ok b, after)
      → (a : A) × (o ≡ some a) × (f a c ≡ (ok b, after))
  or_raise-then none e f c h = cc
  or_raise-then (some a) e f c h = (a, refl, h)

  pub write_all-then :
      (bytes : List ℕ) (f : Unit {0} → Action B) (c : Conn)
      → (write_all bytes >>= f) c ≡ (ok b, after)
      → (mid : Conn) × (mid.input ≡ c.input)
        × (mid.output ≡ c.output ++ bytes)
        × (f tt mid ≡ (ok b, after))
  write_all-then bytes f c h =
      let (u, mid, wrote, rest) = bind-ok (write_all bytes) f c h in
      let (input, output) = write_all-ok bytes c wrote in (mid, input, output, rest)
