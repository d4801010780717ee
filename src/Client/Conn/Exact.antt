-- ===== src/Client/Conn/Exact.antt =====
-- Actions that succeed after a part of the input, whatever follows it.
use srt_vpn.Prelude.{
  ℕ, ◌+◌, Bool, true, false, Option, none, some, List, [], ◌∷◌, ◌++◌, ltb, leb, if◌then◌else◌,
  length, take, ◌<◌, ◌≡◌, ◌≢◌, ◌⊎◌, inl, inr, refl, sym, ap, ◌∙◌, arith, Bool-cases, lt→ltb, min,
  length-append, length-take, take-append-drop, append_assoc, take-length-append,
  drop-length-append, subst,
}
use srt_vpn.Client.Conn.{
  Conn, Error, Result, ok, err, Action, pure, raise, or_raise, require, next, read_exact, write_all,
  ◌>>=◌,
}

-- It is an error.
abbrev pub Fails : {A : Type 0} → Result A → Type 0
Fails (ok a) = ⊥
Fails (err e) = Unit {0}

-- The connection with another input.
abbrev pub with_input : Conn → List ℕ → Conn
with_input c bytes = record c { input = bytes }

-- The action reads `used` from the front of the input: what follows is left, and does not change the
-- result; a part of `used` is not enough.
pub record Reads {A : Type 0} (m : Action A) (c : Conn) (a : A) (after : Conn) : Type 0 where
  pub used : List ℕ
  pub input_split : c.input ≡ used ++ after.input
  pub whatever_follows :
      (more : List ℕ) → m (with_input c (used ++ more)) ≡ (ok a, with_input after more)
  pub not_less : (p q : List ℕ) → used ≡ p ++ q → q ≢ [] → Fails (m (with_input c p)).0

abbrev pub ReadsIf : {A : Type 0} → Action A → Conn → Result A × Conn → Type 0
ReadsIf m c (ok a, after) = Reads m c a after
ReadsIf m c (err e, after) = Unit {0}

-- Where the action succeeds it does so.
abbrev pub Exact : {A : Type 0} → Action A → Type 0
Exact m = (c : Conn) → ReadsIf m c (m c)

-- A front of two lists ends in the first, or in the second.
front_cases :
    (p q us vs : List ℕ)
    → us ++ vs ≡ p ++ q
    → ((w : List ℕ) × (us ≡ p ++ w) × (w ≢ [])) ⊎ ((w : List ℕ) × (p ≡ us ++ w) × (vs ≡ w ++ q))
front_cases p q [] vs e = inr (p, refl, e)
front_cases [] q (u ∷ us) vs e = inl (u ∷ us, refl, λ h. cc)
front_cases (x ∷ p) q (u ∷ us) vs e =
    let heads : u ≡ x = cc in
    let tails : us ++ vs ≡ p ++ q = cc in
    elim (front_cases p q us vs tails) [
      | inl (w, a, b) ↦ inl (w, cc, b)
      | inr (w, a, b) ↦ inr (w, cc, b)
    ]

length_nonempty : (q : List ℕ) → q ≢ [] → 0 < length q
length_nonempty [] h = absurd (h refl)
length_nonempty (x ∷ xs) h = omega arith

nil_front : (p q : List ℕ) → [] ≡ p ++ q → q ≡ []
nil_front [] q e = sym e
nil_front (x ∷ p) q e = cc

pub pure-Exact : {A : Type 0} (a : A) → Exact (pure a)
pure-Exact a c = record {
  used = [];
  input_split = refl;
  whatever_follows = λ more. refl;
  not_less = λ p q e ne. absurd (ne (nil_front p q e));
}

pub raise-Exact : (A : Type 0) (e : Error) → Exact (raise {A = A} e)
raise-Exact A e c = tt

pub or_raise-Exact : {A : Type 0} (o : Option A) (e : Error) → Exact (or_raise o e)
or_raise-Exact {A = A} none e = raise-Exact A e
or_raise-Exact (some a) e = pure-Exact a

pub require-Exact : (b : Bool) (e : Error) → Exact (require b e)
require-Exact true e = pure-Exact tt
require-Exact false e = raise-Exact (Unit {0}) e

pub if-Exact :
    {A : Type 0} (b : Bool) (m n : Action A) → Exact m → Exact n → Exact (if b then m else n)
if-Exact true m n hm hn = hm
if-Exact false m n hm hn = hn

pub write_all-Exact : (bytes : List ℕ) → Exact (write_all bytes)
unfolding write_all
write_all-Exact bytes c = elim (Bool-cases (leb (length bytes) c.room)) [
  | inr e ↦ rw e tt
  | inl e ↦ rw e (record {
    used = [];
    input_split = refl;
    whatever_follows = λ more. rw e refl;
    not_less = λ p q h ne. absurd (ne (nil_front p q h));
  })
]

-- What is asked for is read from the front.
pub read_exact_front :
    (c : Conn) (us more : List ℕ)
    → read_exact (length us) (with_input c (us ++ more)) ≡ (ok us, with_input c more)
unfolding read_exact
read_exact_front c us more =
    let enough : ltb (length us + length more) (length us) ≡ false = ground arith in
    rw (length-append us more, enough, take-length-append, drop-length-append) refl

read_exact_short :
    (n : ℕ) (c : Conn) (p : List ℕ) → length p < n → Fails (read_exact n (with_input c p)).0
unfolding read_exact
read_exact_short n c p h = rw (lt→ltb (length p) n h) tt

pub all_taken : (n : ℕ) (xs : List ℕ) → ltb (length xs) n ≡ false → length (take n xs) ≡ n
all_taken n xs e = let size : min n (length xs) ≡ n = ground arith in length-take n xs ∙ size

pub read_exact-Exact : (n : ℕ) → Exact (read_exact n)
unfolding read_exact
read_exact-Exact n c = elim (Bool-cases (ltb (length c.input) n)) [
  | inl e ↦ rw e tt
  | inr e ↦ rw e (record {
    used = take n c.input;
    input_split = sym (take-append-drop n c.input);
    whatever_follows = λ more.
        subst
          (λ k.
            read_exact k (with_input c (take n c.input ++ more))
            ≡ (ok (take n c.input), with_input c more))
          (all_taken n c.input e) (read_exact_front c (take n c.input) more);
    not_less = λ p q h ne. read_exact_short n c p (
        omega (arith, all_taken n c.input e, ap length h, length-append p q, length_nonempty q ne));
  })
]

pub Result-cases :
    {A : Type 0} (r : Result A × Conn)
    → ((a : A) × (after : Conn) × (r ≡ (ok a, after)))
      ⊎ ((e : Error) × (after : Conn) × (r ≡ (err e, after)))
Result-cases (ok a, after) = inl (a, after, refl)
Result-cases (err e, after) = inr (e, after, refl)

next-Fails :
    {A B : Type 0} (r : Result A × Conn) (f : A → Action B) → Fails r.0 → Fails (next r.0 r.1 f).0
next-Fails (ok a, c) f h = absurd h
next-Fails (err e, c) f h = tt

Reads-next :
    {A B : Type 0} (m : Action A) (f : A → Action B) (c mid after : Conn) (a : A) (b : B)
    → Reads m c a mid
    → Reads (f a) mid b after
    → Reads (m >>= f) c b after
Reads-next m f c mid after a b first second = record {
  used = first.used ++ second.used;
  input_split =
      first.input_split
      ∙ ap (λ r. first.used ++ r) second.input_split
      ∙ sym (append_assoc first.used second.used after.input);
  whatever_follows = λ more.
      rw (append_assoc first.used second.used more, first.whatever_follows (second.used ++ more))
        (second.whatever_follows more);
  not_less = λ p q h ne. elim (front_cases p q first.used second.used h) [
    | inl (w, same, left) ↦ next-Fails (m (with_input c p)) f (first.not_less p w same left)
    | inr (w, same, rest) ↦ rw (same, first.whatever_follows w) (second.not_less w q rest ne)
  ];
}

pub bind-Exact :
    {A B : Type 0} (m : Action A) (f : A → Action B)
    → Exact m
    → ((a : A) → Exact (f a))
    → Exact (m >>= f)
bind-Exact m f hm hf c = elim (Result-cases (m c)) [
  | inr (e, after, same) ↦ rw same tt
  | inl (a, mid, same) ↦ elim (Result-cases (f a mid)) [
    | inr (e, after, then_same) ↦ rw same (rw then_same tt)
    | inl (b, after, then_same) ↦
        let first : Reads m c a mid = subst (ReadsIf m c) same (hm c) in
        let second : Reads (f a) mid b after = subst (ReadsIf (f a) mid) then_same (hf a mid) in
        rw same (rw then_same (Reads-next m f c mid after a b first second))
  ]
]

pub ruleset exact = (
  bind-Exact, read_exact-Exact, write_all-Exact, pure-Exact, raise-Exact, or_raise-Exact,
  require-Exact, if-Exact,
)
