-- ===== src/Udp/Parts.antt =====
-- src/server/forward.rs: the parts of a datagram that have come, against the pieces it was cut into.
use srt_vpn.Prelude.{
  ℕ, zero, suc, ◌≤◌, ◌<◌, ◌≡◌, ◌≢◌, ◌⊎◌, inl, inr, refl, Option, none, some, List, [], ◌∷◌, ◌++◌,
  arith, length, get_or, get_elem?, replicate, set_elem, ap,
}
use srt_vpn.Udp.Reassembler.{collect}

-- A part is missing or is the piece in its place.
abbrev pub Matches : List (Option (List ℕ)) → List (List ℕ) → Type 0
Matches [] [] = Unit {0}
Matches (p ∷ ps) (q ∷ qs) = ((p ≡ none) ⊎ (p ≡ some q)) × Matches ps qs
Matches _ _ = ⊥

-- The number of parts that are there.
unfoldable pub present : List (Option (List ℕ)) → ℕ
present [] = 0
present (none ∷ ps) = present ps
present (some p ∷ ps) = suc (present ps)

unfoldable pub concat : List (List ℕ) → List ℕ
concat [] = []
concat (q ∷ qs) = q ++ concat qs

pub replicate-Matches : (qs : List (List ℕ)) → Matches (replicate (length qs) none) qs
replicate-Matches [] = tt
replicate-Matches (q ∷ qs) = (inl refl, replicate-Matches qs)

pub present-replicate : (n : ℕ) → present (replicate n none) ≡ 0
unfolding present
present-replicate zero = refl
present-replicate (suc n) = present-replicate n

pub length-Matches :
    (ps : List (Option (List ℕ))) (qs : List (List ℕ)) → Matches ps qs → length ps ≡ length qs
length-Matches [] [] m = refl
length-Matches [] (q ∷ qs) m = absurd m
length-Matches (p ∷ ps) [] m = absurd m
length-Matches (p ∷ ps) (q ∷ qs) m = ap suc (length-Matches ps qs m.1)

pub set_elem-Matches :
    (ps : List (Option (List ℕ))) (qs : List (List ℕ)) (i : ℕ)
    → Matches ps qs
    → Matches (set_elem ps i (some (get_or qs i []))) qs
set_elem-Matches [] [] i m = tt
set_elem-Matches [] (q ∷ qs) i m = absurd m
set_elem-Matches (p ∷ ps) [] i m = absurd m
set_elem-Matches (p ∷ ps) (q ∷ qs) zero m = (inr refl, m.1)
set_elem-Matches (p ∷ ps) (q ∷ qs) (suc i) m = (m.0, set_elem-Matches ps qs i m.1)

pub present-set_elem :
    (ps : List (Option (List ℕ))) (i : ℕ) (b : List ℕ)
    → get_elem? ps i ≡ some none
    → present (set_elem ps i (some b)) ≡ suc (present ps)
unfolding present
present-set_elem [] i b h = cc
present-set_elem (none ∷ ps) zero b h = refl
present-set_elem (some p ∷ ps) zero b h = cc
present-set_elem (none ∷ ps) (suc i) b h = present-set_elem ps i b h
present-set_elem (some p ∷ ps) (suc i) b h = ap suc (present-set_elem ps i b h)

pub present-le : (ps : List (Option (List ℕ))) → present ps ≤ length ps
unfolding present
present-le [] = omega arith
present-le (none ∷ ps) = omega (arith, present-le ps)
present-le (some p ∷ ps) = omega (arith, present-le ps)

-- As long as a part is missing not all are there.
pub present-lt :
    (ps : List (Option (List ℕ))) (i : ℕ) → get_elem? ps i ≡ some none → present ps < length ps
unfolding present
present-lt [] i h = cc
present-lt (none ∷ ps) zero h = omega (arith, present-le ps)
present-lt (some p ∷ ps) zero h = cc
present-lt (none ∷ ps) (suc i) h = omega (arith, present-lt ps i h)
present-lt (some p ∷ ps) (suc i) h = omega (arith, present-lt ps i h)

-- A part in range is missing or is its piece.
pub get_elem?-Matches :
    (ps : List (Option (List ℕ))) (qs : List (List ℕ)) (i : ℕ)
    → Matches ps qs
    → i < length qs
    → (get_elem? ps i ≡ some none) ⊎ (get_elem? ps i ≡ some (some (get_or qs i [])))
get_elem?-Matches [] [] i m lt = absurd (omega arith)
get_elem?-Matches [] (q ∷ qs) i m lt = absurd m
get_elem?-Matches (p ∷ ps) [] i m lt = absurd m
get_elem?-Matches (p ∷ ps) (q ∷ qs) zero m lt = elim m.0 [
  | inl e ↦ inl (ap some e)
  | inr e ↦ inr (ap some e)
]
get_elem?-Matches (p ∷ ps) (q ∷ qs) (suc i) m lt = get_elem?-Matches ps qs i m.1 (omega arith)

pub get_elem?-set_elem :
    (ps : List (Option (List ℕ))) (i j : ℕ) (x : Option (List ℕ))
    → i ≢ j
    → get_elem? (set_elem ps i x) j ≡ get_elem? ps j
get_elem?-set_elem [] i j x ne = refl
get_elem?-set_elem (p ∷ ps) zero zero x ne = absurd (ne refl)
get_elem?-set_elem (p ∷ ps) zero (suc j) x ne = refl
get_elem?-set_elem (p ∷ ps) (suc i) zero x ne = refl
get_elem?-set_elem (p ∷ ps) (suc i) (suc j) x ne = get_elem?-set_elem ps i j x (λ e. ne (ap suc e))

pub get_elem?-set_elem_self :
    (ps : List (Option (List ℕ))) (i : ℕ) (b : List ℕ)
    → get_elem? (set_elem ps i (some b)) i ≢ some none
get_elem?-set_elem_self [] i b h = cc
get_elem?-set_elem_self (p ∷ ps) zero b h = cc
get_elem?-set_elem_self (p ∷ ps) (suc i) b h = get_elem?-set_elem_self ps i b h

pub get_elem?-lt :
    (ps : List (Option (List ℕ))) (i : ℕ) → get_elem? ps i ≡ some none → i < length ps
get_elem?-lt [] i h = cc
get_elem?-lt (p ∷ ps) zero h = omega arith
get_elem?-lt (p ∷ ps) (suc i) h = omega (arith, get_elem?-lt ps i h)

-- If all parts are there, they are the pieces.
pub collect-Matches :
    (ps : List (Option (List ℕ))) (qs : List (List ℕ))
    → Matches ps qs
    → ((i : ℕ) → get_elem? ps i ≢ some none)
    → (collect ps ≡ some (concat qs)) × (present ps ≡ length qs)
unfolding collect concat present
collect-Matches [] [] m h = (refl, refl)
collect-Matches [] (q ∷ qs) m h = absurd m
collect-Matches (p ∷ ps) [] m h = absurd m
collect-Matches (none ∷ ps) (q ∷ qs) m h = absurd (h 0 refl)
collect-Matches (some p ∷ ps) (q ∷ qs) (inl e, m) h = cc
collect-Matches (some p ∷ ps) (q ∷ qs) (inr e, m) h =
    let (body, n) = collect-Matches ps qs m (λ i. h (suc i)) in
    let same : p ≡ q = cc in (rw (body, same) refl, ap suc n)
