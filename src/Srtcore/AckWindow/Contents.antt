-- ===== src/Srtcore/AckWindow/Contents.antt =====
-- The records that the window holds, and how the buffer's operations change them.
use srt_vpn.Prelude.{
  ℕ, zero, suc, ◌+◌, ◌-◌, ◌%◌, ◌≤◌, ◌<◌, none, some, List, [], ◌∷◌, ◌++◌, length, get_or, set_elem,
  replicate, ◌≡◌, ◌≢◌, refl, ◌∙◌, ap, ap₂, arith, ◌⊎◌, inl, inr, Bool-cases,
}
use srt_vpn.Prelude.Ints.{ℤ, negsuc, int_eq}
use srt_vpn.Srtcore.AckWindow.{AckSeq, AckWindow, zero_seq, ack_wnd_size, search_seq, new_window}
use srt_vpn.Srtcore.AckWindow.Queue.{Queue, queue_find}

abbrev pub IsValid : AckWindow → Type 0
IsValid w = (w.head < ack_wnd_size) × (w.tail < ack_wnd_size) × (length w.seqs ≡ ack_wnd_size)

-- `n` records from a place on, going round.
abbrev pub records : List AckSeq → ℕ → ℕ → Queue
records s i zero = []
records s i (suc n) = get_or s (i % ack_wnd_size) zero_seq ∷ records s (i + 1) n

abbrev pub held : AckWindow → ℕ
held w = (w.head + ack_wnd_size - w.tail) % ack_wnd_size

abbrev pub contents : AckWindow → Queue
contents w = records w.seqs w.tail (held w)

pub length-records : (s : List AckSeq) (i n : ℕ) → length (records s i n) ≡ n
length-records s i zero = refl
length-records s i (suc n) = ap suc (length-records s (i + 1) n)

pub records_round :
    (s : List AckSeq) (i j n : ℕ)
    → i % ack_wnd_size ≡ j % ack_wnd_size
    → records s i n ≡ records s j n
records_round s i j zero e = refl
records_round s i j (suc n) e =
    ap₂ ◌∷◌ (ap (λ k. get_or s k zero_seq) e) (records_round s (i + 1) (j + 1) n (omega (arith, e)))

get_or-set_self :
    (s : List AckSeq) (h : ℕ) (x : AckSeq) → h < length s → get_or (set_elem s h x) h zero_seq ≡ x
get_or-set_self [] h x l = absurd (omega (arith, l))
get_or-set_self (y ∷ s) zero x l = refl
get_or-set_self (y ∷ s) (suc h) x l = get_or-set_self s h x (omega (arith, l))

get_or-set_other :
    (s : List AckSeq) (h k : ℕ) (x : AckSeq)
    → k ≢ h
    → get_or (set_elem s h x) k zero_seq ≡ get_or s k zero_seq
get_or-set_other [] h k x n = refl
get_or-set_other (y ∷ s) zero zero x n = absurd (n refl)
get_or-set_other (y ∷ s) zero (suc k) x n = refl
get_or-set_other (y ∷ s) (suc h) zero x n = refl
get_or-set_other (y ∷ s) (suc h) (suc k) x n = get_or-set_other s h k x (λ e. n (ap suc e))

pub length-set_elem : (s : List AckSeq) (h : ℕ) (x : AckSeq) → length (set_elem s h x) ≡ length s
length-set_elem [] h x = refl
length-set_elem (y ∷ s) zero x = refl
length-set_elem (y ∷ s) (suc h) x = ap suc (length-set_elem s h x)

-- Writing the place after some records adds one to them.
pub records-set_elem :
    (s : List AckSeq) (x : AckSeq) (i n h : ℕ)
    → length s ≡ ack_wnd_size
    → n < ack_wnd_size
    → (i + n) % ack_wnd_size ≡ h
    → records (set_elem s h x) i (suc n) ≡ records s i n ++ (x ∷ [])
records-set_elem s x i zero h l m e =
    let here : i % ack_wnd_size ≡ h = omega (arith, e) in
    ap (λ y. y ∷ []) (rw here (get_or-set_self s h x (omega (arith, l, here))))
records-set_elem s x i (suc n) h l m e =
    ap₂ ◌∷◌ (get_or-set_other s h (i % ack_wnd_size) x (λ d. omega (arith, d, e, m)))
      (records-set_elem s x (i + 1) n h l (omega arith) (omega (arith, e)))

-- The search of the buffer finds what the queue finds.
abbrev pub Agree : AckWindow → (ℕ → ℕ) → ℤ → ℕ → ℕ → Type 0
Agree w at seq i n =
    ((search_seq w at seq i n ≡ none) × (queue_find (records w.seqs i n) seq ≡ none))
    ⊎ ((j : ℕ) × (i ≤ j)
        × (j < i + n)
        × (search_seq w at seq i n ≡ some (at j))
        × (queue_find (records w.seqs i n) seq
            ≡ some (
              get_or w.seqs (j % ack_wnd_size) zero_seq,
              records w.seqs (j + 1) (i + n - (j + 1)),
            )))

pub search-Agree :
    (w : AckWindow) (at : ℕ → ℕ) (seq : ℤ) (i n : ℕ)
    → ((k : ℕ) → i ≤ k → k < i + n → at k ≡ k % ack_wnd_size)
    → Agree w at seq i n
unfolding search_seq
search-Agree w at seq i zero places = inl (refl, refl)
search-Agree w at seq i (suc n) places =
    let here : at i ≡ i % ack_wnd_size = places i (omega arith) (omega arith) in
    elim (Bool-cases (int_eq seq (get_or w.seqs (i % ack_wnd_size) zero_seq).ack_seq_no)) [
      | inl e ↦ inr (
        i,
        omega arith,
        omega arith,
        rw (here, e) refl,
        rw e (
            ap (λ m. some (get_or w.seqs (i % ack_wnd_size) zero_seq, records w.seqs (i + 1) m))
              (omega arith)),
      )
      | inr e ↦
          elim (search-Agree w at seq (i + 1) n (λ k l m. places k (omega arith) (omega arith))) [
            | inl (p, q) ↦ inl (rw (here, e) p, rw e q)
            | inr (j, l, m, p, q) ↦ inr (
              j,
              omega arith,
              omega arith,
              rw (here, e) p,
              rw e (
                  q
                  ∙ ap
                      (λ r.
                        some (get_or w.seqs (j % ack_wnd_size) zero_seq, records w.seqs (j + 1) r))
                      (omega arith)),
            )
          ]
    ]

length-replicate : (n : ℕ) (x : AckSeq) → length (replicate n x) ≡ n
length-replicate zero x = refl
length-replicate (suc n) x = ap suc (length-replicate n x)

pub new_window-IsValid : IsValid new_window
unfolding new_window
new_window-IsValid = (
  omega arith,
  omega arith,
  length-set_elem (replicate ack_wnd_size zero_seq) 0 (record zero_seq { ack_seq_no = negsuc 0 })
      ∙ length-replicate ack_wnd_size zero_seq,
)
