-- ===== src/Srtcore/AckWindow/InTime.antt =====
-- An ACK that was sent is found by its ACKACK, unless 1023 others came between.
use srt_vpn.Prelude.{
  ℕ, suc, ◌+◌, ◌≤◌, ◌<◌, true, false, Option, some, List, [], ◌∷◌, ◌++◌, length, drop, All, ◌==◌,
  ==_iff, ◌≡◌, ◌≢◌, refl, ◌∙◌, ap, sym, subst, arith, inl, inr, Bool-cases, append_assoc,
  length-append, length-drop,
}
use srt_vpn.Prelude.Ints.{ℤ, pos, negsuc, int_eq}
use srt_vpn.Srtcore.AckWindow.{AckSeq, AckWindow, rtt_of, store, acknowledge}
use srt_vpn.Srtcore.AckWindow.Queue.{Queue, capacity, queue_find, queue_store, found_result}
use srt_vpn.Srtcore.AckWindow.Contents.{IsValid, contents, held, length-records}
use srt_vpn.Srtcore.AckWindow.Refines.{
  sent_at, queue_store_full, queue_store_free, store_refines, acknowledge_refines,
}

-- ACKs one after another: number, acknowledged packet and time.
abbrev pub store_all : AckWindow → List (ℤ × ℕ × ℕ) → AckWindow
store_all w [] = w
store_all w ((seq, ack, now) ∷ later) = store_all (store w seq ack now) later

-- No record has the number.
abbrev pub Without : ℤ → Queue → Type 0
Without seq q = All (λ r. int_eq seq r.ack_seq_no ≡ false) q

int_eq_self : (z : ℤ) → int_eq z z ≡ true
int_eq_self (pos n) = (==_iff n n).1 refl
int_eq_self (negsuc n) = (==_iff n n).1 refl

-- The record stands behind records of other numbers, and `ys` came after it.
Stands : AckSeq → Queue → ℕ → Type 0
Stands r q n =
    (xs : Queue) × (ys : Queue) × (q ≡ xs ++ (r ∷ ys))
    × Without r.ack_seq_no xs
    × (length ys ≡ n)
    × (length q ≤ capacity)

found_behind :
    (r : AckSeq) (xs ys : Queue)
    → Without r.ack_seq_no xs
    → queue_find (xs ++ (r ∷ ys)) r.ack_seq_no ≡ some (r, ys)
found_behind r [] ys a = rw (int_eq_self r.ack_seq_no) refl
found_behind r (x ∷ xs) ys (other, more) = rw other (found_behind r xs ys more)

push_back :
    (r s : AckSeq) (q xs ys : Queue)
    → q ≡ xs ++ (r ∷ ys)
    → q ++ (s ∷ []) ≡ xs ++ (r ∷ (ys ++ (s ∷ [])))
push_back r s q xs ys e = ap (λ p. p ++ (s ∷ [])) e ∙ append_assoc xs (r ∷ ys) (s ∷ [])

store_free-Stands :
    (r s : AckSeq) (q : Queue) (n : ℕ)
    → Stands r q n
    → length q ≢ capacity
    → Stands r (queue_store q s) (suc n)
unfolding Stands
store_free-Stands r s q n (xs, ys, e, others, len, fits) free =
    let stored = queue_store_free q s free in
    (
      xs,
      ys ++ (s ∷ []),
      stored ∙ push_back r s q xs ys e,
      others,
      omega (arith, length-append ys (s ∷ []), len),
      omega (arith, ap length stored, length-append q (s ∷ []), fits, free),
    )

store_full-Stands :
    (r s : AckSeq) (q : Queue) (n : ℕ)
    → Stands r q n
    → n < 1022
    → length q ≡ capacity
    → Stands r (queue_store q s) (suc n)
unfolding Stands
store_full-Stands r s q n ([], ys, e, others, len, fits) h full =
    absurd (omega (arith, ap length e, len, full, h))
store_full-Stands r s q n (x ∷ xs, ys, e, (_, others), len, fits) h full =
    let stored = queue_store_full q s full in
    (
      xs,
      ys ++ (s ∷ []),
      stored ∙ ap (drop 1) (push_back r s q (x ∷ xs) ys e),
      others,
      omega (arith, length-append ys (s ∷ []), len),
      omega
          (arith, ap length stored, length-drop 1 (q ++ (s ∷ [])), length-append q (s ∷ []), full),
    )

queue_store-Stands :
    (r s : AckSeq) (q : Queue) (n : ℕ)
    → Stands r q n
    → n < 1022
    → Stands r (queue_store q s) (suc n)
queue_store-Stands r s q n stands h = elim (Bool-cases (length q == capacity)) [
  | inl e ↦ store_full-Stands r s q n stands h ((==_iff (length q) capacity).0 e)
  | inr e ↦ store_free-Stands r s q n stands (λ d. other (length q) capacity e d)
]
  where
    other : (x y : ℕ) → (x == y) ≡ false → x ≢ y
    other x y e d = ground (arith, (==_iff x y).1 d)

store_all-Stands :
    (r : AckSeq) (w : AckWindow) (later : List (ℤ × ℕ × ℕ)) (n : ℕ)
    → IsValid w
    → Stands r (contents w) n
    → n + length later ≤ 1022
    → (m : ℕ) × Stands r (contents (store_all w later)) m × IsValid (store_all w later)
store_all-Stands r w [] n v stands h = (n, stands, v)
store_all-Stands r w ((seq, ack, now) ∷ later) n v stands h =
    let next = store_refines w seq ack now v in
    store_all-Stands r (store w seq ack now) later (suc n) next.1
      (subst (λ q. Stands r q (suc n)) (sym next.0)
        (queue_store-Stands r (sent_at seq ack now) (contents w) n stands (omega arith)))
      (omega arith)

stored-Stands :
    (r : AckSeq) (q : Queue)
    → Without r.ack_seq_no q
    → length q ≤ capacity
    → Stands r (queue_store q r) 0
unfolding Stands
stored-Stands r [] a l = ([], [], refl, tt, omega arith, omega arith)
stored-Stands r (x ∷ q) (other, a) l = elim (Bool-cases (length (x ∷ q) == capacity)) [
  | inl e ↦
      let stored = queue_store_full (x ∷ q) r ((==_iff (length (x ∷ q)) capacity).0 e) in
      (q, [], stored, a, omega arith, omega (arith, ap length stored, length-append q (r ∷ []), l))
  | inr e ↦
      let free : length (x ∷ q) ≢ capacity =
        λ d. ground (arith, (==_iff (length (x ∷ q)) capacity).1 d) in
      let stored = queue_store_free (x ∷ q) r free in
      (
        x ∷ q,
        [],
        stored,
        (other, a),
        omega arith,
        omega (arith, ap length stored, length-append q (r ∷ []), l, free),
      )
]

-- An ACKACK finds its ACK in time: when the window has no record of the number of an ACK, and after
-- it at most 1022 more ACKs of any numbers are stored, then `acknowledge` of that number returns
-- the packet number that the ACK carried and the time since it was stored.
pub acknowledge_in_time :
    (w : AckWindow) (seq : ℤ) (ack now currtime : ℕ) (later : List (ℤ × ℕ × ℕ))
    → IsValid w
    → Without seq (contents w)
    → length later ≤ 1022
    → (acknowledge (store_all (store w seq ack now) later) seq currtime).0
      ≡ (rtt_of (sent_at seq ack now) currtime, some ack)
unfolding Stands
acknowledge_in_time w seq ack now currtime later v fresh h =
    let r = sent_at seq ack now in
    let first = store_refines w seq ack now v in
    let stands =
      stored-Stands r (contents w) fresh (omega (arith, length-records w.seqs w.tail (held w))) in
    let (m, (xs, ys, e, others, _, _), valid) =
      store_all-Stands r (store w seq ack now) later 0 first.1
        (subst (λ q. Stands r q 0) (sym first.0) stands) (omega arith) in
    let after = store_all (store w seq ack now) later in
    let found = ap (λ q. queue_find q seq) e ∙ found_behind r xs ys others in
    ap (λ (x : (ℤ × Option ℕ) × Queue). x.0) (acknowledge_refines after seq currtime valid).0
    ∙ ap (λ o. (found_result currtime (contents after) o).0) found
