-- ===== src/Srtcore/AckWindow/Refines.antt =====
-- The circular buffer behaves as the queue of the records that it holds.
use srt_vpn.Prelude.{
  ℕ, zero, suc, ◌+◌, ◌-◌, ◌%◌, ◌≤◌, ◌<◌, Bool, true, false, Option, none, some, [], ◌∷◌, ◌++◌,
  length, drop, get_or, set_elem, leb, ◌==◌, ==_iff, ◌≡◌, ◌≢◌, refl, ◌∙◌, ap, subst, sym, arith,
  inl, inr, Bool-cases, leb→le,
}
use srt_vpn.Prelude.Ints.{ℤ, negsuc}
use srt_vpn.Srtcore.AckWindow.{
  AckSeq, AckWindow, zero_seq, seq_at, ack_wnd_size, search_seq, store, take_record, rtt_of,
  acknowledge,
}
use srt_vpn.Srtcore.AckWindow.Queue.{Queue, capacity, queue_store, found_result, queue_acknowledge}
use srt_vpn.Srtcore.AckWindow.Contents.{
  IsValid, records, held, contents, length-records, records_round, records-set_elem,
  length-set_elem, search-Agree,
}

-- What `store` writes.
abbrev pub sent_at : ℤ → ℕ → ℕ → AckSeq
sent_at seq ack now = record { ack_seq_no = seq; ack = ack; time_stamp = now }

pub queue_store_full :
    (q : Queue) (r : AckSeq) → length q ≡ capacity → queue_store q r ≡ drop 1 (q ++ (r ∷ []))
queue_store_full q r e = rw ((==_iff (length q) capacity).1 e) refl

pub queue_store_free :
    (q : Queue) (r : AckSeq) → length q ≢ capacity → queue_store q r ≡ q ++ (r ∷ [])
queue_store_free q r n = elim (Bool-cases (length q == capacity)) [
  | inl e ↦ absurd (n ((==_iff (length q) capacity).0 e))
  | inr e ↦ rw e refl
]

module _ (w : AckWindow) (r : AckSeq) (h : w.head < ack_wnd_size) (t : w.tail < ack_wnd_size)
    (l : length w.seqs ≡ ack_wnd_size) where
  -- All records after the write: those before, and the new one.
  written : records (set_elem w.seqs w.head r) w.tail (suc (held w)) ≡ contents w ++ (r ∷ [])
  written = records-set_elem w.seqs r w.tail (held w) w.head l (omega arith) (omega arith)

  store_full :
      (w.head + 1) % ack_wnd_size ≡ w.tail
      → records (set_elem w.seqs w.head r) ((w.tail + 1) % ack_wnd_size) (
          ((w.head + 1) % ack_wnd_size + ack_wnd_size - (w.tail + 1) % ack_wnd_size) % ack_wnd_size)
        ≡ queue_store (contents w) r
  store_full e =
      let all_taken : held w ≡ capacity = omega arith in
      let same : ((w.head + 1) % ack_wnd_size + ack_wnd_size - (w.tail + 1) % ack_wnd_size)
            % ack_wnd_size
          ≡ held w =
        omega arith in
      ap (records (set_elem w.seqs w.head r) ((w.tail + 1) % ack_wnd_size)) same
      ∙ records_round (set_elem w.seqs w.head r) ((w.tail + 1) % ack_wnd_size) (w.tail + 1) (held w)
          (omega arith)
      ∙ ap (drop 1) written
      ∙ sym (queue_store_full (contents w) r (length-records w.seqs w.tail (held w) ∙ all_taken))

  store_free :
      (w.head + 1) % ack_wnd_size ≢ w.tail
      → records
          (set_elem w.seqs w.head r)
          w.tail
          (((w.head + 1) % ack_wnd_size + ack_wnd_size - w.tail) % ack_wnd_size)
        ≡ queue_store (contents w) r
  store_free n =
      let one_free : held w ≢ capacity = λ e. n (omega arith) in
      let same : ((w.head + 1) % ack_wnd_size + ack_wnd_size - w.tail) % ack_wnd_size
          ≡ suc (held w) =
        omega arith in
      ap (records (set_elem w.seqs w.head r) w.tail) same
      ∙ written
      ∙ sym (
          queue_store_free (contents w) r
            (λ e. one_free (sym (length-records w.seqs w.tail (held w)) ∙ e)))

-- `store` adds the record to the queue, which forgets its oldest when all 1023 places are taken.
pub store_refines :
    (w : AckWindow) (seq : ℤ) (ack now : ℕ)
    → IsValid w
    → (contents (store w seq ack now) ≡ queue_store (contents w) (sent_at seq ack now))
      × IsValid (store w seq ack now)
unfolding store
store_refines w seq ack now (h, t, l) =
    let r = sent_at seq ack now in
    elim (Bool-cases ((w.head + 1) % ack_wnd_size == w.tail)) [
      | inl e ↦
          let full = (==_iff ((w.head + 1) % ack_wnd_size) w.tail).0 e in
          (
            rw e (store_full w r h t l full),
            (omega arith, rw e (omega arith), length-set_elem w.seqs w.head r ∙ l),
          )
      | inr e ↦ (
        rw e (store_free w r h t l (λ d. other ((w.head + 1) % ack_wnd_size) w.tail e d)),
        (omega arith, rw e t, length-set_elem w.seqs w.head r ∙ l),
      )
    ]
  where
    other : (x y : ℕ) → (x == y) ≡ false → x ≢ y
    other x y e d = ground (arith, (==_iff x y).1 d)

-- The window as the caller of `acknowledge` sees it: what is returned, and the records left.
abbrev pub seen : (ℤ × Option ℕ) × AckWindow → (ℤ × Option ℕ) × Queue
seen (r, w) = (r, contents w)

module _ (w : AckWindow) (currtime j n : ℕ) (h : w.head < ack_wnd_size) (t : w.tail < ack_wnd_size)
    (l : length w.seqs ≡ ack_wnd_size) where
  -- A record is taken at place `j`: the tail goes behind it, or the buffer starts again.
  taken_goes_on :
      held w ≡ n
      → w.tail ≤ j
      → j < w.tail + n
      → records w.seqs
          ((j % ack_wnd_size + 1) % ack_wnd_size)
          ((w.head + ack_wnd_size - (j % ack_wnd_size + 1) % ack_wnd_size) % ack_wnd_size)
        ≡ records w.seqs (j + 1) (w.tail + n - (j + 1))
  taken_goes_on e a b =
      let left : (w.head + ack_wnd_size - (j % ack_wnd_size + 1) % ack_wnd_size) % ack_wnd_size
          ≡ w.tail + n - (j + 1) =
        omega (arith, e, a, b, h, t) in
      ap (records w.seqs ((j % ack_wnd_size + 1) % ack_wnd_size)) left
      ∙ records_round w.seqs ((j % ack_wnd_size + 1) % ack_wnd_size) (j + 1) (w.tail + n - (j + 1))
          (omega arith)

  take_refines :
      (last : Bool)
      → held w ≡ n
      → w.tail ≤ j
      → j < w.tail + n
      → (last ≡ true → w.tail + n ≡ j + 1)
      → (seen (take_record w currtime (j % ack_wnd_size) last)
          ≡ found_result currtime (contents w) (
              some (
                get_or w.seqs (j % ack_wnd_size) zero_seq,
                records w.seqs (j + 1) (w.tail + n - (j + 1)),
              )))
        × IsValid (take_record w currtime (j % ack_wnd_size) last).1
  unfolding take_record
  take_refines true e a b c =
      let none_left : zero ≡ w.tail + n - (j + 1) = omega (arith, c refl) in
      (
        ap
            (λ m. (
              (
                rtt_of (seq_at w (j % ack_wnd_size)) currtime,
                some (seq_at w (j % ack_wnd_size)).ack,
              ),
              records w.seqs (j + 1) m,
            ))
            none_left,
        (omega arith, omega arith, length-set_elem w.seqs 0 _ ∙ l),
      )
  take_refines false e a b c = (
    ap
        (λ q. (
          (rtt_of (seq_at w (j % ack_wnd_size)) currtime, some (seq_at w (j % ack_wnd_size)).ack),
          q,
        ))
        (taken_goes_on e a b),
    (h, omega arith, l),
  )

-- What both loops do with what their search finds.
abbrev settle : AckWindow → ℕ → (ℕ → Bool) → Option ℕ → (ℤ × Option ℕ) × AckWindow
settle w currtime last o = elim o [
  | none ↦ ((negsuc 0, none), w)
  | some i ↦ take_record w currtime i (last i)
]

-- A result is that of the queue, with a valid window.
abbrev Right : AckWindow → ℤ → ℕ → (ℤ × Option ℕ) × AckWindow → Type 0
Right w seq currtime x = (seen x ≡ queue_acknowledge (contents w) seq currtime) × IsValid x.1

settle-Right :
    (w : AckWindow) (at : ℕ → ℕ) (seq : ℤ) (currtime : ℕ) (last : ℕ → Bool)
    → IsValid w
    → ((k : ℕ) → w.tail ≤ k → k < w.tail + held w → at k ≡ k % ack_wnd_size)
    → ((k : ℕ) → w.tail ≤ k → k < w.tail + held w → last (at k) ≡ true → w.tail + held w ≡ k + 1)
    → Right w seq currtime (settle w currtime last (search_seq w at seq w.tail (held w)))
settle-Right w at seq currtime last (h, t, l) places ends =
    elim (search-Agree w at seq w.tail (held w) places) [
      | inl (p, q) ↦ rw (p, q) (refl, (h, t, l))
      | inr (j, a, b, p, q) ↦
          let taken =
            take_refines w currtime j (held w) h t l (last (j % ack_wnd_size)) refl a b
              (λ c. ends j a b (ap last (places j a b) ∙ c)) in
          rw (p, places j a b) (rw q taken)
    ]

-- `acknowledge` takes out of the queue the first record of that number with all older ones, and
-- returns its acknowledged number and the time since it was sent; or -1 with the queue as it was,
-- when there is no such record. Both loops of the code do, that of a window which goes round and
-- that of one which does not.
pub acknowledge_refines :
    (w : AckWindow) (seq : ℤ) (currtime : ℕ)
    → IsValid w
    → (seen (acknowledge w seq currtime) ≡ queue_acknowledge (contents w) seq currtime)
      × IsValid (acknowledge w seq currtime).1
unfolding acknowledge
acknowledge_refines w seq currtime (h, t, l) = elim (Bool-cases (leb w.tail w.head)) [
  | inl e ↦
      let ordered = leb→le w.tail w.head e in
      let n : w.head - w.tail ≡ held w = omega arith in
      rw (e, n)
        (settle-Right w (λ i. i) seq currtime (λ i. i + 1 == w.head) (h, t, l)
          (λ k a b. omega arith) (λ k a b c. omega (arith, (==_iff (k + 1) w.head).0 c)))
  | inr e ↦
      let ordered : w.head < w.tail = ground arith in
      let n : w.head + ack_wnd_size - w.tail ≡ held w = omega arith in
      rw e (
        subst
          (λ m. Right w seq currtime (
            settle w currtime (λ j. j == w.head)
              (search_seq w (λ j. j % ack_wnd_size) seq w.tail m)))
          (sym n)
          (settle-Right w (λ j. j % ack_wnd_size) seq currtime (λ j. j == w.head) (h, t, l)
            (λ k a b. refl) (λ k a b c. omega (arith, (==_iff (k % ack_wnd_size) w.head).0 c))))
]
