-- ===== src/Tunnel/Mux/Delivery.antt =====
-- src/tunnel/multiplex.rs: the frames of one epoch of a session, fed in any order.
use srt_vpn.Prelude.{
  ℕ, zero, suc, ◌+◌, ◌≤◌, ◌<◌, ◌≡◌, ◌≢◌, inl, inr, refl, Bool, true, false, none, some, List, [],
  ◌∷◌, ◌++◌, arith, length, In, get, insert, remove, nat_eq, pair_eq, get-insert_self,
  get-insert_ne, length-insert-le, length-remove-le, Bool-cases, Option-cases, ℕ_eq-cases, sym, ap,
  ◌∙◌, append-nil, append_assoc, ltb, ==_iff, ◌==◌, ltb→lt, lt→ltb,
}
use srt_vpn.Tunnel.Mux.{Frame, uses_session_order, is_open}
use srt_vpn.Tunnel.Mux.Decoder.{
  SidReorder, MuxDecoder, epoch_of, sseq_of, key_of, flush_loop, flush_ready, accept_current,
  accept_session, accept, reorder_max, drop_stale, put_state,
}
use srt_vpn.Tunnel.Mux.Order.{
  Numbered, Tracks, Tracks-deliver, next_is_head, flush_ready-Flushed, flush_ready_done,
}

flush_loop_keeps :
    (fuel : ℕ) (st : SidReorder)
    → let r = flush_loop fuel st in (r.0.epoch ≡ st.epoch) × (length r.0.buf ≤ length st.buf)
unfolding flush_loop
flush_loop_keeps zero st = (refl, omega arith)
flush_loop_keeps (suc fuel) st = elim (Option-cases (get st.next st.buf)) [
  | inl e ↦ rw (e, flush_loop) (refl, omega arith)
  | inr (f, e) ↦
      let st' : SidReorder = record {
        epoch = st.epoch;
        next = st.next + 1;
        buf = remove st.next st.buf;
      } in
      let ih = flush_loop_keeps fuel st' in
      rw (e, flush_loop) (ih.0, omega (arith, ih.1, length-remove-le st.next st.buf))
]

pub flush_ready_keeps :
    (st : SidReorder)
    → let r = flush_ready st in (r.0.epoch ≡ st.epoch) × (length r.0.buf ≤ length st.buf)
unfolding flush_ready
flush_ready_keeps st = flush_loop_keeps (length st.buf) st

-- A frame of the epoch `e` of the session and direction `k`, behind its Open.
pub record OfStream (k : ℕ × Bool) (e : ℕ) (f : Frame) : Type 0 where
  pub ordered : uses_session_order f.ftype ≡ true
  pub not_open : is_open f.ftype ≡ false
  pub key_eq : key_of f ≡ k
  pub epoch_eq : epoch_of f ≡ e
  pub epoch_pos : epoch_of f ≢ 0

-- The decoder tracks the epoch `e` of `k`, and at most `room` frames wait in its buffer.
pub record Live (k : ℕ × Bool) (e n : ℕ) (seen out rest : List Frame) (room : ℕ) (d : MuxDecoder)
    : Type 0 where
  pub st : SidReorder
  pub stored : get k d.states ≡ some st
  pub epoch_eq : st.epoch ≡ e
  pub tracks : Tracks n seen out rest st
  pub settled : get st.next st.buf ≡ none
  pub small : length st.buf ≤ room

-- The result of a call: what it delivers is the next part of the stream.
abbrev pub GoesOn :
    ℕ × Bool → ℕ → ℕ → List Frame → List Frame → List Frame → ℕ → MuxDecoder × List Frame → Type 0
GoesOn k e n seen out rest room r =
    (rest' : List Frame) × (rest ≡ r.1 ++ rest') × Live k e n seen (out ++ r.1) rest' room r.0

pub accept-OfStream :
    (d : MuxDecoder) (st : SidReorder) (f : Frame) (k : ℕ × Bool) (e : ℕ)
    → OfStream k e f
    → get k d.states ≡ some st
    → st.epoch ≡ e
    → accept d f ≡ accept_current d st f
unfolding accept accept_session
accept-OfStream d st f k e o h he =
    rw (o.ordered, o.not_open, o.key_eq, h) (ground (arith, o.epoch_eq, o.epoch_pos))

module _ (n : ℕ) (seen out rest : List Frame) (st : SidReorder) (f : Frame)
    (t : Tracks n seen out rest st) where
  -- A frame that was delivered before changes nothing.
  Tracks-old : sseq_of f < st.next → Tracks n (f ∷ seen) out rest st
  Tracks-old lt = record {
    next_eq = t.next_eq;
    held = t.held;
    kept = λ g m. elim m [ inl e ↦ inl (rw e lt) | inr m' ↦ t.kept g m' ];
  }

  -- A frame that is not out of date goes into the buffer.
  pub Tracks-early :
      st.next ≤ sseq_of f
      → In f (out ++ rest)
      → Tracks n (f ∷ seen) out rest (record st { buf = insert (sseq_of f) f st.buf })
  Tracks-early lt m = record {
    next_eq = t.next_eq;
    held = λ s g h. elim (ℕ_eq-cases s (sseq_of f)) [
      | inl e ↦
          let eq : f ≡ g = cc (get-insert_self (sseq_of f) f st.buf) in
          (rw (← eq) (sym e), omega arith, rw (← eq) m)
      | inr ne ↦ t.held s g (sym (get-insert_ne s (sseq_of f) f st.buf ne) ∙ h)
    ];
    kept = λ g m'. elim (ℕ_eq-cases (sseq_of g) (sseq_of f)) [
      | inl e ↦ inr (f, rw e (get-insert_self (sseq_of f) f st.buf))
      | inr ne ↦ elim m' [
        | inl e ↦ absurd (ne (ap sseq_of e))
        | inr m'' ↦ elim (t.kept g m'') [
          | inl lt' ↦ inl lt'
          | inr (x, at) ↦ inr (x, get-insert_ne (sseq_of g) (sseq_of f) f st.buf ne ∙ at)
        ]
      ]
    ];
  }

module _ (k : ℕ × Bool) (e n room : ℕ) (seen out rest : List Frame) (d : MuxDecoder) (f : Frame)
    (h : Numbered n (out ++ rest)) (l : Live k e n seen out rest room d) (o : OfStream k e f)
    (m : In f (out ++ rest)) (small : room < reorder_max) where
  accept-old :
      sseq_of f < l.st.next → GoesOn k e n (f ∷ seen) out rest (room + 1) (drop_stale d, [])
  accept-old lt = (
    rest,
    refl,
    record {
      st = l.st;
      stored = l.stored;
      epoch_eq = l.epoch_eq;
      tracks = rw append-nil (Tracks-old n seen out rest l.st f l.tracks lt);
      settled = l.settled;
      small = omega (arith, l.small);
    },
  )

  accept-now :
      sseq_of f ≡ l.st.next
      → let r = flush_ready (record l.st { next = l.st.next + 1 }) in
        GoesOn k e n (f ∷ seen) out rest (room + 1) (put_state d (key_of f) r.0, f ∷ r.1)
  accept-now eq =
      let st1 : SidReorder = record l.st { next = l.st.next + 1 } in
      let (rest1, e1) = next_is_head n out rest f h m (omega (arith, eq, l.tracks.next_eq)) in
      let t1 =
        Tracks-old n seen (out ++ (f ∷ [])) rest1 st1 f
          (Tracks-deliver n seen out rest1 l.st f l.st.buf (rw e1 at l.tracks) (λ s ne. refl)
            l.settled)
          (omega arith) in
      let (rest2, e2, t2) =
        flush_ready-Flushed n (f ∷ seen) (out ++ (f ∷ [])) rest1 st1 (rw append_assoc (rw e1 at h))
          t1 in
      (
        rest2,
        e1 ∙ ap (λ (x : List Frame). f ∷ x) e2,
        record {
          st = (flush_ready st1).0;
          stored = rw o.key_eq (get-insert_self k (flush_ready st1).0 d.states);
          epoch_eq = (flush_ready_keeps st1).0 ∙ l.epoch_eq;
          tracks = rw (append_assoc out (f ∷ []) (flush_ready st1).1) at t2;
          settled = flush_ready_done st1;
          small = omega (arith, l.small, (flush_ready_keeps st1).1);
        },
      )

  accept-later :
      l.st.next < sseq_of f
      → GoesOn k e n (f ∷ seen) out rest (room + 1) (
        put_state
            (record d { out_of_order = d.out_of_order + 1 })
            (key_of f)
            (record l.st { buf = insert (sseq_of f) f l.st.buf }),
        [],
      )
  accept-later lt = (
    rest,
    refl,
    record {
      st = record l.st { buf = insert (sseq_of f) f l.st.buf };
      stored = rw o.key_eq (get-insert_self k _ d.states);
      epoch_eq = l.epoch_eq;
      tracks = rw append-nil (Tracks-early n seen out rest l.st f l.tracks (omega arith) m);
      settled = get-insert_ne l.st.next (sseq_of f) f l.st.buf (omega arith) ∙ l.settled;
      small = omega (arith, l.small, length-insert-le (sseq_of f) f l.st.buf);
    },
  )

  -- A frame of the stream, whenever it comes, goes on with the delivery.
  pub accept-Live : GoesOn k e n (f ∷ seen) out rest (room + 1) (accept d f)
  unfolding accept_current
  accept-Live =
      rw (accept-OfStream d l.st f k e o l.stored l.epoch_eq)
        (elim (Bool-cases (ltb (sseq_of f) l.st.next)) [
          | inl lt ↦ rw lt (accept-old (ltb→lt _ _ lt))
          | inr ge ↦ rw ge (elim (Bool-cases (sseq_of f == l.st.next)) [
            | inl eq ↦ rw eq (accept-now ((==_iff _ _).0 eq))
            | inr ne ↦
                rw (ne, lt→ltb (length l.st.buf) reorder_max (omega (arith, l.small)))
                  (accept-later (ground arith))
          ])
        ])
