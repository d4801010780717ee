-- ===== src/Tunnel/Mux/Gaps.antt =====
-- src/tunnel/multiplex.rs: arrivals for which the reordering loses or misplaces frames.
use srt_vpn.Prelude.{
  ℕ, ◌+◌, ◌<◌, ◌≡◌, ◌≢◌, refl, Bool, true, false, none, some, List, [], ◌∷◌, ◌++◌, arith, All,
  All-map, get, insert, remove, nat_eq, pair_eq, get-insert_self, lt→ltb, ap, ◌∙◌, ◌==◌,
}
use srt_vpn.Tunnel.Mux.{Frame}
use srt_vpn.Tunnel.Mux.Decoder.{
  SidReorder, MuxDecoder, epoch_of, sseq_of, key_of, acceptor_dir, accept, accept_open,
  accept_session, accept_unknown, accept_first, accept_current, run, newer, or_empty, merge_waiting,
  fresh_state, flush_loop, flush_ready,
}
use srt_vpn.Tunnel.Mux.Delivery.{OfStream, accept-OfStream}
use srt_vpn.Tunnel.Mux.Opening.{OpensStream, accept-OpensStream}

flush_ready_empty : (f : Frame) → flush_ready (fresh_state f) ≡ (fresh_state f, [])
unfolding flush_ready flush_loop fresh_state
flush_ready_empty f = refl

accept_first_lem :
    (d : MuxDecoder) (f : Frame)
    → accept_first d f ≡ (record d { states = insert (key_of f) (fresh_state f) d.states }, f ∷ [])
unfolding accept_first
accept_first_lem d f = rw (flush_ready_empty f)

-- Frames below the next number are dropped.
run_old :
    (gs : List Frame) (d : MuxDecoder) (st : SidReorder) (k : ℕ × Bool) (e : ℕ)
    → get k d.states ≡ some st
    → st.epoch ≡ e
    → All (λ g. OfStream k e g × (sseq_of g < st.next)) gs
    → (run d gs).1 ≡ []
unfolding run accept_current
run_old [] d st k e at he a = refl
run_old (g ∷ gs) d st k e at he ((o, lt), a) =
    rw (accept-OfStream d st g k e o at he, lt→ltb (sseq_of g) st.next lt)
      (run_old gs (record d { stale_dropped = d.stale_dropped + 1 }) st k e at he a)

first_acceptor :
    (d : MuxDecoder) (f : Frame) (sid e : ℕ)
    → OfStream (sid, true) e f
    → get (sid, true) d.states ≡ none
    → accept d f ≡ accept_first d f
unfolding accept accept_session accept_unknown
first_acceptor d f sid e o at =
    let dir : acceptor_dir f ≡ true = ap (λ (p : ℕ × Bool). p.1) o.key_eq in
    let here : get (key_of f) d.states ≡ none = rw o.key_eq at in
    let pos : (epoch_of f == 0) ≡ false = ground (arith, o.epoch_pos) in
    rw (o.ordered, pos, o.not_open, here, dir)

-- In the acceptor's direction the frame `f` that arrives first is delivered at once, whatever its
-- number. The frames of its epoch with lower numbers, which it overtook, are then all dropped.
pub acceptor_overtaken_lost :
    (sid e : ℕ) (f : Frame) (gs : List Frame) (d : MuxDecoder)
    → get (sid, true) d.states ≡ none
    → OfStream (sid, true) e f
    → All (λ g. OfStream (sid, true) e g × (sseq_of g < sseq_of f)) gs
    → (run d (f ∷ gs)).1 ≡ f ∷ []
unfolding run fresh_state
acceptor_overtaken_lost sid e f gs d at o a =
    rw (first_acceptor d f sid e o at, accept_first_lem d f)
      (ap (λ (x : List Frame). f ∷ x)
        (run_old gs (record d { states = insert (key_of f) (fresh_state f) d.states })
          (fresh_state f) (sid, true) e
          (rw o.key_eq (get-insert_self (sid, true) (fresh_state f) d.states)) o.epoch_eq
          (All-map (λ g p. (p.0, omega (arith, p.1))) gs a)))

accept_open_alone :
    (d : MuxDecoder) (o : Frame)
    → or_empty (get o.session_id d.preopen) ≡ []
    → accept_open d o ≡ (
      record d {
        states = insert (key_of o) (fresh_state o) d.states;
        preopen = remove o.session_id d.preopen;
        stale_dropped = d.stale_dropped + 0;
      },
      o ∷ [],
    )
unfolding accept_open merge_waiting
accept_open_alone d o w = rw (w, flush_ready_empty o)

-- A session number is used again: the decoder still has the state of another epoch. A frame `f` of
-- the newer epoch that arrives before its Open `o` is delivered at once, ahead of `o`, and the Open
-- then starts the stream without it: the session waits for the number behind the Open with nothing
-- in the buffer.
pub reused_sid_ahead_of_open :
    (sid e : ℕ) (st : SidReorder) (f o : Frame) (d : MuxDecoder)
    → get (sid, false) d.states ≡ some st
    → st.epoch ≢ e
    → newer e st.epoch ≡ true
    → or_empty (get sid d.preopen) ≡ []
    → OfStream (sid, false) e f
    → OpensStream sid e o
    → ((run d (f ∷ (o ∷ []))).1 ≡ f ∷ (o ∷ []))
      × (get (sid, false) (run d (f ∷ (o ∷ []))).0.states
          ≡ some (record { epoch = e; next = sseq_of o + 1; buf = [] }))
unfolding run accept accept_session fresh_state
reused_sid_ahead_of_open sid e st f o d at ne new wait hf ho =
    let pos : (epoch_of f == 0) ≡ false = ground (arith, hf.epoch_pos) in
    let other : (st.epoch == epoch_of f) ≡ false = ground (arith, hf.epoch_eq) in
    let newer_f : newer (epoch_of f) st.epoch ≡ true = rw hf.epoch_eq new in
    let here : get (key_of f) d.states ≡ some st = rw hf.key_eq at in
    let step_f : accept d f
        ≡ (record d { states = insert (key_of f) (fresh_state f) d.states }, f ∷ []) =
      rw (hf.ordered, pos, hf.not_open, here, other, newer_f) (accept_first_lem d f) in
    let d1 : MuxDecoder = record d { states = insert (key_of f) (fresh_state f) d.states } in
    let quiet : or_empty (get o.session_id d1.preopen) ≡ [] =
      rw (ap (λ (p : ℕ × Bool). p.0) ho.key_eq) wait in
    let step_o = accept-OpensStream d1 sid e o ho ∙ accept_open_alone d1 o quiet in
    let stored : get (sid, false) (accept d1 o).0.states ≡ some (fresh_state o) =
      ap (λ (r : MuxDecoder × List Frame). get (sid, false) r.0.states) step_o
      ∙ rw ho.key_eq (get-insert_self (sid, false) (fresh_state o) d1.states) in
    rw step_f (
      ap (λ (x : List Frame). f ∷ (x ++ [])) (ap (λ (r : MuxDecoder × List Frame). r.1) step_o),
      stored
          ∙ ap (λ (x : ℕ). some (record { epoch = x; next = sseq_of o + 1; buf = [] })) ho.epoch_eq,
    )
