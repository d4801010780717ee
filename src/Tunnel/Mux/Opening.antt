-- ===== src/Tunnel/Mux/Opening.antt =====
-- src/tunnel/multiplex.rs: a session whose Open arrives behind some of its frames.
use srt_vpn.Prelude.{
  ℕ, ◌+◌, ◌≤◌, ◌<◌, ◌≡◌, ◌≢◌, ◌⊎◌, inl, inr, refl, Bool, true, false, none, List, [], ◌∷◌, ◌++◌,
  arith, length, length-append, All, All-map, All-append_right, In, In-append, get, insert, nat_eq,
  pair_eq, get-insert_self, length-insert-le, sym, ap, subst, ◌∙◌, append-nil, append_assoc, lt→ltb,
  ◌==◌,
}
use srt_vpn.Tunnel.Mux.{Frame, uses_session_order, is_open}
use srt_vpn.Tunnel.Mux.Decoder.{
  SidReorder, MuxDecoder, epoch_of, sseq_of, key_of, acceptor_dir, accept, accept_open,
  accept_session, accept_unknown, run, reorder_max, preopen_max, or_empty, merge_one, merge_waiting,
  unwanted, fresh_state, flush_ready,
}
use srt_vpn.Tunnel.Mux.Order.{Numbered, Numbered-ge, Tracks, flush_ready-Flushed, flush_ready_done}
use srt_vpn.Tunnel.Mux.Delivery.{OfStream, Live, Tracks-early, flush_ready_keeps}
use srt_vpn.Tunnel.Mux.Buffers.{is_of}
use srt_vpn.Tunnel.Mux.Isolation.{IsSorted, accept-Within}
use srt_vpn.Tunnel.Mux.Reassembly.{
  of_key, of_key_same, of_key-append, is_of_of_key_eq, Arrives, push_all, In-push_all,
  In-push_all_seen, Live-delivers,
}

-- The frames that waited become the seen frames of the stream.
merge_waiting-Tracks :
    (fs : List Frame) (k : ℕ × Bool) (e n : ℕ) (seen ds : List Frame) (st : SidReorder)
    → Numbered n ds
    → st.epoch ≡ e
    → All (λ f. OfStream k e f × In f ds) fs
    → length st.buf + length fs ≤ reorder_max
    → Tracks n seen [] ds st
    → let r = (merge_waiting st fs).0 in
      (seen' : List Frame) × ((g : Frame) → In g fs ⊎ In g seen → In g seen')
      × (r.epoch ≡ e)
      × (length r.buf ≤ length st.buf + length fs)
      × Tracks n seen' [] ds r
unfolding merge_waiting merge_one
merge_waiting-Tracks [] k e n seen ds st h he a small t =
    (seen, (λ g m. elim m [ inl b ↦ absurd b | inr m' ↦ m' ]), he, omega arith, t)
merge_waiting-Tracks (f ∷ fs) k e n seen ds st h he ((o, m), a) small t =
    let wanted : unwanted st f ≡ false =
      ground (arith, o.epoch_eq, Numbered-ge n ds f h m, t.next_eq) in
    let st' : SidReorder = record st { buf = insert (sseq_of f) f st.buf } in
    let le = length-insert-le (sseq_of f) f st.buf in
    let (seen', all, he', len, t') =
      merge_waiting-Tracks fs k e n (f ∷ seen) ds st' h he a (omega (arith, le))
        (Tracks-early n seen [] ds st f t (omega (arith, Numbered-ge n ds f h m, t.next_eq)) m) in
    rw wanted (
      seen',
      (λ g q. elim q [
        | inl (inl eq) ↦ all g (inr (inl eq))
        | inl (inr m') ↦ all g (inl m')
        | inr m' ↦ all g (inr (inr m'))
      ]),
      he',
      omega (arith, len, le),
      t',
    )

fresh-Tracks : (f : Frame) (ds : List Frame) → Tracks (sseq_of f + 1) [] [] ds (fresh_state f)
unfolding fresh_state get
fresh-Tracks f ds = record { next_eq = omega arith; held = λ s g at. cc; kept = λ g m. absurd m }

-- An Open delivers itself and what waited for it in a run, and the stream goes on from there.
accept_open-Live :
    (d : MuxDecoder) (f : Frame) (k : ℕ × Bool) (e : ℕ) (ds ws : List Frame)
    → key_of f ≡ k
    → epoch_of f ≡ e
    → or_empty (get f.session_id d.preopen) ≡ ws
    → Numbered (sseq_of f + 1) ds
    → All (λ g. OfStream k e g × In g ds) ws
    → length ws ≤ reorder_max
    → let r = accept_open d f in
      (out rest seen : List Frame) × (r.1 ≡ f ∷ out)
      × (ds ≡ out ++ rest)
      × ((g : Frame) → In g ws → In g seen)
      × Live k e (sseq_of f + 1) seen out rest (length ws) r.0
unfolding accept_open
accept_open-Live d f k e ds ws hk he hw h a small =
    let fresh = fresh_state f in
    let (seen, all, he', len, t) =
      merge_waiting-Tracks ws k e (sseq_of f + 1) [] ds fresh h (unfold fresh_state in he) a
        (unfold fresh_state in omega arith) (fresh-Tracks f ds) in
    let merged = (merge_waiting fresh ws).0 in
    let (rest, e1, t') = flush_ready-Flushed (sseq_of f + 1) seen [] ds merged h t in
    rw hw (
      (flush_ready merged).1,
      rest,
      seen,
      refl,
      e1,
      (λ g m. all g (inl m)),
      record {
        st = (flush_ready merged).0;
        stored = rw hk (get-insert_self k (flush_ready merged).0 d.states);
        epoch_eq = (flush_ready_keeps merged).0 ∙ he';
        tracks = t';
        settled = flush_ready_done merged;
        small = unfold fresh_state in omega (arith, len, (flush_ready_keeps merged).1);
      },
    )

run-append :
    (xs ys : List Frame) (d : MuxDecoder)
    → (run d (xs ++ ys)).1 ≡ (run d xs).1 ++ (run (run d xs).0 ys).1
unfolding run
run-append [] ys d = refl
run-append (x ∷ xs) ys d =
    ap (λ (l : List Frame). (accept d x).1 ++ l) (run-append xs ys (accept d x).0)
    ∙ sym (append_assoc (accept d x).1 (run (accept d x).0 xs).1 _)

-- A frame that comes before its Open waits.
accept_early :
    (d : MuxDecoder) (f : Frame) (sid e : ℕ) (ws : List Frame)
    → OfStream (sid, false) e f
    → get (sid, false) d.states ≡ none
    → or_empty (get sid d.preopen) ≡ ws
    → length ws < preopen_max
    → ((accept d f).1 ≡ [])
      × (or_empty (get sid (accept d f).0.preopen) ≡ ws ++ (f ∷ []))
      × ((accept d f).0.states ≡ d.states)
unfolding accept accept_session accept_unknown
accept_early d f sid e ws o hs hw small =
    let eq : f.session_id ≡ sid = ap (λ (p : ℕ × Bool). p.0) o.key_eq in
    let dir : acceptor_dir f ≡ false = ap (λ (p : ℕ × Bool). p.1) o.key_eq in
    let at : get (key_of f) d.states ≡ none = rw o.key_eq hs in
    let q : or_empty (get f.session_id d.preopen) ≡ ws = rw eq hw in
    let pos : (epoch_of f == 0) ≡ false = ground (arith, o.epoch_pos) in
    rw (o.ordered, pos, o.not_open, at, dir, q, lt→ltb (length ws) preopen_max small)
      (
        refl,
        subst (λ (x : ℕ). or_empty (get sid (insert x (ws ++ (f ∷ [])) d.preopen)) ≡ ws ++ (f ∷ []))
            (sym eq) (ap or_empty (get-insert_self sid (ws ++ (f ∷ [])) d.preopen)),
        refl,
      )

-- A row of such frames.
run_early :
    (fs : List Frame) (d : MuxDecoder) (sid e : ℕ) (ws : List Frame)
    → IsSorted d
    → All (OfStream (sid, false) e) fs
    → get (sid, false) d.states ≡ none
    → or_empty (get sid d.preopen) ≡ ws
    → length ws + length fs ≤ preopen_max
    → ((run d fs).1 ≡ [])
      × (or_empty (get sid (run d fs).0.preopen) ≡ ws ++ fs)
      × IsSorted (run d fs).0
unfolding run
run_early [] d sid e ws v a hs hw small = (refl, hw ∙ sym (append-nil ws), v)
run_early (f ∷ fs) d sid e ws v (o, a) hs hw small =
    let (out, pre, states) = accept_early d f sid e ws o hs hw (omega arith) in
    let w = accept-Within d f v o.ordered (λ q. cc (o.not_open)) in
    let (outs, pre', v') =
      run_early fs (accept d f).0 sid e (ws ++ (f ∷ [])) w.sorted a
        (ap (get (sid, false)) states ∙ hs) pre (rw length-append (omega arith)) in
    (
      ap (λ (x : List Frame). x ++ (run (accept d f).0 fs).1) out ∙ outs,
      pre' ∙ append_assoc ws (f ∷ []) fs,
      v',
    )

-- Frames that arrived before the Open or behind it are seen.
All-seen :
    (k : ℕ × Bool) (e : ℕ) (pre post seen ds : List Frame)
    → ((g : Frame) → In g pre → In g seen)
    → All (λ g. OfStream k e g × In g (pre ++ post)) ds
    → All (λ g. In g (push_all k post seen)) ds
All-seen k e pre post seen [] all a = tt
All-seen k e pre post seen (g ∷ ds) all ((o, m), a) = (
  elim (In-append g pre post m) [
    | inl before ↦ In-push_all_seen k g post seen (all g before)
    | inr after ↦ In-push_all k g post seen (is_of_of_key_eq k g o.ordered o.key_eq) after
  ],
  All-seen k e pre post seen ds all a,
)

-- The Open of the epoch `e` of a session, in the opener's direction.
pub record OpensStream (sid e : ℕ) (o : Frame) : Type 0 where
  pub ordered : uses_session_order o.ftype ≡ true
  pub opens : is_open o.ftype ≡ true
  pub key_eq : key_of o ≡ (sid, false)
  pub epoch_eq : epoch_of o ≡ e
  pub epoch_pos : epoch_of o ≢ 0

pub accept-OpensStream :
    (d : MuxDecoder) (sid e : ℕ) (o : Frame) → OpensStream sid e o → accept d o ≡ accept_open d o
unfolding accept
accept-OpensStream d sid e o h =
    let pos : (epoch_of o == 0) ≡ false = ground (arith, h.epoch_pos) in
    rw (h.ordered, pos, h.opens)

-- Behind the Open the stream is delivered as `Live-delivers` has it.
open_then :
    (d : MuxDecoder) (sid e : ℕ) (o : Frame) (pre ds post : List Frame)
    → IsSorted d
    → OpensStream sid e o
    → or_empty (get sid d.preopen) ≡ pre
    → Numbered (sseq_of o + 1) ds
    → All (λ g. OfStream (sid, false) e g × In g ds) pre
    → length pre ≤ preopen_max
    → All (Arrives (sid, false) e ds) post
    → All (λ g. OfStream (sid, false) e g × In g (pre ++ post)) ds
    → length pre + length (of_key (sid, false) post) ≤ reorder_max
    → of_key (sid, false) (run d (o ∷ post)).1 ≡ o ∷ ds
unfolding run
open_then d sid e o pre ds post v h hw num a few arr all small =
    let k : ℕ × Bool = (sid, false) in
    let eq : o.session_id ≡ sid = ap (λ (p : ℕ × Bool). p.0) h.key_eq in
    let dir : acceptor_dir o ≡ false = ap (λ (p : ℕ × Bool). p.1) h.key_eq in
    let w = accept-Within d o v h.ordered (λ _. dir) in
    let (out, rest, seen, e0, e1, seen_all, l) =
      accept_open-Live d o k e ds pre h.key_eq h.epoch_eq (rw eq hw) num a (omega arith) in
    let open_eq = accept-OpensStream d sid e o h in
    let live : Live k e (sseq_of o + 1) seen out rest (length pre) (accept d o).0 =
      subst
        (λ (r : MuxDecoder × List Frame). Live k e (sseq_of o + 1) seen out rest (length pre) r.0)
        (sym open_eq) l in
    let delivered : (accept d o).1 ≡ o ∷ out =
      ap (λ (r : MuxDecoder × List Frame). r.1) open_eq ∙ e0 in
    let tail =
      Live-delivers post k e (sseq_of o + 1) (length pre) seen out rest (accept d o).0
        (subst (Numbered (sseq_of o + 1)) e1 num) w.sorted live
        (subst (λ (x : List Frame). All (Arrives k e x) post) e1 arr) small
        (All-append_right (λ f. In f (push_all k post seen)) out rest
          (subst (All (λ f. In f (push_all k post seen))) e1
            (All-seen k e pre post seen ds seen_all all))) in
    let head : of_key k (accept d o).1 ≡ o ∷ out =
      of_key_same k (accept d o).1
        (subst (λ (j : ℕ × Bool). All (λ g. is_of j g ≡ true) (accept d o).1) h.key_eq w.delivered)
      ∙ delivered in
    of_key-append k (accept d o).1 (run (accept d o).0 post).1
    ∙ ap (λ (x : List Frame). x ++ of_key k (run (accept d o).0 post).1) head
    ∙ ap (λ (x : List Frame). o ∷ (out ++ x)) tail
    ∙ ap (λ (x : List Frame). o ∷ x) (sym e1)

-- Let a decoder, whose frames wait under their own session and direction, know nothing of the
-- opener's direction of `sid`. Of the frames `ds`, which follow the Open `o` in its epoch, up to 64
-- arrive before it (`pre`), the others behind it, in any order and any number of times, there mixed
-- with control frames and frames of other sessions and of the other direction. If every frame of
-- `ds` arrives, and 4096 arrivals at most are of the stream, the session is delivered `o` and then
-- just `ds`, in order.
pub open_delivers_stream :
    (sid e : ℕ) (o : Frame) (pre ds post : List Frame) (d : MuxDecoder)
    → IsSorted d
    → get (sid, false) d.states ≡ none
    → or_empty (get sid d.preopen) ≡ []
    → OpensStream sid e o
    → Numbered (sseq_of o + 1) ds
    → All (λ g. OfStream (sid, false) e g × In g ds) pre
    → length pre ≤ preopen_max
    → All (Arrives (sid, false) e ds) post
    → All (λ g. OfStream (sid, false) e g × In g (pre ++ post)) ds
    → length pre + length (of_key (sid, false) post) ≤ reorder_max
    → of_key (sid, false) (run d (pre ++ (o ∷ post))).1 ≡ o ∷ ds
open_delivers_stream sid e o pre ds post d v hs hw h num a few arr all small =
    let k : ℕ × Bool = (sid, false) in
    let (quiet, waits, v') =
      run_early pre d sid e [] v (All-map (λ g p. p.0) pre a) hs hw (omega arith) in
    ap (of_key k) (
      run-append pre (o ∷ post) d
      ∙ ap (λ (x : List Frame). x ++ (run (run d pre).0 (o ∷ post)).1) quiet)
    ∙ open_then (run d pre).0 sid e o pre ds post v' h waits num a few arr all small
