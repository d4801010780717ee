-- ===== src/Tunnel/Mux/EndToEnd.antt =====
-- src/tunnel/multiplex.rs: from the encoder of one side to the decoder of the other.
use srt_vpn.Prelude.{
  ℕ, ◌+◌, ◌*◌, ◌%◌, ◌≤◌, ◌<◌, ◌≡◌, ◌⊎◌, inl, inr, refl, Bool, false, none, List, [], ◌∷◌, ◌++◌,
  arith, length, All, All-map, All-In, In, get, nat_eq, pair_eq, ◌∙◌, sym, ap, subst,
}
use srt_vpn.Tunnel.{open_frame}
use srt_vpn.Tunnel.Mux.{
  Frame, MuxEncoder, uses_session_order, is_open, next_seq_field, seq_mask, epoch_unit,
}
use srt_vpn.Tunnel.Mux.Decoder.{MuxDecoder, sseq_of, run, reorder_max, preopen_max, or_empty}
use srt_vpn.Tunnel.Mux.Wire.{frame_flags-dir}
use srt_vpn.Tunnel.Mux.Numbering.{
  IsValid, next_seq_field-IsValid, session_field-opens, session_field-open_stored,
}
use srt_vpn.Tunnel.Mux.Order.{Numbered}
use srt_vpn.Tunnel.Mux.Delivery.{OfStream}
use srt_vpn.Tunnel.Mux.Isolation.{IsSorted}
use srt_vpn.Tunnel.Mux.Opening.{OpensStream, open_delivers_stream}
use srt_vpn.Tunnel.Mux.Reassembly.{of_key, Foreign}
use srt_vpn.Tunnel.Mux.Sender.{
  Sending, frame_for, after, send_all, GoesOnWith, Sent, next_seq_field-dir, next_seq_field-session,
  send_all-OfStream,
}

-- The Open of a session, as `TunnelSession.send_open` hands it to the encoder.
abbrev pub open_sending : ℕ → ℕ → List ℕ → Sending
open_sending sid flags payload = record {
  ftype = open_frame;
  session_id = sid;
  flags = flags;
  payload = payload;
}

open_Sent :
    (e : MuxEncoder) (sid flags : ℕ) (payload : List ℕ)
    → IsValid e
    → e.dir_acceptor ≡ false
    → flags < 16
    → let c = open_sending sid flags payload in
      OpensStream sid (e.epoch_ctr % 255 + 1) (frame_for e c)
      × (sseq_of (frame_for e c) ≡ 0)
      × Sent sid (e.epoch_ctr % 255 + 1) 1 (after e c)
unfolding uses_session_order is_open
open_Sent e sid flags payload v hd small =
    let eq = next_seq_field-session e open_frame sid refl in
    let field : (next_seq_field e open_frame sid).0 ≡ (e.epoch_ctr % 255 + 1) * epoch_unit =
      ap (λ (r : ℕ × MuxEncoder). r.0) eq ∙ (session_field-opens e sid).0 in
    (
      record {
        ordered = refl;
        opens = refl;
        key_eq = ap (λ (b : Bool). (sid, b)) (frame_flags-dir e flags small ∙ hd);
        epoch_eq = omega (arith, field);
        epoch_pos = omega (arith, field);
      },
      omega (arith, field),
      record {
        valid = (next_seq_field-IsValid e open_frame sid v).1;
        stored =
            ap (λ (r : ℕ × MuxEncoder). get sid r.1.session_tx) eq
            ∙ session_field-open_stored e sid;
        low = omega arith;
        high = omega arith;
      },
    )

with_OfStream :
    (k : ℕ × Bool) (epoch : ℕ) (ds : List Frame) (P : Frame → Type 0)
    → All (OfStream k epoch) ds
    → All (λ g. P g) ds
    → All (λ g. OfStream k epoch g × P g) ds
with_OfStream k epoch [] P a b = tt
with_OfStream k epoch (g ∷ ds) P a b = ((a.0, b.0), with_OfStream k epoch ds P a.1 b.1)

-- The opener's encoder, valid, opens the session `sid` and then sends the frames of any calls with
-- flags below 16 that do not open it anew: of any sessions and types. Let `ds` be the frames of `sid` among them. The
-- frames arrive at a decoder whose frames wait under their own session and direction and which
-- knows nothing of the opener's direction of `sid`: some of `ds`, 64 at most, before the Open
-- (`pre`), the others behind it, in any order and any number of times, mixed with control frames and
-- frames of other sessions and of the other direction (`post`). If every frame of `ds` arrives, at most 4096 arrivals are of the stream and the session
-- sends fewer than 2^24 - 1 frames, the session is delivered the Open and then just `ds`, in the
-- order in which they were sent.
pub sent_is_delivered :
    (e : MuxEncoder) (sid flags : ℕ) (payload : List ℕ) (cs : List Sending) (d : MuxDecoder)
    (pre post : List Frame)
    → IsValid e
    → e.dir_acceptor ≡ false
    → flags < 16
    → All (GoesOnWith sid) cs
    → let o = frame_for e (open_sending sid flags payload) in
      let ds = of_key (sid, false) (send_all (after e (open_sending sid flags payload)) cs) in
      1 + length ds ≤ seq_mask
      → IsSorted d
      → get (sid, false) d.states ≡ none
      → or_empty (get sid d.preopen) ≡ []
      → All (λ g. In g ds) pre
      → length pre ≤ preopen_max
      → All (λ g. In g ds ⊎ Foreign (sid, false) g) post
      → All (λ g. In g (pre ++ post)) ds
      → length pre + length (of_key (sid, false) post) ≤ reorder_max
      → of_key (sid, false) (run d (pre ++ (o ∷ post))).1 ≡ o ∷ ds
sent_is_delivered e sid flags payload cs d pre post v hd small goes fits sorted fresh none_waits
      early few arrive all room =
    let k : ℕ × Bool = (sid, false) in
    let epoch : ℕ = e.epoch_ctr % 255 + 1 in
    let c = open_sending sid flags payload in
    let o = frame_for e c in
    let ds = of_key k (send_all (after e c) cs) in
    let (opens, zero_th, s) = open_Sent e sid flags payload v hd small in
    let (numbered, of_stream) =
      send_all-OfStream cs (after e c) sid epoch 1 false (next_seq_field-dir e open_frame sid ∙ hd)
        s goes fits in
    open_delivers_stream sid epoch o pre ds post d sorted fresh none_waits opens
      (subst (λ (x : ℕ). Numbered (x + 1) ds) (sym zero_th) numbered)
      (All-map (λ g m. (All-In (OfStream k epoch) g ds of_stream m, m)) pre early) few
      (All-map
        (λ g m. elim m [
          | inl i ↦ inl (All-In (OfStream k epoch) g ds of_stream i, i)
          | inr f ↦ inr f
        ])
        post arrive)
      (with_OfStream k epoch ds (λ g. In g (pre ++ post)) of_stream all) room
