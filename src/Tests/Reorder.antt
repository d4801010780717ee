-- ===== src/Tests/Reorder.antt =====
-- src/tunnel/multiplex.rs: the codec and the reordering at concrete frames.
use srt_vpn.Prelude.{
  ℕ, ◌+◌, ◌*◌, ◌^◌, ◌≤◌, ◌<◌, ◌≡◌, inl, inr, refl, true, false, none, some, List, [], ◌∷◌, ◌++◌,
  ◌⊎◌, arith, length, get, insert, remove, nat_eq, pair_eq,
}
use srt_vpn.Tunnel.{frame_header_len, open_frame, data_frame, heartbeat}
use srt_vpn.Tunnel.Mux.{
  Frame, new_encoder, new_acceptor, is_open, uses_session_order, next_seq_field, epoch_unit,
  encode_frame, frame_data_max, frame_flags, alloc_epoch, renew_tx, session_field,
}
use srt_vpn.Tunnel.Mux.Decoder.{
  SidReorder, MuxDecoder, new_decoder, decode_frame, acceptor_dir, accept, run, flush_ready,
  flush_loop, accept_session, accept_unknown, accept_open, fresh_state, merge_waiting, accept_first,
}
use srt_vpn.Tunnel.Mux.Wire.{sent_frame, encode_frame-decode_frame}
use srt_vpn.Tunnel.Mux.Sender.{Sending, frame_for, send_all}
use srt_vpn.Tunnel.Mux.EndToEnd.{sent_is_delivered}
use srt_vpn.Tunnel.Mux.Numbering.{IsValid, new_encoder-IsValid, new_acceptor-IsValid}
use srt_vpn.Tunnel.Mux.Delivery.{OfStream}
use srt_vpn.Tunnel.Mux.Order.{Drained, flush_ready-Drained}
use srt_vpn.Tunnel.Mux.Isolation.{IsSorted, Within, accept-Within, new_decoder-IsSorted}
use srt_vpn.Tunnel.Mux.Reassembly.{of_key, Foreign, run_delivers_stream}
use srt_vpn.Tunnel.Mux.Opening.{OpensStream, open_delivers_stream}
use srt_vpn.Tunnel.Mux.Gaps.{acceptor_overtaken_lost, reused_sid_ahead_of_open}

-- A data frame of epoch `e` of session 1, numbered `s`, in the direction of the flag byte.
abbrev data_of : ℕ → ℕ → ℕ → Frame
data_of e s flags = record {
  ftype = data_frame;
  session_id = 1;
  seq = e * epoch_unit + s;
  flags = flags;
  payload = s ∷ [];
}

abbrev open_of : ℕ → Frame
open_of e = record (data_of e 0 0) { ftype = open_frame }

abbrev beat : Frame
beat = record (data_of 0 7 0) { ftype = heartbeat }

-- The opener's direction has flags 0, the acceptor's 0x10.
opener_1 : OfStream (1, false) 1 (data_of 1 1 0)
unfolding uses_session_order is_open
opener_1 = record {
  ordered = refl;
  not_open = refl;
  key_eq = refl;
  epoch_eq = refl;
  epoch_pos = omega arith;
}

opener_2 : OfStream (1, false) 1 (data_of 1 2 0)
unfolding uses_session_order is_open
opener_2 = record {
  ordered = refl;
  not_open = refl;
  key_eq = refl;
  epoch_eq = refl;
  epoch_pos = omega arith;
}

opens_1 : OpensStream 1 1 (open_of 1)
unfolding uses_session_order is_open
opens_1 = record {
  ordered = refl;
  opens = refl;
  key_eq = refl;
  epoch_eq = refl;
  epoch_pos = omega arith;
}

acceptor_3 : OfStream (1, true) 1 (data_of 1 3 0x10)
unfolding uses_session_order is_open
acceptor_3 = record {
  ordered = refl;
  not_open = refl;
  key_eq = refl;
  epoch_eq = refl;
  epoch_pos = omega arith;
}

acceptor_2 : OfStream (1, true) 1 (data_of 1 2 0x10)
unfolding uses_session_order is_open
acceptor_2 = record {
  ordered = refl;
  not_open = refl;
  key_eq = refl;
  epoch_eq = refl;
  epoch_pos = omega arith;
}

beat-Foreign : Foreign (1, false) beat
unfolding uses_session_order is_open
beat-Foreign = record { apart = inl refl; one_way = λ h. cc }

-- Frame 2 comes before the Open, a heartbeat and frame 1 behind it.
open_delivers_stream_example :
    of_key
      (1, false)
      (run new_decoder ((data_of 1 2 0 ∷ []) ++ (open_of 1 ∷ (beat ∷ (data_of 1 1 0 ∷ []))))).1
    ≡ open_of 1 ∷ (data_of 1 1 0 ∷ (data_of 1 2 0 ∷ []))
unfolding new_decoder get of_key uses_session_order
open_delivers_stream_example =
    open_delivers_stream 1 1 (open_of 1) (data_of 1 2 0 ∷ []) (data_of 1 1 0 ∷ (data_of 1 2 0 ∷ []))
      (beat ∷ (data_of 1 1 0 ∷ [])) new_decoder new_decoder-IsSorted refl refl opens_1
      (refl, (refl, tt)) ((opener_2, inr (inl refl)), tt) (omega arith)
      (inr beat-Foreign, (inl (opener_1, inl refl), tt))
      ((opener_1, inr (inr (inl refl))), ((opener_2, inl refl), tt)) (omega arith)

-- A decoder that has delivered the frames up to 1 of the acceptor's direction.
abbrev under_way : MuxDecoder
under_way = (accept new_decoder (data_of 1 1 0x10)).0

acceptor_at_2 : SidReorder
acceptor_at_2 = record { epoch = 1; next = 2; buf = [] }

under_way-IsSorted : IsSorted under_way
unfolding is_open uses_session_order
under_way-IsSorted =
    (accept-Within new_decoder (data_of 1 1 0x10) new_decoder-IsSorted refl (λ h. cc)).sorted

-- Frame 3 comes before frame 2.
run_delivers_stream_example :
    of_key (1, true) (run under_way (data_of 1 3 0x10 ∷ (data_of 1 2 0x10 ∷ []))).1
    ≡ data_of 1 2 0x10 ∷ (data_of 1 3 0x10 ∷ [])
unfolding new_decoder get of_key uses_session_order accept accept_session accept_unknown
    accept_first is_open fresh_state flush_ready flush_loop acceptor_at_2 insert
run_delivers_stream_example =
    run_delivers_stream (1, true) 1 2 acceptor_at_2 (data_of 1 2 0x10 ∷ (data_of 1 3 0x10 ∷ []))
      (data_of 1 3 0x10 ∷ (data_of 1 2 0x10 ∷ [])) under_way under_way-IsSorted refl refl refl refl
      (refl, (refl, tt)) ((acceptor_2, inr (inl refl)), ((acceptor_3, inl refl), tt))
      (inl (acceptor_3, inr (inl refl)), (inl (acceptor_2, inl refl), tt)) (omega arith)

-- Frame 2 overtakes frames 1 and 0, which are lost.
acceptor_overtaken_lost_example :
    (run new_decoder (data_of 1 3 0x10 ∷ (data_of 1 2 0x10 ∷ []))).1 ≡ data_of 1 3 0x10 ∷ []
unfolding new_decoder get
acceptor_overtaken_lost_example =
    acceptor_overtaken_lost 1 1 (data_of 1 3 0x10) (data_of 1 2 0x10 ∷ []) new_decoder refl
      acceptor_3 ((acceptor_2, omega arith), tt)

accept-Within_example : Within (1, false) new_decoder (accept new_decoder (open_of 1))
unfolding uses_session_order
accept-Within_example = accept-Within new_decoder (open_of 1) new_decoder-IsSorted refl (λ h. refl)

-- Session 1 was open in epoch 1. Frame 1 of epoch 2 comes ahead of the Open of epoch 2.
abbrev session_1_open : MuxDecoder
session_1_open = (accept new_decoder (open_of 1)).0

later_1 : OfStream (1, false) 2 (data_of 2 1 0)
unfolding uses_session_order is_open
later_1 = record {
  ordered = refl;
  not_open = refl;
  key_eq = refl;
  epoch_eq = refl;
  epoch_pos = omega arith;
}

later_open : OpensStream 1 2 (open_of 2)
unfolding uses_session_order is_open
later_open = record {
  ordered = refl;
  opens = refl;
  key_eq = refl;
  epoch_eq = refl;
  epoch_pos = omega arith;
}

reused_sid_ahead_of_open_example :
    ((run session_1_open (data_of 2 1 0 ∷ (open_of 2 ∷ []))).1 ≡ data_of 2 1 0 ∷ (open_of 2 ∷ []))
    × (get (1, false) (run session_1_open (data_of 2 1 0 ∷ (open_of 2 ∷ []))).0.states
        ≡ some (record { epoch = 2; next = 1; buf = [] }))
unfolding new_decoder get accept accept_open is_open uses_session_order fresh_state flush_ready
    flush_loop merge_waiting insert remove
reused_sid_ahead_of_open_example =
    reused_sid_ahead_of_open 1 2 (record { epoch = 1; next = 1; buf = [] }) (data_of 2 1 0)
      (open_of 2) session_1_open refl (omega arith) refl refl later_1 later_open

abbrev gap_filled : SidReorder
gap_filled = record { epoch = 1; next = 1; buf = (1, data_of 1 1 0) ∷ ((2, data_of 1 2 0) ∷ []) }

flush_ready-Drained_example : Drained gap_filled (flush_ready gap_filled)
flush_ready-Drained_example = flush_ready-Drained gap_filled

encode_frame-decode_frame_example :
    ((1 ≤ frame_data_max)
      × (bytes : List ℕ) × (encode_frame (new_acceptor true) data_frame 1 1 (9 ∷ [])
          ≡ some (bytes, (next_seq_field (new_acceptor true) data_frame 1).1))
      × (length bytes ≡ frame_header_len + 1)
      × (decode_frame bytes ≡ some (sent_frame (new_acceptor true) data_frame 1 1 (9 ∷ [])))
      × ((next_seq_field (new_acceptor true) data_frame 1).0 < 2 ^ 32)
      × (acceptor_dir (sent_frame (new_acceptor true) data_frame 1 1 (9 ∷ [])) ≡ true)
      × IsValid (next_seq_field (new_acceptor true) data_frame 1).1)
    ⊎ ((frame_data_max < 1) × (encode_frame (new_acceptor true) data_frame 1 1 (9 ∷ []) ≡ none))
unfolding new_acceptor new_encoder
encode_frame-decode_frame_example =
    encode_frame-decode_frame (new_acceptor true) data_frame 1 1 (9 ∷ [])
      (new_acceptor-IsValid true) (omega arith) (omega arith)

abbrev two_sent : List Sending
two_sent =
    record { ftype = data_frame; session_id = 1; flags = 0; payload = 7 ∷ [] }
    ∷ (record { ftype = heartbeat; session_id = 0; flags = 0; payload = [] }
        ∷ (record { ftype = data_frame; session_id = 1; flags = 0; payload = 8 ∷ [] } ∷ []))

abbrev opening : Sending
opening = record { ftype = open_frame; session_id = 1; flags = 0; payload = [] }

-- The two data frames behind the Open of session 1.
abbrev sent_of_1 : List Frame
sent_of_1 =
    record { ftype = data_frame; session_id = 1; seq = epoch_unit + 1; flags = 4; payload = 7 ∷ [] }
    ∷ (record {
      ftype = data_frame;
      session_id = 1;
      seq = epoch_unit + 2;
      flags = 4;
      payload = 8 ∷ [];
    }
        ∷ [])

-- The second data frame comes before the Open, the first one behind it.
sent_is_delivered_example :
    of_key
      (1, false)
      (run new_decoder (
        (record {
          ftype = data_frame;
          session_id = 1;
          seq = epoch_unit + 2;
          flags = 4;
          payload = 8 ∷ [];
        }
          ∷ [])
        ++ (frame_for (new_encoder true) opening
            ∷ (record {
              ftype = data_frame;
              session_id = 1;
              seq = epoch_unit + 1;
              flags = 4;
              payload = 7 ∷ [];
            }
                ∷ [])))).1
    ≡ frame_for (new_encoder true) opening ∷ sent_of_1
unfolding new_encoder new_decoder get insert remove of_key uses_session_order is_open send_all
    next_seq_field session_field renew_tx alloc_epoch frame_flags
sent_is_delivered_example =
    sent_is_delivered (new_encoder true) 1 0 [] two_sent new_decoder
      (record {
        ftype = data_frame;
        session_id = 1;
        seq = epoch_unit + 2;
        flags = 4;
        payload = 8 ∷ [];
      }
        ∷ [])
      (record {
        ftype = data_frame;
        session_id = 1;
        seq = epoch_unit + 1;
        flags = 4;
        payload = 7 ∷ [];
      }
        ∷ [])
      (new_encoder-IsValid true) refl (omega arith)
      ((omega arith, λ h. cc), ((omega arith, λ h. cc), ((omega arith, λ h. cc), tt))) (omega arith)
      new_decoder-IsSorted refl refl (inr (inl refl), tt) (omega arith) (inl (inl refl), tt)
      (inr (inl refl), (inl refl, tt)) (omega arith)
