-- ===== src/Tests/Sessions.antt =====
-- What a session sends, at concrete inputs.
use srt_vpn.Prelude.{ℕ, true, some, List, [], ◌∷◌, ◌≡◌, refl, arith}
use srt_vpn.Tunnel.{FrameType}
use srt_vpn.Tunnel.Mux.{Frame, MuxEncoder, new_encoder, new_acceptor}
use srt_vpn.Tunnel.Mux.Decoder.{decode_frame}
use srt_vpn.Tunnel.Mux.Numbering.{IsValid, new_encoder-IsValid, new_acceptor-IsValid}
use srt_vpn.Tunnel.Session.{
  chunks, chunks_loop, send_data_batch, send_unreliable, send_open, parse_open_payload,
  encode_heartbeat, answer_heartbeat, Heard, hear_heartbeat,
}
use srt_vpn.Tunnel.Session.Stream.{Carries, send_stream_decodes}
use srt_vpn.Tunnel.Session.Open.{send_open-parse_open_payload}
use srt_vpn.Tunnel.Session.Heartbeat.{heartbeat_measured}

abbrev five_bytes : List ℕ
five_bytes = 1 ∷ 2 ∷ 3 ∷ 4 ∷ 5 ∷ []

abbrev in_pairs : List (List ℕ)
in_pairs = (1 ∷ 2 ∷ []) ∷ (3 ∷ 4 ∷ []) ∷ (5 ∷ []) ∷ []

chunks_of_two : chunks 2 five_bytes ≡ in_pairs
unfolding chunks chunks_loop
chunks_of_two = refl

send_stream_decodes_example :
    ((frames : List (List ℕ)) × (e' : MuxEncoder) × (send_data_batch (new_encoder true) 7 five_bytes
        ≡ some (frames, e'))
      × Carries FrameType.data_frame 7 frames five_bytes
      × IsValid e')
    × ((frames : List (List ℕ)) × (e' : MuxEncoder) × (send_unreliable true
            (new_encoder true)
            7
            five_bytes
          ≡ some (frames, e'))
        × Carries FrameType.datagram 7 frames five_bytes
        × IsValid e')
send_stream_decodes_example =
    send_stream_decodes true (new_encoder true) 7 five_bytes (new_encoder-IsValid true)
      (omega arith)

-- "a.b"
abbrev host : List ℕ
host = 97 ∷ 46 ∷ 98 ∷ []

send_open-parse_open_payload_example :
    (bytes : List ℕ) × (e' : MuxEncoder) × (f : Frame) × (send_open (new_encoder true) 7 0 host 443
      ≡ some (bytes, e'))
    × (decode_frame bytes ≡ some f)
    × (f.ftype ≡ FrameType.open_frame)
    × (f.session_id ≡ 7)
    × (parse_open_payload (λ t. t) f.payload
        ≡ some (record { proto = 0; open_host = host; open_port = 443 }))
send_open-parse_open_payload_example =
    send_open-parse_open_payload (λ t. t) (new_encoder true) 7 0 host 443 (new_encoder-IsValid true)
      (omega arith) (omega arith) (omega arith) refl

heartbeat_measured_example :
    (ping : List ℕ) × (client' : MuxEncoder) × (f : Frame) × (back : List ℕ)
    × (server' : MuxEncoder) × (g : Frame) × (encode_heartbeat (new_encoder true) 1700000000000
        ≡ some (ping, client'))
    × (decode_frame ping ≡ some f)
    × (f.ftype ≡ FrameType.heartbeat)
    × (answer_heartbeat (new_acceptor true) f ≡ some (back, server'))
    × (decode_frame back ≡ some g)
    × (g.ftype ≡ FrameType.heartbeat)
    × (hear_heartbeat (new_encoder true) 1700000000222 g ≡ some (Heard.pong 222))
heartbeat_measured_example =
    heartbeat_measured (new_encoder true) (new_acceptor true) (new_encoder true) 1700000000000
      1700000000222 (new_encoder-IsValid true) (new_acceptor-IsValid true) (omega arith)
      (omega arith) (omega arith)
