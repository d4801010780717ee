-- ===== src/Tunnel/Session/Heartbeat.antt =====
-- The time of a heartbeat is read back, from the frame and from the answer to it.
use srt_vpn.Prelude.{
  ℕ, ◌+◌, ◌-◌, ◌%◌, ◌^◌, ◌≤◌, ◌<◌, true, some, List, length, ltb, ◌≡◌, refl, ap, ◌∙◌, arith, inl,
  inr,
}
use srt_vpn.Tunnel.{FrameType}
use srt_vpn.Tunnel.Mux.{MuxEncoder, Frame, next_seq_field, encode_frame}
use srt_vpn.Tunnel.Mux.Decoder.{decode_frame}
use srt_vpn.Tunnel.Mux.Numbering.{IsValid}
use srt_vpn.Tunnel.Mux.Wire.{encode_frame-decode_frame, sent_frame}
use srt_vpn.Tunnel.Session.{
  to_le_bytes, from_le_bytes, encode_heartbeat, heartbeat_timestamp, answer_heartbeat, rtt_of_pong,
  Heard, heard, hear_heartbeat,
}

from_le_bytes-to_le_bytes : (n : ℕ) → n < 2 ^ 64 → from_le_bytes (to_le_bytes 8 n) ≡ n
unfolding from_le_bytes to_le_bytes
from_le_bytes-to_le_bytes n h = omega arith

eight : (n : ℕ) → length (to_le_bytes 8 n) ≡ 8
unfolding to_le_bytes
eight n = refl

-- Any payload of 8 bytes is sent and read as a heartbeat with the same payload.
heartbeat-decoded :
    (e : MuxEncoder) (payload : List ℕ)
    → IsValid e
    → length payload ≡ 8
    → (bytes : List ℕ) × (e' : MuxEncoder) × (f : Frame) × (encode_frame e FrameType.heartbeat 0 0
          payload
        ≡ some (bytes, e'))
      × (decode_frame bytes ≡ some f)
      × (f.ftype ≡ FrameType.heartbeat)
      × (f.payload ≡ payload)
heartbeat-decoded e payload v size =
    elim (encode_frame-decode_frame e FrameType.heartbeat 0 0 payload v (omega arith)
      (omega arith)) [
        | inl (_, bytes, encoded, _, decoded, _, _, _) ↦ (
          bytes,
          (next_seq_field e FrameType.heartbeat 0).1,
          sent_frame e FrameType.heartbeat 0 0 payload,
          encoded,
          decoded,
          refl,
          refl,
        )
        | inr (long, _) ↦ absurd (omega (arith, size))
      ]

read_back : (ts : ℕ) → ts < 2 ^ 64 → heartbeat_timestamp (to_le_bytes 8 ts) ≡ some ts
unfolding heartbeat_timestamp
read_back ts h = rw (eight ts) (ap some (from_le_bytes-to_le_bytes ts h))

rtt_measured :
    (ts now : ℕ)
    → now < 2 ^ 64
    → ts ≤ now
    → now < ts + 60000
    → rtt_of_pong now (some ts) ≡ some (now - ts)
rtt_measured ts now fits le soon =
    let rtt : (now + 2 ^ 64 - ts) % 2 ^ 64 ≡ now - ts = omega arith in
    let short : ltb (now - ts) 60000 ≡ true = ground arith in rw (rtt, short) refl

hear_pong :
    (e : MuxEncoder) (now : ℕ) (g : Frame) (ts : ℕ)
    → heartbeat_timestamp g.payload ≡ some ts
    → rtt_of_pong now (some ts) ≡ some (now - ts)
    → hear_heartbeat e now g ≡ some (Heard.pong (now - ts))
unfolding hear_heartbeat heard
hear_pong e now g ts stamp rtt = ap (heard e g) (ap (rtt_of_pong now) stamp ∙ rtt)

-- The client measures the round trip: for valid encoders of both sides, its heartbeat, sent at the
-- time `ts`, is decoded by the server to a heartbeat, the server's answer to that is decoded by the
-- client to a heartbeat, and when it comes at the time `now`, less than 60 s later, the client notes
-- the time from `ts` to `now` and sends no answer.
pub heartbeat_measured :
    (client server e : MuxEncoder) (ts now : ℕ)
    → IsValid client
    → IsValid server
    → now < 2 ^ 64
    → ts ≤ now
    → now < ts + 60000
    → (ping : List ℕ) × (client' : MuxEncoder) × (f : Frame) × (back : List ℕ)
      × (server' : MuxEncoder) × (g : Frame) × (encode_heartbeat client ts ≡ some (ping, client'))
      × (decode_frame ping ≡ some f)
      × (f.ftype ≡ FrameType.heartbeat)
      × (answer_heartbeat server f ≡ some (back, server'))
      × (decode_frame back ≡ some g)
      × (g.ftype ≡ FrameType.heartbeat)
      × (hear_heartbeat e now g ≡ some (Heard.pong (now - ts)))
unfolding encode_heartbeat answer_heartbeat
heartbeat_measured client server e ts now vc vs fits le soon =
    let (ping, client', f, sent, read, kind, same) =
      heartbeat-decoded client (to_le_bytes 8 ts) vc (eight ts) in
    let (back, server', g, sent', read', kind', same') =
      heartbeat-decoded server f.payload vs (ap length same ∙ eight ts) in
    let stamp : heartbeat_timestamp g.payload ≡ some ts =
      ap heartbeat_timestamp (same' ∙ same) ∙ read_back ts (omega arith) in
    (
      ping,
      client',
      f,
      back,
      server',
      g,
      sent,
      read,
      kind,
      sent',
      read',
      kind',
      hear_pong e now g ts stamp (rtt_measured ts now fits le soon),
    )
