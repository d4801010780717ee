-- ===== src/Tunnel/Session/Open.antt =====
-- The request of an Open frame is read back.
use srt_vpn.Prelude.{
  ℕ, suc, ◌+◌, ◌/◌, ◌%◌, ◌^◌, ◌<◌, false, some, List, ◌∷◌, ◌++◌, length, get_or, ltb, ◌≡◌, refl,
  arith, inl, inr, length-append, take-length-append,
}
use srt_vpn.Prelude.Bytes.{u16_be, be_u16-u16_be, get_or-append}
use srt_vpn.Tunnel.{FrameType}
use srt_vpn.Tunnel.Mux.{MuxEncoder, Frame, next_seq_field}
use srt_vpn.Tunnel.Mux.Decoder.{decode_frame}
use srt_vpn.Tunnel.Mux.Numbering.{IsValid}
use srt_vpn.Tunnel.Mux.Wire.{encode_frame-decode_frame, sent_frame}
use srt_vpn.Tunnel.Session.{send_open, send_control, parse_open_payload}

parse_payload :
    (lossy : List ℕ → List ℕ) (p : ℕ) (host : List ℕ) (port : ℕ)
    → length host < 256
    → port < 2 ^ 16
    → lossy host ≡ host
    → parse_open_payload lossy (p ∷ (length host % 256) ∷ (host ++ u16_be port))
      ≡ some (record { proto = p; open_host = host; open_port = port })
unfolding parse_open_payload
parse_payload lossy p host port h k valid =
    let n : length host % 256 ≡ length host = omega arith in
    let m = length host in
    let tail : List ℕ = u16_be port in
    let hi : get_or (p ∷ m ∷ (host ++ tail)) (2 + m) 0 ≡ port / 256 % 256 =
      get_or-append (p ∷ m ∷ host) tail 0 (2 + m) 0 (omega arith) in
    let lo : get_or (p ∷ m ∷ (host ++ tail)) (3 + m) 0 ≡ port % 256 =
      get_or-append (p ∷ m ∷ host) tail 1 (3 + m) 0 (omega arith) in
    let long : ltb (suc (suc (m + 2))) 4 ≡ false = ground arith in
    let fits : ltb (suc (suc (m + 2))) (2 + m + 2) ≡ false = ground arith in
    rw (n, length-append, long, fits, take-length-append, valid, hi, lo, be_u16-u16_be port k) refl

-- A request to open a session is read back: for a valid encoder, a session number and a port of 16
-- bits, and a host of up to 255 bytes that the lossy decoding leaves as it is, `send_open` sends
-- one frame. The decoder reads it as an Open frame of the session, and `parse_open_payload` reads
-- its payload as the protocol, the host and the port of the call.
pub send_open-parse_open_payload :
    (lossy : List ℕ → List ℕ) (e : MuxEncoder) (sid p : ℕ) (host : List ℕ) (port : ℕ)
    → IsValid e
    → sid < 2 ^ 16
    → length host < 256
    → port < 2 ^ 16
    → lossy host ≡ host
    → (bytes : List ℕ) × (e' : MuxEncoder) × (f : Frame) × (send_open e sid p host port
        ≡ some (bytes, e'))
      × (decode_frame bytes ≡ some f)
      × (f.ftype ≡ FrameType.open_frame)
      × (f.session_id ≡ sid)
      × (parse_open_payload lossy f.payload
          ≡ some (record { proto = p; open_host = host; open_port = port }))
unfolding send_open send_control
send_open-parse_open_payload lossy e sid p host port v hs h k valid =
    let payload : List ℕ = p ∷ (length host % 256) ∷ (host ++ u16_be port) in
    let size : length payload ≡ suc (suc (length host + 2)) =
      omega (arith, length-append host (u16_be port)) in
    elim (encode_frame-decode_frame e FrameType.open_frame sid 0 payload v hs (omega arith)) [
      | inl (_, bytes, encoded, _, decoded, _, _, _) ↦ (
        bytes,
        (next_seq_field e FrameType.open_frame sid).1,
        sent_frame e FrameType.open_frame sid 0 payload,
        encoded,
        decoded,
        refl,
        refl,
        parse_payload lossy p host port h k valid,
      )
      | inr (long, _) ↦ absurd (omega (arith, size))
    ]
