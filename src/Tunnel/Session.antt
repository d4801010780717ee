-- ===== src/Tunnel/Session.antt =====
-- src/tunnel/dispatch.rs, TunnelSession, what it sends; src/server/forward.rs, parse_open_payload;
-- src/tunnel/multiplex.rs, the heartbeat, and what src/server/listener.rs and src/client/mod.rs make
-- of one. A send gives the frames that it hands to the connection, in their order, and the encoder
-- after it; `none` where an assertion of the encoder panics. The connection takes every frame: its
-- errors are not modelled. Text is a list of bytes, and what String::from_utf8_lossy makes of bytes
-- is the parameter `lossy`.
pub mod Stream
pub mod Open
pub mod Heartbeat
use srt_vpn.Prelude.{
  ℕ, zero, suc, ◌+◌, ◌-◌, ◌*◌, ◌/◌, ◌%◌, ◌^◌, Bool, true, false, not, Option, none, some, ◌>>=◌,
  List, [], ◌∷◌, ◌++◌, ltb, ◌==◌, if◌then◌else◌, length, get_or, take, drop,
}
use srt_vpn.Prelude.Bytes.{u16_be, be_u16}
use srt_vpn.Tunnel.{FrameType}
use srt_vpn.Tunnel.Mux.{Frame, MuxEncoder, encode_frame, frame_data_max}

-- `slice::chunks`: with as many rounds as bytes, of which each takes one or more.
unfoldable pub chunks_loop : ℕ → ℕ → List ℕ → List (List ℕ)
chunks_loop zero size content = []
chunks_loop (suc n) size [] = []
chunks_loop (suc n) size (x ∷ xs) = take size (x ∷ xs) ∷ chunks_loop n size (drop size (x ∷ xs))

unfoldable pub chunks : ℕ → List ℕ → List (List ℕ)
chunks size content = chunks_loop (length content) size content

-- The loop over the chunks.
unfoldable pub encode_all :
    MuxEncoder → FrameType → ℕ → List (List ℕ) → Option (List (List ℕ) × MuxEncoder)
encode_all e t sid [] = some ([], e)
encode_all e t sid (c ∷ cs) = do
  one ← encode_frame e t sid 0 c
  more ← encode_all one.1 t sid cs
  some (one.0 ∷ more.0, more.1)

unfoldable pub send_data_batch : MuxEncoder → ℕ → List ℕ → Option (List (List ℕ) × MuxEncoder)
send_data_batch e sid content =
    encode_all e FrameType.data_frame sid (chunks frame_data_max content)

-- `send_unreliable`; the switch is the connection's `udp_datagram_enabled`.
unfoldable pub send_unreliable :
    Bool → MuxEncoder → ℕ → List ℕ → Option (List (List ℕ) × MuxEncoder)
send_unreliable udp_datagram e sid content =
    if not udp_datagram
    then encode_all e FrameType.data_frame sid (chunks frame_data_max content)
    else encode_all e FrameType.datagram sid (chunks frame_data_max content)

unfoldable pub send_control : MuxEncoder → FrameType → ℕ → List ℕ → Option (List ℕ × MuxEncoder)
send_control e t sid payload = encode_frame e t sid 0 payload

unfoldable pub send_open : MuxEncoder → ℕ → ℕ → List ℕ → ℕ → Option (List ℕ × MuxEncoder)
send_open e sid proto host port =
    send_control e FrameType.open_frame sid (proto ∷ (length host % 256) ∷ (host ++ u16_be port))

unfoldable pub send_fin : MuxEncoder → ℕ → Option (List ℕ × MuxEncoder)
send_fin e sid = send_control e FrameType.fin sid []

-- `OpenRequest`
pub record OpenRequest : Type 0 where
  pub proto : ℕ
  pub open_host : List ℕ
  pub open_port : ℕ

unfoldable pub parse_open_payload : (List ℕ → List ℕ) → List ℕ → Option OpenRequest
parse_open_payload lossy payload =
    let host_len = get_or payload 1 0 in
    if ltb (length payload) 4
    then none
    else if ltb (length payload) (2 + host_len + 2)
    then none
    else some (record {
      proto = get_or payload 0 0;
      open_host = lossy (take host_len (drop 2 payload));
      open_port = be_u16 (get_or payload (2 + host_len) 0) (get_or payload (3 + host_len) 0);
    })

-- `i64::to_le_bytes` and `i64::from_le_bytes`, on the word of 64 bits
unfoldable pub to_le_bytes : ℕ → ℕ → List ℕ
to_le_bytes zero n = []
to_le_bytes (suc k) n = (n % 256) ∷ to_le_bytes k (n / 256)

unfoldable pub from_le_bytes : List ℕ → ℕ
from_le_bytes [] = 0
from_le_bytes (b ∷ bs) = b + 256 * from_le_bytes bs

-- `ts` is the clock's time in milliseconds.
unfoldable pub encode_heartbeat : MuxEncoder → ℕ → Option (List ℕ × MuxEncoder)
encode_heartbeat e ts = encode_frame e FrameType.heartbeat 0 0 (to_le_bytes 8 ts)

unfoldable pub heartbeat_timestamp : List ℕ → Option ℕ
heartbeat_timestamp payload =
    if not (length payload == 8) then none else some (from_le_bytes payload)

-- The server sends the payload of a heartbeat back.
unfoldable pub answer_heartbeat : MuxEncoder → Frame → Option (List ℕ × MuxEncoder)
answer_heartbeat e f = encode_frame e FrameType.heartbeat 0 0 f.payload

-- The time since `ts`, if it is from 0 on and below 60 s. `now` and `ts` are words of 64 bits.
abbrev pub rtt_of_pong : ℕ → Option ℕ → Option ℕ
rtt_of_pong now none = none
rtt_of_pong now (some ts) =
    let rtt = (now + 2 ^ 64 - ts) % 2 ^ 64 in if ltb rtt 60000 then some rtt else none

-- What the client makes of a heartbeat: the answer to its own, whose time it notes, or one that it
-- answers.
pub data Heard : Type 0 where
  pong : ℕ → Heard
  answered : List ℕ → MuxEncoder → Heard

unfoldable pub heard : MuxEncoder → Frame → Option ℕ → Option Heard
unfolding answer_heartbeat
heard e f (some rtt) = some (Heard.pong rtt)
heard e f none = answer_heartbeat e f >>= λ (bytes, e'). some (Heard.answered bytes e')

unfoldable pub hear_heartbeat : MuxEncoder → ℕ → Frame → Option Heard
hear_heartbeat e now f = heard e f (rtt_of_pong now (heartbeat_timestamp f.payload))
