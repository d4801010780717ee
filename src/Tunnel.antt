-- ===== src/Tunnel.antt =====
-- src/tunnel/mod.rs: the frame types and constants of the tunnel protocol.
pub mod Mux
pub mod Dispatch
pub mod Session
use srt_vpn.Prelude.{
  ℕ, ◌≡◌, ◌≤◌, refl, Option, none, some, List, [], ◌∷◌, arith, ◌==◌, if◌then◌else◌,
}

abbrev pub protocol_version : ℕ
protocol_version = 2

abbrev pub max_sessions : ℕ
max_sessions = 256

abbrev pub tunnel_magic : List ℕ
tunnel_magic = b'S' ∷ b'R' ∷ b'T' ∷ b'V' ∷ []

abbrev pub flag_reliable : ℕ
flag_reliable = 0x04

abbrev pub flag_window : ℕ
flag_window = 0x08

abbrev pub flag_dir_accept : ℕ
flag_dir_accept = 0x10

abbrev pub frame_header_len : ℕ
frame_header_len = 15

pub data FrameType : Type 0 where
  data_frame ack nack datagram challenge response heartbeat open_frame close fin rst : FrameType

-- `ftype as u8`
unfoldable pub to_byte : FrameType → ℕ
to_byte data_frame = 0x01
to_byte ack = 0x02
to_byte nack = 0x03
to_byte datagram = 0x04
to_byte challenge = 0x10
to_byte response = 0x11
to_byte heartbeat = 0x12
to_byte open_frame = 0x20
to_byte close = 0x21
to_byte fin = 0x22
to_byte rst = 0x23

unfoldable pub from_byte : ℕ → Option FrameType
from_byte b =
    if b == 0x01
    then some data_frame
    else if b == 0x02
    then some ack
    else if b == 0x03
    then some nack
    else if b == 0x04
    then some datagram
    else if b == 0x10
    then some challenge
    else if b == 0x11
    then some response
    else if b == 0x12
    then some heartbeat
    else if b == 0x20
    then some open_frame
    else if b == 0x21
    then some close
    else if b == 0x22
    then some fin
    else if b == 0x23
    then some rst
    else none

pub from_byte-to_byte : (t : FrameType) → from_byte (to_byte t) ≡ some t
unfolding from_byte to_byte
from_byte-to_byte data_frame = refl
from_byte-to_byte _ = refl

pub to_byte-from_byte : (b : ℕ) (t : FrameType) → from_byte b ≡ some t → to_byte t ≡ b
unfolding from_byte to_byte
to_byte-from_byte b t h = ground arith

pub to_byte-lt : (t : FrameType) → to_byte t ≤ 0x23
unfolding to_byte
to_byte-lt t = ground arith
