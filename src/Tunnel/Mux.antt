-- ===== src/Tunnel/Mux.antt =====
-- src/tunnel/multiplex.rs: the frame, and the encoder of the sending side.
-- `encode_frame` returns `none` where its `assert!` on the payload's length panics. The mutex and
-- the atomics become fields of the encoder's state: each call is one step.
pub mod Decoder
pub mod Wire
pub mod Numbering
pub mod Order
pub mod Delivery
pub mod Buffers
pub mod Isolation
pub mod Reassembly
pub mod Opening
pub mod Gaps
pub mod Sender
pub mod EndToEnd
use srt_vpn.Prelude.{
  ℕ, ◌+◌, ◌*◌, ◌%◌, ◌^◌, bit_or, Bool, true, false, Option, none, some, List, [], ◌∷◌, ◌++◌, leb,
  ◌==◌, ◌||◌, if◌then◌else◌, length, get, insert, nat_eq,
}
use srt_vpn.Prelude.Bytes.{u16_be, u32_be}
use srt_vpn.Tunnel.{
  FrameType, to_byte, tunnel_magic, protocol_version, flag_reliable, flag_dir_accept, flag_window,
}

abbrev pub frame_data_max : ℕ
frame_data_max = 1301

abbrev pub epoch_unit : ℕ
epoch_unit = 2 ^ 24

abbrev pub seq_mask : ℕ
seq_mask = 0xff_ffff

-- Open, Data, Fin and Close are delivered in the session's order.
unfoldable pub uses_session_order : FrameType → Bool
uses_session_order FrameType.open_frame = true
uses_session_order FrameType.data_frame = true
uses_session_order FrameType.fin = true
uses_session_order FrameType.close = true
uses_session_order _ = false

unfoldable pub is_open : FrameType → Bool
is_open FrameType.open_frame = true
is_open _ = false

pub record Frame : Type 0 where
  pub ftype : FrameType
  pub session_id : ℕ
  pub seq : ℕ
  pub flags : ℕ
  pub payload : List ℕ

-- The state of one session's sending side.
pub record SidTx : Type 0 where
  pub epoch : ℕ
  pub seq : ℕ

pub record MuxEncoder : Type 0 where
  pub seq : ℕ
  pub session_tx : List (ℕ × SidTx)
  pub epoch_ctr : ℕ
  pub reliable : Bool
  pub dir_acceptor : Bool

unfoldable pub new_encoder : Bool → MuxEncoder
new_encoder reliable = record {
  seq = 0;
  session_tx = [];
  epoch_ctr = 0;
  reliable = reliable;
  dir_acceptor = false;
}

unfoldable pub new_acceptor : Bool → MuxEncoder
unfolding new_encoder
new_acceptor reliable = record (new_encoder reliable) { dir_acceptor = true }

-- `epoch_ctr` is an AtomicU8: `fetch_add` wraps at 256.
unfoldable pub alloc_epoch : MuxEncoder → ℕ × MuxEncoder
alloc_epoch e = (e.epoch_ctr % 255 + 1, record e { epoch_ctr = (e.epoch_ctr + 1) % 256 })

-- `map.entry(session_id).or_insert(SidTx { epoch: 0, seq: 0 })`
abbrev pub entry : Option SidTx → SidTx
entry none = record { epoch = 0; seq = 0 }
entry (some tx) = tx

-- A new epoch at the first use of the session, at an Open, and when the 24 bits are used up.
unfoldable pub renew_tx : MuxEncoder → FrameType → SidTx → SidTx × MuxEncoder
unfolding alloc_epoch is_open
renew_tx e ftype tx =
    if tx.epoch == 0 || is_open ftype || leb seq_mask tx.seq
    then (record { epoch = (alloc_epoch e).0; seq = 0 }, (alloc_epoch e).1)
    else (tx, e)

-- The field of a session frame, and the session's next state. The two parts of the field have no
-- bit in common, so that `|` is a sum.
unfoldable pub session_field : MuxEncoder → FrameType → ℕ → ℕ × MuxEncoder
session_field e ftype sid =
    let (tx, e') = renew_tx e ftype (entry (get sid e.session_tx)) in
    (
      tx.epoch * epoch_unit + tx.seq,
      record e' {
        session_tx = insert sid (record { epoch = tx.epoch; seq = tx.seq + 1 }) e'.session_tx;
      },
    )

unfoldable pub next_seq_field : MuxEncoder → FrameType → ℕ → ℕ × MuxEncoder
unfolding uses_session_order
next_seq_field e ftype sid =
    if uses_session_order ftype
    then session_field e ftype sid
    else (e.seq % epoch_unit, record e { seq = (e.seq + 1) % 2 ^ 32 })

-- The flag byte: the caller's flags, the mode and the direction.
unfoldable pub frame_flags : MuxEncoder → ℕ → ℕ
frame_flags e flags =
    let f = if e.reliable then bit_or flags flag_reliable else flags in
    if e.dir_acceptor then bit_or f flag_dir_accept else f

-- The bytes of a frame whose sequence field and flag byte are known.
unfoldable pub frame_bytes : FrameType → ℕ → ℕ → ℕ → List ℕ → List ℕ
frame_bytes ftype sid field flags payload =
    tunnel_magic
    ++ (protocol_version
        ∷ to_byte ftype
        ∷ (u16_be sid ++ (u16_be (length payload % 2 ^ 16) ++ (u32_be field ++ (flags ∷ payload)))))

unfoldable pub encode_frame : MuxEncoder → FrameType → ℕ → ℕ → List ℕ → Option (List ℕ × MuxEncoder)
encode_frame e ftype sid flags payload =
    if leb (length payload) frame_data_max
    then some (
      frame_bytes ftype sid (next_seq_field e ftype sid).0 (frame_flags e flags) payload,
      (next_seq_field e ftype sid).1,
    )
    else none

unfoldable pub encode_ack : MuxEncoder → ℕ → ℕ → Option (List ℕ × MuxEncoder)
encode_ack e sid window = encode_frame e FrameType.ack sid flag_window (u16_be window)
