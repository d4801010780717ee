-- ===== src/Tunnel/Mux/Decoder.antt =====
-- src/tunnel/multiplex.rs: the decoder of the receiving side, with the reordering of each session.
-- Logs, the metrics and the time of the last report are left out. BTreeMap and HashMap are
-- association lists with one entry for a key.
use srt_vpn.Prelude.{
  ℕ, zero, suc, ◌+◌, ◌-◌, ◌/◌, ◌%◌, bit_and, Bool, not, Option, none, some, List, [], ◌∷◌, ◌++◌,
  ltb, leb, ◌==◌, ◌||◌, if◌then◌else◌, length, get_or, take, drop, get, insert, remove, nat_eq,
  pair_eq,
}
use srt_vpn.Prelude.Bytes.{be_u16, be_u32, bytes_eq}
use srt_vpn.Tunnel.{
  FrameType, from_byte, tunnel_magic, protocol_version, flag_dir_accept, frame_header_len,
}
use srt_vpn.Tunnel.Mux.{Frame, uses_session_order, is_open, epoch_unit}

abbrev pub preopen_max : ℕ
preopen_max = 64

abbrev pub reorder_max : ℕ
reorder_max = 4096

-- The reorder state of one session in one direction.
pub record SidReorder : Type 0 where
  pub epoch : ℕ
  pub next : ℕ
  pub buf : List (ℕ × Frame)

pub record MuxDecoder : Type 0 where
  pub states : List ((ℕ × Bool) × SidReorder)
  pub preopen : List (ℕ × List Frame)
  pub out_of_order : ℕ
  pub stale_dropped : ℕ
  pub rx_frames : ℕ

unfoldable pub new_decoder : MuxDecoder
new_decoder = record {
  states = [];
  preopen = [];
  out_of_order = 0;
  stale_dropped = 0;
  rx_frames = 0;
}

-- The fields that stand behind a frame type that is known.
abbrev frame_at : List ℕ → FrameType → Frame
frame_at msg ftype = record {
  ftype = ftype;
  session_id = be_u16 (get_or msg 6 0) (get_or msg 7 0);
  seq = be_u32 (get_or msg 10 0) (get_or msg 11 0) (get_or msg 12 0) (get_or msg 13 0);
  flags = get_or msg 14 0;
  payload = take (be_u16 (get_or msg 8 0) (get_or msg 9 0)) (drop frame_header_len msg);
}

abbrev frame_of : List ℕ → Option FrameType → Option Frame
frame_of msg none = none
frame_of msg (some ftype) =
    if ltb (length msg - frame_header_len) (be_u16 (get_or msg 8 0) (get_or msg 9 0))
    then none
    else some (frame_at msg ftype)

unfoldable pub decode_frame : List ℕ → Option Frame
decode_frame msg =
    if ltb (length msg) frame_header_len
    then none
    else if not (bytes_eq (take 4 msg) tunnel_magic)
    then none
    else if not (get_or msg 4 0 == protocol_version)
    then none
    else frame_of msg (from_byte (get_or msg 5 0))

-- `(seq >> 24) as u8` and `seq & SEQ_MASK`
abbrev pub epoch_of : Frame → ℕ
epoch_of f = f.seq / epoch_unit % 256

abbrev pub sseq_of : Frame → ℕ
sseq_of f = f.seq % epoch_unit

abbrev pub acceptor_dir : Frame → Bool
acceptor_dir f = not (bit_and f.flags flag_dir_accept == 0)

abbrev pub key_of : Frame → ℕ × Bool
key_of f = (f.session_id, acceptor_dir f)

-- `flush_ready`: take the run of frames from `next` on out of the buffer. A round removes an entry,
-- so the number of entries is enough fuel.
unfoldable pub flush_loop : ℕ → SidReorder → SidReorder × List Frame
flush_loop zero st = (st, [])
flush_loop (suc fuel) st = elim (get st.next st.buf) [
  | none ↦ (st, [])
  | some f ↦
      let r =
        flush_loop fuel
          (record { epoch = st.epoch; next = st.next + 1; buf = remove st.next st.buf }) in
      (r.0, f ∷ r.1)
]

unfoldable pub flush_ready : SidReorder → SidReorder × List Frame
flush_ready st = flush_loop (length st.buf) st

abbrev pub drop_stale : MuxDecoder → MuxDecoder
drop_stale d = record d { stale_dropped = d.stale_dropped + 1 }

abbrev pub put_state : MuxDecoder → ℕ × Bool → SidReorder → MuxDecoder
put_state d key st = record d { states = insert key st d.states }

-- The frames that waited for their Open: those of another epoch, those that are out of date and
-- those beyond the limit are dropped. Returns the state and the number of frames dropped.
abbrev pub unwanted : SidReorder → Frame → Bool
unwanted st f =
    not (epoch_of f == st.epoch) || ltb (sseq_of f) st.next || leb reorder_max (length st.buf)

unfoldable pub merge_one : SidReorder → Frame → SidReorder
merge_one st f = if unwanted st f then st else record st { buf = insert (sseq_of f) f st.buf }

unfoldable pub merge_waiting : SidReorder → List Frame → SidReorder × ℕ
merge_waiting st [] = (st, 0)
merge_waiting st (f ∷ fs) =
    let r = merge_waiting (merge_one st f) fs in (r.0, (if unwanted st f then 1 else 0) + r.1)

-- `self.preopen.remove(&sid).unwrap_or_default()`
abbrev pub or_empty : Option (List Frame) → List Frame
or_empty none = []
or_empty (some fs) = fs

unfoldable pub fresh_state : Frame → SidReorder
fresh_state f = record { epoch = epoch_of f; next = sseq_of f + 1; buf = [] }

unfoldable pub accept_open : MuxDecoder → Frame → MuxDecoder × List Frame
unfolding fresh_state
accept_open d f =
    let merged = merge_waiting (fresh_state f) (or_empty (get f.session_id d.preopen)) in
    let flushed = flush_ready merged.0 in
    (
      record d {
        states = insert (key_of f) flushed.0 d.states;
        preopen = remove f.session_id d.preopen;
        stale_dropped = d.stale_dropped + merged.1;
      },
      f ∷ flushed.1,
    )

-- A frame of the session's epoch: a duplicate, the next one, or one ahead of a gap.
unfoldable pub accept_current : MuxDecoder → SidReorder → Frame → MuxDecoder × List Frame
accept_current d st f =
    let flushed = flush_ready (record st { next = st.next + 1 }) in
    if ltb (sseq_of f) st.next
    then (drop_stale d, [])
    else if sseq_of f == st.next
    then (put_state d (key_of f) flushed.0, f ∷ flushed.1)
    else if ltb (length st.buf) reorder_max
    then (
      put_state (record d { out_of_order = d.out_of_order + 1 }) (key_of f)
          (record st { buf = insert (sseq_of f) f st.buf }),
      [],
    )
    else (drop_stale (record d { out_of_order = d.out_of_order + 1 }), [])

-- The first frame of an epoch. The buffer is empty, so that `flush_ready` finds nothing.
unfoldable pub accept_first : MuxDecoder → Frame → MuxDecoder × List Frame
unfolding fresh_state
accept_first d f =
    let flushed = flush_ready (fresh_state f) in (put_state d (key_of f) flushed.0, f ∷ flushed.1)

-- `epoch.wrapping_sub(st.epoch) < 128`
abbrev pub newer : ℕ → ℕ → Bool
newer a b = ltb ((a + 256 - b) % 256) 128

unfoldable pub accept_unknown : MuxDecoder → Frame → MuxDecoder × List Frame
accept_unknown d f =
    let waiting = or_empty (get f.session_id d.preopen) in
    if acceptor_dir f
    then accept_first d f
    else if ltb (length waiting) preopen_max
    then (record d { preopen = insert f.session_id (waiting ++ (f ∷ [])) d.preopen }, [])
    else (drop_stale (record d { preopen = insert f.session_id waiting d.preopen }), [])

unfoldable pub accept_session : MuxDecoder → Option SidReorder → Frame → MuxDecoder × List Frame
accept_session d none f = accept_unknown d f
accept_session d (some st) f =
    if st.epoch == epoch_of f
    then accept_current d st f
    else if newer (epoch_of f) st.epoch
    then accept_first d f
    else (drop_stale d, [])

-- `feed` behind the decoding of the message.
unfoldable pub accept : MuxDecoder → Frame → MuxDecoder × List Frame
accept d f =
    if not (uses_session_order f.ftype)
    then (d, f ∷ [])
    else if epoch_of f == 0
    then (d, f ∷ [])
    else if is_open f.ftype
    then accept_open d f
    else accept_session d (get (key_of f) d.states) f

unfoldable pub feed : MuxDecoder → List ℕ → MuxDecoder × List Frame
feed d msg =
    let d' = record d { rx_frames = d.rx_frames + 1 } in
    elim (decode_frame msg) [ none ↦ (d', []) | some f ↦ accept d' f ]

-- The frames of a row of arrivals, one after the other.
unfoldable pub run : MuxDecoder → List Frame → MuxDecoder × List Frame
run d [] = (d, [])
run d (f ∷ fs) = let (d', out) = accept d f in let r = run d' fs in (r.0, out ++ r.1)
