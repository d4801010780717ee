-- ===== src/Tunnel/Mux/Wire.antt =====
-- src/tunnel/multiplex.rs: `decode_frame` reads back what `encode_frame` writes.
use srt_vpn.Prelude.{
  ℕ, ◌+◌, ◌^◌, ◌≤◌, ◌<◌, ◌≡◌, refl, none, some, List, arith, length, take-length, not, bit_and,
  bit_or, Bool-cases, ◌==◌, leb, leb→le, inl, inr, ap, ◌⊎◌, nat_eq,
}
use srt_vpn.Prelude.Bytes.{passes, passes_each}
use srt_vpn.Tunnel.{FrameType, from_byte-to_byte, frame_header_len, flag_dir_accept, flag_reliable}
use srt_vpn.Tunnel.Mux.{
  Frame, MuxEncoder, frame_data_max, frame_bytes, frame_flags, next_seq_field, encode_frame,
}
use srt_vpn.Tunnel.Mux.Decoder.{decode_frame, acceptor_dir}
use srt_vpn.Tunnel.Mux.Numbering.{IsValid, next_seq_field-IsValid}

pub decode_frame-frame_bytes :
    (t : FrameType) (sid field flags : ℕ) (payload : List ℕ)
    → sid < 2 ^ 16
    → field < 2 ^ 32
    → length payload < 2 ^ 16
    → decode_frame (frame_bytes t sid field flags payload)
      ≡ some (record { ftype = t; session_id = sid; seq = field; flags = flags; payload = payload })
unfolding decode_frame frame_bytes
decode_frame-frame_bytes t sid field flags payload hs hf hp =
    rw from_byte-to_byte (ground (arith, take-length payload))

length-frame_bytes :
    (t : FrameType) (sid field flags : ℕ) (payload : List ℕ)
    → length (frame_bytes t sid field flags payload) ≡ frame_header_len + length payload
unfolding frame_bytes
length-frame_bytes t sid field flags payload = omega arith

-- The direction bit of the flag byte is the encoder's, whatever flags below 16 the caller gives.
pub frame_flags-dir :
    (e : MuxEncoder) (flags : ℕ)
    → flags < 16
    → not (bit_and (frame_flags e flags) flag_dir_accept == 0) ≡ e.dir_acceptor
unfolding frame_flags passes
frame_flags-dir e flags h = elim (Bool-cases e.dir_acceptor) [
  | inl d ↦ elim (Bool-cases e.reliable) [
    | inl r ↦
        rw (d, r)
          (passes_each
            (λ n.
              not (bit_and (bit_or (bit_or n flag_reliable) flag_dir_accept) flag_dir_accept == 0))
            flags 15 (omega arith) refl)
    | inr r ↦
        rw (d, r)
          (passes_each (λ n. not (bit_and (bit_or n flag_dir_accept) flag_dir_accept == 0)) flags 15
            (omega arith) refl)
  ]
  | inr d ↦ elim (Bool-cases e.reliable) [
    | inl r ↦
        rw (d, r)
          (ap not (
            passes_each (λ n. bit_and (bit_or n flag_reliable) flag_dir_accept == 0) flags 15
              (omega arith) refl))
    | inr r ↦
        rw (d, r)
          (ap not (passes_each (λ n. bit_and n flag_dir_accept == 0) flags 15 (omega arith) refl))
  ]
]

-- The frame that is read back from an encoded frame.
abbrev pub sent_frame : MuxEncoder → FrameType → ℕ → ℕ → List ℕ → Frame
sent_frame e t sid flags payload = record {
  ftype = t;
  session_id = sid;
  seq = (next_seq_field e t sid).0;
  flags = frame_flags e flags;
  payload = payload;
}

-- Let an encoder be valid, the session number a 16-bit word and the flags below 16. A payload of
-- up to 1301 bytes is encoded to 15 bytes more. The decoder reads back the type, the session, the
-- payload, the sequence field, which fits 32 bits, and the direction of the encoder. The encoder
-- stays valid. A longer payload is refused.
pub encode_frame-decode_frame :
    (e : MuxEncoder) (t : FrameType) (sid flags : ℕ) (payload : List ℕ)
    → IsValid e
    → sid < 2 ^ 16
    → flags < 16
    → ((length payload ≤ frame_data_max)
        × (bytes : List ℕ) × (encode_frame e t sid flags payload
            ≡ some (bytes, (next_seq_field e t sid).1))
        × (length bytes ≡ frame_header_len + length payload)
        × (decode_frame bytes ≡ some (sent_frame e t sid flags payload))
        × ((next_seq_field e t sid).0 < 2 ^ 32)
        × (acceptor_dir (sent_frame e t sid flags payload) ≡ e.dir_acceptor)
        × IsValid (next_seq_field e t sid).1)
      ⊎ ((frame_data_max < length payload) × (encode_frame e t sid flags payload ≡ none))
unfolding encode_frame
encode_frame-decode_frame e t sid flags payload v hs hf =
    elim (Bool-cases (leb (length payload) frame_data_max)) [
      | inl fits ↦
          let le = leb→le (length payload) frame_data_max fits in
          let (lt, v') = next_seq_field-IsValid e t sid v in
          let field = (next_seq_field e t sid).0 in
          inl (
            le,
            frame_bytes t sid field (frame_flags e flags) payload,
            rw fits refl,
            length-frame_bytes t sid field (frame_flags e flags) payload,
            decode_frame-frame_bytes t sid field (frame_flags e flags) payload hs lt (omega arith),
            lt,
            frame_flags-dir e flags hf,
            v',
          )
      | inr long ↦ inr (ground arith, rw long)
    ]
