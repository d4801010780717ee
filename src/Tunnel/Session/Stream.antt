-- ===== src/Tunnel/Session/Stream.antt =====
-- The bytes that a session sends arrive in its frames.
use srt_vpn.Prelude.{
  ℕ, zero, suc, ◌^◌, ◌≤◌, ◌<◌, Bool, true, false, some, List, [], ◌∷◌, ◌++◌, length, take, drop,
  All, ◌≡◌, refl, ◌∙◌, ap, arith, inl, inr, length-take, length-drop, take-append-drop,
  if◌then◌else◌, subst,
}
use srt_vpn.Tunnel.{FrameType}
use srt_vpn.Tunnel.Mux.{MuxEncoder, Frame, frame_data_max, next_seq_field}
use srt_vpn.Tunnel.Mux.Decoder.{decode_frame}
use srt_vpn.Tunnel.Mux.Numbering.{IsValid}
use srt_vpn.Tunnel.Mux.Wire.{encode_frame-decode_frame, sent_frame}
use srt_vpn.Tunnel.Session.{chunks, chunks_loop, encode_all, send_data_batch, send_unreliable}

-- The frames are those of a stream: each is decoded to a frame of that type and session, and their
-- payloads one after another are the stream.
pub data Carries (t : FrameType) (sid : ℕ) : List (List ℕ) → List ℕ → Type 0 where
  none_left : Carries t sid [] []
  carried :
      {bytes rest : List ℕ} {frames : List (List ℕ)} (f : Frame)
      → decode_frame bytes ≡ some f
      → f.ftype ≡ t
      → f.session_id ≡ sid
      → length f.payload ≤ frame_data_max
      → Carries t sid frames rest
      → Carries t sid (bytes ∷ frames) (f.payload ++ rest)

concat : List (List ℕ) → List ℕ
concat [] = []
concat (c ∷ cs) = c ++ concat cs

-- Chunks of a size above 0 are together the data, and each is within the size.
concat-chunks_loop :
    (n size : ℕ) (d : List ℕ) → 0 < size → length d ≤ n → concat (chunks_loop n size d) ≡ d
unfolding concat chunks_loop
concat-chunks_loop zero size [] h l = refl
concat-chunks_loop zero size (x ∷ xs) h l = absurd (omega (arith, l))
concat-chunks_loop (suc n) size [] h l = refl
concat-chunks_loop (suc n) zero (x ∷ xs) h l = absurd (omega (arith, h))
concat-chunks_loop (suc n) (suc k) (x ∷ xs) h l =
    ap (λ r. take (suc k) (x ∷ xs) ++ r)
      (concat-chunks_loop n (suc k) (drop k xs) h (omega (arith, l, length-drop k xs)))
    ∙ take-append-drop (suc k) (x ∷ xs)

chunks_loop_within : (n size : ℕ) (d : List ℕ) → All (λ c. length c ≤ size) (chunks_loop n size d)
unfolding chunks_loop
chunks_loop_within zero size d = tt
chunks_loop_within (suc n) size [] = tt
chunks_loop_within (suc n) size (x ∷ xs) =
    (omega (arith, length-take size (x ∷ xs)), chunks_loop_within n size (drop size (x ∷ xs)))

-- Chunks that fit their frames are all encoded.
encode_all-Carries :
    (e : MuxEncoder) (t : FrameType) (sid : ℕ) (cs : List (List ℕ))
    → IsValid e
    → sid < 2 ^ 16
    → All (λ c. length c ≤ frame_data_max) cs
    → (frames : List (List ℕ)) × (e' : MuxEncoder) × (encode_all e t sid cs ≡ some (frames, e'))
      × Carries t sid frames (concat cs)
      × IsValid e'
unfolding encode_all concat
encode_all-Carries e t sid [] v hs a = ([], e, refl, Carries.none_left, v)
encode_all-Carries e t sid (c ∷ cs) v hs (fits, more) =
    elim (encode_frame-decode_frame e t sid 0 c v hs (omega arith)) [
      | inl (_, bytes, encoded, _, decoded, _, _, valid) ↦
          let (frames, last, all_encoded, carries, v') =
            encode_all-Carries (next_seq_field e t sid).1 t sid cs valid hs more in
          (
            bytes ∷ frames,
            last,
            rw encoded (rw all_encoded refl),
            Carries.carried (sent_frame e t sid 0 c) decoded refl refl fits carries,
            v',
          )
      | inr (long, _) ↦ absurd (omega arith)
    ]

-- A session's stream goes out whole: for a valid encoder and a session number of 16 bits,
-- `send_data_batch` of any bytes never panics, its frames are all Data frames of the session with
-- up to 1301 bytes each, as the decoder reads them, and their payloads one after another are the
-- bytes; and `send_unreliable` does the same, in Datagram frames when the switch is on.
pub send_stream_decodes :
    (udp_datagram : Bool) (e : MuxEncoder) (sid : ℕ) (content : List ℕ)
    → IsValid e
    → sid < 2 ^ 16
    → ((frames : List (List ℕ)) × (e' : MuxEncoder) × (send_data_batch e sid content
          ≡ some (frames, e'))
        × Carries FrameType.data_frame sid frames content
        × IsValid e')
      × ((frames : List (List ℕ)) × (e' : MuxEncoder) × (send_unreliable udp_datagram e sid content
            ≡ some (frames, e'))
          × Carries
              (if udp_datagram then FrameType.datagram else FrameType.data_frame)
              sid
              frames
              content
          × IsValid e')
unfolding send_data_batch send_unreliable chunks
send_stream_decodes udp_datagram e sid content v hs =
    (batch FrameType.data_frame, by_switch udp_datagram)
  where
    whole : concat (chunks_loop (length content) frame_data_max content) ≡ content
    whole = concat-chunks_loop (length content) frame_data_max content (omega arith) (omega arith)

    batch :
        (t : FrameType)
        → (frames : List (List ℕ)) × (e' : MuxEncoder) × (encode_all e t sid
              (chunks_loop (length content) frame_data_max content)
            ≡ some (frames, e'))
          × Carries t sid frames content
          × IsValid e'
    batch t =
        let (frames, last, encoded, carries, valid) =
          encode_all-Carries e t sid (chunks_loop (length content) frame_data_max content) v hs
            (chunks_loop_within (length content) frame_data_max content) in
        (frames, last, encoded, subst (Carries t sid frames) whole carries, valid)

    by_switch :
        (b : Bool)
        → (frames : List (List ℕ)) × (e' : MuxEncoder) × (send_unreliable b e sid content
            ≡ some (frames, e'))
          × Carries (if b then FrameType.datagram else FrameType.data_frame) sid frames content
          × IsValid e'
    by_switch true = batch FrameType.datagram
    by_switch false = batch FrameType.data_frame
