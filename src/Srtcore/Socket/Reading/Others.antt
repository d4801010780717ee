-- ===== src/Srtcore/Socket/Reading/Others.antt =====
-- What setOpt stores is what getOpt reads: the switches, the string and the linger.
use srt_vpn.Prelude.{
  ℕ, ◌≤◌, false, not, List, take, length, ltb, ◌==◌, ◌&&◌, ◌≡◌, refl, arith, length-take,
}
use srt_vpn.Srtcore.Options.{SockOpt}
use srt_vpn.Srtcore.Config.{cipher_mode_aes_gcm, max_sid_length}
use srt_vpn.Srtcore.Config.Cast.{le_i32, le_u32, cast_bool}
use srt_vpn.Srtcore.Config.Leaves.{Leaves, Leaves-some, Leaves-if, Leaves-sized}
use srt_vpn.Srtcore.Config.Crypto.{set_enforcedencryption}
use srt_vpn.Srtcore.Config.Payload.{set_streamid}
use srt_vpn.Srtcore.Config.Buffers.{set_linger}
use srt_vpn.Srtcore.Config.Network.{
  set_sndsyn, set_rcvsyn, set_rendezvous, set_reuseaddr, set_drifttracer,
}
use srt_vpn.Srtcore.Config.Delivery.{
  set_sender, set_tsbpdmode, set_tlpktdrop, set_nakreport, set_minversion, set_messageapi,
}
use srt_vpn.Srtcore.Socket.{Cudt}
use srt_vpn.Srtcore.Socket.GetOpt.{OptValue, get_opt, get_opt_middle, get_opt_last}
use srt_vpn.Srtcore.Socket.Reading.{Reads, roomy, storage_fits, text_whole}

module _ (s : Cudt) (optval : List ℕ) (optlen : ℕ) where
  fits : ltb max_sid_length optlen ≡ false → length (take optlen optval) ≤ 512
  fits h = ground (arith, length-take optlen optval)

  pub read_sndsyn :
      Leaves
        (Reads s SockOpt.sndsyn (OptValue.flag (cast_bool optval optlen)))
        (set_sndsyn s.config optval optlen)
  unfolding get_opt get_opt_middle get_opt_last set_sndsyn
  read_sndsyn = Leaves-some _ (λ r room k. refl)

  pub read_rcvsyn :
      Leaves
        (Reads s SockOpt.rcvsyn (OptValue.flag (cast_bool optval optlen)))
        (set_rcvsyn s.config optval optlen)
  unfolding get_opt get_opt_middle get_opt_last set_rcvsyn
  read_rcvsyn = Leaves-some _ (λ r room k. refl)

  pub read_linger :
      Leaves
        (Reads s SockOpt.linger
          (OptValue.lingers (record { onoff = le_i32 optval 0; linger_s = le_i32 optval 4 })))
        (set_linger s.config optval optlen)
  unfolding get_opt get_opt_middle get_opt_last set_linger
  read_linger =
      Leaves-sized 8 optlen (record { onoff = le_i32 optval 0; linger_s = le_i32 optval 4 }) _
        (Leaves-some _ (λ r room k. rw (roomy k) refl))

  pub read_rendezvous :
      Leaves
        (Reads s SockOpt.rendezvous (OptValue.flag (cast_bool optval optlen)))
        (set_rendezvous s.config optval optlen)
  unfolding get_opt get_opt_middle get_opt_last set_rendezvous
  read_rendezvous = Leaves-some _ (λ r room k. refl)

  pub read_reuseaddr :
      Leaves
        (Reads s SockOpt.reuseaddr (OptValue.flag (cast_bool optval optlen)))
        (set_reuseaddr s.config optval optlen)
  unfolding get_opt get_opt_middle get_opt_last set_reuseaddr
  read_reuseaddr = Leaves-some _ (λ r room k. refl)

  pub read_sender :
      Leaves
        (Reads s SockOpt.sender (OptValue.flag (cast_bool optval optlen)))
        (set_sender s.config optval optlen)
  unfolding get_opt get_opt_middle get_opt_last set_sender
  read_sender = Leaves-some _ (λ r room k. refl)

  pub read_tsbpdmode :
      Leaves
        (Reads s SockOpt.tsbpdmode (OptValue.flag (cast_bool optval optlen)))
        (set_tsbpdmode s.config optval optlen)
  unfolding get_opt get_opt_middle get_opt_last set_tsbpdmode
  read_tsbpdmode =
      Leaves-if (not (cast_bool optval optlen) && s.config.crypto_mode == cipher_mode_aes_gcm) _
        (λ h. Leaves-some _ (λ r room k. refl))

  pub read_tlpktdrop :
      s.connected ≡ false
      → Leaves
          (Reads s SockOpt.tlpktdrop (OptValue.flag (cast_bool optval optlen)))
          (set_tlpktdrop s.config optval optlen)
  unfolding get_opt get_opt_middle get_opt_last set_tlpktdrop
  read_tlpktdrop off = Leaves-some _ (λ r room k. rw off refl)

  pub read_nakreport :
      Leaves
        (Reads s SockOpt.nakreport (OptValue.flag (cast_bool optval optlen)))
        (set_nakreport s.config optval optlen)
  unfolding get_opt get_opt_middle get_opt_last set_nakreport
  read_nakreport = Leaves-some _ (λ r room k. refl)

  pub read_drifttracer :
      Leaves
        (Reads s SockOpt.drifttracer (OptValue.flag (cast_bool optval optlen)))
        (set_drifttracer s.config optval optlen)
  unfolding get_opt get_opt_middle get_opt_last set_drifttracer
  read_drifttracer = Leaves-some _ (λ r room k. refl)

  pub read_minversion :
      Leaves
        (Reads s SockOpt.minversion (OptValue.uint32 (le_u32 optval 0)))
        (set_minversion s.config optval optlen)
  unfolding get_opt get_opt_middle get_opt_last set_minversion
  read_minversion = Leaves-sized 4 optlen (le_u32 optval 0) _ (Leaves-some _ (λ r room k. refl))

  pub read_streamid :
      Leaves
        (Reads s SockOpt.streamid (OptValue.text (take optlen optval)))
        (set_streamid s.config optval optlen)
  unfolding get_opt get_opt_middle get_opt_last set_streamid
  read_streamid = Leaves-if (ltb max_sid_length optlen) _ (λ h. Leaves-some _ (λ r room k.
      rw (storage_fits max_sid_length (take optlen optval) s.config.stream_name (fits h))
        (text_whole (take optlen optval) room (fits h) k)))

  pub read_messageapi :
      Leaves
        (Reads s SockOpt.messageapi (OptValue.flag (cast_bool optval optlen)))
        (set_messageapi s.config optval optlen)
  unfolding get_opt get_opt_middle get_opt_last set_messageapi
  read_messageapi = Leaves-some _ (λ r room k. refl)

  pub read_enforcedencryption :
      Leaves
        (Reads s SockOpt.enforcedencryption (OptValue.flag (cast_bool optval optlen)))
        (set_enforcedencryption s.config optval optlen)
  unfolding get_opt get_opt_middle get_opt_last set_enforcedencryption
  read_enforcedencryption = Leaves-some _ (λ r room k. refl)
