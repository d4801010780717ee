-- ===== src/Srtcore/Config/Valid/EveryOption.antt =====
-- A valid configuration stays valid, whatever option is set to whatever value.
use srt_vpn.Prelude.{
  ℕ, ◌≤◌, not, Option, none, some, List, length, ◌==◌, ◌&&◌, leb, ◌≡◌, subst, ap, refl,
}
use srt_vpn.Prelude.Ints.{pos, int_lt, to_nat}
use srt_vpn.Srtcore.Options.{SockOpt}
use srt_vpn.Srtcore.Config.{SrtConfig, cipher_mode_aes_gcm}
use srt_vpn.Srtcore.Config.Cast.{cast_int, cast_i64, cast_u32, cast_bool, sized, le_i32}
use srt_vpn.Srtcore.Config.Buffers.{set_sndbuf, set_linger}
use srt_vpn.Srtcore.Config.Network.{
  ifnamsiz, set_rendezvous, set_sndsyn, set_rcvsyn, set_reuseaddr, set_iptos, set_bindtodevice,
  set_inputbw, set_mininputbw, set_ipv6only, set_conntimeo, set_peeridletimeo, set_drifttracer,
}
use srt_vpn.Srtcore.Config.Delivery.{
  set_sender, set_tsbpdmode, set_latency, set_rcvlatency, set_peerlatency, set_tlpktdrop,
  set_nakreport, set_lossmaxttl, set_minversion, set_messageapi,
}
use srt_vpn.Srtcore.Config.Crypto.{set_enforcedencryption}
use srt_vpn.Srtcore.Config.Payload.{Factory}
use srt_vpn.Srtcore.Config.Dispatch.{SetResult, set_result, dispatch_set}
use srt_vpn.Srtcore.Config.Leaves.{Leaves-bind, Leaves-if, Leaves-some}
use srt_vpn.Srtcore.Config.Valid.{IsValid, Keeps}
use srt_vpn.Srtcore.Config.Valid.Sizes.{
  set_mss-Keeps, set_fc-Keeps, set_rcvbuf-Keeps, set_udp_sndbuf-Keeps, set_udp_rcvbuf-Keeps,
}
use srt_vpn.Srtcore.Config.Valid.Ranges.{
  set_congestion-Keeps, set_ipttl-Keeps, set_maxbw-Keeps, set_oheadbw-Keeps, set_packetfilter-Keeps,
  set_payloadsize-Keeps, set_rcvtimeo-Keeps, set_retransmitalgo-Keeps, set_snddropdelay-Keeps,
  set_sndtimeo-Keeps, set_streamid-Keeps, set_transtype-Keeps,
}
use srt_vpn.Srtcore.Config.Valid.Keys.{
  set_passphrase-Keeps, set_pbkeylen-Keeps, set_kmrefreshrate-Keeps, set_kmpreannounce-Keeps,
}

module _ {cap : ℕ} (c : SrtConfig) (v : IsValid cap c) (optval : List ℕ) (optlen : ℕ) where
  set_sndbuf-Keeps : Keeps cap (set_sndbuf c optval optlen)
  unfolding set_sndbuf
  set_sndbuf-Keeps =
      Leaves-bind (cast_int optval optlen) _
        (λ z. Leaves-if (int_lt z (pos 1)) _ (λ h. Leaves-some _ v))

  set_linger-Keeps : Keeps cap (set_linger c optval optlen)
  unfolding set_linger
  set_linger-Keeps =
      Leaves-bind (sized 8 optlen (record { onoff = le_i32 optval 0; linger_s = le_i32 optval 4 }))
        _ (λ z. Leaves-some _ v)

  set_rendezvous-Keeps : Keeps cap (set_rendezvous c optval optlen)
  unfolding set_rendezvous
  set_rendezvous-Keeps = Leaves-some _ v

  set_sndsyn-Keeps : Keeps cap (set_sndsyn c optval optlen)
  unfolding set_sndsyn
  set_sndsyn-Keeps = Leaves-some _ v

  set_rcvsyn-Keeps : Keeps cap (set_rcvsyn c optval optlen)
  unfolding set_rcvsyn
  set_rcvsyn-Keeps = Leaves-some _ v

  set_reuseaddr-Keeps : Keeps cap (set_reuseaddr c optval optlen)
  unfolding set_reuseaddr
  set_reuseaddr-Keeps = Leaves-some _ v

  set_iptos-Keeps : Keeps cap (set_iptos c optval optlen)
  unfolding set_iptos
  set_iptos-Keeps = Leaves-bind (cast_int optval optlen) _ (λ z. Leaves-some _ v)

  set_bindtodevice-Keeps : Keeps cap (set_bindtodevice c optval optlen)
  unfolding set_bindtodevice
  set_bindtodevice-Keeps = Leaves-if (leb ifnamsiz optlen) _ (λ h. Leaves-some _ v)

  set_inputbw-Keeps : Keeps cap (set_inputbw c optval optlen)
  unfolding set_inputbw
  set_inputbw-Keeps =
      Leaves-bind (cast_i64 optval optlen) _
        (λ z. Leaves-if (int_lt z (pos 0)) _ (λ h. Leaves-some _ v))

  set_mininputbw-Keeps : Keeps cap (set_mininputbw c optval optlen)
  unfolding set_mininputbw
  set_mininputbw-Keeps =
      Leaves-bind (cast_i64 optval optlen) _
        (λ z. Leaves-if (int_lt z (pos 0)) _ (λ h. Leaves-some _ v))

  set_ipv6only-Keeps : Keeps cap (set_ipv6only c optval optlen)
  unfolding set_ipv6only
  set_ipv6only-Keeps = Leaves-bind (cast_int optval optlen) _ (λ z. Leaves-some _ v)

  set_conntimeo-Keeps : Keeps cap (set_conntimeo c optval optlen)
  unfolding set_conntimeo
  set_conntimeo-Keeps =
      Leaves-bind (cast_int optval optlen) _
        (λ z. Leaves-if (int_lt z (pos 0)) _ (λ h. Leaves-some _ v))

  set_peeridletimeo-Keeps : Keeps cap (set_peeridletimeo c optval optlen)
  unfolding set_peeridletimeo
  set_peeridletimeo-Keeps =
      Leaves-bind (cast_int optval optlen) _
        (λ z. Leaves-if (int_lt z (pos 0)) _ (λ h. Leaves-some _ v))

  set_drifttracer-Keeps : Keeps cap (set_drifttracer c optval optlen)
  unfolding set_drifttracer
  set_drifttracer-Keeps = Leaves-some _ v

  set_sender-Keeps : Keeps cap (set_sender c optval optlen)
  unfolding set_sender
  set_sender-Keeps = Leaves-some _ v

  set_tsbpdmode-Keeps : Keeps cap (set_tsbpdmode c optval optlen)
  unfolding set_tsbpdmode
  set_tsbpdmode-Keeps =
      Leaves-if (not (cast_bool optval optlen) && c.crypto_mode == cipher_mode_aes_gcm) _
        (λ h. Leaves-some _ v)

  set_latency-Keeps : Keeps cap (set_latency c optval optlen)
  unfolding set_latency
  set_latency-Keeps =
      Leaves-bind (cast_int optval optlen) _
        (λ z. Leaves-if (int_lt z (pos 0)) _ (λ h. Leaves-some _ v))

  set_rcvlatency-Keeps : Keeps cap (set_rcvlatency c optval optlen)
  unfolding set_rcvlatency
  set_rcvlatency-Keeps =
      Leaves-bind (cast_int optval optlen) _
        (λ z. Leaves-if (int_lt z (pos 0)) _ (λ h. Leaves-some _ v))

  set_peerlatency-Keeps : Keeps cap (set_peerlatency c optval optlen)
  unfolding set_peerlatency
  set_peerlatency-Keeps =
      Leaves-bind (cast_int optval optlen) _
        (λ z. Leaves-if (int_lt z (pos 0)) _ (λ h. Leaves-some _ v))

  set_tlpktdrop-Keeps : Keeps cap (set_tlpktdrop c optval optlen)
  unfolding set_tlpktdrop
  set_tlpktdrop-Keeps = Leaves-some _ v

  set_nakreport-Keeps : Keeps cap (set_nakreport c optval optlen)
  unfolding set_nakreport
  set_nakreport-Keeps = Leaves-some _ v

  set_lossmaxttl-Keeps : Keeps cap (set_lossmaxttl c optval optlen)
  unfolding set_lossmaxttl
  set_lossmaxttl-Keeps = Leaves-bind (cast_int optval optlen) _ (λ z. Leaves-some _ v)

  set_minversion-Keeps : Keeps cap (set_minversion c optval optlen)
  unfolding set_minversion
  set_minversion-Keeps = Leaves-bind (cast_u32 optval optlen) _ (λ z. Leaves-some _ v)

  set_messageapi-Keeps : Keeps cap (set_messageapi c optval optlen)
  unfolding set_messageapi
  set_messageapi-Keeps = Leaves-some _ v

  set_enforcedencryption-Keeps : Keeps cap (set_enforcedencryption c optval optlen)
  unfolding set_enforcedencryption
  set_enforcedencryption-Keeps = Leaves-some _ v

abbrev pub KeepsResult : ℕ → SetResult → Type 0
KeepsResult cap r = (d : SrtConfig) → r ≡ SetResult.returned d → IsValid cap d

keeps_result : {cap : ℕ} (o : Option SrtConfig) → Keeps cap o → KeepsResult cap (set_result o)
keeps_result none k d e = cc
keeps_result {cap} (some c) k d e =
    subst (IsValid cap) (ap (λ r. elim r [ SetResult.returned x ↦ x | _ ↦ c ]) e) (k.at c refl)

-- The packet size that a call asks for, if it asks for one.
abbrev pub mss_asked : SockOpt → List ℕ → ℕ
mss_asked SockOpt.mss optval = to_nat (le_i32 optval 0)
mss_asked _ optval = 0

-- Setting any option of a valid configuration to any value leaves a valid configuration, when the
-- call does not throw, the caller passes at least `optlen` bytes and asks for packets of at most
-- `cap` bytes.
pub dispatch_set-IsValid :
    {cap : ℕ} (filters : List (List ℕ × Factory)) (name : SockOpt) (c d : SrtConfig)
    (optval : List ℕ) (optlen : ℕ)
    → IsValid cap c
    → optlen ≤ length optval
    → mss_asked name optval ≤ cap
    → dispatch_set filters name c optval optlen ≡ SetResult.returned d
    → IsValid cap d
unfolding dispatch_set
dispatch_set-IsValid filters SockOpt.mss c d optval optlen v fits asked e =
    keeps_result _ (set_mss-Keeps c v optval optlen asked) d e
dispatch_set-IsValid filters SockOpt.sndsyn c d optval optlen v fits asked e =
    keeps_result _ (set_sndsyn-Keeps c v optval optlen) d e
dispatch_set-IsValid filters SockOpt.rcvsyn c d optval optlen v fits asked e =
    keeps_result _ (set_rcvsyn-Keeps c v optval optlen) d e
dispatch_set-IsValid filters SockOpt.isn c d optval optlen v fits asked e = cc
dispatch_set-IsValid filters SockOpt.fc c d optval optlen v fits asked e =
    keeps_result _ (set_fc-Keeps c v optval optlen) d e
dispatch_set-IsValid filters SockOpt.sndbuf c d optval optlen v fits asked e =
    keeps_result _ (set_sndbuf-Keeps c v optval optlen) d e
dispatch_set-IsValid filters SockOpt.rcvbuf c d optval optlen v fits asked e =
    keeps_result _ (set_rcvbuf-Keeps c v optval optlen) d e
dispatch_set-IsValid filters SockOpt.linger c d optval optlen v fits asked e =
    keeps_result _ (set_linger-Keeps c v optval optlen) d e
dispatch_set-IsValid filters SockOpt.udp_sndbuf c d optval optlen v fits asked e =
    keeps_result _ (set_udp_sndbuf-Keeps c v optval optlen) d e
dispatch_set-IsValid filters SockOpt.udp_rcvbuf c d optval optlen v fits asked e =
    keeps_result _ (set_udp_rcvbuf-Keeps c v optval optlen) d e
dispatch_set-IsValid filters SockOpt.rendezvous c d optval optlen v fits asked e =
    keeps_result _ (set_rendezvous-Keeps c v optval optlen) d e
dispatch_set-IsValid filters SockOpt.sndtimeo c d optval optlen v fits asked e =
    keeps_result _ (set_sndtimeo-Keeps c v optval optlen) d e
dispatch_set-IsValid filters SockOpt.rcvtimeo c d optval optlen v fits asked e =
    keeps_result _ (set_rcvtimeo-Keeps c v optval optlen) d e
dispatch_set-IsValid filters SockOpt.reuseaddr c d optval optlen v fits asked e =
    keeps_result _ (set_reuseaddr-Keeps c v optval optlen) d e
dispatch_set-IsValid filters SockOpt.maxbw c d optval optlen v fits asked e =
    keeps_result _ (set_maxbw-Keeps c v optval optlen) d e
dispatch_set-IsValid filters SockOpt.state c d optval optlen v fits asked e = cc
dispatch_set-IsValid filters SockOpt.event c d optval optlen v fits asked e = cc
dispatch_set-IsValid filters SockOpt.snddata c d optval optlen v fits asked e = cc
dispatch_set-IsValid filters SockOpt.rcvdata c d optval optlen v fits asked e = cc
dispatch_set-IsValid filters SockOpt.sender c d optval optlen v fits asked e =
    keeps_result _ (set_sender-Keeps c v optval optlen) d e
dispatch_set-IsValid filters SockOpt.tsbpdmode c d optval optlen v fits asked e =
    keeps_result _ (set_tsbpdmode-Keeps c v optval optlen) d e
dispatch_set-IsValid filters SockOpt.latency c d optval optlen v fits asked e =
    keeps_result _ (set_latency-Keeps c v optval optlen) d e
dispatch_set-IsValid filters SockOpt.inputbw c d optval optlen v fits asked e =
    keeps_result _ (set_inputbw-Keeps c v optval optlen) d e
dispatch_set-IsValid filters SockOpt.oheadbw c d optval optlen v fits asked e =
    keeps_result _ (set_oheadbw-Keeps c v optval optlen) d e
dispatch_set-IsValid filters SockOpt.passphrase c d optval optlen v fits asked e =
    keeps_result _ (set_passphrase-Keeps c v optval optlen fits) d e
dispatch_set-IsValid filters SockOpt.pbkeylen c d optval optlen v fits asked e =
    keeps_result _ (set_pbkeylen-Keeps c v optval optlen) d e
dispatch_set-IsValid filters SockOpt.kmstate c d optval optlen v fits asked e = cc
dispatch_set-IsValid filters SockOpt.ipttl c d optval optlen v fits asked e =
    keeps_result _ (set_ipttl-Keeps c v optval optlen) d e
dispatch_set-IsValid filters SockOpt.iptos c d optval optlen v fits asked e =
    keeps_result _ (set_iptos-Keeps c v optval optlen) d e
dispatch_set-IsValid filters SockOpt.tlpktdrop c d optval optlen v fits asked e =
    keeps_result _ (set_tlpktdrop-Keeps c v optval optlen) d e
dispatch_set-IsValid filters SockOpt.snddropdelay c d optval optlen v fits asked e =
    keeps_result _ (set_snddropdelay-Keeps c v optval optlen) d e
dispatch_set-IsValid filters SockOpt.nakreport c d optval optlen v fits asked e =
    keeps_result _ (set_nakreport-Keeps c v optval optlen) d e
dispatch_set-IsValid filters SockOpt.version c d optval optlen v fits asked e = cc
dispatch_set-IsValid filters SockOpt.peerversion c d optval optlen v fits asked e = cc
dispatch_set-IsValid filters SockOpt.conntimeo c d optval optlen v fits asked e =
    keeps_result _ (set_conntimeo-Keeps c v optval optlen) d e
dispatch_set-IsValid filters SockOpt.drifttracer c d optval optlen v fits asked e =
    keeps_result _ (set_drifttracer-Keeps c v optval optlen) d e
dispatch_set-IsValid filters SockOpt.mininputbw c d optval optlen v fits asked e =
    keeps_result _ (set_mininputbw-Keeps c v optval optlen) d e
dispatch_set-IsValid filters SockOpt.sndkmstate c d optval optlen v fits asked e = cc
dispatch_set-IsValid filters SockOpt.rcvkmstate c d optval optlen v fits asked e = cc
dispatch_set-IsValid filters SockOpt.lossmaxttl c d optval optlen v fits asked e =
    keeps_result _ (set_lossmaxttl-Keeps c v optval optlen) d e
dispatch_set-IsValid filters SockOpt.rcvlatency c d optval optlen v fits asked e =
    keeps_result _ (set_rcvlatency-Keeps c v optval optlen) d e
dispatch_set-IsValid filters SockOpt.peerlatency c d optval optlen v fits asked e =
    keeps_result _ (set_peerlatency-Keeps c v optval optlen) d e
dispatch_set-IsValid filters SockOpt.minversion c d optval optlen v fits asked e =
    keeps_result _ (set_minversion-Keeps c v optval optlen) d e
dispatch_set-IsValid filters SockOpt.streamid c d optval optlen v fits asked e =
    keeps_result _ (set_streamid-Keeps c v optval optlen) d e
dispatch_set-IsValid filters SockOpt.congestion c d optval optlen v fits asked e =
    keeps_result _ (set_congestion-Keeps c v optval optlen) d e
dispatch_set-IsValid filters SockOpt.messageapi c d optval optlen v fits asked e =
    keeps_result _ (set_messageapi-Keeps c v optval optlen) d e
dispatch_set-IsValid filters SockOpt.payloadsize c d optval optlen v fits asked e =
    keeps_result _ (set_payloadsize-Keeps c v optval optlen filters) d e
dispatch_set-IsValid filters SockOpt.transtype c d optval optlen v fits asked e =
    keeps_result _ (set_transtype-Keeps c v optval optlen) d e
dispatch_set-IsValid filters SockOpt.kmrefreshrate c d optval optlen v fits asked e =
    keeps_result _ (set_kmrefreshrate-Keeps c v optval optlen) d e
dispatch_set-IsValid filters SockOpt.kmpreannounce c d optval optlen v fits asked e =
    keeps_result _ (set_kmpreannounce-Keeps c v optval optlen) d e
dispatch_set-IsValid filters SockOpt.enforcedencryption c d optval optlen v fits asked e =
    keeps_result _ (set_enforcedencryption-Keeps c v optval optlen) d e
dispatch_set-IsValid filters SockOpt.ipv6only c d optval optlen v fits asked e =
    keeps_result _ (set_ipv6only-Keeps c v optval optlen) d e
dispatch_set-IsValid filters SockOpt.peeridletimeo c d optval optlen v fits asked e =
    keeps_result _ (set_peeridletimeo-Keeps c v optval optlen) d e
dispatch_set-IsValid filters SockOpt.bindtodevice c d optval optlen v fits asked e =
    keeps_result _ (set_bindtodevice-Keeps c v optval optlen) d e
dispatch_set-IsValid filters SockOpt.groupconnect c d optval optlen v fits asked e = cc
dispatch_set-IsValid filters SockOpt.groupminstabletimeo c d optval optlen v fits asked e = cc
dispatch_set-IsValid filters SockOpt.grouptype c d optval optlen v fits asked e = cc
dispatch_set-IsValid filters SockOpt.packetfilter c d optval optlen v fits asked e =
    keeps_result _ (set_packetfilter-Keeps c v optval optlen filters) d e
dispatch_set-IsValid filters SockOpt.retransmitalgo c d optval optlen v fits asked e =
    keeps_result _ (set_retransmitalgo-Keeps c v optval optlen) d e
dispatch_set-IsValid filters (SockOpt.undefined z) c d optval optlen v fits asked e = cc
