-- ===== src/Srtcore/Socket/Reading/Numbers.antt =====
-- What setOpt stores is what getOpt reads: the options that are numbers.
use srt_vpn.Prelude.{ℕ, ◌-◌, ◌/◌, false, not, List, ltb, ◌&&◌, ◌||◌, ◌≡◌, refl, ap, ||-eq-false}
use srt_vpn.Prelude.Ints.{pos, negsuc, int_lt, int_eq, to_nat}
use srt_vpn.Srtcore.Options.{SockOpt}
use srt_vpn.Srtcore.Config.{live_max_plsize}
use srt_vpn.Srtcore.Config.Cast.{le_i32, le_i64, le_u32}
use srt_vpn.Srtcore.Config.Leaves.{Leaves, Leaves-some, Leaves-if, Leaves-sized}
use srt_vpn.Srtcore.Config.Crypto.{
  or_default, def_km_refresh_rate, def_km_pre_announce, set_kmrefreshrate, set_kmpreannounce,
}
use srt_vpn.Srtcore.Config.Payload.{Factory, payload_size_fits, set_payloadsize}
use srt_vpn.Srtcore.Config.Buffers.{set_fc}
use srt_vpn.Srtcore.Config.Network.{
  set_sndtimeo, set_rcvtimeo, set_maxbw, set_inputbw, set_oheadbw, set_ipttl, set_iptos,
  set_conntimeo, set_mininputbw, set_ipv6only, set_peeridletimeo,
}
use srt_vpn.Srtcore.Config.Delivery.{
  set_latency, set_snddropdelay, set_lossmaxttl, set_rcvlatency, set_peerlatency,
  set_retransmitalgo,
}
use srt_vpn.Srtcore.Socket.{Cudt}
use srt_vpn.Srtcore.Socket.GetOpt.{OptValue, Got, get_opt, get_opt_middle, get_opt_last}
use srt_vpn.Srtcore.Socket.Reading.{Reads, pos-to_nat, to_int-to_nat, roomy, payload_size_off}

module _ (s : Cudt) (optval : List ℕ) (optlen : ℕ) where
  pub read_fc :
      Leaves (Reads s SockOpt.fc (OptValue.int32 (le_i32 optval 0))) (set_fc s.config optval optlen)
  unfolding get_opt get_opt_middle get_opt_last set_fc
  read_fc = Leaves-sized 4 optlen (le_i32 optval 0) _ (
      Leaves-if (int_lt (le_i32 optval 0) (pos 32)) _
        (λ h. Leaves-some _ (λ r room k. rw (pos-to_nat (le_i32 optval 0) 32 h) refl)))

  pub read_sndtimeo :
      Leaves
        (Reads s SockOpt.sndtimeo (OptValue.int32 (le_i32 optval 0)))
        (set_sndtimeo s.config optval optlen)
  unfolding get_opt get_opt_middle get_opt_last set_sndtimeo
  read_sndtimeo =
      Leaves-sized 4 optlen (le_i32 optval 0) _
        (Leaves-if (int_lt (le_i32 optval 0) (negsuc 0)) _ (λ h. Leaves-some _ (λ r room k. refl)))

  pub read_rcvtimeo :
      Leaves
        (Reads s SockOpt.rcvtimeo (OptValue.int32 (le_i32 optval 0)))
        (set_rcvtimeo s.config optval optlen)
  unfolding get_opt get_opt_middle get_opt_last set_rcvtimeo
  read_rcvtimeo =
      Leaves-sized 4 optlen (le_i32 optval 0) _
        (Leaves-if (int_lt (le_i32 optval 0) (negsuc 0)) _ (λ h. Leaves-some _ (λ r room k. refl)))

  pub read_maxbw :
      Leaves
        (Reads s SockOpt.maxbw (OptValue.int64 (le_i64 optval)))
        (set_maxbw s.config optval optlen)
  unfolding get_opt get_opt_middle get_opt_last set_maxbw
  read_maxbw = Leaves-sized 8 optlen (le_i64 optval) _ (
      Leaves-if (int_lt (le_i64 optval) (negsuc 0)) _
        (λ h. Leaves-some _ (λ r room k. rw (roomy k) refl)))

  pub read_latency :
      s.connected ≡ false
      → Leaves
          (Reads s SockOpt.latency (OptValue.int32 (le_i32 optval 0)))
          (set_latency s.config optval optlen)
  unfolding get_opt get_opt_middle get_opt_last set_latency
  read_latency off = Leaves-sized 4 optlen (le_i32 optval 0) _ (
      Leaves-if (int_lt (le_i32 optval 0) (pos 0)) _
        (λ h. Leaves-some _ (λ r room k. rw (off, pos-to_nat (le_i32 optval 0) 0 h) refl)))

  pub read_inputbw :
      Leaves
        (Reads s SockOpt.inputbw (OptValue.int64 (le_i64 optval)))
        (set_inputbw s.config optval optlen)
  unfolding get_opt get_opt_middle get_opt_last set_inputbw
  read_inputbw = Leaves-sized 8 optlen (le_i64 optval) _ (
      Leaves-if (int_lt (le_i64 optval) (pos 0)) _
        (λ h. Leaves-some _ (λ r room k. rw (roomy k, pos-to_nat (le_i64 optval) 0 h) refl)))

  pub read_oheadbw :
      Leaves
        (Reads s SockOpt.oheadbw (OptValue.int32 (le_i32 optval 0)))
        (set_oheadbw s.config optval optlen)
  unfolding get_opt get_opt_middle get_opt_last set_oheadbw
  read_oheadbw = Leaves-sized 4 optlen (le_i32 optval 0) _ (
      Leaves-if (int_lt (le_i32 optval 0) (pos 5) || int_lt (pos 100) (le_i32 optval 0)) _ (λ h.
        Leaves-some _ (λ r room k. rw (pos-to_nat (le_i32 optval 0) 5 (||-eq-false _ _ h).0) refl)))

  pub read_ipttl :
      s.opened ≡ false
      → Leaves
          (Reads s SockOpt.ipttl (OptValue.int32 (le_i32 optval 0)))
          (set_ipttl s.config optval optlen)
  unfolding get_opt get_opt_middle get_opt_last set_ipttl
  read_ipttl off = Leaves-sized 4 optlen (le_i32 optval 0) _ (
      Leaves-if
        (not (int_eq (le_i32 optval 0) (negsuc 0))
          && not
              (not (int_lt (le_i32 optval 0) (pos 1)) && not (int_lt (pos 255) (le_i32 optval 0))))
        _ (λ h. Leaves-some _ (λ r room k. rw off refl)))

  pub read_iptos :
      s.opened ≡ false
      → Leaves
          (Reads s SockOpt.iptos (OptValue.int32 (le_i32 optval 0)))
          (set_iptos s.config optval optlen)
  unfolding get_opt get_opt_middle get_opt_last set_iptos
  read_iptos off =
      Leaves-sized 4 optlen (le_i32 optval 0) _ (Leaves-some _ (λ r room k. rw off refl))

  pub read_snddropdelay :
      Leaves
        (Reads s SockOpt.snddropdelay (OptValue.int32 (le_i32 optval 0)))
        (set_snddropdelay s.config optval optlen)
  unfolding get_opt get_opt_middle get_opt_last set_snddropdelay
  read_snddropdelay =
      Leaves-sized 4 optlen (le_i32 optval 0) _
        (Leaves-if (int_lt (le_i32 optval 0) (negsuc 0)) _ (λ h. Leaves-some _ (λ r room k. refl)))

  pub read_conntimeo :
      Leaves
        (Reads s SockOpt.conntimeo (OptValue.int32 (le_i32 optval 0)))
        (set_conntimeo s.config optval optlen)
  unfolding get_opt get_opt_middle get_opt_last set_conntimeo
  read_conntimeo = Leaves-sized 4 optlen (le_i32 optval 0) _ (
      Leaves-if (int_lt (le_i32 optval 0) (pos 0)) _
        (λ h. Leaves-some _ (λ r room k. rw (pos-to_nat (le_i32 optval 0) 0 h) refl)))

  pub read_mininputbw :
      Leaves
        (Reads s SockOpt.mininputbw (OptValue.int64 (le_i64 optval)))
        (set_mininputbw s.config optval optlen)
  unfolding get_opt get_opt_middle get_opt_last set_mininputbw
  read_mininputbw = Leaves-sized 8 optlen (le_i64 optval) _ (
      Leaves-if (int_lt (le_i64 optval) (pos 0)) _
        (λ h. Leaves-some _ (λ r room k. rw (roomy k, pos-to_nat (le_i64 optval) 0 h) refl)))

  pub read_lossmaxttl :
      Leaves
        (Reads s SockOpt.lossmaxttl (OptValue.int32 (le_i32 optval 0)))
        (set_lossmaxttl s.config optval optlen)
  unfolding get_opt get_opt_middle get_opt_last set_lossmaxttl
  read_lossmaxttl = Leaves-sized 4 optlen (le_i32 optval 0) _ (Leaves-some _ (λ r room k. refl))

  pub read_rcvlatency :
      s.connected ≡ false
      → Leaves
          (Reads s SockOpt.rcvlatency (OptValue.int32 (le_i32 optval 0)))
          (set_rcvlatency s.config optval optlen)
  unfolding get_opt get_opt_middle get_opt_last set_rcvlatency
  read_rcvlatency off = Leaves-sized 4 optlen (le_i32 optval 0) _ (
      Leaves-if (int_lt (le_i32 optval 0) (pos 0)) _
        (λ h. Leaves-some _ (λ r room k. rw (off, pos-to_nat (le_i32 optval 0) 0 h) refl)))

  pub read_peerlatency :
      s.connected ≡ false
      → Leaves
          (Reads s SockOpt.peerlatency (OptValue.int32 (le_i32 optval 0)))
          (set_peerlatency s.config optval optlen)
  unfolding get_opt get_opt_middle get_opt_last set_peerlatency
  read_peerlatency off = Leaves-sized 4 optlen (le_i32 optval 0) _ (
      Leaves-if (int_lt (le_i32 optval 0) (pos 0)) _
        (λ h. Leaves-some _ (λ r room k. rw (off, pos-to_nat (le_i32 optval 0) 0 h) refl)))

  pub read_payloadsize :
      (filters : List (List ℕ × Factory))
      → s.connected ≡ false
      → Leaves
          (Reads s SockOpt.payloadsize (OptValue.int32 (le_i32 optval 0)))
          (set_payloadsize filters s.config optval optlen)
  unfolding get_opt get_opt_middle get_opt_last set_payloadsize
  read_payloadsize filters off = Leaves-sized 4 optlen (le_i32 optval 0) _ (
      Leaves-if (int_lt (le_i32 optval 0) (pos 0)) _ (λ h.
        Leaves-if (int_lt (pos live_max_plsize) (le_i32 optval 0)) _ (λ g.
          Leaves-if (not (payload_size_fits filters s.config (to_nat (le_i32 optval 0)))) _ (λ i.
            Leaves-some _ (λ r room k.
              rw
                (
                  payload_size_off
                      (record s {
                        config = record (s.config) { exp_payload_size = to_nat (le_i32 optval 0) };
                        reorder_tolerance = r;
                      })
                      off,
                  pos-to_nat (le_i32 optval 0) 0 h,
                )
                refl)))))

  pub read_kmrefreshrate :
      Leaves
        (Reads s SockOpt.kmrefreshrate (OptValue.int32 (le_i32 optval 0)))
        (set_kmrefreshrate s.config optval optlen)
  unfolding get_opt get_opt_middle get_opt_last set_kmrefreshrate
  read_kmrefreshrate = Leaves-sized 4 optlen (le_i32 optval 0) _ (
      Leaves-if (int_lt (le_i32 optval 0) (pos 0)) _ (λ h.
        Leaves-some _
          (λ r room k. ap (λ x. Got.value (OptValue.int32 x)) (to_int-to_nat (le_u32 optval 0) h))))

  pub read_kmpreannounce :
      Leaves
        (Reads s SockOpt.kmpreannounce (OptValue.int32 (le_i32 optval 0)))
        (set_kmpreannounce s.config optval optlen)
  unfolding get_opt get_opt_middle get_opt_last set_kmpreannounce
  read_kmpreannounce = Leaves-sized 4 optlen (le_i32 optval 0) _ (
      Leaves-if (int_lt (le_i32 optval 0) (pos 0)) _ (λ h.
        Leaves-if
          (ltb ((or_default def_km_refresh_rate s.config.km_refresh_rate_pkt - 1) / 2)
            (or_default def_km_pre_announce (to_nat (le_i32 optval 0))))
          _
          (λ g. Leaves-some _ (λ r room k.
            ap (λ x. Got.value (OptValue.int32 x)) (to_int-to_nat (le_u32 optval 0) h)))))

  pub read_ipv6only :
      Leaves
        (Reads s SockOpt.ipv6only (OptValue.int32 (le_i32 optval 0)))
        (set_ipv6only s.config optval optlen)
  unfolding get_opt get_opt_middle get_opt_last set_ipv6only
  read_ipv6only = Leaves-sized 4 optlen (le_i32 optval 0) _ (Leaves-some _ (λ r room k. refl))

  pub read_peeridletimeo :
      Leaves
        (Reads s SockOpt.peeridletimeo (OptValue.int32 (le_i32 optval 0)))
        (set_peeridletimeo s.config optval optlen)
  unfolding get_opt get_opt_middle get_opt_last set_peeridletimeo
  read_peeridletimeo = Leaves-sized 4 optlen (le_i32 optval 0) _ (
      Leaves-if (int_lt (le_i32 optval 0) (pos 0)) _
        (λ h. Leaves-some _ (λ r room k. rw (pos-to_nat (le_i32 optval 0) 0 h) refl)))

  pub read_retransmitalgo :
      Leaves
        (Reads s SockOpt.retransmitalgo (OptValue.int32 (le_i32 optval 0)))
        (set_retransmitalgo s.config optval optlen)
  unfolding get_opt get_opt_middle get_opt_last set_retransmitalgo
  read_retransmitalgo = Leaves-sized 4 optlen (le_i32 optval 0) _ (
      Leaves-if (int_lt (le_i32 optval 0) (pos 0) || int_lt (pos 1) (le_i32 optval 0)) _ (λ h.
        Leaves-some _ (λ r room k. rw (pos-to_nat (le_i32 optval 0) 0 (||-eq-false _ _ h).0) refl)))
