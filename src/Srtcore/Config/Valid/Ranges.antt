-- ===== src/Srtcore/Config/Valid/Ranges.antt =====
-- What the setters of the ranges and of the strings keep.
use srt_vpn.Prelude.{
  ℕ, ◌≤◌, Bool, true, false, not, List, ltb, ◌==◌, ◌&&◌, ◌||◌, if◌then◌else◌, take, ◌≡◌, refl,
  arith, ||-eq-false,
}
use srt_vpn.Prelude.Ints.{ℤ, pos, negsuc, int_lt, int_eq, to_nat, at_least-to_nat, at_most-to_nat}
use srt_vpn.Prelude.Bytes.{bytes_eq}
use srt_vpn.Srtcore.Config.{
  SrtConfig, live_max_plsize, max_cong_length, max_sid_length, max_pfilter_length, live_name,
  file_name,
}
use srt_vpn.Srtcore.Config.Cast.{cast_int, cast_i64, cast_u32}
use srt_vpn.Srtcore.Config.Leaves.{Leaves-bind, Leaves-if, Leaves-none, Leaves-some, Leaves-unless}
use srt_vpn.Srtcore.Config.Valid.{IsValid, Keeps, valid_ttl, length-storage_set}
use srt_vpn.Srtcore.Config.Network.{set_sndtimeo, set_rcvtimeo, set_maxbw, set_ipttl, set_oheadbw}
use srt_vpn.Srtcore.Config.Delivery.{
  set_snddropdelay, set_retransmitalgo, set_transtype, live_mode, file_mode,
}
use srt_vpn.Srtcore.Config.Payload.{
  Factory, FilterConfig, set_streamid, set_congestion, set_payloadsize, set_packetfilter,
  install_filter, payload_size_fits, parse_config, congestion_exists, vod_name,
  efc_max_payload_size,
}

ttl_guard :
    (z : ℤ)
    → (not (int_eq z (negsuc 0)) && not (not (int_lt z (pos 1)) && not (int_lt (pos 255) z)))
      ≡ false
    → valid_ttl z ≡ true
ttl_guard z h =
    by_parts (int_eq z (negsuc 0)) (not (int_lt z (pos 1)) && not (int_lt (pos 255) z)) h
  where
    by_parts : (a b : Bool) → (not a && not b) ≡ false → (a || b) ≡ true
    by_parts true b h = refl
    by_parts false true h = refl
    by_parts false false h = cc

module _ {cap : ℕ} (c : SrtConfig) (v : IsValid cap c) (optval : List ℕ) (optlen : ℕ) where
  pub set_sndtimeo-Keeps : Keeps cap (set_sndtimeo c optval optlen)
  unfolding set_sndtimeo
  set_sndtimeo-Keeps = Leaves-bind (cast_int optval optlen) _ (λ z.
      Leaves-if (int_lt z (negsuc 0)) _
        (λ h. Leaves-some _ (v.0, (h, v.1.1, v.1.2, v.1.3, v.1.4), v.2, v.3)))

  pub set_rcvtimeo-Keeps : Keeps cap (set_rcvtimeo c optval optlen)
  unfolding set_rcvtimeo
  set_rcvtimeo-Keeps = Leaves-bind (cast_int optval optlen) _ (λ z.
      Leaves-if (int_lt z (negsuc 0)) _
        (λ h. Leaves-some _ (v.0, (v.1.0, h, v.1.2, v.1.3, v.1.4), v.2, v.3)))

  pub set_snddropdelay-Keeps : Keeps cap (set_snddropdelay c optval optlen)
  unfolding set_snddropdelay
  set_snddropdelay-Keeps = Leaves-bind (cast_int optval optlen) _ (λ z.
      Leaves-if (int_lt z (negsuc 0)) _
        (λ h. Leaves-some _ (v.0, (v.1.0, v.1.1, h, v.1.3, v.1.4), v.2, v.3)))

  pub set_maxbw-Keeps : Keeps cap (set_maxbw c optval optlen)
  unfolding set_maxbw
  set_maxbw-Keeps = Leaves-bind (cast_i64 optval optlen) _ (λ z.
      Leaves-if (int_lt z (negsuc 0)) _
        (λ h. Leaves-some _ (v.0, (v.1.0, v.1.1, v.1.2, h, v.1.4), v.2, v.3)))

  pub set_ipttl-Keeps : Keeps cap (set_ipttl c optval optlen)
  unfolding set_ipttl
  set_ipttl-Keeps = Leaves-bind (cast_int optval optlen) _ (λ z.
      Leaves-if
        (not (int_eq z (negsuc 0)) && not (not (int_lt z (pos 1)) && not (int_lt (pos 255) z))) _
        (λ h. Leaves-some _ (v.0, (v.1.0, v.1.1, v.1.2, v.1.3, ttl_guard z h), v.2, v.3)))

  pub set_oheadbw-Keeps : Keeps cap (set_oheadbw c optval optlen)
  unfolding set_oheadbw
  set_oheadbw-Keeps = Leaves-bind (cast_int optval optlen) _ (λ z.
      Leaves-if (int_lt z (pos 5) || int_lt (pos 100) z) _ (λ h. Leaves-some _ (
        v.0,
        v.1,
        v.2,
        (
          v.3.0,
          v.3.1,
          v.3.2,
          at_least-to_nat z 5 (||-eq-false _ _ h).0,
          at_most-to_nat z 100 (||-eq-false _ _ h).1,
          v.3.5,
        ),
      )))

  pub set_retransmitalgo-Keeps : Keeps cap (set_retransmitalgo c optval optlen)
  unfolding set_retransmitalgo
  set_retransmitalgo-Keeps = Leaves-bind (cast_int optval optlen) _ (λ z.
      Leaves-if (int_lt z (pos 0) || int_lt (pos 1) z) _ (λ h. Leaves-some _ (
        v.0,
        v.1,
        v.2,
        (v.3.0, v.3.1, v.3.2, v.3.3, v.3.4, at_most-to_nat z 1 (||-eq-false _ _ h).1),
      )))

  live_mode-IsValid : IsValid cap (live_mode c)
  unfolding live_mode
  live_mode-IsValid = (
    (v.0.0, v.0.1, v.0.2, v.0.3, v.0.4, omega arith, v.0.6),
    (v.1.0, v.1.1, refl, v.1.3, v.1.4),
    v.2,
    (
      length-storage_set max_cong_length live_name c.congestion v.3.0,
      v.3.1,
      v.3.2,
      v.3.3,
      v.3.4,
      omega arith,
    ),
  )

  file_mode-IsValid : IsValid cap (file_mode c)
  unfolding file_mode
  file_mode-IsValid = (
    (v.0.0, v.0.1, v.0.2, v.0.3, v.0.4, omega arith, v.0.6),
    (v.1.0, v.1.1, refl, v.1.3, v.1.4),
    v.2,
    (
      length-storage_set max_cong_length file_name c.congestion v.3.0,
      v.3.1,
      v.3.2,
      v.3.3,
      v.3.4,
      omega arith,
    ),
  )

  pub set_transtype-Keeps : Keeps cap (set_transtype c optval optlen)
  unfolding set_transtype
  set_transtype-Keeps = Leaves-bind (cast_u32 optval optlen) _ (λ z.
      Leaves-unless (z == 0) _ _ (Leaves-some _ live_mode-IsValid)
        (Leaves-unless (z == 1) _ _ (Leaves-some _ file_mode-IsValid) Leaves-none))

  pub set_streamid-Keeps : Keeps cap (set_streamid c optval optlen)
  unfolding set_streamid
  set_streamid-Keeps = Leaves-if (ltb max_sid_length optlen) _ (λ h. Leaves-some _ (
    v.0,
    v.1,
    v.2,
    (
      v.3.0,
      v.3.1,
      length-storage_set max_sid_length (take optlen optval) c.stream_name v.3.2,
      v.3.3,
      v.3.4,
      v.3.5,
    ),
  ))

  pub set_congestion-Keeps : Keeps cap (set_congestion c optval optlen)
  unfolding set_congestion
  set_congestion-Keeps = Leaves-if (not (congestion_exists val)) _ (λ h. Leaves-some _ (
    v.0,
    v.1,
    v.2,
    (length-storage_set max_cong_length val c.congestion v.3.0, v.3.1, v.3.2, v.3.3, v.3.4, v.3.5),
  ))
    where
      val : List ℕ
      val = if bytes_eq (take optlen optval) vod_name then file_name else take optlen optval

  module _ (filters : List (List ℕ × Factory)) where
    pub set_payloadsize-Keeps : Keeps cap (set_payloadsize filters c optval optlen)
    unfolding set_payloadsize
    set_payloadsize-Keeps = Leaves-bind (cast_int optval optlen) _ (λ z.
        Leaves-if (int_lt z (pos 0)) _ (λ g. Leaves-if (int_lt (pos live_max_plsize) z) _ (λ h.
          Leaves-if (not (payload_size_fits filters c (to_nat z))) _ (λ i. Leaves-some _ (
            (v.0.0, v.0.1, v.0.2, v.0.3, v.0.4, at_most-to_nat z live_max_plsize h, v.0.6),
            v.1,
            v.2,
            v.3,
          )))))

    install_filter-Keeps :
        (arg : List ℕ) (parsed : FilterConfig × Factory) → Keeps cap (install_filter c arg parsed)
    unfolding install_filter
    install_filter-Keeps arg (fc, fax) = Leaves-if (not (fax.verify_config fc)) _ (λ h.
        Leaves-some _ (
          (
            v.0.0,
            v.0.1,
            v.0.2,
            v.0.3,
            v.0.4,
            lowered (efc_max_payload_size fc) c.exp_payload_size v.0.5,
            v.0.6,
          ),
          v.1,
          v.2,
          (
            v.3.0,
            length-storage_set max_pfilter_length arg c.packet_filter_config v.3.1,
            v.3.2,
            v.3.3,
            v.3.4,
            v.3.5,
          ),
        ))
      where
        lowered : (m p : ℕ) → p ≤ live_max_plsize → (if ltb m p then m else p) ≤ live_max_plsize
        lowered m p h = ground arith

    pub set_packetfilter-Keeps : Keeps cap (set_packetfilter filters c optval optlen)
    unfolding set_packetfilter
    set_packetfilter-Keeps =
        Leaves-bind (parse_config filters (take optlen optval)) _
          (install_filter-Keeps (take optlen optval))
