-- ===== src/Srtcore/Socket/Restricted.antt =====
-- What can be set while a socket is connected.
use srt_vpn.Prelude.{ℕ, true, List, ◌||◌, In, ◌≡◌, refl, subst, sym, inl, inr}
use srt_vpn.Prelude.Ints.{pos, negsuc, int_lt}
use srt_vpn.Srtcore.Options.{SockOpt, flags, post_opt_list}
use srt_vpn.Srtcore.Config.{SrtConfig}
use srt_vpn.Srtcore.Config.Cast.{cast_int, cast_i64, sized, le_i32}
use srt_vpn.Srtcore.Config.Leaves.{Leaves, Leaves-some, Leaves-if, Leaves-bind}
use srt_vpn.Srtcore.Config.Buffers.{set_linger}
use srt_vpn.Srtcore.Config.Network.{
  set_sndsyn, set_rcvsyn, set_sndtimeo, set_rcvtimeo, set_maxbw, set_inputbw, set_mininputbw,
  set_oheadbw, set_drifttracer,
}
use srt_vpn.Srtcore.Config.Delivery.{set_snddropdelay, set_lossmaxttl}
use srt_vpn.Srtcore.Config.Payload.{Factory}
use srt_vpn.Srtcore.Config.Dispatch.{dispatch_set}
use srt_vpn.Srtcore.Socket.{Cudt, CcEvent, Outcome, set_opt}
use srt_vpn.Srtcore.Socket.Calls.{Accepted, set_opt-Accepted, returned_config, not_connected}

-- `d` is `c` but for the members that the options of `srt_post_opt_list` set.
abbrev pub OnlyPost : SrtConfig → SrtConfig → Type 0
OnlyPost c d = d ≡ record c {
  syn_sending = d.syn_sending;
  syn_recving = d.syn_recving;
  linger = d.linger;
  snd_time_out = d.snd_time_out;
  rcv_time_out = d.rcv_time_out;
  max_bw = d.max_bw;
  input_bw = d.input_bw;
  overhead_bw = d.overhead_bw;
  snd_drop_delay = d.snd_drop_delay;
  drift_tracer = d.drift_tracer;
  min_input_bw = d.min_input_bw;
  max_reorder_tolerance = d.max_reorder_tolerance;
}

module _ (c : SrtConfig) (optval : List ℕ) (optlen : ℕ) where
  post_sndsyn : Leaves (OnlyPost c) (set_sndsyn c optval optlen)
  unfolding set_sndsyn
  post_sndsyn = Leaves-some _ refl

  post_rcvsyn : Leaves (OnlyPost c) (set_rcvsyn c optval optlen)
  unfolding set_rcvsyn
  post_rcvsyn = Leaves-some _ refl

  post_linger : Leaves (OnlyPost c) (set_linger c optval optlen)
  unfolding set_linger
  post_linger =
      Leaves-bind (sized 8 optlen (record { onoff = le_i32 optval 0; linger_s = le_i32 optval 4 }))
        _ (λ z. Leaves-some _ refl)

  post_sndtimeo : Leaves (OnlyPost c) (set_sndtimeo c optval optlen)
  unfolding set_sndtimeo
  post_sndtimeo =
      Leaves-bind (cast_int optval optlen) _
        (λ z. Leaves-if (int_lt z (negsuc 0)) _ (λ h. Leaves-some _ refl))

  post_rcvtimeo : Leaves (OnlyPost c) (set_rcvtimeo c optval optlen)
  unfolding set_rcvtimeo
  post_rcvtimeo =
      Leaves-bind (cast_int optval optlen) _
        (λ z. Leaves-if (int_lt z (negsuc 0)) _ (λ h. Leaves-some _ refl))

  post_maxbw : Leaves (OnlyPost c) (set_maxbw c optval optlen)
  unfolding set_maxbw
  post_maxbw =
      Leaves-bind (cast_i64 optval optlen) _
        (λ z. Leaves-if (int_lt z (negsuc 0)) _ (λ h. Leaves-some _ refl))

  post_inputbw : Leaves (OnlyPost c) (set_inputbw c optval optlen)
  unfolding set_inputbw
  post_inputbw =
      Leaves-bind (cast_i64 optval optlen) _
        (λ z. Leaves-if (int_lt z (pos 0)) _ (λ h. Leaves-some _ refl))

  post_oheadbw : Leaves (OnlyPost c) (set_oheadbw c optval optlen)
  unfolding set_oheadbw
  post_oheadbw =
      Leaves-bind (cast_int optval optlen) _
        (λ z. Leaves-if (int_lt z (pos 5) || int_lt (pos 100) z) _ (λ h. Leaves-some _ refl))

  post_snddropdelay : Leaves (OnlyPost c) (set_snddropdelay c optval optlen)
  unfolding set_snddropdelay
  post_snddropdelay =
      Leaves-bind (cast_int optval optlen) _
        (λ z. Leaves-if (int_lt z (negsuc 0)) _ (λ h. Leaves-some _ refl))

  post_drifttracer : Leaves (OnlyPost c) (set_drifttracer c optval optlen)
  unfolding set_drifttracer
  post_drifttracer = Leaves-some _ refl

  post_mininputbw : Leaves (OnlyPost c) (set_mininputbw c optval optlen)
  unfolding set_mininputbw
  post_mininputbw =
      Leaves-bind (cast_i64 optval optlen) _
        (λ z. Leaves-if (int_lt z (pos 0)) _ (λ h. Leaves-some _ refl))

  post_lossmaxttl : Leaves (OnlyPost c) (set_lossmaxttl c optval optlen)
  unfolding set_lossmaxttl
  post_lossmaxttl = Leaves-bind (cast_int optval optlen) _ (λ z. Leaves-some _ refl)

module _ (filters : List (List ℕ × Factory)) (s a : Cudt) (optval : List ℕ) (optlen : ℕ) where
  -- With both switches on, an option that passes is one of the list, and is set there.
  each_option :
      (name : SockOpt)
      → s.connected ≡ true
      → s.opened ≡ true
      → (acc : Accepted filters s name optval optlen a)
      → In name post_opt_list × OnlyPost s.config acc.new_config
  unfolding dispatch_set flags post_opt_list
  each_option SockOpt.mss on bound acc = cc (bound, acc.prebind_passed)
  each_option SockOpt.sndsyn on bound acc =
      (inl refl, returned_config (post_sndsyn s.config optval optlen) acc.setter_returned)
  each_option SockOpt.rcvsyn on bound acc =
      (inr (inl refl), returned_config (post_rcvsyn s.config optval optlen) acc.setter_returned)
  each_option SockOpt.isn on bound acc = cc acc.setter_returned
  each_option SockOpt.fc on bound acc = cc (on, not_connected s acc.pre_passed)
  each_option SockOpt.sndbuf on bound acc = cc (bound, acc.prebind_passed)
  each_option SockOpt.rcvbuf on bound acc = cc (bound, acc.prebind_passed)
  each_option SockOpt.linger on bound acc = (
    inr (inr (inl refl)),
    returned_config (post_linger s.config optval optlen) acc.setter_returned,
  )
  each_option SockOpt.udp_sndbuf on bound acc = cc (bound, acc.prebind_passed)
  each_option SockOpt.udp_rcvbuf on bound acc = cc (bound, acc.prebind_passed)
  each_option SockOpt.rendezvous on bound acc = cc (on, not_connected s acc.pre_passed)
  each_option SockOpt.sndtimeo on bound acc = (
    inr (inr (inr (inl refl))),
    returned_config (post_sndtimeo s.config optval optlen) acc.setter_returned,
  )
  each_option SockOpt.rcvtimeo on bound acc = (
    inr (inr (inr (inr (inl refl)))),
    returned_config (post_rcvtimeo s.config optval optlen) acc.setter_returned,
  )
  each_option SockOpt.reuseaddr on bound acc = cc (bound, acc.prebind_passed)
  each_option SockOpt.maxbw on bound acc = (
    inr (inr (inr (inr (inr (inl refl))))),
    returned_config (post_maxbw s.config optval optlen) acc.setter_returned,
  )
  each_option SockOpt.state on bound acc = cc acc.setter_returned
  each_option SockOpt.event on bound acc = cc acc.setter_returned
  each_option SockOpt.snddata on bound acc = cc acc.setter_returned
  each_option SockOpt.rcvdata on bound acc = cc acc.setter_returned
  each_option SockOpt.sender on bound acc = cc (on, not_connected s acc.pre_passed)
  each_option SockOpt.tsbpdmode on bound acc = cc (on, not_connected s acc.pre_passed)
  each_option SockOpt.latency on bound acc = cc (on, not_connected s acc.pre_passed)
  each_option SockOpt.inputbw on bound acc = (
    inr (inr (inr (inr (inr (inr (inl refl)))))),
    returned_config (post_inputbw s.config optval optlen) acc.setter_returned,
  )
  each_option SockOpt.oheadbw on bound acc = (
    inr (inr (inr (inr (inr (inr (inr (inl refl))))))),
    returned_config (post_oheadbw s.config optval optlen) acc.setter_returned,
  )
  each_option SockOpt.passphrase on bound acc = cc (on, not_connected s acc.pre_passed)
  each_option SockOpt.pbkeylen on bound acc = cc (on, not_connected s acc.pre_passed)
  each_option SockOpt.kmstate on bound acc = cc acc.setter_returned
  each_option SockOpt.ipttl on bound acc = cc (bound, acc.prebind_passed)
  each_option SockOpt.iptos on bound acc = cc (bound, acc.prebind_passed)
  each_option SockOpt.tlpktdrop on bound acc = cc (on, not_connected s acc.pre_passed)
  each_option SockOpt.snddropdelay on bound acc = (
    inr (inr (inr (inr (inr (inr (inr (inr (inl refl)))))))),
    returned_config (post_snddropdelay s.config optval optlen) acc.setter_returned,
  )
  each_option SockOpt.nakreport on bound acc = cc (on, not_connected s acc.pre_passed)
  each_option SockOpt.version on bound acc = cc acc.setter_returned
  each_option SockOpt.peerversion on bound acc = cc acc.setter_returned
  each_option SockOpt.conntimeo on bound acc = cc (on, not_connected s acc.pre_passed)
  each_option SockOpt.drifttracer on bound acc = (
    inr (inr (inr (inr (inr (inr (inr (inr (inr (inl refl))))))))),
    returned_config (post_drifttracer s.config optval optlen) acc.setter_returned,
  )
  each_option SockOpt.mininputbw on bound acc = (
    inr (inr (inr (inr (inr (inr (inr (inr (inr (inr (inl refl)))))))))),
    returned_config (post_mininputbw s.config optval optlen) acc.setter_returned,
  )
  each_option SockOpt.sndkmstate on bound acc = cc acc.setter_returned
  each_option SockOpt.rcvkmstate on bound acc = cc acc.setter_returned
  each_option SockOpt.lossmaxttl on bound acc = (
    inr (inr (inr (inr (inr (inr (inr (inr (inr (inr (inr (inl refl))))))))))),
    returned_config (post_lossmaxttl s.config optval optlen) acc.setter_returned,
  )
  each_option SockOpt.rcvlatency on bound acc = cc (on, not_connected s acc.pre_passed)
  each_option SockOpt.peerlatency on bound acc = cc (on, not_connected s acc.pre_passed)
  each_option SockOpt.minversion on bound acc = cc (on, not_connected s acc.pre_passed)
  each_option SockOpt.streamid on bound acc = cc (on, not_connected s acc.pre_passed)
  each_option SockOpt.congestion on bound acc = cc (on, not_connected s acc.pre_passed)
  each_option SockOpt.messageapi on bound acc = cc (on, not_connected s acc.pre_passed)
  each_option SockOpt.payloadsize on bound acc = cc (on, not_connected s acc.pre_passed)
  each_option SockOpt.transtype on bound acc = cc (bound, acc.prebind_passed)
  each_option SockOpt.kmrefreshrate on bound acc = cc (on, not_connected s acc.pre_passed)
  each_option SockOpt.kmpreannounce on bound acc = cc (on, not_connected s acc.pre_passed)
  each_option SockOpt.enforcedencryption on bound acc = cc (on, not_connected s acc.pre_passed)
  each_option SockOpt.ipv6only on bound acc = cc (bound, acc.prebind_passed)
  each_option SockOpt.peeridletimeo on bound acc = cc (on, not_connected s acc.pre_passed)
  each_option SockOpt.bindtodevice on bound acc = cc (bound, acc.prebind_passed)
  each_option SockOpt.groupconnect on bound acc = cc acc.setter_returned
  each_option SockOpt.groupminstabletimeo on bound acc = cc acc.setter_returned
  each_option SockOpt.grouptype on bound acc = cc acc.setter_returned
  each_option SockOpt.packetfilter on bound acc = cc (on, not_connected s acc.pre_passed)
  each_option SockOpt.retransmitalgo on bound acc = cc (on, not_connected s acc.pre_passed)
  each_option (SockOpt.undefined z) on bound acc = cc acc.setter_returned

-- While a socket is open and connected, setOpt succeeds for no option but those of
-- `srt_post_opt_list`, and changes no other member of the configuration than theirs, so that what
-- the handshake has agreed on stays.
pub set_opt_connected :
    (filters : List (List ℕ × Factory)) (s a : Cudt) (es : List CcEvent) (name : SockOpt)
    (optval : List ℕ) (optlen : ℕ)
    → s.connected ≡ true
    → s.opened ≡ true
    → set_opt filters s name optval optlen ≡ Outcome.done a es
    → In name post_opt_list × OnlyPost s.config a.config
set_opt_connected filters s a es name optval optlen on bound e =
    let acc = set_opt-Accepted filters s name optval optlen a es e in
    let found = each_option filters s a optval optlen name on bound acc in
    (found.0, subst (λ (x : Cudt). OnlyPost s.config x.config) (sym acc.state_after) found.1)
