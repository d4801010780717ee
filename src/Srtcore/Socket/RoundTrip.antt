-- ===== src/Srtcore/Socket/RoundTrip.antt =====
-- A call of setOpt that succeeds is seen by getOpt.
use srt_vpn.Prelude.{ℕ, ◌≤◌, List, subst, ◌≡◌, sym}
use srt_vpn.Srtcore.Options.{SockOpt, flags}
use srt_vpn.Srtcore.Config.Payload.{Factory}
use srt_vpn.Srtcore.Config.Dispatch.{dispatch_set}
use srt_vpn.Srtcore.Socket.{Cudt, CcEvent, Outcome, set_opt}
use srt_vpn.Srtcore.Socket.GetOpt.{OptValue, Got, get_opt}
use srt_vpn.Srtcore.Socket.Calls.{Accepted, set_opt-Accepted, returned_config, not_connected}
use srt_vpn.Srtcore.Socket.Reading.{Asked, Reads}
use srt_vpn.Srtcore.Socket.Reading.Numbers.{
  read_fc, read_sndtimeo, read_rcvtimeo, read_maxbw, read_latency, read_inputbw, read_oheadbw,
  read_ipttl, read_iptos, read_snddropdelay, read_conntimeo, read_mininputbw, read_lossmaxttl,
  read_rcvlatency, read_peerlatency, read_payloadsize, read_kmrefreshrate, read_kmpreannounce,
  read_ipv6only, read_peeridletimeo, read_retransmitalgo,
}
use srt_vpn.Srtcore.Socket.Reading.Others.{
  read_sndsyn, read_rcvsyn, read_linger, read_rendezvous, read_reuseaddr, read_sender,
  read_tsbpdmode, read_tlpktdrop, read_nakreport, read_drifttracer, read_minversion, read_streamid,
  read_messageapi, read_enforcedencryption,
}

module _ (filters : List (List ℕ × Factory)) (s : Cudt) (optval : List ℕ) (optlen : ℕ)
    (a : Cudt) where
  read_each :
      (name : SockOpt) (w : OptValue)
      → (acc : Accepted filters s name optval optlen a) → Asked optval optlen name w
      → Reads s name w acc.new_config
  unfolding dispatch_set flags
  read_each _ _ acc Asked.sndsyn = returned_config (read_sndsyn s optval optlen) acc.setter_returned
  read_each _ _ acc Asked.rcvsyn = returned_config (read_rcvsyn s optval optlen) acc.setter_returned
  read_each _ _ acc Asked.fc = returned_config (read_fc s optval optlen) acc.setter_returned
  read_each _ _ acc Asked.linger = returned_config (read_linger s optval optlen) acc.setter_returned
  read_each _ _ acc Asked.rendezvous =
      returned_config (read_rendezvous s optval optlen) acc.setter_returned
  read_each _ _ acc Asked.sndtimeo =
      returned_config (read_sndtimeo s optval optlen) acc.setter_returned
  read_each _ _ acc Asked.rcvtimeo =
      returned_config (read_rcvtimeo s optval optlen) acc.setter_returned
  read_each _ _ acc Asked.reuseaddr =
      returned_config (read_reuseaddr s optval optlen) acc.setter_returned
  read_each _ _ acc Asked.maxbw = returned_config (read_maxbw s optval optlen) acc.setter_returned
  read_each _ _ acc Asked.sender = returned_config (read_sender s optval optlen) acc.setter_returned
  read_each _ _ acc Asked.tsbpdmode =
      returned_config (read_tsbpdmode s optval optlen) acc.setter_returned
  read_each _ _ acc Asked.latency =
      returned_config (read_latency s optval optlen (not_connected s acc.pre_passed))
        acc.setter_returned
  read_each _ _ acc Asked.inputbw =
      returned_config (read_inputbw s optval optlen) acc.setter_returned
  read_each _ _ acc Asked.oheadbw =
      returned_config (read_oheadbw s optval optlen) acc.setter_returned
  read_each _ _ acc Asked.ipttl =
      returned_config (read_ipttl s optval optlen acc.prebind_passed) acc.setter_returned
  read_each _ _ acc Asked.iptos =
      returned_config (read_iptos s optval optlen acc.prebind_passed) acc.setter_returned
  read_each _ _ acc Asked.tlpktdrop =
      returned_config (read_tlpktdrop s optval optlen (not_connected s acc.pre_passed))
        acc.setter_returned
  read_each _ _ acc Asked.snddropdelay =
      returned_config (read_snddropdelay s optval optlen) acc.setter_returned
  read_each _ _ acc Asked.nakreport =
      returned_config (read_nakreport s optval optlen) acc.setter_returned
  read_each _ _ acc Asked.conntimeo =
      returned_config (read_conntimeo s optval optlen) acc.setter_returned
  read_each _ _ acc Asked.drifttracer =
      returned_config (read_drifttracer s optval optlen) acc.setter_returned
  read_each _ _ acc Asked.mininputbw =
      returned_config (read_mininputbw s optval optlen) acc.setter_returned
  read_each _ _ acc Asked.lossmaxttl =
      returned_config (read_lossmaxttl s optval optlen) acc.setter_returned
  read_each _ _ acc Asked.rcvlatency =
      returned_config (read_rcvlatency s optval optlen (not_connected s acc.pre_passed))
        acc.setter_returned
  read_each _ _ acc Asked.peerlatency =
      returned_config (read_peerlatency s optval optlen (not_connected s acc.pre_passed))
        acc.setter_returned
  read_each _ _ acc Asked.minversion =
      returned_config (read_minversion s optval optlen) acc.setter_returned
  read_each _ _ acc Asked.streamid =
      returned_config (read_streamid s optval optlen) acc.setter_returned
  read_each _ _ acc Asked.messageapi =
      returned_config (read_messageapi s optval optlen) acc.setter_returned
  read_each _ _ acc Asked.payloadsize =
      returned_config (read_payloadsize s optval optlen filters (not_connected s acc.pre_passed))
        acc.setter_returned
  read_each _ _ acc Asked.kmrefreshrate =
      returned_config (read_kmrefreshrate s optval optlen) acc.setter_returned
  read_each _ _ acc Asked.kmpreannounce =
      returned_config (read_kmpreannounce s optval optlen) acc.setter_returned
  read_each _ _ acc Asked.enforcedencryption =
      returned_config (read_enforcedencryption s optval optlen) acc.setter_returned
  read_each _ _ acc Asked.ipv6only =
      returned_config (read_ipv6only s optval optlen) acc.setter_returned
  read_each _ _ acc Asked.peeridletimeo =
      returned_config (read_peeridletimeo s optval optlen) acc.setter_returned
  read_each _ _ acc Asked.retransmitalgo =
      returned_config (read_retransmitalgo s optval optlen) acc.setter_returned

-- A call of setOpt that succeeds is seen by getOpt. `Asked` names the options and the value that the
-- passed memory holds for each: the switches, the time limits, the latencies, the bandwidths, the
-- window, the TTL and the TOS, the key rates, the payload size, the minimal version, the linger and
-- the stream id. From the state after the call, getOpt with 513 bytes of room reads that value. The
-- restrictions are what makes it so: while connected, the latencies and the payload size are read
-- from other members, and while open the TTL and the TOS, but then setOpt refuses them.
pub set_opt-get_opt :
    (filters : List (List ℕ × Factory)) (s a : Cudt) (es : List CcEvent) (name : SockOpt)
    (optval : List ℕ) (optlen room : ℕ) (w : OptValue)
    → Asked optval optlen name w
    → set_opt filters s name optval optlen ≡ Outcome.done a es
    → 513 ≤ room
    → get_opt a name room ≡ Got.value w
set_opt-get_opt filters s a es name optval optlen room w q e h =
    let acc = set_opt-Accepted filters s name optval optlen a es e in
    subst (λ (x : Cudt). get_opt x name room ≡ Got.value w) (sym acc.state_after)
      (read_each filters s optval optlen a name w acc q acc.tolerance room h)
