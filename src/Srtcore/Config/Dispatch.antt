-- ===== src/Srtcore/Config/Dispatch.antt =====
-- srt-1.5.6/srtcore/socketconfig.cpp: dispatchSet and CSrtConfig::set.
use srt_vpn.Prelude.{ℕ, Option, none, some, List}
use srt_vpn.Srtcore.Options.{SockOpt}
use srt_vpn.Srtcore.Config.{SrtConfig}
use srt_vpn.Srtcore.Config.Buffers.{
  set_mss, set_fc, set_sndbuf, set_rcvbuf, set_linger, set_udp_sndbuf, set_udp_rcvbuf,
}
use srt_vpn.Srtcore.Config.Network.{
  set_rendezvous, set_sndtimeo, set_rcvtimeo, set_sndsyn, set_rcvsyn, set_reuseaddr, set_maxbw,
  set_ipttl, set_iptos, set_bindtodevice, set_inputbw, set_mininputbw, set_oheadbw, set_ipv6only,
  set_conntimeo, set_peeridletimeo, set_drifttracer,
}
use srt_vpn.Srtcore.Config.Delivery.{
  set_sender, set_tsbpdmode, set_latency, set_rcvlatency, set_peerlatency, set_tlpktdrop,
  set_snddropdelay, set_nakreport, set_lossmaxttl, set_minversion, set_messageapi,
  set_retransmitalgo, set_transtype,
}
use srt_vpn.Srtcore.Config.Crypto.{
  set_passphrase, set_pbkeylen, set_kmrefreshrate, set_kmpreannounce, set_enforcedencryption,
}
use srt_vpn.Srtcore.Config.Payload.{
  Factory, set_streamid, set_congestion, set_payloadsize, set_packetfilter,
}

-- A setter that returned, a setter that threw, and -1 for an option that no setter has.
pub data SetResult : Type 0 where
  returned : SrtConfig → SetResult
  thrown unknown : SetResult

abbrev pub set_result : Option SrtConfig → SetResult
set_result none = SetResult.thrown
set_result (some c) = SetResult.returned c

unfoldable pub dispatch_set : List (List ℕ × Factory) → SockOpt → SrtConfig → List ℕ → ℕ → SetResult
dispatch_set filters SockOpt.mss c optval optlen = set_result (set_mss c optval optlen)
dispatch_set filters SockOpt.fc c optval optlen = set_result (set_fc c optval optlen)
dispatch_set filters SockOpt.sndbuf c optval optlen = set_result (set_sndbuf c optval optlen)
dispatch_set filters SockOpt.rcvbuf c optval optlen = set_result (set_rcvbuf c optval optlen)
dispatch_set filters SockOpt.linger c optval optlen = set_result (set_linger c optval optlen)
dispatch_set filters SockOpt.udp_sndbuf c optval optlen =
    set_result (set_udp_sndbuf c optval optlen)
dispatch_set filters SockOpt.udp_rcvbuf c optval optlen =
    set_result (set_udp_rcvbuf c optval optlen)
dispatch_set filters SockOpt.rendezvous c optval optlen =
    set_result (set_rendezvous c optval optlen)
dispatch_set filters SockOpt.sndtimeo c optval optlen = set_result (set_sndtimeo c optval optlen)
dispatch_set filters SockOpt.rcvtimeo c optval optlen = set_result (set_rcvtimeo c optval optlen)
dispatch_set filters SockOpt.sndsyn c optval optlen = set_result (set_sndsyn c optval optlen)
dispatch_set filters SockOpt.rcvsyn c optval optlen = set_result (set_rcvsyn c optval optlen)
dispatch_set filters SockOpt.reuseaddr c optval optlen = set_result (set_reuseaddr c optval optlen)
dispatch_set filters SockOpt.maxbw c optval optlen = set_result (set_maxbw c optval optlen)
dispatch_set filters SockOpt.ipttl c optval optlen = set_result (set_ipttl c optval optlen)
dispatch_set filters SockOpt.iptos c optval optlen = set_result (set_iptos c optval optlen)
dispatch_set filters SockOpt.bindtodevice c optval optlen =
    set_result (set_bindtodevice c optval optlen)
dispatch_set filters SockOpt.inputbw c optval optlen = set_result (set_inputbw c optval optlen)
dispatch_set filters SockOpt.mininputbw c optval optlen =
    set_result (set_mininputbw c optval optlen)
dispatch_set filters SockOpt.oheadbw c optval optlen = set_result (set_oheadbw c optval optlen)
dispatch_set filters SockOpt.sender c optval optlen = set_result (set_sender c optval optlen)
dispatch_set filters SockOpt.tsbpdmode c optval optlen = set_result (set_tsbpdmode c optval optlen)
dispatch_set filters SockOpt.latency c optval optlen = set_result (set_latency c optval optlen)
dispatch_set filters SockOpt.rcvlatency c optval optlen =
    set_result (set_rcvlatency c optval optlen)
dispatch_set filters SockOpt.peerlatency c optval optlen =
    set_result (set_peerlatency c optval optlen)
dispatch_set filters SockOpt.tlpktdrop c optval optlen = set_result (set_tlpktdrop c optval optlen)
dispatch_set filters SockOpt.snddropdelay c optval optlen =
    set_result (set_snddropdelay c optval optlen)
dispatch_set filters SockOpt.passphrase c optval optlen =
    set_result (set_passphrase c optval optlen)
dispatch_set filters SockOpt.pbkeylen c optval optlen = set_result (set_pbkeylen c optval optlen)
dispatch_set filters SockOpt.nakreport c optval optlen = set_result (set_nakreport c optval optlen)
dispatch_set filters SockOpt.conntimeo c optval optlen = set_result (set_conntimeo c optval optlen)
dispatch_set filters SockOpt.drifttracer c optval optlen =
    set_result (set_drifttracer c optval optlen)
dispatch_set filters SockOpt.lossmaxttl c optval optlen =
    set_result (set_lossmaxttl c optval optlen)
dispatch_set filters SockOpt.minversion c optval optlen =
    set_result (set_minversion c optval optlen)
dispatch_set filters SockOpt.streamid c optval optlen = set_result (set_streamid c optval optlen)
dispatch_set filters SockOpt.congestion c optval optlen =
    set_result (set_congestion c optval optlen)
dispatch_set filters SockOpt.messageapi c optval optlen =
    set_result (set_messageapi c optval optlen)
dispatch_set filters SockOpt.payloadsize c optval optlen =
    set_result (set_payloadsize filters c optval optlen)
dispatch_set filters SockOpt.transtype c optval optlen = set_result (set_transtype c optval optlen)
dispatch_set filters SockOpt.kmrefreshrate c optval optlen =
    set_result (set_kmrefreshrate c optval optlen)
dispatch_set filters SockOpt.kmpreannounce c optval optlen =
    set_result (set_kmpreannounce c optval optlen)
dispatch_set filters SockOpt.enforcedencryption c optval optlen =
    set_result (set_enforcedencryption c optval optlen)
dispatch_set filters SockOpt.peeridletimeo c optval optlen =
    set_result (set_peeridletimeo c optval optlen)
dispatch_set filters SockOpt.ipv6only c optval optlen = set_result (set_ipv6only c optval optlen)
dispatch_set filters SockOpt.packetfilter c optval optlen =
    set_result (set_packetfilter filters c optval optlen)
dispatch_set filters SockOpt.retransmitalgo c optval optlen =
    set_result (set_retransmitalgo c optval optlen)
dispatch_set filters _ c optval optlen = SetResult.unknown
