-- ===== src/Srtcore/Socket/GetOpt.antt =====
-- srt-1.5.6/srtcore/core.cpp: CUDT::getOpt, and payloadSize of core.h. What the switch writes is a
-- value with its type; `optlen` is the room that the caller has.
use srt_vpn.Prelude.{
  ℕ, ◌+◌, ◌-◌, ◌*◌, ◌%◌, ◌^◌, Bool, true, false, not, Option, none, some, List, take, length, ltb,
  ◌==◌, ◌||◌, if◌then◌else◌, min,
}
use srt_vpn.Prelude.Ints.{ℤ, pos}
use srt_vpn.Srtcore.Options.{SockOpt}
use srt_vpn.Srtcore.Config.{Linger, bytes_per_pkt}
use srt_vpn.Srtcore.Config.Cast.{signed32}
use srt_vpn.Srtcore.Config.Network.{ifnamsiz}
use srt_vpn.Srtcore.Socket.{Cudt, CryptoView, OptError}

pub data OptValue : Type 0 where
  int32 int64 : ℤ → OptValue
  uint32 : ℕ → OptValue
  flag : Bool → OptValue
  lingers : Linger → OptValue
  text : List ℕ → OptValue

pub data Got : Type 0 where
  value : OptValue → Got
  error : OptError → Got

-- A number in an int, which wraps around on the machines of the build.
abbrev pub to_int : ℕ → ℤ
to_int n = signed32 (n % 2 ^ 32)

-- `payloadSize()`
unfoldable pub payload_size : Cudt → ℕ
payload_size s =
    if not (s.config.exp_payload_size == 0) || not s.connected
    then s.config.exp_payload_size
    else s.max_srt_payload_size

-- SRTO_EVENT, with SRT_EPOLL_IN 1, SRT_EPOLL_OUT 4 and SRT_EPOLL_ERR 8
unfoldable pub event_of : Cudt → ℕ
event_of s =
    if s.broken
    then 8
    else (elim s.rcv_buffer [ none ↦ 0 | some (_, ready) ↦ if ready then 1 else 0 ])
      + (elim s.snd_buffer [ none ↦ 0 | some n ↦ if ltb n s.config.snd_buf_size then 4 else 0 ])

-- The state of the keys in one direction; SRT_KM_S_UNSECURED is 0.
unfoldable pub km_state : Bool → Option CryptoView → ℕ
km_state sending none = 0
km_state sending (some k) = if sending then k.snd_km_state else k.rcv_km_state

-- `StringStorage::copy` of a string with its terminator, where the room is enough
unfoldable pub get_text : List ℕ → ℕ → Got
get_text stored optlen =
    if ltb optlen (length stored + 1)
    then Got.error OptError.inval
    else Got.value (OptValue.text (take (min (length stored) (optlen - 1)) stored))

-- SRTO_BINDTODEVICE: the device of the queue, or else the one of the configuration
unfoldable pub device_of : Cudt → ℕ → Got
device_of s optlen = elim (if s.opened then s.queue_bind else none) [
  | none ↦ Got.value (OptValue.text (take (optlen - 1) s.config.muxer.bind_to_device))
  | some name ↦ Got.value (OptValue.text name)
]

-- The switch in three parts: each takes the options that the one before has no case for.
unfoldable pub get_opt_last : Cudt → SockOpt → ℕ → Got
get_opt_last s SockOpt.lossmaxttl optlen =
    Got.value (OptValue.int32 (s.config.max_reorder_tolerance))
get_opt_last s SockOpt.nakreport optlen = Got.value (OptValue.flag s.config.rcv_nak_report)
get_opt_last s SockOpt.version optlen = Got.value (OptValue.int32 (pos s.config.srt_version))
get_opt_last s SockOpt.peerversion optlen = Got.value (OptValue.int32 (pos s.peer_srt_version))
get_opt_last s SockOpt.conntimeo optlen = Got.value (OptValue.int32 (pos s.config.conn_time_out))
get_opt_last s SockOpt.drifttracer optlen = Got.value (OptValue.flag s.config.drift_tracer)
get_opt_last s SockOpt.minversion optlen =
    Got.value (OptValue.uint32 s.config.minimum_peer_srt_version)
get_opt_last s SockOpt.streamid optlen = get_text s.config.stream_name optlen
get_opt_last s SockOpt.congestion optlen = get_text s.config.congestion optlen
get_opt_last s SockOpt.messageapi optlen = Got.value (OptValue.flag s.config.message_api)
get_opt_last s SockOpt.payloadsize optlen = Got.value (OptValue.int32 (pos (payload_size s)))
get_opt_last s SockOpt.kmrefreshrate optlen =
    Got.value (OptValue.int32 (to_int s.config.km_refresh_rate_pkt))
get_opt_last s SockOpt.kmpreannounce optlen =
    Got.value (OptValue.int32 (to_int s.config.km_pre_announce_pkt))
get_opt_last s SockOpt.enforcedencryption optlen = Got.value (OptValue.flag s.config.enforced_enc)
get_opt_last s SockOpt.ipv6only optlen = Got.value (OptValue.int32 (s.config.muxer.ip_v6_only))
get_opt_last s SockOpt.peeridletimeo optlen =
    Got.value (OptValue.int32 (pos s.config.peer_idle_timeout_ms))
get_opt_last s SockOpt.packetfilter optlen = get_text s.config.packet_filter_config optlen
get_opt_last s SockOpt.retransmitalgo optlen =
    Got.value (OptValue.int32 (pos s.config.retransmit_algo))
get_opt_last s _ optlen = Got.error OptError.not_supported

unfoldable pub get_opt_middle : Cudt → SockOpt → ℕ → Got
get_opt_middle s SockOpt.snddata optlen =
    Got.value (OptValue.int32 (pos (elim s.snd_buffer [ none ↦ 0 | some n ↦ n ])))
get_opt_middle s SockOpt.rcvdata optlen =
    Got.value (OptValue.int32 (pos (elim s.rcv_buffer [ none ↦ 0 | some (n, _) ↦ n ])))
get_opt_middle s SockOpt.ipttl optlen =
    Got.value (OptValue.int32 (if s.opened then s.queue_ttl else s.config.muxer.ip_ttl))
get_opt_middle s SockOpt.iptos optlen =
    Got.value (OptValue.int32 (if s.opened then s.queue_tos else s.config.muxer.ip_to_s))
get_opt_middle s SockOpt.bindtodevice optlen =
    if ltb optlen ifnamsiz then Got.error OptError.inval else device_of s optlen
get_opt_middle s SockOpt.sender optlen = Got.value (OptValue.flag s.config.data_sender)
get_opt_middle s SockOpt.tsbpdmode optlen = Got.value (OptValue.flag s.config.tsbpd)
get_opt_middle s SockOpt.latency optlen =
    Got.value
      (OptValue.int32 (pos (if s.connected then s.ts_pd_delay_ms else s.config.rcv_latency)))
get_opt_middle s SockOpt.rcvlatency optlen =
    Got.value
      (OptValue.int32 (pos (if s.connected then s.ts_pd_delay_ms else s.config.rcv_latency)))
get_opt_middle s SockOpt.peerlatency optlen =
    Got.value
      (OptValue.int32 (pos (if s.connected then s.peer_ts_pd_delay_ms else s.config.peer_latency)))
get_opt_middle s SockOpt.tlpktdrop optlen =
    Got.value (OptValue.flag (if s.connected then s.drops_too_late else s.config.tl_pkt_drop))
get_opt_middle s SockOpt.snddropdelay optlen = Got.value (OptValue.int32 (s.config.snd_drop_delay))
get_opt_middle s SockOpt.pbkeylen optlen = Got.value (
    OptValue.int32
      (pos (elim s.crypto_control [ none ↦ s.config.snd_crypto_key_len | some k ↦ k.key_len ])))
get_opt_middle s SockOpt.kmstate optlen =
    Got.value (OptValue.int32 (pos (km_state s.config.data_sender s.crypto_control)))
get_opt_middle s SockOpt.sndkmstate optlen =
    Got.value (OptValue.int32 (pos (km_state true s.crypto_control)))
get_opt_middle s SockOpt.rcvkmstate optlen =
    Got.value (OptValue.int32 (pos (km_state false s.crypto_control)))
get_opt_middle s name optlen = get_opt_last s name optlen

unfoldable pub get_opt : Cudt → SockOpt → ℕ → Got
get_opt s SockOpt.mss optlen = Got.value (OptValue.int32 (pos s.config.mss))
get_opt s SockOpt.sndsyn optlen = Got.value (OptValue.flag s.config.syn_sending)
get_opt s SockOpt.rcvsyn optlen = Got.value (OptValue.flag s.config.syn_recving)
get_opt s SockOpt.isn optlen = Got.value (OptValue.int32 (pos s.isn))
get_opt s SockOpt.fc optlen = Got.value (OptValue.int32 (pos s.config.flight_flag_size))
get_opt s SockOpt.sndbuf optlen =
    Got.value (OptValue.int32 (to_int (s.config.snd_buf_size * bytes_per_pkt s.config)))
get_opt s SockOpt.rcvbuf optlen =
    Got.value (OptValue.int32 (to_int (s.config.rcv_buf_size * bytes_per_pkt s.config)))
get_opt s SockOpt.linger optlen =
    if ltb optlen 8 then Got.error OptError.inval else Got.value (OptValue.lingers s.config.linger)
get_opt s SockOpt.udp_sndbuf optlen =
    Got.value (OptValue.int32 (pos s.config.muxer.udp_snd_buf_size))
get_opt s SockOpt.udp_rcvbuf optlen =
    Got.value (OptValue.int32 (pos s.config.muxer.udp_rcv_buf_size))
get_opt s SockOpt.rendezvous optlen = Got.value (OptValue.flag s.config.rendezvous)
get_opt s SockOpt.sndtimeo optlen = Got.value (OptValue.int32 (s.config.snd_time_out))
get_opt s SockOpt.rcvtimeo optlen = Got.value (OptValue.int32 (s.config.rcv_time_out))
get_opt s SockOpt.reuseaddr optlen = Got.value (OptValue.flag s.config.muxer.reuse_addr)
get_opt s SockOpt.maxbw optlen =
    if ltb optlen 8 then Got.error OptError.inval else Got.value (OptValue.int64 (s.config.max_bw))
get_opt s SockOpt.inputbw optlen =
    if ltb optlen 8
    then Got.error OptError.inval
    else Got.value (OptValue.int64 (pos s.config.input_bw))
get_opt s SockOpt.mininputbw optlen =
    if ltb optlen 8
    then Got.error OptError.inval
    else Got.value (OptValue.int64 (pos s.config.min_input_bw))
get_opt s SockOpt.oheadbw optlen = Got.value (OptValue.int32 (pos s.config.overhead_bw))
get_opt s SockOpt.state optlen = Got.value (OptValue.int32 (pos s.status))
get_opt s SockOpt.event optlen = Got.value (OptValue.int32 (pos (event_of s)))
get_opt s name optlen = get_opt_middle s name optlen
