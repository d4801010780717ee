-- ===== src/Srtcore/Config.antt =====
-- srt-1.5.6/srtcore/socketconfig.h: the configuration of a socket. A field that every assignment
-- leaves not negative is a number, any other int an integer. The fields keep the source's names
-- without the letters for their types.
pub mod Cast
pub mod Buffers
pub mod Network
pub mod Delivery
pub mod Crypto
pub mod Payload
pub mod Dispatch
pub mod Leaves
pub mod Valid
use srt_vpn.Prelude.{
  ℕ, ◌-◌, ◌*◌, Bool, true, false, List, [], ◌∷◌, length, bool_beq, ltb, ◌==◌, ◌&&◌, ◌||◌,
  if◌then◌else◌, min,
}
use srt_vpn.Prelude.Bytes.{bytes_eq}
use srt_vpn.Prelude.Ints.{ℤ, pos, negsuc, int_eq}

-- `linger` of sys/socket.h on Linux
pub record Linger : Type 0 where
  pub onoff : ℤ
  pub linger_s : ℤ

-- `HaiCrypt_Secret`, whose `str` holds the first `len` bytes
pub record Secret : Type 0 where
  pub typ : ℕ
  pub str : List ℕ

pub record MuxerConfig : Type 0 where
  pub ip_ttl : ℤ
  pub ip_to_s : ℤ
  pub ip_v6_only : ℤ
  pub reuse_addr : Bool
  pub bind_to_device : List ℕ
  pub udp_snd_buf_size : ℕ
  pub udp_rcv_buf_size : ℕ

pub record SrtConfig : Type 0 where
  pub muxer : MuxerConfig
  pub mss : ℕ
  pub exp_payload_size : ℕ
  pub syn_sending : Bool
  pub syn_recving : Bool
  pub flight_flag_size : ℕ
  pub snd_buf_size : ℕ
  pub rcv_buf_size : ℕ
  pub linger : Linger
  pub rendezvous : Bool
  pub conn_time_out : ℕ
  pub drift_tracer : Bool
  pub snd_time_out : ℤ
  pub rcv_time_out : ℤ
  pub max_bw : ℤ
  pub crypto_secret : Secret
  pub snd_crypto_key_len : ℕ
  pub data_sender : Bool
  pub message_api : Bool
  pub tsbpd : Bool
  pub rcv_latency : ℕ
  pub peer_latency : ℕ
  pub tl_pkt_drop : Bool
  pub snd_drop_delay : ℤ
  pub enforced_enc : Bool
  pub group_connect : ℕ
  pub peer_idle_timeout_ms : ℕ
  pub min_stability_timeout_ms : ℕ
  pub retransmit_algo : ℕ
  pub crypto_mode : ℕ
  pub input_bw : ℕ
  pub min_input_bw : ℕ
  pub overhead_bw : ℕ
  pub rcv_nak_report : Bool
  pub max_reorder_tolerance : ℤ
  pub km_refresh_rate_pkt : ℕ
  pub km_pre_announce_pkt : ℕ
  pub srt_version : ℕ
  pub minimum_peer_srt_version : ℕ
  pub congestion : List ℕ
  pub packet_filter_config : List ℕ
  pub stream_name : List ℕ

-- `CPacket::UDP_HDR_SIZE`
abbrev pub udp_hdr_size : ℕ
udp_hdr_size = 28

-- `CHandShake::m_iContentSize`
abbrev pub content_size : ℕ
content_size = 48

abbrev pub def_udp_buffer_size : ℕ
def_udp_buffer_size = 65536

abbrev pub def_mss : ℕ
def_mss = 1500

abbrev pub def_flight_size : ℕ
def_flight_size = 25600

abbrev pub def_buffer_size : ℕ
def_buffer_size = 8192

abbrev pub def_linger_s : ℕ
def_linger_s = 180

abbrev pub def_min_flight_pkt : ℕ
def_min_flight_pkt = 32

abbrev pub max_sid_length : ℕ
max_sid_length = 512

abbrev pub max_pfilter_length : ℕ
max_pfilter_length = 64

abbrev pub max_cong_length : ℕ
max_cong_length = 16

-- `SRT_LIVE_DEF_PLSIZE`, `SRT_LIVE_MAX_PLSIZE` and `SRT_LIVE_DEF_LATENCY_MS`
abbrev pub live_def_plsize : ℕ
live_def_plsize = 1316

abbrev pub live_max_plsize : ℕ
live_max_plsize = 1456

abbrev pub live_def_latency_ms : ℕ
live_def_latency_ms = 120

-- `CIPHER_MODE_AES_GCM`
abbrev pub cipher_mode_aes_gcm : ℕ
cipher_mode_aes_gcm = 2

-- "live" and "file"
abbrev pub live_name : List ℕ
live_name = 108 ∷ 105 ∷ 118 ∷ 101 ∷ []

abbrev pub file_name : List ℕ
file_name = 102 ∷ 105 ∷ 108 ∷ 101 ∷ []

-- `StringStorage<size>::set`: what is stored after it. A string that does not fit is refused with
-- `false`, which no caller reads.
unfoldable pub storage_set : ℕ → List ℕ → List ℕ → List ℕ
storage_set size s old = if ltb size (length s) then old else s

-- `CSrtMuxerConfig()`
abbrev pub default_muxer : MuxerConfig
default_muxer = record {
  ip_ttl = negsuc 0;
  ip_to_s = negsuc 0;
  ip_v6_only = negsuc 0;
  reuse_addr = true;
  bind_to_device = [];
  udp_snd_buf_size = def_udp_buffer_size;
  udp_rcv_buf_size = def_udp_buffer_size;
}

-- `CSrtConfig()`. `version` is SRT_DEF_VERSION, which the build computes.
unfoldable pub default_config : ℕ → SrtConfig
default_config version = record {
  muxer = record default_muxer { udp_rcv_buf_size = def_buffer_size * def_mss };
  mss = def_mss;
  exp_payload_size = live_def_plsize;
  syn_sending = true;
  syn_recving = true;
  flight_flag_size = def_flight_size;
  snd_buf_size = def_buffer_size;
  rcv_buf_size = def_buffer_size;
  linger = record { onoff = pos 0; linger_s = pos 0 };
  rendezvous = false;
  conn_time_out = 3000;
  drift_tracer = true;
  snd_time_out = negsuc 0;
  rcv_time_out = negsuc 0;
  max_bw = negsuc 0;
  crypto_secret = record { typ = 0; str = [] };
  snd_crypto_key_len = 0;
  data_sender = false;
  message_api = true;
  tsbpd = true;
  rcv_latency = live_def_latency_ms;
  peer_latency = 0;
  tl_pkt_drop = true;
  snd_drop_delay = pos 0;
  enforced_enc = true;
  group_connect = 0;
  peer_idle_timeout_ms = 5000;
  min_stability_timeout_ms = 60;
  retransmit_algo = 1;
  crypto_mode = 0;
  input_bw = 0;
  min_input_bw = 0;
  overhead_bw = 25;
  rcv_nak_report = true;
  max_reorder_tolerance = pos 0;
  km_refresh_rate_pkt = 0;
  km_pre_announce_pkt = 0;
  srt_version = version;
  minimum_peer_srt_version = 0x010000;
  congestion = storage_set max_cong_length live_name [];
  packet_filter_config = [];
  stream_name = [];
}

-- `flightCapacity()` and `bytesPerPkt()`
unfoldable pub flight_capacity : SrtConfig → ℕ
flight_capacity c = min c.rcv_buf_size c.flight_flag_size

unfoldable pub bytes_per_pkt : SrtConfig → ℕ
bytes_per_pkt c = c.mss - udp_hdr_size

-- `CSrtMuxerConfig::isCompatWith`
unfoldable pub is_compat_with : MuxerConfig → MuxerConfig → Bool
is_compat_with m other =
    int_eq m.ip_ttl other.ip_ttl
    && int_eq m.ip_to_s other.ip_to_s
    && bool_beq m.reuse_addr other.reuse_addr
    && bytes_eq m.bind_to_device other.bind_to_device
    && m.udp_snd_buf_size == other.udp_snd_buf_size
    && m.udp_rcv_buf_size == other.udp_rcv_buf_size
    && (int_eq other.ip_v6_only (negsuc 0) || int_eq m.ip_v6_only other.ip_v6_only)
