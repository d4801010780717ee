-- ===== src/Tests/Options.antt =====
-- Runs of setOpt and getOpt, and the theorems on them at concrete sockets.
use srt_vpn.Prelude.{ℕ, zero, ◌+◌, ◌^◌, true, false, none, List, [], ◌∷◌, In, ◌≡◌, refl, arith}
use srt_vpn.Prelude.Ints.{pos, negsuc}
use srt_vpn.Srtcore.Options.{SockOpt, code, flags, post_opt_list}
use srt_vpn.Srtcore.Config.{default_config, storage_set}
use srt_vpn.Srtcore.Config.Cast.{le_i32}
use srt_vpn.Srtcore.Config.Buffers.{set_sndbuf, rcv_buffer_size_option_to_value}
use srt_vpn.Srtcore.Config.Network.{set_maxbw}
use srt_vpn.Srtcore.Config.Delivery.{set_rcvlatency}
use srt_vpn.Srtcore.Config.Crypto.{refresh_pre_announce}
use srt_vpn.Srtcore.Config.Dispatch.{dispatch_set}
use srt_vpn.Srtcore.Config.Valid.{IsValid, mss_sound}
use srt_vpn.Srtcore.Socket.{
  Cudt, CcEvent, Outcome, Call, set_opt, after_set, post_action, new_tolerance, cc_events,
  call_opts,
}
use srt_vpn.Srtcore.Socket.GetOpt.{OptValue, Got, get_opt}
use srt_vpn.Srtcore.Socket.Reading.{Asked}
use srt_vpn.Srtcore.Socket.RoundTrip.{set_opt-get_opt}
use srt_vpn.Srtcore.Socket.Restricted.{OnlyPost, set_opt_connected}
use srt_vpn.Srtcore.Socket.Runs.{call_opts-IsValid}

abbrev version : ℕ
version = 0x010506

abbrev pub fresh_socket : Cudt
fresh_socket = record {
  broken = false;
  closing = false;
  opened = false;
  connected = false;
  connecting = false;
  listening = false;
  config = default_config version;
  reorder_tolerance = pos 0;
  isn = 0;
  ts_pd_delay_ms = 0;
  peer_ts_pd_delay_ms = 0;
  drops_too_late = false;
  peer_srt_version = 0;
  max_srt_payload_size = 1456;
  status = 1;
  queue_ttl = negsuc 0;
  queue_tos = negsuc 0;
  queue_bind = none;
  snd_buffer = none;
  rcv_buffer = none;
  crypto_control = none;
}

abbrev live_socket : Cudt
live_socket = record fresh_socket { opened = true; connected = true }

-- 200, 100000 and 1000000 in memory
abbrev two_hundred : List ℕ
two_hundred = 200 ∷ 0 ∷ 0 ∷ 0 ∷ []

abbrev hundred_thousand : List ℕ
hundred_thousand = 160 ∷ 134 ∷ 1 ∷ 0 ∷ []

abbrev million64 : List ℕ
million64 = 64 ∷ 66 ∷ 15 ∷ 0 ∷ 0 ∷ 0 ∷ 0 ∷ 0 ∷ []

abbrev with_latency : Cudt
with_latency = record fresh_socket {
  config = record (default_config version) { rcv_latency = 200 };
}

latency_set :
    set_opt [] fresh_socket SockOpt.rcvlatency two_hundred 4 ≡ Outcome.done with_latency []
unfolding set_opt code flags dispatch_set set_rcvlatency after_set default_config storage_set
latency_set = refl

set_opt-get_opt_example :
    get_opt with_latency SockOpt.rcvlatency 513 ≡ Got.value (OptValue.int32 (le_i32 two_hundred 0))
set_opt-get_opt_example =
    set_opt-get_opt [] fresh_socket with_latency [] SockOpt.rcvlatency two_hundred 4 513
      (OptValue.int32 (le_i32 two_hundred 0)) Asked.rcvlatency latency_set (omega arith)

abbrev with_bandwidth : Cudt
with_bandwidth = record live_socket {
  config = record (default_config version) { max_bw = pos 1000000 };
}

bandwidth_set :
    set_opt [] live_socket SockOpt.maxbw million64 8
    ≡ Outcome.done with_bandwidth (CcEvent.init_reset ∷ [])
unfolding set_opt code flags dispatch_set set_maxbw after_set post_action new_tolerance cc_events
    default_config storage_set
bandwidth_set = refl

set_opt_connected_example :
    In SockOpt.maxbw post_opt_list × OnlyPost live_socket.config with_bandwidth.config
set_opt_connected_example =
    set_opt_connected [] live_socket with_bandwidth (CcEvent.init_reset ∷ []) SockOpt.maxbw
      million64 8 refl refl bandwidth_set

abbrev with_buffer : Cudt
with_buffer = record fresh_socket { config = record (default_config version) { snd_buf_size = 67 } }

buffer_set : set_opt [] fresh_socket SockOpt.sndbuf hundred_thousand 4 ≡ Outcome.done with_buffer []
unfolding set_opt code flags dispatch_set set_sndbuf after_set default_config storage_set
buffer_set = refl

-- A call that is refused, for a passphrase that is too short, between two that are not.
abbrev three_calls : List Call
three_calls =
    record { name = SockOpt.rcvlatency; optval = two_hundred; optlen = 4 }
    ∷ record { name = SockOpt.passphrase; optval = two_hundred; optlen = 4 }
    ∷ record { name = SockOpt.sndbuf; optval = hundred_thousand; optlen = 4 }
    ∷ []

call_opts-IsValid_example : IsValid mss_sound (call_opts [] fresh_socket three_calls).config
call_opts-IsValid_example =
    call_opts-IsValid mss_sound [] version fresh_socket three_calls (omega arith) refl
      ((omega arith, omega arith), ((omega arith, omega arith), ((omega arith, omega arith), tt)))

-- A refresh rate of 2 leaves the distance 0, which stands for 0x1000 packets.
short_rate : refresh_pre_announce 2 0 ≡ zero
unfolding refresh_pre_announce
short_rate = refl

-- With packets of 2^27 + 28 bytes the size of 32 packets wraps around to 0, and a buffer of 1000
-- bytes is one of 0 packets.
empty_buffer : rcv_buffer_size_option_to_value 1000 25600 (2 ^ 27 + 28) ≡ zero
unfolding rcv_buffer_size_option_to_value
empty_buffer = refl
