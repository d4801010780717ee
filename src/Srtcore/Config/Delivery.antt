-- ===== src/Srtcore/Config/Delivery.antt =====
-- srt-1.5.6/srtcore/socketconfig.cpp: the setters of how packets are delivered and repeated.
use srt_vpn.Prelude.{
  ℕ, true, false, not, Option, none, some, ◌>>=◌, List, ◌==◌, ◌&&◌, ◌||◌, if◌then◌else◌,
}
use srt_vpn.Prelude.Ints.{pos, negsuc, int_lt, to_nat}
use srt_vpn.Srtcore.Config.{
  SrtConfig, live_def_latency_ms, live_def_plsize, def_linger_s, cipher_mode_aes_gcm, live_name,
  file_name, max_cong_length, storage_set,
}
use srt_vpn.Srtcore.Config.Cast.{cast_int, cast_u32, cast_bool}

unfoldable pub set_sender : SrtConfig → List ℕ → ℕ → Option SrtConfig
set_sender c optval optlen = some (record c { data_sender = cast_bool optval optlen })

unfoldable pub set_tsbpdmode : SrtConfig → List ℕ → ℕ → Option SrtConfig
set_tsbpdmode c optval optlen =
    let val = cast_bool optval optlen in
    if not val && c.crypto_mode == cipher_mode_aes_gcm
    then none
    else some (record c { tsbpd = val })

unfoldable pub set_latency : SrtConfig → List ℕ → ℕ → Option SrtConfig
set_latency c optval optlen = do
  val ← cast_int optval optlen
  if int_lt val (pos 0)
      then none
      else some (record c { rcv_latency = to_nat val; peer_latency = to_nat val })

unfoldable pub set_rcvlatency : SrtConfig → List ℕ → ℕ → Option SrtConfig
set_rcvlatency c optval optlen = do
  val ← cast_int optval optlen
  if int_lt val (pos 0) then none else some (record c { rcv_latency = to_nat val })

unfoldable pub set_peerlatency : SrtConfig → List ℕ → ℕ → Option SrtConfig
set_peerlatency c optval optlen = do
  val ← cast_int optval optlen
  if int_lt val (pos 0) then none else some (record c { peer_latency = to_nat val })

unfoldable pub set_tlpktdrop : SrtConfig → List ℕ → ℕ → Option SrtConfig
set_tlpktdrop c optval optlen = some (record c { tl_pkt_drop = cast_bool optval optlen })

unfoldable pub set_snddropdelay : SrtConfig → List ℕ → ℕ → Option SrtConfig
set_snddropdelay c optval optlen = do
  val ← cast_int optval optlen
  if int_lt val (negsuc 0) then none else some (record c { snd_drop_delay = val })

unfoldable pub set_nakreport : SrtConfig → List ℕ → ℕ → Option SrtConfig
set_nakreport c optval optlen = some (record c { rcv_nak_report = cast_bool optval optlen })

unfoldable pub set_lossmaxttl : SrtConfig → List ℕ → ℕ → Option SrtConfig
set_lossmaxttl c optval optlen = do
  val ← cast_int optval optlen
  some (record c { max_reorder_tolerance = val })

unfoldable pub set_minversion : SrtConfig → List ℕ → ℕ → Option SrtConfig
set_minversion c optval optlen = do
  val ← cast_u32 optval optlen
  some (record c { minimum_peer_srt_version = val })

unfoldable pub set_messageapi : SrtConfig → List ℕ → ℕ → Option SrtConfig
set_messageapi c optval optlen = some (record c { message_api = cast_bool optval optlen })

unfoldable pub set_retransmitalgo : SrtConfig → List ℕ → ℕ → Option SrtConfig
set_retransmitalgo c optval optlen = do
  val ← cast_int optval optlen
  if int_lt val (pos 0) || int_lt (pos 1) val
      then none
      else some (record c { retransmit_algo = to_nat val })

-- `SRTT_LIVE` and `SRTT_FILE`: the fields that a type of transmission sets
unfoldable pub live_mode : SrtConfig → SrtConfig
live_mode c = record c {
  tsbpd = true;
  rcv_latency = live_def_latency_ms;
  peer_latency = 0;
  tl_pkt_drop = true;
  snd_drop_delay = pos 0;
  message_api = true;
  rcv_nak_report = true;
  retransmit_algo = 1;
  exp_payload_size = live_def_plsize;
  linger = record { onoff = pos 0; linger_s = pos 0 };
  congestion = storage_set max_cong_length live_name c.congestion;
}

unfoldable pub file_mode : SrtConfig → SrtConfig
file_mode c = record c {
  tsbpd = false;
  rcv_latency = 0;
  peer_latency = 0;
  tl_pkt_drop = false;
  snd_drop_delay = negsuc 0;
  message_api = false;
  rcv_nak_report = false;
  retransmit_algo = 0;
  exp_payload_size = 0;
  linger = record { onoff = pos 1; linger_s = pos def_linger_s };
  congestion = storage_set max_cong_length file_name c.congestion;
}

unfoldable pub set_transtype : SrtConfig → List ℕ → ℕ → Option SrtConfig
set_transtype c optval optlen = do
  val ← cast_u32 optval optlen
  if val == 0 then some (live_mode c) else if val == 1 then some (file_mode c) else none
