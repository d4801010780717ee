-- ===== src/Srtcore/Config/Network.antt =====
-- srt-1.5.6/srtcore/socketconfig.cpp: the setters of the modes of calls, the addresses, the
-- bandwidth and the time limits.
use srt_vpn.Prelude.{ℕ, not, Option, none, some, ◌>>=◌, List, leb, ◌&&◌, ◌||◌, if◌then◌else◌, take}
use srt_vpn.Prelude.Ints.{pos, negsuc, int_lt, int_eq, to_nat}
use srt_vpn.Srtcore.Config.{SrtConfig}
use srt_vpn.Srtcore.Config.Cast.{cast_int, cast_i64, cast_bool}

-- `IFNAMSIZ` of net/if.h
abbrev pub ifnamsiz : ℕ
ifnamsiz = 16

unfoldable pub set_rendezvous : SrtConfig → List ℕ → ℕ → Option SrtConfig
set_rendezvous c optval optlen = some (record c { rendezvous = cast_bool optval optlen })

unfoldable pub set_sndtimeo : SrtConfig → List ℕ → ℕ → Option SrtConfig
set_sndtimeo c optval optlen = do
  val ← cast_int optval optlen
  if int_lt val (negsuc 0) then none else some (record c { snd_time_out = val })

unfoldable pub set_rcvtimeo : SrtConfig → List ℕ → ℕ → Option SrtConfig
set_rcvtimeo c optval optlen = do
  val ← cast_int optval optlen
  if int_lt val (negsuc 0) then none else some (record c { rcv_time_out = val })

unfoldable pub set_sndsyn : SrtConfig → List ℕ → ℕ → Option SrtConfig
set_sndsyn c optval optlen = some (record c { syn_sending = cast_bool optval optlen })

unfoldable pub set_rcvsyn : SrtConfig → List ℕ → ℕ → Option SrtConfig
set_rcvsyn c optval optlen = some (record c { syn_recving = cast_bool optval optlen })

unfoldable pub set_reuseaddr : SrtConfig → List ℕ → ℕ → Option SrtConfig
set_reuseaddr c optval optlen =
    some (record c { muxer = record (c.muxer) { reuse_addr = cast_bool optval optlen } })

unfoldable pub set_maxbw : SrtConfig → List ℕ → ℕ → Option SrtConfig
set_maxbw c optval optlen = do
  val ← cast_i64 optval optlen
  if int_lt val (negsuc 0) then none else some (record c { max_bw = val })

unfoldable pub set_ipttl : SrtConfig → List ℕ → ℕ → Option SrtConfig
set_ipttl c optval optlen = do
  val ← cast_int optval optlen
  if not (int_eq val (negsuc 0)) && not (not (int_lt val (pos 1)) && not (int_lt (pos 255) val))
      then none
      else some (record c { muxer = record (c.muxer) { ip_ttl = val } })

unfoldable pub set_iptos : SrtConfig → List ℕ → ℕ → Option SrtConfig
set_iptos c optval optlen = do
  val ← cast_int optval optlen
  some (record c { muxer = record (c.muxer) { ip_to_s = val } })

unfoldable pub set_bindtodevice : SrtConfig → List ℕ → ℕ → Option SrtConfig
set_bindtodevice c optval optlen =
    if leb ifnamsiz optlen
    then none
    else some (record c { muxer = record (c.muxer) { bind_to_device = take optlen optval } })

unfoldable pub set_inputbw : SrtConfig → List ℕ → ℕ → Option SrtConfig
set_inputbw c optval optlen = do
  val ← cast_i64 optval optlen
  if int_lt val (pos 0) then none else some (record c { input_bw = to_nat val })

unfoldable pub set_mininputbw : SrtConfig → List ℕ → ℕ → Option SrtConfig
set_mininputbw c optval optlen = do
  val ← cast_i64 optval optlen
  if int_lt val (pos 0) then none else some (record c { min_input_bw = to_nat val })

unfoldable pub set_oheadbw : SrtConfig → List ℕ → ℕ → Option SrtConfig
set_oheadbw c optval optlen = do
  val ← cast_int optval optlen
  if int_lt val (pos 5) || int_lt (pos 100) val
      then none
      else some (record c { overhead_bw = to_nat val })

unfoldable pub set_ipv6only : SrtConfig → List ℕ → ℕ → Option SrtConfig
set_ipv6only c optval optlen = do
  val ← cast_int optval optlen
  some (record c { muxer = record (c.muxer) { ip_v6_only = val } })

unfoldable pub set_conntimeo : SrtConfig → List ℕ → ℕ → Option SrtConfig
set_conntimeo c optval optlen = do
  val ← cast_int optval optlen
  if int_lt val (pos 0) then none else some (record c { conn_time_out = to_nat val })

unfoldable pub set_peeridletimeo : SrtConfig → List ℕ → ℕ → Option SrtConfig
set_peeridletimeo c optval optlen = do
  val ← cast_int optval optlen
  if int_lt val (pos 0) then none else some (record c { peer_idle_timeout_ms = to_nat val })

unfoldable pub set_drifttracer : SrtConfig → List ℕ → ℕ → Option SrtConfig
set_drifttracer c optval optlen = some (record c { drift_tracer = cast_bool optval optlen })
