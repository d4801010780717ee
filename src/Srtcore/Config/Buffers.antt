-- ===== src/Srtcore/Config/Buffers.antt =====
-- srt-1.5.6/srtcore/socketconfig.cpp: the setters of the sizes. A setter is `none` where it throws
-- CUDTException(MJ_NOTSUP, MN_INVAL), which each does before it changes the configuration.
use srt_vpn.Prelude.{
  ℕ, ◌+◌, ◌-◌, ◌*◌, ◌/◌, ◌%◌, ◌^◌, Option, none, some, ◌>>=◌, List, ltb, if◌then◌else◌, max,
}
use srt_vpn.Prelude.Ints.{pos, int_lt, to_nat}
use srt_vpn.Srtcore.Config.{SrtConfig, udp_hdr_size, content_size, def_min_flight_pkt}
use srt_vpn.Srtcore.Config.Cast.{cast_int, le_i32, signed32, sized}

-- `RcvBufferSizeOptionToValue`, for a value that is not negative. The product of two ints wraps
-- around, as it does where the overflow is not trapped.
unfoldable pub rcv_buffer_size_option_to_value : ℕ → ℕ → ℕ → ℕ
rcv_buffer_size_option_to_value val flightflag mss =
    let mssin_size = mss - udp_hdr_size in
    let least = signed32 (mssin_size * def_min_flight_pkt % 2 ^ 32) in
    let bufsize = if int_lt least (pos val) then val / mssin_size else def_min_flight_pkt in
    if ltb flightflag bufsize then flightflag else bufsize

-- `if (co.iMSS > bound) co.iMSS = bound;`
unfoldable pub lower_to : ℕ → ℕ → ℕ
lower_to bound mss = if ltb bound mss then bound else mss

unfoldable pub set_mss : SrtConfig → List ℕ → ℕ → Option SrtConfig
set_mss c optval optlen = do
  ival ← cast_int optval optlen
  if int_lt ival (pos (udp_hdr_size + content_size))
      then none
      else some (record c {
        mss = lower_to c.muxer.udp_rcv_buf_size (lower_to c.muxer.udp_snd_buf_size (to_nat ival));
      })

unfoldable pub set_fc : SrtConfig → List ℕ → ℕ → Option SrtConfig
set_fc c optval optlen = do
  val ← cast_int optval optlen
  if int_lt val (pos def_min_flight_pkt)
      then none
      else some (record c { flight_flag_size = to_nat val })

unfoldable pub set_sndbuf : SrtConfig → List ℕ → ℕ → Option SrtConfig
set_sndbuf c optval optlen = do
  val ← cast_int optval optlen
  if int_lt val (pos 1)
      then none
      else some (record c { snd_buf_size = to_nat val / (c.mss - udp_hdr_size) })

unfoldable pub set_rcvbuf : SrtConfig → List ℕ → ℕ → Option SrtConfig
set_rcvbuf c optval optlen = do
  val ← cast_int optval optlen
  if int_lt val (pos 1)
      then none
      else some (record c {
        rcv_buf_size = rcv_buffer_size_option_to_value (to_nat val) c.flight_flag_size c.mss;
      })

unfoldable pub set_linger : SrtConfig → List ℕ → ℕ → Option SrtConfig
set_linger c optval optlen = do
  val ← sized 8 optlen (record { onoff = le_i32 optval 0; linger_s = le_i32 optval 4 })
  some (record c { linger = val })

unfoldable pub set_udp_sndbuf : SrtConfig → List ℕ → ℕ → Option SrtConfig
set_udp_sndbuf c optval optlen = do
  val ← cast_int optval optlen
  some (record c { muxer = record (c.muxer) { udp_snd_buf_size = max c.mss (to_nat val) } })

unfoldable pub set_udp_rcvbuf : SrtConfig → List ℕ → ℕ → Option SrtConfig
set_udp_rcvbuf c optval optlen = do
  val ← cast_int optval optlen
  some (record c { muxer = record (c.muxer) { udp_rcv_buf_size = max c.mss (to_nat val) } })
