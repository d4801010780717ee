-- ===== src/Srtcore/Socket/SndBuf.antt =====
-- The size of the sender's buffer, which is stored in packets.
use srt_vpn.Prelude.{
  ℕ, ◌+◌, ◌-◌, ◌*◌, ◌/◌, ◌^◌, ◌≤◌, ◌<◌, List, ltb, ◌≡◌, ap, sym, subst, arith, inl, inr, Bool-cases,
  ltb→lt,
}
use native.Mathlib.Nat.{div-add-mod', mod-lt}
use srt_vpn.Prelude.Ints.{ℤ, pos, int_lt, to_nat}
use srt_vpn.Srtcore.Options.{SockOpt}
use srt_vpn.Srtcore.Config.{SrtConfig, bytes_per_pkt, udp_hdr_size}
use srt_vpn.Srtcore.Config.Cast.{le_u32, le_i32, signed32}
use srt_vpn.Srtcore.Config.Leaves.{Leaves, Leaves-some, Leaves-if, Leaves-sized}
use srt_vpn.Srtcore.Config.Buffers.{set_sndbuf}
use srt_vpn.Srtcore.Config.Payload.{Factory}
use srt_vpn.Srtcore.Config.Dispatch.{dispatch_set}
use srt_vpn.Srtcore.Config.Valid.{IsValid}
use srt_vpn.Srtcore.Socket.{Cudt, CcEvent, Outcome, set_opt}
use srt_vpn.Srtcore.Socket.GetOpt.{OptValue, Got, get_opt, to_int}
use srt_vpn.Srtcore.Socket.Calls.{set_opt-Accepted, returned_config}

to_int_small : (n : ℕ) → n < 2 ^ 31 → to_int n ≡ pos n
to_int_small n h = ground arith

to_nat-signed32 : (u : ℕ) → to_nat (signed32 u) < 2 ^ 31
to_nat-signed32 u = elim (Bool-cases (ltb u (2 ^ 31))) [
  | inl e ↦ rw e (ltb→lt u (2 ^ 31) e)
  | inr e ↦ rw e (omega arith)
]

-- The whole packets that fit, in bytes.
abbrev whole : SrtConfig → ℕ → ℕ
whole c bytes = bytes / bytes_per_pkt c * bytes_per_pkt c

-- What getOpt reads from a configuration.
abbrev ReadsWhole : Cudt → ℕ → SrtConfig → Type 0
ReadsWhole s bytes c =
    (r : ℤ) (room : ℕ)
    → get_opt (record s { config = c; reorder_tolerance = r }) SockOpt.sndbuf room
      ≡ Got.value (OptValue.int32 (pos (whole s.config bytes)))

read_sndbuf :
    (s : Cudt) (optval : List ℕ) (optlen : ℕ)
    → Leaves (ReadsWhole s (to_nat (le_i32 optval 0))) (set_sndbuf s.config optval optlen)
unfolding set_sndbuf get_opt bytes_per_pkt
read_sndbuf s optval optlen = Leaves-sized 4 optlen (le_i32 optval 0) _ (
    Leaves-if (int_lt (le_i32 optval 0) (pos 1)) _ (λ h. Leaves-some _ (λ r room.
      ap (λ x. Got.value (OptValue.int32 x))
        (to_int_small (whole s.config (to_nat (le_i32 optval 0))) (
          omega (
            arith,
            to_nat-signed32 (le_u32 optval 0),
            div-add-mod' (to_nat (le_i32 optval 0)) (s.config.mss - udp_hdr_size),
          ))))))

-- A call that sets SRTO_SNDBUF to a number of bytes stores the whole packets that they hold, of the
-- MSS without the UDP header: getOpt then reads at most as many bytes as were asked for, and less
-- than one packet fewer.
pub set_sndbuf-get_opt :
    {cap : ℕ} (filters : List (List ℕ × Factory)) (s a : Cudt) (es : List CcEvent) (optval : List ℕ)
    (optlen room bytes : ℕ)
    → IsValid cap s.config
    → le_i32 optval 0 ≡ pos bytes
    → set_opt filters s SockOpt.sndbuf optval optlen ≡ Outcome.done a es
    → (n : ℕ) × (get_opt a SockOpt.sndbuf room ≡ Got.value (OptValue.int32 (pos n)))
      × (n ≤ bytes)
      × (bytes < n + bytes_per_pkt s.config)
unfolding dispatch_set bytes_per_pkt
set_sndbuf-get_opt filters s a es optval optlen room bytes v b e =
    let acc = set_opt-Accepted filters s SockOpt.sndbuf optval optlen a es e in
    let bytes_are : to_nat (le_i32 optval 0) ≡ bytes = ap to_nat b in
    let after =
      returned_config (read_sndbuf s optval optlen) acc.setter_returned acc.tolerance room in
    (
      whole s.config bytes,
      subst
          (λ (x : Cudt).
            get_opt x SockOpt.sndbuf room ≡ Got.value (OptValue.int32 (pos (whole s.config bytes))))
          (sym acc.state_after)
          (subst
            (λ n.
              get_opt (record s { config = acc.new_config; reorder_tolerance = acc.tolerance })
                SockOpt.sndbuf room
              ≡ Got.value (OptValue.int32 (pos (whole s.config n))))
            bytes_are after),
      omega (arith, div-add-mod' bytes (s.config.mss - udp_hdr_size)),
      omega (
        arith,
        div-add-mod' bytes (s.config.mss - udp_hdr_size),
        mod-lt bytes {m = s.config.mss - udp_hdr_size} (omega (arith, v.0.0)),
      ),
    )
