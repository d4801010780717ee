-- ===== src/Srtcore/Config/Valid/Sizes.antt =====
-- What the setters of the sizes keep.
use srt_vpn.Prelude.{ℕ, ◌-◌, ◌≤◌, ◌<◌, ◌⊎◌, inl, inr, List, arith, ltb, Bool-cases}
use srt_vpn.Prelude.Ints.{ℤ, pos, int_lt, to_nat, at_least-to_nat}
use native.Mathlib.Nat.{le-div_iff_mul-le, le-max_left as le_max_left}
use srt_vpn.Srtcore.Config.{SrtConfig, def_min_flight_pkt}
use srt_vpn.Srtcore.Config.Cast.{cast_int, le_i32}
use srt_vpn.Srtcore.Config.Leaves.{Leaves-sized, Leaves-bind, Leaves-if, Leaves-some}
use srt_vpn.Srtcore.Config.Valid.{IsValid, Keeps, mss_sound}
use srt_vpn.Srtcore.Config.Buffers.{
  rcv_buffer_size_option_to_value, lower_to, set_mss, set_fc, set_rcvbuf, set_udp_sndbuf,
  set_udp_rcvbuf,
}

pub rcv_buffer_size_min :
    (val fc mss : ℕ)
    → 76 ≤ mss
    → mss ≤ mss_sound
    → 32 ≤ fc
    → 32 ≤ rcv_buffer_size_option_to_value val fc mss
unfolding rcv_buffer_size_option_to_value
rcv_buffer_size_min val fc mss h small k =
    ground (arith, (le-div_iff_mul-le {k = mss - 28} {x = 32} {y = val} (omega arith)).1)

lower_to-le : (bound x : ℕ) → lower_to bound x ≤ bound
unfolding lower_to
lower_to-le bound x = ground arith

lower_to-le_self : (bound x : ℕ) → lower_to bound x ≤ x
unfolding lower_to
lower_to-le_self bound x = ground arith

le-lower_to : (k bound x : ℕ) → k ≤ bound → k ≤ x → k ≤ lower_to bound x
unfolding lower_to
le-lower_to k bound x h i = ground arith

module _ {cap : ℕ} (c : SrtConfig) (v : IsValid cap c) (optval : List ℕ) (optlen : ℕ) where
  pub set_mss-Keeps : to_nat (le_i32 optval 0) ≤ cap → Keeps cap (set_mss c optval optlen)
  unfolding set_mss
  set_mss-Keeps asked = Leaves-sized 4 optlen z _ (
      Leaves-if (int_lt z (pos 76)) _ (λ h. Leaves-some _ (
        (
          le-lower_to 76 rcv (lower_to snd (to_nat z)) (omega arith)
              (le-lower_to 76 snd (to_nat z) (omega arith) (at_least-to_nat z 76 h)),
          omega (arith, lower_to-le snd (to_nat z), lower_to-le_self rcv (lower_to snd (to_nat z))),
          lower_to-le rcv (lower_to snd (to_nat z)),
          v.0.3,
          v.0.4,
          v.0.5,
          omega (
            arith,
            lower_to-le_self snd (to_nat z),
            lower_to-le_self rcv (lower_to snd (to_nat z)),
          ),
        ),
        v.1,
        v.2,
        v.3,
      )))
    where
      z : ℤ
      z = le_i32 optval 0

      snd : ℕ
      snd = c.muxer.udp_snd_buf_size

      rcv : ℕ
      rcv = c.muxer.udp_rcv_buf_size

  pub set_fc-Keeps : Keeps cap (set_fc c optval optlen)
  unfolding set_fc
  set_fc-Keeps = Leaves-bind (cast_int optval optlen) _ (λ z.
      Leaves-if (int_lt z (pos def_min_flight_pkt)) _ (λ h.
        Leaves-some _
          ((v.0.0, v.0.1, v.0.2, at_least-to_nat z 32 h, v.0.4, v.0.5, v.0.6), v.1, v.2, v.3)))

  big_or_32 :
      (val : ℕ)
      → (mss_sound < cap) ⊎ (32 ≤ rcv_buffer_size_option_to_value val c.flight_flag_size c.mss)
  big_or_32 val = elim (Bool-cases (ltb mss_sound cap)) [
    | inl big ↦ inl (ground (arith, big))
    | inr small ↦ inr (
        rcv_buffer_size_min val c.flight_flag_size c.mss v.0.0 (ground (arith, small, v.0.6)) v.0.3)
  ]

  pub set_rcvbuf-Keeps : Keeps cap (set_rcvbuf c optval optlen)
  unfolding set_rcvbuf
  set_rcvbuf-Keeps = Leaves-bind (cast_int optval optlen) _ (λ z.
      Leaves-if (int_lt z (pos 1)) _ (λ h.
        Leaves-some _
          ((v.0.0, v.0.1, v.0.2, v.0.3, big_or_32 (to_nat z), v.0.5, v.0.6), v.1, v.2, v.3)))

  pub set_udp_sndbuf-Keeps : Keeps cap (set_udp_sndbuf c optval optlen)
  unfolding set_udp_sndbuf
  set_udp_sndbuf-Keeps = Leaves-bind (cast_int optval optlen) _ (λ z.
      Leaves-some _
        ((v.0.0, le_max_left c.mss (to_nat z), v.0.2, v.0.3, v.0.4, v.0.5, v.0.6), v.1, v.2, v.3))

  pub set_udp_rcvbuf-Keeps : Keeps cap (set_udp_rcvbuf c optval optlen)
  unfolding set_udp_rcvbuf
  set_udp_rcvbuf-Keeps = Leaves-bind (cast_int optval optlen) _ (λ z.
      Leaves-some _
        ((v.0.0, v.0.1, le_max_left c.mss (to_nat z), v.0.3, v.0.4, v.0.5, v.0.6), v.1, v.2, v.3))
