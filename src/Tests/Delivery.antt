-- ===== src/Tests/Delivery.antt =====
-- Runs of the delivery times across the wrap-around of the timestamps.
use srt_vpn.Prelude.{ℕ, ◌+◌, true, false, List, [], ◌∷◌, map, ◌≡◌, refl, arith}
use srt_vpn.Prelude.Ints.{pos}
use srt_vpn.Srtcore.TsbpdTime.{TsbpdTime, base_times, get_pkt_base_time, get_base_time}
use srt_vpn.Srtcore.TsbpdTime.Unwrap.{Steady, stamp, base_times_unwrapped}

abbrev receiver : TsbpdTime
receiver = record {
  tsb_pd_mode = true;
  wrap_check = false;
  time_base = 5000;
  delay = 120000;
  drift = pos 0;
}

-- Two packets a second apart and one between them, out of order.
abbrev sent : List ℕ
sent = 0 ∷ 1000000 ∷ 500000 ∷ []

base_times_unwrapped_example : base_times receiver (map stamp sent) ≡ map (λ t. 5000 + t) sent
base_times_unwrapped_example = base_times_unwrapped receiver sent refl (
    Steady.next (omega arith) (omega arith) (
      Steady.next (omega arith) (omega arith)
        (Steady.next (omega arith) (omega arith) Steady.none)))

-- While the wrap is watched, a timestamp of 59 s counts as wrapped around.
late_in_period :
    get_pkt_base_time (record receiver { wrap_check = true }) 59000000 ≡ 4294967296 + 59005000
unfolding get_pkt_base_time get_base_time
late_in_period = refl
