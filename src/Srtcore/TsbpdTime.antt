-- ===== src/Srtcore/TsbpdTime.antt =====
-- srt-1.5.6/srtcore/tsbpd_time.cpp: the times at which packets are delivered (CTsbpdTime). A time
-- is a number of microseconds on the steady clock. The members of the drift tracer that other
-- functions read are the field `drift`; the locks are not modelled.
pub mod Unwrap
use srt_vpn.Prelude.{
  ℕ, ◌+◌, ◌-◌, ◌*◌, Bool, true, false, List, [], ◌∷◌, ltb, leb, ◌&&◌, if◌then◌else◌,
}
use srt_vpn.Prelude.Ints.{ℤ, pos, negsuc, minus}

pub record TsbpdTime : Type 0 where
  pub tsb_pd_mode : Bool
  pub wrap_check : Bool
  pub time_base : ℕ
  pub delay : ℕ
  pub drift : ℤ

-- `CPacket::MAX_TIMESTAMP` and `TSBPD_WRAP_PERIOD`
abbrev pub max_timestamp : ℕ
max_timestamp = 0xFFFFFFFF

abbrev pub wrap_period : ℕ
wrap_period = 30000000

-- `setTsbPdMode`
unfoldable pub set_tsb_pd_mode : TsbpdTime → ℕ → Bool → ℕ → TsbpdTime
set_tsb_pd_mode s timebase wrap delay_us = record s {
  tsb_pd_mode = true;
  wrap_check = wrap;
  time_base = timebase;
  delay = delay_us;
}

-- `applyGroupTime` and `applyGroupDrift`
unfoldable pub apply_group_time : TsbpdTime → ℕ → Bool → ℕ → ℤ → TsbpdTime
apply_group_time s timebase wrp delay_us udrift = record {
  tsb_pd_mode = true;
  wrap_check = wrp;
  time_base = timebase;
  delay = delay_us;
  drift = udrift;
}

unfoldable pub apply_group_drift : TsbpdTime → ℕ → Bool → ℤ → TsbpdTime
apply_group_drift s timebase wrp udrift = record s {
  time_base = timebase;
  wrap_check = wrp;
  drift = udrift;
}

-- `getBaseTimeNoLock`, which `getBaseTime` calls
unfoldable pub get_base_time : TsbpdTime → ℕ → ℕ
get_base_time s timestamp_us =
    let carryover_us =
      if s.wrap_check && leb timestamp_us (2 * wrap_period) then max_timestamp + 1 else 0 in
    s.time_base + carryover_us

-- `getPktBaseTimeNoLock`, which `getPktBaseTime` calls
unfoldable pub get_pkt_base_time : TsbpdTime → ℕ → ℕ
get_pkt_base_time s us_pkt_timestamp = get_base_time s us_pkt_timestamp + us_pkt_timestamp

-- A time moved by a drift.
abbrev pub moved : ℕ → ℤ → ℤ
moved n (pos m) = pos (n + m)
moved n (negsuc m) = minus n (m + 1)

unfoldable pub get_pkt_time : TsbpdTime → ℕ → ℤ
get_pkt_time s us_pkt_timestamp = moved (get_pkt_base_time s us_pkt_timestamp + s.delay) s.drift

unfoldable pub update_base_time : TsbpdTime → ℕ → TsbpdTime
update_base_time s us_pkt_timestamp =
    if s.wrap_check
    then if leb wrap_period us_pkt_timestamp && leb us_pkt_timestamp (wrap_period * 2)
      then record s { wrap_check = false; time_base = s.time_base + (max_timestamp + 1) }
      else s
    else if ltb (max_timestamp - wrap_period) us_pkt_timestamp
    then record s { wrap_check = true }
    else s

-- `getInternalTimeBase`
unfoldable pub get_internal_time_base : TsbpdTime → ℕ × Bool × ℤ
get_internal_time_base s = (s.time_base, s.wrap_check, s.drift)

-- Packets one after another: the base time of each is read, then it moves the base.
unfoldable pub base_times : TsbpdTime → List ℕ → List ℕ
base_times s [] = []
base_times s (t ∷ ts) = get_pkt_base_time s t ∷ base_times (update_base_time s t) ts
