-- ===== src/Srtcore/RollNumber/Rolling.antt =====
-- srt-1.5.6/srtcore/common.h: message numbers roll through 1 to 2^26 - 1.
use srt_vpn.Prelude.{
  ℕ, ◌+◌, ◌-◌, ◌%◌, ◌^◌, ◌≤◌, ◌<◌, ◌≡◌, ◌≢◌, ◌⊎◌, inl, inr, ℕ_eq-cases, arith, ltb,
}
use srt_vpn.Prelude.Ints.{pos, negsuc, neg}
use srt_vpn.Srtcore.RollNumber.{
  msg_no_over, msg_no_min, roll_diff, roll_lt, roll_inc, roll_dec, roll_add, half,
}

-- A message number: 1 to 2^26 - 1.
abbrev pub IsMsgNo : ℕ → Type 0
IsMsgNo n = (msg_no_min ≤ n) × (n < msg_no_over)

-- The step forward and the step back keep message numbers in range and undo one another, and the
-- step forward is an addition of 1.
pub roll_steps :
    (n : ℕ)
    → IsMsgNo n
    → IsMsgNo (roll_inc msg_no_over msg_no_min n)
      × IsMsgNo (roll_dec msg_no_over msg_no_min n)
      × (roll_dec msg_no_over msg_no_min (roll_inc msg_no_over msg_no_min n) ≡ n)
      × (roll_inc msg_no_over msg_no_min (roll_dec msg_no_over msg_no_min n) ≡ n)
      × (roll_add msg_no_over msg_no_min n (pos 1) ≡ roll_inc msg_no_over msg_no_min n)
unfolding roll_inc roll_dec roll_add
roll_steps n h = (ground arith, ground arith, ground arith, ground arith, ground arith)

-- The addition of a number `k` below half the range, 2^25 - 1, rolls through the range, and the
-- difference of the result and the message number is `k`; the other way round it is -`k`. The
-- result is later, unless `k` is 0.
pub roll_diff-roll_add :
    (n k : ℕ)
    → IsMsgNo n
    → k < half msg_no_over msg_no_min
    → let m = roll_add msg_no_over msg_no_min n (pos k) in
      IsMsgNo m
      × (m ≡ (n - 1 + k) % (2 ^ 26 - 1) + 1)
      × (roll_diff msg_no_over msg_no_min m n ≡ pos k)
      × (roll_diff msg_no_over msg_no_min n m ≡ neg (pos k))
      × (roll_lt msg_no_over msg_no_min n m ≡ ltb 0 k)
unfolding roll_diff roll_add roll_lt
roll_diff-roll_add n k h lt = (ground arith, ground arith, ground arith, ground arith, ground arith)

-- The addition of a negative number -(`d` + 1) rolls back as well, unless it is minus the message
-- number itself: then the result is 0, which is no message number.
pub roll_add-negative :
    (n d : ℕ)
    → IsMsgNo n
    → d + 1 < 2 ^ 26 - 1
    → let m = roll_add msg_no_over msg_no_min n (negsuc d) in
      ((n ≡ d + 1) × (m ≡ 0))
      ⊎ ((n ≢ d + 1) × IsMsgNo m × (m ≡ (n - 1 + (2 ^ 26 - 1) - (d + 1)) % (2 ^ 26 - 1) + 1))
unfolding roll_add
roll_add-negative n d h lt = elim (ℕ_eq-cases n (d + 1)) [
  | inl e ↦ inl (e, ground arith)
  | inr ne ↦ inr (ne, ground arith, ground arith)
]
