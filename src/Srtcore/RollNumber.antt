-- ===== src/Srtcore/RollNumber.antt =====
-- srt-1.5.6/srtcore/common.h: RollNumber, a number that rolls over from `over` - 1 to `low`.
-- The template's constants OVER and MIN are the arguments `over` and `low`; the only instance is
-- MsgNo of packet.h. The number is a uint32_t, a delta an int32_t.
pub mod Rolling
use srt_vpn.Prelude.{ℕ, ◌+◌, ◌-◌, ◌/◌, ◌%◌, ◌^◌, Bool, true, false, ltb, leb, ◌==◌, if◌then◌else◌}
use srt_vpn.Prelude.Ints.{ℤ, pos, negsuc, minus}

-- MsgNo: RollNumber<25, 1>, with a mask of 26 bits
abbrev pub msg_no_over : ℕ
msg_no_over = 2 ^ 26

abbrev pub msg_no_min : ℕ
msg_no_min = 1

abbrev pub half : ℕ → ℕ → ℕ
half over low = (over - low) / 2

-- `Diff`
unfoldable pub roll_diff : ℕ → ℕ → ℕ → ℕ → ℤ
roll_diff over low left right =
    if ltb left right
    then (if leb (half over low) (right - left)
        then minus (left + (over - low)) right
        else minus left right)
    else (if leb (half over low) (left - right)
        then minus left (right + (over - low))
        else minus left right)

-- `operator<`
unfoldable pub roll_lt : ℕ → ℕ → ℕ → ℕ → Bool
roll_lt over low a b =
    if ltb (half over low) (b - a)
    then false
    else if ltb (half over low) (a - b)
    then true
    else ltb a b

-- `operator++` and `operator--`
unfoldable pub roll_inc : ℕ → ℕ → ℕ → ℕ
roll_inc over low n = if ltb (over - 1) (n + 1) then low else n + 1

unfoldable pub roll_dec : ℕ → ℕ → ℕ → ℕ
roll_dec over low n = if n == low then over - 1 else n - 1

-- `operator+=`: `-delta > number` holds only of a negative delta.
abbrev roll_wrap : ℕ → ℕ → ℕ → ℕ
roll_wrap over low m = if leb over m then m - (over - low) else m

unfoldable pub roll_add : ℕ → ℕ → ℕ → ℤ → ℕ
roll_add over low n (pos d) = roll_wrap over low ((n + d) % 2 ^ 32)
roll_add over low n (negsuc d) =
    if ltb n (d + 1)
    then (over - low + n + 2 ^ 32 - (d + 1)) % 2 ^ 32
    else roll_wrap over low (n - (d + 1))
