-- ===== src/Tests/Sequence.antt =====
-- srt-1.5.6/srtcore/common.h: sequence and message numbers at the ends of their ranges.
use srt_vpn.Prelude.{◌+◌, ◌-◌, ◌%◌, ◌^◌, ◌≡◌, arith}
use srt_vpn.Prelude.Ints.{pos}
use srt_vpn.Srtcore.SeqNo.{incseq_by, decseq_by, max_seq_no}
use srt_vpn.Srtcore.SeqNo.Circular.{steps_circular}
use srt_vpn.Srtcore.RollNumber.{msg_no_over, msg_no_min, roll_inc, roll_dec, roll_add}
use srt_vpn.Srtcore.RollNumber.Rolling.{IsMsgNo, roll_steps}

steps_circular_example :
    (incseq_by max_seq_no 3 ≡ (max_seq_no + 3) % 2 ^ 31)
    × (decseq_by max_seq_no 3 ≡ (max_seq_no + 2 ^ 31 - 3) % 2 ^ 31)
    × (decseq_by (incseq_by max_seq_no 3) 3 ≡ max_seq_no)
    × (incseq_by (decseq_by max_seq_no 3) 3 ≡ max_seq_no)
steps_circular_example = steps_circular max_seq_no 3 (omega arith) (omega arith)

roll_steps_example :
    IsMsgNo (roll_inc msg_no_over msg_no_min 0x3FFFFFF)
    × IsMsgNo (roll_dec msg_no_over msg_no_min 0x3FFFFFF)
    × (roll_dec msg_no_over msg_no_min (roll_inc msg_no_over msg_no_min 0x3FFFFFF) ≡ 0x3FFFFFF)
    × (roll_inc msg_no_over msg_no_min (roll_dec msg_no_over msg_no_min 0x3FFFFFF) ≡ 0x3FFFFFF)
    × (roll_add msg_no_over msg_no_min 0x3FFFFFF (pos 1)
        ≡ roll_inc msg_no_over msg_no_min 0x3FFFFFF)
roll_steps_example = roll_steps 0x3FFFFFF (omega arith, omega arith)
