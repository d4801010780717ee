-- ===== src/Srtcore/SeqNo/Circular.antt =====
-- srt-1.5.6/srtcore/common.h: the arithmetic of sequence numbers is that of a circle of 2^31.
use srt_vpn.Prelude.{ℕ, ◌+◌, ◌-◌, ◌%◌, ◌^◌, ◌≤◌, ◌≡◌, arith}
use srt_vpn.Prelude.Ints.{ℤ, pos, negsuc}
use srt_vpn.Srtcore.SeqNo.{seqoff, incseq_by, decseq_by, max_seq_no, seq_no_th}

-- A step forward by up to 2^31 - 1 and a step back by as much are sums modulo 2^31, and undo one
-- another.
pub steps_circular :
    (seq k : ℕ)
    → seq ≤ max_seq_no
    → k ≤ max_seq_no
    → (incseq_by seq k ≡ (seq + k) % 2 ^ 31)
      × (decseq_by seq k ≡ (seq + 2 ^ 31 - k) % 2 ^ 31)
      × (decseq_by (incseq_by seq k) k ≡ seq)
      × (incseq_by (decseq_by seq k) k ≡ seq)
unfolding incseq_by decseq_by
steps_circular seq k h hk = (ground arith, ground arith, ground arith, ground arith)

-- The number that an offset leads to.
abbrev pub moved : ℕ → ℤ → ℕ
moved seq (pos k) = incseq_by seq k
moved seq (negsuc k) = decseq_by seq (k + 1)

-- At a distance of 2^30 - 1 steps forward, which the precondition in the comment admits, `seqoff`
-- gives -(2^30 + 1) if the numbers do not wrap around on the way: it takes the later number for the
-- earlier one.
pub seqoff-at_threshold :
    (seq : ℕ)
    → seq + seq_no_th ≤ max_seq_no
    → seqoff seq (incseq_by seq seq_no_th) ≡ negsuc (2 ^ 30)
unfolding seqoff incseq_by
seqoff-at_threshold seq h = ground arith
