-- ===== src/Srtcore/SeqNo.antt =====
-- srt-1.5.6/srtcore/common.h: the circular 31-bit sequence numbers (CSeqNo, CAckNo).
-- A sequence number is an int32_t from 0 to 2^31 - 1. The differences that the functions compute
-- then fit an int32_t, so that they are integers without wrap-around.
pub mod Circular
use srt_vpn.Prelude.{ℕ, ◌+◌, ◌-◌, ◌*◌, ◌^◌, Bool, true, false, ltb, leb, ◌==◌, if◌then◌else◌, not}
use srt_vpn.Prelude.Ints.{ℤ, minus, distance, is_negative}

abbrev pub seq_no_th : ℕ
seq_no_th = 0x3FFFFFFF

abbrev pub max_seq_no : ℕ
max_seq_no = 0x7FFFFFFF

unfoldable pub seqcmp : ℕ → ℕ → ℤ
seqcmp seq1 seq2 = if ltb (distance seq1 seq2) seq_no_th then minus seq1 seq2 else minus seq2 seq1

unfoldable pub seqlen : ℕ → ℕ → ℕ
seqlen seq1 seq2 = if leb seq1 seq2 then seq2 - seq1 + 1 else seq2 + max_seq_no + 2 - seq1

unfoldable pub seqoff : ℕ → ℕ → ℤ
seqoff seq1 seq2 =
    if ltb (distance seq1 seq2) seq_no_th
    then minus seq2 seq1
    else if ltb seq1 seq2
    then minus seq2 (seq1 + max_seq_no + 1)
    else minus (seq2 + max_seq_no + 1) seq1

unfoldable pub incseq : ℕ → ℕ
incseq seq = if seq == max_seq_no then 0 else seq + 1

unfoldable pub decseq : ℕ → ℕ
decseq seq = if seq == 0 then max_seq_no else seq - 1

-- `incseq(seq, inc)` and `decseq(seq, dec)`, with a step that is not negative
unfoldable pub incseq_by : ℕ → ℕ → ℕ
incseq_by seq inc = if leb inc (max_seq_no - seq) then seq + inc else seq + inc - max_seq_no - 1

unfoldable pub decseq_by : ℕ → ℕ → ℕ
decseq_by seq dec = if ltb seq dec then max_seq_no - (dec - seq) + 1 else seq - dec

unfoldable pub maxseq : ℕ → ℕ → ℕ
maxseq seq1 seq2 = if is_negative (seqcmp seq1 seq2) then seq2 else seq1

-- `CAckNo::incack`
unfoldable pub incack : ℕ → ℕ
incack ackno = if ackno == max_seq_no then 0 else ackno + 1
