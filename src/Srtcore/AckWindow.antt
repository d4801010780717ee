-- ===== src/Srtcore/AckWindow.antt =====
-- srt-1.5.6/srtcore/window.h and window.cpp: the window of the ACKs that were sent (CACKWindow), a
-- circular buffer. A time is a number of microseconds on the steady clock, which does not go back.
pub mod Queue
pub mod Contents
pub mod Refines
pub mod Runs
pub mod InTime
use srt_vpn.Prelude.{
  ℕ, zero, suc, ◌+◌, ◌-◌, ◌%◌, ◌^◌, Bool, true, false, Option, none, some, List, ltb, leb, ◌==◌,
  if◌then◌else◌, get_or, set_elem, replicate,
}
use srt_vpn.Prelude.Ints.{ℤ, pos, negsuc, int_eq}
use srt_vpn.Srtcore.Config.Cast.{signed32}

-- `ACK_WND_SIZE` of core.h, the SIZE of the window
abbrev pub ack_wnd_size : ℕ
ack_wnd_size = 1024

-- `ACKWindowTools::Seq`; SRT_SEQNO_NONE is -1.
pub record AckSeq : Type 0 where
  pub ack_seq_no : ℤ
  pub ack : ℕ
  pub time_stamp : ℕ

pub record AckWindow : Type 0 where
  pub seqs : List AckSeq
  pub head : ℕ
  pub tail : ℕ

-- `Seq()`
abbrev pub zero_seq : AckSeq
zero_seq = record { ack_seq_no = pos 0; ack = 0; time_stamp = 0 }

abbrev pub seq_at : AckWindow → ℕ → AckSeq
seq_at w i = get_or w.seqs i zero_seq

-- `m_aSeq[i].iACKSeqNo = SRT_SEQNO_NONE`
abbrev pub clear_seq : List AckSeq → ℕ → List AckSeq
clear_seq seqs i = set_elem seqs i (record (get_or seqs i zero_seq) { ack_seq_no = negsuc 0 })

-- `CACKWindow()`
unfoldable pub new_window : AckWindow
new_window = record { seqs = clear_seq (replicate ack_wnd_size zero_seq) 0; head = 0; tail = 0 }

unfoldable pub store : AckWindow → ℤ → ℕ → ℕ → AckWindow
store w seq ack now =
    let seqs = set_elem w.seqs w.head (record { ack_seq_no = seq; ack = ack; time_stamp = now }) in
    let head = (w.head + 1) % ack_wnd_size in
    let tail = if head == w.tail then (w.tail + 1) % ack_wnd_size else w.tail in
    record { seqs = seqs; head = head; tail = tail }

-- The search of both loops, from `i` on for `n` rounds; `at` is the place of a round.
unfoldable pub search_seq : AckWindow → (ℕ → ℕ) → ℤ → ℕ → ℕ → Option ℕ
search_seq w at seq i zero = none
search_seq w at seq i (suc n) =
    let rest = search_seq w at seq (i + 1) n in
    if int_eq seq (seq_at w (at i)).ack_seq_no then some (at i) else rest

-- The RTT, or -1, with the ack that is found.
unfoldable pub rtt_of : AckSeq → ℕ → ℤ
rtt_of s currtime = signed32 ((currtime - s.time_stamp) % 2 ^ 32)

-- What follows in each loop when the record is found: `last` is the test that empties the window.
unfoldable pub take_record : AckWindow → ℕ → ℕ → Bool → (ℤ × Option ℕ) × AckWindow
take_record w currtime i last = (
  (rtt_of (seq_at w i) currtime, some (seq_at w i).ack),
  if last
      then record { seqs = clear_seq w.seqs 0; head = 0; tail = 0 }
      else record w { tail = (i + 1) % ack_wnd_size },
)

unfoldable pub acknowledge : AckWindow → ℤ → ℕ → (ℤ × Option ℕ) × AckWindow
acknowledge w seq currtime =
    if leb w.tail w.head
    then elim (search_seq w (λ i. i) seq w.tail (w.head - w.tail)) [
      | none ↦ ((negsuc 0, none), w)
      | some i ↦ take_record w currtime i (i + 1 == w.head)
    ]
    else elim (search_seq w (λ j. j % ack_wnd_size) seq w.tail (w.head + ack_wnd_size - w.tail)) [
      | none ↦ ((negsuc 0, none), w)
      | some j ↦ take_record w currtime j (j == w.head)
    ]
