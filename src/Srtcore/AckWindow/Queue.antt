-- ===== src/Srtcore/AckWindow/Queue.antt =====
-- What the window of ACKs promises: a queue of records, oldest first, that forgets the oldest when
-- it is full, and out of which an ACKACK takes its record with all the older ones.
use srt_vpn.Prelude.{ℕ, Option, none, some, List, [], ◌∷◌, ◌++◌, length, drop, ◌==◌, if◌then◌else◌}
use srt_vpn.Prelude.Ints.{ℤ, negsuc, int_eq}
use srt_vpn.Srtcore.AckWindow.{AckSeq, rtt_of}

abbrev pub Queue : Type 0
Queue = List AckSeq

-- One place of the buffer stays free.
abbrev pub capacity : ℕ
capacity = 1023

abbrev pub queue_store : Queue → AckSeq → Queue
queue_store q r = if length q == capacity then drop 1 (q ++ (r ∷ [])) else q ++ (r ∷ [])

-- The first record of that number, and those after it.
abbrev pub queue_find : Queue → ℤ → Option (AckSeq × Queue)
queue_find [] seq = none
queue_find (x ∷ xs) seq =
    let rest = queue_find xs seq in if int_eq seq x.ack_seq_no then some (x, xs) else rest

abbrev pub found_result : ℕ → Queue → Option (AckSeq × Queue) → (ℤ × Option ℕ) × Queue
found_result currtime q none = ((negsuc 0, none), q)
found_result currtime q (some (x, xs)) = ((rtt_of x currtime, some (x.ack)), xs)

abbrev pub queue_acknowledge : Queue → ℤ → ℕ → (ℤ × Option ℕ) × Queue
queue_acknowledge q seq currtime = found_result currtime q (queue_find q seq)
