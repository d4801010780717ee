-- ===== src/Tests/Acks.antt =====
-- Runs of the window of ACKs.
use srt_vpn.Prelude.{arith, ℕ, Option, none, some, List, [], ◌∷◌, ◌≡◌, refl}
use srt_vpn.Prelude.Ints.{ℤ, pos, negsuc}
use srt_vpn.Srtcore.AckWindow.{rtt_of, new_window, store, acknowledge}
use srt_vpn.Srtcore.AckWindow.Contents.{new_window-IsValid}
use srt_vpn.Srtcore.AckWindow.Refines.{sent_at}
use srt_vpn.Srtcore.AckWindow.InTime.{store_all, acknowledge_in_time}
use srt_vpn.Srtcore.AckWindow.Runs.{WindowCall, run_window, run_queue, run_window_refines}

-- Two ACKs, the ACKACK of the second, and then that of the first, which is forgotten.
abbrev two_acks : List WindowCall
two_acks =
    WindowCall.store_call (pos 1) 100 1000
    ∷ WindowCall.store_call (pos 2) 200 2000
    ∷ WindowCall.acknowledge_call (pos 2) 2500
    ∷ WindowCall.acknowledge_call (pos 1) 2600
    ∷ []

abbrev results : List (ℤ × Option ℕ)
results = (pos 500, some 200) ∷ (negsuc 0, none) ∷ []

queue_results : run_queue [] two_acks ≡ results
unfolding run_queue rtt_of
queue_results = refl

run_window_refines_example : run_window new_window two_acks ≡ run_queue [] two_acks
run_window_refines_example = run_window_refines two_acks

-- An ACK with one more after it, in a new window.
abbrev one_later : List (ℤ × ℕ × ℕ)
one_later = (pos 2, 200, 2000) ∷ []

acknowledge_in_time_example :
    (acknowledge (store_all (store new_window (pos 1) 100 1000) one_later) (pos 1) 2500).0
    ≡ (rtt_of (sent_at (pos 1) 100 1000) 2500, some 100)
unfolding new_window
acknowledge_in_time_example =
    acknowledge_in_time new_window (pos 1) 100 1000 2500 one_later new_window-IsValid tt
      (omega arith)
