-- ===== src/Srtcore/AckWindow/Runs.antt =====
-- Calls one after another on the circular buffer and on the queue.
use srt_vpn.Prelude.{ℕ, Option, List, [], ◌∷◌, ◌≡◌, refl, ◌∙◌, ap}
use srt_vpn.Prelude.Ints.{ℤ}
use srt_vpn.Srtcore.AckWindow.{AckWindow, new_window, store, acknowledge}
use srt_vpn.Srtcore.AckWindow.Queue.{Queue, queue_store, queue_acknowledge}
use srt_vpn.Srtcore.AckWindow.Contents.{IsValid, new_window-IsValid, contents}
use srt_vpn.Srtcore.AckWindow.Refines.{sent_at, store_refines, acknowledge_refines}

-- A call of one of the two, at a time.
pub data WindowCall : Type 0 where
  store_call : ℤ → ℕ → ℕ → WindowCall
  acknowledge_call : ℤ → ℕ → WindowCall

-- The results of calls one after another, on the buffer and on the queue.
unfoldable pub run_window : AckWindow → List WindowCall → List (ℤ × Option ℕ)
run_window w [] = []
run_window w (WindowCall.store_call seq ack now ∷ cs) = run_window (store w seq ack now) cs
run_window w (WindowCall.acknowledge_call seq now ∷ cs) =
    let (r, v) = acknowledge w seq now in r ∷ run_window v cs

unfoldable pub run_queue : Queue → List WindowCall → List (ℤ × Option ℕ)
run_queue q [] = []
run_queue q (WindowCall.store_call seq ack now ∷ cs) =
    run_queue (queue_store q (sent_at seq ack now)) cs
run_queue q (WindowCall.acknowledge_call seq now ∷ cs) =
    let (r, v) = queue_acknowledge q seq now in r ∷ run_queue v cs

-- From a valid buffer, the results are those of the queue of its records.
valid_run_refines :
    (w : AckWindow) (cs : List WindowCall) → IsValid w → run_window w cs ≡ run_queue (contents w) cs
unfolding run_window run_queue
valid_run_refines w [] v = refl
valid_run_refines w (WindowCall.store_call seq ack now ∷ cs) v =
    let next = store_refines w seq ack now v in
    valid_run_refines (store w seq ack now) cs next.1 ∙ ap (λ q. run_queue q cs) next.0
valid_run_refines w (WindowCall.acknowledge_call seq now ∷ cs) v =
    let next = acknowledge_refines w seq now v in
    ap (λ q. (acknowledge w seq now).0 ∷ q) (valid_run_refines (acknowledge w seq now).1 cs next.1)
    ∙ ap (λ (x : (ℤ × Option ℕ) × Queue). x.0 ∷ run_queue x.1 cs) next.0

-- No sequence of calls of `store` and `acknowledge` tells a new circular buffer of 1024 places from
-- an empty queue: one of at most 1023 records, which forgets the oldest
-- when it is full, and out of which an ACKACK takes the first record of its number, for its
-- acknowledged number and its time, with all older records; or returns -1 and changes nothing.
pub run_window_refines : (cs : List WindowCall) → run_window new_window cs ≡ run_queue [] cs
unfolding new_window
run_window_refines cs = valid_run_refines new_window cs new_window-IsValid
