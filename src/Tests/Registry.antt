-- ===== src/Tests/Registry.antt =====
-- src/tunnel/dispatch.rs: the registry and the routing at concrete sessions.
use srt_vpn.Prelude.{
  ℕ, ◌≡◌, ◌≤◌, ◌↔◌, refl, none, some, [], ◌∷◌, arith, get, insert, nat_eq, length,
}
use srt_vpn.Tunnel.{FrameType, data_frame, fin}
use srt_vpn.Tunnel.Mux.{Frame}
use srt_vpn.Tunnel.Dispatch.{
  SessionRegistry, data_event, fin_event, new_registry, register, allocate, allocate_loop,
}
use srt_vpn.Tunnel.Dispatch.Registry.{Allocated, allocate-none_iff, allocate-some}
use srt_vpn.Tunnel.Dispatch.Counting.{
  IsCounted, allocates, removes, registers, run_calls, run_calls-new,
}
use srt_vpn.Tunnel.Dispatch.Routing.{events, live, dispatch_all, dispatch_all-live}

allocate-none_iff_example :
    ((allocate new_registry).0 ≡ none) ↔ (255 ≤ length new_registry.sessions)
allocate-none_iff_example = allocate-none_iff new_registry

allocate-some_example : Allocated new_registry 1 (allocate new_registry).1
unfolding allocate new_registry allocate_loop get
allocate-some_example = allocate-some new_registry 1 refl

run_calls-new_example :
    IsCounted (run_calls new_registry (allocates ∷ (registers 7 ∷ (removes 1 ∷ (removes 1 ∷ [])))))
run_calls-new_example =
    run_calls-new (allocates ∷ (registers 7 ∷ (removes 1 ∷ (removes 1 ∷ []))))
      (tt, (omega arith, (tt, (tt, tt))))

abbrev one_session : SessionRegistry
one_session = (allocate new_registry).1

abbrev frame_of : FrameType → ℕ → Frame
frame_of t sid = record { ftype = t; session_id = sid; seq = 0; flags = 0; payload = 5 ∷ [] }

dispatch_all-live_example :
    get 1
      (dispatch_all
        (frame_of data_frame 1 ∷ (frame_of data_frame 2 ∷ (frame_of fin 1 ∷ [])))
        one_session).sessions
    ≡ some (live (data_event (5 ∷ []) ∷ (fin_event ∷ [])))
unfolding allocate new_registry allocate_loop get register insert events
dispatch_all-live_example =
    dispatch_all-live (frame_of data_frame 1 ∷ (frame_of data_frame 2 ∷ (frame_of fin 1 ∷ [])))
      one_session 1 [] refl
