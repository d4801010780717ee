-- ===== src/Tunnel/Dispatch/Routing.antt =====
-- src/tunnel/dispatch.rs: what the frames of a tunnel put into a session's channel.
use srt_vpn.Prelude.{
  ℕ, ◌≡◌, ◌≢◌, inl, inr, refl, Bool, true, false, Option, none, some, List, [], ◌∷◌, ◌++◌, arith,
  get, nat_eq, get-insert_self, get-insert_ne, Bool-cases, ℕ_eq-cases, ◌==◌, ==_iff, if◌then◌else◌,
  ◌∙◌, sym, append-nil, append_assoc,
}
use srt_vpn.Tunnel.{FrameType}
use srt_vpn.Tunnel.Mux.{Frame}
use srt_vpn.Tunnel.Dispatch.{
  SessionRegistry, SessionEvent, data_event, fin_event, close_event, Channel, send_event, route,
  dispatch_data, dispatch_type, dispatch_frame,
}

-- The event that a frame type stands for.
abbrev pub event_of : FrameType → List ℕ → List SessionEvent
event_of FrameType.data_frame payload = data_event payload ∷ []
event_of FrameType.datagram payload = data_event payload ∷ []
event_of FrameType.fin payload = fin_event ∷ []
event_of FrameType.close payload = close_event ∷ []
event_of FrameType.rst payload = close_event ∷ []
event_of _ payload = []

-- The events of a session in a row of frames.
unfoldable pub events : ℕ → List Frame → List SessionEvent
events sid [] = []
events sid (f ∷ fs) =
    if f.session_id == sid then event_of f.ftype f.payload ++ events sid fs else events sid fs

unfoldable pub dispatch_all : List Frame → SessionRegistry → SessionRegistry
dispatch_all [] r = r
dispatch_all (f ∷ fs) r = dispatch_all fs (dispatch_frame f r).1

abbrev pub live : List SessionEvent → Channel
live queue = record { receiving = true; queue = queue }

send_event_other :
    (r : SessionRegistry) (id sid : ℕ) (ev : SessionEvent) (x : Option Channel)
    → sid ≢ id
    → get sid (send_event r id ev x).1.sessions ≡ get sid r.sessions
unfolding send_event
send_event_other r id sid ev none ne = refl
send_event_other r id sid ev (some ch) ne = elim (Bool-cases ch.receiving) [
  | inl here ↦ rw here (get-insert_ne sid id _ r.sessions ne)
  | inr gone ↦ rw gone
]

-- An event that is sent to a session is the last of its queue, and of no other.
route-live :
    (r : SessionRegistry) (id sid : ℕ) (ev : SessionEvent) (q : List SessionEvent)
    → get sid r.sessions ≡ some (live q)
    → get sid (route r id ev).1.sessions ≡ some (live (if id == sid then q ++ (ev ∷ []) else q))
unfolding route send_event
route-live r id sid ev q at = elim (ℕ_eq-cases id sid) [
  | inl e ↦
      rw (e, at, (==_iff sid sid).1 refl) (get-insert_self sid (live (q ++ (ev ∷ []))) r.sessions)
  | inr ne ↦
      let miss : (id == sid) ≡ false = ground (arith, ne) in
      rw miss (send_event_other r id sid ev (get id r.sessions) (λ e. ne (sym e)) ∙ at)
]

no_event :
    (b : Bool) (sid : ℕ) (q : List SessionEvent) (m : List (ℕ × Channel))
    → get sid m ≡ some (live q)
    → get sid m ≡ some (live (if b then q ++ [] else q))
no_event true sid q m at = rw append-nil at
no_event false sid q m at = at

dispatch_type-live :
    (t : FrameType) (f : Frame) (r : SessionRegistry) (sid : ℕ) (q : List SessionEvent)
    → get sid r.sessions ≡ some (live q)
    → get sid (dispatch_type t f r).1.sessions
      ≡ some (live (if f.session_id == sid then q ++ event_of t f.payload else q))
unfolding dispatch_data
dispatch_type-live FrameType.data_frame f r sid q at =
    route-live r f.session_id sid (data_event f.payload) q at
dispatch_type-live FrameType.datagram f r sid q at =
    route-live r f.session_id sid (data_event f.payload) q at
dispatch_type-live FrameType.fin f r sid q at = route-live r f.session_id sid fin_event q at
dispatch_type-live FrameType.close f r sid q at = route-live r f.session_id sid close_event q at
dispatch_type-live FrameType.rst f r sid q at = route-live r f.session_id sid close_event q at
dispatch_type-live _ f r sid q at = no_event (f.session_id == sid) sid q r.sessions at

dispatch_frame-live :
    (f : Frame) (r : SessionRegistry) (sid : ℕ) (q : List SessionEvent)
    → get sid r.sessions ≡ some (live q)
    → get sid (dispatch_frame f r).1.sessions
      ≡ some (live (if f.session_id == sid then q ++ event_of f.ftype f.payload else q))
unfolding dispatch_frame
dispatch_frame-live f r sid q at = dispatch_type-live f.ftype f r sid q at

-- While its receiver lives, a session's queue grows by just the events of its own frames, in the
-- order of the frames: data, the half-close and the close, which leave the session registered.
pub dispatch_all-live :
    (fs : List Frame) (r : SessionRegistry) (sid : ℕ) (q : List SessionEvent)
    → get sid r.sessions ≡ some (live q)
    → get sid (dispatch_all fs r).sessions ≡ some (live (q ++ events sid fs))
unfolding dispatch_all events
dispatch_all-live [] r sid q at = rw append-nil at
dispatch_all-live (f ∷ fs) r sid q at =
    let first = dispatch_frame-live f r sid q at in
    elim (Bool-cases (f.session_id == sid)) [
      | inl mine ↦ rw mine (
          rw (← append_assoc q (event_of f.ftype f.payload) (events sid fs)) (
            dispatch_all-live fs (dispatch_frame f r).1 sid (q ++ event_of f.ftype f.payload)
              (rw mine at first)))
      | inr other ↦ rw other (dispatch_all-live fs (dispatch_frame f r).1 sid q (rw other at first))
    ]
