-- ===== src/Tunnel/Dispatch.antt =====
-- src/tunnel/dispatch.rs: the registry of a tunnel's sessions, and the routing of frames to them.
-- The mutex and the atomics become fields of the registry's state. A session's channel is a queue
-- that refuses events once its receiver is gone. The two session metrics are those of one registry.
pub mod Registry
pub mod Counting
pub mod Routing
use srt_vpn.Prelude.{
  ℕ, zero, suc, ◌+◌, ◌-◌, ◌*◌, ◌%◌, ◌^◌, Bool, true, false, not, Option, none, some, List, [], ◌∷◌,
  ◌++◌, leb, ◌==◌, ◌||◌, if◌then◌else◌, length, get, insert, remove, nat_eq, is_some,
}
use srt_vpn.Tunnel.{FrameType, max_sessions}
use srt_vpn.Tunnel.Mux.{Frame}

pub data SessionEvent : Type 0 where
  data_event : List ℕ → SessionEvent
  fin_event close_event : SessionEvent

pub record Channel : Type 0 where
  pub receiving : Bool
  pub queue : List SessionEvent

-- `mpsc::unbounded_channel()`
abbrev pub new_channel : Channel
new_channel = record { receiving = true; queue = [] }

pub record SessionRegistry : Type 0 where
  pub sessions : List (ℕ × Channel)
  pub next_id : ℕ
  pub active_sessions : ℕ
  pub total_sessions : ℕ

unfoldable pub new_registry : SessionRegistry
new_registry = record { sessions = []; next_id = 1; active_sessions = 0; total_sessions = 0 }

abbrev contains_key : ℕ → List (ℕ × Channel) → Bool
contains_key id m = is_some (get id m)

-- `map.insert(id, tx)`, and the two counters.
unfoldable pub register : SessionRegistry → ℕ → SessionRegistry
register r id = record r {
  sessions = insert id new_channel r.sessions;
  active_sessions = (r.active_sessions + 1) % 2 ^ 64;
  total_sessions = (r.total_sessions + 1) % 2 ^ 64;
}

-- `for _ in 0..MAX_SESSIONS`: the rounds left, and `next_id`, an AtomicU32. Session 0 is reserved.
unfoldable pub allocate_loop : ℕ → SessionRegistry → Option ℕ × SessionRegistry
allocate_loop zero r = (none, r)
allocate_loop (suc rounds) r =
    let id = r.next_id % max_sessions in
    let r' = record r { next_id = (r.next_id + 1) % 2 ^ 32 } in
    let rest = allocate_loop rounds r' in
    if id == 0 || contains_key id r.sessions then rest else (some id, register r' id)

unfoldable pub allocate : SessionRegistry → Option ℕ × SessionRegistry
allocate r =
    if leb (max_sessions - 1) (length r.sessions) then (none, r) else allocate_loop max_sessions r

unfoldable pub register_specific : SessionRegistry → ℕ → Bool × SessionRegistry
register_specific r id =
    if id == 0 || contains_key id r.sessions then (false, r) else (true, register r id)

-- `tx.send(event).is_ok()`
unfoldable pub send_event :
    SessionRegistry → ℕ → SessionEvent → Option Channel → Bool × SessionRegistry
send_event r id ev none = (false, r)
send_event r id ev (some ch) =
    if ch.receiving
    then (
      true,
      record r { sessions = insert id (record ch { queue = ch.queue ++ (ev ∷ []) }) r.sessions },
    )
    else (false, r)

unfoldable pub route : SessionRegistry → ℕ → SessionEvent → Bool × SessionRegistry
route r id ev = send_event r id ev (get id r.sessions)

-- `fetch_sub` on an AtomicU64 wraps.
abbrev fetch_sub : ℕ → ℕ → ℕ
fetch_sub a n = (a + 2 ^ 64 - n) % 2 ^ 64

unfoldable pub close_all : SessionRegistry → ℕ × SessionRegistry
close_all r = (
  length r.sessions,
  record r { sessions = []; active_sessions = fetch_sub r.active_sessions (length r.sessions) },
)

unfoldable pub remove_session : SessionRegistry → ℕ → SessionRegistry
remove_session r id =
    let sessions = remove id r.sessions in
    if contains_key id r.sessions
    then record r { sessions = sessions; active_sessions = fetch_sub r.active_sessions 1 }
    else record r { sessions = sessions }

pub data DispatchAction : Type 0 where
  routed : DispatchAction
  unknown_session : ℕ → DispatchAction
  fin : ℕ → DispatchAction
  closed : ℕ → DispatchAction
  rst : ℕ → DispatchAction
  open_request : ℕ → List ℕ → DispatchAction
  other : DispatchAction

-- The arm of Data and of Datagram.
unfoldable pub dispatch_data : Frame → SessionRegistry → DispatchAction × SessionRegistry
dispatch_data f r =
    let sent = route r f.session_id (data_event f.payload) in
    (if sent.0 then routed else unknown_session f.session_id, sent.1)

abbrev pub dispatch_type : FrameType → Frame → SessionRegistry → DispatchAction × SessionRegistry
dispatch_type FrameType.data_frame f r = dispatch_data f r
dispatch_type FrameType.datagram f r = dispatch_data f r
dispatch_type FrameType.fin f r = (fin f.session_id, (route r f.session_id fin_event).1)
dispatch_type FrameType.close f r = (closed f.session_id, (route r f.session_id close_event).1)
dispatch_type FrameType.rst f r = (rst f.session_id, (route r f.session_id close_event).1)
dispatch_type FrameType.open_frame f r = (open_request f.session_id f.payload, r)
dispatch_type _ f r = (other, r)

unfoldable pub dispatch_frame : Frame → SessionRegistry → DispatchAction × SessionRegistry
dispatch_frame f r = dispatch_type f.ftype f r
