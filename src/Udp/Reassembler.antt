-- ===== src/Udp/Reassembler.antt =====
-- src/server/forward.rs: the reassembly of datagrams. A call returns `none` where it panics.
-- The time of a call is an argument, in nanoseconds; HashMaps are association lists.
use srt_vpn.Prelude.{
  ℕ, ◌+◌, ◌-◌, ◌*◌, ◌^◌, Bool, not, ◌||◌, Option, none, some, List, [], ◌∷◌, ◌++◌, ltb, leb, ◌==◌,
  if◌then◌else◌, length, get_or, get_elem?, take, drop, get, insert, remove, replicate, set_elem,
  ◌>>=◌,
}
use srt_vpn.Prelude.Bytes.{be_u16, target_eq}
use srt_vpn.Udp.{Addressed, parse_udp_addr_header, udp_frag_mark}

abbrev pub reasm_expiry_secs : ℕ
reasm_expiry_secs = 30

pub record ReasmState : Type 0 where
  pub total_len : ℕ
  pub total_parts : ℕ
  pub parts : List (Option (List ℕ))
  pub received : ℕ
  pub addr_header : List ℕ

pub record UdpReassembler : Type 0 where
  pub pending : List ((List ℕ × ℕ) × ReasmState)
  pub created_at : List ((List ℕ × ℕ) × ℕ)

unfoldable pub new_reassembler : UdpReassembler
new_reassembler = record { pending = []; created_at = [] }

-- `now.duration_since(t) > 30 s`; the difference saturates at 0.
abbrev pub expired : ℕ → List ((List ℕ × ℕ) × ℕ) → List (List ℕ × ℕ)
expired now [] = []
expired now ((k, t) ∷ m) =
    if ltb (reasm_expiry_secs * 10 ^ 9) (now - t) then k ∷ expired now m else expired now m

abbrev pub forget : UdpReassembler → List ℕ × ℕ → UdpReassembler
forget r k = record { pending = remove k r.pending; created_at = remove k r.created_at }

unfoldable pub forget_all : UdpReassembler → List (List ℕ × ℕ) → UdpReassembler
forget_all r [] = r
forget_all r (k ∷ ks) = forget_all (forget r k) ks

unfoldable pub cleanup_expired : ℕ → UdpReassembler → ℕ × UdpReassembler
cleanup_expired now r = (length (expired now r.created_at), forget_all r (expired now r.created_at))

unfoldable pub new_state : ℕ → ℕ → ReasmState
new_state total_len total = record {
  total_len = total_len;
  total_parts = total;
  parts = replicate total none;
  received = 0;
  addr_header = [];
}

-- `entry(key).or_insert_with(...)`: the state, and the times.
abbrev pub entry_or_new : Option ReasmState → ℕ → ℕ → ReasmState
entry_or_new none total_len total = new_state total_len total
entry_or_new (some st) total_len total = st

abbrev pub times_with :
    Option ReasmState → List ℕ × ℕ → ℕ → List ((List ℕ × ℕ) × ℕ) → List ((List ℕ × ℕ) × ℕ)
times_with none key now m = insert key now m
times_with (some st) key now m = m

-- Another datagram under the same key: start anew.
unfoldable pub restart : ReasmState → ℕ → ℕ → ReasmState
restart st total_len total =
    if not (st.total_len == total_len) || not (st.total_parts == total)
    then new_state total_len total
    else st

-- `frame[..header_len]` panics beyond the frame's end.
unfoldable pub keep_header : List ℕ → List ℕ → ℕ → ReasmState → Option ReasmState
keep_header frame host idx st =
    if idx == 0
    then (if ltb (length frame) (1 + length host + 2)
        then none
        else some (record st { addr_header = take (1 + length host + 2) frame }))
    else some st

abbrev pub store_at : Option (Option (List ℕ)) → ℕ → List ℕ → ReasmState → Option ReasmState
store_at none idx bytes st = none
store_at (some (some old)) idx bytes st = some st
store_at (some none) idx bytes st =
    some (record st { parts = set_elem st.parts idx (some bytes); received = st.received + 1 })

unfoldable pub store_part : ℕ → List ℕ → ReasmState → Option ReasmState
store_part idx bytes st = store_at (get_elem? st.parts idx) idx bytes st

-- `for part in &state.parts`: the bytes of all parts, `none` if one is missing.
abbrev pub append_part : Option (List ℕ) → Option (List ℕ) → Option (List ℕ)
append_part (some p) (some rest) = some (p ++ rest)
append_part _ _ = none

unfoldable pub collect : List (Option (List ℕ)) → Option (List ℕ)
collect [] = some []
collect (p ∷ ps) = append_part p (collect ps)

abbrev pub hand_over :
    UdpReassembler → List ℕ × ℕ → ReasmState → Option (List ℕ) → UdpReassembler × Option (List ℕ)
hand_over r key st none = (r, none)
hand_over r key st (some body) = (forget r key, some (st.addr_header ++ body))

-- The check at the end of `push`.
unfoldable pub finish :
    UdpReassembler → List ℕ × ℕ → ℕ → ReasmState → UdpReassembler × Option (List ℕ)
finish r key total st =
    if st.received == total then hand_over r key st (collect st.parts) else (r, none)

-- A fragment whose header has passed the checks.
unfoldable pub push_fragment :
    ℕ → UdpReassembler → List ℕ → Addressed → Option (UdpReassembler × Option (List ℕ))
push_fragment now r frame a = do
  let key : List ℕ × ℕ = (a.host, a.port)
  let total_len = be_u16 (get_or a.rest 1 0) (get_or a.rest 2 0)
  let idx = get_or a.rest 3 0
  let total = get_or a.rest 4 0
  let known = get key r.pending
  let st = restart (entry_or_new known total_len total) total_len total
  headed ← keep_header frame a.host idx st
  stored ← store_part idx (drop 5 a.rest) headed
  some (
      finish
        (record {
          pending = insert key stored r.pending;
          created_at = times_with known key now r.created_at;
        })
        key total stored)

-- The fragments that are refused.
abbrev pub malformed : List ℕ → Bool
malformed rest =
    ltb (length rest) 5
    || (get_or rest 4 0 == 0 || leb (get_or rest 4 0) (get_or rest 3 0))
    || be_u16 (get_or rest 1 0) (get_or rest 2 0) == 0

unfoldable pub push_addressed :
    ℕ → UdpReassembler → List ℕ → Option Addressed → Option (UdpReassembler × Option (List ℕ))
push_addressed now r frame none = some (r, none)
push_addressed now r frame (some a) =
    let rest = push_fragment now r frame a in
    if length a.rest == 0
    then some (r, none)
    else if not (get_or a.rest 0 0 == udp_frag_mark)
    then some (r, some frame)
    else if malformed a.rest
    then some (r, none)
    else rest

unfoldable pub push :
    (List ℕ → List ℕ) → ℕ → UdpReassembler → List ℕ → Option (UdpReassembler × Option (List ℕ))
push lossy now r frame = push_addressed now r frame (parse_udp_addr_header lossy frame)

-- Frames pushed one after the other, each with its time: the reassembler and what came out.
unfoldable pub push_row :
    (List ℕ → List ℕ)
    → UdpReassembler
    → List (ℕ × List ℕ)
    → Option (UdpReassembler × List (Option (List ℕ)))
push_row lossy r [] = some (r, [])
push_row lossy r ((now, frame) ∷ fs) = do
  first ← push lossy now r frame
  others ← push_row lossy first.0 fs
  some (others.0, first.1 ∷ others.1)
