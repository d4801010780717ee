-- ===== src/Tunnel/Dispatch/Counting.antt =====
-- src/tunnel/dispatch.rs: the counter of active sessions, after any row of calls.
use srt_vpn.Prelude.{
  ℕ, ◌+◌, ◌%◌, ◌^◌, ◌≤◌, ◌<◌, ◌≡◌, ◌≢◌, inl, inr, refl, true, Option, none, some, List, [], ◌∷◌,
  ◌++◌, arith, length, All, get, insert, nat_eq, get-insert_ne, get-remove_self, get-remove_ne,
  Bool-cases, Option-cases, ℕ_eq-cases, ◌==◌, ◌||◌, ◌∙◌, sym, ap, ==_iff, ||-eq-false,
  is_some-eq-false, Distinct, insert-Distinct, length-insert_new, length-insert_old, length-remove,
  remove-Distinct, remove-none, length-le_of_keys,
}
use srt_vpn.Tunnel.Dispatch.{
  SessionRegistry, SessionEvent, Channel, new_channel, register, allocate, register_specific,
  send_event, route, close_all, remove_session, contains_key, new_registry,
}
use srt_vpn.Tunnel.Dispatch.Registry.{allocate-some, allocate-none}

-- The counter of active sessions is the number of registered sessions, which have numbers of 16
-- bits other than 0.
pub record IsCounted (r : SessionRegistry) : Type 0 where
  pub distinct : Distinct r.sessions
  pub counted : r.active_sessions ≡ length r.sessions
  pub in_range : (id : ℕ) (ch : Channel) → get id r.sessions ≡ some ch → (1 ≤ id) × (id < 2 ^ 16)

new_registry-IsCounted : IsCounted new_registry
unfolding new_registry get
new_registry-IsCounted = record { distinct = tt; counted = refl; in_range = λ id ch h. cc }

IsCounted-length : (r : SessionRegistry) → IsCounted r → length r.sessions ≤ 2 ^ 16
IsCounted-length r v =
    length-le_of_keys (2 ^ 16) r.sessions v.distinct (λ i ch at. (v.in_range i ch at).1)

-- A session that is registered under a free number is counted.
Allocated-IsCounted :
    (r r' : SessionRegistry) (id : ℕ)
    → IsCounted r
    → 1 ≤ id
    → id < 2 ^ 16
    → get id r.sessions ≡ none
    → r'.sessions ≡ insert id new_channel r.sessions
    → r'.active_sessions ≡ (r.active_sessions + 1) % 2 ^ 64
    → IsCounted r'
Allocated-IsCounted r r' id v lo hi free es ea = record {
  distinct = rw es (insert-Distinct id new_channel r.sessions v.distinct);
  counted = omega (
    arith,
    ea,
    ap length es,
    length-insert_new id new_channel r.sessions free,
    v.counted,
    IsCounted-length r v,
  );
  in_range = λ i ch at. elim (ℕ_eq-cases i id) [
    | inl q ↦ omega arith
    | inr ne ↦ v.in_range i ch (sym (get-insert_ne i id new_channel r.sessions ne) ∙ (rw es at at))
  ];
}

allocate-IsCounted : (r : SessionRegistry) → IsCounted r → IsCounted (allocate r).1
allocate-IsCounted r v = elim (Option-cases (allocate r).0) [
  | inl e ↦ rw (allocate-none r e) v
  | inr (id, e) ↦
      let a = allocate-some r id e in
      Allocated-IsCounted r (allocate r).1 id v a.0 (omega (arith, a.1)) a.2 a.3 a.4
]

register_specific-IsCounted :
    (r : SessionRegistry) (id : ℕ)
    → id < 2 ^ 16
    → IsCounted r
    → IsCounted (register_specific r id).1
unfolding register_specific register
register_specific-IsCounted r id hi v = elim (Bool-cases (id == 0 || contains_key id r.sessions)) [
  | inl no_room ↦ rw no_room v
  | inr free ↦
      let parts = ||-eq-false (id == 0) (contains_key id r.sessions) free in
      let ne : id ≢ 0 = λ q. cc (parts.0, (==_iff id 0).1 q) in
      rw free (
        Allocated-IsCounted r (register r id) id v (omega arith) hi
          (is_some-eq-false (get id r.sessions) parts.1) refl refl)
]

send_event-IsCounted :
    (r : SessionRegistry) (id : ℕ) (ev : SessionEvent) (x : Option Channel)
    → get id r.sessions ≡ x
    → IsCounted r
    → IsCounted (send_event r id ev x).1
unfolding send_event
send_event-IsCounted r id ev none at v = v
send_event-IsCounted r id ev (some ch) at v = elim (Bool-cases ch.receiving) [
  | inr gone ↦ rw gone v
  | inl here ↦
      let ch' : Channel = record { receiving = true; queue = ch.queue ++ (ev ∷ []) } in
      rw here (record {
        distinct = insert-Distinct id ch' r.sessions v.distinct;
        counted = omega (arith, v.counted, length-insert_old id ch' ch r.sessions at);
        in_range = λ i c q. elim (ℕ_eq-cases i id) [
          | inl same ↦ v.in_range i ch (rw same at)
          | inr ne ↦ v.in_range i c (sym (get-insert_ne i id ch' r.sessions ne) ∙ q)
        ];
      })
]

remove_session-IsCounted :
    (r : SessionRegistry) (id : ℕ) → IsCounted r → IsCounted (remove_session r id)
unfolding remove_session
remove_session-IsCounted r id v = elim (Option-cases (get id r.sessions)) [
  | inl e ↦ rw (e, remove-none id r.sessions e) v
  | inr (ch, e) ↦ rw e (record {
    distinct = remove-Distinct id r.sessions v.distinct;
    counted =
        omega (arith, v.counted, length-remove id ch r.sessions v.distinct e, IsCounted-length r v);
    in_range = λ i c q. elim (ℕ_eq-cases i id) [
      | inl same ↦ cc (get-remove_self id r.sessions)
      | inr ne ↦ v.in_range i c (sym (get-remove_ne i id r.sessions ne) ∙ q)
    ];
  })
]

close_all-IsCounted : (r : SessionRegistry) → IsCounted r → IsCounted (close_all r).1
unfolding close_all get
close_all-IsCounted r v = record {
  distinct = tt;
  counted = omega (arith, v.counted, IsCounted-length r v);
  in_range = λ i c q. cc;
}

pub data Call : Type 0 where
  allocates closes : Call
  registers removes : ℕ → Call
  routes : ℕ → SessionEvent → Call

pub step : SessionRegistry → Call → SessionRegistry
step r allocates = (allocate r).1
step r closes = (close_all r).1
step r (registers id) = (register_specific r id).1
step r (removes id) = remove_session r id
step r (routes id ev) = (route r id ev).1

pub run_calls : SessionRegistry → List Call → SessionRegistry
run_calls r [] = r
run_calls r (c ∷ cs) = run_calls (step r c) cs

-- The session numbers of a call are 16-bit words.
abbrev pub InRange : Call → Type 0
InRange (registers id) = id < 2 ^ 16
InRange _ = Unit {0}

step-IsCounted : (r : SessionRegistry) (c : Call) → InRange c → IsCounted r → IsCounted (step r c)
unfolding step route
step-IsCounted r allocates h v = allocate-IsCounted r v
step-IsCounted r closes h v = close_all-IsCounted r v
step-IsCounted r (registers id) h v = register_specific-IsCounted r id h v
step-IsCounted r (removes id) h v = remove_session-IsCounted r id v
step-IsCounted r (routes id ev) h v = send_event-IsCounted r id ev (get id r.sessions) refl v

run_calls-IsCounted :
    (cs : List Call) (r : SessionRegistry)
    → All InRange cs
    → IsCounted r
    → IsCounted (run_calls r cs)
unfolding run_calls
run_calls-IsCounted [] r h v = v
run_calls-IsCounted (c ∷ cs) r h v =
    run_calls-IsCounted cs (step r c) h.1 (step-IsCounted r c h.0 v)

-- After any row of calls on a new registry, with session numbers of 16 bits, the registered numbers
-- are distinct and not 0, and the counter of active sessions is the number of sessions: it never
-- wraps below 0.
pub run_calls-new : (cs : List Call) → All InRange cs → IsCounted (run_calls new_registry cs)
run_calls-new cs h = run_calls-IsCounted cs new_registry h new_registry-IsCounted
