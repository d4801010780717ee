-- ===== src/Client/Forward/Halves.antt =====
-- After a Fin no data are sent, and after the shutdown of the connection none are written to it.
use srt_vpn.Prelude.{
  ℕ, Bool, true, false, not, List, [], ◌∷◌, ◌++◌, if◌then◌else◌, ◌≡◌, inl, inr, refl, sym, subst,
  Bool-cases,
}
use srt_vpn.Client.Forward.{
  Call, Event, Forward, Outcome, going, ended, failed, call, is_enabled, step,
}
use srt_vpn.Client.Forward.Order.{taken, sent_for, written_for, sent_by, written_by, Outcome-cases}

-- Data, and at the end a Fin or none.
pub data DataThenFin : List Call → Type 0 where
  unfinished : DataThenFin []
  finished : DataThenFin (Call.send_fin ∷ [])
  data_sent :
      {cs : List Call} (bytes : List ℕ) → DataThenFin cs → DataThenFin (Call.send_data bytes ∷ cs)

-- Data, and at the end a shutdown or none.
pub data WritesThenShutdown : List Call → Type 0 where
  not_shut : WritesThenShutdown []
  shut : WritesThenShutdown (Call.shutdown_client ∷ [])
  written :
      {cs : List Call} (bytes : List ℕ)
      → WritesThenShutdown cs
      → WritesThenShutdown (Call.write_client bytes ∷ cs)

abbrev pub TunnelHalf : Bool → List Call → Type 0
TunnelHalf true cs = cs ≡ []
TunnelHalf false cs = DataThenFin cs

abbrev pub ClientHalf : Bool → List Call → Type 0
ClientHalf true cs = cs ≡ []
ClientHalf false cs = WritesThenShutdown cs

tunnel_nothing : (b : Bool) {cs : List Call} → cs ≡ [] → TunnelHalf b cs
tunnel_nothing true e = e
tunnel_nothing false e = subst DataThenFin (sym e) unfinished

client_nothing : (b : Bool) {cs : List Call} → cs ≡ [] → ClientHalf b cs
client_nothing true e = e
client_nothing false e = subst WritesThenShutdown (sym e) not_shut

-- What can follow an event: nothing unless the loop goes on.
abbrev TunnelRest : Outcome → List Call → Type 0
TunnelRest (going t) cs = TunnelHalf t.client_eof cs
TunnelRest (ended t) cs = cs ≡ []
TunnelRest (failed t) cs = cs ≡ []

abbrev ClientRest : Outcome → List Call → Type 0
ClientRest (going t) cs = ClientHalf t.peer_fin cs
ClientRest (ended t) cs = cs ≡ []
ClientRest (failed t) cs = cs ≡ []

closed_either_way :
    (b : Bool) (t : Forward) {cs : List Call}
    → t.client_eof ≡ true
    → TunnelRest (if b then ended t else going t) cs
    → cs ≡ []
closed_either_way true t e h = h
closed_either_way false t {cs} e h = subst (λ b. TunnelHalf b cs) e h

open_either_way :
    (b : Bool) (t : Forward) (cs : List Call)
    → TunnelRest (if b then ended t else going t) cs
    → TunnelHalf t.client_eof cs
open_either_way true t cs h = tunnel_nothing t.client_eof h
open_either_way false t cs h = h

shut_either_way :
    (b : Bool) (t : Forward) {cs : List Call}
    → t.peer_fin ≡ true
    → ClientRest (if b then ended t else going t) cs
    → cs ≡ []
shut_either_way true t e h = h
shut_either_way false t {cs} e h = subst (λ b. ClientHalf b cs) e h

unshut_either_way :
    (b : Bool) (t : Forward) (cs : List Call)
    → ClientRest (if b then ended t else going t) cs
    → ClientHalf t.peer_fin cs
unshut_either_way true t cs h = client_nothing t.peer_fin h
unshut_either_way false t cs h = h

is_false : {b : Bool} → not b ≡ true → b ≡ false
is_false {b = true} h = cc
is_false {b = false} h = refl

step-TunnelHalf :
    (s : Forward) (e : Event) (cs : List Call)
    → is_enabled s e ≡ true
    → TunnelRest (step s e) cs
    → TunnelHalf s.client_eof (sent_for e ++ cs)
unfolding step
step-TunnelHalf s Event.idle_timeout cs on h = tunnel_nothing s.client_eof h
step-TunnelHalf s (Event.client_eof true) cs on h =
    let none_left =
      closed_either_way s.peer_fin (record (call s Call.send_fin) { client_eof = true }) refl h in
    rw (is_false on) (subst (λ r. DataThenFin (Call.send_fin ∷ r)) (sym none_left) finished)
step-TunnelHalf s (Event.client_eof false) cs on h =
    rw (is_false on) (subst (λ r. DataThenFin (Call.send_fin ∷ r)) (sym h) finished)
step-TunnelHalf s (Event.client_data bytes true) cs on h =
    rw (is_false on) (data_sent bytes (subst (λ b. TunnelHalf b cs) (is_false on) h))
step-TunnelHalf s (Event.client_data bytes false) cs on h =
    rw (is_false on) (data_sent bytes (tunnel_nothing false h))
step-TunnelHalf s Event.client_error cs on h = tunnel_nothing s.client_eof h
step-TunnelHalf s (Event.tunnel_data bytes true) cs on h = h
step-TunnelHalf s (Event.tunnel_data bytes false) cs on h = tunnel_nothing s.client_eof h
step-TunnelHalf s Event.tunnel_fin cs on h =
    open_either_way s.client_eof (record (call s Call.shutdown_client) { peer_fin = true }) cs h
step-TunnelHalf s Event.tunnel_close cs on h = tunnel_nothing s.client_eof h
step-TunnelHalf s Event.tunnel_gone cs on h = tunnel_nothing s.client_eof h

step-ClientHalf :
    (s : Forward) (e : Event) (cs : List Call)
    → is_enabled s e ≡ true
    → ClientRest (step s e) cs
    → ClientHalf s.peer_fin (written_for e ++ cs)
unfolding step
step-ClientHalf s Event.idle_timeout cs on h = client_nothing s.peer_fin h
step-ClientHalf s (Event.client_eof true) cs on h =
    unshut_either_way s.peer_fin (record (call s Call.send_fin) { client_eof = true }) cs h
step-ClientHalf s (Event.client_eof false) cs on h = client_nothing s.peer_fin h
step-ClientHalf s (Event.client_data bytes true) cs on h = h
step-ClientHalf s (Event.client_data bytes false) cs on h = client_nothing s.peer_fin h
step-ClientHalf s Event.client_error cs on h = client_nothing s.peer_fin h
step-ClientHalf s (Event.tunnel_data bytes true) cs on h =
    rw (is_false on) (written bytes (subst (λ b. ClientHalf b cs) (is_false on) h))
step-ClientHalf s (Event.tunnel_data bytes false) cs on h =
    rw (is_false on) (written bytes (client_nothing false h))
step-ClientHalf s Event.tunnel_fin cs on h =
    let none_left =
      shut_either_way s.client_eof (record (call s Call.shutdown_client) { peer_fin = true }) refl
        h in
    rw (is_false on)
      (subst (λ r. WritesThenShutdown (Call.shutdown_client ∷ r)) (sym none_left) shut)
step-ClientHalf s Event.tunnel_close cs on h = client_nothing s.peer_fin h
step-ClientHalf s Event.tunnel_gone cs on h = client_nothing s.peer_fin h

-- The loop keeps to both halves, from any state.
pub taken-halves :
    (s : Forward) (es : List Event)
    → TunnelHalf s.client_eof (sent_by (taken s es))
      × ClientHalf s.peer_fin (written_by (taken s es))
unfolding taken sent_by written_by
taken-halves s [] = (tunnel_nothing s.client_eof refl, client_nothing s.peer_fin refl)
taken-halves s (e ∷ es) = elim (Bool-cases (is_enabled s e)) [
  | inr off ↦ rw off (taken-halves s es)
  | inl on ↦ elim (Outcome-cases (step s e)) [
    | inl (t, went) ↦
        let (cs, ws) = taken-halves t es in
        rw on (
          rw went (
            step-TunnelHalf s e (sent_by (taken t es)) on
                (subst (λ o. TunnelRest o (sent_by (taken t es))) (sym went) cs),
            step-ClientHalf s e (written_by (taken t es)) on
                (subst (λ o. ClientRest o (written_by (taken t es))) (sym went) ws),
          ))
    | inr (inl (t, went)) ↦ rw on (
        rw went (
          step-TunnelHalf s e [] on (subst (λ o. TunnelRest o []) (sym went) refl),
          step-ClientHalf s e [] on (subst (λ o. ClientRest o []) (sym went) refl),
        ))
    | inr (inr (t, went)) ↦ rw on (
        rw went (
          step-TunnelHalf s e [] on (subst (λ o. TunnelRest o []) (sym went) refl),
          step-ClientHalf s e [] on (subst (λ o. ClientRest o []) (sym went) refl),
        ))
  ]
]
