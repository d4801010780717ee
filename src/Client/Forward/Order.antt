-- ===== src/Client/Forward/Order.antt =====
-- In which order the session and the connection are used.
use srt_vpn.Prelude.{
  Bool, true, false, List, [], ◌∷◌, ◌++◌, if◌then◌else◌, ◌≡◌, ◌⊎◌, inl, inr, refl, sym, ap, ◌∙◌,
  append_assoc, append-nil, Bool-cases,
}
use srt_vpn.Client.Forward.{
  Call, Event, Forward, Outcome, going, ended, failed, state_of, call, is_enabled, step, turn,
  forward_events,
}

-- The calls that concern the session, and those that concern the client's connection.
unfoldable pub to_tunnel : List Call → List Call
to_tunnel [] = []
to_tunnel (Call.write_client bytes ∷ cs) = to_tunnel cs
to_tunnel (Call.shutdown_client ∷ cs) = to_tunnel cs
to_tunnel (c ∷ cs) = c ∷ to_tunnel cs

unfoldable pub to_client : List Call → List Call
to_client [] = []
to_client (Call.write_client bytes ∷ cs) = Call.write_client bytes ∷ to_client cs
to_client (Call.shutdown_client ∷ cs) = Call.shutdown_client ∷ to_client cs
to_client (c ∷ cs) = to_client cs

pub to_tunnel-append : (xs ys : List Call) → to_tunnel (xs ++ ys) ≡ to_tunnel xs ++ to_tunnel ys
unfolding to_tunnel
to_tunnel-append [] ys = refl
to_tunnel-append (Call.send_open h p ∷ xs) ys =
    ap (◌∷◌ (Call.send_open h p)) (to_tunnel-append xs ys)
to_tunnel-append (Call.send_data b ∷ xs) ys = ap (◌∷◌ (Call.send_data b)) (to_tunnel-append xs ys)
to_tunnel-append (Call.send_fin ∷ xs) ys = ap (◌∷◌ Call.send_fin) (to_tunnel-append xs ys)
to_tunnel-append (Call.send_close ∷ xs) ys = ap (◌∷◌ Call.send_close) (to_tunnel-append xs ys)
to_tunnel-append (Call.write_client b ∷ xs) ys = to_tunnel-append xs ys
to_tunnel-append (Call.shutdown_client ∷ xs) ys = to_tunnel-append xs ys

pub to_client-append : (xs ys : List Call) → to_client (xs ++ ys) ≡ to_client xs ++ to_client ys
unfolding to_client
to_client-append [] ys = refl
to_client-append (Call.send_open h p ∷ xs) ys = to_client-append xs ys
to_client-append (Call.send_data b ∷ xs) ys = to_client-append xs ys
to_client-append (Call.send_fin ∷ xs) ys = to_client-append xs ys
to_client-append (Call.send_close ∷ xs) ys = to_client-append xs ys
to_client-append (Call.write_client b ∷ xs) ys =
    ap (◌∷◌ (Call.write_client b)) (to_client-append xs ys)
to_client-append (Call.shutdown_client ∷ xs) ys =
    ap (◌∷◌ Call.shutdown_client) (to_client-append xs ys)

-- The events that the loop takes.
abbrev pub while_going : Outcome → (Forward → List Event) → List Event
while_going (going t) f = f t
while_going (ended t) f = []
while_going (failed t) f = []

unfoldable pub taken : Forward → List Event → List Event
taken s [] = []
taken s (e ∷ es) =
    let later = while_going (turn s e) (λ t. taken t es) in
    if is_enabled s e then e ∷ later else later

-- What an event has the session send, and the client's connection write.
abbrev pub sent_for : Event → List Call
sent_for (Event.client_eof ok) = Call.send_fin ∷ []
sent_for (Event.client_data bytes ok) = Call.send_data bytes ∷ []
sent_for e = []

abbrev pub written_for : Event → List Call
written_for (Event.tunnel_data bytes ok) = Call.write_client bytes ∷ []
written_for Event.tunnel_fin = Call.shutdown_client ∷ []
written_for e = []

unfoldable pub sent_by : List Event → List Call
sent_by [] = []
sent_by (e ∷ es) = sent_for e ++ sent_by es

unfoldable pub written_by : List Event → List Call
written_by [] = []
written_by (e ∷ es) = written_for e ++ written_by es

-- From some calls to others these were made.
pub record Made (before after cs ws : List Call) : Type 0 where
  pub tunnel : to_tunnel after ≡ to_tunnel before ++ cs
  pub client : to_client after ≡ to_client before ++ ws

pub calls-Made : (cs ds : List Call) → Made cs (cs ++ ds) (to_tunnel ds) (to_client ds)
calls-Made cs ds = record { tunnel = to_tunnel-append cs ds; client = to_client-append cs ds }

nothing-Made : (cs : List Call) → Made cs cs [] []
nothing-Made cs = record {
  tunnel = sym (append-nil (to_tunnel cs));
  client = sym (append-nil (to_client cs));
}

pub Made-trans :
    {a b d cs ds vs ws : List Call}
    → Made a b cs vs
    → Made b d ds ws
    → Made a d (cs ++ ds) (vs ++ ws)
Made-trans {a} {cs = cs} {ds} {vs} {ws} m n = record {
  tunnel = n.tunnel ∙ ap (λ r. r ++ ds) m.tunnel ∙ append_assoc (to_tunnel a) cs ds;
  client = n.client ∙ ap (λ r. r ++ ws) m.client ∙ append_assoc (to_client a) vs ws;
}

branch_calls :
    (b : Bool) (t : Forward) → (state_of (if b then ended t else going t)).calls ≡ t.calls
branch_calls true t = refl
branch_calls false t = refl

step-Made :
    (s : Forward) (e : Event)
    → Made s.calls (state_of (step s e)).calls (sent_for e) (written_for e)
unfolding step to_tunnel to_client
step-Made s Event.idle_timeout = nothing-Made s.calls
step-Made s (Event.client_eof true) =
    rw (branch_calls s.peer_fin (record (call s Call.send_fin) { client_eof = true }))
      (calls-Made s.calls (Call.send_fin ∷ []))
step-Made s (Event.client_eof false) = calls-Made s.calls (Call.send_fin ∷ [])
step-Made s (Event.client_data bytes true) = calls-Made s.calls (Call.send_data bytes ∷ [])
step-Made s (Event.client_data bytes false) = calls-Made s.calls (Call.send_data bytes ∷ [])
step-Made s Event.client_error = nothing-Made s.calls
step-Made s (Event.tunnel_data bytes true) = calls-Made s.calls (Call.write_client bytes ∷ [])
step-Made s (Event.tunnel_data bytes false) = calls-Made s.calls (Call.write_client bytes ∷ [])
step-Made s Event.tunnel_fin =
    rw (branch_calls s.client_eof (record (call s Call.shutdown_client) { peer_fin = true }))
      (calls-Made s.calls (Call.shutdown_client ∷ []))
step-Made s Event.tunnel_close = nothing-Made s.calls
step-Made s Event.tunnel_gone = nothing-Made s.calls

pub Outcome-cases :
    (o : Outcome)
    → ((t : Forward) × (o ≡ going t))
      ⊎ (((t : Forward) × (o ≡ ended t)) ⊎ ((t : Forward) × (o ≡ failed t)))
Outcome-cases (going t) = inl (t, refl)
Outcome-cases (ended t) = inr (inl (t, refl))
Outcome-cases (failed t) = inr (inr (t, refl))

one-Made : {cs ds vs ws : List Call} → Made cs ds vs ws → Made cs ds (vs ++ []) (ws ++ [])
one-Made {vs = vs} {ws} m = rw (append-nil vs, append-nil ws) m

-- The loop makes the calls for the events that it takes, in their order.
pub forward_events-Made :
    (s : Forward) (es : List Event)
    → Made s.calls
        (state_of (forward_events s es)).calls
        (sent_by (taken s es))
        (written_by (taken s es))
unfolding forward_events taken sent_by written_by
forward_events-Made s [] = nothing-Made s.calls
forward_events-Made s (e ∷ es) = elim (Bool-cases (is_enabled s e)) [
  | inr off ↦ rw off (forward_events-Made s es)
  | inl on ↦
      let first = step-Made s e in
      elim (Outcome-cases (step s e)) [
        | inl (t, went) ↦ rw on (rw went (Made-trans (rw went at first) (forward_events-Made t es)))
        | inr (inl (t, went)) ↦ rw on (rw went (one-Made (rw went at first)))
        | inr (inr (t, went)) ↦ rw on (rw went (one-Made (rw went at first)))
      ]
]
