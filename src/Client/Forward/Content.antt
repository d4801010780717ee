-- ===== src/Client/Forward/Content.antt =====
-- All that a forwarded connection does, from the opening of its session to the farewell.
use srt_vpn.Prelude.{
  ℕ, Bool, true, false, ◌&&◌, List, [], ◌∷◌, ◌++◌, if◌then◌else◌, ◌≡◌, inl, inr, refl, sym, ap, ◌∙◌,
  append_assoc, append-nil, Bool-cases,
}
use srt_vpn.Client.Forward.{
  Call, Event, Forward, Outcome, going, ended, failed, state_of, call, is_enabled, step,
  forward_events, Start, ok_unless, opened, replied, prepared, forward_loop, farewell, finish,
  start_forward_with_reply,
}
use srt_vpn.Client.Forward.Order.{
  to_tunnel, to_client, taken, sent_by, written_by, Outcome-cases, forward_events-Made,
}
use srt_vpn.Client.Forward.Halves.{
  DataThenFin, unfinished, data_sent, WritesThenShutdown, not_shut, written, taken-halves,
}

-- The calls of a state: an Open, then data and at most one Fin; and writes, at most one shutdown.
pub record InOrder (dst : List ℕ) (dst_port : ℕ) (s : Forward) : Type 0 where
  pub cs : List Call
  pub ws : List Call
  pub sent : DataThenFin cs
  pub wrote : WritesThenShutdown ws
  pub tunnel : to_tunnel s.calls ≡ Call.send_open dst dst_port ∷ cs
  pub client : to_client s.calls ≡ ws

opened-InOrder : (dst : List ℕ) (port : ℕ) → InOrder dst port (opened dst port)
unfolding to_tunnel to_client
opened-InOrder dst port = record {
  cs = [];
  ws = [];
  sent = unfinished;
  wrote = not_shut;
  tunnel = refl;
  client = refl;
}

replied-InOrder :
    (dst : List ℕ) (port : ℕ) (reply : List ℕ) → InOrder dst port (replied dst port reply)
unfolding to_tunnel to_client
replied-InOrder dst port [] = opened-InOrder dst port
replied-InOrder dst port (b ∷ reply) = record {
  cs = [];
  ws = Call.write_client (b ∷ reply) ∷ [];
  sent = unfinished;
  wrote = written (b ∷ reply) not_shut;
  tunnel = refl;
  client = refl;
}

-- What is sent and written before the loop.
abbrev pub before_loop : List ℕ → (List ℕ → Call) → List Call
before_loop [] f = []
before_loop (b ∷ bytes) f = f (b ∷ bytes) ∷ []

pub prepared_tunnel :
    (dst : List ℕ) (port : ℕ) (reply prepend : List ℕ)
    → to_tunnel (prepared dst port reply prepend).calls
      ≡ Call.send_open dst port ∷ before_loop prepend Call.send_data
unfolding to_tunnel
prepared_tunnel dst port [] [] = refl
prepared_tunnel dst port [] (b ∷ p) = refl
prepared_tunnel dst port (a ∷ r) [] = refl
prepared_tunnel dst port (a ∷ r) (b ∷ p) = refl

pub prepared_client :
    (dst : List ℕ) (port : ℕ) (reply prepend : List ℕ)
    → to_client (prepared dst port reply prepend).calls ≡ before_loop reply Call.write_client
unfolding to_client
prepared_client dst port [] [] = refl
prepared_client dst port [] (b ∷ p) = refl
prepared_client dst port (a ∷ r) [] = refl
prepared_client dst port (a ∷ r) (b ∷ p) = refl

prepared_running :
    (dst : List ℕ) (port : ℕ) (reply prepend : List ℕ)
    → ((prepared dst port reply prepend).client_eof ≡ false)
      × ((prepared dst port reply prepend).peer_fin ≡ false)
prepared_running dst port [] [] = (refl, refl)
prepared_running dst port [] (b ∷ p) = (refl, refl)
prepared_running dst port (a ∷ r) [] = (refl, refl)
prepared_running dst port (a ∷ r) (b ∷ p) = (refl, refl)

data_before :
    (bytes : List ℕ) {cs : List Call}
    → DataThenFin cs
    → DataThenFin (before_loop bytes Call.send_data ++ cs)
data_before [] d = d
data_before (b ∷ bytes) d = data_sent (b ∷ bytes) d

writes_before :
    (bytes : List ℕ) {cs : List Call}
    → WritesThenShutdown cs
    → WritesThenShutdown (before_loop bytes Call.write_client ++ cs)
writes_before [] d = d
writes_before (b ∷ bytes) d = written (b ∷ bytes) d

prepared-InOrder :
    (dst : List ℕ) (port : ℕ) (reply prepend : List ℕ)
    → InOrder dst port (prepared dst port reply prepend)
prepared-InOrder dst port reply prepend = record {
  cs = before_loop prepend Call.send_data ++ [];
  ws = before_loop reply Call.write_client ++ [];
  sent = data_before prepend unfinished;
  wrote = writes_before reply not_shut;
  tunnel =
      prepared_tunnel dst port reply prepend
      ∙ ap (λ r. Call.send_open dst port ∷ r)
          (sym (append-nil (before_loop prepend Call.send_data)));
  client =
      prepared_client dst port reply prepend
      ∙ sym (append-nil (before_loop reply Call.write_client));
}

-- After the loop.
looped-InOrder :
    (dst : List ℕ) (port : ℕ) (reply prepend : List ℕ) (es : List Event)
    → InOrder dst port (state_of (forward_events (prepared dst port reply prepend) es))
looped-InOrder dst port reply prepend es =
    let s = prepared dst port reply prepend in
    let made = forward_events-Made s es in
    let (no_eof, no_fin) = prepared_running dst port reply prepend in
    let (cs, ws) = taken-halves s es in
    record {
      cs = before_loop prepend Call.send_data ++ sent_by (taken s es);
      ws = before_loop reply Call.write_client ++ written_by (taken s es);
      sent = data_before prepend (rw no_eof at cs);
      wrote = writes_before reply (rw no_fin at ws);
      tunnel =
          made.tunnel
          ∙ ap (λ r. r ++ sent_by (taken s es)) (prepared_tunnel dst port reply prepend);
      client =
          made.client
          ∙ ap (λ r. r ++ written_by (taken s es)) (prepared_client dst port reply prepend);
    }

loop-InOrder :
    (dst : List ℕ) (port : ℕ) (reply prepend : List ℕ) (ready : Start) (es : List Event)
    → InOrder dst port (state_of (forward_loop dst port reply prepend ready es))
unfolding forward_loop
loop-InOrder dst port reply prepend ready es = elim (Bool-cases ready.open_sent) [
  | inr e ↦ rw e (opened-InOrder dst port)
  | inl e ↦ elim (Bool-cases (ok_unless reply ready.reply_written)) [
    | inr f ↦ rw (e, f) (replied-InOrder dst port reply)
    | inl f ↦ elim (Bool-cases (ok_unless prepend ready.prepend_sent)) [
      | inr g ↦ rw (e, f, g) (prepared-InOrder dst port reply prepend)
      | inl g ↦ rw (e, f, g) (looped-InOrder dst port reply prepend es)
    ]
  ]
]

-- While the loop goes on one of the two halves is open.
abbrev HalfOpen : Outcome → Type 0
HalfOpen (going t) = (t.client_eof && t.peer_fin) ≡ false
HalfOpen (ended t) = Unit {0}
HalfOpen (failed t) = Unit {0}

fin_first : (b : Bool) (t : Forward) → t.peer_fin ≡ b → HalfOpen (if b then ended t else going t)
fin_first true t e = tt
fin_first false t e = elim (Bool-cases t.client_eof) [
  | inl f ↦ rw (e, f) refl
  | inr f ↦ rw (e, f) refl
]

eof_first : (b : Bool) (t : Forward) → t.client_eof ≡ b → HalfOpen (if b then ended t else going t)
eof_first true t e = tt
eof_first false t e = rw e refl

step-HalfOpen :
    (s : Forward) (e : Event) → (s.client_eof && s.peer_fin) ≡ false → HalfOpen (step s e)
unfolding step
step-HalfOpen s Event.idle_timeout h = tt
step-HalfOpen s (Event.client_eof true) h =
    fin_first s.peer_fin (record (call s Call.send_fin) { client_eof = true }) refl
step-HalfOpen s (Event.client_eof false) h = tt
step-HalfOpen s (Event.client_data bytes true) h = h
step-HalfOpen s (Event.client_data bytes false) h = tt
step-HalfOpen s Event.client_error h = tt
step-HalfOpen s (Event.tunnel_data bytes true) h = h
step-HalfOpen s (Event.tunnel_data bytes false) h = tt
step-HalfOpen s Event.tunnel_fin h =
    eof_first s.client_eof (record (call s Call.shutdown_client) { peer_fin = true }) refl
step-HalfOpen s Event.tunnel_close h = tt
step-HalfOpen s Event.tunnel_gone h = tt

forward_events-HalfOpen :
    (s : Forward) (es : List Event)
    → (s.client_eof && s.peer_fin) ≡ false
    → HalfOpen (forward_events s es)
unfolding forward_events
forward_events-HalfOpen s [] h = h
forward_events-HalfOpen s (e ∷ es) h = elim (Bool-cases (is_enabled s e)) [
  | inr off ↦ rw off (forward_events-HalfOpen s es h)
  | inl on ↦
      let after = step-HalfOpen s e h in
      elim (Outcome-cases (step s e)) [
        | inl (t, went) ↦ rw on (rw went (forward_events-HalfOpen t es (rw went at after)))
        | inr (inl (t, went)) ↦ rw on (rw went tt)
        | inr (inr (t, went)) ↦ rw on (rw went tt)
      ]
]

-- The calls of a state in order, and behind them the Close of the session and the shutdown of the
-- connection.
pub record Closed (dst : List ℕ) (dst_port : ℕ) (t : Forward) : Type 0 where
  pub before : Forward
  pub in_order : InOrder dst dst_port before
  pub close_last : t.calls ≡ before.calls ++ Call.send_close ∷ Call.shutdown_client ∷ []

abbrev pub Lived : List ℕ → ℕ → Outcome → Type 0
Lived dst dst_port (going t) = InOrder dst dst_port t × ((t.client_eof && t.peer_fin) ≡ false)
Lived dst dst_port (ended t) = Closed dst dst_port t
Lived dst dst_port (failed t) = Closed dst dst_port t

farewell-Closed :
    (dst : List ℕ) (port : ℕ) (s : Forward) → InOrder dst port s → Closed dst port (farewell s)
farewell-Closed dst port s order = record {
  before = s;
  in_order = order;
  close_last = append_assoc s.calls (Call.send_close ∷ []) (Call.shutdown_client ∷ []);
}

finish-Lived :
    (dst : List ℕ) (port : ℕ) (o : Outcome)
    → InOrder dst port (state_of o)
    → HalfOpen o
    → Lived dst port (finish o)
finish-Lived dst port (going t) order h = (order, h)
finish-Lived dst port (ended t) order h = farewell-Closed dst port t order
finish-Lived dst port (failed t) order h = farewell-Closed dst port t order

loop-HalfOpen :
    (dst : List ℕ) (port : ℕ) (reply prepend : List ℕ) (ready : Start) (es : List Event)
    → HalfOpen (forward_loop dst port reply prepend ready es)
unfolding forward_loop
loop-HalfOpen dst port reply prepend ready es = elim (Bool-cases ready.open_sent) [
  | inr e ↦ rw e tt
  | inl e ↦ elim (Bool-cases (ok_unless reply ready.reply_written)) [
    | inr f ↦ rw (e, f) tt
    | inl f ↦ elim (Bool-cases (ok_unless prepend ready.prepend_sent)) [
      | inr g ↦ rw (e, f, g) tt
      | inl g ↦
          let (no_eof, no_fin) = prepared_running dst port reply prepend in
          rw (e, f, g)
            (forward_events-HalfOpen (prepared dst port reply prepend) es (rw no_eof refl))
    ]
  ]
]

-- Whatever events come and whichever calls fail: the session is opened first, then its data are sent
-- and at most one Fin, after which no data are sent; to the connection the data are written and at
-- most one shutdown is made, after which nothing is written. So it is until the forwarding has ended
-- or failed, at whichever point. Then two more calls are made, and these only: a Close, which is the
-- last call to the session and its only Close, and a shutdown of the connection, also where there
-- was one before. While the forwarding goes on, one of the two directions is still open.
pub start_forward_with_reply-Lived :
    (dst : List ℕ) (dst_port : ℕ) (reply prepend : List ℕ) (ready : Start) (events : List Event)
    → Lived dst dst_port (start_forward_with_reply dst dst_port reply prepend ready events)
unfolding start_forward_with_reply
start_forward_with_reply-Lived dst dst_port reply prepend ready events =
    finish-Lived dst dst_port (forward_loop dst dst_port reply prepend ready events)
      (loop-InOrder dst dst_port reply prepend ready events)
      (loop-HalfOpen dst dst_port reply prepend ready events)
