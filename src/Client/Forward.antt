-- ===== src/Client/Forward.antt =====
-- src/client/proxy.rs: a TCP connection and a session of the tunnel, each forwarded to the other.
-- What happens is a row of events, of which `select!` takes one at a time; with an event comes
-- whether the sending or writing that it leads to succeeds.
pub mod Order
pub mod Halves
pub mod Content
pub mod Bytes
use srt_vpn.Prelude.{
  ℕ, ◌+◌, ◌%◌, ◌^◌, Bool, true, false, not, List, [], ◌∷◌, ◌++◌, length, if◌then◌else◌,
}

-- What is asked of the session and of the client's connection, in order, failures included.
pub data Call : Type 0 where
  send_open : List ℕ → ℕ → Call
  send_data : List ℕ → Call
  send_fin send_close : Call
  write_client : List ℕ → Call
  shutdown_client : Call

pub data Event : Type 0 where
  idle_timeout : Event
  client_eof : Bool → Event
  client_data : List ℕ → Bool → Event
  client_error : Event
  tunnel_data : List ℕ → Bool → Event
  tunnel_fin tunnel_close tunnel_gone : Event

pub record Forward : Type 0 where
  pub client_eof : Bool
  pub peer_fin : Bool
  pub tx_total : ℕ
  pub rx_total : ℕ
  pub calls : List Call

-- The loop goes on, has left by `break`, or has returned an error.
pub data Outcome : Type 0 where
  going ended failed : Forward → Outcome

abbrev pub state_of : Outcome → Forward
state_of (going s) = s
state_of (ended s) = s
state_of (failed s) = s

abbrev pub call : Forward → Call → Forward
call s c = record s { calls = s.calls ++ c ∷ [] }

-- `...await?`
abbrev pub or_fail : Bool → Outcome → Forward → Outcome
or_fail true next s = next
or_fail false next s = failed s

-- The conditions of the branches of `select!`.
abbrev pub is_enabled : Forward → Event → Bool
is_enabled s Event.idle_timeout = true
is_enabled s (Event.client_eof sent) = not s.client_eof
is_enabled s (Event.client_data bytes sent) = not s.client_eof
is_enabled s Event.client_error = not s.client_eof
is_enabled s (Event.tunnel_data bytes written) = not s.peer_fin
is_enabled s Event.tunnel_fin = not s.peer_fin
is_enabled s Event.tunnel_close = not s.peer_fin
is_enabled s Event.tunnel_gone = not s.peer_fin

-- The branch of an event. The totals are atomics of 64 bits.
unfoldable pub step : Forward → Event → Outcome
step s Event.idle_timeout = ended s
step s (Event.client_eof sent) =
    let t = record (call s Call.send_fin) { client_eof = true } in
    or_fail sent (if s.peer_fin then ended t else going t) (call s Call.send_fin)
step s (Event.client_data bytes sent) =
    let t = record (call s (Call.send_data bytes)) {
      tx_total = (s.tx_total + length bytes) % 2 ^ 64;
    } in
    or_fail sent (going t) t
step s Event.client_error = failed s
step s (Event.tunnel_data bytes written) =
    let t = record (call s (Call.write_client bytes)) {
      rx_total = (s.rx_total + length bytes) % 2 ^ 64;
    } in
    or_fail written (going t) t
step s Event.tunnel_fin =
    let t = record (call s Call.shutdown_client) { peer_fin = true } in
    if s.client_eof then ended t else going t
step s Event.tunnel_close = ended s
step s Event.tunnel_gone = ended s

-- An event whose branch is disabled is not taken.
abbrev pub turn : Forward → Event → Outcome
turn s e = if is_enabled s e then step s e else going s

abbrev pub next_round : Outcome → (Forward → Outcome) → Outcome
next_round (going t) f = f t
next_round (ended t) f = ended t
next_round (failed t) f = failed t

-- The loop over the events that come.
unfoldable pub forward_events : Forward → List Event → Outcome
forward_events s [] = going s
forward_events s (e ∷ es) = next_round (turn s e) (λ t. forward_events t es)

-- Whether the calls before the loop succeed.
pub record Start : Type 0 where
  pub open_sent : Bool
  pub reply_written : Bool
  pub prepend_sent : Bool

abbrev pub no_calls : Forward
no_calls = record { client_eof = false; peer_fin = false; tx_total = 0; rx_total = 0; calls = [] }

-- A call that is left out for no bytes.
abbrev pub call_unless_empty : List ℕ → Call → Forward → Forward
call_unless_empty [] c s = s
call_unless_empty (b ∷ bytes) c s = call s c

abbrev pub ok_unless : List ℕ → Bool → Bool
ok_unless [] ok = true
ok_unless (b ∷ bytes) ok = ok

abbrev pub opened : List ℕ → ℕ → Forward
opened dst dst_port = call no_calls (Call.send_open dst dst_port)

abbrev pub replied : List ℕ → ℕ → List ℕ → Forward
replied dst dst_port reply = call_unless_empty reply (Call.write_client reply) (opened dst dst_port)

abbrev pub prepared : List ℕ → ℕ → List ℕ → List ℕ → Forward
prepared dst dst_port reply prepend =
    call_unless_empty prepend (Call.send_data prepend) (replied dst dst_port reply)

unfoldable pub forward_loop : List ℕ → ℕ → List ℕ → List ℕ → Start → List Event → Outcome
forward_loop dst dst_port reply prepend ready events =
    or_fail ready.open_sent
      (or_fail (ok_unless reply ready.reply_written)
        (or_fail (ok_unless prepend ready.prepend_sent)
          (forward_events (prepared dst dst_port reply prepend) events)
          (prepared dst dst_port reply prepend))
        (replied dst dst_port reply))
      (opened dst dst_port)

-- Close is sent and the connection shut down, whatever the loop's result.
abbrev pub farewell : Forward → Forward
farewell s = call (call s Call.send_close) Call.shutdown_client

abbrev pub finish : Outcome → Outcome
finish (going s) = going s
finish (ended s) = ended (farewell s)
finish (failed s) = failed (farewell s)

-- For a session that has been allocated.
unfoldable pub start_forward_with_reply :
    List ℕ → ℕ → List ℕ → List ℕ → Start → List Event → Outcome
start_forward_with_reply dst dst_port reply prepend ready events =
    finish (forward_loop dst dst_port reply prepend ready events)

-- The reply of a SOCKS5 CONNECT.
abbrev pub connect_reply : List ℕ
connect_reply = 0x05 ∷ 0x00 ∷ 0x00 ∷ 0x01 ∷ 127 ∷ 0 ∷ 0 ∷ 1 ∷ 0 ∷ 0 ∷ []

unfoldable pub start_tcp_forward : List ℕ → ℕ → Start → List Event → Outcome
start_tcp_forward dst dst_port ready events =
    start_forward_with_reply dst dst_port connect_reply [] ready events
