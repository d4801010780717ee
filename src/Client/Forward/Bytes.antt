-- ===== src/Client/Forward/Bytes.antt =====
-- The bytes that a forwarded connection passes on.
use srt_vpn.Prelude.{ℕ, true, List, [], ◌∷◌, ◌++◌, ◌≡◌, refl, sym, ap, ◌∙◌}
use srt_vpn.Client.Forward.{
  Call, Event, state_of, forward_events, Start, ok_unless, prepared, forward_loop,
}
use srt_vpn.Client.Forward.Order.{
  to_tunnel, to_client, taken, sent_by, written_by, forward_events-Made,
}
use srt_vpn.Client.Forward.Content.{before_loop, prepared_tunnel, prepared_client}

-- The data that calls send, and those that they write.
unfoldable pub data_in : List Call → List ℕ
data_in [] = []
data_in (Call.send_data bytes ∷ cs) = bytes ++ data_in cs
data_in (c ∷ cs) = data_in cs

unfoldable pub written_in : List Call → List ℕ
written_in [] = []
written_in (Call.write_client bytes ∷ cs) = bytes ++ written_in cs
written_in (c ∷ cs) = written_in cs

-- The data that the client sends in some events, and those that the other side does.
unfoldable pub client_bytes : List Event → List ℕ
client_bytes [] = []
client_bytes (Event.client_data bytes sent ∷ es) = bytes ++ client_bytes es
client_bytes (e ∷ es) = client_bytes es

unfoldable pub tunnel_bytes : List Event → List ℕ
tunnel_bytes [] = []
tunnel_bytes (Event.tunnel_data bytes written ∷ es) = bytes ++ tunnel_bytes es
tunnel_bytes (e ∷ es) = tunnel_bytes es

data_in-to_tunnel : (cs : List Call) → data_in (to_tunnel cs) ≡ data_in cs
unfolding data_in to_tunnel
data_in-to_tunnel [] = refl
data_in-to_tunnel (Call.send_open h p ∷ cs) = data_in-to_tunnel cs
data_in-to_tunnel (Call.send_data b ∷ cs) = ap (λ r. b ++ r) (data_in-to_tunnel cs)
data_in-to_tunnel (Call.send_fin ∷ cs) = data_in-to_tunnel cs
data_in-to_tunnel (Call.send_close ∷ cs) = data_in-to_tunnel cs
data_in-to_tunnel (Call.write_client b ∷ cs) = data_in-to_tunnel cs
data_in-to_tunnel (Call.shutdown_client ∷ cs) = data_in-to_tunnel cs

written_in-to_client : (cs : List Call) → written_in (to_client cs) ≡ written_in cs
unfolding written_in to_client
written_in-to_client [] = refl
written_in-to_client (Call.send_open h p ∷ cs) = written_in-to_client cs
written_in-to_client (Call.send_data b ∷ cs) = written_in-to_client cs
written_in-to_client (Call.send_fin ∷ cs) = written_in-to_client cs
written_in-to_client (Call.send_close ∷ cs) = written_in-to_client cs
written_in-to_client (Call.write_client b ∷ cs) = ap (λ r. b ++ r) (written_in-to_client cs)
written_in-to_client (Call.shutdown_client ∷ cs) = written_in-to_client cs

data_in-sent_by : (es : List Event) → data_in (sent_by es) ≡ client_bytes es
unfolding data_in sent_by client_bytes
data_in-sent_by [] = refl
data_in-sent_by (Event.idle_timeout ∷ es) = data_in-sent_by es
data_in-sent_by (Event.client_eof ok ∷ es) = data_in-sent_by es
data_in-sent_by (Event.client_data b ok ∷ es) = ap (λ r. b ++ r) (data_in-sent_by es)
data_in-sent_by (Event.client_error ∷ es) = data_in-sent_by es
data_in-sent_by (Event.tunnel_data b ok ∷ es) = data_in-sent_by es
data_in-sent_by (Event.tunnel_fin ∷ es) = data_in-sent_by es
data_in-sent_by (Event.tunnel_close ∷ es) = data_in-sent_by es
data_in-sent_by (Event.tunnel_gone ∷ es) = data_in-sent_by es

written_in-written_by : (es : List Event) → written_in (written_by es) ≡ tunnel_bytes es
unfolding written_in written_by tunnel_bytes
written_in-written_by [] = refl
written_in-written_by (Event.idle_timeout ∷ es) = written_in-written_by es
written_in-written_by (Event.client_eof ok ∷ es) = written_in-written_by es
written_in-written_by (Event.client_data b ok ∷ es) = written_in-written_by es
written_in-written_by (Event.client_error ∷ es) = written_in-written_by es
written_in-written_by (Event.tunnel_data b ok ∷ es) = ap (λ r. b ++ r) (written_in-written_by es)
written_in-written_by (Event.tunnel_fin ∷ es) = written_in-written_by es
written_in-written_by (Event.tunnel_close ∷ es) = written_in-written_by es
written_in-written_by (Event.tunnel_gone ∷ es) = written_in-written_by es

data_before_loop :
    (bytes : List ℕ) (cs : List Call)
    → data_in (before_loop bytes Call.send_data ++ cs) ≡ bytes ++ data_in cs
unfolding data_in
data_before_loop [] cs = refl
data_before_loop (b ∷ bytes) cs = refl

written_before_loop :
    (bytes : List ℕ) (cs : List Call)
    → written_in (before_loop bytes Call.write_client ++ cs) ≡ bytes ++ written_in cs
unfolding written_in
written_before_loop [] cs = refl
written_before_loop (b ∷ bytes) cs = refl

-- If the calls before the loop succeed, then whatever events come: the data that the session is
-- given to send are the bytes read ahead and those of the client in the events that the loop takes,
-- and the data written to the client are the reply and those that arrive in these events, both in
-- their order, with nothing lost, added or repeated. A call that fails is counted: it is the last.
pub forward_loop_bytes :
    (dst : List ℕ) (dst_port : ℕ) (reply prepend : List ℕ) (ready : Start) (events : List Event)
    → ready.open_sent ≡ true
    → ok_unless reply ready.reply_written ≡ true
    → ok_unless prepend ready.prepend_sent ≡ true
    → (data_in (state_of (forward_loop dst dst_port reply prepend ready events)).calls
        ≡ prepend ++ client_bytes (taken (prepared dst dst_port reply prepend) events))
      × (written_in (state_of (forward_loop dst dst_port reply prepend ready events)).calls
          ≡ reply ++ tunnel_bytes (taken (prepared dst dst_port reply prepend) events))
unfolding forward_loop data_in
forward_loop_bytes dst dst_port reply prepend ready events e f g =
    let s = prepared dst dst_port reply prepend in
    let made = forward_events-Made s events in
    let t = state_of (forward_events s events) in
    let es = taken s events in
    rw (e, f, g)
      (
        sym (data_in-to_tunnel t.calls)
            ∙ ap data_in (
                made.tunnel
                ∙ ap (λ r. r ++ sent_by es) (prepared_tunnel dst dst_port reply prepend))
            ∙ data_before_loop prepend (sent_by es)
            ∙ ap (λ r. prepend ++ r) (data_in-sent_by es),
        sym (written_in-to_client t.calls)
            ∙ ap written_in (
                made.client
                ∙ ap (λ r. r ++ written_by es) (prepared_client dst dst_port reply prepend))
            ∙ written_before_loop reply (written_by es)
            ∙ ap (λ r. reply ++ r) (written_in-written_by es),
      )
