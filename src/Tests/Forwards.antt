-- ===== src/Tests/Forwards.antt =====
-- Forwarded connections.
use srt_vpn.Prelude.{ℕ, true, List, [], ◌∷◌, ◌++◌, ◌≡◌, refl}
use srt_vpn.Client.Forward.{
  Call, Event, Start, ended, state_of, step, forward_events, forward_loop, prepared,
  start_forward_with_reply, start_tcp_forward, connect_reply,
}
use srt_vpn.Client.Forward.Order.{taken}
use srt_vpn.Client.Forward.Content.{Lived, start_forward_with_reply-Lived}
use srt_vpn.Client.Forward.Bytes.{
  data_in, written_in, client_bytes, tunnel_bytes, forward_loop_bytes,
}

abbrev all_well : Start
all_well = record { open_sent = true; reply_written = true; prepend_sent = true }

-- The client sends, closes its half and is answered; the last event is not taken any more.
abbrev exchange : List Event
exchange =
    Event.client_data (1 ∷ 2 ∷ []) true
    ∷ Event.tunnel_data (7 ∷ []) true
    ∷ Event.client_eof true
    ∷ Event.client_data (3 ∷ []) true
    ∷ Event.tunnel_data (8 ∷ 9 ∷ []) true
    ∷ Event.tunnel_fin
    ∷ Event.tunnel_data (4 ∷ []) true
    ∷ []

abbrev host : List ℕ
host = b'h' ∷ b'i' ∷ []

exchanged :
    start_tcp_forward host 80 all_well exchange
    ≡ ended (record {
      client_eof = true;
      peer_fin = true;
      tx_total = 2;
      rx_total = 3;
      calls =
          Call.send_open host 80
          ∷ Call.write_client connect_reply
          ∷ Call.send_data (1 ∷ 2 ∷ [])
          ∷ Call.write_client (7 ∷ [])
          ∷ Call.send_fin
          ∷ Call.write_client (8 ∷ 9 ∷ [])
          ∷ Call.shutdown_client
          ∷ Call.send_close
          ∷ Call.shutdown_client
          ∷ [];
    })
unfolding start_tcp_forward start_forward_with_reply forward_loop forward_events step
exchanged = refl

start_forward_with_reply-Lived_example :
    Lived host 80 (start_forward_with_reply host 80 connect_reply [] all_well exchange)
start_forward_with_reply-Lived_example =
    start_forward_with_reply-Lived host 80 connect_reply [] all_well exchange

forward_loop_bytes_example :
    (data_in (state_of (forward_loop host 80 connect_reply (6 ∷ []) all_well exchange)).calls
      ≡ 6 ∷ client_bytes (taken (prepared host 80 connect_reply (6 ∷ [])) exchange))
    × (written_in (state_of (forward_loop host 80 connect_reply (6 ∷ []) all_well exchange)).calls
        ≡ connect_reply ++ tunnel_bytes (taken (prepared host 80 connect_reply (6 ∷ [])) exchange))
forward_loop_bytes_example =
    forward_loop_bytes host 80 connect_reply (6 ∷ []) all_well exchange refl refl refl
