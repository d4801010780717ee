-- ===== src/Tests/Relays.antt =====
-- Datagrams of a UDP association.
use srt_vpn.Prelude.{ℕ, none, some, List, [], ◌∷◌, ◌++◌, All, ◌≡◌, refl, arith}
use srt_vpn.Udp.{Addressed, parse_udp_addr_header, encode_udp_addr_header_host, split_udp_frames}
use srt_vpn.Udp.Reassembler.{new_reassembler, push, push_addressed}
use srt_vpn.Client.Socks5.{dotted, decimal}
use srt_vpn.Client.Associate.{
  Texts, new_association, Event, host_at, parse_udp_datagram, parse_ipv4, split_dots, octets_of,
  parse_octet, reply_datagram, step,
}
use srt_vpn.Client.Associate.Datagram.{canonical, reply_datagram-parse_udp_datagram}
use srt_vpn.Client.Associate.Replies.{RepliesTo, run_events, first_source, run_events-RepliesTo}

-- Texts are taken as they are, and none is an IPv6 address.
abbrev plain : Texts
plain = record { lossy = λ text. text; ipv6_text = λ ip. ip; parse_ipv6 = λ text. none }

-- To 1.2.3.4:53
abbrev query : List ℕ
query = 0 ∷ 0 ∷ 0 ∷ 1 ∷ 1 ∷ 2 ∷ 3 ∷ 4 ∷ 0 ∷ 53 ∷ 9 ∷ 8 ∷ []

abbrev text_1234 : List ℕ
text_1234 = b'1' ∷ b'.' ∷ b'2' ∷ b'.' ∷ b'3' ∷ b'.' ∷ b'4' ∷ []

query_parsed :
    parse_udp_datagram plain query
    ≡ some (record { host = text_1234; port = 53; rest = 9 ∷ 8 ∷ [] })
unfolding parse_udp_datagram host_at dotted decimal
query_parsed = refl

address_back : parse_ipv4 text_1234 ≡ some (1, 2, 3, 4)
unfolding parse_ipv4 split_dots octets_of parse_octet
address_back = refl

-- Leading zeros are refused.
no_leading_zeros : parse_ipv4 (b'0' ∷ text_1234) ≡ none
unfolding parse_ipv4 split_dots octets_of parse_octet
no_leading_zeros = refl

abbrev answer : Addressed
answer = record { host = text_1234; port = 53; rest = 7 ∷ [] }

reply_datagram-parse_udp_datagram_example :
    parse_udp_datagram plain (reply_datagram plain answer)
    ≡ some (record { host = canonical plain text_1234; port = 53; rest = 7 ∷ [] })
reply_datagram-parse_udp_datagram_example =
    reply_datagram-parse_udp_datagram plain answer (omega arith) (omega arith) refl
      (λ text ip e. cc)

-- Two sources, and an answer.
abbrev two_sources : List Event
two_sources =
    Event.from_client 100 query 9
    ∷ Event.from_client 200 query 9
    ∷ Event.from_tunnel 5 (7 ∷ (text_1234 ++ 0 ∷ 53 ∷ 7 ∷ []))
    ∷ Event.tcp_activity
    ∷ Event.from_client 100 query 9
    ∷ []

-- Both are forwarded; the answer goes to the first.
two_sources_run :
    run_events plain new_association two_sources
    ≡ record { frames = (7 ∷ (text_1234 ++ 0 ∷ 53 ∷ 9 ∷ 8 ∷ [])) ∷ []; reply = none }
      ∷ record { frames = (7 ∷ (text_1234 ++ 0 ∷ 53 ∷ 9 ∷ 8 ∷ [])) ∷ []; reply = none }
      ∷ record { frames = []; reply = some (100, 0 ∷ 0 ∷ 0 ∷ 1 ∷ 1 ∷ 2 ∷ 3 ∷ 4 ∷ 0 ∷ 53 ∷ 7 ∷ []) }
      ∷ []
unfolding run_events new_association step new_reassembler push push_addressed parse_udp_addr_header
    encode_udp_addr_header_host split_udp_frames parse_udp_datagram host_at dotted decimal
    reply_datagram parse_ipv4 split_dots octets_of parse_octet
two_sources_run = refl

run_events-RepliesTo_example :
    All (RepliesTo (first_source two_sources)) (run_events plain new_association two_sources)
run_events-RepliesTo_example = run_events-RepliesTo plain two_sources
