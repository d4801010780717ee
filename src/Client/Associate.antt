-- ===== src/Client/Associate.antt =====
-- src/client/socks5.rs: the datagrams of a UDP association.
-- A call returns `none` where it panics. The address of a datagram's source is a number.
pub mod Datagram
pub mod Replies
use srt_vpn.Prelude.{
  ℕ, suc, ◌+◌, ◌-◌, ◌*◌, ◌%◌, Bool, true, false, not, ◌&&◌, ◌||◌, Option, none, some, List, [], ◌∷◌,
  ◌++◌, ltb, leb, ◌==◌, if◌then◌else◌, length, get_or, take, drop, is_some, ◌>>=◌,
}
use srt_vpn.Prelude.Bytes.{u16_be, be_u16}
use srt_vpn.Udp.{Addressed, parse_udp_addr_header, encode_udp_addr_header_host, split_udp_frames}
use srt_vpn.Udp.Reassembler.{UdpReassembler, new_reassembler, push}
use srt_vpn.Client.Socks5.{dotted_octets}

-- `String::from_utf8_lossy`, and the standard library's text of an IPv6 address and its reading.
pub record Texts : Type 0 where
  pub lossy : List ℕ → List ℕ
  pub ipv6_text : List ℕ → List ℕ
  pub parse_ipv6 : List ℕ → Option (List ℕ)

-- The host at a place of a datagram, and the place behind it.
unfoldable pub host_at : Texts → List ℕ → ℕ → ℕ → Option (List ℕ × ℕ)
host_at x datagram atyp pos =
    let dlen = get_or datagram pos 0 in
    if atyp == 0x01
    then (if ltb (length datagram) (pos + 4)
        then none
        else some (dotted_octets (take 4 (drop pos datagram)), pos + 4))
    else if atyp == 0x03
    then (if ltb (length datagram) (pos + 1)
        then none
        else if ltb (length datagram) (pos + 1 + dlen)
        then none
        else some (x.lossy (take dlen (drop (pos + 1) datagram)), pos + 1 + dlen))
    else if atyp == 0x04
    then (if ltb (length datagram) (pos + 16)
        then none
        else some (x.ipv6_text (take 16 (drop pos datagram)), pos + 16))
    else none

abbrev pub port_and_payload : List ℕ → List ℕ × ℕ → Option Addressed
port_and_payload datagram (host, pos) =
    if ltb (length datagram) (pos + 2)
    then none
    else some (record {
      host = host;
      port = be_u16 (get_or datagram pos 0) (get_or datagram (pos + 1) 0);
      rest = drop (pos + 2) datagram;
    })

unfoldable pub parse_udp_datagram : Texts → List ℕ → Option Addressed
parse_udp_datagram x datagram =
    if ltb (length datagram) 4
    then none
    else if not (get_or datagram 2 0 == 0)
    then none
    else (host_at x datagram (get_or datagram 3 0) 4 >>= port_and_payload datagram)

-- `str::parse::<Ipv4Addr>`: four numbers up to 255 between dots, without leading zeros.
abbrev pub put_first : ℕ → List (List ℕ) → List (List ℕ)
put_first c [] = (c ∷ []) ∷ []
put_first c (part ∷ parts) = (c ∷ part) ∷ parts

unfoldable pub split_dots : List ℕ → List (List ℕ)
split_dots [] = [] ∷ []
split_dots (c ∷ text) =
    let parts = split_dots text in if c == b'.' then [] ∷ parts else put_first c parts

abbrev pub is_digit : ℕ → Bool
is_digit c = leb b'0' c && leb c b'9'

unfoldable pub parse_octet : List ℕ → Option ℕ
parse_octet (a ∷ []) = if is_digit a then some (a - 48) else none
parse_octet (a ∷ b ∷ []) =
    if is_digit a && is_digit b && not (a == b'0') then some ((a - 48) * 10 + (b - 48)) else none
parse_octet (a ∷ b ∷ c ∷ []) =
    let n = (a - 48) * 100 + (b - 48) * 10 + (c - 48) in
    if is_digit a && is_digit b && is_digit c && not (a == b'0') && leb n 255 then some n else none
parse_octet _ = none

abbrev pub Octets : Type 0
Octets = ℕ × ℕ × ℕ × ℕ

unfoldable pub octets_of : List (List ℕ) → Option Octets
octets_of (p ∷ q ∷ r ∷ s ∷ []) = do
  a ← parse_octet p
  b ← parse_octet q
  c ← parse_octet r
  d ← parse_octet s
  some (a, b, c, d)
octets_of _ = none

unfoldable pub parse_ipv4 : List ℕ → Option Octets
parse_ipv4 text = octets_of (split_dots text)

-- The address of a datagram to the client, by what its host is.
abbrev pub address_field : Option Octets → Option (List ℕ) → List ℕ → List ℕ
address_field (some (a, b, c, d)) v6 host = 0x01 ∷ a ∷ b ∷ c ∷ d ∷ []
address_field none (some octets) host = 0x04 ∷ octets
address_field none none host = 0x03 ∷ (length host % 256) ∷ host

unfoldable pub reply_datagram : Texts → Addressed → List ℕ
reply_datagram x a =
    0
    ∷ 0
    ∷ 0
    ∷ (address_field (parse_ipv4 a.host) (x.parse_ipv6 a.host) a.host ++ (u16_be a.port ++ a.rest))

pub record Association : Type 0 where
  pub client_addr : Option ℕ
  pub reassembler : UdpReassembler

unfoldable pub new_association : Association
new_association = record { client_addr = none; reassembler = new_reassembler }

-- A datagram at the relay, with its source and the number of frames that the session sends before
-- one fails; data of the session, with the time; and the events that end the association: nothing
-- for 300 s, anything on the control connection, an error of the relay, the end of the session.
pub data Event : Type 0 where
  from_client : ℕ → List ℕ → ℕ → Event
  from_tunnel : ℕ → List ℕ → Event
  idle_timeout tcp_activity relay_error session_gone : Event

-- What an event has the association do: frames to send, and a datagram with where it goes.
pub record Effects : Type 0 where
  pub frames : List (List ℕ)
  pub reply : Option (ℕ × List ℕ)

pub data Turn : Type 0 where
  goes_on : Association → Effects → Turn
  ends : Turn

abbrev pub nothing : Effects
nothing = record { frames = []; reply = none }

-- `client_addr_opt = Some(src)` if there was none
abbrev pub lock_client : Option ℕ → ℕ → Option ℕ
lock_client none src = some src
lock_client (some addr) src = some addr

-- Frames are sent up to the first that fails.
abbrev pub forward_datagram : Option Addressed → ℕ → Option Effects
forward_datagram none sends = some nothing
forward_datagram (some a) sends = do
  frames ← split_udp_frames (encode_udp_addr_header_host a.host a.port) a.rest
  some (record { frames = take (suc sends) frames; reply = none })

abbrev pub answer_client : Texts → Option ℕ → Option Addressed → Option (ℕ × List ℕ)
answer_client x (some addr) (some a) = some (addr, reply_datagram x a)
answer_client x client_addr answer = none

abbrev pub parse_whole : Texts → Option (List ℕ) → Option Addressed
parse_whole x none = none
parse_whole x (some full) = parse_udp_addr_header x.lossy full

unfoldable pub step : Texts → Association → Event → Option Turn
step x s (Event.from_client src datagram sends) = do
  effects ← forward_datagram (parse_udp_datagram x datagram) sends
  some (Turn.goes_on (record s { client_addr = lock_client s.client_addr src }) effects)
step x s (Event.from_tunnel now content) = do
  pushed ← push x.lossy now s.reassembler content
  some (
      Turn.goes_on (record s { reassembler = pushed.0 })
        (record { frames = []; reply = answer_client x s.client_addr (parse_whole x pushed.1) }))
step x s Event.idle_timeout = some Turn.ends
step x s Event.tcp_activity = some Turn.ends
step x s Event.relay_error = some Turn.ends
step x s Event.session_gone = some Turn.ends
