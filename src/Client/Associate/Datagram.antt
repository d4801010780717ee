-- ===== src/Client/Associate/Datagram.antt =====
-- Datagrams to the client are in the form that the relay reads from it.
use srt_vpn.Prelude.{
  ℕ, suc, ◌+◌, ◌%◌, ◌^◌, ◌<◌, Bool, true, false, Option, none, some, List, [], ◌∷◌, ◌++◌, ltb, ◌==◌,
  length, take, All, ◌≡◌, ◌≢◌, inl, inr, refl, sym, ap, ◌∙◌, arith, Option-cases, length-append,
  take-length-append,
}
use srt_vpn.Prelude.Bytes.{u16_be, be_u16-u16_be, get_or-append, drop-append, passes, passes_each}
use srt_vpn.Udp.{Addressed}
use srt_vpn.Client.Socks5.{decimal, dotted}
use srt_vpn.Client.Associate.{
  Texts, host_at, port_and_payload, parse_udp_datagram, split_dots, parse_octet, octets_of, Octets,
  parse_ipv4, reply_datagram,
}

-- Texts without dots stay whole.
split_part :
    (part text : List ℕ)
    → All (λ c. c ≢ b'.') part
    → split_dots (part ++ b'.' ∷ text) ≡ part ∷ split_dots text
unfolding split_dots
split_part [] text a = refl
split_part (c ∷ part) text (ne, a) =
    let other : (c == b'.') ≡ false = ground arith in rw (other, split_part part text a) refl

split_last : (part : List ℕ) → All (λ c. c ≢ b'.') part → split_dots part ≡ part ∷ []
unfolding split_dots
split_last [] a = refl
split_last (c ∷ part) (ne, a) =
    let other : (c == b'.') ≡ false = ground arith in rw (other, split_last part a) refl

decimal_no_dot : (n : ℕ) → n < 256 → All (λ c. c ≢ b'.') (decimal n)
unfolding decimal
decimal_no_dot n h = ground arith

-- A byte's digits are read back.
is_value : Option ℕ → ℕ → Bool
is_value none n = false
is_value (some m) n = m == n

is_value-some : (o : Option ℕ) (n : ℕ) → is_value o n ≡ true → o ≡ some n
unfolding is_value
is_value-some none n h = cc
is_value-some (some m) n h = ap some (ground (arith, h))

octet_table : passes (λ n. is_value (parse_octet (decimal n)) n) 255 ≡ true
unfolding passes is_value parse_octet decimal
octet_table = refl

parse_octet-decimal : (n : ℕ) → n < 256 → parse_octet (decimal n) ≡ some n
parse_octet-decimal n h =
    is_value-some (parse_octet (decimal n)) n
      (passes_each (λ i. is_value (parse_octet (decimal i)) i) n 255 (omega arith) octet_table)

-- The text of an IPv4 address is read as that address.
pub parse_ipv4-dotted :
    (a b c d : ℕ)
    → a < 256
    → b < 256
    → c < 256
    → d < 256
    → parse_ipv4 (dotted a b c d) ≡ some (a, b, c, d)
unfolding parse_ipv4 dotted octets_of
parse_ipv4-dotted a b c d ha hb hc hd =
    rw
      (
        split_part (decimal a) (decimal b ++ b'.' ∷ (decimal c ++ b'.' ∷ decimal d))
            (decimal_no_dot a ha),
        split_part (decimal b) (decimal c ++ b'.' ∷ decimal d) (decimal_no_dot b hb),
        split_part (decimal c) (decimal d) (decimal_no_dot c hc),
        split_last (decimal d) (decimal_no_dot d hd),
        parse_octet-decimal a ha,
        parse_octet-decimal b hb,
        parse_octet-decimal c hc,
        parse_octet-decimal d hd,
      )
      refl

-- The host as the relay writes it: an address in its own text, another host as it is.
abbrev pub text_of : Texts → Option Octets → Option (List ℕ) → List ℕ → List ℕ
text_of x (some (a, b, c, d)) v6 host = dotted a b c d
text_of x none (some octets) host = x.ipv6_text octets
text_of x none none host = host

abbrev pub canonical : Texts → List ℕ → List ℕ
canonical x host = text_of x (parse_ipv4 host) (x.parse_ipv6 host) host

-- The end of a datagram, behind its address.
port_and_payload_back :
    (front host : List ℕ) (port pos : ℕ) (rest : List ℕ)
    → port < 2 ^ 16
    → pos ≡ length front
    → port_and_payload (front ++ (u16_be port ++ rest)) (host, pos)
      ≡ some (record { host = host; port = port; rest = rest })
port_and_payload_back front host port pos rest h e =
    let tail : List ℕ = u16_be port ++ rest in
    let long : ltb (length front + suc (suc (length rest))) (pos + 2) ≡ false = ground arith in
    rw
      (
        length-append front tail,
        long,
        get_or-append front tail 0 pos 0 (omega arith),
        get_or-append front tail 1 (pos + 1) 0 (omega arith),
        be_u16-u16_be port h,
        drop-append front tail 2 (pos + 2) (omega arith),
      )
      refl

parse_v4 :
    (x : Texts) (a b c d port : ℕ) (rest : List ℕ)
    → port < 2 ^ 16
    → parse_udp_datagram x (0 ∷ 0 ∷ 0 ∷ 1 ∷ a ∷ b ∷ c ∷ d ∷ (u16_be port ++ rest))
      ≡ some (record { host = dotted a b c d; port = port; rest = rest })
unfolding parse_udp_datagram host_at
parse_v4 x a b c d port rest h =
    let n = length rest in
    let long : ltb (suc (suc (suc (suc (suc (suc (suc (suc (suc (suc n)))))))))) 4 ≡ false =
      ground arith in
    let fits : ltb (suc (suc (suc (suc (suc (suc (suc (suc (suc (suc n)))))))))) 8 ≡ false =
      ground arith in
    rw (long, fits)
      (port_and_payload_back (0 ∷ 0 ∷ 0 ∷ 1 ∷ a ∷ b ∷ c ∷ d ∷ []) (dotted a b c d) port 8 rest h
        (omega arith))

parse_v6 :
    (x : Texts) (ip : List ℕ) (port : ℕ) (rest : List ℕ)
    → port < 2 ^ 16
    → length ip ≡ 16
    → parse_udp_datagram x (0 ∷ 0 ∷ 0 ∷ 4 ∷ (ip ++ (u16_be port ++ rest)))
      ≡ some (record { host = x.ipv6_text ip; port = port; rest = rest })
unfolding parse_udp_datagram host_at
parse_v6 x ip port rest h size =
    let tail : List ℕ = u16_be port ++ rest in
    let n = length ip + suc (suc (length rest)) in
    let long : ltb (suc (suc (suc (suc n)))) 4 ≡ false = ground arith in
    let fits : ltb (suc (suc (suc (suc n)))) 20 ≡ false = ground arith in
    let address : take 16 (ip ++ tail) ≡ ip =
      ap (λ k. take k (ip ++ tail)) (sym size) ∙ take-length-append ip tail in
    rw (length-append ip tail, long, fits, address)
      (port_and_payload_back (0 ∷ 0 ∷ 0 ∷ 4 ∷ ip) (x.ipv6_text ip) port 20 rest h (omega arith))

parse_domain :
    (x : Texts) (host : List ℕ) (port : ℕ) (rest : List ℕ)
    → port < 2 ^ 16
    → length host < 256
    → x.lossy host ≡ host
    → parse_udp_datagram x (0 ∷ 0 ∷ 0 ∷ 3 ∷ (length host % 256) ∷ (host ++ (u16_be port ++ rest)))
      ≡ some (record { host = host; port = port; rest = rest })
unfolding parse_udp_datagram host_at
parse_domain x host port rest h small valid =
    let tail : List ℕ = u16_be port ++ rest in
    let m = length host in
    let n = m + suc (suc (length rest)) in
    let byte : m % 256 ≡ m = omega arith in
    let long : ltb (suc (suc (suc (suc (suc n))))) 4 ≡ false = ground arith in
    let some_host : ltb (suc (suc (suc (suc (suc n))))) 5 ≡ false = ground arith in
    let fits : ltb (suc (suc (suc (suc (suc n))))) (5 + m) ≡ false = ground arith in
    rw (byte, length-append host tail, long, some_host, fits, take-length-append host tail, valid)
      (port_and_payload_back (0 ∷ 0 ∷ 0 ∷ 3 ∷ m ∷ host) host port (5 + m) rest h (omega arith))

-- What comes from the tunnel for the client is put into a datagram that the relay itself would read
-- as the same port and payload, and as the same host: an IPv4 or IPv6 address in its standard text,
-- and any other host as it is. The port has 16 bits, the host up to 255 bytes that the lossy decoding
-- leaves as they are, and an IPv6 address 16 bytes.
pub reply_datagram-parse_udp_datagram :
    (x : Texts) (a : Addressed)
    → a.port < 2 ^ 16
    → length a.host < 256
    → x.lossy a.host ≡ a.host
    → ((text ip : List ℕ) → x.parse_ipv6 text ≡ some ip → length ip ≡ 16)
    → parse_udp_datagram x (reply_datagram x a)
      ≡ some (record { host = canonical x a.host; port = a.port; rest = a.rest })
unfolding reply_datagram
reply_datagram-parse_udp_datagram x a h small valid sixteen =
    elim (Option-cases (parse_ipv4 a.host)) [
      | inr ((p, q, r, s), e) ↦ rw e (parse_v4 x p q r s a.port a.rest h)
      | inl e ↦ elim (Option-cases (x.parse_ipv6 a.host)) [
        | inr (ip, f) ↦ rw (e, f) (parse_v6 x ip a.port a.rest h (sixteen a.host ip f))
        | inl f ↦ rw (e, f) (parse_domain x a.host a.port a.rest h small valid)
      ]
    ]

-- The text of an IPv4 address is in the standard form.
pub canonical-dotted :
    (x : Texts) (a b c d : ℕ)
    → a < 256
    → b < 256
    → c < 256
    → d < 256
    → canonical x (dotted a b c d) ≡ dotted a b c d
canonical-dotted x a b c d ha hb hc hd = rw (parse_ipv4-dotted a b c d ha hb hc hd) refl
