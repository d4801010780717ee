-- ===== src/Udp/Fragments.antt =====
-- src/server/forward.rs: the fragments of a datagram are put together again, in any order.
use srt_vpn.Prelude.{
  ℕ, suc, ◌+◌, ◌/◌, ◌%◌, ◌^◌, ◌≤◌, ◌<◌, ◌≡◌, ◌≢◌, refl, true, false, none, some, List, [], ◌∷◌,
  ◌++◌, arith, length, drop, get_or, length-append, take-length-append, append_assoc, leb, ltb,
  ◌==◌,
}
use srt_vpn.Prelude.Bytes.{get_or-append, drop-append, u16_be, be_u16-u16_be, target_eq}
use srt_vpn.Udp.{
  parse_udp_addr_header, encode_udp_addr_header_host, udp_frag_mark, split_udp_frames,
}
use srt_vpn.Udp.Reassembler.{UdpReassembler, push_addressed, push}
use srt_vpn.Tunnel.Mux.{frame_data_max}

-- An address header that was written, for a host of up to 255 bytes that the lossy decoding leaves
-- as it is and a port of 16 bits, is read back, with what follows it.
pub parse-encode :
    (lossy : List ℕ → List ℕ) (host rest : List ℕ) (port : ℕ)
    → length host < 256
    → port < 2 ^ 16
    → lossy host ≡ host
    → parse_udp_addr_header lossy (encode_udp_addr_header_host host port ++ rest)
      ≡ some (record { host = host; port = port; rest = rest })
unfolding parse_udp_addr_header encode_udp_addr_header_host
parse-encode lossy host rest port small hp valid =
    let n : length host % 256 ≡ length host = omega arith in
    let back : (host ++ u16_be port) ++ rest ≡ host ++ (u16_be port ++ rest) =
      append_assoc host (u16_be port) rest in
    let m = length host in
    let tail : List ℕ = u16_be port ++ rest in
    let text = host ++ tail in
    let hi : get_or (m ∷ text) (1 + m) 0 ≡ port / 256 % 256 =
      get_or-append (m ∷ host) tail 0 (1 + m) 0 (omega arith) in
    let lo : get_or (m ∷ text) (2 + m) 0 ≡ port % 256 =
      get_or-append (m ∷ host) tail 1 (2 + m) 0 (omega arith) in
    let behind : drop (3 + m) (m ∷ text) ≡ rest =
      drop-append (m ∷ host) tail 2 (3 + m) (omega arith) in
    let long : ltb (suc (m + suc (suc (length rest)))) 3 ≡ false = ground arith in
    let fits : ltb (suc (m + suc (suc (length rest)))) (1 + m + 2) ≡ false = ground arith in
    rw
      (
        n,
        back,
        length-append,
        long,
        fits,
        take-length-append,
        valid,
        hi,
        lo,
        be_u16-u16_be port hp,
        behind,
      )
      refl

length-encode :
    (host : List ℕ) (port : ℕ) → length (encode_udp_addr_header_host host port) ≡ length host + 3
unfolding encode_udp_addr_header_host
length-encode host port = rw length-append (omega arith)

-- A datagram that is not empty, does not begin with 0xFF and fits one frame goes out as one frame,
-- and comes out of it at once, whatever is pending.
pub push_small :
    (lossy : List ℕ → List ℕ) (host : List ℕ) (port b : ℕ) (payload : List ℕ) (now : ℕ)
    (r : UdpReassembler)
    → length host < 256
    → port < 2 ^ 16
    → lossy host ≡ host
    → b ≢ udp_frag_mark
    → let header = encode_udp_addr_header_host host port in
      length (b ∷ payload) + (length header + 5) ≤ frame_data_max
      → (split_udp_frames header (b ∷ payload) ≡ some ((header ++ (b ∷ payload)) ∷ []))
        × (push lossy now r (header ++ (b ∷ payload)) ≡ some (r, some (header ++ (b ∷ payload))))
unfolding split_udp_frames push push_addressed
push_small lossy host port b payload now r hf pf valid plain fits =
    let small : leb (suc (length payload) + (length (encode_udp_addr_header_host host port) + 5))
          frame_data_max
        ≡ true =
      ground (arith, fits) in
    let unmarked : (b == udp_frag_mark) ≡ false = ground (arith, plain) in
    let some_byte : (length (b ∷ payload) == 0) ≡ false = ground arith in
    (
      rw small refl,
      rw (parse-encode lossy host (b ∷ payload) port hf pf valid, some_byte, unmarked) refl,
    )

-- A datagram of up to 4 bytes that begins with 0xFF goes out as one frame too, but is taken there
-- for a fragment with too short a header: it is lost.
pub push_marked_lost :
    (lossy : List ℕ → List ℕ) (host : List ℕ) (port : ℕ) (payload : List ℕ) (now : ℕ)
    (r : UdpReassembler)
    → length host < 256
    → port < 2 ^ 16
    → lossy host ≡ host
    → length payload < 4
    → let header = encode_udp_addr_header_host host port in
      (split_udp_frames header (udp_frag_mark ∷ payload)
        ≡ some ((header ++ (udp_frag_mark ∷ payload)) ∷ []))
      × (push lossy now r (header ++ (udp_frag_mark ∷ payload)) ≡ some (r, none))
unfolding split_udp_frames push push_addressed
push_marked_lost lossy host port payload now r hf pf valid short =
    let small : leb (suc (length payload) + (length (encode_udp_addr_header_host host port) + 5))
          frame_data_max
        ≡ true =
      ground (arith, length-encode host port) in
    let some_byte : (length (udp_frag_mark ∷ payload) == 0) ≡ false = ground arith in
    let cut_off : ltb (length (udp_frag_mark ∷ payload)) 5 ≡ true = ground arith in
    (
      rw small refl,
      rw (parse-encode lossy host (udp_frag_mark ∷ payload) port hf pf valid, some_byte, cut_off)
          refl,
    )
