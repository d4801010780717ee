-- ===== src/Udp.antt =====
-- src/server/forward.rs: UDP datagrams in the frames of a tunnel, whole or in fragments.
-- Text is a list of bytes. What `String::from_utf8_lossy` makes of bytes is the parameter `lossy`.
pub mod Fragments
pub mod AnyOrder
pub mod RoundTrip
pub mod Parts
pub mod Reassembler
use srt_vpn.Prelude.{
  ℕ, zero, suc, ◌+◌, ◌-◌, ◌*◌, ◌/◌, ◌%◌, ◌^◌, Bool, true, false, Option, none, some, List, [], ◌∷◌,
  ◌++◌, ltb, leb, ◌==◌, ◌||◌, if◌then◌else◌, length, get_or, get_elem?, take, drop, get, insert,
  remove, is_some,
}
use srt_vpn.Prelude.Bytes.{u16_be, be_u16}
use srt_vpn.Tunnel.Mux.{frame_data_max}

-- The host, the port and the rest of a frame's payload.
pub record Addressed : Type 0 where
  pub host : List ℕ
  pub port : ℕ
  pub rest : List ℕ

unfoldable pub parse_udp_addr_header : (List ℕ → List ℕ) → List ℕ → Option Addressed
parse_udp_addr_header lossy frame =
    let host_len = get_or frame 0 0 in
    if ltb (length frame) 3
    then none
    else if ltb (length frame) (1 + host_len + 2)
    then none
    else some (record {
      host = lossy (take host_len (drop 1 frame));
      port = be_u16 (get_or frame (1 + host_len) 0) (get_or frame (2 + host_len) 0);
      rest = drop (3 + host_len) frame;
    })

unfoldable pub encode_udp_addr_header_host : List ℕ → ℕ → List ℕ
encode_udp_addr_header_host host port = (length host % 256) ∷ (host ++ u16_be port)

abbrev pub udp_frag_mark : ℕ
udp_frag_mark = 0xFF

-- The fragment `idx`: the address header, the mark, the length, the number, their count, the bytes.
unfoldable pub fragment : List ℕ → ℕ → ℕ → ℕ → List ℕ → List ℕ
fragment addr_header total_len total idx bytes =
    addr_header
    ++ (udp_frag_mark ∷ (u16_be (total_len % 2 ^ 16) ++ ((idx % 256) ∷ ((total % 256) ∷ bytes))))

-- `payload[start..end]`
abbrev pub piece : List ℕ → ℕ → ℕ → List ℕ
piece payload per_part idx = take per_part (drop (idx * per_part) payload)

-- `for idx in 0..total_parts`, from `idx` on
unfoldable pub fragments_from : List ℕ → List ℕ → ℕ → ℕ → ℕ → ℕ → List (List ℕ)
fragments_from addr_header payload per_part total idx zero = []
fragments_from addr_header payload per_part total idx (suc left) =
    fragment addr_header (length payload) total idx (piece payload per_part idx)
    ∷ fragments_from addr_header payload per_part total (idx + 1) left

-- `div_ceil`
abbrev pub div_ceil : ℕ → ℕ → ℕ
div_ceil a b = (a + b - 1) / b

-- `FRAME_DATA_MAX - addr_header.len() - 5`, a usize, which wraps around in a release build
abbrev pub room : ℕ → ℕ
room header_len = (frame_data_max + 2 ^ 64 - header_len - 5) % 2 ^ 64

-- `none` where there is no room for a byte, and the division by 0 panics.
unfoldable pub split_udp_frames : List ℕ → List ℕ → Option (List (List ℕ))
split_udp_frames addr_header payload =
    let per_part = room (length addr_header) in
    let total = div_ceil (length payload) per_part in
    if leb (length payload + (length addr_header + 5)) frame_data_max
    then some ((addr_header ++ payload) ∷ [])
    else if per_part == 0
    then none
    else some (fragments_from addr_header payload per_part total 0 total)
