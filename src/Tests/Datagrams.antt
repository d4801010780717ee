-- ===== src/Tests/Datagrams.antt =====
-- src/server/forward.rs: datagrams at concrete targets.
use srt_vpn.Prelude.{
  ℕ, ◌<◌, ◌≡◌, inl, inr, refl, none, some, List, [], ◌∷◌, ◌++◌, arith, replicate, get, get_or, In,
  ◌⊎◌, ℕ_eq-cases,
}
use srt_vpn.Prelude.Bytes.{target_eq}
use srt_vpn.Udp.{
  parse_udp_addr_header, encode_udp_addr_header_host, split_udp_frames, fragments_from,
}
use srt_vpn.Udp.Reassembler.{UdpReassembler, new_reassembler, push, push_row}
use srt_vpn.Udp.Fragments.{parse-encode, push_marked_lost}
use srt_vpn.Udp.RoundTrip.{pick, split-push}

-- The host "h1" and 1400 bytes.
abbrev host : List ℕ
host = b'h' ∷ (b'1' ∷ [])

abbrev big : List ℕ
big = replicate 1400 7

abbrev two_frames : List (List ℕ)
two_frames = fragments_from (encode_udp_addr_header_host host 53) big 1291 2 0 2

parse-encode_example :
    parse_udp_addr_header (λ b. b) (encode_udp_addr_header_host host 53 ++ (9 ∷ []))
    ≡ some (record { host = host; port = 53; rest = 9 ∷ [] })
parse-encode_example = parse-encode (λ b. b) host (9 ∷ []) 53 (omega arith) (omega arith) refl

both : (i : ℕ) → i < 2 → (i ≡ 0) ⊎ In i (1 ∷ (1 ∷ []))
both i lt = elim (ℕ_eq-cases i 0) [ inl e ↦ inl e | inr ne ↦ inr (inl (omega arith)) ]

-- The second frame comes twice, then the first.
split-push_example :
    (r2 r3 : UdpReassembler) × (push_row
        (λ b. b)
        new_reassembler
        (pick two_frames ((0, 1) ∷ ((3, 1) ∷ [])))
      ≡ some (r2, none ∷ (none ∷ [])))
    × (push (λ b. b) 5 r2 (get_or two_frames 0 [])
        ≡ some (r3, some (encode_udp_addr_header_host host 53 ++ big)))
    × (get (host, 53) r3.pending ≡ none)
unfolding split_udp_frames encode_udp_addr_header_host fragments_from new_reassembler get
split-push_example =
    split-push (λ b. b) host 53 big two_frames ((0, 1) ∷ ((3, 1) ∷ [])) 5 0 new_reassembler
      (omega arith) (omega arith) refl (omega arith) (omega arith) refl refl
      ((omega arith, omega arith), ((omega arith, omega arith), tt)) (omega arith) both

push_marked_lost_example :
    (split_udp_frames (encode_udp_addr_header_host host 53) (0xFF ∷ (8 ∷ []))
      ≡ some ((encode_udp_addr_header_host host 53 ++ (0xFF ∷ (8 ∷ []))) ∷ []))
    × (push (λ b. b) 0 new_reassembler (encode_udp_addr_header_host host 53 ++ (0xFF ∷ (8 ∷ [])))
        ≡ some (new_reassembler, none))
push_marked_lost_example =
    push_marked_lost (λ b. b) host 53 (8 ∷ []) 0 new_reassembler (omega arith) (omega arith) refl
      (omega arith)
