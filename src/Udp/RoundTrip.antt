-- ===== src/Udp/RoundTrip.antt =====
-- src/server/forward.rs: a datagram that `split_udp_frames` cuts is put together by `push`.
use srt_vpn.Prelude.{
  ℕ, zero, suc, ◌+◌, ◌-◌, ◌*◌, ◌^◌, ◌≤◌, ◌<◌, ◌≡◌, ◌≢◌, ◌⊎◌, inl, inr, refl, false, none, some,
  List, [], ◌∷◌, ◌++◌, arith, length, take, drop, get_or, replicate, ap, sym, ◌∙◌, get,
  length-append, leb, leb→le, ◌==◌, Bool-cases, In, All, map, All-map,
}
use native.Mathlib.Nat.{div-add-mod', mod-lt, zero-mul, mul-le-mul_right}
use srt_vpn.Prelude.Bytes.{target_eq}
use srt_vpn.Tunnel.Mux.{frame_data_max}
use srt_vpn.Udp.{
  encode_udp_addr_header_host, fragment, fragments_from, piece, div_ceil, room, split_udp_frames,
}
use srt_vpn.Udp.Reassembler.{UdpReassembler, push, push_row}
use srt_vpn.Udp.Parts.{concat}
use srt_vpn.Udp.AnyOrder.{frag, frames, frames_complete}

-- The pieces from `idx` on.
pieces_from : List ℕ → ℕ → ℕ → ℕ → List (List ℕ)
pieces_from payload per idx zero = []
pieces_from payload per idx (suc left) =
    piece payload per idx ∷ pieces_from payload per (idx + 1) left

length-pieces_from :
    (payload : List ℕ) (per idx left : ℕ) → length (pieces_from payload per idx left) ≡ left
unfolding pieces_from
length-pieces_from payload per idx zero = refl
length-pieces_from payload per idx (suc left) =
    ap suc (length-pieces_from payload per (idx + 1) left)

length-fragments_from :
    (header payload : List ℕ) (per total idx left : ℕ)
    → length (fragments_from header payload per total idx left) ≡ left
unfolding fragments_from
length-fragments_from header payload per total idx zero = refl
length-fragments_from header payload per total idx (suc left) =
    ap suc (length-fragments_from header payload per total (idx + 1) left)

get_or-fragments_from :
    (header payload : List ℕ) (per total idx left i j : ℕ)
    → i < left
    → j ≡ idx + i
    → get_or (fragments_from header payload per total idx left) i []
      ≡ fragment header (length payload) total j (get_or (pieces_from payload per idx left) i [])
unfolding fragments_from pieces_from
get_or-fragments_from header payload per total idx zero i j lt e = absurd (omega arith)
get_or-fragments_from header payload per total idx (suc left) zero j lt e =
    let same : j ≡ idx = omega arith in rw same refl
get_or-fragments_from header payload per total idx (suc left) (suc i) j lt e =
    get_or-fragments_from header payload per total (idx + 1) left i j (omega arith) (omega arith)

take-take-drop : (a b c : ℕ) (xs : List ℕ) → c ≡ a + b → take a xs ++ take b (drop a xs) ≡ take c xs
take-take-drop zero b c xs e = let same : c ≡ b = omega arith in rw same refl
take-take-drop (suc a) b zero xs e = absurd (omega arith)
take-take-drop (suc a) zero (suc c) [] e = refl
take-take-drop (suc a) (suc b) (suc c) [] e = refl
take-take-drop (suc a) b (suc c) (x ∷ xs) e =
    ap (λ (l : List ℕ). x ∷ l) (take-take-drop a b c xs (omega arith))

drop-drop : (a b c : ℕ) (xs : List ℕ) → c ≡ a + b → drop b (drop a xs) ≡ drop c xs
drop-drop zero b c xs e = let same : c ≡ b = omega arith in rw same refl
drop-drop (suc a) b zero xs e = absurd (omega arith)
drop-drop (suc a) zero (suc c) [] e = refl
drop-drop (suc a) (suc b) (suc c) [] e = refl
drop-drop (suc a) b (suc c) (x ∷ xs) e = drop-drop a b c xs (omega arith)

take-all : (n : ℕ) (xs : List ℕ) → length xs ≤ n → take n xs ≡ xs
take-all zero [] h = refl
take-all (suc n) [] h = refl
take-all zero (x ∷ xs) h = absurd (omega arith)
take-all (suc n) (x ∷ xs) h = ap (λ (l : List ℕ). x ∷ l) (take-all n xs (omega arith))

div_ceil-covers : (n per : ℕ) → 1 ≤ per → n ≤ div_ceil n per * per
div_ceil-covers n per h = omega (arith, div-add-mod' (n + per - 1) per, mod-lt (n + per - 1) h)

concat-pieces_from :
    (payload : List ℕ) (per idx left : ℕ)
    → concat (pieces_from payload per idx left) ≡ take (left * per) (drop (idx * per) payload)
unfolding concat pieces_from
concat-pieces_from payload per idx zero =
    let none_left : 0 * per ≡ 0 = omega arith in rw none_left refl
concat-pieces_from payload per idx (suc left) =
    let width : suc left * per ≡ per + left * per = omega arith in
    let start : (idx + 1) * per ≡ idx * per + per = omega arith in
    ap (λ (l : List ℕ). piece payload per idx ++ l) (concat-pieces_from payload per (idx + 1) left)
    ∙ ap (λ (l : List ℕ). piece payload per idx ++ take (left * per) l)
        (sym (drop-drop (idx * per) per ((idx + 1) * per) payload start))
    ∙ take-take-drop per (left * per) (suc left * per) (drop (idx * per) payload) width

count-bounds :
    (q per n : ℕ)
    → n ≤ q * per
    → q * per ≤ n + per - 1
    → 1038 ≤ per
    → 1 ≤ n
    → n < 2 ^ 16
    → (1 ≤ q) × (q ≤ 255)
count-bounds zero per n covers exact wide pos fits =
    let nothing : 0 * per ≡ 0 = omega arith in absurd (omega (arith, nothing))
count-bounds (suc q) per n covers exact wide pos fits = (
  omega arith,
  elim (Bool-cases (leb (suc q) 255)) [
    | inl few ↦ leb→le (suc q) 255 few
    | inr many ↦
        let le : 256 ≤ suc q = ground arith in absurd (omega (arith, mul-le-mul_right per le))
  ],
)

-- The frames `fs` at the places `is`, with their times.
unfoldable pub pick : List (List ℕ) → List (ℕ × ℕ) → List (ℕ × List ℕ)
pick fs [] = []
pick fs ((now, i) ∷ is) = (now, get_or fs i []) ∷ pick fs is

module _ (lossy : List ℕ → List ℕ) (host : List ℕ) (port : ℕ) (payload : List ℕ)
    (host_fits : length host < 256) (port_fits : port < 2 ^ 16) (valid : lossy host ≡ host)
    (len_fits : length payload < 2 ^ 16)
    (large : frame_data_max
      < length payload + (length (encode_udp_addr_header_host host port) + 5)) where
  abbrev header : List ℕ
  header = encode_udp_addr_header_host host port

  abbrev per_part : ℕ
  per_part = frame_data_max - length header - 5

  abbrev total : ℕ
  total = div_ceil (length payload) per_part

  abbrev pieces : List (List ℕ)
  pieces = pieces_from payload per_part 0 total

  length-header : length header ≡ length host + 3
  unfolding encode_udp_addr_header_host
  length-header = rw length-append (omega arith)

  split-fragments :
      split_udp_frames header payload ≡ some (fragments_from header payload per_part total 0 total)
  unfolding split_udp_frames
  split-fragments =
      let big : leb (length payload + (length header + 5)) frame_data_max ≡ false =
        ground (arith, large) in
      let same : room (length header) ≡ per_part = omega (arith, length-header, host_fits) in
      let roomy : (per_part == 0) ≡ false = ground (arith, length-header, host_fits) in
      rw (big, same, roomy) refl

  per_part-ge : 1038 ≤ per_part
  per_part-ge = omega (arith, length-header, host_fits)

  total-bounds : (1 ≤ total) × (total ≤ 255)
  total-bounds =
      let covers = div_ceil-covers (length payload) per_part (omega (arith, per_part-ge)) in
      let exact = div-add-mod' (length payload + per_part - 1) per_part in
      count-bounds total per_part (length payload) covers (omega (arith, exact, per_part-ge))
        per_part-ge (omega (arith, large, length-header, host_fits)) len_fits

  concat-pieces : concat pieces ≡ payload
  concat-pieces =
      concat-pieces_from payload per_part 0 total
      ∙ ap (λ (n : ℕ). take (total * per_part) (drop n payload)) (zero-mul per_part)
      ∙ take-all (total * per_part) payload
          (div_ceil-covers (length payload) per_part (omega (arith, per_part-ge)))

  payload-pos : 1 ≤ length payload
  payload-pos = omega (arith, large, length-header, host_fits)

  length-pieces : length pieces ≡ total
  length-pieces = length-pieces_from payload per_part 0 total

  pieces-pos : 1 ≤ length pieces
  pieces-pos = omega (arith, length-pieces, total-bounds)

  pieces-few : length pieces ≤ 255
  pieces-few = omega (arith, length-pieces, total-bounds)

  abbrev cut : ℕ → List ℕ
  cut =
      frag lossy host port (length payload) pieces host_fits port_fits valid payload-pos len_fits
        pieces-pos pieces-few

  abbrev cuts : List (ℕ × ℕ) → List (ℕ × List ℕ)
  cuts =
      frames lossy host port (length payload) pieces host_fits port_fits valid payload-pos len_fits
        pieces-pos pieces-few

  cut_eq :
      (fs : List (List ℕ)) (i : ℕ)
      → fs ≡ fragments_from header payload per_part total 0 total
      → i < total
      → get_or fs i [] ≡ cut i
  cut_eq fs i e lt = rw e (
      get_or-fragments_from header payload per_part total 0 total i i lt (omega arith)
      ∙ ap (λ (n : ℕ). fragment header (length payload) n i (get_or pieces i []))
          (sym length-pieces))

  pick_eq :
      (fs : List (List ℕ)) (is : List (ℕ × ℕ))
      → fs ≡ fragments_from header payload per_part total 0 total
      → All (λ p. p.1 < total) is
      → pick fs is ≡ cuts is
  unfolding pick
  pick_eq fs [] e a = refl
  pick_eq fs ((now, i) ∷ is) e (lt, a) = rw (cut_eq fs i e lt, pick_eq fs is e a) refl

  push_cuts :
      (fs : List (List ℕ)) (is : List (ℕ × ℕ)) (now last : ℕ) (r : UdpReassembler)
      → split_udp_frames header payload ≡ some fs
      → get (host, port) r.pending ≡ none
      → All (λ p. (p.1 < length fs) × (p.1 ≢ last)) is
      → last < length fs
      → ((i : ℕ) → i < length fs → (i ≡ last) ⊎ In i (map (λ p. p.1) is))
      → (r2 r3 : UdpReassembler) × (push_row lossy r (pick fs is)
          ≡ some (r2, replicate (length is) none))
        × (push lossy now r2 (get_or fs last []) ≡ some (r3, some (header ++ payload)))
        × (get (host, port) r3.pending ≡ none)
  push_cuts fs is now last r split fresh a lt all =
      let e : fs ≡ fragments_from header payload per_part total 0 total =
        cc (split, split-fragments) in
      let n : length fs ≡ total =
        ap length e ∙ length-fragments_from header payload per_part total 0 total in
      let same : length pieces ≡ length fs = length-pieces ∙ sym n in
      let (r2, r3, eq, eq2, gone) =
        frames_complete lossy host port (length payload) pieces host_fits port_fits valid
          payload-pos len_fits pieces-pos pieces-few is now last r fresh (rw same a)
          (omega (arith, same)) (λ i q. all i (omega (arith, same))) in
      (
        r2,
        r3,
        rw (pick_eq fs is e (All-map (λ p q. omega (arith, q.0, n)) is a)) eq,
        ap (push lossy now r2) (cut_eq fs last e (omega (arith, n)))
            ∙ eq2
            ∙ ap (λ (body : List ℕ). some (r3, some (header ++ body))) concat-pieces,
        gone,
      )

-- A datagram with more than a frame's room, of up to 65535 bytes, is cut for a target with a host
-- of up to 255 bytes that the lossy decoding leaves as it is. Its frames are pushed, into a
-- reassembler that holds nothing for the target, in any order, with repeats, at any times. As long
-- as one of them is missing nothing comes out; with the last missing one the address header and the
-- whole payload come out, and the reassembler again holds nothing for the target.
pub split-push :
    (lossy : List ℕ → List ℕ) (host : List ℕ) (port : ℕ) (payload : List ℕ) (fs : List (List ℕ))
    (is : List (ℕ × ℕ)) (now last : ℕ) (r : UdpReassembler)
    → length host < 256
    → port < 2 ^ 16
    → lossy host ≡ host
    → length payload < 2 ^ 16
    → let header = encode_udp_addr_header_host host port in
      frame_data_max < length payload + (length header + 5)
      → split_udp_frames header payload ≡ some fs
      → get (host, port) r.pending ≡ none
      → All (λ p. (p.1 < length fs) × (p.1 ≢ last)) is
      → last < length fs
      → ((i : ℕ) → i < length fs → (i ≡ last) ⊎ In i (map (λ p. p.1) is))
      → (r2 r3 : UdpReassembler) × (push_row lossy r (pick fs is)
          ≡ some (r2, replicate (length is) none))
        × (push lossy now r2 (get_or fs last []) ≡ some (r3, some (header ++ payload)))
        × (get (host, port) r3.pending ≡ none)
split-push lossy host port payload fs is now last r host_fits port_fits valid len_fits large split
      fresh a lt all =
    push_cuts lossy host port payload host_fits port_fits valid len_fits large fs is now last r
      split fresh a lt all
