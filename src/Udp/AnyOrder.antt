-- ===== src/Udp/AnyOrder.antt =====
-- src/server/forward.rs: the fragments of a datagram, pushed in any order.
use srt_vpn.Prelude.{
  ℕ, zero, suc, ◌+◌, ◌%◌, ◌^◌, ◌≤◌, ◌<◌, ◌≡◌, ◌≢◌, ◌⊎◌, inl, inr, refl, true, false, Option, none,
  some, List, [], ◌∷◌, ◌++◌, arith, length, take, get_or, get_elem?, replicate, set_elem, ap, sym,
  subst, ◌∙◌, get, insert, length-append, take-length-append, ltb, ◌==◌, if◌then◌else◌, Bool-cases,
  ℕ_eq-cases, get-insert_self, get-remove_self, ==_iff, In, All, All-In, All-map, map,
}
use srt_vpn.Prelude.Bytes.{u16_be, be_u16-u16_be, target_eq}
use srt_vpn.Udp.{parse_udp_addr_header, encode_udp_addr_header_host, fragment, udp_frag_mark}
use srt_vpn.Udp.Fragments.{parse-encode}
use srt_vpn.Udp.Reassembler.{
  ReasmState, UdpReassembler, new_state, entry_or_new, times_with, restart, keep_header, store_part,
  finish, push_fragment, push_addressed, push, push_row, malformed, forget,
}
use srt_vpn.Udp.Parts.{
  Matches, present, concat, replicate-Matches, present-replicate, length-Matches, set_elem-Matches,
  present-set_elem, present-lt, get_elem?-Matches, get_elem?-lt, get_elem?-set_elem,
  get_elem?-set_elem_self, collect-Matches,
}

get_elem?-replicate :
    (n i : ℕ) → i < n → get_elem? {A = Option (List ℕ)} (replicate n none) i ≡ some none
get_elem?-replicate zero i h = absurd (omega arith)
get_elem?-replicate (suc n) zero h = refl
get_elem?-replicate (suc n) (suc i) h = get_elem?-replicate n i (omega arith)

-- A datagram of `total_len` bytes for a target, cut into the pieces `qs`.
module _ (lossy : List ℕ → List ℕ) (host : List ℕ) (port total_len : ℕ) (qs : List (List ℕ))
    (host_fits : length host < 256) (port_fits : port < 2 ^ 16) (valid : lossy host ≡ host)
    (not_empty : 1 ≤ total_len) (len_fits : total_len < 2 ^ 16) (some_piece : 1 ≤ length qs)
    (few : length qs ≤ 255) where
  abbrev header : List ℕ
  header = encode_udp_addr_header_host host port

  abbrev pub frag : ℕ → List ℕ
  frag i = fragment header total_len (length qs) i (get_or qs i [])

  -- The parts of `seen` have come, and all that has come is of this datagram.
  record Holding (seen : List ℕ) (st : ReasmState) : Type 0 where
    len_eq : st.total_len ≡ total_len
    parts_eq : st.total_parts ≡ length qs
    matches : Matches st.parts qs
    count : st.received ≡ present st.parts
    headed : get_elem? st.parts 0 ≢ some none → st.addr_header ≡ header
    got : All (λ i. get_elem? st.parts i ≢ some none) seen

  new_state-Holding : Holding [] (new_state total_len (length qs))
  unfolding new_state
  new_state-Holding = record {
    len_eq = refl;
    parts_eq = refl;
    matches = replicate-Matches qs;
    count = sym (present-replicate (length qs));
    headed = λ h. absurd (h (get_elem?-replicate (length qs) 0 some_piece));
    got = tt;
  }

  abbrev with_header : ℕ → ReasmState → ReasmState
  with_header i st = record st { addr_header = if i == 0 then header else st.addr_header }

  keep_header-frag :
      (i : ℕ) (st : ReasmState) → keep_header (frag i) host i st ≡ some (with_header i st)
  unfolding keep_header fragment encode_udp_addr_header_host
  keep_header-frag i st = elim (Bool-cases (i == 0)) [
    | inr e ↦ rw e refl
    | inl e ↦
        let n : length header ≡ 1 + length host + 2 =
          unfold encode_udp_addr_header_host in rw length-append (omega arith) in
        let long : ltb (length (frag i)) (1 + length host + 2) ≡ false =
          unfold fragment in rw (length-append, n) (ground arith) in
        let head : take (1 + length host + 2) (frag i) ≡ header =
          unfold fragment in rw (← n) (take-length-append header _) in
        rw (e, long, head) refl
  ]

  with_header-Holding :
      (i : ℕ) (seen : List ℕ) (st : ReasmState)
      → Holding seen st
      → i < length qs
      → (st2 : ReasmState) × (store_part i (get_or qs i []) (with_header i st) ≡ some st2)
        × Holding (i ∷ seen) st2
        × ((j : ℕ) → i ≢ j → get_elem? st2.parts j ≡ get_elem? st.parts j)
  unfolding store_part
  with_header-Holding i seen st h lt =
      let st1 = with_header i st in
      elim (get_elem?-Matches st.parts qs i h.matches lt) [
        | inl missing ↦
            let now_there = set_elem st.parts i (some (get_or qs i [])) in
            let st2 : ReasmState = record st1 { parts = now_there; received = st.received + 1 } in
            (
              st2,
              rw missing refl,
              record {
                len_eq = h.len_eq;
                parts_eq = h.parts_eq;
                matches = set_elem-Matches st.parts qs i h.matches;
                count =
                    omega (arith, h.count, present-set_elem st.parts i (get_or qs i []) missing);
                headed = λ q. elim (ℕ_eq-cases i 0) [
                  | inl e ↦ rw e refl
                  | inr ne ↦ ground (
                    arith,
                    ne,
                    h.headed
                        (λ m. q (get_elem?-set_elem st.parts i 0 (some (get_or qs i [])) ne ∙ m)),
                  )
                ];
                got = (
                  get_elem?-set_elem_self st.parts i (get_or qs i []),
                  All-map
                      (λ j q m. elim (ℕ_eq-cases i j) [
                        | inl e ↦
                            get_elem?-set_elem_self st.parts i (get_or qs i [])
                              (subst (λ (x : ℕ). get_elem? now_there x ≡ some none) (sym e) m)
                        | inr ne ↦
                            q (sym (get_elem?-set_elem st.parts i j (some (get_or qs i [])) ne) ∙ m)
                      ])
                      seen h.got,
                );
              },
              λ j ne. get_elem?-set_elem st.parts i j (some (get_or qs i [])) ne,
            )
        | inr there ↦ (
          st1,
          rw there refl,
          record {
            len_eq = h.len_eq;
            parts_eq = h.parts_eq;
            matches = h.matches;
            count = h.count;
            headed = λ q. elim (ℕ_eq-cases i 0) [
              | inl e ↦ rw e refl
              | inr ne ↦ ground (arith, ne, h.headed q)
            ];
            got = ((λ m. cc), h.got);
          },
          λ j ne. refl,
        )
      ]

  abbrev key : List ℕ × ℕ
  key = (host, port)

  -- The reassembler after a fragment, before the check for the last one.
  abbrev place : ℕ → UdpReassembler → ReasmState → UdpReassembler
  place now r st = record {
    pending = insert key st r.pending;
    created_at = times_with (get key r.pending) key now r.created_at;
  }

  -- The state that a fragment meets holds parts of this datagram only.
  abbrev Ready : List ℕ → UdpReassembler → ReasmState → Type 0
  Ready seen r st = Holding seen st × (entry_or_new (get key r.pending) total_len (length qs) ≡ st)

  restart-Holding :
      (seen : List ℕ) (st : ReasmState) → Holding seen st → restart st total_len (length qs) ≡ st
  unfolding restart
  restart-Holding seen st h =
      let a : (st.total_len == total_len) ≡ true = (==_iff st.total_len total_len).1 h.len_eq in
      let b : (st.total_parts == length qs) ≡ true =
        (==_iff st.total_parts (length qs)).1 h.parts_eq in
      rw (a, b) refl

  push-frag :
      (now : ℕ) (r : UdpReassembler) (i : ℕ) (seen : List ℕ) (st : ReasmState)
      → Ready seen r st
      → i < length qs
      → (st2 : ReasmState) × (push lossy now r (frag i)
          ≡ some (finish (place now r st2) key (length qs) st2))
        × Holding (i ∷ seen) st2
        × ((j : ℕ) → i ≢ j → get_elem? st2.parts j ≡ get_elem? st.parts j)
  unfolding push push_addressed push_fragment
  push-frag now r i seen st (h, e) lt =
      let (st2, eq, h2, others) = with_header-Holding i seen st h lt in
      let n : length qs % 256 ≡ length qs = omega arith in
      let m : i % 256 ≡ i = omega arith in
      let w : total_len % 2 ^ 16 ≡ total_len = omega arith in
      let body : List ℕ =
        udp_frag_mark ∷ (u16_be total_len ++ (i ∷ (length qs ∷ get_or qs i []))) in
      let cut : frag i ≡ header ++ body = unfold fragment in rw (n, m, w) refl in
      let parsed : parse_udp_addr_header lossy (frag i)
          ≡ some (record { host = host; port = port; rest = body }) =
        rw cut (parse-encode lossy host body port host_fits port_fits valid) in
      let ok : malformed body ≡ false = ground (arith, be_u16-u16_be total_len len_fits) in
      let long : (length body == 0) ≡ false = ground arith in
      (
        st2,
        rw
            (
              parsed,
              long,
              ok,
              be_u16-u16_be total_len len_fits,
              e,
              restart-Holding seen st h,
              keep_header-frag i st,
              eq,
            )
            refl,
        h2,
        others,
      )

  abbrev pub frames : List (ℕ × ℕ) → List (ℕ × List ℕ)
  frames [] = []
  frames ((now, i) ∷ is) = (now, frag i) ∷ frames is

  abbrev seen_after : List (ℕ × ℕ) → List ℕ → List ℕ
  seen_after [] seen = seen
  seen_after ((now, i) ∷ is) seen = seen_after is (i ∷ seen)

  Ready-place :
      (now : ℕ) (seen : List ℕ) (r : UdpReassembler) (st : ReasmState)
      → Holding seen st
      → Ready seen (place now r st) st
  Ready-place now seen r st h = (h, rw (get-insert_self key st r.pending) refl)

  finish_waiting :
      (r : UdpReassembler) (seen : List ℕ) (st : ReasmState) (j : ℕ)
      → Holding seen st
      → get_elem? st.parts j ≡ some none
      → finish r key (length qs) st ≡ (r, none)
  unfolding finish
  finish_waiting r seen st j h missing =
      let not_all : (st.received == length qs) ≡ false =
        ground
          (arith, h.count, present-lt st.parts j missing, length-Matches st.parts qs h.matches) in
      rw not_all refl

  -- While one fragment is still to come, nothing comes out.
  frames_wait :
      (is : List (ℕ × ℕ)) (r : UdpReassembler) (seen : List ℕ) (st : ReasmState) (last : ℕ)
      → Ready seen r st
      → get_elem? st.parts last ≡ some none
      → All (λ p. (p.1 < length qs) × (p.1 ≢ last)) is
      → (r2 : UdpReassembler) × (st2 : ReasmState) × (push_row lossy r (frames is)
          ≡ some (r2, replicate (length is) none))
        × Ready (seen_after is seen) r2 st2
        × (get_elem? st2.parts last ≡ some none)
  unfolding push_row
  frames_wait [] r seen st last ready missing a = (r, st, refl, ready, missing)
  frames_wait ((now, i) ∷ is) r seen st last ready missing ((lt, ne), a) =
      let (st2, eq, h2, others) = push-frag now r i seen st ready lt in
      let missing2 = others last ne ∙ missing in
      let step = eq ∙ ap some (finish_waiting (place now r st2) (i ∷ seen) st2 last h2 missing2) in
      let (r3, st3, eq3, ready3, missing3) =
        frames_wait is (place now r st2) (i ∷ seen) st2 last (Ready-place now (i ∷ seen) r st2 h2)
          missing2 a in
      (r3, st3, rw (step, eq3) refl, ready3, missing3)

  finish_complete :
      (r : UdpReassembler) (seen : List ℕ) (st : ReasmState)
      → Holding seen st
      → ((i : ℕ) → i < length qs → In i seen)
      → finish r key (length qs) st ≡ (forget r key, some (header ++ concat qs))
  unfolding finish
  finish_complete r seen st h all =
      let there : (i : ℕ) → i < length qs → get_elem? st.parts i ≢ some none =
        λ i lt. All-In (λ j. get_elem? st.parts j ≢ some none) i seen h.got (all i lt) in
      let (body, n) = collect-Matches st.parts qs h.matches (λ i missing.
        there i
          (omega (arith, get_elem?-lt st.parts i missing, length-Matches st.parts qs h.matches))
          missing) in
      let done : (st.received == length qs) ≡ true =
        (==_iff st.received (length qs)).1 (h.count ∙ n) in
      rw (done, body, h.headed (there 0 some_piece)) refl

  In-seen : (is : List (ℕ × ℕ)) (seen : List ℕ) (i : ℕ) → In i seen → In i (seen_after is seen)
  In-seen [] seen i m = m
  In-seen ((now, j) ∷ is) seen i m = In-seen is (j ∷ seen) i (inr m)

  In-seen_after :
      (is : List (ℕ × ℕ)) (seen : List ℕ) (i : ℕ)
      → In i (map (λ p. p.1) is)
      → In i (seen_after is seen)
  In-seen_after [] seen i m = absurd m
  In-seen_after ((now, j) ∷ is) seen i (inl e) = In-seen is (j ∷ seen) i (inl e)
  In-seen_after ((now, j) ∷ is) seen i (inr m) = In-seen_after is (j ∷ seen) i m

  -- Any row of the fragments but one, of which nothing comes out, and then that one.
  pub frames_complete :
      (is : List (ℕ × ℕ)) (now last : ℕ) (r : UdpReassembler)
      → get key r.pending ≡ none
      → All (λ p. (p.1 < length qs) × (p.1 ≢ last)) is
      → last < length qs
      → ((i : ℕ) → i < length qs → (i ≡ last) ⊎ In i (map (λ p. p.1) is))
      → (r2 r3 : UdpReassembler) × (push_row lossy r (frames is)
          ≡ some (r2, replicate (length is) none))
        × (push lossy now r2 (frag last) ≡ some (r3, some (header ++ concat qs)))
        × (get key r3.pending ≡ none)
  frames_complete is now last r fresh a lt all =
      let fresh_st = new_state total_len (length qs) in
      let (r2, st, eq, ready, missing) =
        frames_wait is r [] fresh_st last (new_state-Holding, rw fresh refl)
          (unfold new_state in get_elem?-replicate (length qs) last lt) a in
      let (st2, eq2, h2, others) = push-frag now r2 last (seen_after is []) st ready lt in
      let whole = finish_complete (place now r2 st2) (last ∷ seen_after is []) st2 h2 (λ i in_range.
        elim (all i in_range) [ inl e ↦ inl e | inr m ↦ inr (In-seen_after is [] i m) ]) in
      (
        r2,
        forget (place now r2 st2) key,
        eq,
        eq2 ∙ ap some whole,
        get-remove_self key (insert key st2 r2.pending),
      )
