-- ===== src/Tunnel/Mux/Reassembly.antt =====
-- src/tunnel/multiplex.rs: a session's frames, arriving in any order and more than once among
-- those of other sessions, are delivered once each in the order of their numbers.
use srt_vpn.Prelude.{
  ℕ, suc, ◌+◌, ◌≤◌, ◌<◌, ◌≡◌, ◌≢◌, ◌⊎◌, inl, inr, refl, Bool, true, false, some, List, [], ◌∷◌,
  ◌++◌, arith, length, All, All-append_right, In, get, get-none_of_length, nat_eq, pair_eq,
  pair_beq, pair_beq_iff, &&-eq-true, Bool-cases, if◌then◌else◌, sym, ap, subst, ◌∙◌, append-nil,
  append_assoc,
}
use srt_vpn.Tunnel.Mux.{Frame, uses_session_order, is_open}
use srt_vpn.Tunnel.Mux.Decoder.{
  SidReorder, MuxDecoder, sseq_of, key_of, acceptor_dir, accept, run, reorder_max,
}
use srt_vpn.Tunnel.Mux.Order.{Numbered, Numbered-drop}
use srt_vpn.Tunnel.Mux.Delivery.{OfStream, Live, GoesOn, accept-Live}
use srt_vpn.Tunnel.Mux.Buffers.{is_of}
use srt_vpn.Tunnel.Mux.Isolation.{IsSorted, accept-Within, accept_control}

-- The session frames of `k` in a row of frames.
unfoldable pub of_key : ℕ × Bool → List Frame → List Frame
of_key k [] = []
of_key k (f ∷ fs) = if is_of k f then f ∷ of_key k fs else of_key k fs

-- A frame of another kind, another session or the other direction. An Open goes one way only.
pub record Foreign (k : ℕ × Bool) (f : Frame) : Type 0 where
  pub apart : (uses_session_order f.ftype ≡ false) ⊎ (key_of f ≢ k)
  pub one_way : is_open f.ftype ≡ true → acceptor_dir f ≡ false

-- What may arrive while the frames `all` of the epoch `e` of `k` are under way.
abbrev pub Arrives : ℕ × Bool → ℕ → List Frame → Frame → Type 0
Arrives k e all f = (OfStream k e f × In f all) ⊎ Foreign k f

pub is_of_of_key_eq :
    (k : ℕ × Bool) (f : Frame) → uses_session_order f.ftype ≡ true → key_of f ≡ k → is_of k f ≡ true
is_of_of_key_eq k f u e = rw u ((pair_beq_iff (key_of f) k).1 e)

pub key_eq_of_is_of : (k : ℕ × Bool) (f : Frame) → is_of k f ≡ true → key_of f ≡ k
key_eq_of_is_of k f h =
    (pair_beq_iff (key_of f) k).0
      (&&-eq-true (uses_session_order f.ftype) (pair_beq (key_of f) k) h).1

is_of-Foreign : (k : ℕ × Bool) (f : Frame) → Foreign k f → is_of k f ≡ false
is_of-Foreign k f o = elim (Bool-cases (is_of k f)) [
  | inr h ↦ h
  | inl h ↦ elim o.apart [
    | inl u ↦ cc ((&&-eq-true (uses_session_order f.ftype) (pair_beq (key_of f) k) h).0)
    | inr ne ↦ absurd (ne (key_eq_of_is_of k f h))
  ]
]

pub of_key-append :
    (k : ℕ × Bool) (xs ys : List Frame) → of_key k (xs ++ ys) ≡ of_key k xs ++ of_key k ys
unfolding of_key
of_key-append k [] ys = refl
of_key-append k (x ∷ xs) ys = ground (arith, of_key-append k xs ys)

pub of_key_same :
    (k : ℕ × Bool) (xs : List Frame) → All (λ f. is_of k f ≡ true) xs → of_key k xs ≡ xs
unfolding of_key
of_key_same k [] a = refl
of_key_same k (x ∷ xs) a = rw a.0 (ap (λ (l : List Frame). x ∷ l) (of_key_same k xs a.1))

of_key_other :
    (k j : ℕ × Bool) (xs : List Frame) → j ≢ k → All (λ f. is_of j f ≡ true) xs → of_key k xs ≡ []
unfolding of_key
of_key_other k j [] ne a = refl
of_key_other k j (x ∷ xs) ne a = elim (Bool-cases (is_of k x)) [
  | inl h ↦ absurd (ne (sym (key_eq_of_is_of j x a.0) ∙ key_eq_of_is_of k x h))
  | inr h ↦ rw h (of_key_other k j xs ne a.1)
]

-- The frames of `k` that arrived, the last one first.
pub push_all : ℕ × Bool → List Frame → List Frame → List Frame
push_all k [] seen = seen
push_all k (f ∷ fs) seen = push_all k fs (if is_of k f then f ∷ seen else seen)

pub In-push_all_seen :
    (k : ℕ × Bool) (g : Frame) (fs seen : List Frame) → In g seen → In g (push_all k fs seen)
unfolding push_all
In-push_all_seen k g [] seen m = m
In-push_all_seen k g (f ∷ fs) seen m = elim (Bool-cases (is_of k f)) [
  | inl h ↦ rw h (In-push_all_seen k g fs (f ∷ seen) (inr m))
  | inr h ↦ rw h (In-push_all_seen k g fs seen m)
]

pub In-push_all :
    (k : ℕ × Bool) (g : Frame) (fs seen : List Frame)
    → is_of k g ≡ true
    → In g fs
    → In g (push_all k fs seen)
unfolding push_all
In-push_all k g [] seen o m = absurd m
In-push_all k g (f ∷ fs) seen o (inl e) =
    rw (← e, o) (In-push_all_seen k g fs (g ∷ seen) (inl refl))
In-push_all k g (f ∷ fs) seen o (inr m) =
    In-push_all k g fs (if is_of k f then f ∷ seen else seen) o m

-- The rest of the stream after a row of arrivals.
abbrev WentOn :
    ℕ × Bool → ℕ → ℕ → List Frame → List Frame → List Frame → MuxDecoder × List Frame → Type 0
WentOn k e n seen out rest r =
    (rest' : List Frame) × (room : ℕ) × (rest ≡ of_key k r.1 ++ rest')
    × Live k e n seen (out ++ of_key k r.1) rest' room r.0

-- A frame of another stream leaves the delivery where it is.
module _ (k : ℕ × Bool) (e n room : ℕ) (seen out rest : List Frame) (d : MuxDecoder) (f : Frame)
    (v : IsSorted d) (l : Live k e n seen out rest room d) where
  Foreign-Live :
      Foreign k f
      → IsSorted (accept d f).0
        × (of_key k (accept d f).1 ≡ [])
        × Live k e n seen out rest room (accept d f).0
  unfolding of_key
  Foreign-Live o = elim (Bool-cases (uses_session_order f.ftype)) [
    | inr u ↦ rw (accept_control d f u) (v, rw (is_of-Foreign k f o) refl, l)
    | inl u ↦
        let w = accept-Within d f v u o.one_way in
        let ne : key_of f ≢ k = elim o.apart [ inl u' ↦ cc | inr ne ↦ ne ] in
        (
          w.sorted,
          of_key_other k (key_of f) (accept d f).1 ne w.delivered,
          record {
            st = l.st;
            stored = w.others k (λ q. ne (sym q)) ∙ l.stored;
            epoch_eq = l.epoch_eq;
            tracks = l.tracks;
            settled = l.settled;
            small = l.small;
          },
        )
  ]

  -- A frame of the stream goes on with it.
  OfStream-Live :
      Numbered n (out ++ rest)
      → OfStream k e f
      → In f (out ++ rest)
      → room < reorder_max
      → IsSorted (accept d f).0
        × (of_key k (accept d f).1 ≡ (accept d f).1)
        × GoesOn k e n (f ∷ seen) out rest (room + 1) (accept d f)
  OfStream-Live h o m small =
      let w = accept-Within d f v o.ordered (λ q. cc (o.not_open)) in
      (
        w.sorted,
        of_key_same k (accept d f).1 (
            subst (λ (j : ℕ × Bool). All (λ g. is_of j g ≡ true) (accept d f).1) o.key_eq
              w.delivered),
        accept-Live k e n room seen out rest d f h l o m small,
      )

-- One call, and the calls behind it: `o'` is what the first one delivers of the stream.
WentOn-cons :
    (k : ℕ × Bool) (e n : ℕ) (seen out rest rest1 o o' : List Frame) (r : MuxDecoder × List Frame)
    → of_key k o ≡ o'
    → rest ≡ o' ++ rest1
    → WentOn k e n seen (out ++ o') rest1 r
    → WentOn k e n seen out rest (r.0, o ++ r.1)
WentOn-cons k e n seen out rest rest1 o o' r eo e1 (rest2, room, e2, l) =
    let r' = of_key k r.1 in
    let eq : of_key k (o ++ r.1) ≡ o' ++ r' =
      of_key-append k o r.1 ∙ ap (λ (x : List Frame). x ++ r') eo in
    let split : rest ≡ (o' ++ r') ++ rest2 =
      e1 ∙ ap (λ (x : List Frame). o' ++ x) e2 ∙ sym (append_assoc o' r' rest2) in
    let l' : Live k e n seen (out ++ (o' ++ r')) rest2 room r.0 =
      subst (λ (x : List Frame). Live k e n seen x rest2 room r.0) (append_assoc out o' r') l in
    (
      rest2,
      room,
      split ∙ ap (λ (x : List Frame). x ++ rest2) (sym eq),
      subst (λ (x : List Frame). Live k e n seen (out ++ x) rest2 room r.0) (sym eq) l',
    )

-- The stream goes on through any row of arrivals that fits the buffer.
run-Live :
    (fs : List Frame) (k : ℕ × Bool) (e n room : ℕ) (seen out rest : List Frame) (d : MuxDecoder)
    → Numbered n (out ++ rest)
    → IsSorted d
    → Live k e n seen out rest room d
    → All (Arrives k e (out ++ rest)) fs
    → room + length (of_key k fs) ≤ reorder_max
    → WentOn k e n (push_all k fs seen) out rest (run d fs)
unfolding run push_all of_key
run-Live [] k e n room seen out rest d h v l a small = (rest, room, refl, rw append-nil l)
run-Live (f ∷ fs) k e n room seen out rest d h v l (inr o, a) small =
    let (v', none_of_k, l') = Foreign-Live k e n room seen out rest d f v l o in
    let is = is_of-Foreign k f o in
    let went = run-Live fs k e n room seen out rest (accept d f).0 h v' l' a (rw is at small) in
    rw is (
      WentOn-cons k e n (push_all k fs seen) out rest rest (accept d f).1 [] (run (accept d f).0 fs)
        none_of_k refl (rw append-nil went))
run-Live (f ∷ fs) k e n room seen out rest d h v l (inl (o, m), a) small =
    let is = is_of_of_key_eq k f o.ordered o.key_eq in
    let fits : room + suc (length (of_key k fs)) ≤ reorder_max = rw is at small in
    let lt : room < reorder_max = omega (arith, fits) in
    let (v', all_of_k, (rest1, e1, l1)) = OfStream-Live k e n room seen out rest d f v l h o m lt in
    let back : out ++ rest ≡ (out ++ (accept d f).1) ++ rest1 =
      ap (λ (x : List Frame). out ++ x) e1 ∙ sym (append_assoc out (accept d f).1 rest1) in
    let went =
      run-Live fs k e n (room + 1) (f ∷ seen) (out ++ (accept d f).1) rest1 (accept d f).0
        (subst (Numbered n) back h) v' l1
        (subst (λ (x : List Frame). All (Arrives k e x) fs) back a) (omega (arith, fits)) in
    rw is (
      WentOn-cons k e n (push_all k fs (f ∷ seen)) out rest rest1 (accept d f).1 (accept d f).1
        (run (accept d f).0 fs) all_of_k e1 went)

-- A stream of which every frame arrived is delivered whole.
Live-complete :
    (k : ℕ × Bool) (e n room : ℕ) (seen out rest : List Frame) (d : MuxDecoder)
    → Numbered n (out ++ rest)
    → Live k e n seen out rest room d
    → All (λ f. In f seen) rest
    → rest ≡ []
Live-complete k e n room seen out [] d h l a = refl
Live-complete k e n room seen out (r ∷ rest) d h l a =
    let at : sseq_of r ≡ l.st.next = (Numbered-drop n out (r ∷ rest) h).0 ∙ sym l.tracks.next_eq in
    elim (l.tracks.kept r a.0) [
      | inl lt ↦ absurd (omega (arith, at))
      | inr (g, held) ↦ cc (l.settled, at)
    ]

pub All-In-push_all :
    (k : ℕ × Bool) (e : ℕ) (fs seen ds : List Frame)
    → All (λ g. OfStream k e g × In g fs) ds
    → All (λ g. In g (push_all k fs seen)) ds
All-In-push_all k e fs seen [] a = tt
All-In-push_all k e fs seen (g ∷ ds) a = (
  In-push_all k g fs seen (is_of_of_key_eq k g a.0.0.ordered a.0.0.key_eq) a.0.1,
  All-In-push_all k e fs seen ds a.1,
)

-- What a live stream still has to deliver is delivered, in its order, by any row of arrivals among
-- which all of it is.
pub Live-delivers :
    (fs : List Frame) (k : ℕ × Bool) (e n room : ℕ) (seen out rest : List Frame) (d : MuxDecoder)
    → Numbered n (out ++ rest)
    → IsSorted d
    → Live k e n seen out rest room d
    → All (Arrives k e (out ++ rest)) fs
    → room + length (of_key k fs) ≤ reorder_max
    → All (λ f. In f (push_all k fs seen)) rest
    → of_key k (run d fs).1 ≡ rest
Live-delivers fs k e n room seen out rest d h v l a small all =
    let (rest', room', e1, l') = run-Live fs k e n room seen out rest d h v l a small in
    let done : rest' ≡ [] =
      Live-complete k e n room' (push_all k fs seen) (out ++ of_key k (run d fs).1) rest'
        (run d fs).0
        (subst (Numbered n)
          (ap (λ (x : List Frame). out ++ x) e1
            ∙ sym (append_assoc out (of_key k (run d fs).1) rest'))
          h)
        l'
        (All-append_right (λ f. In f (push_all k fs seen)) (of_key k (run d fs).1) rest'
          (subst (All (λ f. In f (push_all k fs seen))) e1 all)) in
    sym (
      e1
      ∙ ap (λ (x : List Frame). of_key k (run d fs).1 ++ x) done
      ∙ append-nil (of_key k (run d fs).1))

-- Let a decoder, whose frames wait under their own session and direction, have delivered all below
-- the number `n` in the epoch `e` of `k` and hold nothing back, and let `ds` be the next frames of
-- that epoch, numbered from `n`. Any row of arrivals in which each of them occurs, in any order
-- and any number of times, mixed with control frames and frames of other sessions and of the other
-- direction (an Open in the opener's direction only), delivers of `k` just `ds`, in order, if at
-- most 4096 arrivals are of `k`.
pub run_delivers_stream :
    (k : ℕ × Bool) (e n : ℕ) (st : SidReorder) (ds fs : List Frame) (d : MuxDecoder)
    → IsSorted d
    → get k d.states ≡ some st
    → st.epoch ≡ e
    → st.next ≡ n
    → st.buf ≡ []
    → Numbered n ds
    → All (λ g. OfStream k e g × In g fs) ds
    → All (Arrives k e ds) fs
    → length (of_key k fs) ≤ reorder_max
    → of_key k (run d fs).1 ≡ ds
run_delivers_stream k e n st ds fs d v at he hn hb h all a small =
    Live-delivers fs k e n 0 [] [] ds d h v
      (record {
        st = st;
        stored = at;
        epoch_eq = he;
        tracks = record {
          next_eq = omega arith;
          held = λ s f q. absurd (none_held s f q);
          kept = λ f m. absurd m;
        };
        settled = get-none_of_length st.next st.buf (omega (arith, ap length hb));
        small = omega (arith, ap length hb);
      })
      a (omega arith) (All-In-push_all k e fs [] ds all)
  where
    none_held : (s : ℕ) (f : Frame) → get s st.buf ≡ some f → ⊥
    none_held s f q = cc (get-none_of_length s st.buf (omega (arith, ap length hb)))
