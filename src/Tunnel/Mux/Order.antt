-- ===== src/Tunnel/Mux/Order.antt =====
-- src/tunnel/multiplex.rs: what `flush_ready` leaves and takes, and one session in order.
use srt_vpn.Prelude.{
  ℕ, zero, suc, ◌+◌, ◌≤◌, ◌<◌, ◌≡◌, ◌≢◌, ◌⊎◌, inl, inr, refl, none, some, List, [], ◌∷◌, ◌++◌,
  arith, length, In, get, remove, nat_eq, get-remove_self, get-remove_ne, length-remove-lt,
  get-none_of_length, Option-cases, ℕ_eq-cases, sym, ap, ◌∙◌, length-append, append_assoc,
  append-nil, leb, ltb, ◌&&◌, if◌then◌else◌,
}
use native.Mathlib.Nat.{add-zero}
use srt_vpn.Tunnel.Mux.{Frame}
use srt_vpn.Tunnel.Mux.Decoder.{SidReorder, sseq_of, flush_loop, flush_ready}

-- With as much fuel as entries the loop ends by its own test: the next frame is not there.
flush_loop_done :
    (fuel : ℕ) (st : SidReorder)
    → length st.buf ≤ fuel
    → let r = flush_loop fuel st in get r.0.next r.0.buf ≡ none
unfolding flush_loop
flush_loop_done zero st h = get-none_of_length st.next st.buf h
flush_loop_done (suc fuel) st h = elim (Option-cases (get st.next st.buf)) [
  | inl e ↦ rw (e, flush_loop) e
  | inr (f, e) ↦
      rw (e, flush_loop)
        (flush_loop_done fuel _ (omega (arith, length-remove-lt st.next f st.buf e)))
]

-- The loop ends by its own test, never by the bound on its rounds.
pub flush_ready_done : (st : SidReorder) → let r = flush_ready st in get r.0.next r.0.buf ≡ none
unfolding flush_ready
flush_ready_done st = flush_loop_done (length st.buf) st (omega arith)

-- The frames that stand in a buffer under the numbers from `n` on, one after the other.
abbrev pub Run : ℕ → List Frame → List (ℕ × Frame) → Type 0
Run n [] buf = Unit {0}
Run n (f ∷ fs) buf = (get n buf ≡ some f) × Run (n + 1) fs buf

-- `r` is what flushing the buffer of `st` should give.
pub record Drained (st : SidReorder) (r : SidReorder × List Frame) : Type 0 where
  pub epoch_kept : r.0.epoch ≡ st.epoch
  pub moved_on : r.0.next ≡ st.next + length r.1
  pub in_order : Run st.next r.1 st.buf
  pub gap_reached : get r.0.next r.0.buf ≡ none
  pub left :
      (s : ℕ) → get s r.0.buf ≡ (if leb st.next s && ltb s r.0.next then none else get s st.buf)

Run-remove :
    (n m : ℕ) (fs : List Frame) (buf : List (ℕ × Frame))
    → m < n
    → Run n fs (remove m buf)
    → Run n fs buf
Run-remove n m [] buf lt h = tt
Run-remove n m (f ∷ fs) buf lt (at, h) =
    (sym (get-remove_ne n m buf (omega arith)) ∙ at, Run-remove (n + 1) m fs buf (omega arith) h)

-- One frame is taken out, and the rest is drained.
Drained-cons :
    (st : SidReorder) (f : Frame) (r : SidReorder × List Frame)
    → get st.next st.buf ≡ some f
    → Drained (record { epoch = st.epoch; next = st.next + 1; buf = remove st.next st.buf }) r
    → Drained st (r.0, f ∷ r.1)
Drained-cons st f r at d = record {
  epoch_kept = d.epoch_kept;
  moved_on = omega (arith, d.moved_on);
  in_order = (at, Run-remove (st.next + 1) st.next r.1 st.buf (omega arith) d.in_order);
  gap_reached = d.gap_reached;
  left = λ s. elim (ℕ_eq-cases s st.next) [
    | inl e ↦ ground (arith, e, d.left st.next, d.moved_on, get-remove_self st.next st.buf)
    | inr ne ↦ ground (arith, ne, d.left s, d.moved_on, get-remove_ne s st.next st.buf ne)
  ];
}

flush_loop-Drained :
    (fuel : ℕ) (st : SidReorder) → length st.buf ≤ fuel → Drained st (flush_loop fuel st)
unfolding flush_loop
flush_loop-Drained zero st h = record {
  epoch_kept = refl;
  moved_on = omega arith;
  in_order = tt;
  gap_reached = get-none_of_length st.next st.buf h;
  left = λ s. ground arith;
}
flush_loop-Drained (suc fuel) st h = elim (Option-cases (get st.next st.buf)) [
  | inl e ↦
      rw (e, flush_loop)
        (record {
          epoch_kept = refl;
          moved_on = omega arith;
          in_order = tt;
          gap_reached = e;
          left = λ s. ground arith;
        })
  | inr (f, e) ↦
      rw (e, flush_loop)
        (Drained-cons st f _ e
          (flush_loop-Drained fuel _ (omega (arith, length-remove-lt st.next f st.buf e))))
]

-- `flush_ready` takes out of the buffer just the frames that stand there under the numbers from the
-- next one on up to the first gap, and delivers them in the order of their numbers: the next number
-- moves on by as many, nothing stands under it, all other entries stay, and so does the epoch.
pub flush_ready-Drained : (st : SidReorder) → Drained st (flush_ready st)
unfolding flush_ready
flush_ready-Drained st = flush_loop-Drained (length st.buf) st (omega arith)

-- What a session has still to deliver: numbered on from `n`.
abbrev pub Numbered : ℕ → List Frame → Type 0
Numbered n [] = Unit {0}
Numbered n (f ∷ fs) = (sseq_of f ≡ n) × Numbered (n + 1) fs

pub Numbered-ge : (n : ℕ) (fs : List Frame) (f : Frame) → Numbered n fs → In f fs → n ≤ sseq_of f
Numbered-ge n [] f h m = absurd m
Numbered-ge n (x ∷ fs) f h (inl e) = rw e (omega arith)
Numbered-ge n (x ∷ fs) f h (inr m) = omega (arith, Numbered-ge (n + 1) fs f h.1 m)

-- In a numbered list that was cut, the number of a frame says on which side it stands.
Numbered-right :
    (n : ℕ) (out rest : List Frame) (f : Frame)
    → Numbered n (out ++ rest)
    → In f (out ++ rest)
    → n + length out ≤ sseq_of f
    → In f rest
Numbered-right n [] rest f h m le = m
Numbered-right n (x ∷ out) rest f h (inl e) le = absurd (omega (arith, h.0, ap sseq_of e))
Numbered-right n (x ∷ out) rest f h (inr m) le =
    Numbered-right (n + 1) out rest f h.1 m (omega arith)

pub Numbered-drop :
    (n : ℕ) (out rest : List Frame) → Numbered n (out ++ rest) → Numbered (n + length out) rest
Numbered-drop n [] rest h = rw add-zero h
Numbered-drop n (x ∷ out) rest h =
    let e : n + suc (length out) ≡ n + 1 + length out = omega arith in
    rw e (Numbered-drop (n + 1) out rest h.1)

Numbered-head :
    (n : ℕ) (rest : List Frame) (f : Frame)
    → Numbered n rest
    → In f rest
    → sseq_of f ≡ n
    → (rest' : List Frame) × (rest ≡ f ∷ rest')
Numbered-head n [] f h m e = absurd m
Numbered-head n (x ∷ rest) f h (inl e') e = (rest, ap (λ (y : Frame). y ∷ rest) (sym e'))
Numbered-head n (x ∷ rest) f h (inr m) e = absurd (omega (arith, Numbered-ge (n + 1) rest f h.1 m))

-- The frame with the next number is the head of what is to come.
pub next_is_head :
    (n : ℕ) (out rest : List Frame) (f : Frame)
    → Numbered n (out ++ rest)
    → In f (out ++ rest)
    → sseq_of f ≡ n + length out
    → (rest' : List Frame) × (rest ≡ f ∷ rest')
next_is_head n out rest f h m e =
    Numbered-head (n + length out) rest f (Numbered-drop n out rest h)
      (Numbered-right n out rest f h m (omega arith)) e

-- The state of a session of which `out` has been delivered and `rest` is to come, where `seen` are
-- the frames that arrived: the buffer holds frames of the session under their numbers, and every
-- frame that arrived is delivered or in the buffer.
pub record Tracks (n : ℕ) (seen out rest : List Frame) (st : SidReorder) : Type 0 where
  pub next_eq : st.next ≡ n + length out
  pub held :
      (s : ℕ) (f : Frame)
      → get s st.buf ≡ some f
      → (sseq_of f ≡ s) × (st.next ≤ s) × In f (out ++ rest)
  pub kept :
      (f : Frame)
      → In f seen
      → (sseq_of f < st.next) ⊎ ((g : Frame) × (get (sseq_of f) st.buf ≡ some g))

-- The frame with the next number is delivered: it leaves the buffer, if it is there.
pub Tracks-deliver :
    (n : ℕ) (seen out rest : List Frame) (st : SidReorder) (f : Frame) (buf : List (ℕ × Frame))
    → Tracks n seen out (f ∷ rest) st
    → ((s : ℕ) → s ≢ st.next → get s buf ≡ get s st.buf)
    → get st.next buf ≡ none
    → Tracks n seen
        (out ++ (f ∷ []))
        rest
        (record { epoch = st.epoch; next = st.next + 1; buf = buf })
Tracks-deliver n seen out rest st f buf t same gone = record {
  next_eq = rw length-append (omega (arith, t.next_eq));
  held = λ s g h. elim (ℕ_eq-cases s st.next) [
    | inl e ↦ cc
    | inr ne ↦ let r = t.held s g (sym (same s ne) ∙ h) in (r.0, omega arith, rw append_assoc r.2)
  ];
  kept = λ g m. elim (t.kept g m) [
    | inl lt ↦ inl (omega arith)
    | inr (x, h) ↦ elim (ℕ_eq-cases (sseq_of g) st.next) [
      | inl e ↦ inl (omega arith)
      | inr ne ↦ inr (x, same (sseq_of g) ne ∙ h)
    ]
  ];
}

-- What `r` says of a run: it delivers a part of what is to come, and leaves a state that tracks it.
abbrev pub Flushed : ℕ → List Frame → List Frame → List Frame → SidReorder × List Frame → Type 0
Flushed n seen out rest r =
    (rest' : List Frame) × (rest ≡ r.1 ++ rest') × Tracks n seen (out ++ r.1) rest' r.0

Flushed-cons :
    (n : ℕ) (seen out rest : List Frame) (f : Frame) (r : SidReorder × List Frame)
    → Flushed n seen (out ++ (f ∷ [])) rest r
    → Flushed n seen out (f ∷ rest) (r.0, f ∷ r.1)
Flushed-cons n seen out rest f r (rest', e, t) =
    (rest', ap (λ (l : List Frame). f ∷ l) e, rw (append_assoc out (f ∷ []) r.1) at t)

-- `flush_ready` delivers a run of what is to come.
Tracks-flush_loop :
    (fuel n : ℕ) (seen out rest : List Frame) (st : SidReorder)
    → Numbered n (out ++ rest)
    → Tracks n seen out rest st
    → Flushed n seen out rest (flush_loop fuel st)
unfolding flush_loop
Tracks-flush_loop zero n seen out rest st h t = (rest, refl, rw append-nil t)
Tracks-flush_loop (suc fuel) n seen out rest st h t = elim (Option-cases (get st.next st.buf)) [
  | inl e ↦ rw (e, flush_loop) (rest, refl, rw append-nil t)
  | inr (f, e) ↦
      let at = t.held st.next f e in
      let (rest1, e1) = next_is_head n out rest f h at.2 (omega (arith, at.0, t.next_eq)) in
      rw (e, flush_loop)
        (rw e1 (
          Flushed-cons n seen out rest1 f _ (
            Tracks-flush_loop fuel n seen (out ++ (f ∷ [])) rest1
              (record { epoch = st.epoch; next = st.next + 1; buf = remove st.next st.buf })
              (rw append_assoc (rw e1 at h))
              (Tracks-deliver n seen out rest1 st f (remove st.next st.buf) (rw e1 at t)
                (λ s ne. get-remove_ne s st.next st.buf ne) (get-remove_self st.next st.buf)))))
]

pub flush_ready-Flushed :
    (n : ℕ) (seen out rest : List Frame) (st : SidReorder)
    → Numbered n (out ++ rest)
    → Tracks n seen out rest st
    → Flushed n seen out rest (flush_ready st)
unfolding flush_ready
flush_ready-Flushed n seen out rest st h t =
    Tracks-flush_loop (length st.buf) n seen out rest st h t
