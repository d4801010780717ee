-- ===== src/Tunnel/Mux/Isolation.antt =====
-- src/tunnel/multiplex.rs: the sessions, and the two directions of one, do not mix.
use srt_vpn.Prelude.{
  ℕ, ◌+◌, ◌≡◌, ◌≢◌, inl, inr, refl, Bool, true, false, Option, none, some, List, [], ◌∷◌, ◌++◌,
  length, All, All-append, get, insert, remove, nat_eq, pair_eq, pair_beq_iff, get-insert_self,
  get-insert_ne, get-remove_self, get-remove_ne, Bool-cases, Option-cases, ℕ_eq-cases, eq-cases,
  sym, ap, subst, ◌∙◌, ltb, ◌==◌,
}
use srt_vpn.Tunnel.Mux.{Frame, uses_session_order, is_open}
use srt_vpn.Tunnel.Mux.Decoder.{
  SidReorder, MuxDecoder, epoch_of, sseq_of, key_of, acceptor_dir, flush_ready, merge_waiting,
  fresh_state, accept_open, accept_current, accept_first, accept_unknown, accept_session, accept,
  or_empty, reorder_max, preopen_max, newer, new_decoder,
}
use srt_vpn.Tunnel.Mux.Buffers.{
  is_of, Of, Holds, Holds-nil, Holds-insert, flush_ready-Holds, merge_waiting-Holds,
}

-- Every frame that waits in a decoder waits under its own session and direction.
pub record IsSorted (d : MuxDecoder) : Type 0 where
  pub buffered :
      (k : ℕ × Bool) (st : SidReorder)
      → get k d.states ≡ some st
      → (s : ℕ) (g : Frame) → get s st.buf ≡ some g
      → is_of k g ≡ true
  pub waiting :
      (sid : ℕ) (fs : List Frame)
      → get sid d.preopen ≡ some fs
      → All (λ g. is_of (sid, false) g ≡ true) fs

abbrev Waits : List (ℕ × List Frame) → Type 0
Waits pre = (sid : ℕ) (fs : List Frame) → get sid pre ≡ some fs → All (Of (sid, false)) fs

Waits-insert :
    (sid : ℕ) (xs : List Frame) (pre : List (ℕ × List Frame))
    → All (Of (sid, false)) xs
    → Waits pre
    → Waits (insert sid xs pre)
Waits-insert sid xs pre a w j fs at = elim (ℕ_eq-cases j sid) [
  | inl e ↦
      let eq : xs ≡ fs = cc (get-insert_self sid xs pre) in
      subst (λ (l : List Frame). All (Of (j, false)) l) eq (rw e a)
  | inr ne ↦ w j fs (sym (get-insert_ne j sid xs pre ne) ∙ at)
]

Waits-remove : (sid : ℕ) (pre : List (ℕ × List Frame)) → Waits pre → Waits (remove sid pre)
Waits-remove sid pre w j fs at = elim (ℕ_eq-cases j sid) [
  | inl e ↦ cc (get-remove_self sid pre)
  | inr ne ↦ w j fs (sym (get-remove_ne j sid pre ne) ∙ at)
]

-- What a call does at the key `k`: the other keys keep their state and the frames that wait for
-- their Open, and all that it delivers and keeps is of `k`.
pub record Within (k : ℕ × Bool) (d : MuxDecoder) (r : MuxDecoder × List Frame) : Type 0 where
  pub sorted : IsSorted r.0
  pub delivered : All (λ g. is_of k g ≡ true) r.1
  pub others : (j : ℕ × Bool) → j ≢ k → get j r.0.states ≡ get j d.states
  pub others_waiting : (sid : ℕ) → (sid, false) ≢ k → get sid r.0.preopen ≡ get sid d.preopen

-- The frames of other sessions that wait for their Open are the same in both tables.
abbrev SameElsewhere : ℕ × Bool → List (ℕ × List Frame) → List (ℕ × List Frame) → Type 0
SameElsewhere k pre old = (sid : ℕ) → (sid, false) ≢ k → get sid pre ≡ get sid old

not_here : {k : ℕ × Bool} (sid id : ℕ) → (id, false) ≡ k → (sid, false) ≢ k → sid ≢ id
not_here sid id here ne e = ne (ap (λ (n : ℕ). (n, false)) e ∙ here)

module _ (d : MuxDecoder) (v : IsSorted d) (f : Frame) (k : ℕ × Bool) (o : is_of k f ≡ true)
    (key_eq : key_of f ≡ k) where
  stored-Within :
      (st : SidReorder) (pre : List (ℕ × List Frame)) (n m : ℕ) (out : List Frame)
      → Holds (Of k) st.buf
      → All (Of k) out
      → Waits pre
      → SameElsewhere k pre d.preopen
      → Within k d (
        record d {
          states = insert (key_of f) st d.states;
          preopen = pre;
          out_of_order = n;
          stale_dropped = m;
        },
        out,
      )
  stored-Within st pre n m out h a w same = record {
    sorted = record {
      buffered = λ j st' at. elim (eq-cases j k) [
        | inl e ↦
            let eq : st ≡ st' = cc (get-insert_self (key_of f) st d.states) in
            subst (λ (x : SidReorder). Holds (Of j) x.buf) eq (rw e h)
        | inr ne ↦
            v.buffered j st' (sym (get-insert_ne j (key_of f) st d.states (rw key_eq ne)) ∙ at)
      ];
      waiting = w;
    };
    delivered = a;
    others = λ j ne. rw key_eq (get-insert_ne j k st d.states ne);
    others_waiting = same;
  }

  kept-Within :
      (pre : List (ℕ × List Frame)) (n m : ℕ)
      → Waits pre
      → SameElsewhere k pre d.preopen
      → Within k d (record d { preopen = pre; out_of_order = n; stale_dropped = m }, [])
  kept-Within pre n m w same = record {
    sorted = record { buffered = v.buffered; waiting = w };
    delivered = tt;
    others = λ j ne. refl;
    others_waiting = same;
  }

  here : acceptor_dir f ≡ false → (f.session_id, false) ≡ k
  here dir = ap (λ (b : Bool). (f.session_id, b)) (sym dir) ∙ key_eq

  accept_first-Within : Within k d (accept_first d f)
  unfolding accept_first
  accept_first-Within =
      let h = flush_ready-Holds (Of k) (fresh_state f) (Holds-nil (Of k)) in
      stored-Within (flush_ready (fresh_state f)).0 d.preopen d.out_of_order d.stale_dropped
        (f ∷ (flush_ready (fresh_state f)).1) h.0 (o, h.1) v.waiting (λ sid ne. refl)

  accept_current-Within :
      (st : SidReorder) → get k d.states ≡ some st → Within k d (accept_current d st f)
  unfolding accept_current
  accept_current-Within st at =
      let held = v.buffered k st at in
      let st' : SidReorder = record st { next = st.next + 1 } in
      let h = flush_ready-Holds (Of k) st' held in
      elim (Bool-cases (ltb (sseq_of f) st.next)) [
        | inl e ↦
            rw e (
              kept-Within d.preopen d.out_of_order (d.stale_dropped + 1) v.waiting (λ sid ne. refl))
        | inr e ↦ rw e (elim (Bool-cases (sseq_of f == st.next)) [
          | inl e2 ↦ rw e2 (
              stored-Within (flush_ready st').0 d.preopen d.out_of_order d.stale_dropped
                (f ∷ (flush_ready st').1) h.0 (o, h.1) v.waiting (λ sid ne. refl))
          | inr e2 ↦ rw e2 (elim (Bool-cases (ltb (length st.buf) reorder_max)) [
            | inl e3 ↦ rw e3 (
                stored-Within (record st { buf = insert (sseq_of f) f st.buf }) d.preopen
                  (d.out_of_order + 1) d.stale_dropped []
                  (Holds-insert (Of k) (sseq_of f) f st.buf o held) tt v.waiting (λ sid ne. refl))
            | inr e3 ↦ rw e3 (
                kept-Within d.preopen (d.out_of_order + 1) (d.stale_dropped + 1) v.waiting
                  (λ sid ne. refl))
          ])
        ])
      ]

  or_empty-Of :
      acceptor_dir f ≡ false
      → All (Of (f.session_id, false)) (or_empty (get f.session_id d.preopen))
  or_empty-Of dir = elim (Option-cases (get f.session_id d.preopen)) [
    | inl e ↦ rw e tt
    | inr (fs, e) ↦ rw e (v.waiting f.session_id fs e)
  ]

  Of-frame : acceptor_dir f ≡ false → Of (f.session_id, false) f
  Of-frame dir =
      subst (λ (b : Bool). Of (f.session_id, b) f) dir
        (subst (λ (j : ℕ × Bool). Of j f) (sym key_eq) o)

  accept_unknown-Within : Within k d (accept_unknown d f)
  unfolding accept_unknown
  accept_unknown-Within =
      let fs = or_empty (get f.session_id d.preopen) in
      elim (Bool-cases (acceptor_dir f)) [
        | inl e ↦ rw e accept_first-Within
        | inr e ↦ rw e (elim (Bool-cases (ltb (length fs) preopen_max)) [
          | inl e2 ↦ rw e2 (
              kept-Within (insert f.session_id (fs ++ (f ∷ [])) d.preopen) d.out_of_order
                d.stale_dropped
                (Waits-insert f.session_id (fs ++ (f ∷ [])) d.preopen
                  (All-append (Of (f.session_id, false)) fs (f ∷ []) (or_empty-Of e)
                    (Of-frame e, tt))
                  v.waiting)
                (λ sid ne.
                  get-insert_ne sid f.session_id _ d.preopen
                    (not_here sid f.session_id (here e) ne)))
          | inr e2 ↦ rw e2 (
              kept-Within (insert f.session_id fs d.preopen) d.out_of_order (d.stale_dropped + 1)
                (Waits-insert f.session_id fs d.preopen (or_empty-Of e) v.waiting)
                (λ sid ne.
                  get-insert_ne sid f.session_id fs d.preopen
                    (not_here sid f.session_id (here e) ne)))
        ])
      ]

  accept_open-Within : acceptor_dir f ≡ false → Within k d (accept_open d f)
  unfolding accept_open
  accept_open-Within dir =
      let fs = or_empty (get f.session_id d.preopen) in
      let merged = merge_waiting (fresh_state f) fs in
      let all : All (Of k) fs = rw (← key_eq, dir) (or_empty-Of dir) in
      let h = flush_ready-Holds (Of k) merged.0 (
        merge_waiting-Holds (Of k) (fresh_state f) fs (unfold fresh_state in Holds-nil (Of k))
          all) in
      stored-Within (flush_ready merged.0).0 (remove f.session_id d.preopen) d.out_of_order
        (d.stale_dropped + merged.1) (f ∷ (flush_ready merged.0).1) h.0 (o, h.1)
        (Waits-remove f.session_id d.preopen v.waiting)
        (λ sid ne.
          get-remove_ne sid f.session_id d.preopen (not_here sid f.session_id (here dir) ne))

  accept_session-Within :
      (x : Option SidReorder) → get k d.states ≡ x → Within k d (accept_session d x f)
  unfolding accept_session
  accept_session-Within none at = accept_unknown-Within
  accept_session-Within (some st) at = elim (Bool-cases (st.epoch == epoch_of f)) [
    | inl e ↦ rw e (accept_current-Within st at)
    | inr e ↦ rw e (elim (Bool-cases (newer (epoch_of f) st.epoch)) [
      | inl e2 ↦ rw e2 accept_first-Within
      | inr e2 ↦
          rw e2
            (kept-Within d.preopen d.out_of_order (d.stale_dropped + 1) v.waiting (λ sid ne. refl))
    ])
  ]

  accept_ordered-Within :
      uses_session_order f.ftype ≡ true
      → (is_open f.ftype ≡ true → acceptor_dir f ≡ false)
      → Within k d (accept d f)
  unfolding accept
  accept_ordered-Within u dir = rw u (elim (Bool-cases (epoch_of f == 0)) [
    | inl e ↦ rw e (record {
      sorted = v;
      delivered = (o, tt);
      others = λ j ne. refl;
      others_waiting = λ sid ne. refl;
    })
    | inr e ↦ rw e (elim (Bool-cases (is_open f.ftype)) [
      | inl e2 ↦ rw e2 (accept_open-Within (dir e2))
      | inr e2 ↦ rw (e2, key_eq) (accept_session-Within (get k d.states) refl)
    ])
  ])

-- In a decoder whose frames wait under their own session and direction, a session frame (an Open
-- in the opener's direction only) changes the state of no other session or direction and none of the
-- frames of other sessions that wait for their Open. What it delivers belongs to its session and
-- direction, and afterwards every frame still waits under its own.
pub accept-Within :
    (d : MuxDecoder) (f : Frame)
    → IsSorted d
    → uses_session_order f.ftype ≡ true
    → (is_open f.ftype ≡ true → acceptor_dir f ≡ false)
    → Within (key_of f) d (accept d f)
accept-Within d f v u dir =
    accept_ordered-Within d v f (key_of f) (rw u ((pair_beq_iff (key_of f) (key_of f)).1 refl)) refl
      u dir

-- A frame that takes no part in the session order is delivered at once and changes nothing.
pub accept_control :
    (d : MuxDecoder) (f : Frame) → uses_session_order f.ftype ≡ false → accept d f ≡ (d, f ∷ [])
unfolding accept
accept_control d f u = rw u

pub new_decoder-IsSorted : IsSorted new_decoder
unfolding new_decoder get
new_decoder-IsSorted = record { buffered = λ k st h. cc; waiting = λ sid fs h. cc }
