-- ===== src/Tunnel/Mux/Buffers.antt =====
-- src/tunnel/multiplex.rs: what holds of all frames of a buffer is kept by the loops on it.
use srt_vpn.Prelude.{
  ℕ, zero, suc, ◌+◌, ◌≡◌, inl, inr, Bool, true, ◌&&◌, some, List, [], ◌∷◌, length, All, get, insert,
  remove, nat_eq, pair_eq, pair_beq, get-insert_self, get-insert_ne, get-remove_self, get-remove_ne,
  Bool-cases, Option-cases, ℕ_eq-cases, sym, subst, ◌∙◌,
}
use srt_vpn.Tunnel.Mux.{Frame, uses_session_order}
use srt_vpn.Tunnel.Mux.Decoder.{
  SidReorder, sseq_of, key_of, flush_loop, flush_ready, merge_waiting, merge_one, unwanted,
}

-- A session frame of the session and direction `k`.
abbrev pub is_of : ℕ × Bool → Frame → Bool
is_of k f = uses_session_order f.ftype && pair_beq (key_of f) k

abbrev pub Of : ℕ × Bool → Frame → Type 0
Of k f = is_of k f ≡ true

-- Every frame of a buffer satisfies `P`.
abbrev pub Holds : (Frame → Type 0) → List (ℕ × Frame) → Type 0
Holds P buf = (s : ℕ) (g : Frame) → get s buf ≡ some g → P g

module _ (P : Frame → Type 0) where
  pub Holds-nil : Holds P []
  unfolding get
  Holds-nil s g at = cc

  pub Holds-insert :
      (s : ℕ) (f : Frame) (buf : List (ℕ × Frame)) → P f → Holds P buf → Holds P (insert s f buf)
  Holds-insert s f buf p h j g at = elim (ℕ_eq-cases j s) [
    | inl e ↦ let eq : f ≡ g = cc (get-insert_self s f buf) in subst P eq p
    | inr ne ↦ h j g (sym (get-insert_ne j s f buf ne) ∙ at)
  ]

  Holds-remove : (s : ℕ) (buf : List (ℕ × Frame)) → Holds P buf → Holds P (remove s buf)
  Holds-remove s buf h j g at = elim (ℕ_eq-cases j s) [
    | inl e ↦ cc (get-remove_self s buf)
    | inr ne ↦ h j g (sym (get-remove_ne j s buf ne) ∙ at)
  ]

  flush_loop-Holds :
      (fuel : ℕ) (st : SidReorder)
      → Holds P st.buf
      → Holds P (flush_loop fuel st).0.buf × All P (flush_loop fuel st).1
  unfolding flush_loop
  flush_loop-Holds zero st h = (h, tt)
  flush_loop-Holds (suc fuel) st h = elim (Option-cases (get st.next st.buf)) [
    | inl e ↦ rw (e, flush_loop) (h, tt)
    | inr (f, e) ↦
        let st' : SidReorder = record {
          epoch = st.epoch;
          next = st.next + 1;
          buf = remove st.next st.buf;
        } in
        let ih = flush_loop-Holds fuel st' (Holds-remove st.next st.buf h) in
        rw (e, flush_loop) (ih.0, (h st.next f e, ih.1))
  ]

  pub flush_ready-Holds :
      (st : SidReorder) → Holds P st.buf → Holds P (flush_ready st).0.buf × All P (flush_ready st).1
  unfolding flush_ready
  flush_ready-Holds st h = flush_loop-Holds (length st.buf) st h

  merge_one-Holds :
      (st : SidReorder) (f : Frame) → Holds P st.buf → P f → Holds P (merge_one st f).buf
  unfolding merge_one
  merge_one-Holds st f h p = elim (Bool-cases (unwanted st f)) [
    | inl e ↦ rw e h
    | inr e ↦ rw e (Holds-insert (sseq_of f) f st.buf p h)
  ]

  pub merge_waiting-Holds :
      (st : SidReorder) (fs : List Frame)
      → Holds P st.buf
      → All P fs
      → Holds P (merge_waiting st fs).0.buf
  unfolding merge_waiting
  merge_waiting-Holds st [] h a = h
  merge_waiting-Holds st (f ∷ fs) h a =
      merge_waiting-Holds (merge_one st f) fs (merge_one-Holds st f h a.0) a.1
