-- ===== src/Tunnel/Mux/Sender.antt =====
-- src/tunnel/multiplex.rs: the frames of a session among all that an encoder sends.
use srt_vpn.Prelude.{
  ℕ, suc, ◌+◌, ◌*◌, ◌≤◌, ◌<◌, ◌≡◌, ◌≢◌, ◌⊎◌, inl, inr, refl, Bool, true, false, some, List, [], ◌∷◌,
  arith, length, All, get, nat_eq, pair_eq, Bool-cases, ℕ_eq-cases, ◌∙◌, sym, ap, subst,
}
use srt_vpn.Tunnel.{FrameType}
use srt_vpn.Tunnel.Mux.{
  Frame, SidTx, MuxEncoder, uses_session_order, is_open, session_field, next_seq_field, seq_mask,
  epoch_unit, renew_tx, alloc_epoch, entry,
}
use srt_vpn.Tunnel.Mux.Decoder.{sseq_of, key_of}
use srt_vpn.Tunnel.Mux.Wire.{sent_frame, frame_flags-dir}
use srt_vpn.Tunnel.Mux.Numbering.{IsValid, next_seq_field-IsValid, session_field-continues, kept}
use srt_vpn.Tunnel.Mux.Order.{Numbered}
use srt_vpn.Tunnel.Mux.Delivery.{OfStream}
use srt_vpn.Tunnel.Mux.Buffers.{is_of}
use srt_vpn.Tunnel.Mux.Reassembly.{of_key, is_of_of_key_eq, key_eq_of_is_of}

-- A call of `encode_frame`.
pub record Sending : Type 0 where
  pub ftype : FrameType
  pub session_id : ℕ
  pub flags : ℕ
  pub payload : List ℕ

abbrev pub frame_for : MuxEncoder → Sending → Frame
frame_for e c = sent_frame e c.ftype c.session_id c.flags c.payload

abbrev pub after : MuxEncoder → Sending → MuxEncoder
after e c = (next_seq_field e c.ftype c.session_id).1

-- The frames of a row of calls, of any sessions.
unfoldable pub send_all : MuxEncoder → List Sending → List Frame
send_all e [] = []
send_all e (c ∷ cs) = frame_for e c ∷ send_all (after e c) cs

-- Calls in which `sid` is not opened anew. The caller's flags are below 16.
abbrev pub GoesOnWith : ℕ → Sending → Type 0
GoesOnWith sid c = (c.flags < 16) × (is_open c.ftype ≡ true → c.session_id ≢ sid)

renew_tx_dir :
    (e : MuxEncoder) (t : FrameType) (tx : SidTx)
    → (renew_tx e t tx).1.dir_acceptor ≡ e.dir_acceptor
unfolding renew_tx alloc_epoch
renew_tx_dir e t tx = ground arith

pub next_seq_field-dir :
    (e : MuxEncoder) (t : FrameType) (sid : ℕ)
    → (next_seq_field e t sid).1.dir_acceptor ≡ e.dir_acceptor
unfolding next_seq_field session_field
next_seq_field-dir e t sid = elim (Bool-cases (uses_session_order t)) [
  | inl u ↦ rw u (renew_tx_dir e t (entry (get sid e.session_tx)))
  | inr u ↦ rw u
]

-- The encoder has sent the frames below `n` of the epoch of `sid`.
pub record Sent (sid epoch n : ℕ) (e : MuxEncoder) : Type 0 where
  pub valid : IsValid e
  pub stored : get sid e.session_tx ≡ some (record { epoch = epoch; seq = n })
  pub low : 1 ≤ epoch
  pub high : epoch ≤ 255

pub next_seq_field-session :
    (e : MuxEncoder) (t : FrameType) (sid : ℕ)
    → uses_session_order t ≡ true
    → next_seq_field e t sid ≡ session_field e t sid
unfolding next_seq_field
next_seq_field-session e t sid u = rw u

next_seq_field-Sent :
    (e : MuxEncoder) (t : FrameType) (sid epoch n : ℕ)
    → Sent sid epoch n e
    → n < seq_mask
    → uses_session_order t ≡ true
    → is_open t ≡ false
    → ((next_seq_field e t sid).0 ≡ epoch * epoch_unit + n)
      × Sent sid epoch (n + 1) (next_seq_field e t sid).1
next_seq_field-Sent e t sid epoch n s lt u closed =
    let (field, stored) =
      session_field-continues e t sid (record { epoch = epoch; seq = n }) s.stored s.low lt
        closed in
    let (_, v) = next_seq_field-IsValid e t sid s.valid in
    let eq = next_seq_field-session e t sid u in
    (
      ap (λ (r : ℕ × MuxEncoder). r.0) eq ∙ field,
      record {
        valid = v;
        stored = ap (λ (r : ℕ × MuxEncoder). get sid r.1.session_tx) eq ∙ stored;
        low = s.low;
        high = s.high;
      },
    )

-- A frame of `sid` takes the number `n`.
frame_for-OfStream :
    (e : MuxEncoder) (c : Sending) (epoch n : ℕ)
    → Sent c.session_id epoch n e
    → n < seq_mask
    → c.flags < 16
    → uses_session_order c.ftype ≡ true
    → is_open c.ftype ≡ false
    → OfStream (c.session_id, e.dir_acceptor) epoch (frame_for e c)
      × (sseq_of (frame_for e c) ≡ n)
      × Sent c.session_id epoch (n + 1) (after e c)
frame_for-OfStream e c epoch n s lt small u closed =
    let (field, s') = next_seq_field-Sent e c.ftype c.session_id epoch n s lt u closed in
    (
      record {
        ordered = u;
        not_open = closed;
        key_eq = ap (λ (b : Bool). (c.session_id, b)) (frame_flags-dir e c.flags small);
        epoch_eq = omega (arith, field, s.high);
        epoch_pos = omega (arith, field, s.high, s.low);
      },
      omega (arith, field),
      s',
    )

-- A call for another session, or of a type that takes no part in the session order.
after-other :
    (e : MuxEncoder) (c : Sending) (sid epoch n : ℕ)
    → Sent sid epoch n e
    → (uses_session_order c.ftype ≡ false) ⊎ (c.session_id ≢ sid)
    → Sent sid epoch n (after e c)
after-other e c sid epoch n s o = record {
  valid = (next_seq_field-IsValid e c.ftype c.session_id s.valid).1;
  stored = elim (Bool-cases (uses_session_order c.ftype)) [
    | inr u ↦ unfold next_seq_field in rw (after, u) s.stored
    | inl u ↦
        ap (λ (r : ℕ × MuxEncoder). get sid r.1.session_tx)
          (next_seq_field-session e c.ftype c.session_id u)
        ∙ (elim o [
          | inl not_u ↦ cc
          | inr ne ↦ kept e c.ftype c.session_id sid (λ q. ne (sym q)) ∙ s.stored
        ])
  ];
  low = s.low;
  high = s.high;
}

-- A sent frame is of `sid`, and is not its Open, or leaves the state of `sid` alone.
Of-or-other :
    (e : MuxEncoder) (c : Sending) (sid : ℕ) (dir : Bool)
    → e.dir_acceptor ≡ dir
    → GoesOnWith sid c
    → ((is_of (sid, dir) (frame_for e c) ≡ true)
        × (c.session_id ≡ sid)
        × (uses_session_order c.ftype ≡ true)
        × (is_open c.ftype ≡ false))
      ⊎ ((is_of (sid, dir) (frame_for e c) ≡ false)
          × ((uses_session_order c.ftype ≡ false) ⊎ (c.session_id ≢ sid)))
Of-or-other e c sid dir hd (small, not_reopened) = elim (Bool-cases (uses_session_order c.ftype)) [
  | inr u ↦ inr (rw u refl, inl u)
  | inl u ↦ elim (ℕ_eq-cases c.session_id sid) [
    | inl same ↦
        let key : key_of (frame_for e c) ≡ (sid, dir) =
          ap (λ (b : Bool). (c.session_id, b)) (frame_flags-dir e c.flags small ∙ hd)
          ∙ ap (λ (x : ℕ). (x, dir)) same in
        inl (
          is_of_of_key_eq (sid, dir) (frame_for e c) u key,
          same,
          u,
          elim (Bool-cases (is_open c.ftype)) [
            | inl opens ↦ absurd (not_reopened opens same)
            | inr closed ↦ closed
          ],
        )
    | inr ne ↦ inr (
      elim (Bool-cases (is_of (sid, dir) (frame_for e c))) [
        | inl is ↦
            absurd (ne (ap (λ (p : ℕ × Bool). p.0) (key_eq_of_is_of (sid, dir) (frame_for e c) is)))
        | inr is ↦ is
      ],
      inr ne,
    )
  ]
]

-- The frames of `sid` among the sent ones are its stream: numbered on, in one epoch.
pub send_all-OfStream :
    (cs : List Sending) (e : MuxEncoder) (sid epoch n : ℕ) (dir : Bool)
    → e.dir_acceptor ≡ dir
    → Sent sid epoch n e
    → All (GoesOnWith sid) cs
    → let ds = of_key (sid, dir) (send_all e cs) in
      n + length ds ≤ seq_mask → Numbered n ds × All (OfStream (sid, dir) epoch) ds
unfolding send_all of_key
send_all-OfStream [] e sid epoch n dir hd s a small = (tt, tt)
send_all-OfStream (c ∷ cs) e sid epoch n dir hd s (goes, a) small =
    let hd' = next_seq_field-dir e c.ftype c.session_id ∙ hd in
    elim (Of-or-other e c sid dir hd goes) [
      | inr (not_of, o) ↦ rw not_of (
          send_all-OfStream cs (after e c) sid epoch n dir hd' (after-other e c sid epoch n s o) a
            (rw not_of at small))
      | inl (is, same, u, closed) ↦
          let small' : n + suc (length (of_key (sid, dir) (send_all (after e c) cs))) ≤ seq_mask =
            rw is at small in
          let (of, number, s') =
            frame_for-OfStream e c epoch n (subst (λ (x : ℕ). Sent x epoch n e) (sym same) s)
              (omega (arith, small')) goes.0 u closed in
          let (numbered, all) =
            send_all-OfStream cs (after e c) sid epoch (n + 1) dir hd'
              (subst (λ (x : ℕ). Sent x epoch (n + 1) (after e c)) same s') a
              (omega (arith, small')) in
          rw is (
            (number, numbered),
            (
              subst (λ (x : ℕ × Bool). OfStream x epoch (frame_for e c))
                  (ap (λ (b : Bool). (c.session_id, b)) hd ∙ ap (λ (x : ℕ). (x, dir)) same) of,
              all,
            ),
          )
    ]
