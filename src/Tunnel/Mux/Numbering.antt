-- ===== src/Tunnel/Mux/Numbering.antt =====
-- src/tunnel/multiplex.rs: how the encoder numbers the frames of a session.
use srt_vpn.Prelude.{
  ℕ, ◌+◌, ◌*◌, ◌/◌, ◌%◌, ◌^◌, ◌≤◌, ◌<◌, ◌≡◌, ◌≢◌, inl, inr, refl, ◌↔◌, ◌∙◌, ap, Bool, false, some,
  arith, get, nat_eq, get-insert_self, get-insert_ne, Bool-cases, Option-cases, ℕ_eq-cases,
}
use srt_vpn.Tunnel.{FrameType}
use srt_vpn.Tunnel.Mux.{
  MuxEncoder, SidTx, seq_mask, epoch_unit, uses_session_order, is_open, new_encoder, new_acceptor,
  renew_tx, entry, session_field, next_seq_field,
}

-- The numbers of one session's state fit the 8 and 24 bits of the field.
abbrev pub TxFits : SidTx → Type 0
TxFits tx = (1 ≤ tx.epoch) × (tx.epoch ≤ 255) × (tx.seq ≤ seq_mask)

pub record IsValid (e : MuxEncoder) : Type 0 where
  pub seq_fits : e.seq < 2 ^ 32
  pub ctr_fits : e.epoch_ctr < 256
  pub tx_fits : (sid : ℕ) (tx : SidTx) → get sid e.session_tx ≡ some tx → TxFits tx

pub new_encoder-IsValid : (reliable : Bool) → IsValid (new_encoder reliable)
unfolding new_encoder get
new_encoder-IsValid reliable = record {
  seq_fits = omega arith;
  ctr_fits = omega arith;
  tx_fits = λ sid tx h. cc;
}

pub new_acceptor-IsValid : (reliable : Bool) → IsValid (new_acceptor reliable)
unfolding new_acceptor get
new_acceptor-IsValid reliable = record {
  seq_fits = omega arith;
  ctr_fits = omega arith;
  tx_fits = λ sid tx h. cc;
}

-- The state of the session after the choice of its epoch is in range, below the mask.
renew_tx_fits :
    (e : MuxEncoder) (t : FrameType) (sid : ℕ)
    → IsValid e
    → let r = renew_tx e t (entry (get sid e.session_tx)) in
      (1 ≤ r.0.epoch)
      × (r.0.epoch ≤ 255)
      × (r.0.seq < seq_mask)
      × (r.1.epoch_ctr < 256)
      × (r.1.seq ≡ e.seq)
      × (r.1.session_tx ≡ e.session_tx)
unfolding renew_tx
renew_tx_fits e t sid v = elim (Option-cases (get sid e.session_tx)) [
  | inl h ↦ rw h (ground arith)
  | inr (tx, h) ↦ rw h (ground (arith, v.tx_fits sid tx h))
]

stored :
    (e : MuxEncoder) (t : FrameType) (sid : ℕ)
    → let r = renew_tx e t (entry (get sid e.session_tx)) in
      get sid (session_field e t sid).1.session_tx
      ≡ some (record { epoch = r.0.epoch; seq = r.0.seq + 1 })
unfolding session_field
stored e t sid = get-insert_self sid _ _

renew_tx_keeps :
    (e : MuxEncoder) (t : FrameType) (tx : SidTx) → (renew_tx e t tx).1.session_tx ≡ e.session_tx
unfolding renew_tx
renew_tx_keeps e t tx = ground arith

renew_tx_open :
    (e : MuxEncoder) (tx : SidTx)
    → renew_tx e FrameType.open_frame tx ≡ (
      record { epoch = e.epoch_ctr % 255 + 1; seq = 0 },
      record e { epoch_ctr = (e.epoch_ctr + 1) % 256 },
    )
unfolding renew_tx is_open
renew_tx_open e tx = ground arith

renew_tx_same :
    (e : MuxEncoder) (t : FrameType) (tx : SidTx)
    → 1 ≤ tx.epoch
    → tx.seq < seq_mask
    → is_open t ≡ false
    → renew_tx e t tx ≡ (tx, e)
unfolding renew_tx
renew_tx_same e t tx pos lt closed = ground arith

-- The other sessions keep their state.
pub kept :
    (e : MuxEncoder) (t : FrameType) (sid j : ℕ)
    → j ≢ sid
    → get j (session_field e t sid).1.session_tx ≡ get j e.session_tx
unfolding session_field
kept e t sid j ne =
    get-insert_ne j sid _ _ ne ∙ ap (get j) (renew_tx_keeps e t (entry (get sid e.session_tx)))

pub session_field-IsValid :
    (e : MuxEncoder) (t : FrameType) (sid : ℕ) → IsValid e → IsValid (session_field e t sid).1
unfolding session_field
session_field-IsValid e t sid v =
    let fits = renew_tx_fits e t sid v in
    record {
      seq_fits = omega (arith, v.seq_fits);
      ctr_fits = omega arith;
      tx_fits = λ j tx h. elim (ℕ_eq-cases j sid) [
        | inl same ↦ ground (arith, stored e t sid)
        | inr other ↦ ground (arith, kept e t sid j other, v.tx_fits j tx)
      ];
    }

session_field_lt :
    (e : MuxEncoder) (t : FrameType) (sid : ℕ) → IsValid e → (session_field e t sid).0 < 2 ^ 32
unfolding session_field
session_field_lt e t sid v = omega (arith, renew_tx_fits e t sid v)

-- Every field fits 32 bits, and the encoder stays valid.
pub next_seq_field-IsValid :
    (e : MuxEncoder) (t : FrameType) (sid : ℕ)
    → IsValid e
    → ((next_seq_field e t sid).0 < 2 ^ 32) × IsValid (next_seq_field e t sid).1
unfolding next_seq_field
next_seq_field-IsValid e t sid v = elim (Bool-cases (uses_session_order t)) [
  | inl h ↦ rw h (session_field_lt e t sid v, session_field-IsValid e t sid v)
  | inr h ↦
      rw h (
        ground arith,
        record { seq_fits = omega arith; ctr_fits = v.ctr_fits; tx_fits = v.tx_fits },
      )
]

-- An Open takes the next epoch and the number 0.
pub session_field-opens :
    (e : MuxEncoder) (sid : ℕ)
    → let r = session_field e FrameType.open_frame sid in
      (r.0 ≡ (e.epoch_ctr % 255 + 1) * epoch_unit) × (r.1.epoch_ctr ≡ (e.epoch_ctr + 1) % 256)
unfolding session_field
session_field-opens e sid = rw (renew_tx_open e (entry (get sid e.session_tx))) (omega arith, refl)

pub session_field-open_stored :
    (e : MuxEncoder) (sid : ℕ)
    → get sid (session_field e FrameType.open_frame sid).1.session_tx
      ≡ some (record { epoch = e.epoch_ctr % 255 + 1; seq = 1 })
unfolding session_field
session_field-open_stored e sid =
    rw (renew_tx_open e (entry (get sid e.session_tx))) (get-insert_self sid _ e.session_tx)

-- Behind a frame of a session the numbering goes on: the next frame that is no Open has the same
-- epoch and the next number, as long as there are numbers.
pub session_field-continues :
    (e : MuxEncoder) (t : FrameType) (sid : ℕ) (tx : SidTx)
    → get sid e.session_tx ≡ some tx
    → 1 ≤ tx.epoch
    → tx.seq < seq_mask
    → is_open t ≡ false
    → ((session_field e t sid).0 ≡ tx.epoch * epoch_unit + tx.seq)
      × (get sid (session_field e t sid).1.session_tx
          ≡ some (record { epoch = tx.epoch; seq = tx.seq + 1 }))
unfolding session_field
session_field-continues e t sid tx at pos lt closed =
    rw (at, renew_tx_same e t tx pos lt closed) (refl, get-insert_self sid _ e.session_tx)

-- Two Opens one after the other, of any sessions, get different epochs unless the counter is at
-- 255, where both get epoch 1.
pub open_epochs_iff :
    (e : MuxEncoder) (sid sid' : ℕ)
    → e.epoch_ctr < 256
    → let first = session_field e FrameType.open_frame sid in
      let second = session_field first.1 FrameType.open_frame sid' in
      (first.0 / epoch_unit ≡ second.0 / epoch_unit) ↔ (e.epoch_ctr ≡ 255)
open_epochs_iff e sid sid' h =
    let first = session_field-opens e sid in
    let second = session_field-opens (session_field e FrameType.open_frame sid).1 sid' in
    (λ q. omega (arith, first, second), λ q. omega (arith, first, second))
