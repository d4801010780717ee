-- ===== src/Srtcore/Socket/Calls.antt =====
-- What a call of setOpt that succeeds has passed and done.
use srt_vpn.Prelude.{
  ℕ, Bool, true, false, not, List, ◌&&◌, ◌||◌, if◌then◌else◌, ◌≡◌, refl, ap, sym, Bool-cases, inl,
  inr, subst, ||-eq-false, Option, none, some,
}
use srt_vpn.Prelude.Ints.{ℤ, pos, int_lt}
use srt_vpn.Srtcore.Options.{SockOpt, code, e_size, r_prebind, r_pre, post_spec, is_set, flags}
use srt_vpn.Srtcore.Config.{SrtConfig}
use srt_vpn.Srtcore.Config.Payload.{Factory}
use srt_vpn.Srtcore.Config.Dispatch.{SetResult, set_result, dispatch_set}
use srt_vpn.Srtcore.Config.Leaves.{Leaves}
use srt_vpn.Srtcore.Socket.{
  Cudt, CcEvent, OptError, Outcome, set_opt, after_set, post_action, new_tolerance,
}

-- `b` is the state before, `a` the one after.
pub record Accepted (filters : List (List ℕ × Factory)) (b : Cudt) (name : SockOpt)
    (optval : List ℕ) (optlen : ℕ) (a : Cudt) : Type 0 where
  pub new_config : SrtConfig
  pub tolerance : ℤ
  pub state_after : a ≡ record b { config = new_config; reorder_tolerance = tolerance }
  pub setter_returned :
      dispatch_set filters name b.config optval optlen ≡ SetResult.returned new_config
  pub prebind_passed : (is_set (flags name) r_prebind && b.opened) ≡ false
  pub pre_passed :
      (is_set (flags name) r_pre && (b.connected || b.connecting || b.listening)) ≡ false

passed :
    (t : Bool) (x : OptError) (o : Outcome) (a : Cudt) (es : List CcEvent)
    → (if t then Outcome.failed x else o) ≡ Outcome.done a es
    → (t ≡ false) × (o ≡ Outcome.done a es)
passed true x o a es h = cc
passed false x o a es h = (refl, h)

done_state : {x y : Cudt} {es fs : List CcEvent} → Outcome.done x es ≡ Outcome.done y fs → x ≡ y
done_state {x} h = ap (λ o. elim o [ Outcome.done z _ ↦ z | Outcome.failed _ ↦ x ]) h

module _ (filters : List (List ℕ × Factory)) (b : Cudt) (name : SockOpt) (optval : List ℕ)
    (optlen : ℕ) where
  after_set-Accepted :
      (r : SetResult) (a : Cudt) (es : List CcEvent)
      → dispatch_set filters name b.config optval optlen ≡ r
      → (is_set (flags name) r_prebind && b.opened) ≡ false
      → (is_set (flags name) r_pre && (b.connected || b.connecting || b.listening)) ≡ false
      → after_set name b r ≡ Outcome.done a es
      → Accepted filters b name optval optlen a
  unfolding after_set post_action
  after_set-Accepted SetResult.thrown a es e p q h = cc
  after_set-Accepted SetResult.unknown a es e p q h = cc
  after_set-Accepted (SetResult.returned c) a es e p q h =
      elim (Bool-cases (is_set (flags name) post_spec && b.connected)) [
        | inl t ↦ record {
          new_config = c;
          tolerance = new_tolerance name (record b { config = c });
          state_after = sym (done_state (rw t at h));
          setter_returned = e;
          prebind_passed = p;
          pre_passed = q;
        }
        | inr t ↦ record {
          new_config = c;
          tolerance = b.reorder_tolerance;
          state_after = sym (done_state (rw t at h));
          setter_returned = e;
          prebind_passed = p;
          pre_passed = q;
        }
      ]

  pub set_opt-Accepted :
      (a : Cudt) (es : List CcEvent)
      → set_opt filters b name optval optlen ≡ Outcome.done a es
      → Accepted filters b name optval optlen a
  unfolding set_opt
  set_opt-Accepted a es h =
      let alive = passed (b.broken || b.closing) OptError.conn_lost _ a es h in
      let known =
        passed (int_lt (code name) (pos 0) || not (int_lt (code name) (pos e_size))) OptError.inval
          _ a es alive.1 in
      let unbound =
        passed (is_set (flags name) r_prebind && b.opened) OptError.is_bound _ a es known.1 in
      let early =
        passed (is_set (flags name) r_pre && (b.connected || b.connecting || b.listening))
          OptError.is_connected _ a es unbound.1 in
      after_set-Accepted (dispatch_set filters name b.config optval optlen) a es refl unbound.0
        early.0 early.1

pub not_connected :
    (s : Cudt) → (s.connected || s.connecting || s.listening) ≡ false → s.connected ≡ false
not_connected s h =
    (||-eq-false s.connected s.connecting
      (||-eq-false (s.connected || s.connecting) s.listening h).0).0

pub returned_config :
    {P : SrtConfig → Type 0} {o : Option SrtConfig} {c : SrtConfig}
    → Leaves P o
    → set_result o ≡ SetResult.returned c
    → P c
returned_config {o = none} l e = cc
returned_config {P} {o = some d} l e =
    subst P (ap (λ r. elim r [ SetResult.returned x ↦ x | _ ↦ d ]) e) (l.at d refl)
