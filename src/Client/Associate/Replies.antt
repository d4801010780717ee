-- ===== src/Client/Associate/Replies.antt =====
-- To whom the answers go.
use srt_vpn.Prelude.{
  ℕ, Option, none, some, List, [], ◌∷◌, All, ◌≡◌, ◌⊎◌, inl, inr, refl, sym, ap, Option-cases, subst,
}
use srt_vpn.Udp.{Addressed, split_udp_frames, encode_udp_addr_header_host}
use srt_vpn.Udp.Reassembler.{push}
use srt_vpn.Client.Associate.{
  Texts, Association, new_association, Event, Effects, Turn, goes_on, ends, lock_client,
  forward_datagram, answer_client, parse_whole, parse_udp_datagram, step, reply_datagram,
}

-- Events one after the other, until the association ends or a call panics: what each had it do.
abbrev pub keep_turn : Option Turn → (Association → List Effects) → List Effects
keep_turn none f = []
keep_turn (some ends) f = []
keep_turn (some (goes_on s effects)) f = effects ∷ f s

unfoldable pub run_events : Texts → Association → List Event → List Effects
run_events x s [] = []
run_events x s (e ∷ es) = keep_turn (step x s e) (λ t. run_events x t es)

-- The source of the first datagram of the client.
unfoldable pub first_source : List Event → Option ℕ
first_source [] = none
first_source (Event.from_client src datagram sends ∷ es) = some src
first_source (e ∷ es) = first_source es

-- An answer goes to that address.
abbrev pub RepliesTo : Option ℕ → Effects → Type 0
RepliesTo to effects =
    (effects.reply ≡ none)
    ⊎ ((addr : ℕ) × (datagram : List ℕ) × (to ≡ some addr)
        × (effects.reply ≡ some (addr, datagram)))

abbrev locked_or : Option ℕ → Option ℕ → Option ℕ
locked_or none later = later
locked_or (some addr) later = some addr

answer-RepliesTo :
    (x : Texts) (client later : Option ℕ) (a : Option Addressed)
    → RepliesTo (locked_or client later) (record { frames = []; reply = answer_client x client a })
answer-RepliesTo x none later a = inl refl
answer-RepliesTo x (some addr) later none = inl refl
answer-RepliesTo x (some addr) later (some a) = inr (addr, reply_datagram x a, refl, refl)

reply_of : Option Effects → Option (ℕ × List ℕ)
reply_of none = none
reply_of (some e) = e.reply

forward_datagram_silent :
    (a : Option Addressed) (sends : ℕ) (effects : Effects)
    → forward_datagram a sends ≡ some effects
    → effects.reply ≡ none
unfolding reply_of
forward_datagram_silent none sends effects h = ap reply_of (sym h)
forward_datagram_silent (some a) sends effects h =
    elim (Option-cases (split_udp_frames (encode_udp_addr_header_host a.host a.port) a.rest)) [
      | inl e ↦ cc (rw e at h)
      | inr (frames, e) ↦ ap reply_of (sym (rw e at h))
    ]

-- A further source changes nothing.
lock_first :
    (client : Option ℕ) (src : ℕ) (later : Option ℕ)
    → locked_or (lock_client client src) later ≡ locked_or client (some src)
lock_first none src later = refl
lock_first (some addr) src later = refl

run_events_from :
    (x : Texts) (s : Association) (es : List Event)
    → All (RepliesTo (locked_or s.client_addr (first_source es))) (run_events x s es)
unfolding run_events first_source step
run_events_from x s [] = tt
run_events_from x s (Event.from_client src datagram sends ∷ es) =
    elim (Option-cases (forward_datagram (parse_udp_datagram x datagram) sends)) [
      | inl e ↦ rw e tt
      | inr (effects, e) ↦
          let t : Association = record s { client_addr = lock_client s.client_addr src } in
          rw e (
            inl (forward_datagram_silent (parse_udp_datagram x datagram) sends effects e),
            subst (λ to. All (RepliesTo to) (run_events x t es))
                (lock_first s.client_addr src (first_source es)) (run_events_from x t es),
          )
    ]
run_events_from x s (Event.from_tunnel now content ∷ es) =
    elim (Option-cases (push x.lossy now s.reassembler content)) [
      | inl e ↦ rw e tt
      | inr ((r, whole), e) ↦ rw e (
        answer-RepliesTo x s.client_addr (first_source es) (parse_whole x whole),
        run_events_from x (record s { reassembler = r }) es,
      )
    ]
run_events_from x s (Event.idle_timeout ∷ es) = tt
run_events_from x s (Event.tcp_activity ∷ es) = tt
run_events_from x s (Event.relay_error ∷ es) = tt
run_events_from x s (Event.session_gone ∷ es) = tt

-- Whatever comes to the relay and through the tunnel, in any order: every answer goes to the source
-- of the first datagram that comes to the relay. Datagrams from other sources do not change where
-- answers go, and without a datagram there is no answer.
pub run_events-RepliesTo :
    (x : Texts) (es : List Event)
    → All (RepliesTo (first_source es)) (run_events x new_association es)
unfolding new_association
run_events-RepliesTo x es = run_events_from x new_association es
