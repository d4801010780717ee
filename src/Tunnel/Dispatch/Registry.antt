-- ===== src/Tunnel/Dispatch/Registry.antt =====
-- src/tunnel/dispatch.rs: which session numbers the registry hands out, and its counters.
use srt_vpn.Prelude.{
  ℕ, zero, suc, ◌+◌, ◌-◌, ◌%◌, ◌^◌, ◌≤◌, ◌<◌, ◌≡◌, ◌≢◌, ◌↔◌, ◌⊎◌, inl, inr, refl, Bool, true, false,
  none, some, List, arith, length, get, insert, remove, nat_eq, get-remove_ne, length-remove-lt,
  Bool-cases, Option-cases, is_some, ◌==◌, ◌||◌, leb, leb→le, le→leb, ==_iff, ||-eq-true,
  ||-eq-false, is_some-eq-false,
}
use native.Mathlib.Nat.{add-zero}
use srt_vpn.Tunnel.{max_sessions}
use srt_vpn.Tunnel.Dispatch.{
  SessionRegistry, Channel, new_channel, register, allocate_loop, allocate, contains_key,
}

-- A map that holds all of 1 to n has n entries at least.
length-ge_of_keys :
    (n : ℕ) (m : List (ℕ × Channel))
    → ((i : ℕ) → 1 ≤ i → i ≤ n → is_some (get i m) ≡ true)
    → n ≤ length m
length-ge_of_keys zero m h = omega arith
length-ge_of_keys (suc n) m h = elim (Option-cases (get (suc n) m)) [
  | inl e ↦ cc (h (suc n) (omega arith) (omega arith))
  | inr (ch, e) ↦
      let ih =
        length-ge_of_keys n (remove (suc n) m)
          (λ i lo hi. rw (get-remove_ne i (suc n) m (omega arith)) (h i lo (omega arith))) in
      omega (arith, ih, length-remove-lt (suc n) ch m e)
]

abbrev taken : SessionRegistry → Bool
taken r = r.next_id % max_sessions == 0 || contains_key (r.next_id % max_sessions) r.sessions

abbrev bumped : SessionRegistry → SessionRegistry
bumped r = record r { next_id = (r.next_id + 1) % 2 ^ 32 }

-- One round of the loop.
allocate_loop-taken :
    (rounds : ℕ) (r : SessionRegistry)
    → taken r ≡ true
    → allocate_loop (suc rounds) r ≡ allocate_loop rounds (bumped r)
unfolding allocate_loop
allocate_loop-taken rounds r t = rw t

allocate_loop-free :
    (rounds : ℕ) (r : SessionRegistry)
    → taken r ≡ false
    → allocate_loop (suc rounds) r
      ≡ (some (r.next_id % max_sessions), register (bumped r) (r.next_id % max_sessions))
unfolding allocate_loop
allocate_loop-free rounds r t = rw t

Reserved : SessionRegistry → ℕ → Type 0
Reserved r i = (i ≡ 0) ⊎ (is_some (get i r.sessions) ≡ true)

taken-Reserved : (r : SessionRegistry) → taken r ≡ true → Reserved r (r.next_id % max_sessions)
unfolding Reserved
taken-Reserved r t = elim (||-eq-true _ _ t) [
  | inl z ↦ inl ((==_iff (r.next_id % max_sessions) 0).0 z)
  | inr c ↦ inr c
]

-- If the loop finds nothing, it met all the numbers of its rounds, and each is taken or reserved.
allocate_loop-none :
    (rounds : ℕ) (r : SessionRegistry)
    → (allocate_loop rounds r).0 ≡ none
    → (j : ℕ) → j < rounds
    → Reserved r ((r.next_id + j) % max_sessions)
unfolding Reserved
allocate_loop-none zero r h j lt = elim lt [ ]
allocate_loop-none (suc rounds) r h j lt = elim (Bool-cases (taken r)) [
  | inr free ↦ cc (allocate_loop-free rounds r free, h)
  | inl t ↦
      later j lt (allocate_loop-none rounds (bumped r) (rw (allocate_loop-taken rounds r t) at h))
        (taken-Reserved r t)
]
  where
    later :
        (j : ℕ)
        → j < suc rounds
        → ((i : ℕ) → i < rounds → Reserved (bumped r) (((bumped r).next_id + i) % max_sessions))
        → Reserved r (r.next_id % max_sessions)
        → Reserved r ((r.next_id + j) % max_sessions)
    later zero lt ih now = rw add-zero now
    later (suc j) lt ih now =
        let e : (r.next_id + suc j) % 256 ≡ ((r.next_id + 1) % 2 ^ 32 + j) % 256 = omega arith in
        rw e (ih j (omega arith))

-- What the loop returns, if it returns a number: one of 1 to 255 that was free and is registered now.
abbrev pub Allocated : SessionRegistry → ℕ → SessionRegistry → Type 0
Allocated r id r' =
    (1 ≤ id)
    × (id ≤ 255)
    × (get id r.sessions ≡ none)
    × (r'.sessions ≡ insert id new_channel r.sessions)
    × (r'.active_sessions ≡ (r.active_sessions + 1) % 2 ^ 64)
    × (r'.total_sessions ≡ (r.total_sessions + 1) % 2 ^ 64)

allocate_loop-some :
    (rounds : ℕ) (r : SessionRegistry) (id : ℕ)
    → (allocate_loop rounds r).0 ≡ some id
    → Allocated r id (allocate_loop rounds r).1
unfolding register
allocate_loop-some zero r id h = unfold allocate_loop in cc
allocate_loop-some (suc rounds) r id h = elim (Bool-cases (taken r)) [
  | inl t ↦
      let eq = allocate_loop-taken rounds r t in
      rw eq (allocate_loop-some rounds (bumped r) id (rw eq at h))
  | inr free ↦
      let eq = allocate_loop-free rounds r free in
      let same : r.next_id % max_sessions ≡ id = cc eq in
      let parts =
        ||-eq-false (r.next_id % max_sessions == 0)
          (contains_key (r.next_id % max_sessions) r.sessions) free in
      let pos : r.next_id % max_sessions ≢ 0 =
        λ q. cc (parts.0, (==_iff (r.next_id % max_sessions) 0).1 q) in
      rw (eq, ← same)
        (
          omega arith,
          omega arith,
          is_some-eq-false (get (r.next_id % max_sessions) r.sessions) parts.1,
          refl,
          refl,
          refl,
        )
]

-- `allocate` refuses just when 255 sessions or more are registered.
pub allocate-none_iff : (r : SessionRegistry) → ((allocate r).0 ≡ none) ↔ (255 ≤ length r.sessions)
unfolding allocate Reserved
allocate-none_iff r = (refused, λ full. ground arith)
  where
    every : (allocate_loop max_sessions r).0 ≡ none → 255 ≤ length r.sessions
    every h = length-ge_of_keys 255 r.sessions λ i lo hi.
        let e : (r.next_id + (i + 256 - r.next_id % 256) % 256) % 256 ≡ i = omega arith in
        elim (rw e at
          (allocate_loop-none max_sessions r h ((i + 256 - r.next_id % 256) % 256) (omega arith))) [
            | inl z ↦ absurd (omega arith)
            | inr c ↦ c
          ]

    refused : (allocate r).0 ≡ none → 255 ≤ length r.sessions
    refused h = elim (Bool-cases (leb 255 (length r.sessions))) [
      | inl full ↦ leb→le _ _ full
      | inr room ↦ every (rw room at h)
    ]

-- A session number that `allocate` returns lies between 1 and 255 and was free; it is registered
-- with a new channel, beside the sessions that were there, and both counters count it.
pub allocate-some :
    (r : SessionRegistry) (id : ℕ) → (allocate r).0 ≡ some id → Allocated r id (allocate r).1
unfolding allocate
allocate-some r id h = elim (Bool-cases (leb 255 (length r.sessions))) [
  | inl full ↦ cc (rw full at h)
  | inr room ↦ rw room (allocate_loop-some max_sessions r id (rw room at h))
]

-- A refusal changes nothing.
pub allocate-none : (r : SessionRegistry) → (allocate r).0 ≡ none → (allocate r).1 ≡ r
unfolding allocate
allocate-none r h =
    let full : leb (max_sessions - 1) (length r.sessions) ≡ true =
      le→leb 255 (length r.sessions) ((allocate-none_iff r).0 h) in
    rw full
