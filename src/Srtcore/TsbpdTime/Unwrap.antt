-- ===== src/Srtcore/TsbpdTime/Unwrap.antt =====
-- The 32-bit timestamps unwrapped: the base times are those of a clock that never wraps.
use srt_vpn.Prelude.{
  ℕ, ◌+◌, ◌-◌, ◌*◌, ◌%◌, ◌≤◌, ◌<◌, Bool, true, false, List, [], ◌∷◌, map, ltb, leb, ◌&&◌, max, ◌≡◌,
  refl, ap₂, arith, ◌⊎◌, inl, inr, Bool-cases, ltb→lt, leb→le, &&-eq-true,
}
use srt_vpn.Srtcore.TsbpdTime.{
  TsbpdTime, max_timestamp, wrap_period, get_base_time, get_pkt_base_time, update_base_time,
  base_times,
}

-- The times of the sender, in microseconds from its start: each at most 30 s before the latest
-- that came before it and less than 30 s after it. `m` is the latest.
pub data Steady : ℕ → List ℕ → Type 0 where
  none : {m : ℕ} → Steady m []
  next :
      {m t : ℕ} {ts : List ℕ}
      → m ≤ t + wrap_period
      → t < m + wrap_period
      → Steady (max m t) ts
      → Steady m (t ∷ ts)

-- The timestamp of a packet.
abbrev pub stamp : ℕ → ℕ
stamp t = t % (max_timestamp + 1)

-- The base of the epoch `k`, and where its latest time is: past the first 30 s of it and not in the
-- last 30 s, or about its end while the wrap is watched.
-- In the epoch, past its first 30 s but for epoch 0, and not in its last 30 s.
Calm : ℕ → ℕ → Bool → Type 0
Calm k m w =
    (w ≡ false)
    × ((k ≡ 0) ⊎ (k * (max_timestamp + 1) + wrap_period ≤ m))
    × (m + wrap_period < (k + 1) * (max_timestamp + 1))

-- In the last 30 s of the epoch or the first 30 s of the next.
Watched : ℕ → ℕ → Bool → Type 0
Watched k m w =
    (w ≡ true)
    × ((k + 1) * (max_timestamp + 1) ≤ m + wrap_period)
    × (m < (k + 1) * (max_timestamp + 1) + wrap_period)

-- The base is that of the epoch `k`; the wrap is watched or not.
Tracks : ℕ → ℕ → ℕ → TsbpdTime → Type 0
Tracks start k m s =
    (s.time_base ≡ start + k * (max_timestamp + 1))
    × (Calm k m s.wrap_check ⊎ Watched k m s.wrap_check)

leb-false : (x y : ℕ) → leb x y ≡ false → y < x
leb-false x y e = ground arith

ltb-false : (x y : ℕ) → ltb x y ≡ false → y ≤ x
ltb-false x y e = ground arith

outside :
    (x : ℕ)
    → (leb wrap_period x && leb x (wrap_period * 2)) ≡ false
    → (x < wrap_period) ⊎ (wrap_period * 2 < x)
outside x e = ground arith

later :
    (k m t : ℕ)
    → (k ≡ 0) ⊎ (k * (max_timestamp + 1) + wrap_period ≤ m)
    → (k ≡ 0) ⊎ (k * (max_timestamp + 1) + wrap_period ≤ max m t)
later k m t (inl e) = inl e
later k m t (inr l) = inr (omega arith)

module _ (start k m t : ℕ) (s : TsbpdTime) (h : m ≤ t + wrap_period) (i : t < m + wrap_period) where
  read_right : Tracks start k m s → get_pkt_base_time s (stamp t) ≡ start + t
  unfolding Tracks Calm Watched get_pkt_base_time get_base_time
  read_right (b, inl (w, low, high)) = rw w (omega arith)
  read_right (b, inr (w, low, high)) = elim (Bool-cases (leb (stamp t) (2 * wrap_period))) [
    | inl e ↦ rw (w, e) (omega (arith, leb→le (stamp t) (2 * wrap_period) e))
    | inr e ↦ rw (w, e) (omega (arith, leb-false (stamp t) (2 * wrap_period) e))
  ]

  keeps_track :
      Tracks start k m s → (j : ℕ) × Tracks start j (max m t) (update_base_time s (stamp t))
  unfolding Tracks Calm Watched update_base_time
  keeps_track (b, inl (w, low, high)) =
      elim (Bool-cases (ltb (max_timestamp - wrap_period) (stamp t))) [
        | inl e ↦ (
          k,
          rw (w, e)
              (
                b,
                inr (
                  refl,
                  omega (arith, ltb→lt (max_timestamp - wrap_period) (stamp t) e),
                  omega arith,
                ),
              ),
        )
        | inr e ↦ (
          k,
          rw (w, e)
              (
                b,
                inl (
                  refl,
                  later k m t low,
                  omega (arith, ltb-false (max_timestamp - wrap_period) (stamp t) e),
                ),
              ),
        )
      ]
  keeps_track (b, inr (w, low, high)) =
      elim (Bool-cases (leb wrap_period (stamp t) && leb (stamp t) (wrap_period * 2))) [
        | inl e ↦
            let parts =
              &&-eq-true (leb wrap_period (stamp t)) (leb (stamp t) (wrap_period * 2)) e in
            let from = leb→le wrap_period (stamp t) parts.0 in
            let to = leb→le (stamp t) (wrap_period * 2) parts.1 in
            (k + 1, rw (w, e) (omega arith, inl (refl, inr (omega arith), omega arith)))
        | inr e ↦ (k, rw (w, e) (b, inr (refl, omega arith, omega (arith, outside (stamp t) e))))
      ]

follow :
    (start k m : ℕ) (s : TsbpdTime) (ts : List ℕ)
    → Tracks start k m s
    → Steady m ts
    → base_times s (map stamp ts) ≡ map (λ t. start + t) ts
unfolding base_times
follow start k m s [] v _ = refl
follow start k m s (t ∷ ts) v (Steady.next h i steady) =
    let after = keeps_track start k m t s h i v in
    ap₂ ◌∷◌ (read_right start k m t s h i v)
      (follow start after.0 (max m t) (update_base_time s (stamp t)) ts after.1 steady)

-- The base times that a receiver computes from the 32-bit timestamps of any row of packets are
-- those of a clock that never wraps around: the start plus the sender's time. The receiver starts
-- without the wrap check at the sender's time 0, each packet was sent at most 30 s before the
-- latest that came before it, and less than 30 s after it; over any number of wrap-arounds.
pub base_times_unwrapped :
    (s : TsbpdTime) (ts : List ℕ)
    → s.wrap_check ≡ false
    → Steady 0 ts
    → base_times s (map stamp ts) ≡ map (λ t. s.time_base + t) ts
unfolding Tracks Calm
base_times_unwrapped s ts w steady =
    follow s.time_base 0 0 s ts (omega arith, inl (w, inl refl, omega arith)) steady
