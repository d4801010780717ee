-- ===== src/Config/Valid.antt =====
-- Which configurations are accepted.
use srt_vpn.Prelude.{
  ℕ, ◌≤◌, true, false, ◌||◌, Option, none, some, List, [], ◌∷◌, ◌++◌, length, take, drop, ltb, All,
  is_some, ◌≡◌, ◌≢◌, ◌⊎◌, ◌↔◌, inl, inr, refl, sym, ap, ◌∙◌, arith, Bool-cases, ||-eq-false,
  ||-eq-true, take-append-drop,
}
use srt_vpn.Prelude.Bytes.{bytes_eq, bytes_eq_iff}
use srt_vpn.Config.{
  codes, Socks5UserEntry, is_empty, Mode, Config, ConfigError, is_crypto, check_mode,
  has_argon2_prefix, check_users, or_else, validate,
}

-- A text is there.
abbrev pub Given : Option (List ℕ) → Type 0
Given o = (text : List ℕ) × (o ≡ some text)

abbrev pub HasPeer : Mode → Config → Type 0
HasPeer Mode.server cfg = Given cfg.listen
HasPeer Mode.client cfg = Given cfg.server

-- A name, and a hash in the format of argon2.
abbrev pub IsUser : Socks5UserEntry → Type 0
IsUser u = (u.username ≢ []) × ((rest : List ℕ) × (u.password_hash ≡ codes "$argon2" ++ rest))

pub record IsValid (cfg : Config) : Type 0 where
  pub at_least_10 : 10 ≤ length cfg.passphrase
  pub at_most_79 : length cfg.passphrase ≤ 79
  pub clients : 1 ≤ cfg.max_clients
  pub cipher :
      (cfg.crypto ≡ codes "aes-128")
      ⊎ ((cfg.crypto ≡ codes "aes-192") ⊎ (cfg.crypto ≡ codes "aes-256"))
  pub peer : HasPeer cfg.mode cfg
  pub users : All IsUser cfg.socks5_users

is_crypto_iff :
    (c : List ℕ)
    → (is_crypto c ≡ true)
      ↔ ((c ≡ codes "aes-128") ⊎ ((c ≡ codes "aes-192") ⊎ (c ≡ codes "aes-256")))
is_crypto_iff c =
    let p = bytes_eq_iff c (codes "aes-128") in
    let q = bytes_eq_iff c (codes "aes-192") in
    let r = bytes_eq_iff c (codes "aes-256") in
    (
      λ h.
          elim (||-eq-true (bytes_eq c (codes "aes-128") || bytes_eq c (codes "aes-192"))
            (bytes_eq c (codes "aes-256")) h) [
              | inr e ↦ inr (inr (r.0 e))
              | inl e ↦
                  elim (||-eq-true (bytes_eq c (codes "aes-128")) (bytes_eq c (codes "aes-192"))
                    e) [ inl f ↦ inl (p.0 f) | inr f ↦ inr (inl (q.0 f)) ]
            ],
      λ h. elim h [
        | inl e ↦ rw (p.1 e) refl
        | inr (inl e) ↦ elim (Bool-cases (bytes_eq c (codes "aes-128"))) [
          | inl f ↦ rw f refl
          | inr f ↦ rw (f, q.1 e) refl
        ]
        | inr (inr e) ↦
            elim (Bool-cases (bytes_eq c (codes "aes-128") || bytes_eq c (codes "aes-192"))) [
              | inl f ↦ rw f refl
              | inr f ↦ rw (f, r.1 e) refl
            ]
      ],
    )

Given-iff : (o : Option (List ℕ)) → (is_some o ≡ true) ↔ Given o
Given-iff none = (λ e. cc, λ g. cc (g.1))
Given-iff (some t) = (λ _. (t, refl), λ _. refl)

check_mode_iff : (m : Mode) (cfg : Config) → (check_mode m cfg ≡ none) ↔ HasPeer m cfg
unfolding check_mode
check_mode_iff Mode.server cfg =
    let g = Given-iff cfg.listen in
    elim (Bool-cases (is_some cfg.listen)) [
      | inl e ↦ (λ _. g.0 e, λ _. rw e refl)
      | inr e ↦ (λ h. cc (rw e at h), λ h. cc (g.1 h))
    ]
check_mode_iff Mode.client cfg =
    let g = Given-iff cfg.server in
    elim (Bool-cases (is_some cfg.server)) [
      | inl e ↦ (λ _. g.0 e, λ _. rw e refl)
      | inr e ↦ (λ h. cc (rw e at h), λ h. cc (g.1 h))
    ]

prefix_iff :
    (hash : List ℕ)
    → (has_argon2_prefix hash ≡ true) ↔ ((rest : List ℕ) × (hash ≡ codes "$argon2" ++ rest))
prefix_iff hash =
    let same = bytes_eq_iff (take 7 hash) (codes "$argon2") in
    (
      λ h. (drop 7 hash, sym (take-append-drop 7 hash) ∙ ap (λ r. r ++ drop 7 hash) (same.0 h)),
      λ (rest, e). same.1 (ap (take 7) e),
    )

is_empty_iff : (text : List ℕ) → (is_empty text ≡ false) ↔ (text ≢ [])
is_empty_iff [] = (λ e. cc, λ ne. absurd (ne refl))
is_empty_iff (c ∷ text) = (λ _ e. cc, λ _. refl)

check_users_iff : (us : List Socks5UserEntry) → (check_users us ≡ none) ↔ All IsUser us
unfolding check_users
check_users_iff [] = (λ _. tt, λ _. refl)
check_users_iff (u ∷ us) =
    let others = check_users_iff us in
    let named = is_empty_iff u.username in
    let hashed = prefix_iff u.password_hash in
    elim (Bool-cases (is_empty u.username)) [
      | inl e ↦ (λ h. cc (rw e at h), λ (good, _). cc (e, named.1 good.0))
      | inr e ↦ elim (Bool-cases (has_argon2_prefix u.password_hash)) [
        | inr f ↦ (λ h. cc (rw (e, f) at h), λ (good, _). cc (f, hashed.1 good.1))
        | inl f ↦ (
          λ h. ((named.0 e, hashed.0 f), others.0 (rw (e, f) at h)),
          λ (_, good). rw (e, f) (others.1 good),
        )
      ]
    ]

or_else-none : (a b : Option ConfigError) → (or_else a b ≡ none) ↔ ((a ≡ none) × (b ≡ none))
or_else-none none b = (λ h. (refl, h), λ (_, h). h)
or_else-none (some e) b = (λ h. cc, λ (h, _). cc)

pub validate_iff : (cfg : Config) → (validate cfg ≡ none) ↔ IsValid cfg
unfolding validate
validate_iff cfg = (forth, back)
  where
    later :
        (or_else (check_mode cfg.mode cfg) (check_users cfg.socks5_users) ≡ none)
        ↔ ((check_mode cfg.mode cfg ≡ none) × (check_users cfg.socks5_users ≡ none))
    later = or_else-none (check_mode cfg.mode cfg) (check_users cfg.socks5_users)

    forth : validate cfg ≡ none → IsValid cfg
    forth h = elim (Bool-cases (ltb (length cfg.passphrase) 10 || ltb 79 (length cfg.passphrase))) [
      | inl e ↦ cc (rw e at h)
      | inr e ↦ elim (Bool-cases (ltb cfg.max_clients 1)) [
        | inl f ↦ cc (rw (e, f) at h)
        | inr f ↦ elim (Bool-cases (is_crypto cfg.crypto)) [
          | inr g ↦ cc (rw (e, f, g) at h)
          | inl g ↦
              let (mode, table) = later.0 (rw (e, f, g) at h) in
              let (low, high) =
                ||-eq-false (ltb (length cfg.passphrase) 10) (ltb 79 (length cfg.passphrase)) e in
              record {
                at_least_10 = ground (arith, low);
                at_most_79 = ground (arith, high);
                clients = ground (arith, f);
                cipher = (is_crypto_iff cfg.crypto).0 g;
                peer = (check_mode_iff cfg.mode cfg).0 mode;
                users = (check_users_iff cfg.socks5_users).0 table;
              }
        ]
      ]
    ]

    back : IsValid cfg → validate cfg ≡ none
    back v =
        let low : ltb (length cfg.passphrase) 10 ≡ false = ground (arith, v.at_least_10) in
        let high : ltb 79 (length cfg.passphrase) ≡ false = ground (arith, v.at_most_79) in
        let clients : ltb cfg.max_clients 1 ≡ false = ground (arith, v.clients) in
        let cipher = (is_crypto_iff cfg.crypto).1 v.cipher in
        let mode = (check_mode_iff cfg.mode cfg).1 v.peer in
        let table = (check_users_iff cfg.socks5_users).1 v.users in
        rw (low, high, clients, cipher) (later.1 (mode, table))
