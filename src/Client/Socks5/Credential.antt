-- ===== src/Client/Socks5/Credential.antt =====
-- Which credentials are accepted.
use srt_vpn.Prelude.{
  ℕ, Bool, true, false, not, ◌||◌, Option, none, some, List, [], ◌∷◌, ◌++◌, length, All, ◌==◌,
  ==_iff, if◌then◌else◌, ◌≡◌, ◌≢◌, ◌⊎◌, ◌↔◌, inl, inr, refl, sym, ap, ◌∙◌, arith, Bool-cases, ◌<◌,
  bit_or, bit_xor,
}
use srt_vpn.Prelude.Bytes.{IsByte, bytes_eq, bytes_eq_iff}
use srt_vpn.Prelude.Words.{or_fits}
use srt_vpn.Auth.{diff_from}
use srt_vpn.Auth.Response.{diff_from_zero, diff_from_same}
use srt_vpn.Config.{Socks5Config, Socks5UserEntry}
use srt_vpn.Client.Socks5.{
  Externals, verify_password, unwrap_or_false, check_users, same_credential, check_single,
  validate_credential,
}

-- The first entry of that name holds a hash that accepts the password.
pub record Listed (x : Externals) (users : List Socks5UserEntry) (username password : List ℕ)
    : Type 0 where
  pub before : List Socks5UserEntry
  pub entry : Socks5UserEntry
  pub behind : List Socks5UserEntry
  pub place : users ≡ before ++ entry ∷ behind
  pub first : All (λ u. u.username ≢ username) before
  pub named : entry.username ≡ username
  pub accepted : verify_password x password entry.password_hash ≡ some true

unwrap-true : (o : Option Bool) → unwrap_or_false o ≡ true → o ≡ some true
unwrap-true none h = cc
unwrap-true (some b) h = ap some h

not_Listed : (x : Externals) (username password : List ℕ) → ¬ Listed x [] username password
not_Listed x username password l = no_place l.before l.place
  where
    no_place : (before : List Socks5UserEntry) → [] ≢ before ++ l.entry ∷ l.behind
    no_place [] e = cc
    no_place (b ∷ bs) e = cc

-- The entry is the first, or it is among the others.
Listed-cases :
    (x : Externals) (u : Socks5UserEntry) (us : List Socks5UserEntry) (username password : List ℕ)
    → Listed x (u ∷ us) username password
    → ((u.username ≡ username) × (verify_password x password u.password_hash ≡ some true))
      ⊎ ((u.username ≢ username) × Listed x us username password)
Listed-cases x u us username password l = split l.before l.place l.first
  where
    split :
        (before : List Socks5UserEntry)
        → u ∷ us ≡ before ++ l.entry ∷ l.behind
        → All (λ v. v.username ≢ username) before
        → ((u.username ≡ username) × (verify_password x password u.password_hash ≡ some true))
          ⊎ ((u.username ≢ username) × Listed x us username password)
    split [] e _ =
        let same : u ≡ l.entry = cc in
        inl (
          ap (λ (v : Socks5UserEntry). v.username) same ∙ l.named,
          ap (λ (v : Socks5UserEntry). verify_password x password v.password_hash) same
              ∙ l.accepted,
        )
    split (b ∷ bs) e (ne, more) =
        let same : u ≡ b = cc in
        let tails : us ≡ bs ++ l.entry ∷ l.behind = cc in
        inr (
          (λ named. ne (ap (λ (v : Socks5UserEntry). v.username) (sym same) ∙ named)),
          record {
            before = bs;
            entry = l.entry;
            behind = l.behind;
            place = tails;
            first = more;
            named = l.named;
            accepted = l.accepted;
          },
        )

check_users_iff :
    (x : Externals) (users : List Socks5UserEntry) (username password : List ℕ)
    → (check_users x users username password ≡ true) ↔ Listed x users username password
unfolding check_users
check_users_iff x [] username password = (λ e. cc, λ l. absurd (not_Listed x username password l))
check_users_iff x (u ∷ us) username password =
    let later = check_users_iff x us username password in
    elim (Bool-cases (bytes_eq u.username username)) [
      | inl same ↦ (
        λ h. record {
          before = [];
          entry = u;
          behind = us;
          place = refl;
          first = tt;
          named = (bytes_eq_iff u.username username).0 same;
          accepted = unwrap-true (verify_password x password u.password_hash) (rw same at h);
        },
        λ l. elim (Listed-cases x u us username password l) [
          | inl (_, accepted) ↦ rw (same, accepted) refl
          | inr (ne, _) ↦ absurd (ne ((bytes_eq_iff u.username username).0 same))
        ],
      )
      | inr other ↦ (
        λ h.
            let l = later.0 (rw other at h) in
            record {
              before = u ∷ l.before;
              entry = l.entry;
              behind = l.behind;
              place = ap (◌∷◌ u) l.place;
              first = (λ e. cc (other, (bytes_eq_iff u.username username).1 e), l.first);
              named = l.named;
              accepted = l.accepted;
            },
        λ l. elim (Listed-cases x u us username password l) [
          | inl (named, _) ↦ cc (other, (bytes_eq_iff u.username username).1 named)
          | inr (_, found) ↦ rw other (later.1 found)
        ],
      )
    ]

diff_from_byte :
    (d : ℕ) (a b : List ℕ) → d < 256 → All IsByte a → All IsByte b → diff_from d a b < 256
unfolding diff_from
diff_from_byte d [] [] h ha hb = h
diff_from_byte d [] (y ∷ b) h ha hb = h
diff_from_byte d (x ∷ a) [] h ha hb = h
diff_from_byte d (x ∷ a) (y ∷ b) h (hx, ha) (hy, hb) =
    diff_from_byte (bit_or d (bit_xor x y)) a b (or_fits d (bit_xor x y) h (or_fits x y hx hy).1).0
      ha hb

same_credential_iff :
    (a b c d : List ℕ)
    → All IsByte a
    → All IsByte b
    → All IsByte c
    → All IsByte d
    → (same_credential a b c d ≡ true) ↔ ((a ≡ b) × (c ≡ d))
unfolding same_credential
same_credential_iff a b c d ha hb hc hd = (forth, back)
  where
    compare : Bool
    compare =
        if not (length a == length b) || not (length c == length d)
        then false
        else diff_from (diff_from 0 a b) c d == 0

    forth : compare ≡ true → (a ≡ b) × (c ≡ d)
    forth h = elim (Bool-cases (length a == length b)) [
      | inr e ↦ cc (rw e at h)
      | inl e ↦ elim (Bool-cases (length c == length d)) [
        | inr f ↦ cc (rw (e, f) at h)
        | inl f ↦
            let (first, tails) =
              diff_from_zero (diff_from 0 a b) c d (diff_from_byte 0 a b (omega arith) ha hb) hc hd
                ((==_iff (length c) (length d)).0 f)
                ((==_iff (diff_from (diff_from 0 a b) c d) 0).0 (rw (e, f) at h)) in
            (
              (diff_from_zero 0 a b (omega arith) ha hb ((==_iff (length a) (length b)).0 e)
                  first).1,
              tails,
            )
      ]
    ]

    back : (a ≡ b) × (c ≡ d) → compare ≡ true
    back (e, f) =
        let users : (length a == length b) ≡ true =
          (==_iff (length a) (length b)).1 (ap length e) in
        let words : (length c == length d) ≡ true =
          (==_iff (length c) (length d)).1 (ap length f) in
        let first : diff_from 0 a b ≡ 0 = ap (diff_from 0 a) (sym e) ∙ diff_from_same a ha in
        let second : diff_from 0 c d ≡ 0 = ap (diff_from 0 c) (sym f) ∙ diff_from_same c hc in
        rw (users, words, first, second) refl

-- The bytes of an optional text.
abbrev pub Bytes? : Option (List ℕ) → Type 0
Bytes? none = Unit {0}
Bytes? (some text) = All IsByte text

-- The single user's name is not set, or its password is not set, or both are those given.
abbrev pub SingleAccepts : Option (List ℕ) → Option (List ℕ) → List ℕ → List ℕ → Type 0
SingleAccepts mu mp username password =
    (mu ≡ none) ⊎ ((mp ≡ none) ⊎ ((mu ≡ some username) × (mp ≡ some password)))

check_single_iff :
    (mu mp : Option (List ℕ)) (username password : List ℕ)
    → All IsByte username
    → All IsByte password
    → Bytes? mu
    → Bytes? mp
    → (check_single mu mp username password ≡ true) ↔ SingleAccepts mu mp username password
check_single_iff none mp username password hu hp hmu hmp = (λ _. inl refl, λ _. refl)
check_single_iff (some user) none username password hu hp hmu hmp = (λ _. inr (inl refl), λ _. refl)
check_single_iff (some user) (some pass) username password hu hp hmu hmp =
    let same = same_credential_iff username user password pass hu hmu hp hmp in
    (
      (λ h. let (a, b) = same.0 h in inr (inr (ap some (sym a), ap some (sym b)))),
      (λ h. elim h [
        | inl e ↦ cc
        | inr (inl e) ↦ cc
        | inr (inr (e, f)) ↦
            let a : username ≡ user = cc in let b : password ≡ pass = cc in same.1 (a, b)
      ]),
    )

-- With a table of users they decide; otherwise the single user does, if both parts are set.
abbrev pub Accepts : Externals → Socks5Config → List ℕ → List ℕ → Type 0
Accepts x cfg username password =
    ((cfg.users ≢ []) × Listed x cfg.users username password)
    ⊎ ((cfg.users ≡ []) × SingleAccepts cfg.username cfg.password username password)

-- A name and a password are accepted just when: there is a table of users, and its first entry of
-- that name holds a hash that accepts the password; or there is no table, and the single user's name
-- is not set, or its password is not set, or both are those given. Texts are bytes.
pub validate_credential_iff :
    (x : Externals) (username password : List ℕ) (cfg : Socks5Config)
    → All IsByte username
    → All IsByte password
    → Bytes? cfg.username
    → Bytes? cfg.password
    → (validate_credential x username password cfg ≡ true) ↔ Accepts x cfg username password
unfolding validate_credential
validate_credential_iff x username password cfg hu hp hcu hcp = by_users cfg.users refl
  where
    by_users :
        (us : List Socks5UserEntry)
        → cfg.users ≡ us
        → (validate_credential x username password cfg ≡ true) ↔ Accepts x cfg username password
    by_users [] e =
        let single = check_single_iff cfg.username cfg.password username password hu hp hcu hcp in
        rw e (
          (λ h. inr (refl, single.0 h)),
          (λ h. elim h [ inl (ne, _) ↦ absurd (ne refl) | inr (_, ok) ↦ single.1 ok ]),
        )
    by_users (u ∷ us) e =
        let table = check_users_iff x (u ∷ us) username password in
        rw e (
          (λ h. inl ((λ q. cc), table.0 h)),
          (λ h. elim h [ inl (_, found) ↦ table.1 found | inr (none_left, _) ↦ cc ]),
        )
