-- ===== src/Config/Encryption.antt =====
-- src/srt/connection.rs: the options of the encryption, from a configuration that was validated to
-- those of the socket. A call of srt_setsockopt is one of CUDT::setOpt, which fails where that throws.
use srt_vpn.Prelude.{
  ℕ, ◌/◌, ◌%◌, ◌^◌, ◌≤◌, true, false, not, ◌||◌, ◌&&◌, Option, none, some, ◌>>=◌, List, [], ◌∷◌,
  length, take-length, ltb, ◌==◌, if◌then◌else◌, min, ◌≡◌, ◌⊎◌, inl, inr, refl, arith, ap,
}
use srt_vpn.Prelude.Ints.{pos, int_lt}
use srt_vpn.Srtcore.Options.{SockOpt, code, e_size, r_pre, flags}
use srt_vpn.Srtcore.Config.{SrtConfig}
use srt_vpn.Srtcore.Config.Crypto.{
  set_passphrase, set_pbkeylen, set_enforcedencryption, allowed_key_len, secret_max_sz,
  sectyp_passphrase,
}
use srt_vpn.Srtcore.Config.Payload.{Factory}
use srt_vpn.Srtcore.Config.Dispatch.{SetResult, dispatch_set}
use srt_vpn.Srtcore.Socket.{Cudt, Outcome, set_opt, after_set}
use srt_vpn.Config.{codes, is_empty, Config, crypto_to_pbkeylen, validate}
use srt_vpn.Config.Valid.{IsValid, validate_iff}

-- An int of C in memory, for a value that is not negative.
abbrev pub int_bytes : ℕ → List ℕ
int_bytes n = (n % 2 ^ 8) ∷ (n / 2 ^ 8 % 2 ^ 8) ∷ (n / 2 ^ 16 % 2 ^ 8) ∷ (n / 2 ^ 24 % 2 ^ 8) ∷ []

-- What a call leaves, where it does not fail.
abbrev pub succeeded : Outcome → Option Cudt
succeeded (Outcome.done s _) = some s
succeeded (Outcome.failed _) = none

-- The calls for the passphrase, the length of the key and the enforcement.
unfoldable pub set_encryption : List (List ℕ × Factory) → Cudt → List ℕ → ℕ → Option Cudt
set_encryption filters s passphrase pbkeylen =
    if is_empty passphrase
    then some s
    else (succeeded (set_opt filters s SockOpt.passphrase passphrase (length passphrase)) >>= λ a.
        succeeded (set_opt filters a SockOpt.pbkeylen (int_bytes pbkeylen) 4) >>= λ b.
        succeeded (set_opt filters b SockOpt.enforcedencryption (int_bytes 1) 4))

-- A socket on which the options of the handshake can be set.
pub record IsUnconnected (s : Cudt) : Type 0 where
  pub alive : (s.broken || s.closing) ≡ false
  pub unused : (s.connected || s.connecting || s.listening) ≡ false

after_returned :
    (s : Cudt) (name : SockOpt) (c : SrtConfig)
    → flags name ≡ r_pre
    → after_set name s (SetResult.returned c) ≡ Outcome.done (record s { config = c }) []
unfolding after_set
after_returned s name c pre = rw pre refl

-- A call for an option of the handshake does what its setter does.
set_returned :
    (filters : List (List ℕ × Factory)) (s : Cudt) (name : SockOpt) (optval : List ℕ) (optlen : ℕ)
    (c : SrtConfig)
    → IsUnconnected s
    → (int_lt (code name) (pos 0) || not (int_lt (code name) (pos e_size))) ≡ false
    → flags name ≡ r_pre
    → dispatch_set filters name s.config optval optlen ≡ SetResult.returned c
    → succeeded (set_opt filters s name optval optlen) ≡ some (record s { config = c })
unfolding set_opt
set_returned filters s name optval optlen c u known pre e =
    rw (u.alive, known, pre, u.unused, e) (ap succeeded (after_returned s name c pre))

abbrev encrypted : SrtConfig → List ℕ → ℕ → SrtConfig
encrypted c passphrase k = record c {
  crypto_secret = record { typ = sectyp_passphrase; str = passphrase };
  snd_crypto_key_len = k;
  enforced_enc = true;
}

abbrev IsKeyLen : ℕ → Type 0
IsKeyLen k = (k ≡ 16) ⊎ ((k ≡ 24) ⊎ (k ≡ 32))

passphrase_returned :
    (filters : List (List ℕ × Factory)) (c : SrtConfig) (p : List ℕ)
    → 10 ≤ length p
    → length p ≤ 79
    → dispatch_set filters SockOpt.passphrase c p (length p)
      ≡ SetResult.returned
          (record c { crypto_secret = record { typ = sectyp_passphrase; str = p } })
unfolding dispatch_set set_passphrase
passphrase_returned filters c p low high =
    let fits : (not (length p == 0) && (ltb (length p) 10 || ltb secret_max_sz (length p)))
        ≡ false =
      ground (arith, low, high) in
    let all : min (length p) secret_max_sz ≡ length p = omega arith in
    rw (fits, all, take-length p) refl

pbkeylen_returned :
    (filters : List (List ℕ × Factory)) (c : SrtConfig) (k : ℕ)
    → IsKeyLen k
    → dispatch_set filters SockOpt.pbkeylen c (int_bytes k) 4
      ≡ SetResult.returned (record c { snd_crypto_key_len = k })
unfolding dispatch_set set_pbkeylen allowed_key_len
pbkeylen_returned filters c k (inl e) = rw e refl
pbkeylen_returned filters c k (inr (inl e)) = rw e refl
pbkeylen_returned filters c k (inr (inr e)) = rw e refl

set_encryption_done :
    (filters : List (List ℕ × Factory)) (s : Cudt) (p : List ℕ) (k : ℕ)
    → IsUnconnected s
    → 10 ≤ length p
    → length p ≤ 79
    → IsKeyLen k
    → set_encryption filters s p k ≡ some (record s { config = encrypted s.config p k })
unfolding set_encryption code flags dispatch_set set_enforcedencryption
set_encryption_done filters s [] k u low high len = absurd (omega (arith, low))
set_encryption_done filters s (b ∷ p) k u low high len =
    let c1 = record (s.config) {
      crypto_secret = record { typ = sectyp_passphrase; str = b ∷ p };
    } in
    let c2 = record c1 { snd_crypto_key_len = k } in
    let u1 : IsUnconnected (record s { config = c1 }) = record {
      alive = u.alive;
      unused = u.unused;
    } in
    let u2 : IsUnconnected (record s { config = c2 }) = record {
      alive = u.alive;
      unused = u.unused;
    } in
    let first =
      set_returned filters s SockOpt.passphrase (b ∷ p) (length (b ∷ p)) c1 u refl refl
        (passphrase_returned filters s.config (b ∷ p) low high) in
    let second =
      set_returned filters (record s { config = c1 }) SockOpt.pbkeylen (int_bytes k) 4 c2 u1 refl
        refl (pbkeylen_returned filters c1 k len) in
    let third =
      set_returned filters (record s { config = c2 }) SockOpt.enforcedencryption (int_bytes 1) 4
        (encrypted s.config (b ∷ p) k) u2 refl refl refl in
    rw (first, second) third

-- What a cipher of the configuration asks of the key.
abbrev pub CipherKey : List ℕ → ℕ → Type 0
CipherKey crypto k =
    ((crypto ≡ codes "aes-128") × (k ≡ 16))
    ⊎ (((crypto ≡ codes "aes-192") × (k ≡ 24)) ⊎ ((crypto ≡ codes "aes-256") × (k ≡ 32)))

cipher_key : (cfg : Config) → IsValid cfg → CipherKey cfg.crypto (crypto_to_pbkeylen cfg.crypto)
unfolding crypto_to_pbkeylen
cipher_key cfg v = elim v.cipher [
  | inl e ↦ inl (e, ap crypto_to_pbkeylen e)
  | inr (inl e) ↦ inr (inl (e, ap crypto_to_pbkeylen e))
  | inr (inr e) ↦ inr (inr (e, ap crypto_to_pbkeylen e))
]

is_key_len : (crypto : List ℕ) (k : ℕ) → CipherKey crypto k → IsKeyLen k
is_key_len crypto k (inl h) = inl h.1
is_key_len crypto k (inr (inl h)) = inr (inl h.1)
is_key_len crypto k (inr (inr h)) = inr (inr h.1)

-- What the validation accepts, libsrt accepts: on a socket that is neither connected nor connecting,
-- listening, closing or broken, the calls for the encryption of a valid configuration all succeed.
-- The socket then holds the whole passphrase, demands encryption and has a key of 16, 24 or 32
-- bytes, as the cipher of the configuration says; no other option has changed.
pub validate-set_encryption :
    (filters : List (List ℕ × Factory)) (s : Cudt) (cfg : Config)
    → IsUnconnected s
    → validate cfg ≡ none
    → (k : ℕ) × CipherKey cfg.crypto k
      × (set_encryption filters s cfg.passphrase (crypto_to_pbkeylen cfg.crypto)
          ≡ some (record s {
            config = record (s.config) {
              crypto_secret = record { typ = sectyp_passphrase; str = cfg.passphrase };
              snd_crypto_key_len = k;
              enforced_enc = true;
            };
          }))
validate-set_encryption filters s cfg u ok =
    let v = (validate_iff cfg).0 ok in
    let k = crypto_to_pbkeylen cfg.crypto in
    let key = cipher_key cfg v in
    (
      k,
      key,
      set_encryption_done filters s cfg.passphrase k u v.at_least_10 v.at_most_79
          (is_key_len cfg.crypto k key),
    )
