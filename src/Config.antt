-- ===== src/Config.antt =====
-- src/config.rs: the configuration and its validation. Text is a list of bytes.
pub mod Env
pub mod Valid
pub mod Overrides
pub mod Encryption
use Prim.Native.Char.{code}
use Prim.Native.String.{String}
use srt_vpn.Prelude.{
  ℕ, Bool, not, ◌||◌, ◌&&◌, Option, none, some, List, [], ◌∷◌, is_some, true, false, length, take,
  ltb, if◌then◌else◌,
}
use srt_vpn.Prelude.Bytes.{bytes_eq}
use srt_vpn.Prelude.Ints.{ℤ}

-- The bytes of an ASCII text.
abbrev pub codes : String → List ℕ
codes String.[] = []
codes (String.◌∷◌ c s) = code c ∷ codes s

-- src/client/socks5.rs, Socks5UserEntry
pub record Socks5UserEntry : Type 0 where
  pub username : List ℕ
  pub password_hash : List ℕ

pub record Socks5Config : Type 0 where
  pub listen : List ℕ
  pub username : Option (List ℕ)
  pub password : Option (List ℕ)
  pub users : List Socks5UserEntry

-- `is_empty`
abbrev pub is_empty {ℓ} : {A : Type ℓ} → List A → Bool
is_empty [] = true
is_empty (x ∷ xs) = false

abbrev pub has_auth : Socks5Config → Bool
has_auth cfg = is_some cfg.username || not (is_empty cfg.users)

pub data Mode : Type 0 where
  server client : Mode

-- src/cli.rs
pub data UdpMode : Type 0 where
  reliable best_effort : UdpMode

pub record ReconnectConfig : Type 0 where
  pub interval_secs : ℕ
  pub max_retries : ℤ

-- `Socks5User` has the fields of `Socks5UserEntry`.
pub record Config : Type 0 where
  pub mode : Mode
  pub passphrase : List ℕ
  pub crypto : List ℕ
  pub metrics_port : Option ℕ
  pub log_level : Option ℕ
  pub listen : Option (List ℕ)
  pub udp_mode : UdpMode
  pub udp_datagram : Bool
  pub latency_ms : ℤ
  pub udp_ttl_min : ℤ
  pub maxbw_mbps : ℕ
  pub max_clients : ℕ
  pub socks5_users : List Socks5UserEntry
  pub server : Option (List ℕ)
  pub streamid : Option (List ℕ)
  pub socks5 : Option Socks5Config
  pub reconnect : Option ReconnectConfig
  pub heartbeat_secs : ℕ

-- The texts of the errors, as values.
pub data ConfigError : Type 0 where
  passphrase_length no_clients unknown_crypto no_listen no_server empty_username : ConfigError
  not_argon2 : List ℕ → ConfigError

abbrev pub is_crypto : List ℕ → Bool
is_crypto crypto =
    bytes_eq crypto (codes "aes-128")
    || bytes_eq crypto (codes "aes-192")
    || bytes_eq crypto (codes "aes-256")

unfoldable pub check_mode : Mode → Config → Option ConfigError
check_mode Mode.server cfg = if not (is_some cfg.listen) then some ConfigError.no_listen else none
check_mode Mode.client cfg = if not (is_some cfg.server) then some ConfigError.no_server else none

-- `starts_with("$argon2")`
abbrev pub has_argon2_prefix : List ℕ → Bool
has_argon2_prefix hash = bytes_eq (take 7 hash) (codes "$argon2")

unfoldable pub check_users : List Socks5UserEntry → Option ConfigError
check_users [] = none
check_users (u ∷ us) =
    let others = check_users us in
    if is_empty u.username
    then some ConfigError.empty_username
    else if not (has_argon2_prefix u.password_hash)
    then some (ConfigError.not_argon2 u.username)
    else others

-- The first error, if there is one.
abbrev pub or_else : Option ConfigError → Option ConfigError → Option ConfigError
or_else none later = later
or_else (some e) later = some e

unfoldable pub validate : Config → Option ConfigError
validate cfg =
    if ltb (length cfg.passphrase) 10 || ltb 79 (length cfg.passphrase)
    then some ConfigError.passphrase_length
    else if ltb cfg.max_clients 1
    then some ConfigError.no_clients
    else if not (is_crypto cfg.crypto)
    then some ConfigError.unknown_crypto
    else or_else (check_mode cfg.mode cfg) (check_users cfg.socks5_users)

-- Bytes of the key for libsrt.
unfoldable pub crypto_to_pbkeylen : List ℕ → ℕ
crypto_to_pbkeylen crypto =
    if bytes_eq crypto (codes "aes-192")
    then 24
    else if bytes_eq crypto (codes "aes-256")
    then 32
    else 16
