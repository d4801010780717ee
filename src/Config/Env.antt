-- ===== src/Config/Env.antt =====
-- src/config.rs: the environment variables over a configuration. `hash_password` is argon2's, and
-- `trim` the standard library's; the environment gives a text or nothing for a variable. The table of
-- users is parsed twice, with new salts: `again` is what the library does the second time.
use srt_vpn.Prelude.{
  ℕ, ◌+◌, ◌-◌, ◌*◌, ◌^◌, Bool, not, ◌&&◌, ◌||◌, Option, none, some, List, [], ◌∷◌, leb, ◌==◌,
  if◌then◌else◌, is_some, ◌>>=◌,
}
use srt_vpn.Prelude.Bytes.{bytes_eq}
use srt_vpn.Prelude.Ints.{ℤ, pos, neg}
use srt_vpn.Config.{
  codes, Socks5UserEntry, Socks5Config, is_empty, Mode, UdpMode, ReconnectConfig, Config,
}

-- The variables SRT_MODE, SRT_PASSPHRASE and so on.
pub data Var : Type 0 where
  var_mode var_passphrase var_crypto var_metrics_port var_listen var_udp_mode : Var
  var_udp_datagram var_latency var_udp_ttl_min var_maxbw_mbps var_max_clients : Var
  var_log_level var_socks5_users var_server var_streamid var_reconnect_interval : Var
  var_reconnect_max var_socks5_listen var_socks5_user var_socks5_pass var_heartbeat_secs : Var

abbrev pub Env : Type 0
Env = Var → Option (List ℕ)

pub record Library : Type 0 where
  pub trim : List ℕ → List ℕ
  pub hash_password : List ℕ → Option (List ℕ)

-- `parse::<u8>` and its like, up to the type's largest number.
unfoldable pub digits_value : ℕ → List ℕ → Option ℕ
digits_value acc [] = some acc
digits_value acc (c ∷ text) =
    let rest = digits_value (acc * 10 + (c - 48)) text in
    if leb b'0' c && leb c b'9' then rest else none

abbrev pub within : ℕ → Option ℕ → Option ℕ
within top none = none
within top (some n) = if leb n top then some n else none

abbrev pub number : List ℕ → Option ℕ
number [] = none
number (c ∷ text) = digits_value 0 (c ∷ text)

abbrev pub parse_unsigned : ℕ → List ℕ → Option ℕ
parse_unsigned top [] = none
parse_unsigned top (c ∷ text) = within top (number (if c == b'+' then text else c ∷ text))

abbrev pub negated : Option ℕ → Option ℤ
negated none = none
negated (some n) = some (neg (pos n))

abbrev pub positive : Option ℕ → Option ℤ
positive none = none
positive (some n) = some (pos n)

-- `parse::<i32>` with `bits` 31, `parse::<i64>` with 63
abbrev pub parse_signed : ℕ → List ℕ → Option ℤ
parse_signed bits [] = none
parse_signed bits (c ∷ text) =
    if c == b'-'
    then negated (within (2 ^ bits) (number text))
    else positive (parse_unsigned (2 ^ bits - 1) (c ∷ text))

abbrev pub parse_env_mode : Env → Option Mode
parse_env_mode env = do
  m ← env Var.var_mode
  if bytes_eq m (codes "server")
      then some Mode.server
      else if bytes_eq m (codes "client")
      then some Mode.client
      else none

-- `none` is an error, `some none` a variable that is not set.
abbrev pub parse_opt : (List ℕ → Option ℕ) → Option (List ℕ) → Option (Option ℕ)
parse_opt parse none = some none
parse_opt parse (some v) = parse v >>= λ n. some (some n)

-- `to_lowercase`, as far as the words below go
abbrev pub lower : List ℕ → List ℕ
lower [] = []
lower (c ∷ text) = (if leb b'A' c && leb c b'Z' then c + 32 else c) ∷ lower text

unfoldable pub parse_str : List ℕ → Option UdpMode
parse_str s =
    if bytes_eq (lower s) (codes "reliable")
    then some UdpMode.reliable
    else if bytes_eq (lower s) (codes "best-effort")
        || bytes_eq (lower s) (codes "besteffort")
        || bytes_eq (lower s) (codes "best_effort")
    then some UdpMode.best_effort
    else none

-- `split(',')`
abbrev pub put_first : ℕ → List (List ℕ) → List (List ℕ)
put_first c [] = (c ∷ []) ∷ []
put_first c (part ∷ parts) = (c ∷ part) ∷ parts

unfoldable pub split_commas : List ℕ → List (List ℕ)
split_commas [] = [] ∷ []
split_commas (c ∷ text) =
    let parts = split_commas text in if c == b',' then [] ∷ parts else put_first c parts

-- `split_once(':')`
abbrev pub put_before : ℕ → Option (List ℕ × List ℕ) → Option (List ℕ × List ℕ)
put_before c none = none
put_before c (some (u, p)) = some (c ∷ u, p)

unfoldable pub split_once_colon : List ℕ → Option (List ℕ × List ℕ)
split_once_colon [] = none
split_once_colon (c ∷ text) =
    let rest = split_once_colon text in if c == b':' then some ([], text) else put_before c rest

unfoldable pub parse_entries : Library → List (List ℕ) → Option (List Socks5UserEntry)
parse_entries lib [] = some []
parse_entries lib (e ∷ es) =
    let entry = lib.trim e in
    let others = parse_entries lib es in
    if is_empty entry
    then others
    else (split_once_colon entry >>= λ (u, p). lib.hash_password p >>= λ hash.
        others >>= λ users. some (record { username = lib.trim u; password_hash = hash } ∷ users))

abbrev pub parse_env_socks5_users : Library → Option (List ℕ) → Option (List Socks5UserEntry)
parse_env_socks5_users lib none = some []
parse_env_socks5_users lib (some raw) = parse_entries lib (split_commas raw)

abbrev pub default_socks5_listen : List ℕ
default_socks5_listen = codes "127.0.0.1:1080"

-- `.ok().map(parse).transpose()?`
abbrev pub optional {ℓ} : {A : Type ℓ} → (List ℕ → Option A) → Option (List ℕ) → Option (Option A)
optional parse none = some none
optional parse (some v) = parse v >>= λ a. some (some a)

abbrev pub unwrap_or {ℓ} : {A : Type ℓ} → Option A → A → A
unwrap_or none d = d
unwrap_or (some a) d = a

unfoldable pub build_reconnect_from_env : Env → Option (Option ReconnectConfig)
build_reconnect_from_env env = do
  interval ← optional (parse_unsigned (2 ^ 64 - 1)) (env Var.var_reconnect_interval)
  retries ← optional (parse_signed 63) (env Var.var_reconnect_max)
  some (
      if is_some interval || is_some retries
      then some (record {
        interval_secs = unwrap_or interval 5;
        max_retries = unwrap_or retries (pos 10);
      })
      else none)

-- `if let Ok(v) = ... { field = v }`
abbrev pub overridden {ℓ} : {A : Type ℓ} → Option A → A → A
overridden none old = old
overridden (some a) old = a

-- `if let Ok(v) = var { field = Some(v) }`
abbrev pub or_old {ℓ} : {A : Type ℓ} → Option A → Option A → Option A
or_old none old = old
or_old (some a) old = some a

-- Users that could be read, if there are any.
abbrev pub new_users : Option (List Socks5UserEntry) → Option (List Socks5UserEntry)
new_users none = none
new_users (some []) = none
new_users (some (u ∷ us)) = some (u ∷ us)

abbrev pub blank_socks5 : Socks5Config
blank_socks5 = record {
  listen = default_socks5_listen;
  username = none;
  password = none;
  users = [];
}

-- The three changes of the entry for SOCKS5.
abbrev pub set_listen : Option (List ℕ) → Option Socks5Config → Option Socks5Config
set_listen none socks5 = socks5
set_listen (some listen) socks5 = some (record (unwrap_or socks5 blank_socks5) { listen = listen })

abbrev pub set_credential :
    Option (List ℕ) → Option (List ℕ) → Option Socks5Config → Option Socks5Config
set_credential user pass socks5 =
    let s5 = unwrap_or socks5 blank_socks5 in
    if is_some user || is_some pass
    then some (record s5 { username = or_old user s5.username; password = or_old pass s5.password })
    else socks5

abbrev pub set_users : Option (List Socks5UserEntry) → Option Socks5Config → Option Socks5Config
set_users none socks5 = socks5
set_users (some users) socks5 = some (record (unwrap_or socks5 blank_socks5) { users = users })

-- The text is neither "false" nor "0".
abbrev pub not_off : List ℕ → Bool
not_off u = not (bytes_eq u (codes "false") || bytes_eq u (codes "0"))

unfoldable pub apply_env : Library → Library → Env → Config → Config
apply_env lib again env cfg =
    let users = new_users (parse_env_socks5_users lib (env Var.var_socks5_users)) in
    let entries = new_users (parse_env_socks5_users again (env Var.var_socks5_users)) in
    record {
      mode = overridden (parse_env_mode env) cfg.mode;
      passphrase = overridden (env Var.var_passphrase) cfg.passphrase;
      crypto = overridden (env Var.var_crypto) cfg.crypto;
      metrics_port =
          or_old (env Var.var_metrics_port >>= parse_unsigned (2 ^ 16 - 1)) cfg.metrics_port;
      log_level = overridden (parse_opt (parse_unsigned 255) (env Var.var_log_level)) cfg.log_level;
      listen = or_old (env Var.var_listen) cfg.listen;
      udp_mode = overridden (env Var.var_udp_mode >>= parse_str) cfg.udp_mode;
      udp_datagram =
          overridden (env Var.var_udp_datagram >>= λ u. some (not_off u)) cfg.udp_datagram;
      latency_ms = overridden (env Var.var_latency >>= parse_signed 31) cfg.latency_ms;
      udp_ttl_min = overridden (env Var.var_udp_ttl_min >>= parse_signed 31) cfg.udp_ttl_min;
      maxbw_mbps =
          overridden (env Var.var_maxbw_mbps >>= parse_unsigned (2 ^ 32 - 1)) cfg.maxbw_mbps;
      max_clients =
          overridden (env Var.var_max_clients >>= parse_unsigned (2 ^ 64 - 1)) cfg.max_clients;
      socks5_users = overridden users cfg.socks5_users;
      server = or_old (env Var.var_server) cfg.server;
      streamid = or_old (env Var.var_streamid) cfg.streamid;
      socks5 = set_users entries (
          set_credential (env Var.var_socks5_user) (env Var.var_socks5_pass)
            (set_listen (env Var.var_socks5_listen) cfg.socks5));
      reconnect = or_old (build_reconnect_from_env env >>= λ rc. rc) cfg.reconnect;
      heartbeat_secs =
          overridden (env Var.var_heartbeat_secs >>= parse_unsigned (2 ^ 64 - 1))
            cfg.heartbeat_secs;
    }
