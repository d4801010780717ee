-- ===== src/Tests/Configs.antt =====
-- Configurations, and what becomes of them.
use srt_vpn.Prelude.{ℕ, true, none, some, List, [], ◌≡◌, refl}
use srt_vpn.Prelude.Ints.{pos}
use srt_vpn.Config.{
  codes, Mode, UdpMode, Config, ConfigError, check_mode, check_users, validate, crypto_to_pbkeylen,
}
use srt_vpn.Config.Env.{Var, Env, Library}
use srt_vpn.Config.Encryption.{CipherKey, IsUnconnected, set_encryption, validate-set_encryption}
use srt_vpn.Srtcore.Config.Crypto.{sectyp_passphrase}
use srt_vpn.Tests.Options.{fresh_socket}

abbrev passphrase : List ℕ
passphrase = codes "correct horse"

abbrev server_config : Config
server_config = record {
  mode = Mode.server;
  passphrase = passphrase;
  crypto = codes "aes-256";
  metrics_port = none;
  log_level = some 3;
  listen = some (codes "0.0.0.0:9000");
  udp_mode = UdpMode.reliable;
  udp_datagram = true;
  latency_ms = pos 500;
  udp_ttl_min = pos 400;
  maxbw_mbps = 0;
  max_clients = 32;
  socks5_users = [];
  server = none;
  streamid = none;
  socks5 = none;
  reconnect = none;
  heartbeat_secs = 5;
}

accepted : validate server_config ≡ none
unfolding validate check_mode check_users
accepted = refl

no_address : validate (record server_config { listen = none }) ≡ some ConfigError.no_listen
unfolding validate check_mode check_users
no_address = refl

fresh_socket-IsUnconnected : IsUnconnected fresh_socket
fresh_socket-IsUnconnected = record { alive = refl; unused = refl }

validate-set_encryption_example :
    (k : ℕ) × CipherKey (codes "aes-256") k
    × (set_encryption [] fresh_socket passphrase (crypto_to_pbkeylen (codes "aes-256"))
        ≡ some (record fresh_socket {
          config = record (fresh_socket.config) {
            crypto_secret = record { typ = sectyp_passphrase; str = passphrase };
            snd_crypto_key_len = k;
            enforced_enc = true;
          };
        }))
validate-set_encryption_example =
    validate-set_encryption [] fresh_socket server_config fresh_socket-IsUnconnected accepted

-- SRT_CRYPTO=aes256, without the dash
abbrev misspelt : Env
misspelt Var.var_crypto = some (codes "aes256")
misspelt _ = none

abbrev plain : Library
plain = record { trim = λ text. text; hash_password = λ text. some text }
