-- ===== src/Tests/Handshakes.antt =====
-- Handshakes of SOCKS5 clients.
use srt_vpn.Prelude.{
  ℕ, true, false, none, some, List, [], ◌∷◌, ◌++◌, ◌≡◌, ◌⊎◌, ◌↔◌, inl, refl, arith,
}
use srt_vpn.Prelude.Bytes.{bytes_eq}
use srt_vpn.Config.{Socks5Config}
use srt_vpn.Client.Conn.{Conn, Error, ok, err, read_exact, write_all}
use srt_vpn.Client.Conn.Exact.{Reads}
use srt_vpn.Client.Socks5.{
  Externals, Served, handle_connection, validate_credential, same_credential, negotiate,
  authenticate, read_request, read_address, select_method, dotted, decimal, is_http_start,
}
use srt_vpn.Auth.{diff_from}
use srt_vpn.Client.Socks5.Whole.{handle_connection-Reads}
use srt_vpn.Client.Socks5.Credential.{Accepts, validate_credential_iff}
use srt_vpn.Client.Socks5.Grammar.{Target, Hello, Greeted}
use srt_vpn.Client.Socks5.Sound.{handle_connection-Greeted}
use srt_vpn.Client.Socks5.Complete.{Greeted_served}
use srt_vpn.Client.Socks5.Refused.{invalid_login_refused}

-- Texts are taken as they are, and a password is its own hash.
abbrev plain : Externals
plain = record {
  lossy = λ text. text;
  ipv6_text = λ ip. ip;
  PasswordHash = List ℕ;
  parse_hash = λ hash. some hash;
  hash_accepts = λ word hash. bytes_eq word hash;
}

abbrev no_users : Socks5Config
no_users = record { listen = []; username = none; password = none; users = [] }

-- The user "ab" with the password "xyz".
abbrev one_user : Socks5Config
one_user = record {
  listen = [];
  username = some (b'a' ∷ b'b' ∷ []);
  password = some (b'x' ∷ b'y' ∷ b'z' ∷ []);
  users = [];
}

-- The same in a table of users.
abbrev table : Socks5Config
table = record {
  listen = [];
  username = none;
  password = none;
  users = record { username = b'a' ∷ b'b' ∷ []; password_hash = b'x' ∷ b'y' ∷ b'z' ∷ [] } ∷ [];
}

-- A name without a password.
abbrev name_only : Socks5Config
name_only = record one_user { password = none }

abbrev connect_bytes : List ℕ
connect_bytes = 5 ∷ 1 ∷ 0 ∷ 3 ∷ 2 ∷ b'h' ∷ b'i' ∷ 1 ∷ 187 ∷ []

abbrev anonymous : Conn
anonymous = record { input = 5 ∷ 2 ∷ 2 ∷ 0 ∷ (connect_bytes ++ 9 ∷ []); room = 10; output = [] }

abbrev with_login : Conn
with_login = record {
  input = 5 ∷ 1 ∷ 2 ∷ 1 ∷ 2 ∷ b'a' ∷ b'b' ∷ 3 ∷ b'x' ∷ b'y' ∷ b'z' ∷ (connect_bytes ++ 9 ∷ []);
  room = 10;
  output = [];
}

abbrev target_hi : Served
target_hi = Served.connect (b'h' ∷ b'i' ∷ []) 443

anonymous_served :
    handle_connection plain no_users anonymous
    ≡ (ok target_hi, record { input = 9 ∷ []; room = 8; output = 5 ∷ 0 ∷ [] })
unfolding handle_connection negotiate read_request read_address select_method read_exact write_all
anonymous_served = refl

login_served :
    handle_connection plain one_user with_login
    ≡ (ok target_hi, record { input = 9 ∷ []; room = 6; output = 5 ∷ 2 ∷ 1 ∷ 0 ∷ [] })
unfolding handle_connection negotiate read_request read_address select_method read_exact write_all
    authenticate validate_credential same_credential diff_from
login_served = refl

-- A name without a password is no protection: every credential passes.
any_credential_passes : validate_credential plain (7 ∷ []) (8 ∷ []) name_only ≡ true
unfolding validate_credential
any_credential_passes = refl

-- The address 10.0.20.255
dotted_address :
    dotted 10 0 20 255
    ≡ b'1' ∷ b'0' ∷ b'.' ∷ b'0' ∷ b'.' ∷ b'2' ∷ b'0' ∷ b'.' ∷ b'2' ∷ b'5' ∷ b'5' ∷ []
unfolding dotted decimal
dotted_address = refl

validate_credential_iff_example :
    (validate_credential plain (b'a' ∷ b'b' ∷ []) (b'x' ∷ b'y' ∷ b'z' ∷ []) table ≡ true)
    ↔ Accepts plain table (b'a' ∷ b'b' ∷ []) (b'x' ∷ b'y' ∷ b'z' ∷ [])
validate_credential_iff_example =
    validate_credential_iff plain (b'a' ∷ b'b' ∷ []) (b'x' ∷ b'y' ∷ b'z' ∷ []) table (omega arith)
      (omega arith) tt tt

handle_connection-Reads_example :
    Reads
      (handle_connection plain no_users)
      anonymous
      target_hi
      (record { input = 9 ∷ []; room = 8; output = 5 ∷ 0 ∷ [] })
handle_connection-Reads_example =
    handle_connection-Reads plain no_users anonymous target_hi
      (record { input = 9 ∷ []; room = 8; output = 5 ∷ 0 ∷ [] }) anonymous_served

abbrev logged_in : Conn
logged_in = record { input = 9 ∷ []; room = 6; output = 5 ∷ 2 ∷ 1 ∷ 0 ∷ [] }

handle_connection-Greeted_example :
    ((b : ℕ) × (with_login.input ≡ b ∷ logged_in.input)
      × (is_http_start b ≡ true)
      × (target_hi ≡ Served.http b)
      × (logged_in.output ≡ with_login.output))
    ⊎ Greeted plain one_user with_login target_hi logged_in
handle_connection-Greeted_example =
    handle_connection-Greeted plain one_user with_login target_hi logged_in login_served

abbrev hello_hi : Hello
hello_hi = record {
  methods = 2 ∷ [];
  login = some (b'a' ∷ b'b' ∷ [], b'x' ∷ b'y' ∷ b'z' ∷ []);
  reserved = 0;
  target = Target.domain (b'h' ∷ b'i' ∷ []);
  port_high = 1;
  port_low = 187;
}

accepted_here :
    validate_credential plain (b'a' ∷ b'b' ∷ []) (b'x' ∷ b'y' ∷ b'z' ∷ []) one_user ≡ true
unfolding validate_credential same_credential diff_from
accepted_here = refl

refused_here : validate_credential plain (b'a' ∷ b'b' ∷ []) (b'x' ∷ b'y' ∷ []) one_user ≡ false
unfolding validate_credential same_credential diff_from
refused_here = refl

Greeted_served_example :
    (after : Conn) × (handle_connection plain one_user with_login ≡ (ok target_hi, after))
    × (after.input ≡ 9 ∷ [])
    × (after.output ≡ 5 ∷ 2 ∷ 1 ∷ 0 ∷ [])
Greeted_served_example =
    Greeted_served plain one_user hello_hi 1 target_hi with_login (9 ∷ []) refl
      (refl, inl refl, accepted_here) tt (refl, refl, refl) (omega arith)

invalid_login_refused_example :
    (after : Conn) × (handle_connection plain one_user (record {
      input = 5 ∷ 1 ∷ 2 ∷ 1 ∷ 2 ∷ b'a' ∷ b'b' ∷ 2 ∷ b'x' ∷ b'y' ∷ connect_bytes;
      room = 10;
      output = [];
    })
      ≡ (err Error.auth_failed, after))
    × (after.output ≡ 5 ∷ 2 ∷ 1 ∷ 1 ∷ [])
invalid_login_refused_example =
    invalid_login_refused plain one_user (2 ∷ []) (b'a' ∷ b'b' ∷ []) (b'x' ∷ b'y' ∷ [])
      (record {
        input = 5 ∷ 1 ∷ 2 ∷ 1 ∷ 2 ∷ b'a' ∷ b'b' ∷ 2 ∷ b'x' ∷ b'y' ∷ connect_bytes;
        room = 10;
        output = [];
      })
      connect_bytes refl refl (inl refl) refused_here (omega arith)
