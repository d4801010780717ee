-- ===== src/Client/Socks5.antt =====
-- src/client/socks5.rs: the handshake of a SOCKS5 connection.
-- What the code takes from elsewhere is the record `Externals`.
pub mod Whole
pub mod Credential
pub mod Grammar
pub mod Sound
pub mod Complete
pub mod Refused
use srt_vpn.Prelude.{
  ℕ, ◌+◌, ◌/◌, ◌%◌, Bool, true, false, not, ◌&&◌, ◌||◌, Option, none, some, List, [], ◌∷◌, ◌++◌,
  ltb, ◌==◌, if◌then◌else◌, length, get_or,
}
use srt_vpn.Prelude.Bytes.{bytes_eq, u16_be, be_u16}
use srt_vpn.Auth.{diff_from}
use srt_vpn.Config.{Socks5Config, Socks5UserEntry, is_empty, has_auth}
use srt_vpn.Client.Conn.{
  Action, Error, pure, raise, or_raise, require, read_exact, write_all, ◌>>=◌, ◌>>◌,
}

-- `String::from_utf8_lossy`, the text of an IPv6 address, and the crate argon2: the hashes that
-- `PasswordHash::new` reads, and `verify_password`.
pub record Externals : Type 1 where
  pub lossy : List ℕ → List ℕ
  pub ipv6_text : List ℕ → List ℕ
  pub PasswordHash : Type 0
  pub parse_hash : List ℕ → Option PasswordHash
  pub hash_accepts : List ℕ → PasswordHash → Bool

abbrev pub socks5_version : ℕ
socks5_version = 0x05

abbrev pub method_no_auth : ℕ
method_no_auth = 0x00

abbrev pub method_user_pass : ℕ
method_user_pass = 0x02

abbrev pub cmd_connect : ℕ
cmd_connect = 0x01

abbrev pub cmd_bind : ℕ
cmd_bind = 0x02

abbrev pub cmd_udp_associate : ℕ
cmd_udp_associate = 0x03

abbrev pub atyp_ipv4 : ℕ
atyp_ipv4 = 0x01

abbrev pub atyp_domain : ℕ
atyp_domain = 0x03

abbrev pub atyp_ipv6 : ℕ
atyp_ipv6 = 0x04

-- To whom the connection is handed after the handshake.
pub data Served : Type 0 where
  http : ℕ → Served
  connect : List ℕ → ℕ → Served
  udp_associate : Served

-- src/auth/mod.rs; `none` is an error.
unfoldable pub verify_password : Externals → List ℕ → List ℕ → Option Bool
verify_password x plain hash = elim (x.parse_hash hash) [
  | none ↦ none
  | some parsed ↦ some (x.hash_accepts plain parsed)
]

abbrev pub unwrap_or_false : Option Bool → Bool
unwrap_or_false none = false
unwrap_or_false (some b) = b

-- The first entry of that name decides.
unfoldable pub check_users : Externals → List Socks5UserEntry → List ℕ → List ℕ → Bool
check_users x [] username password = false
check_users x (u ∷ us) username password =
    let others = check_users x us username password in
    if bytes_eq u.username username
    then unwrap_or_false (verify_password x password u.password_hash)
    else others

-- The two loops share `diff`; the lengths are equal there, so that `zip` drops nothing.
unfoldable pub same_credential : List ℕ → List ℕ → List ℕ → List ℕ → Bool
same_credential a b c d =
    if not (length a == length b) || not (length c == length d)
    then false
    else diff_from (diff_from 0 a b) c d == 0

abbrev pub check_single : Option (List ℕ) → Option (List ℕ) → List ℕ → List ℕ → Bool
check_single none expected_pass username password = true
check_single (some expected_user) none username password = true
check_single (some expected_user) (some expected_pass) username password =
    same_credential username expected_user password expected_pass

unfoldable pub validate_credential : Externals → List ℕ → List ℕ → Socks5Config → Bool
validate_credential x username password cfg =
    if not (is_empty cfg.users)
    then check_users x cfg.users username password
    else check_single cfg.username cfg.password username password

abbrev pub build_reply : ℕ → ℕ → List ℕ → ℕ → List ℕ
build_reply rep atyp addr port = socks5_version ∷ rep ∷ 0x00 ∷ atyp ∷ (addr ++ u16_be port)

-- `for &m in &methods`, with what is selected so far
unfoldable pub select_method : Bool → Option ℕ → List ℕ → Option ℕ
select_method auth_configured selected [] = selected
select_method auth_configured selected (m ∷ ms) =
    let now =
      if m == method_no_auth && not auth_configured then some method_no_auth else selected in
    let rest = select_method auth_configured now ms in
    if m == method_user_pass && auth_configured then some method_user_pass else rest

abbrev pub is_http_start : ℕ → Bool
is_http_start b =
    b == b'G' || b == b'P' || b == b'O' || b == b'D' || b == b'C' || b == b'T' || b == b'H'

-- The methods, and the answer. To read 0 methods is to read nothing.
unfoldable pub negotiate : Socks5Config → Action ℕ
negotiate cfg = do
  nmethods ← read_exact 1
  methods ← read_exact (get_or nmethods 0 0)
  method ← or_raise (select_method (has_auth cfg) none methods) Error.no_method
  write_all (socks5_version ∷ method ∷ [])
  pure method

abbrev pub answer_credential : Bool → List ℕ → Action (Option (List ℕ))
answer_credential true username = write_all (0x01 ∷ 0x00 ∷ []) >> pure (some username)
answer_credential false username = write_all (0x01 ∷ 0x01 ∷ []) >> raise Error.auth_failed

-- RFC 1929
unfoldable pub authenticate : Externals → Socks5Config → Action (Option (List ℕ))
authenticate x cfg = do
  auth_hdr ← read_exact 2
  require (get_or auth_hdr 0 0 == 0x01) Error.bad_auth_version
  username ← read_exact (get_or auth_hdr 1 0)
  plen ← read_exact 1
  password ← read_exact (get_or plen 0 0)
  answer_credential (validate_credential x (x.lossy username) (x.lossy password) cfg)
      (x.lossy username)

-- A byte in decimal, and an IPv4 address.
unfoldable pub decimal : ℕ → List ℕ
decimal n =
    if ltb n 10
    then (48 + n) ∷ []
    else if ltb n 100
    then (48 + n / 10) ∷ (48 + n % 10) ∷ []
    else (48 + n / 100) ∷ (48 + n / 10 % 10) ∷ (48 + n % 10) ∷ []

unfoldable pub dotted : ℕ → ℕ → ℕ → ℕ → List ℕ
dotted a b c d = decimal a ++ b'.' ∷ (decimal b ++ b'.' ∷ (decimal c ++ b'.' ∷ decimal d))

abbrev pub dotted_octets : List ℕ → List ℕ
dotted_octets ip = dotted (get_or ip 0 0) (get_or ip 1 0) (get_or ip 2 0) (get_or ip 3 0)

-- The address of the target.
unfoldable pub read_address : Externals → ℕ → Action (List ℕ)
read_address x atyp =
    if atyp == atyp_ipv4
    then (read_exact 4 >>= λ ip. pure (dotted_octets ip))
    else if atyp == atyp_domain
    then (read_exact 1 >>= λ len. read_exact (get_or len 0 0) >>= λ domain. pure (x.lossy domain))
    else if atyp == atyp_ipv6
    then (read_exact 16 >>= λ ip. pure (x.ipv6_text ip))
    else raise (Error.unknown_address_type atyp)

-- Steps 6: a CONNECT or UDP ASSOCIATE is handed on, BIND is answered and refused.
abbrev pub dispatch_command : ℕ → List ℕ → ℕ → Action Served
dispatch_command cmd dst_addr dst_port =
    if cmd == cmd_connect
    then pure (Served.connect dst_addr dst_port)
    else if cmd == cmd_udp_associate
    then pure Served.udp_associate
    else if cmd == cmd_bind
    then (write_all (build_reply 0x07 atyp_ipv4 (127 ∷ 0 ∷ 0 ∷ 1 ∷ []) 0)
        >> raise Error.bind_unsupported)
    else raise (Error.unknown_command cmd)

unfoldable pub read_request : Externals → Action Served
read_request x = do
  cmd_hdr ← read_exact 4
  require (get_or cmd_hdr 0 0 == socks5_version) Error.bad_request
  dst_addr ← read_address x (get_or cmd_hdr 3 0)
  port ← read_exact 2
  dispatch_command (get_or cmd_hdr 1 0) dst_addr (be_u16 (get_or port 0 0) (get_or port 1 0))

abbrev pub authenticate_by : Externals → Socks5Config → ℕ → Action (Option (List ℕ))
authenticate_by x cfg method = if method == method_user_pass then authenticate x cfg else pure none

unfoldable pub handle_connection : Externals → Socks5Config → Action Served
handle_connection x cfg = read_exact 1 >>= λ first.
    let b = get_or first 0 0 in
    if not (b == socks5_version) && is_http_start b
    then pure (Served.http b)
    else if not (b == socks5_version)
    then raise Error.bad_version
    else (negotiate cfg >>= λ method. authenticate_by x cfg method >>= λ auth_user. read_request x)
