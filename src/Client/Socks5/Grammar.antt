-- ===== src/Client/Socks5/Grammar.antt =====
-- The bytes of a SOCKS5 client (RFC 1928 and RFC 1929), apart from the code that reads them.
use srt_vpn.Prelude.{ℕ, true, false, Option, none, some, List, [], ◌∷◌, ◌++◌, length, In, ◌≡◌}
use srt_vpn.Prelude.Bytes.{be_u16}
use srt_vpn.Config.{Socks5Config, has_auth}
use srt_vpn.Client.Conn.{Conn}
use srt_vpn.Client.Socks5.{Externals, Served, dotted, validate_credential}

pub data Target : Type 0 where
  ipv4 : ℕ → ℕ → ℕ → ℕ → Target
  domain ipv6 : List ℕ → Target

abbrev pub IsTarget : Target → Type 0
IsTarget (Target.ipv4 a b c d) = Unit {0}
IsTarget (Target.domain name) = Unit {0}
IsTarget (Target.ipv6 ip) = length ip ≡ 16

abbrev pub address_type : Target → ℕ
address_type (Target.ipv4 a b c d) = 1
address_type (Target.domain name) = 3
address_type (Target.ipv6 ip) = 4

abbrev pub address_bytes : Target → List ℕ
address_bytes (Target.ipv4 a b c d) = a ∷ b ∷ c ∷ d ∷ []
address_bytes (Target.domain name) = length name ∷ name
address_bytes (Target.ipv6 ip) = ip

abbrev pub address_text : Externals → Target → List ℕ
address_text x (Target.ipv4 a b c d) = dotted a b c d
address_text x (Target.domain name) = x.lossy name
address_text x (Target.ipv6 ip) = x.ipv6_text ip

-- Which methods the client offers, the name and the password that it sends, and its request.
pub record Hello : Type 0 where
  pub methods : List ℕ
  pub login : Option (List ℕ × List ℕ)
  pub reserved : ℕ
  pub target : Target
  pub port_high : ℕ
  pub port_low : ℕ

abbrev pub login_bytes : Option (List ℕ × List ℕ) → List ℕ
login_bytes none = []
login_bytes (some (user, pass)) = 1 ∷ length user ∷ (user ++ length pass ∷ pass)

-- With the command 1 (CONNECT) or 3 (UDP ASSOCIATE).
abbrev pub request_bytes : ℕ → Hello → List ℕ
request_bytes cmd h =
    5
    ∷ cmd
    ∷ h.reserved
    ∷ address_type h.target
    ∷ (address_bytes h.target ++ h.port_high ∷ h.port_low ∷ [])

abbrev pub hello_bytes : ℕ → Hello → List ℕ
hello_bytes cmd h =
    5 ∷ length h.methods ∷ (h.methods ++ (login_bytes h.login ++ request_bytes cmd h))

-- A login is what the configuration demands, and the client offers its method.
abbrev pub LoginOk : Externals → Socks5Config → List ℕ → Option (List ℕ × List ℕ) → Type 0
LoginOk x cfg methods none = (has_auth cfg ≡ false) × In 0 methods
LoginOk x cfg methods (some (user, pass)) =
    (has_auth cfg ≡ true)
    × In 2 methods
    × (validate_credential x (x.lossy user) (x.lossy pass) cfg ≡ true)

-- What the client is sent.
abbrev pub replies : Option (List ℕ × List ℕ) → List ℕ
replies none = 5 ∷ 0 ∷ []
replies (some login) = 5 ∷ 2 ∷ 1 ∷ 0 ∷ []

-- The command of a request that is served.
abbrev pub Asks : Externals → Hello → Served → ℕ → Type 0
Asks x h (Served.http b) cmd = ⊥
Asks x h (Served.connect dst port) cmd =
    (cmd ≡ 1) × (dst ≡ address_text x h.target) × (port ≡ be_u16 h.port_high h.port_low)
Asks x h Served.udp_associate cmd = cmd ≡ 3

-- The connection is at the end of such a handshake.
pub record Greeted (x : Externals) (cfg : Socks5Config) (c : Conn) (served : Served) (after : Conn)
    : Type 0 where
  pub hello : Hello
  pub cmd : ℕ
  pub input_is : c.input ≡ hello_bytes cmd hello ++ after.input
  pub output_is : after.output ≡ c.output ++ replies hello.login
  pub login_ok : LoginOk x cfg hello.methods hello.login
  pub target_ok : IsTarget hello.target
  pub asks : Asks x hello served cmd
