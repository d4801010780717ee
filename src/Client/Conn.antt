-- ===== src/Client/Conn.antt =====
-- A TCP connection of a client (tokio's TcpStream), and actions on it that can fail.
pub mod Exact
pub mod Inversion
use srt_vpn.Prelude.{
  ℕ, ◌-◌, Bool, true, false, Option, none, some, List, [], ◌∷◌, ◌++◌, ltb, leb, if◌then◌else◌,
  length, take, drop,
}

-- What the peer sends before it closes, as far as it is not read; how many bytes it still takes
-- before the connection breaks; and what it has been sent.
pub record Conn : Type 0 where
  pub input : List ℕ
  pub room : ℕ
  pub output : List ℕ

-- The texts of the errors, as values.
pub data Error : Type 0 where
  closed_early broken bad_version no_method bad_auth_version auth_failed : Error
  bad_request bind_unsupported : Error
  unknown_address_type unknown_command : ℕ → Error

pub data Result {ℓ} (A : Type ℓ) : Type ℓ where
  ok : A → Result A
  err : Error → Result A

abbrev pub Action {ℓ} : Type ℓ → Type ℓ
Action A = Conn → Result A × Conn

module _ {ℓ} {A : Type ℓ} where
  abbrev pub pure : A → Action A
  pure a c = (ok a, c)

  abbrev pub raise : Error → Action A
  raise e c = (err e, c)

  abbrev pub or_raise : Option A → Error → Action A
  or_raise none e = raise e
  or_raise (some a) e = pure a

infixl 5 ◌>>=◌ ◌>>◌
abbrev pub next {ℓ κ} :
    {A : Type ℓ} {B : Type κ} → Result A → Conn → (A → Action B) → Result B × Conn
next (ok a) c f = f a c
next (err e) c f = (err e, c)

abbrev pub ◌>>=◌ {ℓ κ} : {A : Type ℓ} {B : Type κ} → Action A → (A → Action B) → Action B
◌>>=◌ m f c = next (m c).0 (m c).1 f

abbrev pub ◌>>◌ {ℓ κ} : {A : Type ℓ} {B : Type κ} → Action A → Action B → Action B
m >> k = m >>= λ _. k

-- `return Err(e)` unless the test holds
abbrev pub require : Bool → Error → Action (Unit {0})
require true e = pure tt
require false e = raise e

unfoldable pub read_exact : ℕ → Action (List ℕ)
read_exact n c =
    if ltb (length c.input) n
    then (err closed_early, record c { input = [] })
    else (ok (take n c.input), record c { input = drop n c.input })

unfoldable pub write_all : List ℕ → Action (Unit {0})
write_all bytes c =
    if leb (length bytes) c.room
    then (ok tt, record c { room = c.room - length bytes; output = c.output ++ bytes })
    else (err broken, record c { room = 0; output = c.output ++ take c.room bytes })
