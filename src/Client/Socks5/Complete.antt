-- ===== src/Client/Socks5/Complete.antt =====
-- A client that keeps to the grammar and has a right to is served.
use srt_vpn.Prelude.{
  ℕ, ◌-◌, ◌≤◌, true, false, Option, none, some, List, [], ◌∷◌, ◌++◌, length, In, le→leb, ◌≡◌, refl,
  sym, ap, ◌∙◌, arith, append_assoc, append-nil,
}
use srt_vpn.Prelude.Bytes.{be_u16}
use srt_vpn.Config.{Socks5Config, has_auth}
use srt_vpn.Client.Conn.{Conn, ok, read_exact, write_all}
use srt_vpn.Client.Conn.Exact.{with_input, read_exact_front}
use srt_vpn.Client.Socks5.{
  Externals, Served, negotiate, authenticate, authenticate_by, read_address, read_request,
  dispatch_command, handle_connection, select_method, validate_credential,
}
use srt_vpn.Client.Socks5.Grammar.{
  Target, IsTarget, address_type, address_bytes, address_text, Hello, login_bytes, request_bytes,
  hello_bytes, LoginOk, replies, Asks,
}
use srt_vpn.Client.Socks5.Sound.{reply_tail, hello_parts}

-- The connection after `bytes` are written to it and `more` is left to read.
abbrev pub wrote : Conn → List ℕ → List ℕ → Conn
wrote c bytes more = record {
  input = more;
  room = c.room - length bytes;
  output = c.output ++ bytes;
}

pub write_all_run :
    (bytes : List ℕ) (c : Conn) (more : List ℕ)
    → length bytes ≤ c.room
    → write_all bytes (with_input c more) ≡ (ok tt, wrote c bytes more)
unfolding write_all
write_all_run bytes c more h = rw (le→leb (length bytes) c.room h) refl

pub select_with_run : (ms : List ℕ) → In 2 ms → select_method true none ms ≡ some 2
unfolding select_method
select_with_run [] i = absurd i
select_with_run (a ∷ ms) i = ground (arith, select_with_run ms)

select_kept : (ms : List ℕ) → select_method false (some 0) ms ≡ some 0
unfolding select_method
select_kept [] = refl
select_kept (a ∷ ms) = ground (arith, select_kept ms)

select_without_run : (ms : List ℕ) → In 0 ms → select_method false none ms ≡ some 0
unfolding select_method
select_without_run [] i = absurd i
select_without_run (a ∷ ms) i = ground (arith, select_kept ms, select_without_run ms)

pub negotiate_run :
    (cfg : Socks5Config) (m : ℕ) (ms : List ℕ) (c : Conn) (more : List ℕ)
    → select_method (has_auth cfg) none ms ≡ some m
    → 2 ≤ c.room
    → negotiate cfg (with_input c (length ms ∷ (ms ++ more))) ≡ (ok m, wrote c (5 ∷ m ∷ []) more)
unfolding negotiate
negotiate_run cfg m ms c more sel h =
    rw
      (
        read_exact_front c (length ms ∷ []) (ms ++ more),
        read_exact_front c ms more,
        sel,
        write_all_run (5 ∷ m ∷ []) c more h,
      )
      refl

authenticate_run :
    (x : Externals) (cfg : Socks5Config) (user pass : List ℕ) (c : Conn) (more : List ℕ)
    → validate_credential x (x.lossy user) (x.lossy pass) cfg ≡ true
    → 2 ≤ c.room
    → authenticate x cfg (with_input c (1 ∷ length user ∷ (user ++ (length pass ∷ (pass ++ more)))))
      ≡ (ok (some (x.lossy user)), wrote c (1 ∷ 0 ∷ []) more)
unfolding authenticate
authenticate_run x cfg user pass c more valid h =
    rw
      (
        read_exact_front c (1 ∷ length user ∷ []) (user ++ (length pass ∷ (pass ++ more))),
        read_exact_front c user (length pass ∷ (pass ++ more)),
        read_exact_front c (length pass ∷ []) (pass ++ more),
        read_exact_front c pass more,
        valid,
        write_all_run (1 ∷ 0 ∷ []) c more h,
      )
      refl

read_address_run :
    (x : Externals) (t : Target) (c : Conn) (more : List ℕ)
    → IsTarget t
    → read_address x (address_type t) (with_input c (address_bytes t ++ more))
      ≡ (ok (address_text x t), with_input c more)
unfolding read_address
read_address_run x (Target.ipv4 p q r s) c more good =
    rw (read_exact_front c (p ∷ q ∷ r ∷ s ∷ []) more) refl
read_address_run x (Target.domain name) c more good =
    rw (read_exact_front c (length name ∷ []) (name ++ more), read_exact_front c name more) refl
read_address_run x (Target.ipv6 ip) c more good =
    rw (ap (λ n. read_exact n (with_input c (ip ++ more))) (sym good) ∙ read_exact_front c ip more)
      refl

dispatch_command_run :
    (x : Externals) (h : Hello) (served : Served) (cmd : ℕ) (c : Conn)
    → Asks x h served cmd
    → dispatch_command cmd (address_text x h.target) (be_u16 h.port_high h.port_low) c
      ≡ (ok served, c)
dispatch_command_run x h (Served.http b) cmd c asks = absurd asks
dispatch_command_run x h (Served.connect dst port) cmd c (one, text, number) =
    rw (one, text, number) refl
dispatch_command_run x h Served.udp_associate cmd c three = rw three refl

read_request_run :
    (x : Externals) (h : Hello) (served : Served) (cmd : ℕ) (c : Conn) (more : List ℕ)
    → IsTarget h.target
    → Asks x h served cmd
    → read_request x (with_input c (request_bytes cmd h ++ more)) ≡ (ok served, with_input c more)
unfolding read_request
read_request_run x h served cmd c more good asks =
    let tail : List ℕ = h.port_high ∷ h.port_low ∷ more in
    let t = address_bytes h.target in
    rw
      (
        append_assoc t (h.port_high ∷ h.port_low ∷ []) more,
        read_exact_front c (5 ∷ cmd ∷ h.reserved ∷ address_type h.target ∷ []) (t ++ tail),
        read_address_run x h.target c tail good,
        read_exact_front c (h.port_high ∷ h.port_low ∷ []) more,
      )
      (dispatch_command_run x h served cmd (with_input c more) asks)

-- A login that the configuration allows is read, and then the request.
login_run :
    (x : Externals) (cfg : Socks5Config) (ms : List ℕ) (login : Option (List ℕ × List ℕ)) (c : Conn)
    (more : List ℕ)
    → LoginOk x cfg ms login
    → length (replies login) ≤ c.room
    → (m : ℕ) × (user : Option (List ℕ)) × (select_method (has_auth cfg) none ms ≡ some m)
      × (replies login ≡ 5 ∷ m ∷ reply_tail login)
      × ((d : Conn)
          → length (reply_tail login) ≤ d.room
          → (after : Conn) × (authenticate_by x cfg m (with_input d (login_bytes login ++ more))
              ≡ (ok user, after))
            × (after.input ≡ more)
            × (after.output ≡ d.output ++ reply_tail login))
login_run x cfg ms none c more (without, offered) h = (
  0,
  none,
  rw without (select_without_run ms offered),
  refl,
  λ d room. (with_input d more, refl, refl, sym (append-nil d.output)),
)
login_run x cfg ms (some (user, pass)) c more (users, offered, valid) h = (
  2,
  some (x.lossy user),
  rw users (select_with_run ms offered),
  refl,
  λ d room. (
    wrote d (1 ∷ 0 ∷ []) more,
    ap (λ r. authenticate x cfg (with_input d (1 ∷ length user ∷ r)))
          (append_assoc user (length pass ∷ pass) more)
        ∙ authenticate_run x cfg user pass d more valid room,
    refl,
    refl,
  ),
)

-- A SOCKS5 client that offers the method that the configuration demands, sends a name and a password
-- that `validate_credential` accepts if users are configured and none otherwise, and asks to connect
-- or for UDP, is served if the connection takes the replies: the handshake succeeds with the request
-- that the client has sent, the host as text, it leaves what the client sends afterwards, and it
-- has written the replies and nothing else.
pub Greeted_served :
    (x : Externals) (cfg : Socks5Config) (h : Hello) (cmd : ℕ) (served : Served) (c : Conn)
    (more : List ℕ)
    → c.input ≡ hello_bytes cmd h ++ more
    → LoginOk x cfg h.methods h.login
    → IsTarget h.target
    → Asks x h served cmd
    → length (replies h.login) ≤ c.room
    → (after : Conn) × (handle_connection x cfg c ≡ (ok served, after))
      × (after.input ≡ more)
      × (after.output ≡ c.output ++ replies h.login)
unfolding handle_connection
Greeted_served x cfg h cmd served c more front okay good asks room =
    let tail = request_bytes cmd h ++ more in
    let (m, user, sel, shape, login) = login_run x cfg h.methods h.login c tail okay room in
    let d : Conn = wrote c (5 ∷ m ∷ []) (login_bytes h.login ++ tail) in
    let (after, done, left, out) = login d (omega (arith, ap length shape, room)) in
    (
      with_input after more,
      rw
          (
            ap (λ i. read_exact 1 (with_input c i)) (front ∙ hello_parts cmd h more),
            read_exact_front c (5 ∷ [])
                (length h.methods ∷ (h.methods ++ (login_bytes h.login ++ tail))),
            negotiate_run cfg m h.methods c (login_bytes h.login ++ tail) sel
                (omega (arith, ap length shape, room)),
            done,
          )
          (ap (λ i. read_request x (with_input after i)) left
            ∙ read_request_run x h served cmd after more good asks),
      refl,
      out
          ∙ append_assoc c.output (5 ∷ m ∷ []) (reply_tail h.login)
          ∙ ap (λ r. c.output ++ r) (sym shape),
    )
