-- ===== src/Client/Socks5/Sound.antt =====
-- Whatever a handshake that succeeds has read is in the grammar, and is authorized.
use srt_vpn.Prelude.{
  ℕ, Bool, true, false, not, ◌&&◌, Option, none, some, List, [], ◌∷◌, ◌++◌, length, In, ◌==◌,
  ==_iff, ◌≡◌, ◌⊎◌, inl, inr, refl, sym, ap, ◌∙◌, arith, Bool-cases, append_assoc, append-nil,
  subst, &&-eq-true,
}
use srt_vpn.Prelude.Bytes.{be_u16}
use srt_vpn.Config.{Socks5Config, has_auth}
use srt_vpn.Client.Conn.{Conn, ok, ◌>>=◌}
use srt_vpn.Client.Conn.Inversion.{
  bind-ok, ok-value, ok-state, read-then, read_1-then, read_2-then, read_4-then, require-then,
  or_raise-then, write_all-then,
}
use srt_vpn.Client.Socks5.{
  Externals, Served, negotiate, authenticate, authenticate_by, answer_credential, read_address,
  read_request, dispatch_command, handle_connection, select_method, validate_credential,
  is_http_start,
}
use srt_vpn.Client.Socks5.Grammar.{
  Target, IsTarget, address_type, address_bytes, address_text, Hello, login_bytes, request_bytes,
  hello_bytes, LoginOk, replies, Asks, Greeted,
}

-- A configuration with users takes only names and passwords, and one without takes neither.
select_with : (ms : List ℕ) (m : ℕ) → select_method true none ms ≡ some m → (m ≡ 2) × In 2 ms
unfolding select_method
select_with [] m h = cc
select_with (a ∷ ms) m h = ground (arith, select_with ms m)

select_without :
    (ms : List ℕ) (sel : Option ℕ) (m : ℕ)
    → select_method false sel ms ≡ some m
    → (sel ≡ some m) ⊎ ((m ≡ 0) × In 0 ms)
unfolding select_method
select_without [] sel m h = inl h
select_without (a ∷ ms) sel m h =
    ground (arith, select_without ms sel m, select_without ms (some 0) m)

-- The method of a login.
abbrev pub FitsMethod : Bool → List ℕ → ℕ → Type 0
FitsMethod true ms m = (m ≡ 2) × In 2 ms
FitsMethod false ms m = (m ≡ 0) × In 0 ms

select-FitsMethod :
    (auth : Bool) (ms : List ℕ) (m : ℕ) → select_method auth none ms ≡ some m → FitsMethod auth ms m
select-FitsMethod true ms m h = select_with ms m h
select-FitsMethod false ms m h = elim (select_without ms none m h) [ inl e ↦ cc | inr r ↦ r ]

negotiate-ok :
    (cfg : Socks5Config) (c : Conn) {m : ℕ} {after : Conn}
    → negotiate cfg c ≡ (ok m, after)
    → (ms : List ℕ) × (c.input ≡ length ms ∷ (ms ++ after.input))
      × (after.output ≡ c.output ++ 5 ∷ m ∷ [])
      × FitsMethod (has_auth cfg) ms m
unfolding negotiate
negotiate-ok cfg c {m} {after} h =
    let (n, c1, front1, out1, h1) = read_1-then _ c h in
    let (ms, c2, size, front2, out2, h2) = read-then _ _ c1 h1 in
    let (sel, selected, h3) = or_raise-then _ _ _ c2 h2 in
    let (c4, unread, written, h4) = write_all-then _ _ c2 h3 in
    let same : sel ≡ m = ok-value h4 in
    let last : c4 ≡ after = ok-state h4 in
    let fits = select-FitsMethod (has_auth cfg) ms m (selected ∙ ap some same) in (ms, cc, cc, fits)

answer-ok :
    (v : Bool) (username : List ℕ) (c : Conn) {r : Option (List ℕ)} {after : Conn}
    → answer_credential v username c ≡ (ok r, after)
    → (v ≡ true) × (after.input ≡ c.input) × (after.output ≡ c.output ++ 1 ∷ 0 ∷ [])
answer-ok true username c h =
    let (mid, input, output, rest) = write_all-then _ _ c h in
    let last = ok-state rest in (refl, cc, cc)
answer-ok false username c h = let (mid, input, output, rest) = write_all-then _ _ c h in cc

-- The credential that has been read is a valid one.
authenticate-ok :
    (x : Externals) (cfg : Socks5Config) (c : Conn) {r : Option (List ℕ)} {after : Conn}
    → authenticate x cfg c ≡ (ok r, after)
    → (user pass : List ℕ) × (c.input ≡ login_bytes (some (user, pass)) ++ after.input)
      × (after.output ≡ c.output ++ 1 ∷ 0 ∷ [])
      × (validate_credential x (x.lossy user) (x.lossy pass) cfg ≡ true)
unfolding authenticate
authenticate-ok x cfg c {r} {after} h =
    let (v, n, c1, front1, out1, h1) = read_2-then _ c h in
    let (version, h2) = require-then _ _ _ c1 h1 in
    let (user, c2, size2, front2, out2, h3) = read-then _ _ c1 h2 in
    let (m, c3, front3, out3, h4) = read_1-then _ c2 h3 in
    let (pass, c4, size4, front4, out4, h5) = read-then _ _ c3 h4 in
    let (valid, unread, written) = answer-ok _ (x.lossy user) c4 h5 in
    let one : v ≡ 1 = (==_iff v 1).0 version in
    let shape : login_bytes (some (user, pass)) ++ after.input
        ≡ 1 ∷ length user ∷ (user ++ (length pass ∷ (pass ++ after.input))) =
      ap (λ r. 1 ∷ length user ∷ r) (append_assoc user (length pass ∷ pass) after.input) in
    (user, pass, cc, cc, valid)

-- After the method is chosen.
abbrev pub reply_tail : Option (List ℕ × List ℕ) → List ℕ
reply_tail none = []
reply_tail (some login) = 1 ∷ 0 ∷ []

authenticate_by-ok :
    (x : Externals) (cfg : Socks5Config) (auth : Bool) (ms : List ℕ) (m : ℕ) (c : Conn)
    {r : Option (List ℕ)} {after : Conn}
    → has_auth cfg ≡ auth
    → FitsMethod auth ms m
    → authenticate_by x cfg m c ≡ (ok r, after)
    → (login : Option (List ℕ × List ℕ)) × (c.input ≡ login_bytes login ++ after.input)
      × (replies login ≡ 5 ∷ m ∷ reply_tail login)
      × (after.output ≡ c.output ++ reply_tail login)
      × LoginOk x cfg ms login
authenticate_by-ok x cfg true ms m c e (two, offered) h =
    let chosen : (m == 2) ≡ true = (==_iff m 2).1 two in
    let (user, pass, input, output, valid) = authenticate-ok x cfg c (rw chosen at h) in
    (some (user, pass), input, cc, output, (e, offered, valid))
authenticate_by-ok x cfg false ms m c {r} {after} e (zero_method, offered) h =
    let chosen : (m == 2) ≡ false = ground arith in
    let last = ok-state (rw chosen at h) in
    (none, cc, cc, ap (λ (d : Conn). d.output) (sym last) ∙ sym (append-nil c.output), (e, offered))

-- The address is one of the three kinds.
read_address-ok :
    (x : Externals) (atyp : ℕ) (c : Conn) {text : List ℕ} {after : Conn}
    → read_address x atyp c ≡ (ok text, after)
    → (t : Target) × (address_type t ≡ atyp)
      × (address_text x t ≡ text)
      × (c.input ≡ address_bytes t ++ after.input)
      × (after.output ≡ c.output)
      × IsTarget t
unfolding read_address
read_address-ok x atyp c {text} {after} h = elim (Bool-cases (atyp == 1)) [
  | inl e ↦
      let (p, q, r, s, c1, front, out, h1) = read_4-then _ c (rw e at h) in
      let value = ok-value h1 in
      let last = ok-state h1 in (Target.ipv4 p q r s, sym ((==_iff atyp 1).0 e), value, cc, cc, tt)
  | inr e ↦ elim (Bool-cases (atyp == 3)) [
    | inl f ↦
        let (n, c1, front1, out1, h1) = read_1-then _ c (rw (e, f) at h) in
        let (name, c2, size, front2, out2, h2) = read-then _ _ c1 h1 in
        let value = ok-value h2 in
        let last = ok-state h2 in (Target.domain name, sym ((==_iff atyp 3).0 f), value, cc, cc, tt)
    | inr f ↦ elim (Bool-cases (atyp == 4)) [
      | inl g ↦
          let (ip, c1, size, front, out, h1) = read-then _ _ c (rw (e, f, g) at h) in
          let value = ok-value h1 in
          let last = ok-state h1 in (Target.ipv6 ip, sym ((==_iff atyp 4).0 g), value, cc, cc, size)
      | inr g ↦ cc (rw (e, f, g) at h)
    ]
  ]
]

dispatch_command-ok :
    (cmd : ℕ) (dst : List ℕ) (port : ℕ) (c : Conn) {served : Served} {after : Conn}
    → dispatch_command cmd dst port c ≡ (ok served, after)
    → (c ≡ after)
      × (((cmd ≡ 1) × (Served.connect dst port ≡ served))
          ⊎ ((cmd ≡ 3) × (Served.udp_associate ≡ served)))
dispatch_command-ok cmd dst port c h = elim (Bool-cases (cmd == 1)) [
  | inl e ↦ let r = rw e at h in (ok-state r, inl ((==_iff cmd 1).0 e, ok-value r))
  | inr e ↦ elim (Bool-cases (cmd == 3)) [
    | inl f ↦ let r = rw (e, f) at h in (ok-state r, inr ((==_iff cmd 3).0 f, ok-value r))
    | inr f ↦ elim (Bool-cases (cmd == 2)) [
      | inl g ↦ let (mid, input, output, rest) = write_all-then _ _ c (rw (e, f, g) at h) in cc
      | inr g ↦ cc (rw (e, f, g) at h)
    ]
  ]
]

-- The request, with the target and the two bytes of the port.
read_request-ok :
    (x : Externals) (ms : List ℕ) (login : Option (List ℕ × List ℕ)) (c : Conn) {served : Served}
    {after : Conn}
    → read_request x c ≡ (ok served, after)
    → (cmd : ℕ) × (hello : Hello) × (hello.methods ≡ ms)
      × (hello.login ≡ login)
      × (c.input ≡ request_bytes cmd hello ++ after.input)
      × (after.output ≡ c.output)
      × IsTarget hello.target
      × Asks x hello served cmd
unfolding read_request
read_request-ok x ms login c {served} {after} h =
    let (v, cmd, rsv, atyp, c1, front1, out1, h1) = read_4-then _ c h in
    let (version, h2) = require-then _ _ _ c1 h1 in
    let (text, c2, e2, h3) = bind-ok (read_address x atyp) _ c1 h2 in
    let (target, kind, is_text, front2, out2, good) = read_address-ok x atyp c1 e2 in
    let (hi, lo, c3, front3, out3, h4) = read_2-then _ c2 h3 in
    let (last, asked) = dispatch_command-ok cmd text (be_u16 hi lo) c3 h4 in
    let five : v ≡ 5 = (==_iff v 5).0 version in
    let hello : Hello = record {
      methods = ms;
      login = login;
      reserved = rsv;
      target = target;
      port_high = hi;
      port_low = lo;
    } in
    let shape : (address_bytes target ++ hi ∷ lo ∷ []) ++ after.input
        ≡ address_bytes target ++ (hi ∷ lo ∷ after.input) =
      append_assoc (address_bytes target) (hi ∷ lo ∷ []) after.input in
    let asks : Asks x hello served cmd = elim asked [
      | inl (one, same) ↦ subst (λ s. Asks x hello s cmd) same (one, sym is_text, refl)
      | inr (three, same) ↦ subst (λ s. Asks x hello s cmd) same three
    ] in
    (cmd, hello, refl, refl, cc, cc, good, asks)

-- The bytes of a whole handshake, one part after the other.
pub hello_parts :
    (cmd : ℕ) (h : Hello) (rest : List ℕ)
    → hello_bytes cmd h ++ rest
      ≡ 5 ∷ length h.methods ∷ (h.methods ++ (login_bytes h.login ++ (request_bytes cmd h ++ rest)))
hello_parts cmd h rest =
    ap (λ r. 5 ∷ length h.methods ∷ r)
      (append_assoc h.methods (login_bytes h.login ++ request_bytes cmd h) rest
        ∙ ap (λ r. h.methods ++ r) (append_assoc (login_bytes h.login) (request_bytes cmd h) rest))

-- The three steps after the version.
greeted :
    (x : Externals) (cfg : Socks5Config) (c c1 : Conn) {served : Served} {after : Conn}
    → c.input ≡ 5 ∷ c1.input
    → c1.output ≡ c.output
    → (negotiate cfg >>= λ m. authenticate_by x cfg m >>= λ user. read_request x) c1
      ≡ (ok served, after)
    → Greeted x cfg c served after
greeted x cfg c c1 {served} {after} front1 out1 h =
    let (m, c2, e2, h2) = bind-ok (negotiate cfg) _ c1 h in
    let (ms, front2, out2, fits) = negotiate-ok cfg c1 e2 in
    let (r, c3, e3, h3) = bind-ok (authenticate_by x cfg m) _ c2 h2 in
    let (login, front3, tail, out3, okay) =
      authenticate_by-ok x cfg (has_auth cfg) ms m c2 refl fits e3 in
    let (cmd, hello, its_ms, its_login, front4, out4, good, asks) =
      read_request-ok x ms login c3 h3 in
    let joined : (c2.output ++ reply_tail login) ≡ c1.output ++ replies login =
      ap (λ r. r ++ reply_tail login) out2
      ∙ append_assoc c1.output (5 ∷ m ∷ []) (reply_tail login)
      ∙ ap (λ r. c1.output ++ r) (sym tail) in
    record {
      hello = hello;
      cmd = cmd;
      input_is = cc (hello_parts cmd hello after.input);
      output_is = cc;
      login_ok =
          subst (λ l. LoginOk x cfg hello.methods l) (sym its_login)
            (subst (λ l. LoginOk x cfg l login) (sym its_ms) okay);
      target_ok = good;
      asks = asks;
    }

-- If the handshake succeeds, then one of these: the first byte begins the name of an HTTP method,
-- nothing else has been read and nothing written, and the connection goes to the HTTP proxy,
-- whatever the configuration; or what was read is a SOCKS5 client's greeting, login and request.
-- In the second case the client has offered the method that the configuration demands, it has sent
-- a name and a password that `validate_credential` accepts if users are configured, the request
-- served is the one it has sent, CONNECT to its target or UDP ASSOCIATE, and it has been sent the
-- method and the acceptance and nothing else.
pub handle_connection-Greeted :
    (x : Externals) (cfg : Socks5Config) (c : Conn) (served : Served) (after : Conn)
    → handle_connection x cfg c ≡ (ok served, after)
    → ((b : ℕ) × (c.input ≡ b ∷ after.input)
        × (is_http_start b ≡ true)
        × (served ≡ Served.http b)
        × (after.output ≡ c.output))
      ⊎ Greeted x cfg c served after
unfolding handle_connection
handle_connection-Greeted x cfg c served after h =
    let (b, c1, front1, out1, h1) = read_1-then _ c h in
    elim (Bool-cases (not (b == 5) && is_http_start b)) [
      | inl e ↦
          let r = rw e at h1 in
          let value = ok-value r in
          let last = ok-state r in
          inl (b, cc, (&&-eq-true (not (b == 5)) (is_http_start b) e).1, sym value, cc)
      | inr e ↦ elim (Bool-cases (b == 5)) [
        | inr f ↦ cc (rw (e, f) at h1)
        | inl f ↦
            let front : c.input ≡ 5 ∷ c1.input =
              front1 ∙ ap (λ v. v ∷ c1.input) ((==_iff b 5).0 f) in
            inr (greeted x cfg c c1 front out1 (rw (e, f) at h1))
      ]
    ]
