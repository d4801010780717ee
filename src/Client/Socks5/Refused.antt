-- ===== src/Client/Socks5/Refused.antt =====
-- A login that is not accepted.
use srt_vpn.Prelude.{
  ℕ, ◌≤◌, true, false, none, List, [], ◌∷◌, ◌++◌, length, In, ◌≡◌, refl, ap, ◌∙◌, arith,
  append_assoc,
}
use srt_vpn.Config.{Socks5Config, has_auth}
use srt_vpn.Client.Conn.{Conn, Error, err, read_exact}
use srt_vpn.Client.Conn.Exact.{with_input, read_exact_front}
use srt_vpn.Client.Socks5.{
  Externals, authenticate, handle_connection, validate_credential, select_method,
}
use srt_vpn.Client.Socks5.Grammar.{login_bytes}
use srt_vpn.Client.Socks5.Complete.{wrote, write_all_run, select_with_run, negotiate_run}
use mathlib.Core.Option.{some}

authenticate_refused :
    (x : Externals) (cfg : Socks5Config) (user pass : List ℕ) (c : Conn) (more : List ℕ)
    → validate_credential x (x.lossy user) (x.lossy pass) cfg ≡ false
    → 2 ≤ c.room
    → authenticate x cfg (with_input c (1 ∷ length user ∷ (user ++ (length pass ∷ (pass ++ more)))))
      ≡ (err Error.auth_failed, wrote c (1 ∷ 1 ∷ []) more)
unfolding authenticate
authenticate_refused x cfg user pass c more invalid h =
    rw
      (
        read_exact_front c (1 ∷ length user ∷ []) (user ++ (length pass ∷ (pass ++ more))),
        read_exact_front c user (length pass ∷ (pass ++ more)),
        read_exact_front c (length pass ∷ []) (pass ++ more),
        read_exact_front c pass more,
        invalid,
        write_all_run (1 ∷ 1 ∷ []) c more h,
      )
      refl

-- If users are configured, a client that offers the method of names and passwords and sends ones
-- that `validate_credential` does not accept is told so, in the two replies of the handshake, and
-- the handshake fails, whatever the client sends behind them; the connection takes the replies.
pub invalid_login_refused :
    (x : Externals) (cfg : Socks5Config) (ms user pass : List ℕ) (c : Conn) (more : List ℕ)
    → c.input ≡ 5 ∷ length ms ∷ (ms ++ (login_bytes (some (user, pass)) ++ more))
    → has_auth cfg ≡ true
    → In 2 ms
    → validate_credential x (x.lossy user) (x.lossy pass) cfg ≡ false
    → 4 ≤ c.room
    → (after : Conn) × (handle_connection x cfg c ≡ (err Error.auth_failed, after))
      × (after.output ≡ c.output ++ 5 ∷ 2 ∷ 1 ∷ 1 ∷ [])
unfolding handle_connection
invalid_login_refused x cfg ms user pass c more front users offered invalid room =
    let tail = login_bytes (some (user, pass)) ++ more in
    let d : Conn = wrote c (5 ∷ 2 ∷ []) tail in
    let selected = ap (λ b. select_method b none ms) users ∙ select_with_run ms offered in
    (
      wrote d (1 ∷ 1 ∷ []) more,
      rw
          (
            ap (λ i. read_exact 1 (with_input c i)) front,
            read_exact_front c (5 ∷ []) (length ms ∷ (ms ++ tail)),
            negotiate_run cfg 2 ms c tail selected (omega arith),
            append_assoc user (length pass ∷ pass) more,
            authenticate_refused x cfg user pass d more invalid (omega arith),
          )
          refl,
      append_assoc c.output (5 ∷ 2 ∷ []) (1 ∷ 1 ∷ []),
    )
