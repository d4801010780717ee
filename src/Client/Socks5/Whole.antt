-- ===== src/Client/Socks5/Whole.antt =====
-- The handshake reads a part of the input that does not depend on what follows it.
use srt_vpn.Prelude.{Bool, true, false, List, ℕ, ◌≡◌, subst}
use srt_vpn.Config.{Socks5Config}
use srt_vpn.Client.Conn.{Conn, ok}
use srt_vpn.Client.Conn.Exact.{Exact, Reads, ReadsIf, exact}
use srt_vpn.Client.Socks5.{
  Externals, Served, negotiate, authenticate, authenticate_by, answer_credential, read_address,
  read_request, dispatch_command, handle_connection,
}

negotiate-Exact : (cfg : Socks5Config) → Exact (negotiate cfg)
unfolding negotiate
negotiate-Exact cfg = search exact

answer_credential-Exact : (b : Bool) (username : List ℕ) → Exact (answer_credential b username)
answer_credential-Exact true username = search exact
answer_credential-Exact false username = search exact

authenticate_by-Exact :
    (x : Externals) (cfg : Socks5Config) (method : ℕ) → Exact (authenticate_by x cfg method)
unfolding authenticate
authenticate_by-Exact x cfg method = search (exact, answer_credential-Exact) depth 14

read_address-Exact : (x : Externals) (atyp : ℕ) → Exact (read_address x atyp)
unfolding read_address
read_address-Exact x atyp = search exact

dispatch_command-Exact : (cmd : ℕ) (dst : List ℕ) (port : ℕ) → Exact (dispatch_command cmd dst port)
dispatch_command-Exact cmd dst port = search exact depth 14

read_request-Exact : (x : Externals) → Exact (read_request x)
unfolding read_request
read_request-Exact x = search (exact, read_address-Exact, dispatch_command-Exact) depth 14

-- If the handshake on a connection succeeds, it has read some bytes from the front of the input and
-- left the others to the one who serves the request: it succeeds with the same request, the same
-- bytes written and the new input left whatever comes after these bytes, and if only a part of
-- them comes before the client closes, it fails.
pub handle_connection-Reads :
    (x : Externals) (cfg : Socks5Config) (c : Conn) (served : Served) (after : Conn)
    → handle_connection x cfg c ≡ (ok served, after)
    → Reads (handle_connection x cfg) c served after
unfolding handle_connection
handle_connection-Reads x cfg c served after e =
    let whole : Exact (handle_connection x cfg) =
      search (exact, negotiate-Exact, authenticate_by-Exact, read_request-Exact) depth 14 in
    subst (ReadsIf (handle_connection x cfg) c) e (whole c)
