-- ===== src/Lib.antt =====
-- srt-vpn: a tunnel for TCP and UDP over SRT, and a model of its core.
--
-- The client takes connections (SOCKS5, HTTP proxy) and opens a session of the tunnel for each. The
-- two sides exchange frames over one SRT connection that delivers messages out of order: a frame
-- carries a session number, an epoch and a number within the session. The multiplexer numbers the
-- frames of the sending side and puts those of each session back into order on the receiving side;
-- the dispatcher routes them into the channels of a registry of sessions; the forwarder cuts UDP
-- datagrams into frames and puts them together again.
--
-- Which file models what (paths from the repository's root):
--   Tunnel.antt: src/tunnel/mod.rs, the frame types and constants.
--   Tunnel/Mux.antt: src/tunnel/multiplex.rs, Frame and MuxEncoder. `next_seq_field` is
--     MuxEncoder::next_seq_field, its session part `session_field`, its choice of an epoch
--     `renew_tx`; `encode_frame` and `encode_ack` are the functions of those names.
--   Tunnel/Mux/Decoder.antt: src/tunnel/multiplex.rs, MuxDecoder. `decode_frame` and `flush_ready`
--     are the functions of those names; `feed` is MuxDecoder::feed and `accept` what it does with a
--     decoded frame, with one function for each arm: `accept_open` for an Open, `accept_current` for
--     a frame of the session's epoch, `accept_first` for the first frame of an epoch,
--     `accept_unknown` where there is no state yet. `run` feeds a row of frames.
--   Tunnel/Mux/Numbering, Wire, Sender: theorems on the encoder. Order, Delivery, Buffers, Isolation,
--     Reassembly, Opening: theorems on the decoder. Gaps: arrivals for which it loses frames.
--     EndToEnd: from the encoder of one side to the decoder of the other.
--   Tunnel/Dispatch.antt: src/tunnel/dispatch.rs, SessionRegistry and dispatch_frame;
--     `remove_session` is SessionRegistry::remove. Its theorems stand in Dispatch/Registry, Counting
--     and Routing.
--   Tunnel/Session.antt: src/tunnel/dispatch.rs, what TunnelSession sends; src/server/forward.rs,
--     parse_open_payload; src/tunnel/multiplex.rs, the heartbeat: `answer_heartbeat` is the branch of
--     src/server/listener.rs and `hear_heartbeat` that of src/client/mod.rs. Its theorems stand in
--     Session/Stream, Open and Heartbeat.
--   Udp.antt, Udp/Reassembler.antt: src/server/forward.rs, the address header, split_udp_frames and
--     UdpReassembler. Its theorems stand in Udp/Fragments, Parts, AnyOrder and RoundTrip.
--   Auth.antt: src/auth/challenge.rs, verify_response and verify_response_dual, with i64 as words
--     that wrap around. Its theorems stand in Auth/Response.
--   Client/Conn.antt: a client's TCP connection, as src/client/socks5.rs uses it: `read_exact` and
--     `write_all` are those of tokio, on the bytes that the peer sends before it closes. Conn/Exact
--     and Conn/Inversion: lemmas on what is composed of them.
--   Client/Socks5.antt: src/client/socks5.rs, handle_connection up to the request; src/config.rs and
--     src/auth/mod.rs where it uses them. `negotiate` is its steps 1 and 2, `authenticate` step 3,
--     `read_request` steps 4 to 6. Socks5/Grammar: the bytes of a client by RFC 1928 and 1929. Its
--     theorems stand in Socks5/Whole, Credential, Sound, Complete and Refused.
--   Config.antt: src/config.rs, the configuration and `validate`. Config/Env is `apply_env` with its
--     parsers, and src/cli.rs, UdpMode. Config/Valid: which configurations are accepted. Overrides:
--     what the environment does to an accepted one. Encryption: src/srt/connection.rs,
--     `set_encryption` for the part of apply_options that hands the passphrase and the length of the
--     key to the options of a socket, as Srtcore/Socket.antt models them.
--   Client/Forward.antt: src/client/proxy.rs, with one constructor of `Event` for each outcome of its
--     select!. Its theorems stand in Forward/Order, Halves, Content and Bytes.
--   Client/Associate.antt: src/client/socks5.rs, start_udp_associate, parse_udp_datagram and the
--     datagrams to the client. Its theorems stand in Associate/Datagram and Replies.
--   Srtcore.antt: srt-1.5.6/srtcore/common.h of the C++ library that is linked into the program:
--     CSeqNo and CAckNo (SeqNo) and RollNumber.
--   Srtcore/Options.antt: srt-1.5.6/srtcore/srt.h and core.cpp, the socket options and the table of
--     their restrictions. Srtcore/Config.antt: socketconfig.h, CSrtConfig; of its
--     children, Cast is cast_optval; Buffers, Network, Delivery, Crypto and Payload are the setters of
--     socketconfig.cpp (`set_x` is CSrtConfigSetter<SRTO_X>::set), Dispatch is dispatchSet; Leaves and
--     Valid hold theorems on the setters.
--   Srtcore/Socket.antt, Socket/GetOpt.antt: core.cpp, CUDT::setOpt and CUDT::getOpt. Their theorems
--     stand in Socket/Calls, Reading, RoundTrip, Restricted, Runs and SndBuf.
--   Srtcore/TsbpdTime.antt: tsbpd_time.cpp, CTsbpdTime. Its theorems stand in TsbpdTime/Unwrap.
--   Srtcore/AckWindow.antt: window.cpp, CACKWindow. AckWindow/Queue is the queue that it promises,
--     AckWindow/Contents, Refines, Runs and InTime show that it does.
--   Prelude.antt: lists, association lists, bytes, integers and Boolean tests. Tests.antt: runs of
--     the functions and the theorems at concrete inputs.
--
-- State is passed explicitly. A machine word is a number below 2^w, with `% 2^w` where the source
-- wraps around; a HashMap or BTreeMap is an association list with one entry for a key. `none` is
-- the result of a call that panics, where the source can. `flush_loop` has the number of waiting
-- frames as fuel: each round takes one out. `allocate_loop` has the 256 rounds of the source, and
-- `chunks_loop` a round for each byte, of which each takes one or more.
--
-- Not modelled: logs and metrics but for the session counters; sockets, tasks and locks, of which
-- each call is one step; the clock, which is an argument; String::from_utf8_lossy, which is the
-- parameter `lossy` of the definitions; the HMAC, which is the parameter `respond`; the calls of
-- libsrt but for the options of a socket; what a session receives; the reading of the configuration
-- from a file, from_env and the command line; the HTTP proxy of the client. Of
-- the C++ library, all but the parts named above: it is the copy that the build links, with
-- encryption and without bonding, the AEAD preview and ENABLE_MAXREXMITBW. The registered packet filters, and what
-- buffers, queues and the crypto control answer to getOpt, are arguments; addDriftSample is left out.
pub mod Prelude
pub mod Tunnel
pub mod Auth
pub mod Udp
pub mod Srtcore
pub mod Tests
pub mod Client
pub mod Config
