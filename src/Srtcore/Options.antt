-- ===== src/Srtcore/Options.antt =====
-- srt-1.5.6/srtcore/srt.h and core.cpp: the numbers of the socket options (SRT_SOCKOPT), and the
-- table that says until when each can be set (SrtOptionAction). The build has encryption, and
-- neither bonding nor the preview of AEAD nor ENABLE_MAXREXMITBW; it is for Linux.
use srt_vpn.Prelude.{ℕ, List, [], ◌∷◌, Bool, ◌==◌, bit_and}
use srt_vpn.Prelude.Ints.{ℤ, pos}

-- `undefined z` is a value of the enum's type that has no enumerator.
pub data SockOpt : Type 0 where
  mss sndsyn rcvsyn isn fc sndbuf rcvbuf linger udp_sndbuf udp_rcvbuf rendezvous : SockOpt
  sndtimeo rcvtimeo reuseaddr maxbw state event snddata rcvdata sender tsbpdmode : SockOpt
  latency inputbw oheadbw passphrase pbkeylen kmstate ipttl iptos tlpktdrop : SockOpt
  snddropdelay nakreport version peerversion conntimeo drifttracer mininputbw : SockOpt
  sndkmstate rcvkmstate lossmaxttl rcvlatency peerlatency minversion streamid : SockOpt
  congestion messageapi payloadsize transtype kmrefreshrate kmpreannounce : SockOpt
  enforcedencryption ipv6only peeridletimeo bindtodevice groupconnect : SockOpt
  groupminstabletimeo grouptype packetfilter retransmitalgo : SockOpt
  undefined : ℤ → SockOpt

unfoldable pub code : SockOpt → ℤ
code SockOpt.mss = pos 0
code SockOpt.sndsyn = pos 1
code SockOpt.rcvsyn = pos 2
code SockOpt.isn = pos 3
code SockOpt.fc = pos 4
code SockOpt.sndbuf = pos 5
code SockOpt.rcvbuf = pos 6
code SockOpt.linger = pos 7
code SockOpt.udp_sndbuf = pos 8
code SockOpt.udp_rcvbuf = pos 9
code SockOpt.rendezvous = pos 12
code SockOpt.sndtimeo = pos 13
code SockOpt.rcvtimeo = pos 14
code SockOpt.reuseaddr = pos 15
code SockOpt.maxbw = pos 16
code SockOpt.state = pos 17
code SockOpt.event = pos 18
code SockOpt.snddata = pos 19
code SockOpt.rcvdata = pos 20
code SockOpt.sender = pos 21
code SockOpt.tsbpdmode = pos 22
code SockOpt.latency = pos 23
code SockOpt.inputbw = pos 24
code SockOpt.oheadbw = pos 25
code SockOpt.passphrase = pos 26
code SockOpt.pbkeylen = pos 27
code SockOpt.kmstate = pos 28
code SockOpt.ipttl = pos 29
code SockOpt.iptos = pos 30
code SockOpt.tlpktdrop = pos 31
code SockOpt.snddropdelay = pos 32
code SockOpt.nakreport = pos 33
code SockOpt.version = pos 34
code SockOpt.peerversion = pos 35
code SockOpt.conntimeo = pos 36
code SockOpt.drifttracer = pos 37
code SockOpt.mininputbw = pos 38
code SockOpt.sndkmstate = pos 40
code SockOpt.rcvkmstate = pos 41
code SockOpt.lossmaxttl = pos 42
code SockOpt.rcvlatency = pos 43
code SockOpt.peerlatency = pos 44
code SockOpt.minversion = pos 45
code SockOpt.streamid = pos 46
code SockOpt.congestion = pos 47
code SockOpt.messageapi = pos 48
code SockOpt.payloadsize = pos 49
code SockOpt.transtype = pos 50
code SockOpt.kmrefreshrate = pos 51
code SockOpt.kmpreannounce = pos 52
code SockOpt.enforcedencryption = pos 53
code SockOpt.ipv6only = pos 54
code SockOpt.peeridletimeo = pos 55
code SockOpt.bindtodevice = pos 56
code SockOpt.groupconnect = pos 57
code SockOpt.groupminstabletimeo = pos 58
code SockOpt.grouptype = pos 59
code SockOpt.packetfilter = pos 60
code SockOpt.retransmitalgo = pos 61
code (SockOpt.undefined z) = z

-- `SRTO_E_SIZE`
abbrev pub e_size : ℕ
e_size = 62

abbrev pub r_prebind : ℕ
r_prebind = 1

abbrev pub r_pre : ℕ
r_pre = 2

abbrev pub post_spec : ℕ
post_spec = 4

abbrev pub is_set : ℕ → ℕ → Bool
is_set bitset flagset = bit_and bitset flagset == flagset

-- `s_sockopt_action.flags`
unfoldable pub flags : SockOpt → ℕ
flags SockOpt.mss = r_prebind
flags SockOpt.fc = r_pre
flags SockOpt.sndbuf = r_prebind
flags SockOpt.rcvbuf = r_prebind
flags SockOpt.udp_sndbuf = r_prebind
flags SockOpt.udp_rcvbuf = r_prebind
flags SockOpt.rendezvous = r_pre
flags SockOpt.reuseaddr = r_prebind
flags SockOpt.maxbw = post_spec
flags SockOpt.sender = r_pre
flags SockOpt.tsbpdmode = r_pre
flags SockOpt.latency = r_pre
flags SockOpt.inputbw = post_spec
flags SockOpt.oheadbw = post_spec
flags SockOpt.passphrase = r_pre
flags SockOpt.pbkeylen = r_pre
flags SockOpt.ipttl = r_prebind
flags SockOpt.iptos = r_prebind
flags SockOpt.tlpktdrop = r_pre
flags SockOpt.snddropdelay = post_spec
flags SockOpt.nakreport = r_pre
flags SockOpt.version = r_pre
flags SockOpt.conntimeo = r_pre
flags SockOpt.mininputbw = post_spec
flags SockOpt.lossmaxttl = post_spec
flags SockOpt.rcvlatency = r_pre
flags SockOpt.peerlatency = r_pre
flags SockOpt.minversion = r_pre
flags SockOpt.streamid = r_pre
flags SockOpt.congestion = r_pre
flags SockOpt.messageapi = r_pre
flags SockOpt.payloadsize = r_pre
flags SockOpt.transtype = r_prebind
flags SockOpt.kmrefreshrate = r_pre
flags SockOpt.kmpreannounce = r_pre
flags SockOpt.enforcedencryption = r_pre
flags SockOpt.ipv6only = r_prebind
flags SockOpt.peeridletimeo = r_pre
flags SockOpt.bindtodevice = r_prebind
flags SockOpt.packetfilter = r_pre
flags SockOpt.retransmitalgo = r_pre
flags _ = 0

-- `srt_post_opt_list`, the options that can still be set on a connected socket
unfoldable pub post_opt_list : List SockOpt
post_opt_list =
    SockOpt.sndsyn ∷ SockOpt.rcvsyn ∷ SockOpt.linger ∷ SockOpt.sndtimeo ∷ SockOpt.rcvtimeo
    ∷ SockOpt.maxbw ∷ SockOpt.inputbw ∷ SockOpt.oheadbw ∷ SockOpt.snddropdelay ∷ SockOpt.drifttracer
    ∷ SockOpt.mininputbw ∷ SockOpt.lossmaxttl ∷ []
