-- ===== src/Srtcore/Socket/Reading.antt =====
-- What setOpt stores is what getOpt reads: the values and the lemmas that the options share.
pub mod Numbers
pub mod Others
use srt_vpn.Prelude.{
  ℕ, ◌+◌, ◌-◌, ◌/◌, ◌^◌, ◌≤◌, ◌<◌, false, not, List, take, length, ltb, ◌==◌, ◌&&◌, ◌||◌, min, ◌≡◌,
  refl, ap, arith, ||-eq-false, length-take, take-length, Bool-cases, inl, inr, ltb→lt,
}
use srt_vpn.Prelude.Ints.{ℤ, pos, negsuc, int_lt, int_eq, to_nat}
use srt_vpn.Srtcore.Options.{SockOpt}
use srt_vpn.Srtcore.Config.{
  SrtConfig, cipher_mode_aes_gcm, live_max_plsize, max_sid_length, storage_set,
}
use srt_vpn.Srtcore.Config.Cast.{le_i32, le_i64, le_u32, cast_bool, signed32}
use srt_vpn.Srtcore.Config.Leaves.{Leaves, Leaves-some, Leaves-if, Leaves-sized}
use srt_vpn.Srtcore.Config.Crypto.{
  or_default, def_km_refresh_rate, def_km_pre_announce, set_kmrefreshrate, set_kmpreannounce,
  set_enforcedencryption,
}
use srt_vpn.Srtcore.Config.Payload.{Factory, payload_size_fits, set_payloadsize, set_streamid}
use srt_vpn.Srtcore.Config.Buffers.{set_fc, set_linger}
use srt_vpn.Srtcore.Config.Network.{
  set_sndsyn, set_rcvsyn, set_rendezvous, set_sndtimeo, set_rcvtimeo, set_reuseaddr, set_maxbw,
  set_inputbw, set_oheadbw, set_ipttl, set_iptos, set_conntimeo, set_drifttracer, set_mininputbw,
  set_ipv6only, set_peeridletimeo,
}
use srt_vpn.Srtcore.Config.Delivery.{
  set_sender, set_tsbpdmode, set_latency, set_tlpktdrop, set_snddropdelay, set_nakreport,
  set_lossmaxttl, set_rcvlatency, set_peerlatency, set_minversion, set_messageapi,
  set_retransmitalgo,
}
use srt_vpn.Srtcore.Socket.{Cudt}
use srt_vpn.Srtcore.Socket.GetOpt.{
  OptValue, Got, get_opt, get_opt_middle, get_opt_last, to_int, get_text, payload_size,
}

pub pos-to_nat : (i : ℤ) (n : ℕ) → int_lt i (pos n) ≡ false → pos (to_nat i) ≡ i
pos-to_nat (pos m) n h = refl
pos-to_nat (negsuc m) n h = cc

pub to_int_small : (n : ℕ) → n < 2 ^ 31 → to_int n ≡ pos n
to_int_small n h = ground arith

-- An int that is not negative is below 2^31.
pub to_int-to_nat :
    (u : ℕ) → int_lt (signed32 u) (pos 0) ≡ false → to_int (to_nat (signed32 u)) ≡ signed32 u
to_int-to_nat u h = elim (Bool-cases (ltb u (2 ^ 31))) [
  | inl e ↦ rw e (to_int_small u (ltb→lt u (2 ^ 31) e))
  | inr e ↦ cc (rw e at h)
]

pub roomy : {room : ℕ} → 513 ≤ room → ltb room 8 ≡ false
roomy h = ground arith

pub storage_fits :
    (size : ℕ) (new old : List ℕ) → length new ≤ size → storage_set size new old ≡ new
unfolding storage_set
storage_fits size new old h = ground arith

pub text_whole :
    (stored : List ℕ) (room : ℕ)
    → length stored ≤ 512
    → 513 ≤ room
    → get_text stored room ≡ Got.value (OptValue.text stored)
unfolding get_text
text_whole stored room h k =
    let enough : ltb room (length stored + 1) ≡ false = ground arith in
    let whole : min (length stored) (room - 1) ≡ length stored = omega arith in
    rw (enough, whole, take-length stored) refl

pub payload_size_off : (s : Cudt) → s.connected ≡ false → payload_size s ≡ s.config.exp_payload_size
unfolding payload_size
payload_size_off s h = ground arith

-- The value that a call passes, as its option reads it.
pub data Asked (optval : List ℕ) (optlen : ℕ) : SockOpt → OptValue → Type 0 where
  sndsyn : Asked optval optlen SockOpt.sndsyn (OptValue.flag (cast_bool optval optlen))
  rcvsyn : Asked optval optlen SockOpt.rcvsyn (OptValue.flag (cast_bool optval optlen))
  fc : Asked optval optlen SockOpt.fc (OptValue.int32 (le_i32 optval 0))
  linger :
      Asked optval optlen SockOpt.linger
        (OptValue.lingers (record { onoff = le_i32 optval 0; linger_s = le_i32 optval 4 }))
  rendezvous : Asked optval optlen SockOpt.rendezvous (OptValue.flag (cast_bool optval optlen))
  sndtimeo : Asked optval optlen SockOpt.sndtimeo (OptValue.int32 (le_i32 optval 0))
  rcvtimeo : Asked optval optlen SockOpt.rcvtimeo (OptValue.int32 (le_i32 optval 0))
  reuseaddr : Asked optval optlen SockOpt.reuseaddr (OptValue.flag (cast_bool optval optlen))
  maxbw : Asked optval optlen SockOpt.maxbw (OptValue.int64 (le_i64 optval))
  sender : Asked optval optlen SockOpt.sender (OptValue.flag (cast_bool optval optlen))
  tsbpdmode : Asked optval optlen SockOpt.tsbpdmode (OptValue.flag (cast_bool optval optlen))
  latency : Asked optval optlen SockOpt.latency (OptValue.int32 (le_i32 optval 0))
  inputbw : Asked optval optlen SockOpt.inputbw (OptValue.int64 (le_i64 optval))
  oheadbw : Asked optval optlen SockOpt.oheadbw (OptValue.int32 (le_i32 optval 0))
  ipttl : Asked optval optlen SockOpt.ipttl (OptValue.int32 (le_i32 optval 0))
  iptos : Asked optval optlen SockOpt.iptos (OptValue.int32 (le_i32 optval 0))
  tlpktdrop : Asked optval optlen SockOpt.tlpktdrop (OptValue.flag (cast_bool optval optlen))
  snddropdelay : Asked optval optlen SockOpt.snddropdelay (OptValue.int32 (le_i32 optval 0))
  nakreport : Asked optval optlen SockOpt.nakreport (OptValue.flag (cast_bool optval optlen))
  conntimeo : Asked optval optlen SockOpt.conntimeo (OptValue.int32 (le_i32 optval 0))
  drifttracer : Asked optval optlen SockOpt.drifttracer (OptValue.flag (cast_bool optval optlen))
  mininputbw : Asked optval optlen SockOpt.mininputbw (OptValue.int64 (le_i64 optval))
  lossmaxttl : Asked optval optlen SockOpt.lossmaxttl (OptValue.int32 (le_i32 optval 0))
  rcvlatency : Asked optval optlen SockOpt.rcvlatency (OptValue.int32 (le_i32 optval 0))
  peerlatency : Asked optval optlen SockOpt.peerlatency (OptValue.int32 (le_i32 optval 0))
  minversion : Asked optval optlen SockOpt.minversion (OptValue.uint32 (le_u32 optval 0))
  streamid : Asked optval optlen SockOpt.streamid (OptValue.text (take optlen optval))
  messageapi : Asked optval optlen SockOpt.messageapi (OptValue.flag (cast_bool optval optlen))
  payloadsize : Asked optval optlen SockOpt.payloadsize (OptValue.int32 (le_i32 optval 0))
  kmrefreshrate : Asked optval optlen SockOpt.kmrefreshrate (OptValue.int32 (le_i32 optval 0))
  kmpreannounce : Asked optval optlen SockOpt.kmpreannounce (OptValue.int32 (le_i32 optval 0))
  enforcedencryption :
      Asked optval optlen SockOpt.enforcedencryption (OptValue.flag (cast_bool optval optlen))
  ipv6only : Asked optval optlen SockOpt.ipv6only (OptValue.int32 (le_i32 optval 0))
  peeridletimeo : Asked optval optlen SockOpt.peeridletimeo (OptValue.int32 (le_i32 optval 0))
  retransmitalgo : Asked optval optlen SockOpt.retransmitalgo (OptValue.int32 (le_i32 optval 0))

-- From a configuration, the option is read as that value by a caller with room for any string.
abbrev pub Reads : Cudt → SockOpt → OptValue → SrtConfig → Type 0
Reads s name w c =
    (r : ℤ) (room : ℕ)
    → 513 ≤ room
    → get_opt (record s { config = c; reorder_tolerance = r }) name room ≡ Got.value w
