-- ===== src/Srtcore/Config/Crypto.antt =====
-- srt-1.5.6/srtcore/socketconfig.cpp: the setters of the encryption.
use srt_vpn.Prelude.{
  ℕ, ◌-◌, ◌/◌, Bool, not, Option, none, some, ◌>>=◌, List, ltb, ◌==◌, ◌&&◌, ◌||◌, if◌then◌else◌,
  take, min,
}
use srt_vpn.Prelude.Ints.{ℤ, pos, int_lt, int_eq, to_nat}
use srt_vpn.Srtcore.Config.{SrtConfig}
use srt_vpn.Srtcore.Config.Cast.{cast_int, cast_bool}

-- `HAICRYPT_SECRET_MAX_SZ`, `HAICRYPT_DEF_KM_REFRESH_RATE` and `HAICRYPT_DEF_KM_PRE_ANNOUNCE`
abbrev pub secret_max_sz : ℕ
secret_max_sz = 80

abbrev pub def_km_refresh_rate : ℕ
def_km_refresh_rate = 0x1000000

abbrev pub def_km_pre_announce : ℕ
def_km_pre_announce = 0x1000

-- `HAICRYPT_SECTYP_PASSPHRASE`
abbrev pub sectyp_passphrase : ℕ
sectyp_passphrase = 2

unfoldable pub set_passphrase : SrtConfig → List ℕ → ℕ → Option SrtConfig
set_passphrase c optval optlen =
    if not (optlen == 0) && (ltb optlen 10 || ltb secret_max_sz optlen)
    then none
    else some (record c {
      crypto_secret = record {
        typ = sectyp_passphrase;
        str = take (min optlen secret_max_sz) optval;
      };
    })

-- The lengths of keys that are allowed.
unfoldable pub allowed_key_len : ℤ → Bool
allowed_key_len v = int_eq v (pos 0) || int_eq v (pos 16) || int_eq v (pos 24) || int_eq v (pos 32)

unfoldable pub set_pbkeylen : SrtConfig → List ℕ → ℕ → Option SrtConfig
set_pbkeylen c optval optlen = do
  v ← cast_int optval optlen
  if allowed_key_len v then some (record c { snd_crypto_key_len = to_nat v }) else none

-- The value that a rate or a distance stands for: 0 is the default.
abbrev pub or_default : ℕ → ℕ → ℕ
or_default default n = if n == 0 then default else n

-- `km_refresh` after SRTO_KMREFRESHRATE, and what it does to the distance
unfoldable pub refresh_pre_announce : ℕ → ℕ → ℕ
refresh_pre_announce rate pre =
    let km_preanno = or_default def_km_pre_announce pre in
    let km_refresh = or_default def_km_refresh_rate rate in
    if pre == 0 && rate == 0
    then pre
    else if pre == 0 || ltb ((km_refresh - 1) / 2) km_preanno
    then (km_refresh - 1) / 2
    else pre

unfoldable pub set_kmrefreshrate : SrtConfig → List ℕ → ℕ → Option SrtConfig
set_kmrefreshrate c optval optlen = do
  val ← cast_int optval optlen
  if int_lt val (pos 0)
      then none
      else some (record c {
        km_refresh_rate_pkt = to_nat val;
        km_pre_announce_pkt = refresh_pre_announce (to_nat val) c.km_pre_announce_pkt;
      })

unfoldable pub set_kmpreannounce : SrtConfig → List ℕ → ℕ → Option SrtConfig
set_kmpreannounce c optval optlen = do
  val ← cast_int optval optlen
  if int_lt val (pos 0)
      then none
      else let km_preanno = or_default def_km_pre_announce (to_nat val) in
        let kmref = or_default def_km_refresh_rate c.km_refresh_rate_pkt in
        if ltb ((kmref - 1) / 2) km_preanno
        then none
        else some (record c { km_pre_announce_pkt = to_nat val })

unfoldable pub set_enforcedencryption : SrtConfig → List ℕ → ℕ → Option SrtConfig
set_enforcedencryption c optval optlen = some (record c { enforced_enc = cast_bool optval optlen })
