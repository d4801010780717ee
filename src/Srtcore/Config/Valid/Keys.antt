-- ===== src/Srtcore/Config/Valid/Keys.antt =====
-- What the setters of the encryption keep.
use srt_vpn.Prelude.{
  ℕ, ◌-◌, ◌/◌, ◌≤◌, true, false, not, List, ltb, ◌==◌, ◌&&◌, ◌||◌, length, take, ◌≡◌, inl, inr,
  arith, min, ℕ_eq-cases, length-take,
}
use srt_vpn.Prelude.Ints.{ℤ, pos, negsuc, int_lt, to_nat}
use srt_vpn.Srtcore.Config.{SrtConfig}
use srt_vpn.Srtcore.Config.Cast.{cast_int}
use srt_vpn.Srtcore.Config.Leaves.{Leaves-bind, Leaves-if, Leaves-some, Leaves-when}
use srt_vpn.Srtcore.Config.Valid.{IsValid, Keeps, SecretValid, KmValid}
use srt_vpn.Srtcore.Config.Crypto.{
  set_passphrase, set_pbkeylen, set_kmrefreshrate, set_kmpreannounce, allowed_key_len,
  refresh_pre_announce, or_default, def_km_refresh_rate, def_km_pre_announce, secret_max_sz,
}

allowed-to_nat : (z : ℤ) → allowed_key_len z ≡ true → allowed_key_len (pos (to_nat z)) ≡ true
unfolding allowed_key_len
allowed-to_nat (pos n) h = h
allowed-to_nat (negsuc n) h = cc

-- A new rate leaves a distance of half of it at most.
refresh_pre_announce-KmValid : (rate pre : ℕ) → KmValid rate (refresh_pre_announce rate pre)
unfolding refresh_pre_announce
refresh_pre_announce-KmValid rate pre = elim (ℕ_eq-cases rate 0) [
  | inl h ↦ ground arith
  | inr h ↦ ground arith
]

pub secret-SecretValid :
    (optval : List ℕ) (optlen : ℕ)
    → optlen ≤ length optval
    → (not (optlen == 0) && (ltb optlen 10 || ltb secret_max_sz optlen)) ≡ false
    → SecretValid (take (min optlen secret_max_sz) optval)
secret-SecretValid optval optlen fits h =
    ground (arith, length-take (min optlen secret_max_sz) optval)

module _ {cap : ℕ} (c : SrtConfig) (v : IsValid cap c) (optval : List ℕ) (optlen : ℕ) where
  pub set_passphrase-Keeps : optlen ≤ length optval → Keeps cap (set_passphrase c optval optlen)
  unfolding set_passphrase
  set_passphrase-Keeps fits =
      Leaves-if (not (optlen == 0) && (ltb optlen 10 || ltb secret_max_sz optlen)) _ (λ h.
        Leaves-some _ (v.0, v.1, (v.2.0, secret-SecretValid optval optlen fits h, v.2.2), v.3))

  pub set_pbkeylen-Keeps : Keeps cap (set_pbkeylen c optval optlen)
  unfolding set_pbkeylen
  set_pbkeylen-Keeps = Leaves-bind (cast_int optval optlen) _ (λ z.
      Leaves-when (allowed_key_len z) _
        (λ h. Leaves-some _ (v.0, v.1, (allowed-to_nat z h, v.2.1, v.2.2), v.3)))

  pub set_kmrefreshrate-Keeps : Keeps cap (set_kmrefreshrate c optval optlen)
  unfolding set_kmrefreshrate
  set_kmrefreshrate-Keeps = Leaves-bind (cast_int optval optlen) _ (λ z.
      Leaves-if (int_lt z (pos 0)) _ (λ h. Leaves-some _ (
        v.0,
        v.1,
        (v.2.0, v.2.1, refresh_pre_announce-KmValid (to_nat z) c.km_pre_announce_pkt),
        v.3,
      )))

  pub set_kmpreannounce-Keeps : Keeps cap (set_kmpreannounce c optval optlen)
  unfolding set_kmpreannounce
  set_kmpreannounce-Keeps = Leaves-bind (cast_int optval optlen) _ (λ z.
      Leaves-if (int_lt z (pos 0)) _ (λ g.
        Leaves-if
          (ltb ((or_default def_km_refresh_rate c.km_refresh_rate_pkt - 1) / 2)
            (or_default def_km_pre_announce (to_nat z)))
          _ (λ h. Leaves-some _ (v.0, v.1, (v.2.0, v.2.1, inl (ground arith)), v.3))))
