-- ===== src/Srtcore/Config/Valid.antt =====
-- The options stay in their ranges: the invariant of socketconfig.cpp, and what keeps it.
pub mod Sizes
pub mod Ranges
pub mod Keys
pub mod EveryOption
use srt_vpn.Prelude.{
  ℕ, ◌+◌, ◌-◌, ◌*◌, ◌/◌, ◌^◌, ◌≤◌, ◌<◌, Bool, true, false, not, Option, none, some, ◌>>=◌, List, [],
  ◌∷◌, ltb, ◌==◌, ◌&&◌, ◌||◌, if◌then◌else◌, length, subst, ap, ◌≡◌, refl, ◌⊎◌, inl, inr, arith,
  Option-cases, Bool-cases,
}
use srt_vpn.Prelude.Ints.{ℤ, pos, negsuc, int_lt, int_eq}
use srt_vpn.Srtcore.Config.{
  SrtConfig, MuxerConfig, live_max_plsize, max_sid_length, max_pfilter_length, max_cong_length,
  udp_hdr_size, content_size, def_min_flight_pkt, default_config, storage_set,
}
use srt_vpn.Srtcore.Config.Leaves.{Leaves}
use srt_vpn.Srtcore.Config.Crypto.{
  allowed_key_len, secret_max_sz, or_default, def_km_refresh_rate, def_km_pre_announce,
}

-- The largest packet for which the size of 32 packets does not overflow an int.
abbrev pub mss_sound : ℕ
mss_sound = 2 ^ 26 + 27

-- A packet holds the handshake, has `cap` bytes at most and fits both buffers of the UDP socket. If
-- no packet is too large, the receiver's buffer has 32 packets.
abbrev pub SizesValid : ℕ → SrtConfig → Type 0
SizesValid cap c =
    (udp_hdr_size + content_size ≤ c.mss)
    × (c.mss ≤ c.muxer.udp_snd_buf_size)
    × (c.mss ≤ c.muxer.udp_rcv_buf_size)
    × (def_min_flight_pkt ≤ c.flight_flag_size)
    × ((mss_sound < cap) ⊎ (def_min_flight_pkt ≤ c.rcv_buf_size))
    × (c.exp_payload_size ≤ live_max_plsize)
    × (c.mss ≤ cap)

-- -1, or from 1 to 255
abbrev pub valid_ttl : ℤ → Bool
valid_ttl z = int_eq z (negsuc 0) || (not (int_lt z (pos 1)) && not (int_lt (pos 255) z))

-- Limits from -1 on.
abbrev pub LimitsValid : SrtConfig → Type 0
LimitsValid c =
    (int_lt c.snd_time_out (negsuc 0) ≡ false)
    × (int_lt c.rcv_time_out (negsuc 0) ≡ false)
    × (int_lt c.snd_drop_delay (negsuc 0) ≡ false)
    × (int_lt c.max_bw (negsuc 0) ≡ false)
    × (valid_ttl c.muxer.ip_ttl ≡ true)

-- The announcement of a key comes in the first half of the life of the one before, but for the
-- rates 1 and 2, which leave the distance 0.
abbrev pub KmValid : ℕ → ℕ → Type 0
KmValid rate pre =
    (or_default def_km_pre_announce pre ≤ (or_default def_km_refresh_rate rate - 1) / 2)
    ⊎ ((pre ≡ 0) × (1 ≤ rate) × (rate ≤ 2))

-- No passphrase, or one of 10 to 80 bytes.
abbrev pub SecretValid : List ℕ → Type 0
SecretValid str = (length str ≡ 0) ⊎ ((10 ≤ length str) × (length str ≤ secret_max_sz))

abbrev pub CryptoValid : SrtConfig → Type 0
CryptoValid c =
    (allowed_key_len (pos c.snd_crypto_key_len) ≡ true)
    × SecretValid c.crypto_secret.str
    × KmValid c.km_refresh_rate_pkt c.km_pre_announce_pkt

abbrev pub RestValid : SrtConfig → Type 0
RestValid c =
    (length c.congestion ≤ max_cong_length)
    × (length c.packet_filter_config ≤ max_pfilter_length)
    × (length c.stream_name ≤ max_sid_length)
    × (5 ≤ c.overhead_bw)
    × (c.overhead_bw ≤ 100)
    × (c.retransmit_algo ≤ 1)

abbrev pub IsValid : ℕ → SrtConfig → Type 0
IsValid cap c = SizesValid cap c × LimitsValid c × CryptoValid c × RestValid c

-- What a setter leaves is valid, where it does not throw.
abbrev pub Keeps : ℕ → Option SrtConfig → Type 0
Keeps cap o = Leaves (IsValid cap) o

-- A string that is stored is as long as its storage at most.
pub length-storage_set :
    (size : ℕ) (s old : List ℕ) → length old ≤ size → length (storage_set size s old) ≤ size
unfolding storage_set
length-storage_set size s old h = ground arith

-- `CSrtConfig()` is valid.
pub default_config-IsValid : (cap version : ℕ) → 1500 ≤ cap → IsValid cap (default_config version)
unfolding default_config storage_set allowed_key_len
default_config-IsValid cap version h = (
  (omega arith, omega arith, omega arith, omega arith, inr (omega arith), omega arith, omega arith),
  (refl, refl, refl, refl, refl),
  (refl, inl refl, inl (ground arith)),
  (omega arith, omega arith, omega arith, omega arith, omega arith, omega arith),
)
