-- ===== src/Srtcore/Config/Payload.antt =====
-- srt-1.5.6/srtcore/socketconfig.cpp, packetfilter.cpp, common.cpp and congctl.h: the setters of the
-- strings and of the size of the payload. `filters` is the table of the packet filters that are
-- registered when the call is made.
use srt_vpn.Prelude.{
  ℕ, ◌+◌, ◌-◌, ◌%◌, ◌^◌, Bool, true, false, not, Option, none, some, ◌>>=◌, List, [], ◌∷◌, ltb, leb,
  ◌==◌, ◌&&◌, ◌||◌, if◌then◌else◌, take, get, insert,
}
use srt_vpn.Prelude.Ints.{pos, int_lt, to_nat}
use srt_vpn.Prelude.Bytes.{bytes_eq, list_eq}
use srt_vpn.Srtcore.Config.{
  SrtConfig, live_max_plsize, max_sid_length, max_pfilter_length, max_cong_length,
  cipher_mode_aes_gcm, storage_set, live_name, file_name,
}
use srt_vpn.Srtcore.Config.Cast.{cast_int}

-- `SrtFilterConfig`
pub record FilterConfig : Type 0 where
  pub typ : List ℕ
  pub parameters : List (List ℕ × List ℕ)
  pub extra_size : ℕ

-- `PacketFilter::Factory`, the two members that the options use
pub record Factory : Type 0 where
  pub factory_extra_size : ℕ
  pub verify_config : FilterConfig → Bool

-- `Split`, the parts of a string that is not empty
unfoldable pub parts : ℕ → List ℕ → List (List ℕ)
parts delimiter [] = [] ∷ []
parts delimiter (x ∷ xs) =
    let rest = parts delimiter xs in if x == delimiter then [] ∷ rest else to_first x rest
  where
    to_first : ℕ → List (List ℕ) → List (List ℕ)
    to_first x [] = (x ∷ []) ∷ []
    to_first x (p ∷ ps) = (x ∷ p) ∷ ps

unfoldable pub split : ℕ → List ℕ → List (List ℕ)
split delimiter [] = []
split delimiter (x ∷ xs) = parts delimiter (x ∷ xs)

-- One `key:value` of a filter's configuration.
unfoldable pub add_parameter :
    List (List ℕ) → List (List ℕ × List ℕ) → Option (List (List ℕ × List ℕ))
add_parameter (key ∷ [] ∷ []) params = some params
add_parameter (key ∷ (v ∷ value) ∷ []) params = some (insert key (v ∷ value) params)
add_parameter _ params = none

-- The loop of `SrtParseConfig`; 58 is `:`.
unfoldable pub parse_parameters :
    List (List ℕ) → List (List ℕ × List ℕ) → Option (List (List ℕ × List ℕ))
parse_parameters [] params = some params
parse_parameters (i ∷ is) params = do
  more ← add_parameter (split 58 i) params
  parse_parameters is more

-- `SrtParseConfig`, on a configuration without parameters; 44 is `,`.
unfoldable pub srt_parse_config : List ℕ → Option FilterConfig
srt_parse_config s = with_type (split 44 s)
  where
    with_type : List (List ℕ) → Option FilterConfig
    with_type [] = none
    with_type (t ∷ is) = do
      params ← parse_parameters is []
      some (record { typ = t; parameters = params; extra_size = 0 })

-- `PacketFilter::Internal::ParseConfig`
unfoldable pub parse_config : List (List ℕ × Factory) → List ℕ → Option (FilterConfig × Factory)
parse_config filters s = do
  config ← srt_parse_config s
  fac ← get (config.typ) filters
  some (record config { extra_size = fac.factory_extra_size }, fac)

-- `SRT_LIVE_MAX_PLSIZE - fc.extra_size` on size_t
abbrev pub efc_max_payload_size : FilterConfig → ℕ
efc_max_payload_size fc = (live_max_plsize + (2 ^ 64 - fc.extra_size % 2 ^ 64)) % 2 ^ 64

-- `HAICRYPT_AUTHTAG_MAX`
abbrev pub authtag_max : ℕ
authtag_max = 16

-- `CSrtConfig::payloadSizeFits`, its test of the installed filter and all of it
unfoldable pub filter_leaves : List (List ℕ × Factory) → List ℕ → ℕ → Bool
filter_leaves filters [] val = true
filter_leaves filters (x ∷ xs) val = elim (parse_config filters (x ∷ xs)) [
  | none ↦ false
  | some (fc, _) ↦ leb val (efc_max_payload_size fc)
]

unfoldable pub payload_size_fits : List (List ℕ × Factory) → SrtConfig → ℕ → Bool
payload_size_fits filters c val =
    filter_leaves filters c.packet_filter_config val
    && not (c.crypto_mode == cipher_mode_aes_gcm && ltb (live_max_plsize - authtag_max) val)

-- `SrtCongestion::exists`: the table has "live" and "file".
unfoldable pub congestion_exists : List ℕ → Bool
congestion_exists name = bytes_eq live_name name || bytes_eq file_name name

-- "vod", an alias of "file"
abbrev pub vod_name : List ℕ
vod_name = 118 ∷ 111 ∷ 100 ∷ []

unfoldable pub set_streamid : SrtConfig → List ℕ → ℕ → Option SrtConfig
set_streamid c optval optlen =
    if ltb max_sid_length optlen
    then none
    else some
        (record c { stream_name = storage_set max_sid_length (take optlen optval) c.stream_name })

unfoldable pub set_congestion : SrtConfig → List ℕ → ℕ → Option SrtConfig
set_congestion c optval optlen =
    let given = take optlen optval in
    let val = if bytes_eq given vod_name then file_name else given in
    if not (congestion_exists val)
    then none
    else some (record c { congestion = storage_set max_cong_length val c.congestion })

unfoldable pub set_payloadsize : List (List ℕ × Factory) → SrtConfig → List ℕ → ℕ → Option SrtConfig
set_payloadsize filters c optval optlen = do
  val ← cast_int optval optlen
  if int_lt val (pos 0)
      then none
      else if int_lt (pos live_max_plsize) val
      then none
      else if not (payload_size_fits filters c (to_nat val))
      then none
      else some (record c { exp_payload_size = to_nat val })

-- The part of the setter after the configuration is parsed.
unfoldable pub install_filter : SrtConfig → List ℕ → FilterConfig × Factory → Option SrtConfig
install_filter c arg (fc, fax) =
    if not (fax.verify_config fc)
    then none
    else some (record c {
      exp_payload_size =
          if ltb (efc_max_payload_size fc) c.exp_payload_size
          then efc_max_payload_size fc
          else c.exp_payload_size;
      packet_filter_config = storage_set max_pfilter_length arg c.packet_filter_config;
    })

unfoldable pub set_packetfilter :
    List (List ℕ × Factory) → SrtConfig → List ℕ → ℕ → Option SrtConfig
set_packetfilter filters c optval optlen = do
  parsed ← parse_config filters (take optlen optval)
  install_filter c (take optlen optval) parsed
