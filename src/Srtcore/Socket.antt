-- ===== src/Srtcore/Socket.antt =====
-- srt-1.5.6/srtcore/core.cpp: the options of a socket, CUDT::setOpt. The state has the members of
-- CUDT that the options read or write. What the buffers, the sending queue, the crypto control and
-- the table of sockets answer when the call is made are fields too. The locks that make a call
-- atomic are not modelled.
pub mod GetOpt
pub mod Reading
pub mod Calls
pub mod RoundTrip
pub mod Restricted
pub mod Runs
pub mod SndBuf
use srt_vpn.Prelude.{ℕ, Bool, true, false, not, Option, List, [], ◌∷◌, ◌&&◌, ◌||◌, if◌then◌else◌}
use srt_vpn.Prelude.Ints.{ℤ, pos, int_lt}
use srt_vpn.Srtcore.Options.{SockOpt, code, e_size, r_prebind, r_pre, post_spec, is_set, flags}
use srt_vpn.Srtcore.Config.{SrtConfig}
use srt_vpn.Srtcore.Config.Payload.{Factory}
use srt_vpn.Srtcore.Config.Dispatch.{SetResult, dispatch_set}

-- What the crypto control answers: KeyLen, m_SndKmState and m_RcvKmState.
pub record CryptoView : Type 0 where
  pub key_len : ℕ
  pub snd_km_state : ℕ
  pub rcv_km_state : ℕ

pub record Cudt : Type 0 where
  pub broken : Bool
  pub closing : Bool
  pub opened : Bool
  pub connected : Bool
  pub connecting : Bool
  pub listening : Bool
  pub config : SrtConfig
  pub reorder_tolerance : ℤ
  pub isn : ℕ
  pub ts_pd_delay_ms : ℕ
  pub peer_ts_pd_delay_ms : ℕ
  pub drops_too_late : Bool
  pub peer_srt_version : ℕ
  pub max_srt_payload_size : ℕ
  -- `getStatus`, `getIpTTL`, `getIpToS` and `getBind`
  pub status : ℕ
  pub queue_ttl : ℤ
  pub queue_tos : ℤ
  pub queue_bind : Option (List ℕ)
  -- `getCurrBufSize`, and `getRcvDataSize` with `isRcvBufferReady`
  pub snd_buffer : Option ℕ
  pub rcv_buffer : Option (ℕ × Bool)
  pub crypto_control : Option CryptoView

-- The codes of CUDTException.
pub data OptError : Type 0 where
  conn_lost inval is_bound is_connected not_supported : OptError

-- The events that `updateCC` hands to the congestion control.
pub data CcEvent : Type 0 where
  init_reset init_inputbw init_oheadbw : CcEvent

pub data Outcome : Type 0 where
  done : Cudt → List CcEvent → Outcome
  failed : OptError → Outcome

-- The switch of the post-actions: what `updateCC` is told, and `m_iReorderTolerance`.
unfoldable pub cc_events : SockOpt → List CcEvent
cc_events SockOpt.maxbw = CcEvent.init_reset ∷ []
cc_events SockOpt.inputbw = CcEvent.init_inputbw ∷ []
cc_events SockOpt.mininputbw = CcEvent.init_inputbw ∷ []
cc_events SockOpt.oheadbw = CcEvent.init_oheadbw ∷ []
cc_events _ = []

unfoldable pub new_tolerance : SockOpt → Cudt → ℤ
new_tolerance SockOpt.lossmaxttl s = s.config.max_reorder_tolerance
new_tolerance _ s = s.reorder_tolerance

unfoldable pub post_action : SockOpt → Cudt → Outcome
post_action name s =
    Outcome.done (record s { reorder_tolerance = new_tolerance name s }) (cc_events name)

unfoldable pub after_set : SockOpt → Cudt → SetResult → Outcome
after_set name s SetResult.thrown = Outcome.failed OptError.inval
after_set name s SetResult.unknown = Outcome.failed OptError.inval
after_set name s (SetResult.returned c) =
    if is_set (flags name) post_spec && s.connected
    then post_action name (record s { config = c })
    else Outcome.done (record s { config = c }) []

unfoldable pub set_opt : List (List ℕ × Factory) → Cudt → SockOpt → List ℕ → ℕ → Outcome
set_opt filters s name optval optlen =
    if s.broken || s.closing
    then Outcome.failed OptError.conn_lost
    else if int_lt (code name) (pos 0) || not (int_lt (code name) (pos e_size))
    then Outcome.failed OptError.inval
    else if is_set (flags name) r_prebind && s.opened
    then Outcome.failed OptError.is_bound
    else if is_set (flags name) r_pre && (s.connected || s.connecting || s.listening)
    then Outcome.failed OptError.is_connected
    else after_set name s (dispatch_set filters name s.config optval optlen)

-- One call of the API, and calls one after another. A call that throws leaves the socket as it was.
pub record Call : Type 0 where
  pub name : SockOpt
  pub optval : List ℕ
  pub optlen : ℕ

unfoldable pub call_opt : List (List ℕ × Factory) → Cudt → Call → Cudt
call_opt filters s k = elim (set_opt filters s k.name k.optval k.optlen) [
  | Outcome.done a _ ↦ a
  | Outcome.failed _ ↦ s
]

unfoldable pub call_opts : List (List ℕ × Factory) → Cudt → List Call → Cudt
call_opts filters s [] = s
call_opts filters s (k ∷ ks) = call_opts filters (call_opt filters s k) ks
