-- ===== src/Srtcore/Socket/Runs.antt =====
-- Calls one after another keep the configuration valid.
use srt_vpn.Prelude.{ℕ, ◌≤◌, List, [], ◌∷◌, length, All, ◌≡◌, refl, subst, sym}
use srt_vpn.Srtcore.Config.{default_config}
use srt_vpn.Srtcore.Config.Payload.{Factory}
use srt_vpn.Srtcore.Config.Valid.{IsValid, default_config-IsValid}
use srt_vpn.Srtcore.Config.Valid.EveryOption.{mss_asked, dispatch_set-IsValid}
use srt_vpn.Srtcore.Socket.{Cudt, Outcome, Call, set_opt, call_opt, call_opts}
use srt_vpn.Srtcore.Socket.Calls.{set_opt-Accepted}

-- The memory of a call has the bytes that the call says, and packets of at most `cap` bytes are
-- asked for.
abbrev pub Fits : ℕ → Call → Type 0
Fits cap k = (k.optlen ≤ length k.optval) × (mss_asked k.name k.optval ≤ cap)

module _ (cap : ℕ) (filters : List (List ℕ × Factory)) where
  outcome-IsValid :
      (s : Cudt) (k : Call) (o : Outcome)
      → set_opt filters s k.name k.optval k.optlen ≡ o
      → IsValid cap s.config
      → Fits cap k
      → IsValid cap (elim o as (λ _. Cudt) [ Outcome.done a _ ↦ a | Outcome.failed _ ↦ s ]).config
  outcome-IsValid s k (Outcome.failed x) e v f = v
  outcome-IsValid s k (Outcome.done a es) e v f =
      let acc = set_opt-Accepted filters s k.name k.optval k.optlen a es e in
      subst (λ (x : Cudt). IsValid cap x.config) (sym acc.state_after)
        (dispatch_set-IsValid filters k.name s.config acc.new_config k.optval k.optlen v f.0 f.1
          acc.setter_returned)

  call_opts_keep :
      (s : Cudt) (ks : List Call)
      → IsValid cap s.config
      → All (Fits cap) ks
      → IsValid cap (call_opts filters s ks).config
  unfolding call_opts call_opt
  call_opts_keep s [] v f = v
  call_opts_keep s (k ∷ ks) v f =
      call_opts_keep (call_opt filters s k) ks
        (outcome-IsValid s k (set_opt filters s k.name k.optval k.optlen) refl v f.0) f.1

-- However the options of a socket are set, by calls that succeed or throw, in any state of the
-- connection, where no call asks for packets of more than `cap` bytes (1500 or more, which for 2^31
-- is every call): the configuration stays valid that CSrtConfig() makes. A packet holds the
-- handshake (76 bytes), has `cap` bytes at most and fits both UDP buffers, the window has 32 packets
-- or more, and so has the receiver's buffer, if `cap` is at most 2^26 + 27; the payload has at most
-- 1456 bytes, the time limits are from -1 on, the TTL is -1 or from 1 to 255, the overhead from 5 to
-- 100 %, the key has 0, 16, 24 or 32 bytes and the passphrase none or 10 to 80, the announcement of a
-- key comes in the first half of the life of the one before (but for the refresh rates 1 and 2), and
-- the strings fit their storage. The caller passes at least `optlen` bytes.
pub call_opts-IsValid :
    (cap : ℕ) (filters : List (List ℕ × Factory)) (version : ℕ) (s : Cudt) (ks : List Call)
    → 1500 ≤ cap
    → s.config ≡ default_config version
    → All (Fits cap) ks
    → IsValid cap (call_opts filters s ks).config
call_opts-IsValid cap filters version s ks wide e f =
    call_opts_keep cap filters s ks
      (subst (IsValid cap) (sym e) (default_config-IsValid cap version wide)) f
