-- ===== src/Tests/Challenge.antt =====
-- src/auth/challenge.rs: a response at concrete times.
use srt_vpn.Prelude.{ℕ, ◌+◌, ◌%◌, ◌≡◌, ◌≢◌, ◌↔◌, ◌⊎◌, true, List, [], ◌∷◌, arith}
use srt_vpn.Auth.{verify_response_dual}
use srt_vpn.Auth.Response.{InWindow, verify_response_dual_iff}

abbrev text_ab : List ℕ
text_ab = 97 ∷ (98 ∷ [])

abbrev text_ac : List ℕ
text_ac = 97 ∷ (99 ∷ [])

-- The text of a time is its last digit.
abbrev digit : ℕ → List ℕ
digit ts = (48 + ts % 10) ∷ []

verify_response_dual_iff_example :
    ((verify_response_dual digit 1000 1001 990 500 (48 ∷ [])).0 ≡ true) ↔ (
      ((digit 990 ≡ 48 ∷ []) × InWindow 1000 990)
      ⊎ ((digit 990 ≢ 48 ∷ []) × (digit 500 ≡ 48 ∷ []) × InWindow 1001 500))
verify_response_dual_iff_example =
    verify_response_dual_iff digit 1000 1001 990 500 (48 ∷ []) (λ ts. (omega arith, tt))
      (omega arith, tt)
