-- ===== src/Config/Overrides.antt =====
-- src/config.rs: what the environment does to a configuration that was validated. src/main.rs runs
-- `apply_env` on what Config::load returns, and does not validate the result.
use srt_vpn.Prelude.{ℕ, none, List, ◌≡◌, ◌⊎◌, refl, sym, subst}
use srt_vpn.Config.{codes, Config}
use srt_vpn.Config.Env.{Var, Env, Library, apply_env, build_reconnect_from_env}

-- If no variable is set, a configuration that was read from a file keeps all its values, the users
-- and the entry for SOCKS5 among them, but the level of the log, which is forgotten.
pub apply_env_unset :
    (lib again : Library) (env : Env) (cfg : Config)
    → ((v : Var) → env v ≡ none)
    → apply_env lib again env cfg ≡ record cfg { log_level = none }
unfolding apply_env build_reconnect_from_env
apply_env_unset lib again env cfg h =
    let none_set : ◌≡◌ {A = Env} (λ v. none) env = λ i v. sym (h v) i in
    subst (λ e. apply_env lib again e cfg ≡ record cfg { log_level = none }) none_set refl

-- A cipher that the validation knows.
abbrev pub IsCipher : List ℕ → Type 0
IsCipher c = (c ≡ codes "aes-128") ⊎ ((c ≡ codes "aes-192") ⊎ (c ≡ codes "aes-256"))
