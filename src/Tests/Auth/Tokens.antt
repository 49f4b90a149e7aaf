-- ===== src/Tests/Auth/Tokens.antt =====
-- Tokens of internal/auth/service.go: runs, and the theorems applied to them.
use chef_infra.Base.{◌≡◌, ◌≢◌, refl, string_dec, true, false, arith}
use native.Mathlib.Decide.{ℕ_discrete}
use chef_infra.Base.Result.{ok, err}
use chef_infra.Config.{AuthConfig}
use chef_infra.Auth.Types.{other}
use chef_infra.Auth.MemoryRepository.{memory_repository as repository}
use chef_infra.Auth.Service.{
  TokenPair, generate_token, generate_token_pair, generate_refresh_token, validate_token,
  sign_token, parse_token, refresh_token, refresh_token_pair, validate_token_type,
  validate_login_with_refresh,
}
use chef_infra.Auth.Service.Tokens.{IssuedFor, refresh-generate, validate-generate_token_pair}
use chef_infra.Auth.Service.Refresh.{disabled_refuses}
use chef_infra.Tests.Auth.Samples.{config, libraries, libraries-IsSound, sign, parse, at}

abbrev issued : TokenPair
issued = record { access_token = "A"; refresh_token = "R" }

generate_token_sample : (generate_token libraries repository config "alice" (at 0)).0 ≡ ok "A"
unfolding generate_token sign_token sign string_dec ℕ_discrete
generate_token_sample = refl

generate_token_pair_sample :
    (generate_token_pair libraries repository config "alice" (at 0)).0 ≡ ok issued
unfolding generate_token_pair generate_token generate_refresh_token sign_token sign string_dec
    ℕ_discrete
generate_token_pair_sample = refl

refresh_token_pair_sample :
    (refresh_token_pair libraries repository config "R" (at 0)).0 ≡ ok issued
unfolding refresh_token_pair validate_token parse_token parse validate_token_type
    generate_token_pair generate_token generate_refresh_token sign_token sign string_dec ℕ_discrete
refresh_token_pair_sample = refl

expired_token :
    (validate_token libraries repository config "A" (at 10)).0 ≡ err (other "token is expired")
unfolding validate_token parse_token parse string_dec
expired_token = refl

refresh-generate_example :
    ((refresh_token libraries repository config "A" (at 9)).0
      ≡ err (other "invalid token type: expected refresh, got access"))
    × ((refresh_token_pair libraries repository config "A" (at 9)).0
        ≡ err (other "invalid token type: expected refresh, got access"))
refresh-generate_example =
    refresh-generate libraries repository libraries-IsSound config "alice" "A" (at 0) (at 9)
      generate_token_sample (omega arith)

validate-generate_token_pair_example :
    (config.refresh_token_enabled ≡ true)
    × IssuedFor (validate_token libraries repository config "A" (at 9)).0 "alice" "access"
    × IssuedFor (validate_token libraries repository config "R" (at 19)).0 "alice" "refresh"
validate-generate_token_pair_example =
    validate-generate_token_pair libraries repository libraries-IsSound config "alice" issued (at 0)
      (at 9) (at 19) generate_token_pair_sample (omega arith) (omega arith)

abbrev access_only : AuthConfig
access_only = record config { refresh_token_enabled = false }

disabled_refuses_example :
    ((validate_login_with_refresh libraries repository access_only "alice" "pw" (at 0)).0
      ≢ ok issued)
    × ((refresh_token_pair libraries repository access_only "R" (at 0)).0 ≢ ok issued)
disabled_refuses_example =
    disabled_refuses libraries repository access_only refl "alice" "pw" "R" issued (at 0)
