-- ===== src/Tests/Server.antt =====
-- The interceptor of internal/server/server.go: runs, and the theorems applied to them.
use chef_infra.Base.{◌≡◌, refl, String, string_dec, true, none, some, arith, [], ◌∷◌}
use text.Mathlib.TextEquality.{eq_iff}
use native.Mathlib.Decide.{ℕ_discrete}
use chef_infra.Base.Result.{ok, err}
use chef_infra.Base.Exec.{Exec}
use chef_infra.Base.Dict.{lookup}
use chef_infra.Auth.Types.{Claims, Error}
use chef_infra.Auth.MemoryRepository.{memory_repository as repository}
use chef_infra.Auth.Service.{
  State, TokenPair, generate_token_pair, generate_token, generate_refresh_token, sign_token,
  validate_token, parse_token, refresh_token_pair,
}
use chef_infra.Auth.Status.{Status, status, unauthenticated}
use chef_infra.Auth.Middleware.{
  Context, with_user, get_user_from_context, authentication_middleware,
}
use chef_infra.Server.{is_protected_endpoint, auth_interceptor}
use chef_infra.Auth.Service.Expiry.{access_over}
use chef_infra.Server.Expiry.{expired_unauthenticated}
use chef_infra.Server.Refreshes.{validated, refreshed, serve_refresh, refresh_session}
use chef_infra.Server.Access.{Shows, auth_interceptor_refused, refresh_token_authenticates}
use chef_infra.Tests.Auth.Samples.{
  config, libraries, libraries-IsSound, libraries-RefusesExpired, sign, parse, at, valid,
}

abbrev with_token : String → Context
with_token token = record { metadata = some (("authorization", token ∷ []) ∷ []); values = [] }

-- A handler that tells the user of its context.
abbrev who : Context → Exec Status (State libraries repository) String
who ctx s = elim (get_user_from_context ctx) [ ok name ↦ (ok name, s) | err _ ↦ (ok "nobody", s) ]

deploy_method : is_protected_endpoint "/deploy.Deploy/Start" ≡ true
unfolding is_protected_endpoint lookup string_dec
deploy_method = refl

abbrev anonymous : Context
anonymous = record { metadata = none; values = [] }

nothing_shown : (claims : Claims) → ¬ (Shows libraries repository config anonymous (at 0) claims)
nothing_shown claims shows = cc shows.has_metadata

auth_interceptor_refused_example :
    auth_interceptor libraries repository config "/deploy.Deploy/Start" who anonymous (at 0) ≡ (
      err (status unauthenticated "authentication required"),
      (authentication_middleware libraries repository config anonymous (at 0)).1,
    )
auth_interceptor_refused_example =
    auth_interceptor_refused libraries repository config "/deploy.Deploy/Start" who anonymous (at 0)
      deploy_method nothing_shown

abbrev issued : TokenPair
issued = record { access_token = "A"; refresh_token = "R" }

makes_issued : (generate_token_pair libraries repository config "alice" (at 0)).0 ≡ ok issued
unfolding generate_token_pair generate_token generate_refresh_token sign_token sign string_dec
    ℕ_discrete
makes_issued = refl

refresh_token_authenticates_example :
    (authentication_middleware libraries repository config (with_token "R") (at 15)).0
    ≡ ok (with_user (with_token "R") "alice")
unfolding lookup string_dec
refresh_token_authenticates_example =
    refresh_token_authenticates libraries repository config libraries-IsSound "alice" issued (at 0)
      (at 15) (with_token "R") (("authorization", "R" ∷ []) ∷ []) [] makes_issued (omega arith) refl
      refl

-- At time 10, alice's access token of time 0 is over, and her refresh token is not.
expired_unauthenticated_example :
    (auth_interceptor libraries repository config "/deploy.Deploy/Start" who
        (with_token "A")
        (at 10)
      ≡ (
        err (status unauthenticated "authentication required"),
        (authentication_middleware libraries repository config (with_token "A") (at 10)).1,
      ))
    × ((e : Error) × ((validate_token libraries repository config "A" (at 10)).0 ≡ err e)
        × ((refresh_token_pair libraries repository config "A" (at 10)).0 ≡ err e))
unfolding lookup string_dec
expired_unauthenticated_example =
    expired_unauthenticated libraries repository config libraries-RefusesExpired "alice" "A" issued
      (at 0) (at 10) makes_issued (access_over (omega arith)) "/deploy.Deploy/Start" who
      (with_token "A") (("authorization", "A" ∷ []) ∷ []) [] deploy_method refl refl

makes_again :
    (generate_token_pair libraries repository config "alice"
      (validated valid libraries repository config "R" (at 0))).0
    ≡ ok issued
unfolding validate_token parse_token parse generate_token_pair generate_token generate_refresh_token
    sign_token sign string_dec ℕ_discrete
makes_again = refl

refresh_session_example :
    ((serve_refresh valid libraries repository config "R" anonymous (at 0)).0
      ≡ ok (refreshed valid libraries repository config issued))
    × ((new_ctx : Context) × (get_user_from_context new_ctx ≡ ok "alice")
        × (auth_interceptor libraries repository config "/deploy.Deploy/Start" who
              (with_token "A")
              (at 5)
            ≡ who new_ctx
                (authentication_middleware libraries repository config (with_token "A") (at 5)).1))
unfolding lookup validate_token parse_token parse string_dec
refresh_session_example =
    refresh_session valid libraries repository config libraries-IsSound "alice" issued issued
      anonymous (at 0) (at 0) (at 5) makes_issued (ground (arith, eq_iff "R" "")) (omega arith)
      makes_again (omega arith) "/deploy.Deploy/Start" who (with_token "A")
      (("authorization", "A" ∷ []) ∷ []) [] deploy_method refl refl
