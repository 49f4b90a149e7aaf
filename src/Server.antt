-- ===== src/Server.antt =====
-- The authentication interceptor of internal/server/server.go over the endpoints of
-- internal/api/endpoints.go.
pub mod Access
pub mod Loading
pub mod Lifecycle
pub mod Sessions
pub mod Expiry
pub mod Refreshes
use chef_infra.Base.{String, Bool, true, not, none, some, [], ◌∷◌, if◌then◌else◌}
use chef_infra.Base.Result.{ok, err}
use chef_infra.Base.Exec.{Exec, raise, attempt, ◌>>=◌}
use chef_infra.Base.Dict.{Dict, lookup}
use chef_infra.Config.{AuthConfig}
use chef_infra.Auth.Repository.{Repository}
use chef_infra.Auth.Libraries.{Libraries}
use chef_infra.Auth.Service.{State}
use chef_infra.Auth.Status.{Status, status, unauthenticated}
use chef_infra.Auth.Middleware.{Context, authentication_middleware}

abbrev pub auth_register : String
auth_register = "/auth.Auth/Register"

abbrev pub auth_login : String
auth_login = "/auth.Auth/Login"

abbrev pub auth_validate_token : String
auth_validate_token = "/auth.Auth/ValidateToken"

abbrev pub auth_refresh_token : String
auth_refresh_token = "/auth.Auth/RefreshToken"

abbrev pub public_endpoints : Dict Bool
public_endpoints =
    (auth_register, true)
    ∷ (auth_login, true)
    ∷ (auth_validate_token, true)
    ∷ (auth_refresh_token, true)
    ∷ []

unfoldable pub is_protected_endpoint : String → Bool
is_protected_endpoint method = elim (lookup method public_endpoints) [
  | none ↦ true
  | some is_public ↦ not is_public
]

module _ (L : Libraries) (R : Repository) (c : AuthConfig) {A : Type 0} where
  -- `authInterceptor` of `NewServer`; the handler is closed over its request.
  unfoldable pub auth_interceptor :
      String → (Context → Exec Status (State L R) A) → Context → Exec Status (State L R) A
  auth_interceptor method handler ctx =
      if not (is_protected_endpoint method) then handler ctx else do
        result ← attempt {E' = Status} (authentication_middleware L R c ctx)
        elim result [
          | ok new_ctx ↦ handler new_ctx
          | err _ ↦ raise (status unauthenticated "authentication required")
        ]
