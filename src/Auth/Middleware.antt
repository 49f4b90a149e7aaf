-- ===== src/Auth/Middleware.antt =====
-- internal/auth/middleware.go. A context holds the incoming gRPC metadata, if any, and the values
-- stored under keys of the type `contextKey`.
use chef_infra.Base.{String, Option, none, some, List, [], ◌∷◌}
use chef_infra.Base.Result.{Result, ok, err}
use chef_infra.Base.Exec.{Exec, pure, raise, attempt, ◌>>=◌}
use chef_infra.Base.Dict.{Dict, lookup, insert}
use chef_infra.Config.{AuthConfig}
use chef_infra.Auth.Types.{Error, other}
use chef_infra.Auth.Repository.{Repository}
use chef_infra.Auth.Libraries.{Libraries}
use chef_infra.Auth.Service.{State, parse_token}
use chef_infra.Auth.Status.{Status, status, unauthenticated}

pub record Context : Type 0 where
  pub metadata : Option (Dict (List String))
  pub values : Dict String

abbrev pub user_context_key : String
user_context_key = "user"

-- `md.Get(key)`: the values of a key, none if it is missing.
abbrev pub metadata_get : String → Dict (List String) → List String
metadata_get key md = elim (lookup key md) [ none ↦ [] | some values ↦ values ]

-- `context.WithValue(ctx, UserContextKey, username)`
abbrev pub with_user : Context → String → Context
with_user ctx username = record ctx { values = insert user_context_key username ctx.values }

unfoldable pub get_user_from_context : Context → Result Error String
get_user_from_context ctx = elim (lookup user_context_key ctx.values) [
  | none ↦ err (other "user not found in context")
  | some username ↦ ok username
]

module _ (L : Libraries) (R : Repository) (c : AuthConfig) where
  abbrev pub authenticate_first : Context → List String → Exec Status (State L R) Context
  authenticate_first ctx [] = raise (status unauthenticated "missing token")
  authenticate_first ctx (token ∷ _) = do
    result ← attempt (parse_token L R token c.jwt_secret)
    elim result [
      | ok claims ↦ pure (with_user ctx claims.username)
      | err _ ↦ raise (status unauthenticated "invalid token")
    ]

  unfoldable pub authentication_middleware : Context → Exec Status (State L R) Context
  authentication_middleware ctx = elim ctx.metadata [
    | none ↦ raise (status unauthenticated "missing metadata")
    | some md ↦ authenticate_first ctx (metadata_get "authorization" md)
  ]
