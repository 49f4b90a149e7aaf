-- ===== src/Server/Expiry.antt =====
-- What the interceptor of internal/server/server.go does with tokens whose time is over.
use chef_infra.Base.{String, true, ◌≡◌, some, List, ◌∷◌}
use chef_infra.Base.Result.{ok, err}
use chef_infra.Base.Exec.{Exec}
use chef_infra.Base.Dict.{Dict}
use chef_infra.Config.{AuthConfig}
use chef_infra.Auth.Types.{Claims, Error}
use chef_infra.Auth.Repository.{Repository}
use chef_infra.Auth.Libraries.{Libraries}
use chef_infra.Auth.Service.{
  State, TokenPair, parse_token, generate_token_pair, validate_token, refresh_token_pair,
}
use chef_infra.Auth.Service.Expiry.{RefusesExpired, IsOver, parse-expired_of_pair, expired_refused}
use chef_infra.Auth.Status.{Status, status, unauthenticated}
use chef_infra.Auth.Middleware.{Context, metadata_get, authentication_middleware}
use chef_infra.Server.{is_protected_endpoint, auth_interceptor}
use chef_infra.Server.Access.{Shows, auth_interceptor_refused}

module _ (L : Libraries) (R : Repository) (c : AuthConfig) where
  no_Shows :
      (ctx : Context) (s : State L R) (token : String) (md : Dict (List String))
      (rest : List String) (e : Error)
      → ctx.metadata ≡ some md
      → metadata_get "authorization" md ≡ token ∷ rest
      → (parse_token L R token c.jwt_secret s).0 ≡ err e
      → (claims : Claims) → ¬ (Shows L R c ctx s claims)
  no_Shows ctx s token md rest e has_md has refused claims shows =
      let same_md : shows.md ≡ md = cc (has_md, shows.has_metadata) in
      let first = rw same_md at shows.has_token in
      let same_token : shows.token ≡ token = cc (first, has) in
      cc (rw same_token at shows.parses, refused)

  -- Where the JWT library refuses expired tokens: once its time is over, neither token of a pair that
  -- the service made gets a request to a protected endpoint through, which is answered with
  -- "authentication required", and neither is accepted by `ValidateToken` or `RefreshTokenPair`.
  pub expired_unauthenticated :
      RefusesExpired L
      → (username token : String) (pair : TokenPair) (s t : State L R)
      → (generate_token_pair L R c username s).0 ≡ ok pair
      → IsOver L R c pair s t token
      → {A : Type 0} (method : String) (handler : Context → Exec Status (State L R) A)
        (ctx : Context) (md : Dict (List String)) (rest : List String)
      → is_protected_endpoint method ≡ true
      → ctx.metadata ≡ some md
      → metadata_get "authorization" md ≡ token ∷ rest
      → (auth_interceptor L R c method handler ctx t ≡ (
        err (status unauthenticated "authentication required"),
        (authentication_middleware L R c ctx t).1,
      ))
        × ((e : Error) × ((validate_token L R c token t).0 ≡ err e)
            × ((refresh_token_pair L R c token t).0 ≡ err e))
  expired_unauthenticated strict username token pair s t made over method handler ctx md rest
        protected has_md has =
      let (e, refused) = parse-expired_of_pair L R strict c username token pair s t made over in
      (
        auth_interceptor_refused L R c method handler ctx t protected
            (no_Shows ctx t token md rest e has_md has refused),
        expired_refused L R strict c username token pair s t made over,
      )
