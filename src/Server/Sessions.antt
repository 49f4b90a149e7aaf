-- ===== src/Server/Sessions.antt =====
-- A session with the server of internal/server/server.go: a registration, a login and a request with
-- the token of the login, each through the interceptor, as internal/app/module.go gives the same
-- configuration to all three parts.
use chef_infra.Base.{◌+◌, ◌<◌, String, Bool, true, ◌≡◌, ◌∙◌, refl, inl, inr, some, List, ◌∷◌, ap}
use chef_infra.Base.Result.{ok}
use chef_infra.Base.Exec.{Exec}
use chef_infra.Base.Dict.{Dict}
use chef_infra.Config.{AuthConfig}
use chef_infra.Auth.Repository.{Repository, IsLawful}
use chef_infra.Auth.Libraries.{Libraries, IsSound}
use chef_infra.Auth.Service.{State, generate_token, validate_token}
use chef_infra.Auth.Service.Tokens.{generate_token_pair_ok, validate-generate}
use chef_infra.Auth.Status.{Status}
use chef_infra.Auth.Handler.Requests.{RegisterRequest, LoginRequest}
use chef_infra.Auth.Handler.{RegisterResponse, LoginResponse, register, login}
use chef_infra.Auth.Handler.Validation.{IsAcceptable}
use chef_infra.Auth.Handler.Accounts.{Registered, credentials}
use chef_infra.Auth.Handler.Pairs.{login_pair}
use chef_infra.Auth.Middleware.{
  Context, metadata_get, get_user_from_context, authentication_middleware,
}
use chef_infra.Server.{auth_register, auth_login, is_protected_endpoint, auth_interceptor}
use chef_infra.Server.Access.{
  Shows, is_protected_endpoint_iff, auth_interceptor_public, auth_interceptor_authenticated,
}

module _ (valid : String → Bool) (L : Libraries) (R : Repository) (c : AuthConfig) where
  abbrev pub serve_register : RegisterRequest → Context → Exec Status (State L R) RegisterResponse
  serve_register req = auth_interceptor L R c auth_register (λ ctx. register valid L R c req)

  abbrev pub serve_login : LoginRequest → Context → Exec Status (State L R) LoginResponse
  serve_login req = auth_interceptor L R c auth_login (λ ctx. login valid L R c req)

  pub serve_register_lem :
      (req : RegisterRequest) (ctx : Context) (s : State L R)
      → serve_register req ctx s ≡ register valid L R c req s
  serve_register_lem req ctx s =
      auth_interceptor_public L R c auth_register (λ ctx. register valid L R c req) ctx s
        ((is_protected_endpoint_iff auth_register).1 (inl refl))

  pub serve_login_lem :
      (req : LoginRequest) (ctx : Context) (s : State L R)
      → serve_login req ctx s ≡ login valid L R c req s
  serve_login_lem req ctx s =
      auth_interceptor_public L R c auth_login (λ ctx. login valid L R c req) ctx s
        ((is_protected_endpoint_iff auth_login).1 (inr (inl refl)))

  -- A request that shows an access token of the service for a user.
  pub access_authenticated :
      IsSound L
      → (username token : String) (t u : State L R) → (generate_token L R c username t).0 ≡ ok token
      → L.clock u.world < L.new_numeric_date (L.clock t.world + c.access_token_duration)
      → {A : Type 0} (method : String) (handler : Context → Exec Status (State L R) A)
        (ctx : Context) (md : Dict (List String)) (rest : List String)
      → is_protected_endpoint method ≡ true
      → ctx.metadata ≡ some md
      → metadata_get "authorization" md ≡ token ∷ rest
      → (new_ctx : Context) × (get_user_from_context new_ctx ≡ ok username)
        × (auth_interceptor L R c method handler ctx u
            ≡ handler new_ctx (authentication_middleware L R c ctx u).1)
  unfolding validate_token
  access_authenticated sound username token t u made early method handler ctx md rest protected
        has_md has =
      let (claims, parses, name, _) = validate-generate L R sound c username token t u made early in
      let shows : Shows L R c ctx u claims = record {
        md = md;
        token = token;
        rest = rest;
        has_metadata = has_md;
        has_token = has;
        parses = parses;
      } in
      rw (← name) (auth_interceptor_authenticated L R c method handler ctx u claims protected shows)

  -- After a login for an account of the repository, a request that shows its access token.
  pub token_authenticated :
      IsLawful R
      → IsSound L
      → (req : RegisterRequest) (inner : Context) (t u : State L R) (answer : LoginResponse)
      → IsAcceptable valid req
      → Registered L R req t.store
      → (serve_login (credentials req) inner t).0 ≡ ok answer
      → L.clock u.world < L.new_numeric_date (L.clock t.world + c.access_token_duration)
      → {A : Type 0} (method : String) (handler : Context → Exec Status (State L R) A)
        (ctx : Context) (md : Dict (List String)) (rest : List String)
      → is_protected_endpoint method ≡ true
      → ctx.metadata ≡ some md
      → metadata_get "authorization" md ≡ answer.access_token ∷ rest
      → (new_ctx : Context) × (get_user_from_context new_ctx ≡ ok req.username)
        × (auth_interceptor L R c method handler ctx u
            ≡ handler new_ctx (authentication_middleware L R c ctx u).1)
  token_authenticated lawful sound req inner t u answer acceptable account logged early method
        handler ctx md rest protected has_md has =
      let at_login = serve_login_lem (credentials req) inner t in
      let (pair, made, token) =
        login_pair valid L R c lawful req t answer acceptable account (rw at_login at logged) in
      access_authenticated sound req.username pair.access_token t u
        (generate_token_pair_ok L R c req.username pair t made).0 early method handler ctx md rest
        protected has_md (has ∙ ap (λ (first : String). first ∷ rest) token)
