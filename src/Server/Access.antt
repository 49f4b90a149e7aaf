-- ===== src/Server/Access.antt =====
-- What a request must show before the interceptor of internal/server/server.go lets it through.
use chef_infra.Base.{
  ◌+◌, ◌<◌, inl, inr, Option-cases, String, true, false, ◌≡◌, ◌⊎◌, ◌↔◌, some, [], ◌∷◌, List, refl,
  arith,
}
use chef_infra.Base.Result.{ok, err, Result-cases}
use chef_infra.Base.Exec.{Exec}
use chef_infra.Base.Dict.{Dict, lookup, lookup-insert}
use chef_infra.Config.{AuthConfig}
use chef_infra.Auth.Types.{Claims}
use chef_infra.Auth.Repository.{Repository}
use chef_infra.Auth.Libraries.{Libraries, IsSound}
use chef_infra.Auth.Service.{State, TokenPair, parse_token, validate_token, generate_token_pair}
use chef_infra.Auth.Service.Tokens.{validate-refresh_of_pair}
use chef_infra.Auth.Status.{Status, status, unauthenticated}
use chef_infra.Auth.Middleware.{
  Context, authenticate_first, metadata_get, with_user, user_context_key, get_user_from_context,
  authentication_middleware,
}
use chef_infra.Server.{
  auth_register, auth_login, auth_validate_token, auth_refresh_token, is_protected_endpoint,
  auth_interceptor,
}

-- The endpoints open without a token are exactly the four of the auth service.
pub is_protected_endpoint_iff :
    (method : String)
    → (is_protected_endpoint method ≡ false) ↔ (
        (method ≡ auth_register)
        ⊎ (method ≡ auth_login)
        ⊎ (method ≡ auth_validate_token)
        ⊎ (method ≡ auth_refresh_token))
unfolding is_protected_endpoint lookup
is_protected_endpoint_iff method = ground arith

module _ (L : Libraries) (R : Repository) (c : AuthConfig) where
  -- What the context shows: its metadata hold a first token that parses under the secret.
  pub record Shows (ctx : Context) (s : State L R) (claims : Claims) : Type 0 where
    pub md : Dict (List String)
    pub token : String
    pub rest : List String
    pub has_metadata : ctx.metadata ≡ some md
    pub has_token : metadata_get "authorization" md ≡ token ∷ rest
    pub parses : (parse_token L R token c.jwt_secret s).0 ≡ ok claims

  first_token_ok :
      (ctx new_ctx : Context) (md : Dict (List String)) (values : List String) (s : State L R)
      → ctx.metadata ≡ some md
      → metadata_get "authorization" md ≡ values
      → (authenticate_first L R c ctx values s).0 ≡ ok new_ctx
      → (claims : Claims) × Shows ctx s claims × (new_ctx ≡ with_user ctx claims.username)
  first_token_ok ctx new_ctx md [] s has_md has_token h = absurd (cc h)
  first_token_ok ctx new_ctx md (token ∷ rest) s has_md has_token h =
      elim (Result-cases (parse_token L R token c.jwt_secret s).0) [
        | inl (claims, parses) ↦ (
          claims,
          record {
            md = md;
            token = token;
            rest = rest;
            has_metadata = has_md;
            has_token = has_token;
            parses = parses;
          },
          ground arith,
        )
        | inr (e, fails) ↦ absurd (ground arith)
      ]

  middleware_ok :
      (ctx new_ctx : Context) (s : State L R)
      → (authentication_middleware L R c ctx s).0 ≡ ok new_ctx
      → (claims : Claims) × Shows ctx s claims × (new_ctx ≡ with_user ctx claims.username)
  unfolding authentication_middleware
  middleware_ok ctx new_ctx s h = elim (Option-cases ctx.metadata) [
    | inl missing ↦ absurd (ground arith)
    | inr (md, has_md) ↦
        first_token_ok ctx new_ctx md (metadata_get "authorization" md) s has_md refl
          (rw (has_md, authentication_middleware) at h)
  ]

  middleware_of_Shows :
      (ctx : Context) (s : State L R) (claims : Claims)
      → Shows ctx s claims
      → (authentication_middleware L R c ctx s).0 ≡ ok (with_user ctx claims.username)
  unfolding authentication_middleware
  middleware_of_Shows ctx s claims shows =
      ground (arith, shows.has_metadata, shows.has_token, shows.parses)

  get_user-with_user :
      (ctx : Context) (name : String) → get_user_from_context (with_user ctx name) ≡ ok name
  unfolding get_user_from_context
  get_user-with_user ctx name =
      ground (arith, lookup-insert user_context_key user_context_key name ctx.values)

  -- On a protected endpoint, a request whose first authorization token parses under the secret has
  -- its handler run in a context from which `GetUserFromContext` reads the user that the token
  -- names.
  pub auth_interceptor_authenticated :
      {A : Type 0} (method : String) (handler : Context → Exec Status (State L R) A) (ctx : Context)
      (s : State L R) (claims : Claims)
      → is_protected_endpoint method ≡ true
      → Shows ctx s claims
      → (new_ctx : Context) × (get_user_from_context new_ctx ≡ ok claims.username)
        × (auth_interceptor L R c method handler ctx s
            ≡ handler new_ctx (authentication_middleware L R c ctx s).1)
  unfolding auth_interceptor
  auth_interceptor_authenticated method handler ctx s claims protected shows = (
    with_user ctx claims.username,
    get_user-with_user ctx claims.username,
    rw (protected, middleware_of_Shows ctx s claims shows),
  )

  -- On a protected endpoint, every other request is answered with "authentication required", and
  -- no handler has a part in the answer or the state.
  pub auth_interceptor_refused :
      {A : Type 0} (method : String) (handler : Context → Exec Status (State L R) A) (ctx : Context)
      (s : State L R)
      → is_protected_endpoint method ≡ true
      → ((claims : Claims) → ¬ (Shows ctx s claims))
      → auth_interceptor L R c method handler ctx s ≡ (
        err (status unauthenticated "authentication required"),
        (authentication_middleware L R c ctx s).1,
      )
  unfolding auth_interceptor
  auth_interceptor_refused method handler ctx s protected nothing =
      elim (Result-cases (authentication_middleware L R c ctx s).0) [
        | inl (new_ctx, passed) ↦
            let (claims, shows, _) = middleware_ok ctx new_ctx s passed in
            absurd (nothing claims shows)
        | inr (e, failed) ↦ rw (protected, failed)
      ]

  -- A public endpoint runs its handler in the context of the request, with no token asked for.
  pub auth_interceptor_public :
      {A : Type 0} (method : String) (handler : Context → Exec Status (State L R) A) (ctx : Context)
      (s : State L R)
      → is_protected_endpoint method ≡ false
      → auth_interceptor L R c method handler ctx s ≡ handler ctx s
  unfolding auth_interceptor
  auth_interceptor_public method handler ctx s open_to_all = rw open_to_all

  -- A refresh token passes for an access token: with a pair that the service made, a request whose
  -- first authorization token is the refresh token is authenticated as the pair's user, until that
  -- token expires.
  pub refresh_token_authenticates :
      IsSound L
      → (username : String) (pair : TokenPair) (s t : State L R) (ctx : Context)
        (md : Dict (List String)) (rest : List String)
      → (generate_token_pair L R c username s).0 ≡ ok pair
      → L.clock t.world
        < L.new_numeric_date (L.clock (L.tick (L.tick s.world)) + c.refresh_token_duration)
      → ctx.metadata ≡ some md
      → metadata_get "authorization" md ≡ pair.refresh_token ∷ rest
      → (authentication_middleware L R c ctx t).0 ≡ ok (with_user ctx username)
  unfolding validate_token
  refresh_token_authenticates sound username pair s t ctx md rest made early has_md has =
      let (_, issued) = validate-refresh_of_pair L R sound c username pair s t made early in
      let (claims, parses, name, _) = issued in
      rw (← name) (
        middleware_of_Shows ctx t claims (record {
          md = md;
          token = pair.refresh_token;
          rest = rest;
          has_metadata = has_md;
          has_token = has;
          parses = parses;
        }))
