-- ===== src/Server/Refreshes.antt =====
-- A refresh through the interceptor of internal/server/server.go, and a request with the token that it
-- answers with.
use chef_infra.Base.{
  ◌+◌, ◌<◌, String, Bool, true, ◌≡◌, ◌≢◌, ◌∙◌, refl, inr, some, List, ◌∷◌, ap, arith,
}
use chef_infra.Base.Result.{ok}
use chef_infra.Base.Exec.{Exec}
use chef_infra.Base.Dict.{Dict}
use chef_infra.Config.{AuthConfig}
use chef_infra.Auth.Repository.{Repository}
use chef_infra.Auth.Libraries.{Libraries, IsSound}
use chef_infra.Auth.Service.{
  State, TokenPair, generate_token_pair, validate_token, validate_token_type, refresh_token_pair,
}
use chef_infra.Auth.Service.Tokens.{generate_token_pair_ok, validate-refresh_of_pair}
use chef_infra.Auth.Status.{Status}
use chef_infra.Auth.Handler
use chef_infra.Auth.Handler.{RefreshTokenResponse}
use chef_infra.Auth.Middleware.{
  Context, metadata_get, get_user_from_context, authentication_middleware,
}
use chef_infra.Server.{auth_refresh_token, is_protected_endpoint, auth_interceptor}
use chef_infra.Server.Access.{is_protected_endpoint_iff, auth_interceptor_public}
use chef_infra.Server.Sessions.{access_authenticated}

module _ (valid : String → Bool) (L : Libraries) (R : Repository) (c : AuthConfig) where
  abbrev pub serve_refresh : String → Context → Exec Status (State L R) RefreshTokenResponse
  serve_refresh token =
      auth_interceptor L R c auth_refresh_token (λ ctx. Handler.refresh_token valid L R c token)

  serve_refresh_lem :
      (token : String) (ctx : Context) (s : State L R)
      → serve_refresh token ctx s ≡ Handler.refresh_token valid L R c token s
  serve_refresh_lem token ctx s =
      auth_interceptor_public L R c auth_refresh_token
        (λ ctx. Handler.refresh_token valid L R c token) ctx s
        ((is_protected_endpoint_iff auth_refresh_token).1 (inr (inr (inr refl))))

  refresh_token_pair_made :
      IsSound L
      → (username : String) (pair next : TokenPair) (s t : State L R)
      → (generate_token_pair L R c username s).0 ≡ ok pair
      → L.clock t.world
        < L.new_numeric_date (L.clock (L.tick (L.tick s.world)) + c.refresh_token_duration)
      → (generate_token_pair L R c username (validate_token L R c pair.refresh_token t).1).0
        ≡ ok next
      → (refresh_token_pair L R c pair.refresh_token t).0 ≡ ok next
  unfolding refresh_token_pair validate_token_type
  refresh_token_pair_made sound username pair next s t made early remade =
      let (_, issued) = validate-refresh_of_pair L R sound c username pair s t made early in
      let (claims, parses, name, kind) = issued in ground (arith, parses, name, kind, remade)

  abbrev pub refreshed : TokenPair → RefreshTokenResponse
  refreshed next = record {
    success = true;
    access_token = next.access_token;
    refresh_token = next.refresh_token;
    message = "Token refreshed successfully";
  }

  -- The state after the validation of the token.
  abbrev pub validated : String → State L R → State L R
  validated token t = (validate_token L R c token t).1

  -- With sound libraries, before the refresh token of a pair that the service made expires, where
  -- that token is not empty and tokens can be signed again, `RefreshToken` answers it with a new pair
  -- for the same user.
  -- With the access token of that pair, a request to a protected endpoint has its handler run in a
  -- context that names this user, until that token expires.
  pub refresh_session :
      IsSound L
      → (username : String) (pair next : TokenPair) (inner : Context) (s t u : State L R)
      → (generate_token_pair L R c username s).0 ≡ ok pair
      → pair.refresh_token ≢ ""
      → L.clock t.world
        < L.new_numeric_date (L.clock (L.tick (L.tick s.world)) + c.refresh_token_duration)
      → (generate_token_pair L R c username (validated pair.refresh_token t)).0 ≡ ok next
      → L.clock u.world
        < L.new_numeric_date
            (L.clock (validated pair.refresh_token t).world + c.access_token_duration)
      → {A : Type 0} (method : String) (handler : Context → Exec Status (State L R) A)
        (ctx : Context) (md : Dict (List String)) (rest : List String)
      → is_protected_endpoint method ≡ true
      → ctx.metadata ≡ some md
      → metadata_get "authorization" md ≡ next.access_token ∷ rest
      → ((serve_refresh pair.refresh_token inner t).0 ≡ ok (refreshed next))
        × ((new_ctx : Context) × (get_user_from_context new_ctx ≡ ok username)
            × (auth_interceptor L R c method handler ctx u
                ≡ handler new_ctx (authentication_middleware L R c ctx u).1))
  unfolding Handler.refresh_token
  refresh_session sound username pair next inner s t u made given early remade in_time method
        handler ctx md rest protected has_md has =
      let answered = refresh_token_pair_made sound username pair next s t made early remade in
      let t' = validated pair.refresh_token t in
      (
        ap (λ r. r.0) (serve_refresh_lem pair.refresh_token inner t)
            ∙ ground (arith, answered, given),
        access_authenticated valid L R c sound username next.access_token t' u
            (generate_token_pair_ok L R c username next t' remade).0 in_time method handler ctx md
            rest protected has_md has,
      )
