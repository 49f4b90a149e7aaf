-- ===== src/Auth/Service/Refresh.antt =====
-- `RefreshTokenPair` and `GenerateTokenPair` of internal/auth/service.go: whose tokens a refresh
-- makes, and what the configuration switch does.
use chef_infra.Base.{◌+◌, ◌<◌, String, ◌≡◌, ◌≢◌, false, arith}
use chef_infra.Base.Result.{ok}
use chef_infra.Config.{AuthConfig}
use chef_infra.Auth.Types.{Claims}
use chef_infra.Auth.Repository.{Repository}
use chef_infra.Auth.Libraries.{Libraries, IsSound}
use chef_infra.Auth.Service.{
  State, TokenPair, validate_token_type, generate_refresh_token, generate_token_pair,
  validate_token, refresh_token_pair, validate_login_with_refresh, authenticate,
}
use chef_infra.Auth.Service.Logins.{validate_login_with_refresh_ok}
use chef_infra.Auth.Service.Tokens.{IssuedFor, validate-generate_token_pair}

module _ (L : Libraries) (R : Repository) (c : AuthConfig) where
  refresh_token_pair_ok :
      (token : String) (pair : TokenPair) (s : State L R)
      → (refresh_token_pair L R c token s).0 ≡ ok pair
      → (claims : Claims) × ((validate_token L R c token s).0 ≡ ok claims)
        × (claims.subject ≡ "refresh")
        × ((generate_token_pair L R c claims.username (validate_token L R c token s).1).0 ≡ ok pair)
  unfolding refresh_token_pair validate_token_type
  refresh_token_pair_ok token pair s h = ground arith

  -- A successful `RefreshTokenPair` was given a token that validates with the subject "refresh",
  -- and both new tokens name that token's user: each validates before its own expiry, as an access
  -- and as a refresh token.
  pub validate-refresh_token_pair :
      IsSound L
      → (token : String) (pair : TokenPair) (s t u : State L R)
      → (refresh_token_pair L R c token s).0 ≡ ok pair
      → let w = (validate_token L R c token s).1.world in
        L.clock t.world < L.new_numeric_date (L.clock w + c.access_token_duration)
        → L.clock u.world
          < L.new_numeric_date (L.clock (L.tick (L.tick w)) + c.refresh_token_duration)
        → (claims : Claims) × ((validate_token L R c token s).0 ≡ ok claims)
          × (claims.subject ≡ "refresh")
          × IssuedFor (validate_token L R c pair.access_token t).0 claims.username "access"
          × IssuedFor (validate_token L R c pair.refresh_token u).0 claims.username "refresh"
  validate-refresh_token_pair sound token pair s t u h early_access early_refresh =
      let (claims, valid, kind, made) = refresh_token_pair_ok token pair s h in
      let tokens =
        validate-generate_token_pair L R sound c claims.username pair
          (validate_token L R c token s).1 t u made early_access early_refresh in
      (claims, valid, kind, tokens.1, tokens.2)

  generate_token_pair_disabled :
      (username : String) (pair : TokenPair) (s : State L R)
      → c.refresh_token_enabled ≡ false
      → (generate_token_pair L R c username s).0 ≢ ok pair
  unfolding generate_token_pair generate_refresh_token
  generate_token_pair_disabled username pair s off made = ground arith

  -- With refresh tokens disabled, no login with any credentials and no refresh with any token
  -- succeeds, although an access token alone could be made.
  pub disabled_refuses :
      c.refresh_token_enabled ≡ false
      → (username password token : String) (pair : TokenPair) (s : State L R)
      → ((validate_login_with_refresh L R c username password s).0 ≢ ok pair)
        × ((refresh_token_pair L R c token s).0 ≢ ok pair)
  disabled_refuses off username password token pair s = (
    λ h.
        let (user, found, made) = validate_login_with_refresh_ok L R c username password pair s h in
        generate_token_pair_disabled user.username pair (authenticate L R username password s).1 off
          made,
    λ h.
        let (claims, valid, kind, made) = refresh_token_pair_ok token pair s h in
        generate_token_pair_disabled claims.username pair (validate_token L R c token s).1 off made,
  )
