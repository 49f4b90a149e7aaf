-- ===== src/Auth/Service/Expiry.antt =====
-- The end of the tokens of internal/auth/service.go.
use chef_infra.Base.{ℕ, ◌+◌, ◌≤◌, String, ◌≡◌, inl, inr, Bool-cases, arith}
use chef_infra.Base.Result.{ok, err}
use chef_infra.Config.{AuthConfig}
use chef_infra.Auth.Types.{Claims, Error}
use chef_infra.Auth.Repository.{Repository}
use chef_infra.Auth.Libraries.{Libraries}
use chef_infra.Auth.Service.{
  State, TokenPair, sign_token, parse_token, generate_token, generate_refresh_token,
  generate_token_pair, validate_token, refresh_token_pair,
}
use chef_infra.Auth.Service.Tokens.{issued_claims, generate_token_pair_ok}

-- What the JWT library documents of a token whose time is over: it does not parse.
pub record RefusesExpired (L : Libraries) : Type 0 where
  pub parse-expired :
      (c : Claims) (secret token : String) (w : L.World)
      → L.signed_string c secret ≡ ok token
      → c.expires_at ≤ L.clock w
      → (e : Error) × ((L.parse_with_claims token secret w).0 ≡ err e)

module _ (L : Libraries) (R : Repository) (c : AuthConfig) where
  -- The token is one of the pair that was made in the state, and its time is over in the other.
  pub data IsOver (pair : TokenPair) (s t : State L R) : String → Type 0 where
    access_over :
        L.new_numeric_date (L.clock s.world + c.access_token_duration) ≤ L.clock t.world
        → IsOver pair s t pair.access_token
    refresh_over :
        L.new_numeric_date (L.clock (L.tick (L.tick s.world)) + c.refresh_token_duration)
          ≤ L.clock t.world
        → IsOver pair s t pair.refresh_token

module _ (L : Libraries) (R : Repository) (strict : RefusesExpired L) where
  parse-sign_expired :
      (username subject secret : String) (duration : ℕ) (s t : State L R) (token : String)
      → (sign_token L R username subject duration secret s).0 ≡ ok token
      → L.new_numeric_date (L.clock s.world + duration) ≤ L.clock t.world
      → (e : Error) × ((parse_token L R token secret t).0 ≡ err e)
  unfolding sign_token parse_token
  parse-sign_expired username subject secret duration s t token signed late =
      let (e, refused) =
        strict.parse-expired (issued_claims L username subject duration s.world) secret token
          t.world (ground arith) late in
      (e, ground arith)

  module _ (c : AuthConfig) where
    pub parse-expired_of_pair :
        (username token : String) (pair : TokenPair) (s t : State L R)
        → (generate_token_pair L R c username s).0 ≡ ok pair
        → IsOver L R c pair s t token
        → (e : Error) × ((parse_token L R token c.jwt_secret t).0 ≡ err e)
    unfolding generate_token generate_refresh_token sign_token
    parse-expired_of_pair username token pair s t made (access_over late) =
        parse-sign_expired username "access" c.jwt_secret c.access_token_duration s t token
          (generate_token_pair_ok L R c username pair s made).0 late
    parse-expired_of_pair username token pair s t made (refresh_over late) =
        let there = (generate_token L R c username s).1 in
        let signed = (generate_token_pair_ok L R c username pair s made).1 in
        elim (Bool-cases c.refresh_token_enabled) [
          | inl on ↦
              parse-sign_expired username "refresh" c.jwt_secret c.refresh_token_duration there t
                token (rw on at signed) late
          | inr off ↦ absurd (cc (rw off at signed))
        ]

    -- Once its time is over, a token of a pair is good for nothing: neither `ValidateToken` nor
    -- `RefreshTokenPair` accepts it.
    pub expired_refused :
        (username token : String) (pair : TokenPair) (s t : State L R)
        → (generate_token_pair L R c username s).0 ≡ ok pair
        → IsOver L R c pair s t token
        → (e : Error) × ((validate_token L R c token t).0 ≡ err e)
          × ((refresh_token_pair L R c token t).0 ≡ err e)
    unfolding validate_token refresh_token_pair
    expired_refused username token pair s t made over =
        let (e, refused) = parse-expired_of_pair username token pair s t made over in
        (e, refused, ground arith)
