-- ===== src/Auth/Service/Tokens.antt =====
-- What the tokens of internal/auth/service.go are good for.
use chef_infra.Base.{ℕ, ◌+◌, ◌<◌, String, ◌<>◌, ◌≡◌, ◌≢◌, refl, inl, inr, true, Bool-cases, arith}
use text.Mathlib.TextEquality.{eq_iff}
use chef_infra.Base.Result.{Result, ok, err}
use chef_infra.Config.{AuthConfig}
use chef_infra.Auth.Types.{Claims, Error, other}
use chef_infra.Auth.Repository.{Repository}
use chef_infra.Auth.Libraries.{Libraries, IsSound}
use chef_infra.Auth.Service.{
  State, TokenPair, validate_token_type, sign_token, parse_token, generate_token,
  generate_refresh_token, generate_token_pair, validate_token, refresh_token, refresh_token_pair,
}

-- The claims of a token that is made in a state.
abbrev pub issued_claims : (L : Libraries) → String → String → ℕ → L.World → Claims
issued_claims L username subject duration w = record {
  username = username;
  expires_at = L.new_numeric_date (L.clock w + duration);
  issued_at = L.new_numeric_date (L.clock (L.tick w));
  subject = subject;
}

-- A validation accepts a token of the given kind for the given user.
abbrev pub IssuedFor : Result Error Claims → String → String → Type 0
IssuedFor r username subject =
    (claims : Claims) × (r ≡ ok claims) × (claims.username ≡ username) × (claims.subject ≡ subject)

access-ne-refresh : ◌≢◌ {A = String} "access" "refresh"
access-ne-refresh = ground (arith, eq_iff "access" "refresh")

module _ (L : Libraries) (R : Repository) (c : AuthConfig) where
  refresh-validate_ne :
      (token : String) (s : State L R) (claims : Claims)
      → (validate_token L R c token s).0 ≡ ok claims
      → claims.subject ≢ "refresh"
      → let wrong =
          other ("invalid token type: expected " <> "refresh" <> ", got " <> claims.subject) in
        ((refresh_token L R c token s).0 ≡ err wrong)
        × ((refresh_token_pair L R c token s).0 ≡ err wrong)
  unfolding refresh_token refresh_token_pair validate_token_type
  refresh-validate_ne token s claims valid wrong = ground arith

  pub generate_token_pair_ok :
      (username : String) (pair : TokenPair) (s : State L R)
      → (generate_token_pair L R c username s).0 ≡ ok pair
      → ((generate_token L R c username s).0 ≡ ok pair.access_token)
        × ((generate_refresh_token L R c username (generate_token L R c username s).1).0
            ≡ ok pair.refresh_token)
  unfolding generate_token_pair
  generate_token_pair_ok username pair s made = ground arith

  generate_token-world :
      (username : String) (s : State L R)
      → (generate_token L R c username s).1.world ≡ L.tick (L.tick s.world)
  unfolding generate_token sign_token
  generate_token-world username s = refl

module _ (L : Libraries) (R : Repository) (sound : IsSound L) where
  parse-sign :
      (username subject secret : String) (duration : ℕ) (s t : State L R) (token : String)
      → (sign_token L R username subject duration secret s).0 ≡ ok token
      → L.clock t.world < L.new_numeric_date (L.clock s.world + duration)
      → (parse_token L R token secret t).0 ≡ ok (issued_claims L username subject duration s.world)
  unfolding sign_token parse_token
  parse-sign username subject secret duration s t token signed early = ground (
    arith,
    sound.parse-signed_string (issued_claims L username subject duration s.world) secret token
        t.world,
  )

  module _ (c : AuthConfig) where
    validate-generate_claims :
        (username token : String) (s t : State L R)
        → (generate_token L R c username s).0 ≡ ok token
        → L.clock t.world < L.new_numeric_date (L.clock s.world + c.access_token_duration)
        → (validate_token L R c token t).0
          ≡ ok (issued_claims L username "access" c.access_token_duration s.world)
    unfolding generate_token validate_token
    validate-generate_claims username token s t made early =
        parse-sign username "access" c.jwt_secret c.access_token_duration s t token made early

    validate-generate_refresh_claims :
        (username token : String) (s t : State L R)
        → (generate_refresh_token L R c username s).0 ≡ ok token
        → L.clock t.world < L.new_numeric_date (L.clock s.world + c.refresh_token_duration)
        → (c.refresh_token_enabled ≡ true)
          × ((validate_token L R c token t).0
              ≡ ok (issued_claims L username "refresh" c.refresh_token_duration s.world))
    unfolding generate_refresh_token validate_token
    validate-generate_refresh_claims username token s t made early =
        elim (Bool-cases c.refresh_token_enabled) [
          | inl on ↦ (
            on,
            parse-sign username "refresh" c.jwt_secret c.refresh_token_duration s t token
                (rw on at made) early,
          )
          | inr off ↦ absurd (cc (rw off at made))
        ]

    -- A token from `GenerateToken` passes `ValidateToken` in any state whose clock is before its
    -- expiry, and the claims name its user and the subject "access".
    pub validate-generate :
        (username token : String) (s t : State L R)
        → (generate_token L R c username s).0 ≡ ok token
        → L.clock t.world < L.new_numeric_date (L.clock s.world + c.access_token_duration)
        → IssuedFor (validate_token L R c token t).0 username "access"
    validate-generate username token s t made early =
        (_, validate-generate_claims username token s t made early, refl, refl)

    -- An access token is never taken for a refresh token: until it expires, both refresh functions
    -- answer it with the error of `validateTokenType`.
    pub refresh-generate :
        (username token : String) (s t : State L R)
        → (generate_token L R c username s).0 ≡ ok token
        → L.clock t.world < L.new_numeric_date (L.clock s.world + c.access_token_duration)
        → ((refresh_token L R c token t).0
            ≡ err (other "invalid token type: expected refresh, got access"))
          × ((refresh_token_pair L R c token t).0
              ≡ err (other "invalid token type: expected refresh, got access"))
    refresh-generate username token s t made early =
        refresh-validate_ne L R c token t _ (validate-generate_claims username token s t made early)
          access-ne-refresh

    pub validate-refresh_of_pair :
        (username : String) (pair : TokenPair) (s u : State L R)
        → (generate_token_pair L R c username s).0 ≡ ok pair
        → L.clock u.world
          < L.new_numeric_date (L.clock (L.tick (L.tick s.world)) + c.refresh_token_duration)
        → (c.refresh_token_enabled ≡ true)
          × IssuedFor (validate_token L R c pair.refresh_token u).0 username "refresh"
    validate-refresh_of_pair username pair s u made early =
        let parts = generate_token_pair_ok L R c username pair s made in
        let (on, parsed) =
          validate-generate_refresh_claims username pair.refresh_token
            (generate_token L R c username s).1 u parts.1
            (rw (generate_token-world L R c username s) early) in
        (on, (_, parsed, refl, refl))

    -- Both tokens of a pair name its user: each passes `ValidateToken` before its own expiry, the
    -- first with the subject "access" and the second with "refresh". A pair is made only where the
    -- configuration enables refresh tokens.
    pub validate-generate_token_pair :
        (username : String) (pair : TokenPair) (s t u : State L R)
        → (generate_token_pair L R c username s).0 ≡ ok pair
        → L.clock t.world < L.new_numeric_date (L.clock s.world + c.access_token_duration)
        → L.clock u.world
          < L.new_numeric_date (L.clock (L.tick (L.tick s.world)) + c.refresh_token_duration)
        → (c.refresh_token_enabled ≡ true)
          × IssuedFor (validate_token L R c pair.access_token t).0 username "access"
          × IssuedFor (validate_token L R c pair.refresh_token u).0 username "refresh"
    validate-generate_token_pair username pair s t u made early_access early_refresh =
        let parts = generate_token_pair_ok L R c username pair s made in
        let refreshed = validate-refresh_of_pair username pair s u made early_refresh in
        (
          refreshed.0,
          (
            _,
            validate-generate_claims username pair.access_token s t parts.0 early_access,
            refl,
            refl,
          ),
          refreshed.1,
        )
