-- ===== src/Auth/Service.antt =====
-- internal/auth/service.go. The state is the libraries' world and the repository's state; the
-- configuration is a parameter, and logging is left out.
pub mod Tokens
pub mod Refresh
pub mod Expiry
pub mod Logins
use chef_infra.Base.{ℕ, ◌+◌, String, ◌<>◌, ◌==◌, Bool, true, false, if◌then◌else◌, none}
use chef_infra.Base.Result.{Result, ok, err}
use chef_infra.Base.Exec.{Exec, pure, raise, lift, attempt, ◌>>=◌, ◌>>◌}
use chef_infra.Config.{AuthConfig}
use chef_infra.Auth.Types.{User, Claims, Error, user_not_found, invalid_password, other}
use chef_infra.Auth.Repository.{Repository}
use chef_infra.Auth.Libraries.{Libraries}

pub record State (L : Libraries) (R : Repository) : Type 0 where
  pub world : L.World
  pub store : R.State

pub record TokenPair : Type 0 where
  pub access_token : String
  pub refresh_token : String

-- The `User` literal of `RegisterUser`; the other fields are zero values.
abbrev pub new_user : String → String → String → User
new_user username hash email = record {
  id = 0;
  username = username;
  password_hash = hash;
  email = email;
  email_verified = false;
  created_at = 0;
  updated_at = 0;
  deleted_at = none;
}

-- `validateTokenType`
unfoldable pub validate_token_type : Claims → String → Result Error (Unit {0})
validate_token_type claims expected =
    if claims.subject == expected
    then ok tt
    else err (other ("invalid token type: expected " <> expected <> ", got " <> claims.subject))

module _ (L : Libraries) (R : Repository) where
  abbrev pub on_world :
      {A : Type 0} → (L.World → Result Error A × L.World) → Exec Error (State L R) A
  on_world f s = ((f s.world).0, record s { world = (f s.world).1 })

  abbrev pub on_store :
      {A : Type 0} → (R.State → Result Error A × R.State) → Exec Error (State L R) A
  on_store f s = ((f s.store).0, record s { store = (f s.store).1 })

  -- `time.Now()`
  abbrev pub now : Exec Error (State L R) ℕ
  now = on_world (λ w. (ok (L.clock w), L.tick w))

  unfoldable pub hash_password : String → Exec Error (State L R) String
  hash_password password = on_world (L.generate_from_password password L.default_cost)

  unfoldable pub check_password_hash : String → String → Bool
  check_password_hash password hash = elim (L.compare_hash_and_password hash password) [
    | ok _ ↦ true
    | err _ ↦ false
  ]

  -- A token of the given kind. `GenerateToken` and `generateRefreshToken` share these lines.
  unfoldable pub sign_token : String → String → ℕ → String → Exec Error (State L R) String
  sign_token username subject duration secret = do
    start ← now
    issued ← now
    lift (
        L.signed_string
          (record {
            username = username;
            expires_at = L.new_numeric_date (start + duration);
            issued_at = L.new_numeric_date issued;
            subject = subject;
          })
          secret)

  -- `ValidateToken`, and `validateToken` of middleware.go, which is the same code.
  unfoldable pub parse_token : String → String → Exec Error (State L R) Claims
  parse_token token secret = do
    parsed ← on_world (L.parse_with_claims token secret)
    if parsed.1 then pure parsed.0 else raise (other "invalid token")

  -- The look-up and the password check with which both logins begin. A missing user costs a hash.
  unfoldable pub authenticate : String → String → Exec Error (State L R) User
  authenticate username password = do
    found ← attempt (on_store (R.get_user_by_username username))
    elim found [
      | ok user ↦
          if check_password_hash password user.password_hash
          then pure user
          else raise invalid_password
      | err user_not_found ↦ do attempt {E' = Error} (hash_password "dummy"); raise user_not_found
      | err e ↦ raise e
    ]

  module _ (c : AuthConfig) where
    unfoldable pub generate_token : String → Exec Error (State L R) String
    generate_token username = sign_token username "access" c.access_token_duration c.jwt_secret

    unfoldable pub generate_refresh_token : String → Exec Error (State L R) String
    generate_refresh_token username =
        if c.refresh_token_enabled
        then sign_token username "refresh" c.refresh_token_duration c.jwt_secret
        else raise (other "refresh token functionality is disabled")

    unfoldable pub generate_token_pair : String → Exec Error (State L R) TokenPair
    generate_token_pair username = do
      access ← generate_token username
      refresh ← generate_refresh_token username
      pure (record { access_token = access; refresh_token = refresh })

    unfoldable pub validate_token : String → Exec Error (State L R) Claims
    validate_token token = parse_token token c.jwt_secret

    unfoldable pub validate_login_with_refresh : String → String → Exec Error (State L R) TokenPair
    validate_login_with_refresh username password = do
      user ← authenticate username password
      generate_token_pair user.username

    unfoldable pub validate_login : String → String → Exec Error (State L R) String
    validate_login username password = do
      user ← authenticate username password
      generate_token user.username

    unfoldable pub register_user : String → String → String → Exec Error (State L R) (Unit {0})
    register_user username password email = do
      hash ← hash_password password
      on_store (R.create_user (new_user username hash email))

    unfoldable pub refresh_token : String → Exec Error (State L R) String
    refresh_token token = do
      claims ← validate_token token
      lift (validate_token_type claims "refresh")
      generate_token claims.username

    unfoldable pub refresh_token_pair : String → Exec Error (State L R) TokenPair
    refresh_token_pair token = do
      claims ← validate_token token
      lift (validate_token_type claims "refresh")
      generate_token_pair claims.username
