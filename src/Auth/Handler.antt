-- ===== src/Auth/Handler.antt =====
-- The four methods of `Handler` in internal/auth/handler.go, with the responses of
-- proto/auth.proto. An error is a gRPC status; logging is left out.
pub mod Requests
pub mod Validation
pub mod Accounts
pub mod Refusals
pub mod Pairs
pub mod Goroutines
pub mod Answers
use chef_infra.Base.{String, ◌==◌, Bool, true, false, if◌then◌else◌}
use chef_infra.Base.Result.{Result, ok, err}
use chef_infra.Base.Exec.{Exec, pure, raise, lift, attempt, ◌>>=◌, ◌>>◌}
use chef_infra.Config.{AuthConfig}
use chef_infra.Auth.Types.{Claims, Error, user_not_found, user_exists, invalid_password, message}
use chef_infra.Auth.Repository.{Repository}
use chef_infra.Auth.Libraries.{Libraries}
use chef_infra.Auth.Service
use chef_infra.Auth.Service.{State, TokenPair, on_store}
use chef_infra.Auth.Status.{
  Status, status, invalid_argument, already_exists, not_found, unauthenticated, internal,
}
use Requests.{RegisterRequest, LoginRequest, validate_register_request, validate_login_request}

pub record RegisterResponse : Type 0 where
  pub success : Bool
  pub message : String

pub record LoginResponse : Type 0 where
  pub success : Bool
  pub message : String
  pub access_token : String
  pub refresh_token : String

pub record ValidateTokenResponse : Type 0 where
  pub valid : Bool
  pub username : String
  pub message : String

pub record RefreshTokenResponse : Type 0 where
  pub success : Bool
  pub access_token : String
  pub refresh_token : String
  pub message : String

-- The status for each error that a login returns.
unfoldable pub login_status : Error → Status
login_status user_not_found = status not_found "user not found"
login_status invalid_password = status unauthenticated "invalid password"
login_status _ = status internal "login failed"

-- The status for each error that `RegisterUser` returns.
unfoldable pub register_status : Error → Status
register_status user_exists = status already_exists "user already exists"
register_status _ = status internal "failed to register user"

-- `if _, err := look-up; err == nil { return status.Error(codes.AlreadyExists, text) }`
abbrev reject_found : {S A : Type 0} → Result Error A → String → Exec Status S (Unit {0})
reject_found (ok _) text = raise (status already_exists text)
reject_found (err _) text = pure tt

-- Goes on with the value, or returns the status for the error.
abbrev or_status : {S A : Type 0} → (Error → Status) → Result Error A → Exec Status S A
or_status f (ok a) = pure a
or_status f (err e) = raise (f e)

module _ (is_valid_email : String → Bool) (L : Libraries) (R : Repository) (c : AuthConfig) where
  unfoldable pub register : RegisterRequest → Exec Status (State L R) RegisterResponse
  register req = do
    lift (validate_register_request is_valid_email req)
    by_name ← attempt (on_store L R (R.get_user_by_username req.username))
    reject_found by_name "username already taken"
    by_email ← attempt (on_store L R (R.get_user_by_email req.email))
    reject_found by_email "email already registered"
    done ← attempt (Service.register_user L R c req.username req.password req.email)
    or_status register_status done
    pure (record { success = true; message = "User registered successfully" })

  unfoldable pub login : LoginRequest → Exec Status (State L R) LoginResponse
  login req = do
    lift (validate_login_request req)
    result ← attempt (Service.validate_login_with_refresh L R c req.username req.password)
    pair ← or_status login_status result
    pure (record {
      success = true;
      message = "Login successful";
      access_token = pair.access_token;
      refresh_token = pair.refresh_token;
    })

  -- Every error is told in the response.
  unfoldable pub validate_token : String → Exec Status (State L R) ValidateTokenResponse
  validate_token token =
      if token == ""
      then pure (record { valid = false; username = ""; message = "token is required" })
      else do
        result ← attempt (Service.validate_token L R c token)
        elim result [
          | ok claims ↦
              pure (record { valid = true; username = claims.username; message = "Token is valid" })
          | err e ↦ pure (record { valid = false; username = ""; message = message e })
        ]

  unfoldable pub refresh_token : String → Exec Status (State L R) RefreshTokenResponse
  refresh_token token =
      if token == "" then raise (status invalid_argument "refresh token is required") else do
        result ← attempt (Service.refresh_token_pair L R c token)
        pair ← or_status (λ _. status internal "failed to refresh token") result
        pure (record {
          success = true;
          access_token = pair.access_token;
          refresh_token = pair.refresh_token;
          message = "Token refreshed successfully";
        })
