-- ===== src/Auth/Handler/Requests.antt =====
-- The requests of proto/auth.proto and their validation in internal/auth/handler.go.
-- `mail.ParseAddress` is a parameter, of which only `err == nil` is used.
use chef_infra.Base.{String, len, ◌==◌, ltb, Bool, not, ◌||◌, if◌then◌else◌}
use chef_infra.Base.Result.{Result, ok, err, ◌>>◌}
use chef_infra.Auth.Status.{invalid_argument, Status, status}

pub record RegisterRequest : Type 0 where
  pub username : String
  pub password : String
  pub email : String

pub record LoginRequest : Type 0 where
  pub username : String
  pub password : String

-- `if bad { return status.Error(codes.InvalidArgument, text) }`
abbrev reject_if : Bool → String → Result Status (Unit {0})
reject_if bad text = if bad then err (status invalid_argument text) else ok tt

unfoldable pub validate_register_request :
    (String → Bool) → RegisterRequest → Result Status (Unit {0})
validate_register_request is_valid_email req = do
  reject_if (req.username == "") "username is required"
  reject_if (ltb (len req.username) 3 || ltb 32 (len req.username))
      "username must be between 3 and 32 characters"
  reject_if (req.password == "") "password is required"
  reject_if (ltb (len req.password) 8) "password must be at least 8 characters"
  reject_if (req.email == "") "email is required"
  reject_if (not (is_valid_email req.email)) "invalid email format"

unfoldable pub validate_login_request : LoginRequest → Result Status (Unit {0})
validate_login_request req = do
  reject_if (req.username == "") "username is required"
  reject_if (req.password == "") "password is required"
