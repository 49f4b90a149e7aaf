-- ===== src/Auth/Handler/Validation.antt =====
-- Which requests `validateRegisterRequest` of internal/auth/handler.go accepts.
use chef_infra.Base.{String, len, ◌≤◌, ◌≡◌, ◌≢◌, ◌↔◌, Bool, true, arith}
use chef_infra.Base.Result.{ok}
use chef_infra.Auth.Handler.Requests.{RegisterRequest, validate_register_request}

-- The rules as the messages state them. The length bounds leave no room for an empty name.
pub record IsAcceptable (is_valid_email : String → Bool) (req : RegisterRequest) : Type 0 where
  pub username_given : req.username ≢ ""
  pub username_long_enough : 3 ≤ len req.username
  pub username_short_enough : len req.username ≤ 32
  pub password_given : req.password ≢ ""
  pub password_long_enough : 8 ≤ len req.password
  pub email_given : req.email ≢ ""
  pub email_valid : is_valid_email req.email ≡ true

module _ (is_valid_email : String → Bool) (req : RegisterRequest) where
  -- A registration is accepted exactly when name, password and email are given, the name has 3 to
  -- 32 bytes, the password has at least 8 bytes and the email parses.
  pub validate_register_request_iff :
      (validate_register_request is_valid_email req ≡ ok tt) ↔ IsAcceptable is_valid_email req
  unfolding validate_register_request
  validate_register_request_iff = ground arith
