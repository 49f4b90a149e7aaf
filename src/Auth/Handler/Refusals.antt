-- ===== src/Auth/Handler/Refusals.antt =====
-- With which status `Register` and `Login` of internal/auth/handler.go refuse a taken name, a wrong
-- password and an unknown name.
use chef_infra.Base.{String, Bool, false, ◌≡◌, arith}
use chef_infra.Base.Result.{ok, err}
use chef_infra.Config.{AuthConfig}
use chef_infra.Auth.Types.{User, user_not_found}
use chef_infra.Auth.Repository.{Repository}
use chef_infra.Auth.Libraries.{Libraries}
use chef_infra.Auth.Service.{State, check_password_hash, validate_login_with_refresh}
use chef_infra.Auth.Service.Logins.{authenticate-verdict}
use chef_infra.Auth.Status.{status, already_exists, not_found, unauthenticated}
use chef_infra.Auth.Handler.Requests.{RegisterRequest, LoginRequest, validate_login_request}
use chef_infra.Auth.Handler.Validation.{IsAcceptable, validate_register_request_iff}
use chef_infra.Auth.Handler.{register, login, login_status}

module _ (valid : String → Bool) (L : Libraries) (R : Repository) (c : AuthConfig) where
  -- An acceptable request for a name that is taken is answered with `AlreadyExists`.
  pub register_taken :
      (req : RegisterRequest) (s : State L R) (user : User)
      → IsAcceptable valid req
      → (R.get_user_by_username req.username s.store).0 ≡ ok user
      → (register valid L R c req s).0 ≡ err (status already_exists "username already taken")
  unfolding register
  register_taken req s user acceptable taken =
      ground (arith, (validate_register_request_iff valid req).1 acceptable)

  -- A login with a wrong password is answered with `Unauthenticated`.
  pub login_wrong_password :
      (req : LoginRequest) (t : State L R) (user : User)
      → validate_login_request req ≡ ok tt
      → (R.get_user_by_username req.username t.store).0 ≡ ok user
      → check_password_hash L R req.password user.password_hash ≡ false
      → (login valid L R c req t).0 ≡ err (status unauthenticated "invalid password")
  unfolding login validate_login_with_refresh login_status
  login_wrong_password req t user accepted found wrong =
      ground (arith, authenticate-verdict L R req.username req.password t)

  -- A login with an unknown name is answered with `NotFound`.
  pub login_unknown :
      (req : LoginRequest) (t : State L R)
      → validate_login_request req ≡ ok tt
      → (R.get_user_by_username req.username t.store).0 ≡ err user_not_found
      → (login valid L R c req t).0 ≡ err (status not_found "user not found")
  unfolding login validate_login_with_refresh login_status
  login_unknown req t accepted missing =
      ground (arith, authenticate-verdict L R req.username req.password t)
