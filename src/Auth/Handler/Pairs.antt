-- ===== src/Auth/Handler/Pairs.antt =====
-- Which tokens `Login` of internal/auth/handler.go answers with.
use chef_infra.Base.{String, Bool, ◌≡◌, inl, inr, arith}
use chef_infra.Base.Result.{ok, Result-cases}
use chef_infra.Config.{AuthConfig}
use chef_infra.Auth.Repository.{Repository, IsLawful}
use chef_infra.Auth.Libraries.{Libraries}
use chef_infra.Auth.Service.{State, TokenPair, generate_token_pair}
use chef_infra.Auth.Handler.Requests.{RegisterRequest}
use chef_infra.Auth.Handler.Validation.{IsAcceptable}
use chef_infra.Auth.Handler.{LoginResponse, login}
use chef_infra.Auth.Handler.Accounts.{Registered, credentials, validate_login_ok, login-Registered}

module _ (valid : String → Bool) (L : Libraries) (R : Repository) (c : AuthConfig) where
  -- The tokens in the answer to a login for an account of the repository are a pair of the service.
  pub login_pair :
      IsLawful R
      → (req : RegisterRequest) (t : State L R) (answer : LoginResponse) → IsAcceptable valid req
      → Registered L R req t.store
      → (login valid L R c (credentials req) t).0 ≡ ok answer
      → (pair : TokenPair) × ((generate_token_pair L R c req.username t).0 ≡ ok pair)
        × (answer.access_token ≡ pair.access_token)
  unfolding login
  login_pair lawful req t answer acceptable account logged =
      elim (Result-cases (generate_token_pair L R c req.username t).0) [
        | inl (pair, made) ↦
            let whole = login-Registered valid L R c lawful req t pair acceptable account made in
            (pair, made, cc (whole, logged))
        | inr (e, failed) ↦
            let (stored, found, name, _, accepted) = account in
            let pair_of =
              validate_login_ok valid L R c lawful req.username req.password stored t found
                accepted in
            absurd (ground (arith, pair_of, name))
      ]
