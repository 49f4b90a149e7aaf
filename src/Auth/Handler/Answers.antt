-- ===== src/Auth/Handler/Answers.antt =====
-- What `ValidateToken` and `RefreshToken` of internal/auth/handler.go answer.
use chef_infra.Base.{
  String, Bool, true, false, ◌≡◌, ◌≢◌, ◌↔◌, ◌⊎◌, refl, ◌==◌, Bool-cases, inl, inr, arith,
}
use chef_infra.Base.Result.{ok, err, Result-cases}
use chef_infra.Config.{AuthConfig}
use chef_infra.Auth.Types.{Claims, Error, message}
use chef_infra.Auth.Repository.{Repository}
use chef_infra.Auth.Libraries.{Libraries}
use chef_infra.Auth.Service
use chef_infra.Auth.Service.{State, TokenPair}
use chef_infra.Auth.Status.{status, invalid_argument, internal}
use chef_infra.Auth.Handler.{ValidateTokenResponse, validate_token, refresh_token}

module _ (valid : String → Bool) (L : Libraries) (R : Repository) (c : AuthConfig) where
  -- `ValidateToken` answers every request without an error. The answer says "valid" exactly when a
  -- token is given and the service validates it, and then it names the user of the claims; else the
  -- user is empty.
  pub validate_token_answer :
      (token : String) (s : State L R)
      → (answer : ValidateTokenResponse) × ((validate_token valid L R c token s).0 ≡ ok answer)
        × ((answer.valid ≡ true) ↔ (
            (token ≢ "")
            × (claims : Claims) × ((Service.validate_token L R c token s).0 ≡ ok claims)
            × (answer.username ≡ claims.username)))
        × ((answer.valid ≡ true) ⊎ (answer.username ≡ ""))
  unfolding validate_token
  validate_token_answer token s = elim (Bool-cases (token == "")) [
    | inl empty ↦ (
      record { valid = false; username = ""; message = "token is required" },
      ground arith,
      (λ h. absurd (cc h), λ h. absurd (ground arith)),
      inr refl,
    )
    | inr given ↦ elim (Result-cases (Service.validate_token L R c token s).0) [
      | inl (claims, e) ↦ (
        record { valid = true; username = claims.username; message = "Token is valid" },
        ground arith,
        (λ _. (ground arith, claims, e, refl), λ _. refl),
        inl refl,
      )
      | inr (x, e) ↦ (
        record { valid = false; username = ""; message = message x },
        ground arith,
        (λ h. absurd (cc h), λ h. absurd (ground arith)),
        inr refl,
      )
    ]
  ]

  -- `RefreshToken` answers with the pair that the service makes for the token, asks for a token
  -- where none is given, and tells no more than "failed to refresh token" of any error.
  pub refresh_token_answer :
      (token : String) (s : State L R)
      → (token ≡ ""
          → (refresh_token valid L R c token s).0
            ≡ err (status invalid_argument "refresh token is required"))
        × (token ≢ ""
            → (e : Error) → (Service.refresh_token_pair L R c token s).0 ≡ err e
            → (refresh_token valid L R c token s).0
              ≡ err (status internal "failed to refresh token"))
        × (token ≢ ""
            → (pair : TokenPair) → (Service.refresh_token_pair L R c token s).0 ≡ ok pair
            → (refresh_token valid L R c token s).0
              ≡ ok (record {
                success = true;
                access_token = pair.access_token;
                refresh_token = pair.refresh_token;
                message = "Token refreshed successfully";
              }))
  unfolding refresh_token
  refresh_token_answer token s = ground arith
