-- ===== src/Auth/Libraries.antt =====
-- What the service takes from outside the repository: `golang.org/x/crypto/bcrypt`,
-- `github.com/golang-jwt/jwt/v5` and the clock. `World` is their hidden state (entropy, time).
use chef_infra.Base.{ℕ, String, Bool, true, ◌<◌, ◌≡◌}
use chef_infra.Base.Result.{Result, ok}
use chef_infra.Auth.Types.{Claims, Error}

pub record Libraries : Type 1 where
  pub World : Type 0
  -- The time that `time.Now()` reads, and the world after the call.
  pub clock : World → ℕ
  pub tick : World → World
  -- bcrypt
  pub default_cost : ℕ
  pub generate_from_password : String → ℕ → World → Result Error String × World
  pub compare_hash_and_password : String → String → Result Error (Unit {0})
  -- jwt: `NewNumericDate` rounds; `SignedString` after `NewWithClaims`; `ParseWithClaims` with a
  -- key function that returns the secret gives the claims and `token.Valid`.
  pub new_numeric_date : ℕ → ℕ
  pub signed_string : Claims → String → Result Error String
  pub parse_with_claims : String → String → World → Result Error (Claims × Bool) × World

-- The documented behaviour that the service relies on.
pub record IsSound (L : Libraries) : Type 0 where
  -- A hash accepts the password that it was made from.
  pub compare-generate :
      (password : String) (cost : ℕ) (w : L.World) (hash : String)
      → (L.generate_from_password password cost w).0 ≡ ok hash
      → L.compare_hash_and_password hash password ≡ ok tt
  -- A signed token parses under its secret while it has not expired.
  pub parse-signed_string :
      (c : Claims) (secret token : String) (w : L.World)
      → L.signed_string c secret ≡ ok token
      → L.clock w < c.expires_at
      → (L.parse_with_claims token secret w).0 ≡ ok (c, true)
