-- ===== src/Auth/Types.antt =====
-- internal/auth/model.go, the sentinel errors of internal/auth/repository.go and the claims of
-- internal/auth/service.go. A time is a number of nanoseconds, 0 for Go's zero time.
use chef_infra.Base.{ℕ, String, Bool, Option}

pub record User : Type 0 where
  pub id : ℕ
  pub username : String
  pub password_hash : String
  pub email : String
  pub email_verified : Bool
  pub created_at : ℕ
  pub updated_at : ℕ
  pub deleted_at : Option ℕ

-- `ExpiresAt`, `IssuedAt` and `Subject` are those of `jwt.RegisteredClaims`.
pub record Claims : Type 0 where
  pub username : String
  pub expires_at : ℕ
  pub issued_at : ℕ
  pub subject : String

-- What gorm returns: `gorm.ErrRecordNotFound`, or another error with its text.
pub data DbError : Type 0 where
  record_not_found : DbError
  failed : String → DbError

-- The three sentinel values, an error that gorm returned, and any other error with its text.
pub data Error : Type 0 where
  user_not_found user_exists invalid_password : Error
  db : DbError → Error
  other : String → Error

-- `err.Error()`
pub message : Error → String
message user_not_found = "user not found"
message user_exists = "user already exists"
message invalid_password = "invalid password"
message (db record_not_found) = "record not found"
message (db (failed text)) = text
message (other text) = text
