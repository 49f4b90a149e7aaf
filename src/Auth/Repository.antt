-- ===== src/Auth/Repository.antt =====
-- The `Repository` interface of internal/auth/repository.go, over an unknown state, and what its
-- clients rely on.
use chef_infra.Base.{ℕ, String, ◌≡◌, ◌≢◌}
use chef_infra.Base.Result.{Result, ok, err}
use chef_infra.Auth.Types.{User, Error}

pub record Repository : Type 1 where
  pub State : Type 0
  pub create_user : User → State → Result Error (Unit {0}) × State
  pub get_user_by_username : String → State → Result Error User × State
  pub get_user_by_email : String → State → Result Error User × State
  pub verify_email : ℕ → State → Result Error (Unit {0}) × State

-- The stored record may get an id, and keeps the rest.
pub record SameAccount (u stored : User) : Type 0 where
  pub same_username : stored.username ≡ u.username
  pub same_password_hash : stored.password_hash ≡ u.password_hash
  pub same_email : stored.email ≡ u.email

pub record IsLawful (R : Repository) : Type 0 where
  -- Look-ups read only.
  pub username-state : (name : String) (s : R.State) → (R.get_user_by_username name s).1 ≡ s
  pub email-state : (email : String) (s : R.State) → (R.get_user_by_email email s).1 ≡ s
  -- A successful `CreateUser` stores the account under its name.
  pub username-create :
      (u : User) (s : R.State)
      → (R.create_user u s).0 ≡ ok tt
      → (stored : User) × ((R.get_user_by_username u.username (R.create_user u s).1).0 ≡ ok stored)
        × SameAccount u stored
  -- It changes no other account.
  pub username-create_ne :
      (u : User) (s : R.State) (name : String)
      → u.username ≢ name
      → (R.get_user_by_username name (R.create_user u s).1).0 ≡ (R.get_user_by_username name s).0
  -- A failed `CreateUser` changes nothing.
  pub create_failed :
      (u : User) (s : R.State) (e : Error)
      → (R.create_user u s).0 ≡ err e
      → (R.create_user u s).1 ≡ s

-- What the repository keeps apart: no two accounts have one name, and none have one email address.
pub record IsUnique (R : Repository) : Type 0 where
  pub name_free :
      (u stored : User) (s : R.State)
      → (R.create_user u s).0 ≡ ok tt
      → (R.get_user_by_username u.username s).0 ≢ ok stored
  pub email_free :
      (u stored : User) (s : R.State)
      → (R.create_user u s).0 ≡ ok tt
      → (R.get_user_by_email u.email s).0 ≢ ok stored
  -- A successful `CreateUser` stores the account under its email address too.
  pub email-create :
      (u : User) (s : R.State)
      → (R.create_user u s).0 ≡ ok tt
      → (stored : User) × ((R.get_user_by_email u.email (R.create_user u s).1).0 ≡ ok stored)
        × SameAccount u stored
  pub email-create_ne :
      (u : User) (s : R.State) (email : String)
      → u.email ≢ email
      → (R.get_user_by_email email (R.create_user u s).1).0 ≡ (R.get_user_by_email email s).0
