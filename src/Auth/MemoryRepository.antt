-- ===== src/Auth/MemoryRepository.antt =====
-- `mockRepository` of internal/auth/mock_repository.go: two maps that share their users. Nothing
-- writes through the shared pointers, so the maps hold the users themselves.
pub mod Consistency
pub mod Laws
use chef_infra.Base.{ℕ, ◌+◌, String, Option, none, some, [], length, false}
use chef_infra.Base.Result.{Result, ok, err}
use chef_infra.Base.Dict.{Dict, lookup, insert}
use chef_infra.Auth.Types.{User, Error, user_not_found, user_exists}
use chef_infra.Auth.Repository.{Repository}

pub record Users : Type 0 where
  pub users : Dict User
  pub users_by_email : Dict User

-- `newMockRepository`
abbrev pub new_users : Users
new_users = record { users = []; users_by_email = [] }

-- The `User` literal that `CreateUser` stores.
unfoldable pub stored_user : User → ℕ → User
stored_user user id = record {
  id = id;
  username = user.username;
  password_hash = user.password_hash;
  email = user.email;
  email_verified = false;
  created_at = 0;
  updated_at = 0;
  deleted_at = none;
}

abbrev pub put_user : User → Users → Users
put_user user s = record {
  users = insert user.username user s.users;
  users_by_email = insert user.email user s.users_by_email;
}

unfoldable pub create_user : User → Users → Result Error (Unit {0}) × Users
create_user user s = elim (lookup user.username s.users) [
  | some _ ↦ (err user_exists, s)
  | none ↦ elim (lookup user.email s.users_by_email) [
    | some _ ↦ (err user_exists, s)
    | none ↦ (ok tt, put_user (stored_user user (length s.users + 1)) s)
  ]
]

abbrev or_not_found : Option User → Result Error User
or_not_found none = err user_not_found
or_not_found (some user) = ok user

unfoldable pub get_user_by_username : String → Users → Result Error User × Users
get_user_by_username name s = (or_not_found (lookup name s.users), s)

unfoldable pub get_user_by_email : String → Users → Result Error User × Users
get_user_by_email email s = (or_not_found (lookup email s.users_by_email), s)

unfoldable pub verify_email : ℕ → Users → Result Error (Unit {0}) × Users
verify_email id s = (ok tt, s)

abbrev pub memory_repository : Repository
memory_repository = record {
  State = Users;
  create_user = create_user;
  get_user_by_username = get_user_by_username;
  get_user_by_email = get_user_by_email;
  verify_email = verify_email;
}
