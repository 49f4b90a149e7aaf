-- ===== src/Tests/Auth/Accounts.antt =====
-- Accounts of internal/auth/handler.go: runs, and the theorems applied to them.
use chef_infra.Base.{◌≡◌, ◌≢◌, refl, ap, string_dec, true, [], ◌∷◌}
use native.Mathlib.Decide.{ℕ_discrete}
use chef_infra.Base.Result.{ok, err}
use chef_infra.Base.Dict.{lookup, insert}
use chef_infra.Auth.Types.{User}
use chef_infra.Auth.MemoryRepository.{
  memory_repository as repository, new_users, create_user, get_user_by_username, get_user_by_email,
  stored_user,
}
use chef_infra.Auth.MemoryRepository.Laws.{memory_repository-IsLawful}
use chef_infra.Auth.Service.{
  State, TokenPair, generate_token_pair, generate_token, generate_refresh_token, sign_token,
  register_user, hash_password, new_user,
}
use chef_infra.Auth.Status.{status, already_exists}
use chef_infra.Auth.Handler.Requests.{validate_register_request}
use chef_infra.Auth.Handler.Validation.{IsAcceptable}
use chef_infra.Auth.Handler.{RegisterResponse, register}
use chef_infra.Auth.Handler.Accounts.{Registered, register_ok, register_failed}
use chef_infra.Auth.Handler.Refusals.{register_taken}
use chef_infra.Tests.Auth.Samples.{config, libraries, libraries-IsSound, sign, at, alice, valid}

-- The state after alice's registration, and the account that it stored.
abbrev pub registered : State libraries repository
registered = record {
  world = 0;
  store = record { users = ("alice", stored) ∷ []; users_by_email = ("a@b.c", stored) ∷ [] };
}
  where
    stored : User
    stored = stored_user (new_user "alice" "#correct horse" "a@b.c") 1

abbrev pub welcome : RegisterResponse
welcome = record { success = true; message = "User registered successfully" }

pub alice_stored :
    register valid libraries repository config alice (at 0) ≡ (ok welcome, registered)
unfolding register validate_register_request register_user hash_password create_user
    get_user_by_username get_user_by_email stored_user lookup insert string_dec
alice_stored = refl

registers : (register valid libraries repository config alice (at 0)).0 ≡ ok welcome
registers = ap (λ r. r.0) alice_stored

register_ok_example :
    IsAcceptable valid alice
    × ((user : User) → (repository.get_user_by_username "alice" new_users).0 ≢ ok user)
    × ((user : User) → (repository.get_user_by_email "a@b.c" new_users).0 ≢ ok user)
    × Registered libraries repository alice
        (register valid libraries repository config alice (at 0)).1.store
register_ok_example =
    register_ok valid libraries repository config memory_repository-IsLawful libraries-IsSound alice
      (at 0) welcome registers

abbrev pair : TokenPair
pair = record { access_token = "A"; refresh_token = "R" }

makes_pair : (generate_token_pair libraries repository config "alice" registered).0 ≡ ok pair
unfolding generate_token_pair generate_token generate_refresh_token sign_token sign string_dec
    ℕ_discrete
makes_pair = refl

acceptable : IsAcceptable valid alice
acceptable = register_ok_example.0

taken :
    (get_user_by_username "alice" registered.store).0
    ≡ ok (stored_user (new_user "alice" "#correct horse" "a@b.c") 1)
unfolding get_user_by_username lookup string_dec
taken = refl

taken_name :
    (register valid libraries repository config alice registered).0
    ≡ err (status already_exists "username already taken")
taken_name =
    register_taken valid libraries repository config alice registered
      (stored_user (new_user "alice" "#correct horse" "a@b.c") 1) acceptable taken

register_failed_example :
    (register valid libraries repository config alice registered).1.store ≡ registered.store
register_failed_example =
    register_failed valid libraries repository config memory_repository-IsLawful alice registered
      (status already_exists "username already taken") taken_name
