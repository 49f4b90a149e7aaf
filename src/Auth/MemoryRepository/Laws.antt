-- ===== src/Auth/MemoryRepository/Laws.antt =====
-- `mockRepository` of internal/auth/mock_repository.go keeps the contract of `Repository`.
use chef_infra.Base.{String, ◌≡◌, refl, arith, ◌+◌, length, ◌==◌, inl, inr, if◌then◌else◌}
use chef_infra.Base.Result.{ok, err, Result-cases}
use chef_infra.Base.Dict.{lookup-insert}
use chef_infra.Auth.Types.{User, Error}
use chef_infra.Auth.Repository.{IsLawful, IsUnique}
use chef_infra.Auth.MemoryRepository.{
  Users, create_user, get_user_by_username, get_user_by_email, stored_user, memory_repository,
}

module _ (u : User) (s : Users) where
  get-create_user :
      (create_user u s).0 ≡ ok tt
      → (name : String)
      → (get_user_by_username name (create_user u s).1).0 ≡ (
          if u.username == name
          then ok (stored_user u (length s.users + 1))
          else (get_user_by_username name s).0)
  unfolding get_user_by_username create_user stored_user
  get-create_user stored name =
      ground (arith, lookup-insert u.username name (stored_user u (length s.users + 1)) s.users)

  create_user_failed : (e : Error) → (create_user u s).0 ≡ err e → (create_user u s).1 ≡ s
  unfolding create_user
  create_user_failed e h = ground arith

  get-create_user_email :
      (create_user u s).0 ≡ ok tt
      → (email : String)
      → (get_user_by_email email (create_user u s).1).0 ≡ (
          if u.email == email
          then ok (stored_user u (length s.users + 1))
          else (get_user_by_email email s).0)
  unfolding get_user_by_email create_user stored_user
  get-create_user_email stored email =
      ground
        (arith, lookup-insert u.email email (stored_user u (length s.users + 1)) s.users_by_email)

-- The in-memory repository keeps the contract that the service and the handlers rely on.
pub memory_repository-IsLawful : IsLawful memory_repository
unfolding get_user_by_username get_user_by_email stored_user
memory_repository-IsLawful = record {
  username-state = λ name s. refl;
  email-state = λ email s. refl;
  username-create = λ u s done. (
    stored_user u (length s.users + 1),
    ground (arith, get-create_user u s done u.username),
    record { same_username = refl; same_password_hash = refl; same_email = refl },
  );
  username-create_ne = λ u s name differ. elim (Result-cases (create_user u s).0) [
    | inl (_, done) ↦ ground (arith, get-create_user u s done name)
    | inr (e, failed) ↦ rw (create_user_failed u s e failed)
  ];
  create_failed = create_user_failed;
}

-- It also keeps names and email addresses apart.
pub memory_repository-IsUnique : IsUnique memory_repository
unfolding get_user_by_username get_user_by_email create_user stored_user
memory_repository-IsUnique = record {
  name_free = λ u stored s h found. ground arith;
  email_free = λ u stored s h found. ground arith;
  email-create = λ u s h. (
    stored_user u (length s.users + 1),
    ground (arith, get-create_user_email u s h u.email),
    record { same_username = refl; same_password_hash = refl; same_email = refl },
  );
  email-create_ne = λ u s email differ. elim (Result-cases (create_user u s).0) [
    | inl (_, done) ↦ ground (arith, get-create_user_email u s done email)
    | inr (e, failed) ↦ rw (create_user_failed u s e failed)
  ];
}
