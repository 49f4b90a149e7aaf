-- ===== src/Auth/MemoryRepository/Consistency.antt =====
-- The two maps of `mockRepository` agree, and the ids are those of the accounts' order.
use chef_infra.Base.{
  ◌+◌, ◌≤◌, ◌≡◌, ◌≢◌, ◌↔◌, ◌⊎◌, inl, inr, Option-cases, String, some, none, length, arith, [], ◌∷◌,
}
use chef_infra.Base.Result.{err}
use chef_infra.Base.Dict.{Dict, lookup, insert, lookup-insert}
use chef_infra.Auth.Types.{User, user_exists}
use chef_infra.Auth.MemoryRepository.{Users, create_user, stored_user, put_user, new_users}

-- Each map finds a user under its own key, and what one holds the other holds too. The ids go from
-- 1 to the number of users, and no two users share one.
pub record IsConsistent (s : Users) : Type 0 where
  pub by_name :
      (name : String) (u : User)
      → lookup name s.users ≡ some u
      → (u.username ≡ name) × (lookup u.email s.users_by_email ≡ some u)
  pub by_email :
      (email : String) (u : User)
      → lookup email s.users_by_email ≡ some u
      → (u.email ≡ email) × (lookup u.username s.users ≡ some u)
  pub ids_in_range :
      (name : String) (u : User)
      → lookup name s.users ≡ some u
      → (1 ≤ u.id) × (u.id ≤ length s.users)
  pub ids_differ :
      (name other : String) (u v : User)
      → lookup name s.users ≡ some u
      → lookup other s.users ≡ some v
      → u.id ≡ v.id
      → name ≡ other

length-insert_fresh :
    {V : Type 0} (k : String) (v : V) (m : Dict V)
    → lookup k m ≡ none
    → length (insert k v m) ≡ length m + 1
unfolding lookup insert
length-insert_fresh k v [] fresh = omega arith
length-insert_fresh k v ((j, w) ∷ m) fresh = ground (arith, length-insert_fresh k v m)

-- The empty repository is consistent.
pub new_users-IsConsistent : IsConsistent new_users
unfolding lookup
new_users-IsConsistent = record {
  by_name = λ name u h. absurd (cc h);
  by_email = λ email u h. absurd (cc h);
  ids_in_range = λ name u h. absurd (cc h);
  ids_differ = λ name other u v h. absurd (cc h);
}

module _ (user : User) (s : Users) (inv : IsConsistent s)
    (fresh_name : lookup user.username s.users ≡ none)
    (fresh_email : lookup user.email s.users_by_email ≡ none) where
  abbrev fresh_user : User
  fresh_user = stored_user user (length s.users + 1)

  put_user-IsConsistent : IsConsistent (put_user fresh_user s)
  unfolding stored_user
  put_user-IsConsistent = record {
    by_name = λ name u h. ground (
      arith,
      lookup-insert user.username name fresh_user s.users,
      lookup-insert user.email u.email fresh_user s.users_by_email,
      inv.by_name name u,
    );
    by_email = λ email u h. ground (
      arith,
      lookup-insert user.email email fresh_user s.users_by_email,
      lookup-insert user.username u.username fresh_user s.users,
      inv.by_email email u,
    );
    ids_in_range = λ name u h. ground (
      arith,
      lookup-insert user.username name fresh_user s.users,
      length-insert_fresh user.username fresh_user s.users fresh_name,
      inv.ids_in_range name u,
    );
    ids_differ = λ name other u v h h' e. ground (
      arith,
      lookup-insert user.username name fresh_user s.users,
      lookup-insert user.username other fresh_user s.users,
      inv.ids_in_range name u,
      inv.ids_in_range other v,
      inv.ids_differ name other u v,
    );
  }

-- `CreateUser` keeps the two maps consistent and the ids distinct, whether it stores the user or
-- refuses it.
pub create_user-IsConsistent :
    (user : User) (s : Users) → IsConsistent s → IsConsistent (create_user user s).1
unfolding create_user
create_user-IsConsistent user s inv = elim (Option-cases (lookup user.username s.users)) [
  | inr (u, taken) ↦ rw (taken, create_user) inv
  | inl fresh_name ↦ elim (Option-cases (lookup user.email s.users_by_email)) [
    | inr (u, taken) ↦ rw (fresh_name, taken, create_user) inv
    | inl fresh_email ↦
        rw (fresh_name, fresh_email, create_user)
          (put_user-IsConsistent user s inv fresh_name fresh_email)
  ]
]

-- `CreateUser` refuses exactly the users whose name or email is held, and a refusal changes nothing.
pub create_user_refused :
    (user : User) (s : Users)
    → ((create_user user s ≡ (err user_exists, s))
        ↔ ((lookup user.username s.users ≢ none) ⊎ (lookup user.email s.users_by_email ≢ none)))
unfolding create_user
create_user_refused user s = ground arith
