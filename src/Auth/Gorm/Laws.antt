-- ===== src/Auth/Gorm/Laws.antt =====
-- `repository` of internal/auth/repository.go keeps the contract of `Repository` over the table of
-- migrations/20250202062257_create_user_table.sql.
use chef_infra.Base.{
  String, ◌==◌, ◌≡◌, ◌≢◌, List, [], ◌∷◌, ◌++◌, All, if◌then◌else◌, inl, inr, arith, sym,
}
use chef_infra.Base.Result.{Result, ok, err, Result-cases, map_err}
use chef_infra.Auth.Types.{User, DbError, record_not_found, Error}
use chef_infra.Auth.Repository.{SameAccount, IsLawful, IsUnique}
use chef_infra.Auth.Gorm.{
  Column, username_column, email_column, Gorm, from_first, create_user, get_user_by_username,
  get_user_by_email, gorm_repository,
}

abbrev pub column_of : Column → User → String
column_of username_column u = u.username
column_of email_column u = u.email

-- The first of the rows with the value in the column.
unfoldable pub first_row : Column → String → List User → Result DbError User
first_row column value [] = err record_not_found
first_row column value (u ∷ rows) =
    if column_of column u == value then ok u else first_row column value rows

-- What gorm and the table's definition document, where the database answers: `First` reads the rows
-- in the order of their ids, and an insertion adds a row with the next id, or is refused whole. The
-- unique constraints on the name and on the email refuse a second row.
pub record IsTable (G : Gorm) : Type 0 where
  pub rows : G.Table → List User
  pub first_lem :
      (column : Column) (value : String) (t : G.Table)
      → G.first column value t ≡ (first_row column value (rows t), t)
  pub created :
      (u : User) (t : G.Table)
      → (G.create u t).0 ≡ ok tt
      → (stored : User) × (rows (G.create u t).1 ≡ rows t ++ (stored ∷ [])) × SameAccount u stored
  pub constraints :
      (u : User) (t : G.Table)
      → (G.create u t).0 ≡ ok tt
      → All (λ row. (row.username ≢ u.username) × (row.email ≢ u.email)) (rows t)
  pub refused :
      (u : User) (t : G.Table) (e : DbError) → (G.create u t).0 ≡ err e → (G.create u t).1 ≡ t

first_row-append :
    (column : Column) (rows : List User) (u : User)
    → All (λ row. column_of column row ≢ column_of column u) rows
    → first_row column (column_of column u) (rows ++ (u ∷ [])) ≡ ok u
unfolding first_row
first_row-append column [] u apart = ground arith
first_row-append column (row ∷ rows) u apart =
    ground (arith, apart.0, first_row-append column rows u apart.1)

first_row-append_ne :
    (column : Column) (value : String) (rows : List User) (u : User)
    → column_of column u ≢ value
    → first_row column value (rows ++ (u ∷ [])) ≡ first_row column value rows
unfolding first_row
first_row-append_ne column value [] u differ = ground arith
first_row-append_ne column value (row ∷ rows) u differ =
    ground (arith, first_row-append_ne column value rows u differ)

first_row-ne :
    (column : Column) (value : String) (rows : List User) (u : User)
    → All (λ row. column_of column row ≢ value) rows
    → first_row column value rows ≢ ok u
unfolding first_row
first_row-ne column value [] u apart h = cc h
first_row-ne column value (row ∷ rows) u apart h =
    first_row-ne column value rows u apart.1 (ground (arith, apart.0))

module _ (G : Gorm) (T : IsTable G) where
  -- What a look-up by a column returns.
  abbrev look_up : Column → String → G.Table → Result Error User
  look_up column value t = map_err from_first (G.first column value t).0

  look_up-eq :
      (column : Column) (value : String) (t : G.Table)
      → look_up column value t ≡ map_err from_first (first_row column value (T.rows t))
  look_up-eq column value t = rw (T.first_lem column value t)

  created_ok : (u : User) (t : G.Table) → (create_user G u t).0 ≡ ok tt → (G.create u t).0 ≡ ok tt
  unfolding create_user
  created_ok u t h = ground arith

  same_column :
      (column : Column) (u stored : User)
      → SameAccount u stored
      → column_of column stored ≡ column_of column u
  same_column username_column u stored same = same.same_username
  same_column email_column u stored same = same.same_email

  -- No row has the column's value of a user that is created.
  apart_rows :
      (column : Column) (u : User) (rows : List User)
      → All (λ row. (row.username ≢ u.username) × (row.email ≢ u.email)) rows
      → All (λ row. column_of column row ≢ column_of column u) rows
  apart_rows column u [] h = tt
  apart_rows username_column u (row ∷ rows) h = (h.0.0, apart_rows username_column u rows h.1)
  apart_rows email_column u (row ∷ rows) h = (h.0.1, apart_rows email_column u rows h.1)

  module _ (column : Column) (u : User) (t : G.Table) (h : (create_user G u t).0 ≡ ok tt) where
    look_up-create :
        (stored : User) × (look_up column (column_of column u) (create_user G u t).1 ≡ ok stored)
        × SameAccount u stored
    unfolding create_user
    look_up-create =
        let done = created_ok u t h in
        let (stored, added, same) = T.created u t done in
        let key = same_column column u stored same in
        let apart : All (λ row. column_of column row ≢ column_of column stored) (T.rows t) =
          rw key (apart_rows column u (T.rows t) (T.constraints u t done)) in
        let found = first_row-append column (T.rows t) stored apart in
        (
          stored,
          rw (look_up-eq column (column_of column u) (create_user G u t).1, added, sym key, found),
          same,
        )

    look_up-create_ne :
        (value : String)
        → column_of column u ≢ value
        → look_up column value (create_user G u t).1 ≡ look_up column value t
    unfolding create_user
    look_up-create_ne value differ =
        let (stored, added, same) = T.created u t (created_ok u t h) in
        let key = same_column column u stored same in
        let kept = first_row-append_ne column value (T.rows t) stored (rw key differ) in
        rw (look_up-eq column value (create_user G u t).1, look_up-eq column value t, added, kept)

    look_up_free : (stored : User) → look_up column (column_of column u) t ≢ ok stored
    look_up_free stored found =
        let rows = T.rows t in
        let apart = apart_rows column u rows (T.constraints u t (created_ok u t h)) in
        first_row-ne column (column_of column u) rows stored apart
          (ground (arith, look_up-eq column (column_of column u) t))

  create_user_failed :
      (u : User) (t : G.Table) (e : Error)
      → (create_user G u t).0 ≡ err e
      → (create_user G u t).1 ≡ t
  unfolding create_user
  create_user_failed u t e h = elim (Result-cases (G.create u t).0) [
    | inl (_, done) ↦ absurd (ground arith)
    | inr (x, failed) ↦ T.refused u t x failed
  ]

  gorm_repository-IsLawful : IsLawful (gorm_repository G)
  unfolding get_user_by_username get_user_by_email
  gorm_repository-IsLawful = record {
    username-state = λ name t. rw (T.first_lem username_column name t);
    email-state = λ email t. rw (T.first_lem email_column email t);
    username-create = λ u t h. look_up-create username_column u t h;
    username-create_ne = λ u t name differ. elim (Result-cases (create_user G u t).0) [
      | inl (_, h) ↦ look_up-create_ne username_column u t h name differ
      | inr (e, failed) ↦ rw (create_user_failed u t e failed)
    ];
    create_failed = λ u t e h. create_user_failed u t e h;
  }

  gorm_repository-IsUnique : IsUnique (gorm_repository G)
  unfolding get_user_by_username get_user_by_email
  gorm_repository-IsUnique = record {
    name_free = λ u stored t h. look_up_free username_column u t h stored;
    email_free = λ u stored t h. look_up_free email_column u t h stored;
    email-create = λ u t h. look_up-create email_column u t h;
    email-create_ne = λ u t email differ. elim (Result-cases (create_user G u t).0) [
      | inl (_, h) ↦ look_up-create_ne email_column u t h email differ
      | inr (e, failed) ↦ rw (create_user_failed u t e failed)
    ];
  }

  -- Over a table that keeps its documented behaviour, with its unique constraints on names and
  -- emails, the gorm repository keeps the contract that the service and the handlers rely on, and
  -- keeps names and email addresses apart.
  pub gorm_repository_keeps : IsLawful (gorm_repository G) × IsUnique (gorm_repository G)
  gorm_repository_keeps = (gorm_repository-IsLawful, gorm_repository-IsUnique)
