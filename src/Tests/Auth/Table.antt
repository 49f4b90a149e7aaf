-- ===== src/Tests/Auth/Table.antt =====
-- A table of users that keeps its documented behaviour, and the theorem about the repository of
-- internal/auth/repository.go applied to it.
use chef_infra.Base.{
  ◌==◌, ◌||◌, Bool, false, ◌≡◌, ◌≢◌, refl, List, [], ◌∷◌, ◌++◌, All, arith, if◌then◌else◌,
}
use chef_infra.Base.Result.{Result, ok, err}
use chef_infra.Auth.Types.{User, DbError, failed}
use chef_infra.Auth.Repository.{IsLawful, IsUnique, SameAccount}
use chef_infra.Auth.Gorm.{Gorm, gorm_repository}
use chef_infra.Auth.Gorm.Laws.{IsTable, first_row, gorm_repository_keeps}

-- Whether a row has the name or the email of the user.
unfoldable pub has_row : User → List User → Bool
has_row u [] = false
has_row u (row ∷ rows) = (row.username == u.username) || ((row.email == u.email) || has_row u rows)

unfoldable pub insert_row : User → List User → Result DbError (Unit {0}) × List User
insert_row u rows =
    if has_row u rows then (err (failed "duplicate key"), rows) else (ok tt, rows ++ (u ∷ []))

abbrev pub table : Gorm
table = record {
  Table = List User;
  create = insert_row;
  first = λ column value rows. (first_row column value rows, rows);
  update_email_verified = λ id verified rows. (ok tt, rows);
}

no_row :
    (u : User) (rows : List User)
    → has_row u rows ≡ false
    → All (λ row. (row.username ≢ u.username) × (row.email ≢ u.email)) rows
unfolding has_row
no_row u [] h = tt
no_row u (row ∷ rows) h = ((ground arith, ground arith), no_row u rows (ground arith))

insert_row_ok :
    (u : User) (rows : List User)
    → (insert_row u rows).0 ≡ ok tt
    → (has_row u rows ≡ false) × ((insert_row u rows).1 ≡ rows ++ (u ∷ []))
unfolding insert_row
insert_row_ok u rows h = ground arith

insert_row_err :
    (u : User) (rows : List User) (e : DbError)
    → (insert_row u rows).0 ≡ err e
    → (insert_row u rows).1 ≡ rows
unfolding insert_row
insert_row_err u rows e h = ground arith

same : (u : User) → SameAccount u u
same u = record { same_username = refl; same_password_hash = refl; same_email = refl }

pub table-IsTable : IsTable table
table-IsTable = record {
  rows = λ t. t;
  first_lem = λ column value t. refl;
  created = λ u t h. (u, (insert_row_ok u t h).1, same u);
  constraints = λ u t h. no_row u t (insert_row_ok u t h).0;
  refused = insert_row_err;
}

gorm_repository_keeps_example : IsLawful (gorm_repository table) × IsUnique (gorm_repository table)
gorm_repository_keeps_example = gorm_repository_keeps table table-IsTable
