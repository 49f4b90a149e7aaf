-- ===== src/Auth/Gorm.antt =====
-- `repository` of internal/auth/repository.go, over the table that gorm reads and writes.
pub mod Laws
use chef_infra.Base.{ℕ, String, Bool, true}
use chef_infra.Base.Result.{Result, map_err}
use chef_infra.Auth.Types.{User, DbError, record_not_found, failed, Error, user_not_found, db}
use chef_infra.Auth.Repository.{Repository}

-- The columns that the queries name.
pub data Column : Type 0 where
  username_column email_column : Column

-- The calls on `*gorm.DB`: `Create`, `Where(column = value).First`, and the update of one column.
pub record Gorm : Type 1 where
  pub Table : Type 0
  pub create : User → Table → Result DbError (Unit {0}) × Table
  pub first : Column → String → Table → Result DbError User × Table
  pub update_email_verified : ℕ → Bool → Table → Result DbError (Unit {0}) × Table

-- `errors.Is(err, gorm.ErrRecordNotFound)` maps to the sentinel; any other error is passed on.
unfoldable pub from_first : DbError → Error
from_first record_not_found = user_not_found
from_first (failed text) = db (failed text)

unfoldable pub create_user : (G : Gorm) → User → G.Table → Result Error (Unit {0}) × G.Table
create_user G u t = (map_err db (G.create u t).0, (G.create u t).1)

unfoldable pub get_user_by_username : (G : Gorm) → String → G.Table → Result Error User × G.Table
get_user_by_username G name t =
    (map_err from_first (G.first username_column name t).0, (G.first username_column name t).1)

unfoldable pub get_user_by_email : (G : Gorm) → String → G.Table → Result Error User × G.Table
get_user_by_email G email t =
    (map_err from_first (G.first email_column email t).0, (G.first email_column email t).1)

unfoldable pub verify_email : (G : Gorm) → ℕ → G.Table → Result Error (Unit {0}) × G.Table
verify_email G id t =
    (map_err db (G.update_email_verified id true t).0, (G.update_email_verified id true t).1)

abbrev pub gorm_repository : Gorm → Repository
gorm_repository G = record {
  State = G.Table;
  create_user = create_user G;
  get_user_by_username = get_user_by_username G;
  get_user_by_email = get_user_by_email G;
  verify_email = verify_email G;
}
