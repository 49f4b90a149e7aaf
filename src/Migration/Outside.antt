-- ===== src/Migration/Outside.antt =====
-- What the migrator takes from outside: the working directory and the files of the machine,
-- `modfile.ModulePath` of golang.org/x/mod, and goose with its database. Versions are int64
-- timestamps, taken as natural numbers. The working directory and the files are those of one run:
-- the migrator does not write them.
use chef_infra.Base.{ℕ, String, Bool, List}
use chef_infra.Base.Result.{Result}

-- An absolute path as its components, the root directory as none.
abbrev pub FilePath : Type 0
FilePath = List String

pub record Host : Type 1 where
  pub State : Type 0
  pub getwd : Result String FilePath
  -- `os.Stat` returned no error.
  pub exists : FilePath → Bool
  pub read_file : FilePath → Result String String
  pub module_path : String → String
  -- goose
  pub set_dialect : State → Result String (Unit {0}) × State
  pub up : FilePath → State → Result String (Unit {0}) × State
  pub down : FilePath → State → Result String (Unit {0}) × State
  pub get_db_version : State → Result String ℕ × State
  pub collect_migrations : FilePath → Result String (List ℕ)
