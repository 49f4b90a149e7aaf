-- ===== src/Tests/Migration.antt =====
-- Starts and downgrades of internal/migration: runs, and the theorems applied to them.
use chef_infra.Base.{
  ℕ, zero, suc, ◌≤◌, ◌<◌, ◌≡◌, ◌≢◌, ◌↔◌, refl, leb, ltb, nat_eq, String, string_dec, arith, List,
  [], ◌∷◌, All, length, some, if◌then◌else◌,
}
use mathlib.Core.Path.{subst, sym}
use mathlib.Core.List.{reverse}
use chef_infra.Base.Result.{Result, ok, err}
use chef_infra.Migration.Outside.{FilePath, Host}
use chef_infra.Migration.ModuleRoot.{find_module_root, Nearest, Readable, find_module_root_iff}
use chef_infra.Migration.DownTo.{IsGoose}
use chef_infra.Migration.Hook.{ReadsFiles, Settles, Fails, on_start-Settles, on_start_above}
use chef_infra.Migration.Command.{Connection, run_command}
use chef_infra.Migration.Command.Outcomes.{Leaves, run_command_ok}
use chef_infra.Migration.{get_migrations_dir, last_version, prepare, up, down, reset, on_start}

abbrev pub files : List ℕ
files = 1 ∷ 2 ∷ 3 ∷ []

-- The state is the version of the database. The directory holds the versions 1, 2 and 3.
abbrev down_one : ℕ → Result String (Unit {0}) × ℕ
down_one zero = (err "no migration 0", 0)
down_one (suc v) = if ltb v 3 then (ok tt, v) else (err "no migration file", suc v)

abbrev up_all : ℕ → Result String (Unit {0}) × ℕ
up_all v = if leb v 3 then (ok tt, 3) else (ok tt, v)

abbrev pub host : Host
host = record {
  State = ℕ;
  getwd = ok ("srv" ∷ "chef" ∷ "cmd" ∷ []);
  exists = λ path. nat_eq (length path) 3;
  read_file = λ path. ok "module github.com/elskow/chef-infra";
  module_path = λ content. "github.com/elskow/chef-infra";
  set_dialect = λ s. (ok tt, s);
  up = λ dir. up_all;
  down = λ dir. down_one;
  get_db_version = λ s. (ok s, s);
  collect_migrations = λ dir. ok files;
}

pub version-down_one : (v : ℕ) → (down_one v).0 ≡ ok tt → (down_one v).1 < v
version-down_one zero h = absurd (cc h)
version-down_one (suc v) h = ground arith

down_one_missing : (v : ℕ) → All (λ f. f ≢ v) files → (down_one v).0 ≢ ok tt
down_one_missing zero h e = cc e
down_one_missing (suc zero) h e = h.0 refl
down_one_missing (suc (suc zero)) h e = h.1.0 refl
down_one_missing (suc (suc (suc zero))) h e = h.1.1.0 refl
down_one_missing (suc (suc (suc (suc v)))) h e = ground arith

pub ok_injective : (s v : ℕ) → ◌≡◌ {A = Result String ℕ} (ok s) (ok v) → v ≡ s
ok_injective s v h = cc h

abbrev pub goose : IsGoose host
goose = record {
  version = λ s. s;
  version-set_dialect = λ s. refl;
  version-read = λ s v h. ok_injective s v h;
  version-get_db_version = λ s. refl;
  version-down = λ dir s h. version-down_one s h;
}

module _ (versions : List ℕ)
    (found : ◌≡◌ {A = Result String (List ℕ)} (ok files) (ok versions)) where
  same_files : files ≡ versions
  same_files = cc found

  files_ascending : All (λ v. v ≤ last_version versions) versions
  unfolding last_version
  files_ascending = subst (λ vs. All (λ v. v ≤ last_version vs) vs) same_files (omega arith)

  up_all_reaches :
      (v : ℕ)
      → v ≤ last_version versions
      → (up_all v).0 ≡ ok tt
      → (up_all v).1 ≡ last_version versions
  unfolding last_version
  up_all_reaches v =
      subst (λ vs. v ≤ last_version vs → (up_all v).0 ≡ ok tt → (up_all v).1 ≡ last_version vs)
        same_files (λ below h. ground arith)

  nothing_down : (v : ℕ) → All (λ f. f ≢ v) versions → (down_one v).0 ≢ ok tt
  nothing_down v missing =
      down_one_missing v (subst (λ vs. All (λ f. f ≢ v) vs) (sym same_files) missing)

pub files_found : ReadsFiles host goose
files_found = record {
  ascending = λ dir versions found. files_ascending versions found;
  version-up = λ dir versions s found below up. up_all_reaches versions found s below up;
  down_missing = λ dir versions s found missing. nothing_down versions found s missing;
}

abbrev pub migrations : FilePath
migrations = "srv" ∷ "chef" ∷ "migrations" ∷ []

pub migrations_found : get_migrations_dir host ≡ ok migrations
unfolding get_migrations_dir find_module_root string_dec
migrations_found = refl

on_start-Settles_example :
    Settles host goose files_found migrations files migrations_found refl (on_start host 2 1)
on_start-Settles_example =
    on_start-Settles host goose files_found migrations files migrations_found refl 2 1 (omega arith)

on_start_above_example :
    Fails host goose files_found migrations files migrations_found refl (on_start host 6 5)
unfolding last_version
on_start_above_example =
    on_start_above host goose files_found migrations files migrations_found refl 6 5 (omega arith)
      (omega arith)

all_can_be_read : Readable host (reverse ("srv" ∷ "chef" ∷ "cmd" ∷ []))
all_can_be_read = (λ _. (_, refl), (λ _. (_, refl), (λ _. (_, refl), λ _. (_, refl))))

find_module_root_iff_example :
    (find_module_root host ≡ ok ("srv" ∷ "chef" ∷ []))
    ↔ Nearest host (reverse ("srv" ∷ "chef" ∷ "cmd" ∷ [])) ("srv" ∷ "chef" ∷ [])
find_module_root_iff_example =
    find_module_root_iff host ("srv" ∷ "chef" ∷ "cmd" ∷ []) ("srv" ∷ "chef" ∷ []) refl
      all_can_be_read

abbrev pub connection : Connection host
connection = record {
  sql_open = λ driver source s. (ok tt, s);
  close = λ s. (ok tt, s);
  status = λ dir s. (ok tt, s);
}

run_command_ok_example : Leaves 3 "reset" 2 (run_command host connection "reset" 2).1
unfolding run_command reset down up prepare get_migrations_dir find_module_root last_version
    string_dec
run_command_ok_example =
    run_command_ok host connection goose files_found migrations files migrations_found refl "reset"
      (some "Successfully reset migrations") 2 (λ d t. refl) (omega arith) refl
