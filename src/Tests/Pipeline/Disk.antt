-- ===== src/Tests/Pipeline/Disk.antt =====
-- The deployer of internal/pipeline/deployer/static_deployer.go on a small disk: its theorems
-- applied.
use chef_infra.Base.{
  String, ◌==◌, Bool, true, false, ◌&&◌, ◌≡◌, ◌≢◌, refl, Option, none, some, inl, inr, Option-cases,
  [], ◌∷◌, if◌then◌else◌, arith, string_dec,
}
use text.Mathlib.TextEquality.{eq_iff}
use chef_infra.Base.Result.{ok, err}
use chef_infra.Pipeline.Config.{FilePath}
use chef_infra.Pipeline.Types.{Build}
use chef_infra.Pipeline.Interfaces.{Action, Os}
use chef_infra.Pipeline.Static.{Tar, create_backup, extract_artifact, deploy, rollback}
use chef_infra.Pipeline.Static.Restores.{IsFiles, rollback-deploy}
use chef_infra.Tests.Pipeline.Samples.{build, deploy_config}

unfoldable path_eq : FilePath → FilePath → Bool
path_eq [] [] = true
path_eq (a ∷ p) (b ∷ q) = (a == b) && path_eq p q
path_eq _ _ = false

path_eq_self : (p : FilePath) → path_eq p p ≡ true
unfolding path_eq
path_eq_self [] = refl
path_eq_self (a ∷ p) = ground (arith, path_eq_self p)

abbrev Tree : Type 0
Tree = String → Option String

-- The files of each directory, and what each archive holds.
record Disk : Type 0 where
  pub trees : FilePath → Tree
  pub archives : FilePath → Option Tree

abbrev over : Tree → Tree → Tree
over held old name = elim (held name) [ none ↦ old name | some contents ↦ some contents ]

abbrev os : Os Disk
os = record {
  mkdir_all = λ path w. (ok tt, w);
  remove_all = λ path w. (ok tt, w);
  stat = λ path w. (ok (record { size = 5; is_dir = true; mod_time = 0 }), w);
  read_file = λ path w. (ok "", w);
  now = λ w. (0, w);
}

unfoldable extract_in : FilePath → FilePath → Action Disk (Unit {0})
extract_in path target w = elim (w.archives path) [
  | none ↦ (err "no such file", w)
  | some held ↦ (
    ok tt,
    record w { trees = λ dir. if path_eq dir target then over held (w.trees dir) else w.trees dir },
  )
]

abbrev tar : Tar Disk
tar = record {
  create = λ path source w. (
    ok tt,
    record w { archives = λ p. if path_eq p path then some (w.trees source) else w.archives p },
  );
  extract = extract_in;
}

extract_in_held :
    (path target : FilePath) (held : Tree) (w : Disk)
    → w.archives path ≡ some held
    → (name contents : String) → held name ≡ some contents
    → (extract_in path target w).1.trees target name ≡ some contents
unfolding extract_in
extract_in_held path target held w archived name contents has =
    rw (archived, extract_in, path_eq_self target) (rw (over, has))

extract_in-archives :
    (path target : FilePath) (w : Disk) → (extract_in path target w).1.archives ≡ w.archives
unfolding extract_in
extract_in-archives path target w = elim (Option-cases (w.archives path)) [
  | inl missing ↦ rw (missing, extract_in)
  | inr (held, archived) ↦ rw (archived, extract_in)
]

files : IsFiles os tar
files = record {
  tree = λ w. w.trees;
  archive = λ w. w.archives;
  mkdir_all-tree = λ path w. refl;
  mkdir_all-archive = λ path w. refl;
  stat-tree = λ path w. refl;
  created = λ path source w done. rw (path_eq_self path);
  extracted = λ path target held w archived done. extract_in_held path target held w archived;
  extract-archive = λ path target other w outside. rw (extract_in-archives path target w);
}

abbrev deployed : Build
deployed = record (build "b") { artifact_path = "out.tar.gz" ∷ [] }

-- The old page is served; the artifact replaces it.
abbrev disk : Disk
disk = record { trees = λ dir name. some "old"; archives = λ path. some (λ name. some "new") }

abbrev never : String → Bool
never e = false

project-ne-backups : ◌≢◌ {A = String} "p" "backups"
project-ne-backups = ground (arith, eq_iff "p" "backups")

rollback-deploy_example :
    files.tree
      (rollback os tar never deploy_config deployed
        (deploy os tar never deploy_config deployed disk).1).1
      ("srv" ∷ "p" ∷ [])
      "index.html"
    ≡ some "old"
unfolding deploy create_backup extract_artifact extract_in rollback path_eq string_dec files
rollback-deploy_example =
    rollback-deploy os tar never deploy_config files deployed project-ne-backups disk
      (record { size = 5; is_dir = true; mod_time = 0 }) refl refl refl refl "index.html" "old" refl
