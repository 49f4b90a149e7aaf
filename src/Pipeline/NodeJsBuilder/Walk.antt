-- ===== src/Pipeline/NodeJsBuilder/Walk.antt =====
-- What is documented of the calls by which `copySourceFiles` of nodejs_builder.go goes through a
-- directory and copies its files.
use chef_infra.Base.{String, true, false, Option, some, [], ◌∷◌, ◌++◌, ◌≡◌, ◌≢◌}
use chef_infra.Base.Result.{Result, ok, err}
use chef_infra.Base.Exec.{Exec, pure, ◌>>◌}
use chef_infra.Pipeline.Config.{FilePath, Under}
use chef_infra.Pipeline.Interfaces.{Os}
use chef_infra.Pipeline.NodeJsBuilder.Outside.{Stop, skip_dir, failed, WalkInfo, Visit, Files}

-- The entries of a directory in their order: a file or a directory, and the entries after it.
pub data Forest : Type 0 where
  no_entries : Forest
  file : String → Forest → Forest
  dir : String → Forest → Forest → Forest

-- What a directory's walk makes of the callback's answers: `SkipDir` ends that directory alone.
abbrev pub caught : Result Stop (Unit {0}) → Result Stop (Unit {0})
caught (ok _) = ok tt
caught (err skip_dir) = ok tt
caught (err (failed e)) = err (failed e)

abbrev pub in_dir : {W : Type 0} → Exec Stop W (Unit {0}) → Exec Stop W (Unit {0})
in_dir m w = (caught (m w).0, (m w).1)

abbrev pub stop_text : Result Stop (Unit {0}) → Result String (Unit {0})
stop_text (ok _) = ok tt
stop_text (err skip_dir) = ok tt
stop_text (err (failed e)) = err e

-- The calls of the callback for the entries of the directory at a path.
unfoldable pub walk_forest : {W : Type 0} → Visit W → FilePath → Forest → Exec Stop W (Unit {0})
walk_forest visit path no_entries = pure tt
walk_forest visit path (file name rest) =
    visit (ok (record { name = name; is_dir = false })) (path ++ (name ∷ []))
    >> walk_forest visit path rest
walk_forest visit path (dir name children rest) =
    in_dir (
      visit (ok (record { name = name; is_dir = true })) (path ++ (name ∷ []))
      >> walk_forest visit (path ++ (name ∷ [])) children)
    >> walk_forest visit path rest

-- What is documented of `filepath.Walk` on a directory whose entries can be read, and of the calls
-- that the callback makes. `tree` has the name and the entries of such a directory in a world.
pub record IsWalking {W Bytes : Type 0} (os : Os W) (files : Files W Bytes) : Type 0 where
  pub tree : W → FilePath → Option (String × Forest)
  -- The walk of a directory by a callback that leaves its tree as it is.
  pub walks :
      (root : FilePath) (name : String) (entries : Forest) (visit : Visit W) (w : W)
      → tree w root ≡ some (name, entries)
      → ((answer : Result String WalkInfo) (path : FilePath) (v : W)
          → tree (visit answer path v).1 root ≡ tree v root)
      → files.walk root visit w ≡ (
        stop_text
            ((visit (ok (record { name = name; is_dir = true })) root
                >> walk_forest visit root entries)
              w).0,
        ((visit (ok (record { name = name; is_dir = true })) root >> walk_forest visit root entries)
            w).1,
      )
  -- A call changes no tree that its path lies outside of; there are no symbolic links.
  pub mkdir_all-tree :
      (path root : FilePath) (w : W)
      → ¬ (Under root path)
      → tree (os.mkdir_all path w).1 root ≡ tree w root
  pub open_file-tree :
      (path root : FilePath) (w : W) → tree (files.open_file path w).1 root ≡ tree w root
  pub create_file-tree :
      (path root : FilePath) (w : W)
      → ¬ (Under root path)
      → tree (files.create_file path w).1 root ≡ tree w root
  pub copy-tree :
      (path root : FilePath) (b : Bytes) (w : W)
      → ¬ (Under root path)
      → tree (files.copy path b w).1 root ≡ tree w root

pub record IsCopying {W Bytes : Type 0} (os : Os W) (files : Files W Bytes) : Type 0 where
  pub contents : W → FilePath → Option Bytes
  pub rel_below : (base rest : FilePath) → files.rel base (base ++ rest) ≡ ok rest
  pub mkdir_all-contents : (path : FilePath) (w : W) → contents (os.mkdir_all path w).1 ≡ contents w
  pub opened :
      (path : FilePath) (b : Bytes) (w : W)
      → (files.open_file path w).0 ≡ ok b
      → contents w path ≡ some b
  pub open_file-contents :
      (path : FilePath) (w : W) → contents (files.open_file path w).1 ≡ contents w
  pub create_file-contents :
      (path other : FilePath) (w : W)
      → other ≢ path
      → contents (files.create_file path w).1 other ≡ contents w other
  pub copied :
      (path : FilePath) (b : Bytes) (w : W)
      → (files.copy path b w).0 ≡ ok tt
      → contents (files.copy path b w).1 path ≡ some b
  pub copy-contents :
      (path other : FilePath) (b : Bytes) (w : W)
      → other ≢ path
      → contents (files.copy path b w).1 other ≡ contents w other
