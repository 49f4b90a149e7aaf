-- ===== src/Tests/Pipeline/SourceFiles.antt =====
-- A small tree of sources that the builder of internal/pipeline/builder/nodejs_builder.go copies,
-- and the theorem about its copies applied to it.
use mathlib.Core.List.{head-eq_of_cons-eq, append-nil}
use text.Mathlib.TextEquality.{eq_iff}
use chef_infra.Base.{
  String, ◌==◌, string_dec, Bool, true, false, Option, none, some, [], ◌∷◌, ◌++◌, ◌≡◌, ◌≢◌, ◌∙◌,
  refl, ◌&&◌, inl, inr, Bool-cases, arith, if◌then◌else◌,
}
use chef_infra.Base.Result.{Result, ok, err}
use chef_infra.Base.Exec.{◌>>◌}
use chef_infra.Pipeline.Config.{FilePath, Under}
use chef_infra.Pipeline.Interfaces.{Action, Os, Options}
use chef_infra.Pipeline.NodeJsBuilder.Outside.{Docker, Visit, Files}
use chef_infra.Pipeline.NodeJsBuilder.Walk.{
  Forest, no_entries, file, dir, stop_text, walk_forest, IsCopying, IsWalking,
}
use chef_infra.Pipeline.NodeJsBuilder.Sources.{
  here, after_file, inside, after_dir, HasCopy, copy_source_files-HasCopy,
}
use chef_infra.Pipeline.NodeJsBuilder.{copy_source_files, copy_file, visit_source}
use chef_infra.Tests.Pipeline.Samples.{nodejs_config}

-- The directories, each with its name and its entries, and the text of each file.
record Disk : Type 0 where
  dirs : FilePath → Option (String × Forest)
  texts : FilePath → Option String

unfoldable path_eq : FilePath → FilePath → Bool
path_eq [] [] = true
path_eq (a ∷ p) (b ∷ q) = (a == b) && path_eq p q
path_eq _ _ = false

path_eq_self : (p : FilePath) → path_eq p p ≡ true
unfolding path_eq
path_eq_self [] = refl
path_eq_self (a ∷ p) = ground (arith, path_eq_self p)

path_eq_sound : (p q : FilePath) → path_eq p q ≡ true → p ≡ q
unfolding path_eq
path_eq_sound [] [] h = refl
path_eq_sound [] (b ∷ q) h = absurd (cc h)
path_eq_sound (a ∷ p) [] h = absurd (cc h)
path_eq_sound (a ∷ p) (b ∷ q) h =
    let heads : a ≡ b = ground arith in
    let tails = path_eq_sound p q (ground arith) in cc (heads, tails)

abbrev put_text : FilePath → String → (FilePath → Option String) → FilePath → Option String
put_text path b texts other = if path_eq other path then some b else texts other

abbrev put : FilePath → String → Disk → Disk
put path b w = record w { texts = put_text path b w.texts }

-- A directory that is made is empty, and one that is there stays as it is.
abbrev make_dir :
    FilePath → (FilePath → Option (String × Forest)) → FilePath → Option (String × Forest)
make_dir path dirs other =
    let old = dirs other in
    if path_eq other path
    then elim old [ none ↦ some ("new", no_entries) | some e ↦ some e ]
    else old

abbrev entries : Forest
entries =
    file "index.js"
      (dir "node_modules" (file "x.js" no_entries) (dir "lib" (file "a.js" no_entries) no_entries))

unfoldable below : FilePath → FilePath → Result String FilePath
below [] path = ok path
below (a ∷ base) [] = err "not below"
below (a ∷ base) (b ∷ path) = let rest = below base path in if a == b then rest else err "not below"

below-append : (base rest : FilePath) → below base (base ++ rest) ≡ ok rest
unfolding below
below-append [] rest = refl
below-append (a ∷ base) rest = ground (arith, below-append base rest)

abbrev done : Action Disk (Unit {0})
done w = (ok tt, w)

abbrev os : Os Disk
os = record {
  mkdir_all = λ path w. (ok tt, record w { dirs = make_dir path w.dirs });
  remove_all = λ path. done;
  stat = λ path w. (ok (record { size = 5; is_dir = false; mod_time = 0 }), w);
  read_file = λ path w. (ok "", w);
  now = λ w. (0, w);
}

abbrev walk : FilePath → Visit Disk → Action Disk (Unit {0})
walk root visit w = elim (w.dirs root) [
  | none ↦ (err "no such directory", w)
  | some (name, found) ↦
      let (r, w') =
        (visit (ok (record { name = name; is_dir = true })) root >> walk_forest visit root found)
          w in
      (stop_text r, w')
]

abbrev open_file : FilePath → Action Disk String
open_file path w = (elim (w.texts path) [ none ↦ err "no such file" | some b ↦ ok b ], w)

abbrev files : Files Disk String
files = record {
  write_file = λ path contents w. (ok tt, put path contents w);
  open_file = open_file;
  create_file = λ path w. (ok tt, put path "" w);
  copy = λ path bytes w. (ok tt, put path bytes w);
  walk = walk;
  rel = below;
  tar_with_options = λ path w. (ok "", w);
}

put_same : (path : FilePath) (b : String) (w : Disk) → (put path b w).texts path ≡ some b
put_same path b w = rw (path_eq_self path)

put_other :
    (path other : FilePath) (b : String) (w : Disk)
    → other ≢ path
    → (put path b w).texts other ≡ w.texts other
put_other path other b w apart = elim (Bool-cases (path_eq other path)) [
  | inl same ↦ absurd (apart (path_eq_sound other path same))
  | inr differ ↦ rw differ
]

opened :
    (path : FilePath) (b : String) (w : Disk) → (open_file path w).0 ≡ ok b → w.texts path ≡ some b
opened path b w h = ground arith

files-IsCopying : IsCopying os files
files-IsCopying = record {
  contents = λ w. w.texts;
  rel_below = λ base rest. below-append base rest;
  mkdir_all-contents = λ path w. refl;
  opened = λ path b w h. opened path b w h;
  open_file-contents = λ path w. refl;
  create_file-contents = λ path other w differ. put_other path other "" w differ;
  copied = λ path b w fine. put_same path b w;
  copy-contents = λ path other b w differ. put_other path other b w differ;
}

walks :
    (root : FilePath) (name : String) (found : Forest) (visit : Visit Disk) (w : Disk)
    → w.dirs root ≡ some (name, found)
    → walk root visit w ≡ (
      stop_text
          ((visit (ok (record { name = name; is_dir = true })) root >> walk_forest visit root found)
            w).0,
      ((visit (ok (record { name = name; is_dir = true })) root >> walk_forest visit root found)
          w).1,
    )
walks root name found visit w there = rw (walk, there) refl

made_outside :
    (path root : FilePath) (dirs : FilePath → Option (String × Forest))
    → ¬ (Under root path)
    → make_dir path dirs root ≡ dirs root
made_outside path root dirs outside = elim (Bool-cases (path_eq root path)) [
  | inl same ↦ absurd (outside ([], append-nil root ∙ path_eq_sound root path same))
  | inr differ ↦ rw differ refl
]

files-IsWalking : IsWalking os files
files-IsWalking = record {
  tree = λ w root. w.dirs root;
  walks = λ root name found visit w there keeps. walks root name found visit w there;
  mkdir_all-tree = λ path root w outside. made_outside path root w.dirs outside;
  open_file-tree = λ path root w. refl;
  create_file-tree = λ path root w outside. refl;
  copy-tree = λ path root b w outside. refl;
}

abbrev docker : Docker Disk String
docker = record {
  image_build = λ ctx bytes options w. (ok [], w);
  image_inspect = λ ctx image w. (ok tt, w);
  container_create = λ ctx image w. (ok "c", w);
  container_remove = λ ctx id w. (ok tt, w);
  copy_from_container = λ ctx id path w. (ok "", w);
}

abbrev options : Options
options = record { work_dir = "chef" ∷ []; cache_dir = []; environment = []; timeout = 0 }

abbrev path_of : String → FilePath
path_of text = text ∷ []

-- Every path has a file, and one directory has entries.
abbrev disk : Disk
disk = record {
  dirs = λ path. if path_eq path ("src" ∷ []) then some ("src", entries) else none;
  texts = λ path. some "text";
}

chef-ne-src : ◌≢◌ {A = String} "src" "chef"
chef-ne-src = ground (arith, eq_iff "src" "chef")

target_apart : (rest : FilePath) → ¬ (Under ("src" ∷ []) ("chef" ∷ rest))
target_apart rest under = chef-ne-src (head-eq_of_cons-eq under.1)

src-ne-chef : ◌≢◌ {A = String} "chef" "src"
src-ne-chef = ground (arith, eq_iff "chef" "src")

source_apart : (rest : FilePath) → ¬ (Under ("chef" ∷ []) ("src" ∷ rest))
source_apart rest under = src-ne-chef (head-eq_of_cons-eq under.1)

copy_source_files-HasCopy_example :
    HasCopy os files docker path_of nodejs_config options files-IsCopying
      ("src" ∷ [])
      ("chef" ∷ [])
      source_apart
      disk
      (copy_source_files os files docker path_of nodejs_config options
        ("src" ∷ [])
        ("chef" ∷ [])
        disk).1
      ("lib" ∷ "a.js" ∷ [])
unfolding copy_source_files visit_source copy_file walk_forest below path_eq string_dec
    files-IsWalking
copy_source_files-HasCopy_example =
    copy_source_files-HasCopy os files docker path_of nodejs_config options files-IsCopying
      ("src" ∷ []) ("chef" ∷ []) source_apart disk files-IsWalking target_apart "src" entries refl
      refl refl ("lib" ∷ "a.js" ∷ []) (after_file (after_dir (inside refl here)))
