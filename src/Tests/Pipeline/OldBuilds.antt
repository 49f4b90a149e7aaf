-- ===== src/Tests/Pipeline/OldBuilds.antt =====
-- The cleanup of internal/pipeline/cleanup.go on a disk with an old and a young build: a run, and
-- its theorem applied.
use chef_infra.Base.{
  ℕ, String, Bool, true, false, Bool-cases, ◌==◌, Option, none, some, List, [], ◌∷◌, All, ◌≡◌, refl,
  inl, inr, arith, if◌then◌else◌, string_dec,
}
use text.Mathlib.TextEquality.{eq_iff}
use chef_infra.Base.Result.{ok}
use chef_infra.Pipeline.Config.{FilePath, Under}
use chef_infra.Pipeline.Interfaces.{Action, Os}
use chef_infra.Pipeline.Cleanup.{DirEntry, clean_entry, clean_entries, cleanup_old_builds}
use chef_infra.Pipeline.Cleanup.Kept.{IsDisk, Spares, cleanup_old_builds-contents}

-- What each file holds.
abbrev Disk : Type 0
Disk = FilePath → Option String

-- Removal of a directory under "builds".
unfoldable is_under : FilePath → FilePath → Bool
is_under [] path = true
is_under (a ∷ dir) [] = false
is_under (a ∷ dir) (b ∷ path) = let rest = is_under dir path in if a == b then rest else false

is_under_outside : (dir path : FilePath) → ¬ (Under dir path) → is_under dir path ≡ false
unfolding is_under
is_under_outside [] path outside = absurd (outside (path, refl))
is_under_outside (a ∷ dir) [] outside = refl
is_under_outside (a ∷ dir) (b ∷ path) outside = elim (Bool-cases (a == b)) [
  | inr differ ↦ rw (differ, is_under)
  | inl same ↦
      rw (same, is_under)
        (is_under_outside dir path (λ (rest, e). outside (rest, ground (arith, e))))
]

unfoldable remove : FilePath → Disk → Disk
remove dir w path = if is_under dir path then none else w path

abbrev os : Os Disk
os = record {
  mkdir_all = λ path w. (ok tt, w);
  remove_all = λ path w. (ok tt, remove path w);
  stat = λ path w. (ok (record { size = 0; is_dir = true; mod_time = 0 }), w);
  read_file = λ path w. (ok "", w);
  now = λ w. (100, w);
}

abbrev entry : String → ℕ → DirEntry Disk
entry name mod_time = record {
  name = name;
  is_dir = true;
  info = λ w. (ok (record { size = 0; is_dir = true; mod_time = mod_time }), w);
}

abbrev entries : List (DirEntry Disk)
entries = entry "old" 1 ∷ entry "young" 95 ∷ []

abbrev read_dir : FilePath → Action Disk (List (DirEntry Disk))
read_dir path w = (ok entries, w)

abbrev full : Disk
full path = some "page"

old_removed :
    (cleanup_old_builds os read_dir ("builds" ∷ []) 10 full).1 ("builds" ∷ "old" ∷ "a" ∷ []) ≡ none
unfolding cleanup_old_builds clean_entries clean_entry remove is_under string_dec
old_removed = refl

files : IsDisk os read_dir
unfolding remove
files = record {
  contents = λ w. w;
  now-contents = λ w. refl;
  read_dir-contents = λ path w. refl;
  remove_all-contents = λ path other w outside. rw (is_under_outside path other outside);
}

young_spared :
    All (Spares os read_dir ("builds" ∷ []) files 100 10 ("builds" ∷ "young" ∷ "a" ∷ [])) entries
unfolding files
young_spared = (
  record {
    info-contents = λ w. refl;
    reason = inr (inl (λ (rest, e). ground (arith, eq_iff "old" "young", e)));
  },
  (record { info-contents = λ w. refl; reason = inr (inr (λ w info h. ground arith)) }, tt),
)

cleanup_old_builds-contents_example :
    (cleanup_old_builds os read_dir ("builds" ∷ []) 10 full).1 ("builds" ∷ "young" ∷ "a" ∷ [])
    ≡ some "page"
unfolding files
cleanup_old_builds-contents_example =
    cleanup_old_builds-contents os read_dir ("builds" ∷ []) files 10 ("builds" ∷ "young" ∷ "a" ∷ [])
      full entries refl young_spared
