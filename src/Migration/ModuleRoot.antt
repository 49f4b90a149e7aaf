-- ===== src/Migration/ModuleRoot.antt =====
-- internal/migration/file_path.go: the walk from the working directory up to the root. A directory
-- is given by its components from the innermost on, so that `filepath.Dir` takes the tail, and the
-- root is its own parent.
use mathlib.Core.List.{reverse}
use chef_infra.Base.{
  String, ◌==◌, true, List, [], ◌∷◌, ◌++◌, ◌≡◌, ◌↔◌, ◌⊎◌, inl, inr, Bool-cases, sym, ap, ◌∙◌, arith,
  if◌then◌else◌,
}
use chef_infra.Base.Result.{Result, ok, err, Result-cases, ◌>>=◌}
use chef_infra.Migration.Outside.{FilePath, Host}

abbrev our_module : String
our_module = "github.com/elskow/chef-infra"

module _ (H : Host) where
  abbrev go_mod : List String → FilePath
  go_mod names = reverse names ++ ("go.mod" ∷ [])

  -- One round of the loop; `above` is what the rounds for the parents return.
  search_dir : List String → Result String FilePath → Result String FilePath
  search_dir names above =
      if H.exists (go_mod names)
      then (H.read_file (go_mod names) >>= λ content.
          if H.module_path content == our_module then ok (reverse names) else above)
      else above

  unfoldable pub find_from : List String → Result String FilePath
  unfolding search_dir
  find_from [] = search_dir [] (err "go.mod not found")
  find_from (name ∷ above) = search_dir (name ∷ above) (find_from above)

  unfoldable pub find_module_root : Result String FilePath
  unfolding find_from
  find_module_root = do dir ← H.getwd; find_from (reverse dir)

  -- The directory has a go.mod that names this module.
  abbrev pub IsOurs : List String → Type 0
  IsOurs names =
      (H.exists (go_mod names) ≡ true)
      × (content : String) × (H.read_file (go_mod names) ≡ ok content)
      × (H.module_path content ≡ our_module)

  -- The nearest directory on the way to the root that is ours.
  pub data Nearest : List String → FilePath → Type 0 where
    here :
        {names : List String} {dir : FilePath}
        → IsOurs names
        → dir ≡ reverse names
        → Nearest names dir
    skip :
        {name : String} {names : List String} {dir : FilePath}
        → ¬ (IsOurs (name ∷ names))
        → Nearest names dir
        → Nearest (name ∷ names) dir

  -- An existing go.mod on the way to the root can be read.
  abbrev pub CanRead : List String → Type 0
  CanRead names =
      H.exists (go_mod names) ≡ true
      → (content : String) × (H.read_file (go_mod names) ≡ ok content)

  abbrev pub Readable : List String → Type 0
  Readable [] = CanRead []
  Readable (name ∷ names) = CanRead (name ∷ names) × Readable names

  search_dir_ok :
      (names : List String) (above : Result String FilePath) (dir : FilePath)
      → search_dir names above ≡ ok dir
      → (IsOurs names × (dir ≡ reverse names)) ⊎ (¬ (IsOurs names) × (above ≡ ok dir))
  unfolding search_dir
  search_dir_ok names above dir h = elim (Bool-cases (H.exists (go_mod names))) [
    | inr missing ↦ inr (λ ours. cc (missing, ours.0), ground arith)
    | inl there ↦ elim (Result-cases (H.read_file (go_mod names))) [
      | inr (e, failed) ↦ absurd (ground arith)
      | inl (content, read) ↦ elim (Bool-cases (H.module_path content == our_module)) [
        | inl same ↦ inl ((there, content, read, ground arith), ground arith)
        | inr other ↦ inr (λ ours. ground (arith, ours.2, ours.3), ground arith)
      ]
    ]
  ]

  search_dir_ours :
      (names : List String) (above : Result String FilePath)
      → IsOurs names
      → search_dir names above ≡ ok (reverse names)
  unfolding search_dir
  search_dir_ours names above ours = ground arith

  search_dir_other :
      (names : List String) (above : Result String FilePath)
      → CanRead names
      → ¬ (IsOurs names)
      → search_dir names above ≡ above
  unfolding search_dir
  search_dir_other names above readable other = elim (Bool-cases (H.exists (go_mod names))) [
    | inr missing ↦ rw missing
    | inl there ↦
        let (content, read) = readable there in
        elim (Bool-cases (H.module_path content == our_module)) [
          | inl same ↦ absurd (other (there, content, read, ground arith))
          | inr differ ↦ rw (there, read, differ)
        ]
  ]

  find_from-Nearest :
      (names : List String) (dir : FilePath) → find_from names ≡ ok dir → Nearest names dir
  unfolding find_from
  find_from-Nearest [] dir h = elim (search_dir_ok [] (err "go.mod not found") dir h) [
    | inl (ours, e) ↦ here ours e
    | inr (_, e) ↦ absurd (cc e)
  ]
  find_from-Nearest (name ∷ names) dir h =
      elim (search_dir_ok (name ∷ names) (find_from names) dir h) [
        | inl (ours, e) ↦ here ours e
        | inr (other, e) ↦ skip other (find_from-Nearest names dir e)
      ]

  Nearest-find_from :
      {names : List String} {dir : FilePath}
      → Readable names
      → Nearest names dir
      → find_from names ≡ ok dir
  unfolding find_from
  Nearest-find_from {names = []} r (here ours e) = search_dir_ours [] _ ours ∙ ap ok (sym e)
  Nearest-find_from {names = name ∷ names} r (here ours e) =
      search_dir_ours (name ∷ names) _ ours ∙ ap ok (sym e)
  Nearest-find_from {names = name ∷ names} r (skip other n) =
      search_dir_other (name ∷ names) _ r.0 other ∙ Nearest-find_from r.1 n

  -- Where every go.mod on the way can be read, the module root that is found is exactly the
  -- directory nearest to the working directory, on the way to the root, whose go.mod names this
  -- module.
  pub find_module_root_iff :
      (cwd dir : FilePath)
      → H.getwd ≡ ok cwd
      → Readable (reverse cwd)
      → (find_module_root ≡ ok dir) ↔ Nearest (reverse cwd) dir
  unfolding find_module_root
  find_module_root_iff cwd dir at readable = (
    λ h. find_from-Nearest (reverse cwd) dir (rw at at h),
    λ n. rw at (Nearest-find_from readable n),
  )
