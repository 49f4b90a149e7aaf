-- ===== src/Pipeline/Cleanup/Kept.antt =====
-- What `CleanupOldBuilds` of internal/pipeline/cleanup.go leaves alone.
use chef_infra.Base.{
  ℕ, ◌+◌, ◌≤◌, String, Option, false, List, [], ◌∷◌, ◌++◌, All, ◌≡◌, ◌⊎◌, ◌∙◌, refl, inl, inr, ltb,
  Bool-cases, arith,
}
use chef_infra.Base.Result.{ok, Result-cases}
use chef_infra.Pipeline.Config.{FilePath, Under}
use chef_infra.Pipeline.Interfaces.{Action, Os, FileInfo}
use chef_infra.Pipeline.Cleanup.{DirEntry, clean_entry, clean_entries, cleanup_old_builds}

-- What is documented of the file system: reading changes no file, and removing a directory changes
-- no file outside it.
pub record IsDisk {W : Type 0} (os : Os W) (read_dir : FilePath → Action W (List (DirEntry W)))
    : Type 0 where
  pub contents : W → FilePath → Option String
  pub now-contents : (w : W) → contents (os.now w).1 ≡ contents w
  pub read_dir-contents : (path : FilePath) (w : W) → contents (read_dir path w).1 ≡ contents w
  pub remove_all-contents :
      (path other : FilePath) (w : W)
      → ¬ (Under path other)
      → contents (os.remove_all path w).1 other ≡ contents w other

module _ {W : Type 0} (os : Os W) (read_dir : FilePath → Action W (List (DirEntry W)))
    (build_dir : FilePath) (K : IsDisk os read_dir) where
  -- Looking at the entry changes no file, and the entry is no directory, or does not hold the path,
  -- or is not older than allowed.
  pub record Spares (now max_age : ℕ) (path : FilePath) (dir : DirEntry W) : Type 0 where
    pub info-contents : (w : W) → K.contents (dir.info w).1 ≡ K.contents w
    pub reason :
        (dir.is_dir ≡ false)
        ⊎ (¬ (Under (build_dir ++ (dir.name ∷ [])) path))
        ⊎ ((w : W) (info : FileInfo) → (dir.info w).0 ≡ ok info → now ≤ info.mod_time + max_age)

  clean_entry-contents :
      (now max_age : ℕ) (path : FilePath) (dir : DirEntry W) (w : W)
      → Spares now max_age path dir
      → K.contents (clean_entry os read_dir build_dir now max_age dir w) path ≡ K.contents w path
  unfolding clean_entry
  clean_entry-contents now max_age path dir w spares = elim (Bool-cases dir.is_dir) [
    | inr plain ↦ rw (plain, clean_entry)
    | inl yes_dir ↦ elim (Result-cases (dir.info w).0) [
      | inr (e, failed) ↦ rw (yes_dir, failed, clean_entry, spares.info-contents w)
      | inl (info, read) ↦ elim (Bool-cases (ltb (info.mod_time + max_age) now)) [
        | inr young ↦ rw (yes_dir, read, young, clean_entry, spares.info-contents w)
        | inl old ↦ elim spares.reason [
          | inl plain ↦ absurd (cc (yes_dir, plain))
          | inr (inl outside) ↦ rw (
            yes_dir,
            read,
            old,
            clean_entry,
            K.remove_all-contents (build_dir ++ (dir.name ∷ [])) path (dir.info w).1 outside,
            spares.info-contents w,
          )
          | inr (inr recent) ↦ absurd (ground (arith, recent w info read))
        ]
      ]
    ]
  ]

  clean_entries-contents :
      (now max_age : ℕ) (path : FilePath) (dirs : List (DirEntry W)) (w : W)
      → All (Spares now max_age path) dirs
      → K.contents (clean_entries os read_dir build_dir now max_age dirs w) path ≡ K.contents w path
  unfolding clean_entries
  clean_entries-contents now max_age path [] w spares = refl
  clean_entries-contents now max_age path (dir ∷ dirs) w spares =
      clean_entries-contents now max_age path dirs _ spares.1
      ∙ clean_entry-contents now max_age path dir w spares.0

  -- `CleanupOldBuilds` leaves a file as it was where each entry that it reads is no directory, or a
  -- directory that does not hold the file, or one that is not older than the age that is allowed.
  pub cleanup_old_builds-contents :
      (max_age : ℕ) (path : FilePath) (w : W) (dirs : List (DirEntry W))
      → (read_dir build_dir (os.now w).1).0 ≡ ok dirs
      → All (Spares (os.now w).0 max_age path) dirs
      → K.contents (cleanup_old_builds os read_dir build_dir max_age w).1 path ≡ K.contents w path
  unfolding cleanup_old_builds
  cleanup_old_builds-contents max_age path w dirs read spares = rw (
    read,
    cleanup_old_builds,
    clean_entries-contents (os.now w).0 max_age path dirs (read_dir build_dir (os.now w).1).1
        spares,
    K.read_dir-contents build_dir (os.now w).1,
    K.now-contents w,
  )
