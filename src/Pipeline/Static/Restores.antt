-- ===== src/Pipeline/Static/Restores.antt =====
-- What a rollback by static_deployer.go restores.
use chef_infra.Base.{
  String, ◌<>◌, Bool, Option, some, [], ◌∷◌, ◌++◌, ◌≡◌, ◌≢◌, ◌∙◌, inl, inr, arith,
}
use chef_infra.Base.Result.{ok, Result-cases}
use chef_infra.Pipeline.Config.{FilePath, Under, DeployConfig}
use chef_infra.Pipeline.Types.{Build}
use chef_infra.Pipeline.Interfaces.{Os, FileInfo}
use chef_infra.Pipeline.Static.{
  Tar, create_backup, extract_artifact, deploy, rollback, target_dir, backup_path,
}

-- What is documented of the file system and of `tar`.
pub record IsFiles {W : Type 0} (os : Os W) (tar : Tar W) : Type 0 where
  -- The contents of the file with a name in a directory, and what an archive holds of each name.
  pub tree : W → FilePath → String → Option String
  pub archive : W → FilePath → Option (String → Option String)
  pub mkdir_all-tree : (path : FilePath) (w : W) → tree (os.mkdir_all path w).1 ≡ tree w
  pub mkdir_all-archive : (path : FilePath) (w : W) → archive (os.mkdir_all path w).1 ≡ archive w
  pub stat-tree : (path : FilePath) (w : W) → tree (os.stat path w).1 ≡ tree w
  pub created :
      (path source : FilePath) (w : W)
      → (tar.create path source w).0 ≡ ok tt
      → archive (tar.create path source w).1 path ≡ some (tree w source)
  pub extracted :
      (path target : FilePath) (held : String → Option String) (w : W)
      → archive w path ≡ some held
      → (tar.extract path target w).0 ≡ ok tt
      → (name contents : String) → held name ≡ some contents
      → tree (tar.extract path target w).1 target name ≡ some contents
  pub extract-archive :
      (path target other : FilePath) (w : W)
      → ¬ (Under target other)
      → archive (tar.extract path target w).1 other ≡ archive w other

not_under :
    (dir : FilePath) (project file : String) (rest : FilePath)
    → project ≢ "backups"
    → (dir ++ (project ∷ [])) ++ rest ≢ dir ++ ("backups" ∷ file ∷ [])
not_under [] project file rest differ e = differ (cc e)
not_under (name ∷ dir) project file rest differ e = not_under dir project file rest differ (cc e)

module _ {W : Type 0} (os : Os W) (tar : Tar W) (is_not_exist : String → Bool)
    (config : DeployConfig) (K : IsFiles os tar) (build : Build) where
  abbrev target : FilePath
  target = target_dir config build

  abbrev backup : FilePath
  backup = backup_path config build

  create_backup-archive :
      (w : W) (info : FileInfo)
      → (os.stat target w).0 ≡ ok info
      → (create_backup os tar is_not_exist config target build w).0 ≡ ok tt
      → K.archive (create_backup os tar is_not_exist config target build w).1 backup
        ≡ some (K.tree w target)
  unfolding create_backup
  create_backup-archive w info there saved =
      let s = os.stat target w in
      let m = os.mkdir_all (config.static_path ++ ("backups" ∷ [])) s.1 in
      elim (Result-cases m.0) [
        | inr (e, failed) ↦ absurd (ground arith)
        | inl (_, made) ↦ ground (
          arith,
          K.created backup target m.1,
          K.mkdir_all-tree (config.static_path ++ ("backups" ∷ [])) s.1,
          K.stat-tree target w,
        )
      ]

  extract_artifact-archive :
      build.project_id ≢ "backups"
      → (path : FilePath) (w : W)
      → K.archive (extract_artifact os tar is_not_exist config path target w).1 backup
        ≡ K.archive w backup
  unfolding extract_artifact
  extract_artifact-archive differ path w =
      let outside : ¬ (Under target backup) = λ (rest, e).
        not_under config.static_path build.project_id (build.id <> ".tar.gz") rest differ e in
      let m = os.mkdir_all target w in
      elim (Result-cases m.0) [
        | inr (e, failed) ↦ ground (arith, K.mkdir_all-archive target w)
        | inl (_, made) ↦
            ground (
              arith,
              K.extract-archive path target backup m.1 outside,
              K.mkdir_all-archive target w,
            )
      ]

  deploy_saved :
      (w : W)
      → let w₁ = (os.mkdir_all config.static_path w).1 in
        let saved = create_backup os tar is_not_exist config target build w₁ in
        (os.mkdir_all config.static_path w).0 ≡ ok tt
        → saved.0 ≡ ok tt
        → (deploy os tar is_not_exist config build w).1
          ≡ (extract_artifact os tar is_not_exist config build.artifact_path target saved.1).1
  unfolding deploy
  deploy_saved w made saved = ground arith

  rollback_restored :
      (w : W) (held : String → Option String)
      → K.archive w backup ≡ some held
      → (rollback os tar is_not_exist config build w).0 ≡ ok tt
      → (name contents : String) → held name ≡ some contents
      → K.tree (rollback os tar is_not_exist config build w).1 target name ≡ some contents
  unfolding rollback extract_artifact
  rollback_restored w held archived done name contents has =
      let m = os.mkdir_all target w in
      elim (Result-cases m.0) [
        | inr (e, failed) ↦ absurd (ground arith)
        | inl (_, made) ↦
            let kept : K.archive m.1 backup ≡ some held =
              rw (K.mkdir_all-archive target w) archived in
            let fine : (tar.extract backup target m.1).0 ≡ ok tt = ground arith in
            ground (arith, K.extracted backup target held m.1 kept fine name contents has)
      ]

  -- Where a deployment found the project's directory and saved it, a rollback that reports success
  -- gives every file of that directory its contents from before, whether the deployment itself
  -- succeeded or failed. A project with the id "backups" is excepted.
  pub rollback-deploy :
      build.project_id ≢ "backups"
      → (w : W) (info : FileInfo)
      → let w₁ = (os.mkdir_all config.static_path w).1 in
        let after = (deploy os tar is_not_exist config build w).1 in
        (os.mkdir_all config.static_path w).0 ≡ ok tt
        → (os.stat target w₁).0 ≡ ok info
        → (create_backup os tar is_not_exist config target build w₁).0 ≡ ok tt
        → (rollback os tar is_not_exist config build after).0 ≡ ok tt
        → (name contents : String) → K.tree w target name ≡ some contents
        → K.tree (rollback os tar is_not_exist config build after).1 target name ≡ some contents
  rollback-deploy differ w info made there saved restored name contents had =
      let w₁ = (os.mkdir_all config.static_path w).1 in
      let w₂ = (create_backup os tar is_not_exist config target build w₁).1 in
      rollback_restored (deploy os tar is_not_exist config build w).1 (K.tree w₁ target)
        (rw (deploy_saved w made saved) (
          extract_artifact-archive differ build.artifact_path w₂
          ∙ create_backup-archive w₁ info there saved))
        restored name contents (rw (K.mkdir_all-tree config.static_path w) had)
