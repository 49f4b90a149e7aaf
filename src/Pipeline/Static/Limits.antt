-- ===== src/Pipeline/Static/Limits.antt =====
-- Which artifacts static_deployer.go accepts under the configuration that it starts with.
use chef_infra.Base.{
  ℕ, ◌≤◌, String, Bool, [], ◌∷◌, ◌≡◌, ◌≢◌, ◌↔◌, refl, nat_eq, inl, inr, arith, if◌then◌else◌,
}
use chef_infra.Base.Result.{ok, Result-cases}
use chef_infra.Pipeline.Config.{FilePath, DeployConfig}
use chef_infra.Pipeline.Types.{Build}
use chef_infra.Pipeline.Interfaces.{Os, FileInfo}
use chef_infra.Pipeline.Static.{Tar, new_static_config, validate}

-- The size that is allowed: the configured one, or 100MB where none is.
abbrev pub allowed : DeployConfig → ℕ
allowed config = if nat_eq config.max_deploy_size 0 then 104857600 else config.max_deploy_size

module _ {W : Type 0} (os : Os W) (tar : Tar W) (is_not_exist : String → Bool)
    (config : DeployConfig) where
  abbrev IsAccepted : Build → W → Type 0
  IsAccepted build w = (validate os tar is_not_exist (new_static_config config) build w).0 ≡ ok tt

  IsAccepted-iff :
      (build : Build) (w : W) (path : FilePath)
      → build.artifact_path ≡ path
      → IsAccepted build w ↔ (
          (path ≢ [])
          × (info : FileInfo) × ((os.stat path w).0 ≡ ok info)
          × (info.size ≤ allowed config))
  unfolding validate new_static_config
  IsAccepted-iff build w [] same = (λ h. absurd (ground arith), λ h. absurd (h.0 cc))
  IsAccepted-iff build w (name ∷ rest) same = elim (Result-cases (os.stat (name ∷ rest) w).0) [
    | inr (e, failed) ↦
        (λ h. absurd (ground arith), λ (given, info, found, small). absurd (cc (failed, found)))
    | inl (info, found) ↦ (
      λ h. (λ e. absurd (cc e), info, found, ground arith),
      λ (given, info', found', small). ground arith,
    )
  ]

  -- With the configuration that `NewStaticDeployer` makes, a build is valid exactly when it has an
  -- artifact path whose file is found and is not larger than the configured size, or than
  -- 104857600 bytes where the configuration has 0.
  pub validate-new_static_config :
      (build : Build) (w : W)
      → ((validate os tar is_not_exist (new_static_config config) build w).0 ≡ ok tt) ↔ (
          (build.artifact_path ≢ [])
          × (info : FileInfo) × ((os.stat build.artifact_path w).0 ≡ ok info)
          × (info.size
              ≤ (if nat_eq config.max_deploy_size 0 then 104857600 else config.max_deploy_size)))
  validate-new_static_config build w = IsAccepted-iff build w build.artifact_path refl
