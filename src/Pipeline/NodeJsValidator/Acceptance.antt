-- ===== src/Pipeline/NodeJsValidator/Acceptance.antt =====
-- Which builds and artifacts the validator of nodejs_validator.go accepts.
use chef_infra.Base.{
  ℕ, zero, suc, ◌≤◌, String, ◌==◌, ◌≡◌, ◌≢◌, ◌↔◌, ◌⊎◌, inl, inr, some, List, [], ◌∷◌, Bool-cases,
  Option-cases, get_elem?, arith,
}
use chef_infra.Base.Result.{Result, ok, Result-cases}
use chef_infra.Base.Dict.{lookup}
use chef_infra.Pipeline.Config.{FilePath, NodeJsConfig, PipelineConfig}
use chef_infra.Pipeline.Types.{Build}
use chef_infra.Pipeline.Interfaces.{Os, FileInfo, Deps}
use chef_infra.Pipeline.{Pipeline, start_build}
use chef_infra.Pipeline.NodeJsValidator.{
  PackageJson, node_engine, is_allowed, validate_node_version, validate_build_script,
  read_package_json, validate_artifact, validate_build_config, nodejs_validator,
}

allowed_of_is_allowed :
    (node : String) (allowed : List String)
    → is_allowed node allowed ≡ ok tt
    → (i : ℕ) × (get_elem? allowed i ≡ some node)
unfolding is_allowed
allowed_of_is_allowed node [] h = absurd (cc h)
allowed_of_is_allowed node (a ∷ rest) h = elim (Bool-cases (node == a)) [
  | inl same ↦ (zero, ground arith)
  | inr differ ↦ let (i, found) = allowed_of_is_allowed node rest (ground arith) in (suc i, found)
]

is_allowed_of_allowed :
    (node : String) (allowed : List String) (i : ℕ)
    → get_elem? allowed i ≡ some node
    → is_allowed node allowed ≡ ok tt
unfolding is_allowed
is_allowed_of_allowed node [] i h = absurd (cc h)
is_allowed_of_allowed node (a ∷ rest) zero h = ground arith
is_allowed_of_allowed node (a ∷ rest) (suc i) h =
    ground (arith, is_allowed_of_allowed node rest i h)

-- The package asks for no node version, or for one that is allowed word for word.
abbrev pub SupportsNode : NodeJsConfig → PackageJson → Type 0
SupportsNode config pkg =
    (node_engine pkg ≡ "")
    ⊎ ((i : ℕ) × (get_elem? config.allowed_engines i ≡ some (node_engine pkg)))

validate_node_version_iff :
    (config : NodeJsConfig) (pkg : PackageJson)
    → (validate_node_version config pkg ≡ ok tt) ↔ SupportsNode config pkg
unfolding validate_node_version
validate_node_version_iff config pkg = elim (Bool-cases (node_engine pkg == "")) [
  | inl empty ↦ (λ _. inl (ground arith), λ _. ground arith)
  | inr given ↦ (
    λ h. inr (allowed_of_is_allowed (node_engine pkg) config.allowed_engines (ground arith)),
    λ s. elim s [
      | inl e ↦ absurd (ground arith)
      | inr (i, there) ↦
          ground (arith, is_allowed_of_allowed (node_engine pkg) config.allowed_engines i there)
    ],
  )
]

-- The build names a script of the package.
abbrev pub HasScript : PackageJson → Build → Type 0
HasScript pkg build =
    (build.build_command ≢ "")
    × (script : String) × (lookup build.build_command pkg.scripts ≡ some script)

validate_build_script_iff :
    (pkg : PackageJson) (build : Build)
    → (validate_build_script pkg build ≡ ok tt) ↔ HasScript pkg build
unfolding validate_build_script
validate_build_script_iff pkg build = elim (Option-cases (lookup build.build_command pkg.scripts)) [
  | inl missing ↦
      (λ h. absurd (ground arith), λ (given, script, found). absurd (cc (missing, found)))
  | inr (script, found) ↦
      (λ h. (ground arith, script, found), λ (given, script', found'). ground arith)
]

module _ {W : Type 0} (os : Os W) (path_of : String → FilePath)
    (unmarshal : String → Result String PackageJson) where
  -- A build is accepted exactly when its package.json is read and parsed, asks for no node version
  -- or an allowed one, and has a script with the name of the build command.
  pub validate_build_config_iff :
      (config : NodeJsConfig) (build : Build) (w : W)
      → ((validate_build_config os path_of unmarshal config build w).0 ≡ ok tt) ↔ (
          (pkg : PackageJson) × ((read_package_json os path_of unmarshal build w).0 ≡ ok pkg)
          × SupportsNode config pkg
          × HasScript pkg build)
  unfolding validate_build_config
  validate_build_config_iff config build w =
      elim (Result-cases (read_package_json os path_of unmarshal build w).0) [
        | inr (e, failed) ↦
            (λ h. absurd (ground arith), λ (pkg, read, node, script). absurd (cc (failed, read)))
        | inl (pkg, read) ↦ (
          λ h. (
            pkg,
            read,
            (validate_node_version_iff config pkg).0 (ground arith),
            (validate_build_script_iff pkg build).0 (ground arith),
          ),
          λ (pkg', read', node, script).
              let same : pkg' ≡ pkg = cc (read, read') in
              ground (
                arith,
                (validate_node_version_iff config pkg).1 (rw same at node),
                (validate_build_script_iff pkg build).1 (rw same at script),
              ),
        )
      ]

  -- An artifact is accepted exactly when the file system knows it, at both looks, and its size at
  -- the second is at most 104857600 bytes.
  pub validate_artifact_iff :
      (path : FilePath) (w : W)
      → ((validate_artifact os path_of unmarshal path w).0 ≡ ok tt) ↔ (
          (first second : FileInfo) × ((os.stat path w).0 ≡ ok first)
          × ((os.stat path (os.stat path w).1).0 ≡ ok second)
          × (second.size ≤ 104857600))
  unfolding validate_artifact
  validate_artifact_iff path w = elim (Result-cases (os.stat path w).0) [
    | inr (e, failed) ↦
        (λ h. absurd (ground arith), λ (a, b, h, h', small). absurd (cc (failed, h)))
    | inl (first, found) ↦ elim (Result-cases (os.stat path (os.stat path w).1).0) [
      | inr (e, failed) ↦
          (λ h. absurd (ground arith), λ (a, b, h', h, small). absurd (cc (failed, h)))
      | inl (second, again) ↦
          (λ h. (first, second, found, again, ground arith), λ (a, b, h', h, small). ground arith)
    ]
  ]

  -- With this validator, `StartBuild` accepts only builds whose package.json supports an allowed
  -- node version and has the build's script.
  pub start_build-validated :
      (deps : Deps W) (config : PipelineConfig) (build : Build) (p : Pipeline W)
      → deps.validator ≡ nodejs_validator os path_of unmarshal config.nodejs
      → (start_build deps config build p).0 ≡ ok tt
      → (pkg : PackageJson) × ((read_package_json os path_of unmarshal build p.world).0 ≡ ok pkg)
        × SupportsNode config.nodejs pkg
        × HasScript pkg build
  unfolding start_build
  start_build-validated deps config build p installed started =
      (validate_build_config_iff config.nodejs build p.world).0
        (elim (Result-cases (deps.validator.validate_build_config build p.world).0) [
          | inr (e, failed) ↦ absurd (ground arith)
          | inl (_, fine) ↦ rw installed at fine
        ])
