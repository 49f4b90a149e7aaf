-- ===== src/Pipeline/Wiring/Frameworks.antt =====
-- For which frameworks and platforms the factories have a part.
use chef_infra.Base.{String, ◌<>◌, ◌==◌, ◌≡◌, ◌⊎◌, inl, inr, Bool, ◌||◌, Bool-cases, arith}
use chef_infra.Base.Result.{ok, err, Result-cases}
use chef_infra.Pipeline.Config.{PipelineConfig, Under}
use chef_infra.Pipeline.Types.{Build, BuildResult}
use chef_infra.Pipeline.Interfaces.{Builder, Options}
use chef_infra.Pipeline.BuildContext.{wrap}
use chef_infra.Pipeline.NodeJsBuilder.{nodejs_builder}
use chef_infra.Pipeline.NodeJsBuilder.Results.{run_build-Under}
use chef_infra.Pipeline.Wiring.{Platform, new_nodejs_builder, create_builder}

-- The frameworks that are built by node.
abbrev pub IsNodeFramework : String → Type 0
IsNodeFramework f = (f ≡ "react") ⊎ (f ≡ "vue") ⊎ (f ≡ "svelte") ⊎ (f ≡ "angular")

module _ {W : Type 0} (X : Platform W) (config : PipelineConfig) where
  -- The factory makes a builder for react, vue, svelte and angular alone, and then the NodeJS
  -- builder; for any other framework it fails and does nothing.
  pub create_builder_lem :
      (framework : String) (options : Options) (w : W)
      → (IsNodeFramework framework
          × (create_builder X config framework options w
              ≡ wrap "failed to create nodejs builder" (new_nodejs_builder X config options) w))
        ⊎ (¬ (IsNodeFramework framework)
            × (create_builder X config framework options w
                ≡ (err ("unsupported framework: " <> framework), w)))
  unfolding create_builder
  create_builder_lem framework options w =
      elim (Bool-cases (
        framework == "react"
        || framework == "vue"
        || framework == "svelte"
        || framework == "angular")) [
          | inl known ↦ inl (ground arith, rw known)
          | inr unknown ↦ inr (λ node. ground arith, rw unknown)
        ]

  -- The results of the builders that the factory makes lie in their work directories.
  pub create_builder-Under :
      (framework : String) (options : Options) (builder : Builder W) (w : W)
      → (create_builder X config framework options w).0 ≡ ok builder
      → (ctx : Bool) (build : Build) (result : BuildResult) (v : W)
      → (builder.build ctx build v).0 ≡ ok result
      → Under options.work_dir result.artifact_path
  unfolding new_nodejs_builder
  create_builder-Under framework options builder w made ctx build result v h =
      elim (create_builder_lem framework options w) [
        | inr (_, failed) ↦ absurd (ground arith)
        | inl (_, same) ↦ elim (Result-cases (X.new_docker_client w).0) [
          | inr (e, failed) ↦ absurd (ground arith)
          | inl (docker, connected) ↦
              let is_node : builder
                  ≡ nodejs_builder X.os X.files docker X.path_of config.nodejs options =
                ground arith in
              run_build-Under X.os X.files docker X.path_of config.nodejs options ctx build result v
                (rw is_node at h)
        ]
      ]
