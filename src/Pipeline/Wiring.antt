-- ===== src/Pipeline/Wiring.antt =====
-- Which parts a pipeline gets: internal/pipeline/builder/factory.go,
-- internal/pipeline/deployer/factory.go, `NewK8sDeployer` of deployer/k8s_deployer.go and
-- internal/pipeline/module.go.
pub mod Frameworks
use chef_infra.Base.{ℕ, String, ◌<>◌, ◌==◌, Bool, ◌||◌, List, [], ◌∷◌, ◌++◌, if◌then◌else◌}
use chef_infra.Base.Result.{Result, ok}
use chef_infra.Base.Exec.{pure, raise, ◌>>=◌, ◌>>◌}
use chef_infra.Pipeline.Config.{FilePath, PipelineConfig, DeployConfig}
use chef_infra.Pipeline.Interfaces.{Action, Os, Builder, Options, Factory, Deployer, Deps}
use chef_infra.Pipeline.BuildContext.{wrap}
use chef_infra.Pipeline.NodeJsValidator.{PackageJson, nodejs_validator}
use chef_infra.Pipeline.NodeJsBuilder.Outside.{Docker, Files}
use chef_infra.Pipeline.NodeJsBuilder.{nodejs_builder}
use chef_infra.Pipeline.Kubernetes.Client.{ReplicaSet}
use chef_infra.Pipeline.Kubernetes.RealClient.{ClientSet, real_k8s_client}
use chef_infra.Pipeline.Kubernetes.{k8s_deployer}
use chef_infra.Pipeline.Static.{Tar, new_static_config, static_deployer}

-- What the machine and the packages outside offer. `RestConfig` is client-go's; `clientset` is what
-- a successful `new_for_config` makes.
pub record Platform (W : Type 0) : Type 1 where
  pub os : Os W
  pub Bytes : Type 0
  pub files : Files W Bytes
  pub new_docker_client : Action W (Docker W Bytes)
  pub tar : Tar W
  pub is_not_exist : String → Bool
  pub path_of : String → FilePath
  pub unmarshal : String → Result String PackageJson
  pub home : FilePath
  pub RestConfig : Type 0
  pub build_config_from_flags : FilePath → Action W RestConfig
  pub new_for_config : RestConfig → Action W (Unit {0})
  pub clientset : ClientSet W
  pub atoi : String → ℕ
  pub sort_slice : (ReplicaSet → ReplicaSet → Bool) → List ReplicaSet → List ReplicaSet

module _ {W : Type 0} (X : Platform W) where
  unfoldable pub new_nodejs_builder : PipelineConfig → Options → Action W (Builder W)
  new_nodejs_builder config options = do
    docker ← wrap "failed to create docker client" X.new_docker_client
    pure (nodejs_builder X.os X.files docker X.path_of config.nodejs options)

  unfoldable pub create_builder : PipelineConfig → String → Options → Action W (Builder W)
  create_builder config framework options =
      if framework == "react"
        || framework == "vue"
        || framework == "svelte"
        || framework == "angular"
      then wrap "failed to create nodejs builder" (new_nodejs_builder config options)
      else raise ("unsupported framework: " <> framework)

  abbrev pub builder_factory : PipelineConfig → Factory W
  builder_factory config = record { create_builder = create_builder config }

  unfoldable pub new_k8s_deployer : DeployConfig → Action W (Deployer W)
  new_k8s_deployer config = do
    rest ←
        wrap "failed to load kubeconfig"
          (X.build_config_from_flags (X.home ++ (".kube" ∷ "config" ∷ [])))
    wrap "failed to create k8s client" (X.new_for_config rest)
    pure (k8s_deployer (real_k8s_client X.clientset) X.atoi X.sort_slice config)

  unfoldable pub new_deployer : DeployConfig → Action W (Deployer W)
  new_deployer config =
      if config.platform == "kubernetes"
      then new_k8s_deployer config
      else if config.platform == "static"
      then pure (static_deployer X.os X.tar X.is_not_exist (new_static_config config))
      else raise ("unsupported deployment platform: " <> config.platform)

  -- What `Module` provides for `NewPipeline`.
  unfoldable pub provide_deps : PipelineConfig → Action W (Deps W)
  provide_deps config = do
    deployer ← new_deployer config.deploy
    pure (record {
      os = X.os;
      factory = builder_factory config;
      deployer = deployer;
      validator = nodejs_validator X.os X.path_of X.unmarshal config.nodejs;
    })
