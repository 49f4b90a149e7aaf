-- ===== src/Pipeline/Kubernetes/Limits.antt =====
-- How many replicas `Deploy` of internal/pipeline/deployer/k8s_deployer.go asks for: the count of
-- the configuration, cut down to an int32 by `int32(d.config.ReplicaCount)`.
use chef_infra.Base.{ℕ, ◌<◌, ◌*◌, ◌≡◌, ◌↔◌, some, arith}
use chef_infra.Base.Result.{ok}
use chef_infra.Pipeline.Config.{DeployConfig}
use chef_infra.Pipeline.Types.{Build}
use chef_infra.Pipeline.Kubernetes.Client.{DeploymentSpec, K8sClient, IsCluster}
use chef_infra.Pipeline.Kubernetes.{deploy, deployment_of}
use chef_infra.Pipeline.Kubernetes.Applied.{deploy_ok}

-- The bits of an int32 are those of a number that is not negative.
abbrev pub IsInt32 : ℕ → ℕ → Type 0
IsInt32 bits n = (bits ≡ n) × (n < 2147483648)

module _ {W : Type 0} (C : K8sClient W) (K : IsCluster C) where
  -- With the cluster's documented behaviour, a deployment that reports success is in the cluster
  -- with the configured number of replicas, as an int32, exactly where that number is below 2 ^ 31,
  -- and with no replica at all where it is a multiple of 2 ^ 32.
  pub deploy-replicas :
      (config : DeployConfig) (build : Build) (w : W)
      → (deploy C config build w).0 ≡ ok tt
      → (spec : DeploymentSpec) × (K.deployments
            (deploy C config build w).1
            config.namespace
            build.project_id
          ≡ some spec)
        × (IsInt32 spec.replicas config.replica_count ↔ (config.replica_count < 2147483648))
        × ((k : ℕ) → config.replica_count ≡ k * 4294967296 → spec.replicas ≡ 0)
  deploy-replicas config build w done =
      let (there, _, _) = deploy_ok C config build K w done in
      (
        (deployment_of config build).spec,
        there,
        (λ h. h.1, λ h. (omega arith, h)),
        λ k e. omega (arith, e),
      )
