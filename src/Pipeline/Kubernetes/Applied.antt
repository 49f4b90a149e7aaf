-- ===== src/Pipeline/Kubernetes/Applied.antt =====
-- What a deployment by k8s_deployer.go leaves in the cluster.
use chef_infra.Base.{String, ◌≤◌, ◌≡◌, ◌≢◌, ◌↔◌, ◌∙◌, true, some, inl, inr, Bool-cases, arith}
use chef_infra.Base.Result.{ok, err, Result-cases}
use chef_infra.Base.Exec.{Exec}
use chef_infra.Pipeline.Config.{DeployConfig}
use chef_infra.Pipeline.Types.{Build}
use chef_infra.Pipeline.Kubernetes.Client.{Deployment, Service, Ingress, K8sClient, IsCluster}
use chef_infra.Pipeline.Kubernetes.{apply, deploy, validate, deployment_of, service_of, ingress_of}

-- What the messages of `Validate` ask for.
pub record IsDeployable (config : DeployConfig) (build : Build) : Type 0 where
  pub project_given : build.project_id ≢ ""
  pub image_given : build.image_id ≢ ""
  pub namespace_given : config.namespace ≢ ""
  pub domain_given : config.ingress_domain ≢ ""
  pub one_replica : 1 ≤ config.replica_count

-- `Validate` accepts exactly the builds with a project and an image, where the configuration has a
-- namespace, an ingress domain and at least one replica.
pub validate_iff :
    (config : DeployConfig) (build : Build)
    → (validate config build ≡ ok tt) ↔ IsDeployable config build
unfolding validate
validate_iff config build = ground arith

module _ {W : Type 0} (C : K8sClient W) where
  -- Any call that creates may find the object there already, and then the update succeeds; it
  -- fails for no other reason.
  pub record IsAvailable : Type 0 where
    pub deployment_updates :
        (ns : String) (d : Deployment) (w : W) (e : C.Failure)
        → (C.create_deployment ns d w).0 ≡ err e
        → (C.is_already_exists e ≡ true)
          × ((C.update_deployment ns d (C.create_deployment ns d w).1).0 ≡ ok tt)
    pub service_updates :
        (ns : String) (s : Service) (w : W) (e : C.Failure)
        → (C.create_service ns s w).0 ≡ err e
        → (C.is_already_exists e ≡ true)
          × ((C.update_service ns s (C.create_service ns s w).1).0 ≡ ok tt)
    pub ingress_updates :
        (ns : String) (i : Ingress) (w : W) (e : C.Failure)
        → (C.create_ingress ns i w).0 ≡ err e
        → (C.is_already_exists e ≡ true)
          × ((C.update_ingress ns i (C.create_ingress ns i w).1).0 ≡ ok tt)

  module _ (kind : String) (create update : Exec C.Failure W (Unit {0})) where
    apply_available :
        (w : W)
        → ((e : C.Failure)
            → (create w).0 ≡ err e
            → (C.is_already_exists e ≡ true) × ((update (create w).1).0 ≡ ok tt))
        → (apply C kind create update w).0 ≡ ok tt
    unfolding apply
    apply_available w updates = elim (Result-cases (create w).0) [
      | inl (_, fine) ↦ rw (fine, apply)
      | inr (e, failed) ↦
          let (there, updated) = updates e failed in rw (failed, there, updated, apply)
    ]

    -- What both calls establish where they succeed.
    apply_ok :
        (P : W → Type 0)
        → ((w : W) → (create w).0 ≡ ok tt → P (create w).1)
        → ((w : W) → (update w).0 ≡ ok tt → P (update w).1)
        → (w : W) → (apply C kind create update w).0 ≡ ok tt
        → P (apply C kind create update w).1
    unfolding apply
    apply_ok P created updated w h = elim (Result-cases (create w).0) [
      | inl (_, fine) ↦ rw (fine, apply) (created w fine)
      | inr (e, failed) ↦ elim (Bool-cases (C.is_already_exists e)) [
        | inl there ↦ rw (failed, there, apply) (updated (create w).1 (ground arith))
        | inr other ↦ absurd (ground arith)
      ]
    ]

    -- What neither call changes.
    apply_keeps :
        {A : Type 0} (view : W → A)
        → ((w : W) → view (create w).1 ≡ view w)
        → ((w : W) → view (update w).1 ≡ view w)
        → (w : W) → view (apply C kind create update w).1 ≡ view w
    unfolding apply
    apply_keeps view created updated w = elim (Result-cases (create w).0) [
      | inl (_, fine) ↦ rw (fine, apply) (created w)
      | inr (e, failed) ↦ elim (Bool-cases (C.is_already_exists e)) [
        | inl there ↦ rw (failed, there, apply) (updated (create w).1 ∙ created w)
        | inr other ↦ rw (failed, other, apply) (created w)
      ]
    ]

  module _ (config : DeployConfig) (build : Build) where
    abbrev create_deployment : Exec C.Failure W (Unit {0})
    create_deployment = C.create_deployment config.namespace (deployment_of config build)

    abbrev update_deployment : Exec C.Failure W (Unit {0})
    update_deployment = C.update_deployment config.namespace (deployment_of config build)

    abbrev apply_deployment : Exec String W (Unit {0})
    apply_deployment = apply C "deployment" create_deployment update_deployment

    abbrev create_service : Exec C.Failure W (Unit {0})
    create_service = C.create_service config.namespace (service_of config build)

    abbrev update_service : Exec C.Failure W (Unit {0})
    update_service = C.update_service config.namespace (service_of config build)

    abbrev apply_service : Exec String W (Unit {0})
    apply_service = apply C "service" create_service update_service

    abbrev create_ingress : Exec C.Failure W (Unit {0})
    create_ingress = C.create_ingress config.namespace (ingress_of config build)

    abbrev update_ingress : Exec C.Failure W (Unit {0})
    update_ingress = C.update_ingress config.namespace (ingress_of config build)

    abbrev apply_ingress : Exec String W (Unit {0})
    apply_ingress = apply C "ingress" create_ingress update_ingress

    deploy_parts :
        (w : W)
        → (deploy C config build w).0 ≡ ok tt
        → let w₁ = (apply_deployment w).1 in
          let w₂ = (apply_service w₁).1 in
          ((apply_deployment w).0 ≡ ok tt)
          × ((apply_service w₁).0 ≡ ok tt)
          × ((apply_ingress w₂).0 ≡ ok tt)
          × ((deploy C config build w).1 ≡ (apply_ingress w₂).1)
    unfolding deploy
    deploy_parts w h = ground arith

    -- An available cluster takes every deployment, whatever is there already.
    pub deploy_available : IsAvailable → (w : W) → (deploy C config build w).0 ≡ ok tt
    unfolding deploy
    deploy_available available w =
        let w₁ = (apply_deployment w).1 in
        let w₂ = (apply_service w₁).1 in
        ground (
          arith,
          apply_available "deployment" create_deployment update_deployment w
              (available.deployment_updates config.namespace (deployment_of config build) w),
          apply_available "service" create_service update_service w₁
              (available.service_updates config.namespace (service_of config build) w₁),
          apply_available "ingress" create_ingress update_ingress w₂
              (available.ingress_updates config.namespace (ingress_of config build) w₂),
        )

    module _ (K : IsCluster C) where
      -- The cluster has the three objects of the build.
      abbrev pub IsDeployed : W → Type 0
      IsDeployed w =
          (K.deployments w config.namespace build.project_id
            ≡ some (deployment_of config build).spec)
          × (K.services w config.namespace build.project_id ≡ some (service_of config build).spec)
          × (K.ingresses w config.namespace build.project_id ≡ some (ingress_of config build).spec)

      -- A deployment that reports success leaves the build's deployment, service and ingress in
      -- the cluster as `Deploy` specifies them, whether they were created or updated.
      pub deploy_ok :
          (w : W) → (deploy C config build w).0 ≡ ok tt → IsDeployed (deploy C config build w).1
      deploy_ok w h =
          let ns = config.namespace in
          let d = deployment_of config build in
          let s = service_of config build in
          let i = ingress_of config build in
          let (done₁, done₂, done₃, after) = deploy_parts w h in
          let w₁ = (apply_deployment w).1 in
          let w₂ = (apply_service w₁).1 in
          rw after (
            rw
                (apply_keeps "ingress" create_ingress update_ingress K.deployments
                    (K.create_ingress-deployments ns i) (K.update_ingress-deployments ns i) w₂
                  ∙ apply_keeps "service" create_service update_service K.deployments
                      (K.create_service-deployments ns s) (K.update_service-deployments ns s) w₁)
                (apply_ok "deployment" create_deployment update_deployment
                  (λ v. K.deployments v ns d.name ≡ some d.spec) (K.created_deployment ns d)
                  (K.updated_deployment ns d) w done₁),
            rw
                (apply_keeps "ingress" create_ingress update_ingress K.services
                  (K.create_ingress-services ns i) (K.update_ingress-services ns i) w₂)
                (apply_ok "service" create_service update_service
                  (λ v. K.services v ns s.name ≡ some s.spec) (K.created_service ns s)
                  (K.updated_service ns s) w₁ done₂),
            apply_ok "ingress" create_ingress update_ingress
                (λ v. K.ingresses v ns i.name ≡ some i.spec) (K.created_ingress ns i)
                (K.updated_ingress ns i) w₂ done₃,
          )
