-- ===== src/Pipeline/Kubernetes.antt =====
-- `K8sDeployer` of internal/pipeline/deployer/k8s_deployer.go over the client of the module below.
-- `sort.Slice` and `strconv.Atoi`, whose error the source drops, are parameters; revision numbers
-- are natural. Logging is left out.
pub mod Client
pub mod RealClient
pub mod Applied
pub mod Revisions
pub mod Limits
use Prim.Native.Nat.{◌%◌}
use chef_infra.Base.{
  ℕ, String, ◌<>◌, ◌==◌, Bool, Option, none, some, List, [], ◌∷◌, ltb, length, get_elem?,
  if◌then◌else◌,
}
use chef_infra.Base.Result.{Result, ok, err, map_err}
use chef_infra.Base.Exec.{Exec, raise, ◌>>=◌, ◌>>◌}
use chef_infra.Base.Dict.{Dict, lookup, insert}
use chef_infra.Pipeline.Config.{DeployConfig}
use chef_infra.Pipeline.Types.{Build}
use chef_infra.Pipeline.Interfaces.{Action, Deployer}
use Client.{
  Container, DeploymentSpec, Deployment, ServiceSpec, Service, IngressSpec, Ingress, ReplicaSet,
  K8sClient,
}

-- `map[string]string{"app": build.ProjectID}`
abbrev app_label : Build → Dict String
app_label build = ("app", build.project_id) ∷ []

abbrev pub deployment_of : DeployConfig → Build → Deployment
deployment_of config build = record {
  name = build.project_id;
  namespace = config.namespace;
  annotations = none;
  spec = record {
    replicas = config.replica_count % 4294967296;
    match_labels = app_label build;
    template_labels = app_label build;
    containers = record { name = build.project_id; image = build.image_id; ports = 80 ∷ [] } ∷ [];
  };
}

abbrev pub service_of : DeployConfig → Build → Service
service_of config build = record {
  name = build.project_id;
  namespace = config.namespace;
  spec = record {
    selector = app_label build;
    port = 80;
    target_port = 80;
    service_type = "ClusterIP";
  };
}

abbrev pub ingress_of : DeployConfig → Build → Ingress
ingress_of config build = record {
  name = build.project_id;
  namespace = config.namespace;
  annotations = ("nginx.ingress.kubernetes.io/rewrite-target", "/") ∷ [];
  spec = record {
    host = build.project_id <> ("." <> config.ingress_domain);
    path = "/";
    path_type = "Prefix";
    backend_name = build.project_id;
    backend_port = 80;
  };
}

unfoldable pub validate : DeployConfig → Build → Result String (Unit {0})
validate config build =
    if build.project_id == ""
    then err "project ID is required for kubernetes deployment"
    else if build.image_id == ""
    then err "image ID is required for kubernetes deployment"
    else if config.namespace == ""
    then err "kubernetes namespace is not configured"
    else if config.ingress_domain == ""
    then err "ingress domain is not configured"
    else if ltb config.replica_count 1
    then err "replica count must be at least 1"
    else ok tt

-- The annotations with the cause of the change, in a new map where there was none.
abbrev pub with_cause : Option (Dict String) → Dict String
with_cause none = insert "kubernetes.io/change-cause" "Rollback triggered by Chef" []
with_cause (some old) = insert "kubernetes.io/change-cause" "Rollback triggered by Chef" old

module _ {W : Type 0} (C : K8sClient W) where
  -- A client's call, with the text of its error.
  abbrev pub call : {A : Type 0} → String → Exec C.Failure W A → Action W A
  call text m w = (map_err (λ e. text <> (": " <> C.failure_text e)) (m w).0, (m w).1)

  -- Creates the object, and updates it where it exists.
  unfoldable pub apply :
      String → Exec C.Failure W (Unit {0}) → Exec C.Failure W (Unit {0}) → Action W (Unit {0})
  apply kind create update w =
      let (r, w') = create w in
      elim r [
        | ok _ ↦ (ok tt, w')
        | err e ↦
            if C.is_already_exists e
            then call ("failed to update " <> kind) update w'
            else (err (("failed to create " <> kind) <> (": " <> C.failure_text e)), w')
      ]

  unfoldable pub deploy : DeployConfig → Build → Action W (Unit {0})
  deploy config build = do
    apply "deployment" (C.create_deployment config.namespace (deployment_of config build))
        (C.update_deployment config.namespace (deployment_of config build))
    apply "service" (C.create_service config.namespace (service_of config build))
        (C.update_service config.namespace (service_of config build))
    apply "ingress" (C.create_ingress config.namespace (ingress_of config build))
        (C.update_ingress config.namespace (ingress_of config build))

  module _ (atoi : String → ℕ)
      (sort_slice : (ReplicaSet → ReplicaSet → Bool) → List ReplicaSet → List ReplicaSet) where
    -- The number of a revision; a missing annotation reads as "".
    unfoldable pub revision : ReplicaSet → ℕ
    revision r = elim (lookup "deployment.kubernetes.io/revision" r.annotations) [
      | none ↦ atoi ""
      | some number ↦ atoi number
    ]

    -- The order that `sort.Slice` is given: later revisions first.
    abbrev pub is_later : ReplicaSet → ReplicaSet → Bool
    is_later r s = ltb (revision s) (revision r)

    -- The last case is an index out of range.
    unfoldable pub rollback : DeployConfig → Build → Action W (Unit {0})
    rollback config build = do
      deployment ←
          call "failed to get deployment" (C.get_deployment config.namespace build.project_id)
      items ←
          call "failed to get deployment history"
            (C.list_replica_sets config.namespace ("app=" <> build.project_id))
      if ltb (length items) 2
          then raise "no previous revision available for rollback"
          else elim (get_elem? (sort_slice is_later items) 1) [
            | some previous ↦ call "failed to rollback deployment" (
                C.update_deployment config.namespace (record deployment {
                  annotations = some (with_cause deployment.annotations);
                  spec = record deployment.spec { containers = previous.containers };
                }))
            | none ↦ raise "index out of range"
          ]

    abbrev pub k8s_deployer : DeployConfig → Deployer W
    k8s_deployer config = record {
      deploy = deploy config;
      rollback = rollback config;
      validate = λ build w. (validate config build, w);
    }
