-- ===== src/Pipeline/Kubernetes/Client.antt =====
-- The interface `K8sClient` of internal/pipeline/deployer/k8s_client.go, with the fields of the
-- cluster's objects that internal/pipeline/deployer/k8s_deployer.go writes or reads. Of the objects
-- that a call returns, only those that are read are kept.
use chef_infra.Base.{ℕ, String, Bool, Option, List, some, ◌≡◌}
use chef_infra.Base.Result.{ok}
use chef_infra.Base.Exec.{Exec}
use chef_infra.Base.Dict.{Dict}

pub record Container : Type 0 where
  pub name : String
  pub image : String
  pub ports : List ℕ

-- `replicas` is an int32, given by its 32 bits.
pub record DeploymentSpec : Type 0 where
  pub replicas : ℕ
  pub match_labels : Dict String
  pub template_labels : Dict String
  pub containers : List Container

pub record Deployment : Type 0 where
  pub name : String
  pub namespace : String
  pub annotations : Option (Dict String)
  pub spec : DeploymentSpec

pub record ServiceSpec : Type 0 where
  pub selector : Dict String
  pub port : ℕ
  pub target_port : ℕ
  pub service_type : String

pub record Service : Type 0 where
  pub name : String
  pub namespace : String
  pub spec : ServiceSpec

pub record IngressSpec : Type 0 where
  pub host : String
  pub path : String
  pub path_type : String
  pub backend_name : String
  pub backend_port : ℕ

pub record Ingress : Type 0 where
  pub name : String
  pub namespace : String
  pub annotations : Dict String
  pub spec : IngressSpec

pub record ReplicaSet : Type 0 where
  pub annotations : Dict String
  pub containers : List Container

-- `Failure` is the client's error, `is_already_exists` is
-- `k8serrors.IsAlreadyExists`.
pub record K8sClient (W : Type 0) : Type 1 where
  pub Failure : Type 0
  pub is_already_exists : Failure → Bool
  pub failure_text : Failure → String
  pub create_deployment : String → Deployment → Exec Failure W (Unit {0})
  pub update_deployment : String → Deployment → Exec Failure W (Unit {0})
  pub get_deployment : String → String → Exec Failure W Deployment
  pub create_service : String → Service → Exec Failure W (Unit {0})
  pub update_service : String → Service → Exec Failure W (Unit {0})
  pub get_service : String → String → Exec Failure W Service
  pub create_ingress : String → Ingress → Exec Failure W (Unit {0})
  pub update_ingress : String → Ingress → Exec Failure W (Unit {0})
  pub get_ingress : String → String → Exec Failure W Ingress
  -- With the label selector.
  pub list_replica_sets : String → String → Exec Failure W (List ReplicaSet)

-- What the cluster documents: a namespace and a name give at most one specification of each kind,
-- a successful call stores the one that it is given, and a call changes no other kind.
pub record IsCluster {W : Type 0} (C : K8sClient W) : Type 1 where
  pub deployments : W → String → String → Option DeploymentSpec
  pub services : W → String → String → Option ServiceSpec
  pub ingresses : W → String → String → Option IngressSpec
  pub created_deployment :
      (ns : String) (d : Deployment) (w : W)
      → (C.create_deployment ns d w).0 ≡ ok tt
      → deployments (C.create_deployment ns d w).1 ns d.name ≡ some d.spec
  pub updated_deployment :
      (ns : String) (d : Deployment) (w : W)
      → (C.update_deployment ns d w).0 ≡ ok tt
      → deployments (C.update_deployment ns d w).1 ns d.name ≡ some d.spec
  pub created_service :
      (ns : String) (s : Service) (w : W)
      → (C.create_service ns s w).0 ≡ ok tt
      → services (C.create_service ns s w).1 ns s.name ≡ some s.spec
  pub updated_service :
      (ns : String) (s : Service) (w : W)
      → (C.update_service ns s w).0 ≡ ok tt
      → services (C.update_service ns s w).1 ns s.name ≡ some s.spec
  pub created_ingress :
      (ns : String) (i : Ingress) (w : W)
      → (C.create_ingress ns i w).0 ≡ ok tt
      → ingresses (C.create_ingress ns i w).1 ns i.name ≡ some i.spec
  pub updated_ingress :
      (ns : String) (i : Ingress) (w : W)
      → (C.update_ingress ns i w).0 ≡ ok tt
      → ingresses (C.update_ingress ns i w).1 ns i.name ≡ some i.spec
  pub create_service-deployments :
      (ns : String) (s : Service) (w : W) → deployments (C.create_service ns s w).1 ≡ deployments w
  pub update_service-deployments :
      (ns : String) (s : Service) (w : W) → deployments (C.update_service ns s w).1 ≡ deployments w
  pub create_ingress-deployments :
      (ns : String) (i : Ingress) (w : W) → deployments (C.create_ingress ns i w).1 ≡ deployments w
  pub update_ingress-deployments :
      (ns : String) (i : Ingress) (w : W) → deployments (C.update_ingress ns i w).1 ≡ deployments w
  pub create_ingress-services :
      (ns : String) (i : Ingress) (w : W) → services (C.create_ingress ns i w).1 ≡ services w
  pub update_ingress-services :
      (ns : String) (i : Ingress) (w : W) → services (C.update_ingress ns i w).1 ≡ services w
  pub get_deployment-name :
      (ns name : String) (d : Deployment) (w : W)
      → (C.get_deployment ns name w).0 ≡ ok d
      → d.name ≡ name
