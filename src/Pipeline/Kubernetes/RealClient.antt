-- ===== src/Pipeline/Kubernetes/RealClient.antt =====
-- `RealK8sClient` of internal/pipeline/deployer/k8s_client.go over the client set of client-go.
use chef_infra.Base.{String, Bool, List}
use chef_infra.Base.Result.{ok, err}
use chef_infra.Base.Exec.{Exec}
use chef_infra.Pipeline.Kubernetes.Client.{Deployment, Service, Ingress, ReplicaSet, K8sClient}

-- The calls on the objects of one kind in one namespace. The options are empty everywhere.
pub record Resource (W Failure Object : Type 0) : Type 0 where
  pub create : Object → Exec Failure W Object
  pub update : Object → Exec Failure W Object
  pub get : String → Exec Failure W Object

-- Each kind's objects are reached through the namespace.
pub record ClientSet (W : Type 0) : Type 1 where
  pub Failure : Type 0
  pub is_already_exists : Failure → Bool
  pub failure_text : Failure → String
  pub deployments : String → Resource W Failure Deployment
  pub services : String → Resource W Failure Service
  pub ingresses : String → Resource W Failure Ingress
  -- With the label selector.
  pub replica_sets : String → String → Exec Failure W (List ReplicaSet)

-- Without the object that is returned.
abbrev without : {W F A : Type 0} → Exec F W A → Exec F W (Unit {0})
without m w = (elim (m w).0 [ ok _ ↦ ok tt | err e ↦ err e ], (m w).1)

abbrev pub real_k8s_client : {W : Type 0} → ClientSet W → K8sClient W
real_k8s_client clientset = record {
  Failure = clientset.Failure;
  is_already_exists = clientset.is_already_exists;
  failure_text = clientset.failure_text;
  create_deployment = λ namespace d. without ((clientset.deployments namespace).create d);
  update_deployment = λ namespace d. without ((clientset.deployments namespace).update d);
  get_deployment = λ namespace name. (clientset.deployments namespace).get name;
  create_service = λ namespace s. without ((clientset.services namespace).create s);
  update_service = λ namespace s. without ((clientset.services namespace).update s);
  get_service = λ namespace name. (clientset.services namespace).get name;
  create_ingress = λ namespace i. without ((clientset.ingresses namespace).create i);
  update_ingress = λ namespace i. without ((clientset.ingresses namespace).update i);
  get_ingress = λ namespace name. (clientset.ingresses namespace).get name;
  list_replica_sets = λ namespace selector. clientset.replica_sets namespace selector;
}
