-- ===== src/Tests/Pipeline/Cluster.antt =====
-- The deployer of internal/pipeline/deployer/k8s_deployer.go on a small cluster: its theorems
-- applied.
use mathlib.Core.List.{Perm}
use mathlib.Core.List.Perm as Permutation
use chef_infra.Base.{
  ℕ, ◌<◌, ◌*◌, ◌↔◌, String, ◌==◌, Bool, true, false, ◌≡◌, refl, none, some, inl, inr, List, [], ◌∷◌,
  All, ltb, Bool-cases, if◌then◌else◌, arith, string_dec,
}
use chef_infra.Base.Result.{Result, ok, err}
use chef_infra.Base.Exec.{Exec}
use chef_infra.Base.Dict.{Dict, lookup, insert, lookup-insert}
use chef_infra.Pipeline.Kubernetes.Client.{
  Deployment, DeploymentSpec, ServiceSpec, IngressSpec, ReplicaSet, K8sClient, IsCluster,
}
use chef_infra.Pipeline.Kubernetes.{deploy, revision, rollback, deployment_of}
use chef_infra.Pipeline.Kubernetes.Applied.{IsAvailable, IsDeployed, deploy_available, deploy_ok}
use chef_infra.Pipeline.Kubernetes.Limits.{IsInt32, deploy-replicas}
use chef_infra.Pipeline.Kubernetes.Revisions.{InOrder, IsSort, IsPrevious, rollback_ok}
use chef_infra.Tests.Pipeline.Samples.{build, deploy_config}

-- One namespace is enough here.
record Cluster : Type 0 where
  pub deployments : Dict DeploymentSpec
  pub services : Dict ServiceSpec
  pub ingresses : Dict IngressSpec
  pub replica_sets : List ReplicaSet

-- Whether the error is that the object exists.
abbrev Failure : Type 0
Failure = Bool

module _ {V : Type 0} where
  unfoldable create_in : String → V → Dict V → Result Failure (Unit {0}) × Dict V
  create_in name v m = elim (lookup name m) [
    | none ↦ (ok tt, insert name v m)
    | some old ↦ (err true, m)
  ]

  unfoldable update_in : String → V → Dict V → Result Failure (Unit {0}) × Dict V
  update_in name v m = elim (lookup name m) [
    | none ↦ (err false, m)
    | some old ↦ (ok tt, insert name v m)
  ]

  lookup-create_in :
      (name : String) (v : V) (m : Dict V)
      → (create_in name v m).0 ≡ ok tt
      → lookup name (create_in name v m).1 ≡ some v
  unfolding create_in
  lookup-create_in name v m h = ground (arith, lookup-insert name name v m)

  lookup-update_in :
      (name : String) (v : V) (m : Dict V)
      → (update_in name v m).0 ≡ ok tt
      → lookup name (update_in name v m).1 ≡ some v
  unfolding update_in
  lookup-update_in name v m h = ground (arith, lookup-insert name name v m)

  update_in-create_in :
      (name : String) (v : V) (m : Dict V) (e : Failure)
      → (create_in name v m).0 ≡ err e
      → (e ≡ true) × ((update_in name v (create_in name v m).1).0 ≡ ok tt)
  unfolding create_in update_in
  update_in-create_in name v m e h = (ground arith, ground arith)

abbrev on_deployments :
    (Dict DeploymentSpec → Result Failure (Unit {0}) × Dict DeploymentSpec)
    → Exec Failure Cluster (Unit {0})
on_deployments f w = ((f w.deployments).0, record w { deployments = (f w.deployments).1 })

abbrev on_services :
    (Dict ServiceSpec → Result Failure (Unit {0}) × Dict ServiceSpec)
    → Exec Failure Cluster (Unit {0})
on_services f w = ((f w.services).0, record w { services = (f w.services).1 })

abbrev on_ingresses :
    (Dict IngressSpec → Result Failure (Unit {0}) × Dict IngressSpec)
    → Exec Failure Cluster (Unit {0})
on_ingresses f w = ((f w.ingresses).0, record w { ingresses = (f w.ingresses).1 })

abbrev get_in : String → Exec Failure Cluster Deployment
get_in name w = elim (lookup name w.deployments) [
  | none ↦ (err false, w)
  | some spec ↦
      (ok (record { name = name; namespace = "default"; annotations = none; spec = spec }), w)
]

abbrev client : K8sClient Cluster
client = record {
  Failure = Failure;
  is_already_exists = λ e. e;
  failure_text = λ e. "failed";
  create_deployment = λ ns d. on_deployments (create_in d.name d.spec);
  update_deployment = λ ns d. on_deployments (update_in d.name d.spec);
  get_deployment = λ ns name. get_in name;
  create_service = λ ns s. on_services (create_in s.name s.spec);
  update_service = λ ns s. on_services (update_in s.name s.spec);
  get_service = λ ns name w. (err false, w);
  create_ingress = λ ns i. on_ingresses (create_in i.name i.spec);
  update_ingress = λ ns i. on_ingresses (update_in i.name i.spec);
  get_ingress = λ ns name w. (err false, w);
  list_replica_sets = λ ns selector w. (ok w.replica_sets, w);
}

get_in-name :
    (name : String) (d : Deployment) (w : Cluster) → (get_in name w).0 ≡ ok d → d.name ≡ name
get_in-name name d w h = ground arith

client-IsCluster : IsCluster client
client-IsCluster = record {
  deployments = λ w ns name. lookup name w.deployments;
  services = λ w ns name. lookup name w.services;
  ingresses = λ w ns name. lookup name w.ingresses;
  created_deployment = λ ns d w. lookup-create_in d.name d.spec w.deployments;
  updated_deployment = λ ns d w. lookup-update_in d.name d.spec w.deployments;
  created_service = λ ns s w. lookup-create_in s.name s.spec w.services;
  updated_service = λ ns s w. lookup-update_in s.name s.spec w.services;
  created_ingress = λ ns i w. lookup-create_in i.name i.spec w.ingresses;
  updated_ingress = λ ns i w. lookup-update_in i.name i.spec w.ingresses;
  create_service-deployments = λ ns s w. refl;
  update_service-deployments = λ ns s w. refl;
  create_ingress-deployments = λ ns i w. refl;
  update_ingress-deployments = λ ns i w. refl;
  create_ingress-services = λ ns i w. refl;
  update_ingress-services = λ ns i w. refl;
  get_deployment-name = λ ns name d w. get_in-name name d w;
}

client-IsAvailable : IsAvailable client
client-IsAvailable = record {
  deployment_updates = λ ns d w e. update_in-create_in d.name d.spec w.deployments e;
  service_updates = λ ns s w e. update_in-create_in s.name s.spec w.services e;
  ingress_updates = λ ns i w e. update_in-create_in i.name i.spec w.ingresses e;
}

-- Sorting by insertion.
module _ {A : Type 0} (less : A → A → Bool) where
  unfoldable place : A → List A → List A
  place x [] = x ∷ []
  place x (y ∷ ys) = let rest = place x ys in if less x y then x ∷ y ∷ ys else y ∷ rest

  unfoldable sort : List A → List A
  sort [] = []
  sort (x ∷ xs) = place x (sort xs)

  place-Perm : (x : A) (xs : List A) → Perm (x ∷ xs) (place x xs)
  unfolding place
  place-Perm x [] = Permutation.refl (x ∷ [])
  place-Perm x (y ∷ ys) = elim (Bool-cases (less x y)) [
    | inl before ↦ rw (before, place) (Permutation.refl (x ∷ y ∷ ys))
    | inr after ↦
        rw (after, place)
          (Permutation.trans (Permutation.swap y x ys) (Permutation.cons y (place-Perm x ys)))
  ]

  sort-Perm : (xs : List A) → Perm xs (sort xs)
  unfolding sort
  sort-Perm [] = Permutation.nil
  sort-Perm (x ∷ xs) =
      Permutation.trans (Permutation.cons x (sort-Perm xs)) (place-Perm x (sort xs))

  place-All : (P : A → Type 0) (x : A) (xs : List A) → P x → All P xs → All P (place x xs)
  unfolding place
  place-All P x [] p h = (p, tt)
  place-All P x (y ∷ ys) p h = elim (Bool-cases (less x y)) [
    | inl before ↦ rw (before, place) (p, h)
    | inr after ↦ rw (after, place) (h.0, place-All P x ys p h.1)
  ]

module _ {A : Type 0} (key : A → ℕ) where
  abbrev by_key : A → A → Bool
  by_key x y = ltb (key y) (key x)

  All-by_key :
      (x y : A) (ys : List A)
      → by_key x y ≡ true
      → All (λ z. by_key z y ≡ false) ys
      → All (λ z. by_key z x ≡ false) ys
  All-by_key x y [] before h = tt
  All-by_key x y (z ∷ zs) before h = (ground arith, All-by_key x y zs before h.1)

  place-InOrder : (x : A) (xs : List A) → InOrder by_key xs → InOrder by_key (place by_key x xs)
  unfolding place
  place-InOrder x [] h = (tt, tt)
  place-InOrder x (y ∷ ys) h = elim (Bool-cases (by_key x y)) [
    | inl before ↦ rw (before, place) ((ground arith, All-by_key x y ys before h.0), h)
    | inr after ↦
        rw (after, place)
          (place-All by_key (λ z. by_key z y ≡ false) x ys after h.0, place-InOrder x ys h.1)
  ]

  sort-InOrder : (xs : List A) → InOrder by_key (sort by_key xs)
  unfolding sort
  sort-InOrder [] = tt
  sort-InOrder (x ∷ xs) = place-InOrder x (sort by_key xs) (sort-InOrder xs)

sort-IsSort : {A : Type 0} → IsSort {A = A} sort
sort-IsSort = record { same_elements = sort-Perm; in_order = sort-InOrder }

abbrev replica_set : String → String → ReplicaSet
replica_set number image = record {
  annotations = ("deployment.kubernetes.io/revision", number) ∷ [];
  containers = record { name = "p"; image = image; ports = 80 ∷ [] } ∷ [];
}

-- The project is deployed already; its replica sets come in no order.
abbrev cluster : Cluster
cluster = record {
  deployments = ("p", (deployment_of deploy_config (build "a")).spec) ∷ [];
  services = [];
  ingresses = [];
  replica_sets = replica_set "1" "p:a" ∷ replica_set "3" "p:c" ∷ replica_set "2" "p:b" ∷ [];
}

abbrev atoi : String → ℕ
atoi number =
    if number == "1" then 1 else if number == "2" then 2 else if number == "3" then 3 else 0

deploy_ok_example :
    IsDeployed client deploy_config
      (build "a")
      client-IsCluster
      (deploy client deploy_config (build "a") cluster).1
deploy_ok_example =
    deploy_ok client deploy_config (build "a") client-IsCluster cluster
      (deploy_available client deploy_config (build "a") client-IsAvailable cluster)

deploy-replicas_example :
    (spec : DeploymentSpec) × (client-IsCluster.deployments
        (deploy client deploy_config (build "a") cluster).1
        "default"
        "p"
      ≡ some spec)
    × (IsInt32 spec.replicas 2 ↔ (2 < 2147483648))
    × ((k : ℕ) → 2 ≡ k * 4294967296 → spec.replicas ≡ 0)
deploy-replicas_example =
    deploy-replicas client client-IsCluster deploy_config (build "a") cluster
      (deploy_available client deploy_config (build "a") client-IsAvailable cluster)

rolled_back : (rollback client atoi sort deploy_config (build "a") cluster).0 ≡ ok tt
unfolding rollback revision sort place update_in lookup insert string_dec
rolled_back = refl

rollback_ok_example :
    (deployment : Deployment) × (items : List ReplicaSet) × (previous : ReplicaSet) × ((get_in "p"
        cluster).0
      ≡ ok deployment)
    × (◌≡◌ {A = Result Failure (List ReplicaSet)} (ok cluster.replica_sets) (ok items))
    × IsPrevious client atoi sort items previous
    × (client-IsCluster.deployments
          (rollback client atoi sort deploy_config (build "a") cluster).1
          "default"
          "p"
        ≡ some (record deployment.spec { containers = previous.containers }))
unfolding lookup string_dec
rollback_ok_example =
    rollback_ok client atoi sort client-IsCluster sort-IsSort deploy_config (build "a") cluster
      rolled_back

abbrev first_revision : Cluster
first_revision = record cluster { replica_sets = replica_set "1" "p:a" ∷ [] }

deployed_once : (get_in "p" first_revision).0 ≡ ok (deployment_of deploy_config (build "a"))
unfolding lookup string_dec
deployed_once = refl
