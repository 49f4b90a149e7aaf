-- ===== src/Pipeline/Kubernetes/Revisions.antt =====
-- To which revision k8s_deployer.go rolls back.
use mathlib.Core.List.{Perm}
use mathlib.Core.Path.{subst}
use chef_infra.Base.{
  ℕ, ◌≤◌, String, ◌<>◌, Bool, ◌≡◌, false, some, inl, inr, List, [], ◌∷◌, All, ltb, length,
  get_elem?, Option-cases, Bool-cases, arith,
}
use chef_infra.Base.Result.{ok, err, Result-cases}
use chef_infra.Pipeline.Config.{DeployConfig}
use chef_infra.Pipeline.Types.{Build}
use chef_infra.Pipeline.Kubernetes.Client.{Deployment, ReplicaSet, K8sClient, IsCluster}
use chef_infra.Pipeline.Kubernetes.{revision, is_later, rollback, with_cause}

-- No element comes before a later one that belongs before it.
abbrev pub InOrder : {A : Type 0} → (A → A → Bool) → List A → Type 0
InOrder less [] = Unit
InOrder less (x ∷ xs) = All (λ y. less y x ≡ false) xs × InOrder less xs

-- What the documentation of `sort.Slice` promises, for an order by a number, the largest first.
pub record IsSort {A : Type 0} (sort_slice : (A → A → Bool) → List A → List A) : Type 0 where
  pub same_elements : (less : A → A → Bool) (xs : List A) → Perm xs (sort_slice less xs)
  pub in_order :
      (key : A → ℕ) (xs : List A)
      → let less = λ (x y : A). ltb (key y) (key x) in InOrder less (sort_slice less xs)

second :
    {A : Type 0} (xs : List A) (y : A)
    → get_elem? xs 1 ≡ some y
    → (x : A) × (rest : List A) × (xs ≡ x ∷ y ∷ rest)
second [] y h = absurd (cc h)
second (x ∷ []) y h = absurd (cc h)
second (x ∷ z ∷ rest) y h = (x, rest, cc h)

module _ {W : Type 0} (C : K8sClient W) (atoi : String → ℕ)
    (sort_slice : (ReplicaSet → ReplicaSet → Bool) → List ReplicaSet → List ReplicaSet) where
  abbrev number : ReplicaSet → ℕ
  number = revision C atoi sort_slice

  -- Of all the replica sets, one is the newest and `previous` the newest of the others.
  abbrev pub IsPrevious : List ReplicaSet → ReplicaSet → Type 0
  IsPrevious items previous =
      (newest : ReplicaSet) × (rest : List ReplicaSet) × Perm items (newest ∷ previous ∷ rest)
      × (number previous ≤ number newest)
      × All (λ r. number r ≤ number previous) rest

  All-number :
      (previous : ReplicaSet) (rest : List ReplicaSet)
      → All (λ r. is_later C atoi sort_slice r previous ≡ false) rest
      → All (λ r. number r ≤ number previous) rest
  All-number previous [] h = tt
  All-number previous (r ∷ rest) h = (ground arith, All-number previous rest h.1)

  second-IsPrevious :
      IsSort sort_slice
      → (items : List ReplicaSet) (previous : ReplicaSet)
      → get_elem? (sort_slice (is_later C atoi sort_slice) items) 1 ≡ some previous
      → IsPrevious items previous
  second-IsPrevious sorts items previous found =
      let less = is_later C atoi sort_slice in
      let (newest, rest, shape) = second (sort_slice less items) previous found in
      let ordered : InOrder less (newest ∷ previous ∷ rest) =
        subst (InOrder less) shape (sorts.in_order number items) in
      (
        newest,
        rest,
        subst (Perm items) shape (sorts.same_elements less items),
        ground (arith, ordered.0),
        All-number previous rest ordered.1.0,
      )

  -- A rollback that reports success has read the deployment and its replica sets, and leaves the
  -- deployment with the containers of the newest replica set but one, the rest of its
  -- specification as it was.
  pub rollback_ok :
      (K : IsCluster C)
      → IsSort sort_slice
      → (config : DeployConfig) (build : Build) (w : W)
      → (rollback C atoi sort_slice config build w).0 ≡ ok tt
      → let ns = config.namespace in
        let read = C.get_deployment ns build.project_id w in
        (deployment : Deployment) × (items : List ReplicaSet) × (previous : ReplicaSet) × (read.0
          ≡ ok deployment)
        × ((C.list_replica_sets ns ("app=" <> build.project_id) read.1).0 ≡ ok items)
        × IsPrevious items previous
        × (K.deployments (rollback C atoi sort_slice config build w).1 ns build.project_id
            ≡ some (record deployment.spec { containers = previous.containers }))
  unfolding rollback
  rollback_ok K sorts config build w h =
      let ns = config.namespace in
      let read = C.get_deployment ns build.project_id w in
      let listed = C.list_replica_sets ns ("app=" <> build.project_id) read.1 in
      elim (Result-cases read.0) [
        | inr (e, failed) ↦ absurd (ground arith)
        | inl (deployment, got) ↦ elim (Result-cases listed.0) [
          | inr (e, failed) ↦ absurd (ground arith)
          | inl (items, history) ↦ elim (Bool-cases (ltb (length items) 2)) [
            | inl few ↦ absurd (ground arith)
            | inr enough ↦
                elim (Option-cases (get_elem? (sort_slice (is_later C atoi sort_slice) items) 1)) [
                  | inl missing ↦ absurd (ground arith)
                  | inr (previous, found) ↦
                      let changed : Deployment = record deployment {
                        annotations = some (with_cause deployment.annotations);
                        spec = record deployment.spec { containers = previous.containers };
                      } in
                      (
                        deployment,
                        items,
                        previous,
                        got,
                        history,
                        second-IsPrevious sorts items previous found,
                        ground (
                          arith,
                          K.get_deployment-name ns build.project_id deployment w,
                          K.updated_deployment ns changed listed.1,
                        ),
                      )
                ]
          ]
        ]
      ]

  -- With fewer than two replica sets, a rollback is refused after two reads.
  pub rollback_refused :
      (config : DeployConfig) (build : Build) (w : W) (deployment : Deployment)
      (items : List ReplicaSet)
      → let ns = config.namespace in
        let read = C.get_deployment ns build.project_id w in
        let listed = C.list_replica_sets ns ("app=" <> build.project_id) read.1 in
        read.0 ≡ ok deployment
        → listed.0 ≡ ok items
        → length items ≤ 1
        → rollback C atoi sort_slice config build w
          ≡ (err "no previous revision available for rollback", listed.1)
  unfolding rollback
  rollback_refused config build w deployment items got history few = ground arith
