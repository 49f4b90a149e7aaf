-- ===== src/Pipeline/NodeJsBuilder/Containers.antt =====
-- Which containers nodejs_builder.go leaves behind.
use mathlib.Core.Path.{fun_ext}
use chef_infra.Base.{String, ◌==◌, Bool, true, false, ◌≡◌, ◌∙◌, inl, inr, arith, if◌then◌else◌}
use chef_infra.Base.Result.{ok, err, Result-cases}
use chef_infra.Pipeline.Config.{FilePath, NodeJsConfig}
use chef_infra.Pipeline.Types.{Build}
use chef_infra.Pipeline.Interfaces.{Os, Options}
use chef_infra.Pipeline.NodeJsBuilder.Outside.{Docker, Files}
use chef_infra.Pipeline.NodeJsBuilder.{
  image_tag, get_image_tag, create_container, copy_artifact, create_artifact_from_container,
}

-- What is documented of the containers: creating one adds it, under a new id, removing it takes it
-- away, and the other calls leave the containers alone.
pub record IsDaemon {W Bytes : Type 0} (os : Os W) (files : Files W Bytes) (docker : Docker W Bytes)
    : Type 0 where
  pub exists : W → String → Bool
  pub created :
      (ctx : Bool) (image id : String) (w : W)
      → (docker.container_create ctx image w).0 ≡ ok id
      → (exists w id ≡ false)
        × ((other : String)
            → exists (docker.container_create ctx image w).1 other
              ≡ (if id == other then true else exists w other))
  pub create_failed :
      (ctx : Bool) (image e : String) (w : W)
      → (docker.container_create ctx image w).0 ≡ err e
      → exists (docker.container_create ctx image w).1 ≡ exists w
  pub removed :
      (ctx : Bool) (id : String) (w : W)
      → (docker.container_remove ctx id w).0 ≡ ok tt
      → (other : String)
      → exists (docker.container_remove ctx id w).1 other
        ≡ (if id == other then false else exists w other)
  pub image_inspect-exists :
      (ctx : Bool) (image : String) (w : W) → exists (docker.image_inspect ctx image w).1 ≡ exists w
  pub copy_from_container-exists :
      (ctx : Bool) (id path : String) (w : W)
      → exists (docker.copy_from_container ctx id path w).1 ≡ exists w
  pub mkdir_all-exists : (path : FilePath) (w : W) → exists (os.mkdir_all path w).1 ≡ exists w
  pub create_file-exists :
      (path : FilePath) (w : W) → exists (files.create_file path w).1 ≡ exists w
  pub copy-exists :
      (path : FilePath) (b : Bytes) (w : W) → exists (files.copy path b w).1 ≡ exists w

module _ {W Bytes : Type 0} (os : Os W) (files : Files W Bytes) (docker : Docker W Bytes)
    (path_of : String → FilePath) (config : NodeJsConfig) (options : Options)
    (K : IsDaemon os files docker) where
  copy_artifact-exists :
      (ctx : Bool) (container : String) (build : Build) (w : W)
      → K.exists (copy_artifact os files docker path_of config options ctx container build w).1
        ≡ K.exists w
  unfolding copy_artifact
  copy_artifact-exists ctx container build w =
      grind (
        arith, K.mkdir_all-exists, K.copy_from_container-exists, K.create_file-exists,
        K.copy-exists,
      )

  -- Where removals succeed, `createArtifactFromContainer` leaves the containers that there were,
  -- whichever of its calls fails: the one that it creates is removed again.
  pub create_artifact_from_container-exists :
      (ctx : Bool)
      → ((id : String) (v : W) → (docker.container_remove ctx id v).0 ≡ ok tt)
      → (build : Build) (w : W)
      → K.exists
          (create_artifact_from_container os files docker path_of config options ctx build w).1
        ≡ K.exists w
  unfolding create_artifact_from_container create_container
  create_artifact_from_container-exists ctx removes build w =
      let seen = docker.image_inspect ctx (image_tag build) w in
      let made = docker.container_create ctx (get_image_tag (image_tag build)) seen.1 in
      let same = K.image_inspect-exists ctx (image_tag build) w in
      elim (Result-cases seen.0) [
        | inr (e, missing) ↦ rw (missing, create_artifact_from_container) same
        | inl (_, found) ↦ elim (Result-cases made.0) [
          | inr (e, failed) ↦
              rw (found, failed, create_artifact_from_container, create_container)
                (K.create_failed ctx (get_image_tag (image_tag build)) e seen.1 failed ∙ same)
          | inl (id, started) ↦
              let copied =
                copy_artifact os files docker path_of config options ctx id build made.1 in
              let kept = copy_artifact-exists ctx id build made.1 in
              let (fresh, after) =
                K.created ctx (get_image_tag (image_tag build)) id seen.1 started in
              fun_ext λ other. ground (
                arith,
                found,
                started,
                K.removed ctx id copied.1 (removes id copied.1) other,
                kept,
                same,
                fresh,
                after other,
              )
        ]
      ]
