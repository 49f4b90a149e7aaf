-- ===== src/Pipeline/NodeJsBuilder/Results.antt =====
-- What a successful build by nodejs_builder.go has done.
use mathlib.Core.Path.{subst}
use mathlib.Core.List.{append_assoc}
use chef_infra.Base.{String, ◌<>◌, Bool, List, [], ◌∷◌, ◌++◌, All, ◌≡◌, sym, inl, inr, arith}
use chef_infra.Base.Result.{Result, ok, Result-cases}
use chef_infra.Pipeline.Config.{FilePath, Under, NodeJsConfig}
use chef_infra.Pipeline.Types.{Build, BuildResult}
use chef_infra.Pipeline.Interfaces.{Os, Options}
use chef_infra.Pipeline.BuildContext.{wrap}
use chef_infra.Pipeline.NodeJsBuilder.Outside.{Message, Docker, Files}
use chef_infra.Pipeline.NodeJsBuilder.Output.{IsFine, process_build_output_lem}
use chef_infra.Pipeline.NodeJsBuilder.{
  image_tag, build_options, dockerfile_text, create_container, copy_artifact, process_build_output,
  prepare_build_directory, create_dockerfile, create_build_context, create_artifact_from_container,
  run_build,
}

module _ {W Bytes : Type 0} (os : Os W) (files : Files W Bytes) (docker : Docker W Bytes)
    (path_of : String → FilePath) (config : NodeJsConfig) (options : Options) where
  All-IsFine :
      (output : List (Result String Message))
      → process_build_output output ≡ ok tt
      → All IsFine output
  All-IsFine output accepted = elim (process_build_output_lem output) [
    | inl (_, fine) ↦ fine
    | inr (e, refused, _) ↦ absurd (cc (accepted, refused))
  ]

  abbrev build_dir : Build → FilePath
  build_dir build = options.work_dir ++ (build.id ∷ [])

  abbrev artifact_path : Build → FilePath
  artifact_path build = options.work_dir ++ ("artifacts" ∷ (build.id <> ".tar.gz") ∷ [])

  -- The file that `createArtifactFromContainer` writes.
  abbrev stored_path : Build → FilePath
  stored_path build = (options.work_dir ++ ("artifacts" ∷ [])) ++ ((build.id <> ".tar.gz") ∷ [])

  joined : (build : Build) → stored_path build ≡ artifact_path build
  joined build = append_assoc options.work_dir ("artifacts" ∷ []) ((build.id <> ".tar.gz") ∷ [])

  -- What was done to make an artifact, from one world to another: what docker reads of the built
  -- files in a container of the image was written, whole, to the file.
  pub record IsStored (ctx : Bool) (build : Build) (path : FilePath) (w after : W) : Type 0 where
    pub container : String
    pub created : W
    pub reading : W
    pub reader : Bytes
    pub read : W
    pub opened : W
    pub stored : W
    pub is_inspected : docker.image_inspect ctx (image_tag build) w ≡ (ok tt, created)
    pub in_container :
        create_container os files docker path_of config options ctx (image_tag build) created
        ≡ (ok container, reading)
    pub is_read :
        docker.copy_from_container ctx container "/usr/share/nginx/html"
          (os.mkdir_all (options.work_dir ++ ("artifacts" ∷ [])) reading).1
        ≡ (ok reader, read)
    pub is_created : files.create_file path read ≡ (ok tt, opened)
    pub is_stored : files.copy path reader opened ≡ (ok tt, stored)
    pub is_last : after ≡ (docker.container_remove ctx container stored).1

  -- What was done for a result: the sources and the Dockerfile were written to the build directory,
  -- docker built an image with the build's tag from an archive of this directory, and reported no
  -- error; then the artifact was written to the file that the result names.
  pub record IsBuilt (ctx : Bool) (build : Build) (result : BuildResult) (w after : W)
      : Type 0 where
    pub prepared : W
    pub written : W
    pub archive : Bytes
    pub packed : W
    pub output : List (Result String Message)
    pub built : W
    pub is_prepared :
        wrap "failed to prepare build directory"
          (prepare_build_directory os files docker path_of config options (build_dir build) build)
          w
        ≡ (ok tt, prepared)
    pub is_written :
        files.write_file
          (build_dir build ++ ("Dockerfile" ∷ []))
          (dockerfile_text config build)
          prepared
        ≡ (ok tt, written)
    pub is_packed : files.tar_with_options (build_dir build) written ≡ (ok archive, packed)
    pub image_built :
        docker.image_build ctx archive (build_options build) packed ≡ (ok output, built)
    pub no_error : All IsFine output
    pub artifact_stored : IsStored ctx build result.artifact_path built after
    pub tagged : result.image_id ≡ image_tag build
    pub placed : result.artifact_path ≡ artifact_path build

  module _ (ctx : Bool) (build : Build) where
    create_artifact-IsStored :
        (w : W)
        → (create_artifact_from_container os files docker path_of config options ctx build w).0
          ≡ ok tt
        → IsStored ctx build
            (stored_path build)
            w
            (create_artifact_from_container os files docker path_of config options ctx build w).1
    unfolding create_artifact_from_container copy_artifact
    create_artifact-IsStored w h =
        let seen = docker.image_inspect ctx (image_tag build) w in
        let made =
          create_container os files docker path_of config options ctx (image_tag build) seen.1 in
        let m = os.mkdir_all (options.work_dir ++ ("artifacts" ∷ [])) made.1 in
        elim (Result-cases seen.0) [
          | inr (e, failed) ↦ absurd (ground arith)
          | inl (_, found) ↦ elim (Result-cases made.0) [
            | inr (e, failed) ↦ absurd (ground arith)
            | inl (id, started) ↦ elim (Result-cases m.0) [
              | inr (e, failed) ↦ absurd (ground arith)
              | inl (_, there) ↦
                  let read = docker.copy_from_container ctx id "/usr/share/nginx/html" m.1 in
                  elim (Result-cases read.0) [
                    | inr (e, failed) ↦ absurd (ground arith)
                    | inl (reader, is_read) ↦
                        let c = files.create_file (stored_path build) read.1 in
                        let s = files.copy (stored_path build) reader c.1 in
                        elim (Result-cases c.0) [
                          | inr (e, failed) ↦ absurd (ground arith)
                          | inl (_, is_created) ↦ record {
                            container = id;
                            created = seen.1;
                            reading = made.1;
                            reader = reader;
                            read = read.1;
                            opened = c.1;
                            stored = s.1;
                            is_inspected = ground arith;
                            in_container = ground arith;
                            is_read = ground arith;
                            is_created = ground arith;
                            is_stored = ground arith;
                            is_last = ground arith;
                          }
                        ]
                  ]
            ]
          ]
        ]

    pub run_build_ok :
        (result : BuildResult) (w : W)
        → (run_build os files docker path_of config options ctx build w).0 ≡ ok result
        → IsBuilt ctx build result w
            (run_build os files docker path_of config options ctx build w).1
    unfolding run_build create_build_context create_dockerfile
    run_build_ok result w h =
        let dir = build_dir build in
        let p =
          wrap "failed to prepare build directory"
            (prepare_build_directory os files docker path_of config options dir build) w in
        let d = files.write_file (dir ++ ("Dockerfile" ∷ [])) (dockerfile_text config build) p.1 in
        let t = files.tar_with_options dir d.1 in
        elim (Result-cases p.0) [
          | inr (e, failed) ↦ absurd (ground arith)
          | inl (_, prepared) ↦ elim (Result-cases d.0) [
            | inr (e, failed) ↦ absurd (ground arith)
            | inl (_, written) ↦ elim (Result-cases t.0) [
              | inr (e, failed) ↦ absurd (ground arith)
              | inl (tar, packed) ↦
                  let i = docker.image_build ctx tar (build_options build) t.1 in
                  elim (Result-cases i.0) [
                    | inr (e, failed) ↦ absurd (ground arith)
                    | inl (output, built) ↦
                        let a =
                          create_artifact_from_container os files docker path_of config options ctx
                            build i.1 in
                        elim (Result-cases (process_build_output output)) [
                          | inr (e, bad) ↦ absurd (ground arith)
                          | inl (_, fine) ↦ elim (Result-cases a.0) [
                            | inr (e, failed) ↦ absurd (ground arith)
                            | inl (_, made) ↦
                                let named : result.artifact_path ≡ artifact_path build =
                                  ground arith in
                                let last : (run_build os files docker path_of config options ctx
                                      build w).1
                                    ≡ a.1 =
                                  ground arith in
                                record {
                                  prepared = p.1;
                                  written = d.1;
                                  archive = tar;
                                  packed = t.1;
                                  output = output;
                                  built = i.1;
                                  is_prepared = ground arith;
                                  is_written = ground arith;
                                  is_packed = ground arith;
                                  image_built = ground arith;
                                  no_error = All-IsFine output fine;
                                  artifact_stored =
                                      subst (λ v. IsStored ctx build result.artifact_path i.1 v)
                                        (sym last)
                                        (rw (named, ← joined build)
                                          (create_artifact-IsStored i.1 made));
                                  tagged = ground arith;
                                  placed = named;
                                }
                          ]
                        ]
                  ]
            ]
          ]
        ]

    -- The artifact of a result lies in the builder's work directory.
    pub run_build-Under :
        (result : BuildResult) (w : W)
        → (run_build os files docker path_of config options ctx build w).0 ≡ ok result
        → Under options.work_dir result.artifact_path
    run_build-Under result w h =
        ("artifacts" ∷ (build.id <> ".tar.gz") ∷ [], sym (run_build_ok result w h).placed)
