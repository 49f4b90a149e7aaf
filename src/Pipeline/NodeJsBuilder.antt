-- ===== src/Pipeline/NodeJsBuilder.antt =====
-- internal/pipeline/builder/nodejs_builder.go. A path given as a string is read by `path_of`. Build
-- ids are taken to be single path components. Logging is left out.
pub mod Outside
pub mod Images
pub mod Output
pub mod Containers
pub mod Results
pub mod Walk
pub mod Trees
pub mod Copies
pub mod Entries
pub mod Sources
use text.Mathlib.Text.{starts_with}
use chef_infra.Base.{
  ℕ, String, ◌<>◌, ◌==◌, len, Bool, true, false, ◌&&◌, ◌||◌, Option, none, some, List, [], ◌∷◌,
  ◌++◌, ltb, if◌then◌else◌,
}
use chef_infra.Base.Result.{Result, ok, err, map_err}
use chef_infra.Base.Exec.{Exec, pure, raise, lift, attempt, ◌>>=◌, ◌>>◌}
use chef_infra.Pipeline.Config.{FilePath, NodeJsConfig}
use chef_infra.Pipeline.Types.{Build, BuildResult}
use chef_infra.Pipeline.Interfaces.{Action, Os, Builder, Options}
use chef_infra.Pipeline.BuildContext.{wrap}
use chef_infra.Pipeline.NodeJsValidator.{source_dir}
use Outside.{Message, ImageBuildOptions, Docker, WalkInfo, Stop, skip_dir, failed, Visit, Files}

-- `chef-project:commit`, or `chef-project:build` where the build has no commit.
unfoldable pub image_tag : Build → String
image_tag build =
    if build.commit_hash == ""
    then "chef-" <> (build.project_id <> (":" <> build.id))
    else "chef-" <> (build.project_id <> (":" <> build.commit_hash))

unfoldable pub get_image_tag : String → String
get_image_tag image_id =
    if ltb 5 (len image_id) && starts_with image_id "chef-" then image_id else "chef-" <> image_id

abbrev pub dockerfile_text : NodeJsConfig → Build → String
dockerfile_text config build =
    "\nFROM node:"
    <> (config.default_version
        <> ("-alpine\n\nWORKDIR /app\n\n# Add build dependencies\nRUN apk add --no-cache python3 make g++\n\n# Copy package files\nCOPY package*.json ./\nRUN npm install\n\n# Copy source files\nCOPY . .\n\n# Set environment variables\nENV NODE_ENV=production\nENV CI=true\n\n# Build the application\nRUN npm run "
            <> (build.build_command
                <> ("\n\nFROM nginx:alpine\nCOPY --from=0 /app/"
                    <> (build.output_dir <> " /usr/share/nginx/html\nEXPOSE 80\n")))))

-- Every message is decoded before the next; the first error ends the build.
unfoldable pub process_build_output : List (Result String Message) → Result String (Unit {0})
process_build_output [] = ok tt
process_build_output (err e ∷ rest) = err e
process_build_output (ok message ∷ rest) =
    let later = process_build_output rest in
    if message.error == "" then later else err ("docker build error: " <> message.error)

abbrev pub build_options : Build → ImageBuildOptions
build_options build = record {
  dockerfile = "Dockerfile";
  tags = image_tag build ∷ [];
  remove = true;
  build_args = ("NODE_ENV", "production") ∷ [];
}

abbrev pub to_stop : {W A : Type 0} → Action W A → Exec Stop W A
to_stop m w = (map_err failed (m w).0, (m w).1)

-- Makes the later call in any case; its error is only logged.
abbrev pub finally_do : {W A : Type 0} → Action W (Unit {0}) → Action W A → Action W A
finally_do later m w = ((m w).0, (later (m w).1).1)

module _ {W Bytes : Type 0} (os : Os W) (files : Files W Bytes) (docker : Docker W Bytes)
    (path_of : String → FilePath) (config : NodeJsConfig) (options : Options) where
  unfoldable pub copy_file : FilePath → FilePath → Action W (Unit {0})
  copy_file src dst = do source ← files.open_file src; files.create_file dst; files.copy dst source

  -- The callback of `copySourceFiles`.
  unfoldable pub visit_source : FilePath → FilePath → Visit W
  visit_source source target (err e) path = raise (failed e)
  visit_source source target (ok info) path =
      if info.is_dir && (info.name == "node_modules" || info.name == ".git")
      then raise skip_dir
      else elim (files.rel source path) [
        | err e ↦ raise (failed e)
        | ok rel_path ↦
            if info.is_dir
            then to_stop (os.mkdir_all (target ++ rel_path))
            else to_stop (copy_file path (target ++ rel_path))
      ]

  unfoldable pub copy_source_files : FilePath → FilePath → Action W (Unit {0})
  copy_source_files source target = files.walk source (visit_source source target)

  -- Without a source directory the type assertion panics, which is an error here. A build that
  -- `StartBuild` accepts with the NodeJS validator has one.
  unfoldable pub prepare_build_directory : FilePath → Build → Action W (Unit {0})
  prepare_build_directory build_dir build = do
    wrap "failed to create build directory" (os.mkdir_all build_dir)
    elim (source_dir build) [
      | none ↦ raise "interface conversion"
      | some source ↦
          wrap "failed to copy source files" (copy_source_files (path_of source) build_dir)
    ]

  unfoldable pub create_dockerfile : FilePath → Build → Action W (Unit {0})
  create_dockerfile build_dir build =
      files.write_file (build_dir ++ ("Dockerfile" ∷ [])) (dockerfile_text config build)

  -- The context, or nil.
  unfoldable pub create_build_context : FilePath → Exec String W (Option Bytes)
  create_build_context build_dir = do
    packed ← attempt {E' = String} (files.tar_with_options build_dir)
    elim packed [ ok tar ↦ pure (some tar) | err e ↦ pure none ]

  unfoldable pub create_container : Bool → String → Action W String
  create_container ctx image = docker.container_create ctx (get_image_tag image)

  abbrev artifact_dir : FilePath
  artifact_dir = options.work_dir ++ ("artifacts" ∷ [])

  -- What is done with a container before its removal.
  unfoldable pub copy_artifact : Bool → String → Build → Action W (Unit {0})
  copy_artifact ctx container build = do
    os.mkdir_all artifact_dir
    reader ← docker.copy_from_container ctx container "/usr/share/nginx/html"
    let path = artifact_dir ++ ((build.id <> ".tar.gz") ∷ [])
    files.create_file path
    files.copy path reader

  unfoldable pub create_artifact_from_container : Bool → Build → Action W (Unit {0})
  create_artifact_from_container ctx build = do
    wrap ("image not found: " <> image_tag build) (docker.image_inspect ctx (image_tag build))
    container ← create_container ctx (image_tag build)
    finally_do (docker.container_remove ctx container) (copy_artifact ctx container build)

  -- `Build`
  unfoldable pub run_build : Bool → Build → Action W BuildResult
  run_build ctx build = do
    let build_dir = options.work_dir ++ (build.id ∷ [])
    wrap "failed to prepare build directory" (prepare_build_directory build_dir build)
    wrap "failed to create dockerfile" (create_dockerfile build_dir build)
    context ← create_build_context build_dir
    output ← elim context [
      | none ↦ raise "failed to create build context"
      | some tar ↦ wrap "docker build failed" (docker.image_build ctx tar (build_options build))
    ]
    lift (process_build_output output)
    wrap "failed to create artifact" (create_artifact_from_container ctx build)
    pure (record {
      success = true;
      artifact_path = options.work_dir ++ ("artifacts" ∷ (build.id <> ".tar.gz") ∷ []);
      image_id = image_tag build;
    })

  unfoldable pub validate : Build → Action W (Unit {0})
  validate build =
      if build.build_command == ""
      then raise "build command is required"
      else if build.output_dir == ""
      then raise "output directory is required"
      else elim build.builder_config [
        | none ↦ raise "builder configuration is required"
        | some _ ↦ elim (source_dir build) [
          | none ↦ raise "source directory is required in builder configuration"
          | some source ↦
              if source == ""
              then raise "source directory is required in builder configuration"
              else (do
                wrap "source directory does not exist" (os.stat (path_of source))
                wrap "package.json not found in source directory"
                    (os.stat (path_of source ++ ("package.json" ∷ [])))
                pure tt)
        ]
      ]

  unfoldable pub cleanup : Action W (Unit {0})
  cleanup = os.remove_all options.work_dir

  abbrev pub nodejs_builder : Builder W
  nodejs_builder = record { build = run_build; validate = validate; cleanup = cleanup }
