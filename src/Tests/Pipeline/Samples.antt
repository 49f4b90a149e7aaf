-- ===== src/Tests/Pipeline/Samples.antt =====
-- A world that counts its clock, in which every call works, but for a builder whose context was
-- cancelled.
use chef_infra.Base.{ℕ, ◌+◌, String, Bool, true, false, none, some, [], ◌∷◌}
use chef_infra.Base.Result.{ok, err}
use chef_infra.Pipeline.Config.{PipelineConfig, NodeJsConfig, DeployConfig}
use chef_infra.Pipeline.Types.{Build, pending, text, BuildResult}
use chef_infra.Pipeline.Interfaces.{Action, Os, Builder, Deps}

abbrev pub done : Action ℕ (Unit {0})
done w = (ok tt, w)

abbrev pub os : Os ℕ
os = record {
  mkdir_all = λ path. done;
  remove_all = λ path. done;
  stat = λ path w. (ok (record { size = 5; is_dir = false; mod_time = 0 }), w);
  read_file = λ path w. (ok "{}", w);
  now = λ w. (w, w + 1);
}

abbrev pub result : BuildResult
result = record { success = true; artifact_path = "out.tar.gz" ∷ []; image_id = "chef-p:b" }

abbrev build_unless : Bool → Action ℕ BuildResult
build_unless true w = (err "context canceled", w)
build_unless false w = (ok result, w)

abbrev pub builder : Builder ℕ
builder = record {
  build = λ cancelled b. build_unless cancelled;
  validate = λ b. done;
  cleanup = done;
}

abbrev pub deps : Deps ℕ
deps = record {
  os = os;
  factory = record { create_builder = λ framework options w. (ok builder, w) };
  deployer = record { deploy = λ b. done; rollback = λ b. done; validate = λ b. done };
  validator = record { validate_build_config = λ b. done; validate_artifact = λ path. done };
}

abbrev pub nodejs_config : NodeJsConfig
nodejs_config = record {
  default_version = "20";
  allowed_engines = "18" ∷ "20" ∷ [];
  max_build_time = 600;
  build_cache = true;
  env_vars = [];
  build_image = "node";
  registry = "";
}

abbrev pub deploy_config : DeployConfig
deploy_config = record {
  platform = "static";
  namespace = "default";
  ingress_domain = "example.org";
  registry = "";
  pull_secret = "";
  replica_count = 2;
  static_path = "srv" ∷ [];
  max_deploy_size = 100;
}

abbrev pub config : PipelineConfig
config = record {
  build_dir = "chef" ∷ [];
  artifacts_dir = "artifacts" ∷ [];
  cache_dir = "cache" ∷ [];
  default_timeout = 0;
  nodejs = nodejs_config;
  deploy = deploy_config;
}

abbrev pub build : String → Build
build id = record {
  id = id;
  project_id = "p";
  commit_hash = "";
  status = pending;
  image_id = "";
  builder_config = some (("sourceDir", text "/src") ∷ []);
  framework = "react";
  build_command = "build";
  output_dir = "dist";
  error_message = "";
  start_time = 0;
  complete_time = none;
  artifact_path = [];
  cancel_func = false;
}
