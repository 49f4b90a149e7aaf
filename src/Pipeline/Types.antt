-- ===== src/Pipeline/Types.antt =====
-- internal/pipeline/types/types.go.
use chef_infra.Base.{ℕ, String, Bool, Option}
use chef_infra.Base.Dict.{Dict}
use chef_infra.Pipeline.Config.{FilePath}

pub data BuildStatus : Type 0 where
  pending building success failed cancelled : BuildStatus

-- The text of a status.
abbrev pub status_text : BuildStatus → String
status_text pending = "pending"
status_text building = "building"
status_text success = "success"
status_text failed = "failed"
status_text cancelled = "cancelled"

-- A value of `map[string]interface{}`: a string, or a value of another dynamic type.
pub data Value : Type 0 where
  text : String → Value
  other : Value

-- `CancelFunc` is only compared with nil and called: the flag says that it is set.
pub record Build : Type 0 where
  pub id : String
  pub project_id : String
  pub commit_hash : String
  pub status : BuildStatus
  pub image_id : String
  pub builder_config : Option (Dict Value)
  pub framework : String
  pub build_command : String
  pub output_dir : String
  pub error_message : String
  pub start_time : ℕ
  pub complete_time : Option ℕ
  pub artifact_path : FilePath
  pub cancel_func : Bool

-- `Error` of the source's struct is never set and never read.
pub record BuildResult : Type 0 where
  pub success : Bool
  pub artifact_path : FilePath
  pub image_id : String
