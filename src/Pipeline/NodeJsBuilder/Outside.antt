-- ===== src/Pipeline/NodeJsBuilder/Outside.antt =====
-- What the builder of internal/pipeline/builder/nodejs_builder.go calls: the docker client, the
-- files beyond `Os`, and `filepath`. A file handle is the path that it was opened with, and closing
-- it is left out; `Bytes` is what a reader still holds. The mode of a new file is left out.
use chef_infra.Base.{String, Bool, List}
use chef_infra.Base.Result.{Result}
use chef_infra.Base.Exec.{Exec}
use chef_infra.Pipeline.Config.{FilePath}
use chef_infra.Pipeline.Interfaces.{Action}

-- One JSON value of the output of a docker build.
pub record Message : Type 0 where
  pub stream : String
  pub error : String
  pub status : String
  pub id : String

pub record ImageBuildOptions : Type 0 where
  pub dockerfile : String
  pub tags : List String
  pub remove : Bool
  pub build_args : List (String × String)

-- The calls are told whether their context has been cancelled. The output of a build is what its
-- decoder answers, call by call; the end of the list is `io.EOF`.
pub record Docker (W Bytes : Type 0) : Type 0 where
  pub image_build : Bool → Bytes → ImageBuildOptions → Action W (List (Result String Message))
  pub image_inspect : Bool → String → Action W (Unit {0})
  pub container_create : Bool → String → Action W String
  pub container_remove : Bool → String → Action W (Unit {0})
  pub copy_from_container : Bool → String → String → Action W Bytes

-- What the callback of `filepath.Walk` reads of a file.
pub record WalkInfo : Type 0 where
  pub name : String
  pub is_dir : Bool

-- How the callback may stop the walk: for a directory, or for good.
pub data Stop : Type 0 where
  skip_dir : Stop
  failed : String → Stop

abbrev pub Visit : Type 0 → Type 0
Visit W = Result String WalkInfo → FilePath → Exec Stop W (Unit {0})

pub record Files (W Bytes : Type 0) : Type 0 where
  pub write_file : FilePath → String → Action W (Unit {0})
  pub open_file : FilePath → Action W Bytes
  pub create_file : FilePath → Action W (Unit {0})
  -- `io.Copy` to a file that was created.
  pub copy : FilePath → Bytes → Action W (Unit {0})
  pub walk : FilePath → Visit W → Action W (Unit {0})
  -- `filepath.Rel`
  pub rel : FilePath → FilePath → Result String FilePath
  -- `archive.TarWithOptions`
  pub tar_with_options : FilePath → Action W Bytes
