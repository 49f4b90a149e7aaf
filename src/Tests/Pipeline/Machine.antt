-- ===== src/Tests/Pipeline/Machine.antt =====
-- A machine on which every part that Pipeline/Wiring provides works: a set of paths and a set of
-- containers.
use chef_infra.Base.{
  String, ◌==◌, Bool, true, false, ◌&&◌, ◌≡◌, refl, [], ◌∷◌, ◌++◌, if◌then◌else◌, arith,
}
use chef_infra.Base.Result.{Result, ok, err}
use chef_infra.Base.Exec.{Exec}
use chef_infra.Pipeline.Config.{FilePath}
use chef_infra.Pipeline.Interfaces.{Action, Os}
use chef_infra.Pipeline.Execution.Artifacts.{HasRemoval}
use chef_infra.Pipeline.NodeJsBuilder.Outside.{Docker, Stop, skip_dir, failed, Visit, Files}
use chef_infra.Pipeline.NodeJsBuilder.Containers.{IsDaemon}
use chef_infra.Pipeline.Kubernetes.RealClient.{Resource, ClientSet}
use chef_infra.Pipeline.NodeJsValidator.{PackageJson}
use chef_infra.Pipeline.Static.{Tar}
use chef_infra.Pipeline.Wiring.{Platform}

pub record Machine : Type 0 where
  pub paths : FilePath → Bool
  pub containers : String → Bool

unfoldable pub starts : FilePath → FilePath → Bool
starts [] q = true
starts (a ∷ p) [] = false
starts (a ∷ p) (b ∷ q) = (a == b) && starts p q

starts-append : (p rest : FilePath) → starts p (p ++ rest) ≡ true
unfolding starts
starts-append [] rest = refl
starts-append (a ∷ p) rest = ground (arith, starts-append p rest)

abbrev done : Action Machine (Unit {0})
done w = (ok tt, w)

abbrev remove_all : FilePath → Action Machine (Unit {0})
remove_all path w = (ok tt, record w { paths = λ p. if starts path p then false else w.paths p })

-- A new entry, with all that is below.
abbrev add : FilePath → Action Machine (Unit {0})
add path w = (ok tt, record w { paths = λ p. if starts path p then true else w.paths p })

abbrev pub os : Os Machine
os = record {
  mkdir_all = add;
  remove_all = remove_all;
  stat = λ path w. (
    if w.paths path
        then ok (record { size = 5; is_dir = false; mod_time = 0 })
        else err "no such file",
    w,
  );
  read_file = λ path w. (ok "", w);
  now = λ w. (0, w);
}

abbrev walked : Result Stop (Unit {0}) → Result String (Unit {0})
walked (ok _) = ok tt
walked (err skip_dir) = ok tt
walked (err (failed e)) = err e

-- The only entry is the directory itself.
abbrev walk : FilePath → Visit Machine → Action Machine (Unit {0})
walk path visit w =
    let (r, w') = visit (ok (record { name = "src"; is_dir = true })) path w in (walked r, w')

abbrev pub files : Files Machine (Unit {0})
files = record {
  write_file = λ path contents. add path;
  open_file = λ path w. (ok tt, w);
  create_file = add;
  copy = λ path bytes. done;
  walk = walk;
  rel = λ base path. ok [];
  tar_with_options = λ path w. (ok tt, w);
}

abbrev create_container : Bool → String → Action Machine String
create_container ctx image w =
    if w.containers "c"
    then (err "the name is in use", w)
    else (ok "c", record w { containers = λ id. if "c" == id then true else w.containers id })

abbrev pub docker : Docker Machine (Unit {0})
docker = record {
  image_build = λ ctx bytes options w.
      (ok (ok (record { stream = "Step 1"; error = ""; status = ""; id = "" }) ∷ []), w);
  image_inspect = λ ctx image w. (ok tt, w);
  container_create = create_container;
  container_remove = λ ctx id w.
      (ok tt, record w { containers = λ other. if id == other then false else w.containers other });
  copy_from_container = λ ctx id path w. (ok tt, w);
}

abbrev refused : {A : Type 0} → Exec Bool Machine A
refused w = (err false, w)

abbrev nothing : {Object : Type 0} → Resource Machine Bool Object
nothing = record { create = λ object. refused; update = λ object. refused; get = λ name. refused }

abbrev clientset : ClientSet Machine
clientset = record {
  Failure = Bool;
  is_already_exists = λ e. e;
  failure_text = λ e. "no cluster";
  deployments = λ namespace. nothing;
  services = λ namespace. nothing;
  ingresses = λ namespace. nothing;
  replica_sets = λ namespace selector. refused;
}

abbrev pub tar : Tar Machine
tar = record { create = λ path source. add path; extract = λ path target. done }

abbrev pub is_missing : String → Bool
is_missing e = true

abbrev pub one_name : String → FilePath
one_name text = text ∷ []

abbrev pub no_package : String → Result String PackageJson
no_package text = err "no package"

abbrev pub platform : Platform Machine
platform = record {
  os = os;
  Bytes = Unit {0};
  files = files;
  new_docker_client = λ w. (ok docker, w);
  tar = tar;
  is_not_exist = is_missing;
  path_of = one_name;
  unmarshal = no_package;
  home = "home" ∷ [];
  RestConfig = Unit {0};
  build_config_from_flags = λ path w. (err "no kubeconfig", w);
  new_for_config = λ rest. done;
  clientset = clientset;
  atoi = λ text. 0;
  sort_slice = λ less sets. sets;
}

pub os-HasRemoval : HasRemoval os
os-HasRemoval = record {
  exists = λ w path. w.paths path;
  removed = λ path rest w fine. rw (starts-append path rest);
}

module _ (ctx : Bool) (image : String) (w : Machine) where
  create_container_ok :
      (id : String)
      → (create_container ctx image w).0 ≡ ok id
      → (w.containers id ≡ false)
        × ((other : String)
            → (create_container ctx image w).1.containers other
              ≡ (if id == other then true else w.containers other))
  create_container_ok id h = (ground arith, λ other. ground arith)

  create_container_failed :
      (e : String)
      → (create_container ctx image w).0 ≡ err e
      → (create_container ctx image w).1.containers ≡ w.containers
  create_container_failed e h = ground arith

pub docker-IsDaemon : IsDaemon os files docker
docker-IsDaemon = record {
  exists = λ w id. w.containers id;
  created = λ ctx image id w h. create_container_ok ctx image w id h;
  create_failed = λ ctx image e w h. create_container_failed ctx image w e h;
  removed = λ ctx id w fine other. refl;
  image_inspect-exists = λ ctx image w. refl;
  copy_from_container-exists = λ ctx id path w. refl;
  mkdir_all-exists = λ path w. refl;
  create_file-exists = λ path w. refl;
  copy-exists = λ path b w. refl;
}

-- At the start there is nothing.
abbrev pub machine : Machine
machine = record { paths = λ path. false; containers = λ id. false }
