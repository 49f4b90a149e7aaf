-- ===== src/Tests/Auth/Race.antt =====
-- Two requests of `Register` of internal/auth/handler.go that race each other, and the theorems
-- about such races applied to them.
use chef_infra.Base.{◌≡◌, ◌≢◌, refl, ap, List, [], ◌∷◌, some, get_elem?, arith, string_dec}
use chef_infra.Base.Result.{ok, err}
use chef_infra.Auth.Gorm.{
  gorm_repository, create_user, get_user_by_username, get_user_by_email, from_first,
}
use chef_infra.Auth.Gorm.Laws.{first_row, gorm_repository_keeps}
use chef_infra.Auth.Repository.{Repository}
use chef_infra.Auth.Service.{State, new_user, hash_password}
use chef_infra.Auth.Status.{status, internal}
use chef_infra.Auth.Handler.Requests.{RegisterRequest, validate_register_request}
use chef_infra.Auth.Handler.Goroutines.{
  validating, creating, answered, registered, Task, Event, arrive, run, Server, run_task, perform,
  perform_all, new_server, step_at,
}
use chef_infra.Auth.Handler.Goroutines.Inserts.{IsLogged, raced-IsLogged}
use chef_infra.Auth.Handler.Goroutines.Lost.{lost_race}
use chef_infra.Auth.Handler.Goroutines.Race.{winners_apart}
use chef_infra.Tests.Auth.Samples.{libraries, libraries-IsSound, alice, valid}
use chef_infra.Tests.Auth.Table.{table, table-IsTable, insert_row, has_row}

abbrev pub repository : Repository
repository = gorm_repository table

abbrev pub bobby : RegisterRequest
bobby = record { username = "bobby"; password = "battery staple"; email = "b@b.c" }

abbrev pub empty : State libraries repository
empty = record { world = 0; store = [] }

-- Alice's request comes first; bobby's overtakes it.
abbrev pub race : List (Event valid libraries repository)
race =
    arrive alice
    ∷ run 0
    ∷ arrive bobby
    ∷ run 1
    ∷ run 1
    ∷ run 0
    ∷ run 1
    ∷ run 1
    ∷ run 0
    ∷ run 1
    ∷ run 0
    ∷ run 0
    ∷ []

abbrev pub done : RegisterRequest → Task
done req = record { req = req; pc = answered (ok registered) }

-- What the race leaves.
abbrev pub raced : State libraries repository
raced = record {
  world = 0;
  store =
      new_user "bobby" "#battery staple" "b@b.c" ∷ new_user "alice" "#correct horse" "a@b.c" ∷ [];
}

pub after_race :
    perform_all valid libraries repository race (new_server valid libraries repository empty)
    ≡ record { state = raced; tasks = done alice ∷ done bobby ∷ [] }
unfolding perform_all perform run_task step_at validate_register_request hash_password create_user
    get_user_by_username get_user_by_email first_row insert_row has_row from_first string_dec
after_race = refl

abbrev pub tasks : List Task
tasks =
    (perform_all valid libraries repository race
      (new_server valid libraries repository empty)).tasks

pub finds_alice : get_elem? tasks 0 ≡ some (done alice)
finds_alice = ap (λ p. get_elem? p.tasks 0) after_race

finds_bobby : get_elem? tasks 1 ≡ some (done bobby)
finds_bobby = ap (λ p. get_elem? p.tasks 1) after_race

winners_apart_example : (alice.username ≢ bobby.username) × (alice.email ≢ bobby.email)
winners_apart_example =
    winners_apart valid libraries repository (gorm_repository_keeps table table-IsTable).0
      (gorm_repository_keeps table table-IsTable).1 libraries-IsSound empty race 0 1 (done alice)
      (done bobby) registered registered (omega arith) finds_alice finds_bobby refl refl

alice_taken :
    (get_user_by_username table "alice" raced.store).0
    ≡ ok (new_user "alice" "#correct horse" "a@b.c")
unfolding get_user_by_username first_row from_first string_dec
alice_taken = refl

lost_race_example :
    step_at valid libraries repository (creating "#other") alice raced
    ≡ (answered (err (status internal "failed to register user")), raced)
lost_race_example =
    lost_race valid libraries table table-IsTable alice "#other" raced
      (new_user "alice" "#correct horse" "a@b.c") alice_taken

-- Two requests have arrived, and another one arrives while they run.
abbrev two_requests : Server valid libraries repository
two_requests = record {
  state = empty;
  tasks = record { req = alice; pc = validating } ∷ record { req = bobby; pc = validating } ∷ [];
}

abbrev schedule : List (Event valid libraries repository)
schedule = run 0 ∷ run 1 ∷ run 0 ∷ arrive bobby ∷ run 0 ∷ run 2 ∷ run 0 ∷ run 0 ∷ []

raced-IsLogged_example :
    IsLogged valid libraries repository []
      (perform_all valid libraries repository race (new_server valid libraries repository empty))
raced-IsLogged_example =
    raced-IsLogged valid libraries repository (gorm_repository_keeps table table-IsTable).0
      (gorm_repository_keeps table table-IsTable).1 libraries-IsSound empty race
