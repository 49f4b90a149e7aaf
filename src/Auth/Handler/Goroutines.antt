-- ===== src/Auth/Handler/Goroutines.antt =====
-- Concurrent calls of `Register` of internal/auth/handler.go. The gRPC server runs each request in
-- a goroutine of its own, so that other requests come between the statements of `Register` and of
-- `RegisterUser` (service.go) that it calls; one call of the repository is one step. `Pc` names the
-- statement that comes next.
pub mod Alone
pub mod Winners
pub mod Race
pub mod Lost
pub mod Inserts
use chef_infra.Base.{ℕ, String, Bool, true, Option, none, some, List, [], ◌∷◌, ◌++◌, get_elem?, set}
use chef_infra.Base.Result.{Result, ok, err}
use chef_infra.Auth.Repository.{Repository}
use chef_infra.Auth.Libraries.{Libraries}
use chef_infra.Auth.Service.{State, on_store, new_user, hash_password}
use chef_infra.Auth.Status.{Status, status, already_exists}
use chef_infra.Auth.Handler.Requests.{RegisterRequest, validate_register_request}
use chef_infra.Auth.Handler.{RegisterResponse, register_status}

pub data Pc : Type 0 where
  validating checking_name checking_email hashing : Pc
  creating : String → Pc
  answered : Result Status RegisterResponse → Pc

pub record Task : Type 0 where
  pub req : RegisterRequest
  pub pc : Pc

abbrev pub registered : RegisterResponse
registered = record { success = true; message = "User registered successfully" }

module _ (valid : String → Bool) (L : Libraries) (R : Repository) where
  -- The statement at the given place.
  unfoldable pub step_at : Pc → RegisterRequest → State L R → Pc × State L R
  step_at validating req s = (
    elim (validate_register_request valid req) [
      | ok _ ↦ checking_name
      | err st ↦ answered (err st)
    ],
    s,
  )
  step_at checking_name req s =
      let (r, s') = on_store L R (R.get_user_by_username req.username) s in
      (
        elim r [
          | ok _ ↦ answered (err (status already_exists "username already taken"))
          | err _ ↦ checking_email
        ],
        s',
      )
  step_at checking_email req s =
      let (r, s') = on_store L R (R.get_user_by_email req.email) s in
      (
        elim r [
          | ok _ ↦ answered (err (status already_exists "email already registered"))
          | err _ ↦ hashing
        ],
        s',
      )
  step_at hashing req s =
      let (r, s') = hash_password L R req.password s in
      (elim r [ ok hash ↦ creating hash | err e ↦ answered (err (register_status e)) ], s')
  step_at (creating hash) req s =
      let (r, s') = on_store L R (R.create_user (new_user req.username hash req.email)) s in
      (elim r [ ok _ ↦ answered (ok registered) | err e ↦ answered (err (register_status e)) ], s')
  step_at (answered r) req s = (answered r, s)

  abbrev pub step : Task → State L R → Task × State L R
  step t s = let (pc, s') = step_at t.pc t.req s in (record t { pc = pc }, s')

  pub record Server : Type 0 where
    pub state : State L R
    pub tasks : List Task

  -- A request arrives, a goroutine runs for one step, or something happens that leaves the
  -- repository alone, such as a login.
  pub data Event : Type 0 where
    arrive : RegisterRequest → Event
    run : ℕ → Event
    pass : L.World → Event

  unfoldable pub run_task : ℕ → Server → Server
  run_task i p = elim (get_elem? p.tasks i) [
    | none ↦ p
    | some t ↦ let (t', s) = step t p.state in record { state = s; tasks = set p.tasks i t' }
  ]

  unfoldable pub perform : Event → Server → Server
  perform (arrive req) p = record p {
    tasks = p.tasks ++ (record { req = req; pc = validating } ∷ []);
  }
  perform (run i) p = run_task i p
  perform (pass w) p = record p { state = record p.state { world = w } }

  unfoldable pub perform_all : List Event → Server → Server
  perform_all [] p = p
  perform_all (e ∷ es) p = perform_all es (perform e p)

  -- No request has arrived yet.
  abbrev pub new_server : State L R → Server
  new_server s = record { state = s; tasks = [] }
