-- ===== src/Auth/Handler/Goroutines/Inserts.antt =====
-- What requests of `Register`, of internal/auth/handler.go, that race each other leave in the
-- repository: the accounts of those that succeeded, put there one at a time.
use mathlib.Core.List.{Perm, perm_middle}
use mathlib.Core.List.Perm as Permutation
use chef_infra.Base.{
  ℕ, zero, suc, String, Bool, true, ◌≡◌, ◌⊎◌, inl, inr, refl, arith, Option-cases, some, List, [],
  ◌∷◌, ◌++◌, get_elem?, set,
}
use mathlib.Core.Path.{subst}
use chef_infra.Base.Result.{ok, Result-cases}
use chef_infra.Auth.Repository.{Repository, IsLawful, IsUnique}
use chef_infra.Auth.Libraries.{Libraries, IsSound}
use chef_infra.Auth.Service.{State, new_user, hash_password, check_password_hash}
use chef_infra.Auth.Handler.Requests.{RegisterRequest}
use chef_infra.Auth.Handler.Goroutines.{
  Pc, validating, checking_name, checking_email, hashing, creating, answered, Task, step_at, step,
  Server, Event, arrive, run, pass, run_task, perform, perform_all, new_server,
}
use chef_infra.Auth.Handler.Goroutines.Winners.{IsFine}
use chef_infra.Auth.Handler.Goroutines.Race.{
  IsConsistent, perform-IsConsistent, new_server-IsConsistent,
}

-- The request, if it was answered with success.
abbrev pub won : Pc → RegisterRequest → List RegisterRequest
won (answered (ok _)) req = req ∷ []
won _ req = []

abbrev pub winners : List Task → List RegisterRequest
winners [] = []
winners (t ∷ ts) = won t.pc t.req ++ winners ts

winners-append_one :
    (ts : List Task) (t : Task) → won t.pc t.req ≡ [] → winners (ts ++ (t ∷ [])) ≡ winners ts
winners-append_one [] t lost = rw lost
winners-append_one (u ∷ ts) t lost = rw (winners-append_one ts t lost)

winners-set :
    (ts : List Task) (i : ℕ) (t t' : Task)
    → get_elem? ts i ≡ some t
    → won t'.pc t'.req ≡ won t.pc t.req
    → winners (set ts i t') ≡ winners ts
winners-set [] i t t' at_i same = refl
winners-set (u ∷ ts) zero t t' at_i same = let u_t : u ≡ t = cc at_i in rw (same, u_t)
winners-set (u ∷ ts) (suc i) t t' at_i same = rw (winners-set ts i t t' at_i same)

-- A new winner stands somewhere among the others.
winners-set_won :
    (ts : List Task) (i : ℕ) (t t' : Task) (r : RegisterRequest)
    → get_elem? ts i ≡ some t
    → won t.pc t.req ≡ []
    → won t'.pc t'.req ≡ r ∷ []
    → Perm (r ∷ winners ts) (winners (set ts i t'))
winners-set_won [] i t t' r at_i lost wins = absurd (cc at_i)
winners-set_won (u ∷ ts) zero t t' r at_i lost wins =
    let u_t : u ≡ t = cc at_i in rw (wins, u_t, lost) (Permutation.refl (r ∷ winners ts))
winners-set_won (u ∷ ts) (suc i) t t' r at_i lost wins =
    Permutation.trans (Permutation.symm (perm_middle (won u.pc u.req) (winners ts)))
      (Permutation.append_left (won u.pc u.req) (winners-set_won ts i t t' r at_i lost wins))

module _ (L : Libraries) (R : Repository) where
  -- The repository after one `CreateUser` for each of the requests, the last one first: all of them
  -- succeeded, each with a hash that accepts the request's password.
  pub data Inserts (before : R.State) : List RegisterRequest → R.State → Type 0 where
    nothing : Inserts before [] before
    inserts :
        (req : RegisterRequest) (hash : String) (rest : List RegisterRequest) (store : R.State)
        → Inserts before rest store
        → check_password_hash L R req.password hash ≡ true
        → (R.create_user (new_user req.username hash req.email) store).0 ≡ ok tt
        → Inserts before (req ∷ rest) (R.create_user (new_user req.username hash req.email) store).1

module _ (valid : String → Bool) (L : Libraries) (R : Repository) (lawful : IsLawful R) where
  -- What a step does to the repository: nothing, and then the request is as far from success as it
  -- was; or it stores the account of the request, which has succeeded with that.
  abbrev StepInserts : Pc → RegisterRequest → State L R → Type 0
  StepInserts pc r s =
      let (pc', s') = step_at valid L R pc r s in
      ((s'.store ≡ s.store) × (won pc' r ≡ won pc r))
      ⊎ ((hash : String) × (pc ≡ creating hash)
          × ((R.create_user (new_user r.username hash r.email) s.store).0 ≡ ok tt)
          × (s'.store ≡ (R.create_user (new_user r.username hash r.email) s.store).1)
          × (won pc r ≡ [])
          × (won pc' r ≡ r ∷ []))

  step_at-StepInserts : (pc : Pc) (r : RegisterRequest) (s : State L R) → StepInserts pc r s
  unfolding step_at hash_password
  step_at-StepInserts validating r s = inl (refl, ground arith)
  step_at-StepInserts checking_name r s =
      inl (lawful.username-state r.username s.store, ground arith)
  step_at-StepInserts checking_email r s = inl (lawful.email-state r.email s.store, ground arith)
  step_at-StepInserts hashing r s = inl (refl, ground arith)
  step_at-StepInserts (creating hash) r s =
      let user = new_user r.username hash r.email in
      elim (Result-cases (R.create_user user s.store).0) [
        | inl (_, done) ↦ inr (hash, refl, done, refl, refl, ground arith)
        | inr (e, failed) ↦ inl (lawful.create_failed user s.store e failed, ground arith)
      ]
  step_at-StepInserts (answered a) r s = inl (refl, refl)

module _ (valid : String → Bool) (L : Libraries) (R : Repository) (before : R.State) where
  -- The repository holds what was there before and the accounts of the requests that succeeded.
  abbrev pub IsLogged : Server valid L R → Type 0
  IsLogged p =
      (log : List RegisterRequest) × Inserts L R before log p.state.store
      × Perm log (winners p.tasks)

module _ (valid : String → Bool) (L : Libraries) (R : Repository) (lawful : IsLawful R)
    (unique : IsUnique R) (sound : IsSound L) (before : R.State) where
  run_task-IsLogged :
      (k : ℕ) (p : Server valid L R)
      → IsConsistent valid L R lawful unique sound p
      → IsLogged valid L R before p
      → IsLogged valid L R before (run_task valid L R k p)
  unfolding run_task
  run_task-IsLogged k p c (log, put, same) = elim (Option-cases (get_elem? p.tasks k)) [
    | inl missing ↦ rw (missing, run_task) (log, put, same)
    | inr (t, at_k) ↦
        let (t', s') = step valid L R t p.state in
        rw (at_k, run_task)
          (elim (step_at-StepInserts valid L R lawful t.pc t.req p.state) [
            | inl (kept, lost) ↦ (log, rw kept put, rw (winners-set p.tasks k t t' at_k lost) same)
            | inr (hash, at_pc, done, stored, lost, wins) ↦
                let fine : IsFine valid L R (creating hash) t.req p.state.store =
                  subst (λ pc. IsFine valid L R pc t.req p.state.store) at_pc (c.fine k t at_k) in
                (
                  t.req ∷ log,
                  rw stored (inserts t.req hash log p.state.store put fine.1 done),
                  Permutation.trans (Permutation.cons t.req same)
                      (winners-set_won p.tasks k t t' t.req at_k lost wins),
                )
          ])
  ]

  perform-IsLogged :
      (e : Event valid L R) (p : Server valid L R)
      → IsConsistent valid L R lawful unique sound p
      → IsLogged valid L R before p
      → IsLogged valid L R before (perform valid L R e p)
  unfolding perform
  perform-IsLogged (arrive req) p c (log, put, same) =
      let fresh : Task = record { req = req; pc = validating } in
      (log, put, rw (winners-append_one p.tasks fresh refl) same)
  perform-IsLogged (run k) p c logged = run_task-IsLogged k p c logged
  perform-IsLogged (pass w) p c logged = logged

  perform_all-IsLogged :
      (es : List (Event valid L R)) (p : Server valid L R)
      → IsConsistent valid L R lawful unique sound p
      → IsLogged valid L R before p
      → IsLogged valid L R before (perform_all valid L R es p)
  unfolding perform_all
  perform_all-IsLogged [] p c logged = logged
  perform_all-IsLogged (e ∷ es) p c logged =
      perform_all-IsLogged es (perform valid L R e p)
        (perform-IsConsistent valid L R lawful unique sound e p c) (perform-IsLogged e p c logged)

module _ (valid : String → Bool) (L : Libraries) (R : Repository) (lawful : IsLawful R)
    (unique : IsUnique R) (sound : IsSound L) where
  -- With a lawful repository that keeps names and email addresses apart, and sound libraries: however
  -- the goroutines of the requests are scheduled, the repository is what one successful `CreateUser`
  -- after the other makes of it, one for each request that was answered with success and none
  -- besides, each with a hash that accepts the request's password.
  pub raced-IsLogged :
      (s : State L R) (es : List (Event valid L R))
      → IsLogged valid L R s.store (perform_all valid L R es (new_server valid L R s))
  raced-IsLogged s es =
      perform_all-IsLogged valid L R lawful unique sound s.store es (new_server valid L R s)
        (new_server-IsConsistent valid L R lawful unique sound s) ([], nothing, Permutation.nil)
