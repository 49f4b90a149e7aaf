-- ===== src/Auth/Handler/Goroutines/Race.antt =====
-- Requests of `Register`, of internal/auth/handler.go, that race each other.
use chef_infra.Base.{
  ℕ, String, Option-cases, some, ◌≡◌, ◌≢◌, inl, inr, sym, ◌∙◌, ap, arith, List, [], ◌∷◌, get_elem?,
  get_elem?-set_cases, get_elem?-append_one_cases, Bool,
}
use mathlib.Core.Path.{subst}
use chef_infra.Base.Result.{ok}
use chef_infra.Auth.Repository.{Repository, IsLawful, IsUnique}
use chef_infra.Auth.Libraries.{Libraries, IsSound}
use chef_infra.Auth.Service.{State}
use chef_infra.Auth.Handler.Requests.{RegisterRequest}
use chef_infra.Auth.Handler.Validation.{IsAcceptable}
use chef_infra.Auth.Handler.{RegisterResponse}
use chef_infra.Auth.Handler.Accounts.{Registered}
use chef_infra.Auth.Handler.Goroutines.{
  validating, answered, Task, step, Server, Event, arrive, run, pass, run_task, perform,
  perform_all, new_server,
}
use chef_infra.Auth.Handler.Goroutines.Winners.{
  AreApart, AreApart-sym, Held, IsFine, Held-apart, IsFine-others, IsFine-own, step_at-won,
}

module _ (valid : String → Bool) (L : Libraries) (R : Repository) (lawful : IsLawful R)
    (unique : IsUnique R) (sound : IsSound L) where
  -- Every request is where it should be, and any two that were answered with success are apart.
  pub record IsConsistent (p : Server valid L R) : Type 0 where
    pub fine :
        (i : ℕ) (t : Task)
        → get_elem? p.tasks i ≡ some t
        → IsFine valid L R t.pc t.req p.state.store
    pub apart :
        (i j : ℕ) (t u : Task) (a b : RegisterResponse)
        → i ≢ j
        → get_elem? p.tasks i ≡ some t
        → get_elem? p.tasks j ≡ some u
        → t.pc ≡ answered (ok a)
        → u.pc ≡ answered (ok b)
        → AreApart t.req u.req

  -- A request that has just succeeded is apart from all that had succeeded before.
  step-apart :
      (t u : Task) (s : State L R) (a b : RegisterResponse)
      → IsFine valid L R u.pc u.req s.store
      → u.pc ≡ answered (ok b)
      → (t.pc ≡ answered (ok a) → AreApart t.req u.req)
      → (step valid L R t s).0.pc ≡ answered (ok a)
      → AreApart t.req u.req
  step-apart t u s a b held at_u before at_t =
      let there : Held valid L R u.req s.store =
        subst (λ pc. IsFine valid L R pc u.req s.store) at_u held in
      elim (step_at-won valid L R lawful unique t.pc t.req s a at_t) [
        | inl already ↦ before already
        | inr (hash, done) ↦ Held-apart valid L R lawful unique t.req u.req hash s.store there done
      ]

  stepped_apart :
      (k j : ℕ) (p : Server valid L R) (x t u : Task) (a b : RegisterResponse)
      → IsConsistent p
      → get_elem? p.tasks k ≡ some x
      → get_elem? p.tasks j ≡ some u
      → k ≢ j
      → (step valid L R x p.state).0 ≡ t
      → t.pc ≡ answered (ok a)
      → u.pc ≡ answered (ok b)
      → AreApart t.req u.req
  stepped_apart k j p x t u a b c at_k at_j differ stepped t_won u_won =
      subst (λ (t : Task). AreApart t.req u.req) stepped
        (step-apart x u p.state a b (c.fine j u at_j) u_won
          (λ already. c.apart k j x u a b differ at_k at_j already u_won)
          (ap (λ (t : Task). t.pc) stepped ∙ t_won))

  run_task-IsConsistent :
      (k : ℕ) (p : Server valid L R) → IsConsistent p → IsConsistent (run_task valid L R k p)
  unfolding run_task
  run_task-IsConsistent k p c = elim (Option-cases (get_elem? p.tasks k)) [
    | inl missing ↦ rw (missing, run_task) c
    | inr (x, at_k) ↦
        let s = p.state in
        let (x', s') = step valid L R x s in
        let fine_x = c.fine k x at_k in
        let own = IsFine-own valid L R lawful unique sound x.pc x.req s fine_x in
        rw (at_k, run_task)
          (record {
            fine = λ i t at_i. elim (get_elem?-set_cases p.tasks k i x' x t at_k at_i) [
              | inl (_, same) ↦ subst (λ (t : Task). IsFine valid L R t.pc t.req s'.store) same own
              | inr (_, there) ↦
                  IsFine-others valid L R lawful unique x.pc t.pc x.req t.req s (c.fine i t there)
            ];
            apart = λ i j t u a b differ at_i at_j t_won u_won.
                elim (get_elem?-set_cases p.tasks k i x' x t at_k at_i) [
                  | inl (k_i, x'_t) ↦ elim (get_elem?-set_cases p.tasks k j x' x u at_k at_j) [
                    | inl (k_j, _) ↦ absurd (differ (sym k_i ∙ k_j))
                    | inr (apart, u_at) ↦
                        stepped_apart k j p x t u a b c at_k u_at apart x'_t t_won u_won
                  ]
                  | inr (apart, t_at) ↦ elim (get_elem?-set_cases p.tasks k j x' x u at_k at_j) [
                    | inl (_, x'_u) ↦
                        AreApart-sym
                          (stepped_apart k i p x u t b a c at_k t_at apart x'_u u_won t_won)
                    | inr (_, u_at) ↦ c.apart i j t u a b differ t_at u_at t_won u_won
                  ]
                ];
          })
  ]

  not_yet :
      (req : RegisterRequest) (t : Task) (a : RegisterResponse)
      → ◌≡◌ {A = Task} (record { req = req; pc = validating }) t
      → t.pc ≢ answered (ok a)
  not_yet req t a new won = ground (arith, ap (λ (t : Task). t.pc) new ∙ won)

  pub perform-IsConsistent :
      (e : Event valid L R) (p : Server valid L R)
      → IsConsistent p
      → IsConsistent (perform valid L R e p)
  unfolding perform
  perform-IsConsistent (arrive req) p c = record {
    fine = λ i t at_i. elim (get_elem?-append_one_cases p.tasks _ i t at_i) [
      | inl same ↦ subst (λ (t : Task). IsFine valid L R t.pc t.req p.state.store) same tt
      | inr there ↦ c.fine i t there
    ];
    apart = λ i j t u a b differ at_i at_j t_won u_won.
        elim (get_elem?-append_one_cases p.tasks _ i t at_i) [
          | inl new_t ↦ absurd (not_yet req t a new_t t_won)
          | inr t_at ↦ elim (get_elem?-append_one_cases p.tasks _ j u at_j) [
            | inl new_u ↦ absurd (not_yet req u b new_u u_won)
            | inr u_at ↦ c.apart i j t u a b differ t_at u_at t_won u_won
          ]
        ];
  }
  perform-IsConsistent (run k) p c = run_task-IsConsistent k p c
  perform-IsConsistent (pass w) p c = record { fine = c.fine; apart = c.apart }

  perform_all-IsConsistent :
      (es : List (Event valid L R)) (p : Server valid L R)
      → IsConsistent p
      → IsConsistent (perform_all valid L R es p)
  unfolding perform_all
  perform_all-IsConsistent [] p c = c
  perform_all-IsConsistent (e ∷ es) p c =
      perform_all-IsConsistent es (perform valid L R e p) (perform-IsConsistent e p c)

  pub new_server-IsConsistent : (s : State L R) → IsConsistent (new_server valid L R s)
  new_server-IsConsistent s = record {
    fine = λ i t at_i. absurd (cc at_i);
    apart = λ i j t u a b differ at_i at_j. absurd (cc at_i);
  }

  -- With a lawful repository that keeps names and email addresses apart, and sound libraries:
  -- however the goroutines of the requests are scheduled, two different requests that were both
  -- answered with success have different names and different email addresses.
  pub winners_apart :
      (s : State L R) (es : List (Event valid L R)) (i j : ℕ) (t u : Task) (a b : RegisterResponse)
      → i ≢ j
      → get_elem? (perform_all valid L R es (new_server valid L R s)).tasks i ≡ some t
      → get_elem? (perform_all valid L R es (new_server valid L R s)).tasks j ≡ some u
      → t.pc ≡ answered (ok a)
      → u.pc ≡ answered (ok b)
      → (t.req.username ≢ u.req.username) × (t.req.email ≢ u.req.email)
  winners_apart s es i j t u a b differ at_i at_j t_won u_won =
      let c = perform_all-IsConsistent es (new_server valid L R s) (new_server-IsConsistent s) in
      let apart = c.apart i j t u a b differ at_i at_j t_won u_won in (apart.names, apart.emails)

  -- What holds in the end of a request that was answered with success.
  winner-Held :
      (s : State L R) (es : List (Event valid L R)) (i : ℕ) (t : Task) (a : RegisterResponse)
      → get_elem? (perform_all valid L R es (new_server valid L R s)).tasks i ≡ some t
      → t.pc ≡ answered (ok a)
      → Held valid L R t.req (perform_all valid L R es (new_server valid L R s)).state.store
  winner-Held s es i t a at_i won =
      let p = perform_all valid L R es (new_server valid L R s) in
      let c = perform_all-IsConsistent es (new_server valid L R s) (new_server-IsConsistent s) in
      subst (λ pc. IsFine valid L R pc t.req p.state.store) won (c.fine i t at_i)

  -- Under the same conditions, every request that was answered with success was acceptable, and the
  -- repository holds its account: found under its name, with its email address and a hash that
  -- accepts its password.
  pub winners-Registered :
      (s : State L R) (es : List (Event valid L R)) (i : ℕ) (t : Task) (a : RegisterResponse)
      → get_elem? (perform_all valid L R es (new_server valid L R s)).tasks i ≡ some t
      → t.pc ≡ answered (ok a)
      → IsAcceptable valid t.req
        × Registered L R t.req (perform_all valid L R es (new_server valid L R s)).state.store
  winners-Registered s es i t a at_i won =
      let (fit, account, _) = winner-Held s es i t a at_i won in (fit, account)
