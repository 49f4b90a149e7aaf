-- ===== src/Auth/Handler/Goroutines/Alone.antt =====
-- A goroutine that runs undisturbed does what `Register` of internal/auth/handler.go does.
use chef_infra.Base.{ℕ, zero, suc, String, Bool, ◌≡◌, arith}
use chef_infra.Config.{AuthConfig}
use chef_infra.Auth.Repository.{Repository}
use chef_infra.Auth.Libraries.{Libraries}
use chef_infra.Auth.Service.{State, register_user}
use chef_infra.Auth.Handler.Requests.{RegisterRequest}
use chef_infra.Auth.Handler.{register}
use chef_infra.Auth.Handler.Goroutines.{Pc, validating, answered, step_at}

module _ (valid : String → Bool) (L : Libraries) (R : Repository) (c : AuthConfig) where
  -- So many statements of one request, with nothing in between.
  unfoldable pub run_alone : ℕ → RegisterRequest → Pc → State L R → Pc × State L R
  run_alone zero req pc s = (pc, s)
  run_alone (suc n) req pc s = let (pc', s') = step_at valid L R pc req s in run_alone n req pc' s'

  -- The five statements of a request with nothing in between are `Register`: the same answer, and
  -- the same state.
  pub run_alone-register :
      (req : RegisterRequest) (s : State L R)
      → run_alone 5 req validating s
        ≡ (answered (register valid L R c req s).0, (register valid L R c req s).1)
  unfolding run_alone step_at register register_user
  run_alone-register req s = ground arith
