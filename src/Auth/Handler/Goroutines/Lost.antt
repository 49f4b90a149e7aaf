-- ===== src/Auth/Handler/Goroutines/Lost.antt =====
-- What `Register` of internal/auth/handler.go answers where another request has taken its name
-- after the look-ups, over the repository of internal/auth/repository.go.
use chef_infra.Base.{String, Bool, ◌≡◌, inl, inr, arith}
use chef_infra.Base.Result.{ok, err, Result-cases}
use chef_infra.Auth.Types.{User, DbError, Error, db}
use chef_infra.Auth.Gorm.{Gorm, gorm_repository, create_user, get_user_by_username}
use chef_infra.Auth.Gorm.Laws.{IsTable, gorm_repository_keeps}
use chef_infra.Auth.Libraries.{Libraries}
use chef_infra.Auth.Service.{State, new_user}
use chef_infra.Auth.Status.{status, internal}
use chef_infra.Auth.Handler.Requests.{RegisterRequest}
use chef_infra.Auth.Handler.{register_status}
use chef_infra.Auth.Handler.Goroutines.{creating, answered, step_at}

module _ (valid : String → Bool) (L : Libraries) (G : Gorm) where
  create_user_err :
      (u : User) (t : G.Table) (e : Error)
      → (create_user G u t).0 ≡ err e
      → (x : DbError) × (e ≡ db x)
  unfolding create_user
  create_user_err u t e h = elim (Result-cases (G.create u t).0) [
    | inl (_, done) ↦ absurd (ground arith)
    | inr (x, failed) ↦ (x, ground arith)
  ]

  -- Over a table that keeps its documented behaviour, a request whose name has been taken since its
  -- look-ups changes nothing, and is answered with `Internal`, not with `AlreadyExists`: the
  -- repository never returns `ErrUserExists`.
  pub lost_race :
      IsTable G
      → (req : RegisterRequest) (hash : String) (s : State L (gorm_repository G)) (row : User)
      → (get_user_by_username G req.username s.store).0 ≡ ok row
      → step_at valid L (gorm_repository G) (creating hash) req s
        ≡ (answered (err (status internal "failed to register user")), s)
  unfolding step_at register_status
  lost_race table req hash s row taken =
      let (lawful, unique) = gorm_repository_keeps G table in
      let user = new_user req.username hash req.email in
      elim (Result-cases (create_user G user s.store).0) [
        | inl (_, done) ↦ absurd (unique.name_free user row s.store done taken)
        | inr (e, failed) ↦
            let (x, is_db) = create_user_err user s.store e failed in
            let same = lawful.create_failed user s.store e failed in
            ground (arith, is_db, failed, same)
      ]
