-- ===== src/App/Sessions.antt =====
-- The application of internal/app/module.go in use: requests of `Register` that race each other on
-- the handler that it provides, over the table of its database, then a login, then a request to a
-- protected endpoint, the two last through the interceptor of internal/server/server.go with the
-- middleware that it provides.
use chef_infra.Base.{ℕ, ◌∙◌, ap, ◌+◌, ◌<◌, String, Bool, true, ◌≡◌, some, List, ◌∷◌, get_elem?}
use chef_infra.Base.Result.{ok}
use chef_infra.Base.Exec.{Exec}
use chef_infra.Base.Dict.{Dict}
use chef_infra.Auth.Repository.{Repository}
use chef_infra.Auth.Gorm.Laws.{IsTable, gorm_repository_keeps}
use chef_infra.Auth.Libraries.{Libraries, IsSound}
use chef_infra.Auth.Service.{State, TokenPair, generate_token_pair}
use chef_infra.Auth.Status.{Status}
use chef_infra.Auth.Handler.Requests.{LoginRequest}
use chef_infra.Auth.Handler.{RegisterResponse, LoginResponse, login}
use chef_infra.Auth.Handler.Accounts.{credentials, login-Registered}
use chef_infra.Auth.Handler.Goroutines.{Task, answered, Event, Server, perform_all, new_server}
use chef_infra.Auth.Handler.Goroutines.Race.{winners-Registered}
use chef_infra.Auth.Middleware.{Context, metadata_get, get_user_from_context}
use chef_infra.Server.{auth_login, is_protected_endpoint, auth_interceptor}
use chef_infra.Server.Sessions
use chef_infra.Server.Sessions.{serve_login_lem, token_authenticated}
use chef_infra.App.{Environment}
use chef_infra.App.Provided.{Outside, Params, Built, provided}

-- The repository of the service, below the handler.
abbrev pub repository_of : Params → Repository
repository_of p = p.auth_handler.service.repository

module _ (valid : String → Bool) (L : Libraries) (p : Params) where
  -- A request through the interceptor of `NewServer`, which asks the middleware it is given.
  unfoldable pub serve :
      {A : Type 0}
      → String
      → (Context → Exec Status (State L (repository_of p)) A)
      → Context
      → Exec Status (State L (repository_of p)) A
  serve method handler ctx =
      auth_interceptor L (repository_of p) p.auth_middleware.config method handler ctx

  -- `Login` of the handler that `NewServer` registers.
  unfoldable pub serve_login :
      LoginRequest → Context → Exec Status (State L (repository_of p)) LoginResponse
  serve_login req ctx =
      serve auth_login (λ _. login valid L (repository_of p) p.auth_handler.service.config req) ctx

module _ (E : Environment) (O : Outside E) (valid : String → Bool) (L : Libraries)
    (built : Built E O) where
  abbrev repository : Repository
  repository = repository_of (provided E O built)

  -- The repository and the goroutines of `Register` after they have run so.
  abbrev pub raced :
      State L repository → List (Event valid L repository) → Server valid L repository
  raced s es = perform_all valid L repository es (new_server valid L repository s)

  -- In the application, over a table that keeps its documented behaviour and with sound libraries:
  -- however the goroutines of any requests of `Register` are scheduled, for each of them that was
  -- answered with success, while the repository is as the goroutines left it and tokens can be signed,
  -- a login with its name and password answers with the token pair that the service makes for that
  -- name. With the access token of the pair, a request to a protected endpoint has its handler run in
  -- a context that names the registered user, until that token expires.
  pub raced_session :
      IsTable (O.gorm built.manager.db)
      → IsSound L
      → (s t u : State L repository) (es : List (Event valid L repository)) (i : ℕ) (task : Task)
        (registered : RegisterResponse) (inner : Context) (pair : TokenPair)
      → get_elem? (raced s es).tasks i ≡ some task
      → task.pc ≡ answered (ok registered)
      → t.store ≡ (raced s es).state.store
      → (generate_token_pair L repository built.config.auth task.req.username t).0 ≡ ok pair
      → L.clock u.world
        < L.new_numeric_date (L.clock t.world + built.config.auth.access_token_duration)
      → {A : Type 0} (method : String) (handler : Context → Exec Status (State L repository) A)
        (ctx : Context) (md : Dict (List String)) (rest : List String)
      → is_protected_endpoint method ≡ true
      → ctx.metadata ≡ some md
      → metadata_get "authorization" md ≡ pair.access_token ∷ rest
      → ((serve_login valid L (provided E O built) (credentials task.req) inner t).0
          ≡ ok (record {
            success = true;
            message = "Login successful";
            access_token = pair.access_token;
            refresh_token = pair.refresh_token;
          }))
        × ((new_ctx : Context) × (get_user_from_context new_ctx ≡ ok task.req.username)
            × (after : State L repository) × (serve valid L
                  (provided E O built)
                  method
                  handler
                  ctx
                  u
                ≡ handler new_ctx after))
  unfolding serve serve_login
  raced_session table sound s t u es i task registered inner pair at_i won same made early method
        handler ctx md rest protected has_md has =
      let c = built.config.auth in
      let (lawful, unique) = gorm_repository_keeps (O.gorm built.manager.db) table in
      let (acceptable, account) =
        winners-Registered valid L repository lawful unique sound s es i task registered at_i won in
      let logged : (Sessions.serve_login valid L repository c (credentials task.req) inner t).0
          ≡ ok _ =
        ap (λ r. r.0) (serve_login_lem valid L repository c (credentials task.req) inner t)
        ∙ login-Registered valid L repository c lawful task.req t pair acceptable (rw same account)
            made in
      let (new_ctx, name, served) =
        token_authenticated valid L repository c lawful sound task.req inner t u _ acceptable
          (rw same account) logged early method handler ctx md rest protected has_md has in
      (logged, (new_ctx, name, _, served))
