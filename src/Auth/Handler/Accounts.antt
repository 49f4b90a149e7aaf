-- ===== src/Auth/Handler/Accounts.antt =====
-- `Register` and `Login` of internal/auth/handler.go together: what a registration stores, who can
-- log in afterwards, and what a refused call leaves behind.
use chef_infra.Base.{String, Bool, true, ◌≡◌, ◌≢◌, sym, ◌∙◌, ap, inl, inr, arith}
use chef_infra.Base.Result.{ok, err, Result-cases}
use chef_infra.Config.{AuthConfig}
use chef_infra.Auth.Types.{User, Error}
use chef_infra.Auth.Repository.{Repository, IsLawful}
use chef_infra.Auth.Libraries.{Libraries, IsSound}
use chef_infra.Auth.Service.{
  State, TokenPair, on_store, new_user, hash_password, check_password_hash, authenticate,
  generate_token_pair, register_user, validate_login_with_refresh,
}
use chef_infra.Auth.Service.Logins.{register_user-store}
use chef_infra.Auth.Status.{Status}
use chef_infra.Auth.Handler.Requests.{
  RegisterRequest, LoginRequest, validate_register_request, validate_login_request,
}
use chef_infra.Auth.Handler.Validation.{IsAcceptable, validate_register_request_iff}
use chef_infra.Auth.Handler.{RegisterResponse, register, login}

module _ (L : Libraries) (R : Repository) where
  -- The repository holds an account for the request, whose hash accepts its password.
  abbrev pub Registered : RegisterRequest → R.State → Type 0
  Registered req store =
      (stored : User) × ((R.get_user_by_username req.username store).0 ≡ ok stored)
      × (stored.username ≡ req.username)
      × (stored.email ≡ req.email)
      × (check_password_hash L R req.password stored.password_hash ≡ true)

abbrev pub credentials : RegisterRequest → LoginRequest
credentials req = record { username = req.username; password = req.password }

module _ (valid : String → Bool) (L : Libraries) (R : Repository) (c : AuthConfig) where
  -- The state after the two look-ups.
  abbrev looked_up : RegisterRequest → State L R → State L R
  looked_up req s =
      let t = (on_store L R (R.get_user_by_username req.username) s).1 in
      (on_store L R (R.get_user_by_email req.email) t).1

  looked_up-eq : IsLawful R → (req : RegisterRequest) (s : State L R) → looked_up req s ≡ s
  looked_up-eq lawful req s =
      ap (λ (t : R.State). record s { store = t })
        (lawful.email-state req.email _ ∙ lawful.username-state req.username s.store)

  register_parts :
      (req : RegisterRequest) (s : State L R) (response : RegisterResponse)
      → (register valid L R c req s).0 ≡ ok response
      → (validate_register_request valid req ≡ ok tt)
        × ((user : User) → (R.get_user_by_username req.username s.store).0 ≢ ok user)
        × ((user : User)
            → (R.get_user_by_email req.email (R.get_user_by_username req.username s.store).1).0
              ≢ ok user)
        × ((register_user L R c req.username req.password req.email (looked_up req s)).0 ≡ ok tt)
        × ((register valid L R c req s).1
            ≡ (register_user L R c req.username req.password req.email (looked_up req s)).1)
  unfolding register
  register_parts req s response h = ground arith

  register_user_failed :
      IsLawful R
      → (username password email : String) (s : State L R) (e : Error)
      → (register_user L R c username password email s).0 ≡ err e
      → (register_user L R c username password email s).1.store ≡ s.store
  unfolding register_user hash_password
  register_user_failed lawful username password email s e =
      let w = L.generate_from_password password L.default_cost s.world in
      grind (arith, lawful.create_failed)

  -- A refused registration, whatever the reason, leaves the repository as it was.
  pub register_failed :
      IsLawful R
      → (req : RegisterRequest) (s : State L R) (st : Status)
      → (register valid L R c req s).0 ≡ err st
      → (register valid L R c req s).1.store ≡ s.store
  unfolding register
  register_failed lawful req s st h = grind (
    arith,
    lawful.username-state,
    lawful.email-state,
    register_user_failed lawful req.username req.password req.email,
  )

  register_user_ok :
      IsLawful R
      → IsSound L
      → (req : RegisterRequest) (s : State L R)
      → (register_user L R c req.username req.password req.email s).0 ≡ ok tt
      → Registered L R req (register_user L R c req.username req.password req.email s).1.store
  unfolding hash_password check_password_hash
  register_user_ok lawful sound req s h =
      let asks = register_user-store L R c req.username req.password req.email s in
      elim (Result-cases (hash_password L R req.password s).0) [
        | inr (e, failed) ↦ absurd (cc (h, (asks.0 e failed).0))
        | inl (hash, made) ↦
            let (answer, after) = asks.1 hash made in
            let user = new_user req.username hash req.email in
            let (stored, found, same) = lawful.username-create user s.store (sym answer ∙ h) in
            (
              stored,
              rw after found,
              same.same_username,
              same.same_email,
              rw same.same_password_hash
                  (ground (arith, sound.compare-generate req.password L.default_cost s.world hash)),
            )
      ]

  -- A registration succeeds only for an acceptable request whose name and email are both free, and
  -- then the repository holds an account with that name and email whose hash accepts the password.
  pub register_ok :
      IsLawful R
      → IsSound L
      → (req : RegisterRequest) (s : State L R) (response : RegisterResponse)
      → (register valid L R c req s).0 ≡ ok response
      → IsAcceptable valid req
        × ((user : User) → (R.get_user_by_username req.username s.store).0 ≢ ok user)
        × ((user : User) → (R.get_user_by_email req.email s.store).0 ≢ ok user)
        × Registered L R req (register valid L R c req s).1.store
  register_ok lawful sound req s response h =
      let (acceptable, free_name, free_email, done, after) = register_parts req s response h in
      (
        (validate_register_request_iff valid req).0 acceptable,
        free_name,
        λ user. rw (lawful.username-state req.username s.store) at (free_email user),
        rw after (register_user_ok lawful sound req (looked_up req s) done),
      )

  authenticate_ok :
      IsLawful R
      → (username password : String) (user : User) (t : State L R)
      → (R.get_user_by_username username t.store).0 ≡ ok user
      → check_password_hash L R password user.password_hash ≡ true
      → authenticate L R username password t ≡ (ok user, t)
  unfolding authenticate
  authenticate_ok lawful username password user t found accepted =
      ground (arith, lawful.username-state username t.store)

  pub validate_login_ok :
      IsLawful R
      → (username password : String) (user : User) (t : State L R)
      → (R.get_user_by_username username t.store).0 ≡ ok user
      → check_password_hash L R password user.password_hash ≡ true
      → validate_login_with_refresh L R c username password t
        ≡ generate_token_pair L R c user.username t
  unfolding validate_login_with_refresh
  validate_login_ok lawful username password user t found accepted =
      rw (authenticate_ok lawful username password user t found accepted)

  -- A login for an account that the repository holds returns exactly the tokens that
  -- `GenerateTokenPair` makes for its name.
  pub login-Registered :
      IsLawful R
      → (req : RegisterRequest) (t : State L R) (pair : TokenPair) → IsAcceptable valid req
      → Registered L R req t.store
      → (generate_token_pair L R c req.username t).0 ≡ ok pair
      → (login valid L R c (credentials req) t).0
        ≡ ok (record {
          success = true;
          message = "Login successful";
          access_token = pair.access_token;
          refresh_token = pair.refresh_token;
        })
  unfolding login validate_login_request
  login-Registered lawful req t pair acceptable (stored, found, name, _, accepted) made = ground (
    arith,
    acceptable.username_given,
    acceptable.password_given,
    made,
    validate_login_ok lawful req.username req.password stored t found accepted,
    name,
  )

  -- After a registration, in any state with the same repository, a login with the same name and
  -- password returns exactly the tokens that `GenerateTokenPair` makes for that name.
  pub login-register :
      IsLawful R
      → IsSound L
      → (req : RegisterRequest) (s t : State L R) (response : RegisterResponse) (pair : TokenPair)
      → (register valid L R c req s).0 ≡ ok response
      → t.store ≡ (register valid L R c req s).1.store
      → (generate_token_pair L R c req.username t).0 ≡ ok pair
      → (login valid L R c (record { username = req.username; password = req.password }) t).0
        ≡ ok (record {
          success = true;
          message = "Login successful";
          access_token = pair.access_token;
          refresh_token = pair.refresh_token;
        })
  login-register lawful sound req s t response pair h same made =
      let (acceptable, _, _, account) = register_ok lawful sound req s response h in
      login-Registered lawful req t pair acceptable (rw same account) made

  -- A registration changes no account of another name.
  pub register_others :
      IsLawful R
      → (req : RegisterRequest) (s : State L R) (response : RegisterResponse) (name : String)
      → (register valid L R c req s).0 ≡ ok response
      → req.username ≢ name
      → (R.get_user_by_username name (register valid L R c req s).1.store).0
        ≡ (R.get_user_by_username name s.store).0
  unfolding hash_password
  register_others lawful req s response name h differ =
      let (_, _, _, done, after) = register_parts req s response h in
      let t = looked_up req s in
      let asks = register_user-store L R c req.username req.password req.email t in
      elim (Result-cases (hash_password L R req.password t).0) [
        | inr (e, failed) ↦ absurd (cc (done, (asks.0 e failed).0))
        | inl (hash, made) ↦
            let (answer, stored) = asks.1 hash made in
            rw (after, stored)
              (lawful.username-create_ne (new_user req.username hash req.email) t.store name differ
                ∙ ap (λ (u : State L R). (R.get_user_by_username name u.store).0)
                    (looked_up-eq lawful req s))
      ]
