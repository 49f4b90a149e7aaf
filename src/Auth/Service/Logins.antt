-- ===== src/Auth/Service/Logins.antt =====
-- `ValidateLogin`, `ValidateLoginWithRefresh` and `RegisterUser` of internal/auth/service.go: which
-- credentials are accepted, and what the calls leave in the repository.
use chef_infra.Base.{String, ◌≡◌, refl, ◌∙◌, arith, if◌then◌else◌}
use chef_infra.Base.Result.{Result, ok, err}
use chef_infra.Base.Exec.{Exec, lift, continue, ◌>>=◌}
use chef_infra.Config.{AuthConfig}
use chef_infra.Auth.Types.{User, Claims, Error, invalid_password}
use chef_infra.Auth.Repository.{Repository, IsLawful}
use chef_infra.Auth.Libraries.{Libraries}
use chef_infra.Auth.Service.{
  State, TokenPair, hash_password, check_password_hash, authenticate, sign_token, generate_token,
  generate_refresh_token, generate_token_pair, validate_token, parse_token, validate_token_type,
  validate_login_with_refresh, validate_login, new_user, refresh_token, refresh_token_pair,
  register_user,
}

module _ (L : Libraries) (R : Repository) where
  -- What the credentials deserve, given what the repository holds for the name.
  abbrev pub verdict : Result Error User → String → Result Error User
  verdict (ok user) password =
      if check_password_hash L R password user.password_hash then ok user else err invalid_password
  verdict (err e) password = err e

  -- `m` leaves the repository alone.
  abbrev KeepsStore : {A : Type 0} → Exec Error (State L R) A → Type 0
  KeepsStore m = (s : State L R) → (m s).1.store ≡ s.store

  bind-KeepsStore :
      {A B : Type 0} (m : Exec Error (State L R) A) (f : A → Exec Error (State L R) B)
      → KeepsStore m
      → ((a : A) → KeepsStore (f a))
      → KeepsStore (m >>= f)
  bind-KeepsStore m f km kf s = continue-store (m s).0 (m s).1 (km s)
    where
      continue-store :
          (r : Result Error _) (t : State L R)
          → t.store ≡ s.store
          → (continue r f t).1.store ≡ s.store
      continue-store (ok a) t e = kf a t ∙ e
      continue-store (err x) t e = e

  pub authenticate-verdict :
      (username password : String) (s : State L R)
      → (authenticate L R username password s).0
        ≡ verdict (R.get_user_by_username username s.store).0 password
  unfolding authenticate
  authenticate-verdict username password s = ground arith

  pub authenticate-store :
      (username password : String) (s : State L R)
      → (authenticate L R username password s).1.store ≡ (R.get_user_by_username username s.store).1
  unfolding authenticate hash_password
  authenticate-store username password s = ground arith

  module _ (c : AuthConfig) where
    pub validate_login_with_refresh_ok :
        (username password : String) (pair : TokenPair) (s : State L R)
        → (validate_login_with_refresh L R c username password s).0 ≡ ok pair
        → (user : User) × ((authenticate L R username password s).0 ≡ ok user)
          × ((generate_token_pair L R c user.username (authenticate L R username password s).1).0
              ≡ ok pair)
    unfolding validate_login_with_refresh
    validate_login_with_refresh_ok username password pair s h = ground arith

    generate_token_pair-KeepsStore : (name : String) → KeepsStore (generate_token_pair L R c name)
    unfolding generate_token_pair generate_token generate_refresh_token sign_token
    generate_token_pair-KeepsStore name s = ground arith

    generate_token-KeepsStore : (name : String) → KeepsStore (generate_token L R c name)
    unfolding generate_token sign_token
    generate_token-KeepsStore name s = refl

    validate_token-KeepsStore : (token : String) → KeepsStore (validate_token L R c token)
    unfolding validate_token parse_token
    validate_token-KeepsStore token s = ground arith

    checked-KeepsStore :
        {A : Type 0} (m : String → Exec Error (State L R) A)
        → ((name : String) → KeepsStore (m name))
        → (claims : Claims)
        → KeepsStore (lift (validate_token_type claims "refresh") >>= λ _. m claims.username)
    checked-KeepsStore m keeps claims =
        bind-KeepsStore (lift (validate_token_type claims "refresh")) (λ _. m claims.username)
          (λ s. refl) (λ _. keeps claims.username)

    -- Logins, validations and refreshes leave the repository as it was, whatever they return.
    pub reads-store :
        IsLawful R
        → (username password token : String) (s : State L R)
        → ((validate_login_with_refresh L R c username password s).1.store ≡ s.store)
          × ((validate_login L R c username password s).1.store ≡ s.store)
          × ((validate_token L R c token s).1.store ≡ s.store)
          × ((refresh_token L R c token s).1.store ≡ s.store)
          × ((refresh_token_pair L R c token s).1.store ≡ s.store)
    unfolding validate_login_with_refresh validate_login refresh_token refresh_token_pair
    reads-store lawful username password token s =
        let login = authenticate L R username password in
        let login_keeps : KeepsStore login =
          λ t. authenticate-store username password t ∙ lawful.username-state username t.store in
        let pair = λ (name : String). generate_token_pair L R c name in
        let access = λ (name : String). generate_token L R c name in
        (
          bind-KeepsStore login (λ u. pair u.username) login_keeps
              (λ u. generate_token_pair-KeepsStore u.username) s,
          bind-KeepsStore login (λ u. access u.username) login_keeps
              (λ u. generate_token-KeepsStore u.username) s,
          validate_token-KeepsStore token s,
          bind-KeepsStore (validate_token L R c token) _ (validate_token-KeepsStore token)
              (checked-KeepsStore access generate_token-KeepsStore) s,
          bind-KeepsStore (validate_token L R c token) _ (validate_token-KeepsStore token)
              (checked-KeepsStore pair generate_token_pair-KeepsStore) s,
        )

    -- `RegisterUser` hashes the password and hands the repository an account with that hash; where
    -- the hash fails, the repository is not asked.
    pub register_user-store :
        (username password email : String) (s : State L R)
        → let made = (hash_password L R password s).0 in
          ((e : Error)
            → made ≡ err e
            → ((register_user L R c username password email s).0 ≡ err e)
              × ((register_user L R c username password email s).1.store ≡ s.store))
          × ((hash : String)
              → made ≡ ok hash
              → let asked = R.create_user (new_user username hash email) s.store in
                ((register_user L R c username password email s).0 ≡ asked.0)
                × ((register_user L R c username password email s).1.store ≡ asked.1))
    unfolding register_user hash_password
    register_user-store username password email s = ground arith
