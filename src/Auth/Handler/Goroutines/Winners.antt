-- ===== src/Auth/Handler/Goroutines/Winners.antt =====
-- What one step of a goroutine of `Register`, of internal/auth/handler.go, keeps of the registrations
-- that have been answered, its own and the others'.
use chef_infra.Base.{String, Bool, true, ◌≡◌, ◌≢◌, ◌⊎◌, inl, inr, refl, sym, ◌∙◌, arith}
use chef_infra.Base.Result.{ok, err, Result-cases}
use chef_infra.Auth.Types.{User}
use chef_infra.Auth.Repository.{Repository, IsLawful, IsUnique}
use chef_infra.Auth.Libraries.{Libraries, IsSound}
use chef_infra.Auth.Service.{State, new_user, hash_password, check_password_hash}
use chef_infra.Auth.Handler.Requests.{RegisterRequest, validate_register_request}
use chef_infra.Auth.Handler.Validation.{IsAcceptable, validate_register_request_iff}
use chef_infra.Auth.Handler.{RegisterResponse}
use chef_infra.Auth.Handler.Accounts.{Registered}
use chef_infra.Auth.Handler.Goroutines.{
  Pc, validating, checking_name, checking_email, hashing, creating, answered, step_at,
}

-- Neither the names nor the email addresses of the two requests are the same.
pub record AreApart (r q : RegisterRequest) : Type 0 where
  pub names : r.username ≢ q.username
  pub emails : r.email ≢ q.email

pub AreApart-sym : {r q : RegisterRequest} → AreApart r q → AreApart q r
AreApart-sym apart = record { names = λ e. apart.names (sym e); emails = λ e. apart.emails (sym e) }

module _ (valid : String → Bool) (L : Libraries) (R : Repository) where
  -- The request is acceptable, its account is found under its name, with a hash that accepts its
  -- password, and an account is found under its email address.
  abbrev pub Held : RegisterRequest → R.State → Type 0
  Held req store =
      IsAcceptable valid req
      × Registered L R req store
      × ((stored : User) × ((R.get_user_by_email req.email store).0 ≡ ok stored))

  -- What holds of a request whose goroutine is at the given place.
  abbrev pub IsFine : Pc → RegisterRequest → R.State → Type 0
  IsFine validating req store = Unit
  IsFine (answered (err _)) req store = Unit
  IsFine (answered (ok _)) req store = Held req store
  IsFine (creating hash) req store =
      IsAcceptable valid req × (check_password_hash L R req.password hash ≡ true)
  IsFine _ req store = IsAcceptable valid req

  module _ (lawful : IsLawful R) (unique : IsUnique R) where
    -- The account that `CreateUser` stores is apart from all that the repository holds.
    pub Held-apart :
        (r q : RegisterRequest) (hash : String) (store : R.State)
        → Held q store
        → (R.create_user (new_user r.username hash r.email) store).0 ≡ ok tt
        → AreApart r q
    Held-apart r q hash store (_, (u, found, _, _, _), (v, there)) done =
        let user = new_user r.username hash r.email in
        record {
          names = λ same. unique.name_free user u store done (rw same found);
          emails = λ same. unique.email_free user v store done (rw same there);
        }

    Held-create :
        (r q : RegisterRequest) (hash : String) (store : R.State)
        → Held q store
        → Held q (R.create_user (new_user r.username hash r.email) store).1
    Held-create r q hash store held =
        let user = new_user r.username hash r.email in
        elim (Result-cases (R.create_user user store).0) [
          | inr (e, failed) ↦ rw (lawful.create_failed user store e failed) held
          | inl (_, done) ↦
              let apart = Held-apart r q hash store held done in
              let (fit, (u, found, named, mail, accepts), (v, there)) = held in
              (
                fit,
                (
                  u,
                  lawful.username-create_ne user store q.username apart.names ∙ found,
                  named,
                  mail,
                  accepts,
                ),
                (v, unique.email-create_ne user store q.email apart.emails ∙ there),
              )
        ]

    -- A step of one goroutine keeps the accounts of the others.
    Held-step :
        (pc : Pc) (r q : RegisterRequest) (s : State L R)
        → Held q s.store
        → Held q (step_at valid L R pc r s).1.store
    unfolding step_at hash_password
    Held-step validating r q s held = held
    Held-step checking_name r q s held = rw (lawful.username-state r.username s.store) held
    Held-step checking_email r q s held = rw (lawful.email-state r.email s.store) held
    Held-step hashing r q s held = held
    Held-step (creating hash) r q s held = Held-create r q hash s.store held
    Held-step (answered a) r q s held = held

    pub IsFine-others :
        (pc other : Pc) (r q : RegisterRequest) (s : State L R)
        → IsFine other q s.store
        → IsFine other q (step_at valid L R pc r s).1.store
    IsFine-others pc (answered (ok a)) r q s fine = Held-step pc r q s fine
    IsFine-others pc (answered (err e)) r q s fine = fine
    IsFine-others pc validating r q s fine = fine
    IsFine-others pc checking_name r q s fine = fine
    IsFine-others pc checking_email r q s fine = fine
    IsFine-others pc hashing r q s fine = fine
    IsFine-others pc (creating hash) r q s fine = fine

    -- A goroutine answers `ok` only where its `CreateUser` succeeds.
    pub step_at-won :
        (pc : Pc) (r : RegisterRequest) (s : State L R) (a : RegisterResponse)
        → (step_at valid L R pc r s).0 ≡ answered (ok a)
        → (pc ≡ answered (ok a))
          ⊎ ((hash : String) × ((R.create_user (new_user r.username hash r.email) s.store).0
                ≡ ok tt))
    unfolding step_at
    step_at-won validating r s a e = ground arith
    step_at-won checking_name r s a e = ground arith
    step_at-won checking_email r s a e = ground arith
    step_at-won hashing r s a e = ground arith
    step_at-won (creating hash) r s a e = inr (hash, ground arith)
    step_at-won (answered b) r s a e = inl e

    module _ (sound : IsSound L) where
      Held-created :
          (r : RegisterRequest) (hash : String) (store : R.State)
          → IsAcceptable valid r
          → check_password_hash L R r.password hash ≡ true
          → (R.create_user (new_user r.username hash r.email) store).0 ≡ ok tt
          → Held r (R.create_user (new_user r.username hash r.email) store).1
      Held-created r hash store fit accepts done =
          let user = new_user r.username hash r.email in
          let (u, found, same) = lawful.username-create user store done in
          let (v, there, _) = unique.email-create user store done in
          (
            fit,
            (u, found, same.same_username, same.same_email, rw same.same_password_hash accepts),
            (v, there),
          )

      pub IsFine-own :
          (pc : Pc) (r : RegisterRequest) (s : State L R)
          → IsFine pc r s.store
          → IsFine (step_at valid L R pc r s).0 r (step_at valid L R pc r s).1.store
      unfolding step_at hash_password check_password_hash
      IsFine-own validating r s fine = elim (Result-cases (validate_register_request valid r)) [
        | inr (e, failed) ↦ rw (failed, step_at) tt
        | inl (_, passed) ↦ rw (passed, step_at) ((validate_register_request_iff valid r).0 passed)
      ]
      IsFine-own checking_name r s fine =
          elim (Result-cases (R.get_user_by_username r.username s.store).0) [
            | inr (e, missing) ↦ rw (missing, step_at) fine
            | inl (u, taken) ↦ rw (taken, step_at) tt
          ]
      IsFine-own checking_email r s fine =
          elim (Result-cases (R.get_user_by_email r.email s.store).0) [
            | inr (e, missing) ↦ rw (missing, step_at) fine
            | inl (u, taken) ↦ rw (taken, step_at) tt
          ]
      IsFine-own hashing r s fine = elim (Result-cases (hash_password L R r.password s).0) [
        | inr (e, failed) ↦ rw (failed, step_at) tt
        | inl (hash, made) ↦
            let accepts =
              sound.compare-generate r.password L.default_cost s.world hash (ground arith) in
            rw (made, step_at) (fine, rw (accepts, check_password_hash) refl)
      ]
      IsFine-own (creating hash) r s fine =
          let user = new_user r.username hash r.email in
          elim (Result-cases (R.create_user user s.store).0) [
            | inr (e, failed) ↦ rw (failed, step_at) tt
            | inl (_, done) ↦ rw (done, step_at) (Held-created r hash s.store fine.0 fine.1 done)
          ]
      IsFine-own (answered a) r s fine = fine
