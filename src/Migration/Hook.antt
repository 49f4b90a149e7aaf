-- ===== src/Migration/Hook.antt =====
-- `OnStart` of internal/migration/module.go: where the start leaves the database.
use chef_infra.Base.{
  ℕ, zero, suc, ◌≤◌, ◌<◌, ◌≡◌, ◌≢◌, ◌⊎◌, ltb, nat_eq, Bool-cases, String, Option, some, inl, inr,
  arith, sym, ◌∙◌, ◌<>◌, List, [], ◌∷◌, All,
}
use chef_infra.Base.Result.{Result, ok, err, Result-cases}
use chef_infra.Migration.Outside.{FilePath, Host}
use chef_infra.Migration.DownTo.{IsGoose, fails, reaches, down_to-Ends, version-prepare}
use chef_infra.Migration.{
  last_version, get_migrations_dir, prepare, get_current_version, get_latest_version, up, down_loop,
  down_to, start_from, on_start, and_then,
}

-- What goose's documentation says of the migration files.
pub record ReadsFiles (H : Host) (G : IsGoose H) : Type 0 where
  -- `CollectMigrations` returns the versions in ascending order.
  pub ascending :
      (dir : FilePath) (versions : List ℕ)
      → H.collect_migrations dir ≡ ok versions
      → All (λ v. v ≤ last_version versions) versions
  -- `Up` applies what is pending: a success from a version that is not above the latest file's
  -- leaves that version.
  pub version-up :
      (dir : FilePath) (versions : List ℕ) (s : H.State)
      → H.collect_migrations dir ≡ ok versions
      → G.version s ≤ last_version versions
      → (H.up dir s).0 ≡ ok tt
      → G.version (H.up dir s).1 ≡ last_version versions
  -- `Down` runs the file of the current version, and fails where the directory has none.
  pub down_missing :
      (dir : FilePath) (versions : List ℕ) (s : H.State)
      → H.collect_migrations dir ≡ ok versions
      → All (λ v. v ≢ G.version s) versions
      → (H.down dir s).0 ≢ ok tt

-- The error where the version cannot be read.
abbrev unread : String → String
unread e = "failed to get current migration version" <> (": " <> e)

module _ (H : Host) (G : IsGoose H) (F : ReadsFiles H G) where
  open G use {version}

  missing_above :
      (versions : List ℕ) (bound n : ℕ)
      → All (λ v. v ≤ bound) versions
      → bound < n
      → All (λ v. v ≢ n) versions
  missing_above [] bound n h above = tt
  missing_above (v ∷ vs) bound n h above = (omega arith, missing_above vs bound n h.1 above)

  module _ (dir : FilePath) (versions : List ℕ) (at : get_migrations_dir H ≡ ok dir)
      (files : H.collect_migrations dir ≡ ok versions) where
    abbrev latest : ℕ
    latest = last_version versions

    get_latest_version_lem : (s : H.State) → get_latest_version H s ≡ (ok latest, s)
    unfolding get_latest_version
    get_latest_version_lem s = ground arith

    prepare-dir : (s : H.State) (d : FilePath) → (prepare H s).0 ≡ ok d → d ≡ dir
    unfolding prepare
    prepare-dir s d h = ground arith

    -- A loop of `DownTo` fails at its first round where no file has the version of the database.
    down_loop_above :
        (fuel current : ℕ) (s t : H.State)
        → latest < version s
        → latest < current
        → down_loop H fuel dir latest current s ≢ some (ok tt, t)
    unfolding down_loop
    down_loop_above zero current s t above high h = cc h
    down_loop_above (suc fuel) current s t above high h =
        let refused =
          F.down_missing dir versions s files
            (missing_above versions latest (version s) (F.ascending dir versions files) above) in
        ground (arith, refused)

    down_to_above :
        (fuel : ℕ) (s t : H.State) → latest < version s → down_to H fuel latest s ≢ some (ok tt, t)
    unfolding down_to get_current_version
    down_to_above fuel s t above h =
        let p = prepare H s in
        let q = H.get_db_version p.1 in
        elim (Result-cases p.0) [
          | inr (e, failed) ↦ absurd (cc (rw (failed, and_then) at h))
          | inl (d, ready) ↦ elim (Result-cases q.0) [
            | inr (e, failed) ↦ absurd (cc (rw (ready, failed, and_then) at h))
            | inl (v, read) ↦
                let here : version p.1 ≡ version s = version-prepare H G s in
                down_loop_above fuel v q.1 t (omega (arith, G.version-get_db_version p.1))
                  (omega (arith, G.version-read p.1 v read))
                  (rw (ready, read, and_then, prepare-dir s d ready) at h)
          ]
        ]

    -- The upgrade leaves the latest version.
    pub up_reaches :
        (s : H.State) → version s ≤ latest → (up H s).0 ≡ ok tt → version (up H s).1 ≡ latest
    unfolding up
    up_reaches s below h =
        let p = prepare H s in
        let here : version p.1 ≡ version s = version-prepare H G s in
        elim (Result-cases p.0) [
          | inr (e, failed) ↦ absurd (ground arith)
          | inl (d, ready) ↦
              ground
                (arith, prepare-dir s d ready, F.version-up dir versions p.1 files (omega arith))
        ]

    -- The answer is an error.
    abbrev pub Fails : Option (Result String (Unit {0}) × H.State) → Type 0
    Fails answer = (e : String) × (t : H.State) × (answer ≡ some (err e, t))

    -- What a start may end with: an error, or the database at the latest version.
    abbrev pub Settles : Option (Result String (Unit {0}) × H.State) → Type 0
    Settles answer =
        Fails answer ⊎ ((t : H.State) × (answer ≡ some (ok tt, t)) × (version t ≡ latest))

    start_from_above :
        (fuel current : ℕ) (u : H.State)
        → current ≡ version u
        → version u < fuel
        → latest < version u
        → Fails (start_from H fuel current latest u)
    unfolding start_from
    start_from_above fuel current u same enough above =
        elim (down_to-Ends H G fuel latest u enough) [
          | reaches t returns low ↦ absurd (down_to_above fuel u t above returns)
          | fails e t returns ↦ ("failed to downgrade database: " <> e, t, ground (arith, returns))
        ]

    start_from-Settles :
        (fuel current : ℕ) (u : H.State)
        → current ≡ version u
        → version u < fuel
        → Settles (start_from H fuel current latest u)
    unfolding start_from
    start_from-Settles fuel current u same enough = elim (Bool-cases (nat_eq current latest)) [
      | inl equal ↦ inr (u, rw equal, ground arith)
      | inr differ ↦ elim (Bool-cases (ltb latest current)) [
        | inl above ↦ inl (start_from_above fuel current u same enough (ground arith))
        | inr below ↦ elim (Result-cases (up H u).0) [
          | inr (e, failed) ↦
              inl (
                "failed to upgrade database" <> (": " <> e),
                (up H u).1,
                rw (differ, below, failed),
              )
          | inl (_, fine) ↦
              inr ((up H u).1, rw (differ, below, fine), up_reaches u (ground arith) fine)
        ]
      ]
    ]

    on_start_read :
        (fuel : ℕ) (s : H.State) (v : ℕ)
        → (H.get_db_version s).0 ≡ ok v
        → on_start H fuel s ≡ start_from H fuel v latest (H.get_db_version s).1
    unfolding on_start get_current_version
    on_start_read fuel s v read = ground (arith, get_latest_version_lem (H.get_db_version s).1)

    -- Where goose and the files keep their documented behaviour, the start hook ends, given fuel
    -- above the version of the database, and where it reports no error, the database is at the
    -- version of the latest migration file.
    pub on_start-Settles : (fuel : ℕ) (s : H.State) → version s < fuel → Settles (on_start H fuel s)
    unfolding on_start get_current_version
    on_start-Settles fuel s enough =
        let q = H.get_db_version s in
        elim (Result-cases q.0) [
          | inr (e, failed) ↦ inl (unread e, q.1, rw (failed, and_then))
          | inl (v, read) ↦ rw (on_start_read fuel s v read) (
              start_from-Settles fuel v q.1
                (G.version-read s v read ∙ sym (G.version-get_db_version s))
                (omega (arith, G.version-get_db_version s)))
        ]

    -- A database above the latest migration file, which the hook means to downgrade, makes the
    -- start fail: `Down` needs the file of the version that it rolls back.
    pub on_start_above :
        (fuel : ℕ) (s : H.State) → version s < fuel → latest < version s → Fails (on_start H fuel s)
    unfolding on_start get_current_version
    on_start_above fuel s enough above =
        let q = H.get_db_version s in
        elim (Result-cases q.0) [
          | inr (e, failed) ↦ (unread e, q.1, rw (failed, and_then))
          | inl (v, read) ↦ rw (on_start_read fuel s v read) (
              start_from_above fuel v q.1
                (G.version-read s v read ∙ sym (G.version-get_db_version s))
                (omega (arith, G.version-get_db_version s))
                (omega (arith, G.version-get_db_version s)))
        ]
