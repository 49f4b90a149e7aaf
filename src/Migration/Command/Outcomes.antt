-- ===== src/Migration/Command/Outcomes.antt =====
-- `main` of cmd/migrate/main.go: where the commands leave the database.
use chef_infra.Base.{ℕ, ◌≤◌, ◌<◌, ◌≡◌, ◌⊎◌, inl, inr, String, ◌==◌, Option, Bool-cases, arith, List}
use chef_infra.Base.Result.{ok, Result-cases}
use chef_infra.Migration.Outside.{FilePath, Host}
use chef_infra.Migration.DownTo.{IsGoose, version-prepare}
use chef_infra.Migration.Hook.{ReadsFiles, up_reaches}
use chef_infra.Migration.{last_version, get_migrations_dir, prepare, down, reset}
use chef_infra.Migration.Command.{Connection, status, version, run_command}

-- Where a successful command leaves the database, which was at a version before.
pub data Leaves (latest : ℕ) (command : String) (before after : ℕ) : Type 0 where
  at_latest :
      (command ≡ "up") ⊎ (command ≡ "reset") → after ≡ latest → Leaves latest command before after
  earlier : command ≡ "down" → after < before → Leaves latest command before after
  same :
      (command ≡ "status") ⊎ (command ≡ "version")
      → after ≡ before
      → Leaves latest command before after

module _ (H : Host) (D : Connection H) (G : IsGoose H) (F : ReadsFiles H G) where
  version-down_lem : (s : H.State) → (down H s).0 ≡ ok tt → G.version (down H s).1 < G.version s
  unfolding down
  version-down_lem s h =
      let p = prepare H s in
      let here : G.version p.1 ≡ G.version s = version-prepare H G s in
      elim (Result-cases p.0) [
        | inr (e, failed) ↦ absurd (ground arith)
        | inl (dir, ready) ↦ ground (arith, G.version-down dir p.1)
      ]

  module _ (dir : FilePath) (versions : List ℕ) (at : get_migrations_dir H ≡ ok dir)
      (files : H.collect_migrations dir ≡ ok versions) where
    reset_reaches :
        (s : H.State)
        → G.version s ≤ last_version versions
        → (reset H s).0 ≡ ok tt
        → G.version (reset H s).1 ≡ last_version versions
    unfolding reset
    reset_reaches s below h = elim (Result-cases (down H s).0) [
      | inr (e, failed) ↦ absurd (ground arith)
      | inl (_, moved) ↦
          let t = (down H s).1 in
          let lower : G.version t < G.version s = version-down_lem s moved in
          ground (arith, up_reaches H G F dir versions at files t (omega arith))
    ]

    version-status :
        ((d : FilePath) (s : H.State) → G.version (D.status d s).1 ≡ G.version s)
        → (s : H.State) → G.version (status H D s).1 ≡ G.version s
    unfolding status
    version-status keeps s = ground (arith, keeps dir s)

    -- Where goose and the migration files keep their documented behaviour and `Status` does not
    -- move the database, a command that succeeds on a database that is not above the latest file
    -- leaves it at the latest file's version for up and reset, at an earlier version for down, and
    -- where it was for status and version; no other command succeeds.
    pub run_command_ok :
        (command : String) (line : Option String) (s : H.State)
        → ((d : FilePath) (t : H.State) → G.version (D.status d t).1 ≡ G.version t)
        → G.version s ≤ last_version versions
        → (run_command H D command s).0 ≡ ok line
        → Leaves
            (last_version versions)
            command
            (G.version s)
            (G.version (run_command H D command s).1)
    unfolding run_command version
    run_command_ok command line s keeps below h = elim (Bool-cases (command == "up")) [
      | inl is_up ↦
          at_latest (inl (ground arith))
            (ground (arith, up_reaches H G F dir versions at files s below))
      | inr not_up ↦ elim (Bool-cases (command == "down")) [
        | inl is_down ↦ earlier (ground arith) (ground (arith, version-down_lem s))
        | inr not_down ↦ elim (Bool-cases (command == "status")) [
          | inl is_status ↦ same (inl (ground arith)) (ground (arith, version-status keeps s))
          | inr not_status ↦ elim (Bool-cases (command == "version")) [
            | inl is_version ↦
                same (inr (ground arith)) (ground (arith, G.version-get_db_version s))
            | inr not_version ↦ elim (Bool-cases (command == "reset")) [
              | inl is_reset ↦
                  at_latest (inr (ground arith)) (ground (arith, reset_reaches s below))
              | inr unknown ↦ absurd (ground arith)
            ]
          ]
        ]
      ]
    ]
