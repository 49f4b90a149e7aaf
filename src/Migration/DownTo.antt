-- ===== src/Migration/DownTo.antt =====
-- `DownTo` of internal/migration/migrate.go, over a goose that keeps its documented behaviour.
use chef_infra.Base.{
  ℕ, zero, suc, ◌≤◌, ◌<◌, ◌≡◌, ltb, Bool-cases, String, Option, some, inl, inr, arith, refl, sym,
  ◌∙◌, ◌<>◌, decimal,
}
use chef_infra.Base.Result.{Result, ok, err, Result-cases}
use chef_infra.Migration.Outside.{FilePath, Host}
use chef_infra.Migration.{prepare, get_current_version, down_loop, down_to, and_then}

-- What goose's documentation says of the version of the database.
pub record IsGoose (H : Host) : Type 0 where
  -- The version that the database's table holds.
  pub version : H.State → ℕ
  pub version-set_dialect : (s : H.State) → version (H.set_dialect s).1 ≡ version s
  -- `GetDBVersion` returns it, and changes nothing that it returns.
  pub version-read : (s : H.State) (v : ℕ) → (H.get_db_version s).0 ≡ ok v → v ≡ version s
  pub version-get_db_version : (s : H.State) → version (H.get_db_version s).1 ≡ version s
  -- `Down` rolls back one migration: a success leaves an earlier version.
  pub version-down :
      (dir : FilePath) (s : H.State)
      → (H.down dir s).0 ≡ ok tt
      → version (H.down dir s).1 < version s

-- The error of a failed round.
abbrev failure : ℕ → String → String
failure target e = ("failed to migrate down to version " <> decimal target) <> (": " <> e)

module _ (H : Host) (G : IsGoose H) where
  open G use {version}

  -- What a call of `DownTo` may end with: an error, or a version that is low enough.
  pub data Ends (target : ℕ) (answer : Option (Result String (Unit {0}) × H.State)) : Type 0 where
    fails : (e : String) (after : H.State) → answer ≡ some (err e, after) → Ends target answer
    reaches :
        (after : H.State)
        → answer ≡ some (ok tt, after)
        → version after ≤ target
        → Ends target answer

  Ends-err : (target : ℕ) (e : String) (s : H.State) → Ends target (some (err e, s))
  Ends-err target e s = fails e s refl

  pub version-prepare : (s : H.State) → version (prepare H s).1 ≡ version s
  unfolding prepare
  version-prepare s = ground (arith, G.version-set_dialect s)

  down_loop-Ends :
      (fuel : ℕ) (dir : FilePath) (target current : ℕ) (s : H.State)
      → current ≡ version s
      → current < fuel
      → Ends target (down_loop H fuel dir target current s)
  unfolding down_loop get_current_version
  down_loop-Ends zero dir target current s at enough = absurd (omega arith)
  down_loop-Ends (suc fuel) dir target current s at enough =
      elim (Bool-cases (ltb target current)) [
        | inr low ↦ reaches s (rw low) (ground arith)
        | inl high ↦ elim (Result-cases (H.down dir s).0) [
          | inr (e, failed) ↦
              rw (high, failed) (Ends-err target (failure target e) (H.down dir s).1)
          | inl (_, moved) ↦
              let s' = (H.down dir s).1 in
              elim (Result-cases (H.get_db_version s').0) [
                | inr (e, failed) ↦
                    rw (high, moved, failed) (Ends-err target e (H.get_db_version s').1)
                | inl (v, read) ↦
                    rw (high, moved, read)
                      (down_loop-Ends fuel dir target v (H.get_db_version s').1
                        (G.version-read s' v read ∙ sym (G.version-get_db_version s'))
                        (omega (arith, G.version-read s' v read, G.version-down dir s moved)))
              ]
        ]
      ]

  -- `DownTo` ends: with fuel above the version of the database it returns, and where it returns no
  -- error, the database is at the target version or below.
  pub down_to-Ends :
      (fuel target : ℕ) (s : H.State) → version s < fuel → Ends target (down_to H fuel target s)
  unfolding down_to get_current_version
  down_to-Ends fuel target s enough = elim (Result-cases (prepare H s).0) [
    | inr (e, failed) ↦ rw (failed, and_then) (Ends-err target e (prepare H s).1)
    | inl (dir, ready) ↦
        let t = (prepare H s).1 in
        elim (Result-cases (H.get_db_version t).0) [
          | inr (e, failed) ↦
              rw (ready, failed, and_then) (Ends-err target e (H.get_db_version t).1)
          | inl (v, read) ↦
              rw (ready, read, and_then)
                (down_loop-Ends fuel dir target v (H.get_db_version t).1
                  (G.version-read t v read ∙ sym (G.version-get_db_version t))
                  (omega (arith, G.version-read t v read, version-prepare s)))
        ]
  ]
