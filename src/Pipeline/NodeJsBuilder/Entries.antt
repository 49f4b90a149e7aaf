-- ===== src/Pipeline/NodeJsBuilder/Entries.antt =====
-- How one entry of a directory is walked by `copySourceFiles` of nodejs_builder.go.
use mathlib.Core.List.{append_assoc}
use chef_infra.Base.{
  String, true, false, [], ◌∷◌, ◌++◌, ◌≡◌, ◌≢◌, ◌∙◌, ◌⊎◌, refl, sym, ap, inl, inr, Bool-cases,
}
use chef_infra.Base.Result.{Result, ok, err, Result-cases}
use chef_infra.Base.Exec.{◌>>◌}
use chef_infra.Pipeline.Config.{FilePath, Under, NodeJsConfig}
use chef_infra.Pipeline.Interfaces.{Os, Options}
use chef_infra.Pipeline.NodeJsBuilder.Outside.{Docker, Stop, skip_dir, failed, Visit, Files}
use chef_infra.Pipeline.NodeJsBuilder.Walk.{
  Forest, no_entries, file, dir, caught, in_dir, stop_text, walk_forest, IsCopying,
}
use chef_infra.Pipeline.NodeJsBuilder.Copies.{
  is_skipped, Same, Copied, Grows, visit, copy, Grows-trans, visit-file, visit-skipped, visit-dir,
}

pub caught-cases :
    (r : Result Stop (Unit {0})) → (caught r ≡ ok tt) ⊎ ((e : String) × (caught r ≡ err (failed e)))
caught-cases (ok _) = inl refl
caught-cases (err skip_dir) = inl refl
caught-cases (err (failed e)) = inr (e, refl)

pub caught-ok : (r : Result Stop (Unit {0})) → r ≢ err skip_dir → caught r ≡ ok tt → r ≡ ok tt
caught-ok (ok _) other h = refl
caught-ok (err skip_dir) other h = absurd (other refl)
caught-ok (err (failed e)) other h = absurd (cc h)

pub stop-ok : (r : Result Stop (Unit {0})) → r ≢ err skip_dir → stop_text r ≡ ok tt → r ≡ ok tt
stop-ok (ok _) other h = refl
stop-ok (err skip_dir) other h = absurd (other refl)
stop-ok (err (failed e)) other h = absurd (cc h)

module _ {W Bytes : Type 0} (os : Os W) (files : Files W Bytes) (docker : Docker W Bytes)
    (path_of : String → FilePath) (config : NodeJsConfig) (options : Options)
    (K : IsCopying os files) (source target : FilePath)
    (apart : (rest : FilePath) → ¬ (Under target (source ++ rest))) (origin : W) where
  abbrev pub call : Visit W
  call = visit os files docker path_of config options K source target apart origin

  abbrev pub copy_at : FilePath → W → Result String (Unit {0}) × W
  copy_at at =
      copy os files docker path_of config options K source target apart origin (source ++ at)
        (target ++ at)

  abbrev pub Unchanged : W → Type 0
  Unchanged = Same os files docker path_of config options K source target apart origin

  abbrev pub Grown : W → W → Type 0
  Grown = Grows os files docker path_of config options K source target apart origin

  abbrev pub HasCopy : W → FilePath → Type 0
  HasCopy = Copied os files docker path_of config options K source target apart origin

  pub grow : (u v w : W) → Grown u v → Grown v w → Grown u w
  grow = Grows-trans os files docker path_of config options K source target apart origin

  abbrev pub walk : FilePath → Forest → W → Result Stop (Unit {0}) × W
  walk at entries = walk_forest call (source ++ at) entries

  module _ (name : String) (at : FilePath) (rest : Forest) (v : W) where
    abbrev pub place : FilePath
    place = at ++ (name ∷ [])

    -- The world once the directory is made.
    abbrev pub made : W
    made = (os.mkdir_all (target ++ place) v).1

    same_place : (source ++ at) ++ (name ∷ []) ≡ source ++ place
    same_place = append_assoc source at (name ∷ [])

    pub walk-file :
        (copy_at place v).0 ≡ ok tt → walk at (file name rest) v ≡ walk at rest (copy_at place v).1
    unfolding walk_forest
    walk-file fine = rw (
      same_place,
      visit-file os files docker path_of config options K source target apart origin name place v,
      fine,
    )

    pub walk-file_err :
        (e : String) → (copy_at place v).0 ≡ err e → (walk at (file name rest) v).0 ≡ err (failed e)
    unfolding walk_forest
    walk-file_err e broke = rw (
      same_place,
      visit-file os files docker path_of config options K source target apart origin name place v,
      broke,
    )

    module _ (children : Forest) where
      abbrev pub inner : Result Stop (Unit {0}) × W
      inner = walk place children made

      pub walk-skipped :
          is_skipped name ≡ true → walk at (dir name children rest) v ≡ walk at rest v
      unfolding walk_forest
      walk-skipped skipped = rw (
        same_place,
        visit-skipped os files docker path_of config options K source target apart origin name place
            v skipped,
      )

      module _ (kept : is_skipped name ≡ false) where
        pub walk-dir_err :
            (e : String)
            → (os.mkdir_all (target ++ place) v).0 ≡ err e
            → (walk at (dir name children rest) v).0 ≡ err (failed e)
        unfolding walk_forest
        walk-dir_err e broke = rw (
          same_place,
          visit-dir os files docker path_of config options K source target apart origin name place v
              kept,
          broke,
        )

        pub walk-dir :
            (os.mkdir_all (target ++ place) v).0 ≡ ok tt
            → walk at (dir name children rest) v
              ≡ (in_dir (walk place children) >> walk at rest) made
        unfolding walk_forest
        walk-dir fine = rw (
          same_place,
          visit-dir os files docker path_of config options K source target apart origin name place v
              kept,
          fine,
        )

  -- `SkipDir` never leaves the directory that it is for.
  pub walk-ne_skip_dir :
      (entries : Forest) (at : FilePath) (v : W) → (walk at entries v).0 ≢ err skip_dir
  unfolding walk_forest
  walk-ne_skip_dir no_entries at v h = cc h
  walk-ne_skip_dir (file name rest) at v h =
      let c = copy_at (at ++ (name ∷ [])) v in
      elim (Result-cases c.0) [
        | inr (e, broke) ↦ cc (walk-file_err name at rest v e broke, h)
        | inl (_, fine) ↦
            walk-ne_skip_dir rest at c.1
              (ap (λ answer. answer.0) (sym (walk-file name at rest v fine)) ∙ h)
      ]
  walk-ne_skip_dir (dir name children rest) at v h = elim (Bool-cases (is_skipped name)) [
    | inl skipped ↦
        walk-ne_skip_dir rest at v
          (ap (λ answer. answer.0) (sym (walk-skipped name at rest v children skipped)) ∙ h)
    | inr kept ↦ elim (Result-cases (os.mkdir_all (target ++ (at ++ (name ∷ []))) v).0) [
      | inr (e, broke) ↦ cc (walk-dir_err name at rest v children kept e broke, h)
      | inl (_, fine) ↦
          let i = inner name at rest v children in
          let h' = ap (λ answer. answer.0) (sym (walk-dir name at rest v children kept fine)) ∙ h in
          elim (caught-cases i.0) [
            | inl through ↦ walk-ne_skip_dir rest at i.1 (rw through at h')
            | inr (e, broke) ↦ cc (rw broke at h')
          ]
    ]
  ]
