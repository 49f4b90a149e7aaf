-- ===== src/Pipeline/NodeJsBuilder/Sources.antt =====
-- Which files `copySourceFiles` of nodejs_builder.go copies.
use mathlib.Core.Path.{subst}
use mathlib.Core.List.{append-nil, append_assoc}
use chef_infra.Base.{
  String, true, false, some, [], ◌∷◌, ◌++◌, ◌≡◌, ◌∙◌, refl, sym, ap, inl, inr, Bool-cases,
}
use chef_infra.Base.Result.{Result, ok, Result-cases}
use chef_infra.Pipeline.Config.{FilePath, Under, NodeJsConfig}
use chef_infra.Pipeline.Interfaces.{Os, Options}
use chef_infra.Pipeline.NodeJsBuilder.Outside.{Docker, Stop, Visit, Files}
use chef_infra.Pipeline.NodeJsBuilder.Walk.{
  Forest, no_entries, file, dir, walk_forest, IsWalking, IsCopying,
}
use chef_infra.Pipeline.NodeJsBuilder.Copies.{
  is_skipped, Grows-self, Grows-contents, copy-Grows, visit-dir,
}
use chef_infra.Pipeline.NodeJsBuilder.Trees.{visit_source-tree}
use chef_infra.Pipeline.NodeJsBuilder.{to_stop, copy_source_files}
use chef_infra.Pipeline.NodeJsBuilder.Entries
use chef_infra.Pipeline.NodeJsBuilder.Entries.{
  caught-cases, caught-ok, stop-ok, grow, walk-file, walk-file_err, walk-skipped, walk-dir_err,
  walk-dir, walk-ne_skip_dir, inner, made,
}

-- The path names a file that lies in no directory that is skipped.
pub data Kept : Forest → FilePath → Type 0 where
  here : {name : String} {rest : Forest} → Kept (file name rest) (name ∷ [])
  after_file :
      {name : String} {rest : Forest} {p : FilePath} → Kept rest p → Kept (file name rest) p
  inside :
      {name : String} {children rest : Forest} {p : FilePath}
      → is_skipped name ≡ false
      → Kept children p
      → Kept (dir name children rest) (name ∷ p)
  after_dir :
      {name : String} {children rest : Forest} {p : FilePath}
      → Kept rest p
      → Kept (dir name children rest) p

Kept-nowhere : (p : FilePath) → ¬ (Kept no_entries p)
Kept-nowhere p k = elim k [ ]

module _ {W Bytes : Type 0} (os : Os W) (files : Files W Bytes) (docker : Docker W Bytes)
    (path_of : String → FilePath) (config : NodeJsConfig) (options : Options)
    (K : IsCopying os files) (source target : FilePath)
    (apart : (rest : FilePath) → ¬ (Under target (source ++ rest))) (origin : W) where
  abbrev copy_at : FilePath → W → Result String (Unit {0}) × W
  copy_at = Entries.copy_at os files docker path_of config options K source target apart origin

  abbrev Grown : W → W → Type 0
  Grown = Entries.Grown os files docker path_of config options K source target apart origin

  abbrev Unchanged : W → Type 0
  Unchanged = Entries.Unchanged os files docker path_of config options K source target apart origin

  abbrev pub HasCopy : W → FilePath → Type 0
  HasCopy = Entries.HasCopy os files docker path_of config options K source target apart origin

  abbrev walk : FilePath → Forest → W → Result Stop (Unit {0}) × W
  walk = Entries.walk os files docker path_of config options K source target apart origin

  abbrev call : Visit W
  call = Entries.call os files docker path_of config options K source target apart origin

  -- The entries below a place of the source, walked from one world to another.
  record Walked (at : FilePath) (entries : Forest) (v after : W) : Type 0 where
    pub grows : Grown v after
    pub all : (rest : FilePath) → Kept entries rest → HasCopy after (at ++ rest)

  Kept-in_file :
      (name : String) (at : FilePath) (rest : Forest) (after : W)
      → HasCopy after (at ++ (name ∷ []))
      → ((p : FilePath) → Kept rest p → HasCopy after (at ++ p))
      → (p : FilePath) → Kept (file name rest) p
      → HasCopy after (at ++ p)
  Kept-in_file name at rest after done others p here = done
  Kept-in_file name at rest after done others p (after_file k) = others p k

  Kept-in_dir :
      (name : String) (at : FilePath) (children rest : Forest) (after : W)
      → ((p : FilePath)
          → is_skipped name ≡ false
          → Kept children p
          → HasCopy after ((at ++ (name ∷ [])) ++ p))
      → ((p : FilePath) → Kept rest p → HasCopy after (at ++ p))
      → (p : FilePath) → Kept (dir name children rest) p
      → HasCopy after (at ++ p)
  Kept-in_dir name at children rest after below others p (inside {p = q} kept k) =
      subst (HasCopy after) (append_assoc at (name ∷ []) q) (below q kept k)
  Kept-in_dir name at children rest after below others p (after_dir k) = others p k

  walk-Walked :
      (entries : Forest) (at : FilePath) (v : W)
      → Unchanged v
      → (walk at entries v).0 ≡ ok tt
      → Walked at entries v (walk at entries v).1
  unfolding walk_forest
  walk-Walked no_entries at v same h = record {
    grows = Grows-self os files docker path_of config options K source target apart origin v same;
    all = λ p k. absurd (Kept-nowhere p k);
  }
  walk-Walked (file name rest) at v same h =
      let c = copy_at (at ++ (name ∷ [])) v in
      elim (Result-cases c.0) [
        | inr (e, broke) ↦ absurd (
            cc (
              walk-file_err os files docker path_of config options K source target apart origin name
                  at rest v e broke,
              h,
            ))
        | inl (_, fine) ↦
            let e =
              walk-file os files docker path_of config options K source target apart origin name at
                rest v fine in
            let (grows, done) =
              copy-Grows os files docker path_of config options K source target apart origin
                (at ++ (name ∷ [])) v same fine in
            let later = walk-Walked rest at c.1 grows.same (ap (λ answer. answer.0) (sym e) ∙ h) in
            subst (λ answer. Walked at (file name rest) v answer.1) (sym e)
              (record {
                grows =
                    grow os files docker path_of config options K source target apart origin v c.1
                      (walk at rest c.1).1 grows later.grows;
                all =
                    Kept-in_file name at rest (walk at rest c.1).1
                      (later.grows.keeps (at ++ (name ∷ [])) done) later.all;
              })
      ]
  walk-Walked (dir name children rest) at v same h = elim (Bool-cases (is_skipped name)) [
    | inl skipped ↦
        let e =
          walk-skipped os files docker path_of config options K source target apart origin name at
            rest v children skipped in
        let later = walk-Walked rest at v same (ap (λ answer. answer.0) (sym e) ∙ h) in
        subst (λ answer. Walked at (dir name children rest) v answer.1) (sym e)
          (record {
            grows = later.grows;
            all =
                Kept-in_dir name at children rest (walk at rest v).1
                  (λ p kept k. absurd (cc (kept, skipped))) later.all;
          })
    | inr kept ↦
        let w =
          made os files docker path_of config options K source target apart origin name at rest v in
        elim (Result-cases (os.mkdir_all (target ++ (at ++ (name ∷ []))) v).0) [
          | inr (e, broke) ↦ absurd (
              cc (
                walk-dir_err os files docker path_of config options K source target apart origin
                    name at rest v children kept e broke,
                h,
              ))
          | inl (_, fine) ↦
              let i =
                inner os files docker path_of config options K source target apart origin name at
                  rest v children in
              let e =
                walk-dir os files docker path_of config options K source target apart origin name at
                  rest v children kept fine in
              let h' = ap (λ answer. answer.0) (sym e) ∙ h in
              let first =
                Grows-contents os files docker path_of config options K source target apart origin v
                  w same (K.mkdir_all-contents (target ++ (at ++ (name ∷ []))) v) in
              elim (caught-cases i.0) [
                | inr (x, broke) ↦ absurd (cc (rw broke at h'))
                | inl through ↦
                    let below = walk-Walked children (at ++ (name ∷ [])) w first.same (
                      caught-ok i.0
                        (walk-ne_skip_dir os files docker path_of config options K source target
                          apart origin children (at ++ (name ∷ [])) w)
                        through) in
                    let later = walk-Walked rest at i.1 below.grows.same (rw through at h') in
                    let after = (walk at rest i.1).1 in
                    let e' : walk at (dir name children rest) v ≡ walk at rest i.1 =
                      e ∙ rw through in
                    subst (λ answer. Walked at (dir name children rest) v answer.1) (sym e')
                      (record {
                        grows =
                            grow os files docker path_of config options K source target apart origin
                              v w after first
                              (grow os files docker path_of config options K source target apart
                                origin w i.1 after below.grows later.grows);
                        all =
                            Kept-in_dir name at children rest after
                              (λ p kept k.
                                later.grows.keeps ((at ++ (name ∷ [])) ++ p) (below.all p k))
                              later.all;
                      })
              ]
        ]
  ]

  root_dir :
      (name : String)
      → is_skipped name ≡ false
      → call (ok (record { name = name; is_dir = true })) source origin
        ≡ to_stop (os.mkdir_all (target ++ [])) origin
  root_dir name kept =
      subst
        (λ p.
          call (ok (record { name = name; is_dir = true })) p origin
          ≡ to_stop (os.mkdir_all (target ++ [])) origin)
        (append-nil source)
        (visit-dir os files docker path_of config options K source target apart origin name []
          origin kept)

  -- Where files and walks keep their documented behaviour, the source and the target lie outside
  -- each other and the entries of the source can be read, a copy of the sources that succeeds has
  -- every file that the source has at first, and that lies in no node_modules and no .git directory,
  -- in its place in the target, with the contents that it had at first.
  pub copy_source_files-HasCopy :
      (T : IsWalking os files)
      → ((rest : FilePath) → ¬ (Under source (target ++ rest)))
      → (name : String) (entries : Forest) → T.tree origin source ≡ some (name, entries)
      → is_skipped name ≡ false
      → (copy_source_files os files docker path_of config options source target origin).0 ≡ ok tt
      → (rest : FilePath) → Kept entries rest
      → HasCopy
          (copy_source_files os files docker path_of config options source target origin).1
          rest
  unfolding copy_source_files
  copy_source_files-HasCopy T outside name entries there kept h rest k =
      let walks =
        T.walks source name entries call origin there
          (visit_source-tree os files docker path_of config options T source target outside) in
      let m = os.mkdir_all (target ++ []) origin in
      let root = root_dir name kept in
      let same_root : walk [] entries m.1 ≡ walk_forest call source entries m.1 =
        ap (λ p. walk_forest call p entries m.1) (append-nil source) in
      let first =
        Grows-contents os files docker path_of config options K source target apart origin origin
          m.1 (record { unchanged = λ r. refl }) (K.mkdir_all-contents (target ++ []) origin) in
      elim (Result-cases m.0) [
        | inr (e, broke) ↦ absurd (cc (rw (walks, root, broke) at h))
        | inl (_, fine) ↦
            let h' = rw (walks, root, fine, sym same_root) at h in
            let full =
              stop-ok (walk [] entries m.1).0
                (walk-ne_skip_dir os files docker path_of config options K source target apart
                  origin entries [] m.1)
                h' in
            let walked = walk-Walked entries [] m.1 first.same full in
            rw (walks, root, fine, sym same_root) (walked.all rest k)
      ]
