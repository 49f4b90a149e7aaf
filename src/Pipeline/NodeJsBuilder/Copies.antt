-- ===== src/Pipeline/NodeJsBuilder/Copies.antt =====
-- What one call of the callback of `copySourceFiles` of nodejs_builder.go copies.
use mathlib.Core.List.{append_cancel_left, List-discrete}
use chef_infra.Base.{
  String, ◌==◌, string_dec, Bool, true, false, ◌||◌, some, ◌++◌, ◌≡◌, ◌≢◌, ◌∙◌, sym, ap, inl, inr,
  arith,
}
use chef_infra.Base.Result.{Result, ok, err, Result-cases}
use chef_infra.Pipeline.Config.{FilePath, Under, NodeJsConfig}
use chef_infra.Pipeline.Interfaces.{Os, Options}
use chef_infra.Pipeline.NodeJsBuilder.Outside.{Docker, skip_dir, Visit, Files}
use chef_infra.Pipeline.NodeJsBuilder.Walk.{IsCopying}
use chef_infra.Pipeline.NodeJsBuilder.{to_stop, copy_file, visit_source}

abbrev pub is_skipped : String → Bool
is_skipped name = name == "node_modules" || name == ".git"

path_dec : Discrete FilePath
path_dec = List-discrete string_dec

module _ {W Bytes : Type 0} (os : Os W) (files : Files W Bytes) (docker : Docker W Bytes)
    (path_of : String → FilePath) (config : NodeJsConfig) (options : Options)
    (K : IsCopying os files) (source target : FilePath)
    (apart : (rest : FilePath) → ¬ (Under target (source ++ rest))) (origin : W) where
  -- The source is as it was at first.
  pub record Same (v : W) : Type 0 where
    pub unchanged :
        (rest : FilePath) → K.contents v (source ++ rest) ≡ K.contents origin (source ++ rest)

  -- The target has the file with the contents that the source had at first.
  pub record Copied (v : W) (rest : FilePath) : Type 0 where
    pub bytes : Bytes
    pub there : K.contents origin (source ++ rest) ≡ some bytes
    pub here_too : K.contents v (target ++ rest) ≡ some bytes

  -- The source is still as it was, and no copy is lost.
  pub record Grows (v after : W) : Type 0 where
    pub same : Same after
    pub keeps : (rest : FilePath) → Copied v rest → Copied after rest

  abbrev pub visit : Visit W
  visit = visit_source os files docker path_of config options source target

  abbrev pub copy : FilePath → FilePath → W → Result String (Unit {0}) × W
  copy = copy_file os files docker path_of config options

  pub Grows-self : (v : W) → Same v → Grows v v
  Grows-self v same = record { same = same; keeps = λ rest copied. copied }

  pub Grows-trans : (u v w : W) → Grows u v → Grows v w → Grows u w
  Grows-trans u v w first second = record {
    same = second.same;
    keeps = λ rest copied. second.keeps rest (first.keeps rest copied);
  }

  pub Grows-contents : (v after : W) → Same v → K.contents after ≡ K.contents v → Grows v after
  Grows-contents v after same equal = record {
    same = record { unchanged = λ rest. rw equal (same.unchanged rest) };
    keeps = λ rest copied. record {
      bytes = copied.bytes;
      there = copied.there;
      here_too = rw equal copied.here_too;
    };
  }

  -- A copy writes its destination alone.
  copy-others :
      (src dst other : FilePath) (v : W)
      → other ≢ dst
      → K.contents (copy src dst v).1 other ≡ K.contents v other
  unfolding copy_file
  copy-others src dst other v differ =
      let o = files.open_file src v in
      let c = files.create_file dst o.1 in
      let opened = ap (λ contents. contents other) (K.open_file-contents src v) in
      let created = K.create_file-contents dst other o.1 differ in
      elim (Result-cases o.0) [
        | inr (e, broke) ↦ ground (arith, opened)
        | inl (b, read) ↦ elim (Result-cases c.0) [
          | inr (e, broke) ↦ ground (arith, opened, created)
          | inl (_, made) ↦ ground (arith, opened, created, K.copy-contents dst other b c.1 differ)
        ]
      ]

  copy-destination :
      (src dst : FilePath) (v : W)
      → (copy src dst v).0 ≡ ok tt
      → (b : Bytes) × (K.contents v src ≡ some b) × (K.contents (copy src dst v).1 dst ≡ some b)
  unfolding copy_file
  copy-destination src dst v h =
      let o = files.open_file src v in
      let c = files.create_file dst o.1 in
      elim (Result-cases o.0) [
        | inr (e, broke) ↦ absurd (ground arith)
        | inl (b, read) ↦ elim (Result-cases c.0) [
          | inr (e, broke) ↦ absurd (ground arith)
          | inl (_, made) ↦ (b, K.opened src b v read, ground (arith, K.copied dst b c.1))
        ]
      ]

  -- A copy of a file of the source to its place in the target.
  pub copy-Grows :
      (at : FilePath) (v : W)
      → Same v
      → (copy (source ++ at) (target ++ at) v).0 ≡ ok tt
      → Grows v (copy (source ++ at) (target ++ at) v).1
        × Copied (copy (source ++ at) (target ++ at) v).1 at
  copy-Grows at v same fine =
      let (b, read, written) = copy-destination (source ++ at) (target ++ at) v fine in
      let first = sym (same.unchanged at) ∙ read in
      let done : Copied (copy (source ++ at) (target ++ at) v).1 at = record {
        bytes = b;
        there = first;
        here_too = written;
      } in
      (
        record {
          same = record {
            unchanged = λ rest.
                copy-others (source ++ at) (target ++ at) (source ++ rest) v
                  (λ e. apart rest (at, sym e))
                ∙ same.unchanged rest;
          };
          keeps = λ rest copied. elim (path_dec (target ++ rest) (target ++ at)) [
            | yes e ↦ rw (append_cancel_left target rest at e) done
            | no differ ↦ record {
              bytes = copied.bytes;
              there = copied.there;
              here_too =
                  copy-others (source ++ at) (target ++ at) (target ++ rest) v differ
                  ∙ copied.here_too;
            }
          ];
        },
        done,
      )

  pub visit-file :
      (name : String) (at : FilePath) (v : W)
      → visit (ok (record { name = name; is_dir = false })) (source ++ at) v
        ≡ to_stop (copy (source ++ at) (target ++ at)) v
  unfolding visit_source
  visit-file name at v = rw (K.rel_below source at)

  pub visit-skipped :
      (name : String) (at : FilePath) (v : W)
      → is_skipped name ≡ true
      → visit (ok (record { name = name; is_dir = true })) (source ++ at) v ≡ (err skip_dir, v)
  unfolding visit_source
  visit-skipped name at v skipped = rw skipped

  pub visit-dir :
      (name : String) (at : FilePath) (v : W)
      → is_skipped name ≡ false
      → visit (ok (record { name = name; is_dir = true })) (source ++ at) v
        ≡ to_stop (os.mkdir_all (target ++ at)) v
  unfolding visit_source
  visit-dir name at v kept = rw (kept, K.rel_below source at)
