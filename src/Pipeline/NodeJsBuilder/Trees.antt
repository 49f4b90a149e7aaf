-- ===== src/Pipeline/NodeJsBuilder/Trees.antt =====
-- That the callback of `copySourceFiles` of nodejs_builder.go leaves the tree of the sources alone,
-- while `filepath.Walk` goes through it.
use chef_infra.Base.{String, ◌++◌, ◌&&◌, ◌||◌, ◌==◌, ◌≡◌, inl, inr, Bool-cases, arith}
use chef_infra.Base.Result.{Result, ok, err, Result-cases}
use chef_infra.Pipeline.Config.{FilePath, Under, NodeJsConfig}
use chef_infra.Pipeline.Interfaces.{Os, Options}
use chef_infra.Pipeline.NodeJsBuilder.Outside.{Docker, WalkInfo, Files}
use chef_infra.Pipeline.NodeJsBuilder.Walk.{IsWalking}
use chef_infra.Pipeline.NodeJsBuilder.{copy_file, visit_source}

module _ {W Bytes : Type 0} (os : Os W) (files : Files W Bytes) (docker : Docker W Bytes)
    (path_of : String → FilePath) (config : NodeJsConfig) (options : Options)
    (T : IsWalking os files) (source : FilePath) where
  copy_file-tree :
      (src dst : FilePath) (v : W)
      → ¬ (Under source dst)
      → T.tree (copy_file os files docker path_of config options src dst v).1 source
        ≡ T.tree v source
  unfolding copy_file
  copy_file-tree src dst v outside =
      let o = files.open_file src v in
      let c = files.create_file dst o.1 in
      let opened = T.open_file-tree src source v in
      let created = T.create_file-tree dst source o.1 outside in
      elim (Result-cases o.0) [
        | inr (e, broke) ↦ ground (arith, opened)
        | inl (b, read) ↦ elim (Result-cases c.0) [
          | inr (e, broke) ↦ ground (arith, opened, created)
          | inl (_, made) ↦ ground (arith, opened, created, T.copy-tree dst source b c.1 outside)
        ]
      ]

  pub visit_source-tree :
      (target : FilePath)
      → ((rest : FilePath) → ¬ (Under source (target ++ rest)))
      → (answer : Result String WalkInfo) (path : FilePath) (v : W)
      → T.tree
          (visit_source os files docker path_of config options source target answer path v).1
          source
        ≡ T.tree v source
  unfolding visit_source
  visit_source-tree target outside (err e) path v = ground arith
  visit_source-tree target outside (ok info) path v =
      elim (Bool-cases (info.is_dir && (info.name == "node_modules" || info.name == ".git"))) [
        | inl skipped ↦ ground (arith, skipped)
        | inr kept ↦ elim (Result-cases (files.rel source path)) [
          | inr (e, broke) ↦ ground (arith, kept, broke)
          | inl (rest, related) ↦ ground (
            arith,
            kept,
            related,
            T.mkdir_all-tree (target ++ rest) source v (outside rest),
            copy_file-tree path (target ++ rest) v (outside rest),
          )
        ]
      ]
