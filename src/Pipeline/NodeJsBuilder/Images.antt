-- ===== src/Pipeline/NodeJsBuilder/Images.antt =====
-- Under which tag nodejs_builder.go finds the image that it built.
use text.Mathlib.TextPositions.{len-append, starts_with-append}
use chef_infra.Base.{String, ◌<>◌, ◌==◌, len, ◌<◌, ◌≡◌, inl, inr, Bool-cases, arith}
use chef_infra.Pipeline.Types.{Build}
use chef_infra.Pipeline.NodeJsBuilder.{image_tag, get_image_tag}

get_image_tag_prefixed :
    (rest : String) → 0 < len rest → get_image_tag ("chef-" <> rest) ≡ "chef-" <> rest
unfolding get_image_tag
get_image_tag_prefixed rest given =
    ground (arith, len-append "chef-" rest, starts_with-append "chef-" rest)

-- `getImageTag` keeps every tag that `Build` gives to an image.
pub get_image_tag-image_tag : (build : Build) → get_image_tag (image_tag build) ≡ image_tag build
unfolding image_tag
get_image_tag-image_tag build =
    let long = λ (p v : String).
      let e = len-append p (":" <> v) in
      let f = len-append ":" v in get_image_tag_prefixed (p <> (":" <> v)) (omega (arith, e, f)) in
    elim (Bool-cases (build.commit_hash == "")) [
      | inl empty ↦ rw empty (long build.project_id build.id)
      | inr given ↦ rw given (long build.project_id build.commit_hash)
    ]
