-- ===== src/Pipeline/NodeJsBuilder/Output.antt =====
-- What `processBuildOutput` of nodejs_builder.go makes of the output of a docker build.
use chef_infra.Base.{
  String, ◌<>◌, ◌==◌, List, [], ◌∷◌, ◌++◌, All, ◌≡◌, ◌≢◌, ◌⊎◌, refl, ap, inl, inr, Bool-cases,
  arith,
}
use chef_infra.Base.Result.{Result, ok, err}
use chef_infra.Pipeline.NodeJsBuilder.Outside.{Message}
use chef_infra.Pipeline.NodeJsBuilder.{process_build_output}

-- The decoder's answer is a message without an error.
abbrev pub IsFine : Result String Message → Type 0
IsFine (ok message) = message.error ≡ ""
IsFine (err e) = ⊥

-- The decoder's answer stops the build with an error.
abbrev pub Reports : Result String Message → String → Type 0
Reports (ok message) e = (message.error ≢ "") × (e ≡ "docker build error: " <> message.error)
Reports (err x) e = e ≡ x

-- The answers up to the first that reports the error.
pub record FirstError (output : List (Result String Message)) (e : String) : Type 0 where
  pub before : List (Result String Message)
  pub answer : Result String Message
  pub rest : List (Result String Message)
  pub split : output ≡ before ++ (answer ∷ rest)
  pub all_fine : All IsFine before
  pub reports : Reports answer e

FirstError-cons :
    (answer : Result String Message) (output : List (Result String Message)) (e : String)
    → IsFine answer
    → FirstError output e
    → FirstError (answer ∷ output) e
FirstError-cons answer output e fine first = record {
  before = answer ∷ first.before;
  answer = first.answer;
  rest = first.rest;
  split = ap (λ (o : List (Result String Message)). answer ∷ o) first.split;
  all_fine = (fine, first.all_fine);
  reports = first.reports;
}

-- A build's output is accepted where every answer of the decoder is a message without an error;
-- else the result is the first error, of the decoder or of docker.
pub process_build_output_lem :
    (output : List (Result String Message))
    → ((process_build_output output ≡ ok tt) × All IsFine output)
      ⊎ ((e : String) × (process_build_output output ≡ err e) × FirstError output e)
unfolding process_build_output
process_build_output_lem [] = inl (refl, tt)
process_build_output_lem (err x ∷ rest) = inr (
  x,
  refl,
  record { before = []; answer = err x; rest = rest; split = refl; all_fine = tt; reports = refl },
)
process_build_output_lem (ok message ∷ rest) = elim (Bool-cases (message.error == "")) [
  | inl fine ↦ elim (process_build_output_lem rest) [
    | inl (accepted, all) ↦ inl (rw fine accepted, (ground arith, all))
    | inr (e, refused, first) ↦
        inr (e, rw fine refused, FirstError-cons (ok message) rest e (ground arith) first)
  ]
  | inr bad ↦ inr (
    "docker build error: " <> message.error,
    rw bad,
    record {
      before = [];
      answer = ok message;
      rest = rest;
      split = refl;
      all_fine = tt;
      reports = (ground arith, refl);
    },
  )
]
