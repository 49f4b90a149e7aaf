-- ===== src/Tests/Auth/Samples.antt =====
-- Libraries that can issue four tokens, with a clock that stands still between two calls, and an
-- in-memory repository. They keep the behaviour that the theorems ask for.
use chef_infra.Base.{
  ℕ, ◌<◌, ◌≤◌, String, ◌<>◌, ◌==◌, string_dec, ltb, Bool, true, false, ◌≡◌, arith, if◌then◌else◌,
}
use mathlib.Core.Logic.{ite}
use text.Mathlib.TextEquality.{eq_iff}
use native.Mathlib.Decide.{ℕ_discrete}
use chef_infra.Base.Result.{Result, ok, err}
use chef_infra.Config.{AuthConfig}
use chef_infra.Auth.Types.{Claims, Error, other}
use chef_infra.Auth.Libraries.{Libraries, IsSound}
use chef_infra.Auth.Service.Expiry.{RefusesExpired}
use chef_infra.Auth.Service.{State}
use chef_infra.Auth.MemoryRepository.{memory_repository, new_users}
use chef_infra.Auth.Handler.Requests.{RegisterRequest}

abbrev pub config : AuthConfig
config = record {
  jwt_secret = "key";
  access_token_duration = 10;
  refresh_token_duration = 20;
  refresh_token_enabled = true;
}

-- The claims for "alice" at time 0.
abbrev claims : ℕ → String → Claims
claims expires subject = record {
  username = "alice";
  expires_at = expires;
  issued_at = 0;
  subject = subject;
}

same_claims : Discrete Claims
same_claims = hlevel (string_dec, ℕ_discrete)

unfoldable pub sign : Claims → String → Result Error String
unfolding same_claims
sign c secret =
    if secret == "key"
    then ite (same_claims c (claims 10 "access")) (ok "A")
        (ite (same_claims c (claims 20 "refresh")) (ok "R") (err (other "cannot sign")))
    else err (other "cannot sign")

abbrev unless_expired : ℕ → Claims → Result Error (Claims × Bool)
unless_expired w c = if ltb w c.expires_at then ok (c, true) else err (other "token is expired")

unfoldable pub parse : String → String → ℕ → Result Error (Claims × Bool)
parse token secret w =
    if secret == "key"
    then if token == "A"
      then unless_expired w (claims 10 "access")
      else if token == "R"
      then unless_expired w (claims 20 "refresh")
      else err (other "token is malformed")
    else err (other "signature is invalid")

unfoldable pub compare_hash : String → String → Result Error (Unit {0})
compare_hash hash password = if hash == "#" <> password then ok tt else err (other "mismatch")

abbrev pub libraries : Libraries
libraries = record {
  World = ℕ;
  clock = λ w. w;
  tick = λ w. w;
  default_cost = 10;
  generate_from_password = λ password cost w. (ok ("#" <> password), w);
  compare_hash_and_password = compare_hash;
  new_numeric_date = λ t. t;
  signed_string = sign;
  parse_with_claims = λ token secret w. (parse token secret w, w);
}

compare_hash_made :
    (password hash : String)
    → ◌≡◌ {A = Result Error String} (ok ("#" <> password)) (ok hash)
    → compare_hash hash password ≡ ok tt
unfolding compare_hash
compare_hash_made password hash made = ground arith

parse-sign_sample :
    (c : Claims) (secret token : String) (w : ℕ)
    → sign c secret ≡ ok token
    → w < c.expires_at
    → parse token secret w ≡ ok (c, true)
unfolding sign parse
parse-sign_sample c secret token w signed early = ground (arith, eq_iff "A" "R")

pub libraries-IsSound : IsSound libraries
libraries-IsSound = record {
  compare-generate = λ password cost w hash made. compare_hash_made password hash made;
  parse-signed_string = parse-sign_sample;
}

abbrev pub at : ℕ → State libraries memory_repository
at w = record { world = w; store = new_users }

abbrev pub alice : RegisterRequest
alice = record { username = "alice"; password = "correct horse"; email = "a@b.c" }

-- An address is valid if it is not empty.
abbrev pub valid : String → Bool
valid email = if email == "" then false else true

parse-sign_late :
    (c : Claims) (secret token : String) (w : ℕ)
    → sign c secret ≡ ok token
    → c.expires_at ≤ w
    → parse token secret w ≡ err (other "token is expired")
unfolding sign parse
parse-sign_late c secret token w signed late = ground (arith, eq_iff "A" "R")

pub libraries-RefusesExpired : RefusesExpired libraries
libraries-RefusesExpired = record {
  parse-expired = λ c secret token w signed late.
      (other "token is expired", parse-sign_late c secret token w signed late);
}
