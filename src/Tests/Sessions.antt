-- ===== src/Tests/Sessions.antt =====
-- A session with the server of internal/server/server.go: alice registers, logs in and calls an
-- endpoint with the token of her login.
use chef_infra.Base.{true, some, none, [], ◌∷◌}
use chef_infra.Base.Result.{ok}
use chef_infra.Base.Exec.{Exec}
use chef_infra.Auth.MemoryRepository.{memory_repository as repository}
use chef_infra.Auth.Service.{State, TokenPair}
use chef_infra.Auth.Status.{Status}
use chef_infra.Auth.Handler.{LoginResponse}
use chef_infra.Auth.Middleware.{Context}
use chef_infra.Tests.Auth.Samples.{libraries}

abbrev no_token : Context
no_token = record { metadata = none; values = [] }

abbrev with_access : Context
with_access = record { metadata = some (("authorization", "A" ∷ []) ∷ []); values = [] }

abbrev answer : LoginResponse
answer = record {
  success = true;
  message = "Login successful";
  access_token = "A";
  refresh_token = "R";
}

abbrev pair : TokenPair
pair = record { access_token = "A"; refresh_token = "R" }

abbrev nothing : Context → Exec Status (State libraries repository) (Unit {0})
nothing ctx s = (ok tt, s)
