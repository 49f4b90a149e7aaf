-- ===== src/Auth/Status.antt =====
-- The gRPC status codes and errors that the handlers return (`google.golang.org/grpc/status`).
use chef_infra.Base.{String}

pub data Code : Type 0 where
  invalid_argument already_exists not_found unauthenticated internal : Code

pub record Status : Type 0 where
  pub code : Code
  pub message : String

-- `status.Error(code, message)`
abbrev pub status : Code → String → Status
status code message = record { code = code; message = message }
