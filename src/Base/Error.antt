-- ===== src/Base/Error.antt =====
-- utils/errors.ts: the errors that a handler throws. The texts for humans are left out.
use Prim.Native.Nat.{ℕ}
use Prim.Native.String.{String}

-- The subclasses of AppError that the services throw, each with its code.
pub data AppError : Type 0 where
  bad_request unauthorized forbidden not_found conflict service_unavailable : String → AppError
  validation_error internal_error : AppError

unfoldable pub status_code : AppError → ℕ
status_code (bad_request code) = 400
status_code (unauthorized code) = 401
status_code (forbidden code) = 403
status_code (not_found code) = 404
status_code (conflict code) = 409
status_code (service_unavailable code) = 503
status_code validation_error = 422
status_code internal_error = 500

-- What a handler may throw: an AppError, Prisma's P2002 (a unique constraint) or P2025 (no record).
pub data Failure : Type 0 where
  app : AppError → Failure
  unique_violation record_not_found : Failure
  -- A loop that has not ended within the fuel of the model.
  out_of_fuel : Failure
