-- ===== src/Http.antt =====
-- What the handlers of the HTTP routes return, in src/wagering/wagering.controller.ts and
-- src/wallets/wallets.controller.ts. The framework makes a response of it.
use jungle_backend_challenge.Prelude.{ℕ, String}
use jungle_backend_challenge.Prelude.Results.{Result}
use jungle_backend_challenge.Domain.Errors.{Thrown}
use jungle_backend_challenge.Database.Tx.{World}

-- What a handler throws: `ServiceUnavailableException`, `NotFoundException` with their codes, or
-- what it lets pass.
pub data HttpError : Type 0 where
  service_unavailable not_found : String → HttpError
  passed : Thrown → HttpError

-- A status and a body.
pub record Answer (A : Type 0) : Type 0 where
  pub status : ℕ
  pub body : A

abbrev pub Handler : Type 0 → Type 0
Handler A = World → Result HttpError (Answer A) × World
