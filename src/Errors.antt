-- ===== src/Errors.antt =====
-- lib/errors.ts: the errors that a route turns into a response, with their status and code.
use proxora.Common.{ℕ, String}

pub data AppError : Type 0 where
  unauthorized : AppError
  forbidden : String → AppError
  not_found : String → AppError
  validation : String → AppError
  conflict : String → AppError

unfoldable pub status : AppError → ℕ
status unauthorized = 401
status (forbidden message) = 403
status (not_found message) = 404
status (validation message) = 400
status (conflict message) = 409

-- A function that may throw.
pub data Result {ℓ} (A : Type ℓ) : Type ℓ where
  ok : A → Result A
  err : AppError → Result A

-- A step that runs if no error was thrown before it.
infixl 5 ◌>>=◌
abbrev pub ◌>>=◌ {ℓ κ} : {A : Type ℓ} {B : Type κ} → Result A → (A → Result B) → Result B
r >>= next = elim r [ ok value ↦ next value | err thrown ↦ err thrown ]
