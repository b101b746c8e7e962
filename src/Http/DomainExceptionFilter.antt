-- ===== src/Http/DomainExceptionFilter.antt =====
-- src/shared/http/domain-exception.filter.ts: the answer to a request that a domain error ended. The
-- message and the log are left out.
use distributed_wagering_pro.Prelude.{
  List, Text, Option, ℕ, codes, none, some, ◌∷◌, [], if◌then◌else◌, text_eq,
}
use distributed_wagering_pro.Kernel.Errors.{code, DomainError}

-- `STATUS_BY_CODE`
abbrev pub status_by_code : List (Text × ℕ)
status_by_code =
    (codes "INVALID_MONEY_AMOUNT", 400)
    ∷ (codes "NEGATIVE_MONEY_AMOUNT", 400)
    ∷ (codes "INVALID_CURRENCY", 400)
    ∷ (codes "CURRENCY_MISMATCH", 400)
    ∷ (codes "VALIDATION_MISSING_REFERENCE", 400)
    ∷ (codes "VALIDATION_WALLET_PLAYER_MISMATCH", 400)
    ∷ (codes "VALIDATION_INVALID_CURSOR", 400)
    ∷ (codes "WALLET_NOT_FOUND", 404)
    ∷ (codes "WALLET_ALREADY_EXISTS", 409)
    ∷ (codes "IDEMPOTENCY_CONFLICT", 409)
    ∷ (codes "INFRASTRUCTURE_TRANSIENT", 503)
    ∷ []

-- `STATUS_BY_CODE[code]`
unfoldable pub lookup_status : Text → List (Text × ℕ) → Option ℕ
lookup_status code [] = none
lookup_status code ((c, status) ∷ table) =
    if text_eq c code then some status else lookup_status code table

-- `?? HttpStatus.INTERNAL_SERVER_ERROR`
abbrev or_internal_error : Option ℕ → ℕ
or_internal_error none = 500
or_internal_error (some status) = status

pub record ErrorResponse : Type 0 where
  pub status : ℕ
  pub failure_code : Text

unfoldable pub status_of : DomainError → ℕ
unfolding lookup_status code
status_of e = or_internal_error (lookup_status (code e) status_by_code)

-- `DomainExceptionFilter.catch`
unfoldable pub answer : DomainError → ErrorResponse
unfolding status_of code
answer e = record { status = status_of e; failure_code = code e }
