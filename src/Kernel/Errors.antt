-- ===== src/Kernel/Errors.antt =====
-- src/shared/kernel/errors.ts: the errors as values. A constructor carries the arguments of the
-- class's constructor; the wording of the messages is left out.
use distributed_wagering_pro.Prelude.{Text, Bool, codes, if◌then◌else◌, ◌≡◌, ap}

-- The subclasses of `DomainError`.
pub data DomainError : Type 0 where
  invalid_money_amount negative_money_amount invalid_currency : Text → DomainError
  currency_mismatch : Text → Text → DomainError
  insufficient_balance : Text → Text → Text → DomainError
  unbalanced_ledger_entry : DomainError
  missing_reference : Text → DomainError
  invalid_transaction_state : Text → Text → DomainError
  invariant_violation : DomainError
  invalid_cursor : Text → DomainError
  duplicate_wallet : Text → Text → DomainError
  wallet_not_found : Text → DomainError
  wallet_player_mismatch : Text → Text → DomainError
  idempotency_conflict : Text → DomainError
  transient_processing : DomainError

-- What a call can throw: a domain error, or an error of the database layer
-- (`UniqueConstraintViolationException`, the failure of `findOneOrFail`, any other one), a
-- malformed queue message, or a JavaScript error (`SyntaxError`, `TypeError`).
pub data Error : Type 0 where
  domain : DomainError → Error
  unique_constraint_violation : Error
  entity_not_found : Error
  infrastructure : Error
  invalid_message : Error
  javascript_error : Error

-- What an `async` or a plain function comes to: it throws, or returns a value.
pub data Result {ℓ} (Value : Type ℓ) : Type ℓ where
  err : Error → Result Value
  ok : Value → Result Value

abbrev pub throw {ℓ} : {A : Type ℓ} → DomainError → Result A
throw e = err (domain e)

module _ {ℓ κ} {Value : Type ℓ} {Next : Type κ} where
  infixl 5 ◌>>=◌
  -- The rest of a body, which a throw skips.
  abbrev pub ◌>>=◌ : Result Value → (Value → Result Next) → Result Next
  err thrown >>= rest = err thrown
  ok value >>= rest = rest value

module _ {κ} {Next : Type κ} where
  infixl 5 ◌>>◌
  abbrev pub ◌>>◌ : Result (Unit {0}) → Result Next → Result Next
  statement >> rest = statement >>= λ _. rest

-- `if (!test) throw e`
abbrev pub ensure : Bool → DomainError → Result (Unit {0})
ensure b e = if b then ok tt else throw e

-- The `code` field of each class.
unfoldable pub code : DomainError → Text
code (invalid_money_amount _) = codes "INVALID_MONEY_AMOUNT"
code (negative_money_amount _) = codes "NEGATIVE_MONEY_AMOUNT"
code (invalid_currency _) = codes "INVALID_CURRENCY"
code (currency_mismatch _ _) = codes "CURRENCY_MISMATCH"
code (insufficient_balance _ _ _) = codes "INSUFFICIENT_BALANCE"
code unbalanced_ledger_entry = codes "UNBALANCED_LEDGER_ENTRY"
code (missing_reference _) = codes "VALIDATION_MISSING_REFERENCE"
code (invalid_transaction_state _ _) = codes "INVALID_TRANSACTION_STATE"
code invariant_violation = codes "INVARIANT_VIOLATION"
code (invalid_cursor _) = codes "VALIDATION_INVALID_CURSOR"
code (duplicate_wallet _ _) = codes "WALLET_ALREADY_EXISTS"
code (wallet_not_found _) = codes "WALLET_NOT_FOUND"
code (wallet_player_mismatch _ _) = codes "VALIDATION_WALLET_PLAYER_MISMATCH"
code (idempotency_conflict _) = codes "IDEMPOTENCY_CONFLICT"
code transient_processing = codes "INFRASTRUCTURE_TRANSIENT"

pub ok_injective : {A : Type 0} {a b : A} → ok a ≡ ok b → a ≡ b
ok_injective {a = a} h = ap (λ r. elim r [ ok x ↦ x | err _ ↦ a ]) h
