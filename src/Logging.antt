-- ===== src/Logging.antt =====
-- src/shared/logging and src/shared/http/correlation-id.middleware.ts: the fields that every line of the
-- log carries. A call that `AsyncLocalStorage` runs reads the store that it is run with; a function
-- here is given that store.
pub mod Nested
use distributed_wagering_pro.Prelude.{Text, Option, some, none, List, [], ◌∷◌}
use distributed_wagering_pro.Persistence.World.{Platform}

-- A property of an object: it is missing, or is there and may be `undefined`.
pub data Field : Type 0 where
  missing : Field
  undefined : Field
  given : Text → Field

pub record LogContext : Type 0 where
  pub correlation_id : Field
  pub causation_id : Field
  pub message_id : Field
  pub provider_id : Field

abbrev pub empty_context : LogContext
empty_context = record {
  correlation_id = missing;
  causation_id = missing;
  message_id = missing;
  provider_id = missing;
}

abbrev pub override : Field → Field → Field
override outer missing = outer
override outer undefined = undefined
override outer (given t) = given t

-- `{ ...outer, ...inner }`
unfoldable pub spread : LogContext → LogContext → LogContext
spread outer inner = record {
  correlation_id = override outer.correlation_id inner.correlation_id;
  causation_id = override outer.causation_id inner.causation_id;
  message_id = override outer.message_id inner.message_id;
  provider_id = override outer.provider_id inner.provider_id;
}

-- `storage.getStore() ?? {}`
unfoldable pub get_log_context : Option LogContext → LogContext
get_log_context none = empty_context
get_log_context (some context) = context

-- `runWithLogContext`; spreading `undefined` adds nothing.
unfoldable pub run_with_log_context :
    {A : Type 0} → LogContext → (Option LogContext → A) → Option LogContext → A
unfolding spread get_log_context
run_with_log_context context fn store = fn (some (spread (get_log_context store) context))

-- `CorrelationIdMiddleware.use`, with the header where it is a string and the new id where not: the
-- header of the response, and what the rest of the request comes to.
unfoldable pub use_correlation_id :
    {A : Type 0} → Option Text → Text → (Option LogContext → A) → Option LogContext → Text × A
unfolding run_with_log_context
use_correlation_id (some header) new_id next store = (
  header,
  run_with_log_context (record empty_context { correlation_id = given header }) next store,
)
use_correlation_id none new_id next store = (
  new_id,
  run_with_log_context (record empty_context { correlation_id = given new_id }) next store,
)
