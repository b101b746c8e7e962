-- ===== src/Logging/Nested.antt =====
-- src/shared/logging/log-context.ts: contexts within contexts.
use distributed_wagering_pro.Logging.{
  LogContext, missing, given, spread, get_log_context, run_with_log_context, use_correlation_id,
  some,
}
use distributed_wagering_pro.Prelude.{List, Option, ◌∷◌, All, Text, ◌≡◌, [], some, ◌∙◌, none, refl}

-- Calls of `runWithLogContext`, each within the one before.
unfoldable pub run_nested :
    {A : Type 0} → List LogContext → (Option LogContext → A) → Option LogContext → A
unfolding run_with_log_context
run_nested [] fn = fn
run_nested (c ∷ contexts) fn = run_with_log_context c (run_nested contexts fn)

kept_correlation :
    (contexts : List LogContext) (store : Option LogContext)
    → All (λ c. c.correlation_id ≡ missing) contexts
    → (run_nested contexts get_log_context store).correlation_id
      ≡ (get_log_context store).correlation_id
unfolding run_nested spread run_with_log_context
kept_correlation [] store h = refl
kept_correlation (c ∷ contexts) store h =
    kept_correlation contexts (some (spread (get_log_context store) c)) h.1 ∙ rw (h.0) refl

-- What the log sees as the correlation id of a request, within any contexts that are opened later
-- and do not name one, is the id in the header of the response: the header of the request if it is
-- one string, and the new id otherwise.
pub correlation_everywhere :
    (header : Option Text) (new_id : Text) (store : Option LogContext) (contexts : List LogContext)
    → All (λ c. c.correlation_id ≡ missing) contexts
    → let (answered, seen) =
        use_correlation_id header new_id (run_nested contexts get_log_context) store in
      (seen.correlation_id ≡ given answered)
      × (answered ≡ elim header [ some h ↦ h | none ↦ new_id ])
unfolding use_correlation_id run_with_log_context
correlation_everywhere (some header) new_id store contexts h = (kept_correlation contexts _ h, refl)
correlation_everywhere none new_id store contexts h = (kept_correlation contexts _ h, refl)
