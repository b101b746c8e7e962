-- ===== src/Examples/Operations.antt =====
-- Examples on metrics, health and the context of the log.
use distributed_wagering_pro.Metrics.{
  PromClient, MetricOptions, Labels, keys, is_in, all_in, Call, increments, sets, call, call_all,
  created_service,
}
use distributed_wagering_pro.Logging.{
  LogContext, empty_context, given, use_correlation_id, get_log_context,
}
use distributed_wagering_pro.Prelude.{
  List, codes, ◌∷◌, text_eq, some, Text, [], Bool, ◌≡◌, ℕ, none, if◌then◌else◌, ◌||◌, true, false,
  not, is_empty, refl, ◌↔◌,
}
use distributed_wagering_pro.Health.{check_ready, postgres_and_sqs_ok}
use distributed_wagering_pro.Examples.Database.{platform}
use distributed_wagering_pro.Logging.Nested.{run_nested, correlation_everywhere}
use distributed_wagering_pro.Kernel.Errors.{Result, err, ok, javascript_error}
use distributed_wagering_pro.Persistence.Effect.{pure}
use distributed_wagering_pro.Metrics.Answers.{answer_of, call-answer}
use distributed_wagering_pro.Messaging.Sqs.Client.{sqs_client}
use distributed_wagering_pro.Examples.Stored.{world}
use distributed_wagering_pro.Health.Ready.{MayServe, check_ready_iff}

-- A registry is the list of its names, a metric that of its labels; the empty name is malformed.
abbrev checked_update : List Text → Labels → List Text → Result (Unit {0}) × List Text
checked_update metric labels r =
    (if all_in (keys labels) metric then ok tt else err javascript_error, r)

abbrev refuses : MetricOptions → List Text → Bool
refuses o r = is_in o.name r || (if not (is_empty o.name) then false else true)

abbrev create_metric : MetricOptions → List Text → Result (List Text) × List Text
create_metric o r =
    if refuses o r then (err javascript_error, r) else (ok o.label_names, o.name ∷ r)

create_refused :
    (o : MetricOptions) (r : List Text)
    → refuses o r ≡ true
    → create_metric o r ≡ (err javascript_error, r)
create_refused o r h = rw h refl

create_made :
    (o : MetricOptions) (r : List Text)
    → is_in o.name r ≡ false
    → not (is_empty o.name) ≡ true
    → (x : List Text × List Text) × (create_metric o r ≡ (ok x.0, x.1))
      × (x.1 ≡ o.name ∷ r)
      × (x.0 ≡ o.label_names)
create_made o r free full = ((o.label_names, o.name ∷ r), rw (free, full) refl, refl, refl)

abbrev memory_client : PromClient
memory_client = record {
  Registry = List Text;
  Metric = List Text;
  Number = ℕ;
  empty_registry = [];
  names = λ r. r;
  label_names = λ m. m;
  accepts = λ o. not (is_empty o.name);
  create = create_metric;
  inc = checked_update;
  observe = λ m labels n. checked_update m labels;
  set = λ m labels n. checked_update m labels;
  names-empty = refl;
  create-refused = create_refused;
  create-made = create_made;
  inc_lem = λ m labels r. (refl, refl);
  observe_lem = λ m labels n r. (refl, refl);
  set_lem = λ m labels n r. (refl, refl);
}

-- A counter with a label.
abbrev counted : Call memory_client
counted = increments (codes "wager_transactions_total") ((codes "kind", codes "BET") ∷ [])

-- The name of the counter, used for a gauge, is refused.
abbrev misused : Call memory_client
misused = sets (codes "wager_transactions_total") 3 []

call-answer_example :
    (call memory_client misused
      (call_all memory_client (counted ∷ []) (created_service memory_client))).0
    ≡ answer_of memory_client misused
        (call_all memory_client (counted ∷ []) (created_service memory_client))
call-answer_example = call-answer memory_client (counted ∷ []) misused

misuse_refused :
    (call memory_client misused
      (call_all memory_client (counted ∷ []) (created_service memory_client))).0
    ≡ err javascript_error
unfolding call call_all text_eq
misuse_refused = refl

check_ready_iff_example :
    ((check_ready {P = platform} (λ statement. pure tt) (sqs_client platform) world).0
      ≡ postgres_and_sqs_ok)
    ↔ MayServe {P = platform} (λ statement. pure tt) world
check_ready_iff_example = check_ready_iff {P = platform} (λ statement. pure tt) world

abbrev inner_contexts : List LogContext
inner_contexts =
    record empty_context { message_id = given (codes "m") }
    ∷ record empty_context { provider_id = given (codes "prov") }
    ∷ []

correlation_everywhere_example :
    let (answered, seen) =
      use_correlation_id
        (some (codes "c1"))
        (codes "id-1")
        (run_nested inner_contexts get_log_context)
        none in
    (seen.correlation_id ≡ given answered) × (answered ≡ codes "c1")
correlation_everywhere_example =
    correlation_everywhere (some (codes "c1")) (codes "id-1") none inner_contexts (refl, (refl, tt))
