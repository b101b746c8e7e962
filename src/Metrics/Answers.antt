-- ===== src/Metrics/Answers.antt =====
-- src/shared/metrics/prometheus-metrics.service.ts: when a call throws.
use distributed_wagering_pro.Metrics.{
  PromClient, MetricKind, counter, histogram, gauge, Labels, keys, is_in, all_in, options, get,
  MetricsService, metrics_of, get_or_create, found_or_created, add_metric, update, Call, increments,
  observes, sets, call, call_all, created_service, some, increment_counter, observe_histogram,
  set_gauge,
}
use distributed_wagering_pro.Prelude.{
  List, Text, ◌≡◌, Bool, if◌then◌else◌, Option, true, false, none, ◌||◌, text_eq, ◌∷◌, arith,
  Bool-cases, text_eq_refl, [], inl, refl, inr, ◌∙◌, ap, sym,
}
use distributed_wagering_pro.Kernel.Errors.{Result, ok, err, javascript_error}

all_in-cons : (xs ys : List Text) (y : Text) → all_in xs ys ≡ true → all_in xs (y ∷ ys) ≡ true
all_in-cons [] ys y h = refl
all_in-cons (x ∷ xs) ys y h = ground (arith, all_in-cons xs ys y)

all_in_self : (xs : List Text) → all_in xs xs ≡ true
all_in_self [] = refl
all_in_self (x ∷ xs) = rw (text_eq_refl x) (all_in-cons xs xs x (all_in_self xs))

module _ (C : PromClient) where
  abbrev pub has : Text → List (Text × C.Metric) → Bool
  has name [] = false
  has name ((n, metric) ∷ metrics) = text_eq n name || has name metrics

  get-none :
      (name : Text) (ms : List (Text × C.Metric)) → get C name ms ≡ none → has name ms ≡ false
  get-none name [] h = refl
  get-none name ((n, metric) ∷ ms) h = ground (arith, get-none name ms)

  -- The name is that of a metric of another kind.
  abbrev pub has_elsewhere : MetricKind → Text → MetricsService C → Bool
  has_elsewhere counter name s = has name s.histograms || has name s.gauges
  has_elsewhere histogram name s = has name s.counters || has name s.gauges
  has_elsewhere gauge name s = has name s.counters || has name s.histograms

  abbrev pub known : Text → MetricsService C → Bool
  known name s = has name s.counters || (has name s.histograms || has name s.gauges)

  abbrev pub fits : Labels → C.Metric → Result (Unit {0})
  fits labels metric =
      if all_in (keys labels) (C.label_names metric) then ok tt else err javascript_error

  abbrev pub first_answer : MetricKind → Text → Labels → MetricsService C → Result (Unit {0})
  first_answer kind name labels s =
      if has_elsewhere kind name s
        || (if C.accepts (options kind name (keys labels)) then false else true)
      then err javascript_error
      else ok tt

  abbrev pub answer_from :
      MetricKind → Text → Labels → MetricsService C → Option C.Metric → Result (Unit {0})
  answer_from kind name labels s (some metric) = fits labels metric
  answer_from kind name labels s none = first_answer kind name labels s

  -- What a call is answered, by its name and labels: a metric takes the labels of the first call of its
  -- name, or some of them; a new one needs a name that no other kind has.
  abbrev pub answer : MetricKind → Text → Labels → MetricsService C → Result (Unit {0})
  answer kind name labels s = answer_from kind name labels s (get C name (metrics_of C kind s))

  abbrev pub answer_of : Call C → MetricsService C → Result (Unit {0})
  answer_of (increments name labels) = answer counter name labels
  answer_of (observes name value labels) = answer histogram name labels
  answer_of (sets name value labels) = answer gauge name labels

  -- The registry knows the names of the three maps.
  Registered : MetricsService C → Type 0
  Registered s = (n : Text) → is_in n (C.names s.registry) ≡ known n s

  elsewhere_known :
      (kind : MetricKind) (name : Text) (s : MetricsService C)
      → get C name (metrics_of C kind s) ≡ none
      → known name s ≡ has_elsewhere kind name s
  elsewhere_known counter name s h = ground (arith, get-none name s.counters h)
  elsewhere_known histogram name s h = ground (arith, get-none name s.histograms h)
  elsewhere_known gauge name s h = ground (arith, get-none name s.gauges h)

  known_add :
      (kind : MetricKind) (name n : Text) (metric : C.Metric) (s : MetricsService C)
      → known n (add_metric C kind name metric s) ≡ (text_eq name n || known n s)
  known_add counter name n metric s = ground arith
  known_add histogram name n metric s = ground arith
  known_add gauge name n metric s = ground arith

  module _ (name : Text) (labels : Labels)
      (change : C.Metric → C.Registry → Result (Unit {0}) × C.Registry)
      (law : (m : C.Metric) (r : C.Registry)
        → ((change m r).0 ≡ fits labels m) × (C.names (change m r).1 ≡ C.names r)) where
    abbrev Answered : Result (Unit {0}) → Result (Unit {0}) × MetricsService C → Type 0
    Answered expected r = (r.0 ≡ expected) × Registered r.1

    -- A new metric takes the labels that it was created with.
    stored-Answered :
        (kind : MetricKind) (metric : C.Metric) (r : C.Registry) (s : MetricsService C)
        → Registered s
        → C.names r ≡ name ∷ C.names s.registry
        → C.label_names metric ≡ keys labels
        → Answered
            (ok tt)
            (update C change (ok metric, add_metric C kind name metric (record s { registry = r })))
    unfolding Registered
    stored-Answered kind metric r s registered names same = by_kind kind
      where
        answered : (change metric r).0 ≡ ok tt
        answered = (law metric r).0 ∙ rw (same, all_in_self (keys labels)) refl

        listed :
            (k : MetricKind) (n : Text)
            → is_in n (C.names (change metric r).1) ≡ known n (add_metric C k name metric s)
        listed k n = rw ((law metric r).1, names, registered n) (sym (known_add k name n metric s))

        by_kind :
            (k : MetricKind)
            → Answered (ok tt) (
                update C change (ok metric, add_metric C k name metric (record s { registry = r })))
        by_kind counter = (answered, listed counter)
        by_kind histogram = (answered, listed histogram)
        by_kind gauge = (answered, listed gauge)

    created-Answered :
        (kind : MetricKind) (s : MetricsService C)
        → Registered s
        → get C name (metrics_of C kind s) ≡ none
        → Answered
            (first_answer kind name labels s)
            (update C change (found_or_created C kind name (keys labels) s none))
    unfolding options Registered
    created-Answered kind s registered missing =
        let here : is_in name (C.names s.registry) ≡ has_elsewhere kind name s =
          registered name ∙ elsewhere_known kind name s missing in
        let o = options kind name (keys labels) in
        elim (Bool-cases (has_elsewhere kind name s)) [
          | inl elsewhere ↦
              let refused : (is_in name (C.names s.registry)
                    || (if C.accepts o then false else true))
                  ≡ true =
                rw (here, elsewhere) refl in
              rw (C.create-refused o s.registry refused, elsewhere) (refl, registered)
          | inr free ↦ elim (Bool-cases (C.accepts o)) [
            | inr malformed ↦
                let refused : (is_in name (C.names s.registry)
                      || (if C.accepts o then false else true))
                    ≡ true =
                  rw (here, free, malformed) refl in
                rw (C.create-refused o s.registry refused, free, malformed) (refl, registered)
            | inl accepted ↦
                let ((metric, r), made, names, same) =
                  C.create-made o s.registry (here ∙ free) accepted in
                rw (made, free, accepted) (stored-Answered kind metric r s registered names same)
          ]
        ]

    call-Answered :
        (kind : MetricKind) (s : MetricsService C)
        → Registered s
        → Answered
            (answer kind name labels s)
            (update C change (get_or_create C kind name (keys labels) s))
    unfolding get_or_create Registered
    call-Answered kind s registered = by_found (get C name (metrics_of C kind s)) refl
      where
        by_found :
            (o : Option C.Metric)
            → get C name (metrics_of C kind s) ≡ o
            → Answered
                (answer_from kind name labels s o)
                (update C change (found_or_created C kind name (keys labels) s o))
        by_found none e = created-Answered kind s registered e
        by_found (some metric) e =
            let (a, names) = law metric s.registry in (a, λ n. ap (is_in n) names ∙ registered n)

  call_lem :
      (c : Call C) (s : MetricsService C)
      → Registered s
      → ((call C c s).0 ≡ answer_of c s) × Registered (call C c s).1
  unfolding call increment_counter observe_histogram set_gauge
  call_lem (increments name labels) s registered =
      call-Answered name labels (λ m. C.inc m labels) (λ m r. C.inc_lem m labels r) counter s
        registered
  call_lem (observes name value labels) s registered =
      call-Answered name labels (λ m. C.observe m labels value)
        (λ m r. C.observe_lem m labels value r) histogram s registered
  call_lem (sets name value labels) s registered =
      call-Answered name labels (λ m. C.set m labels value) (λ m r. C.set_lem m labels value r)
        gauge s registered

  call_all-Registered :
      (calls : List (Call C)) (s : MetricsService C)
      → Registered s
      → Registered (call_all C calls s)
  unfolding call_all
  call_all-Registered [] s registered = registered
  call_all-Registered (c ∷ calls) s registered =
      call_all-Registered calls (call C c s).1 (call_lem c s registered).1

  -- After any series of calls on a new metrics service, whatever they threw, a call throws exactly
  -- where the metric of its kind and name has not all of its labels, or, if there is none yet,
  -- where a metric of another kind has the name or the library finds the name or the labels
  -- malformed.
  pub call-answer :
      (calls : List (Call C)) (c : Call C)
      → let s = call_all C calls (created_service C) in (call C c s).0 ≡ answer_of c s
  unfolding Registered
  call-answer calls c =
      (call_lem c (call_all C calls (created_service C))
        (call_all-Registered calls (created_service C) none_yet)).0
    where
      none_yet : Registered (created_service C)
      none_yet n = rw C.names-empty refl
