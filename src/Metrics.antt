-- ===== src/Metrics.antt =====
-- src/shared/metrics/prometheus-metrics.service.ts. The library prom-client is an interface: a registry
-- that its constructors and the methods of a metric change.
pub mod Answers
use distributed_wagering_pro.Prelude.{
  Text, ℕ, Bool, List, Option, some, none, ◌∷◌, [], ◌||◌, ◌&&◌, text_eq, if◌then◌else◌, ◌≡◌, true,
  false, map,
}
use distributed_wagering_pro.Kernel.Errors.{Result, ok, err, javascript_error}

pub data MetricKind : Type 0 where
  counter histogram gauge : MetricKind

-- The object that the three constructors are given; a counter and a gauge have no buckets.
pub record MetricOptions : Type 0 where
  pub kind : MetricKind
  pub name : Text
  pub help : Text
  pub label_names : List Text
  pub buckets : List ℕ

abbrev pub Labels : Type 0
Labels = List (Text × Text)

abbrev pub keys : Labels → List Text
keys labels = map (λ l. l.0) labels

abbrev pub is_in : Text → List Text → Bool
is_in t [] = false
is_in t (s ∷ texts) = text_eq s t || is_in t texts

abbrev pub all_in : List Text → List Text → Bool
all_in [] texts = true
all_in (t ∷ rest) texts = is_in t texts && all_in rest texts

-- `Number` is the type of the values that are observed. A name is registered once, a malformed name is
-- refused, and a metric refuses labels that it was not created with.
pub record PromClient : Type 1 where
  pub Registry : Type 0
  pub Metric : Type 0
  pub Number : Type 0
  pub empty_registry : Registry
  pub names : Registry → List Text
  pub label_names : Metric → List Text
  pub accepts : MetricOptions → Bool
  pub create : MetricOptions → Registry → Result Metric × Registry
  pub inc : Metric → Labels → Registry → Result (Unit {0}) × Registry
  pub observe : Metric → Labels → Number → Registry → Result (Unit {0}) × Registry
  pub set : Metric → Labels → Number → Registry → Result (Unit {0}) × Registry
  pub names-empty : names empty_registry ≡ []
  pub create-refused :
      (o : MetricOptions) (r : Registry)
      → (is_in o.name (names r) || (if accepts o then false else true)) ≡ true
      → create o r ≡ (err javascript_error, r)
  pub create-made :
      (o : MetricOptions) (r : Registry)
      → is_in o.name (names r) ≡ false
      → accepts o ≡ true
      → (x : Metric × Registry) × (create o r ≡ (ok x.0, x.1))
        × (names x.1 ≡ o.name ∷ names r)
        × (label_names x.0 ≡ o.label_names)
  pub inc_lem :
      (m : Metric) (labels : Labels) (r : Registry)
      → ((inc m labels r).0
          ≡ (if all_in (keys labels) (label_names m) then ok tt else err javascript_error))
        × (names (inc m labels r).1 ≡ names r)
  pub observe_lem :
      (m : Metric) (labels : Labels) (n : Number) (r : Registry)
      → ((observe m labels n r).0
          ≡ (if all_in (keys labels) (label_names m) then ok tt else err javascript_error))
        × (names (observe m labels n r).1 ≡ names r)
  pub set_lem :
      (m : Metric) (labels : Labels) (n : Number) (r : Registry)
      → ((set m labels n r).0
          ≡ (if all_in (keys labels) (label_names m) then ok tt else err javascript_error))
        × (names (set m labels n r).1 ≡ names r)

-- HISTOGRAM_BUCKETS_MS
abbrev pub histogram_buckets_ms : List ℕ
histogram_buckets_ms = 1 ∷ 5 ∷ 10 ∷ 25 ∷ 50 ∷ 100 ∷ 250 ∷ 500 ∷ 1000 ∷ 2500 ∷ 5000 ∷ 10000 ∷ []

abbrev buckets_of : MetricKind → List ℕ
buckets_of counter = []
buckets_of histogram = histogram_buckets_ms
buckets_of gauge = []

unfoldable pub options : MetricKind → Text → List Text → MetricOptions
options kind name label_names = record {
  kind = kind;
  name = name;
  help = name;
  label_names = label_names;
  buckets = buckets_of kind;
}

module _ (C : PromClient) where
  -- `Map.get`
  abbrev pub get : Text → List (Text × C.Metric) → Option C.Metric
  get name [] = none
  get name ((n, metric) ∷ metrics) = if text_eq n name then some metric else get name metrics

  -- `PrometheusMetricsService`
  pub record MetricsService : Type 0 where
    pub registry : C.Registry
    pub counters : List (Text × C.Metric)
    pub histograms : List (Text × C.Metric)
    pub gauges : List (Text × C.Metric)

  abbrev pub created_service : MetricsService
  created_service = record {
    registry = C.empty_registry;
    counters = [];
    histograms = [];
    gauges = [];
  }

  abbrev pub metrics_of : MetricKind → MetricsService → List (Text × C.Metric)
  metrics_of counter s = s.counters
  metrics_of histogram s = s.histograms
  metrics_of gauge s = s.gauges

  -- `Map.set` of a key that is missing.
  abbrev pub add_metric : MetricKind → Text → C.Metric → MetricsService → MetricsService
  add_metric counter name metric s = record s { counters = (name, metric) ∷ s.counters }
  add_metric histogram name metric s = record s { histograms = (name, metric) ∷ s.histograms }
  add_metric gauge name metric s = record s { gauges = (name, metric) ∷ s.gauges }

  abbrev pub keep_created :
      MetricKind
      → Text
      → MetricsService
      → Result C.Metric × C.Registry
      → Result C.Metric × MetricsService
  keep_created kind name s (ok metric, r) =
      (ok metric, add_metric kind name metric (record s { registry = r }))
  keep_created kind name s (err e, r) = (err e, record s { registry = r })

  abbrev pub found_or_created :
      MetricKind
      → Text
      → List Text
      → MetricsService
      → Option C.Metric
      → Result C.Metric × MetricsService
  found_or_created kind name label_names s (some metric) = (ok metric, s)
  found_or_created kind name label_names s none =
      keep_created kind name s (C.create (options kind name label_names) s.registry)

  -- `getOrCreateCounter`, `getOrCreateHistogram` and `getOrCreateGauge`, by their kind.
  unfoldable pub get_or_create :
      MetricKind → Text → List Text → MetricsService → Result C.Metric × MetricsService
  unfolding options
  get_or_create kind name label_names s =
      found_or_created kind name label_names s (get name (metrics_of kind s))

  abbrev pub update :
      (C.Metric → C.Registry → Result (Unit {0}) × C.Registry)
      → Result C.Metric × MetricsService
      → Result (Unit {0}) × MetricsService
  update change (err e, s) = (err e, s)
  update change (ok metric, s) =
      let (r, registry) = change metric s.registry in (r, record s { registry = registry })

  unfoldable pub increment_counter :
      Text → Labels → MetricsService → Result (Unit {0}) × MetricsService
  unfolding get_or_create
  increment_counter name labels s =
      update (λ m. C.inc m labels) (get_or_create counter name (keys labels) s)

  unfoldable pub observe_histogram :
      Text → C.Number → Labels → MetricsService → Result (Unit {0}) × MetricsService
  unfolding get_or_create
  observe_histogram name value labels s =
      update (λ m. C.observe m labels value) (get_or_create histogram name (keys labels) s)

  unfoldable pub set_gauge :
      Text → C.Number → Labels → MetricsService → Result (Unit {0}) × MetricsService
  unfolding get_or_create
  set_gauge name value labels s =
      update (λ m. C.set m labels value) (get_or_create gauge name (keys labels) s)

  -- A call of one of the three methods.
  pub data Call : Type 0 where
    increments : Text → Labels → Call
    observes : Text → C.Number → Labels → Call
    sets : Text → C.Number → Labels → Call

  unfoldable pub call : Call → MetricsService → Result (Unit {0}) × MetricsService
  unfolding increment_counter observe_histogram set_gauge
  call (increments name labels) = increment_counter name labels
  call (observes name value labels) = observe_histogram name value labels
  call (sets name value labels) = set_gauge name value labels

  -- The calls one after the other; the callers do not catch what one throws, and other requests go on.
  unfoldable pub call_all : List Call → MetricsService → MetricsService
  unfolding call
  call_all [] s = s
  call_all (c ∷ calls) s = call_all calls (call c s).1
