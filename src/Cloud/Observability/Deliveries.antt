-- ===== src/Cloud/Observability/Deliveries.antt =====
-- What a collector reads out of a push is what was pushed.
use monok8s.Prelude.{◌≡◌, refl, ap, ◌∙◌, ℕ, false, List, [], ◌∷◌, ◌++◌, Text, is_blank, map}
use mathlib.Core.List.{append-nil}
use monok8s.Cloud.{Served}
use monok8s.Cloud.Observability.{
  OtelConfig, LogRecord, MetricPoint, SpanRecord, OtlpLog, DataPoint, OtlpSpan, Scoped, Payload,
  resource_logs, resource_metrics, resource_spans, Push, Answer, judged, otlp_log, otlp_metric,
  otlp_span, post, push_logs, push_metrics, push_traces, Labels, attr_pairs, given, wrapped,
}

-- A reader of OTLP: every item of every scope of every resource.
abbrev pub flat {κ} : {A : Type κ} → List (List A) → List A
flat [] = []
flat (xs ∷ xss) = xs ++ flat xss

abbrev pub items {κ} : {A : Type κ} → List (Scoped A) → List A
items [] = []
items (r ∷ rs) = flat r.scopes ++ items rs

attr_pairs-same : (l : Labels) → attr_pairs l ≡ l
attr_pairs-same [] = refl
attr_pairs-same (p ∷ l) = ap (λ r. p ∷ r) (attr_pairs-same l)

map-map_same {κ μ} :
    {A : Type κ} {B : Type μ} (f : A → B) (g : B → A) (xs : List A)
    → ((x : A) → g (f x) ≡ x)
    → map g (map f xs) ≡ xs
map-map_same f g [] h = refl
map-map_same f g (x ∷ xs) h = rw (h x, map-map_same f g xs h) refl

module _ {ℓ κ} {S : Type ℓ} {V : Type κ} (serve : Push V → S → Answer × S) (print : ℕ → Text)
    (cfg : OtelConfig) (read : Text → ℕ) (printed : (n : ℕ) → read (print n) ≡ n) where
  abbrev pub read_log : OtlpLog → LogRecord
  read_log r = record {
    timestamp = read r.time_unix_nano;
    severity = r.severity_text;
    body = r.body;
    labels = r.attributes;
  }

  abbrev pub read_point : Text → DataPoint V → MetricPoint V
  read_point name p = record {
    name = name;
    value = p.as_double;
    timestamp = read p.time_unix_nano;
    labels = p.attributes;
  }

  abbrev pub read_span : OtlpSpan → SpanRecord
  read_span s = record {
    trace_id = s.trace_id;
    span_id = s.span_id;
    name = s.name;
    start_time_ns = read s.start_time_unix_nano;
    end_time_ns = read s.end_time_unix_nano;
    attributes = s.attributes;
  }

  abbrev pub logs_in : Payload V → List LogRecord
  logs_in (resource_logs rs) = map read_log (items rs)
  logs_in _ = []

  abbrev pub points_in : Payload V → List (MetricPoint V)
  points_in (resource_metrics rs) =
      flat (map (λ m. map (read_point m.name) m.data_points) (items rs))
  points_in _ = []

  abbrev pub spans_in : Payload V → List SpanRecord
  spans_in (resource_spans rs) = map read_span (items rs)
  spans_in _ = []

  -- One push is sent, to the URL, and its answer is the outcome; a reader finds just the items in it.
  pub record Delivers {μ} {A : Type μ} (run : Served S (Unit {0})) (url : Text)
      (reader : Payload V → List A) (sent : List A) (s : S) : Type (ℓ ⊔ κ ⊔ μ) where
    pub push : Push V
    pub outcome : run s ≡ (judged url (serve push s).0, (serve push s).1)
    pub target : push.url ≡ url
    pub content : reader push.payload ≡ sent

  post-Delivers {μ} :
      {A : Type μ} (url : Text) (payload : Payload V) (reader : Payload V → List A) (sent : List A)
      (s : S)
      → is_blank url ≡ false
      → reader payload ≡ sent
      → Delivers (post serve print cfg url payload) url reader sent s
  unfolding post
  post-Delivers url payload reader sent s b c = record {
    push = record { url = url; authorization = given cfg.auth_header; payload = payload };
    outcome = rw b refl;
    target = refl;
    content = c;
  }

  items-wrapped {μ} : {A : Type μ} (xs : List A) → items (wrapped serve print cfg xs) ≡ xs
  items-wrapped xs = append-nil (xs ++ []) ∙ append-nil xs

  logs-back : (rs : List LogRecord) → map read_log (map (otlp_log serve print cfg) rs) ≡ rs
  logs-back rs =
      map-map_same (otlp_log serve print cfg) read_log rs
        (λ r. rw (printed r.timestamp, attr_pairs-same r.labels) refl)

  spans-back : (ss : List SpanRecord) → map read_span (map (otlp_span serve print cfg) ss) ≡ ss
  spans-back ss =
      map-map_same (otlp_span serve print cfg) read_span ss (λ s.
        rw (printed s.start_time_ns, printed s.end_time_ns, attr_pairs-same s.attributes) refl)

  points-back :
      (ps : List (MetricPoint V))
      → flat
          (map (λ m. map (read_point m.name) m.data_points) (map (otlp_metric serve print cfg) ps))
        ≡ ps
  points-back [] = refl
  points-back (p ∷ ps) = rw (printed p.timestamp, attr_pairs-same p.labels, points-back ps) refl

  -- The three pushes of items, none of which has an empty list or an empty URL.
  pub push-Delivers :
      (r : LogRecord) (rs : List LogRecord) (p : MetricPoint V) (ps : List (MetricPoint V))
      (v : SpanRecord) (vs : List SpanRecord) (s : S)
      → is_blank cfg.logs_url ≡ false
      → is_blank cfg.metrics_url ≡ false
      → is_blank cfg.traces_url ≡ false
      → Delivers (push_logs serve print cfg (r ∷ rs)) cfg.logs_url logs_in (r ∷ rs) s
        × Delivers (push_metrics serve print cfg (p ∷ ps)) cfg.metrics_url points_in (p ∷ ps) s
        × Delivers (push_traces serve print cfg (v ∷ vs)) cfg.traces_url spans_in (v ∷ vs) s
  unfolding push_logs push_metrics push_traces
  push-Delivers r rs p ps v vs s bl bm bt = (
    post-Delivers cfg.logs_url _ logs_in (r ∷ rs) s bl (
        ap (map read_log) (items-wrapped (map (otlp_log serve print cfg) (r ∷ rs)))
        ∙ logs-back (r ∷ rs)),
    post-Delivers cfg.metrics_url _ points_in (p ∷ ps) s bm (
        ap (λ ms. flat (map (λ m. map (read_point m.name) m.data_points) ms))
          (items-wrapped (map (otlp_metric serve print cfg) (p ∷ ps)))
        ∙ points-back (p ∷ ps)),
    post-Delivers cfg.traces_url _ spans_in (v ∷ vs) s bt (
        ap (map read_span) (items-wrapped (map (otlp_span serve print cfg) (v ∷ vs)))
        ∙ spans-back (v ∷ vs)),
  )
