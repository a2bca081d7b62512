-- ===== src/Cloud/Observability.antt =====
-- packages/cloud-adapters/observability/baremetal.ts: the adapter that pushes OTLP. The collector and the
-- printing of numbers are arguments; labels are pairs, in the order of `Object.entries`; values of
-- metrics are of any type.
pub mod Deliveries
use monok8s.Prelude.{
  ℕ, Bool, true, false, not, ◌&&◌, Option, none, some, List, [], ◌∷◌, Text, lit, ◌++◌, is_blank,
  leb, map, or_else, if◌then◌else◌,
}
use monok8s.Services.{Result, ok, throw, Thrown, error}
use monok8s.Db.Ask.{decimal}
use monok8s.Cloud.{Served, return, fail}

pub record OtelConfig : Type 0 where
  pub logs_url : Text
  pub metrics_url : Text
  pub traces_url : Text
  pub service_name : Option Text
  pub auth_header : Option Text

abbrev pub Labels : Type 0
Labels = List (Text × Text)

pub record LogRecord : Type 0 where
  pub timestamp : ℕ
  pub severity : Text
  pub body : Text
  pub labels : Labels

pub record MetricPoint {κ} (V : Type κ) : Type κ where
  pub name : Text
  pub value : V
  pub timestamp : ℕ
  pub labels : Labels

pub record SpanRecord : Type 0 where
  pub trace_id : Text
  pub span_id : Text
  pub name : Text
  pub start_time_ns : ℕ
  pub end_time_ns : ℕ
  pub attributes : Labels

-- The JSON that is sent. An attribute is its key and its `stringValue`.
pub record OtlpLog : Type 0 where
  pub time_unix_nano : Text
  pub severity_text : Text
  pub body : Text
  pub attributes : Labels

pub record DataPoint {κ} (V : Type κ) : Type κ where
  pub time_unix_nano : Text
  pub as_double : V
  pub attributes : Labels

pub record OtlpMetric {κ} (V : Type κ) : Type κ where
  pub name : Text
  pub data_points : List (DataPoint V)

pub record OtlpSpan : Type 0 where
  pub trace_id : Text
  pub span_id : Text
  pub name : Text
  pub start_time_unix_nano : Text
  pub end_time_unix_nano : Text
  pub attributes : Labels

-- One element of `resourceLogs` and its like: the resource's attributes, and the scopes.
pub record Scoped {κ} (A : Type κ) : Type κ where
  pub resource : Labels
  pub scopes : List (List A)

pub data Payload {κ} (V : Type κ) : Type κ where
  resource_logs : List (Scoped OtlpLog) → Payload V
  resource_metrics : List (Scoped (OtlpMetric V)) → Payload V
  resource_spans : List (Scoped OtlpSpan) → Payload V

-- A POST; `authorization` is absent where the header is not set.
pub record Push {κ} (V : Type κ) : Type κ where
  pub url : Text
  pub authorization : Option Text
  pub payload : Payload V

-- `fetch` rejects, or there is a status, and a text, the empty one where it cannot be read.
pub data Answer : Type 0 where
  rejected : Thrown → Answer
  answered : ℕ → Text → Answer

unfoldable pub judged : Text → Answer → Result (Unit {0})
judged url (rejected e) = throw e
judged url (answered status text) =
    if leb 200 status && leb status 299
    then ok tt
    else throw
        (error (lit "otlp " ++ (url ++ (lit " → " ++ (decimal status ++ (lit ": " ++ text))))))

abbrev pub given : Option Text → Option Text
given none = none
given (some h) = if is_blank h then none else some h

-- `attrPairs`
abbrev pub attr_pairs : Labels → Labels
attr_pairs labels = map (λ l. (l.0, l.1)) labels

abbrev pub resource_attrs : OtelConfig → Labels
resource_attrs cfg = (lit "service.name", or_else cfg.service_name (lit "monok8s")) ∷ []

module _ {ℓ κ} {S : Type ℓ} {V : Type κ} (serve : Push V → S → Answer × S) (print : ℕ → Text)
    (cfg : OtelConfig) where
  unfoldable pub post : Text → Payload V → Served S (Unit {0})
  post url payload s =
      if is_blank url
      then fail (error (lit "baremetal observability: endpoint URL not configured")) s
      else (let (a, s1) =
            serve (record { url = url; authorization = given cfg.auth_header; payload = payload })
              s in
          (judged url a, s1))

  abbrev pub wrapped {μ} : {A : Type μ} → List A → List (Scoped A)
  wrapped xs = record { resource = resource_attrs cfg; scopes = xs ∷ [] } ∷ []

  abbrev pub otlp_log : LogRecord → OtlpLog
  otlp_log r = record {
    time_unix_nano = print r.timestamp;
    severity_text = r.severity;
    body = r.body;
    attributes = attr_pairs r.labels;
  }

  abbrev pub otlp_metric : MetricPoint V → OtlpMetric V
  otlp_metric p = record {
    name = p.name;
    data_points =
        record {
          time_unix_nano = print p.timestamp;
          as_double = p.value;
          attributes = attr_pairs p.labels;
        }
        ∷ [];
  }

  abbrev pub otlp_span : SpanRecord → OtlpSpan
  otlp_span s = record {
    trace_id = s.trace_id;
    span_id = s.span_id;
    name = s.name;
    start_time_unix_nano = print s.start_time_ns;
    end_time_unix_nano = print s.end_time_ns;
    attributes = attr_pairs s.attributes;
  }

  unfoldable pub push_logs : List LogRecord → Served S (Unit {0})
  push_logs [] = return tt
  push_logs (r ∷ rs) = post cfg.logs_url (resource_logs (wrapped (map otlp_log (r ∷ rs))))

  unfoldable pub push_metrics : List (MetricPoint V) → Served S (Unit {0})
  push_metrics [] = return tt
  push_metrics (p ∷ ps) =
      post cfg.metrics_url (resource_metrics (wrapped (map otlp_metric (p ∷ ps))))

  unfoldable pub push_traces : List SpanRecord → Served S (Unit {0})
  push_traces [] = return tt
  push_traces (s ∷ ss) = post cfg.traces_url (resource_spans (wrapped (map otlp_span (s ∷ ss))))
