-- ===== src/Metrics/Endpoints.antt =====
-- pkg/framework/metrics.go: where a pod says its metrics are, and the reading of them through the pod's proxy.
use nfs_verification.Metrics.{MetricSet, lookup}
use nfs_verification.Prelude.{
  Bool, true, false, not, ◌&&◌, ◌||◌, List, [], ◌∷◌, Option, none, some, if◌then◌else◌, ℤ, pos,
  ltb_ℤ, has, keep_if,
}
use nfs_verification.Text.{Text, codes, eq_text, is_empty, trim_space, to_lower, contains, split}
use nfs_verification.Text.Number.{parse_int}

pub record ContainerPort : Type 0 where
  pub name : Text
  pub container_port : ℤ

pub record PodContainer : Type 0 where
  pub name : Text
  pub ports : List ContainerPort

-- What is read of a pod.
pub record ScrapedPod : Type 0 where
  pub namespace : Text
  pub name : Text
  pub annotations : List (Text × Text)
  pub containers : List PodContainer

-- `Via`.
pub data Via : Type 0 where
  by_annotation : Via
  by_port : Text → Text → Via

-- `MetricsEndpoint`.
pub record MetricsEndpoint : Type 0 where
  pub namespace : Text
  pub pod : Text
  pub port : ℤ
  pub path : Text
  pub scheme : Text
  pub via : Via

-- `looksLikeMetricsPort`.
pub looks_like_metrics_port : Text → Bool
unfolding to_lower contains
looks_like_metrics_port name =
    let n = to_lower name in
    contains n (codes "metric") || contains n (codes "telemetry") || contains n (codes "prom")

-- `strconv.ParseBool`; `none` is an error.
parse_bool : Text → Option Bool
unfolding eq_text
parse_bool s =
    if has (eq_text s) (
      codes "1" ∷ (codes "t" ∷ (codes "T" ∷ (codes "TRUE" ∷ (codes "true" ∷ (codes "True" ∷ []))))))
    then some true
    else if has (eq_text s) (
        codes "0"
        ∷ (codes "f" ∷ (codes "F" ∷ (codes "FALSE" ∷ (codes "false" ∷ (codes "False" ∷ []))))))
    then some false
    else none

annotation : ScrapedPod → Text → Text
unfolding lookup
annotation p key = elim (lookup key p.annotations) [ none ↦ [] | some v ↦ trim_space v ]

-- A `scrape` annotation of false.
pub opted_out : ScrapedPod → Bool
unfolding parse_bool annotation
opted_out p = elim (parse_bool (annotation p (codes "prometheus.io/scrape"))) [
  | none ↦ false
  | some scrape ↦ not scrape
]

endpoint_path : ScrapedPod → Text
unfolding annotation
endpoint_path p =
    let path = annotation p (codes "prometheus.io/path") in
    if is_empty path then codes "/metrics" else path

endpoint_scheme : ScrapedPod → Text
unfolding annotation to_lower
endpoint_scheme p =
    let s = to_lower (annotation p (codes "prometheus.io/scheme")) in
    if eq_text s (codes "http") || eq_text s (codes "https") then s else []

-- A port that can be one.
port_in_range : Option ℤ → Option ℤ
port_in_range none = none
port_in_range (some n) = if ltb_ℤ (pos 0) n && ltb_ℤ n (pos 65536) then some n else none

endpoint_at : ScrapedPod → ℤ → Via → MetricsEndpoint
unfolding endpoint_path endpoint_scheme
endpoint_at p port via = record {
  namespace = p.namespace;
  pod = p.name;
  port = port;
  path = endpoint_path p;
  scheme = endpoint_scheme p;
  via = via;
}

named_port : Text → List ContainerPort → Option (ℤ × Via)
unfolding looks_like_metrics_port
named_port container [] = none
named_port container (p ∷ ps) =
    let rest = named_port container ps in
    if looks_like_metrics_port p.name
    then some (p.container_port, by_port container p.name)
    else rest

first_named_port : List PodContainer → Option (ℤ × Via)
unfolding named_port
first_named_port [] = none
first_named_port (c ∷ cs) =
    let rest = first_named_port cs in
    elim (named_port c.name c.ports) [ none ↦ rest | some found ↦ some found ]

-- The port and how it was found: the annotation, or else the first port with such a name.
declared_port : ScrapedPod → Option (ℤ × Via)
unfolding port_in_range first_named_port annotation
declared_port p = elim (port_in_range (parse_int (annotation p (codes "prometheus.io/port")))) [
  | some n ↦ some (n, by_annotation)
  | none ↦ first_named_port p.containers
]

-- `MetricsEndpointOf`.
unfoldable pub metrics_endpoint_of : ScrapedPod → Option MetricsEndpoint
unfolding opted_out declared_port endpoint_at
metrics_endpoint_of p =
    if opted_out p
    then none
    else elim (declared_port p) [ none ↦ none | some (port, via) ↦ some (endpoint_at p port via) ]

-- `pathSegments`.
unfoldable pub path_segments : Text → List Text
path_segments path = keep_if (λ s. not (is_empty s)) (split b'/' path)

-- What one request through the proxy returned.
pub data Answer : Type 0 where
  body : Text → Answer
  forbidden : Answer
  no_answer : Text → Answer

-- How a scrape ends.
pub data Scrape {ℓ} (F : Type ℓ) : Type ℓ where
  scraped : MetricSet F → Scrape F
  refused : Scrape F
  unanswered : List (Text × Text) → Scrape F

-- `schemes`.
schemes_of : Text → List Text
schemes_of scheme = if is_empty scheme then codes "http" ∷ (codes "https" ∷ []) else scheme ∷ []

module _ {ℓ} {F : Type ℓ} (parse : Text → Text → MetricSet F) (get : Text → Answer) where
  after_answer : Text → Answer → Scrape F → Scrape F
  after_answer scheme (body raw) rest = scraped (parse scheme raw)
  after_answer scheme forbidden rest = refused
  after_answer scheme (no_answer e) rest = elim rest [
    | scraped m ↦ scraped m
    | refused ↦ refused
    | unanswered es ↦ unanswered ((scheme, e) ∷ es)
  ]

  scrape_with : List Text → Scrape F
  unfolding after_answer
  scrape_with [] = unanswered []
  scrape_with (s ∷ ss) = after_answer s (get s) (scrape_with ss)

  -- `ScrapeMetrics`, over the answers of the proxy by the scheme that was asked.
  unfoldable pub scrape_metrics : MetricsEndpoint → Scrape F
  unfolding scrape_with schemes_of
  scrape_metrics e = scrape_with (schemes_of e.scheme)
