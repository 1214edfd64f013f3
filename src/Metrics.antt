-- ===== src/Metrics.antt =====
-- The metrics bundle, metrics/metrics.go. A counter or a histogram vector is the list of what was
-- recorded on it, the latest first; the help texts and the Go and process collectors are left out.
use contextmatrix_backendkit.Prelude.{
  ℕ, List, [], ◌∷◌, ◌++◌, Bool, false, ◌||◌, Bytes, bytes, if◌then◌else◌,
}
use contextmatrix_backendkit.Prelude.Int.{ℤ, pos}
use contextmatrix_backendkit.GoTime.{Duration}
use contextmatrix_backendkit.GoStrings.{str_eq}

-- The buckets of a histogram: none for another collector, prometheus.DefBuckets, or a list.
pub data Buckets : Type 0 where
  no_buckets : Buckets
  def_buckets : Buckets
  buckets_at : List ℕ → Buckets

-- How a collector is registered.
pub record Collector : Type 0 where
  pub name : Bytes
  pub labels : List Bytes
  pub buckets : Buckets

-- The labels of one increment of the request counter.
pub record RequestLabels : Type 0 where
  pub endpoint : Bytes
  pub status : Bytes
  pub code : Bytes

pub record Metrics : Type 0 where
  pub registry : List Collector
  pub webhook_requests_total : List RequestLabels
  pub webhook_request_duration : List (Bytes × Duration)
  pub container_duration : List (Bytes × Duration)
  pub running_containers : ℤ
  pub broadcaster_drops_total : ℕ
  pub endpoints : List Bytes

abbrev pub webhook_requests : Bytes → Collector
webhook_requests namespace = record {
  name = namespace ++ bytes "_webhook_requests_total";
  labels = bytes "endpoint" ∷ bytes "status" ∷ bytes "code" ∷ [];
  buckets = no_buckets;
}

abbrev pub webhook_duration : Bytes → Collector
webhook_duration namespace = record {
  name = namespace ++ bytes "_webhook_request_duration_seconds";
  labels = bytes "endpoint" ∷ [];
  buckets = def_buckets;
}

abbrev pub container_seconds : Bytes → Collector
container_seconds namespace = record {
  name = namespace ++ bytes "_container_duration_seconds";
  labels = bytes "outcome" ∷ [];
  buckets = buckets_at (1 ∷ 5 ∷ 15 ∷ 30 ∷ 60 ∷ 300 ∷ 600 ∷ 1800 ∷ 3600 ∷ 7200 ∷ []);
}

abbrev pub running_gauge : Bytes → Collector
running_gauge namespace = record {
  name = namespace ++ bytes "_running_containers";
  labels = [];
  buckets = no_buckets;
}

abbrev pub broadcaster_drops : Bytes → Collector
broadcaster_drops namespace = record {
  name = namespace ++ bytes "_broadcaster_drops_total";
  labels = [];
  buckets = no_buckets;
}

unfoldable pub new_metrics : Bytes → List Bytes → Metrics
new_metrics namespace endpoints = record {
  registry =
      webhook_requests namespace
      ∷ webhook_duration namespace
      ∷ container_seconds namespace
      ∷ running_gauge namespace
      ∷ broadcaster_drops namespace
      ∷ [];
  webhook_requests_total = [];
  webhook_request_duration = [];
  container_duration = [];
  running_containers = pos 0;
  broadcaster_drops_total = 0;
  endpoints = endpoints;
}

-- `_, ok := m.endpoints[path]`
unfoldable pub has_endpoint : Bytes → List Bytes → Bool
has_endpoint path [] = false
has_endpoint path (e ∷ endpoints) = str_eq e path || has_endpoint path endpoints

unfoldable pub normalize_endpoint : Bytes → Metrics → Bytes
unfolding has_endpoint
normalize_endpoint path m = if has_endpoint path m.endpoints then path else bytes "other"
