-- ===== src/WebhookCore/Recorder/Labels.antt =====
-- What RecordMetrics (webhookcore/recorder.go) adds to the bundle (metrics/metrics.go).
use contextmatrix_backendkit.Prelude.{
  ℕ, ◌≡◌, ◌≢◌, ◌≤◌, ◌<◌, refl, List, [], ◌∷◌, Any, All, some, Bool, true, false, arith, Bytes,
  bytes, bytes_dec, ◌⊎◌, inl, inr, Bool-cases, ℕ_discrete,
}
use contextmatrix_backendkit.GoTime.{Duration}
use contextmatrix_backendkit.GoStrings.{itoa, slash}
use contextmatrix_backendkit.Metrics.{Metrics, has_endpoint, normalize_endpoint}
use contextmatrix_backendkit.WebhookCore.Recorder.{
  WriterCall, new_recorder, strip_slash, outcome_code, observe, record_metrics,
}
use contextmatrix_backendkit.WebhookCore.Recorder.Statuses.{
  IsSettled, answered, run_handler-answered, run_handler-inner,
}

-- A path less its leading slash, if it has one.
abbrev pub Unslashed : Bytes → Bytes → Type 0
Unslashed path label =
    (path ≡ slash ∷ label) ⊎ (((rest : Bytes) → path ≢ slash ∷ rest) × (label ≡ path))

-- The label of a path: that path's on the allowlist, "other" off it.
abbrev pub Known : Bytes → Bytes → List Bytes → Type 0
Known path label endpoints =
    (Any (λ e. e ≡ path) endpoints × Unslashed path label)
    ⊎ (All (λ e. e ≢ path) endpoints × (label ≡ bytes "other"))

strip_slash-Unslashed : (path : Bytes) → Unslashed path (strip_slash path)
unfolding strip_slash
strip_slash-Unslashed [] = inr (λ rest h. cc, refl)
strip_slash-Unslashed (c ∷ s) = elim (ℕ_discrete c slash) [
  | yes same ↦ inl (ground (arith, same))
  | no other ↦ inr (λ rest h. other (cc), ground (arith, other))
]

has_endpoint-Any :
    (path : Bytes) (endpoints : List Bytes)
    → has_endpoint path endpoints ≡ true
    → Any (λ e. e ≡ path) endpoints
unfolding has_endpoint
has_endpoint-Any path [] h = cc
has_endpoint-Any path (e ∷ endpoints) h = elim (bytes_dec e path) [
  | yes same ↦ inl same
  | no other ↦ inr (has_endpoint-Any path endpoints (ground arith))
]

has_endpoint-All :
    (path : Bytes) (endpoints : List Bytes)
    → has_endpoint path endpoints ≡ false
    → All (λ e. e ≢ path) endpoints
unfolding has_endpoint
has_endpoint-All path [] h = tt
has_endpoint-All path (e ∷ endpoints) h = elim (bytes_dec e path) [
  | yes same ↦ absurd (ground (arith, same))
  | no other ↦ (other, has_endpoint-All path endpoints (ground (arith, other)))
]

strip_other : strip_slash (bytes "other") ≡ bytes "other"
unfolding strip_slash ℕ_discrete
strip_other = refl

label-Known :
    (path : Bytes) (m : Metrics) → Known path (strip_slash (normalize_endpoint path m)) m.endpoints
unfolding normalize_endpoint
label-Known path m = elim (Bool-cases (has_endpoint path m.endpoints)) [
  | inl listed ↦
      let kept : normalize_endpoint path m ≡ path = ground (arith, listed) in
      rw kept (inl (has_endpoint-Any path m.endpoints listed, strip_slash-Unslashed path))
  | inr unlisted ↦
      let other : normalize_endpoint path m ≡ bytes "other" = ground (arith, unlisted) in
      rw other (inr (has_endpoint-All path m.endpoints unlisted, strip_other))
]

-- The bucket of a status.
abbrev pub Bucket : ℕ → Bool → Bytes → Type 0
Bucket status completed code =
    ((completed ≡ false) × (code ≡ bytes "aborted"))
    ⊎ ((completed ≡ true) × (status ≡ 429) × (code ≡ bytes "rate_limited"))
    ⊎ ((completed ≡ true) × (status ≢ 429) × (400 ≤ status) × (code ≡ bytes "error"))
    ⊎ ((completed ≡ true) × (status < 400) × (code ≡ bytes "success"))

outcome_code-Bucket :
    (status : ℕ) (completed : Bool) → Bucket status completed (outcome_code status completed)
unfolding outcome_code ℕ_discrete
outcome_code-Bucket status completed = ground arith

-- What one request adds.
pub record Recorded (path : Bytes) (status : ℕ) (completed : Bool) (elapsed : Duration)
    (m m' : Metrics) : Type 0 where
  endpoint : Bytes
  code : Bytes
  known : Known path endpoint m.endpoints
  bucket : Bucket status completed code
  counted :
      m'.webhook_requests_total
      ≡ record { endpoint = endpoint; status = itoa status; code = code } ∷ m.webhook_requests_total
  timed : m'.webhook_request_duration ≡ (endpoint, elapsed) ∷ m.webhook_request_duration
  allowlist : m'.endpoints ≡ m.endpoints
  others :
      (m'.registry ≡ m.registry)
      × (m'.container_duration ≡ m.container_duration)
      × (m'.running_containers ≡ m.running_containers)
      × (m'.broadcaster_drops_total ≡ m.broadcaster_drops_total)

observe-Recorded :
    (path : Bytes) (status : ℕ) (completed : Bool) (elapsed : Duration) (m : Metrics)
    → Recorded path status completed elapsed m (observe path status completed elapsed m)
unfolding observe
observe-Recorded path status completed elapsed m = record {
  endpoint = strip_slash (normalize_endpoint path m);
  code = outcome_code status completed;
  known = label-Known path m;
  bucket = outcome_code-Bucket status completed;
  counted = refl;
  timed = refl;
  allowlist = refl;
  others = (refl, refl, refl, refl);
}

-- Around a handler whose first call settles the answer, on a writer that can flush, RecordMetrics
-- adds exactly one request and one duration. Their label is the request's path less its leading
-- slash if the path is on the allowlist, and "other" if not; the status is that of the answer that
-- the handler's calls make, 200 where it made none, also if it panicked then and no answer is
-- sent; the code is the bucket of the status, or "aborted" where the handler panicked. It leaves
-- the rest of the bundle alone and hands every call on to the writer, in order.
pub record_metrics-Recorded :
    (path : Bytes) (calls : List WriterCall) (completed : Bool) (elapsed : Duration) (m : Metrics)
    → IsSettled calls
    → (m' : Metrics) × (record_metrics path calls true completed elapsed (some m)
        ≡ (some m', calls))
      × Recorded path (answered calls) completed elapsed m m'
unfolding record_metrics new_recorder
record_metrics-Recorded path calls completed elapsed m settled = (
  observe path (answered calls) completed elapsed m,
  rw (run_handler-answered calls true settled)
      (rw (run_handler-inner calls (new_recorder true) refl) refl),
  observe-Recorded path (answered calls) completed elapsed m,
)
