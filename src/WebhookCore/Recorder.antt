-- ===== src/WebhookCore/Recorder.antt =====
-- The metrics middleware, webhookcore/recorder.go. A handler is the calls that it makes on its
-- ResponseWriter and whether it returns; a panic is not recovered.
pub mod Statuses
pub mod Labels
mod Examples
use contextmatrix_backendkit.Prelude.{
  ℕ, List, [], ◌∷◌, ◌++◌, Option, none, some, Bool, true, false, not, Bytes, bytes, if◌then◌else◌,
  ltb, leb, holds?, ℕ_discrete,
}
use contextmatrix_backendkit.GoTime.{Duration}
use contextmatrix_backendkit.GoStrings.{slash, itoa}
use contextmatrix_backendkit.Metrics.{RequestLabels, Metrics, normalize_endpoint}

pub data WriterCall : Type 0 where
  header : ℕ → WriterCall
  body : Bytes → WriterCall
  flush : WriterCall

-- `inner` is what reached the wrapped ResponseWriter, in order; `can_flush` is whether it
-- is a Flusher.
pub record StatusRecorder : Type 0 where
  pub status : ℕ
  pub wrote : Bool
  pub inner : List WriterCall
  pub can_flush : Bool

unfoldable pub new_recorder : Bool → StatusRecorder
new_recorder can_flush = record { status = 200; wrote = false; inner = []; can_flush = can_flush }

unfoldable pub write_header : ℕ → StatusRecorder → StatusRecorder
write_header code sr =
    let noted = if sr.wrote then sr else record sr { status = code; wrote = true } in
    record noted { inner = sr.inner ++ header code ∷ [] }

unfoldable pub write_body : Bytes → StatusRecorder → StatusRecorder
write_body b sr =
    let noted = if sr.wrote then sr else record sr { status = 200; wrote = true } in
    record noted { inner = sr.inner ++ body b ∷ [] }

unfoldable pub flush_writer : StatusRecorder → StatusRecorder
flush_writer sr = if sr.can_flush then record sr { inner = sr.inner ++ flush ∷ [] } else sr

unfoldable pub call_writer : WriterCall → StatusRecorder → StatusRecorder
unfolding write_header write_body flush_writer
call_writer (header code) sr = write_header code sr
call_writer (body b) sr = write_body b sr
call_writer flush sr = flush_writer sr

-- `next(sr, r)`
unfoldable pub run_handler : List WriterCall → StatusRecorder → StatusRecorder
unfolding call_writer
run_handler [] sr = sr
run_handler (c ∷ calls) sr = run_handler calls (call_writer c sr)

-- The label without its leading slash.
unfoldable pub strip_slash : Bytes → Bytes
strip_slash [] = []
strip_slash (c ∷ s) = if holds? (ℕ_discrete c slash) then s else c ∷ s

-- `code` in the deferred function.
unfoldable pub outcome_code : ℕ → Bool → Bytes
outcome_code status completed =
    let code = if leb 400 status then bytes "error" else bytes "success" in
    let code' = if holds? (ℕ_discrete status 429) then bytes "rate_limited" else code in
    if not completed then bytes "aborted" else code'

-- The deferred function; `elapsed` is time.Since(start).
unfoldable pub observe : Bytes → ℕ → Bool → Duration → Metrics → Metrics
unfolding strip_slash outcome_code
observe path status completed elapsed m =
    let endpoint = strip_slash (normalize_endpoint path m) in
    let labels : RequestLabels = record {
      endpoint = endpoint;
      status = itoa status;
      code = outcome_code status completed;
    } in
    record m {
      webhook_requests_total = labels ∷ m.webhook_requests_total;
      webhook_request_duration = (endpoint, elapsed) ∷ m.webhook_request_duration;
    }

-- RecordMetrics around a handler: the bundle, and the calls that reached the ResponseWriter.
unfoldable pub record_metrics :
    Bytes
    → List WriterCall
    → Bool
    → Bool
    → Duration
    → Option Metrics
    → Option Metrics × List WriterCall
unfolding run_handler observe new_recorder
record_metrics path calls can_flush completed elapsed none = (none, calls)
record_metrics path calls can_flush completed elapsed (some m) =
    let sr = run_handler calls (new_recorder can_flush) in
    (some (observe path sr.status completed elapsed m), sr.inner)
