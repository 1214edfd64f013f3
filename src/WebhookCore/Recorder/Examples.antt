-- ===== src/WebhookCore/Recorder/Examples.antt =====
-- Requests through the metrics middleware.
use contextmatrix_backendkit.Prelude.{
  ◌≡◌, refl, List, [], ◌∷◌, some, true, bytes, bytes_dec, ℕ_discrete,
}
use contextmatrix_backendkit.Prelude.Int.{pos}
use contextmatrix_backendkit.GoStrings.{itoa}
use contextmatrix_backendkit.Metrics.{Metrics, new_metrics, has_endpoint, normalize_endpoint}
use contextmatrix_backendkit.WebhookCore.Recorder.{
  WriterCall, header, body, flush, new_recorder, write_header, write_body, flush_writer,
  call_writer, run_handler, strip_slash, outcome_code, observe, record_metrics,
}
use contextmatrix_backendkit.WebhookCore.Recorder.Statuses
use contextmatrix_backendkit.WebhookCore.Recorder.Statuses.{answered, flushed}
use contextmatrix_backendkit.WebhookCore.Recorder.Labels
use contextmatrix_backendkit.WebhookCore.Recorder.Labels.{Recorded}

program : Unit {0}
unfolding has_endpoint normalize_endpoint new_recorder write_header write_body flush_writer
    call_writer run_handler strip_slash outcome_code observe record_metrics answered bytes_dec
    ℕ_discrete itoa
program = tt

abbrev metrics : Metrics
metrics = new_metrics (bytes "cm") (bytes "/trigger" ∷ bytes "/logs" ∷ [])

abbrev conflict : List WriterCall
conflict = header 429 ∷ body (bytes "{}") ∷ []

limited : (run_handler conflict (new_recorder true)).status ≡ 429
unfolding program
limited = refl

record_metrics-Recorded_example :
    (m' : Metrics) × (record_metrics (bytes "/trigger") conflict true true (pos 3) (some metrics)
      ≡ (some m', conflict))
    × Recorded (bytes "/trigger") (answered conflict) true (pos 3) metrics m'
record_metrics-Recorded_example =
    Labels.record_metrics-Recorded (bytes "/trigger") conflict true (pos 3) metrics refl

run_handler-early_example :
    ((run_handler (header 103 ∷ header 404 ∷ []) (new_recorder true)).status ≡ 103)
    × (answered (header 103 ∷ header 404 ∷ []) ≡ answered (header 404 ∷ []))
    × ((run_handler (flush ∷ flush ∷ header 500 ∷ header 404 ∷ []) (new_recorder true)).status
        ≡ 500)
    × (answered (flush ∷ flush ∷ header 500 ∷ header 404 ∷ []) ≡ 200)
unfolding program flushed
run_handler-early_example = Statuses.run_handler-early 103 500 1 (header 404 ∷ []) refl
