-- ===== src/WebhookCore/Recorder/Statuses.antt =====
-- The status that webhookcore/recorder.go notes, and the one that the client gets.
use contextmatrix_backendkit.Prelude.{
  ℕ, zero, suc, ◌≡◌, refl, ap, List, [], ◌∷◌, ◌++◌, append_assoc, append-nil, sym, ◌∙◌, Bool, true,
  false, not, ◌&&◌, arith, if◌then◌else◌, ltb, leb, holds?, ℕ_discrete,
}
use contextmatrix_backendkit.WebhookCore.Recorder.{
  WriterCall, header, body, flush, StatusRecorder, new_recorder, write_header, write_body,
  flush_writer, call_writer, run_handler,
}

-- A status that net/http sends ahead of the answer, which it does not end.
abbrev pub is_informational : ℕ → Bool
is_informational code = leb 100 code && ltb code 200 && not (holds? (ℕ_discrete code 101))

-- The status of the answer that net/http's server sends for a handler's calls: that of the first
-- WriteHeader that is not informational, and 200 where a Write, a Flush or the end comes before.
unfoldable pub answered : List WriterCall → ℕ
answered [] = 200
answered (header code ∷ calls) =
    let rest = answered calls in if is_informational code then rest else code
answered (body b ∷ calls) = 200
answered (flush ∷ calls) = 200

-- The first call settles the answer, and is no Flush.
abbrev pub IsSettled : List WriterCall → Type 0
IsSettled [] = Unit {0}
IsSettled (header code ∷ calls) = is_informational code ≡ false
IsSettled (body b ∷ calls) = Unit {0}
IsSettled (flush ∷ calls) = ⊥

-- Once noted, a status stays.
run_handler-wrote :
    (calls : List WriterCall) (sr : StatusRecorder)
    → sr.wrote ≡ true
    → (run_handler calls sr).status ≡ sr.status
unfolding run_handler call_writer write_header write_body flush_writer
run_handler-wrote [] sr h = refl
run_handler-wrote (header code ∷ calls) sr h =
    ground (arith, run_handler-wrote calls (write_header code sr))
run_handler-wrote (body b ∷ calls) sr h = ground (arith, run_handler-wrote calls (write_body b sr))
run_handler-wrote (flush ∷ calls) sr h = ground (arith, run_handler-wrote calls (flush_writer sr))

header_first :
    (code : ℕ) (calls : List WriterCall) (can_flush : Bool)
    → (run_handler (header code ∷ calls) (new_recorder can_flush)).status ≡ code
unfolding run_handler call_writer write_header new_recorder
header_first code calls can_flush =
    ground (arith, run_handler-wrote calls (write_header code (new_recorder can_flush)))

-- The recorder notes the status that the client gets, if the handler's first call is a Write, or a
-- WriteHeader that is not informational, or if it makes none.
pub run_handler-answered :
    (calls : List WriterCall) (can_flush : Bool)
    → IsSettled calls
    → (run_handler calls (new_recorder can_flush)).status ≡ answered calls
unfolding run_handler call_writer write_body new_recorder answered
run_handler-answered [] can_flush h = refl
run_handler-answered (header code ∷ calls) can_flush h =
    ground (arith, header_first code calls can_flush)
run_handler-answered (body b ∷ calls) can_flush h =
    run_handler-wrote calls (write_body b (new_recorder can_flush)) refl
run_handler-answered (flush ∷ calls) can_flush h = absurd h

-- `n` calls of Flush, then others.
unfoldable pub flushed : ℕ → List WriterCall → List WriterCall
flushed zero calls = calls
flushed (suc n) calls = flush ∷ flushed n calls

flushed-header :
    (n late : ℕ) (calls : List WriterCall) (sr : StatusRecorder)
    → sr.wrote ≡ false
    → (run_handler (flushed n (header late ∷ calls)) sr).status ≡ late
unfolding run_handler call_writer write_header flush_writer flushed
flushed-header zero late calls sr h =
    run_handler-wrote calls (write_header late sr) (ground arith) ∙ ground arith
flushed-header (suc n) late calls sr h =
    flushed-header n late calls (flush_writer sr) (ground arith)

-- A handler whose first call is an informational WriteHeader has that status noted, while the
-- client gets the answer of the calls behind it; and one that begins with one or more Flushes and
-- then a WriteHeader has that WriteHeader's status noted, whatever it is, while the client gets
-- 200.
pub run_handler-early :
    (early late n : ℕ) (calls : List WriterCall)
    → is_informational early ≡ true
    → ((run_handler (header early ∷ calls) (new_recorder true)).status ≡ early)
      × (answered (header early ∷ calls) ≡ answered calls)
      × ((run_handler (flushed (suc n) (header late ∷ calls)) (new_recorder true)).status ≡ late)
      × (answered (flushed (suc n) (header late ∷ calls)) ≡ 200)
unfolding new_recorder answered flushed
run_handler-early early late n calls h = (
  header_first early calls true,
  ground arith,
  flushed-header (suc n) late calls (new_recorder true) refl,
  refl,
)

call_writer-inner :
    (c : WriterCall) (sr : StatusRecorder)
    → sr.can_flush ≡ true
    → ((call_writer c sr).inner ≡ sr.inner ++ c ∷ []) × ((call_writer c sr).can_flush ≡ true)
unfolding call_writer write_header write_body flush_writer
call_writer-inner (header code) sr h = ground arith
call_writer-inner (body b) sr h = ground arith
call_writer-inner flush sr h = ground arith

-- Every call reaches the wrapped writer, in order.
pub run_handler-inner :
    (calls : List WriterCall) (sr : StatusRecorder)
    → sr.can_flush ≡ true
    → (run_handler calls sr).inner ≡ sr.inner ++ calls
unfolding run_handler
run_handler-inner [] sr h = sym (append-nil sr.inner)
run_handler-inner (c ∷ calls) sr h =
    let (moved, still) = call_writer-inner c sr h in
    run_handler-inner calls (call_writer c sr) still
    ∙ ap (λ cs. cs ++ calls) moved
    ∙ append_assoc sr.inner (c ∷ []) calls
