-- ===== src/WebhookCore/Dedup/History.antt =====
-- Histories of dedup.go's cache: messages recorded and rolled back by any number of scopes.
use contextmatrix_backendkit.Prelude.{
  ℕ, suc, ◌+◌, ◌≡◌, sym, ◌∙◌, ◌∷◌, [], List, true, false, Bytes, is_empty, arith, All, inl, inr,
  Bool-cases,
}
use native.Mathlib.Nat.{add-zero}
use native.Mathlib.Numerals.{add-one}
use contextmatrix_backendkit.Prelude.Int.{ℤ}
use contextmatrix_backendkit.GoTime.{Duration, Time}
use contextmatrix_backendkit.WebhookCore.Store.Laws.{Distinct}
use contextmatrix_backendkit.WebhookCore.Replay.{ReplayEntry}
use contextmatrix_backendkit.WebhookCore.Replay.Window.{Window, entry_key, check}
use contextmatrix_backendkit.WebhookCore.Replay.Protection.{
  Held, Held-suc, Held-erase, Held-check, Held-accepted, check-Held, Room, InTime,
}
use contextmatrix_backendkit.WebhookCore.Dedup.{DedupCache, dedup_key, check_and_record, rollback}
use contextmatrix_backendkit.WebhookCore.Dedup.Refines.{
  window, forget, check_message, window-rollback,
}
use contextmatrix_backendkit.WebhookCore.Dedup.Delivery.{
  NulFree, dedup_key-injective, IsSound, verdict, window-check_and_record, rollback-IsSound,
  check_and_record-IsSound, check-settings,
}

pub data Call : Type 0 where
  records : Bytes → Bytes → Time → Call
  rolls : Bytes → Bytes → Call

unfoldable pub step : Call → DedupCache → DedupCache
step (records scope message_id now) c = (check_and_record scope message_id now c).0
step (rolls scope message_id) c = rollback scope message_id c

unfoldable pub run : List Call → DedupCache → DedupCache
run [] c = c
run (call ∷ calls) c = run calls (step call c)

abbrev pub cost : Call → ℕ
cost (records scope message_id now) = 1
cost (rolls scope message_id) = 0

-- How many messages a history records.
abbrev pub count_records : List Call → ℕ
count_records [] = 0
count_records (call ∷ calls) = cost call + count_records calls

pub step-IsSound : (call : Call) (c : DedupCache) → IsSound c → IsSound (step call c)
unfolding step
step-IsSound (records scope message_id now) c sound =
    check_and_record-IsSound scope message_id now c sound
step-IsSound (rolls scope message_id) c sound = rollback-IsSound scope message_id c sound

module _ (ttl : Duration) (capacity : ℤ) (scope message_id : Bytes) (seen : Time) where
  abbrev entry : ReplayEntry
  entry = record { key = dedup_key scope message_id; seen = seen }

  -- The call comes while the message's ttl lasts, and does not roll the message back.
  abbrev pub Keeps : Call → Type 0
  Keeps (records scope' message_id' now) = InTime ttl seen now
  Keeps (rolls scope' message_id') =
      NulFree scope' × ¬ ((scope' ≡ scope) × (message_id' ≡ message_id))

  record Remembers (n : ℕ) (w : Window) : Type 0 where
    same_ttl : w.ttl ≡ ttl
    same_capacity : w.capacity ≡ capacity
    held : Held entry n w.entries

  records-Remembers :
      (scope' message_id' : Bytes) (now : Time) (n : ℕ) (w : Window)
      → Distinct entry_key w.entries
      → InTime ttl seen now
      → Room capacity (suc n)
      → Remembers n w
      → Remembers (suc n) (check_message scope' message_id' now w).0
  records-Remembers scope' message_id' now n w d time room r =
      let settings = check-settings scope' message_id' now w in
      record {
        same_ttl = settings.0 ∙ r.same_ttl;
        same_capacity = settings.1 ∙ r.same_capacity;
        held = elim (Bool-cases (is_empty message_id')) [
          | inl e ↦ rw e (Held-suc entry n w.entries r.held)
          | inr e ↦ rw e (
              Held-check entry w (dedup_key scope' message_id') now n d r.held
                (rw r.same_capacity room) (rw r.same_ttl time))
        ];
      }

  rolls-Remembers :
      (scope' message_id' : Bytes) (n : ℕ) (w : Window)
      → NulFree scope
      → NulFree scope'
      → ¬ ((scope' ≡ scope) × (message_id' ≡ message_id))
      → Remembers n w
      → Remembers n (forget scope' message_id' w)
  rolls-Remembers scope' message_id' n w free free' other r =
      let kept =
        Held-erase entry (dedup_key scope' message_id') n w.entries
          (λ e. other (dedup_key-injective scope' scope message_id' message_id free' free e))
          r.held in
      ground (arith, r.same_ttl, r.same_capacity, r.held, kept)

  module _ (free : NulFree scope) where
    step-Remembers :
        (call : Call) (c : DedupCache) (n : ℕ)
        → IsSound c
        → Keeps call
        → Room capacity (n + cost call)
        → Remembers n (window c)
        → Remembers (n + cost call) (window (step call c))
    unfolding step
    step-Remembers (records scope' message_id' now) c n sound time room r =
        rw (window-check_and_record scope' message_id' now c sound, add-one)
          (records-Remembers scope' message_id' now n (window c) sound.valid.distinct time
            (rw add-one at room) r)
    step-Remembers (rolls scope' message_id') c n sound other room r =
        rw (window-rollback scope' message_id' c sound.valid, add-zero)
          (rolls-Remembers scope' message_id' n (window c) free other.0 other.1 r)

    run-Remembers :
        (calls : List Call) (c : DedupCache) (n : ℕ)
        → IsSound c
        → All Keeps calls
        → Room capacity (n + count_records calls)
        → Remembers n (window c)
        → IsSound (run calls c) × Remembers (n + count_records calls) (window (run calls c))
    unfolding run
    run-Remembers [] c n sound keeps room r = (sound, rw add-zero r)
    run-Remembers (call ∷ calls) c n sound keeps room r =
        let regroup : n + (cost call + count_records calls) ≡ n + cost call + count_records calls =
          omega arith in
        rw regroup (
          run-Remembers calls (step call c) (n + cost call) (step-IsSound call c sound) keeps.1
            (rw regroup at room) (step-Remembers call c n sound keeps.0 (omega arith) r))

-- A message that was recorded is acked as a duplicate while its ttl lasts, whatever is recorded or
-- rolled back in between, if that is no rollback of the message itself and fewer messages are
-- recorded than the capacity. Its scope and those that are rolled back hold no NUL.
pub recorded_acked :
    (scope message_id : Bytes) (first later : Time) (c : DedupCache) (calls : List Call)
    → IsSound c
    → NulFree scope
    → is_empty message_id ≡ false
    → (check_and_record scope message_id first c).1 ≡ false
    → All (Keeps c.ttl c.capacity scope message_id first) calls
    → Room c.capacity (count_records calls)
    → InTime c.ttl first later
    → (check_and_record scope message_id later
        (run calls (check_and_record scope message_id first c).0)).1
      ≡ true
recorded_acked scope message_id first later c calls sound free some_id fresh keeps room last =
    let key = dedup_key scope message_id in
    let c' = (check_and_record scope message_id first c).0 in
    let settings = check-settings scope message_id first (window c) in
    let non_empty : (now : Time) (w : Window)
        → (check_message scope message_id now w).1 ≡ (check key now w).1 =
      λ now w. rw some_id in
    let accepted : (check key first (window c)).1 ≡ false =
      sym (non_empty first (window c)) ∙ sym (verdict scope message_id first c sound) ∙ fresh in
    let start : Remembers c.ttl c.capacity scope message_id first 0 (window c') =
      rw (window-check_and_record scope message_id first c sound) (record {
        same_ttl = settings.0;
        same_capacity = settings.1;
        held = rw some_id (Held-accepted key first (window c) (omega arith) accepted);
      }) in
    let (kept, r) =
      run-Remembers c.ttl c.capacity scope message_id first free calls c' 0
        (check_and_record-IsSound scope message_id first c sound) keeps (omega arith) start in
    verdict scope message_id later (run calls c') kept
    ∙ non_empty later (window (run calls c'))
    ∙ check-Held (entry c.ttl c.capacity scope message_id first) (window (run calls c')) later
        (0 + count_records calls) kept.valid.distinct r.held (rw r.same_ttl last)
