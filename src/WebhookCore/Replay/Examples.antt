-- ===== src/WebhookCore/Replay/Examples.antt =====
-- Runs of the replay cache, and its theorems at concrete histories.
use contextmatrix_backendkit.Prelude.{
  Bool, ◌≡◌, refl, ◌∷◌, [], List, true, false, Bytes, bytes, bytes_dec, arith, ℕ_discrete, ◌≤◌,
}
use contextmatrix_backendkit.Prelude.Int.{pos, ◌+ℤ◌, ◌-ℤ◌, ◌<ℤ◌, ◌≤ℤ◌}
use contextmatrix_backendkit.Prelude.Assoc.{lookup, insert, delete}
use contextmatrix_backendkit.GoTime.{Time, since}
use contextmatrix_backendkit.WebhookCore.Store.{
  new, find, push, remove, unlink, drop_front, evict, len,
}
use contextmatrix_backendkit.WebhookCore.Store.Laws.{view}
use contextmatrix_backendkit.WebhookCore.Replay.{
  ReplayEntry, ReplayCache, new_replay_cache, ensure_min_ttl, replay_sweep_interval, replay_key,
  is_live, insert_fresh, check_and_insert, sweep_loop, sweep, janitor, tick, stop,
}
use contextmatrix_backendkit.WebhookCore.Replay.Window.{Window, check, expire}
use contextmatrix_backendkit.WebhookCore.Replay.Refines
use contextmatrix_backendkit.WebhookCore.Replay.Refines.{window}
use contextmatrix_backendkit.WebhookCore.Replay.Expiry
use contextmatrix_backendkit.WebhookCore.Replay.Calls
use contextmatrix_backendkit.WebhookCore.Replay.Calls.{
  Call, checks, sweeps, raises, step, run, IsSound,
}
use contextmatrix_backendkit.WebhookCore.Replay.Rejection
use contextmatrix_backendkit.WebhookCore.Replay.Acceptance
use contextmatrix_backendkit.WebhookCore.Replay.Acceptance.{Checked, new_replay_cache-IsSound}
use contextmatrix_backendkit.WebhookCore.Replay.Protection.{InTime}
use contextmatrix_backendkit.WebhookCore.Replay.Bounds

program : Unit {0}
unfolding new find push remove unlink drop_front evict new_replay_cache ensure_min_ttl
    replay_sweep_interval replay_key is_live insert_fresh check_and_insert sweep_loop sweep janitor
    run step lookup insert delete since bytes_dec ℕ_discrete ◌-ℤ◌ ◌+ℤ◌ view
program = tt

abbrev small : ReplayCache
small = new_replay_cache (pos 10) (pos 2)

abbrev t1 : Bytes
t1 = bytes "1700000000"

abbrev s1 : Bytes
s1 = bytes "ab12"

abbrev s2 : Bytes
s2 = bytes "cd34"

abbrev history : List Call
history = checks t1 s2 (pos 5) ∷ sweeps (pos 9) ∷ raises (pos 20) ∷ []

small-IsSound : IsSound small
small-IsSound = new_replay_cache-IsSound (pos 10) (pos 2) (omega arith)

fresh : (check_and_insert t1 s1 (pos 0) small).1 ≡ false
unfolding program
fresh = refl

replay_rejected_example :
    (check_and_insert t1 s1 (pos 10) (run history (check_and_insert t1 s1 (pos 0) small).0)).1
    ≡ true
unfolding new_replay_cache ◌-ℤ◌
replay_rejected_example =
    Rejection.replay_rejected t1 s1 (pos 0) (pos 10) small history small-IsSound fresh (omega arith)
      (omega arith) (omega arith) (omega arith)

-- Three pairs at a capacity of two: the oldest is evicted, and its replay is accepted.
evicted :
    (check_and_insert t1 s1
      (pos 3)
      (run (checks t1 s1 (pos 0) ∷ checks t1 s2 (pos 1) ∷ checks s2 s2 (pos 2) ∷ []) small)).1
    ≡ false
unfolding program
evicted = refl

janitor_stops :
    (janitor
      (tick (pos 30) ∷ stop ∷ tick (pos 60) ∷ [])
      (step (checks t1 s1 (pos 25)) small)).store.next_id
    ≡ 1
unfolding program
janitor_stops = refl

duplicate : (check_and_insert t1 s1 (pos 7) (run (checks t1 s1 (pos 0) ∷ history) small)).1 ≡ true
unfolding program
duplicate = refl

check_and_insert-Checked_example :
    (seen : Time) × Checked t1 s1 seen (checks t1 s1 (pos 0) ∷ history)
    × InTime (run (checks t1 s1 (pos 0) ∷ history) small).ttl seen (pos 7)
check_and_insert-Checked_example =
    Acceptance.check_and_insert-Checked (pos 10) (pos 2) (checks t1 s1 (pos 0) ∷ history) t1 s1
      (pos 7) (omega arith) (omega arith) (omega arith) (omega arith) duplicate

len-run-le_example : len (run (checks t1 s1 (pos 0) ∷ history) small).store ≤ 2
len-run-le_example =
    Bounds.len-run-le (pos 10) (pos 2) (checks t1 s1 (pos 0) ∷ history) (omega arith) (omega arith)
      (omega arith)

one : ReplayCache
unfolding step
one = step (checks t1 s1 (pos 0)) small

first_entry : ReplayEntry
unfolding replay_key
first_entry = record { key = replay_key t1 s1; seen = pos 0 }

sweep_ends_early_example :
    ((check_and_insert t1 s1 (pos 10) one).1 ≡ true)
    × ((check_and_insert t1 s1 (pos 10) (sweep (pos 10) one)).1 ≡ false)
unfolding one first_entry program
sweep_ends_early_example =
    Bounds.sweep_ends_early t1 s1 (pos 10) one first_entry []
      (Calls.step-IsSound (checks t1 s1 (pos 0)) small small-IsSound tt) (omega arith) refl refl
      refl

replay_sweep_interval_bounds_example :
    (pos 0 <ℤ replay_sweep_interval (pos 10))
    × (replay_sweep_interval (pos 10) ≤ℤ pos 60_000_000_000)
replay_sweep_interval_bounds_example = Bounds.replay_sweep_interval_bounds (pos 10) (λ e. cc)

check_and_insert-check_example :
    let (c', d) = check_and_insert t1 s1 (pos 7) one in
    let r : Window × Bool = (window c', d) in r ≡ check (replay_key t1 s1) (pos 7) (window one)
unfolding one program
check_and_insert-check_example =
    Refines.check_and_insert-check t1 s1 (pos 7) one
      (Calls.step-IsSound (checks t1 s1 (pos 0)) small small-IsSound tt).valid (omega arith)

sweep-expire_example : window (sweep (pos 30) one) ≡ expire (pos 30) (window one)
unfolding one
sweep-expire_example =
    Expiry.sweep-expire (pos 30) one
      (Calls.step-IsSound (checks t1 s1 (pos 0)) small small-IsSound tt).valid
