-- ===== src/WebhookCore/Replay/Bounds.antt =====
-- Limits of replay.go's cache: its size, the end of an entry's life, and the janitor's interval.
use contextmatrix_backendkit.Prelude.{
  ◌-◌, ◌≤◌, ◌≡◌, ◌≢◌, refl, ap, sym, subst, ◌*◌, ◌∙◌, ◌++◌, ◌∷◌, [], List, true, false, Bytes,
  arith, ◌⊎◌, length, length-drop, All, none,
}
use contextmatrix_backendkit.Prelude.Int.{
  ℤ, pos, pos_part, ◌-ℤ◌, ◌+ℤ◌, ◌<ℤ◌, ◌≤ℤ◌, -ℤ_parts, +ℤ_parts,
}
use contextmatrix_backendkit.GoTime.{Duration, Time, max_duration, second}
use contextmatrix_backendkit.WebhookCore.Store.{new, len}
use contextmatrix_backendkit.WebhookCore.Store.Laws.{view, find_value, erase_value, Distinct}
use contextmatrix_backendkit.WebhookCore.Store.Evict.{len-view}
use contextmatrix_backendkit.WebhookCore.Replay.{
  ReplayEntry, ReplayCache, new_replay_cache, replay_sweep_interval, check_and_insert, replay_key,
  sweep,
}
use contextmatrix_backendkit.WebhookCore.Replay.Window.{
  Window, entry_key, bounded, accept, check, after, expire,
}
use contextmatrix_backendkit.WebhookCore.Replay.Refines.{window}
use contextmatrix_backendkit.WebhookCore.Replay.Expiry.{sweep-expire}
use contextmatrix_backendkit.WebhookCore.Replay.Calls.{
  Call, checks, sweeps, raises, step, run, window_step, raise, IsFinite, IsSound, step-IsSound,
  window-step,
}
use contextmatrix_backendkit.WebhookCore.Replay.Rejection.{duplicate-check}
use contextmatrix_backendkit.WebhookCore.Replay.Acceptance.{new_replay_cache-IsSound}

-- No more entries than a positive capacity.
abbrev Fits : ℤ → Window → Type 0
Fits capacity w =
    (w.capacity ≡ capacity) × ((capacity ≤ℤ pos 0) ⊎ (length w.entries ≤ pos_part capacity))

length-after-le : (cutoff : Time) (es : List ReplayEntry) → length (after cutoff es) ≤ length es
unfolding after
length-after-le cutoff [] = omega arith
length-after-le cutoff (e ∷ es) = ground (arith, length-after-le cutoff es)

accept-Fits :
    (key : Bytes) (now : Time) (es : List ReplayEntry) (w : Window) (capacity : ℤ)
    → w.capacity ≡ capacity
    → Fits capacity (accept key now es w).0
unfolding accept bounded
accept-Fits key now es w capacity e =
    let all = es ++ record { key = key; seen = now } ∷ [] in
    ground (arith, length-drop (length all - pos_part w.capacity) all)

check-Fits :
    (key : Bytes) (now : Time) (w : Window) (capacity : ℤ)
    → Fits capacity w
    → Fits capacity (check key now w).0
unfolding check
check-Fits key now w capacity fits = ground (
  arith,
  accept-Fits key now w.entries w capacity fits.0,
  accept-Fits key now (erase_value entry_key key w.entries) w capacity fits.0,
)

window_step-Fits :
    (call : Call) (w : Window) (capacity : ℤ) → Fits capacity w → Fits capacity (window_step call w)
unfolding window_step expire raise
window_step-Fits (checks t s now) w capacity fits = check-Fits (replay_key t s) now w capacity fits
window_step-Fits (sweeps now) w capacity fits =
    ground (arith, length-after-le (now -ℤ w.ttl) w.entries)
window_step-Fits (raises floor) w capacity fits = ground arith

run-Fits :
    (calls : List Call) (c : ReplayCache) (capacity : ℤ)
    → IsSound c
    → All IsFinite calls
    → Fits capacity (window c)
    → Fits capacity (window (run calls c))
unfolding run
run-Fits [] c capacity sound fin fits = fits
run-Fits (call ∷ calls) c capacity sound fin fits =
    run-Fits calls (step call c) capacity (step-IsSound call c sound fin.0) fin.1 (
      subst (Fits capacity) (sym (window-step call c sound))
        (window_step-Fits call (window c) capacity fits))

start-Fits :
    (ttl : Duration) (capacity : ℤ) → Fits capacity (window (new_replay_cache ttl capacity))
unfolding new_replay_cache view new
start-Fits ttl capacity = (refl, ground arith)

-- After any history a cache with a positive capacity holds at most that many entries.
pub len-run-le :
    (ttl : Duration) (capacity : ℤ) (calls : List Call)
    → ttl <ℤ max_duration
    → All IsFinite calls
    → pos 0 <ℤ capacity
    → len (run calls (new_replay_cache ttl capacity)).store ≤ pos_part capacity
len-run-le ttl capacity calls finite fin positive =
    let c = new_replay_cache ttl capacity in
    let start : Fits capacity (window c) = start-Fits ttl capacity in
    let fits = run-Fits calls c capacity (new_replay_cache-IsSound ttl capacity finite) fin start in
    omega (arith, fits, len-view entry_key (run calls c).store)

find_value-after-none :
    (k : Bytes) (cutoff : Time) (es : List ReplayEntry)
    → find_value entry_key k es ≡ none
    → find_value entry_key k (after cutoff es) ≡ none
unfolding find_value after
find_value-after-none k cutoff [] h = refl
find_value-after-none k cutoff (e ∷ es) h = ground (arith, find_value-after-none k cutoff es)

module _ (key : Bytes) (now : Time) (w : Window) (e : ReplayEntry) (es : List ReplayEntry)
    (positive : pos 0 <ℤ w.ttl) where
  check_edge : w.entries ≡ e ∷ es → e.key ≡ key → now ≡ e.seen +ℤ w.ttl → (check key now w).1 ≡ true
  unfolding check find_value
  check_edge front same edge = ground (arith, -ℤ_parts now e.seen, +ℤ_parts e.seen w.ttl)

  expire_edge :
      Distinct entry_key w.entries
      → w.entries ≡ e ∷ es
      → e.key ≡ key
      → now ≡ e.seen +ℤ w.ttl
      → (check key now (expire now w)).1 ≡ false
  unfolding check expire accept after find_value
  expire_edge distinct front same edge = ground (
    arith,
    -ℤ_parts now w.ttl,
    +ℤ_parts e.seen w.ttl,
    find_value-after-none key (now -ℤ w.ttl) es,
    (subst (Distinct entry_key) front distinct).0,
  )

-- The two ways in which an entry ends differ by one instant: at an age of exactly the ttl a check
-- still finds the oldest entry, and a sweep drops it, so that the check after it accepts the pair.
pub sweep_ends_early :
    (t s : Bytes) (now : Time) (c : ReplayCache) (e : ReplayEntry) (es : List ReplayEntry)
    → IsSound c
    → pos 0 <ℤ c.ttl
    → view c.store ≡ e ∷ es
    → e.key ≡ replay_key t s
    → now ≡ e.seen +ℤ c.ttl
    → ((check_and_insert t s now c).1 ≡ true) × ((check_and_insert t s now (sweep now c)).1 ≡ false)
unfolding step
sweep_ends_early t s now c e es sound positive front same edge =
    let swept = step-IsSound (sweeps now) c sound tt in
    (
      duplicate-check t s now c sound
          ∙ check_edge (replay_key t s) now (window c) e es positive front same edge,
      duplicate-check t s now (sweep now c) swept
          ∙ ap (λ w. (check (replay_key t s) now w).1) (sweep-expire now c sound.valid)
          ∙ expire_edge (replay_key t s) now (window c) e es positive sound.valid.distinct front
              same edge,
    )

-- The interval is positive and at most a minute, unless the ttl is one nanosecond.
pub replay_sweep_interval_bounds :
    (ttl : Duration)
    → ttl ≢ pos 1
    → (pos 0 <ℤ replay_sweep_interval ttl) × (replay_sweep_interval ttl ≤ℤ pos (60 * second))
unfolding replay_sweep_interval
replay_sweep_interval_bounds ttl h = ground arith
