-- ===== src/WebhookCore/Replay/Calls.antt =====
-- Histories of a replay cache: the requests that the middleware checks, the janitor's sweeps, and
-- the cores that raise the ttl of a cache that they share.
use contextmatrix_backendkit.Prelude.{
  ◌≡◌, ap, ◌∷◌, [], List, Bool, ◌&&◌, if◌then◌else◌, Bytes, arith,
}
use contextmatrix_backendkit.Prelude.Int.{pos, ltb_ℤ, ◌<ℤ◌}
use contextmatrix_backendkit.GoTime.{Duration, Time, max_duration}
use contextmatrix_backendkit.WebhookCore.Replay.{
  ReplayCache, ensure_min_ttl, replay_key, check_and_insert, sweep,
}
use contextmatrix_backendkit.WebhookCore.Replay.Window.{Window, check, expire}
use contextmatrix_backendkit.WebhookCore.Replay.Refines.{
  IsValid, window, check_and_insert-IsValid, check_and_insert-check,
}
use contextmatrix_backendkit.WebhookCore.Replay.Expiry.{sweep-IsValid, sweep-expire}

pub data Call : Type 0 where
  checks : Bytes → Bytes → Time → Call
  sweeps : Time → Call
  raises : Duration → Call

unfoldable pub step : Call → ReplayCache → ReplayCache
step (checks timestamp signature now) c = (check_and_insert timestamp signature now c).0
step (sweeps now) c = sweep now c
step (raises floor) c = ensure_min_ttl floor c

unfoldable pub run : List Call → ReplayCache → ReplayCache
run [] c = c
run (call ∷ calls) c = run calls (step call c)

-- The same on windows.
unfoldable pub raise : Duration → Window → Window
raise floor w = if ltb_ℤ (pos 0) w.ttl && ltb_ℤ w.ttl floor then record w { ttl = floor } else w

unfoldable pub window_step : Call → Window → Window
window_step (checks timestamp signature now) w = (check (replay_key timestamp signature) now w).0
window_step (sweeps now) w = expire now w
window_step (raises floor) w = raise floor w

unfoldable pub window_run : List Call → Window → Window
window_run [] w = w
window_run (call ∷ calls) w = window_run calls (window_step call w)

-- A floor that an int64 holds and saturation does not meet.
abbrev pub IsFinite : Call → Type 0
IsFinite (raises floor) = floor <ℤ max_duration
IsFinite _ = Unit {0}

-- What a run keeps.
pub record IsSound (c : ReplayCache) : Type 0 where
  pub valid : IsValid c
  pub finite : c.ttl <ℤ max_duration

ttl-check_and_insert :
    (timestamp signature : Bytes) (now : Time) (c : ReplayCache)
    → (check_and_insert timestamp signature now c).0.ttl ≡ c.ttl
unfolding check_and_insert
ttl-check_and_insert timestamp signature now c = ground arith

ttl-sweep : (now : Time) (c : ReplayCache) → (sweep now c).ttl ≡ c.ttl
unfolding sweep
ttl-sweep now c = ground arith

pub step-IsSound :
    (call : Call) (c : ReplayCache) → IsSound c → IsFinite call → IsSound (step call c)
unfolding step ensure_min_ttl
step-IsSound (checks timestamp signature now) c sound h = record {
  valid = check_and_insert-IsValid timestamp signature now c sound.valid;
  finite = rw (ttl-check_and_insert timestamp signature now c) sound.finite;
}
step-IsSound (sweeps now) c sound h = record {
  valid = sweep-IsValid now c sound.valid;
  finite = rw (ttl-sweep now c) sound.finite;
}
step-IsSound (raises floor) c sound h = record {
  valid = ground (arith, sound.valid);
  finite = ground (arith, sound.finite);
}

pub window-step :
    (call : Call) (c : ReplayCache) → IsSound c → window (step call c) ≡ window_step call (window c)
unfolding step window_step ensure_min_ttl raise
window-step (checks timestamp signature now) c sound =
    ap (λ (r : Window × Bool). r.0)
      (check_and_insert-check timestamp signature now c sound.valid sound.finite)
window-step (sweeps now) c sound = sweep-expire now c sound.valid
window-step (raises floor) c sound = ground arith
