-- ===== src/WebhookCore/Replay/Rejection.antt =====
-- Replays: histories of replay.go's cache after an accepted request.
use contextmatrix_backendkit.Prelude.{
  ℕ, suc, ◌+◌, ◌≡◌, ap, sym, ◌∙◌, ◌∷◌, [], List, true, false, Bytes, arith, ◌⊎◌, All, Bool,
}
use native.Mathlib.Nat.{add-zero}
use native.Mathlib.Numerals.{add-one}
use contextmatrix_backendkit.Prelude.Int.{ℤ, pos, ◌-ℤ◌, ◌<ℤ◌, ◌≤ℤ◌, -ℤ_parts}
use contextmatrix_backendkit.GoTime.{Duration, Time}
use contextmatrix_backendkit.WebhookCore.Store.Laws.{Distinct}
use contextmatrix_backendkit.WebhookCore.Replay.{
  ReplayEntry, ReplayCache, check_and_insert, replay_key,
}
use contextmatrix_backendkit.WebhookCore.Replay.Window.{Window, entry_key, accept, check, expire}
use contextmatrix_backendkit.WebhookCore.Replay.Refines.{window, check_and_insert-check}
use contextmatrix_backendkit.WebhookCore.Replay.Calls.{
  Call, checks, sweeps, raises, step, run, window_step, raise, IsFinite, IsSound, step-IsSound,
  window-step,
}
use contextmatrix_backendkit.WebhookCore.Replay.Protection.{
  Held, Held-after, Held-check, Held-accepted, check-Held, Room, InTime,
}

abbrev pub cost : Call → ℕ
cost (checks timestamp signature now) = 1
cost (sweeps now) = 0
cost (raises floor) = 0

-- How many requests a history checks.
abbrev pub count_checks : List Call → ℕ
count_checks [] = 0
count_checks (call ∷ calls) = cost call + count_checks calls

-- The call comes while the entry's ttl lasts; a sweep, strictly before it ends.
abbrev pub Within : Duration → Time → Call → Type 0
Within ttl seen (checks timestamp signature now) = InTime ttl seen now
Within ttl seen (sweeps now) = (ttl ≤ℤ pos 0) ⊎ (now -ℤ seen <ℤ ttl)
Within ttl seen (raises floor) = Unit {0}

-- A ttl that protects at least as long as another.
abbrev AsLong : Duration → Duration → Type 0
AsLong a b = (b ≤ℤ pos 0) ⊎ ((pos 0 <ℤ a) × (a ≤ℤ b))

record Protects (ttl : Duration) (capacity : ℤ) (e : ReplayEntry) (n : ℕ) (w : Window)
    : Type 0 where
  long : AsLong ttl w.ttl
  same : w.capacity ≡ capacity
  held : Held e n w.entries

check-settings :
    (key : Bytes) (now : Time) (w : Window)
    → ((check key now w).0.ttl ≡ w.ttl) × ((check key now w).0.capacity ≡ w.capacity)
unfolding check accept
check-settings key now w = ground arith

module _ (ttl : Duration) (capacity : ℤ) (e : ReplayEntry) where
  InTime-AsLong :
      (now : Time) (ttl' : Duration)
      → AsLong ttl ttl'
      → InTime ttl e.seen now
      → InTime ttl' e.seen now
  InTime-AsLong now ttl' long time = omega arith

  checks-Protects :
      (key : Bytes) (now : Time) (n : ℕ) (w : Window)
      → Distinct entry_key w.entries
      → InTime ttl e.seen now
      → Room capacity (suc n)
      → Protects ttl capacity e n w
      → Protects ttl capacity e (suc n) (check key now w).0
  checks-Protects key now n w d time room p =
      let (same_ttl, same_capacity) = check-settings key now w in
      record {
        long = rw same_ttl p.long;
        same = same_capacity ∙ p.same;
        held =
            Held-check e w key now n d p.held (rw p.same room)
              (InTime-AsLong now w.ttl p.long time);
      }

  sweeps-Protects :
      (now : Time) (n : ℕ) (w : Window)
      → Within ttl e.seen (sweeps now)
      → Protects ttl capacity e n w
      → Protects ttl capacity e n (expire now w)
  unfolding expire
  sweeps-Protects now n w time p = ground (
    arith,
    p.long,
    p.same,
    p.held,
    Held-after e (now -ℤ w.ttl) n w.entries,
    -ℤ_parts now w.ttl,
    -ℤ_parts now e.seen,
  )

  raises-Protects :
      (floor : Duration) (n : ℕ) (w : Window)
      → Protects ttl capacity e n w
      → Protects ttl capacity e n (raise floor w)
  unfolding raise
  raises-Protects floor n w p = ground (arith, p.long, p.same, p.held)

  step-Protects :
      (call : Call) (c : ReplayCache) (n : ℕ)
      → IsSound c
      → Within ttl e.seen call
      → Room capacity (n + cost call)
      → Protects ttl capacity e n (window c)
      → Protects ttl capacity e (n + cost call) (window (step call c))
  unfolding window_step
  step-Protects (checks timestamp signature now) c n sound time room p =
      rw (window-step (checks timestamp signature now) c sound, add-one)
        (checks-Protects (replay_key timestamp signature) now n (window c) sound.valid.distinct time
          (rw add-one at room) p)
  step-Protects (sweeps now) c n sound time room p =
      rw (window-step (sweeps now) c sound, add-zero) (sweeps-Protects now n (window c) time p)
  step-Protects (raises floor) c n sound time room p =
      rw (window-step (raises floor) c sound, add-zero) (raises-Protects floor n (window c) p)

  run-Protects :
      (calls : List Call) (c : ReplayCache) (n : ℕ)
      → IsSound c
      → All IsFinite calls
      → All (Within ttl e.seen) calls
      → Room capacity (n + count_checks calls)
      → Protects ttl capacity e n (window c)
      → IsSound (run calls c)
        × Protects ttl capacity e (n + count_checks calls) (window (run calls c))
  unfolding run
  run-Protects [] c n sound fin time room p = (sound, rw add-zero p)
  run-Protects (call ∷ calls) c n sound fin time room p =
      let regroup : n + (cost call + count_checks calls) ≡ n + cost call + count_checks calls =
        omega arith in
      rw regroup (
        run-Protects calls (step call c) (n + cost call) (step-IsSound call c sound fin.0) fin.1
          time.1 (rw regroup at room) (step-Protects call c n sound time.0 (omega arith) p))

-- The verdict of a check is the window's.
pub duplicate-check :
    (timestamp signature : Bytes) (now : Time) (c : ReplayCache)
    → IsSound c
    → (check_and_insert timestamp signature now c).1
      ≡ (check (replay_key timestamp signature) now (window c)).1
duplicate-check timestamp signature now c sound =
    ap (λ (r : Window × Bool). r.1)
      (check_and_insert-check timestamp signature now c sound.valid sound.finite)

AsLong-self : (ttl : Duration) → AsLong ttl ttl
AsLong-self ttl = ground arith

accepted-Protects :
    (timestamp signature : Bytes) (first : Time) (c : ReplayCache)
    → IsSound c
    → (check_and_insert timestamp signature first c).1 ≡ false
    → Room c.capacity 0
    → Protects c.ttl c.capacity
        (record { key = replay_key timestamp signature; seen = first })
        0
        (window (step (checks timestamp signature first) c))
unfolding window_step
accepted-Protects timestamp signature first c sound fresh room =
    let key = replay_key timestamp signature in
    let (same_ttl, same_capacity) = check-settings key first (window c) in
    rw (window-step (checks timestamp signature first) c sound) (record {
      long = rw same_ttl (AsLong-self c.ttl);
      same = same_capacity;
      held =
          Held-accepted key first (window c) room
            (sym (duplicate-check timestamp signature first c sound) ∙ fresh);
    })

-- On a consistent cache a pair that was accepted is rejected while its ttl lasts, whatever other
-- requests, sweeps and raises of the ttl come in between, if these requests come while the ttl
-- lasts and these sweeps strictly before it ends, fewer requests are checked in between than the
-- capacity, where it is positive, and the ttl and the raises stay below the largest duration.
pub replay_rejected :
    (timestamp signature : Bytes) (first later : Time) (c : ReplayCache) (calls : List Call)
    → IsSound c
    → (check_and_insert timestamp signature first c).1 ≡ false
    → All IsFinite calls
    → All (Within c.ttl first) calls
    → Room c.capacity (count_checks calls)
    → InTime c.ttl first later
    → (check_and_insert timestamp signature later
        (run calls (check_and_insert timestamp signature first c).0)).1
      ≡ true
unfolding step
replay_rejected timestamp signature first later c calls sound fresh fin time room last =
    let e : ReplayEntry = record { key = replay_key timestamp signature; seen = first } in
    let start = checks timestamp signature first in
    let (kept, p) =
      run-Protects c.ttl c.capacity e calls (step start c) 0 (step-IsSound start c sound tt) fin
        time (omega arith)
        (accepted-Protects timestamp signature first c sound fresh (omega arith)) in
    duplicate-check timestamp signature later (run calls (step start c)) kept
    ∙ check-Held e (window (run calls (step start c))) later (0 + count_checks calls)
        kept.valid.distinct p.held (InTime-AsLong c.ttl c.capacity e later _ p.long last)
