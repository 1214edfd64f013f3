-- ===== src/WebhookCore/Replay/Acceptance.antt =====
-- Where the duplicates that replay.go reports come from.
use contextmatrix_backendkit.Prelude.{
  ℕ, zero, suc, ◌-◌, ◌≡◌, ◌≢◌, refl, sym, subst, ◌∙◌, ◌++◌, ◌∷◌, [], List, some, true, Bytes,
  bytes_dec, arith, ◌⊎◌, inl, inr, All, All-append, length, drop, Option-cases,
}
use contextmatrix_backendkit.Prelude.Int.{ℤ, pos_part, ◌-ℤ◌, ◌<ℤ◌}
use contextmatrix_backendkit.GoTime.{Duration, Time, max_duration}
use contextmatrix_backendkit.WebhookCore.Store.{new}
use contextmatrix_backendkit.WebhookCore.Store.Laws.{view, find_value, erase_value, new-IsValid}
use contextmatrix_backendkit.WebhookCore.Replay.{
  ReplayEntry, ReplayCache, new_replay_cache, check_and_insert, replay_key,
}
use contextmatrix_backendkit.WebhookCore.Replay.Window.{
  Window, entry_key, bounded, accept, check, after, expire,
}
use contextmatrix_backendkit.WebhookCore.Replay.Refines.{window}
use contextmatrix_backendkit.WebhookCore.Replay.Calls.{
  Call, checks, sweeps, raises, step, run, window_step, raise, IsFinite, IsSound, step-IsSound,
  window-step,
}
use contextmatrix_backendkit.WebhookCore.Replay.Protection.{InTime}
use contextmatrix_backendkit.WebhookCore.Replay.Rejection.{duplicate-check}

-- What a call may put into the window.
abbrev Puts : (ReplayEntry → Type 0) → Call → Type 0
Puts P (checks timestamp signature now) =
    P (record { key = replay_key timestamp signature; seen = now })
Puts P (sweeps now) = Unit {0}
Puts P (raises floor) = Unit {0}

module _ (P : ReplayEntry → Type 0) where
  All-drop : (k : ℕ) (es : List ReplayEntry) → All P es → All P (drop k es)
  All-drop zero es h = h
  All-drop (suc k) [] h = h
  All-drop (suc k) (e ∷ es) h = All-drop k es h.1

  All-erase : (k : Bytes) (es : List ReplayEntry) → All P es → All P (erase_value entry_key k es)
  unfolding erase_value
  All-erase k [] h = h
  All-erase k (e ∷ es) h = ground (arith, All-erase k es h.1, h)

  All-after : (cutoff : Time) (es : List ReplayEntry) → All P es → All P (after cutoff es)
  unfolding after
  All-after cutoff [] h = h
  All-after cutoff (e ∷ es) h = ground (arith, All-after cutoff es h.1, h)

  All-find :
      (k : Bytes) (es : List ReplayEntry) (e : ReplayEntry)
      → All P es
      → find_value entry_key k es ≡ some e
      → P e × (e.key ≡ k)
  unfolding find_value
  All-find k [] e h f = cc
  All-find k (x ∷ es) e h f = elim (bytes_dec x.key k) [
    | yes p ↦ (let same : x ≡ e = ground arith in (subst P same h.0, ground arith))
    | no q ↦ All-find k es e h.1 (ground arith)
  ]

  All-accept :
      (key : Bytes) (now : Time) (es : List ReplayEntry) (w : Window)
      → P (record { key = key; seen = now })
      → All P es
      → All P (accept key now es w).0.entries
  unfolding accept bounded
  All-accept key now es w p h =
      let new = All-append P es (record { key = key; seen = now } ∷ []) h (p, tt) in
      ground (
        arith,
        All-drop (length (es ++ record { key = key; seen = now } ∷ []) - pos_part w.capacity) _ new,
        new,
      )

  All-check :
      (key : Bytes) (now : Time) (w : Window)
      → P (record { key = key; seen = now })
      → All P w.entries
      → All P (check key now w).0.entries
  unfolding check
  All-check key now w p h = ground (
    arith,
    h,
    All-accept key now w.entries w p h,
    All-accept key now (erase_value entry_key key w.entries) w p (All-erase key w.entries h),
  )

  All-window_step :
      (call : Call) (w : Window)
      → Puts P call
      → All P w.entries
      → All P (window_step call w).entries
  unfolding window_step expire raise
  All-window_step (checks timestamp signature now) w p h = All-check _ now w p h
  All-window_step (sweeps now) w p h = ground (arith, h, All-after (now -ℤ w.ttl) w.entries h)
  All-window_step (raises floor) w p h = ground (arith, h)

  All-run :
      (calls : List Call) (c : ReplayCache)
      → IsSound c
      → All IsFinite calls
      → All (Puts P) calls
      → All P (view c.store)
      → IsSound (run calls c) × All P (view (run calls c).store)
  unfolding run
  All-run [] c sound fin puts h = (sound, h)
  All-run (call ∷ calls) c sound fin puts h =
      All-run calls (step call c) (step-IsSound call c sound fin.0) fin.1 puts.1 (
        subst (λ w. All P w.entries) (sym (window-step call c sound))
          (All-window_step call (window c) puts.0 h))

-- A text without the separator.
abbrev pub DotFree : Bytes → Type 0
DotFree = All (λ b. b ≢ b'.')

pub replay_key-injective :
    (t t' s s' : Bytes)
    → DotFree t
    → DotFree t'
    → replay_key t s ≡ replay_key t' s'
    → (t ≡ t') × (s ≡ s')
unfolding replay_key
replay_key-injective [] [] s s' h h' e = (refl, cc)
replay_key-injective [] (b ∷ t') s s' h h' e = absurd (h'.0 (cc))
replay_key-injective (a ∷ t) [] s s' h h' e = absurd (h.0 (cc))
replay_key-injective (a ∷ t) (b ∷ t') s s' h h' e =
    ground (arith, replay_key-injective t t' s s' h.1 h'.1)

abbrev pub DotFreeCall : Call → Type 0
DotFreeCall (checks timestamp signature now) = DotFree timestamp
DotFreeCall (sweeps now) = Unit {0}
DotFreeCall (raises floor) = Unit {0}

-- The history holds a check of the pair at the time.
abbrev pub Checked : Bytes → Bytes → Time → List Call → Type 0
Checked t s now [] = ⊥
Checked t s now (checks t' s' now' ∷ calls) =
    ((t' ≡ t) × (s' ≡ s) × (now' ≡ now)) ⊎ Checked t s now calls
Checked t s now (sweeps now' ∷ calls) = Checked t s now calls
Checked t s now (raises floor ∷ calls) = Checked t s now calls

module _ (t s : Bytes) (dot_free : DotFree t) where
  -- What the entry says, if it has the pair's key.
  abbrev Says : List Call → ReplayEntry → Type 0
  Says calls e = e.key ≡ replay_key t s → Checked t s e.seen calls

  Puts-weaken :
      (P Q : ReplayEntry → Type 0)
      → ((e : ReplayEntry) → P e → Q e)
      → (calls : List Call) → All (Puts P) calls
      → All (Puts Q) calls
  Puts-weaken P Q f [] h = tt
  Puts-weaken P Q f (checks t' s' now ∷ calls) h = (f _ h.0, Puts-weaken P Q f calls h.1)
  Puts-weaken P Q f (sweeps now ∷ calls) h = (tt, Puts-weaken P Q f calls h.1)
  Puts-weaken P Q f (raises floor ∷ calls) h = (tt, Puts-weaken P Q f calls h.1)

  Puts-Says : (calls : List Call) → All DotFreeCall calls → All (Puts (Says calls)) calls
  Puts-Says [] h = tt
  Puts-Says (checks t' s' now ∷ calls) h = (
    λ e. let (p, q) = replay_key-injective t' t s' s h.0 dot_free e in inl (p, q, refl),
    Puts-weaken (Says calls) (Says (checks t' s' now ∷ calls)) (λ e f k. inr (f k)) calls
        (Puts-Says calls h.1),
  )
  Puts-Says (sweeps now ∷ calls) h = (tt, Puts-Says calls h.1)
  Puts-Says (raises floor ∷ calls) h = (tt, Puts-Says calls h.1)

check_duplicate :
    (key : Bytes) (now : Time) (w : Window)
    → (check key now w).1 ≡ true
    → (e : ReplayEntry) × (find_value entry_key key w.entries ≡ some e) × InTime w.ttl e.seen now
unfolding check accept
check_duplicate key now w h = elim (Option-cases (find_value entry_key key w.entries)) [
  | inl f ↦ absurd (ground arith)
  | inr (e, f) ↦ (e, f, ground arith)
]

pub new_replay_cache-IsSound :
    (ttl : Duration) (capacity : ℤ) → ttl <ℤ max_duration → IsSound (new_replay_cache ttl capacity)
unfolding new_replay_cache
new_replay_cache-IsSound ttl capacity h = record { valid = new-IsValid entry_key; finite = h }

view-new_replay_cache :
    (ttl : Duration) (capacity : ℤ) → view (new_replay_cache ttl capacity).store ≡ []
unfolding new_replay_cache view new
view-new_replay_cache ttl capacity = refl

-- A pair that a fresh cache reports as a duplicate, after any history of calls whose timestamps
-- hold no dot, was checked in that history at a time from which the ttl has not run out.
pub check_and_insert-Checked :
    (ttl : Duration) (capacity : ℤ) (calls : List Call) (t s : Bytes) (now : Time)
    → ttl <ℤ max_duration
    → All IsFinite calls
    → All DotFreeCall calls
    → DotFree t
    → (check_and_insert t s now (run calls (new_replay_cache ttl capacity))).1 ≡ true
    → (seen : Time) × Checked t s seen calls
      × InTime (run calls (new_replay_cache ttl capacity)).ttl seen now
check_and_insert-Checked ttl capacity calls t s now finite fin dots dot_free h =
    let start = new_replay_cache ttl capacity in
    let c = run calls start in
    let (sound, said) =
      All-run (Says t s dot_free calls) calls start (new_replay_cache-IsSound ttl capacity finite)
        fin (Puts-Says t s dot_free calls dots) (rw (view-new_replay_cache ttl capacity) tt) in
    let (e, found, time) =
      check_duplicate (replay_key t s) now (window c) (sym (duplicate-check t s now c sound) ∙ h) in
    let (says, same) =
      All-find (Says t s dot_free calls) (replay_key t s) (view c.store) e said found in
    (e.seen, says same, time)
