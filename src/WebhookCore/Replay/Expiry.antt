-- ===== src/WebhookCore/Replay/Expiry.antt =====
-- `sweep` of replay.go and the window's expiry.
use contextmatrix_backendkit.Prelude.{
  ℕ, zero, suc, ◌≤◌, ◌≡◌, ap, ◌∷◌, [], List, arith, inl, inr, List-cases, length, drop,
}
use contextmatrix_backendkit.Prelude.Int.{◌-ℤ◌}
use contextmatrix_backendkit.GoTime.{Time}
use contextmatrix_backendkit.WebhookCore.Store.{Store, Element, unlink, len, drop_front}
use contextmatrix_backendkit.WebhookCore.Store.Laws
use contextmatrix_backendkit.WebhookCore.Store.Laws.{view}
use contextmatrix_backendkit.WebhookCore.Store.Evict.{
  view-drop_front, drop_front-IsValid, len-drop_front,
}
use contextmatrix_backendkit.WebhookCore.Replay.{ReplayEntry, ReplayCache, sweep_loop, sweep}
use contextmatrix_backendkit.WebhookCore.Replay.Window.{entry_key, after, expire}
use contextmatrix_backendkit.WebhookCore.Replay.Refines.{IsValid, window}

-- Unlinking the front element is one round of the store's own loop.
unlink-front :
    (s : Store ReplayEntry) (x : Element ReplayEntry) (xs : List (Element ReplayEntry))
    → s.elements ≡ x ∷ xs
    → unlink x x.value.key s ≡ drop_front entry_key s
unfolding drop_front
unlink-front s x xs e = ground arith

view-nil : (s : Store ReplayEntry) → s.elements ≡ [] → view s ≡ []
unfolding view
view-nil s e = ground arith

view-front :
    (s : Store ReplayEntry) (x : Element ReplayEntry) (xs : List (Element ReplayEntry))
    → s.elements ≡ x ∷ xs
    → view s ≡ x.value ∷ drop 1 (view s)
unfolding view
view-front s x xs e = ground arith

sweep_loop-IsValid :
    (fuel : ℕ) (cutoff : Time) (s : Store ReplayEntry)
    → Laws.IsValid entry_key s
    → Laws.IsValid entry_key (sweep_loop fuel cutoff s)
unfolding sweep_loop
sweep_loop-IsValid zero cutoff s valid = valid
sweep_loop-IsValid (suc fuel) cutoff s valid = elim (List-cases s.elements) [
  | inl e ↦ rw (e, sweep_loop) valid
  | inr (x, xs, e) ↦
      rw (e, sweep_loop, unlink-front s x xs e)
        (ground (
          arith,
          valid,
          sweep_loop-IsValid fuel cutoff (drop_front entry_key s)
              (drop_front-IsValid entry_key valid),
        ))
]

-- As much fuel as there are entries ends the loop by its own test.
view-sweep_loop :
    (fuel : ℕ) (cutoff : Time) (s : Store ReplayEntry)
    → Laws.IsValid entry_key s
    → len s ≤ fuel
    → view (sweep_loop fuel cutoff s) ≡ after cutoff (view s)
unfolding sweep_loop after view
view-sweep_loop zero cutoff s valid h = elim (List-cases s.elements) [
  | inl e ↦ rw (view-nil s e)
  | inr (x, xs, e) ↦ absurd (omega (arith, ap length e))
]
view-sweep_loop (suc fuel) cutoff s valid h = elim (List-cases s.elements) [
  | inl e ↦ rw (e, sweep_loop) (rw (view-nil s e))
  | inr (x, xs, e) ↦
      rw (e, sweep_loop, unlink-front s x xs e)
        (ground (
          arith,
          view-front s x xs e,
          view-drop_front entry_key valid,
          view-sweep_loop fuel cutoff (drop_front entry_key s) (drop_front-IsValid entry_key valid)
              (omega (arith, len-drop_front entry_key valid)),
        ))
]

pub sweep-IsValid : (now : Time) (c : ReplayCache) → IsValid c → IsValid (sweep now c)
unfolding sweep
sweep-IsValid now c valid =
    ground (arith, valid, sweep_loop-IsValid (len c.store) (now -ℤ c.ttl) c.store valid)

-- On a consistent cache a sweep drops, from the oldest on, the entries that the cutoff has reached,
-- and nothing else, and none where the ttl is not positive.
pub sweep-expire :
    (now : Time) (c : ReplayCache) → IsValid c → window (sweep now c) ≡ expire now (window c)
unfolding sweep expire
sweep-expire now c valid =
    ground (arith, view-sweep_loop (len c.store) (now -ℤ c.ttl) c.store valid (omega arith))
