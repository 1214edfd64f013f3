-- ===== src/WebhookCore/Dedup/Refines.antt =====
-- The dedup cache of dedup.go and the window that the replay cache has too.
use contextmatrix_backendkit.Prelude.{
  ◌≡◌, ap, sym, subst, ◌∙◌, Bool, false, Bytes, is_empty, arith, if◌then◌else◌, inl, inr,
  Option-cases,
}
use contextmatrix_backendkit.Prelude.Int.{pos, ◌<ℤ◌}
use contextmatrix_backendkit.GoTime.{Time, max_duration}
use contextmatrix_backendkit.WebhookCore.Store.{find}
use contextmatrix_backendkit.WebhookCore.Store.Laws.{
  view, erase_value, find_value, erase_value-absent, find-none, view-unlink, unlink-IsValid,
}
use contextmatrix_backendkit.WebhookCore.Store.Laws
use contextmatrix_backendkit.WebhookCore.Replay.{ReplayCache, check_key}
use contextmatrix_backendkit.WebhookCore.Replay.Window.{Window, entry_key, check}
use contextmatrix_backendkit.WebhookCore.Replay.Refines
use contextmatrix_backendkit.WebhookCore.Dedup.{
  DedupCache, dedup_key, record_key, check_and_record, rollback,
}

-- A replay cache with the same contents.
abbrev as_replay : DedupCache → ReplayCache
as_replay c = record { ttl = c.ttl; capacity = c.capacity; interval = pos 0; store = c.store }

abbrev pub IsValid : DedupCache → Type 0
IsValid c = Laws.IsValid entry_key c.store

abbrev pub window : DedupCache → Window
window c = record { ttl = c.ttl; capacity = c.capacity; entries = view c.store }

abbrev as_replay_result : DedupCache × Bool → ReplayCache × Bool
as_replay_result r = (as_replay r.0, r.1)

-- The two caches run the same algorithm.
record_key-check_key :
    (key : Bytes) (now : Time) (c : DedupCache)
    → as_replay_result (record_key key now c) ≡ check_key key now (as_replay c)
unfolding record_key check_key
record_key-check_key key now c = ground arith

pub record_key-IsValid :
    (key : Bytes) (now : Time) (c : DedupCache) → IsValid c → IsValid (record_key key now c).0
record_key-IsValid key now c valid =
    subst (λ (r : ReplayCache × Bool). Refines.IsValid r.0) (sym (record_key-check_key key now c))
      (Refines.check_key-IsValid key now (as_replay c) valid)

pub record_key-check :
    (key : Bytes) (now : Time) (c : DedupCache)
    → IsValid c
    → c.ttl <ℤ max_duration
    → let (c', duplicate) = record_key key now c in
      let r : Window × Bool = (window c', duplicate) in r ≡ check key now (window c)
record_key-check key now c valid finite =
    ap (λ (r : ReplayCache × Bool). (Refines.window r.0, r.1)) (record_key-check_key key now c)
    ∙ Refines.check_key-check key now (as_replay c) valid finite

-- The entries without the pair's; an empty message ID is never recorded.
abbrev pub forget : Bytes → Bytes → Window → Window
forget scope message_id w =
    if is_empty message_id
    then w
    else record w { entries = erase_value entry_key (dedup_key scope message_id) w.entries }

pub rollback-IsValid :
    (scope message_id : Bytes) (c : DedupCache) → IsValid c → IsValid (rollback scope message_id c)
unfolding rollback
rollback-IsValid scope message_id c valid =
    let key = dedup_key scope message_id in
    elim (Option-cases (find key c.store)) [
      | inl e ↦ rw (e, rollback) (ground (arith, valid))
      | inr (el, e) ↦
          rw (e, rollback) (ground (arith, valid, unlink-IsValid entry_key key el valid e))
    ]

pub window-rollback :
    (scope message_id : Bytes) (c : DedupCache)
    → IsValid c
    → window (rollback scope message_id c) ≡ forget scope message_id (window c)
unfolding rollback
window-rollback scope message_id c valid =
    let key = dedup_key scope message_id in
    elim (Option-cases (find key c.store)) [
      | inl e ↦
          ground (
            arith,
            erase_value-absent entry_key key (view c.store) (find-none entry_key key valid e),
          )
      | inr (el, e) ↦ ground (arith, view-unlink entry_key key el valid e)
    ]

pub check_and_record-IsValid :
    (scope message_id : Bytes) (now : Time) (c : DedupCache)
    → IsValid c
    → IsValid (check_and_record scope message_id now c).0
unfolding check_and_record
check_and_record-IsValid scope message_id now c valid =
    ground (arith, valid, record_key-IsValid (dedup_key scope message_id) now c valid)

abbrev pub check_message : Bytes → Bytes → Time → Window → Window × Bool
check_message scope message_id now w =
    if is_empty message_id then (w, false) else check (dedup_key scope message_id) now w

-- On a consistent cache the verdict and the new entries are those of the window; an empty message
-- ID is fresh and changes nothing.
pub check_and_record-check :
    (scope message_id : Bytes) (now : Time) (c : DedupCache)
    → IsValid c
    → c.ttl <ℤ max_duration
    → let (c', duplicate) = check_and_record scope message_id now c in
      let r : Window × Bool = (window c', duplicate) in
      r ≡ check_message scope message_id now (window c)
unfolding check_and_record
check_and_record-check scope message_id now c valid finite =
    ground (arith, record_key-check (dedup_key scope message_id) now c valid finite)
