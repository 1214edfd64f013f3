-- ===== src/WebhookCore/Replay/Refines.antt =====
-- The replay cache of replay.go, with its list and its index, and the window.
use contextmatrix_backendkit.Prelude.{
  ◌≡◌, refl, none, some, Bool, Bytes, arith, inl, inr, Option-cases,
}
use contextmatrix_backendkit.Prelude.Int.{pos_part, ◌<ℤ◌}
use contextmatrix_backendkit.GoTime.{Duration, Time, max_duration, since-le, lt-since}
use contextmatrix_backendkit.WebhookCore.Store.{Element, find, push, unlink, len}
use contextmatrix_backendkit.WebhookCore.Store.Laws.{
  view, find_value, erase_value, find-view, find-none, view-push, push-IsValid, view-unlink,
  unlink-IsValid, find-unlink, new-IsValid, find_value-erase, value_of?,
}
use contextmatrix_backendkit.WebhookCore.Store.Laws
use contextmatrix_backendkit.WebhookCore.Store.Evict.{evict-IsValid, view-evict}
use contextmatrix_backendkit.WebhookCore.Replay.{
  ReplayEntry, ReplayCache, replay_key, is_live, insert_fresh, check_key, check_and_insert,
}
use contextmatrix_backendkit.WebhookCore.Replay.Window.{
  Window, entry_key, recent, bounded, accept, check,
}

abbrev pub IsValid : ReplayCache → Type 0
IsValid c = Laws.IsValid entry_key c.store

abbrev pub window : ReplayCache → Window
window c = record { ttl = c.ttl; capacity = c.capacity; entries = view c.store }

module _ (key : Bytes) (now : Time) where
  insert_fresh-IsValid :
      (c : ReplayCache) → IsValid c → find key c.store ≡ none → IsValid (insert_fresh key now c)
  unfolding insert_fresh
  insert_fresh-IsValid c valid h =
      let e : ReplayEntry = record { key = key; seen = now } in
      let pushed = push-IsValid entry_key key e valid refl h in
      ground (
        arith,
        pushed,
        evict-IsValid entry_key (pos_part c.capacity) (len (push key e c.store)) pushed,
      )

  window-insert_fresh :
      (c : ReplayCache)
      → IsValid c
      → find key c.store ≡ none
      → window (insert_fresh key now c) ≡ (accept key now (view c.store) (window c)).0
  unfolding insert_fresh accept bounded
  window-insert_fresh c valid h =
      let e : ReplayEntry = record { key = key; seen = now } in
      let pushed = push-IsValid entry_key key e valid refl h in
      ground (
        arith,
        view-push entry_key key e c.store,
        view-evict entry_key (pos_part c.capacity) (len (push key e c.store)) pushed,
      )

is_live-recent :
    (ttl : Duration) (now seen : Time)
    → ttl <ℤ max_duration
    → is_live ttl now seen ≡ recent ttl now seen
unfolding is_live
is_live-recent ttl now seen h = ground (arith, since-le now seen ttl, lt-since now seen ttl)

module _ (key : Bytes) (now : Time) (c : ReplayCache) (valid : IsValid c) where
  -- The cache once the expired element `el` is unlinked.
  abbrev unlinked : Element ReplayEntry → ReplayCache
  unlinked el = record c { store = unlink el key c.store }

  unlinked-IsValid : (el : Element ReplayEntry) → find key c.store ≡ some el → IsValid (unlinked el)
  unlinked-IsValid el e = unlink-IsValid entry_key key el valid e

  pub check_key-IsValid : IsValid (check_key key now c).0
  unfolding check_key
  check_key-IsValid = elim (Option-cases (find key c.store)) [
    | inl e ↦ rw (e, check_key) (insert_fresh-IsValid key now c valid e)
    | inr (el, e) ↦
        rw (e, check_key)
          (ground (
            arith,
            valid,
            insert_fresh-IsValid key now (unlinked el) (unlinked-IsValid el e)
                (find-unlink entry_key key el c.store),
          ))
  ]

  pub check_key-check :
      c.ttl <ℤ max_duration
      → let (c', duplicate) = check_key key now c in
        let r : Window × Bool = (window c', duplicate) in r ≡ check key now (window c)
  unfolding check_key check accept
  check_key-check h = elim (Option-cases (find key c.store)) [
    | inl e ↦ ground (arith, find-none entry_key key valid e, window-insert_fresh key now c valid e)
    | inr (el, e) ↦ ground (
      arith,
      find-view entry_key key valid,
      is_live-recent c.ttl now el.value.seen h,
      view-unlink entry_key key el valid e,
      window-insert_fresh key now (unlinked el) (unlinked-IsValid el e)
          (find-unlink entry_key key el c.store),
    )
  ]

-- The cache stays consistent.
pub check_and_insert-IsValid :
    (timestamp signature : Bytes) (now : Time) (c : ReplayCache)
    → IsValid c
    → IsValid (check_and_insert timestamp signature now c).0
unfolding check_and_insert
check_and_insert-IsValid timestamp signature now c valid =
    check_key-IsValid (replay_key timestamp signature) now c valid

-- On a consistent cache the verdict and the new entries are those of the window.
pub check_and_insert-check :
    (timestamp signature : Bytes) (now : Time) (c : ReplayCache)
    → IsValid c
    → c.ttl <ℤ max_duration
    → let (c', duplicate) = check_and_insert timestamp signature now c in
      let r : Window × Bool = (window c', duplicate) in
      r ≡ check (replay_key timestamp signature) now (window c)
unfolding check_and_insert
check_and_insert-check timestamp signature now c valid =
    check_key-check (replay_key timestamp signature) now c valid
