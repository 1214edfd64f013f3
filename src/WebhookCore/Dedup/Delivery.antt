-- ===== src/WebhookCore/Dedup/Delivery.antt =====
-- Delivery and rollback of a message by dedup.go.
use contextmatrix_backendkit.Prelude.{
  ℕ, ◌<◌, ◌≡◌, ◌≢◌, refl, ap, ◌∙◌, ◌++◌, ◌∷◌, [], List, none, false, Bool, Bytes, arith, All,
  length, length-append, drop, ◌-◌,
}
use contextmatrix_backendkit.Prelude.Int.{pos_part, ◌<ℤ◌}
use contextmatrix_backendkit.GoTime.{Time, max_duration}
use contextmatrix_backendkit.WebhookCore.Store.Laws.{
  view, find_value, erase_value, Distinct, find_value-erase, erase_value-append,
}
use contextmatrix_backendkit.WebhookCore.Replay.{ReplayEntry}
use contextmatrix_backendkit.WebhookCore.Replay.Window.{Window, entry_key, check, accept, bounded}
use contextmatrix_backendkit.WebhookCore.Replay.Protection.{Room}
use contextmatrix_backendkit.WebhookCore.Dedup.{DedupCache, dedup_key, check_and_record, rollback}
use contextmatrix_backendkit.WebhookCore.Dedup.Refines.{
  IsValid, window, forget, check_message, rollback-IsValid, window-rollback,
  check_and_record-IsValid, check_and_record-check,
}

-- A scope without NUL.
abbrev pub NulFree : Bytes → Type 0
NulFree = All (λ b. b ≢ 0)

-- Scopes without NUL never collide with one another across the boundary to the message ID.
pub dedup_key-injective :
    (s s' m m' : Bytes)
    → NulFree s
    → NulFree s'
    → dedup_key s m ≡ dedup_key s' m'
    → (s ≡ s') × (m ≡ m')
unfolding dedup_key
dedup_key-injective [] [] m m' h h' e = (refl, cc)
dedup_key-injective [] (b ∷ s') m m' h h' e = absurd (h'.0 (cc))
dedup_key-injective (a ∷ s) [] m m' h h' e = absurd (h.0 (cc))
dedup_key-injective (a ∷ s) (b ∷ s') m m' h h' e =
    ground (arith, dedup_key-injective s s' m m' h.1 h'.1)

pub record IsSound (c : DedupCache) : Type 0 where
  pub valid : IsValid c
  pub finite : c.ttl <ℤ max_duration

pub verdict :
    (scope message_id : Bytes) (now : Time) (c : DedupCache)
    → IsSound c
    → (check_and_record scope message_id now c).1
      ≡ (check_message scope message_id now (window c)).1
verdict scope message_id now c sound =
    ap (λ (r : Window × Bool). r.1)
      (check_and_record-check scope message_id now c sound.valid sound.finite)

pub window-check_and_record :
    (scope message_id : Bytes) (now : Time) (c : DedupCache)
    → IsSound c
    → window (check_and_record scope message_id now c).0
      ≡ (check_message scope message_id now (window c)).0
window-check_and_record scope message_id now c sound =
    ap (λ (r : Window × Bool). r.0)
      (check_and_record-check scope message_id now c sound.valid sound.finite)

pub rollback-IsSound :
    (scope message_id : Bytes) (c : DedupCache) → IsSound c → IsSound (rollback scope message_id c)
rollback-IsSound scope message_id c sound = record {
  valid = rollback-IsValid scope message_id c sound.valid;
  finite =
      let same = ap (λ (w : Window). w.ttl) (window-rollback scope message_id c sound.valid) in
      ground (arith, same, sound.finite);
}

pub check-settings :
    (scope message_id : Bytes) (now : Time) (w : Window)
    → ((check_message scope message_id now w).0.ttl ≡ w.ttl)
      × ((check_message scope message_id now w).0.capacity ≡ w.capacity)
unfolding check accept
check-settings scope message_id now w = ground arith

pub check_and_record-IsSound :
    (scope message_id : Bytes) (now : Time) (c : DedupCache)
    → IsSound c
    → IsSound (check_and_record scope message_id now c).0
check_and_record-IsSound scope message_id now c sound = record {
  valid = check_and_record-IsValid scope message_id now c sound.valid;
  finite =
      let same =
        ap (λ (w : Window). w.ttl) (window-check_and_record scope message_id now c sound) in
      ground (arith, same, sound.finite, check-settings scope message_id now (window c));
}

check_erased :
    (key : Bytes) (now : Time) (w : Window)
    → Distinct entry_key w.entries
    → (check key now (record w { entries = erase_value entry_key key w.entries })).1 ≡ false
unfolding check accept
check_erased key now w d = ground (arith, find_value-erase entry_key key key w.entries d)

-- On a consistent cache the pair is fresh again after a rollback: the retry is delivered.
pub rollback_retry :
    (scope message_id : Bytes) (now : Time) (c : DedupCache)
    → IsSound c
    → (check_and_record scope message_id now (rollback scope message_id c)).1 ≡ false
rollback_retry scope message_id now c sound =
    verdict scope message_id now (rollback scope message_id c)
      (rollback-IsSound scope message_id c sound)
    ∙ ap (λ w. (check_message scope message_id now w).1)
        (window-rollback scope message_id c sound.valid)
    ∙ ground (arith, check_erased (dedup_key scope message_id) now (window c) sound.valid.distinct)

drop_fits :
    (es : List ReplayEntry) (e : ReplayEntry) (capacity : ℕ)
    → length es < capacity
    → drop (length (es ++ e ∷ []) - capacity) (es ++ e ∷ []) ≡ es ++ e ∷ []
drop_fits es e capacity h =
    let none_over : length (es ++ e ∷ []) - capacity ≡ 0 =
      omega (arith, length-append es (e ∷ [])) in
    rw none_over

record_new :
    (key : Bytes) (now : Time) (w : Window)
    → find_value entry_key key w.entries ≡ none
    → Room w.capacity (length w.entries)
    → (check key now w).0
      ≡ record w { entries = w.entries ++ record { key = key; seen = now } ∷ [] }
unfolding check accept bounded
record_new key now w absent room =
    let e : ReplayEntry = record { key = key; seen = now } in
    ground (arith, length-append w.entries (e ∷ []), drop_fits w.entries e (pos_part w.capacity))

-- Where nothing was evicted and no expired entry replaced, a rollback undoes the record.
pub rollback-check_and_record :
    (scope message_id : Bytes) (now : Time) (c : DedupCache)
    → IsSound c
    → find_value entry_key (dedup_key scope message_id) (view c.store) ≡ none
    → Room c.capacity (length (view c.store))
    → window (rollback scope message_id (check_and_record scope message_id now c).0) ≡ window c
rollback-check_and_record scope message_id now c sound absent room =
    let key = dedup_key scope message_id in
    window-rollback scope message_id (check_and_record scope message_id now c).0
      (check_and_record-IsValid scope message_id now c sound.valid)
    ∙ ap (forget scope message_id) (window-check_and_record scope message_id now c sound)
    ∙ ground (
      arith,
      record_new key now (window c) absent room,
      erase_value-append entry_key (view c.store) (record { key = key; seen = now }) absent,
    )
