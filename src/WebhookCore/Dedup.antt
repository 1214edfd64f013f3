-- ===== src/WebhookCore/Dedup.antt =====
-- The /message dedup cache, webhookcore/dedup.go. `c.now()` is read once in a call of
-- CheckAndRecord; its value is an argument here. The mutex makes each method one step.
pub mod Refines
pub mod Delivery
pub mod History
mod Examples
use contextmatrix_backendkit.Prelude.{
  ◌++◌, ◌∷◌, none, some, Bool, true, false, if◌then◌else◌, Bytes, is_empty,
}
use contextmatrix_backendkit.Prelude.Int.{ℤ, pos, pos_part, ltb_ℤ}
use contextmatrix_backendkit.GoTime.{Duration, Time}
use contextmatrix_backendkit.WebhookCore.Store.{Store, new, find, push, unlink, len, evict}
use contextmatrix_backendkit.WebhookCore.Replay.{ReplayEntry, is_live}

-- A dedupEntry has the two fields of a replayEntry: `seen` is its `stored`.
abbrev pub DedupEntry : Type 0
DedupEntry = ReplayEntry

-- `entries` and `index` are the store.
pub record DedupCache : Type 0 where
  pub ttl : Duration
  pub capacity : ℤ
  pub store : Store DedupEntry

unfoldable pub new_dedup_cache : Duration → ℤ → DedupCache
new_dedup_cache ttl capacity = record { ttl = ttl; capacity = capacity; store = new }

-- `scope + "\x00" + messageID`
unfoldable pub dedup_key : Bytes → Bytes → Bytes
dedup_key scope message_id = scope ++ 0 ∷ message_id

-- Everything from `PushBack` on.
unfoldable pub record_fresh : Bytes → Time → DedupCache → DedupCache
record_fresh key now c =
    let pushed = push key (record { key = key; seen = now }) c.store in
    record c {
      store =
          if ltb_ℤ (pos 0) c.capacity
          then evict (λ e. e.key) (pos_part c.capacity) (len pushed) pushed
          else pushed;
    }

-- CheckAndRecord for a message ID that is not empty.
unfoldable pub record_key : Bytes → Time → DedupCache → DedupCache × Bool
unfolding record_fresh is_live
record_key key now c = elim (find key c.store) [
  | none ↦ (record_fresh key now c, false)
  | some el ↦
      if is_live c.ttl now el.value.seen
      then (c, true)
      else (record_fresh key now (record c { store = unlink el key c.store }), false)
]

unfoldable pub check_and_record : Bytes → Bytes → Time → DedupCache → DedupCache × Bool
unfolding record_key
check_and_record scope message_id now c =
    if is_empty message_id then (c, false) else record_key (dedup_key scope message_id) now c

unfoldable pub rollback : Bytes → Bytes → DedupCache → DedupCache
rollback scope message_id c =
    let key = dedup_key scope message_id in
    if is_empty message_id
    then c
    else elim (find key c.store) [ none ↦ c | some el ↦ record c { store = unlink el key c.store } ]
