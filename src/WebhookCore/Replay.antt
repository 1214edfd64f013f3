-- ===== src/WebhookCore/Replay.antt =====
-- The replay cache, webhookcore/replay.go. `c.now()` is read once in each call; its value is an
-- argument here. The mutex makes each method one step.
pub mod Window
pub mod Refines
pub mod Expiry
pub mod Calls
pub mod Protection
pub mod Rejection
pub mod Acceptance
pub mod Bounds
mod Examples
use contextmatrix_backendkit.Prelude.{
  ℕ, zero, suc, ◌*◌, ◌/◌, ◌++◌, ◌∷◌, [], List, none, some, Bool, true, false, ◌&&◌, ◌||◌,
  if◌then◌else◌, Bytes,
}
use contextmatrix_backendkit.Prelude.Int.{ℤ, pos, pos_part, leb_ℤ, ltb_ℤ, ◌-ℤ◌}
use contextmatrix_backendkit.GoTime.{Duration, Time, since, second}
use contextmatrix_backendkit.WebhookCore.Store.{Store, new, find, push, unlink, front, len, evict}

pub record ReplayEntry : Type 0 where
  pub key : Bytes
  pub seen : Time

-- `entries` and `index` are the store.
pub record ReplayCache : Type 0 where
  pub ttl : Duration
  pub capacity : ℤ
  pub interval : Duration
  pub store : Store ReplayEntry

-- `ttl / 2` of a positive ttl.
unfoldable pub replay_sweep_interval : Duration → Duration
replay_sweep_interval ttl =
    let max_interval = pos (60 * second) in
    let half = pos (pos_part ttl / 2) in
    if leb_ℤ ttl (pos 0)
    then max_interval
    else if ltb_ℤ half max_interval
    then half
    else max_interval

unfoldable pub new_replay_cache : Duration → ℤ → ReplayCache
new_replay_cache ttl capacity = record {
  ttl = ttl;
  capacity = capacity;
  interval = replay_sweep_interval ttl;
  store = new;
}

unfoldable pub ensure_min_ttl : Duration → ReplayCache → ReplayCache
ensure_min_ttl floor c =
    if ltb_ℤ (pos 0) c.ttl && ltb_ℤ c.ttl floor then record c { ttl = floor } else c

-- `timestamp + "." + signature`
unfoldable pub replay_key : Bytes → Bytes → Bytes
replay_key timestamp signature = timestamp ++ b'.' ∷ signature

-- The guard of `return true`.
unfoldable pub is_live : Duration → Time → Time → Bool
is_live ttl now seen = leb_ℤ ttl (pos 0) || leb_ℤ (since now seen) ttl

-- Everything from `PushBack` on.
unfoldable pub insert_fresh : Bytes → Time → ReplayCache → ReplayCache
insert_fresh key now c =
    let pushed = push key (record { key = key; seen = now }) c.store in
    record c {
      store =
          if ltb_ℤ (pos 0) c.capacity
          then evict (λ e. e.key) (pos_part c.capacity) (len pushed) pushed
          else pushed;
    }

-- `CheckAndInsert` once the key is built.
unfoldable pub check_key : Bytes → Time → ReplayCache → ReplayCache × Bool
unfolding insert_fresh is_live
check_key key now c = elim (find key c.store) [
  | none ↦ (insert_fresh key now c, false)
  | some el ↦
      if is_live c.ttl now el.value.seen
      then (c, true)
      else (insert_fresh key now (record c { store = unlink el key c.store }), false)
]

unfoldable pub check_and_insert : Bytes → Bytes → Time → ReplayCache → ReplayCache × Bool
unfolding check_key
check_and_insert timestamp signature now c = check_key (replay_key timestamp signature) now c

-- The loop of `sweep`, on fuel; it ends at the first entry after the cutoff.
unfoldable pub sweep_loop : ℕ → Time → Store ReplayEntry → Store ReplayEntry
sweep_loop zero cutoff s = s
sweep_loop (suc fuel) cutoff s = elim (front s.elements) [
  | none ↦ s
  | some el ↦
      let rest = sweep_loop fuel cutoff (unlink el el.value.key s) in
      if ltb_ℤ cutoff el.value.seen then s else rest
]

unfoldable pub sweep : Time → ReplayCache → ReplayCache
unfolding sweep_loop
sweep now c =
    if leb_ℤ c.ttl (pos 0)
    then c
    else record c { store = sweep_loop (len c.store) (now -ℤ c.ttl) c.store }

-- What the janitor's `select` may receive: a tick of its ticker, or the closed stop channel.
pub data JanitorEvent : Type 0 where
  tick : Time → JanitorEvent
  stop : JanitorEvent

-- The loop of the goroutine that `StartJanitor` launches; `stop` ends it.
unfoldable pub janitor : List JanitorEvent → ReplayCache → ReplayCache
janitor [] c = c
janitor (stop ∷ events) c = c
janitor (tick now ∷ events) c = janitor events (sweep now c)
