-- ===== src/LogBridge/Hub.antt =====
-- The fan-out hub, logbridge/hub.go, over any type of log entries. The mutex makes each method one
-- step; a subscriber's receive from its channel is a step of its own. A buffered channel is its
-- queue and its capacity. The order of the association lists stands for Go's map order.
pub mod Subs
pub mod Loop
pub mod Fifo
pub mod Consumers
pub mod Leaving
pub mod History
pub mod Kept
pub mod Lossless
pub mod Stored
pub mod Contents
pub mod Reordering
pub mod Bounds
pub mod Order
pub mod Numbered
pub mod Reached
pub mod Unordered
pub mod Executions
mod Examples
use contextmatrix_backendkit.Prelude.{
  ℕ, suc, ◌+◌, List, [], ◌∷◌, ◌++◌, Option, none, some, Bool, true, false, not, ◌&&◌, ◌||◌, Bytes,
  bytes_dec, is_empty, holds?, if◌then◌else◌, ltb, leb, length, drop, ℕ_discrete,
}
use contextmatrix_backendkit.Prelude.Assoc.{lookup, insert, delete}

abbrev pub sub_buf_size : ℕ
sub_buf_size = 256

-- The channel `ch` is `queue` and `cap`.
pub record Sub (E : Type 0) : Type 0 where
  pub queue : List E
  pub cap : ℕ
  pub filter : Bytes

-- `drop_observer` is the number of notifications, or none for a nil observer.
pub record Hub (E : Type 0) : Type 0 where
  pub subs : List (ℕ × Sub E)
  pub next_id : ℕ
  pub key_of : Option (E → Bytes)
  pub drop_observer : Option ℕ
  pub retained : List (Bytes × List E)

-- `a == b` on strings.
abbrev pub str_eq : Bytes → Bytes → Bool
str_eq a b = holds? (bytes_dec a b)

abbrev pub is_some {ℓ} : {A : Type ℓ} → Option A → Bool
is_some none = false
is_some (some a) = true

unfoldable pub observe_drop : Option ℕ → Option ℕ
observe_drop none = none
observe_drop (some n) = some (suc n)

-- The test of `continue`, negated.
unfoldable pub matches : Bool → Bytes → Bytes → Bool
matches has_key_of key filter = not (not (is_empty filter) && has_key_of && not (str_eq filter key))

module _ {E : Type 0} where
  unfoldable pub new_hub : Option (E → Bytes) → Option ℕ → Hub E
  new_hub key_of observer = record {
    subs = [];
    next_id = 0;
    key_of = key_of;
    drop_observer = observer;
    retained = [];
  }

  unfoldable pub retain : Bytes → Hub E → Hub E
  retain key h =
      if is_empty key || not (is_some h.key_of)
      then h
      else (if is_some (lookup bytes_dec key h.retained)
          then h
          else record h { retained = insert bytes_dec key [] h.retained })

  unfoldable pub release : Bytes → Hub E → Hub E
  release key h = record h { retained = delete bytes_dec key h.retained }

  -- `h.retained[key]`, nil where there is none.
  unfoldable pub backlog : Bytes → Hub E → List E
  backlog key h = elim (lookup bytes_dec key h.retained) [ none ↦ [] | some es ↦ es ]

  -- The new channel has room for the backlog, so that the sends into it do not block.
  unfoldable pub subscribe : Bytes → Hub E → Hub E × ℕ
  unfolding backlog
  subscribe filter h =
      let held = backlog filter h in
      let id = suc h.next_id in
      let s : Sub E = record { queue = held; cap = sub_buf_size + length held; filter = filter } in
      (
        record h {
          subs = insert ℕ_discrete id s h.subs;
          next_id = id;
          retained =
              if is_some (lookup bytes_dec filter h.retained)
              then insert bytes_dec filter [] h.retained
              else h.retained;
        },
        id,
      )

  unfoldable pub holds : Bytes → List (ℕ × Sub E) → Bool
  holds filter [] = false
  holds filter ((id, s) ∷ subs) = str_eq s.filter filter || holds filter subs

  -- `for len(merged) > subBufSize { merged = merged[1:]; h.observeDrop() }`
  unfoldable pub trim : List E → Option ℕ → List E × Option ℕ
  trim [] observer = ([], observer)
  trim (e ∷ merged) observer =
      let rest = trim merged (observe_drop observer) in
      if ltb sub_buf_size (length (e ∷ merged)) then rest else (e ∷ merged, observer)

  unfoldable pub requeue : List E → List E → Option ℕ → List E × Option ℕ
  requeue unread backlog observer = trim (unread ++ backlog) observer

  -- Beside the new hub: what is left in the closed channel for its reader.
  unfoldable pub unsubscribe : ℕ → Hub E → Hub E × List E
  unfolding requeue
  unsubscribe id h = elim (lookup ℕ_discrete id h.subs) [
    | none ↦ (h, [])
    | some s ↦
        let subs = delete ℕ_discrete id h.subs in
        elim (lookup bytes_dec s.filter h.retained) [
          | none ↦ (record h { subs = subs }, s.queue)
          | some es ↦
              let (merged, observer) = requeue s.queue es h.drop_observer in
              if holds s.filter subs then (record h { subs = subs }, s.queue) else (
                record h {
                  subs = subs;
                  drop_observer = observer;
                  retained = insert bytes_dec s.filter merged h.retained;
                },
                [],
              )
        ]
  ]

  -- The non-blocking send, `select { case s.ch <- e: default: … }`.
  unfoldable pub offer : E → Sub E → Sub E
  offer e s = if ltb (length s.queue) s.cap then record s { queue = s.queue ++ e ∷ [] } else s

  -- `attached`, after a subscriber that is not skipped.
  unfoldable pub attach : Bool → Bytes → Sub E → Bool → Bool
  unfolding matches
  attach has_key_of key s attached =
      attached
      || (matches has_key_of key s.filter && not (is_empty s.filter) && str_eq s.filter key)

  -- The observer, after the send.
  unfoldable pub count_drop : Bool → Bytes → Sub E → Option ℕ → Option ℕ
  unfolding matches observe_drop
  count_drop has_key_of key s observer =
      if matches has_key_of key s.filter && not (ltb (length s.queue) s.cap)
      then observe_drop observer
      else observer

  -- The loop over the subscribers: they, `attached` and the observer after it.
  unfoldable pub publish_loop :
      Bool → Bytes → E → List (ℕ × Sub E) → Bool → Option ℕ → List (ℕ × Sub E) × Bool × Option ℕ
  publish_loop has_key_of key e [] attached observer = ([], attached, observer)
  publish_loop has_key_of key e ((id, s) ∷ subs) attached observer =
      let (subs', attached', observer') =
        publish_loop has_key_of key e subs (attach has_key_of key s attached)
          (count_drop has_key_of key s observer) in
      ((id, if matches has_key_of key s.filter then offer e s else s) ∷ subs', attached', observer')

  -- `append` to the backlog, its oldest entry dropped where it is full.
  unfoldable pub append_backlog : E → List E → Option ℕ → List E × Option ℕ
  append_backlog e es observer =
      if leb sub_buf_size (length es)
      then (drop 1 es ++ e ∷ [], observe_drop observer)
      else (es ++ e ∷ [], observer)

  unfoldable pub key_for : Option (E → Bytes) → E → Bytes
  key_for none e = []
  key_for (some f) e = f e

  unfoldable pub publish : E → Hub E → Hub E
  publish e h =
      let key = key_for h.key_of e in
      let (subs, attached, observer) =
        publish_loop (is_some h.key_of) key e h.subs false h.drop_observer in
      let sent = record h { subs = subs; drop_observer = observer } in
      if attached then sent else elim (lookup bytes_dec key h.retained) [
        | none ↦ sent
        | some es ↦
            let (es', observer') = append_backlog e es observer in
            record sent {
              drop_observer = observer';
              retained = insert bytes_dec key es' h.retained;
            }
      ]

  abbrev pub pop_queue : List E → List E × Option E
  pop_queue [] = ([], none)
  pop_queue (e ∷ es) = (es, some e)

  -- A subscriber's `<-ch`; none where it would block.
  unfoldable pub receive : ℕ → Hub E → Hub E × Option E
  receive id h = elim (lookup ℕ_discrete id h.subs) [
    | none ↦ (h, none)
    | some s ↦
        let (queue, got) = pop_queue s.queue in
        (record h { subs = insert ℕ_discrete id (record s { queue = queue }) h.subs }, got)
  ]
