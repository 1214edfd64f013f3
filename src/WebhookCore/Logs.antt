-- ===== src/WebhookCore/Logs.antt =====
-- The SSE stream of /logs, webhookcore/logs.go, over the hub. A wake is what the select of the loop
-- finds ready, with whether the write that follows succeeds, or a call of the hub by others in
-- between. `marshal` is json.Marshal of an entry, none for an error.
pub mod Watching
pub mod Delivery
pub mod Following
pub mod Ending
pub mod Reconnecting
mod Examples
use contextmatrix_backendkit.Prelude.{
  ℕ, ◌*◌, List, [], ◌∷◌, ◌++◌, Option, none, some, Bool, true, false, Bytes, bytes, if◌then◌else◌,
  ℕ_discrete,
}
use contextmatrix_backendkit.Prelude.Int.{ℤ, pos, leb_ℤ}
use contextmatrix_backendkit.Prelude.Assoc.{lookup}
use contextmatrix_backendkit.GoTime.{Duration, second}
use contextmatrix_backendkit.LogBridge.Hub.{Hub, subscribe, unsubscribe, receive}
use contextmatrix_backendkit.LogBridge.Hub.History.{Op, apply}
use contextmatrix_backendkit.WebhookCore.Http.{ErrorResponse, Reply, internal, write_error}

-- What is written to the client at once.
pub data Chunk : Type 0 where
  connected : Chunk
  keepalive : Chunk
  event : Bytes → Chunk

unfoldable pub chunk_bytes : Chunk → Bytes
chunk_bytes connected = bytes ": connected\n\n"
chunk_bytes keepalive = bytes ": keepalive\n\n"
chunk_bytes (event data') = bytes "data: " ++ (data' ++ bytes "\n\n")

abbrev pub default_keepalive_interval : Duration
default_keepalive_interval = pos (15 * second)

-- The interval of the ticker.
unfoldable pub keepalive_of : Duration → Duration
keepalive_of interval = if leb_ℤ interval (pos 0) then default_keepalive_interval else interval

-- `client` is what was written and flushed; the handler runs while `is_open`.
pub record Stream (E : Type 0) : Type 0 where
  pub hub : Hub E
  pub id : ℕ
  pub client : List Chunk
  pub is_open : Bool

pub data Wake (E : Type 0) : Type 0 where
  ticks : Bool → Wake E
  delivers : Bool → Wake E
  disconnects : Wake E
  drains : Wake E
  elsewhere : Op E → Wake E

pub data Started (E : Type 0) : Type 0 where
  unsupported : Reply ErrorResponse → Started E
  streams : Stream E → Started E

module _ {E : Type 0} where
  -- The handler returns: the deferred Unsubscribe.
  unfoldable pub finish : Stream E → Stream E
  finish s = record s { hub = (unsubscribe s.id s.hub).0; is_open = false }

  -- A write and its Flush; a failed write ends the handler.
  unfoldable pub write_chunk : Chunk → Bool → Stream E → Stream E
  unfolding finish
  write_chunk c ok s = if ok then record s { client = s.client ++ c ∷ [] } else finish s

  -- Everything up to the loop. `can_flush` is whether the writer is a Flusher.
  unfoldable pub start_logs : Bool → Bool → Bytes → Hub E → Started E
  unfolding write_chunk write_error
  start_logs can_flush ok filter h =
      if can_flush
      then streams (
          write_chunk connected ok (record {
            hub = (subscribe filter h).0;
            id = (subscribe filter h).1;
            client = [];
            is_open = true;
          }))
      else unsupported (write_error 500 internal (bytes "streaming not supported"))

  module _ (marshal : E → Option Bytes) where
    -- An entry that was received: it is written, or skipped where it cannot be marshalled.
    unfoldable pub write_entry : E → Bool → Stream E → Stream E
    unfolding write_chunk
    write_entry e ok s = elim (marshal e) [ none ↦ s | some data' ↦ write_chunk (event data') ok s ]

    -- The channel is ready: with an entry, or closed, where the subscriber is gone. Only the
    -- handler knows the id.
    unfoldable pub deliver : Bool → Stream E → Stream E
    unfolding finish write_entry
    deliver ok s = elim (lookup ℕ_discrete s.id s.hub.subs) [
      | none ↦ finish s
      | some sub ↦
          let (h, got) = receive s.id s.hub in
          elim got [ none ↦ s | some e ↦ write_entry e ok (record s { hub = h }) ]
    ]

    -- A round of the loop, while the handler runs.
    unfoldable pub wake_open : Wake E → Stream E → Stream E
    unfolding finish write_chunk deliver
    wake_open (ticks ok) s = write_chunk keepalive ok s
    wake_open (delivers ok) s = deliver ok s
    wake_open disconnects s = finish s
    wake_open drains s = finish s
    wake_open (elsewhere op) s = s

    unfoldable pub wake : Wake E → Stream E → Stream E
    unfolding wake_open
    wake (elsewhere op) s = record s { hub = apply op s.hub }
    wake (ticks ok) s = if s.is_open then wake_open (ticks ok) s else s
    wake (delivers ok) s = if s.is_open then wake_open (delivers ok) s else s
    wake disconnects s = if s.is_open then wake_open disconnects s else s
    wake drains s = if s.is_open then wake_open drains s else s

    unfoldable pub run_logs : List (Wake E) → Stream E → Stream E
    unfolding wake
    run_logs [] s = s
    run_logs (w ∷ wakes) s = run_logs wakes (wake w s)
