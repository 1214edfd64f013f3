-- ===== src/WebhookCore/Logs/Ending.antt =====
-- How a stream of /logs ends (webhookcore/logs.go): the wakes after which the handler returns.
use contextmatrix_backendkit.Prelude.{
  ℕ, ◌≡◌, refl, ◌∙◌, List, [], ◌∷◌, Option, none, some, Bool, true, false, arith, Bytes, bytes_dec,
  ℕ_discrete, inl, inr, Option-cases, ◌⊎◌,
}
use contextmatrix_backendkit.Prelude.Assoc.{lookup, lookup-delete}
use contextmatrix_backendkit.LogBridge.Hub.{Hub, Sub, unsubscribe, receive}
use contextmatrix_backendkit.WebhookCore.Logs.{
  Stream, Wake, ticks, delivers, disconnects, drains, elsewhere, finish, write_chunk, write_entry,
  deliver, wake_open, wake, run_logs,
}

module _ {E : Type 0} where
  subs-unsubscribe : (id : ℕ) (h : Hub E) → lookup ℕ_discrete id (unsubscribe id h).0.subs ≡ none
  unfolding unsubscribe
  subs-unsubscribe id h = elim (Option-cases (lookup ℕ_discrete id h.subs)) [
    | inl missing ↦ ground (arith, missing)
    | inr (s, found) ↦ elim (Option-cases (lookup bytes_dec s.filter h.retained)) [
      | inl gone ↦ ground (arith, found, gone, lookup-delete ℕ_discrete id id h.subs)
      | inr (es, kept) ↦ ground (arith, found, kept, lookup-delete ℕ_discrete id id h.subs)
    ]
  ]

  -- The handler has returned, and its subscriber is gone from the hub.
  pub record Ended (s s' : Stream E) : Type 0 where
    pub closed : s'.is_open ≡ false
    pub gone : lookup ℕ_discrete s.id s'.hub.subs ≡ none
    pub quiet : s'.client ≡ s.client

  finish-Ended : (s : Stream E) (h : Hub E) → Ended s (finish (record s { hub = h }))
  unfolding finish
  finish-Ended s h = record { closed = refl; gone = subs-unsubscribe s.id h; quiet = refl }

  module _ (marshal : E → Option Bytes) where
    -- The client is gone, the drain began, a write failed, or the hub closed the channel.
    abbrev pub Ends : Wake E → Stream E → Type 0
    Ends disconnects s = Unit {0}
    Ends drains s = Unit {0}
    Ends (ticks ok) s = ok ≡ false
    Ends (delivers ok) s =
        (lookup ℕ_discrete s.id s.hub.subs ≡ none)
        ⊎ ((ok ≡ false)
            × ((e : E) × (data' : Bytes) × ((receive s.id s.hub).1 ≡ some e)
                × (marshal e ≡ some data')))
    Ends (elsewhere op) s = ⊥

    closed-wake :
        (w : Wake E) (s : Stream E)
        → s.is_open ≡ false
        → ((wake marshal w s).is_open ≡ false) × ((wake marshal w s).client ≡ s.client)
    unfolding wake
    closed-wake (ticks ok) s h = ground (arith, h)
    closed-wake (delivers ok) s h = ground (arith, h)
    closed-wake disconnects s h = ground (arith, h)
    closed-wake drains s h = ground (arith, h)
    closed-wake (elsewhere op) s h = (h, refl)

    closed-run_logs :
        (wakes : List (Wake E)) (s : Stream E)
        → s.is_open ≡ false
        → (run_logs marshal wakes s).client ≡ s.client
    unfolding run_logs
    closed-run_logs [] s h = refl
    closed-run_logs (w ∷ wakes) s h =
        let (still, same) = closed-wake w s h in
        closed-run_logs wakes (wake marshal w s) still ∙ same

    deliver-closed :
        (ok : Bool) (s : Stream E)
        → lookup ℕ_discrete s.id s.hub.subs ≡ none
        → deliver marshal ok s ≡ finish s
    unfolding deliver
    deliver-closed ok s missing = ground (arith, missing)

    receive-found :
        (id : ℕ) (h : Hub E) (e : E)
        → (receive id h).1 ≡ some e
        → (sub : Sub E) × (lookup ℕ_discrete id h.subs ≡ some sub)
    unfolding receive
    receive-found id h e got = elim (Option-cases (lookup ℕ_discrete id h.subs)) [
      | inl missing ↦ absurd (ground (arith, missing))
      | inr found ↦ found
    ]

    -- A failed write of an entry that was taken.
    deliver-failed :
        (s : Stream E) (e : E) (data' : Bytes)
        → (receive s.id s.hub).1 ≡ some e
        → marshal e ≡ some data'
        → deliver marshal false s ≡ finish (record s { hub = (receive s.id s.hub).0 })
    unfolding deliver write_entry write_chunk
    deliver-failed s e data' got encoded =
        let (sub, found) = receive-found s.id s.hub e got in ground (arith, found, got, encoded)

    wake_open-Ended : (w : Wake E) (s : Stream E) → Ends w s → Ended s (wake_open marshal w s)
    unfolding wake_open write_chunk
    wake_open-Ended (ticks ok) s h = rw h (finish-Ended s s.hub)
    wake_open-Ended (delivers ok) s (inl missing) =
        rw (deliver-closed ok s missing) (finish-Ended s s.hub)
    wake_open-Ended (delivers ok) s (inr (failed, (e, data', got, encoded))) =
        rw (failed, deliver-failed s e data' got encoded) (finish-Ended s (receive s.id s.hub).0)
    wake_open-Ended disconnects s h = finish-Ended s s.hub
    wake_open-Ended drains s h = finish-Ended s s.hub
    wake_open-Ended (elsewhere op) s h = absurd h

    wake-open :
        (w : Wake E) (s : Stream E)
        → s.is_open ≡ true
        → Ends w s
        → wake marshal w s ≡ wake_open marshal w s
    unfolding wake
    wake-open (ticks ok) s live h = ground (arith, live)
    wake-open (delivers ok) s live h = ground (arith, live)
    wake-open disconnects s live h = ground (arith, live)
    wake-open drains s live h = ground (arith, live)
    wake-open (elsewhere op) s live h = absurd h

    -- When the client is gone, the drain begins, a write fails or the channel is closed, a running
    -- handler of /logs returns: its subscriber is deleted from the hub, and neither that wake nor
    -- any later one writes anything to the client.
    pub run_logs-ended :
        (w : Wake E) (wakes : List (Wake E)) (s : Stream E)
        → s.is_open ≡ true
        → Ends w s
        → ((wake marshal w s).is_open ≡ false)
          × (lookup ℕ_discrete s.id (wake marshal w s).hub.subs ≡ none)
          × ((run_logs marshal (w ∷ wakes) s).client ≡ s.client)
    unfolding run_logs
    run_logs-ended w wakes s live h =
        let ended : Ended s (wake marshal w s) =
          rw (wake-open w s live h) (wake_open-Ended w s h) in
        (
          ended.closed,
          ended.gone,
          closed-run_logs wakes (wake marshal w s) ended.closed ∙ ended.quiet,
        )
