-- ===== src/LogBridge/Hub/Examples.antt =====
-- Runs of the hub, and its theorems at concrete histories.
use contextmatrix_backendkit.Prelude.{
  ℕ, ◌≡◌, refl, List, [], ◌∷◌, ◌++◌, some, Bytes, bytes, bytes_dec, ℕ_discrete, arith, inr,
}
use contextmatrix_backendkit.Prelude.Assoc.{lookup, insert, delete}
use contextmatrix_backendkit.LogBridge.Hub.{
  Hub, Sub, new_hub, observe_drop, retain, release, backlog, subscribe, holds, trim, requeue,
  unsubscribe, matches, offer, attach, count_drop, publish_loop, append_backlog, key_for, publish,
  receive,
}
use contextmatrix_backendkit.LogBridge.Hub.Subs.{holders, waiting}
use contextmatrix_backendkit.LogBridge.Hub.Fifo.{pending}
use contextmatrix_backendkit.LogBridge.Hub.Lossless
use contextmatrix_backendkit.LogBridge.Hub.Contents.{handed}
use contextmatrix_backendkit.LogBridge.Hub.Order.{Reordered}
use contextmatrix_backendkit.LogBridge.Hub.Bounds
use contextmatrix_backendkit.LogBridge.Hub.Bounds.{Bounded}
use contextmatrix_backendkit.LogBridge.Hub.Executions
use contextmatrix_backendkit.LogBridge.Hub.Executions.{Executes, finished, calls, handed_all}
use mathlib.Core.List.{Permᴰ}
use contextmatrix_backendkit.LogBridge.Hub.History.{
  Op, publishes, subscribes, receives, unsubscribes, apply, run, sent, got, got_by,
}

program : Unit {0}
unfolding new_hub observe_drop retain release backlog subscribe holds trim requeue unsubscribe
    matches offer attach count_drop publish_loop append_backlog key_for publish receive holders
    waiting pending handed handed_all apply run sent got got_by lookup insert delete bytes_dec
    ℕ_discrete
program = tt

-- An entry is a session and a number.
abbrev Entry : Type 0
Entry = Bytes × ℕ

abbrev session : Entry → Bytes
session e = e.0

abbrev a : Bytes
a = bytes "a"

abbrev b : Bytes
b = bytes "b"

-- Before the key is retained, its consumer reads one entry and leaves one in its channel.
abbrev before : List (Op Entry)
before = subscribes a ∷ publishes (a, 7) ∷ publishes (a, 8) ∷ receives 1 ∷ []

abbrev reached : Hub Entry
reached = run before (new_hub (some session) (some 0))

abbrev start : Hub Entry
start = retain a reached

-- It leaves; the next one takes over its entry and reads on.
abbrev ops : List (Op Entry)
ops =
    publishes (a, 1)
    ∷ unsubscribes 1
    ∷ publishes (a, 3)
    ∷ subscribes a
    ∷ publishes (b, 2)
    ∷ receives 2
    ∷ receives 2
    ∷ unsubscribes 2
    ∷ subscribes []
    ∷ publishes (a, 4)
    ∷ subscribes a
    ∷ receives 4
    ∷ []

received : got a session ops start ≡ (a, 8) ∷ (a, 1) ∷ (a, 3) ∷ []
unfolding program
received = refl

waited : pending a reached ≡ (a, 8) ∷ []
unfolding program
waited = refl

sent-got_example :
    pending a reached ++ sent a session ops ≡ got a session ops start ++ pending a (run ops start)
unfolding program
sent-got_example =
    Lossless.sent-got a session refl before ops (some 0) (omega arith, inr refl, omega arith)
      (omega arith)

-- Two subscribers, which the map gives the other way round when an entry is published.
abbrev opening : List (Op Entry)
opening = subscribes a ∷ subscribes [] ∷ []

abbrev fresh : Hub Entry
fresh = new_hub (some session) (some 0)

abbrev turned : List (ℕ × Sub Entry) → List (ℕ × Sub Entry)
turned (x ∷ y ∷ l) = y ∷ x ∷ l
turned l = l

abbrev other_way : Hub Entry
other_way = record (run opening fresh) { subs = turned (run opening fresh).subs }

same-Permᴰ : (l : List (ℕ × Sub Entry)) → Permᴰ l l
same-Permᴰ [] = Permᴰ.nil
same-Permᴰ (x ∷ l) = Permᴰ.cons refl (same-Permᴰ l)

in_order : (h : Hub Entry) → Reordered h h
in_order h = record {
  subs = same-Permᴰ h.subs;
  next_id = refl;
  key_of = refl;
  drop_observer = refl;
  retained = refl;
}

turns : Reordered (run opening fresh) other_way
unfolding program
turns = record {
  subs = Permᴰ.swap refl refl;
  next_id = refl;
  key_of = refl;
  drop_observer = refl;
  retained = refl;
}

abbrev ends : Hub Entry
ends = (receive 1 (receive 2 (publish (a, 1) other_way)).0).0

abbrev session_ops : List (Op Entry)
session_ops = subscribes a ∷ subscribes [] ∷ publishes (a, 1) ∷ receives 2 ∷ receives 1 ∷ []

turned_once : Executes session_ops fresh ((a, 1) ∷ (a, 1) ∷ []) ends
unfolding program
turned_once = calls (subscribes a) _ fresh fresh ends _ (in_order fresh) (
    calls (subscribes []) _ _ (subscribe a fresh).0 ends _ (in_order _) (
      calls (publishes (a, 1)) _ _ other_way ends _ turns (
        calls (receives 2) _ _ (publish (a, 1) other_way) ends _ (in_order _) (
          calls (receives 1) _ _ (receive 2 (publish (a, 1) other_way)).0 ends _ (in_order _)
            (finished _ ends (in_order ends))))))

Executes-run_example :
    ((a, 1) ∷ (a, 1) ∷ [] ≡ handed_all session_ops fresh) × Reordered (run session_ops fresh) ends
Executes-run_example =
    Executions.Executes-run session_ops (some session) (some 0) ((a, 1) ∷ (a, 1) ∷ []) ends
      turned_once

run-Bounded_example : Bounded (run ops (new_hub (some session) (some 0)))
run-Bounded_example = Bounds.run-Bounded ops (some session) (some 0)
