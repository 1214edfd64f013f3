-- ===== src/WebhookCore/Logs/Reconnecting.antt =====
-- A client of /logs that goes away between writes, and the next one with its filter
-- (webhookcore/logs.go over logbridge/hub.go).
use contextmatrix_backendkit.Prelude.{
  ℕ, ◌≡◌, refl, ap, sym, ◌∙◌, List, [], ◌++◌, map, map-append, append_assoc, Option, some, true,
  false, arith, Bytes, is_empty,
}
use contextmatrix_backendkit.LogBridge.Hub.{Hub, new_hub, retain}
use contextmatrix_backendkit.LogBridge.Hub.Fifo.{Single, pending}
use contextmatrix_backendkit.LogBridge.Hub.Subs.{holders}
use contextmatrix_backendkit.LogBridge.Hub.Consumers.{pending-subscribe_unheld}
use contextmatrix_backendkit.LogBridge.Hub.Leaving.{
  pending-unsubscribe_held, unsubscribe_held-Single, unheld-unsubscribe,
}
use contextmatrix_backendkit.LogBridge.Hub.History.{Op, run, sent, got, AllAllowed}
use contextmatrix_backendkit.LogBridge.Hub.Lossless.{balance_step, Ran, run-Ran}
use contextmatrix_backendkit.WebhookCore.Logs.{
  Stream, Wake, ticks, delivers, disconnects, drains, elsewhere, streams, finish, write_chunk,
  wake_open, wake, start_logs, run_logs,
}
use contextmatrix_backendkit.WebhookCore.Logs.Watching.{watcher}
use contextmatrix_backendkit.WebhookCore.Logs.Delivery.{
  events, published, AllHealthy, Running, Followed, run_logs-Followed,
}
use contextmatrix_backendkit.WebhookCore.Logs.Following.{
  fresh, start_logs-fresh, fresh-Running, start-Running,
}

module _ {E : Type 0} (k : Bytes) (key : E → Bytes) where
  -- The hub that a stream leaves behind.
  record HandsOver (s s' : Stream E) : Type 0 where
    single : Single k key s'.hub
    unheld : holders k s'.hub.subs ≡ 0
    same : pending k s'.hub ≡ pending k s.hub
    quiet : s'.client ≡ s.client

  finish-HandsOver : (s : Stream E) → Running k key s → HandsOver s (finish s)
  unfolding finish
  finish-HandsOver s r =
      let (sub, found, filter) = watcher k key s.hub r.single s.id r.watches in
      record {
        single = unsubscribe_held-Single k key s.hub r.single s.id sub found filter r.fits;
        unheld = unheld-unsubscribe k key s.hub r.single s.id sub found filter r.fits;
        same = pending-unsubscribe_held k key s.hub r.single s.id sub found filter r.fits;
        quiet = refl;
      }

  -- The handler returns, and not for a failed write of an event.
  abbrev pub LeavesWhole : Wake E → Type 0
  LeavesWhole disconnects = Unit {0}
  LeavesWhole drains = Unit {0}
  LeavesWhole (ticks ok) = ok ≡ false
  LeavesWhole (delivers ok) = ⊥
  LeavesWhole (elsewhere op) = ⊥

  module _ (marshal : E → Option Bytes) where
    wake-finish :
        (w : Wake E) (s : Stream E) → s.is_open ≡ true → LeavesWhole w → wake marshal w s ≡ finish s
    unfolding wake wake_open write_chunk
    wake-finish (ticks ok) s live h = ground (arith, live, h)
    wake-finish (delivers ok) s live h = absurd h
    wake-finish disconnects s live h = ground (arith, live)
    wake-finish drains s live h = ground (arith, live)
    wake-finish (elsewhere op) s live h = absurd h

map-four :
    {A B : Type 0} (f : A → B) (ws gs vs zs : List A)
    → map f ((ws ++ (gs ++ vs)) ++ zs) ≡ map f ws ++ (map f gs ++ (map f vs ++ map f zs))
map-four f ws gs vs zs = simp (map-append, append_assoc)

module _ {E : Type 0} (k : Bytes) (key : E → Bytes) (some_key : is_empty k ≡ false)
    (marshal : E → Option Bytes) (encode : E → Bytes)
    (encodes : (e : E) → marshal e ≡ some (encode e)) where
  abbrev Follows : List (Wake E) → Stream E → Type 0
  Follows wakes s =
      Followed k key some_key marshal encode encodes wakes s (run_logs marshal wakes s)

  -- The three balances of two streams and of what lies between them.
  chained :
      (first second : List (Wake E)) (between : List (Op E)) (s s2 : Stream E) (h : Hub E)
      → (f : Follows first s) → pending k h ≡ pending k (run_logs marshal first s).hub
      → (b : Ran k key some_key between h (run between h))
      → pending k s2.hub ≡ pending k (run between h)
      → events s2.client ≡ []
      → (g : Follows second s2)
      → events s.client
          ++ map encode (
              pending k s.hub
              ++ (published k key first ++ (sent k key between ++ published k key second)))
        ≡ events (run_logs marshal first s).client
          ++ (map encode (got k key between h)
              ++ (events (run_logs marshal second s2).client
                  ++ map encode (pending k (run_logs marshal second s2).hub)))
  chained first second between s s2 h f same b same2 new g =
      let p = pending k s.hub in
      let q = pending k (run_logs marshal second s2).hub in
      let balance2 =
        balance_step (pending k h) _ _ (got k key between h) g.written (pending k s2.hub) q
          (b.balance ∙ ap (◌++◌ (got k key between h)) (sym same2)) g.balance in
      let balance1 =
        balance_step p (published k key first) _ f.written _ (pending k h) q
          (f.balance ∙ ap (◌++◌ f.written) (sym same)) balance2 in
      ap (λ es. events s.client ++ map encode es) balance1
      ∙ ap (◌++◌ (events s.client)) (map-four encode f.written (got k key between h) g.written q)
      ∙ rw (f.grown, g.grown, new) (sym (append_assoc (events s.client) (map encode f.written) _))

  next-chained :
      (first second : List (Wake E)) (w : Wake E) (between : List (Op E)) (s s2 : Stream E)
      → Running k key s
      → AllHealthy k key marshal first s
      → LeavesWhole k key w
      → let s1 = wake marshal w (run_logs marshal first s) in
        AllAllowed k key between s1.hub
        → holders k (run between s1.hub).subs ≡ 0
        → s2 ≡ fresh k key (run between s1.hub)
        → AllHealthy k key marshal second s2
        → events s.client
            ++ map encode (
                pending k s.hub
                ++ (published k key first ++ (sent k key between ++ published k key second)))
          ≡ events s1.client
            ++ (map encode (got k key between s1.hub)
                ++ (events (run_logs marshal second s2).client
                    ++ map encode (pending k (run_logs marshal second s2).hub)))
  unfolding events
  next-chained first second w between s s2 r healthy closing allowed unheld same healthy2 =
      let f = run_logs-Followed k key some_key marshal encode encodes first s r healthy in
      let mid = run_logs marshal first s in
      let s1 = wake marshal w mid in
      let over : HandsOver k key mid s1 =
        rw (wake-finish k key marshal w mid f.running.live closing)
          (finish-HandsOver k key mid f.running) in
      let b =
        run-Ran k key some_key between s1.hub over.single (rw over.same f.running.fits) allowed in
      let h = run between s1.hub in
      let running2 : Running k key s2 = rw same (fresh-Running k key h b.single unheld b.fits) in
      let kept : pending k s2.hub ≡ pending k h =
        rw same (pending-subscribe_unheld k key h b.single k unheld) in
      let new : events s2.client ≡ [] = rw same refl in
      let g = run_logs-Followed k key some_key marshal encode encodes second s2 running2 healthy2 in
      rw over.quiet (chained first second between s s2 s1.hub f over.same b kept new g)

  -- A client of /logs that goes away and comes back misses nothing: on a new hub with a key function
  -- whose first call retains a key, the documents of all that is published under it from then on, before the first
  -- client, during its stream, while no client is there and during the second stream, are those of
  -- what other consumers received before, then the events that the first client was sent, then
  -- what others received in between, then the events that the second client was sent, then what
  -- still waits. The first stream ends by a disconnect, the drain or a failed keepalive; the key is
  -- not empty, every entry can be marshalled, the other writes succeed, at most one consumer
  -- carries the key at a time, it is not released, and an entry of it comes only where less than a
  -- full buffer (256) of them waits.
  pub start_logs-resumed :
      (pre between : List (Op E)) (observer : Option ℕ) (first second : List (Wake E)) (w : Wake E)
      (s s2 : Stream E)
      → AllAllowed k key pre (retain k (new_hub (some key) observer))
      → let h = retain k (new_hub (some key) observer) in
        let s1 = wake marshal w (run_logs marshal first s) in
        let s3 = run_logs marshal second s2 in
        holders k (run pre h).subs ≡ 0
        → start_logs true true k (run pre h) ≡ streams s
        → AllHealthy k key marshal first s
        → LeavesWhole k key w
        → AllAllowed k key between s1.hub
        → holders k (run between s1.hub).subs ≡ 0
        → start_logs true true k (run between s1.hub) ≡ streams s2
        → AllHealthy k key marshal second s2
        → map encode (
            sent k key pre
            ++ (published k key first ++ (sent k key between ++ published k key second)))
          ≡ map encode (got k key pre h)
            ++ (events s1.client
                ++ (map encode (got k key between s1.hub)
                    ++ (events s3.client ++ map encode (pending k s3.hub))))
  start_logs-resumed pre between observer first second w s s2 ok unheld started healthy closing ok2
        unheld2 started2 healthy2 =
      let h = retain k (new_hub (some key) observer) in
      let s1 = wake marshal w (run_logs marshal first s) in
      let (r, before, new) =
        start-Running k key some_key marshal encode encodes pre observer s ok unheld
          (cc (start_logs-fresh k key (run pre h), started)) in
      let after' =
        next-chained first second w between s s2 r healthy closing ok2 unheld2
          (cc (start_logs-fresh k key (run between s1.hub), started2)) healthy2 in
      let later = published k key first ++ (sent k key between ++ published k key second) in
      ap (λ es. map encode (es ++ later)) before
      ∙ ap (map encode) (append_assoc (got k key pre h) (pending k s.hub) later)
      ∙ map-append encode (got k key pre h) (pending k s.hub ++ later)
      ∙ ap (◌++◌ (map encode (got k key pre h)))
          (sym (ap (λ es. es ++ map encode (pending k s.hub ++ later)) new) ∙ after')
