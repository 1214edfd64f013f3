-- ===== src/WebhookCore/Logs/Following.antt =====
-- From Retain to the client (logbridge/hub.go, webhookcore/logs.go): the first consumer of a
-- retained key is a client of /logs.
use contextmatrix_backendkit.Prelude.{
  ℕ, suc, ◌≤◌, ◌≡◌, refl, ap, sym, ◌∙◌, List, [], ◌∷◌, ◌++◌, map, map-append, append_assoc,
  append-nil, Option, none, some, true, false, arith, Bytes, length, is_empty, inl, inr, List-cases,
  Option-cases,
}
use contextmatrix_backendkit.LogBridge.Hub.{
  Hub, sub_buf_size, new_hub, retain, backlog, subscribe, receive,
}
use contextmatrix_backendkit.LogBridge.Hub.Fifo.{Single, pending}
use contextmatrix_backendkit.LogBridge.Hub.Subs.{holders, holders_pos, insert_holder}
use contextmatrix_backendkit.LogBridge.Hub.Consumers.{
  taken, pending-subscribe_unheld, subscribe-Single, pending-receive_held,
}
use contextmatrix_backendkit.LogBridge.Hub.History.{Op, run, sent, got, AllAllowed}
use contextmatrix_backendkit.LogBridge.Hub.Lossless.{retain-Ran, sent-got_new}
use contextmatrix_backendkit.WebhookCore.Logs.{
  connected, event, delivers, Stream, streams, write_chunk, start_logs, wake, run_logs,
}
use contextmatrix_backendkit.WebhookCore.Logs.Watching.{filter_of, filter_of-insert, watcher}
use contextmatrix_backendkit.WebhookCore.Logs.Delivery.{
  events, events-append, Running, wake-delivers, deliver-some, delivers-Woken,
}

module _ {E : Type 0} (k : Bytes) (key : E → Bytes) where
  abbrev pub fresh : Hub E → Stream E
  fresh h = record {
    hub = (subscribe k h).0;
    id = (subscribe k h).1;
    client = connected ∷ [];
    is_open = true;
  }

  pub start_logs-fresh : (h : Hub E) → start_logs true true k h ≡ streams (fresh h)
  unfolding start_logs write_chunk
  start_logs-fresh h = refl

  filter_of-fresh : (h : Hub E) → filter_of (subscribe k h).1 (subscribe k h).0.subs ≡ some k
  unfolding subscribe
  filter_of-fresh h = filter_of-insert (suc h.next_id) _ h.subs

  pub fresh-Running :
      (h : Hub E)
      → Single k key h
      → holders k h.subs ≡ 0
      → length (pending k h) ≤ sub_buf_size
      → Running k key (fresh h)
  fresh-Running h v unheld fits = record {
    live = refl;
    single = subscribe-Single k key h v k (inr unheld);
    fits = rw (pending-subscribe_unheld k key h v k unheld) fits;
    watches = filter_of-fresh h;
  }

module _ {E : Type 0} (k : Bytes) (key : E → Bytes) (h : Hub E) (v : Single k key h) (id : ℕ)
    (watches : filter_of id h.subs ≡ some k) where
  -- The watcher's channel is ready while an entry waits.
  pub receive-ready : (receive id h).1 ≡ none → pending k h ≡ []
  unfolding receive pending backlog
  receive-ready empty =
      let (sub, found, same) = watcher k key h v id watches in
      let (one, _, queue) = insert_holder k id h.next_id sub [] h.subs v.unique found same v.one in
      let some_holder = holders_pos k id sub h.subs found same in
      elim (List-cases sub.queue) [
        | inl none_queued ↦ ground (arith, found, empty, none_queued, queue, v.clear, some_holder)
        | inr (e, es, queued) ↦ absurd (ground (arith, found, empty, queued))
      ]

module _ {E : Type 0} (k : Bytes) (key : E → Bytes) (some_key : is_empty k ≡ false)
    (marshal : E → Option Bytes) (encode : E → Bytes)
    (encodes : (e : E) → marshal e ≡ some (encode e)) where
  delivers-next :
      (s : Stream E) (e : E) (es : List E)
      → Running k key s
      → pending k s.hub ≡ e ∷ es
      → let s' = wake marshal (delivers true) s in
        Running k key s'
        × (pending k s'.hub ≡ es)
        × (events s'.client ≡ events s.client ++ encode e ∷ [])
  unfolding events
  delivers-next s e es r waits =
      let (sub, found, same) = watcher k key s.hub r.single s.id r.watches in
      let moved = pending-receive_held k key s.hub r.single s.id sub found same in
      let ready = receive-ready k key s.hub r.single s.id r.watches in
      elim (Option-cases (receive s.id s.hub).1) [
        | inl empty ↦ absurd (cc (ready empty, waits))
        | inr (d, got) ↦
            let out =
              wake-delivers k key some_key marshal encode encodes s r.live
              ∙ deliver-some k key some_key marshal encode encodes s sub d found got in
            let head : e ∷ es ≡ d ∷ pending k (receive s.id s.hub).0 =
              sym waits ∙ moved ∙ ap (λ o. taken o ++ pending k (receive s.id s.hub).0) got in
            (
              (delivers-Woken k key some_key marshal encode encodes s r).running,
              rw out (cc head),
              rw out (cc (head, events-append s.client (event (encode d) ∷ []))),
            )
      ]

  -- As many rounds as entries wait write them all.
  pub delivers-all :
      (es : List E) (s : Stream E)
      → Running k key s
      → pending k s.hub ≡ es
      → let s' = run_logs marshal (map (λ e. delivers true) es) s in
        (pending k s'.hub ≡ []) × (events s'.client ≡ events s.client ++ map encode es)
  unfolding run_logs
  delivers-all [] s r waits = (waits, sym (append-nil (events s.client)))
  delivers-all (e ∷ es) s r waits =
      let (r2, waits2, written) = delivers-next s e es r waits in
      let (none_left, all) = delivers-all es (wake marshal (delivers true) s) r2 waits2 in
      (
        none_left,
        all
            ∙ ap (λ xs. xs ++ map encode es) written
            ∙ append_assoc (events s.client) (encode e ∷ []) (map encode es),
      )

  pub start-Running :
      (pre : List (Op E)) (observer : Option ℕ) (s : Stream E)
      → AllAllowed k key pre (retain k (new_hub (some key) observer))
      → let h = retain k (new_hub (some key) observer) in
        holders k (run pre h).subs ≡ 0
        → s ≡ fresh k key (run pre h)
        → Running k key s
          × (sent k key pre ≡ got k key pre h ++ pending k s.hub)
          × (events s.client ≡ [])
  unfolding events
  start-Running pre observer s ok unheld same =
      let h = retain k (new_hub (some key) observer) in
      let (v, fits) = retain-Ran k key some_key pre observer ok in
      rw same (
        fresh-Running k key (run pre h) v unheld fits,
        sent-got_new k key some_key pre observer ok
            ∙ ap (◌++◌ (got k key pre h))
                (sym (pending-subscribe_unheld k key (run pre h) v k unheld)),
        refl,
      )

  -- On a new hub with a key function whose first call retains a key, everything that is published
  -- under the key reaches its consumers: the first client of /logs with the key as its filter is
  -- sent, in as many rounds of the loop as entries wait, exactly what earlier consumers of the key
  -- did not receive, in order, and then nothing waits. This holds if the key is not empty, every entry can be
  -- marshalled, the writes succeed, the consumers before it kept to one at a time and have left,
  -- the key was not released, and an entry of it came only where less than a full buffer (256) of
  -- them waited.
  pub start_logs-drained :
      (pre : List (Op E)) (observer : Option ℕ) (s : Stream E)
      → AllAllowed k key pre (retain k (new_hub (some key) observer))
      → let h = retain k (new_hub (some key) observer) in
        let s' = run_logs marshal (map (λ e. delivers true) (pending k s.hub)) s in
        holders k (run pre h).subs ≡ 0
        → start_logs true true k (run pre h) ≡ streams s
        → (map encode (sent k key pre) ≡ map encode (got k key pre h) ++ events s'.client)
          × (pending k s'.hub ≡ [])
  start_logs-drained pre observer s ok unheld started =
      let h = retain k (new_hub (some key) observer) in
      let (r, before, new) =
        start-Running pre observer s ok unheld (cc (start_logs-fresh k key (run pre h), started)) in
      let (none_left, all) = delivers-all (pending k s.hub) s r refl in
      (
        ap (map encode) before
            ∙ map-append encode (got k key pre h) (pending k s.hub)
            ∙ ap (◌++◌ (map encode (got k key pre h)))
                (sym (all ∙ ap (λ es. es ++ map encode (pending k s.hub)) new)),
        none_left,
      )
