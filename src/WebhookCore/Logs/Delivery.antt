-- ===== src/WebhookCore/Logs/Delivery.antt =====
-- What a client of /logs reads (webhookcore/logs.go), for the stream of a retained key of the hub
-- (logbridge/hub.go).
use contextmatrix_backendkit.Prelude.{
  ◌≤◌, ◌≡◌, refl, ap, sym, subst, ◌∙◌, List, [], ◌∷◌, ◌++◌, map, map-append, length-append,
  append_assoc, append-nil, Option, none, some, true, false, arith, Bytes, ℕ_discrete, length, inl,
  inr, is_empty, Option-cases,
}
use contextmatrix_backendkit.Prelude.Assoc.{lookup}
use contextmatrix_backendkit.LogBridge.Hub.{Sub, sub_buf_size, receive}
use contextmatrix_backendkit.LogBridge.Hub.Fifo.{Single, pending}
use contextmatrix_backendkit.LogBridge.Hub.Consumers.{taken, pending-receive_held, receive-Single}
use contextmatrix_backendkit.LogBridge.Hub.History.{Op, apply, sent_by, Allowed}
use contextmatrix_backendkit.LogBridge.Hub.Lossless.{balance_step}
use contextmatrix_backendkit.LogBridge.Hub.Kept.{apply-Kept}
use contextmatrix_backendkit.WebhookCore.Logs.{
  Chunk, connected, keepalive, event, Stream, Wake, ticks, delivers, disconnects, drains, elsewhere,
  write_chunk, write_entry, deliver, wake_open, wake, run_logs,
}
use contextmatrix_backendkit.WebhookCore.Logs.Watching.{
  filter_of, Leaves, filter_of-apply, filter_of-receive, watcher, watcher-le, got_by-Leaves,
}

-- The events among what was written.
unfoldable pub events : List Chunk → List Bytes
events [] = []
events (connected ∷ chunks) = events chunks
events (keepalive ∷ chunks) = events chunks
events (event data' ∷ chunks) = data' ∷ events chunks

pub events-append : (xs ys : List Chunk) → events (xs ++ ys) ≡ events xs ++ events ys
unfolding events
events-append [] ys = refl
events-append (connected ∷ xs) ys = events-append xs ys
events-append (keepalive ∷ xs) ys = events-append xs ys
events-append (event data' ∷ xs) ys = ap (◌∷◌ data') (events-append xs ys)

module _ {E : Type 0} (k : Bytes) (key : E → Bytes) where
  -- A stream that runs and whose subscriber carries the key.
  pub record Running (s : Stream E) : Type 0 where
    pub live : s.is_open ≡ true
    pub single : Single k key s.hub
    pub fits : length (pending k s.hub) ≤ sub_buf_size
    pub watches : filter_of s.id s.hub.subs ≡ some k

  -- What a wake publishes under the key.
  abbrev pub published_by : Wake E → List E
  published_by (elsewhere op) = sent_by k key op
  published_by (ticks ok) = []
  published_by (delivers ok) = []
  published_by disconnects = []
  published_by drains = []

  unfoldable pub published : List (Wake E) → List E
  published [] = []
  published (w ∷ wakes) = published_by w ++ published wakes

  -- Writes succeed, the client stays, and others keep to the rules of the hub's promise.
  abbrev pub Healthy : Wake E → Stream E → Type 0
  Healthy (ticks ok) s = ok ≡ true
  Healthy (delivers ok) s = ok ≡ true
  Healthy disconnects s = ⊥
  Healthy drains s = ⊥
  Healthy (elsewhere op) s = Allowed k key op s.hub × Leaves s.id op

  abbrev pub AllHealthy : (E → Option Bytes) → List (Wake E) → Stream E → Type 0
  AllHealthy marshal [] s = Unit {0}
  AllHealthy marshal (w ∷ wakes) s = Healthy w s × AllHealthy marshal wakes (wake marshal w s)

module _ {E : Type 0} (k : Bytes) (key : E → Bytes) (some_key : is_empty k ≡ false)
    (marshal : E → Option Bytes) (encode : E → Bytes)
    (encodes : (e : E) → marshal e ≡ some (encode e)) where
  -- What one wake does: what was waiting or comes in is written, or waits.
  pub record Woken (w : Wake E) (s s' : Stream E) : Type 0 where
    pub running : Running k key s'
    written : List E
    balance : pending k s.hub ++ published_by k key w ≡ written ++ pending k s'.hub
    grown : events s'.client ≡ events s.client ++ map encode written

  idle :
      (w : Wake E) (s s' : Stream E)
      → Running k key s
      → s'.hub ≡ s.hub
      → s'.id ≡ s.id
      → s'.is_open ≡ true
      → published_by k key w ≡ []
      → events s'.client ≡ events s.client
      → Woken w s s'
  idle w s s' r hub id live silent same = record {
    running = record {
      live = live;
      single = rw hub r.single;
      fits = rw hub r.fits;
      watches = rw (hub, id) r.watches;
    };
    written = [];
    balance = ground (arith, append-nil (pending k s.hub));
    grown = ground (arith, append-nil (events s.client));
  }

  elsewhere-Woken :
      (op : Op E) (s : Stream E)
      → Running k key s
      → Allowed k key op s.hub
      → Leaves s.id op
      → Woken (elsewhere op) s (wake marshal (elsewhere op) s)
  unfolding wake
  elsewhere-Woken op s r allowed leaves =
      let kept = apply-Kept k key some_key op s.hub r.single r.fits allowed in
      let silent = got_by-Leaves k key s.hub r.single s.id r.watches op leaves in
      let known = watcher-le k key s.hub r.single s.id r.watches in
      record {
        running = record {
          live = r.live;
          single = kept.single;
          fits = kept.fits;
          watches = filter_of-apply s.id op s.hub leaves known ∙ r.watches;
        };
        written = [];
        balance = kept.balance ∙ ap (λ es. es ++ pending k (apply op s.hub)) silent;
        grown = sym (append-nil (events s.client));
      }

  wake-ticks :
      (s : Stream E)
      → s.is_open ≡ true
      → wake marshal (ticks true) s ≡ record s { client = s.client ++ keepalive ∷ [] }
  unfolding wake wake_open write_chunk
  wake-ticks s live = ground (arith, live)

  ticks-Woken :
      (s : Stream E) → Running k key s → Woken (ticks true) s (wake marshal (ticks true) s)
  unfolding events
  ticks-Woken s r = rw (wake-ticks s r.live) (
      idle (ticks true) s _ r refl refl r.live refl
        (events-append s.client (keepalive ∷ []) ∙ append-nil (events s.client)))

  deliver-none :
      (s : Stream E) (sub : Sub E)
      → lookup ℕ_discrete s.id s.hub.subs ≡ some sub
      → (receive s.id s.hub).1 ≡ none
      → deliver marshal true s ≡ s
  unfolding deliver
  deliver-none s sub found empty = ground (arith, found, empty)

  pub deliver-some :
      (s : Stream E) (sub : Sub E) (e : E)
      → lookup ℕ_discrete s.id s.hub.subs ≡ some sub
      → (receive s.id s.hub).1 ≡ some e
      → deliver marshal true s
        ≡ record s { hub = (receive s.id s.hub).0; client = s.client ++ event (encode e) ∷ [] }
  unfolding deliver write_entry write_chunk
  deliver-some s sub e found got = ground (arith, found, got, encodes e)

  pub wake-delivers :
      (s : Stream E) → s.is_open ≡ true → wake marshal (delivers true) s ≡ deliver marshal true s
  unfolding wake wake_open
  wake-delivers s live = ground (arith, live)

  pub delivers-Woken :
      (s : Stream E) → Running k key s → Woken (delivers true) s (wake marshal (delivers true) s)
  unfolding events
  delivers-Woken s r =
      let (sub, found, same) = watcher k key s.hub r.single s.id r.watches in
      let moved = pending-receive_held k key s.hub r.single s.id sub found same in
      elim (Option-cases (receive s.id s.hub).1) [
        | inl empty ↦ rw (wake-delivers s r.live) (
            rw (deliver-none s sub found empty)
              (idle (delivers true) s s r refl refl r.live refl refl))
        | inr (e, got) ↦ rw (wake-delivers s r.live) (
            rw (deliver-some s sub e found got) (record {
              running = record {
                live = r.live;
                single = receive-Single k key s.hub r.single s.id sub found;
                fits = omega (
                  arith,
                  r.fits,
                  ap length moved,
                  length-append (taken (receive s.id s.hub).1) (pending k (receive s.id s.hub).0),
                );
                watches = filter_of-receive s.id s.id s.hub ∙ r.watches;
              };
              written = e ∷ [];
              balance = ground (arith, moved, got, append-nil (pending k s.hub));
              grown = events-append s.client (event (encode e) ∷ []);
            }))
      ]

  wake-Woken :
      (w : Wake E) (s : Stream E)
      → Running k key s
      → Healthy k key w s
      → Woken w s (wake marshal w s)
  wake-Woken (ticks ok) s r h =
      subst (λ b. Woken (ticks b) s (wake marshal (ticks b) s)) (sym h) (ticks-Woken s r)
  wake-Woken (delivers ok) s r h =
      subst (λ b. Woken (delivers b) s (wake marshal (delivers b) s)) (sym h) (delivers-Woken s r)
  wake-Woken disconnects s r h = absurd h
  wake-Woken drains s r h = absurd h
  wake-Woken (elsewhere op) s r h = elsewhere-Woken op s r h.0 h.1

  -- The same over a run.
  pub record Followed (wakes : List (Wake E)) (s s' : Stream E) : Type 0 where
    pub running : Running k key s'
    pub written : List E
    pub balance : pending k s.hub ++ published k key wakes ≡ written ++ pending k s'.hub
    pub grown : events s'.client ≡ events s.client ++ map encode written

  pub run_logs-Followed :
      (wakes : List (Wake E)) (s : Stream E)
      → Running k key s
      → AllHealthy k key marshal wakes s
      → Followed wakes s (run_logs marshal wakes s)
  unfolding run_logs published
  run_logs-Followed [] s r h = record {
    running = r;
    written = [];
    balance = append-nil (pending k s.hub);
    grown = sym (append-nil (events s.client));
  }
  run_logs-Followed (w ∷ wakes) s r h =
      let s1 = wake marshal w s in
      let step = wake-Woken w s r h.0 in
      let rest = run_logs-Followed wakes s1 step.running h.1 in
      record {
        running = rest.running;
        written = step.written ++ rest.written;
        balance =
            balance_step (pending k s.hub) _ _ step.written _ (pending k s1.hub) _ step.balance
              rest.balance;
        grown =
            rest.grown
            ∙ ap (λ es. es ++ map encode rest.written) step.grown
            ∙ append_assoc (events s.client) (map encode step.written) (map encode rest.written)
            ∙ ap (◌++◌ (events s.client)) (sym (map-append encode step.written rest.written));
      }
