-- ===== src/LogBridge/Hub/Bounds.antt =====
-- How much the hub holds (logbridge/hub.go).
use contextmatrix_backendkit.Prelude.{
  ℕ, ◌≤◌, sym, subst, List, [], ◌∷◌, ◌++◌, Option, Bool, false, arith, Bytes, bytes_dec, ℕ_discrete,
  inl, inr, Option-cases, Bool-cases, drop, length, length-append, length-drop,
}
use contextmatrix_backendkit.Prelude.Assoc.{
  lookup, Values, Values-insert, Values-delete, Values-lookup,
}
use contextmatrix_backendkit.LogBridge.Hub.{
  Sub, Hub, sub_buf_size, new_hub, subscribe, unsubscribe, publish, retain, release, receive,
  publish_loop, offer, matches, attach, count_drop, key_for, is_some, pop_queue, trim, requeue,
  append_backlog, observe_drop,
}
use contextmatrix_backendkit.LogBridge.Hub.History.{
  Op, publishes, subscribes, receives, unsubscribes, retains, releases, apply, run,
}
use contextmatrix_backendkit.LogBridge.Hub.Stored.{publish-parts, retain-cases}
use contextmatrix_backendkit.LogBridge.Hub.Contents.{
  unsubscribe-cases, receive-absent, receive-present,
}

module _ {E : Type 0} where
  abbrev pub Fits : Sub E → Type 0
  Fits s = length s.queue ≤ s.cap

  abbrev pub Short : List E → Type 0
  Short es = length es ≤ sub_buf_size

  -- No channel holds more than its capacity, and no backlog more than a buffer.
  pub record Bounded (h : Hub E) : Type 0 where
    pub channels : Values Fits h.subs
    pub backlogs : Values Short h.retained

  trim-Short : (es : List E) (observer : Option ℕ) → Short (trim es observer).0
  unfolding trim
  trim-Short [] observer = omega arith
  trim-Short (e ∷ es) observer = ground (arith, trim-Short es (observe_drop observer))

  append_backlog-Short :
      (e : E) (es : List E) (observer : Option ℕ)
      → Short es
      → Short (append_backlog e es observer).0
  unfolding append_backlog
  append_backlog-Short e es observer h =
      ground
        (arith, length-append es (e ∷ []), length-append (drop 1 es) (e ∷ []), length-drop 1 es)

  offer-Fits : (e : E) (s : Sub E) → Fits s → Fits (offer e s)
  unfolding offer
  offer-Fits e s h = ground (arith, length-append s.queue (e ∷ []))

  loop-Fits :
      (has_key : Bool) (key : Bytes) (e : E) (subs : List (ℕ × Sub E)) (attached : Bool)
      (observer : Option ℕ)
      → Values Fits subs
      → Values Fits (publish_loop has_key key e subs attached observer).0
  unfolding publish_loop
  loop-Fits has_key key e [] attached observer h = tt
  loop-Fits has_key key e ((i, s) ∷ subs) attached observer h =
      let rest =
        loop-Fits has_key key e subs (attach has_key key s attached)
          (count_drop has_key key s observer) h.1 in
      elim (Bool-cases (matches has_key key s.filter)) [
        | inl yes' ↦ rw yes' (offer-Fits e s h.0, rest)
        | inr no' ↦ rw no' (h.0, rest)
      ]

  pop-length : (q : List E) → length (pop_queue q).0 ≤ length q
  pop-length [] = omega arith
  pop-length (e ∷ q) = omega arith

  receive-Bounded : (id : ℕ) (h : Hub E) → Bounded h → Bounded (receive id h).0
  receive-Bounded id h v = elim (Option-cases (lookup ℕ_discrete id h.subs)) [
    | inl none' ↦ rw (receive-absent id h none') v
    | inr (s, found) ↦
        let fits = Values-lookup ℕ_discrete Fits id s h.subs v.channels found in
        rw (receive-present id h s found) (record {
          channels =
              Values-insert ℕ_discrete Fits id _ h.subs (omega (arith, fits, pop-length s.queue))
                v.channels;
          backlogs = v.backlogs;
        })
  ]

  publish-Bounded : (e : E) (h : Hub E) → Bounded h → Bounded (publish e h)
  publish-Bounded e h v =
      let key = key_for h.key_of e in
      let loop = publish_loop (is_some h.key_of) key e h.subs false h.drop_observer in
      let (subs, retained) = publish-parts e h in
      record {
        channels =
            subst (Values Fits) (sym subs)
              (loop-Fits (is_some h.key_of) key e h.subs false h.drop_observer v.channels);
        backlogs = elim retained [
          | inl same ↦ subst (Values Short) (sym same) v.backlogs
          | inr (es, kept, now) ↦ subst (Values Short) (sym now) (
              Values-insert bytes_dec Short key _ h.retained
                (append_backlog-Short e es loop.2
                  (Values-lookup bytes_dec Short key es h.retained v.backlogs kept))
                v.backlogs)
        ];
      }

  subscribe-Bounded : (f : Bytes) (h : Hub E) → Bounded h → Bounded (subscribe f h).0
  unfolding subscribe
  subscribe-Bounded f h v = record {
    channels = Values-insert ℕ_discrete Fits _ _ h.subs (omega arith) v.channels;
    backlogs = elim (Bool-cases (is_some (lookup bytes_dec f h.retained))) [
      | inl kept ↦ rw kept (Values-insert bytes_dec Short f [] h.retained (omega arith) v.backlogs)
      | inr gone ↦ rw gone v.backlogs
    ];
  }

  unsubscribe-Bounded : (id : ℕ) (h : Hub E) → Bounded h → Bounded (unsubscribe id h).0
  unfolding requeue
  unsubscribe-Bounded id h v =
      let left = Values-delete ℕ_discrete Fits id h.subs v.channels in
      elim (unsubscribe-cases id h) [
        | inl absent ↦ rw absent v
        | inr (s, found, how) ↦ elim how [
          | inl closed ↦ rw closed (record { channels = left; backlogs = v.backlogs })
          | inr (es, kept, requeued) ↦ rw requeued (record {
            channels = left;
            backlogs =
                Values-insert bytes_dec Short s.filter _ h.retained
                  (trim-Short (s.queue ++ es) h.drop_observer) v.backlogs;
          })
        ]
      ]

  retain-Bounded : (k : Bytes) (h : Hub E) → Bounded h → Bounded (retain k h)
  retain-Bounded k h v = elim (retain-cases k h) [
    | inl same ↦ rw same v
    | inr added ↦ rw added (record {
      channels = v.channels;
      backlogs = Values-insert bytes_dec Short k [] h.retained (omega arith) v.backlogs;
    })
  ]

  release-Bounded : (k : Bytes) (h : Hub E) → Bounded h → Bounded (release k h)
  unfolding release
  release-Bounded k h v = record {
    channels = v.channels;
    backlogs = Values-delete bytes_dec Short k h.retained v.backlogs;
  }

  apply-Bounded : (op : Op E) (h : Hub E) → Bounded h → Bounded (apply op h)
  unfolding apply
  apply-Bounded (publishes e) h v = publish-Bounded e h v
  apply-Bounded (subscribes f) h v = subscribe-Bounded f h v
  apply-Bounded (receives id) h v = receive-Bounded id h v
  apply-Bounded (unsubscribes id) h v = unsubscribe-Bounded id h v
  apply-Bounded (retains k) h v = retain-Bounded k h v
  apply-Bounded (releases k) h v = release-Bounded k h v

  run-from : (ops : List (Op E)) (h : Hub E) → Bounded h → Bounded (run ops h)
  unfolding run
  run-from [] h v = v
  run-from (op ∷ ops) h v = run-from ops (apply op h) (apply-Bounded op h v)

  -- After any history of calls on a new hub no channel holds more than its capacity, and no backlog
  -- more than 256 entries.
  pub run-Bounded :
      (ops : List (Op E)) (key_of : Option (E → Bytes)) (observer : Option ℕ)
      → Bounded (run ops (new_hub key_of observer))
  unfolding new_hub
  run-Bounded ops key_of observer =
      run-from ops (new_hub key_of observer) (record { channels = tt; backlogs = tt })
