-- ===== src/LogBridge/Hub/Contents.antt =====
-- What the hub hands over (logbridge/hub.go), by a predicate on entries.
use contextmatrix_backendkit.Prelude.{
  ℕ, ◌≡◌, List, [], ◌∷◌, ◌++◌, All, All-append, Option, none, some, arith, bytes_dec, ℕ_discrete,
  inl, inr, Option-cases, Bool-cases, ◌⊎◌,
}
use contextmatrix_backendkit.Prelude.Assoc.{
  lookup, insert, delete, Values-insert, Values-delete, Values-lookup,
}
use contextmatrix_backendkit.LogBridge.Hub.{
  Sub, Hub, unsubscribe, receive, pop_queue, requeue, holds,
}
use contextmatrix_backendkit.LogBridge.Hub.Consumers.{taken}
use contextmatrix_backendkit.LogBridge.Hub.History.{
  Op, publishes, subscribes, receives, unsubscribes, retains, releases, apply,
}
use contextmatrix_backendkit.LogBridge.Hub.Stored.{
  Holds, All-trim, publish-Holds, subscribe-Holds, retain-Holds, release-Holds,
}

-- What a call hands to the consumer that makes it, or that it leaves in the consumer's closed
-- channel.
unfoldable pub handed : {E : Type 0} → Op E → Hub E → List E
handed (receives id) h = taken (receive id h).1
handed (unsubscribes id) h = (unsubscribe id h).1
handed _ h = []

module _ {E : Type 0} where
  pub unsubscribe-cases :
      (id : ℕ) (h : Hub E)
      → (unsubscribe id h ≡ (h, []))
        ⊎ ((s : Sub E) × (lookup ℕ_discrete id h.subs ≡ some s)
            × ((unsubscribe id h ≡ (record h { subs = delete ℕ_discrete id h.subs }, s.queue))
                ⊎ ((es : List E) × (lookup bytes_dec s.filter h.retained ≡ some es)
                    × (unsubscribe id h ≡ (
                      record h {
                        subs = delete ℕ_discrete id h.subs;
                        drop_observer = (requeue s.queue es h.drop_observer).1;
                        retained =
                            insert bytes_dec s.filter
                              (requeue s.queue es h.drop_observer).0
                              h.retained;
                      },
                      [],
                    )))))
  unfolding unsubscribe
  unsubscribe-cases id h = elim (Option-cases (lookup ℕ_discrete id h.subs)) [
    | inl none' ↦ inl (ground (arith, none'))
    | inr (s, found) ↦ elim (Option-cases (lookup bytes_dec s.filter h.retained)) [
      | inl gone ↦ inr (s, found, inl (ground (arith, found, gone)))
      | inr (es, kept) ↦ elim (Bool-cases (holds s.filter (delete ℕ_discrete id h.subs))) [
        | inl others ↦ inr (s, found, inl (ground (arith, found, kept, others)))
        | inr alone ↦ inr (s, found, inr (es, kept, ground (arith, found, kept, alone)))
      ]
    ]
  ]

  pub receive-absent :
      (id : ℕ) (h : Hub E) → lookup ℕ_discrete id h.subs ≡ none → receive id h ≡ (h, none)
  unfolding receive
  receive-absent id h none' = ground (arith, none')

  pub receive-present :
      (id : ℕ) (h : Hub E) (s : Sub E)
      → lookup ℕ_discrete id h.subs ≡ some s
      → receive id h ≡ (
        record h {
          subs = insert ℕ_discrete id (record s { queue = (pop_queue s.queue).0 }) h.subs;
        },
        (pop_queue s.queue).1,
      )
  unfolding receive
  receive-present id h s found = ground (arith, found)

module _ {E : Type 0} (P : E → Type 0) where
  -- What a consumer that leaves finds in its closed channel is also the predicate's.
  abbrev Left : Hub E × List E → Type 0
  Left r = Holds P r.0 × All P r.1

  unsubscribe-Left : (id : ℕ) (h : Hub E) → Holds P h → Left (unsubscribe id h)
  unfolding requeue
  unsubscribe-Left id h v =
      let left = Values-delete ℕ_discrete (λ (s : Sub E). All P s.queue) id h.subs v.queues in
      elim (unsubscribe-cases id h) [
        | inl absent ↦ rw absent (v, tt)
        | inr (s, found, how) ↦
            let queue =
              Values-lookup ℕ_discrete (λ (s : Sub E). All P s.queue) id s h.subs v.queues found in
            elim how [
              | inl closed ↦ rw closed (record { queues = left; backlogs = v.backlogs }, queue)
              | inr (es, kept, requeued) ↦
                  let merged = All-trim P (s.queue ++ es) h.drop_observer (
                    All-append P s.queue es queue
                      (Values-lookup bytes_dec (All P) s.filter es h.retained v.backlogs kept)) in
                  rw requeued (
                    record {
                      queues = left;
                      backlogs =
                          Values-insert bytes_dec (All P) s.filter _ h.retained merged v.backlogs;
                    },
                    tt,
                  )
            ]
      ]

  All-pop : (q : List E) → All P q → All P (pop_queue q).0 × All P (taken (pop_queue q).1)
  All-pop [] h = (tt, tt)
  All-pop (e ∷ q) h = (h.1, (h.0, tt))

  abbrev Taken : Hub E × Option E → Type 0
  Taken r = Holds P r.0 × All P (taken r.1)

  receive-Taken : (id : ℕ) (h : Hub E) → Holds P h → Taken (receive id h)
  receive-Taken id h v = elim (Option-cases (lookup ℕ_discrete id h.subs)) [
    | inl none' ↦ rw (receive-absent id h none') (v, tt)
    | inr (s, found) ↦
        let (queue, got) =
          All-pop s.queue
            (Values-lookup ℕ_discrete (λ (s : Sub E). All P s.queue) id s h.subs v.queues found) in
        rw (receive-present id h s found) (
          record {
            queues =
                Values-insert ℕ_discrete (λ (s : Sub E). All P s.queue) id _ h.subs queue v.queues;
            backlogs = v.backlogs;
          },
          got,
        )
  ]

  -- An entry that is published is the predicate's.
  abbrev pub Fresh : Op E → Type 0
  Fresh (publishes e) = P e
  Fresh _ = Unit {0}

  pub apply-Holds : (op : Op E) (h : Hub E) → Fresh op → Holds P h → Holds P (apply op h)
  unfolding apply
  apply-Holds (publishes e) h p v = publish-Holds P e h p v
  apply-Holds (subscribes f) h p v = subscribe-Holds P f h v
  apply-Holds (receives id) h p v = (receive-Taken id h v).0
  apply-Holds (unsubscribes id) h p v = (unsubscribe-Left id h v).0
  apply-Holds (retains k) h p v = retain-Holds P k h v
  apply-Holds (releases k) h p v = release-Holds P k h v

  pub handed-All : (op : Op E) (h : Hub E) → Holds P h → All P (handed op h)
  unfolding handed
  handed-All (publishes e) h v = tt
  handed-All (subscribes f) h v = tt
  handed-All (receives id) h v = (receive-Taken id h v).1
  handed-All (unsubscribes id) h v = (unsubscribe-Left id h v).1
  handed-All (retains k) h v = tt
  handed-All (releases k) h v = tt
