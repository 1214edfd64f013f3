-- ===== src/LogBridge/Hub/Kept.antt =====
-- What one call of the hub (logbridge/hub.go) does to the queue of a retained key.
use contextmatrix_backendkit.Prelude.{
  ℕ, ◌≤◌, ◌≡◌, refl, ap, List, [], ◌∷◌, ◌++◌, false, arith, Bytes, bytes_dec, ℕ_discrete, length,
  length-append, inl, inr, append-nil, is_empty, Option-cases,
}
use contextmatrix_backendkit.Prelude.Assoc.{lookup}
use contextmatrix_backendkit.LogBridge.Hub.{Hub, sub_buf_size, unsubscribe, publish, receive}
use contextmatrix_backendkit.LogBridge.Hub.Fifo.{
  Single, pending, publish-pending, publish_ne, publish-Single,
}
use contextmatrix_backendkit.LogBridge.Hub.Consumers.{
  taken, pending-subscribe_unheld, pending-subscribe_ne, subscribe-Single, pending-receive_held,
  pending-receive_ne, receive_absent, receive-Single,
}
use contextmatrix_backendkit.LogBridge.Hub.Leaving.{
  unsubscribe_absent, pending-unsubscribe_held, unsubscribe_held-Single, pending-unsubscribe_ne,
  unsubscribe_ne-Single, pending-retain, retain-Single, pending-release, release-Single,
}
use contextmatrix_backendkit.LogBridge.Hub.History.{
  Op, publishes, subscribes, receives, unsubscribes, retains, releases, apply, sent_by, got_by,
  Allowed,
}

module _ {E : Type 0} (k : Bytes) (key : E → Bytes) where
  pub record Kept (op : Op E) (h h' : Hub E) : Type 0 where
    pub single : Single k key h'
    pub fits : length (pending k h') ≤ sub_buf_size
    pub balance : pending k h ++ sent_by k key op ≡ got_by k key op h ++ pending k h'

  -- A call that hands over nothing and leaves the queue alone.
  still :
      (op : Op E) (h h' : Hub E)
      → Single k key h'
      → length (pending k h) ≤ sub_buf_size
      → sent_by k key op ≡ []
      → got_by k key op h ≡ []
      → pending k h' ≡ pending k h
      → Kept op h h'
  still op h h' v fits nothing silent same = record {
    single = v;
    fits = rw same fits;
    balance = ground (arith, append-nil (pending k h));
  }

  length-rest : (es : List E) (rest : List E) → length rest ≤ length (es ++ rest)
  length-rest es rest = omega (arith, length-append es rest)

  receives-Kept :
      (id : ℕ) (h : Hub E)
      → Single k key h
      → length (pending k h) ≤ sub_buf_size
      → Kept (receives id) h (receive id h).0
  unfolding got_by
  receives-Kept id h v fits = elim (Option-cases (lookup ℕ_discrete id h.subs)) [
    | inl missing ↦
        rw (receive_absent k key h v id missing)
          (still (receives id) h h v fits refl (ground arith) refl)
    | inr (s, found) ↦ elim (bytes_dec s.filter k) [
      | yes same ↦
          let moved = pending-receive_held k key h v id s found same in
          record {
            single = receive-Single k key h v id s found;
            fits = omega (
              arith,
              ap length moved,
              length-rest (taken (receive id h).1) (pending k (receive id h).0),
            );
            balance = ground (arith, found, moved, append-nil (pending k h));
          }
      | no other ↦
          still (receives id) h _ (receive-Single k key h v id s found) fits refl
            (ground (arith, found)) (pending-receive_ne k key h v id s found other)
    ]
  ]

  unsubscribes-Kept :
      (id : ℕ) (h : Hub E)
      → Single k key h
      → length (pending k h) ≤ sub_buf_size
      → Kept (unsubscribes id) h (unsubscribe id h).0
  unfolding got_by
  unsubscribes-Kept id h v fits = elim (Option-cases (lookup ℕ_discrete id h.subs)) [
    | inl missing ↦
        rw (unsubscribe_absent k key h v id missing)
          (still (unsubscribes id) h h v fits refl refl refl)
    | inr (s, found) ↦ elim (bytes_dec s.filter k) [
      | yes same ↦
          still (unsubscribes id) h _ (unsubscribe_held-Single k key h v id s found same fits) fits
            refl refl (pending-unsubscribe_held k key h v id s found same fits)
      | no other ↦
          still (unsubscribes id) h _ (unsubscribe_ne-Single k key h v id s found other) fits refl
            refl (pending-unsubscribe_ne k key h v id s found other)
    ]
  ]

  module _ (some_key : is_empty k ≡ false) where
    publishes-Kept :
        (e : E) (h : Hub E)
        → Single k key h
        → length (pending k h) ≤ sub_buf_size
        → Allowed k key (publishes e) h
        → Kept (publishes e) h (publish e h)
    unfolding got_by
    publishes-Kept e h v fits room = elim (bytes_dec (key e) k) [
      | yes p ↦
          let more = publish-pending k some_key key h v e p (ground (arith, room)) in
          record {
            single = publish-Single k some_key key h v e;
            fits = ground (arith, room, ap length more, length-append (pending k h) (e ∷ []));
            balance = ground (arith, more);
          }
      | no q ↦
          still (publishes e) h _ (publish-Single k some_key key h v e) fits (ground arith) refl
            (publish_ne k some_key key h v e q)
    ]

    pub apply-Kept :
        (op : Op E) (h : Hub E)
        → Single k key h
        → length (pending k h) ≤ sub_buf_size
        → Allowed k key op h
        → Kept op h (apply op h)
    unfolding apply got_by
    apply-Kept (publishes e) h v fits ok = publishes-Kept e h v fits ok
    apply-Kept (subscribes f) h v fits (inl other) =
        still (subscribes f) h _ (subscribe-Single k key h v f (inl other)) fits refl refl
          (pending-subscribe_ne k key h v f other)
    apply-Kept (subscribes f) h v fits (inr free) =
        still (subscribes f) h _ (subscribe-Single k key h v f (inr free)) fits refl refl
          (pending-subscribe_unheld k key h v f free)
    apply-Kept (receives id) h v fits ok = receives-Kept id h v fits
    apply-Kept (unsubscribes id) h v fits ok = unsubscribes-Kept id h v fits
    apply-Kept (retains j) h v fits ok =
        still (retains j) h _ (retain-Single k key h v j) fits refl refl
          (pending-retain k key h v j)
    apply-Kept (releases j) h v fits ok =
        still (releases j) h _ (release-Single k key h v j ok) fits refl refl
          (pending-release k key h v j ok)
