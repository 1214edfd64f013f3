-- ===== src/LogBridge/Hub/Leaving.antt =====
-- Consumers leave and keys are retained and released (logbridge/hub.go): the queue of a retained
-- key under Unsubscribe, Retain and Release.
use contextmatrix_backendkit.Prelude.{
  ℕ, ◌≤◌, ◌≡◌, ◌≢◌, refl, ◌∙◌, List, [], ◌∷◌, ◌++◌, Option, none, some, arith, Bytes, bytes_dec,
  ℕ_discrete, length, inl, inr, append-nil, Option-cases,
}
use contextmatrix_backendkit.Prelude.Assoc.{lookup, insert, delete, lookup-insert, lookup-delete}
use contextmatrix_backendkit.LogBridge.Hub.{
  Sub, Hub, sub_buf_size, retain, release, backlog, trim, requeue, unsubscribe,
}
use contextmatrix_backendkit.LogBridge.Hub.Subs.{
  holders, waiting, holders-holds, waiting_none, delete_other, delete_holder, Unique-delete,
  Wide-delete,
}
use contextmatrix_backendkit.LogBridge.Hub.Fifo.{Single, pending}

trim_fits :
    {E : Type 0} (es : List E) (observer : Option ℕ)
    → length es ≤ sub_buf_size
    → trim es observer ≡ (es, observer)
unfolding trim
trim_fits [] observer fits = refl
trim_fits (e ∷ es) observer fits = ground arith

module _ {E : Type 0} (k : Bytes) (key : E → Bytes) (h : Hub E) (v : Single k key h) where
  pub unsubscribe_absent :
      (id : ℕ) → lookup ℕ_discrete id h.subs ≡ none → unsubscribe id h ≡ (h, [])
  unfolding unsubscribe
  unsubscribe_absent id missing = ground (arith, missing)

  module _ (id : ℕ) (s : Sub E) (found : lookup ℕ_discrete id h.subs ≡ some s) where
    abbrev left : List (ℕ × Sub E)
    left = delete ℕ_discrete id h.subs

    module _ (same : s.filter ≡ k) where
      left_holders : (holders k left ≡ 0) × (holders k h.subs ≡ 1) × (waiting k h.subs ≡ s.queue)
      left_holders = delete_holder k id h.next_id s h.subs v.unique found same v.one

      backlog_empty : backlog k h ≡ []
      backlog_empty = ground (arith, v.clear, left_holders)

      requeued_pending :
          length (pending k h) ≤ sub_buf_size
          → pending k
              (record h { subs = left; retained = insert bytes_dec k (pending k h) h.retained })
            ≡ pending k h
      unfolding pending backlog
      requeued_pending fits = ground (
        arith,
        waiting_none k left left_holders.0,
        lookup-insert bytes_dec k k (waiting k h.subs ++ backlog k h) h.retained,
      )

      -- What the leaving consumer never read goes back to the backlog.
      unsubscribe_held :
          length (pending k h) ≤ sub_buf_size
          → unsubscribe id h
            ≡ (record h { subs = left; retained = insert bytes_dec k (pending k h) h.retained }, [])
      unfolding unsubscribe pending backlog
      unsubscribe_held fits = ground (
        arith,
        found,
        v.kept,
        left_holders,
        backlog_empty,
        holders-holds k left left_holders.0,
        append-nil s.queue,
        trim_fits s.queue h.drop_observer,
      )

      pub pending-unsubscribe_held :
          length (pending k h) ≤ sub_buf_size → pending k (unsubscribe id h).0 ≡ pending k h
      pending-unsubscribe_held fits = rw (unsubscribe_held fits) (requeued_pending fits)

      pub unsubscribe_held-Single :
          length (pending k h) ≤ sub_buf_size → Single k key (unsubscribe id h).0
      unsubscribe_held-Single fits = rw (unsubscribe_held fits) (record {
        keyed = v.keyed;
        unique = Unique-delete h.next_id id h.subs v.unique;
        one = omega (arith, left_holders.0);
        wide = Wide-delete id h.subs v.wide;
        kept = ground (arith, lookup-insert bytes_dec k k (pending k h) h.retained);
        clear = inl left_holders.0;
      })

      pub unheld-unsubscribe :
          length (pending k h) ≤ sub_buf_size → holders k (unsubscribe id h).0.subs ≡ 0
      unheld-unsubscribe fits = rw (unsubscribe_held fits) left_holders.0

    module _ (other : s.filter ≢ k) where
      left_other : (holders k left ≡ holders k h.subs) × (waiting k left ≡ waiting k h.subs)
      left_other = delete_other k id h.next_id s h.subs v.unique found other

      abbrev requeued : List E → List E
      requeued es = (requeue s.queue es h.drop_observer).0

      -- Where another key's consumer leaves, the key's own entries stay as they are.
      unsubscribe_ne :
          ((unsubscribe id h).0.key_of ≡ h.key_of)
          × ((unsubscribe id h).0.subs ≡ left)
          × ((unsubscribe id h).0.next_id ≡ h.next_id)
          × (lookup bytes_dec k (unsubscribe id h).0.retained ≡ lookup bytes_dec k h.retained)
      unfolding unsubscribe
      unsubscribe_ne = elim (Option-cases (lookup bytes_dec s.filter h.retained)) [
        | inl e ↦ ground (arith, found, e)
        | inr (es, e) ↦
            ground (arith, found, e, lookup-insert bytes_dec s.filter k (requeued es) h.retained)
      ]

      pub pending-unsubscribe_ne : pending k (unsubscribe id h).0 ≡ pending k h
      unfolding pending backlog
      pending-unsubscribe_ne = ground (arith, unsubscribe_ne, left_other)

      pub unsubscribe_ne-Single : Single k key (unsubscribe id h).0
      unfolding backlog
      unsubscribe_ne-Single = record {
        keyed = unsubscribe_ne.0 ∙ v.keyed;
        unique =
            rw (unsubscribe_ne.1, unsubscribe_ne.2) (Unique-delete h.next_id id h.subs v.unique);
        one = rw unsubscribe_ne.1 (omega (arith, left_other.0, v.one));
        wide = rw unsubscribe_ne.1 (Wide-delete id h.subs v.wide);
        kept = rw unsubscribe_ne.3 v.kept;
        clear = ground (arith, v.clear, unsubscribe_ne, left_other);
      }

  -- Retaining a key and releasing another leave the key's entries alone.
  pub pending-retain : (j : Bytes) → pending k (retain j h) ≡ pending k h
  unfolding retain pending backlog
  pending-retain j = ground (arith, v.kept, lookup-insert bytes_dec j k [] h.retained)

  pub retain-Single : (j : Bytes) → Single k key (retain j h)
  unfolding retain backlog
  retain-Single j = ground (
    arith,
    v,
    v.keyed,
    v.unique,
    v.one,
    v.wide,
    v.kept,
    v.clear,
    lookup-insert bytes_dec j k [] h.retained,
  )

  pub pending-release : (j : Bytes) → j ≢ k → pending k (release j h) ≡ pending k h
  unfolding release pending backlog
  pending-release j other = ground (arith, lookup-delete bytes_dec j k h.retained)

  pub release-Single : (j : Bytes) → j ≢ k → Single k key (release j h)
  unfolding release backlog
  release-Single j other = record {
    keyed = v.keyed;
    unique = v.unique;
    one = v.one;
    wide = v.wide;
    kept = ground (arith, v.kept, lookup-delete bytes_dec j k h.retained);
    clear = ground (arith, v.clear, lookup-delete bytes_dec j k h.retained);
  }
