-- ===== src/LogBridge/Hub/Numbered.antt =====
-- The ids of the subscribers (logbridge/hub.go) under the calls of the hub.
use contextmatrix_backendkit.Prelude.{
  ℕ, suc, ◌≡◌, refl, List, [], ◌∷◌, Option, none, Bool, false, arith, Bytes, bytes_dec, ℕ_discrete,
  Option-cases, inl, inr,
}
use contextmatrix_backendkit.Prelude.Assoc.{lookup}
use contextmatrix_backendkit.LogBridge.Hub.{
  Sub, Hub, publish_loop, attach, count_drop, key_for, is_some, publish, subscribe, unsubscribe,
  receive, retain, release, pop_queue,
}
use contextmatrix_backendkit.LogBridge.Hub.Subs.{
  Unique, Unique-append, Unique-insert, Unique-delete, insert-new,
}
use contextmatrix_backendkit.LogBridge.Hub.History.{
  Op, publishes, subscribes, receives, unsubscribes, retains, releases, apply,
}
use contextmatrix_backendkit.LogBridge.Hub.Order.{publish-stored}

module _ {E : Type 0} where
  -- Distinct ids, none above the counter.
  abbrev pub Numbered : Hub E → Type 0
  Numbered h = Unique h.next_id h.subs

  lookup-loop :
      (has_key : Bool) (key : Bytes) (e : E) (id : ℕ) (subs : List (ℕ × Sub E)) (attached : Bool)
      (observer : Option ℕ)
      → lookup ℕ_discrete id subs ≡ none
      → lookup ℕ_discrete id (publish_loop has_key key e subs attached observer).0 ≡ none
  unfolding publish_loop lookup
  lookup-loop has_key key e id [] attached observer h = refl
  lookup-loop has_key key e id ((i, s) ∷ subs) attached observer h = ground (
    arith,
    lookup-loop has_key key e id subs (attach has_key key s attached)
        (count_drop has_key key s observer),
  )

  loop-Unique :
      (has_key : Bool) (key : Bytes) (e : E) (n : ℕ) (subs : List (ℕ × Sub E)) (attached : Bool)
      (observer : Option ℕ)
      → Unique n subs
      → Unique n (publish_loop has_key key e subs attached observer).0
  unfolding publish_loop
  loop-Unique has_key key e n [] attached observer u = tt
  loop-Unique has_key key e n ((i, s) ∷ subs) attached observer u = (
    u.0,
    lookup-loop has_key key e i subs (attach has_key key s attached)
        (count_drop has_key key s observer) u.1,
    loop-Unique has_key key e n subs (attach has_key key s attached)
        (count_drop has_key key s observer) u.2,
  )

  publish-Numbered : (e : E) (h : Hub E) → Numbered h → Numbered (publish e h)
  publish-Numbered e h u = rw (publish-stored e h) (
      loop-Unique (is_some h.key_of) (key_for h.key_of e) e h.next_id h.subs false h.drop_observer
        u)

  subscribe-Numbered : (f : Bytes) (h : Hub E) → Numbered h → Numbered (subscribe f h).0
  unfolding subscribe
  subscribe-Numbered f h u =
      rw (insert-new [] (suc h.next_id) h.next_id _ h.subs u (omega arith))
        (Unique-append h.next_id _ h.subs u)

  receive-Numbered : (id : ℕ) (h : Hub E) → Numbered h → Numbered (receive id h).0
  unfolding receive
  receive-Numbered id h u = elim (Option-cases (lookup ℕ_discrete id h.subs)) [
    | inl none' ↦ ground (arith, none', u)
    | inr (s, found) ↦ ground (
      arith,
      found,
      Unique-insert h.next_id id s (record s { queue = (pop_queue s.queue).0 }) h.subs u found,
    )
  ]

  unsubscribe-Numbered : (id : ℕ) (h : Hub E) → Numbered h → Numbered (unsubscribe id h).0
  unfolding unsubscribe
  unsubscribe-Numbered id h u = elim (Option-cases (lookup ℕ_discrete id h.subs)) [
    | inl none' ↦ ground (arith, none', u)
    | inr (s, found) ↦ elim (Option-cases (lookup bytes_dec s.filter h.retained)) [
      | inl gone ↦ ground (arith, found, gone, Unique-delete h.next_id id h.subs u)
      | inr (es, kept) ↦ ground (arith, found, kept, Unique-delete h.next_id id h.subs u)
    ]
  ]

  pub apply-Numbered : (op : Op E) (h : Hub E) → Numbered h → Numbered (apply op h)
  unfolding apply retain release
  apply-Numbered (publishes e) h u = publish-Numbered e h u
  apply-Numbered (subscribes f) h u = subscribe-Numbered f h u
  apply-Numbered (receives id) h u = receive-Numbered id h u
  apply-Numbered (unsubscribes id) h u = unsubscribe-Numbered id h u
  apply-Numbered (retains k) h u = ground (arith, u)
  apply-Numbered (releases k) h u = u
