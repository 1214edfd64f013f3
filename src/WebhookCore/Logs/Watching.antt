-- ===== src/WebhookCore/Logs/Watching.antt =====
-- A subscriber under the calls of others (logbridge/hub.go): it keeps its filter, and receives what
-- no other does.
use contextmatrix_backendkit.Prelude.{
  ℕ, suc, ◌≤◌, ◌≡◌, ◌≢◌, refl, ap, sym, ◌∙◌, List, [], ◌∷◌, Option, none, some, Bool, false, arith,
  Bytes, bytes_dec, ℕ_discrete, if◌then◌else◌, inl, inr, Option-cases, ite,
}
use contextmatrix_backendkit.Prelude.Assoc.{lookup, insert, delete, lookup-insert, lookup-delete}
use contextmatrix_backendkit.LogBridge.Hub.{
  Sub, Hub, subscribe, unsubscribe, publish, retain, release, receive, publish_loop, offer, matches,
  attach, count_drop, key_for, is_some, pop_queue,
}
use contextmatrix_backendkit.LogBridge.Hub.Subs.{Unique, holders_pos, delete_holder}
use contextmatrix_backendkit.LogBridge.Hub.Fifo.{Single}
use contextmatrix_backendkit.LogBridge.Hub.History.{
  Op, publishes, subscribes, receives, unsubscribes, retains, releases, apply, got_by,
}

module _ {E : Type 0} where
  -- The filter of a subscriber.
  unfoldable pub filter_of : ℕ → List (ℕ × Sub E) → Option Bytes
  filter_of id subs = elim (lookup ℕ_discrete id subs) [ none ↦ none | some s ↦ some s.filter ]

  -- A call that is not made on the subscriber itself.
  abbrev pub Leaves : ℕ → Op E → Type 0
  Leaves id (receives j) = j ≢ id
  Leaves id (unsubscribes j) = j ≢ id
  Leaves id (publishes e) = Unit {0}
  Leaves id (subscribes f) = Unit {0}
  Leaves id (retains j) = Unit {0}
  Leaves id (releases j) = Unit {0}

  lookup-le :
      (id n : ℕ) (s : Sub E) (subs : List (ℕ × Sub E))
      → Unique n subs
      → lookup ℕ_discrete id subs ≡ some s
      → id ≤ n
  unfolding lookup
  lookup-le id n s [] u h = absurd (cc)
  lookup-le id n s ((i, t) ∷ subs) u h = ground (arith, lookup-le id n s subs u.2)

  filter_of-cons :
      (id i : ℕ) (s : Sub E) (subs : List (ℕ × Sub E))
      → filter_of id ((i, s) ∷ subs) ≡ ite (ℕ_discrete i id) (some s.filter) (filter_of id subs)
  unfolding filter_of lookup
  filter_of-cons id i s subs = ground arith

  filter-offer : (e : E) (s : Sub E) (b : Bool) → (if b then offer e s else s).filter ≡ s.filter
  unfolding offer
  filter-offer e s b = ground arith

  filter_of-publish_loop :
      (id : ℕ) (has_key : Bool) (key : Bytes) (e : E) (subs : List (ℕ × Sub E)) (attached : Bool)
      (observer : Option ℕ)
      → filter_of id (publish_loop has_key key e subs attached observer).0 ≡ filter_of id subs
  unfolding publish_loop
  filter_of-publish_loop id has_key key e [] attached observer = refl
  filter_of-publish_loop id has_key key e ((i, s) ∷ subs) attached observer =
      let s' = if matches has_key key s.filter then offer e s else s in
      let rest =
        (publish_loop has_key key e subs (attach has_key key s attached)
          (count_drop has_key key s observer)).0 in
      filter_of-cons id i s' rest
      ∙ ap (λ f. ite (ℕ_discrete i id) (some f) (filter_of id rest))
          (filter-offer e s (matches has_key key s.filter))
      ∙ ap (ite (ℕ_discrete i id) (some s.filter)) (
          filter_of-publish_loop id has_key key e subs (attach has_key key s attached)
            (count_drop has_key key s observer))
      ∙ sym (filter_of-cons id i s subs)

  filter_of-publish :
      (id : ℕ) (e : E) (h : Hub E) → filter_of id (publish e h).subs ≡ filter_of id h.subs
  unfolding publish
  filter_of-publish id e h =
      let key = key_for h.key_of e in
      let loop = filter_of-publish_loop id (is_some h.key_of) key e h.subs false h.drop_observer in
      elim (Option-cases (lookup bytes_dec key h.retained)) [
        | inl missing ↦ ground (arith, missing, loop)
        | inr (es, kept) ↦ ground (arith, kept, loop)
      ]

  filter_of-insert_ne :
      (id j : ℕ) (s : Sub E) (subs : List (ℕ × Sub E))
      → j ≢ id
      → filter_of id (insert ℕ_discrete j s subs) ≡ filter_of id subs
  unfolding filter_of
  filter_of-insert_ne id j s subs other = ground (arith, lookup-insert ℕ_discrete j id s subs)

  filter_of-insert_same :
      (id j : ℕ) (s t : Sub E) (subs : List (ℕ × Sub E))
      → lookup ℕ_discrete j subs ≡ some s
      → t.filter ≡ s.filter
      → filter_of id (insert ℕ_discrete j t subs) ≡ filter_of id subs
  unfolding filter_of
  filter_of-insert_same id j s t subs found same = elim (ℕ_discrete j id) [
    | yes p ↦ ground (arith, p, found, same, lookup-insert ℕ_discrete j id t subs)
    | no q ↦ ground (arith, q, lookup-insert ℕ_discrete j id t subs)
  ]

  pub filter_of-insert :
      (id : ℕ) (s : Sub E) (subs : List (ℕ × Sub E))
      → filter_of id (insert ℕ_discrete id s subs) ≡ some s.filter
  unfolding filter_of
  filter_of-insert id s subs = ground (arith, lookup-insert ℕ_discrete id id s subs)

  pub filter_of-receive :
      (id j : ℕ) (h : Hub E) → filter_of id (receive j h).0.subs ≡ filter_of id h.subs
  unfolding receive
  filter_of-receive id j h = elim (Option-cases (lookup ℕ_discrete j h.subs)) [
    | inl missing ↦ ground (arith, missing)
    | inr (s, found) ↦ ground (
      arith,
      found,
      filter_of-insert_same id j s (record s { queue = (pop_queue s.queue).0 }) h.subs found refl,
    )
  ]

  filter_of-unsubscribe :
      (id j : ℕ) (h : Hub E) → j ≢ id → filter_of id (unsubscribe j h).0.subs ≡ filter_of id h.subs
  unfolding unsubscribe filter_of
  filter_of-unsubscribe id j h other = elim (Option-cases (lookup ℕ_discrete j h.subs)) [
    | inl missing ↦ ground (arith, missing)
    | inr (s, found) ↦ elim (Option-cases (lookup bytes_dec s.filter h.retained)) [
      | inl gone ↦ ground (arith, found, gone, lookup-delete ℕ_discrete j id h.subs)
      | inr (es, kept) ↦ ground (arith, found, kept, lookup-delete ℕ_discrete j id h.subs)
    ]
  ]

  filter_of-subscribe :
      (id : ℕ) (f : Bytes) (h : Hub E)
      → id ≤ h.next_id
      → filter_of id (subscribe f h).0.subs ≡ filter_of id h.subs
  unfolding subscribe
  filter_of-subscribe id f h known =
      filter_of-insert_ne id (suc h.next_id) _ h.subs (λ e. omega (arith, e))

  -- A subscriber keeps its filter under every call that is not made on it.
  pub filter_of-apply :
      (id : ℕ) (op : Op E) (h : Hub E)
      → Leaves id op
      → id ≤ h.next_id
      → filter_of id (apply op h).subs ≡ filter_of id h.subs
  unfolding apply retain release
  filter_of-apply id (publishes e) h other known = filter_of-publish id e h
  filter_of-apply id (subscribes f) h other known = filter_of-subscribe id f h known
  filter_of-apply id (receives j) h other known = filter_of-receive id j h
  filter_of-apply id (unsubscribes j) h other known = filter_of-unsubscribe id j h other
  filter_of-apply id (retains j) h other known = ground arith
  filter_of-apply id (releases j) h other known = refl

module _ {E : Type 0} (k : Bytes) (key : E → Bytes) (h : Hub E) (v : Single k key h) (id : ℕ)
    (watches : filter_of id h.subs ≡ some k) where
  pub watcher : (s : Sub E) × (lookup ℕ_discrete id h.subs ≡ some s) × (s.filter ≡ k)
  unfolding filter_of
  watcher = elim (Option-cases (lookup ℕ_discrete id h.subs)) [
    | inl missing ↦ absurd (ground (arith, missing))
    | inr (s, found) ↦ (s, found, ground (arith, found))
  ]

  pub watcher-le : id ≤ h.next_id
  watcher-le = let (s, found, same) = watcher in lookup-le id h.next_id s h.subs v.unique found

  -- No other subscriber carries the key.
  other_filter : (j : ℕ) (t : Sub E) → lookup ℕ_discrete j h.subs ≡ some t → j ≢ id → t.filter ≢ k
  other_filter j t found other same =
      let (s, mine, held) = watcher in
      let (none_left, _, _) = delete_holder k id h.next_id s h.subs v.unique mine held v.one in
      omega (
        arith,
        none_left,
        holders_pos k j t (delete ℕ_discrete id h.subs)
            (ground (arith, lookup-delete ℕ_discrete id j h.subs, found)) same,
      )

  -- What others do hands nothing of the key to them.
  pub got_by-Leaves : (op : Op E) → Leaves id op → got_by k key op h ≡ []
  unfolding got_by
  got_by-Leaves (publishes e) other = refl
  got_by-Leaves (subscribes f) other = refl
  got_by-Leaves (receives j) other = elim (Option-cases (lookup ℕ_discrete j h.subs)) [
    | inl missing ↦ ground (arith, missing)
    | inr (t, found) ↦ ground (arith, found, other_filter j t found other)
  ]
  got_by-Leaves (unsubscribes j) other = refl
  got_by-Leaves (retains j) other = refl
  got_by-Leaves (releases j) other = refl
