-- ===== src/LogBridge/Hub/Unordered.antt =====
-- Histories of the hub (logbridge/hub.go) and the order of its map of subscribers.
use contextmatrix_backendkit.Prelude.{
  ℕ, suc, ◌≡◌, refl, ap, List, [], Option, none, some, Bool, true, false, arith, Bytes, bytes_dec,
  ℕ_discrete, if◌then◌else◌, inl, inr, Bool-cases, is_empty, ◌||◌, not,
}
use contextmatrix_backendkit.Prelude.Assoc.{lookup, insert, delete}
use contextmatrix_backendkit.LogBridge.Hub.{
  Sub, Hub, is_some, subscribe, unsubscribe, receive, retain, release, backlog, requeue, holds,
  pop_queue,
}
use contextmatrix_backendkit.LogBridge.Hub.Subs.{Unique}
use contextmatrix_backendkit.LogBridge.Hub.Consumers.{taken}
use contextmatrix_backendkit.LogBridge.Hub.History.{
  Op, publishes, subscribes, receives, unsubscribes, retains, releases, apply,
}
use contextmatrix_backendkit.LogBridge.Hub.Contents.{handed}
use contextmatrix_backendkit.LogBridge.Hub.Reordering.{
  Unique-Permᴰ, insert-Permᴰ, delete-Permᴰ, holds-Permᴰ,
}
use contextmatrix_backendkit.LogBridge.Hub.Order.{Reordered, publish-Reordered}
use mathlib.Core.List.{Permᴰ}

module _ {E : Type 0} where
  -- What a receive does, from the subscriber that it finds.
  abbrev received : Hub E → List (ℕ × Sub E) → ℕ → Option (Sub E) → Hub E × Option E
  received h xs id o = elim o [
    | none ↦ (record h { subs = xs }, none)
    | some s ↦ (
      record h { subs = insert ℕ_discrete id (record s { queue = (pop_queue s.queue).0 }) xs },
      (pop_queue s.queue).1,
    )
  ]

  receive-received :
      (h : Hub E) (xs : List (ℕ × Sub E)) (id : ℕ)
      → receive id (record h { subs = xs }) ≡ received h xs id (lookup ℕ_discrete id xs)
  unfolding receive
  receive-received h xs id = refl

  -- What an unsubscribe does, from the subscriber, its key's backlog and whether another holds its
  -- filter.
  abbrev closed : Hub E → List (ℕ × Sub E) → ℕ → Sub E → Option (List E) → Bool → Hub E × List E
  closed h xs id s kept others = elim kept [
    | none ↦ (record h { subs = delete ℕ_discrete id xs }, s.queue)
    | some es ↦ if others then (record h { subs = delete ℕ_discrete id xs }, s.queue) else (
      record h {
        subs = delete ℕ_discrete id xs;
        drop_observer = (requeue s.queue es h.drop_observer).1;
        retained = insert bytes_dec s.filter (requeue s.queue es h.drop_observer).0 h.retained;
      },
      [],
    )
  ]

  abbrev unsubscribed : Hub E → List (ℕ × Sub E) → ℕ → Option (Sub E) → Hub E × List E
  unsubscribed h xs id o = elim o [
    | none ↦ (record h { subs = xs }, [])
    | some s ↦
        closed h xs id s (lookup bytes_dec s.filter h.retained)
          (holds s.filter (delete ℕ_discrete id xs))
  ]

  unsubscribe-unsubscribed :
      (h : Hub E) (xs : List (ℕ × Sub E)) (id : ℕ)
      → unsubscribe id (record h { subs = xs }) ≡ unsubscribed h xs id (lookup ℕ_discrete id xs)
  unfolding unsubscribe
  unsubscribe-unsubscribed h xs id = refl

  retain-subs :
      (h : Hub E) (xs : List (ℕ × Sub E)) (k : Bytes)
      → retain k (record h { subs = xs }) ≡ record (retain k h) { subs = xs }
  unfolding retain
  retain-subs h xs k = elim (Bool-cases (is_empty k || not (is_some h.key_of))) [
    | inl a ↦ ground (arith, a)
    | inr b ↦ elim (Bool-cases (is_some (lookup bytes_dec k h.retained))) [
      | inl c ↦ ground (arith, b, c)
      | inr d ↦ ground (arith, b, d)
    ]
  ]

  same_but :
      (h : Hub E) (xs ys : List (ℕ × Sub E))
      → Permᴰ xs ys
      → Reordered (record h { subs = xs }) (record h { subs = ys })
  same_but h xs ys d = record {
    subs = d;
    next_id = refl;
    key_of = refl;
    drop_observer = refl;
    retained = refl;
  }

  -- A call on two hubs that differ in the order of the subscribers at most: so do the results, and
  -- it hands over the same.
  abbrev pub Alike : Op E → Hub E → Hub E → Type 0
  Alike op g h = Reordered (apply op g) (apply op h) × (handed op g ≡ handed op h)

  module _ (h : Hub E) (xs ys : List (ℕ × Sub E)) (u : Unique h.next_id xs) (d : Permᴰ xs ys) where
    abbrev Both : {A : Type 0} → (Hub E × A) → (Hub E × A) → Type 0
    Both p q = Reordered p.0 q.0 × (p.1 ≡ q.1)

    received-Both : (id : ℕ) (o : Option (Sub E)) → Both (received h xs id o) (received h ys id o)
    received-Both id none = (same_but h xs ys d, refl)
    received-Both id (some s) = (same_but h _ _ (insert-Permᴰ h.next_id id _ u d), refl)

    receive-Both :
        (id : ℕ) → Both (receive id (record h { subs = xs })) (receive id (record h { subs = ys }))
    receive-Both id =
        rw (receive-received h xs id, receive-received h ys id, (Unique-Permᴰ h.next_id u d).1 id)
          (received-Both id (lookup ℕ_discrete id ys))

    closed-Both :
        (id : ℕ) (s : Sub E) (kept : Option (List E)) (others : Bool)
        → Both (closed h xs id s kept others) (closed h ys id s kept others)
    closed-Both id s none others = (same_but h _ _ (delete-Permᴰ id d), refl)
    closed-Both id s (some es) true = (same_but h _ _ (delete-Permᴰ id d), refl)
    closed-Both id s (some es) false = (
      record {
        subs = delete-Permᴰ id d;
        next_id = refl;
        key_of = refl;
        drop_observer = refl;
        retained = refl;
      },
      refl,
    )

    unsubscribed-Both :
        (id : ℕ) (o : Option (Sub E)) → Both (unsubscribed h xs id o) (unsubscribed h ys id o)
    unsubscribed-Both id none = (same_but h xs ys d, refl)
    unsubscribed-Both id (some s) = rw (holds-Permᴰ s.filter (delete-Permᴰ id d)) (
        closed-Both id s (lookup bytes_dec s.filter h.retained)
          (holds s.filter (delete ℕ_discrete id ys)))

    unsubscribe-Both :
        (id : ℕ)
        → Both (unsubscribe id (record h { subs = xs })) (unsubscribe id (record h { subs = ys }))
    unsubscribe-Both id =
        rw
          (
            unsubscribe-unsubscribed h xs id,
            unsubscribe-unsubscribed h ys id,
            (Unique-Permᴰ h.next_id u d).1 id,
          )
          (unsubscribed-Both id (lookup ℕ_discrete id ys))

    subscribe-Reordered :
        (f : Bytes)
        → Reordered
            (subscribe f (record h { subs = xs })).0
            (subscribe f (record h { subs = ys })).0
    unfolding subscribe backlog
    subscribe-Reordered f = record {
      subs = insert-Permᴰ h.next_id (suc h.next_id) _ u d;
      next_id = refl;
      key_of = refl;
      drop_observer = refl;
      retained = refl;
    }

    pub apply-Alike : (op : Op E) → Alike op (record h { subs = xs }) (record h { subs = ys })
    unfolding apply handed release
    apply-Alike (publishes e) = (publish-Reordered e _ _ (same_but h xs ys d), refl)
    apply-Alike (subscribes f) = (subscribe-Reordered f, refl)
    apply-Alike (receives id) = let (r, got) = receive-Both id in (r, ap taken got)
    apply-Alike (unsubscribes id) = unsubscribe-Both id
    apply-Alike (retains k) =
        (rw (retain-subs h xs k, retain-subs h ys k) (same_but (retain k h) xs ys d), refl)
    apply-Alike (releases k) = (same_but (release k h) xs ys d, refl)
