-- ===== src/LogBridge/Hub/Subs.antt =====
-- The subscribers of a hub (logbridge/hub.go) that carry one filter: how many they are and what
-- waits in their channels.
use contextmatrix_backendkit.Prelude.{
  ℕ, suc, ◌+◌, ◌≤◌, ◌<◌, ◌≡◌, ◌≢◌, refl, List, [], ◌∷◌, ◌++◌, none, some, false, arith, Bytes,
  ℕ_discrete, if◌then◌else◌, append_assoc, append-nil,
}
use contextmatrix_backendkit.Prelude.Assoc.{lookup, insert, delete, lookup-insert, lookup-delete}
use contextmatrix_backendkit.LogBridge.Hub.{Sub, sub_buf_size, str_eq, holds}

-- No subscriber id stands twice, and none is above `n`.
abbrev pub Unique : {E : Type 0} → ℕ → List (ℕ × Sub E) → Type 0
Unique n [] = Unit {0}
Unique n ((id, s) ∷ subs) = (id ≤ n) × (lookup ℕ_discrete id subs ≡ none) × Unique n subs

module _ {E : Type 0} (k : Bytes) where
  -- How many subscribers carry the filter.
  unfoldable pub holders : List (ℕ × Sub E) → ℕ
  holders [] = 0
  holders ((id, s) ∷ subs) = if str_eq s.filter k then suc (holders subs) else holders subs

  -- What waits in their channels.
  unfoldable pub waiting : List (ℕ × Sub E) → List E
  waiting [] = []
  waiting ((id, s) ∷ subs) = if str_eq s.filter k then s.queue ++ waiting subs else waiting subs

  pub holds-holders : (subs : List (ℕ × Sub E)) → (holds k subs ≡ false) → holders subs ≡ 0
  unfolding holds holders
  holds-holders [] h = refl
  holds-holders ((id, s) ∷ subs) h = ground (arith, holds-holders subs)

  pub holders-holds : (subs : List (ℕ × Sub E)) → holders subs ≡ 0 → holds k subs ≡ false
  unfolding holds holders
  holders-holds [] h = refl
  holders-holds ((id, s) ∷ subs) h = ground (arith, holders-holds subs)

  pub waiting_none : (subs : List (ℕ × Sub E)) → holders subs ≡ 0 → waiting subs ≡ []
  unfolding holders waiting
  waiting_none [] h = refl
  waiting_none ((id, s) ∷ subs) h = ground (arith, waiting_none subs)

  -- A new id goes to the end.
  pub insert-new :
      (id n : ℕ) (s : Sub E) (subs : List (ℕ × Sub E))
      → Unique n subs
      → n < id
      → insert ℕ_discrete id s subs ≡ subs ++ (id, s) ∷ []
  unfolding insert
  insert-new id n s [] u h = refl
  insert-new id n s ((i, t) ∷ subs) u h = ground (arith, insert-new id n s subs u.2)

  pub holders-append : (xs ys : List (ℕ × Sub E)) → holders (xs ++ ys) ≡ holders xs + holders ys
  unfolding holders
  holders-append [] ys = omega arith
  holders-append ((i, t) ∷ xs) ys = ground (arith, holders-append xs ys)

  pub waiting-append : (xs ys : List (ℕ × Sub E)) → waiting (xs ++ ys) ≡ waiting xs ++ waiting ys
  unfolding waiting
  waiting-append [] ys = refl
  waiting-append ((i, t) ∷ xs) ys =
      ground (arith, waiting-append xs ys, append_assoc t.queue (waiting xs) (waiting ys))

  delete_absent :
      (id : ℕ) (subs : List (ℕ × Sub E))
      → lookup ℕ_discrete id subs ≡ none
      → delete ℕ_discrete id subs ≡ subs
  unfolding lookup delete
  delete_absent id [] h = refl
  delete_absent id ((i, t) ∷ subs) h = ground (arith, delete_absent id subs)

  -- Deleting a subscriber with another filter changes neither.
  pub delete_other :
      (id n : ℕ) (s : Sub E) (subs : List (ℕ × Sub E))
      → Unique n subs
      → lookup ℕ_discrete id subs ≡ some s
      → s.filter ≢ k
      → (holders (delete ℕ_discrete id subs) ≡ holders subs)
        × (waiting (delete ℕ_discrete id subs) ≡ waiting subs)
  unfolding lookup delete holders waiting
  delete_other id n s [] u h other = cc
  delete_other id n s ((i, t) ∷ subs) u h other =
      ground (arith, delete_other id n s subs u.2, delete_absent id subs)

  pub holders_pos :
      (id : ℕ) (s : Sub E) (subs : List (ℕ × Sub E))
      → lookup ℕ_discrete id subs ≡ some s
      → s.filter ≡ k
      → 0 < holders subs
  unfolding lookup holders
  holders_pos id s [] h same = cc
  holders_pos id s ((i, t) ∷ subs) h same = ground (arith, holders_pos id s subs)

  -- Deleting the one that holds the filter leaves none.
  pub delete_holder :
      (id n : ℕ) (s : Sub E) (subs : List (ℕ × Sub E))
      → Unique n subs
      → lookup ℕ_discrete id subs ≡ some s
      → s.filter ≡ k
      → holders subs ≤ 1
      → (holders (delete ℕ_discrete id subs) ≡ 0) × (holders subs ≡ 1) × (waiting subs ≡ s.queue)
  unfolding lookup delete holders waiting
  delete_holder id n s [] u h same one = cc
  delete_holder id n s ((i, t) ∷ subs) u h same one = ground (
    arith,
    delete_holder id n s subs u.2,
    delete_absent id subs,
    waiting_none subs,
    append-nil s.queue,
  )

  -- A channel that changes what waits in it.
  pub insert_other :
      (id n : ℕ) (s : Sub E) (queue : List E) (subs : List (ℕ × Sub E))
      → Unique n subs
      → lookup ℕ_discrete id subs ≡ some s
      → s.filter ≢ k
      → let subs' = insert ℕ_discrete id (record s { queue = queue }) subs in
        (holders subs' ≡ holders subs) × (waiting subs' ≡ waiting subs)
  unfolding lookup insert holders waiting
  insert_other id n s queue [] u h other = cc
  insert_other id n s queue ((i, t) ∷ subs) u h other =
      ground (arith, insert_other id n s queue subs u.2)

  pub insert_holder :
      (id n : ℕ) (s : Sub E) (queue : List E) (subs : List (ℕ × Sub E))
      → Unique n subs
      → lookup ℕ_discrete id subs ≡ some s
      → s.filter ≡ k
      → holders subs ≤ 1
      → let subs' = insert ℕ_discrete id (record s { queue = queue }) subs in
        (holders subs' ≡ 1) × (waiting subs' ≡ queue) × (waiting subs ≡ s.queue)
  unfolding lookup insert holders waiting
  insert_holder id n s queue [] u h same one = cc
  insert_holder id n s queue ((i, t) ∷ subs) u h same one = ground (
    arith,
    insert_holder id n s queue subs u.2,
    holders_pos id s subs,
    waiting_none subs,
    append-nil queue,
    append-nil s.queue,
  )

module _ {E : Type 0} where
  -- A channel has room for at least a full buffer.
  abbrev pub Wide : List (ℕ × Sub E) → Type 0
  Wide [] = Unit {0}
  Wide ((id, s) ∷ subs) = (sub_buf_size ≤ s.cap) × Wide subs

  lookup-append-new :
      (i id : ℕ) (s : Sub E) (subs : List (ℕ × Sub E))
      → lookup ℕ_discrete i subs ≡ none
      → i < id
      → lookup ℕ_discrete i (subs ++ (id, s) ∷ []) ≡ none
  unfolding lookup
  lookup-append-new i id s [] h lt = ground arith
  lookup-append-new i id s ((j, t) ∷ subs) h lt = ground (arith, lookup-append-new i id s subs)

  pub Unique-append :
      (n : ℕ) (s : Sub E) (subs : List (ℕ × Sub E))
      → Unique n subs
      → Unique (suc n) (subs ++ (suc n, s) ∷ [])
  unfolding lookup
  Unique-append n s [] u = (omega arith, refl, tt)
  Unique-append n s ((i, t) ∷ subs) u = (
    omega arith,
    lookup-append-new i (suc n) s subs u.1 (omega arith),
    Unique-append n s subs u.2,
  )

  pub Wide-append :
      (id : ℕ) (s : Sub E) (subs : List (ℕ × Sub E))
      → Wide subs
      → sub_buf_size ≤ s.cap
      → Wide (subs ++ (id, s) ∷ [])
  Wide-append id s [] w h = (h, tt)
  Wide-append id s ((i, t) ∷ subs) w h = (w.0, Wide-append id s subs w.1 h)

  pub Unique-delete :
      (n id : ℕ) (subs : List (ℕ × Sub E)) → Unique n subs → Unique n (delete ℕ_discrete id subs)
  unfolding delete
  Unique-delete n id [] u = tt
  Unique-delete n id ((i, t) ∷ subs) u =
      ground (arith, Unique-delete n id subs u.2, lookup-delete ℕ_discrete id i subs)

  pub Wide-delete :
      (id : ℕ) (subs : List (ℕ × Sub E)) → Wide subs → Wide (delete ℕ_discrete id subs)
  unfolding delete
  Wide-delete id [] w = tt
  Wide-delete id ((i, t) ∷ subs) w = ground (arith, Wide-delete id subs w.1)

  pub Unique-insert :
      (n id : ℕ) (s s' : Sub E) (subs : List (ℕ × Sub E))
      → Unique n subs
      → lookup ℕ_discrete id subs ≡ some s
      → Unique n (insert ℕ_discrete id s' subs)
  unfolding insert lookup
  Unique-insert n id s s' [] u h = cc
  Unique-insert n id s s' ((i, t) ∷ subs) u h =
      ground (arith, Unique-insert n id s s' subs u.2, lookup-insert ℕ_discrete id i s' subs)

  pub Wide-insert :
      (id : ℕ) (s : Sub E) (queue : List E) (subs : List (ℕ × Sub E))
      → Wide subs
      → lookup ℕ_discrete id subs ≡ some s
      → Wide (insert ℕ_discrete id (record s { queue = queue }) subs)
  unfolding insert lookup
  Wide-insert id s queue [] w h = cc
  Wide-insert id s queue ((i, t) ∷ subs) w h = ground (arith, Wide-insert id s queue subs w.1)
