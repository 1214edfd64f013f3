-- ===== src/LogBridge/Hub/Consumers.antt =====
-- Consumers come and read (logbridge/hub.go): the queue of a retained key under Subscribe and under
-- receives.
use contextmatrix_backendkit.Prelude.{
  ℕ, suc, ◌+◌, ◌≡◌, ◌≢◌, refl, ap, List, [], ◌∷◌, ◌++◌, Option, none, some, arith, Bytes, bytes_dec,
  ℕ_discrete, length, if◌then◌else◌, append-nil, ◌⊎◌,
}
use contextmatrix_backendkit.Prelude.Assoc.{lookup, insert, lookup-insert}
use contextmatrix_backendkit.LogBridge.Hub.{
  Sub, Hub, sub_buf_size, str_eq, backlog, subscribe, pop_queue, receive,
}
use contextmatrix_backendkit.LogBridge.Hub.Subs.{
  holders, waiting, waiting_none, insert-new, holders-append, waiting-append, holders_pos,
  insert_other, insert_holder, Unique-append, Wide-append, Unique-insert, Wide-insert,
}
use contextmatrix_backendkit.LogBridge.Hub.Fifo.{Single, pending}

-- What a receive hands over.
abbrev pub taken {ℓ} : {A : Type ℓ} → Option A → List A
taken none = []
taken (some a) = a ∷ []

pop_split :
    {A : Type 0} (q rest : List A) → q ++ rest ≡ taken (pop_queue q).1 ++ ((pop_queue q).0 ++ rest)
pop_split [] rest = refl
pop_split (e ∷ q) rest = refl

module _ {E : Type 0} (k : Bytes) (key : E → Bytes) (h : Hub E) (v : Single k key h) where
  abbrev newcomer : Bytes → Sub E
  newcomer f = record { queue = backlog f h; cap = sub_buf_size + length (backlog f h); filter = f }

  subs-subscribe : (f : Bytes) → (subscribe f h).0.subs ≡ h.subs ++ (suc h.next_id, newcomer f) ∷ []
  unfolding subscribe
  subs-subscribe f =
      insert-new k (suc h.next_id) h.next_id (newcomer f) h.subs v.unique (omega arith)

  pub pending-subscribe_unheld :
      (f : Bytes) → holders k h.subs ≡ 0 → pending k (subscribe f h).0 ≡ pending k h
  unfolding subscribe pending waiting backlog
  pending-subscribe_unheld f none_held = ground (
    arith,
    ap (waiting k) (subs-subscribe f),
    waiting-append k h.subs ((suc h.next_id, newcomer f) ∷ []),
    waiting_none k h.subs none_held,
    lookup-insert bytes_dec f k [] h.retained,
    v.kept,
    append-nil (backlog k h),
  )

  pub pending-subscribe_ne : (f : Bytes) → f ≢ k → pending k (subscribe f h).0 ≡ pending k h
  unfolding subscribe pending waiting backlog
  pending-subscribe_ne f other = ground (
    arith,
    ap (waiting k) (subs-subscribe f),
    waiting-append k h.subs ((suc h.next_id, newcomer f) ∷ []),
    lookup-insert bytes_dec f k [] h.retained,
    append-nil (waiting k h.subs),
  )

  holders-subscribe :
      (f : Bytes)
      → holders k (subscribe f h).0.subs
        ≡ (if str_eq f k then holders k h.subs + 1 else holders k h.subs)
  unfolding holders
  holders-subscribe f = ground (
    arith,
    ap (holders k) (subs-subscribe f),
    holders-append k h.subs ((suc h.next_id, newcomer f) ∷ []),
  )

  pub subscribe-Single :
      (f : Bytes) → (f ≢ k) ⊎ (holders k h.subs ≡ 0) → Single k key (subscribe f h).0
  unfolding subscribe backlog
  subscribe-Single f free = record {
    keyed = v.keyed;
    unique = rw (subs-subscribe f) (Unique-append h.next_id (newcomer f) h.subs v.unique);
    one = ground (arith, holders-subscribe f, free, v.one);
    wide =
        rw (subs-subscribe f)
          (Wide-append (suc h.next_id) (newcomer f) h.subs v.wide (omega arith));
    kept = ground (arith, v.kept, lookup-insert bytes_dec f k [] h.retained);
    clear = ground (
      arith,
      v.kept,
      v.clear,
      free,
      holders-subscribe f,
      lookup-insert bytes_dec f k [] h.retained,
    );
  }

  -- The reader of a channel with the key takes the oldest entry; any other takes none of them.
  pub pending-receive_held :
      (id : ℕ) (s : Sub E)
      → lookup ℕ_discrete id h.subs ≡ some s
      → s.filter ≡ k
      → pending k h ≡ taken (receive id h).1 ++ pending k (receive id h).0
  unfolding receive pending backlog
  pending-receive_held id s found same = ground (
    arith,
    found,
    insert_holder k id h.next_id s (pop_queue s.queue).0 h.subs v.unique found same v.one,
    pop_split s.queue (backlog k h),
  )

  pub pending-receive_ne :
      (id : ℕ) (s : Sub E)
      → lookup ℕ_discrete id h.subs ≡ some s
      → s.filter ≢ k
      → pending k (receive id h).0 ≡ pending k h
  unfolding receive pending backlog
  pending-receive_ne id s found other = ground (
    arith,
    found,
    insert_other k id h.next_id s (pop_queue s.queue).0 h.subs v.unique found other,
  )

  pub receive_absent : (id : ℕ) → lookup ℕ_discrete id h.subs ≡ none → receive id h ≡ (h, none)
  unfolding receive
  receive_absent id missing = ground (arith, missing)

  holders-insert :
      (id : ℕ) (s : Sub E) (queue : List E)
      → lookup ℕ_discrete id h.subs ≡ some s
      → holders k (insert ℕ_discrete id (record s { queue = queue }) h.subs) ≡ holders k h.subs
  holders-insert id s queue found = elim (bytes_dec s.filter k) [
    | yes same ↦ omega (
      arith,
      v.one,
      holders_pos k id s h.subs found same,
      (insert_holder k id h.next_id s queue h.subs v.unique found same v.one).0,
    )
    | no other ↦ (insert_other k id h.next_id s queue h.subs v.unique found other).0
  ]

  receive_found :
      (id : ℕ) (s : Sub E)
      → lookup ℕ_discrete id h.subs ≡ some s
      → receive id h ≡ (
        record h {
          subs = insert ℕ_discrete id (record s { queue = (pop_queue s.queue).0 }) h.subs;
        },
        (pop_queue s.queue).1,
      )
  unfolding receive
  receive_found id s found = ground (arith, found)

  pub receive-Single :
      (id : ℕ) (s : Sub E) → lookup ℕ_discrete id h.subs ≡ some s → Single k key (receive id h).0
  unfolding backlog
  receive-Single id s found = rw (receive_found id s found) (record {
    keyed = v.keyed;
    unique = Unique-insert h.next_id id s _ h.subs v.unique found;
    one = omega (arith, holders-insert id s (pop_queue s.queue).0 found, v.one);
    wide = Wide-insert id s (pop_queue s.queue).0 h.subs v.wide found;
    kept = v.kept;
    clear = ground (arith, v.clear, holders-insert id s (pop_queue s.queue).0 found);
  })
