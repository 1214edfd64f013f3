-- ===== src/LogBridge/Hub/Stored.antt =====
-- What waits in the hub (logbridge/hub.go), by a predicate on entries.
use contextmatrix_backendkit.Prelude.{
  ℕ, ◌≡◌, List, [], ◌∷◌, All, All-append, Option, some, Bool, false, arith, Bytes, bytes_dec,
  ℕ_discrete, inl, inr, Option-cases, Bool-cases, ◌⊎◌, is_empty, ◌||◌, not, drop, length, ltb, leb,
  subst, sym,
}
use contextmatrix_backendkit.Prelude.Assoc.{
  lookup, insert, Values, Values-insert, Values-delete, Values-lookup,
}
use contextmatrix_backendkit.LogBridge.Hub.{
  Sub, Hub, sub_buf_size, subscribe, publish, retain, release, publish_loop, offer, matches, attach,
  count_drop, key_for, is_some, backlog, trim, append_backlog, observe_drop,
}

module _ {E : Type 0} where
  -- The hub after a publish, by the three parts that the code computes.
  pub publish-parts :
      (e : E) (h : Hub E)
      → let key = key_for h.key_of e in
        let loop = publish_loop (is_some h.key_of) key e h.subs false h.drop_observer in
        ((publish e h).subs ≡ loop.0)
        × (((publish e h).retained ≡ h.retained)
            ⊎ ((es : List E) × (lookup bytes_dec key h.retained ≡ some es)
                × ((publish e h).retained
                    ≡ insert bytes_dec key (append_backlog e es loop.2).0 h.retained)))
  unfolding publish
  publish-parts e h =
      let key = key_for h.key_of e in
      let loop = publish_loop (is_some h.key_of) key e h.subs false h.drop_observer in
      elim (Option-cases (lookup bytes_dec key h.retained)) [
        | inl none' ↦ (ground (arith, none'), inl (ground (arith, none')))
        | inr (es, kept) ↦ elim (Bool-cases loop.1) [
          | inl attached ↦ (ground (arith, attached), inl (ground (arith, attached)))
          | inr alone ↦ (ground (arith, alone, kept), inr (es, kept, ground (arith, alone, kept)))
        ]
      ]

  pub retain-cases :
      (k : Bytes) (h : Hub E)
      → (retain k h ≡ h) ⊎ (retain k h ≡ record h { retained = insert bytes_dec k [] h.retained })
  unfolding retain
  retain-cases k h = elim (Bool-cases (is_empty k || not (is_some h.key_of))) [
    | inl a ↦ inl (ground (arith, a))
    | inr b ↦ elim (Bool-cases (is_some (lookup bytes_dec k h.retained))) [
      | inl c ↦ inl (ground (arith, b, c))
      | inr d ↦ inr (ground (arith, b, d))
    ]
  ]

module _ {E : Type 0} (P : E → Type 0) where
  -- Every entry that waits in a channel or in a backlog.
  pub record Holds (h : Hub E) : Type 0 where
    pub queues : Values (λ (s : Sub E). All P s.queue) h.subs
    pub backlogs : Values (All P) h.retained

  All-drop_first : (es : List E) → All P es → All P (drop 1 es)
  All-drop_first [] h = tt
  All-drop_first (e ∷ es) h = h.1

  pub All-trim : (es : List E) (observer : Option ℕ) → All P es → All P (trim es observer).0
  unfolding trim
  All-trim [] observer h = tt
  All-trim (e ∷ es) observer h = elim (Bool-cases (ltb sub_buf_size (length (e ∷ es)))) [
    | inl full ↦ rw full (All-trim es (observe_drop observer) h.1)
    | inr fits ↦ rw fits h
  ]

  All-append_backlog :
      (e : E) (es : List E) (observer : Option ℕ)
      → P e
      → All P es
      → All P (append_backlog e es observer).0
  unfolding append_backlog
  All-append_backlog e es observer p h = elim (Bool-cases (leb sub_buf_size (length es))) [
    | inl full ↦ rw full (All-append P (drop 1 es) (e ∷ []) (All-drop_first es h) (p, tt))
    | inr fits ↦ rw fits (All-append P es (e ∷ []) h (p, tt))
  ]

  All-offer : (e : E) (s : Sub E) → P e → All P s.queue → All P (offer e s).queue
  unfolding offer
  All-offer e s p h = elim (Bool-cases (ltb (length s.queue) s.cap)) [
    | inl room ↦ rw room (All-append P s.queue (e ∷ []) h (p, tt))
    | inr full ↦ rw full h
  ]

  Values-publish_loop :
      (has_key : Bool) (key : Bytes) (e : E) (subs : List (ℕ × Sub E)) (attached : Bool)
      (observer : Option ℕ)
      → P e
      → Values (λ (s : Sub E). All P s.queue) subs
      → Values (λ (s : Sub E). All P s.queue) (publish_loop has_key key e subs attached observer).0
  unfolding publish_loop
  Values-publish_loop has_key key e [] attached observer p h = tt
  Values-publish_loop has_key key e ((i, s) ∷ subs) attached observer p h =
      let rest =
        Values-publish_loop has_key key e subs (attach has_key key s attached)
          (count_drop has_key key s observer) p h.1 in
      elim (Bool-cases (matches has_key key s.filter)) [
        | inl yes' ↦ rw yes' (All-offer e s p h.0, rest)
        | inr no' ↦ rw no' (h.0, rest)
      ]

  backlog-All : (k : Bytes) (h : Hub E) → Holds h → All P (backlog k h)
  unfolding backlog
  backlog-All k h v = elim (Option-cases (lookup bytes_dec k h.retained)) [
    | inl none' ↦ let e : backlog k h ≡ [] = ground (arith, none') in subst (All P) (sym e) tt
    | inr (es, kept) ↦
        let e : backlog k h ≡ es = ground (arith, kept) in
        subst (All P) (sym e) (Values-lookup bytes_dec (All P) k es h.retained v.backlogs kept)
  ]

  pub publish-Holds : (e : E) (h : Hub E) → P e → Holds h → Holds (publish e h)
  publish-Holds e h p v =
      let key = key_for h.key_of e in
      let loop = publish_loop (is_some h.key_of) key e h.subs false h.drop_observer in
      let (subs, retained) = publish-parts e h in
      record {
        queues =
            subst (Values (λ (s : Sub E). All P s.queue)) (sym subs) (
              Values-publish_loop (is_some h.key_of) key e h.subs false h.drop_observer p v.queues);
        backlogs = elim retained [
          | inl same ↦ subst (Values (All P)) (sym same) v.backlogs
          | inr (es, kept, now) ↦ subst (Values (All P)) (sym now) (
              Values-insert bytes_dec (All P) key _ h.retained
                (All-append_backlog e es loop.2 p
                  (Values-lookup bytes_dec (All P) key es h.retained v.backlogs kept))
                v.backlogs)
        ];
      }

  pub subscribe-Holds : (f : Bytes) (h : Hub E) → Holds h → Holds (subscribe f h).0
  unfolding subscribe
  subscribe-Holds f h v = record {
    queues =
        Values-insert ℕ_discrete (λ (s : Sub E). All P s.queue) _ _ h.subs (backlog-All f h v)
          v.queues;
    backlogs = elim (Bool-cases (is_some (lookup bytes_dec f h.retained))) [
      | inl kept ↦ rw kept (Values-insert bytes_dec (All P) f [] h.retained tt v.backlogs)
      | inr gone ↦ rw gone v.backlogs
    ];
  }

  pub retain-Holds : (k : Bytes) (h : Hub E) → Holds h → Holds (retain k h)
  retain-Holds k h v = elim (retain-cases k h) [
    | inl same ↦ rw same v
    | inr added ↦ rw added (record {
      queues = v.queues;
      backlogs = Values-insert bytes_dec (All P) k [] h.retained tt v.backlogs;
    })
  ]

  pub release-Holds : (k : Bytes) (h : Hub E) → Holds h → Holds (release k h)
  unfolding release
  release-Holds k h v = record {
    queues = v.queues;
    backlogs = Values-delete bytes_dec (All P) k h.retained v.backlogs;
  }
