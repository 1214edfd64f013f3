-- ===== src/LogBridge/Hub/Fifo.antt =====
-- The hub (logbridge/hub.go) as a queue, for one retained key with one consumer at a time: what
-- waits in the consumer's channel and in the backlog.
use contextmatrix_backendkit.Prelude.{
  ℕ, ◌≤◌, ◌<◌, ◌≡◌, ◌≢◌, ap, ◌∙◌, List, [], ◌∷◌, ◌++◌, Option, some, true, false, arith, Bytes,
  bytes_dec, length, inl, inr, append-nil, is_empty, Option-cases, ◌⊎◌,
}
use contextmatrix_backendkit.Prelude.Assoc.{lookup, lookup-insert}
use contextmatrix_backendkit.LogBridge.Hub.{
  Sub, Hub, sub_buf_size, is_some, backlog, publish_loop, append_backlog, key_for, publish,
}
use contextmatrix_backendkit.LogBridge.Hub.Loop.{
  reached, reached-Unique, reached-Wide, holders-reached, waiting-reached_ne, waiting-reached_self,
  attached-none, attached-some,
}
use contextmatrix_backendkit.LogBridge.Hub.Subs.{Unique, Wide, holders, waiting, waiting_none}

module _ {E : Type 0} (k : Bytes) where
  -- What was published under the key and not yet received, oldest first.
  unfoldable pub pending : Hub E → List E
  pending h = waiting k h.subs ++ backlog k h

  -- At most one consumer carries the key, and a backlog waits for the next one only.
  pub record Single (key : E → Bytes) (h : Hub E) : Type 0 where
    pub keyed : h.key_of ≡ some key
    pub unique : Unique h.next_id h.subs
    pub one : holders k h.subs ≤ 1
    pub wide : Wide h.subs
    pub kept : is_some (lookup bytes_dec k h.retained) ≡ true
    pub clear : (holders k h.subs ≡ 0) ⊎ (backlog k h ≡ [])

module _ {E : Type 0} (k : Bytes) (some_key : is_empty k ≡ false) (key : E → Bytes) (h : Hub E)
    (v : Single k key h) where
  -- What waits in channels, once a publish under the key is done with the loop.
  abbrev after_loop : E → List (ℕ × Sub E)
  after_loop e = reached k e h.subs false h.drop_observer

  publish_unheld :
      (e : E)
      → key e ≡ k
      → holders k h.subs ≡ 0
      → length (pending k h) < sub_buf_size
      → pending k (publish e h) ≡ pending k h ++ e ∷ []
  unfolding publish pending backlog append_backlog key_for
  publish_unheld e same none_held room = ground (
    arith,
    v.keyed,
    v.kept,
    attached-none k e h.subs false h.drop_observer none_held,
    waiting_none k h.subs none_held,
    waiting_none k (after_loop e),
    holders-reached k e k h.subs false h.drop_observer,
    lookup-insert bytes_dec k k (backlog k h ++ e ∷ []) h.retained,
  )

  publish_held :
      (e : E)
      → key e ≡ k
      → holders k h.subs ≡ 1
      → length (pending k h) < sub_buf_size
      → pending k (publish e h) ≡ pending k h ++ e ∷ []
  unfolding publish pending backlog append_backlog key_for
  publish_held e same held room = ground (
    arith,
    v.keyed,
    v.kept,
    v.clear,
    attached-some k e h.subs false h.drop_observer some_key,
    waiting-reached_self k e h.subs false h.drop_observer held v.wide,
    append-nil (waiting k h.subs),
    append-nil (waiting k h.subs ++ e ∷ []),
  )

  -- The observer after the loop.
  abbrev loop_observer : E → Option ℕ
  loop_observer e = (publish_loop true (key e) e h.subs false h.drop_observer).2

  pub publish_ne : (e : E) → key e ≢ k → pending k (publish e h) ≡ pending k h
  unfolding publish pending backlog key_for
  publish_ne e other =
      let loop = waiting-reached_ne (key e) e k h.subs false h.drop_observer some_key other in
      elim (Option-cases (lookup bytes_dec (key e) h.retained)) [
        | inl f ↦ ground (arith, v.keyed, loop)
        | inr (es, f) ↦ ground (
          arith,
          v.keyed,
          loop,
          lookup-insert bytes_dec (key e) k (append_backlog e es (loop_observer e)).0 h.retained,
        )
      ]

  publish-fields : (e : E) → ((publish e h).key_of ≡ some key) × ((publish e h).next_id ≡ h.next_id)
  unfolding publish
  publish-fields e = ground (arith, v.keyed)

  publish-subs : (e : E) → (publish e h).subs ≡ reached (key e) e h.subs false h.drop_observer
  unfolding publish key_for
  publish-subs e = ground (arith, v.keyed)

  holders-publish : (e : E) → holders k (publish e h).subs ≡ holders k h.subs
  holders-publish e =
      ap (holders k) (publish-subs e) ∙ holders-reached (key e) e k h.subs false h.drop_observer

  publish-kept : (e : E) → is_some (lookup bytes_dec k (publish e h).retained) ≡ true
  unfolding publish key_for
  publish-kept e = elim (Option-cases (lookup bytes_dec (key e) h.retained)) [
    | inl f ↦ ground (arith, v.keyed, v.kept)
    | inr (es, f) ↦ ground (
      arith,
      v.keyed,
      v.kept,
      lookup-insert bytes_dec (key e) k (append_backlog e es (loop_observer e)).0 h.retained,
    )
  ]

  -- With a consumer at hand the backlog stays as it is.
  backlog-publish : (e : E) → 0 < holders k h.subs → backlog k (publish e h) ≡ backlog k h
  unfolding publish key_for backlog
  backlog-publish e held = elim (bytes_dec (key e) k) [
    | yes p ↦ ground (arith, v.keyed, attached-some k e h.subs false h.drop_observer some_key held)
    | no q ↦ elim (Option-cases (lookup bytes_dec (key e) h.retained)) [
      | inl f ↦ ground (arith, v.keyed)
      | inr (es, f) ↦ ground (
        arith,
        v.keyed,
        lookup-insert bytes_dec (key e) k (append_backlog e es (loop_observer e)).0 h.retained,
      )
    ]
  ]

  publish-clear :
      (e : E)
      → backlog k h ≡ []
      → (holders k (publish e h).subs ≡ 0) ⊎ (backlog k (publish e h) ≡ [])
  publish-clear e empty = ground (arith, holders-publish e, backlog-publish e)

  pub publish-Single : (e : E) → Single k key (publish e h)
  publish-Single e = record {
    keyed = (publish-fields e).0;
    unique =
        rw (publish-subs e, (publish-fields e).1)
          (reached-Unique (key e) e h.next_id h.subs false h.drop_observer v.unique);
    one = omega (arith, holders-publish e, v.one);
    wide = rw (publish-subs e) (reached-Wide (key e) e h.subs false h.drop_observer v.wide);
    kept = publish-kept e;
    clear = elim v.clear [
      | inl none_held ↦ inl (holders-publish e ∙ none_held)
      | inr empty ↦ publish-clear e empty
    ];
  }

  pub publish-pending :
      (e : E)
      → key e ≡ k
      → length (pending k h) < sub_buf_size
      → pending k (publish e h) ≡ pending k h ++ e ∷ []
  publish-pending e same room = ground (arith, v.one, publish_unheld e same, publish_held e same)
