-- ===== src/LogBridge/Hub/Reached.antt =====
-- What every history of calls on a new hub with a key function (logbridge/hub.go) keeps.
use contextmatrix_backendkit.Prelude.{
  ℕ, suc, ◌≡◌, refl, List, [], ◌∷◌, Option, some, false, arith, Bytes, bytes_dec, ℕ_discrete,
  Option-cases, inl, inr,
}
use contextmatrix_backendkit.Prelude.Assoc.{lookup}
use contextmatrix_backendkit.LogBridge.Hub.{
  Hub, new_hub, subscribe, unsubscribe, receive, retain, release, pop_queue, key_for,
}
use contextmatrix_backendkit.LogBridge.Hub.Loop.{reached-Wide}
use contextmatrix_backendkit.LogBridge.Hub.Subs.{
  Unique, Wide, Wide-append, Wide-insert, Wide-delete, insert-new,
}
use contextmatrix_backendkit.LogBridge.Hub.History.{
  Op, publishes, subscribes, receives, unsubscribes, retains, releases, apply, run,
}
use contextmatrix_backendkit.LogBridge.Hub.Numbered.{apply-Numbered}
use contextmatrix_backendkit.LogBridge.Hub.Order.{publish-stored}

module _ {E : Type 0} (key : E → Bytes) where
  pub record Reached (h : Hub E) : Type 0 where
    pub keyed : h.key_of ≡ some key
    pub unique : Unique h.next_id h.subs
    pub wide : Wide h.subs

  key_of-apply : (op : Op E) (h : Hub E) → h.key_of ≡ some key → (apply op h).key_of ≡ some key
  unfolding apply subscribe unsubscribe receive retain release key_for
  key_of-apply (publishes e) h p = rw (publish-stored e h) p
  key_of-apply (subscribes f) h p = p
  key_of-apply (receives id) h p = ground (arith, p)
  key_of-apply (unsubscribes id) h p = ground (arith, p)
  key_of-apply (retains k) h p = ground (arith, p)
  key_of-apply (releases k) h p = p

  apply-Wide : (op : Op E) (h : Hub E) → Reached h → Wide (apply op h).subs
  unfolding apply subscribe unsubscribe receive retain release key_for
  apply-Wide (publishes e) h r =
      rw (publish-stored e h, r.keyed) (reached-Wide (key e) e h.subs false h.drop_observer r.wide)
  apply-Wide (subscribes f) h r =
      rw (insert-new [] (suc h.next_id) h.next_id _ h.subs r.unique (omega arith))
        (Wide-append (suc h.next_id) _ h.subs r.wide (omega arith))
  apply-Wide (receives id) h r = elim (Option-cases (lookup ℕ_discrete id h.subs)) [
    | inl none' ↦ ground (arith, none', r.wide)
    | inr (s, found) ↦
        ground (arith, found, Wide-insert id s (pop_queue s.queue).0 h.subs r.wide found)
  ]
  apply-Wide (unsubscribes id) h r = elim (Option-cases (lookup ℕ_discrete id h.subs)) [
    | inl none' ↦ ground (arith, none', r.wide)
    | inr (s, found) ↦ elim (Option-cases (lookup bytes_dec s.filter h.retained)) [
      | inl gone ↦ ground (arith, found, gone, Wide-delete id h.subs r.wide)
      | inr (es, kept) ↦ ground (arith, found, kept, Wide-delete id h.subs r.wide)
    ]
  ]
  apply-Wide (retains k) h r = ground (arith, r.wide)
  apply-Wide (releases k) h r = r.wide

  run-from : (ops : List (Op E)) (h : Hub E) → Reached h → Reached (run ops h)
  unfolding run
  run-from [] h r = r
  run-from (op ∷ ops) h r = run-from ops (apply op h) (record {
    keyed = key_of-apply op h r.keyed;
    unique = apply-Numbered op h r.unique;
    wide = apply-Wide op h r;
  })

  pub run-Reached :
      (ops : List (Op E)) (observer : Option ℕ) → Reached (run ops (new_hub (some key) observer))
  unfolding new_hub
  run-Reached ops observer =
      run-from ops (new_hub (some key) observer) (record { keyed = refl; unique = tt; wide = tt })
