-- ===== src/LogBridge/Hub/Executions.antt =====
-- Executions of the hub (logbridge/hub.go) in which Go's map may give its subscribers in another
-- order at each call.
use contextmatrix_backendkit.Prelude.{
  ℕ, ◌≡◌, refl, ap, sym, subst, ◌∙◌, List, [], ◌∷◌, ◌++◌, Option, Bytes,
}
use contextmatrix_backendkit.LogBridge.Hub.{Hub, new_hub}
use contextmatrix_backendkit.LogBridge.Hub.History.{Op, apply, run}
use contextmatrix_backendkit.LogBridge.Hub.Contents.{handed}
use contextmatrix_backendkit.LogBridge.Hub.Order.{Reordered, Reordered-shape}
use contextmatrix_backendkit.LogBridge.Hub.Numbered.{Numbered, apply-Numbered}
use contextmatrix_backendkit.LogBridge.Hub.Unordered.{Alike, apply-Alike}
use mathlib.Core.List.{Permᴰ}

module _ {E : Type 0} where
  -- Calls, what they hand over and the hub after them, each call on the hub in some order.
  pub data Executes : List (Op E) → Hub E → List E → Hub E → Type 0 where
    finished : (g h : Hub E) → Reordered g h → Executes [] g [] h
    calls :
        (op : Op E) (ops : List (Op E)) (g h k : Hub E) (es : List E)
        → Reordered g h
        → Executes ops (apply op h) es k
        → Executes (op ∷ ops) g (handed op h ++ es) k

  -- What the calls of a history hand over, in order.
  unfoldable pub handed_all : List (Op E) → Hub E → List E
  handed_all [] h = []
  handed_all (op ∷ ops) h = handed op h ++ handed_all ops (apply op h)

  Reordered-trans : (f g h : Hub E) → Reordered f g → Reordered g h → Reordered f h
  Reordered-trans f g h r s = record {
    subs = Permᴰ.trans r.subs s.subs;
    next_id = r.next_id ∙ s.next_id;
    key_of = r.key_of ∙ s.key_of;
    drop_observer = r.drop_observer ∙ s.drop_observer;
    retained = r.retained ∙ s.retained;
  }

  Reordered-Alike : (op : Op E) (g h : Hub E) → Numbered g → Reordered g h → Alike op g h
  Reordered-Alike op g h u r =
      subst (λ x. Alike op x h) (sym (Reordered-shape g h r))
        (apply-Alike h g.subs h.subs (rw (sym r.next_id) u) r.subs op)

  Executes-from :
      (ops : List (Op E)) (f g k : Hub E) (es : List E)
      → Numbered f
      → Reordered f g
      → Executes ops g es k
      → (es ≡ handed_all ops f) × Reordered (run ops f) k
  unfolding handed_all run
  Executes-from _ f _ _ _ u r (finished g h s) = (refl, Reordered-trans f g h r s)
  Executes-from _ f _ _ _ u r (calls op ops g h k es s rest) =
      let (next, same) = Reordered-Alike op f h u (Reordered-trans f g h r s) in
      let (later, last) =
        Executes-from ops (apply op f) (apply op h) k es (apply-Numbered op f u) next rest in
      (ap (λ xs. xs ++ es) (sym same) ∙ ap (◌++◌ (handed op f)) later, last)

  -- The order in which Go's map gives the subscribers does not show: however it changes from call
  -- to call, a history of calls on a new hub hands the same entries to the same calls, and leaves
  -- the same hub up to that order, as the run that takes them in the order in which they came.
  pub Executes-run :
      (ops : List (Op E)) (key_of : Option (E → Bytes)) (observer : Option ℕ) (es : List E)
      (k : Hub E)
      → Executes ops (new_hub key_of observer) es k
      → (es ≡ handed_all ops (new_hub key_of observer))
        × Reordered (run ops (new_hub key_of observer)) k
  unfolding new_hub
  Executes-run ops key_of observer es k executes =
      let h = new_hub key_of observer in
      Executes-from ops h h k es tt
        (record {
          subs = Permᴰ.nil;
          next_id = refl;
          key_of = refl;
          drop_observer = refl;
          retained = refl;
        })
        executes
