-- ===== src/LogBridge/Hub/Order.antt =====
-- Publish (logbridge/hub.go) and the order in which Go's map gives the subscribers.
use contextmatrix_backendkit.Prelude.{
  ℕ, ◌≡◌, refl, ap, sym, subst, ◌∙◌, List, [], ◌∷◌, Option, none, some, Bool, false, arith, Bytes,
  bytes_dec, if◌then◌else◌, Option-cases, inl, inr,
}
use contextmatrix_backendkit.Prelude.Assoc.{lookup, insert}
use contextmatrix_backendkit.LogBridge.Hub.{
  Sub, Hub, publish_loop, offer, matches, attach, count_drop, append_backlog, key_for, is_some,
  publish,
}
use mathlib.Core.List.{Permᴰ}

module _ {E : Type 0} (has_key : Bool) (key : Bytes) (e : E) where
  attach-swap :
      (s t : Sub E) (attached : Bool)
      → attach has_key key s (attach has_key key t attached)
        ≡ attach has_key key t (attach has_key key s attached)
  unfolding attach
  attach-swap s t attached = ground arith

  count_drop-swap :
      (s t : Sub E) (observer : Option ℕ)
      → count_drop has_key key s (count_drop has_key key t observer)
        ≡ count_drop has_key key t (count_drop has_key key s observer)
  unfolding count_drop
  count_drop-swap s t observer = ground arith

  abbrev loop : List (ℕ × Sub E) → Bool → Option ℕ → List (ℕ × Sub E) × Bool × Option ℕ
  loop subs attached observer = publish_loop has_key key e subs attached observer

  -- The subscribers after the loop do not depend on what it counts.
  loop-subs :
      (subs : List (ℕ × Sub E)) (a b : Bool) (m n : Option ℕ)
      → (loop subs a m).0 ≡ (loop subs b n).0
  unfolding publish_loop
  loop-subs [] a b m n = refl
  loop-subs ((i, s) ∷ subs) a b m n =
      ap (◌∷◌ (i, if matches has_key key s.filter then offer e s else s)) (
        loop-subs subs (attach has_key key s a) (attach has_key key s b)
          (count_drop has_key key s m) (count_drop has_key key s n))

  loop-Permᴰ :
      {xs ys : List (ℕ × Sub E)}
      → Permᴰ xs ys
      → (attached : Bool) (observer : Option ℕ)
      → Permᴰ (loop xs attached observer).0 (loop ys attached observer).0
        × ((loop xs attached observer).1 ≡ (loop ys attached observer).1)
        × ((loop xs attached observer).2 ≡ (loop ys attached observer).2)
  unfolding publish_loop
  loop-Permᴰ Permᴰ.nil attached observer = (Permᴰ.nil, refl, refl)
  loop-Permᴰ (Permᴰ.cons {a} {b} {l₁} {l₂} same d) attached observer = rw same (
      let (p, q, r) =
        loop-Permᴰ d (attach has_key key b.1 attached) (count_drop has_key key b.1 observer) in
      (Permᴰ.cons refl p, q, r))
  loop-Permᴰ (Permᴰ.swap {a} {b} {a'} {b'} {l} p q) attached observer =
      rw (p, q, attach-swap a'.1 b'.1 attached, count_drop-swap a'.1 b'.1 observer)
        (Permᴰ.swap refl refl, refl, refl)
  loop-Permᴰ (Permᴰ.trans d1 d2) attached observer =
      let (p, q, r) = loop-Permᴰ d1 attached observer in
      let (p', q', r') = loop-Permᴰ d2 attached observer in (Permᴰ.trans p p', q ∙ q', r ∙ r')

-- Two hubs that differ in the order of their subscribers at most.
pub record Reordered {E : Type 0} (g h : Hub E) : Type 0 where
  pub subs : Permᴰ g.subs h.subs
  pub next_id : g.next_id ≡ h.next_id
  pub key_of : g.key_of ≡ h.key_of
  pub drop_observer : g.drop_observer ≡ h.drop_observer
  pub retained : g.retained ≡ h.retained

module _ {E : Type 0} where
  -- The backlogs and the observer after the loop, from what the loop gave.
  abbrev pub stored : Hub E → E → Bool → Option ℕ → List (Bytes × List E) × Option ℕ
  stored h e attached observer =
      let key = key_for h.key_of e in
      if attached then (h.retained, observer) else elim (lookup bytes_dec key h.retained) [
        | none ↦ (h.retained, observer)
        | some es ↦ (
          insert bytes_dec key (append_backlog e es observer).0 h.retained,
          (append_backlog e es observer).1,
        )
      ]

  pub publish-stored :
      (e : E) (h : Hub E)
      → let l =
          publish_loop (is_some h.key_of) (key_for h.key_of e) e h.subs false h.drop_observer in
        publish e h ≡ record {
          subs = l.0;
          next_id = h.next_id;
          key_of = h.key_of;
          drop_observer = (stored h e l.1 l.2).1;
          retained = (stored h e l.1 l.2).0;
        }
  unfolding publish
  publish-stored e h =
      let l = publish_loop (is_some h.key_of) (key_for h.key_of e) e h.subs false h.drop_observer in
      elim (Option-cases (lookup bytes_dec (key_for h.key_of e) h.retained)) [
        | inl none' ↦ ground (arith, none')
        | inr (es, kept) ↦ ground (arith, kept)
      ]

  publish-subs :
      (e : E) (h : Hub E) (xs ys : List (ℕ × Sub E))
      → Permᴰ xs ys
      → Reordered (publish e (record h { subs = xs })) (publish e (record h { subs = ys }))
  publish-subs e h xs ys d =
      let (subs, attached, observer) =
        loop-Permᴰ (is_some h.key_of) (key_for h.key_of e) e d false h.drop_observer in
      let l = publish_loop (is_some h.key_of) (key_for h.key_of e) e xs false h.drop_observer in
      let l' = publish_loop (is_some h.key_of) (key_for h.key_of e) e ys false h.drop_observer in
      let same : stored h e l.1 l.2 ≡ stored h e l'.1 l'.2 =
        ap (λ a. stored h e a l.2) attached ∙ ap (stored h e l'.1) observer in
      rw (publish-stored e (record h { subs = xs }), publish-stored e (record h { subs = ys }))
        (record {
          subs = subs;
          next_id = refl;
          key_of = refl;
          drop_observer = ap (λ p. p.1) same;
          retained = ap (λ p. p.0) same;
        })

  pub Reordered-shape : (g h : Hub E) → Reordered g h → g ≡ record h { subs = g.subs }
  Reordered-shape g h r = cc (r.next_id, r.key_of, r.drop_observer, r.retained)

  -- Publish does not depend on the order in which the map gives its subscribers: on two hubs that
  -- differ in that order at most, it sends the same entry to the same channels, drops the same
  -- ones, counts as many drops and keeps the same backlogs, so that the hubs differ in that order
  -- at most again.
  pub publish-Reordered :
      (e : E) (g h : Hub E) → Reordered g h → Reordered (publish e g) (publish e h)
  publish-Reordered e g h r =
      subst (λ x. Reordered (publish e x) (publish e h)) (sym (Reordered-shape g h r))
        (publish-subs e h g.subs h.subs r.subs)
