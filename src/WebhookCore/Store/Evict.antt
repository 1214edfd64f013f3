-- ===== src/WebhookCore/Store/Evict.antt =====
-- The eviction loop of replay.go and dedup.go, on the plain list of values.
use contextmatrix_backendkit.Prelude.{
  ℕ, zero, suc, ◌-◌, ◌≤◌, ◌<◌, ◌≡◌, refl, ap, sym, ◌∙◌, List, [], ◌∷◌, some, arith, inl, inr, Bytes,
  length, length-map, drop, List-cases, Bool-cases, ltb,
}
use contextmatrix_backendkit.WebhookCore.Store.{Element, Store, find, len, drop_front, evict}
use contextmatrix_backendkit.WebhookCore.Store.Laws.{
  view, find_element, IsValid, view-unlink, unlink-IsValid, erase_value,
}

-- The youngest values, as many as the capacity allows.
abbrev pub youngest {ℓ} : {A : Type ℓ} → ℕ → List A → List A
youngest capacity xs = drop (length xs - capacity) xs

module _ {V : Type 0} (key : V → Bytes) where
  pub len-view : (s : Store V) → len s ≡ length (view s)
  unfolding view
  len-view s = sym (length-map (λ (el : Element V). el.value) s.elements)

  front-find :
      {s : Store V} (x : Element V) (xs : List (Element V))
      → IsValid key s
      → s.elements ≡ x ∷ xs
      → find (key x.value) s ≡ some x
  unfolding find_element
  front-find {s} x xs valid e = ground (arith, valid.coherent (key x.value))

  pub drop_front-IsValid : {s : Store V} → IsValid key s → IsValid key (drop_front key s)
  unfolding drop_front
  drop_front-IsValid {s} valid = elim (List-cases s.elements) [
    | inl e ↦ rw (e, drop_front) valid
    | inr (x, xs, e) ↦
        rw (e, drop_front) (unlink-IsValid key (key x.value) x valid (front-find x xs valid e))
  ]

  pub view-drop_front : {s : Store V} → IsValid key s → view (drop_front key s) ≡ drop 1 (view s)
  unfolding drop_front view erase_value
  view-drop_front {s} valid = elim (List-cases s.elements) [
    | inl e ↦ rw (e, drop_front) (ground arith)
    | inr (x, xs, e) ↦
        rw (e, drop_front)
          (ground (arith, view-unlink key (key x.value) x valid (front-find x xs valid e)))
  ]

  drop-drop_one : (n : ℕ) (xs : List V) → drop n (drop 1 xs) ≡ drop (suc n) xs
  drop-drop_one zero [] = refl
  drop-drop_one (suc n) [] = refl
  drop-drop_one n (x ∷ xs) = refl

  length-drop_one : (xs : List V) → length (drop 1 xs) ≡ length xs - 1
  length-drop_one [] = omega arith
  length-drop_one (x ∷ xs) = omega arith

  youngest_all : (capacity : ℕ) (xs : List V) → length xs ≤ capacity → youngest capacity xs ≡ xs
  youngest_all capacity xs h = let e : length xs - capacity ≡ 0 = omega arith in rw e

  youngest_more :
      (capacity : ℕ) (xs : List V)
      → capacity < length xs
      → youngest capacity (drop 1 xs) ≡ youngest capacity xs
  youngest_more capacity xs h =
      let e : length xs - capacity ≡ suc (length (drop 1 xs) - capacity) =
        omega (arith, length-drop_one xs) in
      rw e (drop-drop_one _ xs)

  pub len-drop_front : {s : Store V} → IsValid key s → len (drop_front key s) ≡ len s - 1
  len-drop_front {s} valid = omega (
    arith,
    len-view s,
    len-view (drop_front key s),
    length-drop_one (view s),
    ap length (view-drop_front valid),
  )

  pub evict-IsValid :
      (capacity fuel : ℕ) {s : Store V} → IsValid key s → IsValid key (evict key capacity fuel s)
  unfolding evict
  evict-IsValid capacity zero valid = valid
  evict-IsValid capacity (suc fuel) {s} valid =
      ground (arith, evict-IsValid capacity fuel (drop_front-IsValid valid))

  -- As much fuel as there are entries ends the loop by its own test.
  pub view-evict :
      (capacity fuel : ℕ) {s : Store V}
      → IsValid key s
      → len s ≤ fuel
      → view (evict key capacity fuel s) ≡ youngest capacity (view s)
  unfolding evict
  view-evict capacity zero {s} valid h =
      sym (youngest_all capacity (view s) (omega (arith, len-view s)))
  view-evict capacity (suc fuel) {s} valid h = elim (Bool-cases (ltb capacity (len s))) [
    | inl more ↦ rw more (
        view-evict capacity fuel (drop_front-IsValid valid) (ground (arith, len-drop_front valid))
        ∙ ap (youngest capacity) (view-drop_front valid)
        ∙ youngest_more capacity (view s) (ground (arith, len-view s)))
    | inr done ↦ rw done (sym (youngest_all capacity (view s) (ground (arith, len-view s))))
  ]
