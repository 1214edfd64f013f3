-- ===== src/WebhookCore/Store/Laws.antt =====
-- A consistent store (replay.go, dedup.go), and its operations on the plain list of values.
use contextmatrix_backendkit.Prelude.{
  ℕ, suc, ◌≤◌, ◌<◌, ◌≡◌, refl, ite, List, [], ◌∷◌, ◌++◌, map, map-append, Option, none, some, arith,
  Bytes, bytes_dec, ◌∙◌, sym,
}
use contextmatrix_backendkit.Prelude.Assoc.{lookup, lookup-insert, lookup-delete}
use contextmatrix_backendkit.WebhookCore.Store.{Element, Store, new, find, push, remove, unlink}

-- The identities rise along the list, from `lo` on and below `hi`.
abbrev pub Rising : {V : Type 0} → ℕ → List (Element V) → ℕ → Type 0
Rising lo [] hi = lo ≤ hi
Rising lo (x ∷ xs) hi = (lo ≤ x.id) × Rising (suc x.id) xs hi

module _ {V : Type 0} where
  Rising-weaken :
      (lo lo' hi : ℕ) (xs : List (Element V)) → lo' ≤ lo → Rising lo xs hi → Rising lo' xs hi
  Rising-weaken lo lo' hi [] h r = omega arith
  Rising-weaken lo lo' hi (x ∷ xs) h r = (omega arith, r.1)

  Rising-below : (lo hi : ℕ) (xs : List (Element V)) → Rising lo xs hi → lo ≤ hi
  Rising-below lo hi [] r = r
  Rising-below lo hi (x ∷ xs) r = omega (arith, Rising-below (suc x.id) hi xs r.1)

  Rising-push :
      (lo : ℕ) (xs : List (Element V)) (x : Element V)
      → Rising lo xs x.id
      → Rising lo (xs ++ x ∷ []) (suc x.id)
  Rising-push lo [] x r = (r, omega arith)
  Rising-push lo (y ∷ xs) x r = (r.0, Rising-push (suc y.id) xs x r.1)

  Rising-remove :
      (n lo hi : ℕ) (xs : List (Element V)) → Rising lo xs hi → Rising lo (remove n xs) hi
  unfolding remove
  Rising-remove n lo hi [] r = r
  Rising-remove n lo hi (x ∷ xs) r = ground (
    arith,
    Rising-remove n (suc x.id) hi xs r.1,
    Rising-weaken (suc x.id) lo hi xs (omega arith) r.1,
  )

  -- The values, oldest first: all that a client sees.
  unfoldable pub view : Store V → List V
  view s = map (λ el. el.value) s.elements

module _ {V : Type 0} (key : V → Bytes) where
  -- The first value with the key, and the list without it.
  unfoldable pub find_value : Bytes → List V → Option V
  find_value k [] = none
  find_value k (v ∷ vs) = ite (bytes_dec (key v) k) (some v) (find_value k vs)

  unfoldable pub erase_value : Bytes → List V → List V
  erase_value k [] = []
  erase_value k (v ∷ vs) = ite (bytes_dec (key v) k) vs (v ∷ erase_value k vs)

  -- No key stands in the list twice.
  abbrev pub Distinct : List V → Type 0
  Distinct [] = Unit {0}
  Distinct (v ∷ vs) = (find_value (key v) vs ≡ none) × Distinct vs

  unfoldable pub find_element : Bytes → List (Element V) → Option (Element V)
  find_element k [] = none
  find_element k (x ∷ xs) = ite (bytes_dec (key x.value) k) (some x) (find_element k xs)

  pub record IsValid (s : Store V) : Type 0 where
    pub rising : Rising 0 s.elements s.next_id
    pub distinct : Distinct (view s)
    pub coherent : (k : Bytes) → find k s ≡ find_element k s.elements

  pub new-IsValid : IsValid new
  unfolding new view find find_element lookup
  new-IsValid = record { rising = omega arith; distinct = tt; coherent = λ k. refl }

  pub find_value-append :
      (k : Bytes) (xs : List V) (v : V)
      → find_value k xs ≡ none
      → find_value k (xs ++ v ∷ []) ≡ ite (bytes_dec (key v) k) (some v) none
  unfolding find_value
  find_value-append k [] v h = refl
  find_value-append k (x ∷ xs) v h = ground (arith, find_value-append k xs v)

  Distinct-append :
      (xs : List V) (v : V) → find_value (key v) xs ≡ none → Distinct xs → Distinct (xs ++ v ∷ [])
  unfolding find_value
  Distinct-append [] v h d = (refl, tt)
  Distinct-append (x ∷ xs) v h d =
      ground (arith, find_value-append (key x) xs v, Distinct-append xs v)

  find_value-erase_none :
      (j k : Bytes) (xs : List V) → find_value j xs ≡ none → find_value j (erase_value k xs) ≡ none
  unfolding find_value erase_value
  find_value-erase_none j k [] h = refl
  find_value-erase_none j k (x ∷ xs) h = ground (arith, find_value-erase_none j k xs)

  Distinct-erase : (k : Bytes) (xs : List V) → Distinct xs → Distinct (erase_value k xs)
  unfolding erase_value
  Distinct-erase k [] d = tt
  Distinct-erase k (x ∷ xs) d =
      ground (arith, Distinct-erase k xs, find_value-erase_none (key x) k xs)

  pub erase_value-absent :
      (k : Bytes) (xs : List V) → find_value k xs ≡ none → erase_value k xs ≡ xs
  unfolding find_value erase_value
  erase_value-absent k [] h = refl
  erase_value-absent k (x ∷ xs) h = ground (arith, erase_value-absent k xs)

  -- Erasing the key that stands last restores the list.
  pub erase_value-append :
      (xs : List V) (v : V) → find_value (key v) xs ≡ none → erase_value (key v) (xs ++ v ∷ []) ≡ xs
  unfolding find_value erase_value
  erase_value-append [] v h = ground arith
  erase_value-append (x ∷ xs) v h = ground (arith, erase_value-append xs v)

  -- Erasing a key hides that key alone.
  pub find_value-erase :
      (j k : Bytes) (xs : List V)
      → Distinct xs
      → find_value j (erase_value k xs) ≡ ite (bytes_dec k j) none (find_value j xs)
  unfolding find_value erase_value
  find_value-erase j k [] d = ground arith
  find_value-erase j k (x ∷ xs) d = ground (arith, find_value-erase j k xs)

  abbrev pub value_of? : Option (Element V) → Option V
  value_of? none = none
  value_of? (some el) = some el.value

  find_value-find_element :
      (k : Bytes) (xs : List (Element V))
      → find_value k (map (λ el. el.value) xs) ≡ value_of? (find_element k xs)
  unfolding find_value find_element
  find_value-find_element k [] = refl
  find_value-find_element k (x ∷ xs) = ground (arith, find_value-find_element k xs)

  find_element-key :
      (k : Bytes) (xs : List (Element V)) (el : Element V)
      → find_element k xs ≡ some el
      → key el.value ≡ k
  unfolding find_element
  find_element-key k [] el h = cc
  find_element-key k (x ∷ xs) el h = ground (arith, find_element-key k xs el)

  abbrev or_else : Option (Element V) → Option (Element V) → Option (Element V)
  or_else none b = b
  or_else (some x) b = some x

  find_element-append :
      (k : Bytes) (xs : List (Element V)) (x : Element V)
      → find_element k (xs ++ x ∷ [])
        ≡ or_else (find_element k xs) (ite (bytes_dec (key x.value) k) (some x) none)
  unfolding find_element
  find_element-append k [] x = refl
  find_element-append k (y ∷ xs) x = ground (arith, find_element-append k xs x)

  find_element-Rising :
      (k : Bytes) (lo hi : ℕ) (xs : List (Element V)) (el : Element V)
      → Rising lo xs hi
      → find_element k xs ≡ some el
      → (lo ≤ el.id) × (el.id < hi)
  unfolding find_element
  find_element-Rising k lo hi [] el r h = cc
  find_element-Rising k lo hi (x ∷ xs) el r h =
      ground
        (arith, find_element-Rising k (suc x.id) hi xs el r.1, Rising-below (suc x.id) hi xs r.1)

  remove-erase :
      (k : Bytes) (lo hi : ℕ) (xs : List (Element V)) (el : Element V)
      → Rising lo xs hi
      → find_element k xs ≡ some el
      → map (λ el. el.value) (remove el.id xs) ≡ erase_value k (map (λ el. el.value) xs)
  unfolding find_element remove erase_value
  remove-erase k lo hi [] el r h = refl
  remove-erase k lo hi (x ∷ xs) el r h =
      ground (
        arith,
        remove-erase k (suc x.id) hi xs el r.1,
        find_element-Rising k (suc x.id) hi xs el r.1,
      )

  find_element-remove :
      (j k : Bytes) (lo hi : ℕ) (xs : List (Element V)) (el : Element V)
      → Rising lo xs hi
      → Distinct (map (λ el. el.value) xs)
      → find_element k xs ≡ some el
      → find_element j (remove el.id xs) ≡ ite (bytes_dec k j) none (find_element j xs)
  unfolding find_element remove
  find_element-remove j k lo hi [] el r d h = cc
  find_element-remove j k lo hi (x ∷ xs) el r d h = ground (
    arith,
    find_element-remove j k (suc x.id) hi xs el r.1 d.1,
    find_element-Rising k (suc x.id) hi xs el r.1,
    find_value-find_element (key x.value) xs,
  )

  -- The index answers for the list.
  pub find-view :
      (k : Bytes) {s : Store V} → IsValid s → value_of? (find k s) ≡ find_value k (view s)
  unfolding view
  find-view k {s} v = rw (v.coherent k) (sym (find_value-find_element k s.elements))

  pub view-push : (k : Bytes) (v : V) (s : Store V) → view (push k v s) ≡ view s ++ v ∷ []
  unfolding view push
  view-push k v s = map-append (λ (el : Element V). el.value) s.elements _

  pub find-none :
      (k : Bytes) {s : Store V} → IsValid s → find k s ≡ none → find_value k (view s) ≡ none
  find-none k {s} valid h = ground (arith, find-view k valid)

  pub push-IsValid :
      (k : Bytes) (v : V) {s : Store V}
      → IsValid s
      → key v ≡ k
      → find k s ≡ none
      → IsValid (push k v s)
  unfolding push view find
  push-IsValid k v {s} valid e h = record {
    rising = Rising-push 0 s.elements _ valid.rising;
    distinct =
        rw (map-append (λ (el : Element V). el.value) s.elements (_ ∷ []))
          (Distinct-append (view s) v (rw e (find-none k valid h)) valid.distinct);
    coherent = λ j. ground (
      arith,
      lookup-insert bytes_dec k j (record { id = s.next_id; value = v }) s.index,
      find_element-append j s.elements (record { id = s.next_id; value = v }),
      valid.coherent j,
      valid.coherent k,
    );
  }

  pub find-unlink : (k : Bytes) (el : Element V) (s : Store V) → find k (unlink el k s) ≡ none
  unfolding find unlink
  find-unlink k el s = ground (arith, lookup-delete bytes_dec k k s.index)

  pub view-unlink :
      (k : Bytes) (el : Element V) {s : Store V}
      → IsValid s
      → find k s ≡ some el
      → view (unlink el k s) ≡ erase_value k (view s)
  unfolding view unlink
  view-unlink k el {s} valid h =
      remove-erase k 0 s.next_id s.elements el valid.rising (sym (valid.coherent k) ∙ h)

  pub unlink-IsValid :
      (k : Bytes) (el : Element V) {s : Store V}
      → IsValid s
      → find k s ≡ some el
      → IsValid (unlink el k s)
  unfolding unlink view find
  unlink-IsValid k el {s} valid h = record {
    rising = Rising-remove el.id 0 s.next_id s.elements valid.rising;
    distinct = rw (view-unlink k el valid h) (Distinct-erase k (view s) valid.distinct);
    coherent = λ j. ground (
      arith,
      lookup-delete bytes_dec k j s.index,
      find_element-remove j k 0 s.next_id s.elements el valid.rising valid.distinct,
      valid.coherent j,
      valid.coherent k,
    );
  }
