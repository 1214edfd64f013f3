-- ===== src/LogBridge/Hub/Reordering.antt =====
-- Maps with distinct ids in another order (the subscribers of logbridge/hub.go).
use contextmatrix_backendkit.Prelude.{
  ℕ, ◌≡◌, ◌≢◌, refl, ap, sym, ◌∙◌, List, [], ◌∷◌, some, arith, ℕ_discrete, ite, Bytes, ◌||◌,
}
use contextmatrix_backendkit.Prelude.Assoc.{lookup, insert, delete}
use contextmatrix_backendkit.LogBridge.Hub.{Sub, holds, str_eq}
use contextmatrix_backendkit.LogBridge.Hub.Subs.{Unique}
use mathlib.Core.List.{Permᴰ}

same-Permᴰ : {A : Type 0} (l : List A) → Permᴰ l l
same-Permᴰ [] = Permᴰ.nil
same-Permᴰ (x ∷ l) = Permᴰ.cons refl (same-Permᴰ l)

module _ {E : Type 0} where
  -- The same ids, each once, with the same subscribers.
  abbrev Same : ℕ → List (ℕ × Sub E) → List (ℕ × Sub E) → Type 0
  Same n xs ys = Unique n ys × ((id : ℕ) → lookup ℕ_discrete id xs ≡ lookup ℕ_discrete id ys)

  lookup-cons :
      (id : ℕ) (a : ℕ × Sub E) (l m : List (ℕ × Sub E))
      → lookup ℕ_discrete id l ≡ lookup ℕ_discrete id m
      → lookup ℕ_discrete id (a ∷ l) ≡ lookup ℕ_discrete id (a ∷ m)
  unfolding lookup
  lookup-cons id a l m h = ap (ite (ℕ_discrete a.0 id) (some a.1)) h

  Unique-swap :
      (n : ℕ) (a b : ℕ × Sub E) (l : List (ℕ × Sub E)) → Unique n (a ∷ b ∷ l) → Unique n (b ∷ a ∷ l)
  unfolding lookup
  Unique-swap n a b l u = ground (arith, u)

  lookup-swap :
      (id n : ℕ) (a b : ℕ × Sub E) (l : List (ℕ × Sub E))
      → Unique n (a ∷ b ∷ l)
      → lookup ℕ_discrete id (a ∷ b ∷ l) ≡ lookup ℕ_discrete id (b ∷ a ∷ l)
  unfolding lookup
  lookup-swap id n a b l u = ground (arith, u)

  pub Unique-Permᴰ : (n : ℕ) {xs ys : List (ℕ × Sub E)} → Unique n xs → Permᴰ xs ys → Same n xs ys
  Unique-Permᴰ n u Permᴰ.nil = (u, λ id. refl)
  Unique-Permᴰ n u (Permᴰ.cons {a} {b} {l₁} {l₂} same d) =
      let (rest, found) = Unique-Permᴰ n u.2 d in
      rw (sym same) ((u.0, sym (found a.0) ∙ u.1, rest), λ id. lookup-cons id a l₁ l₂ (found id))
  Unique-Permᴰ n u (Permᴰ.swap {a} {b} {a'} {b'} {l} p q) =
      rw (sym p, sym q) (Unique-swap n a b l u, λ id. lookup-swap id n a b l u)
  Unique-Permᴰ n u (Permᴰ.trans d1 d2) =
      let (v, f) = Unique-Permᴰ n u d1 in let (w, g) = Unique-Permᴰ n v d2 in (w, λ id. f id ∙ g id)

  pub delete-Permᴰ :
      (id : ℕ) {xs ys : List (ℕ × Sub E)}
      → Permᴰ xs ys
      → Permᴰ (delete ℕ_discrete id xs) (delete ℕ_discrete id ys)
  unfolding delete
  delete-Permᴰ id Permᴰ.nil = Permᴰ.nil
  delete-Permᴰ id (Permᴰ.cons {a} {b} {l₁} {l₂} same d) =
      let rest = delete-Permᴰ id d in
      rw (sym same)
        (elim (ℕ_discrete a.0 id)
          as (λ c.
            Permᴰ (ite c (delete ℕ_discrete id l₁) (a ∷ delete ℕ_discrete id l₁))
              (ite c (delete ℕ_discrete id l₂) (a ∷ delete ℕ_discrete id l₂))) [
                | yes p ↦ rest
                | no p ↦ Permᴰ.cons refl rest
              ])
  delete-Permᴰ id (Permᴰ.swap {a} {b} {a'} {b'} {l} p q) =
      let rest = delete ℕ_discrete id l in
      rw (sym p, sym q)
        (elim (ℕ_discrete a.0 id)
          as (λ c.
            Permᴰ
              (ite c (ite (ℕ_discrete b.0 id) rest (b ∷ rest))
                (a ∷ ite (ℕ_discrete b.0 id) rest (b ∷ rest)))
              (ite (ℕ_discrete b.0 id) (ite c rest (a ∷ rest)) (b ∷ ite c rest (a ∷ rest)))) [
                | yes e ↦ same-Permᴰ _
                | no e ↦
                    elim (ℕ_discrete b.0 id)
                      as (λ c.
                        Permᴰ (a ∷ ite c rest (b ∷ rest)) (ite c (a ∷ rest) (b ∷ a ∷ rest))) [
                          | yes e ↦ same-Permᴰ _
                          | no e ↦ Permᴰ.swap refl refl
                        ]
              ])
  delete-Permᴰ id (Permᴰ.trans d1 d2) = Permᴰ.trans (delete-Permᴰ id d1) (delete-Permᴰ id d2)

  two_ids : (n : ℕ) (a b : ℕ × Sub E) (l : List (ℕ × Sub E)) → Unique n (a ∷ b ∷ l) → a.0 ≢ b.0
  unfolding lookup
  two_ids n a b l u same = ground (arith, u, same)

  insert-swap :
      (id : ℕ) (v : Sub E) (a b : ℕ × Sub E) (l : List (ℕ × Sub E))
      → a.0 ≢ b.0
      → Permᴰ (insert ℕ_discrete id v (a ∷ b ∷ l)) (insert ℕ_discrete id v (b ∷ a ∷ l))
  unfolding insert
  insert-swap id v a b l other =
      elim (ℕ_discrete a.0 id)
        as (λ c.
          Permᴰ
            (ite c ((id, v) ∷ b ∷ l)
              (a ∷ ite (ℕ_discrete b.0 id) ((id, v) ∷ l) (b ∷ insert ℕ_discrete id v l)))
            (ite (ℕ_discrete b.0 id) ((id, v) ∷ a ∷ l)
              (b ∷ ite c ((id, v) ∷ l) (a ∷ insert ℕ_discrete id v l)))) [
                | yes e ↦
                    elim (ℕ_discrete b.0 id)
                      as (λ c.
                        Permᴰ ((id, v) ∷ b ∷ l) (ite c ((id, v) ∷ a ∷ l) (b ∷ (id, v) ∷ l))) [
                          | yes f ↦ absurd (other (e ∙ sym f))
                          | no f ↦ Permᴰ.swap refl refl
                        ]
                | no e ↦
                    elim (ℕ_discrete b.0 id)
                      as (λ c.
                        Permᴰ (a ∷ ite c ((id, v) ∷ l) (b ∷ insert ℕ_discrete id v l))
                          (ite c ((id, v) ∷ a ∷ l) (b ∷ a ∷ insert ℕ_discrete id v l))) [
                            | yes f ↦ Permᴰ.swap refl refl
                            | no f ↦ Permᴰ.swap refl refl
                          ]
              ]

  pub insert-Permᴰ :
      (n id : ℕ) (v : Sub E) {xs ys : List (ℕ × Sub E)}
      → Unique n xs
      → Permᴰ xs ys
      → Permᴰ (insert ℕ_discrete id v xs) (insert ℕ_discrete id v ys)
  unfolding insert
  insert-Permᴰ n id v u Permᴰ.nil = same-Permᴰ _
  insert-Permᴰ n id v u (Permᴰ.cons {a} {b} {l₁} {l₂} same d) =
      let rest = insert-Permᴰ n id v u.2 d in
      rw (sym same)
        (elim (ℕ_discrete a.0 id)
          as (λ c.
            Permᴰ (ite c ((id, v) ∷ l₁) (a ∷ insert ℕ_discrete id v l₁))
              (ite c ((id, v) ∷ l₂) (a ∷ insert ℕ_discrete id v l₂))) [
                | yes p ↦ Permᴰ.cons refl d
                | no p ↦ Permᴰ.cons refl rest
              ])
  insert-Permᴰ n id v u (Permᴰ.swap {a} {b} {a'} {b'} {l} p q) =
      rw (sym p, sym q) (insert-swap id v a b l (two_ids n a b l u))
  insert-Permᴰ n id v u (Permᴰ.trans d1 d2) =
      Permᴰ.trans (insert-Permᴰ n id v u d1) (insert-Permᴰ n id v (Unique-Permᴰ n u d1).0 d2)

  holds-swap :
      (f : Bytes) (a b : ℕ × Sub E) (l : List (ℕ × Sub E))
      → holds f (a ∷ b ∷ l) ≡ holds f (b ∷ a ∷ l)
  unfolding holds
  holds-swap f a b l = ground arith

  pub holds-Permᴰ : (f : Bytes) {xs ys : List (ℕ × Sub E)} → Permᴰ xs ys → holds f xs ≡ holds f ys
  unfolding holds
  holds-Permᴰ f Permᴰ.nil = refl
  holds-Permᴰ f (Permᴰ.cons {a} {b} {l₁} {l₂} same d) =
      rw (sym same) (ap (◌||◌ (str_eq a.1.filter f)) (holds-Permᴰ f d))
  holds-Permᴰ f (Permᴰ.swap {a} {b} {a'} {b'} {l} p q) = rw (sym p, sym q) (holds-swap f a b l)
  holds-Permᴰ f (Permᴰ.trans d1 d2) = holds-Permᴰ f d1 ∙ holds-Permᴰ f d2
