-- ===== src/Prelude/Assoc.antt =====
-- Go maps, as association lists. `insert` replaces in place or adds at the end; `delete` drops
-- every binding of the key. The order of the bindings stands for Go's iteration order.
use mathlib.Core.List.{List, [], ◌∷◌}
use mathlib.Core.Logic.{ite}
use mathlib.Core.Option.{Option, none, some}
use mathlib.Core.Path.{◌≡◌, refl, subst}
use native.Mathlib.Omega.{arith}

module _ {ℓ} {K V : Type ℓ} (dec : Discrete K) where
  -- `v, ok := m[k]`
  unfoldable pub lookup : K → List (K × V) → Option V
  lookup k [] = none
  lookup k ((j, v) ∷ m) = ite (dec j k) (some v) (lookup k m)

  -- `m[k] = v`
  unfoldable pub insert : K → V → List (K × V) → List (K × V)
  insert k v [] = (k, v) ∷ []
  insert k v ((j, w) ∷ m) = ite (dec j k) ((k, v) ∷ m) ((j, w) ∷ insert k v m)

  -- `delete(m, k)`
  unfoldable pub delete : K → List (K × V) → List (K × V)
  delete k [] = []
  delete k ((j, w) ∷ m) = ite (dec j k) (delete k m) ((j, w) ∷ delete k m)

  pub lookup-insert :
      (k j : K) (v : V) (m : List (K × V))
      → lookup j (insert k v m) ≡ ite (dec k j) (some v) (lookup j m)
  unfolding lookup insert
  lookup-insert k j v [] = refl
  lookup-insert k j v ((i, w) ∷ m) = ground (arith, lookup-insert k j v m)

  pub lookup-delete :
      (k j : K) (m : List (K × V)) → lookup j (delete k m) ≡ ite (dec k j) none (lookup j m)
  unfolding lookup delete
  lookup-delete k j [] = ground arith
  lookup-delete k j ((i, w) ∷ m) = ground (arith, lookup-delete k j m)

-- Every value of a map.
abbrev pub Values : {K V : Type 0} → (V → Type 0) → List (K × V) → Type 0
Values Q [] = Unit {0}
Values Q ((k, v) ∷ m) = Q v × Values Q m

module _ {K V : Type 0} (dec : Discrete K) (Q : V → Type 0) where
  pub Values-insert :
      (k : K) (v : V) (m : List (K × V)) → Q v → Values Q m → Values Q (insert dec k v m)
  unfolding insert
  Values-insert k v [] q h = (q, tt)
  Values-insert k v ((j, w) ∷ m) q h =
      elim (dec j k) as (λ d. Values Q (ite d ((k, v) ∷ m) ((j, w) ∷ insert dec k v m))) [
        | yes p ↦ (q, h.1)
        | no p ↦ (h.0, Values-insert k v m q h.1)
      ]

  pub Values-delete : (k : K) (m : List (K × V)) → Values Q m → Values Q (delete dec k m)
  unfolding delete
  Values-delete k [] h = tt
  Values-delete k ((j, w) ∷ m) h =
      elim (dec j k) as (λ d. Values Q (ite d (delete dec k m) ((j, w) ∷ delete dec k m))) [
        | yes p ↦ Values-delete k m h.1
        | no p ↦ (h.0, Values-delete k m h.1)
      ]

  pub Values-lookup :
      (k : K) (v : V) (m : List (K × V)) → Values Q m → lookup dec k m ≡ some v → Q v
  unfolding lookup
  Values-lookup k v [] h e = absurd (cc)
  Values-lookup k v ((j, w) ∷ m) h e =
      elim (dec j k) as (λ d. ite d (some w) (lookup dec k m) ≡ some v → Q v) [
        | yes p ↦ λ e. let same : w ≡ v = cc in subst Q same h.0
        | no p ↦ λ e. Values-lookup k v m h.1 e
      ]
        e
