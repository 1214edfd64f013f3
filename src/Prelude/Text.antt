-- ===== src/Prelude/Text.antt =====
-- Go strings: finite sequences of bytes. A literal is written `bytes "..."`; the source's
-- literals are ASCII, so their code points are their bytes.
use Prim.Native.Nat.{ℕ}
use Prim.Native.Char.{code}
use Prim.Native.String.{String}
use mathlib.Core.List.{List, [], ◌∷◌}
use mathlib.Core.Logic.{◌≢◌}
use mathlib.Core.Path.{◌≡◌, refl}
use mathlib.Core.Bool.{Bool, true, false}
use native.Mathlib.Decide.{ℕ_discrete}
use contextmatrix_backendkit.Prelude.Tests.{holds?}

abbrev pub Bytes : Type 0
Bytes = List ℕ

abbrev pub bytes : String → Bytes
bytes String.[] = []
bytes (String.◌∷◌ c s) = code c ∷ bytes s

nil-ne-cons : (y : ℕ) (b : Bytes) → ◌≢◌ {A = Bytes} [] (y ∷ b)
nil-ne-cons y b e = cc

cons-ne-nil : (x : ℕ) (a : Bytes) → ◌≢◌ {A = Bytes} (x ∷ a) []
cons-ne-nil x a e = cc

cons-eq : {x y : ℕ} {a b : Bytes} → x ≡ y → a ≡ b → ◌≡◌ {A = Bytes} (x ∷ a) (y ∷ b)
cons-eq p q = cc

head-eq : {x y : ℕ} {a b : Bytes} → ◌≡◌ {A = Bytes} (x ∷ a) (y ∷ b) → x ≡ y
head-eq e = cc

tail-eq : {x y : ℕ} {a b : Bytes} → ◌≡◌ {A = Bytes} (x ∷ a) (y ∷ b) → a ≡ b
tail-eq e = cc

-- `a == b` on strings, as a decision.
unfoldable pub bytes_dec : Discrete Bytes
unfolding ℕ_discrete nil-ne-cons cons-ne-nil cons-eq head-eq tail-eq
bytes_dec [] [] = yes refl
bytes_dec [] (y ∷ b) = no (nil-ne-cons y b)
bytes_dec (x ∷ a) [] = no (cons-ne-nil x a)
bytes_dec (x ∷ a) (y ∷ b) =
    let rest = bytes_dec a b in
    elim (ℕ_discrete x y) [
      | yes p ↦ elim rest [ yes q ↦ yes (cons-eq p q) | no n ↦ no (λ e. n (tail-eq e)) ]
      | no n ↦ no (λ e. n (head-eq e))
    ]

test : holds? (bytes_dec (bytes "abc") (bytes "abc")) ≡ true
unfolding bytes_dec
test = refl

-- `s == ""`.
abbrev pub is_empty : Bytes → Bool
is_empty [] = true
is_empty (x ∷ s) = false
