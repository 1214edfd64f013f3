-- ===== src/LogBridge/Bridge/Truncation.antt =====
-- Where a long text is cut (truncate of logbridge/bridge.go).
use contextmatrix_backendkit.Prelude.{
  ℕ, zero, suc, ◌+◌, ◌-◌, ◌≤◌, ◌<◌, ◌≡◌, refl, ap, List, [], ◌∷◌, ◌++◌, true, false, arith, Bytes,
  if◌then◌else◌, leb, length, take, length-append, dec_le,
}
use contextmatrix_backendkit.LogBridge.Bridge.{rune_start, rune_start_at, cut_loop, truncate}

-- Bytes that continue a rune.
abbrev pub Continues : Bytes → Type 0
Continues [] = Unit {0}
Continues (b ∷ s) = (rune_start b ≡ false) × Continues s

-- A rune is a byte that starts one and bytes that continue it; valid UTF-8 is a list of these.
abbrev pub IsRune : Bytes → Type 0
IsRune [] = ⊥
IsRune (b ∷ s) = (rune_start b ≡ true) × Continues s

abbrev pub AreRunes : List Bytes → Type 0
AreRunes [] = Unit {0}
AreRunes (r ∷ runes) = IsRune r × AreRunes runes

unfoldable pub concat : List Bytes → Bytes
concat [] = []
concat (r ∷ runes) = r ++ concat runes

-- The longest run of whole runes, from the front, that takes at most `n` bytes.
unfoldable pub whole_runes : List Bytes → ℕ → Bytes
whole_runes [] n = []
whole_runes (r ∷ runes) n =
    let rest = whole_runes runes (n - length r) in if leb (length r) n then r ++ rest else []

rune_nonempty : (r : Bytes) → IsRune r → 0 < length r
rune_nonempty [] v = absurd v
rune_nonempty (b ∷ s) v = omega arith

rune_start_at-Continues :
    (s rest : Bytes) (i : ℕ) → Continues s → i < length s → rune_start_at (s ++ rest) i ≡ false
unfolding rune_start_at
rune_start_at-Continues [] rest i c h = absurd (omega arith)
rune_start_at-Continues (b ∷ s) rest zero c h = c.0
rune_start_at-Continues (b ∷ s) rest (suc i) c h =
    rune_start_at-Continues s rest i c.1 (omega arith)

rune_start_at-append :
    (r rest : Bytes) (i m : ℕ)
    → m ≡ length r + i
    → rune_start_at (r ++ rest) m ≡ rune_start_at rest i
unfolding rune_start_at
rune_start_at-append [] rest i m h = ap (rune_start_at rest) (omega (arith, h))
rune_start_at-append (b ∷ r) rest i zero h = absurd (omega (arith, h))
rune_start_at-append (b ∷ r) rest i (suc m) h = rune_start_at-append r rest i m (omega (arith, h))

-- Within the first rune the loop runs down to 0.
cut_loop-within : (r rest : Bytes) (n : ℕ) → IsRune r → n < length r → cut_loop (r ++ rest) n ≡ 0
unfolding cut_loop rune_start_at
cut_loop-within r rest zero v h = refl
cut_loop-within [] rest (suc n) v h = absurd v
cut_loop-within (b ∷ s) rest (suc n) v h = ground (
  arith,
  rune_start_at-Continues s rest n v.1 (omega arith),
  cut_loop-within (b ∷ s) rest n v (omega arith),
)

starts : (runes : List Bytes) → AreRunes runes → rune_start_at (concat runes) 0 ≡ true
unfolding concat rune_start_at
starts [] v = refl
starts ([] ∷ runes) v = absurd v.0
starts ((b ∷ s) ∷ runes) v = v.0.0

-- Past the first rune the loop does not come back into it.
cut_loop-append :
    (r : Bytes) (runes : List Bytes) (n m : ℕ)
    → IsRune r
    → AreRunes runes
    → m ≡ length r + n
    → cut_loop (r ++ concat runes) m ≡ length r + cut_loop (concat runes) n
unfolding cut_loop
cut_loop-append r runes n zero v w h = absurd (omega (arith, h, rune_nonempty r v))
cut_loop-append r runes zero (suc m) v w h =
    ground
      (arith, rune_start_at-append r (concat runes) 0 (suc m) (omega (arith, h)), starts runes w)
cut_loop-append r runes (suc n) (suc m) v w h = ground (
  arith,
  rune_start_at-append r (concat runes) (suc n) (suc m) h,
  cut_loop-append r runes n m v w (omega (arith, h)),
)

take-append : (r s : Bytes) (n m : ℕ) → m ≡ length r + n → take m (r ++ s) ≡ r ++ take n s
take-append [] s n m h = ap (λ i. take i s) (omega (arith, h))
take-append (b ∷ r) s n zero h = absurd (omega (arith, h))
take-append (b ∷ r) s n (suc m) h = ap (◌∷◌ b) (take-append r s n m (omega (arith, h)))

cut_loop-whole_runes :
    (runes : List Bytes) (limit : ℕ)
    → AreRunes runes
    → limit < length (concat runes)
    → take (cut_loop (concat runes) limit) (concat runes) ≡ whole_runes runes limit
unfolding concat whole_runes
cut_loop-whole_runes [] limit v h = absurd (omega arith)
cut_loop-whole_runes (r ∷ runes) limit v h = elim (dec_le (length r) limit) [
  | yes fits ↦
      let n = limit - length r in
      let split : limit ≡ length r + n = omega (arith, fits) in
      let rest = cut_loop-whole_runes runes n v.1 (omega (arith, length-append r (concat runes))) in
      ground (
        arith,
        fits,
        cut_loop-append r runes n limit v.0 v.1 split,
        take-append r (concat runes) (cut_loop (concat runes) n) _ refl,
      )
  | no over ↦ ground (arith, cut_loop-within r (concat runes) limit v.0 (omega (arith, over)))
]

whole_runes_all :
    (runes : List Bytes) (limit : ℕ)
    → length (concat runes) ≤ limit
    → whole_runes runes limit ≡ concat runes
unfolding concat whole_runes
whole_runes_all [] limit h = refl
whole_runes_all (r ∷ runes) limit h = ground (
  arith,
  length-append r (concat runes),
  whole_runes_all runes (limit - length r) (omega (arith, length-append r (concat runes))),
)

-- A text of whole runes is cut to the longest run of its whole runes, from the front, that takes
-- at most `limit` bytes: no rune is split, and none that fits is lost.
pub truncate-whole_runes :
    (runes : List Bytes) (limit : ℕ)
    → AreRunes runes
    → truncate (concat runes) limit ≡ whole_runes runes limit
unfolding truncate
truncate-whole_runes runes limit v =
    ground (arith, cut_loop-whole_runes runes limit v, whole_runes_all runes limit)
