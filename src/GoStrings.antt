-- ===== src/GoStrings.antt =====
-- What the code uses of Go's strings, encoding/hex and strconv packages, on byte sequences.
use contextmatrix_backendkit.Prelude.{
  ℕ, zero, suc, ◌+◌, ◌/◌, ◌%◌, ◌<◌, ◌≡◌, refl, [], ◌∷◌, ◌++◌, Option, none, some, Bool, true, false,
  ◌||◌, ◌&&◌, is_empty, Bytes, bytes, bytes_dec, holds?, if◌then◌else◌, ltb, arith, ℕ_discrete,
}

-- `a == b` on strings.
abbrev pub str_eq : Bytes → Bytes → Bool
str_eq a b = holds? (bytes_dec a b)

-- `strings.CutPrefix(s, prefix)`; none where `s` does not begin with it.
unfoldable pub cut_prefix : Bytes → Bytes → Option Bytes
cut_prefix s [] = some s
cut_prefix [] (p ∷ prefix) = none
cut_prefix (c ∷ s) (p ∷ prefix) =
    let rest = cut_prefix s prefix in if holds? (ℕ_discrete c p) then rest else none

-- `strings.HasPrefix(s, prefix)`
unfoldable pub has_prefix : Bytes → Bytes → Bool
unfolding cut_prefix
has_prefix s prefix = elim (cut_prefix s prefix) [ none ↦ false | some rest ↦ true ]

-- `strings.TrimPrefix(s, prefix)`
unfoldable pub trim_prefix : Bytes → Bytes → Bytes
unfolding cut_prefix
trim_prefix s prefix = elim (cut_prefix s prefix) [ none ↦ s | some rest ↦ rest ]

-- `strings.Contains(s, sub)`
unfoldable pub contains : Bytes → Bytes → Bool
unfolding has_prefix
contains [] sub = has_prefix [] sub
contains (c ∷ s) sub = has_prefix (c ∷ s) sub || contains s sub

abbrev pub slash : ℕ
slash = 47

-- `strings.HasSuffix(s, "/")`
unfoldable pub ends_in_slash : Bytes → Bool
ends_in_slash [] = false
ends_in_slash (c ∷ []) = holds? (ℕ_discrete c slash)
ends_in_slash (c ∷ d ∷ s) = ends_in_slash (d ∷ s)

-- `strings.TrimSuffix(s, "/")`
unfoldable pub trim_slash : Bytes → Bytes
trim_slash [] = []
trim_slash (c ∷ []) = if holds? (ℕ_discrete c slash) then [] else c ∷ []
trim_slash (c ∷ d ∷ s) = c ∷ trim_slash (d ∷ s)

-- `strings.TrimRight(s, "/")`
unfoldable pub trim_right_slashes : Bytes → Bytes
trim_right_slashes [] = []
trim_right_slashes (c ∷ s) =
    let rest = trim_right_slashes s in
    if is_empty rest && holds? (ℕ_discrete c slash) then [] else c ∷ rest

unfoldable pub has_byte : ℕ → Bytes → Bool
has_byte c [] = false
has_byte c (d ∷ s) = holds? (ℕ_discrete c d) || has_byte c s

-- `strings.ContainsAny(s, chars)`
unfoldable pub contains_any : Bytes → Bytes → Bool
unfolding has_byte
contains_any [] chars = false
contains_any (c ∷ s) chars = has_byte c chars || contains_any s chars

-- `hex.EncodeToString`
abbrev pub hex_digit : ℕ → ℕ
hex_digit n = if ltb n 10 then 48 + n else 87 + n

unfoldable pub hex_encode : Bytes → Bytes
hex_encode [] = []
hex_encode (b ∷ s) = hex_digit (b / 16) ∷ hex_digit (b % 16) ∷ hex_encode s

abbrev pub AreBytes : Bytes → Type 0
AreBytes [] = Unit {0}
AreBytes (b ∷ s) = (b < 256) × AreBytes s

hex_digit-injective : (m n : ℕ) → hex_digit m ≡ hex_digit n → m < 16 → n < 16 → m ≡ n
hex_digit-injective m n h p q = ground arith

pub hex_encode-injective :
    (a b : Bytes) → AreBytes a → AreBytes b → hex_encode a ≡ hex_encode b → a ≡ b
unfolding hex_encode
hex_encode-injective [] [] p q h = refl
hex_encode-injective [] (y ∷ b) p q h = cc
hex_encode-injective (x ∷ a) [] p q h = cc
hex_encode-injective (x ∷ a) (y ∷ b) p q h =
    let high : hex_digit (x / 16) ≡ hex_digit (y / 16) = cc in
    let low : hex_digit (x % 16) ≡ hex_digit (y % 16) = cc in
    let tail : hex_encode a ≡ hex_encode b = cc in
    let high' =
      hex_digit-injective (x / 16) (y / 16) high (omega (arith, p.0)) (omega (arith, q.0)) in
    let low' = hex_digit-injective (x % 16) (y % 16) low (omega arith) (omega arith) in
    let same : x ≡ y = omega (arith, high', low') in
    let rest = hex_encode-injective a b p.1 q.1 tail in cc

-- What was cut off stood in front.
pub cut_prefix-some : (s prefix rest : Bytes) → cut_prefix s prefix ≡ some rest → s ≡ prefix ++ rest
unfolding cut_prefix
cut_prefix-some s [] rest h = cc
cut_prefix-some [] (p ∷ prefix) rest h = cc
cut_prefix-some (c ∷ s) (p ∷ prefix) rest h = ground (arith, cut_prefix-some s prefix rest)

pub cut_prefix-append : (prefix rest : Bytes) → cut_prefix (prefix ++ rest) prefix ≡ some rest
unfolding cut_prefix
cut_prefix-append [] rest = refl
cut_prefix-append (p ∷ prefix) rest = ground (arith, cut_prefix-append prefix rest)

-- `strconv.Itoa` of a number that is not negative; `fuel` is the most digits.
itoa_loop : ℕ → ℕ → Bytes
itoa_loop zero n = []
itoa_loop (suc fuel) n =
    let rest = itoa_loop fuel (n / 10) in
    if ltb n 10 then (48 + n) ∷ [] else rest ++ (48 + n % 10) ∷ []

-- An int has at most 19 digits.
unfoldable pub itoa : ℕ → Bytes
unfolding itoa_loop
itoa n = itoa_loop 19 n

program : Unit {0}
unfolding itoa has_prefix trim_prefix ends_in_slash trim_slash contains_any hex_encode bytes_dec
    ℕ_discrete
program = tt

itoa_port : itoa 8080 ≡ bytes "8080"
unfolding program
itoa_port = refl

hex_some : hex_encode (0 ∷ 171 ∷ []) ≡ bytes "00ab"
unfolding program
hex_some = refl
