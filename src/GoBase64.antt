-- ===== src/GoBase64.antt =====
-- `base64.StdEncoding.EncodeToString`, on byte sequences.
use contextmatrix_backendkit.Prelude.{
  ℕ, ◌+◌, ◌-◌, ◌*◌, ◌/◌, ◌%◌, ◌<◌, ◌≡◌, ◌≢◌, refl, [], ◌∷◌, Bytes, bytes, if◌then◌else◌, ltb, arith,
  ℕ_discrete, holds?,
}
use contextmatrix_backendkit.GoStrings.{AreBytes}

-- The character of six bits.
unfoldable pub sextet : ℕ → ℕ
sextet n =
    if ltb n 26
    then 65 + n
    else (if ltb n 52
        then 71 + n
        else (if ltb n 62 then n - 4 else (if holds? (ℕ_discrete n 62) then 43 else 47)))

abbrev pub pad : ℕ
pad = 61

unfoldable pub encode_base64 : Bytes → Bytes
unfolding sextet
encode_base64 [] = []
encode_base64 (a ∷ []) = sextet (a / 4) ∷ sextet (a % 4 * 16) ∷ pad ∷ pad ∷ []
encode_base64 (a ∷ b ∷ []) =
    sextet (a / 4) ∷ sextet (a % 4 * 16 + b / 16) ∷ sextet (b % 16 * 4) ∷ pad ∷ []
encode_base64 (a ∷ b ∷ c ∷ s) =
    sextet (a / 4)
    ∷ sextet (a % 4 * 16 + b / 16)
    ∷ sextet (b % 16 * 4 + c / 64)
    ∷ sextet (c % 64)
    ∷ encode_base64 s

-- Its inverse, RFC 4648.
unfoldable pub sextet_of : ℕ → ℕ
sextet_of c =
    if ltb 96 c
    then c - 71
    else (if ltb 64 c
        then c - 65
        else (if ltb 47 c then c + 4 else (if holds? (ℕ_discrete c 43) then 62 else 63)))

unfoldable pub decode_base64 : Bytes → Bytes
unfolding sextet_of
decode_base64 [] = []
decode_base64 (w ∷ []) = []
decode_base64 (w ∷ x ∷ []) = []
decode_base64 (w ∷ x ∷ y ∷ []) = []
decode_base64 (w ∷ x ∷ y ∷ z ∷ s) =
    let rest = decode_base64 s in
    let a = sextet_of w * 4 + sextet_of x / 16 in
    let b = sextet_of x % 16 * 16 + sextet_of y / 4 in
    let c = sextet_of y % 4 * 64 + sextet_of z in
    if holds? (ℕ_discrete y pad)
    then a ∷ []
    else (if holds? (ℕ_discrete z pad) then a ∷ b ∷ [] else a ∷ b ∷ c ∷ rest)

sextet_of-sextet : (n : ℕ) → n < 64 → (sextet_of (sextet n) ≡ n) × (sextet n ≢ pad)
unfolding sextet sextet_of ℕ_discrete
sextet_of-sextet n h = ground arith

pub decode-encode : (s : Bytes) → AreBytes s → decode_base64 (encode_base64 s) ≡ s
unfolding encode_base64 decode_base64
decode-encode [] h = refl
decode-encode (a ∷ []) h =
    ground (arith, h, sextet_of-sextet (a / 4), sextet_of-sextet (a % 4 * 16))
decode-encode (a ∷ b ∷ []) h = ground (
  arith,
  h,
  sextet_of-sextet (a / 4),
  sextet_of-sextet (a % 4 * 16 + b / 16),
  sextet_of-sextet (b % 16 * 4),
)
decode-encode (a ∷ b ∷ c ∷ s) h = ground (
  arith,
  h,
  sextet_of-sextet (a / 4),
  sextet_of-sextet (a % 4 * 16 + b / 16),
  sextet_of-sextet (b % 16 * 4 + c / 64),
  sextet_of-sextet (c % 64),
  decode-encode s h.1.1.1,
)

hello : encode_base64 (bytes "hello") ≡ bytes "aGVsbG8="
unfolding encode_base64 ℕ_discrete
hello = refl
