-- ===== src/Frames/Lines.antt =====
-- How a stream falls into lines (bufio.Scanner as frames/frames.go uses it).
use contextmatrix_backendkit.Prelude.{
  ℕ, zero, suc, ◌+◌, ◌≤◌, ◌<◌, ◌≡◌, refl, ap, List, [], ◌∷◌, ◌++◌, none, some, false, arith, Bytes,
  inl, inr, length, Option-cases,
}
use contextmatrix_backendkit.GoStrings.{has_byte}
use contextmatrix_backendkit.Frames.{
  Codec, max_line, newline, carriage_return, split_line, drop_cr, Scanned, token, line_too_long,
  stream_end, scan, next_loop,
}

-- A line without a newline, then one, then the rest.
pub split_line-append :
    (line left : Bytes)
    → has_byte newline line ≡ false
    → split_line (line ++ newline ∷ left) ≡ some (line, left)
unfolding split_line has_byte
split_line-append [] left h = ground arith
split_line-append (c ∷ line) left h = ground (arith, split_line-append line left)

length-split_line :
    (s line left : Bytes) → split_line s ≡ some (line, left) → length left < length s
unfolding split_line
length-split_line [] line left h = cc
length-split_line (c ∷ s) line left h = elim (Option-cases (split_line s)) [
  | inl e ↦ ground (arith, e)
  | inr ((l, r), e) ↦ ground (arith, e, length-split_line s l r e)
]

split_line_nil : split_line [] ≡ none
unfolding split_line
split_line_nil = refl

pub length-scan : (s line left : Bytes) → scan s ≡ token line left → length left < length s
unfolding scan
length-scan [] line left h = ground (arith, split_line_nil)
length-scan (c ∷ s) line left h = elim (Option-cases (split_line (c ∷ s))) [
  | inl e ↦ ground (arith, e)
  | inr ((l, r), e) ↦ ground (arith, e, length-split_line (c ∷ s) l r e)
]

-- The three ends of a scan.
pub data ScanCase (s : Bytes) : Type 0 where
  is_token : (line left : Bytes) → scan s ≡ token line left → ScanCase s
  is_long : scan s ≡ line_too_long → ScanCase s
  is_end : scan s ≡ stream_end → ScanCase s

pub scanned : (s : Bytes) (r : Scanned) → scan s ≡ r → ScanCase s
scanned s (token line left) h = is_token line left h
scanned s line_too_long h = is_long h
scanned s stream_end h = is_end h

-- Any fuel above the length gives the same result.
pub next_loop-enough :
    (codec : Codec) (accepted : List Bytes) (m n : ℕ) (s : Bytes)
    → length s < m
    → length s < n
    → next_loop codec accepted m s ≡ next_loop codec accepted n s
unfolding next_loop
next_loop-enough codec accepted zero n s h k = absurd (omega arith)
next_loop-enough codec accepted (suc m) zero s h k = absurd (omega arith)
next_loop-enough codec accepted (suc m) (suc n) s h k = elim (scanned s (scan s) refl) [
  | is_token line left e ↦ ground (
    arith,
    e,
    next_loop-enough codec accepted m n left (omega (arith, length-scan s line left e))
        (omega (arith, length-scan s line left e)),
  )
  | is_long e ↦ ground (arith, e)
  | is_end e ↦ ground (arith, e)
]

drop_cr-plain : (s : Bytes) → has_byte carriage_return s ≡ false → drop_cr s ≡ s
unfolding drop_cr has_byte
drop_cr-plain [] h = refl
drop_cr-plain (c ∷ []) h = ground arith
drop_cr-plain (c ∷ d ∷ s) h = ap (◌∷◌ c) (drop_cr-plain (d ∷ s) (ground arith))

-- A line that fits is scanned as it was written.
pub scan-append :
    (line left : Bytes)
    → has_byte newline line ≡ false
    → has_byte carriage_return line ≡ false
    → length line + 1 ≤ max_line
    → scan (line ++ newline ∷ left) ≡ token line left
unfolding scan
scan-append line left no_newline no_return fits =
    ground (arith, split_line-append line left no_newline, drop_cr-plain line no_return)
