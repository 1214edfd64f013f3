-- ===== src/Frames/RoundTrip.antt =====
-- Writing frames and reading them back (frames/frames.go).
use contextmatrix_backendkit.Prelude.{
  ℕ, zero, suc, ◌+◌, ◌≤◌, ◌<◌, ◌≡◌, refl, ap, sym, ◌∙◌, List, [], ◌∷◌, ◌++◌, All, Option, none,
  some, true, false, arith, Bytes, inl, inr, if◌then◌else◌, length, length-append, append_assoc,
  append-nil, leb, Option-cases, Bool-cases,
}
use contextmatrix_backendkit.GoStrings.{has_byte}
use contextmatrix_backendkit.Frames.{
  Frame, Codec, max_line, newline, carriage_return, write, scan, split_line, frame, read_failed,
  eof, accepts, parse_line, handle_line, next_loop, next,
}
use contextmatrix_backendkit.Frames.Lines.{scan-append, next_loop-enough}

-- What is in the stream after writing a list of frames; a frame that is refused leaves it alone.
unfoldable pub write_all : Codec → List Frame → Bytes → Bytes
write_all codec [] out = out
write_all codec (f ∷ frames) out = write_all codec frames (write codec true f out).1

-- A client that calls Next until it gives no frame, at most `n` times.
unfoldable pub read_all : Codec → List Bytes → ℕ → Bytes → List Frame
read_all codec accepted zero s = []
read_all codec accepted (suc n) s = elim (next codec accepted s) [
  | frame f left ↦ f ∷ read_all codec accepted n left
  | read_failed ↦ []
  | eof ↦ []
]

-- The frame's JSON decodes to it; encoding/json puts U+FFFD where a text is no valid UTF-8, so that
-- such a frame's does not.
abbrev pub Faithful : Codec → Frame → Type 0
Faithful codec f = (b : Bytes) → codec.marshal f ≡ some b → codec.unmarshal b ≡ some f

-- The bytes of a frame, none where Write refuses it.
unfoldable pub line_of : Codec → Frame → Option Bytes
line_of codec f = elim (codec.marshal f) [
  | none ↦ none
  | some b ↦ if leb (length b + 1) max_line then some b else none
]

-- The frames that Write does not refuse and the reader accepts.
unfoldable pub kept : Codec → List Bytes → List Frame → List Frame
unfolding line_of
kept codec accepted [] = []
kept codec accepted (f ∷ frames) =
    let rest = kept codec accepted frames in
    elim (line_of codec f) [
      | none ↦ rest
      | some b ↦ if accepts accepted f.kind then f ∷ rest else rest
    ]

write-none :
    (codec : Codec) (f : Frame) (out : Bytes)
    → line_of codec f ≡ none
    → (write codec true f out).1 ≡ out
unfolding write line_of
write-none codec f out h = elim (Option-cases (codec.marshal f)) [
  | inl e ↦ ground (arith, e)
  | inr (b, e) ↦ ground (arith, e)
]

write-some :
    (codec : Codec) (f : Frame) (out b : Bytes)
    → line_of codec f ≡ some b
    → (write codec true f out).1 ≡ out ++ (b ++ newline ∷ [])
unfolding write line_of
write-some codec f out b h = elim (Option-cases (codec.marshal f)) [
  | inl e ↦ ground (arith, e)
  | inr (c, e) ↦ ground (arith, e, append_assoc out b (newline ∷ []))
]

write_all-append :
    (codec : Codec) (frames : List Frame) (out : Bytes)
    → write_all codec frames out ≡ out ++ write_all codec frames []
unfolding write_all
write_all-append codec [] out = sym (append-nil out)
write_all-append codec (f ∷ frames) out = elim (Option-cases (line_of codec f)) [
  | inl e ↦
      ap (write_all codec frames) (write-none codec f out e)
      ∙ write_all-append codec frames out
      ∙ ap (λ o. out ++ write_all codec frames o) (sym (write-none codec f [] e))
  | inr (b, e) ↦
      let line = b ++ newline ∷ [] in
      ap (write_all codec frames) (write-some codec f out b e)
      ∙ write_all-append codec frames (out ++ line)
      ∙ append_assoc out line (write_all codec frames [])
      ∙ ap (◌++◌ out) (sym (write_all-append codec frames line))
      ∙ ap (λ o. out ++ write_all codec frames o) (sym (write-some codec f [] b e))
]

line_of-marshal :
    (codec : Codec) (f : Frame) (b : Bytes)
    → line_of codec f ≡ some b
    → (codec.marshal f ≡ some b) × (length b + 1 ≤ max_line)
unfolding line_of
line_of-marshal codec f b h = elim (Option-cases (codec.marshal f)) [
  | inl e ↦ absurd (ground (arith, e))
  | inr (c, e) ↦ ground (arith, e)
]

write_all-none :
    (codec : Codec) (f : Frame) (frames : List Frame)
    → line_of codec f ≡ none
    → write_all codec (f ∷ frames) [] ≡ write_all codec frames []
unfolding write_all
write_all-none codec f frames h = ap (write_all codec frames) (write-none codec f [] h)

write_all-some :
    (codec : Codec) (f : Frame) (frames : List Frame) (b : Bytes)
    → line_of codec f ≡ some b
    → write_all codec (f ∷ frames) [] ≡ b ++ newline ∷ write_all codec frames []
unfolding write_all
write_all-some codec f frames b h =
    ap (write_all codec frames) (write-some codec f [] b h)
    ∙ write_all-append codec frames (b ++ newline ∷ [])
    ∙ append_assoc b (newline ∷ []) (write_all codec frames [])

read_all-next :
    (codec : Codec) (accepted : List Bytes) (n : ℕ) (s s' : Bytes)
    → next codec accepted s ≡ next codec accepted s'
    → read_all codec accepted n s ≡ read_all codec accepted n s'
unfolding read_all
read_all-next codec accepted zero s s' h = refl
read_all-next codec accepted (suc n) s s' h = ground (arith, h)

module _ (codec : Codec) (accepted : List Bytes)
    (plain : (f : Frame) (b : Bytes)
      → codec.marshal f ≡ some b
      → (has_byte newline b ≡ false) × (has_byte carriage_return b ≡ false)) where
  -- Next on a line that Write wrote, followed by anything.
  next-line :
      (f : Frame) (b left : Bytes)
      → Faithful codec f
      → line_of codec f ≡ some b
      → next codec accepted (b ++ newline ∷ left)
        ≡ (if accepts accepted f.kind then frame f left else next codec accepted left)
  unfolding next next_loop handle_line parse_line
  next-line f b left faithful h =
      let (encoded, fits) = line_of-marshal codec f b h in
      ground (
        arith,
        scan-append b left (plain f b encoded).0 (plain f b encoded).1 fits,
        faithful b encoded,
        next_loop-enough codec accepted (length (b ++ newline ∷ left)) (suc (length left)) left
            (omega (arith, length-append b (newline ∷ left))) (omega arith),
      )

  next_end : next codec accepted [] ≡ eof
  unfolding next next_loop scan split_line
  next_end = refl

  -- Reading what was written gives the frames that were not refused and are of an accepted type,
  -- in order: a frame that is refused, for its size or because it cannot be encoded, leaves no
  -- trace, and one of another type is skipped; if the JSON of each of these frames decodes to it,
  -- and the JSON of a frame never holds a line break.
  pub read_all-write_all :
      (frames : List Frame) (n : ℕ)
      → All (Faithful codec) frames
      → length frames < n
      → read_all codec accepted n (write_all codec frames []) ≡ kept codec accepted frames
  unfolding read_all write_all kept
  read_all-write_all frames zero faithful h = absurd (omega arith)
  read_all-write_all [] (suc n) faithful h = ground (arith, next_end)
  read_all-write_all (f ∷ frames) (suc n) faithful h = elim (Option-cases (line_of codec f)) [
    | inl e ↦
        read_all-next codec accepted (suc n) _ _
          (ap (next codec accepted) (write_all-none codec f frames e))
        ∙ read_all-write_all frames (suc n) faithful.1 (omega (arith, h))
        ∙ ground (arith, e)
    | inr (b, e) ↦
        let line =
          ap (next codec accepted) (write_all-some codec f frames b e)
          ∙ next-line f b (write_all codec frames []) faithful.0 e in
        elim (Bool-cases (accepts accepted f.kind)) [
          | inl yes' ↦
              ground
                (arith, e, yes', line, read_all-write_all frames n faithful.1 (omega (arith, h)))
          | inr no' ↦
              read_all-next codec accepted (suc n) _ _ (line ∙ ground (arith, no'))
              ∙ read_all-write_all frames (suc n) faithful.1 (omega (arith, h))
              ∙ ground (arith, e, no')
        ]
  ]
