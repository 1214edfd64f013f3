-- ===== src/Frames/Examples.antt =====
-- Runs of the frame protocol, and its theorem at a concrete stream.
use contextmatrix_backendkit.Prelude.{
  ℕ, ◌+◌, ◌-◌, ◌*◌, ◌<◌, ◌≡◌, ◌↔◌, refl, subst, ◌++◌, All, append-nil, holds?, ltb, List, [], ◌∷◌,
  Option, none, some, false, arith, Bytes, bytes, bytes_dec, ℕ_discrete, if◌then◌else◌,
}
use contextmatrix_backendkit.GoStrings.{has_byte, hex_encode}
use contextmatrix_backendkit.Frames.{
  Frame, Codec, newline, carriage_return, write, split_line, drop_cr, scan, accepts, parse_line,
  handle_line, next_loop, next, frame,
}
use contextmatrix_backendkit.Frames.Ending
use contextmatrix_backendkit.Frames.Ending.{Reads}
use contextmatrix_backendkit.Frames.RoundTrip
use contextmatrix_backendkit.Frames.RoundTrip.{write_all, read_all, line_of, kept, Faithful}

-- A codec for all frames: the three texts in hex, two dashes between them. A byte that is no ASCII
-- becomes a question mark, as encoding/json replaces what is no text.
unfoldable coerce : Bytes → Bytes
coerce [] = []
coerce (c ∷ s) = (if ltb c 128 then c else 63) ∷ coerce s

abbrev encode : Frame → Bytes
encode f =
    hex_encode (coerce f.kind)
    ++ (45 ∷ 45 ∷ (hex_encode (coerce f.content) ++ (45 ∷ 45 ∷ hex_encode (coerce f.message_id))))

abbrev digit_of : ℕ → ℕ
digit_of c = if ltb c 58 then c - 48 else c - 87

unfoldable texts : Bytes → Bytes → List Bytes
texts [] text = text ∷ []
texts (c ∷ []) text = text ∷ []
texts (c ∷ d ∷ s) text =
    let ended = holds? (ℕ_discrete c 45) in
    let rest = texts s (if ended then [] else text ++ (digit_of c * 16 + digit_of d) ∷ []) in
    if ended then text ∷ rest else rest

program : Unit {0}
unfolding bytes_dec ℕ_discrete has_byte coerce hex_encode texts write split_line drop_cr scan
    accepts parse_line handle_line next_loop next write_all read_all line_of kept
program = tt

abbrev frame_of : List Bytes → Option Frame
frame_of (kind ∷ content ∷ message_id ∷ []) =
    some (record { kind = kind; content = content; message_id = message_id })
frame_of _ = none

abbrev codec : Codec
codec = record { marshal = λ f. some (encode f); unmarshal = λ b. frame_of (texts b []) }

hex_plain :
    (c : ℕ) (s rest : Bytes)
    → c < 45
    → has_byte c rest ≡ false
    → has_byte c (hex_encode s ++ rest) ≡ false
unfolding has_byte hex_encode
hex_plain c [] rest small h = h
hex_plain c (d ∷ s) rest small h = ground (arith, hex_plain c s rest small h)

encode-plain : (c : ℕ) (f : Frame) → c < 45 → has_byte c (encode f) ≡ false
unfolding has_byte
encode-plain c f small =
    let last = hex_plain c (coerce f.message_id) [] small refl in
    let end : has_byte c (hex_encode (coerce f.message_id)) ≡ false =
      subst (λ s. has_byte c s ≡ false) (append-nil (hex_encode (coerce f.message_id))) last in
    let middle =
      hex_plain c (coerce f.content) (45 ∷ 45 ∷ hex_encode (coerce f.message_id)) small
        (ground (arith, end)) in
    hex_plain c (coerce f.kind) _ small (ground (arith, middle))

plain :
    (f : Frame) (b : Bytes)
    → codec.marshal f ≡ some b
    → (has_byte newline b ≡ false) × (has_byte carriage_return b ≡ false)
plain f b h =
    let same : encode f ≡ b = cc in
    (
      subst (λ s. has_byte newline s ≡ false) same (encode-plain newline f (omega arith)),
      subst (λ s. has_byte carriage_return s ≡ false) same
          (encode-plain carriage_return f (omega arith)),
    )

abbrev bare : Bytes → Bytes → Frame
bare kind content = record { kind = kind; content = content; message_id = bytes "m1" }

-- The encoding of each of these frames decodes to it.
abbrev frames : List Frame
frames =
    bare (bytes "user_message") (bytes "two\nlines")
    ∷ bare (bytes "unknown") []
    ∷ bare (bytes "promote") []
    ∷ []

abbrev accepted : List Bytes
accepted = bytes "promote" ∷ bytes "user_message" ∷ []

faithful : (f : Frame) → codec.unmarshal (encode f) ≡ some f → Faithful codec f
faithful f h b e = let same : encode f ≡ b = cc in subst (λ s. codec.unmarshal s ≡ some f) same h

decodes : All (Faithful codec) frames
unfolding program
decodes = (
  faithful (bare (bytes "user_message") (bytes "two\nlines")) refl,
  (faithful (bare (bytes "unknown") []) refl, (faithful (bare (bytes "promote") []) refl, tt)),
)

-- A frame whose encoding decodes to another.
coerced :
    codec.unmarshal (encode (bare (bytes "promote") (255 ∷ [])))
    ≡ some (bare (bytes "promote") (bytes "?"))
unfolding program
coerced = refl

promoted :
    kept codec accepted frames
    ≡ bare (bytes "user_message") (bytes "two\nlines") ∷ bare (bytes "promote") [] ∷ []
unfolding program
promoted = refl

read_all-write_all_example :
    read_all codec accepted 4 (write_all codec frames []) ≡ kept codec accepted frames
read_all-write_all_example =
    RoundTrip.read_all-write_all codec accepted plain frames 4 decodes (omega arith)

-- A line that is no frame, then one of an accepted type, then half a line.
abbrev stream : Bytes
stream = bytes "x\n" ++ (encode (bare (bytes "promote") []) ++ bytes "\n{")

first_frame : next codec accepted stream ≡ frame (bare (bytes "promote") []) (bytes "{")
unfolding program
first_frame = refl

next-Reads_example :
    (next codec accepted stream ≡ frame (bare (bytes "promote") []) (bytes "{"))
    ↔ Reads codec accepted stream (frame (bare (bytes "promote") []) (bytes "{"))
next-Reads_example =
    Ending.next-Reads codec accepted stream (frame (bare (bytes "promote") []) (bytes "{"))
