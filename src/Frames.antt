-- ===== src/Frames.antt =====
-- The control frames on a worker's stdin, frames/frames.go. encoding/json is the record `Codec`;
-- bufio.Scanner splits a stream into lines, and the stream is the bytes that are left of it.
pub mod Lines
pub mod RoundTrip
pub mod Ending
mod Examples
use contextmatrix_backendkit.Prelude.{
  ℕ, zero, suc, ◌+◌, ◌*◌, List, [], ◌∷◌, ◌++◌, Option, none, some, Bool, true, false, ◌||◌, Bytes,
  is_empty, if◌then◌else◌, ltb, leb, length, holds?, ℕ_discrete,
}
use contextmatrix_backendkit.GoStrings.{str_eq}

abbrev pub max_line : ℕ
max_line = 64 * 1024

pub record Frame : Type 0 where
  pub kind : Bytes
  pub content : Bytes
  pub message_id : Bytes

-- json.Marshal of a frame and json.Unmarshal into one; none for an error.
pub record Codec : Type 0 where
  pub marshal : Frame → Option Bytes
  pub unmarshal : Bytes → Option Frame

pub data Written : Type 0 where
  wrote : Written
  encode_failed : Written
  frame_too_large : ℕ → Written
  write_failed : Written

abbrev pub newline : ℕ
newline = 10

abbrev pub carriage_return : ℕ
carriage_return = 13

-- The result beside what the stream holds then; `sink_ok` is whether the writer takes the bytes.
unfoldable pub write : Codec → Bool → Frame → Bytes → Written × Bytes
write codec sink_ok f out = elim (codec.marshal f) [
  | none ↦ (encode_failed, out)
  | some b ↦
      if ltb max_line (length b + 1)
      then (frame_too_large (length b + 1), out)
      else (if sink_ok then (wrote, out ++ b ++ newline ∷ []) else (write_failed, out))
]

-- The bytes before the first newline and those behind it.
unfoldable pub split_line : Bytes → Option (Bytes × Bytes)
split_line [] = none
split_line (c ∷ s) =
    let rest = split_line s in
    if holds? (ℕ_discrete c newline)
    then some ([], s)
    else elim rest [ none ↦ none | some (line, left) ↦ some (c ∷ line, left) ]

-- A line less the carriage return at its end.
unfoldable pub drop_cr : Bytes → Bytes
drop_cr [] = []
drop_cr (c ∷ []) = if holds? (ℕ_discrete c carriage_return) then [] else c ∷ []
drop_cr (c ∷ d ∷ s) = c ∷ drop_cr (d ∷ s)

pub data Scanned : Type 0 where
  token : Bytes → Bytes → Scanned
  line_too_long : Scanned
  stream_end : Scanned

-- `sc.Scan()`, with a buffer of at most `max_line` bytes: a line and its newline must fit in it,
-- and at the end of the stream a last line must leave it room.
unfoldable pub scan : Bytes → Scanned
unfolding drop_cr
scan s = elim (split_line s) [
  | some (line, left) ↦
      if ltb max_line (length line + 1) then line_too_long else token (drop_cr line) left
  | none ↦
      if is_empty s
      then stream_end
      else (if leb max_line (length s) then line_too_long else token (drop_cr s) [])
]

pub data Next : Type 0 where
  frame : Frame → Bytes → Next
  read_failed : Next
  eof : Next

-- `r.accepted[kind]`
unfoldable pub accepts : List Bytes → Bytes → Bool
accepts [] kind = false
accepts (t ∷ accepted) kind = str_eq t kind || accepts accepted kind

-- The frame of a line, none where Next skips it.
unfoldable pub parse_line : Codec → List Bytes → Bytes → Option Frame
parse_line codec accepted line = elim (codec.unmarshal line) [
  | none ↦ none
  | some f ↦ if accepts accepted f.kind then some f else none
]

-- What Next does with a scanned line; `skip_on` is what the loop does with the rest.
unfoldable pub handle_line : Codec → List Bytes → Bytes → Bytes → Next → Next
unfolding parse_line
handle_line codec accepted line left skip_on = elim (parse_line codec accepted line) [
  | none ↦ skip_on
  | some f ↦ frame f left
]

-- The loop of Next, on fuel.
unfoldable pub next_loop : Codec → List Bytes → ℕ → Bytes → Next
next_loop codec accepted zero s = eof
next_loop codec accepted (suc fuel) s = elim (scan s) [
  | token line left ↦ handle_line codec accepted line left (next_loop codec accepted fuel left)
  | line_too_long ↦ read_failed
  | stream_end ↦ eof
]

-- Each round takes at least one byte.
unfoldable pub next : Codec → List Bytes → Bytes → Next
unfolding next_loop
next codec accepted s = next_loop codec accepted (suc (length s)) s
