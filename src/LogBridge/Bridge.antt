-- ===== src/LogBridge/Bridge.antt =====
-- The bridge, logbridge/bridge.go: one worker output line becomes at most one published entry. The
-- standard library's JSON and Unicode and the harness's redactor are the record `Runtime`; a
-- float64 is a type of its own, as no operation computes with one.
pub mod Lines
pub mod Publishing
pub mod Awaiting
pub mod Truncation
mod Examples
use contextmatrix_backendkit.Prelude.{
  ℕ, zero, suc, ◌+◌, List, [], ◌∷◌, ◌++◌, Option, none, some, Bool, true, false, not, ◌&&◌, ◌||◌,
  Bytes, bytes, bytes_dec, is_empty, if◌then◌else◌, ltb, leb, length, take,
}
use contextmatrix_backendkit.Prelude.Int.{ℤ, pos}
use contextmatrix_backendkit.Prelude.Assoc.{lookup}
use contextmatrix_backendkit.GoStrings.{str_eq}
use contextmatrix_backendkit.LogBridge.Hub.{Hub}

-- A value of a decoded JSON object. `other` is null, an array or an object.
pub data Value (F : Type 0) : Type 0 where
  text : Bytes → Value F
  boolean : Bool → Value F
  float64 : F → Value F
  int64 : ℤ → Value F
  int : ℤ → Value F
  other : Value F

abbrev pub Data : Type 0 → Type 0
Data F = List (Bytes × Value F)

-- `redacted r s` is `r.Apply(s)`; `unmarshal` gives an event's kind and data, none for an error;
-- `truncated` is the conversion of a float64 to int64.
pub record Runtime (F R : Type 0) : Type 0 where
  pub trim_space : Bytes → Bytes
  pub marshal : Data F → Option Bytes
  pub unmarshal : Bytes → Option (Bytes × Data F)
  pub truncated : F → ℤ
  pub is_positive : F → Bool
  pub zero_float : F
  pub redacted : R → Bytes → Bytes

pub record Key : Type 0 where
  pub project : Bytes
  pub card_id : Bytes
  pub session_id : Bytes

-- protocol.LogTokenUsage
pub record TokenUsage (F : Type 0) : Type 0 where
  pub input_tokens : ℤ
  pub output_tokens : ℤ
  pub cache_read_tokens : ℤ
  pub cache_create_tokens : ℤ
  pub cost_usd : F

-- protocol.LogEntry; `usage` is none for a nil pointer.
pub record LogEntry (F : Type 0) : Type 0 where
  pub timestamp : ℤ
  pub kind : Bytes
  pub content : Bytes
  pub model : Bytes
  pub tool_use_id : Bytes
  pub project : Bytes
  pub card_id : Bytes
  pub session_id : Bytes
  pub usage : Option (TokenUsage F)

-- An entry with its type and content, all else empty.
abbrev pub entry_of : {F : Type 0} → Bytes → Bytes → LogEntry F
entry_of kind content = record {
  timestamp = pos 0;
  kind = kind;
  content = content;
  model = [];
  tool_use_id = [];
  project = [];
  card_id = [];
  session_id = [];
  usage = none;
}

-- `awaited` lists the calls of OnAwaiting, the latest first; none for a nil hook.
pub record Bridge (F R : Type 0) : Type 0 where
  pub hub : Hub (LogEntry F)
  pub redactor : R
  pub awaited : Option (List (Key × Bool))
  pub surface_awaiting_human : Bool
  pub surface_run_state : Bool
  pub map_extra : Option (Bytes → Data F → Option (LogEntry F × Bool))

-- What mapEvent returns: an entry with `awaiting`, or skip.
pub data Mapped (F : Type 0) : Type 0 where
  skip : Mapped F
  entry : LogEntry F → Bool → Mapped F

-- `utf8.RuneStart`
unfoldable pub rune_start : ℕ → Bool
rune_start b = not (leb 128 b && ltb b 192)

-- Whether a rune starts at the index, which is within the string.
unfoldable pub rune_start_at : Bytes → ℕ → Bool
unfolding rune_start
rune_start_at [] i = true
rune_start_at (b ∷ s) zero = rune_start b
rune_start_at (b ∷ s) (suc i) = rune_start_at s i

-- `for cut > 0 && !utf8.RuneStart(s[cut]) { cut-- }`
unfoldable pub cut_loop : Bytes → ℕ → ℕ
cut_loop s zero = 0
cut_loop s (suc cut) =
    let rest = cut_loop s cut in if rune_start_at s (suc cut) then suc cut else rest

unfoldable pub truncate : Bytes → ℕ → Bytes
truncate s limit = if leb (length s) limit then s else take (cut_loop s limit) s

abbrev pub or_else : Bytes → Bytes → Bytes
or_else a b = if is_empty a then b else a

-- `key.stamp(&entry)`
unfoldable pub stamp : {F : Type 0} → Key → LogEntry F → LogEntry F
stamp k e = record e {
  project = or_else k.project e.project;
  card_id = or_else k.card_id e.card_id;
  session_id = or_else k.session_id e.session_id;
}

module _ {F : Type 0} where
  unfoldable pub str_field : Data F → Bytes → Bytes
  str_field data' key = elim (lookup bytes_dec key data') [
    | none ↦ []
    | some v ↦ elim v [
      | text s ↦ s
      | boolean b ↦ []
      | float64 x ↦ []
      | int64 n ↦ []
      | int n ↦ []
      | other ↦ []
    ]
  ]

  -- Whether `data["dispatched"]` is false.
  unfoldable pub not_dispatched : Data F → Bool
  not_dispatched data' = elim (lookup bytes_dec (bytes "dispatched") data') [
    | none ↦ false
    | some v ↦ elim v [
      | text s ↦ false
      | boolean b ↦ not b
      | float64 x ↦ false
      | int64 n ↦ false
      | int n ↦ false
      | other ↦ false
    ]
  ]

  module _ {R : Type 0} (rt : Runtime F R) where
    unfoldable pub int64_field : Data F → Bytes → ℤ
    int64_field data' key = elim (lookup bytes_dec key data') [
      | none ↦ pos 0
      | some v ↦ elim v [
        | text s ↦ pos 0
        | boolean b ↦ pos 0
        | float64 x ↦ rt.truncated x
        | int64 n ↦ n
        | int n ↦ n
        | other ↦ pos 0
      ]
    ]

    unfoldable pub positive_float_field : Data F → Bytes → F
    positive_float_field data' key = elim (lookup bytes_dec key data') [
      | none ↦ rt.zero_float
      | some v ↦ elim v [
        | text s ↦ rt.zero_float
        | boolean b ↦ rt.zero_float
        | float64 x ↦ if rt.is_positive x then x else rt.zero_float
        | int64 n ↦ rt.zero_float
        | int n ↦ rt.zero_float
        | other ↦ rt.zero_float
      ]
    ]

    unfoldable pub summarize_data : Data F → Bytes
    unfolding truncate
    summarize_data [] = []
    summarize_data (field ∷ data') = elim (rt.marshal (field ∷ data')) [
      | none ↦ []
      | some b ↦ truncate b 200
    ]
