-- ===== src/TaskSkills/Git/Credentials.antt =====
-- What git and a server read from the environment of a git command (gitAuthEnv of
-- taskskills/auth.go): of several values of one variable os/exec passes on the last; git takes
-- GIT_CONFIG_COUNT pairs of GIT_CONFIG_KEY_n and GIT_CONFIG_VALUE_n for configuration; and the
-- server reads the header http.extraheader as RFC 7617 has it.
use contextmatrix_backendkit.Prelude.{
  ℕ, Option, none, some, List, [], ◌∷◌, Bytes, bytes, ℕ_discrete, holds?, ◌&&◌, Bool, false,
  if◌then◌else◌,
}
use contextmatrix_backendkit.GoStrings.{str_eq, cut_prefix}
use contextmatrix_backendkit.GoBase64.{decode_base64}

-- The text before the first `c` and the text behind it.
unfoldable pub split_at : ℕ → Bytes → Option (Bytes × Bytes)
split_at c [] = none
split_at c (d ∷ s) =
    let rest = split_at c s in
    if holds? (ℕ_discrete d c)
    then some ([], s)
    else elim rest [ none ↦ none | some (front, back) ↦ some (d ∷ front, back) ]

abbrev pub or_else : {A : Type 0} → Option A → Option A → Option A
or_else none b = b
or_else (some a) b = some a

-- What an entry "NAME=value" gives the variable.
unfoldable pub value_of : Bytes → Bytes → Option Bytes
unfolding split_at
value_of name entry = elim (split_at 61 entry) [
  | none ↦ none
  | some (own, value) ↦ if str_eq own name then some value else none
]

-- The value that a command sees.
unfoldable pub getenv : Bytes → List Bytes → Option Bytes
unfolding value_of
getenv name [] = none
getenv name (entry ∷ env) = or_else (getenv name env) (value_of name entry)

abbrev pub is_text : Bytes → Option Bytes → Bool
is_text text none = false
is_text text (some v) = str_eq v text

abbrev pub configured : Option Bytes → Option Bytes → Option Bytes → Option Bytes
configured count key value =
    if is_text (bytes "1") count && is_text (bytes "http.extraheader") key then value else none

-- The extra header of git's requests, where the environment configures it and nothing else.
unfoldable pub extra_header : List Bytes → Option Bytes
unfolding getenv
extra_header env =
    configured (getenv (bytes "GIT_CONFIG_COUNT") env) (getenv (bytes "GIT_CONFIG_KEY_0") env)
      (getenv (bytes "GIT_CONFIG_VALUE_0") env)

abbrev pub decoded : Option Bytes → Option (Bytes × Bytes)
decoded none = none
decoded (some encoded) = split_at 58 (decode_base64 encoded)

-- The user and the password of a header of basic authentication.
unfoldable pub basic : Bytes → Option (Bytes × Bytes)
unfolding split_at
basic header = decoded (cut_prefix header (bytes "Authorization: Basic "))

abbrev pub sent_with : Option Bytes → Option (Bytes × Bytes)
sent_with none = none
sent_with (some header) = basic header

-- The user and the password that git sends.
unfoldable pub credentials : List Bytes → Option (Bytes × Bytes)
unfolding extra_header basic
credentials env = sent_with (extra_header env)
