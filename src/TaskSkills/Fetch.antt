-- ===== src/TaskSkills/Fetch.antt =====
-- fetchPointer and requestURI of taskskills/resolver.go. `parse` is url.Parse, none for an error;
-- `sign` is protocol.SignRequestHeaders for a GET without a body; `exchange` is the client's Do,
-- none for an error; `unmarshal` is json.Unmarshal, none for an error.
use contextmatrix_backendkit.Prelude.{
  ℕ, ◌++◌, Option, none, some, ◌||◌, Bytes, bytes, is_empty, if◌then◌else◌, ltb, leb, take, ◌⊎◌,
  inl, inr,
}
use contextmatrix_backendkit.TaskSkills.{Source, Resolver}

-- What the code reads of a url.URL: its path, and RequestURI once the path is set.
pub record Target : Type 0 where
  pub path : Bytes
  pub request_uri : Bytes → Bytes

pub record SignedGet : Type 0 where
  pub url : Bytes
  pub signature : Bytes
  pub timestamp : Bytes

-- `body` is what can be read of it, up to an error.
pub record Response : Type 0 where
  pub status_code : ℕ
  pub body : Bytes

pub data FetchError : Type 0 where
  bad_url : FetchError
  not_sent : FetchError
  returned : ℕ → FetchError
  not_parsed : FetchError

unfoldable pub request_uri_of : (Bytes → Option Target) → Bytes → Option Bytes
request_uri_of parse raw = elim (parse raw) [
  | none ↦ none
  | some u ↦ some (u.request_uri (if is_empty u.path then bytes "/" else u.path))
]

module _ (sign : Bytes → Bytes → Bytes × Bytes) where
  -- The request of fetchPointer, with its two headers. It parses the same URL again.
  abbrev pub pointer_get : Resolver → Bytes → SignedGet
  pointer_get r uri =
      let (signature, timestamp) = sign r.api_key uri in
      record { url = r.cm_url ++ r.endpoint_path; signature = signature; timestamp = timestamp }

-- The response, from its status on.
unfoldable pub read_pointer : (Bytes → Option Source) → Response → FetchError ⊎ Source
read_pointer unmarshal resp =
    if ltb resp.status_code 200 || leb 300 resp.status_code
    then inl (returned resp.status_code)
    else elim (unmarshal (take 1_048_576 resp.body)) [ none ↦ inl not_parsed | some p ↦ inr p ]

unfoldable pub fetch_pointer :
    (Bytes → Option Target)
    → (Bytes → Bytes → Bytes × Bytes)
    → (SignedGet → Option Response)
    → (Bytes → Option Source)
    → Resolver
    → FetchError ⊎ Source
unfolding request_uri_of read_pointer
fetch_pointer parse sign exchange unmarshal r =
    elim (request_uri_of parse (r.cm_url ++ r.endpoint_path)) [
      | none ↦ inl bad_url
      | some uri ↦ elim (exchange (pointer_get sign r uri)) [
        | none ↦ inl not_sent
        | some resp ↦ read_pointer unmarshal resp
      ]
    ]
