-- ===== src/LlmProxy/Server.antt =====
-- The handler, llmproxy/proxy.go: ServeHTTP and the rewrite of a request that goes on
-- to the upstream. `parse` is url.Parse; `outgoing` is what httputil.ReverseProxy makes of the
-- caller's headers before it calls rewrite. Headers are their first values by canonical name.
pub mod Forwarding
use contextmatrix_backendkit.Prelude.{
  ℕ, List, [], ◌∷◌, ◌++◌, Option, none, some, Bool, true, false, not, ◌&&◌, ◌||◌, Bytes, bytes,
  bytes_dec, is_empty, if◌then◌else◌, ltb, length, holds?, ℕ_discrete,
}
use contextmatrix_backendkit.Prelude.Assoc.{lookup, insert, delete}
use contextmatrix_backendkit.GoStrings.{str_eq, cut_prefix, trim_prefix, has_prefix, ends_in_slash}
use contextmatrix_backendkit.LlmProxy.{Url}
use contextmatrix_backendkit.LlmProxy.Registry.{Entry, Registry, new_registry, lookup_token}

abbrev pub Headers : Type 0
Headers = List (Bytes × Bytes)

pub record Request : Type 0 where
  pub method : Bytes
  pub path : Bytes
  pub raw_query : Bytes
  pub headers : Headers

pub record Proxy : Type 0 where
  pub prefix : Bytes
  pub reg : Registry

-- What rewrite sets of the outgoing request.
pub record OutRequest : Type 0 where
  pub url : Url
  pub host : Bytes
  pub headers : Headers

-- `forwards` carries none where rewrite would dereference a nil URL.
pub data Outcome : Type 0 where
  answers : ℕ → Bytes → Outcome
  forwards : Option OutRequest → Outcome

abbrev pub authorization : Bytes
authorization = bytes "Authorization"

abbrev pub bearer : Bytes
bearer = bytes "Bearer "

abbrev pub chat_completions : Bytes
chat_completions = bytes "/chat/completions"

abbrev pub models : Bytes
models = bytes "/models"

unfoldable pub paths : Bytes → List Bytes
paths prefix = (prefix ++ chat_completions) ∷ (prefix ++ models) ∷ []

unfoldable pub allowed : Bytes → Bytes → Bool
allowed method suffix =
    (str_eq method (bytes "POST") && str_eq suffix chat_completions)
    || (str_eq method (bytes "GET") && str_eq suffix models)

-- `Header.Get`, "" where the header is missing.
unfoldable pub header_get : Bytes → Headers → Bytes
header_get name headers = elim (lookup bytes_dec name headers) [ none ↦ [] | some v ↦ v ]

-- `e` in ServeHTTP; none for nil.
unfoldable pub caller : Proxy → Request → Option Entry
caller p r = elim (cut_prefix (header_get authorization r.headers) bearer) [
  | none ↦ none
  | some token ↦ lookup_token token p.reg
]

-- `Del` and then, where the upstream has a key, `Set`.
unfoldable pub authorize : Entry → Headers → Headers
authorize e headers =
    let cleared = delete bytes_dec authorization headers in
    if is_empty e.api_key
    then cleared
    else insert bytes_dec authorization (bearer ++ e.api_key) cleared

module _ (parse : Bytes → Option Url) (outgoing : Headers → Headers) where
  unfoldable pub rewrite : Proxy → Entry → Request → Option OutRequest
  unfolding authorize trim_prefix
  rewrite p e r = elim (parse (e.base ++ trim_prefix r.path p.prefix)) [
    | none ↦ none
    | some out ↦ some (record {
      url = record out { raw_query = r.raw_query };
      host = [];
      headers = authorize e (outgoing r.headers);
    })
  ]

  unfoldable pub serve_http : Proxy → Request → Outcome
  unfolding caller
  serve_http p r = elim (caller p r) [
    | none ↦ answers 401 (bytes "unauthorized")
    | some e ↦ elim (cut_prefix r.path p.prefix) [
      | none ↦ answers 404 (bytes "not found")
      | some suffix ↦
          if allowed r.method suffix
          then forwards (rewrite p e r)
          else answers 404 (bytes "not found")
    ]
  ]
