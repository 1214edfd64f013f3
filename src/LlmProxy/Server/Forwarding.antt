-- ===== src/LlmProxy/Server/Forwarding.antt =====
-- What the proxy (llmproxy/proxy.go) lets through, and what it sends.
use contextmatrix_backendkit.Prelude.{
  ℕ, ◌≡◌, ◌≢◌, refl, ap, sym, ◌∙◌, List, ◌++◌, Option, none, some, true, false, ◌⊎◌, inl, inr,
  arith, Bytes, bytes, bytes_dec, if◌then◌else◌, is_empty, Option-cases, Bool-cases,
}
use contextmatrix_backendkit.Prelude.Assoc.{lookup, delete, lookup-insert, lookup-delete}
use contextmatrix_backendkit.GoStrings.{cut_prefix, trim_prefix, cut_prefix-some, cut_prefix-append}
use contextmatrix_backendkit.LlmProxy.{Url}
use contextmatrix_backendkit.LlmProxy.Registry.{Entry, new_registry, lookup_token}
use contextmatrix_backendkit.LlmProxy.Registry.Live.{Op, run, live, lookup_token-live}
use contextmatrix_backendkit.LlmProxy.Server.{
  Headers, Request, Proxy, OutRequest, answers, forwards, authorization, bearer, chat_completions,
  models, allowed, header_get, caller, authorize, rewrite, serve_http,
}

-- The two routes.
abbrev pub Route : Bytes → Bytes → Type 0
Route method suffix =
    ((method ≡ bytes "POST") × (suffix ≡ chat_completions))
    ⊎ ((method ≡ bytes "GET") × (suffix ≡ models))

pub allowed-Route : (method suffix : Bytes) → allowed method suffix ≡ true → Route method suffix
unfolding allowed
allowed-Route method suffix h = ground arith

-- The outgoing header: the upstream's key, or none at all.
lookup-authorize :
    (e : Entry) (headers : Headers)
    → lookup bytes_dec authorization (authorize e headers)
      ≡ (if is_empty e.api_key then none else some (bearer ++ e.api_key))
unfolding authorize
lookup-authorize e headers = ground (
  arith,
  lookup-delete bytes_dec authorization authorization headers,
  lookup-insert bytes_dec authorization authorization (bearer ++ e.api_key)
      (delete bytes_dec authorization headers),
)

-- A caller is known by the bearer token of its header.
caller-header :
    (p : Proxy) (r : Request) (e : Entry)
    → caller p r ≡ some e
    → (token : Bytes) × (header_get authorization r.headers ≡ bearer ++ token)
      × (lookup_token token p.reg ≡ some e)
unfolding caller
caller-header p r e h =
    elim (Option-cases (cut_prefix (header_get authorization r.headers) bearer)) [
      | inl miss ↦ absurd (ground (arith, miss))
      | inr (token, hit) ↦ (
        token,
        cut_prefix-some (header_get authorization r.headers) bearer token hit,
        ground (arith, hit),
      )
    ]

-- A request that no token of a live run backs.
no_caller :
    (p : Proxy) (r : Request)
    → caller p r ≡ none
    → (token : Bytes) → header_get authorization r.headers ≡ bearer ++ token
    → lookup_token token p.reg ≡ none
unfolding caller
no_caller p r h token header = ground (arith, cut_prefix-append bearer token)

module _ (parse : Bytes → Option Url) (outgoing : Headers → Headers) (prefix : Bytes) where
  abbrev proxy : List Op → Proxy
  proxy ops = record { prefix = prefix; reg = run parse ops new_registry }

  -- What goes to the upstream `base ++ suffix`.
  record Sent (e : Entry) (suffix : Bytes) (r : Request) (o : OutRequest) : Type 0 where
    url : Url
    parsed : parse (e.base ++ suffix) ≡ some url
    target : o.url ≡ record url { raw_query = r.raw_query }
    key :
        lookup bytes_dec authorization o.headers
        ≡ (if is_empty e.api_key then none else some (bearer ++ e.api_key))

  pub record Forwarded (ops : List Op) (r : Request) (o : OutRequest) : Type 0 where
    entry : Entry
    suffix : Bytes
    header : header_get authorization r.headers ≡ bearer ++ entry.token
    alive : live parse ops entry.run_key none ≡ some entry
    path : r.path ≡ prefix ++ suffix
    route : Route r.method suffix
    sent : Sent entry suffix r o

  trim_path :
      (path suffix : Bytes)
      → cut_prefix path prefix ≡ some suffix
      → trim_prefix path prefix ≡ suffix
  unfolding trim_prefix
  trim_path path suffix h = ground (arith, h)

  rewrite-Sent :
      (p : Proxy) (e : Entry) (r : Request) (suffix : Bytes) (o : OutRequest)
      → p.prefix ≡ prefix
      → cut_prefix r.path prefix ≡ some suffix
      → rewrite parse outgoing p e r ≡ some o
      → Sent e suffix r o
  unfolding rewrite
  rewrite-Sent p e r suffix o same cut h =
      let trimmed = trim_path r.path suffix cut in
      elim (Option-cases (parse (e.base ++ suffix))) [
        | inl bad ↦ absurd (ground (arith, bad, trimmed))
        | inr (u, good) ↦ record {
          url = u;
          parsed = good;
          target = ground (arith, good, trimmed);
          key = ground (arith, good, trimmed, lookup-authorize e (outgoing r.headers));
        }
      ]

  forwarded_parts :
      (p : Proxy) (e : Entry) (r : Request) (o : OutRequest)
      → p.prefix ≡ prefix
      → caller p r ≡ some e
      → serve_http parse outgoing p r ≡ forwards (some o)
      → (suffix : Bytes) × (cut_prefix r.path prefix ≡ some suffix)
        × (allowed r.method suffix ≡ true)
        × (rewrite parse outgoing p e r ≡ some o)
  unfolding serve_http
  forwarded_parts p e r o same known h = elim (Option-cases (cut_prefix r.path prefix)) [
    | inl miss ↦ absurd (ground (arith, miss, known))
    | inr (suffix, cut) ↦ elim (Bool-cases (allowed r.method suffix)) [
      | inl yes' ↦ (suffix, cut, yes', ground (arith, cut, known, yes'))
      | inr no' ↦ absurd (ground (arith, cut, known, no'))
    ]
  ]

  -- A request that is forwarded, after any history of Register and Revoke, carries the token of a
  -- live run and asks for one of the two routes. It goes to that run's base URL and the route,
  -- with the caller's query, and its Authorization header is the run's key or is missing: never
  -- the stand-in token.
  pub serve_http-Forwarded :
      (ops : List Op) (r : Request) (o : OutRequest)
      → serve_http parse outgoing (proxy ops) r ≡ forwards (some o)
      → Forwarded ops r o
  unfolding serve_http
  serve_http-Forwarded ops r o h = elim (Option-cases (caller (proxy ops) r)) [
    | inl miss ↦ absurd (ground (arith, miss))
    | inr (e, known) ↦
        let (token, header, found) = caller-header (proxy ops) r e known in
        let held = lookup_token-live parse ops token e found in
        let (suffix, cut, yes', out) = forwarded_parts (proxy ops) e r o refl known h in
        record {
          entry = e;
          suffix = suffix;
          header = header ∙ ap (◌++◌ bearer) (sym held.1);
          alive = held.0;
          path = cut_prefix-some r.path prefix suffix cut;
          route = allowed-Route r.method suffix yes';
          sent = rewrite-Sent (proxy ops) e r suffix o refl cut out;
        }
  ]

  -- A request that is answered by the proxy itself gets 401 if no live token backs it, whatever it
  -- asks for, and 404 if one does but it asks for neither route.
  pub serve_http-refused :
      (p : Proxy) (r : Request) (status : ℕ) (message : Bytes)
      → serve_http parse outgoing p r ≡ answers status message
      → ((status ≡ 401)
          × ((token : Bytes)
              → header_get authorization r.headers ≡ bearer ++ token
              → lookup_token token p.reg ≡ none))
        ⊎ ((status ≡ 404)
            × (caller p r ≢ none)
            × ((suffix : Bytes) → r.path ≡ p.prefix ++ suffix → allowed r.method suffix ≡ false))
  unfolding serve_http
  serve_http-refused p r status message h = elim (Option-cases (caller p r)) [
    | inl miss ↦ inl (ground (arith, miss), no_caller p r miss)
    | inr (e, known) ↦ inr (elim (Option-cases (cut_prefix r.path p.prefix)) [
      | inl off ↦ (
        ground (arith, known, off),
        (λ none'. cc),
        λ suffix path. absurd (ground (arith, cut_prefix-append p.prefix suffix)),
      )
      | inr (s, cut) ↦ (
        ground (arith, known, cut),
        (λ none'. cc),
        λ suffix path.
            ground (
              arith,
              known,
              cut,
              cut_prefix-append p.prefix suffix,
              Bool-cases (allowed r.method s),
            ),
      )
    ])
  ]
