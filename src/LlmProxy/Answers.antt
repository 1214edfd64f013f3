-- ===== src/LlmProxy/Answers.antt =====
-- writeError and upstreamError of llmproxy/proxy.go, as the calls that they make on the
-- ResponseWriter, and the proxy behind the metrics middleware (webhookcore/recorder.go,
-- metrics/metrics.go).
use contextmatrix_backendkit.Prelude.{
  ℕ, ◌≡◌, refl, List, [], ◌∷◌, ◌++◌, Option, some, Bool, true, false, arith, Bytes, bytes,
  if◌then◌else◌, inl, inr, Option-cases, Bool-cases, ℕ_discrete, ◌⊎◌,
}
use contextmatrix_backendkit.GoStrings.{cut_prefix, cut_prefix-some}
use contextmatrix_backendkit.Metrics.{Metrics, has_endpoint, normalize_endpoint, new_metrics}
use contextmatrix_backendkit.WebhookCore.Recorder.{
  WriterCall, header, body, new_recorder, write_header, write_body, call_writer, run_handler,
  outcome_code,
}
use contextmatrix_backendkit.LlmProxy.{Url}
use contextmatrix_backendkit.LlmProxy.Server.{
  Headers, Request, Proxy, OutRequest, rewrite, answers, forwards, paths, allowed, caller,
  serve_http,
}
use contextmatrix_backendkit.LlmProxy.Server.Forwarding.{Route, allowed-Route}

-- The messages are plain letters and spaces, which %q only puts in quotes.
unfoldable pub write_error : ℕ → Bytes → List WriterCall
write_error status msg =
    header status ∷ body (bytes "{\"error\":{\"message\":\"" ++ (msg ++ bytes "\"}}")) ∷ []

-- The log line is left out.
unfoldable pub upstream_error : List WriterCall
unfolding write_error
upstream_error = write_error 502 (bytes "upstream unavailable")

has_endpoint-append :
    (path : Bytes) (xs ys : List Bytes)
    → has_endpoint path xs ≡ true
    → has_endpoint path (xs ++ ys) ≡ true
unfolding has_endpoint
has_endpoint-append path [] ys h = absurd (ground arith)
has_endpoint-append path (x ∷ xs) ys h = ground (arith, has_endpoint-append path xs ys)

has_endpoint-paths :
    (prefix method suffix : Bytes)
    → Route method suffix
    → has_endpoint (prefix ++ suffix) (paths prefix) ≡ true
unfolding has_endpoint paths
has_endpoint-paths prefix method suffix (inl (m, s)) = ground (arith, s)
has_endpoint-paths prefix method suffix (inr (m, s)) = ground (arith, s)

-- What the metrics say of an answer of the proxy itself.
abbrev pub Counted : ℕ → Bytes → Type 0
Counted status msg =
    ((run_handler (write_error status msg) (new_recorder true)).status ≡ status)
    × (outcome_code status true ≡ bytes "error")

write_error-status :
    (status : ℕ) (msg : Bytes)
    → (run_handler (write_error status msg) (new_recorder true)).status ≡ status
unfolding write_error run_handler call_writer write_header write_body new_recorder
write_error-status status msg = refl

normalize_endpoint-listed :
    (path : Bytes) (m : Metrics)
    → has_endpoint path m.endpoints ≡ true
    → normalize_endpoint path m ≡ path
unfolding normalize_endpoint
normalize_endpoint-listed path m h = ground (arith, h)

module _ (parse : Bytes → Option Url) (outgoing : Headers → Headers) where
  abbrev listed : Bytes → Proxy → List Bytes → Metrics
  listed namespace p others = new_metrics namespace (paths p.prefix ++ others)

  route_listed :
      (p : Proxy) (r : Request) (suffix namespace : Bytes) (others : List Bytes)
      → cut_prefix r.path p.prefix ≡ some suffix
      → allowed r.method suffix ≡ true
      → normalize_endpoint r.path (listed namespace p others) ≡ r.path
  unfolding new_metrics
  route_listed p r suffix namespace others cut ok =
      let path = cut_prefix-some r.path p.prefix suffix cut in
      normalize_endpoint-listed r.path (listed namespace p others) (
        rw path (
          has_endpoint-append (p.prefix ++ suffix) (paths p.prefix) others
            (has_endpoint-paths p.prefix r.method suffix (allowed-Route r.method suffix ok))))

  refused_code : (b : Bool) → outcome_code (if b then 401 else 404) true ≡ bytes "error"
  unfolding outcome_code ℕ_discrete
  refused_code true = refl
  refused_code false = refl

  -- Where the backend puts the proxy's paths on the metrics allowlist, a request that is forwarded
  -- is counted under its own path, never as other; and any other request gets 401 or 404 from the
  -- proxy itself, which the metrics middleware notes with that status as an error.
  pub serve_http-Counted :
      (p : Proxy) (r : Request) (namespace : Bytes) (others : List Bytes)
      → ((o : Option OutRequest) × (serve_http parse outgoing p r ≡ forwards o)
          × (normalize_endpoint r.path (listed namespace p others) ≡ r.path))
        ⊎ ((status : ℕ) × (msg : Bytes) × (serve_http parse outgoing p r ≡ answers status msg)
            × ((status ≡ 401) ⊎ (status ≡ 404))
            × Counted status msg)
  unfolding serve_http
  serve_http-Counted p r namespace others = elim (Option-cases (caller p r)) [
    | inl unknown ↦ inr (
      401,
      bytes "unauthorized",
      ground (arith, unknown),
      inl refl,
      (write_error-status 401 _, refused_code true),
    )
    | inr (e, known) ↦ elim (Option-cases (cut_prefix r.path p.prefix)) [
      | inl elsewhere ↦ inr (
        404,
        bytes "not found",
        ground (arith, known, elsewhere),
        inr refl,
        (write_error-status 404 _, refused_code false),
      )
      | inr (suffix, cut) ↦ elim (Bool-cases (allowed r.method suffix)) [
        | inl ok ↦ inl (
          rewrite parse outgoing p e r,
          ground (arith, known, cut, ok),
          route_listed p r suffix namespace others cut ok,
        )
        | inr refused ↦ inr (
          404,
          bytes "not found",
          ground (arith, known, cut, refused),
          inr refl,
          (write_error-status 404 _, refused_code false),
        )
      ]
    ]
  ]
