-- ===== src/LlmProxy/Examples.antt =====
-- Runs of the LLM proxy, and its theorems at concrete calls.
use contextmatrix_backendkit.Prelude.{
  ℕ, ◌≡◌, ◌≢◌, refl, List, [], ◌∷◌, ◌++◌, Option, none, some, true, false, ◌||◌, arith, Bytes,
  bytes, bytes_dec, ℕ_discrete, is_empty, inl, ◌⊎◌, if◌then◌else◌,
}
use contextmatrix_backendkit.Prelude.Assoc.{lookup, insert, delete}
use contextmatrix_backendkit.GoStrings.{
  str_eq, cut_prefix, trim_prefix, has_prefix, ends_in_slash, trim_slash, has_byte, contains_any,
  hex_encode, itoa,
}
use contextmatrix_backendkit.LlmProxy.{Url}
use contextmatrix_backendkit.LlmProxy.Registry.{
  LlmEndpoint, Entry, new_registry, is_upstream, lookup_loop, lookup_token, revoke, new_entry,
  register,
}
use contextmatrix_backendkit.LlmProxy.Registry.Live
use contextmatrix_backendkit.LlmProxy.Registry.Live.{
  Op, registers, revokes, apply, run, after, live,
}
use contextmatrix_backendkit.LlmProxy.Server.{
  Headers, Request, Proxy, OutRequest, paths, allowed, header_get, caller, authorize, rewrite,
  serve_http, answers, forwards, authorization, bearer,
}
use contextmatrix_backendkit.LlmProxy.Server.Forwarding
use contextmatrix_backendkit.LlmProxy.Server.Forwarding.{Forwarded}
use contextmatrix_backendkit.Metrics.{new_metrics, normalize_endpoint}
use contextmatrix_backendkit.LlmProxy.Setup.{no_certificate, load_pool, new_proxy}
use contextmatrix_backendkit.LlmProxy.Answers
use contextmatrix_backendkit.LlmProxy.Answers.{Counted}
use contextmatrix_backendkit.LlmProxy.WorkerUrl.{
  Ip, gateway, worker_base_url, validate_address, validate_url, validate_container_url,
}
use contextmatrix_backendkit.LlmProxy.WorkerUrl.Fallback
use contextmatrix_backendkit.LlmProxy.WorkerUrl.Fallback.{Configured, colon}

program : Unit {0}
unfolding lookup insert delete bytes_dec ℕ_discrete cut_prefix trim_prefix has_prefix ends_in_slash
    trim_slash has_byte contains_any hex_encode itoa is_upstream lookup_loop lookup_token revoke
    new_entry register apply run after live paths allowed header_get caller authorize rewrite
    serve_http gateway worker_base_url validate_address validate_url validate_container_url
program = tt

-- One upstream, one base URL for workers; no other text is a URL.
abbrev parse_models : Bytes → Option Url
parse_models s =
    if str_eq s (bytes "https://up/v1")
      || str_eq s (bytes "https://up/v1/models")
      || str_eq s (bytes "http://serve:8080/")
    then some (record {
      scheme = bytes "http";
      host = bytes "up";
      hostname = bytes "up";
      path = bytes "/";
      raw_query = [];
    })
    else none

abbrev up : LlmEndpoint
up = record { base_url = bytes "https://up/v1"; api_key = bytes "sk-real" }

abbrev ops : List Op
ops =
    registers (bytes "run-1") up (some (1 ∷ []))
    ∷ registers (bytes "run-2") up (some (2 ∷ []))
    ∷ revokes (bytes "run-1")
    ∷ []

abbrev second_entry : Entry
second_entry = record {
  run_key = bytes "run-2";
  token = bytes "02";
  base = bytes "https://up/v1";
  api_key = bytes "sk-real";
}

lookup_token-live_example :
    (live parse_models ops (bytes "run-2") none ≡ some second_entry) × (bytes "02" ≡ bytes "02")
unfolding program
lookup_token-live_example = Live.lookup_token-live parse_models ops (bytes "02") second_entry refl

run_one_gone : live parse_models ops (bytes "run-1") none ≡ none
unfolding program
run_one_gone = refl

alone :
    (j : Bytes) (d : Entry)
    → live parse_models ops j none ≡ some d
    → d.token ≡ bytes "02"
    → j ≡ bytes "run-2"
unfolding live after new_entry is_upstream hex_encode bytes_dec ℕ_discrete
alone j d h same = ground arith

live-lookup_token_example :
    lookup_token (bytes "02") (run parse_models ops new_registry) ≡ some second_entry
unfolding program
live-lookup_token_example =
    Live.live-lookup_token parse_models ops (bytes "run-2") second_entry refl alone

abbrev list_models : Request
list_models = record {
  method = bytes "GET";
  path = bytes "/llm/models";
  raw_query = bytes "limit=2";
  headers = (authorization, bytes "Bearer 02") ∷ [];
}

abbrev same_headers : Headers → Headers
same_headers headers = headers

abbrev proxy : Proxy
proxy = record { prefix = bytes "/llm"; reg = run parse_models ops new_registry }

abbrev sent : OutRequest
sent = record {
  url = record {
    scheme = bytes "http";
    host = bytes "up";
    hostname = bytes "up";
    path = bytes "/";
    raw_query = bytes "limit=2";
  };
  host = [];
  headers = (authorization, bytes "Bearer sk-real") ∷ [];
}

serve_http-Forwarded_example :
    Forwarded parse_models same_headers (bytes "/llm") ops list_models sent
unfolding program
serve_http-Forwarded_example =
    Forwarding.serve_http-Forwarded parse_models same_headers (bytes "/llm") ops list_models sent
      refl

abbrev revoked : Request
revoked = record list_models { headers = (authorization, bytes "Bearer 01") ∷ [] }

serve_http-refused_example :
    ((◌≡◌ {A = ℕ} 401 401)
      × ((token : Bytes)
          → header_get authorization revoked.headers ≡ bearer ++ token
          → lookup_token token proxy.reg ≡ none))
    ⊎ ((◌≡◌ {A = ℕ} 401 404)
        × (caller proxy revoked ≢ none)
        × ((suffix : Bytes)
            → revoked.path ≡ proxy.prefix ++ suffix
            → allowed revoked.method suffix ≡ false))
unfolding program
serve_http-refused_example =
    Forwarding.serve_http-refused parse_models same_headers (bytes "/llm") proxy revoked 401
      (bytes "unauthorized") refl

abbrev no_ip : Bytes → Option Ip
no_ip host = none

colons :
    (s : Bytes) (u : Url)
    → parse_models s ≡ some u
    → is_empty u.scheme ≡ false
    → has_byte colon s ≡ true
unfolding has_byte bytes_dec ℕ_discrete
colons s u h scheme = ground arith

validate_container_url-Configured_example :
    Configured parse_models no_ip str_eq (bytes "http://serve:8080/") (bytes "http://serve:8080")
unfolding program
validate_container_url-Configured_example =
    Fallback.validate_container_url-Configured parse_models no_ip str_eq colons
      (bytes "http://serve:8080/") (bytes "http://serve:8080") refl refl

fallback : worker_base_url [] 8080 (bytes "/llm") ≡ bytes "http://host.docker.internal:8080/llm"
unfolding program
fallback = refl

serve_http-Counted_example :
    ((o : Option OutRequest) × (serve_http parse_models same_headers proxy list_models ≡ forwards o)
      × (normalize_endpoint list_models.path
            (new_metrics (bytes "cm") (paths proxy.prefix ++ bytes "/logs" ∷ []))
          ≡ list_models.path))
    ⊎ ((status : ℕ) × (msg : Bytes) × (serve_http parse_models same_headers proxy list_models
          ≡ answers status msg)
        × ((status ≡ 401) ⊎ (status ≡ 404))
        × Counted status msg)
serve_http-Counted_example =
    Answers.serve_http-Counted parse_models same_headers proxy list_models (bytes "cm")
      (bytes "/logs" ∷ [])

-- A pool is what was added to it; a file without certificates is refused.
abbrev append_certs : Bytes → Bytes → Option Bytes
append_certs pool pem = if is_empty pem then none else some (pool ++ pem)

no_pem :
    new_proxy
      (λ path. some [])
      append_certs
      []
      none
      (record { prefix = bytes "/llm"; ca_cert_file = bytes "ca.pem" })
    ≡ inl no_certificate
unfolding new_proxy load_pool has_prefix ends_in_slash cut_prefix ℕ_discrete
no_pem = refl
