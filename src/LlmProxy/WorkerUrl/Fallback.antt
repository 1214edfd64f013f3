-- ===== src/LlmProxy/WorkerUrl/Fallback.antt =====
-- When a worker is sent to the host gateway (llmproxy/workerurl.go).
use contextmatrix_backendkit.Prelude.{
  ℕ, ◌≡◌, ◌≢◌, refl, [], ◌∷◌, ◌++◌, Option, some, Bool, true, false, inl, inr, arith, Bytes, bytes,
  is_empty, Option-cases,
}
use contextmatrix_backendkit.GoStrings.{trim_slash, contains_any, has_byte, slash}
use contextmatrix_backendkit.LlmProxy.{Url}
use contextmatrix_backendkit.LlmProxy.WorkerUrl.{
  Ip, valid, worker_base_url, validate_address, validate_url, validate_container_url,
}

-- Only a slash is trimmed.
has_byte-trim_slash : (c : ℕ) (s : Bytes) → c ≢ slash → has_byte c (trim_slash s) ≡ has_byte c s
unfolding has_byte trim_slash
has_byte-trim_slash c [] h = refl
has_byte-trim_slash c (d ∷ []) h = ground arith
has_byte-trim_slash c (d ∷ e ∷ s) h = ground (arith, has_byte-trim_slash c (e ∷ s) h)

-- `:`
abbrev pub colon : ℕ
colon = 58

has_byte-nonempty : (c : ℕ) (s : Bytes) → has_byte c s ≡ true → is_empty s ≡ false
unfolding has_byte
has_byte-nonempty c [] h = cc
has_byte-nonempty c (d ∷ s) h = refl

module _ (parse : Bytes → Option Url) (parse_ip : Bytes → Option Ip)
    (equal_fold : Bytes → Bytes → Bool) where
  address_trimmed :
      (raw host v : Bytes)
      → validate_address parse parse_ip equal_fold raw host ≡ valid v
      → v ≡ trim_slash raw
  unfolding validate_address
  address_trimmed raw host v h = ground (arith, Option-cases (parse_ip host))

  url_parts :
      (raw v : Bytes) (u : Url)
      → validate_url parse parse_ip equal_fold raw u ≡ valid v
      → (is_empty u.scheme ≡ false) × (contains_any raw (bytes "?#") ≡ false) × (v ≡ trim_slash raw)
  unfolding validate_url
  url_parts raw v u h = ground (arith, address_trimmed raw u.hostname v)

  -- What a setting that is not empty and passes the check becomes.
  pub record Configured (raw v : Bytes) : Type 0 where
    trimmed : v ≡ trim_slash raw
    plain : contains_any raw (bytes "?#") ≡ false
    direct : (port : ℕ) (prefix : Bytes) → worker_base_url v port prefix ≡ trim_slash v ++ prefix
    nonempty : is_empty (trim_slash v) ≡ false

  -- A setting that is not empty and passes the check is used: the worker's URL is it, less the
  -- slash at its end, and the prefix, never the host gateway and never empty, if a URL with a
  -- scheme has a colon. It carries no query and no fragment.
  pub validate_container_url-Configured :
      ((s : Bytes) (u : Url)
        → parse s ≡ some u
        → is_empty u.scheme ≡ false
        → has_byte colon s ≡ true)
      → (raw v : Bytes) → is_empty raw ≡ false
      → validate_container_url parse parse_ip equal_fold raw ≡ valid v
      → Configured raw v
  unfolding validate_container_url worker_base_url
  validate_container_url-Configured colons raw v set h = elim (Option-cases (parse raw)) [
    | inl bad ↦ absurd (ground (arith, bad))
    | inr (u, good) ↦
        let (scheme, plain, trimmed) = url_parts raw v u (ground (arith, good)) in
        let has : has_byte colon (trim_slash v) ≡ true = ground (
          arith,
          trimmed,
          colons raw u good scheme,
          has_byte-trim_slash colon (trim_slash raw),
          has_byte-trim_slash colon raw,
        ) in
        let some' = has_byte-nonempty colon (trim_slash v) has in
        record {
          trimmed = trimmed;
          plain = plain;
          direct = λ port prefix. ground (arith, some');
          nonempty = some';
        }
  ]
