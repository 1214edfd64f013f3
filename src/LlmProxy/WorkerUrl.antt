-- ===== src/LlmProxy/WorkerUrl.antt =====
-- The base URL a worker is given, llmproxy/workerurl.go. `parse` is url.Parse, `parse_ip` is
-- net.ParseIP, none for nil, and `equal_fold` is strings.EqualFold.
pub mod Fallback
use contextmatrix_backendkit.Prelude.{
  ℕ, List, [], ◌∷◌, ◌++◌, Option, none, some, Bool, true, false, not, ◌&&◌, ◌||◌, Bytes, bytes,
  is_empty, if◌then◌else◌,
}
use contextmatrix_backendkit.GoStrings.{str_eq, trim_slash, contains_any, itoa}
use contextmatrix_backendkit.LlmProxy.{Url}

abbrev pub default_prefix : Bytes
default_prefix = bytes "/llm"

-- What the code asks of a net.IP.
pub record Ip : Type 0 where
  pub is_unspecified : Bool
  pub is_loopback : Bool

-- The errors, in the order of the checks.
pub data UrlError : Type 0 where
  unparsable : UrlError
  bad_scheme : UrlError
  no_host : UrlError
  carries_path : UrlError
  carries_query : UrlError
  unspecified_address : UrlError
  loopback_address : UrlError
  local_host : UrlError

pub data Validated : Type 0 where
  valid : Bytes → Validated
  invalid : UrlError → Validated

-- `http://` and `net.JoinHostPort("host.docker.internal", strconv.Itoa(port))`; the host has no
-- colon, so it stands without brackets.
unfoldable pub gateway : ℕ → Bytes
gateway port = bytes "http://host.docker.internal:" ++ itoa port

unfoldable pub worker_base_url : Bytes → ℕ → Bytes → Bytes
worker_base_url container_url port prefix =
    let base = trim_slash container_url in (if is_empty base then gateway port else base) ++ prefix

module _ (parse : Bytes → Option Url) (parse_ip : Bytes → Option Ip)
    (equal_fold : Bytes → Bytes → Bool) where
  -- From the check on the host's address on.
  unfoldable pub validate_address : Bytes → Bytes → Validated
  validate_address raw host = elim (parse_ip host) [
    | none ↦
        if equal_fold host (bytes "localhost") then invalid local_host else valid (trim_slash raw)
    | some ip ↦
        if ip.is_unspecified
        then invalid unspecified_address
        else (if ip.is_loopback then invalid loopback_address else valid (trim_slash raw))
  ]

  -- From the check on the scheme on.
  unfoldable pub validate_url : Bytes → Url → Validated
  unfolding validate_address
  validate_url raw u =
      if not (str_eq u.scheme (bytes "http")) && not (str_eq u.scheme (bytes "https"))
      then invalid bad_scheme
      else (if is_empty u.hostname
          then invalid no_host
          else (if not (is_empty u.path) && not (str_eq u.path (bytes "/"))
              then invalid carries_path
              else (if contains_any raw (bytes "?#")
                  then invalid carries_query
                  else validate_address raw u.hostname)))

  unfoldable pub validate_container_url : Bytes → Validated
  unfolding validate_url
  validate_container_url raw =
      if is_empty raw
      then valid []
      else elim (parse raw) [ none ↦ invalid unparsable | some u ↦ validate_url raw u ]
