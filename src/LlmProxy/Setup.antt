-- ===== src/LlmProxy/Setup.antt =====
-- New and loadPool of llmproxy/proxy.go. crypto/x509 is a parameter: `Pool` is a pool of
-- certificates, and `append_certs` adds a PEM bundle, none where it holds no certificate.
-- `read_file` is os.ReadFile of the cleaned path, none for an error.
use contextmatrix_backendkit.Prelude.{
  ℕ, ◌*◌, Option, none, some, Bool, true, not, ◌||◌, Bytes, bytes, is_empty, if◌then◌else◌, ltb,
  length, ◌⊎◌, inl, inr,
}
use contextmatrix_backendkit.Prelude.Int.{pos}
use contextmatrix_backendkit.GoTime.{Duration, second}
use contextmatrix_backendkit.GoStrings.{has_prefix, ends_in_slash}
use contextmatrix_backendkit.LlmProxy.Registry.{new_registry}
use contextmatrix_backendkit.LlmProxy.Server.{Proxy}

pub record Config : Type 0 where
  pub prefix : Bytes
  pub ca_cert_file : Bytes

pub data SetupError : Type 0 where
  bad_prefix : SetupError
  unread_file : SetupError
  no_certificate : SetupError

-- `root_cas` is none where TLSClientConfig stays nil.
pub record Transport (Pool : Type 0) : Type 0 where
  pub dial_timeout : Duration
  pub keep_alive : Duration
  pub force_attempt_http2 : Bool
  pub max_idle_conns : ℕ
  pub max_idle_conns_per_host : ℕ
  pub idle_conn_timeout : Duration
  pub tls_handshake_timeout : Duration
  pub expect_continue_timeout : Duration
  pub send_ping_timeout : Duration
  pub root_cas : Option Pool

module _ {Pool : Type 0} where
  abbrev pub transport : Option Pool → Transport Pool
  transport root_cas = record {
    dial_timeout = pos (30 * second);
    keep_alive = pos (30 * second);
    force_attempt_http2 = true;
    max_idle_conns = 100;
    max_idle_conns_per_host = 32;
    idle_conn_timeout = pos (90 * second);
    tls_handshake_timeout = pos (10 * second);
    expect_continue_timeout = pos (1 * second);
    send_ping_timeout = pos (30 * second);
    root_cas = root_cas;
  }

  -- `new_cert_pool` is x509.NewCertPool, `system` the result of x509.SystemCertPool, none for an
  -- error.
  unfoldable pub load_pool :
      (Bytes → Option Bytes)
      → (Pool → Bytes → Option Pool)
      → Pool
      → Option Pool
      → Bytes
      → SetupError ⊎ Pool
  load_pool read_file append_certs new_cert_pool system path = elim (read_file path) [
    | none ↦ inl unread_file
    | some pem ↦ elim (append_certs (elim system [ none ↦ new_cert_pool | some pool ↦ pool ]) pem) [
      | none ↦ inl no_certificate
      | some pool ↦ inr pool
    ]
  ]

  unfoldable pub new_proxy :
      (Bytes → Option Bytes)
      → (Pool → Bytes → Option Pool)
      → Pool
      → Option Pool
      → Config
      → SetupError ⊎ (Proxy × Transport Pool)
  unfolding load_pool
  new_proxy read_file append_certs new_cert_pool system cfg =
      let p : Proxy = record { prefix = cfg.prefix; reg = new_registry } in
      if ltb (length cfg.prefix) 2
        || not (has_prefix cfg.prefix (bytes "/"))
        || ends_in_slash cfg.prefix
      then inl bad_prefix
      else (if is_empty cfg.ca_cert_file
          then inr (p, transport none)
          else elim (load_pool read_file append_certs new_cert_pool system cfg.ca_cert_file) [
            | inl e ↦ inl e
            | inr pool ↦ inr (p, transport (some pool))
          ])
