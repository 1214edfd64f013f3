-- ===== src/WebhookCore/Core.antt =====
-- The HTTP core: NewCore, CloseSSE and AdminAuth of webhookcore/core.go, Auth and DrainGate of
-- webhookcore/middleware.go. The
-- protocol module is a parameter: `max_clock_skew` and `max_future_skew` are its constants, the
-- header names too, and `verify` is VerifySignatureWithTimestamp with the cache that it is given.
pub mod Single
mod Examples
use contextmatrix_backendkit.Prelude.{
  ℕ, zero, suc, List, [], ◌∷◌, Option, none, some, Bool, true, false, not, ◌&&◌, ◌||◌, Bytes, bytes,
  bytes_dec, is_empty, if◌then◌else◌, ltb, length, holds?,
}
use contextmatrix_backendkit.Prelude.Int.{ℤ, pos, negsuc, ltb_ℤ}
use contextmatrix_backendkit.Prelude.Assoc.{lookup}
use contextmatrix_backendkit.GoTime.{Duration, Time, add_duration}
use contextmatrix_backendkit.GoStrings.{str_eq, cut_prefix, trim_prefix}
use contextmatrix_backendkit.WebhookCore.Http.{
  Request, ErrorResponse, Reply, too_large, draining_code, max_request_body_bytes, write_error,
  write_unauthorized, header_get, read_all,
}
use contextmatrix_backendkit.WebhookCore.Replay.{ReplayCache, new_replay_cache, ensure_min_ttl}

-- protocol.Change, of which the code reads nothing.
pub record Change : Type 0 where
  pub encoded : Bytes

-- protocol.BuildInfo; `changes` is none for nil, `rest` stands for the fields that are only copied.
pub record BuildInfo : Type 0 where
  pub changes : Option (List Change)
  pub rest : Bytes

pub record ImageSummary : Type 0 where
  pub tags : List Bytes
  pub digests : List Bytes
  pub created_at : ℤ
  pub size_bytes : ℤ

-- A call of the revision hook.
pub data HookCall : Type 0 where
  returns : Bytes → HookCall
  panics : HookCall

-- A nil pointer, function or interface is none. `tracker` is what Count returns when it is asked,
-- `images` what ListImages returns, none for its error, and `worker_image_revision` what a call of
-- the hook does. The logger is left out; the hub and the metrics are the handlers' arguments.
pub record CoreConfig : Type 0 where
  pub api_key : Bytes
  pub metrics_token : Bytes
  pub skew : Duration
  pub replay : Option ReplayCache
  pub draining : Option Bool
  pub keepalive_interval : Duration
  pub logs_filter_param : Bytes
  pub logs_filter_attr : Bytes
  pub tracker : Option ℤ
  pub max_concurrent : ℤ
  pub images : Option (Option (List ImageSummary))
  pub image_list_filters : List Bytes
  pub build : BuildInfo
  pub worker_image_revision : Option HookCall

-- `sse_shutdown` is whether the channel is closed, which sseShutdownOnce does once.
pub record Core : Type 0 where
  pub api_key : Bytes
  pub metrics_token : Bytes
  pub skew : Duration
  pub replay : ReplayCache
  pub draining : Bool
  pub keepalive_interval : Duration
  pub logs_filter_param : Bytes
  pub logs_filter_attr : Bytes
  pub tracker : Option ℤ
  pub max_concurrent : ℤ
  pub images : Option (Option (List ImageSummary))
  pub image_list_filters : List Bytes
  pub build : BuildInfo
  pub worker_image_revision : Option HookCall
  pub sse_shutdown : Bool

-- What a middleware does with a request: it answers, or it goes on with a body.
pub data Verdict : Type 0 where
  refused : Reply ErrorResponse → Verdict
  accepted : Option Bytes → Verdict

-- The values that the protocol verifies.
pub record Signed : Type 0 where
  pub method : Bytes
  pub request_uri : Bytes
  pub signature : Bytes
  pub timestamp : Bytes
  pub body : Bytes

unfoldable pub request_too_large : Reply ErrorResponse
unfolding write_error
request_too_large = write_error 413 too_large (bytes "request body too large")

-- A skew of 0 becomes the default.
abbrev pub skew_of : Duration → Duration → Duration
skew_of max_clock_skew (pos zero) = max_clock_skew
skew_of max_clock_skew (pos (suc n)) = pos (suc n)
skew_of max_clock_skew (negsuc n) = negsuc n

module _ (max_clock_skew max_future_skew : Duration) where
  unfoldable pub new_core : CoreConfig → Core
  unfolding add_duration
  new_core cfg =
      let skew = skew_of max_clock_skew cfg.skew in
      let replay_floor = add_duration skew max_future_skew in
      record {
        api_key = cfg.api_key;
        metrics_token = cfg.metrics_token;
        skew = skew;
        replay = elim cfg.replay [
          | none ↦ new_replay_cache replay_floor (pos 4096)
          | some c ↦ ensure_min_ttl replay_floor c
        ];
        draining = elim cfg.draining [ none ↦ false | some b ↦ b ];
        keepalive_interval = cfg.keepalive_interval;
        logs_filter_param = cfg.logs_filter_param;
        logs_filter_attr = cfg.logs_filter_attr;
        tracker = cfg.tracker;
        max_concurrent = cfg.max_concurrent;
        images = cfg.images;
        image_list_filters = cfg.image_list_filters;
        build = record cfg.build {
          changes = elim cfg.build.changes [ none ↦ some [] | some cs ↦ some cs ];
        };
        worker_image_revision = cfg.worker_image_revision;
        sse_shutdown = false;
      }

-- CloseSSE
unfoldable pub close_sse : Core → Core
close_sse core = record core { sse_shutdown = true }

module _ (signature_header timestamp_header : Bytes) where
  -- What Auth hands to the protocol.
  abbrev pub signed : Request → Bytes → Signed
  signed r body = record {
    method = r.method;
    request_uri = r.request_uri;
    signature = trim_prefix (header_get signature_header r.headers) (bytes "sha256=");
    timestamp = header_get timestamp_header r.headers;
    body = body;
  }

module _ (signature_header timestamp_header : Bytes)
    (verify : Bytes → Signed → Duration → Time → ReplayCache → ReplayCache × Bool) where
  -- Auth from the signature check on.
  unfoldable pub check_signature : Request → Bytes → Time → Core → Core × Verdict
  check_signature r body now core =
      let (replay, ok) =
        verify core.api_key (signed signature_header timestamp_header r body) core.skew now
          core.replay in
      (
        record core { replay = replay },
        if ok then accepted (some body) else refused write_unauthorized,
      )

  unfoldable pub auth : Request → Time → Core → Core × Verdict
  unfolding check_signature read_all
  auth r now core =
      if ltb_ℤ (pos max_request_body_bytes) r.content_length
      then (core, refused request_too_large)
      else (if is_empty (header_get signature_header r.headers)
            || is_empty (header_get timestamp_header r.headers)
          then (core, refused write_unauthorized)
          else elim (read_all r.body) [
            | none ↦ (core, refused request_too_large)
            | some body ↦ check_signature r body now core
          ])

  -- The bearer token of the admin surface matches.
  unfoldable pub is_scraper : Request → Core → Bool
  is_scraper r core =
      elim (cut_prefix (header_get (bytes "Authorization") r.headers) (bytes "Bearer ")) [
        | none ↦ false
        | some token ↦ not (is_empty core.metrics_token) && str_eq token core.metrics_token
      ]

  unfoldable pub admin_auth : Request → Time → Core → Core × Verdict
  unfolding is_scraper auth
  admin_auth r now core = if is_scraper r core then (core, accepted r.body) else auth r now core

unfoldable pub drain_gate : Request → Core → Verdict
unfolding write_error
drain_gate r core =
    if core.draining
    then refused (write_error 503 draining_code (bytes "backend is draining"))
    else accepted r.body
