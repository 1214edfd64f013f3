-- ===== src/WebhookCore/Core/Single.antt =====
-- A request that comes again (webhookcore/core.go, webhookcore/middleware.go and
-- webhookcore/replay.go): the replay cache and the freshness of timestamps together.
use contextmatrix_backendkit.Prelude.{
  ◌≡◌, ◌≢◌, ap, List, [], Option, Bool, true, false, ◌⊎◌, inl, inr, arith, Bytes, Option-cases, All,
  subst, ◌∙◌,
}
use contextmatrix_backendkit.Prelude.Int.{pos, ◌+ℤ◌, ◌≤ℤ◌, +ℤ_parts, -ℤ_parts}
use contextmatrix_backendkit.GoTime.{Duration, Time, add_duration, min_duration, max_duration}
use contextmatrix_backendkit.WebhookCore.Replay.{
  ReplayCache, new_replay_cache, ensure_min_ttl, check_and_insert,
}
use contextmatrix_backendkit.WebhookCore.Replay.Calls.{Call, run, IsSound, IsFinite}
use contextmatrix_backendkit.WebhookCore.Replay.Protection.{Room, InTime}
use contextmatrix_backendkit.WebhookCore.Replay.Rejection.{count_checks, Within, replay_rejected}
use contextmatrix_backendkit.WebhookCore.Http.{Request, read_all}
use contextmatrix_backendkit.WebhookCore.Core.{
  CoreConfig, Core, accepted, Signed, new_core, signed, check_signature, auth, skew_of,
}

-- The entries of the cache live as long as a timestamp can be fresh, or for ever.
abbrev pub Covers : Duration → Core → Type 0
Covers max_future_skew core =
    (core.replay.ttl ≤ℤ pos 0) ⊎ ((core.skew +ℤ max_future_skew) ≤ℤ core.replay.ttl)

-- NewCore makes a core whose cache lives long enough, whatever cache and skew it is given: none
-- is made with exactly that ttl, and a shorter one is raised to it, if the sum of the two skews
-- is an int64.
pub new_core-Covers :
    (max_clock_skew max_future_skew : Duration) (cfg : CoreConfig)
    → skew_of max_clock_skew cfg.skew +ℤ max_future_skew ≤ℤ max_duration
    → min_duration ≤ℤ skew_of max_clock_skew cfg.skew +ℤ max_future_skew
    → Covers max_future_skew (new_core max_clock_skew max_future_skew cfg)
unfolding new_core ensure_min_ttl new_replay_cache add_duration
new_core-Covers max_clock_skew max_future_skew cfg high low = elim (Option-cases cfg.replay) [
  | inl e ↦ ground (arith, e)
  | inr (c, e) ↦ ground (arith, e)
]

module _ (signature_header timestamp_header : Bytes)
    (verify : Bytes → Signed → Duration → Time → ReplayCache → ReplayCache × Bool) where
  abbrev verified : Request → Bytes → Time → Core → ReplayCache × Bool
  verified r body now core =
      verify core.api_key (signed signature_header timestamp_header r body) core.skew now
        core.replay

  -- A request goes on only if the protocol verified it, and then the cache is the verified one.
  record Passed (r : Request) (now : Time) (core : Core) : Type 0 where
    body : Bytes
    ok : (verified r body now core).1 ≡ true
    left :
        (auth signature_header timestamp_header verify r now core).0
        ≡ record core { replay = (verified r body now core).0 }

  auth-Passed :
      (r : Request) (now : Time) (core : Core) (content : Option Bytes)
      → (auth signature_header timestamp_header verify r now core).1 ≡ accepted content
      → Passed r now core
  unfolding auth check_signature
  auth-Passed r now core content h = elim (Option-cases (read_all r.body)) [
    | inl bad ↦ absurd (ground (arith, bad))
    | inr (body, good) ↦ record {
      body = body;
      ok = ground (arith, good);
      left = ground (arith, good);
    }
  ]

  module _ (future : Duration) (time_of : Bytes → Time)
      (consults : (key : Bytes) (s : Signed) (skew : Duration) (now : Time) (c : ReplayCache)
        → (verify key s skew now c).1 ≡ true
        → ((check_and_insert s.timestamp s.signature now c).1 ≡ false)
          × ((verify key s skew now c).0 ≡ (check_and_insert s.timestamp s.signature now c).0))
      (fresh : (key : Bytes) (s : Signed) (skew : Duration) (now : Time) (c : ReplayCache)
        → (verify key s skew now c).1 ≡ true
        → (time_of s.timestamp ≤ℤ now +ℤ future) × (now ≤ℤ time_of s.timestamp +ℤ skew)) where
    -- Two times at which one timestamp is fresh are within the ttl of each other.
    fresh-InTime :
        (first later sent : Time) (core : Core)
        → ((core.replay.ttl ≤ℤ pos 0) ⊎ ((core.skew +ℤ future) ≤ℤ core.replay.ttl))
        → sent ≤ℤ first +ℤ future
        → later ≤ℤ sent +ℤ core.skew
        → InTime core.replay.ttl first later
    fresh-InTime first later sent core covers young old = ground (
      arith,
      covers,
      +ℤ_parts first future,
      +ℤ_parts sent core.skew,
      +ℤ_parts core.skew future,
      -ℤ_parts later first,
    )

    clash :
        (s s' : Signed) (later : Time) (calls : List Call) (c1 c2 : ReplayCache)
        → s'.timestamp ≡ s.timestamp
        → s'.signature ≡ s.signature
        → c1 ≡ c2
        → (check_and_insert s'.timestamp s'.signature later (run calls c1)).1 ≡ false
        → (check_and_insert s.timestamp s.signature later (run calls c2)).1 ≡ true
        → ⊥
    clash s s' later calls c1 c2 p q e f t = cc

    -- A request that Auth let through is not let through again, ever: neither it nor another with
    -- its timestamp and signature, whatever other requests, sweeps and raises of the ttl come in
    -- between, if the cache covers the clock skews, the calls in between come within its ttl, a
    -- sweep strictly before it ends, fewer requests are checked than its capacity, where it is
    -- positive, and the protocol's verification asks the cache and refuses timestamps outside the
    -- skews.
    pub auth_once :
        (r r' : Request) (first later : Time) (core : Core) (calls : List Call)
        (content content' : Option Bytes)
        → IsSound core.replay
        → Covers future core
        → (auth signature_header timestamp_header verify r first core).1 ≡ accepted content
        → (signed signature_header timestamp_header r' []).signature
          ≡ (signed signature_header timestamp_header r []).signature
        → (signed signature_header timestamp_header r' []).timestamp
          ≡ (signed signature_header timestamp_header r []).timestamp
        → All IsFinite calls
        → All (Within core.replay.ttl first) calls
        → Room core.replay.capacity (count_checks calls)
        → (auth signature_header timestamp_header verify r' later (record core {
          replay = run calls (auth signature_header timestamp_header verify r first core).0.replay;
        })).1
          ≢ accepted content'
    auth_once r r' first later core calls content content' sound covers ok same_sig same_ts fin
          within room ok' =
        let c1 = (auth signature_header timestamp_header verify r first core).0.replay in
        let core' = record core { replay = run calls c1 } in
        let p = auth-Passed r first core content ok in
        let q = auth-Passed r' later core' content' ok' in
        let s = signed signature_header timestamp_header r p.body in
        let s' = signed signature_header timestamp_header r' q.body in
        let (new', stored) = consults core.api_key s core.skew first core.replay p.ok in
        let (again, _) = consults core.api_key s' core.skew later (run calls c1) q.ok in
        let young = fresh core.api_key s core.skew first core.replay p.ok in
        let old = fresh core.api_key s' core.skew later (run calls c1) q.ok in
        let late : later ≤ℤ time_of s.timestamp +ℤ core.skew =
          subst (λ t. later ≤ℤ time_of t +ℤ core.skew) same_ts old.1 in
        let rejected =
          replay_rejected s.timestamp s.signature first later core.replay calls sound new' fin
            within room (fresh-InTime first later (time_of s.timestamp) core covers young.0 late) in
        let same : c1 ≡ (check_and_insert s.timestamp s.signature first core.replay).0 =
          ap (λ (c : Core). c.replay) p.left ∙ stored in
        clash s s' later calls c1 _ same_ts same_sig same again rejected
