-- ===== src/WebhookCore/Core/Examples.antt =====
-- Runs of the HTTP core, and its theorems at concrete requests.
use contextmatrix_backendkit.Prelude.{
  ◌≡◌, ◌≢◌, refl, List, [], ◌∷◌, none, some, Bool, true, false, not, ◌&&◌, arith, Bytes, bytes,
  bytes_dec, ℕ_discrete, inr,
}
use contextmatrix_backendkit.Prelude.Int.{pos, ◌+ℤ◌, ◌-ℤ◌, ◌≤ℤ◌, leb_ℤ}
use contextmatrix_backendkit.Prelude.Assoc.{lookup, insert, delete}
use contextmatrix_backendkit.GoTime.{Duration, Time, since, add_duration}
use contextmatrix_backendkit.GoStrings.{cut_prefix, trim_prefix}
use contextmatrix_backendkit.WebhookCore.Store.{new, find, push, remove, unlink, drop_front, evict}
use contextmatrix_backendkit.WebhookCore.Replay.{
  ReplayCache, new_replay_cache, ensure_min_ttl, replay_sweep_interval, replay_key, is_live,
  insert_fresh, check_key, check_and_insert, sweep_loop, sweep,
}
use contextmatrix_backendkit.WebhookCore.Replay.Calls.{Call, checks, sweeps, step, run, IsSound}
use contextmatrix_backendkit.WebhookCore.Replay.Acceptance.{new_replay_cache-IsSound}
use contextmatrix_backendkit.WebhookCore.Http.{Request, header_get, read_all}
use contextmatrix_backendkit.WebhookCore.Core.{
  CoreConfig, Core, accepted, Signed, new_core, check_signature, auth, drain_gate,
}
use contextmatrix_backendkit.WebhookCore.Core.Single
use contextmatrix_backendkit.WebhookCore.Core.Single.{Covers}

program : Unit {0}
unfolding new find push remove unlink drop_front evict new_replay_cache ensure_min_ttl
    replay_sweep_interval replay_key is_live insert_fresh check_key check_and_insert sweep_loop
    sweep run step lookup insert delete since bytes_dec ℕ_discrete ◌-ℤ◌ ◌+ℤ◌ add_duration cut_prefix
    trim_prefix header_get read_all new_core check_signature auth drain_gate
program = tt

-- Every timestamp stands for 100, and any signature is right.
abbrev time_of : Bytes → Time
time_of timestamp = pos 100

abbrev future : Duration
future = pos 5

abbrev in_skew : Duration → Time → Bool
in_skew skew now = leb_ℤ (pos 100) (now +ℤ pos 5) && leb_ℤ now (pos 100 +ℤ skew)

abbrev verify : Bytes → Signed → Duration → Time → ReplayCache → ReplayCache × Bool
verify key s skew now c =
    let (c', seen) = check_and_insert s.timestamp s.signature now c in
    (c', not seen && in_skew skew now)

consults :
    (key : Bytes) (s : Signed) (skew : Duration) (now : Time) (c : ReplayCache)
    → (verify key s skew now c).1 ≡ true
    → ((check_and_insert s.timestamp s.signature now c).1 ≡ false)
      × ((verify key s skew now c).0 ≡ (check_and_insert s.timestamp s.signature now c).0)
consults key s skew now c h = ground arith

fresh :
    (key : Bytes) (s : Signed) (skew : Duration) (now : Time) (c : ReplayCache)
    → (verify key s skew now c).1 ≡ true
    → (time_of s.timestamp ≤ℤ now +ℤ future) × (now ≤ℤ time_of s.timestamp +ℤ skew)
fresh key s skew now c h = ground arith

abbrev config : CoreConfig
config = record {
  api_key = bytes "k";
  metrics_token = [];
  skew = pos 0;
  replay = none;
  draining = none;
  keepalive_interval = pos 0;
  logs_filter_param = bytes "project";
  logs_filter_attr = bytes "project_filter";
  tracker = none;
  max_concurrent = pos 4;
  images = none;
  image_list_filters = [];
  build = record { changes = none; rest = [] };
  worker_image_revision = none;
}

abbrev core : Core
core = new_core (pos 10) future config

new_core-Covers_example : Covers future core
unfolding ◌+ℤ◌
new_core-Covers_example = Single.new_core-Covers (pos 10) future config (omega arith) (omega arith)

abbrev request : Request
request = record {
  method = bytes "POST";
  request_uri = bytes "/message";
  content_length = pos 2;
  headers = (bytes "X-Sig", bytes "sha256=ab") ∷ (bytes "X-Ts", bytes "100") ∷ [];
  body = some (bytes "{}");
}

abbrev calls : List Call
calls = checks (bytes "100") (bytes "cd") (pos 101) ∷ sweeps (pos 104) ∷ []

core-IsSound : IsSound core.replay
unfolding new_core add_duration ◌+ℤ◌
core-IsSound = new_replay_cache-IsSound (pos 15) (pos 4096) (omega arith)

let_through :
    (auth (bytes "X-Sig") (bytes "X-Ts") verify request (pos 99) core).1
    ≡ accepted (some (bytes "{}"))
unfolding program
let_through = refl

auth_once_example :
    (auth (bytes "X-Sig") (bytes "X-Ts") verify request (pos 108) (record core {
      replay =
          run calls (auth (bytes "X-Sig") (bytes "X-Ts") verify request (pos 99) core).0.replay;
    })).1
    ≢ accepted (some (bytes "{}"))
unfolding new_core add_duration new_replay_cache ◌-ℤ◌ ◌+ℤ◌
auth_once_example =
    Single.auth_once (bytes "X-Sig") (bytes "X-Ts") verify future time_of consults fresh request
      request (pos 99) (pos 108) core calls (some (bytes "{}")) (some (bytes "{}")) core-IsSound
      (inr (omega arith)) let_through refl refl (tt, (tt, tt))
      (inr (omega arith), (inr (omega arith), tt)) (inr (omega arith))
