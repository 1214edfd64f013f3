-- ===== src/Lib.antt =====
-- A model of contextmatrix-backendkit, the serve plumbing that the ContextMatrix backends share.
--
-- A backend mounts its handlers on an HTTP core. Auth verifies a request's signature and asks the
-- replay cache whether it was seen; the message handler asks the dedup cache. Worker output goes
-- through the bridge, which redacts it with the secrets of a registry, to a hub, which fans it out
-- to the subscribers of /logs. Workers reach their model through the LLM proxy, with stand-in
-- tokens of a registry of runs.
--
-- Which file models what (paths from the repository's root):
-- - WebhookCore/Store: the linked list and the index that both caches keep (container/list).
-- - WebhookCore/Replay: webhookcore/replay.go: check_and_insert is CheckAndInsert, sweep is sweep,
--   janitor the loop of StartJanitor, ensure_min_ttl is ensureMinTTL. Replay/Window is the abstract
--   view: the accepted pairs with their times, oldest first.
-- - WebhookCore/Dedup: webhookcore/dedup.go: check_and_record and rollback.
-- - WebhookCore/Core: NewCore, CloseSSE and AdminAuth of webhookcore/core.go, Auth and DrainGate of
--   webhookcore/middleware.go. A middleware is a verdict: it answers, or it goes on with a body.
-- - WebhookCore/Http: webhookcore/helpers.go. WebhookCore/Probes: webhookcore/health.go,
--   webhookcore/images.go, webhookcore/revision.go. WebhookCore/Recorder: webhookcore/recorder.go.
-- - WebhookCore/Logs: webhookcore/logs.go: start_logs is HandleLogs up to its loop, wake a round
--   of it.
-- - Metrics: metrics/metrics.go.
-- - LogBridge/Hub: logbridge/hub.go: retain, release, subscribe, unsubscribe, publish; receive is
--   a consumer that reads from its channel. Hub/Executions lets the map's order change at each call.
-- - LogBridge/Bridge: logbridge/bridge.go: Bridge/Lines holds map_event and bridge_line.
-- - LogBridge/Redactors: logbridge/registry.go.
-- - LlmProxy: Registry is llmproxy/registry.go; Server, Setup and Answers are llmproxy/proxy.go:
--   ServeHTTP, New, and what it answers itself; WorkerUrl is llmproxy/workerurl.go.
-- - Frames: frames/frames.go; Frames/Lines is bufio.Scanner as the reader uses it.
-- - TaskSkills: taskskills/resolver.go, Resolve over a cloner; TaskSkills/Fetch: fetchPointer and
--   requestURI; TaskSkills/Git: gitClone, and gitAuthEnv of taskskills/auth.go, with
--   Git/Credentials for what git reads from its environment;
--   TaskSkills/Production: the two put into Resolve.
-- - LogBridge/Pipeline: the registry, the bridge and the hub together.
-- - GoTime, GoStrings, GoBase64 and Prelude: what the code uses of Go's time, strings, encoding/hex,
--   strconv and encoding/base64 packages, its strings and its maps.
--
-- How state and time are modelled. A mutex makes each method one step, so a method takes the state
-- and the clock and returns the new state with its result, and a history is a list of calls. A
-- time is an integer of nanoseconds; a duration is one too, and the source's subtraction of times
-- saturates and its sum of clock skews wraps around at the ends of int64. The capacity of a cache
-- is an integer, its length a natural number, which no run of the code brings to 2 ^ 63; so is the
-- hub's counter of ids. A Go map is an association list, whose order stands for the order of
-- iteration. The loops of evict and sweep run on fuel, the number of entries, of which each round
-- takes one; the loop of a frame reader on more fuel than bytes are left, of which each round takes
-- one; the loop of itoa on 19 digits, as many as an int64 has. The stream of /logs is a list of
-- wakes: what its select finds ready, whether the write behind it succeeds, and the calls that
-- others make on the hub in between.
--
-- What is a parameter: the protocol module's verification, signature, header names and skews; the
-- harness's redactor, which ignores secrets of less than six bytes; crypto/x509; the exchange of an HTTP request and the exit of a git command;
-- url.Parse, net.ParseIP, strings.EqualFold, encoding/json and the Unicode spaces of
-- strings.TrimSpace; filepath.Join; what httputil.ReverseProxy does to headers. A theorem that
-- relies on one of them says on what.
--
-- What is not modelled: log lines; what the proxy's transport does with its settings, and the bytes
-- on a connection; the headers that /logs sets and the parse of its query; deadlines; what a git
-- command does; the help texts of the metrics and the exposition of the registry; read errors of a
-- worker's stdin.
pub mod Prelude
pub mod GoTime
pub mod GoStrings
pub mod GoBase64
pub mod Metrics
pub mod WebhookCore
pub mod LogBridge
pub mod LlmProxy
pub mod Frames
pub mod TaskSkills
