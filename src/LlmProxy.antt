-- ===== src/LlmProxy.antt =====
-- The LLM proxy, llmproxy: the registry of stand-in tokens, the handler, and the worker's URL.
pub mod Registry
pub mod Server
pub mod Setup
pub mod Answers
pub mod WorkerUrl
mod Examples
use contextmatrix_backendkit.Prelude.{Bytes}

-- What the code reads of Go's url.URL; `hostname` is what its method Hostname returns.
pub record Url : Type 0 where
  pub scheme : Bytes
  pub host : Bytes
  pub hostname : Bytes
  pub path : Bytes
  pub raw_query : Bytes
