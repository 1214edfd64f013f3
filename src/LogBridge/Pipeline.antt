-- ===== src/LogBridge/Pipeline.antt =====
-- The parts of logbridge together: a registry that writes its redactor into a bridge
-- (logbridge/registry.go), whose lines (logbridge/bridge.go) go to a hub (logbridge/hub.go).
pub mod Hidden
mod Examples
use contextmatrix_backendkit.Prelude.{List, [], ◌∷◌, ◌++◌, Bool, Bytes}
use contextmatrix_backendkit.Prelude.Int.{ℤ}
use contextmatrix_backendkit.LogBridge.Hub.History
use contextmatrix_backendkit.LogBridge.Hub.Contents.{handed}
use contextmatrix_backendkit.LogBridge.Bridge.{Runtime, Key, LogEntry, Bridge}
use contextmatrix_backendkit.LogBridge.Bridge.Lines.{bridge_line}
use contextmatrix_backendkit.LogBridge.Redactors.{RedactorRegistry}
use contextmatrix_backendkit.LogBridge.Redactors.Masked

pub record Pipeline (F R : Type 0) : Type 0 where
  pub registry : RedactorRegistry R
  pub bridge : Bridge F R

-- A call of the registry, a line of a worker, or a call of the hub.
pub data Event (F : Type 0) : Type 0 where
  registers : Masked.Op → Event F
  lines : Key → Bytes → Bool → ℤ → Event F
  consumes : History.Op (LogEntry F) → Event F

module _ {F R : Type 0} (rt : Runtime F R) (make : List Bytes → R) where
  -- The bridge's redactor is the one that the registry stores.
  unfoldable pub apply_event : Event F → Pipeline F R → Pipeline F R
  apply_event (registers op) p =
      let r = Masked.apply make op p.registry in
      record { registry = r; bridge = record p.bridge { redactor = r.bridge_redactor } }
  apply_event (lines k line is_stderr now) p = record p {
    bridge = bridge_line rt k line is_stderr now p.bridge;
  }
  apply_event (consumes op) p = record p {
    bridge = record p.bridge { hub = History.apply op p.bridge.hub };
  }

  -- What an event hands to a consumer.
  unfoldable pub handed_by : Event F → Pipeline F R → List (LogEntry F)
  handed_by (registers op) p = []
  handed_by (lines k line is_stderr now) p = []
  handed_by (consumes op) p = handed op p.bridge.hub

  unfoldable pub handed_out : List (Event F) → Pipeline F R → List (LogEntry F)
  handed_out [] p = []
  handed_out (ev ∷ events) p = handed_by ev p ++ handed_out events (apply_event ev p)
