-- ===== src/LogBridge/Redactors.antt =====
-- The registry of secrets, logbridge/registry.go. `make` is redact.New and `redacted` is a
-- redactor's Apply, of the harness. The bridge is the one field of it that the registry writes.
pub mod Masked
mod Examples
use contextmatrix_backendkit.Prelude.{
  List, [], ◌∷◌, ◌++◌, Option, none, some, Bool, true, false, Bytes, bytes_dec, is_empty,
  if◌then◌else◌,
}
use contextmatrix_backendkit.Prelude.Assoc.{lookup, insert, delete}

-- `session` is the map; `bridge_redactor` is what setRedactor stored in the bridge.
pub record RedactorRegistry (R : Type 0) : Type 0 where
  pub redactor : R
  pub bridge_redactor : R
  pub session : List (Bytes × List Bytes)

-- `all` in rebuild.
unfoldable pub all_keys : List (Bytes × List Bytes) → List Bytes
all_keys [] = []
all_keys ((id, keys) ∷ session) = keys ++ all_keys session

-- `r.session[sessionID]`, nil where it is missing.
unfoldable pub keys_of : Bytes → List (Bytes × List Bytes) → List Bytes
keys_of id session = elim (lookup bytes_dec id session) [ none ↦ [] | some keys ↦ keys ]

module _ {R : Type 0} (make : List Bytes → R) where
  -- The state after rebuild, from its sessions.
  unfoldable pub rebuild : List (Bytes × List Bytes) → RedactorRegistry R
  unfolding all_keys
  rebuild session =
      let redactor = make (all_keys session) in
      record { redactor = redactor; bridge_redactor = redactor; session = session }

  unfoldable pub new_redactor_registry : RedactorRegistry R
  unfolding rebuild
  new_redactor_registry = rebuild []

  unfoldable pub add_session_key : Bytes → Bytes → RedactorRegistry R → RedactorRegistry R
  unfolding rebuild keys_of
  add_session_key id key r =
      if is_empty key
      then r
      else rebuild (insert bytes_dec id (keys_of id r.session ++ key ∷ []) r.session)

  unfoldable pub remove_session_key : Bytes → RedactorRegistry R → RedactorRegistry R
  unfolding rebuild
  remove_session_key id r = elim (lookup bytes_dec id r.session) [
    | none ↦ r
    | some keys ↦ rebuild (delete bytes_dec id r.session)
  ]

unfoldable pub redact_line : {R : Type 0} → (R → Bytes → Bytes) → RedactorRegistry R → Bytes → Bytes
redact_line redacted r line = redacted r.redactor line
