-- ===== src/LogBridge/Redactors/Examples.antt =====
-- Runs of the registry of secrets, and its theorem at a concrete history.
use contextmatrix_backendkit.Prelude.{◌≡◌, refl, List, [], ◌∷◌, Bytes, bytes, bytes_dec, ℕ_discrete}
use contextmatrix_backendkit.Prelude.Assoc.{lookup, insert, delete}
use contextmatrix_backendkit.LogBridge.Redactors.{
  all_keys, keys_of, rebuild, new_redactor_registry, add_session_key, remove_session_key,
  redact_line,
}
use contextmatrix_backendkit.LogBridge.Redactors.Masked
use contextmatrix_backendkit.LogBridge.Redactors.Masked.{Op, adds, removes, apply, run, Masked}

program : Unit {0}
unfolding lookup insert delete bytes_dec ℕ_discrete all_keys keys_of rebuild new_redactor_registry
    add_session_key remove_session_key redact_line apply run
program = tt

abbrev ops : List Op
ops =
    adds (bytes "s1") (bytes "llm-key")
    ∷ adds (bytes "s2") (bytes "other")
    ∷ adds (bytes "s1") (bytes "git-token")
    ∷ removes (bytes "s2")
    ∷ []

-- A redactor is the list of its secrets.
abbrev secrets : List Bytes → List Bytes
secrets keys = keys

kept :
    (run secrets ops (new_redactor_registry secrets)).redactor
    ≡ bytes "llm-key" ∷ bytes "git-token" ∷ []
unfolding program
kept = refl

run-Masked_example : Masked secrets ops (run secrets ops (new_redactor_registry secrets))
run-Masked_example = Masked.run-Masked secrets ops
