-- ===== src/LogBridge/Pipeline/Examples.antt =====
-- A run of the registry, the bridge and the hub together.
use contextmatrix_backendkit.Prelude.{
  ℕ, ◌≡◌, refl, ap, List, [], ◌∷◌, All, none, Bool, true, false, ◌||◌, arith, Bytes, bytes, ◌≤◌,
  ◌&&◌, leb, length, bytes_dec, ℕ_discrete, if◌then◌else◌, Bool-cases, inl, inr,
}
use contextmatrix_backendkit.Prelude.Int.{pos}
use contextmatrix_backendkit.Prelude.Assoc.{lookup, insert, delete}
use contextmatrix_backendkit.GoStrings.{contains, has_prefix, cut_prefix}
use contextmatrix_backendkit.LogBridge.Hub.{
  new_hub, observe_drop, backlog, subscribe, retain, matches, offer, attach, count_drop,
  publish_loop, append_backlog, key_for, publish, receive,
}
use contextmatrix_backendkit.LogBridge.Hub.History
use contextmatrix_backendkit.LogBridge.Hub.History.{subscribes, receives, retains}
use contextmatrix_backendkit.LogBridge.Hub.Contents.{handed}
use contextmatrix_backendkit.LogBridge.Bridge.{Runtime, Key, Bridge, stamp}
use contextmatrix_backendkit.LogBridge.Bridge.Lines.{notify, publish_entry, bridge_line}
use contextmatrix_backendkit.LogBridge.Redactors.{
  all_keys, keys_of, rebuild, new_redactor_registry, add_session_key, remove_session_key,
}
use contextmatrix_backendkit.LogBridge.Redactors.Masked
use contextmatrix_backendkit.LogBridge.Redactors.Masked.{adds, removes, has_key, added}
use contextmatrix_backendkit.LogBridge.Pipeline.{
  Event, registers, lines, consumes, apply_event, handed_by, handed_out,
}
use contextmatrix_backendkit.LogBridge.Pipeline.Hidden
use contextmatrix_backendkit.LogBridge.Pipeline.Hidden.{min_secret, opened}

-- A redactor is its secrets; it drops a text that shows one, if it is not too short.
unfoldable shows : List Bytes → Bytes → Bool
shows [] s = false
shows (k ∷ keys) s = (leb min_secret (length k) && contains s k) || shows keys s

unfoldable redacted : List Bytes → Bytes → Bytes
redacted keys s = if shows keys s then [] else s

program : Unit {0}
unfolding lookup insert delete bytes_dec ℕ_discrete contains has_prefix cut_prefix new_hub
    observe_drop backlog subscribe retain matches offer attach count_drop publish_loop
    append_backlog key_for publish receive History.apply handed stamp notify publish_entry
    bridge_line all_keys keys_of rebuild new_redactor_registry add_session_key remove_session_key
    Masked.apply Masked.run has_key added apply_event handed_by handed_out shows redacted
program = tt

abbrev runtime : Runtime ℕ (List Bytes)
runtime = record {
  trim_space = λ s. s;
  marshal = λ data'. none;
  unmarshal = λ line. none;
  truncated = pos;
  is_positive = λ n. true;
  zero_float = 0;
  redacted = redacted;
}

abbrev make : List Bytes → List Bytes
make keys = keys

abbrev Hides : Bytes → Bytes → Type 0
Hides key s = contains s key ≡ false

shown :
    (keys : List Bytes) (key s : Bytes)
    → has_key key keys ≡ true
    → min_secret ≤ length key
    → contains s key ≡ true
    → shows keys s ≡ true
unfolding has_key shows
shown [] key s h long c = cc
shown (k ∷ keys) key s h long c = elim (bytes_dec k key) [
  | yes p ↦ ground (arith, ap (contains s) p, ap length p)
  | no q ↦ ground (arith, q, shown keys key s)
]

nothing : (key : Bytes) → min_secret ≤ length key → contains [] key ≡ false
unfolding contains has_prefix cut_prefix
nothing [] h = absurd (omega arith)
nothing (c ∷ key) h = refl

masks :
    (keys : List Bytes) (key s : Bytes)
    → has_key key keys ≡ true
    → min_secret ≤ length key
    → Hides key (redacted keys s)
unfolding redacted
masks keys key s h long = elim (Bool-cases (contains s key)) [
  | inl here ↦ ground (arith, shown keys key s h long here, nothing key long)
  | inr absent ↦ ground (arith, nothing key long, absent)
]

abbrev bridge : Bridge ℕ (List Bytes)
bridge = record {
  hub = new_hub none none;
  redactor = [];
  awaited = none;
  surface_awaiting_human = true;
  surface_run_state = false;
  map_extra = none;
}

abbrev k : Key
k = record { project = bytes "p"; card_id = bytes "c"; session_id = [] }

-- A consumer comes, a line shows the secret, another session goes, the next line does not.
abbrev events : List (Event ℕ)
events =
    consumes (subscribes [])
    ∷ lines k (bytes "key=s3cr3t") true (pos 7)
    ∷ registers (removes (bytes "b"))
    ∷ lines k (bytes "ok") true (pos 8)
    ∷ consumes (receives 1)
    ∷ consumes (receives 1)
    ∷ []

abbrev ops : List Masked.Op
ops = adds (bytes "b") (bytes "x") ∷ adds (bytes "a") (bytes "s3cr3t") ∷ []

handed_out-hidden_example :
    All
      (λ e. Hides (bytes "s3cr3t") e.content)
      (handed_out runtime make events (opened make ops none none bridge))
unfolding program
handed_out-hidden_example =
    Hidden.handed_out-hidden runtime make Hides masks (bytes "a") (bytes "s3cr3t") (omega arith) ops
      none none bridge events refl (tt, (tt, ((λ h. ground arith), (tt, (tt, (tt, tt))))))
