-- ===== src/LogBridge/Bridge/Examples.antt =====
-- Runs of the bridge, and its theorems at concrete lines.
use contextmatrix_backendkit.Prelude.{
  ℕ, ◌≡◌, refl, List, [], ◌∷◌, Option, none, some, true, false, Bytes, bytes, bytes_dec, ℕ_discrete,
  ◌⊎◌,
}
use contextmatrix_backendkit.Prelude.Int.{pos}
use contextmatrix_backendkit.Prelude.Assoc.{lookup, insert}
use contextmatrix_backendkit.LogBridge.Hub.{new_hub}
use contextmatrix_backendkit.LogBridge.Bridge.{
  Data, text, Runtime, Key, Bridge, rune_start, rune_start_at, cut_loop, truncate, stamp, str_field,
}
use contextmatrix_backendkit.LogBridge.Bridge.Lines.{
  event_kind, map_state_change, map_case, map_event, notify, publish_entry, publish_mapped,
  bridge_line,
}
use contextmatrix_backendkit.LogBridge.Bridge.Publishing
use contextmatrix_backendkit.LogBridge.Bridge.Publishing.{Published}
use contextmatrix_backendkit.LogBridge.Bridge.Awaiting
use contextmatrix_backendkit.LogBridge.Bridge.Awaiting.{Heard}
use contextmatrix_backendkit.LogBridge.Bridge.Truncation
use contextmatrix_backendkit.LogBridge.Bridge.Truncation.{concat, whole_runes}

program : Unit {0}
unfolding lookup insert bytes_dec ℕ_discrete new_hub rune_start rune_start_at cut_loop truncate
    stamp str_field event_kind map_state_change map_case map_event notify publish_entry
    publish_mapped bridge_line concat whole_runes
program = tt

-- Every line that is not empty is one event; a redactor masks all.
abbrev unmarshal_all : Bytes → Option (Bytes × Data ℕ)
unmarshal_all [] = none
unmarshal_all (b ∷ line) =
    some (bytes "state_change", (bytes "state", text (bytes "awaiting_human")) ∷ [])

abbrev runtime : Runtime ℕ Bytes
runtime = record {
  trim_space = λ s. s;
  marshal = λ data'. none;
  unmarshal = unmarshal_all;
  truncated = pos;
  is_positive = λ n. true;
  zero_float = 0;
  redacted = λ r s. r;
}

abbrev key : Key
key = record { project = bytes "p"; card_id = bytes "c"; session_id = [] }

abbrev bridge : Bridge ℕ Bytes
bridge = record {
  hub = new_hub none none;
  redactor = bytes "***";
  awaited = some [];
  surface_awaiting_human = true;
  surface_run_state = false;
  map_extra = none;
}

waiting :
    (bridge_line runtime key (bytes "{}") false (pos 7) bridge).awaited ≡ some ((key, true) ∷ [])
unfolding program
waiting = refl

bridge_line-Published_example :
    (bridge_line runtime key (bytes "{}") false (pos 7) bridge ≡ bridge)
    ⊎ Published runtime key
        (pos 7)
        bridge
        (bridge_line runtime key (bytes "{}") false (pos 7) bridge)
bridge_line-Published_example =
    Publishing.bridge_line-Published runtime key (bytes "{}") false (pos 7) bridge

bridge_line-Heard_example :
    Heard runtime key
      (bytes "{}")
      false
      bridge
      (bridge_line runtime key (bytes "{}") false (pos 7) bridge)
    × (runtime.unmarshal (bytes "{}") ≡ none
        → (bridge_line runtime key (bytes "{}") false (pos 7) bridge).awaited ≡ bridge.awaited)
bridge_line-Heard_example =
    Awaiting.bridge_line-Heard runtime key (bytes "{}") false (pos 7) bridge refl

-- A rune of one byte and one of three, cut at three bytes.
abbrev runes : List Bytes
runes = (97 ∷ []) ∷ (226 ∷ 130 ∷ 172 ∷ []) ∷ []

cut : truncate (concat runes) 3 ≡ 97 ∷ []
unfolding program
cut = refl

truncate-whole_runes_example : truncate (concat runes) 3 ≡ whole_runes runes 3
unfolding rune_start
truncate-whole_runes_example =
    Truncation.truncate-whole_runes runes 3 ((refl, tt), ((refl, (refl, (refl, tt))), tt))
