-- ===== src/LogBridge/Bridge/Lines.antt =====
-- The bridge's operations, logbridge/bridge.go: an event becomes an entry, and a line is published.
use contextmatrix_backendkit.Prelude.{
  List, [], ◌∷◌, ◌++◌, Option, none, some, Bool, true, false, ◌||◌, Bytes, bytes, is_empty,
  if◌then◌else◌,
}
use contextmatrix_backendkit.Prelude.Int.{ℤ}
use contextmatrix_backendkit.GoStrings.{str_eq}
use contextmatrix_backendkit.LogBridge.Hub.{publish}
use contextmatrix_backendkit.LogBridge.Bridge.{
  Data, Runtime, Key, LogEntry, entry_of, Bridge, Mapped, skip, entry, truncate, stamp, str_field,
  not_dispatched, int64_field, positive_float_field, summarize_data,
}

-- The kinds of events that mapEvent tells apart.
pub data EventKind : Type 0 where
  model_response : EventKind
  thinking : EventKind
  tool_call : EventKind
  usage_report : EventKind
  state_change : EventKind
  context_limit : EventKind
  error_event : EventKind
  run_state : EventKind
  transcript_only : EventKind
  unknown : EventKind

-- The cases of the switch.
unfoldable pub event_kind : Bytes → EventKind
event_kind kind =
    if str_eq kind (bytes "model_response")
    then model_response
    else (if str_eq kind (bytes "thinking")
        then thinking
        else (if str_eq kind (bytes "tool_call")
            then tool_call
            else (if str_eq kind (bytes "usage")
                then usage_report
                else (if str_eq kind (bytes "state_change")
                    then state_change
                    else (if str_eq kind (bytes "context_limit")
                        then context_limit
                        else (if str_eq kind (bytes "error")
                            then error_event
                            else (if str_eq kind (bytes "model_request")
                                  || str_eq kind (bytes "user_input")
                                then run_state
                                else (if str_eq kind (bytes "tool_result")
                                      || str_eq kind (bytes "tool_repair")
                                      || str_eq kind (bytes "verification")
                                    then transcript_only
                                    else unknown))))))))

abbrev pub awaiting_human : Bytes
awaiting_human = bytes "awaiting_human"

-- `onAwaiting(key, awaiting)`, where the hook is not nil.
unfoldable pub notify : Key → Bool → Option (List (Key × Bool)) → Option (List (Key × Bool))
notify k awaiting none = none
notify k awaiting (some calls) = some ((k, awaiting) ∷ calls)

abbrev pub origin : {F : Type 0} → LogEntry F → Key
origin e = record { project = e.project; card_id = e.card_id; session_id = e.session_id }

module _ {F R : Type 0} (rt : Runtime F R) where
  unfoldable pub map_model_response : Data F → Mapped F
  map_model_response data' =
      let content = str_field data' (bytes "content") in
      if is_empty (rt.trim_space content)
      then skip
      else entry
          (record (entry_of (bytes "text") content) { model = str_field data' (bytes "model") })
          false

  unfoldable pub map_tool_call : Data F → Mapped F
  map_tool_call data' =
      let call =
        str_field data' (bytes "name")
        ++ bytes "("
        ++ str_field data' (bytes "raw_args")
        ++ bytes ")" in
      let content =
        if not_dispatched data' then call ++ bytes " [not run - the turn ended first]" else call in
      entry
        (record (entry_of (bytes "tool_call") (truncate content 200)) {
          tool_use_id = str_field data' (bytes "id");
        })
        false

  unfoldable pub map_usage : Data F → Mapped F
  map_usage data' =
      entry
        (record (entry_of (bytes "usage") []) {
          model = str_field data' (bytes "model");
          usage = some (record {
            input_tokens = int64_field rt data' (bytes "prompt_tokens");
            output_tokens = int64_field rt data' (bytes "completion_tokens");
            cache_read_tokens = int64_field rt data' (bytes "cache_read_tokens");
            cache_create_tokens = int64_field rt data' (bytes "cache_creation_tokens");
            cost_usd = positive_float_field rt data' (bytes "cost_usd");
          });
        })
        false

  unfoldable pub map_state_change : Bool → Bool → Data F → Mapped F
  map_state_change surface_awaiting_human surface_run_state data' =
      if str_eq (str_field data' (bytes "state")) awaiting_human
      then (if surface_awaiting_human
          then entry (entry_of (bytes "system") (bytes "awaiting human input")) true
          else (if surface_run_state
              then entry (entry_of (bytes "status") (bytes "idle")) false
              else skip))
      else entry (entry_of (bytes "system") (summarize_data rt data')) false

  unfoldable pub map_error : Data F → Mapped F
  map_error data' =
      let content = str_field data' (bytes "error") in
      let defect = str_field data' (bytes "suspected_upstream_defect") in
      entry
        (entry_of (bytes "stderr") (
          if is_empty defect
          then content
          else content ++ bytes " (suspected upstream defect: " ++ defect ++ bytes ")"))
        false

  -- The default case.
  unfoldable pub map_unknown : Bridge F R → Bytes → Data F → Mapped F
  map_unknown b kind data' = elim b.map_extra [
    | none ↦ skip
    | some f ↦ elim (f kind data') [ none ↦ skip | some (e, awaiting) ↦ entry e awaiting ]
  ]

  -- The switch, at the case that it takes.
  unfoldable pub map_case : Bridge F R → Bytes → Data F → EventKind → Mapped F
  unfolding map_model_response map_tool_call map_usage map_state_change map_error map_unknown
  map_case b kind data' model_response = map_model_response data'
  map_case b kind data' thinking =
      entry (entry_of (bytes "thinking") (str_field data' (bytes "content"))) false
  map_case b kind data' tool_call = map_tool_call data'
  map_case b kind data' usage_report = map_usage data'
  map_case b kind data' state_change =
      map_state_change b.surface_awaiting_human b.surface_run_state data'
  map_case b kind data' context_limit =
      entry (entry_of (bytes "system") (summarize_data rt data')) false
  map_case b kind data' error_event = map_error data'
  map_case b kind data' run_state =
      if b.surface_run_state
      then entry (entry_of (bytes "status") (bytes "working")) false
      else skip
  map_case b kind data' transcript_only = skip
  map_case b kind data' unknown = map_unknown b kind data'

  unfoldable pub map_event : Bridge F R → Bytes → Data F → Mapped F
  unfolding event_kind map_case
  map_event b kind data' = map_case b kind data' (event_kind kind)

  -- The bridge's `publish(e, awaiting)`.
  unfoldable pub publish_entry : LogEntry F → Bool → Bridge F R → Bridge F R
  unfolding notify
  publish_entry e awaiting b = record b {
    hub = publish e b.hub;
    awaited =
        if str_eq e.kind (bytes "stderr") then b.awaited else notify (origin e) awaiting b.awaited;
  }

  -- A raw or unparsable line, as an entry.
  abbrev pub raw_entry : Bridge F R → Key → Bytes → ℤ → LogEntry F
  raw_entry b k line now =
      stamp k (record (entry_of (bytes "stderr") (rt.redacted b.redactor line)) { timestamp = now })

  -- An entry from mapEvent, stamped and redacted.
  abbrev pub mapped_entry : Bridge F R → Key → LogEntry F → ℤ → LogEntry F
  mapped_entry b k e now =
      let e' = stamp k (record e { timestamp = now }) in
      record e' { content = rt.redacted b.redactor e'.content }

  -- BridgeLine after mapEvent.
  unfoldable pub publish_mapped : Key → ℤ → Bridge F R → Mapped F → Bridge F R
  publish_mapped k now b skip = b
  publish_mapped k now b (entry e awaiting) = publish_entry (mapped_entry b k e now) awaiting b

  unfoldable pub bridge_line : Key → Bytes → Bool → ℤ → Bridge F R → Bridge F R
  unfolding publish_mapped
  bridge_line k line true now b = publish_entry (raw_entry b k line now) false b
  bridge_line k line false now b = elim (rt.unmarshal line) [
    | none ↦ publish_entry (raw_entry b k line now) false b
    | some (kind, data') ↦ publish_mapped k now b (map_event b kind data')
  ]
