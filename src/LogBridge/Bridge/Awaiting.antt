-- ===== src/LogBridge/Bridge/Awaiting.antt =====
-- When the bridge (logbridge/bridge.go) tells its backend that a worker waits for a human.
use contextmatrix_backendkit.Prelude.{
  ◌≡◌, refl, ap, sym, subst, [], none, some, Bool, true, false, arith, Bytes, bytes, bytes_dec, inl,
  inr, Option-cases, Bool-cases,
}
use contextmatrix_backendkit.Prelude.Int.{ℤ}
use contextmatrix_backendkit.GoStrings.{str_eq}
use contextmatrix_backendkit.LogBridge.Bridge.{
  Data, Runtime, Key, LogEntry, Bridge, Mapped, skip, entry, stamp, str_field,
}
use contextmatrix_backendkit.LogBridge.Bridge.Lines.{
  EventKind, model_response, thinking, tool_call, usage_report, state_change, context_limit,
  error_event, run_state, transcript_only, unknown, event_kind, map_case, awaiting_human,
  map_model_response, map_tool_call, map_usage, map_state_change, map_error, map_unknown, map_event,
  notify, origin, publish_entry, publish_mapped, mapped_entry, bridge_line,
}
use contextmatrix_backendkit.LogBridge.Bridge.Publishing.{bridge_line-unparsed, bridge_line-parsed}

module _ {F R : Type 0} (rt : Runtime F R) where
  -- The entry comes from a state change to awaiting_human that the backend surfaces.
  abbrev pub Awaits : Bridge F R → Bytes → Data F → Type 0
  Awaits b kind data' =
      (kind ≡ bytes "state_change")
      × (str_field data' (bytes "state") ≡ awaiting_human)
      × (b.surface_awaiting_human ≡ true)

  state_change-kind : (kind : Bytes) → event_kind kind ≡ state_change → kind ≡ bytes "state_change"
  unfolding event_kind
  state_change-kind kind h = ground arith

  -- An entry without a key of its own, and whether it awaits.
  record Plain (b : Bridge F R) (kind : Bytes) (data' : Data F) (m : Mapped F) : Type 0 where
    keyless :
        (e : LogEntry F) (awaiting : Bool)
        → m ≡ entry e awaiting
        → (e.project ≡ []) × (e.card_id ≡ []) × (e.session_id ≡ [])
    awaits : (e : LogEntry F) → m ≡ entry e true → Awaits b kind data'

  case-Plain :
      (b : Bridge F R) (kind : Bytes) (data' : Data F) (c : EventKind)
      → b.map_extra ≡ none
      → event_kind kind ≡ c
      → Plain b kind data' (map_case rt b kind data' c)
  unfolding map_case map_model_response map_tool_call map_usage map_state_change map_error
      map_unknown
  case-Plain b kind data' model_response alone h = record {
    keyless = λ e awaiting p. ground arith;
    awaits = λ e p. ground arith;
  }
  case-Plain b kind data' thinking alone h = record {
    keyless = λ e awaiting p. ground arith;
    awaits = λ e p. ground arith;
  }
  case-Plain b kind data' tool_call alone h = record {
    keyless = λ e awaiting p. ground arith;
    awaits = λ e p. ground arith;
  }
  case-Plain b kind data' usage_report alone h = record {
    keyless = λ e awaiting p. ground arith;
    awaits = λ e p. ground arith;
  }
  case-Plain b kind data' state_change alone h =
      let same = state_change-kind kind h in
      record { keyless = λ e awaiting p. ground arith; awaits = λ e p. ground (arith, same) }
  case-Plain b kind data' context_limit alone h = record {
    keyless = λ e awaiting p. ground arith;
    awaits = λ e p. ground arith;
  }
  case-Plain b kind data' error_event alone h = record {
    keyless = λ e awaiting p. ground arith;
    awaits = λ e p. ground arith;
  }
  case-Plain b kind data' run_state alone h = record {
    keyless = λ e awaiting p. ground arith;
    awaits = λ e p. ground arith;
  }
  case-Plain b kind data' transcript_only alone h = record {
    keyless = λ e awaiting p. ground arith;
    awaits = λ e p. ground arith;
  }
  case-Plain b kind data' unknown alone h = record {
    keyless = λ e awaiting p. ground (arith, alone);
    awaits = λ e p. ground (arith, alone);
  }

  -- What one line adds to the calls of the hook.
  pub data Heard (k : Key) (line : Bytes) (is_stderr : Bool) (b b' : Bridge F R) : Type 0 where
    silent : b'.awaited ≡ b.awaited → Heard k line is_stderr b b'
    progress :
        b'.awaited ≡ notify k false b.awaited → is_stderr ≡ false → Heard k line is_stderr b b'
    waits :
        (kind : Bytes) (data' : Data F)
        → b'.awaited ≡ notify k true b.awaited
        → is_stderr ≡ false
        → rt.unmarshal line ≡ some (kind, data')
        → Awaits b kind data'
        → Heard k line is_stderr b b'

  mapped-origin :
      (k : Key) (now : ℤ) (b : Bridge F R) (e : LogEntry F)
      → (e.project ≡ []) × (e.card_id ≡ []) × (e.session_id ≡ [])
      → origin (mapped_entry rt b k e now) ≡ k
  unfolding stamp
  mapped-origin k now b e h = ground (arith, h)

  mapped-Heard :
      (k : Key) (line : Bytes) (now : ℤ) (b : Bridge F R) (kind : Bytes) (data' : Data F)
      (m : Mapped F)
      → rt.unmarshal line ≡ some (kind, data')
      → Plain b kind data' m
      → Heard k line false b (publish_mapped rt k now b m)
  unfolding publish_mapped publish_entry stamp
  mapped-Heard k line now b kind data' skip h plain = silent refl
  mapped-Heard k line now b kind data' (entry e awaiting) h plain =
      let key = mapped-origin k now b e (plain.keyless e awaiting refl) in
      elim (Bool-cases (str_eq e.kind (bytes "stderr"))) [
        | inl quiet ↦ silent (ground (arith, quiet))
        | inr loud ↦ elim (Bool-cases awaiting) [
          | inl yes' ↦
              waits kind data' (ground (arith, loud, key, yes')) refl h
                (plain.awaits e (ap (entry e) yes'))
          | inr no' ↦ progress (ground (arith, loud, key, no')) refl
        ]
      ]

  -- Where the backend maps no kinds of its own, a line leaves the hook alone, or it reports
  -- progress under the line's key, or, only for a state change to awaiting_human that the backend
  -- surfaces, that the worker waits. A line of stderr, and a line that is no event, leaves it
  -- alone, so that it cannot clear the flag of a worker that waits.
  pub bridge_line-Heard :
      (k : Key) (line : Bytes) (is_stderr : Bool) (now : ℤ) (b : Bridge F R)
      → b.map_extra ≡ none
      → Heard k line is_stderr b (bridge_line rt k line is_stderr now b)
        × (rt.unmarshal line ≡ none → (bridge_line rt k line is_stderr now b).awaited ≡ b.awaited)
  unfolding bridge_line publish_entry stamp bytes_dec map_event map_case
  bridge_line-Heard k line true now b alone = (silent refl, λ h. refl)
  bridge_line-Heard k line false now b alone = elim (Option-cases (rt.unmarshal line)) [
    | inl bad ↦
        let same = bridge_line-unparsed rt k line now b bad in
        (silent (ap (λ b'. b'.awaited) same), λ h. ap (λ b'. b'.awaited) same)
    | inr ((kind, data'), good) ↦ (
      subst (Heard k line false b) (sym (bridge_line-parsed rt k line now b kind data' good)) (
          mapped-Heard k line now b kind data' _ good
            (case-Plain b kind data' (event_kind kind) alone refl)),
      λ h. cc,
    )
  ]
