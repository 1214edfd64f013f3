-- ===== src/LogBridge/Bridge/Publishing.antt =====
-- What the bridge publishes (logbridge/bridge.go).
use contextmatrix_backendkit.Prelude.{
  ◌≡◌, refl, none, some, Bool, true, false, arith, Bytes, bytes, ◌⊎◌, inl, inr, is_empty,
  if◌then◌else◌, Option-cases,
}
use contextmatrix_backendkit.Prelude.Int.{ℤ}
use contextmatrix_backendkit.GoStrings.{str_eq}
use contextmatrix_backendkit.LogBridge.Hub.{publish}
use contextmatrix_backendkit.LogBridge.Bridge.{
  Data, Runtime, Key, LogEntry, Bridge, Mapped, skip, entry, stamp,
}
use contextmatrix_backendkit.LogBridge.Bridge.Lines.{
  map_event, notify, origin, publish_entry, publish_mapped, raw_entry, mapped_entry, bridge_line,
}

module _ {F R : Type 0} (rt : Runtime F R) where
  -- An entry that carries the line's key and time, its content through the bridge's redactor.
  pub record Clean (k : Key) (now : ℤ) (r : R) (e : LogEntry F) : Type 0 where
    pub content : Bytes
    pub redacted : e.content ≡ rt.redacted r content
    time : e.timestamp ≡ now
    project : is_empty k.project ≡ false → e.project ≡ k.project
    card_id : is_empty k.card_id ≡ false → e.card_id ≡ k.card_id
    session_id : is_empty k.session_id ≡ false → e.session_id ≡ k.session_id

  -- The effect of publishing one such entry: the hub publishes it, and the hook is called with its
  -- key unless its type is stderr.
  pub record Published (k : Key) (now : ℤ) (b b' : Bridge F R) : Type 0 where
    pub sent : LogEntry F
    awaiting : Bool
    pub clean : Clean k now b.redactor sent
    pub hub : b'.hub ≡ publish sent b.hub
    hook : b'.awaited ≡ (
        if str_eq sent.kind (bytes "stderr")
        then b.awaited
        else notify (origin sent) awaiting b.awaited)

  publish_entry-Published :
      (k : Key) (now : ℤ) (b : Bridge F R) (e : LogEntry F) (awaiting : Bool)
      → Clean k now b.redactor e
      → Published k now b (publish_entry rt e awaiting b)
  unfolding publish_entry
  publish_entry-Published k now b e awaiting clean = record {
    sent = e;
    awaiting = awaiting;
    clean = clean;
    hub = refl;
    hook = refl;
  }

  raw_entry-Clean :
      (k : Key) (now : ℤ) (b : Bridge F R) (line : Bytes)
      → Clean k now b.redactor (raw_entry rt b k line now)
  unfolding stamp
  raw_entry-Clean k now b line = record {
    content = line;
    redacted = refl;
    time = refl;
    project = λ h. ground arith;
    card_id = λ h. ground arith;
    session_id = λ h. ground arith;
  }

  mapped_entry-Clean :
      (k : Key) (now : ℤ) (b : Bridge F R) (e : LogEntry F)
      → Clean k now b.redactor (mapped_entry rt b k e now)
  unfolding stamp
  mapped_entry-Clean k now b e = record {
    content = e.content;
    redacted = refl;
    time = refl;
    project = λ h. ground arith;
    card_id = λ h. ground arith;
    session_id = λ h. ground arith;
  }

  event-Published :
      (k : Key) (now : ℤ) (b : Bridge F R) (m : Mapped F)
      → (publish_mapped rt k now b m ≡ b) ⊎ Published k now b (publish_mapped rt k now b m)
  unfolding publish_mapped
  event-Published k now b skip = inl refl
  event-Published k now b (entry e awaiting) =
      inr (publish_entry-Published k now b _ awaiting (mapped_entry-Clean k now b e))

  pub bridge_line-unparsed :
      (k : Key) (line : Bytes) (now : ℤ) (b : Bridge F R)
      → rt.unmarshal line ≡ none
      → bridge_line rt k line false now b ≡ publish_entry rt (raw_entry rt b k line now) false b
  unfolding bridge_line
  bridge_line-unparsed k line now b h = ground (arith, h)

  pub bridge_line-parsed :
      (k : Key) (line : Bytes) (now : ℤ) (b : Bridge F R) (kind : Bytes) (data' : Data F)
      → rt.unmarshal line ≡ some (kind, data')
      → bridge_line rt k line false now b ≡ publish_mapped rt k now b (map_event rt b kind data')
  unfolding bridge_line
  bridge_line-parsed k line now b kind data' h = ground (arith, h)

  -- Whatever a line holds and whatever the backend's own mapping returns, the bridge does nothing
  -- or publishes one entry, whose content has gone through the redactor in place, which carries
  -- the key's fields that are not empty and the time, and which calls the hook exactly if it is
  -- not of the type stderr.
  pub bridge_line-Published :
      (k : Key) (line : Bytes) (is_stderr : Bool) (now : ℤ) (b : Bridge F R)
      → (bridge_line rt k line is_stderr now b ≡ b)
        ⊎ Published k now b (bridge_line rt k line is_stderr now b)
  unfolding bridge_line
  bridge_line-Published k line true now b =
      inr (publish_entry-Published k now b _ false (raw_entry-Clean k now b line))
  bridge_line-Published k line false now b = elim (Option-cases (rt.unmarshal line)) [
    | inl bad ↦
        rw (bridge_line-unparsed k line now b bad)
          (inr (publish_entry-Published k now b _ false (raw_entry-Clean k now b line)))
    | inr ((kind, data'), good) ↦
        rw (bridge_line-parsed k line now b kind data' good)
          (event-Published k now b (map_event rt b kind data'))
  ]

  publish_mapped-redactor :
      (k : Key) (now : ℤ) (b : Bridge F R) (m : Mapped F)
      → (publish_mapped rt k now b m).redactor ≡ b.redactor
  unfolding publish_mapped publish_entry
  publish_mapped-redactor k now b skip = refl
  publish_mapped-redactor k now b (entry e awaiting) = refl

  -- A line leaves the redactor in place.
  pub bridge_line-redactor :
      (k : Key) (line : Bytes) (is_stderr : Bool) (now : ℤ) (b : Bridge F R)
      → (bridge_line rt k line is_stderr now b).redactor ≡ b.redactor
  unfolding bridge_line publish_entry
  bridge_line-redactor k line true now b = refl
  bridge_line-redactor k line false now b = elim (Option-cases (rt.unmarshal line)) [
    | inl bad ↦ rw (bridge_line-unparsed k line now b bad) refl
    | inr ((kind, data'), good) ↦
        rw (bridge_line-parsed k line now b kind data' good)
          (publish_mapped-redactor k now b (map_event rt b kind data'))
  ]
