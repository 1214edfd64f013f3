-- ===== src/LogBridge/Pipeline/Hidden.antt =====
-- Which secrets no consumer of the hub is handed (logbridge/registry.go, logbridge/bridge.go,
-- logbridge/hub.go).
use contextmatrix_backendkit.Prelude.{
  ℕ, ◌≤◌, ◌≡◌, ◌≢◌, refl, ap, sym, subst, ◌∙◌, List, [], ◌∷◌, All, All-append, Option, Bool, true,
  arith, Bytes, length, inl, inr,
}
use contextmatrix_backendkit.Prelude.Int.{ℤ}
use contextmatrix_backendkit.Prelude.Assoc.{lookup}
use contextmatrix_backendkit.LogBridge.Hub.{new_hub}
use contextmatrix_backendkit.LogBridge.Hub.History
use contextmatrix_backendkit.LogBridge.Hub.History.{
  publishes, subscribes, receives, unsubscribes, retains, releases,
}
use contextmatrix_backendkit.LogBridge.Hub.Stored.{Holds, publish-Holds}
use contextmatrix_backendkit.LogBridge.Hub.Contents.{Fresh, apply-Holds, handed-All}
use contextmatrix_backendkit.LogBridge.Bridge.{Runtime, Key, LogEntry, Bridge}
use contextmatrix_backendkit.LogBridge.Bridge.Publishing.{
  bridge_line-Published, bridge_line-redactor,
}
use contextmatrix_backendkit.LogBridge.Bridge.Lines.{bridge_line}
use contextmatrix_backendkit.LogBridge.Redactors.{all_keys, keys_of, new_redactor_registry, rebuild}
use contextmatrix_backendkit.LogBridge.Redactors.Masked
use contextmatrix_backendkit.LogBridge.Redactors.Masked.{
  adds, removes, has_key, added, Installed, apply-Installed, run-Installed, keys_of-run,
  has_key-all, has_key-append,
}
use contextmatrix_backendkit.LogBridge.Pipeline.{
  Pipeline, Event, registers, lines, consumes, apply_event, handed_by, handed_out,
}

-- redact.New ignores secrets that are shorter.
abbrev pub min_secret : ℕ
min_secret = 6

abbrev Reads : {E : Type 0} → History.Op E → Type 0
Reads (publishes e) = ⊥
Reads _ = Unit {0}

-- The session's secrets are not removed, and only the bridge publishes.
abbrev pub Keeps : {F : Type 0} → Bytes → Event F → Type 0
Keeps id (registers (adds j key)) = Unit {0}
Keeps id (registers (removes j)) = j ≢ id
Keeps id (lines k line is_stderr now) = Unit {0}
Keeps id (consumes op) = Reads op

module _ {F R : Type 0} (make : List Bytes → R) where
  -- The pipeline after calls of the registry, before the first line.
  abbrev pub opened :
      List Masked.Op → Option (LogEntry F → Bytes) → Option ℕ → Bridge F R → Pipeline F R
  opened ops key_of observer b =
      let r = Masked.run make ops (new_redactor_registry make) in
      record {
        registry = r;
        bridge = record b { redactor = r.bridge_redactor; hub = new_hub key_of observer };
      }

module _ {F R : Type 0} (rt : Runtime F R) (make : List Bytes → R) (Hides : Bytes → Bytes → Type 0)
    (masks : (keys : List Bytes) (key text : Bytes)
      → has_key key keys ≡ true
      → min_secret ≤ length key
      → Hides key (rt.redacted (make keys) text))
    (id key : Bytes) (long : min_secret ≤ length key) where
  abbrev Hidden : LogEntry F → Type 0
  Hidden e = Hides key e.content

  -- The secret is registered, the bridge has the registry's redactor, and no entry that waits shows
  -- it.
  record Guarded (p : Pipeline F R) : Type 0 where
    known : has_key key (keys_of id p.registry.session) ≡ true
    installed : Installed make p.registry
    same : p.bridge.redactor ≡ p.registry.bridge_redactor
    waits : Holds Hidden p.bridge.hub

  added-Keeps :
      (op : Masked.Op) (keys : List Bytes)
      → Keeps {F = F} id (registers op)
      → has_key key keys ≡ true
      → has_key key (added (op ∷ []) id keys) ≡ true
  unfolding added has_key
  added-Keeps (adds j k) keys h known = ground (arith, has_key-append key keys (k ∷ []))
  added-Keeps (removes j) keys h known = ground (arith, h)

  registers-Guarded :
      (op : Masked.Op) (p : Pipeline F R)
      → Keeps {F = F} id (registers op)
      → Guarded p
      → Guarded (apply_event rt make (registers op) p)
  unfolding apply_event Masked.run
  registers-Guarded op p h v = record {
    known =
        ap (has_key key) (keys_of-run make (op ∷ []) id p.registry)
        ∙ added-Keeps op (keys_of id p.registry.session) h v.known;
    installed = apply-Installed make op p.registry v.installed;
    same = refl;
    waits = v.waits;
  }

  Reads-Fresh : (op : History.Op (LogEntry F)) → Reads op → Fresh Hidden op
  Reads-Fresh (publishes e) h = absurd h
  Reads-Fresh (subscribes f) h = tt
  Reads-Fresh (receives j) h = tt
  Reads-Fresh (unsubscribes j) h = tt
  Reads-Fresh (retains j) h = tt
  Reads-Fresh (releases j) h = tt

  -- The redactor in place masks the secret.
  in_place :
      (p : Pipeline F R) (text : Bytes) → Guarded p → Hides key (rt.redacted p.bridge.redactor text)
  in_place p text v =
      subst (λ r. Hides key (rt.redacted r text)) (sym (v.same ∙ v.installed.1))
        (masks (all_keys p.registry.session) key text
          (has_key-all key id p.registry.session v.known) long)

  lines-Holds :
      (k : Key) (line : Bytes) (is_stderr : Bool) (now : ℤ) (p : Pipeline F R)
      → Guarded p
      → Holds Hidden (bridge_line rt k line is_stderr now p.bridge).hub
  lines-Holds k line is_stderr now p v =
      elim (bridge_line-Published rt k line is_stderr now p.bridge) [
        | inl same ↦ rw same v.waits
        | inr out ↦
            let hidden : Hidden out.sent =
              subst (Hides key) (sym out.clean.redacted) (in_place p out.clean.content v) in
            rw out.hub (publish-Holds Hidden out.sent p.bridge.hub hidden v.waits)
      ]

  step-Guarded :
      (ev : Event F) (p : Pipeline F R)
      → Keeps id ev
      → Guarded p
      → Guarded (apply_event rt make ev p)
  unfolding apply_event
  step-Guarded (registers op) p h v = registers-Guarded op p h v
  step-Guarded (lines k line is_stderr now) p h v = record {
    known = v.known;
    installed = v.installed;
    same = bridge_line-redactor rt k line is_stderr now p.bridge ∙ v.same;
    waits = lines-Holds k line is_stderr now p v;
  }
  step-Guarded (consumes op) p h v = record {
    known = v.known;
    installed = v.installed;
    same = v.same;
    waits = apply-Holds Hidden op p.bridge.hub (Reads-Fresh op h) v.waits;
  }

  step-Hidden : (ev : Event F) (p : Pipeline F R) → Guarded p → All Hidden (handed_by rt make ev p)
  unfolding handed_by
  step-Hidden (registers op) p v = tt
  step-Hidden (lines k line is_stderr now) p v = tt
  step-Hidden (consumes op) p v = handed-All Hidden op p.bridge.hub v.waits

  handed_out-Hidden :
      (events : List (Event F)) (p : Pipeline F R)
      → All (Keeps id) events
      → Guarded p
      → All Hidden (handed_out rt make events p)
  unfolding handed_out
  handed_out-Hidden [] p h v = tt
  handed_out-Hidden (ev ∷ events) p h v =
      All-append Hidden (handed_by rt make ev p) _ (step-Hidden ev p v)
        (handed_out-Hidden events (apply_event rt make ev p) h.1 (step-Guarded ev p h.0 v))

  opened-Guarded :
      (ops : List Masked.Op) (key_of : Option (LogEntry F → Bytes)) (observer : Option ℕ)
      (b : Bridge F R)
      → has_key key (added ops id []) ≡ true
      → Guarded (opened make ops key_of observer b)
  unfolding new_redactor_registry rebuild keys_of lookup new_hub
  opened-Guarded ops key_of observer b known = record {
    known = ap (has_key key) (keys_of-run make ops id (new_redactor_registry make)) ∙ known;
    installed = run-Installed make ops (new_redactor_registry make) (refl, refl);
    same = refl;
    waits = record { queues = tt; backlogs = tt };
  }

  -- A secret of at least six bytes that a session registered before the first line, and whose
  -- session is not removed, is hidden in the content of every entry that any consumer of the hub
  -- ever receives or finds in its channel after it left: whatever lines workers write, whatever a
  -- backend's own mapping makes of them, whatever secrets other sessions add and remove in between,
  -- and however consumers subscribe, read and leave and keys are retained and released; if only the
  -- bridge publishes and the redactor hides each secret of at least six bytes that it is made of.
  pub handed_out-hidden :
      (ops : List Masked.Op) (key_of : Option (LogEntry F → Bytes)) (observer : Option ℕ)
      (b : Bridge F R) (events : List (Event F))
      → has_key key (added ops id []) ≡ true
      → All (Keeps id) events
      → All
          (λ e. Hides key e.content)
          (handed_out rt make events (opened make ops key_of observer b))
  handed_out-hidden ops key_of observer b events known keeps =
      handed_out-Hidden events (opened make ops key_of observer b) keeps
        (opened-Guarded ops key_of observer b known)
