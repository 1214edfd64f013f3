-- ===== src/LogBridge/Hub/History.antt =====
-- Histories of the hub's calls (logbridge/hub.go), and what one retained key sees of them.
use contextmatrix_backendkit.Prelude.{
  ℕ, ◌<◌, ◌≡◌, ◌≢◌, List, [], ◌∷◌, ◌++◌, none, some, Bytes, ℕ_discrete, length, if◌then◌else◌, ◌⊎◌,
}
use contextmatrix_backendkit.Prelude.Assoc.{lookup}
use contextmatrix_backendkit.LogBridge.Hub.{
  Hub, sub_buf_size, str_eq, retain, release, subscribe, unsubscribe, publish, receive,
}
use contextmatrix_backendkit.LogBridge.Hub.Subs.{holders}
use contextmatrix_backendkit.LogBridge.Hub.Fifo.{pending}
use contextmatrix_backendkit.LogBridge.Hub.Consumers.{taken}

pub data Op (E : Type 0) : Type 0 where
  publishes : E → Op E
  subscribes : Bytes → Op E
  receives : ℕ → Op E
  unsubscribes : ℕ → Op E
  retains : Bytes → Op E
  releases : Bytes → Op E

module _ {E : Type 0} where
  unfoldable pub apply : Op E → Hub E → Hub E
  apply (publishes e) h = publish e h
  apply (subscribes filter) h = (subscribe filter h).0
  apply (receives id) h = (receive id h).0
  apply (unsubscribes id) h = (unsubscribe id h).0
  apply (retains j) h = retain j h
  apply (releases j) h = release j h

  unfoldable pub run : List (Op E) → Hub E → Hub E
  run [] h = h
  run (op ∷ ops) h = run ops (apply op h)

module _ {E : Type 0} (k : Bytes) (key : E → Bytes) where
  -- What a call publishes under the key.
  abbrev pub sent_by : Op E → List E
  sent_by (publishes e) = if str_eq (key e) k then e ∷ [] else []
  sent_by _ = []

  -- What a call hands to a consumer of the key.
  unfoldable pub got_by : Op E → Hub E → List E
  got_by (receives id) h = elim (lookup ℕ_discrete id h.subs) [
    | none ↦ []
    | some s ↦ if str_eq s.filter k then taken (receive id h).1 else []
  ]
  got_by _ h = []

  unfoldable pub sent : List (Op E) → List E
  sent [] = []
  sent (op ∷ ops) = sent_by op ++ sent ops

  unfoldable pub got : List (Op E) → Hub E → List E
  got [] h = []
  got (op ∷ ops) h = got_by op h ++ got ops (apply op h)

  -- The conditions of the promise: the key stays retained, has one consumer at a time, and never
  -- more than a full buffer of entries waits.
  abbrev pub Allowed : Op E → Hub E → Type 0
  Allowed (publishes e) h = (key e ≢ k) ⊎ (length (pending k h) < sub_buf_size)
  Allowed (subscribes filter) h = (filter ≢ k) ⊎ (holders k h.subs ≡ 0)
  Allowed (releases j) h = j ≢ k
  Allowed _ h = Unit {0}

  abbrev pub AllAllowed : List (Op E) → Hub E → Type 0
  AllAllowed [] h = Unit {0}
  AllAllowed (op ∷ ops) h = Allowed op h × AllAllowed ops (apply op h)
