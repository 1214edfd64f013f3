-- ===== src/WebhookCore/Replay/Window.antt =====
-- What a replay cache promises, with neither the linked list nor the index: a list of entries,
-- oldest first, none of them twice. webhookcore/replay.go implements it.
use contextmatrix_backendkit.Prelude.{
  ◌++◌, ◌∷◌, [], List, none, some, Bool, true, false, ◌||◌, if◌then◌else◌, Bytes,
}
use contextmatrix_backendkit.Prelude.Int.{ℤ, pos, pos_part, leb_ℤ, ltb_ℤ, ◌-ℤ◌}
use contextmatrix_backendkit.GoTime.{Duration, Time}
use contextmatrix_backendkit.WebhookCore.Store.Laws.{find_value, erase_value}
use contextmatrix_backendkit.WebhookCore.Store.Evict.{youngest}
use contextmatrix_backendkit.WebhookCore.Replay.{ReplayEntry}

pub record Window : Type 0 where
  pub ttl : Duration
  pub capacity : ℤ
  pub entries : List ReplayEntry

-- Seen at most a ttl ago; a ttl that is not positive is no limit.
abbrev pub recent : Duration → Time → Time → Bool
recent ttl now seen = leb_ℤ ttl (pos 0) || leb_ℤ (now -ℤ seen) ttl

abbrev pub entry_key : ReplayEntry → Bytes
entry_key e = e.key

-- The entries that fit the capacity; a capacity that is not positive is no limit.
unfoldable pub bounded : ℤ → List ReplayEntry → List ReplayEntry
bounded capacity es = if ltb_ℤ (pos 0) capacity then youngest (pos_part capacity) es else es

unfoldable pub accept : Bytes → Time → List ReplayEntry → Window → Window × Bool
accept key now es w =
    (record w { entries = bounded w.capacity (es ++ record { key = key; seen = now } ∷ []) }, false)

-- A key that was seen within the ttl is a duplicate. Any other takes the youngest place.
unfoldable pub check : Bytes → Time → Window → Window × Bool
unfolding accept
check key now w = elim (find_value entry_key key w.entries) [
  | none ↦ accept key now w.entries w
  | some e ↦
      if recent w.ttl now e.seen
      then (w, true)
      else accept key now (erase_value entry_key key w.entries) w
]

-- The entries from the first one after the cutoff on.
unfoldable pub after : Time → List ReplayEntry → List ReplayEntry
after cutoff [] = []
after cutoff (e ∷ es) = if ltb_ℤ cutoff e.seen then e ∷ es else after cutoff es

unfoldable pub expire : Time → Window → Window
expire now w =
    if leb_ℤ w.ttl (pos 0) then w else record w { entries = after (now -ℤ w.ttl) w.entries }
