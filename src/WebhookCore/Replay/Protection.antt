-- ===== src/WebhookCore/Replay/Protection.antt =====
-- How long an accepted pair of replay.go stands in the window: its ttl and the capacity.
use contextmatrix_backendkit.Prelude.{
  ℕ, zero, suc, ◌-◌, ◌≤◌, ◌<◌, ◌≡◌, ◌≢◌, refl, ◌++◌, ◌∷◌, [], List, some, true, false, Bytes,
  bytes_dec, arith, Option-cases, ◌⊎◌, inl, inr, length, length-append, drop,
}
use contextmatrix_backendkit.Prelude.Int.{ℤ, pos, pos_part, ◌-ℤ◌, ◌<ℤ◌, ◌≤ℤ◌}
use contextmatrix_backendkit.GoTime.{Duration, Time}
use contextmatrix_backendkit.WebhookCore.Store.Laws.{find_value, erase_value, Distinct}
use contextmatrix_backendkit.WebhookCore.Store.Evict.{youngest}
use contextmatrix_backendkit.WebhookCore.Replay.{ReplayEntry}
use contextmatrix_backendkit.WebhookCore.Replay.Window.{
  Window, entry_key, recent, bounded, accept, check, after,
}

-- The entry stands in the list with at most `n` younger ones behind it.
abbrev pub Held : ReplayEntry → ℕ → List ReplayEntry → Type 0
Held e n [] = ⊥
Held e n (x ∷ es) = ((x ≡ e) × (length es ≤ n)) ⊎ Held e n es

module _ (e : ReplayEntry) where
  Held-append :
      (n : ℕ) (es : List ReplayEntry) (x : ReplayEntry)
      → Held e n es
      → Held e (suc n) (es ++ x ∷ [])
  Held-append n [] x h = absurd h
  Held-append n (y ∷ es) x (inl h) = inl (h.0, omega (arith, length-append es (x ∷ [])))
  Held-append n (y ∷ es) x (inr h) = inr (Held-append n es x h)

  Held-last : (n : ℕ) (es : List ReplayEntry) → Held e n (es ++ e ∷ [])
  Held-last n [] = inl (refl, omega arith)
  Held-last n (y ∷ es) = inr (Held-last n es)

  Held-drop :
      (k n : ℕ) (es : List ReplayEntry) → k ≤ length es - suc n → Held e n es → Held e n (drop k es)
  Held-drop zero n es h held = held
  Held-drop (suc k) n [] h held = absurd held
  Held-drop (suc k) n (y ∷ es) h (inl held) = absurd (omega arith)
  Held-drop (suc k) n (y ∷ es) h (inr held) = Held-drop k n es (omega arith) held

  Held-youngest :
      (capacity n : ℕ) (es : List ReplayEntry)
      → n < capacity
      → Held e n es
      → Held e n (youngest capacity es)
  Held-youngest capacity n es h held = Held-drop (length es - capacity) n es (omega arith) held

  length-erase-le :
      (k : Bytes) (es : List ReplayEntry) → length (erase_value entry_key k es) ≤ length es
  unfolding erase_value
  length-erase-le k [] = omega arith
  length-erase-le k (x ∷ es) = ground (arith, length-erase-le k es)

  pub Held-erase :
      (k : Bytes) (n : ℕ) (es : List ReplayEntry)
      → k ≢ e.key
      → Held e n es
      → Held e n (erase_value entry_key k es)
  unfolding erase_value
  Held-erase k n [] h held = absurd held
  Held-erase k n (x ∷ es) h (inl held) = ground (arith, held.0, length-erase-le k es)
  Held-erase k n (x ∷ es) h (inr held) = ground (arith, held, Held-erase k n es h held)

  pub Held-after :
      (cutoff : Time) (n : ℕ) (es : List ReplayEntry)
      → cutoff <ℤ e.seen
      → Held e n es
      → Held e n (after cutoff es)
  unfolding after
  Held-after cutoff n [] h held = absurd held
  Held-after cutoff n (x ∷ es) h (inl held) = ground (arith, held.0)
  Held-after cutoff n (x ∷ es) h (inr held) = ground (arith, held, Held-after cutoff n es h held)

  Held-find :
      (n : ℕ) (es : List ReplayEntry)
      → Distinct entry_key es
      → Held e n es
      → find_value entry_key e.key es ≡ some e
  unfolding find_value
  Held-find n [] d held = absurd held
  Held-find n (x ∷ es) d (inl held) = ground (arith, held.0)
  Held-find n (x ∷ es) d (inr held) = ground (arith, Held-find n es d.1 held)

  pub Held-suc : (n : ℕ) (es : List ReplayEntry) → Held e n es → Held e (suc n) es
  Held-suc n [] held = absurd held
  Held-suc n (x ∷ es) (inl held) = inl (held.0, omega arith)
  Held-suc n (x ∷ es) (inr held) = inr (Held-suc n es held)

-- The capacity leaves room for the entry and `n` younger ones.
abbrev pub Room : ℤ → ℕ → Type 0
Room capacity n = (capacity ≤ℤ pos 0) ⊎ (n < pos_part capacity)

-- At `now` the ttl of an entry seen at `seen` has not run out.
abbrev pub InTime : Duration → Time → Time → Type 0
InTime ttl seen now = (ttl ≤ℤ pos 0) ⊎ (now -ℤ seen ≤ℤ ttl)

module _ (e : ReplayEntry) (w : Window) where
  Held-bounded :
      (n : ℕ) (es : List ReplayEntry)
      → Room w.capacity n
      → Held e n es
      → Held e n (bounded w.capacity es)
  unfolding bounded
  Held-bounded n es room held = ground (arith, Held-youngest e (pos_part w.capacity) n es)

  Held-accept :
      (key : Bytes) (now : Time) (n : ℕ) (es : List ReplayEntry)
      → Room w.capacity (suc n)
      → Held e n es
      → Held e (suc n) (accept key now es w).0.entries
  unfolding accept
  Held-accept key now n es room held =
      Held-bounded (suc n) _ room (Held-append e n es (record { key = key; seen = now }) held)

  recent-InTime : (now : Time) → InTime w.ttl e.seen now → recent w.ttl now e.seen ≡ true
  recent-InTime now time = ground arith

  pub Held-check :
      (key : Bytes) (now : Time) (n : ℕ)
      → Distinct entry_key w.entries
      → Held e n w.entries
      → Room w.capacity (suc n)
      → InTime w.ttl e.seen now
      → Held e (suc n) (check key now w).0.entries
  unfolding check
  Held-check key now n d held room time = elim (Option-cases (find_value entry_key key w.entries)) [
    | inl f ↦ rw (f, check) (Held-accept key now n w.entries room held)
    | inr (x, f) ↦ elim (bytes_dec key e.key) [
      | yes p ↦ ground (
        arith,
        f,
        Held-find e n w.entries d held,
        recent-InTime now time,
        Held-suc e n w.entries held,
      )
      | no q ↦
          rw (f, check)
            (ground (
              arith,
              Held-suc e n w.entries held,
              Held-accept key now n (erase_value entry_key key w.entries) room
                  (Held-erase e key n w.entries q held),
            ))
    ]
  ]

  -- A check of the entry's own key, in time, finds it.
  pub check-Held :
      (now : Time) (n : ℕ)
      → Distinct entry_key w.entries
      → Held e n w.entries
      → InTime w.ttl e.seen now
      → (check e.key now w).1 ≡ true
  unfolding check
  check-Held now n d held time =
      ground (arith, Held-find e n w.entries d held, recent-InTime now time)

-- An accepted key takes the last place.
pub Held-accepted :
    (key : Bytes) (now : Time) (w : Window)
    → Room w.capacity 0
    → (check key now w).1 ≡ false
    → Held (record { key = key; seen = now }) 0 (check key now w).0.entries
unfolding check accept
Held-accepted key now w room fresh =
    let e : ReplayEntry = record { key = key; seen = now } in
    ground (
      arith,
      Held-bounded e w 0 (w.entries ++ e ∷ []) room (Held-last e 0 w.entries),
      Held-bounded e w 0 (erase_value entry_key key w.entries ++ e ∷ []) room
          (Held-last e 0 (erase_value entry_key key w.entries)),
    )
