-- ===== src/LogBridge/Hub/Lossless.antt =====
-- Histories of the hub (logbridge/hub.go) seen from one retained key: what is published under it,
-- what its consumers receive and what still waits.
use contextmatrix_backendkit.Prelude.{
  ℕ, ◌≤◌, ◌≡◌, refl, ap, sym, ◌∙◌, List, [], ◌∷◌, ◌++◌, Option, some, true, false, arith, bytes_dec,
  ◌⊎◌, Option-cases, inr, Bytes, length, inl, append_assoc, append-nil, is_empty,
}
use contextmatrix_backendkit.Prelude.Assoc.{lookup, lookup-insert}
use contextmatrix_backendkit.LogBridge.Hub.{Hub, sub_buf_size, is_some, new_hub, retain, backlog}
use contextmatrix_backendkit.LogBridge.Hub.Subs.{holders, waiting}
use contextmatrix_backendkit.LogBridge.Hub.Fifo.{Single, pending}
use contextmatrix_backendkit.LogBridge.Hub.History.{Op, apply, run, got_by, sent, got, AllAllowed}
use contextmatrix_backendkit.LogBridge.Hub.Kept.{apply-Kept}
use contextmatrix_backendkit.LogBridge.Hub.Reached.{Reached, run-Reached}

pub balance_step :
    {E : Type 0} (before sent1 sent2 got1 got2 between after' : List E)
    → before ++ sent1 ≡ got1 ++ between
    → between ++ sent2 ≡ got2 ++ after'
    → before ++ (sent1 ++ sent2) ≡ (got1 ++ got2) ++ after'
balance_step before sent1 sent2 got1 got2 between after' h k =
    sym (append_assoc before sent1 sent2)
    ∙ ap (λ es. es ++ sent2) h
    ∙ append_assoc got1 between sent2
    ∙ ap (◌++◌ got1) k
    ∙ sym (append_assoc got1 got2 after')

module _ {E : Type 0} (k : Bytes) (key : E → Bytes) (some_key : is_empty k ≡ false) where
  -- What a history of calls keeps.
  pub record Ran (ops : List (Op E)) (h h' : Hub E) : Type 0 where
    pub single : Single k key h'
    pub fits : length (pending k h') ≤ sub_buf_size
    pub balance : pending k h ++ sent k key ops ≡ got k key ops h ++ pending k h'

  pub run-Ran :
      (ops : List (Op E)) (h : Hub E)
      → Single k key h
      → length (pending k h) ≤ sub_buf_size
      → AllAllowed k key ops h
      → Ran ops h (run ops h)
  unfolding sent got run
  run-Ran [] h v fits ok = record { single = v; fits = fits; balance = append-nil (pending k h) }
  run-Ran (op ∷ ops) h v fits ok =
      let step = apply-Kept k key some_key op h v fits ok.0 in
      let rest = run-Ran ops (apply op h) step.single step.fits ok.1 in
      record {
        single = rest.single;
        fits = rest.fits;
        balance =
            balance_step (pending k h) _ _ (got_by k key op h) _ (pending k (apply op h)) _
              step.balance rest.balance;
      }

  -- What a hub must be like for a consumer to take over the key's queue: at most one carries it,
  -- with no backlog left beside that one's channel, and at most a full buffer waits.
  abbrev pub Ready : Hub E → Type 0
  Ready h =
      (holders k h.subs ≤ 1)
      × ((holders k h.subs ≡ 0) ⊎ (backlog k h ≡ []))
      × (length (pending k h) ≤ sub_buf_size)

  pending-retained : (h : Hub E) → h.key_of ≡ some key → pending k (retain k h) ≡ pending k h
  unfolding retain pending backlog
  pending-retained h keyed = elim (Option-cases (lookup bytes_dec k h.retained)) [
    | inl none' ↦ ground (arith, keyed, none', lookup-insert bytes_dec k k [] h.retained)
    | inr (es, kept) ↦ ground (arith, keyed, kept)
  ]

  backlog-retained :
      (h : Hub E)
      → h.key_of ≡ some key
      → (backlog k (retain k h) ≡ backlog k h)
        × (is_some (lookup bytes_dec k (retain k h).retained) ≡ true)
        × ((retain k h).key_of ≡ h.key_of)
        × ((retain k h).next_id ≡ h.next_id)
        × ((retain k h).subs ≡ h.subs)
  unfolding retain backlog
  backlog-retained h keyed = elim (Option-cases (lookup bytes_dec k h.retained)) [
    | inl none' ↦ ground (arith, some_key, keyed, none', lookup-insert bytes_dec k k [] h.retained)
    | inr (es, kept) ↦ ground (arith, some_key, keyed, kept)
  ]

  retain-Single : (h : Hub E) → Reached key h → Ready h → Single k key (retain k h)
  retain-Single h r ready =
      let (logs, kept, keyed, ids, subs) = backlog-retained h r.keyed in
      record {
        keyed = keyed ∙ r.keyed;
        unique = rw (ids, subs) r.unique;
        one = rw subs ready.0;
        wide = rw subs r.wide;
        kept = kept;
        clear = ground (arith, ready.1, logs, subs);
      }

  retained-Ran :
      (before ops : List (Op E)) (observer : Option ℕ)
      → let h = run before (new_hub (some key) observer) in
        Ready h → AllAllowed k key ops (retain k h) → Ran ops (retain k h) (run ops (retain k h))
  retained-Ran before ops observer ready ok =
      let h = run before (new_hub (some key) observer) in
      let r = run-Reached key before observer in
      run-Ran ops (retain k h) (retain-Single h r ready) (rw (pending-retained h r.keyed) ready.2)
        ok

  -- From any Retain of a key on, after any history of calls on a new hub with a key function that
  -- leaves at most one consumer with the key, no backlog beside its channel and at most a full
  -- buffer (256) of the key's entries waiting: these entries, and then all that is published under
  -- the key, are exactly what its consumers receive, in order, followed by what still waits.
  -- Nothing is lost, doubled or reordered, however consumers of this key and of others come, read
  -- and go, if at most one consumer carries the key at a time, it is not released, it is not empty,
  -- and an entry of it comes only where less than a full buffer of them waits.
  pub sent-got :
      (before ops : List (Op E)) (observer : Option ℕ)
      → let h = run before (new_hub (some key) observer) in
        Ready h
        → AllAllowed k key ops (retain k h)
        → pending k h ++ sent k key ops
          ≡ got k key ops (retain k h) ++ pending k (run ops (retain k h))
  sent-got before ops observer ready ok =
      let h = run before (new_hub (some key) observer) in
      ap (λ es. es ++ sent k key ops)
        (sym (pending-retained h (run-Reached key before observer).keyed))
      ∙ (retained-Ran before ops observer ready ok).balance

  -- A new hub.
  new_hub-Ready : (observer : Option ℕ) → Ready (new_hub (some key) observer)
  unfolding new_hub holders pending waiting backlog lookup
  new_hub-Ready observer = (omega arith, inl refl, omega arith)

  pending-new_hub : (observer : Option ℕ) → pending k (new_hub (some key) observer) ≡ []
  unfolding new_hub pending waiting backlog lookup
  pending-new_hub observer = refl

  pub sent-got_new :
      (ops : List (Op E)) (observer : Option ℕ)
      → AllAllowed k key ops (retain k (new_hub (some key) observer))
      → let h = retain k (new_hub (some key) observer) in
        sent k key ops ≡ got k key ops h ++ pending k (run ops h)
  unfolding run
  sent-got_new ops observer ok =
      ap (λ es. es ++ sent k key ops) (sym (pending-new_hub observer))
      ∙ sent-got [] ops observer (new_hub-Ready observer) ok

  -- The hub after a history that begins with Retain.
  pub retain-Ran :
      (ops : List (Op E)) (observer : Option ℕ)
      → AllAllowed k key ops (retain k (new_hub (some key) observer))
      → let h = retain k (new_hub (some key) observer) in
        Single k key (run ops h) × (length (pending k (run ops h)) ≤ sub_buf_size)
  unfolding run
  retain-Ran ops observer ok =
      let ran = retained-Ran [] ops observer (new_hub-Ready observer) ok in (ran.single, ran.fits)
