-- ===== src/LlmProxy/Registry/Live.antt =====
-- Which tokens authenticate (llmproxy/registry.go), seen from the history of calls.
use contextmatrix_backendkit.Prelude.{
  ◌≡◌, ◌≢◌, refl, ap, ◌∙◌, List, [], ◌∷◌, Option, none, some, ◌⊎◌, inl, inr, arith, Bytes,
  bytes_dec, if◌then◌else◌, ite, Option-cases,
}
use contextmatrix_backendkit.Prelude.Assoc.{lookup, insert, delete, lookup-insert, lookup-delete}
use contextmatrix_backendkit.GoStrings.{str_eq}
use contextmatrix_backendkit.LlmProxy.{Url}
use contextmatrix_backendkit.LlmProxy.Registry.{
  LlmEndpoint, Entry, Registry, new_registry, lookup_loop, lookup_token, revoke, new_entry,
  register,
}

pub data Op : Type 0 where
  registers : Bytes → LlmEndpoint → Option Bytes → Op
  revokes : Bytes → Op

-- Each entry stands once, under its own run.
abbrev pub Keyed : List (Bytes × Entry) → Type 0
Keyed [] = Unit {0}
Keyed ((k, e) ∷ runs) = (e.run_key ≡ k) × (lookup bytes_dec k runs ≡ none) × Keyed runs

Keyed-insert :
    (k : Bytes) (e : Entry) (runs : List (Bytes × Entry))
    → Keyed runs
    → e.run_key ≡ k
    → Keyed (insert bytes_dec k e runs)
unfolding lookup insert
Keyed-insert k e [] v own = (own, refl, tt)
Keyed-insert k e ((j, d) ∷ runs) v own =
    ground (arith, Keyed-insert k e runs v.2 own, lookup-insert bytes_dec k j e runs)

Keyed-delete :
    (k : Bytes) (runs : List (Bytes × Entry)) → Keyed runs → Keyed (delete bytes_dec k runs)
unfolding delete
Keyed-delete k [] v = tt
Keyed-delete k ((j, d) ∷ runs) v =
    ground (arith, Keyed-delete k runs v.2, lookup-delete bytes_dec k j runs)

-- What the loop finds: it was there before, or a run holds it.
lookup_loop_sound :
    (token : Bytes) (runs : List (Bytes × Entry)) (found : Option Entry) (e : Entry)
    → Keyed runs
    → lookup_loop token runs found ≡ some e
    → (found ≡ some e) ⊎ ((lookup bytes_dec e.run_key runs ≡ some e) × (e.token ≡ token))
unfolding lookup_loop lookup
lookup_loop_sound token [] found e v h = inl h
lookup_loop_sound token ((k, d) ∷ runs) found e v h =
    ground
      (arith, lookup_loop_sound token runs (if str_eq d.token token then some d else found) e v.2 h)

lookup_loop-some :
    (token : Bytes) (runs : List (Bytes × Entry)) (e : Entry)
    → lookup_loop token runs (some e) ≢ none
unfolding lookup_loop
lookup_loop-some token [] e h = cc
lookup_loop-some token ((k, d) ∷ runs) e h =
    ground (arith, lookup_loop-some token runs e, lookup_loop-some token runs d)

-- A token that some run holds is found.
lookup_loop_found :
    (token k : Bytes) (runs : List (Bytes × Entry)) (found : Option Entry) (e : Entry)
    → lookup bytes_dec k runs ≡ some e
    → e.token ≡ token
    → lookup_loop token runs found ≢ none
unfolding lookup_loop lookup
lookup_loop_found token k [] found e h same miss = cc
lookup_loop_found token k ((j, d) ∷ runs) found e h same miss = ground (
  arith,
  lookup_loop-some token runs d,
  lookup_loop_found token k runs (if str_eq d.token token then some d else found) e,
)

module _ (parse : Bytes → Option Url) where
  unfoldable pub apply : Op → Registry → Registry
  apply (registers k up raw) r = (register parse k up raw r).0
  apply (revokes k) r = revoke k r

  unfoldable pub run : List Op → Registry → Registry
  run [] r = r
  run (op ∷ ops) r = run ops (apply op r)

  -- The entry of the run `k` after a call, if `before` was its entry.
  unfoldable pub after : Op → Bytes → Option Entry → Option Entry
  after (registers j up raw) k before = elim (new_entry parse j up raw) [
    | none ↦ before
    | some e ↦ ite (bytes_dec j k) (some e) before
  ]
  after (revokes j) k before = ite (bytes_dec j k) none before

  -- The entry of the run `k` after a history: that of its last successful Register, if no Revoke
  -- of it came since.
  unfoldable pub live : List Op → Bytes → Option Entry → Option Entry
  live [] k before = before
  live (op ∷ ops) k before = live ops k (after op k before)

  lookup-apply :
      (op : Op) (k : Bytes) (r : Registry)
      → lookup bytes_dec k (apply op r).runs ≡ after op k (lookup bytes_dec k r.runs)
  unfolding apply after register revoke
  lookup-apply (registers j up raw) k r = elim (Option-cases (new_entry parse j up raw)) [
    | inl e ↦ ground (arith, e)
    | inr (d, e) ↦ ground (arith, e, lookup-insert bytes_dec j k d r.runs)
  ]
  lookup-apply (revokes j) k r = lookup-delete bytes_dec j k r.runs

  lookup-run :
      (ops : List Op) (k : Bytes) (r : Registry)
      → lookup bytes_dec k (run ops r).runs ≡ live ops k (lookup bytes_dec k r.runs)
  unfolding run live
  lookup-run [] k r = refl
  lookup-run (op ∷ ops) k r = lookup-run ops k (apply op r) ∙ ap (live ops k) (lookup-apply op k r)

  new_entry-run_key :
      (k : Bytes) (up : LlmEndpoint) (raw : Option Bytes) (e : Entry)
      → new_entry parse k up raw ≡ some e
      → e.run_key ≡ k
  unfolding new_entry
  new_entry-run_key k up none e h = cc
  new_entry-run_key k up (some raw) e h = ground arith

  apply-Keyed : (op : Op) (r : Registry) → Keyed r.runs → Keyed (apply op r).runs
  unfolding apply register revoke
  apply-Keyed (registers k up raw) r v = elim (Option-cases (new_entry parse k up raw)) [
    | inl e ↦ ground (arith, e, v)
    | inr (d, e) ↦ ground (arith, e, Keyed-insert k d r.runs v (new_entry-run_key k up raw d e))
  ]
  apply-Keyed (revokes k) r v = Keyed-delete k r.runs v

  run-Keyed : (ops : List Op) (r : Registry) → Keyed r.runs → Keyed (run ops r).runs
  unfolding run
  run-Keyed [] r v = v
  run-Keyed (op ∷ ops) r v = run-Keyed ops (apply op r) (apply-Keyed op r v)

  -- A token authenticates only as a live run, the one that it was made for.
  pub lookup_token-live :
      (ops : List Op) (token : Bytes) (e : Entry)
      → lookup_token token (run ops new_registry) ≡ some e
      → (live ops e.run_key none ≡ some e) × (e.token ≡ token)
  unfolding lookup_token lookup
  lookup_token-live ops token e h = ground (
    arith,
    lookup_loop_sound token (run ops new_registry).runs none e (run-Keyed ops new_registry tt) h,
    lookup-run ops e.run_key new_registry,
  )

  -- The token of a live run authenticates, as that run if no other live run has the same token.
  pub live-lookup_token :
      (ops : List Op) (k : Bytes) (e : Entry)
      → live ops k none ≡ some e
      → ((j : Bytes) (d : Entry) → live ops j none ≡ some d → d.token ≡ e.token → j ≡ k)
      → lookup_token e.token (run ops new_registry) ≡ some e
  unfolding lookup_token lookup
  live-lookup_token ops k e h alone =
      let r = run ops new_registry in
      elim (Option-cases (lookup_token e.token r)) [
        | inl miss ↦ absurd (
            lookup_loop_found e.token k r.runs none e (lookup-run ops k new_registry ∙ h) refl miss)
        | inr (d, hit) ↦
            let held = lookup_token-live ops e.token d hit in
            let same = alone d.run_key d held.0 held.1 in cc
      ]
