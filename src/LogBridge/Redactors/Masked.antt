-- ===== src/LogBridge/Redactors/Masked.antt =====
-- Which secrets the redactor in place is made of (logbridge/registry.go), seen from the history
-- of calls.
use contextmatrix_backendkit.Prelude.{
  ◌≡◌, refl, ap, sym, ◌∙◌, List, [], ◌∷◌, ◌++◌, none, Bool, true, false, arith, Bytes, bytes_dec,
  inl, inr, is_empty, if◌then◌else◌, Option-cases, Bool-cases, holds?, ◌||◌,
}
use contextmatrix_backendkit.Prelude.Assoc.{lookup, insert, delete, lookup-insert, lookup-delete}
use contextmatrix_backendkit.LogBridge.Redactors.{
  RedactorRegistry, all_keys, keys_of, rebuild, new_redactor_registry, add_session_key,
  remove_session_key,
}

pub data Op : Type 0 where
  adds : Bytes → Bytes → Op
  removes : Bytes → Op

-- Whether a string stands in a list.
unfoldable pub has_key : Bytes → List Bytes → Bool
has_key key [] = false
has_key key (k ∷ keys) = holds? (bytes_dec k key) || has_key key keys

-- The secrets of a session after a history: those added since it was last removed.
unfoldable pub added : List Op → Bytes → List Bytes → List Bytes
added [] id keys = keys
added (adds j key ∷ ops) id keys =
    let more = added ops id (keys ++ key ∷ []) in
    let same = added ops id keys in
    if is_empty key then same else (if holds? (bytes_dec j id) then more else same)
added (removes j ∷ ops) id keys =
    let fresh = added ops id [] in
    let same = added ops id keys in if holds? (bytes_dec j id) then fresh else same

-- Each session stands once.
abbrev Distinct : List (Bytes × List Bytes) → Type 0
Distinct [] = Unit {0}
Distinct ((id, keys) ∷ session) = (lookup bytes_dec id session ≡ none) × Distinct session

Distinct-insert :
    (id : Bytes) (keys : List Bytes) (session : List (Bytes × List Bytes))
    → Distinct session
    → Distinct (insert bytes_dec id keys session)
unfolding insert lookup
Distinct-insert id keys [] v = (refl, tt)
Distinct-insert id keys ((j, w) ∷ session) v =
    ground (arith, Distinct-insert id keys session v.1, lookup-insert bytes_dec id j keys session)

Distinct-delete :
    (id : Bytes) (session : List (Bytes × List Bytes))
    → Distinct session
    → Distinct (delete bytes_dec id session)
unfolding delete
Distinct-delete id [] v = tt
Distinct-delete id ((j, w) ∷ session) v =
    ground (arith, Distinct-delete id session v.1, lookup-delete bytes_dec id j session)

pub has_key-append :
    (key : Bytes) (xs ys : List Bytes) → has_key key (xs ++ ys) ≡ (has_key key xs || has_key key ys)
unfolding has_key
has_key-append key [] ys = refl
has_key-append key (k ∷ xs) ys = ground (arith, has_key-append key xs ys)

-- A key of some session is in the union.
pub has_key-all :
    (key id : Bytes) (session : List (Bytes × List Bytes))
    → has_key key (keys_of id session) ≡ true
    → has_key key (all_keys session) ≡ true
unfolding all_keys keys_of lookup has_key
has_key-all key id [] h = cc
has_key-all key id ((j, w) ∷ session) h =
    ground (arith, has_key-append key w (all_keys session), has_key-all key id session)

keys_of-other :
    (id j : Bytes) (w : List Bytes) (session : List (Bytes × List Bytes))
    → lookup bytes_dec j session ≡ none
    → (key : Bytes) → has_key key (keys_of id session) ≡ true
    → has_key key (keys_of id ((j, w) ∷ session)) ≡ true
unfolding keys_of lookup has_key
keys_of-other id j w session h key k = ground arith

keys_of-first :
    (key j : Bytes) (w : List Bytes) (session : List (Bytes × List Bytes))
    → has_key key w ≡ true
    → has_key key (keys_of j ((j, w) ∷ session)) ≡ true
unfolding keys_of lookup
keys_of-first key j w session h = ground arith

-- A key of the union is of some session.
has_key-some :
    (key : Bytes) (session : List (Bytes × List Bytes))
    → Distinct session
    → has_key key (all_keys session) ≡ true
    → (id : Bytes) × (has_key key (keys_of id session) ≡ true)
unfolding all_keys has_key
has_key-some key [] v h = absurd cc
has_key-some key ((j, w) ∷ session) v h = elim (Bool-cases (has_key key w)) [
  | inl here ↦ (j, keys_of-first key j w session here)
  | inr there ↦
      let (id, found) =
        has_key-some key session v.1 (ground (arith, has_key-append key w (all_keys session))) in
      (id, keys_of-other id j w session v.0 key found)
]

module _ {R : Type 0} (make : List Bytes → R) where
  unfoldable pub apply : Op → RedactorRegistry R → RedactorRegistry R
  apply (adds id key) r = add_session_key make id key r
  apply (removes id) r = remove_session_key make id r

  unfoldable pub run : List Op → RedactorRegistry R → RedactorRegistry R
  run [] r = r
  run (op ∷ ops) r = run ops (apply op r)

  abbrev pub Installed : RedactorRegistry R → Type 0
  Installed r =
      (r.redactor ≡ make (all_keys r.session)) × (r.bridge_redactor ≡ make (all_keys r.session))

  pub apply-Installed : (op : Op) (r : RedactorRegistry R) → Installed r → Installed (apply op r)
  unfolding apply add_session_key remove_session_key rebuild
  apply-Installed (adds id key) r v = ground (arith, v)
  apply-Installed (removes id) r v = elim (Option-cases (lookup bytes_dec id r.session)) [
    | inl e ↦ ground (arith, e, v)
    | inr (keys, e) ↦ ground (arith, e)
  ]

  pub run-Installed : (ops : List Op) (r : RedactorRegistry R) → Installed r → Installed (run ops r)
  unfolding run
  run-Installed [] r v = v
  run-Installed (op ∷ ops) r v = run-Installed ops (apply op r) (apply-Installed op r v)

  keys_of-add :
      (j key id : Bytes) (r : RedactorRegistry R)
      → is_empty key ≡ false
      → keys_of id (add_session_key make j key r).session ≡ (
          if holds? (bytes_dec j id)
          then keys_of id r.session ++ key ∷ []
          else keys_of id r.session)
  unfolding keys_of add_session_key rebuild
  keys_of-add j key id r some' =
      ground (arith, lookup-insert bytes_dec j id (keys_of j r.session ++ key ∷ []) r.session)

  keys_of-remove :
      (j id : Bytes) (r : RedactorRegistry R)
      → keys_of id (remove_session_key make j r).session
        ≡ (if holds? (bytes_dec j id) then [] else keys_of id r.session)
  unfolding keys_of remove_session_key rebuild
  keys_of-remove j id r = elim (Option-cases (lookup bytes_dec j r.session)) [
    | inl e ↦ ground (arith, e)
    | inr (keys, e) ↦ ground (arith, e, lookup-delete bytes_dec j id r.session)
  ]

  pub keys_of-run :
      (ops : List Op) (id : Bytes) (r : RedactorRegistry R)
      → keys_of id (run ops r).session ≡ added ops id (keys_of id r.session)
  unfolding run added apply add_session_key
  keys_of-run [] id r = refl
  keys_of-run (adds j key ∷ ops) id r =
      ground (arith, keys_of-run ops id (add_session_key make j key r), keys_of-add j key id r)
  keys_of-run (removes j ∷ ops) id r =
      ground (arith, keys_of-run ops id (remove_session_key make j r), keys_of-remove j id r)

  apply-Distinct :
      (op : Op) (r : RedactorRegistry R) → Distinct r.session → Distinct (apply op r).session
  unfolding apply add_session_key remove_session_key rebuild
  apply-Distinct (adds id key) r v =
      ground (arith, Distinct-insert id (keys_of id r.session ++ key ∷ []) r.session v)
  apply-Distinct (removes id) r v = elim (Option-cases (lookup bytes_dec id r.session)) [
    | inl e ↦ ground (arith, e, v)
    | inr (keys, e) ↦ ground (arith, e, Distinct-delete id r.session v)
  ]

  run-Distinct :
      (ops : List Op) (r : RedactorRegistry R) → Distinct r.session → Distinct (run ops r).session
  unfolding run
  run-Distinct [] r v = v
  run-Distinct (op ∷ ops) r v = run-Distinct ops (apply op r) (apply-Distinct op r v)

  pub record Masked (ops : List Op) (r : RedactorRegistry R) : Type 0 where
    keys : List Bytes
    registry : r.redactor ≡ make keys
    bridge : r.bridge_redactor ≡ make keys
    live : (id key : Bytes) → has_key key (added ops id []) ≡ true → has_key key keys ≡ true
    only :
        (key : Bytes)
        → has_key key keys ≡ true
        → (id : Bytes) × (has_key key (added ops id []) ≡ true)

  -- After any history of AddSessionKey and RemoveSessionKey, the registry and the bridge have the
  -- same redactor, and it is made of exactly the secrets that sessions added since they were last
  -- removed: none is missing, no other is left, and no session's calls touch another's secrets.
  pub run-Masked : (ops : List Op) → Masked ops (run ops (new_redactor_registry make))
  unfolding new_redactor_registry rebuild keys_of lookup
  run-Masked ops =
      let r = run ops (new_redactor_registry make) in
      let installed = run-Installed ops (new_redactor_registry make) (refl, refl) in
      let distinct = run-Distinct ops (new_redactor_registry make) tt in
      let history = λ (id : Bytes). keys_of-run ops id (new_redactor_registry make) in
      record {
        keys = all_keys r.session;
        registry = installed.0;
        bridge = installed.1;
        live = λ id key h. has_key-all key id r.session (ap (has_key key) (history id) ∙ h);
        only = λ key h.
            let (id, found) = has_key-some key r.session distinct h in
            (id, sym (ap (has_key key) (history id)) ∙ found);
      }
