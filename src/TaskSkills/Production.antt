-- ===== src/TaskSkills/Production.antt =====
-- The resolver with its own fetch and its own cloner (taskskills/resolver.go, taskskills/auth.go).
use contextmatrix_backendkit.Prelude.{
  ◌≡◌, ◌≤◌, ◌<◌, refl, sym, List, [], ◌∷◌, ◌++◌, All, Any, Option, none, some, Bool, arith, Bytes,
  bytes, inl, inr, ◌⊎◌, Option-cases, take, subst,
}
use contextmatrix_backendkit.TaskSkills.{
  Source, Command, Clone, Resolver, World, new_resolver, clone_source, check_source, resolve,
}
use contextmatrix_backendkit.TaskSkills.Clones.{Harmless, call_of, resolve-clones}
use contextmatrix_backendkit.TaskSkills.Fetch.{
  Target, SignedGet, Response, request_uri_of, pointer_get, read_pointer, fetch_pointer,
}
use contextmatrix_backendkit.TaskSkills.Git.{git_clone}
use contextmatrix_backendkit.TaskSkills.Git.Commands.{
  Unflagged, Cloned, git_clone-Cloned, git_clone-Unflagged,
}

All-map :
    {A : Type 0} (P Q : A → Type 0) (f : (a : A) → P a → Q a) (xs : List A) → All P xs → All Q xs
All-map P Q f [] h = tt
All-map P Q f (x ∷ xs) h = (f x h.0, All-map P Q f xs h.1)

All-self : {A : Type 0} (xs : List A) → All (λ x. Any (λ y. y ≡ x) xs) xs
All-self [] = tt
All-self (x ∷ xs) = (
  inl refl,
  All-map (λ z. Any (λ y. y ≡ z) xs) (λ z. Any (λ y. y ≡ z) (x ∷ xs)) (λ z h. inr h) xs
      (All-self xs),
)

-- What lies outside one call of Resolve.
pub record Outside : Type 0 where
  pub exchange : SignedGet → Option Response
  pub removed : Bool
  pub made : Bool
  pub exec : Command → Bool

abbrev pub found {ℓ} : {A B : Type ℓ} → A ⊎ B → Option B
found (inl a) = none
found (inr b) = some b

read_pointer-inr :
    (unmarshal : Bytes → Option Source) (resp : Response) (p : Source)
    → found (read_pointer unmarshal resp) ≡ some p
    → (200 ≤ resp.status_code)
      × (resp.status_code < 300)
      × (unmarshal (take 1_048_576 resp.body) ≡ some p)
unfolding read_pointer
read_pointer-inr unmarshal resp p h = elim (Option-cases (unmarshal (take 1_048_576 resp.body))) [
  | inl e ↦ ground (arith, e)
  | inr (q, e) ↦ ground (arith, e)
]

module _ (parse : Bytes → Option Target) (sign : Bytes → Bytes → Bytes × Bytes)
    (unmarshal : Bytes → Option Source) (environ : List Bytes) (join : Bytes → Bytes → Bytes) where
  -- The world of a call, where the cloner is gitClone.
  abbrev pub world_of : Outside → Resolver → World
  world_of o r = record {
    pointer = found (fetch_pointer parse sign o.exchange unmarshal r);
    removed = o.removed;
    cloner = git_clone o.exec environ o.made;
  }

  unfoldable pub run_production : List Outside → Resolver → Resolver
  run_production [] r = r
  run_production (o ∷ outs) r = run_production outs (resolve join (world_of o r) r).0

  -- What a resolver was made from.
  abbrev base : Resolver → Resolver
  base r = record r { resolved = []; clones = [] }

  -- A response from which a pointer was read, to the signed request.
  pub record Answered (exchange : SignedGet → Option Response) (r : Resolver) (p : Source)
      : Type 0 where
    uri : Bytes
    resp : Response
    asked : request_uri_of parse (r.cm_url ++ r.endpoint_path) ≡ some uri
    got : exchange (pointer_get sign r uri) ≡ some resp
    not_less : 200 ≤ resp.status_code
    less : resp.status_code < 300
    read : unmarshal (take 1_048_576 resp.body) ≡ some p

  fetch_pointer-Answered :
      (exchange : SignedGet → Option Response) (r : Resolver) (p : Source)
      → found (fetch_pointer parse sign exchange unmarshal r) ≡ some p
      → Answered exchange (base r) p
  unfolding fetch_pointer
  fetch_pointer-Answered exchange r p h =
      elim (Option-cases (request_uri_of parse (r.cm_url ++ r.endpoint_path))) [
        | inl e ↦ absurd (ground (arith, e))
        | inr (uri, e) ↦ elim (Option-cases (exchange (pointer_get sign r uri))) [
          | inl none' ↦ absurd (ground (arith, e, none'))
          | inr (resp, got) ↦
              let seen : found (read_pointer unmarshal resp) ≡ some p = ground (arith, e, got) in
              let (low, high, read) = read_pointer-inr unmarshal resp p seen in
              record {
                uri = uri;
                resp = resp;
                asked = e;
                got = got;
                not_less = low;
                less = high;
                read = read;
              }
        ]
      ]

  -- How a clone came about, and what it ran.
  pub record Guarded (InPlace : Outside → Type 0) (start : Resolver) (c : Clone) : Type 0 where
    pub outside : Outside
    pub in_place : InPlace outside
    pub source : Source
    pub answered : Answered outside.exchange start source
    pub url : c.git_url ≡ source.git_remote_url
    pub ref : c.ref ≡ source.ref
    pub token : c.token ≡ source.token
    pub dest : c.dest ≡ join start.cache_dir (bytes "task-skills")
    pub unflagged : All Unflagged c.commands
    pub cloned : Cloned outside.exec environ c.git_url c.ref c.dest c.token c.commands c.done

  call-Guarded :
      (InPlace : Outside → Type 0) (o : Outside) (r : Resolver) (p : Source)
      → InPlace o
      → (world_of o r).pointer ≡ some p
      → Harmless (call_of join (world_of o r) p r)
      → Guarded InPlace (base r) (call_of join (world_of o r) p r)
  call-Guarded InPlace o r p place e h = record {
    outside = o;
    in_place = place;
    source = p;
    answered = fetch_pointer-Answered o.exchange r p e;
    url = refl;
    ref = refl;
    token = refl;
    dest = refl;
    unflagged = git_clone-Unflagged o.exec environ o.made p.git_remote_url p.ref _ p.token h.1 h.2;
    cloned = git_clone-Cloned o.exec environ o.made p.git_remote_url p.ref _ p.token;
  }

  base-resolve : (w : World) (r : Resolver) → base (resolve join w r).0 ≡ base r
  unfolding resolve check_source clone_source
  base-resolve w r = elim (Option-cases w.pointer) [
    | inl e ↦ ground (arith, e)
    | inr (p, e) ↦ ground (arith, e)
  ]

  run_production-from :
      (InPlace : Outside → Type 0) (outs : List Outside) (r : Resolver)
      → All InPlace outs
      → All (Guarded InPlace (base r)) r.clones
      → All (Guarded InPlace (base r)) (run_production outs r).clones
  unfolding run_production
  run_production-from InPlace [] r places h = h
  run_production-from InPlace (o ∷ outs) r places h =
      let next = (resolve join (world_of o r) r).0 in
      let same = base-resolve (world_of o r) r in
      let kept : All (Guarded InPlace (base r)) next.clones =
        elim (resolve-clones join (world_of o r) r) [
          | inl e ↦ subst (All (Guarded InPlace (base r))) (sym e) h
          | inr (p, e, harmless, called) ↦
              subst (All (Guarded InPlace (base r))) (sym called)
                (call-Guarded InPlace o r p places.0 e harmless, h)
        ] in
      subst (λ b. All (Guarded InPlace b) (run_production outs next).clones) same
        (run_production-from InPlace outs next places.1
          (subst (λ b. All (Guarded InPlace b) next.clones) (sym same) kept))

  -- Over any history of calls of Resolve, each clone was made, in one of them, for a pointer that
  -- was read from a 2xx answer to a signed request of the endpoint's URI, into the cache
  -- directory's task-skills. It ran no command, or the four git steps for that pointer's URL and
  -- ref, one after the other up to the first that failed, with an environment of its token, and
  -- succeeded exactly if all did; and no argument of a command begins with a dash but the code's
  -- own -q, --depth and --.
  pub run_production-Guarded :
      (cm_url api_key cache_dir endpoint_path : Bytes) (outs : List Outside)
      → let start = new_resolver cm_url api_key cache_dir endpoint_path in
        All (Guarded (λ o. Any (λ o'. o' ≡ o) outs) start) (run_production outs start).clones
  unfolding new_resolver
  run_production-Guarded cm_url api_key cache_dir endpoint_path outs =
      run_production-from (λ o. Any (λ o'. o' ≡ o) outs) outs
        (new_resolver cm_url api_key cache_dir endpoint_path) (All-self outs) tt
