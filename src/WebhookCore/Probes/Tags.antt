-- ===== src/WebhookCore/Probes/Tags.antt =====
-- Which tags matchingTags keeps (webhookcore/helpers.go).
use contextmatrix_backendkit.Prelude.{
  ◌≡◌, ap, List, [], ◌∷◌, ◌++◌, Any, true, false, arith, Bytes, inl, inr, Bool-cases, Option-cases,
  sym, subst, ◌∙◌,
}
use contextmatrix_backendkit.GoStrings.{
  cut_prefix, has_prefix, contains, cut_prefix-some, cut_prefix-append,
}
use contextmatrix_backendkit.WebhookCore.Probes.{matches_any, matching_tags}

-- `sub` stands somewhere in `s`.
abbrev pub Contains : Bytes → Bytes → Type 0
Contains s sub = (a : Bytes) × (b : Bytes) × (s ≡ a ++ (sub ++ b))

has_prefix-some : (s sub : Bytes) → has_prefix s sub ≡ true → (b : Bytes) × (s ≡ sub ++ b)
unfolding has_prefix
has_prefix-some s sub h = elim (Option-cases (cut_prefix s sub)) [
  | inl e ↦ absurd (ground (arith, e))
  | inr (b, e) ↦ (b, cut_prefix-some s sub b e)
]

has_prefix-append : (sub b : Bytes) → has_prefix (sub ++ b) sub ≡ true
unfolding has_prefix
has_prefix-append sub b = ground (arith, cut_prefix-append sub b)

contains-Contains : (s sub : Bytes) → contains s sub ≡ true → Contains s sub
unfolding contains
contains-Contains [] sub h = let (b, e) = has_prefix-some [] sub h in ([], b, e)
contains-Contains (c ∷ s) sub h = elim (Bool-cases (has_prefix (c ∷ s) sub)) [
  | inl here ↦ let (b, e) = has_prefix-some (c ∷ s) sub here in ([], b, e)
  | inr later ↦
      let (a, b, e) = contains-Contains s sub (ground (arith, later)) in (c ∷ a, b, ap (◌∷◌ c) e)
]

contains_prefix : (s sub : Bytes) → has_prefix s sub ≡ true → contains s sub ≡ true
unfolding contains
contains_prefix [] sub h = h
contains_prefix (c ∷ s) sub h = ground (arith, h)

contains-append : (a sub b : Bytes) → contains (a ++ (sub ++ b)) sub ≡ true
unfolding contains
contains-append [] sub b = contains_prefix (sub ++ b) sub (has_prefix-append sub b)
contains-append (c ∷ a) sub b = ground (arith, contains-append a sub b)

-- Some filter stands in the tag.
abbrev pub Shown : List Bytes → Bytes → Type 0
Shown filters tag = Any (λ f. Contains tag f) filters

pub matches_any-Shown :
    (tag : Bytes) (filters : List Bytes) → matches_any tag filters ≡ true → Shown filters tag
unfolding matches_any
matches_any-Shown tag [] h = cc
matches_any-Shown tag (f ∷ filters) h = elim (Bool-cases (contains tag f)) [
  | inl here ↦ inl (contains-Contains tag f here)
  | inr later ↦ inr (matches_any-Shown tag filters (ground (arith, later)))
]

pub Shown-matches_any :
    (tag : Bytes) (filters : List Bytes) → Shown filters tag → matches_any tag filters ≡ true
unfolding matches_any
Shown-matches_any tag [] h = absurd h
Shown-matches_any tag (f ∷ filters) (inl (a, b, e)) = ground (arith, e, contains-append a f b)
Shown-matches_any tag (f ∷ filters) (inr h) = ground (arith, Shown-matches_any tag filters h)

-- A tag is in a list.
abbrev pub Has : Bytes → List Bytes → Type 0
Has tag tags = Any (λ t. t ≡ tag) tags

matching_tags-shown :
    (t : Bytes) (tags filters : List Bytes)
    → matches_any t filters ≡ true
    → matching_tags (t ∷ tags) filters ≡ t ∷ matching_tags tags filters
unfolding matching_tags
matching_tags-shown t tags filters h = ground (arith, h)

matching_tags-hidden :
    (t : Bytes) (tags filters : List Bytes)
    → matches_any t filters ≡ false
    → matching_tags (t ∷ tags) filters ≡ matching_tags tags filters
unfolding matching_tags
matching_tags-hidden t tags filters h = ground (arith, h)

Has-first :
    (tag t : Bytes) (tags rest filters : List Bytes)
    → matches_any t filters ≡ true
    → (Has tag rest → Has tag tags × (matches_any tag filters ≡ true))
    → Has tag (t ∷ rest)
    → Has tag (t ∷ tags) × (matches_any tag filters ≡ true)
Has-first tag t tags rest filters h more (inl same) =
    (inl same, sym (ap (λ x. matches_any x filters) same) ∙ h)
Has-first tag t tags rest filters h more (inr later) = let (p, q) = more later in (inr p, q)

pub Has-matching_tags :
    (tag : Bytes) (tags filters : List Bytes)
    → Has tag (matching_tags tags filters)
    → Has tag tags × (matches_any tag filters ≡ true)
unfolding matching_tags
Has-matching_tags tag [] filters h = absurd h
Has-matching_tags tag (t ∷ tags) filters h = elim (Bool-cases (matches_any t filters)) [
  | inl shown ↦
      Has-first tag t tags (matching_tags tags filters) filters shown
        (Has-matching_tags tag tags filters)
        (subst (Has tag) (matching_tags-shown t tags filters shown) h)
  | inr hidden ↦
      let (p, q) =
        Has-matching_tags tag tags filters
          (subst (Has tag) (matching_tags-hidden t tags filters hidden) h) in
      (inr p, q)
]

pub matching_tags-Has :
    (tag : Bytes) (tags filters : List Bytes)
    → Has tag tags
    → matches_any tag filters ≡ true
    → Has tag (matching_tags tags filters)
unfolding matching_tags
matching_tags-Has tag [] filters h m = absurd h
matching_tags-Has tag (t ∷ tags) filters (inl same) m = ground (arith, same, m)
matching_tags-Has tag (t ∷ tags) filters (inr later) m =
    ground (arith, matching_tags-Has tag tags filters later m)
