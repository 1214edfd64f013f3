-- ===== src/LogBridge/Hub/Loop.antt =====
-- What Publish's loop over the subscribers does to those of one filter (logbridge/hub.go).
use contextmatrix_backendkit.Prelude.{
  ℕ, ◌<◌, ◌≡◌, ◌≢◌, refl, List, [], ◌∷◌, ◌++◌, Option, none, Bool, true, false, arith, Bytes,
  ℕ_discrete, length, length-append, append-nil, is_empty,
}
use contextmatrix_backendkit.Prelude.Assoc.{lookup}
use contextmatrix_backendkit.LogBridge.Hub.{
  Sub, sub_buf_size, matches, offer, attach, count_drop, publish_loop,
}
use contextmatrix_backendkit.LogBridge.Hub.Subs.{Unique, Wide, holders, waiting, waiting_none}

module _ {E : Type 0} (key : Bytes) (e : E) where
  -- The subscribers after the loop.
  abbrev pub reached : List (ℕ × Sub E) → Bool → Option ℕ → List (ℕ × Sub E)
  reached subs attached observer = (publish_loop true key e subs attached observer).0

  lookup-reached :
      (id : ℕ) (subs : List (ℕ × Sub E)) (attached : Bool) (observer : Option ℕ)
      → lookup ℕ_discrete id subs ≡ none
      → lookup ℕ_discrete id (reached subs attached observer) ≡ none
  unfolding lookup publish_loop
  lookup-reached id [] attached observer h = refl
  lookup-reached id ((i, s) ∷ subs) attached observer h =
      ground (
        arith,
        lookup-reached id subs (attach true key s attached) (count_drop true key s observer),
      )

  pub reached-Unique :
      (n : ℕ) (subs : List (ℕ × Sub E)) (attached : Bool) (observer : Option ℕ)
      → Unique n subs
      → Unique n (reached subs attached observer)
  unfolding publish_loop
  reached-Unique n [] attached observer u = tt
  reached-Unique n ((i, s) ∷ subs) attached observer u = (
    u.0,
    lookup-reached i subs (attach true key s attached) (count_drop true key s observer) u.1,
    reached-Unique n subs (attach true key s attached) (count_drop true key s observer) u.2,
  )

  pub reached-Wide :
      (subs : List (ℕ × Sub E)) (attached : Bool) (observer : Option ℕ)
      → Wide subs
      → Wide (reached subs attached observer)
  unfolding publish_loop offer
  reached-Wide [] attached observer w = tt
  reached-Wide ((i, s) ∷ subs) attached observer w = (
    ground arith,
    reached-Wide subs (attach true key s attached) (count_drop true key s observer) w.1,
  )

  pub holders-reached :
      (k : Bytes) (subs : List (ℕ × Sub E)) (attached : Bool) (observer : Option ℕ)
      → holders k (reached subs attached observer) ≡ holders k subs
  unfolding holders publish_loop offer
  holders-reached k [] attached observer = refl
  holders-reached k ((i, s) ∷ subs) attached observer =
      ground (
        arith,
        holders-reached k subs (attach true key s attached) (count_drop true key s observer),
      )

  -- The subscribers of another key see nothing of the entry.
  pub waiting-reached_ne :
      (k : Bytes) (subs : List (ℕ × Sub E)) (attached : Bool) (observer : Option ℕ)
      → is_empty k ≡ false
      → key ≢ k
      → waiting k (reached subs attached observer) ≡ waiting k subs
  unfolding waiting publish_loop offer matches
  waiting-reached_ne k [] attached observer some_key other = refl
  waiting-reached_ne k ((i, s) ∷ subs) attached observer some_key other = ground (
    arith,
    waiting-reached_ne k subs (attach true key s attached) (count_drop true key s observer),
  )

  -- The one subscriber of the entry's key gets it, if there is room.
  pub waiting-reached_self :
      (subs : List (ℕ × Sub E)) (attached : Bool) (observer : Option ℕ)
      → holders key subs ≡ 1
      → Wide subs
      → length (waiting key subs) < sub_buf_size
      → waiting key (reached subs attached observer) ≡ waiting key subs ++ e ∷ []
  unfolding waiting holders publish_loop offer matches
  waiting-reached_self [] attached observer one w room = absurd (omega arith)
  waiting-reached_self ((i, s) ∷ subs) attached observer one w room = ground (
    arith,
    waiting-reached_self subs (attach true key s attached) (count_drop true key s observer),
    holders-reached key subs (attach true key s attached) (count_drop true key s observer),
    waiting_none key subs,
    waiting_none key (reached subs (attach true key s attached) (count_drop true key s observer)),
    length-append s.queue (waiting key subs),
    append-nil s.queue,
    append-nil (s.queue ++ e ∷ []),
  )

  pub attached-none :
      (subs : List (ℕ × Sub E)) (attached : Bool) (observer : Option ℕ)
      → holders key subs ≡ 0
      → (publish_loop true key e subs attached observer).1 ≡ attached
  unfolding holders publish_loop matches attach
  attached-none [] attached observer h = refl
  attached-none ((i, s) ∷ subs) attached observer h =
      ground
        (arith, attached-none subs (attach true key s attached) (count_drop true key s observer))

  attached-true :
      (subs : List (ℕ × Sub E)) (observer : Option ℕ)
      → (publish_loop true key e subs true observer).1 ≡ true
  unfolding publish_loop attach
  attached-true [] observer = refl
  attached-true ((i, s) ∷ subs) observer = attached-true subs (count_drop true key s observer)

  pub attached-some :
      (subs : List (ℕ × Sub E)) (attached : Bool) (observer : Option ℕ)
      → is_empty key ≡ false
      → 0 < holders key subs
      → (publish_loop true key e subs attached observer).1 ≡ true
  unfolding holders publish_loop matches attach
  attached-some [] attached observer some_key h = absurd (omega arith)
  attached-some ((i, s) ∷ subs) attached observer some_key h = ground (
    arith,
    attached-some subs (attach true key s attached) (count_drop true key s observer),
    attached-true subs (count_drop true key s observer),
  )
