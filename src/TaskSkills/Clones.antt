-- ===== src/TaskSkills/Clones.antt =====
-- Which clones a resolver makes (taskskills/resolver.go), over any history of calls.
use contextmatrix_backendkit.Prelude.{
  ℕ, suc, ◌≡◌, refl, List, [], ◌∷◌, true, false, arith, Bytes, bytes, is_empty, if◌then◌else◌, inl,
  inr, ◌⊎◌, some, Option-cases, Bool-cases,
}
use contextmatrix_backendkit.GoStrings.{has_prefix}
use contextmatrix_backendkit.TaskSkills.{
  Source, Clone, Resolver, World, dash, new_resolver, clone_source, check_source, resolve,
}

-- The arguments of a clone that git cannot take for a flag, and that carry a token.
abbrev pub Harmless : Clone → Type 0
Harmless c =
    (is_empty c.git_url ≡ false)
    × (has_prefix c.git_url dash ≡ false)
    × (has_prefix c.ref dash ≡ false)
    × (is_empty c.token ≡ false)

abbrev pub AllHarmless : List Clone → Type 0
AllHarmless [] = Unit {0}
AllHarmless (c ∷ clones) = Harmless c × AllHarmless clones

-- How many clones succeeded.
unfoldable pub count_done : List Clone → ℕ
count_done [] = 0
count_done (c ∷ clones) = let rest = count_done clones in if c.done then suc rest else rest

module _ (join : Bytes → Bytes → Bytes) where
  unfoldable pub run : List World → Resolver → Resolver
  run [] r = r
  run (w ∷ worlds) r = run worlds (resolve join w r).0

  -- The call of the cloner for a pointer.
  abbrev pub call_of : World → Source → Resolver → Clone
  call_of w p r = record {
    git_url = p.git_remote_url;
    ref = p.ref;
    dest = join r.cache_dir (bytes "task-skills");
    token = p.token;
    commands = (w.cloner p.git_remote_url p.ref (join r.cache_dir (bytes "task-skills")) p.token).0;
    done = (w.cloner p.git_remote_url p.ref (join r.cache_dir (bytes "task-skills")) p.token).1;
  }

  clone_source-clones :
      (w : World) (p : Source) (r : Resolver)
      → (clone_source join w p r).0.clones ≡ call_of w p r ∷ r.clones
  unfolding clone_source
  clone_source-clones w p r = elim (Bool-cases (call_of w p r).done) [
    | inl e ↦ ground (arith, e)
    | inr e ↦ ground (arith, e)
  ]

  check_source-clones :
      (w : World) (p : Source) (r : Resolver)
      → ((check_source join w p r).0.clones ≡ r.clones)
        ⊎ (Harmless (call_of w p r)
            × ((check_source join w p r).0.clones ≡ call_of w p r ∷ r.clones))
  unfolding check_source
  check_source-clones w p r = ground (arith, clone_source-clones w p r)

  -- A call of Resolve makes at most one call of the cloner, a harmless one.
  pub resolve-clones :
      (w : World) (r : Resolver)
      → ((resolve join w r).0.clones ≡ r.clones)
        ⊎ ((p : Source) × (w.pointer ≡ some p)
            × Harmless (call_of w p r)
            × ((resolve join w r).0.clones ≡ call_of w p r ∷ r.clones))
  unfolding resolve
  resolve-clones w r = elim (Option-cases w.pointer) [
    | inl e ↦ inl (ground (arith, e))
    | inr (p, e) ↦ elim (check_source-clones w p r) [
      | inl same ↦ inl (ground (arith, e, same))
      | inr (harmless, called) ↦ elim (Bool-cases (is_empty r.resolved)) [
        | inl fresh ↦ inr (p, e, harmless, ground (arith, e, fresh, called))
        | inr cached ↦ inl (ground (arith, cached))
      ]
    ]
  ]

  -- Every clone was harmless; one succeeded if a directory is cached, and none if not.
  pub record Sound (r : Resolver) : Type 0 where
    harmless : AllHarmless r.clones
    once : count_done r.clones ≡ (if is_empty r.resolved then 0 else 1)

  module _ (named : (dir : Bytes) → is_empty (join dir (bytes "task-skills")) ≡ false) where
    check_source-Sound :
        (w : World) (p : Source) (r : Resolver)
        → is_empty r.resolved ≡ true
        → Sound r
        → Sound (check_source join w p r).0
    unfolding check_source clone_source count_done
    check_source-Sound w p r none' sound = record {
      harmless = ground (arith, sound.harmless);
      once = ground (arith, sound.once, named r.cache_dir);
    }

    resolve-Sound : (w : World) (r : Resolver) → Sound r → Sound (resolve join w r).0
    unfolding resolve
    resolve-Sound w r sound = elim (Option-cases w.pointer) [
      | inl e ↦ record {
        harmless = ground (arith, e, sound.harmless);
        once = ground (arith, e, sound.once);
      }
      | inr (p, e) ↦ elim (Bool-cases (is_empty r.resolved)) [
        | inl none' ↦
            let next = check_source-Sound w p r none' sound in
            record {
              harmless = ground (arith, e, none', next.harmless);
              once = ground (arith, e, none', next.once);
            }
        | inr some' ↦ record {
          harmless = ground (arith, some', sound.harmless);
          once = ground (arith, some', sound.once);
        }
      ]
    ]

    run-from : (worlds : List World) (r : Resolver) → Sound r → Sound (run worlds r)
    unfolding run
    run-from [] r sound = sound
    run-from (w ∷ worlds) r sound = run-from worlds (resolve join w r).0 (resolve-Sound w r sound)

    -- Over any history of calls, however the fetch, the removal and the cloner fail in between,
    -- the cloner succeeds at most once, and exactly then a directory is cached, so that failures
    -- are not; and each call of it has a URL, a token, and no URL or ref that git takes for a
    -- flag; if a path joined with a name is not empty.
    pub run-Sound :
        (cm_url api_key cache_dir endpoint_path : Bytes) (worlds : List World)
        → Sound (run worlds (new_resolver cm_url api_key cache_dir endpoint_path))
    unfolding count_done new_resolver
    run-Sound cm_url api_key cache_dir endpoint_path worlds =
        run-from worlds (new_resolver cm_url api_key cache_dir endpoint_path)
          (record { harmless = tt; once = refl })
