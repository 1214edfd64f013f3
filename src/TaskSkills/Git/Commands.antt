-- ===== src/TaskSkills/Git/Commands.antt =====
-- The git commands of gitClone (taskskills/resolver.go).
use contextmatrix_backendkit.Prelude.{
  ◌≡◌, refl, List, [], ◌∷◌, All, Any, Bool, true, false, Bytes, bytes, inl, inr, ◌⊎◌, Bool-cases,
  ℕ_discrete,
}
use contextmatrix_backendkit.GoStrings.{has_prefix, cut_prefix}
use contextmatrix_backendkit.TaskSkills.{Command, dash}
use contextmatrix_backendkit.TaskSkills.Git.{
  git_auth_env, fetch_ref, git_steps, run_steps, git_clone,
}

-- Commands run one after the other, up to the first that fails.
pub data Executed (exec : Command → Bool) : List Command → List Command → Bool → Type 0 where
  all_done : Executed exec [] [] true
  stops : (c : Command) (cs : List Command) → exec c ≡ false → Executed exec (c ∷ cs) (c ∷ []) false
  goes_on :
      (c : Command) (cs ds : List Command) (ok : Bool)
      → exec c ≡ true
      → Executed exec cs ds ok
      → Executed exec (c ∷ cs) (c ∷ ds) ok

-- An argument that git can take for a flag, and that the code wrote itself.
abbrev pub IsFlag : Bytes → Type 0
IsFlag a = Any (λ f. a ≡ f) (bytes "-q" ∷ bytes "--depth" ∷ bytes "--" ∷ [])

abbrev pub Unflagged : Command → Type 0
Unflagged c = All (λ a. (has_prefix a dash ≡ false) ⊎ IsFlag a) c.args

abbrev pub planned : Bytes → List Bytes → List (List Bytes) → List Command
planned dir env [] = []
planned dir env (args ∷ steps) =
    record { args = args; dir = dir; env = env } ∷ planned dir env steps

run_steps-Executed :
    (exec : Command → Bool) (dir : Bytes) (env : List Bytes) (steps : List (List Bytes))
    → Executed exec
        (planned dir env steps)
        (run_steps exec dir env steps).0
        (run_steps exec dir env steps).1
unfolding run_steps
run_steps-Executed exec dir env [] = all_done
run_steps-Executed exec dir env (args ∷ steps) =
    let cmd : Command = record { args = args; dir = dir; env = env } in
    let rest = run_steps-Executed exec dir env steps in
    elim (Bool-cases (exec cmd)) [
      | inl ok ↦ rw ok (goes_on cmd _ _ _ ok rest)
      | inr failed ↦ rw failed (stops cmd _ failed)
    ]

run_steps-Unflagged :
    (exec : Command → Bool) (dir : Bytes) (env : List Bytes) (steps : List (List Bytes))
    → All (All (λ a. (has_prefix a dash ≡ false) ⊎ IsFlag a)) steps
    → All Unflagged (run_steps exec dir env steps).0
unfolding run_steps
run_steps-Unflagged exec dir env [] h = tt
run_steps-Unflagged exec dir env (args ∷ steps) h =
    let cmd : Command = record { args = args; dir = dir; env = env } in
    let rest = run_steps-Unflagged exec dir env steps h.1 in
    elim (Bool-cases (exec cmd)) [ inl ok ↦ rw ok (h.0, rest) | inr failed ↦ rw failed (h.0, tt) ]

fetch_ref-unflagged :
    (ref : Bytes) → has_prefix ref dash ≡ false → has_prefix (fetch_ref ref) dash ≡ false
unfolding has_prefix cut_prefix ℕ_discrete
fetch_ref-unflagged [] h = refl
fetch_ref-unflagged (c ∷ ref) h = h

git_steps-unflagged :
    (git_url ref : Bytes)
    → has_prefix git_url dash ≡ false
    → has_prefix ref dash ≡ false
    → All (All (λ a. (has_prefix a dash ≡ false) ⊎ IsFlag a)) (git_steps git_url ref)
unfolding git_steps has_prefix cut_prefix ℕ_discrete
git_steps-unflagged git_url ref u r = (
  (inl refl, (inr (inl refl), tt)),
  (
    (inl refl, (inl refl, (inl refl, (inl u, tt)))),
    (
      (
        inl refl,
        (
          inr (inr (inl refl)),
          (
            inl refl,
            (inl refl, (inr (inr (inr (inl refl))), (inl (fetch_ref-unflagged ref r), tt))),
          ),
        ),
      ),
      ((inl refl, (inr (inl refl), (inl refl, tt))), tt),
    ),
  ),
)

-- What a clone ran: nothing where its directory could not be made, or its steps.
abbrev pub Cloned :
    (Command → Bool) → List Bytes → Bytes → Bytes → Bytes → Bytes → List Command → Bool → Type 0
Cloned exec environ git_url ref dest token commands ok =
    ((commands ≡ []) × (ok ≡ false))
    ⊎ Executed exec (planned dest (git_auth_env environ token) (git_steps git_url ref)) commands ok

module _ (exec : Command → Bool) (environ : List Bytes) (made : Bool)
    (git_url ref dest token : Bytes) where
  pub git_clone-Cloned :
      let (commands, ok) = git_clone exec environ made git_url ref dest token in
      Cloned exec environ git_url ref dest token commands ok
  unfolding git_clone
  git_clone-Cloned = elim (Bool-cases made) [
    | inl h ↦ rw h (inr (run_steps-Executed exec dest _ (git_steps git_url ref)))
    | inr h ↦ rw h (inl (refl, refl))
  ]

  pub git_clone-Unflagged :
      has_prefix git_url dash ≡ false
      → has_prefix ref dash ≡ false
      → All Unflagged (git_clone exec environ made git_url ref dest token).0
  unfolding git_clone
  git_clone-Unflagged u r = elim (Bool-cases made) [
    | inl h ↦ rw h (
        run_steps-Unflagged exec dest _ (git_steps git_url ref)
          (git_steps-unflagged git_url ref u r))
    | inr h ↦ rw h tt
  ]
