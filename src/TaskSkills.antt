-- ===== src/TaskSkills.antt =====
-- The resolver of task skills, taskskills/resolver.go. A `World` is what its calls outside give:
-- the fetch of the pointer, the removal of the old checkout, and the cloner, whose result is the
-- commands that it ran and whether it succeeded. `join` is filepath.Join. The lock makes Resolve
-- one step.
pub mod Fetch
pub mod Git
pub mod Clones
pub mod Production
mod Examples
use contextmatrix_backendkit.Prelude.{
  ℕ, suc, List, [], ◌∷◌, Option, none, some, Bool, true, false, not, Bytes, bytes, is_empty,
  if◌then◌else◌,
}
use contextmatrix_backendkit.GoStrings.{has_prefix, trim_right_slashes}

-- protocol.TaskSkillsSource
pub record Source : Type 0 where
  pub git_remote_url : Bytes
  pub ref : Bytes
  pub token : Bytes

-- A git command.
pub record Command : Type 0 where
  pub args : List Bytes
  pub dir : Bytes
  pub env : List Bytes

-- A call of the cloner, what it ran and whether it succeeded.
pub record Clone : Type 0 where
  pub git_url : Bytes
  pub ref : Bytes
  pub dest : Bytes
  pub token : Bytes
  pub commands : List Command
  pub done : Bool

-- `clones` lists the calls of the cloner, the latest first. The HTTP client is left out: its
-- requests are the fetch's.
pub record Resolver : Type 0 where
  pub cm_url : Bytes
  pub api_key : Bytes
  pub cache_dir : Bytes
  pub endpoint_path : Bytes
  pub resolved : Bytes
  pub clones : List Clone

pub record World : Type 0 where
  pub pointer : Option Source
  pub removed : Bool
  pub cloner : Bytes → Bytes → Bytes → Bytes → List Command × Bool

pub data ResolveError : Type 0 where
  fetch_failed : ResolveError
  no_git_url : ResolveError
  flag_git_url : ResolveError
  flag_ref : ResolveError
  no_token : ResolveError
  clear_failed : ResolveError
  clone_failed : ResolveError

pub data Resolved : Type 0 where
  at_dir : Bytes → Resolved
  failed : ResolveError → Resolved

abbrev pub dash : Bytes
dash = bytes "-"

unfoldable pub new_resolver : Bytes → Bytes → Bytes → Bytes → Resolver
unfolding trim_right_slashes
new_resolver cm_url api_key cache_dir endpoint_path = record {
  cm_url = trim_right_slashes cm_url;
  api_key = api_key;
  cache_dir = cache_dir;
  endpoint_path = endpoint_path;
  resolved = [];
  clones = [];
}

module _ (join : Bytes → Bytes → Bytes) where
  -- Resolve from the clone on.
  unfoldable pub clone_source : World → Source → Resolver → Resolver × Resolved
  clone_source w p r =
      let dest = join r.cache_dir (bytes "task-skills") in
      let (commands, ok) = w.cloner p.git_remote_url p.ref dest p.token in
      let call : Clone = record {
        git_url = p.git_remote_url;
        ref = p.ref;
        dest = dest;
        token = p.token;
        commands = commands;
        done = ok;
      } in
      if ok
      then (record r { resolved = dest; clones = call ∷ r.clones }, at_dir dest)
      else (record r { clones = call ∷ r.clones }, failed clone_failed)

  -- Resolve from the checks of the pointer on.
  unfoldable pub check_source : World → Source → Resolver → Resolver × Resolved
  unfolding clone_source
  check_source w p r =
      if is_empty p.git_remote_url
      then (r, failed no_git_url)
      else (if has_prefix p.git_remote_url dash
          then (r, failed flag_git_url)
          else (if has_prefix p.ref dash
              then (r, failed flag_ref)
              else (if is_empty p.token
                  then (r, failed no_token)
                  else (if not w.removed then (r, failed clear_failed) else clone_source w p r))))

  unfoldable pub resolve : World → Resolver → Resolver × Resolved
  unfolding check_source
  resolve w r =
      if not (is_empty r.resolved)
      then (r, at_dir r.resolved)
      else elim w.pointer [ none ↦ (r, failed fetch_failed) | some p ↦ check_source w p r ]
