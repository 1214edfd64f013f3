-- ===== src/TaskSkills/Git.antt =====
-- gitClone of taskskills/resolver.go and gitAuthEnv of taskskills/auth.go. `exec` is whether a
-- command succeeds, `environ` is os.Environ.
pub mod Commands
pub mod Credentials
pub mod Tokens
use contextmatrix_backendkit.Prelude.{
  List, [], ◌∷◌, ◌++◌, Bool, true, false, not, Bytes, bytes, is_empty, if◌then◌else◌,
}
use contextmatrix_backendkit.GoBase64.{encode_base64}
use contextmatrix_backendkit.TaskSkills.{Command}

-- The value of the token's variable.
abbrev pub auth_header : Bytes → Bytes
auth_header token =
    bytes "GIT_CONFIG_VALUE_0=Authorization: Basic "
    ++ encode_base64 (bytes "x-access-token:" ++ token)

unfoldable pub git_auth_env : List Bytes → Bytes → List Bytes
git_auth_env environ token =
    let env = environ ++ bytes "GIT_TERMINAL_PROMPT=0" ∷ [] in
    if is_empty token
    then env
    else env
      ++ bytes "GIT_CONFIG_COUNT=1"
        ∷ bytes "GIT_CONFIG_KEY_0=http.extraheader"
        ∷ auth_header token
        ∷ []

abbrev pub fetch_ref : Bytes → Bytes
fetch_ref ref = if is_empty ref then bytes "HEAD" else ref

unfoldable pub git_steps : Bytes → Bytes → List (List Bytes)
git_steps git_url ref =
    (bytes "init" ∷ bytes "-q" ∷ [])
    ∷ (bytes "remote" ∷ bytes "add" ∷ bytes "origin" ∷ git_url ∷ [])
    ∷ (bytes "fetch"
        ∷ bytes "--depth"
        ∷ bytes "1"
        ∷ bytes "origin"
        ∷ bytes "--"
        ∷ fetch_ref ref
        ∷ [])
    ∷ (bytes "checkout" ∷ bytes "-q" ∷ bytes "FETCH_HEAD" ∷ [])
    ∷ []

-- The loop over the steps: the commands that ran, and whether all succeeded.
unfoldable pub run_steps :
    (Command → Bool) → Bytes → List Bytes → List (List Bytes) → List Command × Bool
run_steps exec dir env [] = ([], true)
run_steps exec dir env (args ∷ steps) =
    let cmd : Command = record { args = args; dir = dir; env = env } in
    let (cmds, ok) = run_steps exec dir env steps in
    if exec cmd then (cmd ∷ cmds, ok) else (cmd ∷ [], false)

-- `made` is whether os.MkdirAll succeeds.
unfoldable pub git_clone :
    (Command → Bool) → List Bytes → Bool → Bytes → Bytes → Bytes → Bytes → List Command × Bool
unfolding git_steps run_steps git_auth_env
git_clone exec environ made git_url ref dest token =
    if not made
    then ([], false)
    else run_steps exec dest (git_auth_env environ token) (git_steps git_url ref)
