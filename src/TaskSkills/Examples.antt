-- ===== src/TaskSkills/Examples.antt =====
-- Runs of the resolver, and its theorem at a concrete history.
use contextmatrix_backendkit.Prelude.{
  ℕ, Option, All, Any, not, leb, length, if◌then◌else◌, arith, ◌≡◌, refl, List, [], ◌∷◌, ◌++◌, none,
  some, Bool, true, false, Bytes, bytes, bytes_dec, ℕ_discrete, is_empty,
}
use contextmatrix_backendkit.GoBase64.{encode_base64, decode_base64}
use contextmatrix_backendkit.GoStrings.{has_prefix, cut_prefix, trim_right_slashes}
use contextmatrix_backendkit.TaskSkills.{
  Source, Command, Resolver, World, failed, flag_ref, new_resolver, clone_source, check_source,
  resolve,
}
use contextmatrix_backendkit.TaskSkills.Fetch.{
  Target, SignedGet, Response, request_uri_of, read_pointer, fetch_pointer,
}
use contextmatrix_backendkit.TaskSkills.Git.{git_auth_env, git_steps, run_steps, git_clone}
use contextmatrix_backendkit.TaskSkills.Git.Tokens
use contextmatrix_backendkit.TaskSkills.Git.Credentials.{
  split_at, value_of, getenv, extra_header, basic, credentials,
}
use contextmatrix_backendkit.TaskSkills.Production
use contextmatrix_backendkit.TaskSkills.Production.{Outside, Guarded, run_production}
use contextmatrix_backendkit.TaskSkills.Clones
use contextmatrix_backendkit.TaskSkills.Clones.{Sound, run, count_done}

program : Unit {0}
unfolding ℕ_discrete has_prefix cut_prefix new_resolver clone_source check_source resolve run
    count_done
program = tt

production : Unit {0}
unfolding program trim_right_slashes request_uri_of read_pointer fetch_pointer git_auth_env
    git_steps run_steps git_clone run_production
production = tt

abbrev join : Bytes → Bytes → Bytes
join dir name = 47 ∷ dir ++ name

abbrev source : Source
source = record {
  git_remote_url = bytes "https://git/skills";
  ref = bytes "main";
  token = bytes "t";
}

abbrev cloner : Bool → Bytes → Bytes → Bytes → Bytes → List Command × Bool
cloner ok git_url ref dest token = ([], ok)

-- CM is down; the clone fails; it succeeds; it is not needed.
abbrev worlds : List World
worlds =
    record { pointer = none; removed = true; cloner = cloner true }
    ∷ record { pointer = some source; removed = true; cloner = cloner false }
    ∷ record { pointer = some source; removed = true; cloner = cloner true }
    ∷ record { pointer = some source; removed = true; cloner = cloner true }
    ∷ []

flagged :
    (resolve join
      (record {
        pointer = some (record source { ref = bytes "-x" });
        removed = true;
        cloner = cloner true;
      })
      (new_resolver (bytes "u/") (bytes "k") (bytes "c") (bytes "/p"))).1
    ≡ failed flag_ref
unfolding program
flagged = refl

named : (dir : Bytes) → is_empty (join dir (bytes "task-skills")) ≡ false
named dir = refl

run-Sound_example :
    Sound join (run join worlds (new_resolver (bytes "u/") (bytes "k") (bytes "c") (bytes "/p")))
run-Sound_example =
    Clones.run-Sound join named (bytes "u/") (bytes "k") (bytes "c") (bytes "/p") worlds

-- The endpoint answers 404, then with a pointer; a fetch fails; the next clone is whole.
abbrev parse : Bytes → Option Target
parse raw = some (record { path = raw; request_uri = λ p. p })

abbrev sign : Bytes → Bytes → Bytes × Bytes
sign key uri = (key ++ uri, bytes "100")

abbrev unmarshal : Bytes → Option Source
unmarshal body = if is_empty body then none else some source

abbrev answers : ℕ → SignedGet → Option Response
answers status get = some (record { status_code = status; body = bytes "{}" })

abbrev no_fetch : Command → Bool
no_fetch c = not (leb 6 (length c.args))

abbrev any : Command → Bool
any c = true

abbrev outs : List Outside
outs =
    record { exchange = answers 404; removed = true; made = true; exec = any }
    ∷ record { exchange = answers 200; removed = true; made = true; exec = no_fetch }
    ∷ record { exchange = answers 200; removed = true; made = true; exec = any }
    ∷ []

abbrev start : Resolver
start = new_resolver (bytes "u/") (bytes "k") (bytes "c") (bytes "/p")

abbrev env_of : List Bytes
env_of = bytes "HOME=/root" ∷ []

cached :
    (run_production parse sign unmarshal env_of join outs start).resolved ≡ bytes "/ctask-skills"
unfolding production
cached = refl

run_production-Guarded_example :
    All
      (Guarded parse sign unmarshal env_of join (λ o. Any (λ o'. o' ≡ o) outs) start)
      (run_production parse sign unmarshal env_of join outs start).clones
run_production-Guarded_example =
    Production.run_production-Guarded parse sign unmarshal env_of join (bytes "u/") (bytes "k")
      (bytes "c") (bytes "/p") outs

credentials-git_auth_env_example :
    (credentials (git_auth_env env_of (bytes "t0k")) ≡ some (bytes "x-access-token", bytes "t0k"))
    × (getenv (bytes "GIT_TERMINAL_PROMPT") (git_auth_env env_of (bytes "t0k")) ≡ some (bytes "0"))
    × (getenv (bytes "HOME") (git_auth_env env_of (bytes "t0k")) ≡ getenv (bytes "HOME") env_of)
credentials-git_auth_env_example =
    Tokens.credentials-git_auth_env env_of (bytes "t0k") (bytes "HOME") (omega arith)
      ((λ h. cc), ((λ h. cc), ((λ h. cc), ((λ h. cc), tt))))

-- A token of the inherited environment is not the one that git sends.
replaced :
    credentials (git_auth_env (git_auth_env (bytes "HOME=/root" ∷ []) (bytes "old")) (bytes "t0k"))
    ≡ some (bytes "x-access-token", bytes "t0k")
unfolding credentials extra_header getenv value_of split_at basic git_auth_env cut_prefix bytes_dec
    ℕ_discrete encode_base64 decode_base64
replaced = refl
