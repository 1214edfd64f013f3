-- ===== src/TaskSkills/Git/Tokens.antt =====
-- What gitAuthEnv (taskskills/auth.go) tells git of the token.
use contextmatrix_backendkit.Prelude.{
  ℕ, ◌≡◌, ◌≢◌, refl, ap, ◌∙◌, append_assoc, All, none, some, List, [], ◌∷◌, ◌++◌, Bytes, bytes,
  bytes_dec, ℕ_discrete, is_empty, if◌then◌else◌, arith,
}
use contextmatrix_backendkit.GoStrings.{AreBytes, cut_prefix-append}
use contextmatrix_backendkit.GoBase64.{encode_base64, decode-encode}
use contextmatrix_backendkit.TaskSkills.Git.{auth_header, git_auth_env}
use contextmatrix_backendkit.TaskSkills.Git.Credentials.{
  split_at, or_else, value_of, getenv, configured, extra_header, decoded, basic, sent_with,
  credentials,
}

abbrev vars : Bytes → List Bytes
vars token =
    bytes "GIT_TERMINAL_PROMPT=0"
    ∷ (if is_empty token
        then []
        else bytes "GIT_CONFIG_COUNT=1"
          ∷ bytes "GIT_CONFIG_KEY_0=http.extraheader"
          ∷ auth_header token
          ∷ [])

git_auth_env-vars :
    (environ : List Bytes) (token : Bytes) → git_auth_env environ token ≡ environ ++ vars token
unfolding git_auth_env
git_auth_env-vars environ [] = refl
git_auth_env-vars environ (c ∷ token) = append_assoc environ (bytes "GIT_TERMINAL_PROMPT=0" ∷ []) _

getenv-append :
    (name : Bytes) (xs ys : List Bytes)
    → getenv name (xs ++ ys) ≡ or_else (getenv name ys) (getenv name xs)
unfolding getenv
getenv-append name [] ys = ground arith
getenv-append name (x ∷ xs) ys = ground (arith, getenv-append name xs ys)

-- What the last entries set.
getenv-last :
    (name value : Bytes) (environ : List Bytes) (token : Bytes)
    → getenv name (vars token) ≡ some value
    → getenv name (git_auth_env environ token) ≡ some value
getenv-last name value environ token h =
    ap (getenv name) (git_auth_env-vars environ token)
    ∙ getenv-append name environ (vars token)
    ∙ ap (λ v. or_else v (getenv name environ)) h

-- What they do not set.
getenv-kept :
    (name : Bytes) (environ : List Bytes) (token : Bytes)
    → getenv name (vars token) ≡ none
    → getenv name (git_auth_env environ token) ≡ getenv name environ
getenv-kept name environ token h =
    ap (getenv name) (git_auth_env-vars environ token)
    ∙ getenv-append name environ (vars token)
    ∙ ap (λ v. or_else v (getenv name environ)) h

AreBytes-append : (s t : Bytes) → AreBytes s → AreBytes t → AreBytes (s ++ t)
AreBytes-append [] t p q = q
AreBytes-append (c ∷ s) t p q = (p.0, AreBytes-append s t p.1 q)

abbrev user : Bytes
user = bytes "x-access-token"

basic-token :
    (token : Bytes)
    → AreBytes token
    → basic (bytes "Authorization: Basic " ++ encode_base64 (bytes "x-access-token:" ++ token))
      ≡ some (user, token)
unfolding basic split_at ℕ_discrete
basic-token token p =
    let sent = bytes "x-access-token:" ++ token in
    ap decoded (cut_prefix-append (bytes "Authorization: Basic ") (encode_base64 sent))
    ∙ ap (split_at 58)
        (decode-encode sent (AreBytes-append (bytes "x-access-token:") token (omega arith) p))

-- The header of an environment with the three variables.
extra_header-set :
    (env : List Bytes) (value : Bytes)
    → getenv (bytes "GIT_CONFIG_COUNT") env ≡ some (bytes "1")
    → getenv (bytes "GIT_CONFIG_KEY_0") env ≡ some (bytes "http.extraheader")
    → getenv (bytes "GIT_CONFIG_VALUE_0") env ≡ some value
    → extra_header env ≡ some value
unfolding extra_header bytes_dec ℕ_discrete
extra_header-set env value count key header = λ i. configured (count i) (key i) (header i)

extra_header-none :
    (environ : List Bytes) → extra_header (git_auth_env environ []) ≡ extra_header environ
unfolding extra_header getenv value_of split_at bytes_dec ℕ_discrete
extra_header-none environ =
    let count = getenv-kept (bytes "GIT_CONFIG_COUNT") environ [] refl in
    let key = getenv-kept (bytes "GIT_CONFIG_KEY_0") environ [] refl in
    let value = getenv-kept (bytes "GIT_CONFIG_VALUE_0") environ [] refl in
    λ i. configured (count i) (key i) (value i)

-- The variables that gitAuthEnv sets.
abbrev pub own_names : List Bytes
own_names =
    bytes "GIT_TERMINAL_PROMPT"
    ∷ bytes "GIT_CONFIG_COUNT"
    ∷ bytes "GIT_CONFIG_KEY_0"
    ∷ bytes "GIT_CONFIG_VALUE_0"
    ∷ []

value_of-other :
    (name own value entry : Bytes)
    → name ≢ own
    → split_at 61 entry ≡ some (own, value)
    → value_of name entry ≡ none
unfolding value_of
value_of-other name own value entry other h = ground (arith, h)

getenv-other :
    (name token : Bytes) → All (λ own. name ≢ own) own_names → getenv name (vars token) ≡ none
unfolding getenv split_at ℕ_discrete
getenv-other name [] (p, _) =
    value_of-other name (bytes "GIT_TERMINAL_PROMPT") (bytes "0") (bytes "GIT_TERMINAL_PROMPT=0") p
      refl
getenv-other name (c ∷ token) (p, (q, (r, (t, _)))) =
    let prompt =
      value_of-other name (bytes "GIT_TERMINAL_PROMPT") (bytes "0") (bytes "GIT_TERMINAL_PROMPT=0")
        p refl in
    let count =
      value_of-other name (bytes "GIT_CONFIG_COUNT") (bytes "1") (bytes "GIT_CONFIG_COUNT=1") q
        refl in
    let key =
      value_of-other name (bytes "GIT_CONFIG_KEY_0") (bytes "http.extraheader")
        (bytes "GIT_CONFIG_KEY_0=http.extraheader") r refl in
    let value =
      value_of-other name (bytes "GIT_CONFIG_VALUE_0")
        (bytes "Authorization: Basic " ++ encode_base64 (bytes "x-access-token:" ++ c ∷ token))
        (auth_header (c ∷ token)) t refl in
    λ i. or_else (or_else (or_else (value i) (key i)) (count i)) (prompt i)

credentials-token :
    (environ : List Bytes) (c : ℕ) (token : Bytes)
    → AreBytes (c ∷ token)
    → credentials (git_auth_env environ (c ∷ token)) ≡ some (user, c ∷ token)
unfolding credentials getenv value_of split_at bytes_dec ℕ_discrete
credentials-token environ c token p =
    let set = λ (name value : Bytes). getenv-last name value environ (c ∷ token) in
    let header =
      extra_header-set (git_auth_env environ (c ∷ token))
        (bytes "Authorization: Basic " ++ encode_base64 (bytes "x-access-token:" ++ c ∷ token))
        (set (bytes "GIT_CONFIG_COUNT") (bytes "1") refl)
        (set (bytes "GIT_CONFIG_KEY_0") (bytes "http.extraheader") refl)
        (set (bytes "GIT_CONFIG_VALUE_0") _ refl) in
    ap sent_with header ∙ basic-token (c ∷ token) p

prompt_off :
    (environ : List Bytes) (token : Bytes)
    → getenv (bytes "GIT_TERMINAL_PROMPT") (git_auth_env environ token) ≡ some (bytes "0")
unfolding getenv value_of split_at bytes_dec ℕ_discrete
prompt_off environ [] = getenv-last (bytes "GIT_TERMINAL_PROMPT") (bytes "0") environ [] refl
prompt_off environ (c ∷ token) =
    getenv-last (bytes "GIT_TERMINAL_PROMPT") (bytes "0") environ (c ∷ token) refl

-- Read the way that os/exec, git and a server read it, the environment of gitAuthEnv makes git send
-- the user x-access-token and exactly the token, or, without a token, what it would send with the
-- inherited environment; GIT_TERMINAL_PROMPT is 0; and every variable but that one and the three
-- of the configuration has its inherited value; if the token is made of bytes.
pub credentials-git_auth_env :
    (environ : List Bytes) (token name : Bytes)
    → AreBytes token
    → All (λ own. name ≢ own) own_names
    → (credentials (git_auth_env environ token)
        ≡ (if is_empty token then credentials environ else some (bytes "x-access-token", token)))
      × (getenv (bytes "GIT_TERMINAL_PROMPT") (git_auth_env environ token) ≡ some (bytes "0"))
      × (getenv name (git_auth_env environ token) ≡ getenv name environ)
unfolding credentials
credentials-git_auth_env environ [] name p others = (
  ap sent_with (extra_header-none environ),
  prompt_off environ [],
  getenv-kept name environ [] (getenv-other name [] others),
)
credentials-git_auth_env environ (c ∷ token) name p others = (
  credentials-token environ c token p,
  prompt_off environ (c ∷ token),
  getenv-kept name environ (c ∷ token) (getenv-other name (c ∷ token) others),
)
