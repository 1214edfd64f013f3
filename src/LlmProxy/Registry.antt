-- ===== src/LlmProxy/Registry.antt =====
-- The registry of stand-in tokens, llmproxy/registry.go. `parse` is url.Parse, none for an error.
-- The lock makes each method one step; the order of the map's bindings is Go's iteration order.
pub mod Live
use contextmatrix_backendkit.Prelude.{
  List, [], ◌∷◌, Option, none, some, Bool, false, not, ◌&&◌, ◌||◌, Bytes, bytes, bytes_dec,
  is_empty, if◌then◌else◌,
}
use contextmatrix_backendkit.Prelude.Assoc.{lookup, insert, delete}
use contextmatrix_backendkit.GoStrings.{str_eq, hex_encode}
use contextmatrix_backendkit.LlmProxy.{Url}

abbrev pub default_base_url : Bytes
default_base_url = bytes "https://openrouter.ai/api/v1"

-- protocol.LLMEndpoint
pub record LlmEndpoint : Type 0 where
  pub base_url : Bytes
  pub api_key : Bytes

pub record Entry : Type 0 where
  pub run_key : Bytes
  pub token : Bytes
  pub base : Bytes
  pub api_key : Bytes

pub record Registry : Type 0 where
  pub runs : List (Bytes × Entry)

abbrev pub new_registry : Registry
new_registry = record { runs = [] }

abbrev pub base_of : LlmEndpoint → Bytes
base_of up = if is_empty up.base_url then default_base_url else up.base_url

-- The condition that makes Register return an error, negated.
unfoldable pub is_upstream : Option Url → Bool
is_upstream none = false
is_upstream (some u) =
    (str_eq u.scheme (bytes "http") || str_eq u.scheme (bytes "https")) && not (is_empty u.host)

-- The loop of `lookup`: a later match replaces an earlier one.
unfoldable pub lookup_loop : Bytes → List (Bytes × Entry) → Option Entry → Option Entry
lookup_loop token [] found = found
lookup_loop token ((k, e) ∷ runs) found =
    lookup_loop token runs (if str_eq e.token token then some e else found)

-- `lookup(token)`; none for nil.
unfoldable pub lookup_token : Bytes → Registry → Option Entry
lookup_token token r = lookup_loop token r.runs none

-- `Revoke(runKey)`
unfoldable pub revoke : Bytes → Registry → Registry
revoke run_key r = record { runs = delete bytes_dec run_key r.runs }

module _ (parse : Bytes → Option Url) where
  -- The entry that Register stores, none where it returns an error. `raw` is what rand.Read
  -- filled in, none where it failed.
  unfoldable pub new_entry : Bytes → LlmEndpoint → Option Bytes → Option Entry
  unfolding is_upstream
  new_entry run_key up none = none
  new_entry run_key up (some raw) =
      if is_upstream (parse (base_of up))
      then some (record {
        run_key = run_key;
        token = hex_encode raw;
        base = base_of up;
        api_key = up.api_key;
      })
      else none

  -- `Register(runKey, up)`: the token, none for an error, beside the new state.
  unfoldable pub register : Bytes → LlmEndpoint → Option Bytes → Registry → Registry × Option Bytes
  register run_key up raw r = elim (new_entry run_key up raw) [
    | none ↦ (r, none)
    | some e ↦ (record { runs = insert bytes_dec run_key e r.runs }, some e.token)
  ]
