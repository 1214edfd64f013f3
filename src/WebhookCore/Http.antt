-- ===== src/WebhookCore/Http.antt =====
-- Requests, answers and the shared helpers, webhookcore/helpers.go. encoding/json is a parameter.
use contextmatrix_backendkit.Prelude.{
  ℕ, List, [], Option, none, some, Bool, false, Bytes, bytes, bytes_dec, if◌then◌else◌, ltb, length,
  ◌⊎◌, inl, inr,
}
use contextmatrix_backendkit.Prelude.Int.{ℤ}
use contextmatrix_backendkit.Prelude.Assoc.{lookup}

-- `body` is what the connection holds, none where reading it fails.
pub record Request : Type 0 where
  pub method : Bytes
  pub request_uri : Bytes
  pub content_length : ℤ
  pub headers : List (Bytes × Bytes)
  pub body : Option Bytes

-- The error codes of the protocol that the core sends.
pub data Code : Type 0 where
  too_large : Code
  unauthorized : Code
  draining_code : Code
  internal : Code
  upstream_failure : Code
  invalid_json : Code

-- protocol.ErrorResponse
pub record ErrorResponse : Type 0 where
  pub ok : Bool
  pub code : Code
  pub message : Bytes

-- A call of WriteJSON: the status and the value.
pub record Reply (V : Type 0) : Type 0 where
  pub status : ℕ
  pub value : V

-- What goes out on the connection.
pub record Sent : Type 0 where
  pub content_type : Bytes
  pub status : ℕ
  pub body : Bytes

abbrev pub max_request_body_bytes : ℕ
max_request_body_bytes = 1_048_576

abbrev pub marshal_failed : Bytes
marshal_failed =
    bytes "{\"ok\":false,\"code\":\"internal\",\"message\":\"response marshal failed\"}"

-- `marshal` is json.Marshal, none for an error.
unfoldable pub write_json : {V : Type 0} → (V → Option Bytes) → Reply V → Sent
write_json marshal r = elim (marshal r.value) [
  | none ↦ record { content_type = bytes "application/json"; status = 500; body = marshal_failed }
  | some body ↦ record { content_type = bytes "application/json"; status = r.status; body = body }
]

unfoldable pub write_error : ℕ → Code → Bytes → Reply ErrorResponse
write_error status code msg = record {
  status = status;
  value = record { ok = false; code = code; message = msg };
}

unfoldable pub write_unauthorized : Reply ErrorResponse
unfolding write_error
write_unauthorized = write_error 401 unauthorized (bytes "unauthorized")

-- `unmarshal` is the JSON decoder on what is left of the body, none for an error.
unfoldable pub decode : {A : Type 0} → (Option Bytes → Option A) → Request → Reply ErrorResponse ⊎ A
unfolding write_error
decode unmarshal r = elim (unmarshal r.body) [
  | none ↦ inl (write_error 400 invalid_json (bytes "invalid JSON"))
  | some a ↦ inr a
]

-- `Header.Get`, "" where the header is missing.
unfoldable pub header_get : Bytes → List (Bytes × Bytes) → Bytes
header_get name headers = elim (lookup bytes_dec name headers) [ none ↦ [] | some v ↦ v ]

-- `io.ReadAll(http.MaxBytesReader(w, r.Body, maxRequestBodyBytes))`
unfoldable pub read_all : Option Bytes → Option Bytes
read_all none = none
read_all (some body) = if ltb max_request_body_bytes (length body) then none else some body
