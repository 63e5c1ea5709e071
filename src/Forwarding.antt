-- ===== src/Forwarding.antt =====
-- src/gatebroker/forwarding.py: the paths of the broker, and what each accepts and sends on. The
-- parts of the module stand in the children: request parsing, the body sent upstream, the tool
-- descriptions, the relayed responses, the upstream URL, and the two handlers.
pub mod Depth
pub mod Reading
pub mod Checks
pub mod Tools
pub mod Body
pub mod Effects
pub mod Relay
pub mod Handler
pub mod BaseUrl
use gatebroker.Prelude.{ℕ, ◌+◌, ◌++◌, length, String, Bool, true, false, Option, List, [], ◌∷◌}

-- `_SUPPORTED_PATHS`; the router serves these and no other path.
pub data Endpoint : Type 0 where
  chat_completions embeddings messages responses : Endpoint

abbrev pub path_of : Endpoint → String
path_of chat_completions = "/v1/chat/completions"
path_of embeddings = "/v1/embeddings"
path_of messages = "/v1/messages"
path_of responses = "/v1/responses"

abbrev pub models_path : String
models_path = "/v1/models"

-- `_ALLOWED_FIELDS`, each set as a list
unfoldable pub allowed_fields : Endpoint → List String
allowed_fields chat_completions =
    "messages" ∷ "temperature" ∷ "top_p" ∷ "n" ∷ "stream" ∷ "stop" ∷ "max_tokens"
    ∷ "max_completion_tokens" ∷ "presence_penalty" ∷ "frequency_penalty" ∷ "logit_bias"
    ∷ "response_format" ∷ "seed" ∷ "tools" ∷ "tool_choice" ∷ "parallel_tool_calls" ∷ "functions"
    ∷ "function_call" ∷ "service_tier" ∷ "reasoning_effort" ∷ []
allowed_fields embeddings = "input" ∷ "encoding_format" ∷ "dimensions" ∷ []
allowed_fields responses =
    "include" ∷ "input" ∷ "instructions" ∷ "max_output_tokens" ∷ "parallel_tool_calls" ∷ "reasoning"
    ∷ "stream" ∷ "text" ∷ "tool_choice" ∷ "tools" ∷ []
allowed_fields messages =
    "messages" ∷ "max_tokens" ∷ "system" ∷ "temperature" ∷ "top_p" ∷ "top_k" ∷ "stop_sequences"
    ∷ "tools" ∷ "tool_choice" ∷ "thinking" ∷ "stream" ∷ []

-- `path in _STREAMING_PATHS`
abbrev pub is_streaming_path : Endpoint → Bool
is_streaming_path embeddings = false
is_streaming_path e = true

abbrev pub safe_request_headers : List String
safe_request_headers = "accept" ∷ "x-request-id" ∷ []

-- `_ENDPOINT_REQUEST_HEADERS.get(path, frozenset())`
abbrev pub endpoint_request_headers : Endpoint → List String
endpoint_request_headers messages = "anthropic-version" ∷ "anthropic-beta" ∷ []
endpoint_request_headers e = []

abbrev pub safe_response_headers_set : List String
safe_response_headers_set = "content-type" ∷ "request-id" ∷ "x-request-id" ∷ []

abbrev pub Bytes : Type 0
Bytes = List ℕ

-- The number of bytes of a stream, and its bytes.
abbrev pub total : List Bytes → ℕ
total [] = 0
total (c ∷ cs) = length c + total cs

abbrev pub joined : List Bytes → Bytes
joined [] = []
joined (c ∷ cs) = c ++ joined cs

-- What a handler reads of a request. `getlist` and `header` are the two lookups of the headers,
-- `chunks` what the body's stream gives.
pub record Request : Type 0 where
  pub getlist : String → List String
  pub header : String → Option String
  pub query : String
  pub has_query_params : Bool
  pub client_host : Option String
  pub chunks : List Bytes
