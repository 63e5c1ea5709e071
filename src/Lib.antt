-- ===== src/Lib.antt =====
-- GateBroker stands between local coding agents and an AI gateway. It takes a request of the
-- gateway's API with the caller's OIDC access token, validates the token, resolves the one
-- entitlement policy of the caller, and forwards an allowed request with the server-side key of
-- that policy. This library models the broker and states what makes it correct.
--
-- The parts, and the files that model them (paths of src/gatebroker/):
--
--   policy.py. Policy.antt has the policy record, `load_policies` and `resolve_entitlement`;
--     Policy/Load what a loaded document has; Policy/Matching the laws of the sets;
--     Policy/Resolve which policy is resolved.
--   oidc.py. Oidc.antt has `validate_access_token` and its checks; Oidc/Accepts says what an
--     accepted token is, Oidc/Complete that the checks ask for no more.
--   forwarding.py. Forwarding.antt has the endpoints and their constants. Its children:
--     Depth (`_exceeds_max_json_depth`), Reading (`_bearer_token`, `_request_object`), Checks (the
--     `_valid_*` functions and the header filters), Tools (the tool descriptions and the
--     `include` of /v1/responses), Body (`_upstream_body`), BaseUrl (`_validated_base_url`),
--     Relay (`_bounded_response_content`, `_relay_stream`, `_upstream_error_detail`), Effects
--     (what a handler does in the world) and Handler (`forward` and `list_models` of
--     `create_app`, one stage for each block of the code that can return early).
--   runtime.py. Runtime/RateLimiter has `FixedWindowRateLimiter`, its state as a record and one call
--     under the lock as one step; Runtime/Settings the readers of single environment variables and
--     `load_runtime_settings`; Runtime/Readiness has the readiness endpoint; Runtime/JwksUrl has
--     `_validate_jwks_url`; Runtime/Verify the verifier of a token; Runtime/Jwks the key snapshot of
--     `JwksVerifier`, each block under its condition as one function and their interleavings as a
--     step relation.
--   cli.py, the stored sign-in state. Cli/Vault is the credential store and the actions on it: every
--     call has an outcome of its own, so that a call may raise before or after it took effect;
--     Cli/Chunks has `_split_windows_cache`, Cli/Manifest the manifest and the cleanup journal,
--     Cli/Lexer the search for a manifest's key in a damaged text, Cli/Journal the cleanup of old
--     chunks, Cli/Cache `_store_cache` and `_load_cache`, and Cli/Logout `logout`. Cli/Agents has
--     the launcher profiles, `_load_agents` and `_save_agents`.
--   claude_launch.py, codex_launch.py, copilot_launch.py. Launch/Environment, Launch/Claude and
--     Launch/Codex have what each agent is started with, Launch/Run their composition in
--     `_run_with_broker_environment` of cli.py.
--   profile.py, telemetry.py, build_info.py. Profile has the development profile and `_settings` of
--     cli.py, Telemetry what of a span is exported, BuildInfo the version of a build.
--   model_discovery.py. ModelDiscovery.antt has the choice of an agent's model.
--
-- How they interact: the operations on the stored sign-in state are actions on one credential
-- store and follow each other. `forward` calls the validation, then the reading of the body, the resolver,
-- the rate limiter, the key source and the HTTP client, in this order, and answers from the
-- upstream's response. A `Reply` is the answer with the list of effects that came before it:
-- audit events, calls of the limiter and the key source, requests sent, closed responses. `serve`
-- adds what the server does when it iterates a streamed body.
--
-- Shared: Prelude (library names, Boolean tests, list predicates, integers over the native
-- numbers), Result (code that may raise, and `Ensures`, what holds of all it returns), Text (the
-- operations of `str`), Json (the values that `json.loads` gives; an object is a list of fields in
-- insertion order, read through `get`, `put` and `delete`).
--
-- Parameters: `json.loads` and `json.dumps`, `int` of an environment's text, `decode` and `casefold`, the URL operations of httpx and
-- the functions of `Path`, the verifier of the signature, the clock, the outcome of each call of the
-- credential store, and what the rate limiter, the key resolver and the HTTP client of a
-- `Broker` answer, and whether that client can build a request. No property assumes anything of them but what its hypotheses say.
--
-- Bounds: no definition takes fuel, every loop runs over a list or a text. Bytes and sizes are
-- natural numbers; counts and depths of Python do not overflow. A frozenset is a list that is
-- read through membership; the order of the selected fields of a body, which Python leaves
-- open, is that of the list.
--
-- Not modelled: the `duration_ms` of an audit event, a client that is gone while its body is read
-- or before the first part of a streamed body is asked for, the key sources, the waits of
-- `JwksVerifier`, the set-up of FastAPI, uvicorn and telemetry's exporters, the catalog file of
-- Codex and the other commands of the command line, which are input and output for the most part.
-- Of the stored sign-in state: the lock that one process holds at a time, and the text of a
-- chunk's account, which is the data of the pair it is made from. A file that is not UTF-8. How
-- many attributes, events and links a span had dropped before it was exported.
pub mod Prelude
pub mod Result
pub mod Text
pub mod Json
pub mod Policy
pub mod Oidc
pub mod Forwarding
pub mod Runtime
pub mod ModelDiscovery
pub mod Cli
pub mod Launch
pub mod Profile
pub mod Telemetry
pub mod BuildInfo
pub mod Tests
