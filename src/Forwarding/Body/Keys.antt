-- ===== src/Forwarding/Body/Keys.antt =====
-- What each key of the body sent upstream holds.
use gatebroker.Prelude.{
  String, ◌≡◌, refl, sym, ◌∙◌, ap, Bool, true, false, ◌||◌, Option, none, some, List, [], ◌∷◌,
  arith, str_eq, eq_iff, if◌then◌else◌,
}
use gatebroker.Result.{ok, Ensures, Ensures-ok, Ensures-bind}
use gatebroker.Json.{Value, bool, str, obj, Fields, end, field, get}
use gatebroker.Json.Laws.{get-put}
use gatebroker.Policy.{mem}
use gatebroker.Forwarding.{
  Endpoint, chat_completions, embeddings, messages, responses, allowed_fields,
}
use gatebroker.Forwarding.Tools.Untouched.{sanitized-Keeps, ensure_include-Keeps}
use gatebroker.Forwarding.Body.{select_fields, copy_field, for_responses, attribute, upstream_body}

-- Where the caller's identity goes, which a client cannot set itself.
abbrev pub identity_key : Endpoint → String
identity_key messages = "metadata"
identity_key e = "user"

abbrev pub identity_value : Endpoint → String → Value
identity_value messages oid = obj (field "user_id" (str oid) end)
identity_value e oid = str oid

-- The keys whose tools and `include` the sanitizing of `/v1/responses` rewrites.
abbrev pub is_rewritten : Endpoint → String → Bool
is_rewritten responses k = str_eq "tools" k || str_eq "input" k || str_eq "include" k
is_rewritten e k = false

-- What the sanitizing of `/v1/responses` sets, whatever the caller wrote there.
abbrev pub forced : Endpoint → String → Option Value → Option Value
forced responses k o = if str_eq "store" k then some (bool false) else o
forced e k o = o

-- The identity under its key, the model, the allowed fields of the caller's body, and nothing else;
-- and under `store` of `/v1/responses`, false.
abbrev pub expected_field : Endpoint → Fields → String → String → Option Value
expected_field e body oid k =
    if str_eq (identity_key e) k
    then some (identity_value e oid)
    else forced e k (
        if str_eq "model" k
        then get "model" body
        else if mem k (allowed_fields e)
        then get k body
        else none)

get-copy_field :
    (j k : String) (o : Option Value) (fs : Fields)
    → (str_eq j k ≡ true → o ≡ none → get k fs ≡ none)
    → get k (copy_field j o fs) ≡ (if str_eq j k then o else get k fs)
get-copy_field j k none fs h = ground (arith, h)
get-copy_field j k (some v) fs h = get-put j k v fs

none_or : (b : Bool) (o : Option Value) → o ≡ none → (if b then o else none) ≡ none
none_or b o h = ground arith

at_key : (j k : String) (body : Fields) → str_eq j k ≡ true → get j body ≡ none → get k body ≡ none
at_key j k body h n = ap (λ i. get i body) (sym ((eq_iff j k).0 h)) ∙ n

get-select_fields :
    (k : String) (ks : List String) (body : Fields)
    → get k (select_fields ks body) ≡ (if mem k ks then get k body else none)
unfolding select_fields mem
get-select_fields k [] body = unfold get in refl
get-select_fields k (j ∷ ks) body =
    get-copy_field j k (get j body) _
      (λ h n. get-select_fields k ks body ∙ none_or _ _ (at_key j k body h n))
    ∙ rw (get-select_fields k ks body) (ground (arith, eq_iff j k))

get-selected :
    (e : Endpoint) (body : Fields) (k : String)
    → get k (copy_field "model" (get "model" body) (select_fields (allowed_fields e) body)) ≡ (
        if str_eq "model" k
        then get "model" body
        else if mem k (allowed_fields e)
        then get k body
        else none)
get-selected e body k =
    get-copy_field "model" k (get "model" body) _ (λ at no.
      get-select_fields k (allowed_fields e) body ∙ none_or _ _ (at_key "model" k body at no))
    ∙ rw get-select_fields refl

get-attribute :
    (e : Endpoint) (oid k : String) (fs : Fields)
    → get k (attribute e oid fs)
      ≡ (if str_eq (identity_key e) k then some (identity_value e oid) else get k fs)
get-attribute messages oid k fs = get-put "metadata" k _ fs
get-attribute chat_completions oid k fs = get-put "user" k _ fs
get-attribute embeddings oid k fs = get-put "user" k _ fs
get-attribute responses oid k fs = get-put "user" k _ fs

for_responses-Keeps :
    (e : Endpoint) (k : String) (fs : Fields)
    → is_rewritten e k ≡ false
    → Ensures (λ gs. get k gs ≡ forced e k (get k fs)) (for_responses e fs)
for_responses-Keeps chat_completions k fs h = Ensures-ok fs refl
for_responses-Keeps embeddings k fs h = Ensures-ok fs refl
for_responses-Keeps messages k fs h = Ensures-ok fs refl
for_responses-Keeps responses k fs h = Ensures-bind _ _ λ gs at. Ensures-ok _ (
    ensure_include-Keeps k gs (ground arith)
    ∙ (sanitized-Keeps k _ (ground arith) (ground arith)).at gs at
    ∙ get-put "store" k (bool false) fs)

-- In a body that is sent upstream, every key holds what is expected of it: the caller's identity
-- under the endpoint's identity key, false under `store` of `/v1/responses`, the requested model, what
-- the caller wrote under an allowed key, and nothing under any other key; `tools`, `input` and
-- `include` of `/v1/responses`, which are rewritten, are left out.
pub upstream_body-get :
    (e : Endpoint) (body : Fields) (oid : String) (sent : Fields) (k : String)
    → upstream_body e body oid ≡ ok sent
    → is_rewritten e k ≡ false
    → get k sent ≡ expected_field e body oid k
unfolding upstream_body
upstream_body-get e body oid sent k h n =
    (Ensures-bind {P = λ fs. get k fs ≡ expected_field e body oid k} (for_responses e _) _ λ gs at.
        Ensures-ok _ (
          get-attribute e oid k gs
          ∙ rw ((for_responses-Keeps e k _ n).at gs at) (rw (get-selected e body k) refl))).at
      sent h
