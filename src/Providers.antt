-- ===== src/Providers.antt =====
-- gateway/llm_client.py: the normalization of provider responses, the outcome of an HTTP call, the
-- two adapters and the mock. httpx is the parameter `Transport`.
pub mod Adapters
pub mod Clients
pub mod Reading
pub mod Shapes
pub mod Outcomes
pub mod Credentials
pub mod Examples
use privacy_gateway_llm_appl.Prelude.{
  ℕ, ℤ, pos, Float, ◌+◌, ◌==◌, Text, codes, List, [], ◌∷◌, ◌++◌, Option, none, some, Bool, true,
  false, ◌||◌, leb, nat_eq, if◌then◌else◌,
}
use privacy_gateway_llm_appl.Errors.{
  Exception, gateway, key_error, type_error, value_error, index_error, attribute_error,
  provider_timeout_error, provider_auth_error, provider_response_error, Result, ok, raise, ◌>>=◌,
}
use privacy_gateway_llm_appl.Json.{
  Json, null, integer, float, string, array, object, Elements, no_elements, element, Members,
  no_members, member, Python, or_else, to_int, to_str, item, get,
}
use privacy_gateway_llm_appl.Gateway.Requests.{ChatMessage}

-- What one call hands to a client: a temperature and a limit go to **params if they are given.
pub record ProviderCall : Type 0 where
  pub model : Text
  pub messages : List ChatMessage
  pub temperature : Option Float
  pub max_tokens : Option ℕ

-- The response dict of all clients. Its "object" and the role of each choice are constants.
pub record Choice : Type 0 where
  pub index : ℕ
  pub content : Text
  pub finish_reason : Text

pub record ProviderResponse : Type 0 where
  pub id : Text
  pub model : Text
  pub choices : List Choice
  pub prompt_tokens : ℤ
  pub completion_tokens : ℤ

-- isinstance(content, str)
abbrev pub expect_text : Json → Result Text
expect_text (string t) = ok t
expect_text _ = raise type_error

-- isinstance(choices_in, list) and choices_in
abbrev pub expect_elements : Json → Result Elements
expect_elements (array (element v vs)) = ok (element v vs)
expect_elements _ = raise type_error

abbrev pub message_content : Json → Result Text
message_content choice = item choice (codes "message") >>= λ message.
    item message (codes "content") >>= λ content. expect_text content

module _ (py : Python) where
  -- str(data.get(key) or default)
  abbrev pub text_or : Json → Text → Text → Result Text
  text_or j key default = get j key >>= λ v. ok (to_str py (or_else v (string default)))

  -- int(usage.get(key) or 0)
  abbrev pub count_or_zero : Json → Text → Result ℤ
  count_or_zero j key = get j key >>= λ v. to_int py (or_else v (integer (pos 0)))

  -- the loop over enumerate(choices_in)
  unfoldable pub normalize_choices : ℕ → Elements → Result (List Choice)
  normalize_choices index no_elements = ok []
  normalize_choices index (element choice more) = message_content choice >>= λ content.
      text_or choice (codes "finish_reason") (codes "stop") >>= λ finish_reason.
      normalize_choices (index + 1) more >>= λ rest.
      ok ((record { index = index; content = content; finish_reason = finish_reason }) ∷ rest)

  -- the dict of the result, with the names that the provider gives to the two counts
  unfoldable pub response_of :
      Json → Text → Result (List Choice) → Json → Text → Text → Result ProviderResponse
  response_of data_in fallback_model choices_out usage prompt completion =
      text_or data_in (codes "id") [] >>= λ id.
      text_or data_in (codes "model") fallback_model >>= λ model. choices_out >>= λ choices.
      count_or_zero usage prompt >>= λ prompt_tokens.
      count_or_zero usage completion >>= λ completion_tokens. ok (record {
        id = id;
        model = model;
        choices = choices;
        prompt_tokens = prompt_tokens;
        completion_tokens = completion_tokens;
      })

  -- the body of the `try` in _normalize_openai_response
  unfoldable pub read_openai_response : Json → Text → Result ProviderResponse
  read_openai_response data_in fallback_model = item data_in (codes "choices") >>= λ choices.
      expect_elements choices >>= λ elements. normalize_choices 0 elements >>= λ choices_out.
      get data_in (codes "usage") >>= λ usage.
      response_of data_in fallback_model (ok choices_out) (or_else usage (object no_members))
        (codes "prompt_tokens") (codes "completion_tokens")

-- except (KeyError, TypeError, ValueError, IndexError, AttributeError)
abbrev pub is_shape_error : Exception → Bool
is_shape_error key_error = true
is_shape_error type_error = true
is_shape_error value_error = true
is_shape_error index_error = true
is_shape_error attribute_error = true
is_shape_error _ = false

abbrev pub or_response_error :
    (Exception → Bool) → Result ProviderResponse → Result ProviderResponse
or_response_error caught (ok r) = ok r
or_response_error caught (raise x) = raise (if caught x then gateway provider_response_error else x)

-- _normalize_openai_response
unfoldable pub normalize_openai_response : Python → Json → Text → Result ProviderResponse
normalize_openai_response py data_in fallback_model =
    or_response_error is_shape_error (read_openai_response py data_in fallback_model)

-- What client.post(..) does: it raises, or gives a response with the outcome of response.json().
pub data HttpOutcome : Type 0 where
  timeout_exception http_error : HttpOutcome
  other_exception : Exception → HttpOutcome
  response : (status_code : ℕ) → (json : Result Json) → HttpOutcome

-- the part of _post_json after the status tests
abbrev pub parse_body : Result Json → Result Json
parse_body (raise value_error) = raise (gateway provider_response_error)
parse_body (raise x) = raise x
parse_body (ok (object ms)) = ok (object ms)
parse_body (ok _) = raise (gateway provider_response_error)

-- _post_json
unfoldable pub post_json : HttpOutcome → Result Json
post_json timeout_exception = raise (gateway provider_timeout_error)
post_json http_error = raise (gateway provider_response_error)
post_json (other_exception x) = raise x
post_json (response status_code json) =
    if status_code == 401 || status_code == 403
    then raise (gateway provider_auth_error)
    else if leb 400 status_code
    then raise (gateway provider_response_error)
    else parse_body json
