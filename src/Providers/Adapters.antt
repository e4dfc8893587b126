-- ===== src/Providers/Adapters.antt =====
-- OpenAIAdapter and AnthropicAdapter of gateway/llm_client.py.
use privacy_gateway_llm_appl.Prelude.{
  ℕ, pos, Float, AnyFloat, ◌==◌, ◌&&◌, Text, codes, List, [], ◌∷◌, ◌++◌, Option, none, some, Bool,
  true, false, text_eq, nat_eq, if◌then◌else◌,
}
use privacy_gateway_llm_appl.Errors.{
  Exception, key_error, type_error, value_error, attribute_error, Result, ok, raise, ◌>>=◌,
}
use privacy_gateway_llm_appl.Json.{
  Json, integer, float, string, array, object, Elements, no_elements, element, Members, no_members,
  member, Python, or_else, item, get,
}
use privacy_gateway_llm_appl.Gateway.Requests.{
  Role, system, user, assistant, ChatMessage, join_lines,
}
use privacy_gateway_llm_appl.Providers.{
  ProviderCall, ProviderResponse, or_response_error, expect_text, normalize_openai_response,
  response_of, text_or, HttpOutcome, post_json,
}

abbrev pub role_value : Role → Text
role_value system = codes "system"
role_value user = codes "user"
role_value assistant = codes "assistant"

-- A message dict.
abbrev pub message_json : ChatMessage → Json
message_json m = object (
    member (codes "role") (string (role_value m.role))
      (member (codes "content") (string m.content) no_members))

abbrev pub messages_json : List ChatMessage → Elements
messages_json [] = no_elements
messages_json (m ∷ ms) = element (message_json m) (messages_json ms)

-- The keys of **params.
abbrev pub temperature_member : Option Float → Members → Members
temperature_member none more = more
temperature_member (some t) more = member (codes "temperature") (float t) more

abbrev pub max_tokens_member : Option ℕ → Members → Members
max_tokens_member none more = more
max_tokens_member (some n) more = member (codes "max_tokens") (integer (pos n)) more

-- One POST: its URL, its headers and its body.
pub record HttpRequest : Type 0 where
  pub url : Text
  pub headers : List (Text × Text)
  pub body : Json
  pub timeout : AnyFloat

-- httpx.AsyncClient(..).post(..)
abbrev pub Transport : Type 0
Transport = HttpRequest → HttpOutcome

-- The attributes of OpenAIAdapter and AnthropicAdapter.
pub record Adapter : Type 0 where
  pub api_key : Text
  pub base_url : Text
  pub timeout : AnyFloat

-- base_url.rstrip("/")
unfoldable pub rstrip_slashes : Text → Text
rstrip_slashes [] = []
rstrip_slashes (c ∷ s) =
    let rest = rstrip_slashes s in if c == b'/' && rest == [] then [] else c ∷ rest

-- the two constructors
unfoldable pub new_adapter : Text → Text → AnyFloat → Adapter
new_adapter api_key base_url timeout = record {
  api_key = api_key;
  base_url = rstrip_slashes base_url;
  timeout = timeout;
}

unfoldable pub openai_request : Adapter → ProviderCall → HttpRequest
openai_request a call = record {
  url = a.base_url ++ codes "/chat/completions";
  headers = (codes "Authorization", codes "Bearer " ++ a.api_key) ∷ [];
  body = object (
      member (codes "model") (string call.model) (
        member (codes "messages") (array (messages_json call.messages))
          (temperature_member call.temperature (max_tokens_member call.max_tokens no_members))));
  timeout = a.timeout;
}

-- OpenAIAdapter.chat
unfoldable pub openai_chat : Python → Transport → Adapter → ProviderCall → Result ProviderResponse
openai_chat py transport a call = post_json (transport (openai_request a call)) >>= λ answer.
    normalize_openai_response py answer call.model

abbrev pub is_system : Role → Bool
is_system system = true
is_system _ = false

-- [m["content"] for m in messages if m["role"] == "system"]
unfoldable pub system_parts : List ChatMessage → List Text
system_parts [] = []
system_parts (m ∷ ms) = if is_system m.role then m.content ∷ system_parts ms else system_parts ms

-- [m for m in messages if m["role"] != "system"]
unfoldable pub chat_messages : List ChatMessage → List ChatMessage
chat_messages [] = []
chat_messages (m ∷ ms) = if is_system m.role then chat_messages ms else m ∷ chat_messages ms

abbrev or_1024 : Option ℕ → ℕ
or_1024 none = 1024
or_1024 (some n) = n

abbrev pub system_member : List Text → Members
system_member [] = no_members
system_member (t ∷ ts) = member (codes "system") (string (join_lines (t ∷ ts))) no_members

unfoldable pub anthropic_request : Adapter → ProviderCall → HttpRequest
anthropic_request a call = record {
  url = a.base_url ++ codes "/v1/messages";
  headers = (codes "x-api-key", a.api_key) ∷ (codes "anthropic-version", codes "2023-06-01") ∷ [];
  body = object (
      member (codes "model") (string call.model) (
        member (codes "messages") (array (messages_json (chat_messages call.messages))) (
          member (codes "max_tokens") (integer (pos (or_1024 call.max_tokens)))
            (temperature_member call.temperature (system_member (system_parts call.messages))))));
  timeout = a.timeout;
}

abbrev pub list_of : Elements → List Json
list_of no_elements = []
list_of (element v vs) = v ∷ list_of vs

abbrev characters : Text → List Json
characters [] = []
characters (c ∷ cs) = string (c ∷ []) ∷ characters cs

abbrev keys_of : Members → List Json
keys_of no_members = []
keys_of (member k v ms) = string k ∷ keys_of ms

-- What a `for` loop over a value goes through: a string its characters, a dict its keys.
unfoldable pub iterate : Json → Result (List Json)
iterate (array elements) = ok (list_of elements)
iterate (string t) = ok (characters t)
iterate (object members) = ok (keys_of members)
iterate _ = raise type_error

-- block.get("type") == "text"
abbrev pub is_text_type : Json → Bool
is_text_type (string t) = t == codes "text"
is_text_type _ = false

-- [block["text"] for block in .. if block.get("type") == "text"]
unfoldable pub block_texts : List Json → Result (List Json)
block_texts [] = ok []
block_texts (block ∷ blocks) =
    let more = block_texts blocks in
    get block (codes "type") >>= λ type.
    if is_text_type type
    then (item block (codes "text") >>= λ text. more >>= λ texts. ok (text ∷ texts))
    else more

-- "".join(..)
unfoldable pub join_texts : List Json → Result Text
join_texts [] = ok []
join_texts (v ∷ vs) = expect_text v >>= λ t. join_texts vs >>= λ ts. ok (t ++ ts)

-- the body of the `try` in AnthropicAdapter.chat
unfoldable pub read_anthropic_response : Python → Json → Text → Result ProviderResponse
read_anthropic_response py answer model = item answer (codes "content") >>= λ content.
    iterate content >>= λ blocks. block_texts blocks >>= λ texts. join_texts texts >>= λ text.
    get answer (codes "usage") >>= λ usage.
    response_of py answer model
      (text_or py answer (codes "stop_reason") (codes "stop") >>= λ finish_reason.
        ok ((record { index = 0; content = text; finish_reason = finish_reason }) ∷ []))
      (or_else usage (object no_members)) (codes "input_tokens") (codes "output_tokens")

-- except (KeyError, TypeError, ValueError, AttributeError)
abbrev pub is_block_error : Exception → Bool
is_block_error key_error = true
is_block_error type_error = true
is_block_error value_error = true
is_block_error attribute_error = true
is_block_error _ = false

-- AnthropicAdapter.chat
unfoldable pub anthropic_chat :
    Python → Transport → Adapter → ProviderCall → Result ProviderResponse
anthropic_chat py transport a call = post_json (transport (anthropic_request a call)) >>= λ answer.
    or_response_error is_block_error (read_anthropic_response py answer call.model)
