-- ===== src/Providers/Examples.antt =====
-- Runs of gateway/llm_client.py on an answer with one choice and a field that is not known.
use privacy_gateway_llm_appl.Prelude.{
  finite_float, pos, Text, codes, [], ◌∷◌, none, true, false, ◌≡◌, refl, text_beq, ◌*◌, float_one,
  nat_eq,
}
use privacy_gateway_llm_appl.Errors.{value_error, ok, raise}
use privacy_gateway_llm_appl.Json.{
  Json, string, array, object, no_elements, element, Members, no_members, member, Python, item, get,
  find_key, is_true, to_int, to_str,
}
use privacy_gateway_llm_appl.Config.{
  Pydantic, Settings, Parsed, parsed, production, anthropic, load, range_errors, score_in_range,
  timeout_in_range, at_most, not_below_zero, above_zero, enforce_security_rules, production_rules,
}
use privacy_gateway_llm_appl.Providers.{
  ProviderCall, ProviderResponse, response, normalize_openai_response, read_openai_response,
  normalize_choices, response_of,
}
use privacy_gateway_llm_appl.Providers.Adapters.{Transport, Adapter}
use privacy_gateway_llm_appl.Providers.Clients.{build_client}
use privacy_gateway_llm_appl.Providers.Shapes.{
  join_members, IsUnknown, known_keys, AreCopied, normalize_drops_unknown, normalize-AreCopied,
}
use privacy_gateway_llm_appl.Providers.Credentials.{IsKeyed, build_client-IsKeyed}

abbrev python : Python
python = record { str_of = λ j. codes "None"; int_of_text = λ t. raise value_error }

abbrev greeting : Json
greeting = object (
    member (codes "message") (object (member (codes "content") (string (codes "Hello")) no_members))
      no_members)

abbrev answer_members : Members
answer_members = member (codes "choices") (array (element greeting no_elements)) no_members

abbrev hello : ProviderResponse
hello = record {
  id = [];
  model = codes "m";
  choices = (record { index = 0; content = codes "Hello"; finish_reason = codes "stop" }) ∷ [];
  prompt_tokens = pos 0;
  completion_tokens = pos 0;
}

normalizes : normalize_openai_response python (object answer_members) (codes "m") ≡ ok hello
unfolding normalize_openai_response read_openai_response normalize_choices response_of item get
    find_key text_beq is_true to_int to_str
normalizes = refl

normalize-AreCopied_example : AreCopied (object answer_members) hello.choices
normalize-AreCopied_example =
    normalize-AreCopied python (object answer_members) (codes "m") hello normalizes

echo-IsUnknown : IsUnknown (codes "echo") known_keys
unfolding text_beq
echo-IsUnknown = (refl, (refl, (refl, (refl, tt))))

normalize_drops_unknown_example :
    normalize_openai_response python
      (object
        (join_members answer_members (member (codes "echo") (string (codes "key")) no_members)))
      (codes "m")
    ≡ normalize_openai_response python (object (join_members answer_members no_members)) (codes "m")
normalize_drops_unknown_example =
    normalize_drops_unknown python (codes "echo") (string (codes "key")) answer_members no_members
      (codes "m") echo-IsUnknown

abbrev answering : Transport
answering request = response 200 (ok (object answer_members))

abbrev adapter : Adapter
adapter = record {
  api_key = codes "sk-1";
  base_url = codes "https://api.openai.com/v1";
  timeout = finite_float (record { is_negative = false; magnitude = 30 * float_one });
}

abbrev no_question : ProviderCall
no_question = record { model = codes "m"; messages = []; temperature = none; max_tokens = none }

abbrev claude_settings : Settings
claude_settings = record {
  app_env = production;
  provider = anthropic;
  openai_api_key = [];
  openai_base_url = codes "https://api.openai.com/v1";
  anthropic_api_key = codes "sk-2";
  anthropic_base_url = codes "https://api.anthropic.com";
  audit_db_path = codes "audit.db";
  audit_hmac_key = codes "0123456789abcdef0123456789abcdef";
  admin_api_key = [];
  audit_checkpoint_path = [];
  policy_file = [];
  score_threshold = finite_float (record { is_negative = false; magnitude = 0 });
  response_scan_enabled = true;
  audit_store_redacted_content = false;
  provider_timeout_seconds =
      finite_float (record { is_negative = false; magnitude = 30 * float_one });
}

abbrev parse_claude : Text → Parsed
parse_claude input = parsed claude_settings

abbrev lenient : Pydantic
lenient = record { loc = λ name. name; nan_passes = true }

claude_loads : load parse_claude lenient (codes "env") ≡ ok claude_settings
unfolding load range_errors score_in_range timeout_in_range at_most not_below_zero above_zero
    enforce_security_rules production_rules text_beq float_one
claude_loads = refl

build_client-IsKeyed_example : IsKeyed (build_client claude_settings)
build_client-IsKeyed_example =
    build_client-IsKeyed parse_claude lenient (codes "env") claude_settings claude_loads refl
