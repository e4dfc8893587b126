-- ===== src/Providers/Clients.antt =====
-- MockLLMClient, the calls of a client, and build_client of gateway/llm_client.py.
use privacy_gateway_llm_appl.Prelude.{
  pos, Text, codes, List, [], ◌∷◌, ◌++◌, Option, none, some, Bool, true, false, text_eq, nat_eq,
  if◌then◌else◌,
}
use privacy_gateway_llm_appl.Errors.{Result, ok, ◌>>=◌}
use privacy_gateway_llm_appl.Json.{Python}
use privacy_gateway_llm_appl.Config.{Settings, Provider, mock, openai, anthropic}
use privacy_gateway_llm_appl.Gateway.Requests.{Role, user, ChatMessage}
use privacy_gateway_llm_appl.Providers.{ProviderCall, ProviderResponse}
use privacy_gateway_llm_appl.Providers.Adapters.{
  Transport, Adapter, new_adapter, openai_chat, anthropic_chat,
}

-- MockLLMClient: the requests seen, and the scripted responder, if there is one.
pub record MockClient : Type 0 where
  pub requests_seen : List ProviderCall
  pub responder : Option (Text → List ChatMessage → Result Text)

abbrev pub is_user : Role → Bool
is_user user = true
is_user _ = false

-- next((m["content"] for m in reversed(messages) if m["role"] == "user"), default)
unfoldable pub last_user : Text → List ChatMessage → Text
last_user default [] = default
last_user default (m ∷ ms) = last_user (if is_user m.role then m.content else default) ms

abbrev pub mock_content :
    Option (Text → List ChatMessage → Result Text) → ProviderCall → Result Text
mock_content none call =
    ok (codes "[mock LLM] I received your message: " ++ last_user [] call.messages)
mock_content (some responder) call = responder call.model call.messages

-- MockLLMClient.chat
unfoldable pub mock_chat : MockClient → ProviderCall → Result ProviderResponse × MockClient
mock_chat client call = (
  mock_content client.responder call >>= λ content. ok (record {
    id = codes "mock-completion-1";
    model = call.model;
    choices = (record { index = 0; content = content; finish_reason = codes "stop" }) ∷ [];
    prompt_tokens = pos 0;
    completion_tokens = pos 0;
  }),
  record client { requests_seen = client.requests_seen ++ call ∷ [] },
)

pub data LlmClient : Type 0 where
  openai_client anthropic_client : Adapter → LlmClient
  mock_client : MockClient → LlmClient

-- client.chat(..), and the client after it
unfoldable pub chat :
    Python → Transport → LlmClient → ProviderCall → Result ProviderResponse × LlmClient
chat py transport (openai_client a) call = (openai_chat py transport a call, openai_client a)
chat py transport (anthropic_client a) call =
    (anthropic_chat py transport a call, anthropic_client a)
chat py transport (mock_client c) call =
    let (answer, c') = mock_chat c call in (answer, mock_client c')

abbrev pub client_for : Provider → Settings → LlmClient
client_for openai s =
    openai_client (new_adapter s.openai_api_key s.openai_base_url s.provider_timeout_seconds)
client_for anthropic s =
    anthropic_client
      (new_adapter s.anthropic_api_key s.anthropic_base_url s.provider_timeout_seconds)
client_for mock s = mock_client (record { requests_seen = []; responder = none })

-- build_client
unfoldable pub build_client : Settings → LlmClient
build_client settings = client_for settings.provider settings
