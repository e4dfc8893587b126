-- ===== src/Gateway/EchoExamples.antt =====
-- A request with a name through gateway/gateway_api.py to the mock provider and back.
use privacy_gateway_llm_appl.Prelude.{codes, List, [], ◌∷◌, none, true, false}
use privacy_gateway_llm_appl.Mediator.Examples.{mediator_finding, person, ann_token}
use privacy_gateway_llm_appl.Providers.Clients.{MockClient, mock_chat}
use privacy_gateway_llm_appl.Gateway.{App, Surroundings}
use privacy_gateway_llm_appl.Gateway.Requests.{ChatMessage, ChatCompletionRequest, user}
use privacy_gateway_llm_appl.Gateway.Examples.{gateway_logger, surroundings}

abbrev mock : MockClient
mock = record { requests_seen = []; responder = none }

abbrev pub echo_app : App
echo_app = record {
  provider = codes "mock";
  audit_store_redacted_content = false;
  mediator = mediator_finding (person ∷ []);
  response_mediator = none;
  audit_logger = gateway_logger;
}

abbrev echo_surroundings : Surroundings
echo_surroundings = record surroundings { chat = λ call. (mock_chat mock call).0 }

abbrev introduction : ChatCompletionRequest
introduction = record {
  model = codes "m";
  messages = (record { role = user; content = codes "Ann" }) ∷ [];
  temperature = none;
  max_tokens = none;
  metadata = [];
  rehydrate = true;
}

abbrev sent_messages : List ChatMessage
sent_messages = (record { role = user; content = ann_token }) ∷ []
