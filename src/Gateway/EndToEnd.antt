-- ===== src/Gateway/EndToEnd.antt =====
-- A request through the whole handler of gateway/gateway_api.py to the mock provider of
-- gateway/llm_client.py and back.
use privacy_gateway_llm_appl.Prelude.{
  ℕ, ◌+◌, Text, List, none, some, Bool, ◌≡◌, All, map, length, lookup, text_eq,
}
use privacy_gateway_llm_appl.Errors.{ok}
use privacy_gateway_llm_appl.Policy.{Policy, tokenize}
use privacy_gateway_llm_appl.Providers.{ProviderCall}
use privacy_gateway_llm_appl.Providers.Clients.{MockClient, mock_chat}
use privacy_gateway_llm_appl.Gateway.{App, Surroundings, GatewayState, ChatResponse, scan_response}
use privacy_gateway_llm_appl.Gateway.Requests.{ChatMessage, ChatCompletionRequest, join_lines}
use privacy_gateway_llm_appl.Gateway.Chat.{contents_of}
use privacy_gateway_llm_appl.Gateway.Echo.{echo}

-- Detections whose entity types the policy tokenizes.
abbrev AreTokenized : Policy → List (Text × ℕ) → Type 0
AreTokenized policy detections = All (λ d. lookup d.0 policy ≡ some tokenize) detections

module _ (app : App) (env : Surroundings) (body : ChatCompletionRequest) where
  abbrev request_text : Text
  request_text = join_lines (map (λ (m : ChatMessage). m.content) body.messages)

  -- The mock provider answers the messages that are sent, the scan of its answer finds nothing, the
  -- record is written at the first attempt, and UTF-8 can encode what is hashed and what is returned.
  pub record IsCalm (client : MockClient) (sent : List ChatMessage) : Type 0 where
    pub answers : (call : ProviderCall) → env.chat call ≡ (mock_chat client call).0
    pub plain : client.responder ≡ none
    pub scanned : Bool
    pub scan :
        scan_response app.response_mediator (echo body.model sent)
        ≡ ok (echo body.model sent, scanned)
    pub prompt_hash : Text
    pub hashes_prompt : env.hash_messages sent ≡ ok prompt_hash
    pub response_hash : Text
    pub hashes_response : env.hash_texts (contents_of (echo body.model sent)) ≡ ok response_hash
    pub encoded : Text
    pub encodes : env.json_response (echo body.model body.messages) ≡ ok encoded
    pub commits : (env.audit_env.attempt 0).failure ≡ none
    pub saves : env.audit_env.save_failure ≡ none

  abbrev pub echoed : GatewayState → ChatResponse
  echoed s = record {
    content = echo body.model body.messages;
    request_id = env.request_id;
    audit_entry_id = 1 + length s.audit.rows;
  }
