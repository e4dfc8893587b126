-- ===== src/Gateway.antt =====
-- gateway/gateway_api.py: the chat pipeline, from the validated request to the response or the
-- exception, with the audit log, the calls of the provider and the token context as explicit state.
-- Clocks, UUIDs, canonical hashes, the encoding of the JSON response and the provider are fields of
-- `Surroundings`; the hashes and the encoding raise for a text that UTF-8 cannot encode.
pub mod Requests
pub mod Chat
pub mod Calls
pub mod Threading
pub mod Echo
pub mod EndToEnd
pub mod EchoExamples
pub mod Serving
pub mod EvidenceExamples
pub mod Evidence
pub mod Records
pub mod Http
pub mod Statuses
pub mod Admin
pub mod Access
pub mod Pages
pub mod Application
pub mod Scanning
pub mod Examples
pub mod ServingExamples
use privacy_gateway_llm_appl.Prelude.{
  ℕ, ◌*◌, Text, codes, List, [], ◌∷◌, ◌++◌, Option, none, some, Bool, true, false, ◌&&◌, ltb, map,
  if◌then◌else◌,
}
use privacy_gateway_llm_appl.Errors.{
  Exception, gateway, value_error, ErrorCode, detector_failure, policy_blocked, provider_response,
  response_scan_failure, GatewayError, detector_failure_error, policy_blocked_error,
  provider_response_error, response_scan_failure_error, error_code, http_status, Result, ok, raise,
  ◌>>=◌,
}
use privacy_gateway_llm_appl.Policy.{PolicyDecision, build_decisions, blocked_entity_types}
use privacy_gateway_llm_appl.Tokenization.{
  TokenizationContext, new_context, rehydrate, clear, context_length,
}
use privacy_gateway_llm_appl.Mediator.{RecognizerResult, PiiMediator, analyze, apply, redact_all}
use privacy_gateway_llm_appl.Audit.{AuditLogger, AuditRecord, AuditState}
use privacy_gateway_llm_appl.Audit.Append.{AppendEnv, append}
use privacy_gateway_llm_appl.Providers.{ProviderCall, Choice, ProviderResponse}
use privacy_gateway_llm_appl.Gateway.Requests.{ChatMessage, ChatCompletionRequest, join_lines}

-- The keys of an audit payload; `none` is a key that is absent, for error_code the value None.
pub record AuditPayload : Type 0 where
  pub request_id : Text
  pub provider : Text
  pub model : Text
  pub duration_ms : Text
  pub event : Text
  pub status : Text
  pub request_blocked : Bool
  pub response_status : ℕ
  pub error_code : Option ErrorCode
  pub policy_decisions : Option (List PolicyDecision)
  pub blocked_types : Option (List Text)
  pub prompt_hash : Option Text
  pub response_hash : Option Text
  pub provider_duration_ms : Option Text
  pub response_scanned : Option Bool
  pub provider_contacted : Option Bool
  pub response_returned_to_client : Option Bool
  pub rehydrated_for_client : Option Bool
  pub contains_redacted_content : Option Bool
  pub redacted_messages : Option (List ChatMessage)

-- app.state and the settings that the handler reads.
pub record App : Type 0 where
  pub provider : Text
  pub audit_store_redacted_content : Bool
  pub mediator : PiiMediator
  pub response_mediator : Option PiiMediator
  pub audit_logger : AuditLogger AuditPayload

pub record Surroundings : Type 0 where
  pub request_id : Text
  pub duration_ms : Text
  pub provider_duration_ms : Text
  pub candidate : ℕ → Text
  pub round3 : ℕ → ℕ
  pub hash_messages : List ChatMessage → Result Text
  pub hash_texts : List Text → Result Text
  pub json_response : ProviderResponse → Result Text
  pub chat : ProviderCall → Result ProviderResponse
  pub audit_env : AppendEnv

-- What outlives a request: the audit log, and the calls that the provider has received.
pub record GatewayState : Type 0 where
  pub audit : AuditState
  pub calls : List ProviderCall

pub record ChatResponse : Type 0 where
  pub content : ProviderResponse
  pub request_id : Text
  pub audit_entry_id : ℕ

-- What is known after the fail-closed zone for detection and policy evaluation.
pub record Detected : Type 0 where
  pub context : TokenizationContext
  pub results : List (List RecognizerResult)
  pub decisions : List PolicyDecision

unfoldable pub analyze_all : PiiMediator → List ChatMessage → Result (List (List RecognizerResult))
analyze_all m [] = ok []
analyze_all m (message ∷ messages) =
    analyze m message.content >>= λ r. analyze_all m messages >>= λ rest. ok (r ∷ rest)

abbrev scored : List RecognizerResult → List (Text × ℕ)
scored results = map (λ (r : RecognizerResult). (r.entity_type, r.score)) results

abbrev pub detections_of : List (List RecognizerResult) → List (Text × ℕ)
detections_of [] = []
detections_of (results ∷ rest) = scored results ++ detections_of rest

-- the first `try` block
unfoldable pub detect : App → Surroundings → ChatCompletionRequest → Result Detected
detect app env body = do
  context ←
      new_context env.candidate (join_lines (map (λ (m : ChatMessage). m.content) body.messages))
  results ← analyze_all app.mediator body.messages
  decisions ← build_decisions env.round3 (detections_of results) app.mediator.policy
  ok (record { context = context; results = results; decisions = decisions })

abbrev with_content :
    ChatMessage
    → Result (List ChatMessage) × Option TokenizationContext
    → Text
    → Result (List ChatMessage) × Option TokenizationContext
with_content message (ok rest, context) content =
    (ok (record message { content = content } ∷ rest), context)
with_content message (raise x, context) content = (raise x, context)

-- the second `try` block: mediator.apply on every message, with one context; zip is strict
unfoldable pub apply_all :
    PiiMediator
    → List ChatMessage
    → List (List RecognizerResult)
    → Option TokenizationContext
    → Result (List ChatMessage) × Option TokenizationContext
apply_all m [] [] context = (ok [], context)
apply_all m (message ∷ messages) (results ∷ more) context =
    let (first, context') = apply m message.content results context in
    let rest = apply_all m messages more context' in
    elim first [ ok content ↦ with_content message rest content | raise x ↦ (raise x, context') ]
apply_all m _ _ context = (raise value_error, context)

unfoldable pub redact_messages :
    PiiMediator → List ChatMessage → List (List RecognizerResult) → Result (List ChatMessage)
redact_messages m [] [] = ok []
redact_messages m (message ∷ messages) (results ∷ more) =
    redact_all m message.content results >>= λ content.
    redact_messages m messages more >>= λ rest. ok (record message { content = content } ∷ rest)
redact_messages m _ _ = raise value_error

-- the loop of the response scan
unfoldable pub scan_choices : PiiMediator → List Choice → Result (List Choice)
scan_choices m [] = ok []
scan_choices m (choice ∷ choices) = analyze m choice.content >>= λ results.
    (apply m choice.content results none).0 >>= λ content.
    scan_choices m choices >>= λ rest. ok (record choice { content = content } ∷ rest)

-- the response, and `response_scanned`
unfoldable pub scan_response :
    Option PiiMediator → ProviderResponse → Result (ProviderResponse × Bool)
scan_response none response = ok (response, false)
scan_response (some m) response =
    scan_choices m response.choices >>= λ choices. ok (record response { choices = choices }, true)

unfoldable pub rehydrate_response :
    Bool → Option TokenizationContext → ProviderResponse → ProviderResponse
rehydrate_response wanted none response = response
rehydrate_response wanted (some context) response =
    if wanted && ltb 0 (context_length context)
    then record response {
      choices =
          map (λ (c : Choice). record c { content = rehydrate context c.content }) response.choices;
    }
    else response
