-- ===== src/Gateway/Chat.antt =====
-- The handler chat_completions of gateway/gateway_api.py, one definition for each of its stages.
-- `append` is called once on every path but those where redact_all or one of the two hashes raises.
use privacy_gateway_llm_appl.Prelude.{
  Text, codes, List, [], ◌∷◌, ◌++◌, Option, none, some, Bool, true, false, ℕ, map, if◌then◌else◌,
}
use privacy_gateway_llm_appl.Errors.{
  Exception, gateway, ErrorCode, detector_failure, policy_blocked, provider_response,
  response_scan_failure, GatewayError, detector_failure_error, policy_blocked_error,
  provider_response_error, response_scan_failure_error, error_code, http_status, Result, ok, raise,
  ◌>>=◌,
}
use privacy_gateway_llm_appl.Policy.{PolicyDecision, blocked_entity_types}
use privacy_gateway_llm_appl.Tokenization.{TokenizationContext}
use privacy_gateway_llm_appl.Audit.{AuditRecord}
use privacy_gateway_llm_appl.Audit.Append.{append}
use privacy_gateway_llm_appl.Providers.{Choice, ProviderResponse, ProviderCall}
use privacy_gateway_llm_appl.Gateway.{
  AuditPayload, App, Surroundings, GatewayState, ChatResponse, Detected, detect, apply_all,
  redact_messages, scan_response, rehydrate_response,
}
use privacy_gateway_llm_appl.Gateway.Requests.{ChatMessage, ChatCompletionRequest}

-- What reaches the client where `audit_safe` wrote, or failed to write, a record of an error.
abbrev pub reported : GatewayError → Result (AuditRecord AuditPayload) → Exception
reported error (ok r) = gateway error
reported error (raise (gateway e)) = gateway error
reported error (raise x) = x

-- the contents that response_hash is made of
abbrev pub contents_of : ProviderResponse → List Text
contents_of response = map (λ (c : Choice). c.content) response.choices

module _ (app : App) (env : Surroundings) (body : ChatCompletionRequest) where
  -- _base_payload() with the keys that every payload has
  abbrev pub payload : Text → Text → Bool → ℕ → Option ErrorCode → AuditPayload
  payload event status blocked http code = record {
    request_id = env.request_id;
    provider = app.provider;
    model = body.model;
    duration_ms = env.duration_ms;
    event = event;
    status = status;
    request_blocked = blocked;
    response_status = http;
    error_code = code;
    policy_decisions = none;
    blocked_types = none;
    prompt_hash = none;
    response_hash = none;
    provider_duration_ms = none;
    response_scanned = none;
    provider_contacted = none;
    response_returned_to_client = none;
    rehydrated_for_client = none;
    contains_redacted_content = none;
    redacted_messages = none;
  }

  -- _audit_safe, and the exception raised after it
  unfoldable pub fail_with :
      AuditPayload → GatewayError → GatewayState → Result ChatResponse × GatewayState
  fail_with p error s =
      let (written, audit) = append app.audit_logger env.audit_env p s.audit in
      (raise (reported error written), record s { audit = audit })

  abbrev pub detector_payload : Option (List PolicyDecision) → AuditPayload
  detector_payload decisions =
      record (payload (codes "detector_failure") (codes "error") false 500
        (some detector_failure)) { policy_decisions = decisions }

  abbrev pub blocked_payload : List PolicyDecision → List Text → AuditPayload
  blocked_payload decisions blocked =
      record (payload (codes "policy_blocked") (codes "blocked") true 400 (some policy_blocked)) {
        policy_decisions = some decisions;
        blocked_types = some blocked;
      }

  abbrev provider_payload : List PolicyDecision → Text → ℕ → ErrorCode → AuditPayload
  provider_payload decisions prompt_hash http code =
      record (payload (codes "provider_error") (codes "error") false http (some code)) {
        policy_decisions = some decisions;
        prompt_hash = some prompt_hash;
      }

  abbrev scan_payload : List PolicyDecision → Text → Text → AuditPayload
  scan_payload decisions prompt_hash response_hash =
      record (payload (codes "response_scan_failure") (codes "error") false 500
        (some response_scan_failure)) {
          policy_decisions = some decisions;
          prompt_hash = some prompt_hash;
          response_hash = some response_hash;
          provider_duration_ms = some env.provider_duration_ms;
          response_scanned = some false;
          provider_contacted = some true;
          response_returned_to_client = some false;
        }

  abbrev pub completion_payload :
      List PolicyDecision → Text → Text → Bool → Option (List ChatMessage) → AuditPayload
  completion_payload decisions prompt_hash response_hash scanned redacted =
      record (payload (codes "chat_completion") (codes "ok") false 200 none) {
        policy_decisions = some decisions;
        prompt_hash = some prompt_hash;
        response_hash = some response_hash;
        provider_duration_ms = some env.provider_duration_ms;
        response_scanned = some scanned;
        rehydrated_for_client = some body.rehydrate;
        contains_redacted_content = some app.audit_store_redacted_content;
        redacted_messages = redacted;
      }

  abbrev pub answer :
      Option TokenizationContext
      → ProviderResponse
      → Result (AuditRecord AuditPayload)
      → Result ChatResponse
  answer context response written = written >>= λ r.
      let content = rehydrate_response body.rehydrate context response in
      env.json_response content >>= λ encoded.
      ok (record { content = content; request_id = env.request_id; audit_entry_id = r.id })

  -- _audit_or_fail, the rehydration and the response
  unfoldable pub seal :
      AuditPayload
      → Option TokenizationContext
      → ProviderResponse
      → GatewayState
      → Result ChatResponse × GatewayState
  seal p context response s =
      let (written, audit) = append app.audit_logger env.audit_env p s.audit in
      (answer context response written, record s { audit = audit })

  -- `redacted_messages`, where the settings ask for them
  unfoldable pub redacted_content : Detected → Result (Option (List ChatMessage))
  redacted_content d =
      if app.audit_store_redacted_content
      then (redact_messages app.mediator body.messages d.results >>= λ ms. ok (some ms))
      else ok none

  abbrev pub after_redaction :
      List PolicyDecision
      → Text
      → Text
      → Option TokenizationContext
      → ProviderResponse
      → Bool
      → Result (Option (List ChatMessage))
      → GatewayState
      → Result ChatResponse × GatewayState
  after_redaction decisions prompt_hash response_hash context response scanned (raise x) s =
      (raise x, s)
  after_redaction decisions prompt_hash response_hash context response scanned (ok redacted) s =
      seal (completion_payload decisions prompt_hash response_hash scanned redacted) context
        response s

  -- from the outcome of the response scan on
  unfoldable pub after_scan :
      Detected
      → Text
      → Text
      → Option TokenizationContext
      → Result (ProviderResponse × Bool)
      → GatewayState
      → Result ChatResponse × GatewayState
  after_scan d prompt_hash response_hash context (raise x) s =
      fail_with (scan_payload d.decisions prompt_hash response_hash) response_scan_failure_error s
  after_scan d prompt_hash response_hash context (ok (response, scanned)) s =
      after_redaction d.decisions prompt_hash response_hash context response scanned
        (redacted_content d) s

  -- from the canonical hash of the answer on, which stands outside every `try`
  abbrev pub after_response_hash :
      Detected
      → Text
      → Option TokenizationContext
      → ProviderResponse
      → Result Text
      → GatewayState
      → Result ChatResponse × GatewayState
  after_response_hash d prompt_hash context response (raise x) s = (raise x, s)
  after_response_hash d prompt_hash context response (ok response_hash) s =
      after_scan d prompt_hash response_hash context (scan_response app.response_mediator response)
        s

  -- from the outcome of the provider call on
  unfoldable pub after_chat :
      Detected
      → Text
      → Option TokenizationContext
      → Result ProviderResponse
      → GatewayState
      → Result ChatResponse × GatewayState
  after_chat d prompt_hash context (raise (gateway e)) s =
      fail_with (provider_payload d.decisions prompt_hash (http_status e) (error_code e)) e s
  after_chat d prompt_hash context (raise x) s =
      fail_with (provider_payload d.decisions prompt_hash 502 provider_response)
        provider_response_error s
  after_chat d prompt_hash context (ok response) s =
      after_response_hash d prompt_hash context response (env.hash_texts (contents_of response)) s

  abbrev pub call_of : List ChatMessage → ProviderCall
  call_of messages = record {
    model = body.model;
    messages = messages;
    temperature = body.temperature;
    max_tokens = body.max_tokens;
  }

  -- from the canonical hash of the sanitized messages on, which stands outside every `try`
  abbrev pub after_prompt_hash :
      Detected
      → List ChatMessage
      → Option TokenizationContext
      → Result Text
      → GatewayState
      → Result ChatResponse × GatewayState
  after_prompt_hash d messages context (raise x) s = (raise x, s)
  after_prompt_hash d messages context (ok prompt_hash) s =
      after_chat d prompt_hash context (env.chat (call_of messages))
        (record s { calls = s.calls ++ call_of messages ∷ [] })

  -- from the outcome of the sanitization on
  unfoldable pub after_apply :
      Detected
      → Result (List ChatMessage) × Option TokenizationContext
      → GatewayState
      → Result ChatResponse × GatewayState
  after_apply d (raise x, context) s =
      fail_with (detector_payload (some d.decisions)) detector_failure_error s
  after_apply d (ok messages, context) s =
      after_prompt_hash d messages context (env.hash_messages messages) s

  abbrev pub sanitized : Detected → Result (List ChatMessage) × Option TokenizationContext
  sanitized d = apply_all app.mediator body.messages d.results (some d.context)

  abbrev pub unless_blocked :
      Detected → List Text → GatewayState → Result ChatResponse × GatewayState
  unless_blocked d [] s = after_apply d (sanitized d) s
  unless_blocked d (b ∷ blocked) s =
      fail_with (blocked_payload d.decisions (b ∷ blocked)) (policy_blocked_error (b ∷ blocked)) s

  -- from the outcome of detection on
  unfoldable pub after_detect : Result Detected → GatewayState → Result ChatResponse × GatewayState
  after_detect (raise x) s = fail_with (detector_payload none) detector_failure_error s
  after_detect (ok d) s = unless_blocked d (blocked_entity_types d.decisions) s

  unfoldable pub chat_completions : GatewayState → Result ChatResponse × GatewayState
  chat_completions s = after_detect (detect app env body) s
