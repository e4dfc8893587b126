-- ===== src/Gateway/Calls.antt =====
-- When the provider is called, and with what: the fail-closed guarantee of gateway/gateway_api.py.
use privacy_gateway_llm_appl.Prelude.{
  Text, List, [], ◌∷◌, ◌++◌, Option, some, Bool, ◌≡◌, ◌≢◌, ◌⊎◌, inl, inr, refl, ap, ◌∙◌, lookup,
  text_eq, map,
}
use privacy_gateway_llm_appl.Errors.{gateway, GatewayError, Result, ok, raise, Result-cases, ◌>>=◌}
use privacy_gateway_llm_appl.Policy.{PolicyDecision, block, blocked_entity_types, build_decisions}
use privacy_gateway_llm_appl.Policy.Decisions.{Member, scores_of}
use privacy_gateway_llm_appl.Policy.Blocking.{blocked_iff}
use privacy_gateway_llm_appl.Tokenization.{TokenizationContext, new_context}
use privacy_gateway_llm_appl.Mediator.{RecognizerResult}
use privacy_gateway_llm_appl.Providers.{ProviderResponse}
use privacy_gateway_llm_appl.Gateway.{
  AuditPayload, App, Surroundings, GatewayState, ChatResponse, Detected, analyze_all, detect,
  detections_of,
}
use privacy_gateway_llm_appl.Gateway.Requests.{ChatMessage, ChatCompletionRequest, join_lines}
use privacy_gateway_llm_appl.Gateway.Chat.{
  fail_with, seal, after_redaction, after_scan, after_response_hash, after_chat, after_prompt_hash,
  after_apply, call_of, sanitized, unless_blocked, after_detect, chat_completions,
}

module _ (app : App) (env : Surroundings) (body : ChatCompletionRequest) where
  fail_with-calls :
      (p : AuditPayload) (e : GatewayError) (s : GatewayState)
      → (fail_with app env body p e s).1.calls ≡ s.calls
  unfolding fail_with
  fail_with-calls p e s = refl

  after_redaction-calls :
      (ds : List PolicyDecision) (h h' : Text) (context : Option TokenizationContext)
      (response : ProviderResponse) (scanned : Bool) (r : Result (Option (List ChatMessage)))
      (s : GatewayState)
      → (after_redaction app env body ds h h' context response scanned r s).1.calls ≡ s.calls
  unfolding seal
  after_redaction-calls ds h h' context response scanned (raise x) s = refl
  after_redaction-calls ds h h' context response scanned (ok redacted) s = refl

  after_scan-calls :
      (d : Detected) (h h' : Text) (context : Option TokenizationContext)
      (scan : Result (ProviderResponse × Bool)) (s : GatewayState)
      → (after_scan app env body d h h' context scan s).1.calls ≡ s.calls
  unfolding after_scan fail_with
  after_scan-calls d h h' context (raise x) s = refl
  after_scan-calls d h h' context (ok (response, scanned)) s =
      after_redaction-calls d.decisions h h' context response scanned _ s

  after_response_hash-calls :
      (d : Detected) (h : Text) (context : Option TokenizationContext) (response : ProviderResponse)
      (hash : Result Text) (s : GatewayState)
      → (after_response_hash app env body d h context response hash s).1.calls ≡ s.calls
  after_response_hash-calls d h context response (raise x) s = refl
  after_response_hash-calls d h context response (ok h') s = after_scan-calls d h h' context _ s

  after_chat-calls :
      (d : Detected) (h : Text) (context : Option TokenizationContext) (r : Result ProviderResponse)
      (s : GatewayState)
      → (after_chat app env body d h context r s).1.calls ≡ s.calls
  unfolding after_chat fail_with
  after_chat-calls d h context (raise (gateway e)) s = refl
  after_chat-calls d h context (raise x) s = refl
  after_chat-calls d h context (ok response) s = after_response_hash-calls d h context response _ s

  -- The one call of a request: detection succeeded and found nothing to block, and the messages that
  -- are sent are the sanitized ones.
  pub record Called (s s' : GatewayState) : Type 0 where
    pub detected : Detected
    pub messages : List ChatMessage
    pub detection : detect app env body ≡ ok detected
    pub unblocked : blocked_entity_types detected.decisions ≡ []
    pub sanitization : (sanitized app env body detected).0 ≡ ok messages
    pub call : s'.calls ≡ s.calls ++ call_of app env body messages ∷ []

  prompt_hash_calls :
      (d : Detected) (s : GatewayState) (messages : List ChatMessage)
      (context : Option TokenizationContext) (hash : Result Text)
      → detect app env body ≡ ok d
      → blocked_entity_types d.decisions ≡ []
      → (sanitized app env body d).0 ≡ ok messages
      → ((after_prompt_hash app env body d messages context hash s).1.calls ≡ s.calls)
        ⊎ Called s (after_prompt_hash app env body d messages context hash s).1
  prompt_hash_calls d s messages context (raise x) detection free e = inl refl
  prompt_hash_calls d s messages context (ok h) detection free e = inr (record {
    detected = d;
    messages = messages;
    detection = detection;
    unblocked = free;
    sanitization = e;
    call = after_chat-calls d h context _ _;
  })

  apply_calls :
      (d : Detected) (s : GatewayState)
      (out : Result (List ChatMessage) × Option TokenizationContext)
      → detect app env body ≡ ok d
      → blocked_entity_types d.decisions ≡ []
      → sanitized app env body d ≡ out
      → ((after_apply app env body d out s).1.calls ≡ s.calls)
        ⊎ Called s (after_apply app env body d out s).1
  unfolding after_apply fail_with
  apply_calls d s (raise x, context) detection free e = inl refl
  apply_calls d s (ok messages, context) detection free e =
      prompt_hash_calls d s messages context _ detection free (ap (λ o. o.0) e)

  blocked_calls :
      (d : Detected) (s : GatewayState) (blocked : List Text)
      → detect app env body ≡ ok d
      → blocked_entity_types d.decisions ≡ blocked
      → ((unless_blocked app env body d blocked s).1.calls ≡ s.calls)
        ⊎ Called s (unless_blocked app env body d blocked s).1
  unfolding fail_with
  blocked_calls d s [] detection e = apply_calls d s (sanitized app env body d) detection e refl
  blocked_calls d s (b ∷ blocked) detection e = inl refl

  detect_calls :
      (s : GatewayState) (r : Result Detected)
      → detect app env body ≡ r
      → ((after_detect app env body r s).1.calls ≡ s.calls)
        ⊎ Called s (after_detect app env body r s).1
  unfolding after_detect fail_with
  detect_calls s (raise x) e = inl refl
  detect_calls s (ok d) e = blocked_calls d s (blocked_entity_types d.decisions) e refl

  -- A request makes no call of the provider, or one. It makes one only if detection succeeded, the
  -- policy blocks nothing that was found and every message was sanitized, and what it sends are the
  -- sanitized messages.
  pub provider_calls :
      (s : GatewayState)
      → ((chat_completions app env body s).1.calls ≡ s.calls)
        ⊎ Called s (chat_completions app env body s).1
  unfolding chat_completions
  provider_calls s = detect_calls s (detect app env body) refl

  detect_inverts :
      (d : Detected) {results : List (List RecognizerResult)}
      → detect app env body ≡ ok d
      → analyze_all app.mediator body.messages ≡ ok results
      → build_decisions env.round3 (detections_of results) app.mediator.policy ≡ ok d.decisions
  unfolding detect
  detect_inverts d {results} e a =
      let text = join_lines (map (λ (m : ChatMessage). m.content) body.messages) in
      let built = build_decisions env.round3 (detections_of results) app.mediator.policy in
      elim (Result-cases (new_context env.candidate text)) [
        | inl (context, c) ↦ elim (Result-cases built) [
          | inl (ds, b) ↦
              let e' = rw (c, a, b) at e in b ∙ ap (λ r. r >>= λ (d : Detected). ok d.decisions) e'
          | inr (x, b) ↦ let e' = rw (c, a, b) at e in cc
        ]
        | inr (x, c) ↦ let e' = rw c at e in cc
      ]

  Refused : GatewayState → Result ChatResponse × GatewayState → Type 0
  Refused s out = (out.1.calls ≡ s.calls) × ((r : ChatResponse) → out.0 ≢ ok r)

  blocked-Refused :
      (d : Detected) (s : GatewayState) (e : Text) (blocked : List Text)
      → Member e blocked
      → Refused s (unless_blocked app env body d blocked s)
  unfolding Refused fail_with
  blocked-Refused d s e [] m = absurd m
  blocked-Refused d s e (b ∷ blocked) m = (refl, λ r same. cc)

  detect-Refused :
      (s : GatewayState) (entity_type : Text) (results : List (List RecognizerResult))
      (out : Result Detected)
      → detect app env body ≡ out
      → analyze_all app.mediator body.messages ≡ ok results
      → lookup entity_type app.mediator.policy ≡ some block
      → scores_of entity_type (detections_of results) ≢ []
      → Refused s (after_detect app env body out s)
  unfolding after_detect fail_with Refused
  detect-Refused s entity_type results (raise x) e a blocks found = (refl, λ r same. cc)
  detect-Refused s entity_type results (ok d) e a blocks found =
      blocked-Refused d s entity_type (blocked_entity_types d.decisions) (
        (blocked_iff env.round3 app.mediator.policy (detections_of results) d.decisions
            (detect_inverts d e a) entity_type).1
          (blocks, found))

  -- If the analyzer returns for all messages, and finds in any of them an entity whose action in the
  -- policy is BLOCK, the provider is not called and the request is not answered with a response.
  pub block_refuses :
      (s : GatewayState) (entity_type : Text) (results : List (List RecognizerResult))
      → analyze_all app.mediator body.messages ≡ ok results
      → lookup entity_type app.mediator.policy ≡ some block
      → scores_of entity_type (detections_of results) ≢ []
      → ((chat_completions app env body s).1.calls ≡ s.calls)
        × ((r : ChatResponse) → (chat_completions app env body s).0 ≢ ok r)
  unfolding chat_completions Refused
  block_refuses s entity_type results a blocks found =
      detect-Refused s entity_type results (detect app env body) refl a blocks found
