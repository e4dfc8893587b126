-- ===== src/Gateway/Statuses.antt =====
-- The audit record of a request, and the status and the error code that the client gets.
use privacy_gateway_llm_appl.Prelude.{
  Text, List, [], ◌∷◌, Option, none, some, Bool, true, inl, inr, ◌≡◌, refl, sym, ap, ◌∙◌,
}
use privacy_gateway_llm_appl.Errors.{
  Exception, gateway, ErrorCode, GatewayError, policy_blocked_error, error_code, http_status,
  Result, ok, raise, Result-cases, raise-ne-ok,
}
use privacy_gateway_llm_appl.Policy.{PolicyDecision}
use privacy_gateway_llm_appl.Tokenization.{TokenizationContext}
use privacy_gateway_llm_appl.Audit.{AuditRecord, AuditState}
use privacy_gateway_llm_appl.Providers.{ProviderResponse}
use privacy_gateway_llm_appl.Gateway.{
  AuditPayload, App, Surroundings, GatewayState, ChatResponse, Detected, detect, rehydrate_response,
}
use privacy_gateway_llm_appl.Gateway.Requests.{ChatMessage, ChatCompletionRequest}
use privacy_gateway_llm_appl.Gateway.Chat.{
  fail_with, seal, after_redaction, after_scan, after_response_hash, after_chat, call_of,
  after_prompt_hash, after_apply, sanitized, unless_blocked, after_detect, chat_completions,
}
use privacy_gateway_llm_appl.Gateway.Evidence.{
  write, IsSanitized, Silence, redaction, prompt, answer_hash, redacted_content-raises,
}
use privacy_gateway_llm_appl.Gateway.Http.{gateway_error_handler, reply, reply_status}

-- The error code of what the handler returns or raises.
abbrev pub outcome_code : Result ChatResponse → Option ErrorCode
outcome_code (raise (gateway e)) = some (error_code e)
outcome_code _ = none

-- A payload and an outcome agree on status and error code.
abbrev pub Tells : AuditPayload → Result ChatResponse → Type 0
Tells p out =
    (reply_status (reply out) ≡ some p.response_status) × (outcome_code out ≡ p.error_code)

handled_status : (e : GatewayError) → (gateway_error_handler e).status_code ≡ http_status e
unfolding gateway_error_handler
handled_status (policy_blocked_error types) = refl
handled_status e = refl

module _ (app : App) (env : Surroundings) (body : ChatCompletionRequest) where
  -- What a stage leaves in the audit log, and what a record written there tells of the outcome.
  pub data Recorded (audit : AuditState) (out : Result ChatResponse × GatewayState) : Type 0 where
    unrecorded :
        (x : Exception)
        → out.0 ≡ raise x
        → out.1.audit ≡ audit
        → Silence app env body x
        → Recorded audit out
    unencoded :
        (p : AuditPayload) (r : AuditRecord AuditPayload) (context : Option TokenizationContext)
        (response : ProviderResponse) (x : Exception)
        → out.1.audit ≡ (write app env body p audit).1
        → (write app env body p audit).0 ≡ ok r
        → p.response_status ≡ 200
        → env.json_response (rehydrate_response body.rehydrate context response) ≡ raise x
        → out.0 ≡ raise x
        → Recorded audit out
    recorded :
        (p : AuditPayload)
        → out.1.audit ≡ (write app env body p audit).1
        → ((r : AuditRecord AuditPayload) → (write app env body p audit).0 ≡ ok r → Tells p out.0)
        → Recorded audit out

  fail_with-Recorded :
      (p : AuditPayload) (e : GatewayError) (s : GatewayState)
      → http_status e ≡ p.response_status
      → some (error_code e) ≡ p.error_code
      → Recorded s.audit (fail_with app env body p e s)
  unfolding fail_with
  fail_with-Recorded p e s status code =
      recorded p refl λ r written. rw written (ap some (handled_status e) ∙ ap some status, code)

  seal-Recorded :
      (p : AuditPayload) (context : Option TokenizationContext) (response : ProviderResponse)
      (s : GatewayState)
      → p.response_status ≡ 200
      → p.error_code ≡ none
      → Recorded s.audit (seal app env body p context response s)
  unfolding seal
  seal-Recorded p context response s status code =
      let content = rehydrate_response body.rehydrate context response in
      elim (Result-cases (write app env body p s.audit).0) [
        | inl (r, e) ↦ elim (Result-cases (env.json_response content)) [
          | inl (encoded, e') ↦
              recorded p refl λ r' written. rw (e, e') (ap some (sym status), sym code)
          | inr (x, e') ↦ unencoded p r context response x refl e status e' (rw (e, e') refl)
        ]
        | inr (x, e) ↦ recorded p refl λ r' written. absurd (raise-ne-ok (sym e ∙ written))
      ]

  after_redaction-Recorded :
      (ds : List PolicyDecision) (h h' : Text) (context : Option TokenizationContext)
      (response : ProviderResponse) (scanned : Bool) (r : Result (Option (List ChatMessage)))
      (s : GatewayState)
      → ((x : Exception) → r ≡ raise x → app.audit_store_redacted_content ≡ true)
      → Recorded s.audit (after_redaction app env body ds h h' context response scanned r s)
  after_redaction-Recorded ds h h' context response scanned (raise x) s why =
      unrecorded x refl refl (redaction (why x refl))
  after_redaction-Recorded ds h h' context response scanned (ok redacted) s why =
      seal-Recorded _ context response s refl refl

  after_scan-Recorded :
      (d : Detected) (h h' : Text) (context : Option TokenizationContext)
      (scan : Result (ProviderResponse × Bool)) (s : GatewayState)
      → Recorded s.audit (after_scan app env body d h h' context scan s)
  unfolding after_scan error_code http_status
  after_scan-Recorded d h h' context (raise x) s = fail_with-Recorded _ _ s refl refl
  after_scan-Recorded d h h' context (ok (response, scanned)) s =
      after_redaction-Recorded d.decisions h h' context response scanned _ s
        (redacted_content-raises app env body d)

  after_response_hash-Recorded :
      (d : Detected) (h : Text) (context : Option TokenizationContext) (response : ProviderResponse)
      (hash : Result Text) (s : GatewayState)
      → ((x : Exception) → hash ≡ raise x → Silence app env body x)
      → Recorded s.audit (after_response_hash app env body d h context response hash s)
  after_response_hash-Recorded d h context response (raise x) s why =
      unrecorded x refl refl (why x refl)
  after_response_hash-Recorded d h context response (ok h') s why =
      after_scan-Recorded d h h' context _ s

  after_chat-Recorded :
      (d : Detected) (h : Text) (context : Option TokenizationContext) (messages : List ChatMessage)
      (r : Result ProviderResponse) (s : GatewayState)
      → IsSanitized app env body messages
      → env.chat (call_of app env body messages) ≡ r
      → Recorded s.audit (after_chat app env body d h context r s)
  unfolding after_chat error_code http_status
  after_chat-Recorded d h context messages (raise (gateway e)) s sent same =
      fail_with-Recorded _ _ s refl refl
  after_chat-Recorded d h context messages (raise x) s sent same =
      fail_with-Recorded _ _ s refl refl
  after_chat-Recorded d h context messages (ok response) s sent same =
      after_response_hash-Recorded d h context response _ s
        λ x e. answer_hash messages response sent same e

  after_prompt_hash-Recorded :
      (d : Detected) (messages : List ChatMessage) (context : Option TokenizationContext)
      (hash : Result Text) (s : GatewayState)
      → IsSanitized app env body messages
      → ((x : Exception) → hash ≡ raise x → Silence app env body x)
      → Recorded s.audit (after_prompt_hash app env body d messages context hash s)
  after_prompt_hash-Recorded d messages context (raise x) s sent why =
      unrecorded x refl refl (why x refl)
  after_prompt_hash-Recorded d messages context (ok h) s sent why =
      after_chat-Recorded d h context messages _ _ sent refl

  after_apply-Recorded :
      (d : Detected) (out : Result (List ChatMessage) × Option TokenizationContext)
      (s : GatewayState)
      → detect app env body ≡ ok d
      → sanitized app env body d ≡ out
      → Recorded s.audit (after_apply app env body d out s)
  unfolding after_apply error_code http_status
  after_apply-Recorded d (raise x, context) s detection e = fail_with-Recorded _ _ s refl refl
  after_apply-Recorded d (ok messages, context) s detection e =
      let sent : IsSanitized app env body messages = record {
        detected = d;
        detection = detection;
        sanitization = ap (λ o. o.0) e;
      } in
      after_prompt_hash-Recorded d messages context _ s sent (λ x same. prompt messages sent same)

  unless_blocked-Recorded :
      (d : Detected) (blocked : List Text) (s : GatewayState)
      → detect app env body ≡ ok d
      → Recorded s.audit (unless_blocked app env body d blocked s)
  unfolding error_code http_status
  unless_blocked-Recorded d [] s detection =
      after_apply-Recorded d (sanitized app env body d) s detection refl
  unless_blocked-Recorded d (b ∷ blocked) s detection = fail_with-Recorded _ _ s refl refl

  after_detect-Recorded :
      (r : Result Detected) (s : GatewayState)
      → detect app env body ≡ r
      → Recorded s.audit (after_detect app env body r s)
  unfolding after_detect error_code http_status
  after_detect-Recorded (raise x) s detection = fail_with-Recorded _ _ s refl refl
  after_detect-Recorded (ok d) s detection = unless_blocked-Recorded d _ s detection

  -- A request appends to the audit log once, or raises and leaves the log alone; it leaves it alone
  -- only where redacted content was to be stored, or where the canonical hash of the sanitized
  -- messages or of the provider's choices raises. Where the append returns, the payload that it wrote has
  -- the HTTP status that the client gets and the error code of the exception, or none for a response;
  -- except where the JSON response cannot be encoded: then the payload has the status 200 and the
  -- handler raises what the encoding raises.
  pub chat_completions-Recorded :
      (s : GatewayState) → Recorded s.audit (chat_completions app env body s)
  unfolding chat_completions
  chat_completions-Recorded s = after_detect-Recorded (detect app env body) s refl
