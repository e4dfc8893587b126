-- ===== src/Gateway/Evidence.antt =====
-- What the stages of the chat handler of gateway/gateway_api.py do with the audit log: one append, or
-- nothing, and then for which reason.
use privacy_gateway_llm_appl.Prelude.{
  Text, List, [], ◌∷◌, Option, none, Bool, true, Bool-cases, ◌≡◌, inl, inr, refl, sym, ap, ◌∙◌,
}
use privacy_gateway_llm_appl.Errors.{
  Exception, gateway, GatewayError, Result, ok, raise, Result-cases, raise-ne-ok,
}
use privacy_gateway_llm_appl.Policy.{PolicyDecision}
use privacy_gateway_llm_appl.Tokenization.{TokenizationContext}
use privacy_gateway_llm_appl.Audit.{AuditRecord, AuditState}
use privacy_gateway_llm_appl.Audit.Append.{append}
use privacy_gateway_llm_appl.Providers.{ProviderResponse}
use privacy_gateway_llm_appl.Gateway.{
  AuditPayload, App, Surroundings, GatewayState, ChatResponse, Detected, detect, rehydrate_response,
}
use privacy_gateway_llm_appl.Gateway.Requests.{ChatMessage, ChatCompletionRequest}
use privacy_gateway_llm_appl.Gateway.Chat.{
  fail_with, seal, redacted_content, after_redaction, after_scan, contents_of, after_response_hash,
  after_chat, call_of, after_prompt_hash, after_apply, sanitized, unless_blocked, after_detect,
  chat_completions,
}

module _ (app : App) (env : Surroundings) (body : ChatCompletionRequest) where
  abbrev pub write : AuditPayload → AuditState → Result (AuditRecord AuditPayload) × AuditState
  write p audit = append app.audit_logger env.audit_env p audit

  -- The messages that sanitization gives for a request.
  pub record IsSanitized (messages : List ChatMessage) : Type 0 where
    pub detected : Detected
    pub detection : detect app env body ≡ ok detected
    pub sanitization : (sanitized app env body detected).0 ≡ ok messages

  -- Why a request may end without a record: redacted content was to be stored, or a canonical hash
  -- raised, for the messages that sanitization gave or for the choices that the provider answered with.
  pub data Silence (x : Exception) : Type 0 where
    redaction : app.audit_store_redacted_content ≡ true → Silence x
    prompt :
        (messages : List ChatMessage)
        → IsSanitized messages
        → env.hash_messages messages ≡ raise x
        → Silence x
    answer_hash :
        (messages : List ChatMessage) (response : ProviderResponse)
        → IsSanitized messages
        → env.chat (call_of app env body messages) ≡ ok response
        → env.hash_texts (contents_of response) ≡ raise x
        → Silence x

  -- What a stage does with the audit log: nothing, for a reason of `Silence`, or one append;
  -- and a response has the id of the record that the append returned, for a completed request.
  pub data Audited (audit : AuditState) (out : Result ChatResponse × GatewayState) : Type 0 where
    silent : (x : Exception) → out.0 ≡ raise x → out.1.audit ≡ audit → Silence x → Audited audit out
    failed :
        (p : AuditPayload) (x : Exception)
        → out.0 ≡ raise x
        → out.1.audit ≡ (write p audit).1
        → Audited audit out
    completed :
        (p : AuditPayload) (r : AuditRecord AuditPayload) (response : ChatResponse)
        → (write p audit).0 ≡ ok r
        → out.0 ≡ ok response
        → out.1.audit ≡ (write p audit).1
        → response.audit_entry_id ≡ r.id
        → p.response_status ≡ 200
        → Audited audit out

  fail_with-Audited :
      (p : AuditPayload) (e : GatewayError) (s : GatewayState)
      → Audited s.audit (fail_with app env body p e s)
  unfolding fail_with
  fail_with-Audited p e s = failed p _ refl refl

  seal-Audited :
      (p : AuditPayload) (context : Option TokenizationContext) (response : ProviderResponse)
      (s : GatewayState)
      → p.response_status ≡ 200
      → Audited s.audit (seal app env body p context response s)
  unfolding seal
  seal-Audited p context response s ok_status =
      let content = rehydrate_response body.rehydrate context response in
      elim (Result-cases (write p s.audit).0) [
        | inl (r, e) ↦ elim (Result-cases (env.json_response content)) [
          | inl (encoded, e') ↦
              let response' : ChatResponse = record {
                content = content;
                request_id = env.request_id;
                audit_entry_id = r.id;
              } in
              completed p r response' e (rw (e, e') refl) refl refl ok_status
          | inr (x, e') ↦ failed p x (rw (e, e') refl) refl
        ]
        | inr (x, e) ↦ failed p x (rw e refl) refl
      ]

  after_redaction-Audited :
      (ds : List PolicyDecision) (h h' : Text) (context : Option TokenizationContext)
      (response : ProviderResponse) (scanned : Bool) (r : Result (Option (List ChatMessage)))
      (s : GatewayState)
      → ((x : Exception) → r ≡ raise x → app.audit_store_redacted_content ≡ true)
      → Audited s.audit (after_redaction app env body ds h h' context response scanned r s)
  after_redaction-Audited ds h h' context response scanned (raise x) s why =
      silent x refl refl (redaction (why x refl))
  after_redaction-Audited ds h h' context response scanned (ok redacted) s why =
      seal-Audited _ context response s refl

  pub redacted_content-raises :
      (d : Detected) (x : Exception)
      → redacted_content app env body d ≡ raise x
      → app.audit_store_redacted_content ≡ true
  unfolding redacted_content
  redacted_content-raises d x e = elim (Bool-cases app.audit_store_redacted_content) [
    | inl stored ↦ stored
    | inr dropped ↦
        let returned : redacted_content app env body d ≡ ok none =
          rw (redacted_content, dropped) refl in
        absurd (raise-ne-ok (sym e ∙ returned))
  ]

  after_scan-Audited :
      (d : Detected) (h h' : Text) (context : Option TokenizationContext)
      (scan : Result (ProviderResponse × Bool)) (s : GatewayState)
      → Audited s.audit (after_scan app env body d h h' context scan s)
  unfolding after_scan
  after_scan-Audited d h h' context (raise x) s = fail_with-Audited _ _ s
  after_scan-Audited d h h' context (ok (response, scanned)) s =
      after_redaction-Audited d.decisions h h' context response scanned _ s
        (redacted_content-raises d)

  after_response_hash-Audited :
      (d : Detected) (h : Text) (context : Option TokenizationContext) (response : ProviderResponse)
      (hash : Result Text) (s : GatewayState)
      → ((x : Exception) → hash ≡ raise x → Silence x)
      → Audited s.audit (after_response_hash app env body d h context response hash s)
  after_response_hash-Audited d h context response (raise x) s why = silent x refl refl (why x refl)
  after_response_hash-Audited d h context response (ok h') s why =
      after_scan-Audited d h h' context _ s

  after_chat-Audited :
      (d : Detected) (h : Text) (context : Option TokenizationContext) (messages : List ChatMessage)
      (r : Result ProviderResponse) (s : GatewayState)
      → IsSanitized messages
      → env.chat (call_of app env body messages) ≡ r
      → Audited s.audit (after_chat app env body d h context r s)
  unfolding after_chat
  after_chat-Audited d h context messages (raise (gateway e)) s sent same = fail_with-Audited _ _ s
  after_chat-Audited d h context messages (raise x) s sent same = fail_with-Audited _ _ s
  after_chat-Audited d h context messages (ok response) s sent same =
      after_response_hash-Audited d h context response _ s
        λ x e. answer_hash messages response sent same e

  after_prompt_hash-Audited :
      (d : Detected) (messages : List ChatMessage) (context : Option TokenizationContext)
      (hash : Result Text) (s : GatewayState)
      → IsSanitized messages
      → ((x : Exception) → hash ≡ raise x → Silence x)
      → Audited s.audit (after_prompt_hash app env body d messages context hash s)
  after_prompt_hash-Audited d messages context (raise x) s sent why =
      silent x refl refl (why x refl)
  after_prompt_hash-Audited d messages context (ok h) s sent why =
      after_chat-Audited d h context messages _ _ sent refl

  after_apply-Audited :
      (d : Detected) (out : Result (List ChatMessage) × Option TokenizationContext)
      (s : GatewayState)
      → detect app env body ≡ ok d
      → sanitized app env body d ≡ out
      → Audited s.audit (after_apply app env body d out s)
  unfolding after_apply
  after_apply-Audited d (raise x, context) s detection e = fail_with-Audited _ _ s
  after_apply-Audited d (ok messages, context) s detection e =
      let sent : IsSanitized messages = record {
        detected = d;
        detection = detection;
        sanitization = ap (λ o. o.0) e;
      } in
      after_prompt_hash-Audited d messages context _ s sent (λ x same. prompt messages sent same)

  unless_blocked-Audited :
      (d : Detected) (blocked : List Text) (s : GatewayState)
      → detect app env body ≡ ok d
      → Audited s.audit (unless_blocked app env body d blocked s)
  unless_blocked-Audited d [] s detection =
      after_apply-Audited d (sanitized app env body d) s detection refl
  unless_blocked-Audited d (b ∷ blocked) s detection = fail_with-Audited _ _ s

  after_detect-Audited :
      (r : Result Detected) (s : GatewayState)
      → detect app env body ≡ r
      → Audited s.audit (after_detect app env body r s)
  unfolding after_detect
  after_detect-Audited (raise x) s detection = fail_with-Audited _ _ s
  after_detect-Audited (ok d) s detection = unless_blocked-Audited d _ s detection

  pub chat-Audited : (s : GatewayState) → Audited s.audit (chat_completions app env body s)
  unfolding chat_completions
  chat-Audited s = after_detect-Audited (detect app env body) s refl
