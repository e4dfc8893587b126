-- ===== src/Gateway/Records.antt =====
-- The audit evidence of a request: the chain stays intact on every path, and an answered request has
-- its record.
use privacy_gateway_llm_appl.Prelude.{Text, [], ◌∷◌, ◌++◌, ◌≡◌, sym, ap, ◌∙◌, subst}
use privacy_gateway_llm_appl.Errors.{Result, ok, ok-injective, raise-ne-ok}
use privacy_gateway_llm_appl.Audit.{AuditRecord, AuditState, genesis_hash}
use privacy_gateway_llm_appl.Audit.Chain.{IsIntact}
use privacy_gateway_llm_appl.Audit.Growth.{added_row, append-IsIntact, append_returned}
use privacy_gateway_llm_appl.Gateway.{AuditPayload, App, Surroundings, GatewayState, ChatResponse}
use privacy_gateway_llm_appl.Gateway.Requests.{ChatCompletionRequest}
use privacy_gateway_llm_appl.Gateway.Chat.{chat_completions}
use privacy_gateway_llm_appl.Gateway.Evidence.{
  Audited, silent, failed, completed, write, chat-Audited,
}

module _ (app : App) (env : Surroundings) (body : ChatCompletionRequest) where
  abbrev IsIntactLog : AuditState → Type 0
  IsIntactLog audit = IsIntact app.audit_logger 1 genesis_hash audit.rows

  Audited-IsIntact :
      (audit : AuditState) {out : Result ChatResponse × GatewayState}
      → IsIntactLog audit
      → Audited app env body audit out
      → IsIntactLog out.1.audit
  Audited-IsIntact audit h (silent x e same why) = subst IsIntactLog (sym same) h
  Audited-IsIntact audit h (failed p x e same) =
      subst IsIntactLog (sym same) (append-IsIntact app.audit_logger env.audit_env p audit h).1
  Audited-IsIntact audit h (completed p r response w e same i status) =
      subst IsIntactLog (sym same) (append-IsIntact app.audit_logger env.audit_env p audit h).1

  -- Whatever the detector, the provider, the database and the checkpoint store do, a request leaves
  -- an intact audit log intact.
  pub chat_completions-IsIntact :
      (s : GatewayState)
      → IsIntact app.audit_logger 1 genesis_hash s.audit.rows
      → IsIntact app.audit_logger 1 genesis_hash (chat_completions app env body s).1.audit.rows
  chat_completions-IsIntact s h = Audited-IsIntact s.audit h (chat-Audited app env body s)

  answered :
      (audit : AuditState) (response : ChatResponse) {out : Result ChatResponse × GatewayState}
      → IsIntactLog audit
      → out.0 ≡ ok response
      → Audited app env body audit out
      → (now : Text) × (p : AuditPayload) × (p.response_status ≡ 200)
        × (out.1.audit.rows ≡ audit.rows ++ added_row app.audit_logger now p audit.rows ∷ [])
        × (response.audit_entry_id ≡ (added_row app.audit_logger now p audit.rows).id)
  answered audit response h ok_response (silent x e same why) =
      absurd (raise-ne-ok (sym e ∙ ok_response))
  answered audit response h ok_response (failed p x e same) =
      absurd (raise-ne-ok (sym e ∙ ok_response))
  answered audit response {out} h ok_response (completed p r response' w e same i status) =
      let wrote : write app env body p audit ≡ (ok r, (write app env body p audit).1) =
        ap (λ o. (o, (write app env body p audit).1)) w in
      let (now, record_is, rows_are) =
        append_returned app.audit_logger env.audit_env p audit (write app env body p audit).1 r h
          wrote in
      let one : response' ≡ response = ok-injective (sym e ∙ ok_response) in
      (
        now,
        p,
        status,
        ap (λ (a : AuditState). a.rows) same ∙ rows_are,
        ap (λ (c : ChatResponse). c.audit_entry_id) (sym one)
            ∙ i
            ∙ ap (λ (a : AuditRecord AuditPayload). a.id) record_is,
      )

  -- A request over an intact log that is answered with a response has one more row in the log, with
  -- the status 200 in its payload, and the response carries that row's id.
  pub answered_is_recorded :
      (s : GatewayState) (response : ChatResponse)
      → IsIntact app.audit_logger 1 genesis_hash s.audit.rows
      → (chat_completions app env body s).0 ≡ ok response
      → (now : Text) × (p : AuditPayload) × (p.response_status ≡ 200)
        × ((chat_completions app env body s).1.audit.rows
            ≡ s.audit.rows ++ added_row app.audit_logger now p s.audit.rows ∷ [])
        × (response.audit_entry_id ≡ (added_row app.audit_logger now p s.audit.rows).id)
  answered_is_recorded s response h e = answered s.audit response h e (chat-Audited app env body s)
