-- ===== src/Gateway/Serving.antt =====
-- Requests served one after another by gateway/gateway_api.py, and the evidence of them that is left.
use privacy_gateway_llm_appl.Prelude.{
  ◌+◌, ◌≤◌, Text, List, [], ◌∷◌, none, some, true, false, ◌≡◌, inl, inr, sym, ap, ◌∙◌, subst, All,
  length, arith,
}
use privacy_gateway_llm_appl.Errors.{Exception, Result, ok, raise-ne-ok}
use privacy_gateway_llm_appl.Audit.{AuditState, genesis_hash}
use privacy_gateway_llm_appl.Audit.Verify.{verify_with_store, valid_with}
use privacy_gateway_llm_appl.Audit.Chain.{HasHexDigests, IsIntact}
use privacy_gateway_llm_appl.Audit.Recovery.{Takes, IsVerified, append-IsVerified, length-snoc}
use privacy_gateway_llm_appl.Gateway.{App, Surroundings, GatewayState, ChatResponse}
use privacy_gateway_llm_appl.Providers.{ProviderResponse}
use privacy_gateway_llm_appl.Gateway.Requests.{ChatMessage, ChatCompletionRequest}
use privacy_gateway_llm_appl.Gateway.Chat.{contents_of, call_of, chat_completions}
use privacy_gateway_llm_appl.Gateway.Calls.{provider_calls}
use privacy_gateway_llm_appl.Gateway.Evidence.{
  IsSanitized, Silence, redaction, prompt, answer_hash, Audited, silent, failed, completed,
  chat-Audited,
}

-- A request with what surrounds it.
pub record Served : Type 0 where
  pub env : Surroundings
  pub body : ChatCompletionRequest

-- The outcomes of the requests, and the state after them.
unfoldable pub serve : App → List Served → GatewayState → List (Result ChatResponse) × GatewayState
serve app [] s = ([], s)
serve app (r ∷ rs) s =
    let (out, s') = chat_completions app r.env r.body s in
    let (outs, last) = serve app rs s' in (out ∷ outs, last)

-- The two canonical hashes of a request return: that of the messages that sanitization gives, and that of
-- the choices of the answer that the provider gives to these messages.
pub record HashesReturn (app : App) (r : Served) : Type 0 where
  pub prompt :
      (messages : List ChatMessage)
      → IsSanitized app r.env r.body messages
      → (hash : Text) × (r.env.hash_messages messages ≡ ok hash)
  pub answers :
      (messages : List ChatMessage) (response : ProviderResponse)
      → IsSanitized app r.env r.body messages
      → r.env.chat (call_of app r.env r.body messages) ≡ ok response
      → (hash : Text) × (r.env.hash_texts (contents_of response) ≡ ok hash)

module _ (app : App) (hex : HasHexDigests app.audit_logger)
    (dropped : app.audit_store_redacted_content ≡ false)
    (stores : app.audit_logger.has_checkpoint_store ≡ true) where
  abbrev Taken : Served → Type 0
  Taken r = Takes app.audit_logger hex r.env.audit_env

  not-Silence : (r : Served) (x : Exception) → HashesReturn app r → ¬ Silence app r.env r.body x
  not-Silence r x h (redaction stored) =
      absurd (let clash : true ≡ false = sym stored ∙ dropped in cc)
  not-Silence r x h (prompt messages sent e') =
      let (hash, returned) = h.prompt messages sent in raise-ne-ok (sym e' ∙ returned)
  not-Silence r x h (answer_hash messages response sent e e') =
      let (hash, returned) = h.answers messages response sent e in raise-ne-ok (sym e' ∙ returned)

  Audited-IsVerified :
      (r : Served) (audit : AuditState) {out : Result ChatResponse × GatewayState}
      → IsIntact app.audit_logger 1 genesis_hash audit.rows
      → Taken r
      → HashesReturn app r
      → Audited app r.env r.body audit out
      → IsVerified app.audit_logger hex (length audit.rows) out.1.audit
  Audited-IsVerified r audit h t hashes (silent x e same why) = absurd (not-Silence r x hashes why)
  Audited-IsVerified r audit h t hashes (failed p x e same) =
      subst (IsVerified app.audit_logger hex (length audit.rows)) (sym same)
        (append-IsVerified app.audit_logger hex r.env.audit_env p audit stores h t)
  Audited-IsVerified r audit h t hashes (completed p a response w e same i status) =
      subst (IsVerified app.audit_logger hex (length audit.rows)) (sym same)
        (append-IsVerified app.audit_logger hex r.env.audit_env p audit stores h t)

  request-IsVerified :
      (r : Served) (s : GatewayState)
      → IsIntact app.audit_logger 1 genesis_hash s.audit.rows
      → Taken r
      → HashesReturn app r
      → IsVerified app.audit_logger hex
          (length s.audit.rows)
          (chat_completions app r.env r.body s).1.audit
  request-IsVerified r s h t hashes =
      Audited-IsVerified r s.audit h t hashes (chat-Audited app r.env r.body s)

  serve-IsVerified :
      (r : Served) (rs : List Served) (s : GatewayState)
      → IsIntact app.audit_logger 1 genesis_hash s.audit.rows
      → All Taken (r ∷ rs)
      → All (HashesReturn app) (r ∷ rs)
      → IsVerified app.audit_logger hex
          (length rs + length s.audit.rows)
          (serve app (r ∷ rs) s).1.audit
  unfolding serve
  serve-IsVerified r [] s h (t, ts) (g, gs) =
      let count : length s.audit.rows ≡ 0 + length s.audit.rows = omega arith in
      subst (λ k. IsVerified app.audit_logger hex k (chat_completions app r.env r.body s).1.audit)
        count (request-IsVerified r s h t g)
  serve-IsVerified r (q ∷ rs) s h (t, ts) (g, gs) =
      let v = request-IsVerified r s h t g in
      let n = length s.audit.rows in
      let count : length rs + length (chat_completions app r.env r.body s).1.audit.rows
          ≡ length (q ∷ rs) + n =
        let more = v.grown in omega arith in
      subst
        (λ k.
          IsVerified app.audit_logger hex k
            ((serve app (q ∷ rs) (chat_completions app r.env r.body s).1).1.audit))
        count (serve-IsVerified q rs (chat_completions app r.env r.body s).1 v.intact ts gs)

-- A request makes at most one call of the provider.
request_calls :
    (app : App) (r : Served) (s : GatewayState)
    → length (chat_completions app r.env r.body s).1.calls ≤ 1 + length s.calls
request_calls app r s = elim (provider_calls app r.env r.body s) [
  | inl none_made ↦ let e = ap length none_made in omega arith
  | inr one ↦ let e = ap length one.call ∙ length-snoc s.calls _ in omega arith
]

serve_calls :
    (app : App) (rs : List Served) (s : GatewayState)
    → length (serve app rs s).1.calls ≤ length rs + length s.calls
unfolding serve
serve_calls app [] s = omega arith
serve_calls app (r ∷ rs) s =
    let first = request_calls app r s in
    let more = serve_calls app rs (chat_completions app r.env r.body s).1 in omega arith

-- However requests end, each of them leaves one record: after one or more of them over an intact log the
-- log is intact and has as many rows more, verification against the stored checkpoint answers valid
-- for all rows with the tail verified, and the provider was called at most once for each request.
-- Conditions: no redacted content is stored, the canonical hashes return for the sanitized messages
-- and for the choices that the provider answers with, digests are hexadecimal, a checkpoint store is
-- configured, and at each append fewer than five attempts meet a locked database, the next one
-- commits and the checkpoint is saved.
pub serve_leaves_evidence :
    (app : App) (hex : HasHexDigests app.audit_logger) (r : Served) (rs : List Served)
    (s : GatewayState)
    → app.audit_store_redacted_content ≡ false
    → app.audit_logger.has_checkpoint_store ≡ true
    → IsIntact app.audit_logger 1 genesis_hash s.audit.rows
    → All (λ q. Takes app.audit_logger hex q.env.audit_env) (r ∷ rs)
    → All (HashesReturn app) (r ∷ rs)
    → IsIntact app.audit_logger 1 genesis_hash (serve app (r ∷ rs) s).1.audit.rows
      × (length (serve app (r ∷ rs) s).1.audit.rows ≡ 1 + (length rs + length s.audit.rows))
      × (verify_with_store app.audit_logger
            (some (ok (serve app (r ∷ rs) s).1.audit.checkpoint))
            (serve app (r ∷ rs) s).1.audit.rows
          ≡ ok (valid_with (1 + (length rs + length s.audit.rows)) none true))
      × (length (serve app (r ∷ rs) s).1.calls ≤ 1 + (length rs + length s.calls))
serve_leaves_evidence app hex r rs s dropped stores intact taken hashes =
    let v = serve-IsVerified app hex dropped stores r rs s intact taken hashes in
    let calls = serve_calls app (r ∷ rs) s in (v.intact, v.grown, v.verified, omega arith)
