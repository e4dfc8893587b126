-- ===== src/Gateway/EvidenceExamples.antt =====
-- Two requests to gateway/gateway_api.py whose findings the policy blocks, and two answers that UTF-8
-- cannot encode.
use privacy_gateway_llm_appl.Prelude.{
  ◌≤◌, codes, List, [], ◌∷◌, none, some, true, ◌≡◌, inr, refl, length, arith,
}
use privacy_gateway_llm_appl.Errors.{ok, raise, value_error}
use privacy_gateway_llm_appl.Audit.{AuditLogger, genesis_hash}
use privacy_gateway_llm_appl.Audit.Verify.{verify_with_store, valid_with}
use privacy_gateway_llm_appl.Audit.Chain.{HasHexDigests, IsIntact}
use privacy_gateway_llm_appl.Audit.Recovery.{Takes}
use privacy_gateway_llm_appl.Gateway.{AuditPayload, App}
use privacy_gateway_llm_appl.Gateway.Examples.{
  gateway_logger, app_finding, surroundings, question, fresh_state, ssn, steady,
}
use privacy_gateway_llm_appl.Policy.{
  build_decisions, decide_all, sorted, group_scores, blocked_entity_types,
}
use privacy_gateway_llm_appl.Tokenization.{new_context, find_namespace, contains}
use privacy_gateway_llm_appl.Mediator.{analyze, apply, actionable}
use privacy_gateway_llm_appl.Audit.Append.{append, append_attempts, append_once, new_row, next_link}
use privacy_gateway_llm_appl.Gateway.{Surroundings, analyze_all, detect, apply_all, scan_response}
use privacy_gateway_llm_appl.Gateway.Chat.{
  seal, redacted_content, after_scan, after_chat, after_apply, after_detect, chat_completions,
}
use privacy_gateway_llm_appl.Gateway.Chat.{call_of}
use privacy_gateway_llm_appl.Gateway.Serving.{Served, HashesReturn, serve, serve_leaves_evidence}

abbrev storing_logger : AuditLogger AuditPayload
storing_logger = record gateway_logger { has_checkpoint_store = true }

abbrev storing_app : App
storing_app = record (app_finding (ssn ∷ [])) { audit_logger = storing_logger }

storing_hex : HasHexDigests storing_logger
storing_hex = record {
  sha256_hex = λ m. (inr (omega arith, omega arith), (inr (omega arith, omega arith), tt));
  hmac_hex = λ m. (inr (omega arith, omega arith), (inr (omega arith, omega arith), tt));
}

abbrev asked : Served
asked = record { env = surroundings; body = question }

steady-Takes : Takes storing_logger storing_hex steady
steady-Takes = record { waits = 0; enough = omega arith; locked = tt; commits = refl; saves = refl }

asked-HashesReturn : HashesReturn storing_app asked
asked-HashesReturn = record {
  prompt = λ messages sent. (codes "h", refl);
  answers = λ messages response sent e. (codes "h", refl);
}

abbrev both : List Served
both = asked ∷ asked ∷ []

serve_leaves_evidence_example :
    IsIntact storing_logger 1 genesis_hash (serve storing_app both fresh_state).1.audit.rows
    × (length (serve storing_app both fresh_state).1.audit.rows ≡ 2)
    × (verify_with_store storing_logger
          (some (ok (serve storing_app both fresh_state).1.audit.checkpoint))
          (serve storing_app both fresh_state).1.audit.rows
        ≡ ok (valid_with 2 none true))
    × (length (serve storing_app both fresh_state).1.calls ≤ 2)
serve_leaves_evidence_example =
    serve_leaves_evidence storing_app storing_hex asked (asked ∷ []) fresh_state refl refl tt
      (steady-Takes, (steady-Takes, tt)) (asked-HashesReturn, (asked-HashesReturn, tt))

-- An answer whose choices cannot be hashed: the provider was called, and no record is left.
answer_unhashed :
    chat_completions
      (app_finding [])
      (record surroundings { hash_texts = λ ts. raise value_error })
      question
      fresh_state
    ≡ (
      raise value_error,
      record fresh_state {
        calls = call_of (app_finding []) surroundings question question.messages ∷ [];
      },
    )
unfolding chat_completions after_detect detect new_context find_namespace contains analyze_all
    analyze build_decisions decide_all sorted group_scores blocked_entity_types after_apply
    apply_all apply actionable after_chat
answer_unhashed = refl

abbrev unencodable : Surroundings
unencodable = record surroundings { json_response = λ r. raise value_error }

-- An answer that cannot be returned as JSON: the handler raises, and its record is in the log.
answer_unencoded :
    ((chat_completions (app_finding []) unencodable question fresh_state).0 ≡ raise value_error)
    × (length (chat_completions (app_finding []) unencodable question fresh_state).1.audit.rows ≡ 1)
unfolding chat_completions after_detect detect new_context find_namespace contains analyze_all
    analyze build_decisions decide_all sorted group_scores blocked_entity_types after_apply
    apply_all apply actionable after_chat after_scan scan_response redacted_content seal append
    append_attempts append_once new_row next_link
answer_unencoded = (refl, refl)
