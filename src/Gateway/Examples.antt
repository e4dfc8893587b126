-- ===== src/Gateway/Examples.antt =====
-- Runs of the chat pipeline of gateway/gateway_api.py with a detector that finds the same in every
-- text and a provider that answers with one choice.
use privacy_gateway_llm_appl.Prelude.{
  finite_float, float_one, ◌/◌, false, Text, codes, pos, List, [], ◌∷◌, none, some, true, ◌≡◌, ◌≢◌,
  ◌⊎◌, refl, lookup, text_beq, text_eq, arith,
}
use privacy_gateway_llm_appl.Errors.{ok, raise, value_error}
use privacy_gateway_llm_appl.Policy.{
  default_policy, block, build_decisions, decide_all, sorted, group_scores, blocked_entity_types,
}
use privacy_gateway_llm_appl.Policy.Decisions.{scores_of}
use privacy_gateway_llm_appl.Tokenization.{new_context, find_namespace, contains, context_length}
use privacy_gateway_llm_appl.Mediator.{
  RecognizerResult, Presidio, PiiMediator, analyze, apply, actionable,
}
use privacy_gateway_llm_appl.Audit.{AuditLogger, genesis_hash}
use privacy_gateway_llm_appl.Audit.Append.{
  AppendEnv, append, append_attempts, append_once, new_row, next_link,
}
use privacy_gateway_llm_appl.Audit.Chain.{IsIntact}
use privacy_gateway_llm_appl.Audit.Growth.{added_row}
use privacy_gateway_llm_appl.Providers.{ProviderResponse}
use privacy_gateway_llm_appl.Gateway.{
  AuditPayload, App, Surroundings, GatewayState, ChatResponse, analyze_all, detections_of, detect,
  apply_all, scan_response, rehydrate_response,
}
use privacy_gateway_llm_appl.Gateway.Requests.{ChatCompletionRequest, user}
use privacy_gateway_llm_appl.Gateway.Chat.{
  seal, redacted_content, after_scan, after_chat, after_apply, after_detect, chat_completions,
}
use privacy_gateway_llm_appl.Gateway.Statuses.{Recorded, chat_completions-Recorded}
use privacy_gateway_llm_appl.Gateway.Calls.{Called, provider_calls, block_refuses}
use privacy_gateway_llm_appl.Gateway.Records.{chat_completions-IsIntact, answered_is_recorded}

abbrev presidio_finding : List RecognizerResult → Presidio
presidio_finding found = record {
  analyze = λ text entities threshold. ok found;
  anonymize = λ text results operators context. (ok text, context);
  default_operator = λ e v. v;
}

abbrev mediator_finding : List RecognizerResult → PiiMediator
mediator_finding found = record {
  presidio = presidio_finding found;
  policy = default_policy;
  score_threshold = finite_float (record { is_negative = false; magnitude = float_one / 2 });
}

abbrev pub gateway_logger : AuditLogger AuditPayload
gateway_logger = record {
  lib = record {
    sha256_hex = λ m. codes "ab";
    hmac_hex = λ key m. codes "cd";
    dumps = λ p. p.event;
    loads = λ s. raise value_error;
  };
  hmac_key = codes "key";
  has_checkpoint_store = false;
}

abbrev pub app_finding : List RecognizerResult → App
app_finding found = record {
  provider = codes "mock";
  audit_store_redacted_content = false;
  mediator = mediator_finding found;
  response_mediator = none;
  audit_logger = gateway_logger;
}

abbrev answer_text : ProviderResponse
answer_text = record {
  id = codes "r1";
  model = codes "m";
  choices = (record { index = 0; content = codes "Hello"; finish_reason = codes "stop" }) ∷ [];
  prompt_tokens = pos 0;
  completion_tokens = pos 0;
}

abbrev pub steady : AppendEnv
steady = record {
  attempt = λ k. record { now = codes "t1"; failure = none };
  saved_at = codes "t1";
  save_failure = none;
}

abbrev pub surroundings : Surroundings
surroundings = record {
  request_id = codes "id";
  duration_ms = codes "1.0";
  provider_duration_ms = codes "0.5";
  candidate = λ k. codes "0A1B2C3D";
  round3 = λ x. x;
  hash_messages = λ ms. ok (codes "h");
  hash_texts = λ ts. ok (codes "h");
  json_response = λ r. ok [];
  chat = λ call. ok answer_text;
  audit_env = steady;
}

abbrev pub question : ChatCompletionRequest
question = record {
  model = codes "m";
  messages = (record { role = user; content = codes "Hi" }) ∷ [];
  temperature = none;
  max_tokens = none;
  metadata = [];
  rehydrate = true;
}

abbrev pub fresh_state : GatewayState
fresh_state = record { audit = record { rows = []; checkpoint = none }; calls = [] }

abbrev pub ssn : RecognizerResult
ssn = record { entity_type = codes "US_SSN"; start = 0; stop = 2; score = 850 }

provider_calls_example :
    ((chat_completions (app_finding []) surroundings question fresh_state).1.calls ≡ [])
    ⊎ Called
        (app_finding [])
        surroundings
        question
        fresh_state
        (chat_completions (app_finding []) surroundings question fresh_state).1
provider_calls_example = provider_calls (app_finding []) surroundings question fresh_state

found_ssn : analyze_all (mediator_finding (ssn ∷ [])) question.messages ≡ ok ((ssn ∷ []) ∷ [])
unfolding analyze_all analyze
found_ssn = refl

ssn_blocks : lookup (codes "US_SSN") default_policy ≡ some block
unfolding lookup text_beq
ssn_blocks = refl

ssn_scored : scores_of (codes "US_SSN") (detections_of ((ssn ∷ []) ∷ [])) ≢ []
unfolding text_beq
ssn_scored e = ground arith

block_refuses_example :
    ((chat_completions (app_finding (ssn ∷ [])) surroundings question fresh_state).1.calls ≡ [])
    × ((r : ChatResponse)
        → (chat_completions (app_finding (ssn ∷ [])) surroundings question fresh_state).0 ≢ ok r)
block_refuses_example =
    block_refuses (app_finding (ssn ∷ [])) surroundings question fresh_state (codes "US_SSN")
      ((ssn ∷ []) ∷ []) found_ssn ssn_blocks ssn_scored

chat_completions-IsIntact_example :
    IsIntact gateway_logger 1 genesis_hash
      (chat_completions (app_finding (ssn ∷ [])) surroundings question fresh_state).1.audit.rows
chat_completions-IsIntact_example =
    chat_completions-IsIntact (app_finding (ssn ∷ [])) surroundings question fresh_state tt

abbrev answered_question : ChatResponse
answered_question = record { content = answer_text; request_id = codes "id"; audit_entry_id = 1 }

question_answered :
    (chat_completions (app_finding []) surroundings question fresh_state).0 ≡ ok answered_question
unfolding chat_completions after_detect detect new_context find_namespace contains analyze_all
    analyze build_decisions decide_all sorted group_scores blocked_entity_types after_apply
    apply_all apply actionable after_chat after_scan scan_response redacted_content seal append
    append_attempts append_once new_row next_link rehydrate_response context_length
question_answered = refl

answered_is_recorded_example :
    (now : Text) × (p : AuditPayload) × (p.response_status ≡ 200)
    × ((chat_completions (app_finding []) surroundings question fresh_state).1.audit.rows
        ≡ added_row gateway_logger now p [] ∷ [])
    × (1 ≡ (added_row gateway_logger now p []).id)
answered_is_recorded_example =
    answered_is_recorded (app_finding []) surroundings question fresh_state answered_question tt
      question_answered

chat_completions-Recorded_example :
    Recorded
      (app_finding (ssn ∷ []))
      surroundings
      question
      fresh_state.audit
      (chat_completions (app_finding (ssn ∷ [])) surroundings question fresh_state)
chat_completions-Recorded_example =
    chat_completions-Recorded (app_finding (ssn ∷ [])) surroundings question fresh_state
