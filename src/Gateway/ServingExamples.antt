-- ===== src/Gateway/ServingExamples.antt =====
-- Requests to the audit endpoints of gateway/gateway_api.py, and a response scan.
use privacy_gateway_llm_appl.Prelude.{
  finite_float, ℤ, pos, codes, List, [], ◌∷◌, Option, none, some, ◌≡◌, refl, sym, ◌∙◌, float_one,
  false, text_beq, ◌/◌, length,
}
use privacy_gateway_llm_appl.Errors.{Result, ok, ok-injective}
use privacy_gateway_llm_appl.Policy.{default_policy}
use privacy_gateway_llm_appl.Mediator.{
  RecognizerResult, PiiMediator, clone_with_policy, apply, redact_all,
}
use privacy_gateway_llm_appl.Checkpoint.{AuditCheckpoint}
use privacy_gateway_llm_appl.Audit.{AuditLogger, Row, entries, count, genesis_hash}
use privacy_gateway_llm_appl.Audit.Append.{record_of, new_row}
use privacy_gateway_llm_appl.Audit.Chain.{IsIntact}
use privacy_gateway_llm_appl.Audit.Growth.{added_row, extend-IsIntact}
use privacy_gateway_llm_appl.Gateway.{AuditPayload}
use privacy_gateway_llm_appl.Gateway.Admin.{
  AdminRequest, AuditPage, Verification, shown, audit_entries, audit_verify, require_admin,
  limit_parameter, offset_parameter, page_of,
}
use privacy_gateway_llm_appl.Gateway.Access.{HasKey, audit_endpoints_need_key}
use privacy_gateway_llm_appl.Gateway.Pages.{IsPage, audit_entries-IsPage}
use privacy_gateway_llm_appl.Gateway.Application.{response_policy}
use privacy_gateway_llm_appl.Gateway.Scanning.{mediated, response_scan-redact_all}

abbrev sample_payload : AuditPayload
sample_payload = record {
  request_id = codes "id";
  provider = codes "mock";
  model = codes "m";
  duration_ms = codes "1.0";
  event = codes "chat_completion";
  status = codes "success";
  request_blocked = false;
  response_status = 200;
  error_code = none;
  policy_decisions = none;
  blocked_types = none;
  prompt_hash = none;
  response_hash = none;
  provider_duration_ms = none;
  response_scanned = none;
  provider_contacted = none;
  response_returned_to_client = none;
  rehydrated_for_client = none;
  contains_redacted_content = none;
  redacted_messages = some [];
}

abbrev page_logger : AuditLogger AuditPayload
page_logger = record {
  lib = record {
    sha256_hex = λ m. codes "ab";
    hmac_hex = λ key m. codes "cd";
    dumps = λ p. p.event;
    loads = λ s. ok sample_payload;
  };
  hmac_key = codes "key";
  has_checkpoint_store = false;
}

abbrev one_row : Row
one_row = added_row page_logger (codes "t1") sample_payload []

abbrev two_rows : List Row
two_rows = one_row ∷ added_row page_logger (codes "t2") sample_payload (one_row ∷ []) ∷ []

two_rows-IsIntact : IsIntact page_logger 1 genesis_hash two_rows
two_rows-IsIntact =
    extend-IsIntact page_logger (one_row ∷ []) (codes "t2") sample_payload
      (extend-IsIntact page_logger [] (codes "t1") sample_payload tt)

abbrev admin_request : AdminRequest
admin_request = record {
  encode = ok;
  configured = codes "admin";
  header = some (codes "admin");
  entries_failure = none;
  count_failure = none;
}

audit_endpoints_need_key_example :
    ((limit offset : Option ℤ) (rows counted : List Row) (page : AuditPage)
      → audit_entries page_logger admin_request limit offset rows counted ≡ ok page
      → HasKey admin_request)
    × ((store : Option (Result (Option AuditCheckpoint))) (rows : List Row) (v : Verification)
        → audit_verify page_logger admin_request store rows ≡ ok v
        → HasKey admin_request)
audit_endpoints_need_key_example =
    audit_endpoints_need_key page_logger admin_request (λ a b x e e'. ok-injective (e ∙ sym e'))

abbrev second_page : AuditPage
second_page = record {
  total = 2;
  limit = 1;
  offset = 1;
  records =
      shown (
        record_of page_logger sample_payload
          (added_row page_logger (codes "t2") sample_payload (one_row ∷ [])))
      ∷ [];
}

second_page_shown :
    audit_entries page_logger admin_request (some (pos 1)) (some (pos 1)) two_rows two_rows
    ≡ ok second_page
unfolding audit_entries require_admin limit_parameter offset_parameter page_of entries count
    text_beq new_row
second_page_shown = refl

audit_entries-IsPage_example : IsPage two_rows second_page × (second_page.total ≡ length two_rows)
audit_entries-IsPage_example =
    audit_entries-IsPage page_logger admin_request (some (pos 1)) (some (pos 1)) two_rows two_rows
      second_page two_rows-IsIntact second_page_shown

abbrev scanner : PiiMediator
scanner = record {
  presidio = record {
    analyze = λ text entities threshold. ok [];
    anonymize = λ text results operators context. (ok (codes "[REDACTED:US_SSN]"), context);
    default_operator = λ e v. v;
  };
  policy = default_policy;
  score_threshold = finite_float (record { is_negative = false; magnitude = float_one / 2 });
}

abbrev found_number : List RecognizerResult
found_number = (record { entity_type = codes "US_SSN"; start = 0; stop = 2; score = 850 }) ∷ []

response_scan-redact_all_example :
    apply
      (clone_with_policy scanner (response_policy scanner.policy))
      (codes "Hi")
      found_number
      none
    ≡ (redact_all scanner (codes "Hi") (mediated scanner.policy found_number), none)
response_scan-redact_all_example = response_scan-redact_all scanner (codes "Hi") found_number
