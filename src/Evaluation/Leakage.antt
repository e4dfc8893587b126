-- ===== src/Evaluation/Leakage.antt =====
-- evaluation/run_leakage_evaluation.py: every case goes through the gateway to the mock provider, then each
-- labelled value is searched for in what left the gateway, and each hit gets a cause.
pub mod Excuses
pub mod Examples
use privacy_gateway_llm_appl.Prelude.{
  ℕ, ◌+◌, Text, codes, List, [], ◌∷◌, ◌++◌, Option, none, some, Bool, true, false, not, ◌&&◌,
  if◌then◌else◌, lookup, text_eq,
}
use privacy_gateway_llm_appl.Errors.{Result, ok, ◌>>=◌}
use privacy_gateway_llm_appl.Policy.{PolicyAction, allow, tokenize, redact, block, default_policy}
use privacy_gateway_llm_appl.Tokenization.{contains}
use privacy_gateway_llm_appl.Mediator.{RecognizerResult, PiiMediator, analyze}
use privacy_gateway_llm_appl.Audit.{AuditState}
use privacy_gateway_llm_appl.Providers.{ProviderCall}
use privacy_gateway_llm_appl.Providers.Clients.{MockClient, mock_chat}
use privacy_gateway_llm_appl.Gateway.{App, Surroundings, GatewayState, ChatResponse}
use privacy_gateway_llm_appl.Gateway.Requests.{ChatCompletionRequest, user}
use privacy_gateway_llm_appl.Gateway.Chat.{chat_completions}
use privacy_gateway_llm_appl.Evaluation.{Entity, Case, any, detects, spans_of}

-- The gateway under test, what surrounds the request of each case, and how calls, the database file and
-- responses are turned into text. The cases are within the limits of a request.
pub record Harness : Type 0 where
  pub app : App
  pub env : Case → Surroundings
  pub requests_text : List ProviderCall → Text
  pub database_text : AuditState → Text
  pub response_text : Result ChatResponse → Text
  pub logs_text : Text

-- MockLLMClient(); the calls that it has seen are those of the state.
abbrev pub mock : MockClient
mock = record { requests_seen = []; responder = none }

abbrev pub leak_request : Case → ChatCompletionRequest
leak_request c = record {
  model = codes "leak-eval";
  messages = (record { role = user; content = c.text }) ∷ [];
  temperature = none;
  max_tokens = none;
  metadata = [];
  rehydrate = false;
}

abbrev pub post : Harness → Case → GatewayState → Result ChatResponse × GatewayState
post h c s =
    chat_completions h.app (record (h.env c) { chat = λ call. (mock_chat mock call).0 })
      (leak_request c) s

-- responses_text, joined by line ends, and the state after the last case
unfoldable pub post_all : Harness → List Case → GatewayState → List Text × GatewayState
post_all h [] s = ([], s)
post_all h (c ∷ cases) s =
    let (response, s') = post h c s in
    let (texts, last) = post_all h cases s' in (h.response_text response ∷ texts, last)

pub data Surface : Type 0 where
  provider_boundary audit_database application_output captured_logs : Surface

abbrev pub join_responses : List Text → Text
join_responses [] = []
join_responses (t ∷ []) = t
join_responses (t ∷ u ∷ ts) = t ++ b'\n' ∷ join_responses (u ∷ ts)

-- surfaces
abbrev pub surfaces_of : Harness → List Text × GatewayState → List (Surface × Text)
surfaces_of h (texts, s) =
    (provider_boundary, h.requests_text s.calls)
    ∷ (audit_database, h.database_text s.audit)
    ∷ (application_output, join_responses texts)
    ∷ (captured_logs, h.logs_text)
    ∷ []

pub record Finding : Type 0 where
  pub case_id : Text
  pub type : Text
  pub surface : Surface
  pub policy_action : Option PolicyAction

-- The lists that the loops fill, and `checked`.
pub record Findings : Type 0 where
  pub checked : ℕ
  pub mediation_failures : List Finding
  pub detector_false_negatives : List Finding
  pub allowed_crossings : List Finding

-- surface in ("provider_boundary", "application_output")
abbrev pub leaves_gateway : Surface → Bool
leaves_gateway provider_boundary = true
leaves_gateway application_output = true
leaves_gateway audit_database = false
leaves_gateway captured_logs = false

abbrev pub is_allow : Option PolicyAction → Bool
is_allow (some allow) = true
is_allow _ = false

abbrev pub add_finding : Finding → Bool → Findings → Findings
add_finding f was_detected r =
    if is_allow f.policy_action && leaves_gateway f.surface
    then record r { allowed_crossings = r.allowed_crossings ++ f ∷ [] }
    else if not was_detected && leaves_gateway f.surface
    then record r { detector_false_negatives = r.detector_false_negatives ++ f ∷ [] }
    else record r { mediation_failures = r.mediation_failures ++ f ∷ [] }

-- The loop over the surfaces, for a value of a case.
unfoldable pub surface_loop :
    Case → Entity → Option PolicyAction → Bool → List (Surface × Text) → Findings → Findings
surface_loop c e action was_detected [] r = r
surface_loop c e action was_detected ((surface, haystack) ∷ more) r =
    let f : Finding = record {
      case_id = c.id;
      type = e.type;
      surface = surface;
      policy_action = action;
    } in
    let counted : Findings = record r { checked = r.checked + 1 } in
    surface_loop c e action was_detected more
      (if contains haystack e.value then add_finding f was_detected counted else counted)

-- A detection of the same type overlaps an occurrence of the value.
abbrev pub was_detected : Case → List RecognizerResult → Entity → Bool
was_detected c dets e = any (detects (spans_of c.text e.value) e.type) dets

-- The loop over the entities of a case.
unfoldable pub leak_loop :
    Case → List RecognizerResult → List (Surface × Text) → List Entity → Findings → Findings
leak_loop c dets surfaces [] r = r
leak_loop c dets surfaces (e ∷ es) r =
    leak_loop c dets surfaces es
      (surface_loop c e (lookup e.type default_policy) (was_detected c dets e) surfaces r)

-- The loop over the cases.
unfoldable pub classify :
    PiiMediator → List (Surface × Text) → List Case → Findings → Result Findings
classify m surfaces [] r = ok r
classify m surfaces (c ∷ cases) r =
    analyze m c.text >>= λ dets. classify m surfaces cases (leak_loop c dets surfaces c.entities r)

abbrev pub no_findings : Findings
no_findings = record {
  checked = 0;
  mediation_failures = [];
  detector_false_negatives = [];
  allowed_crossings = [];
}

abbrev pub status_of : List Finding → ℕ
status_of [] = 0
status_of (f ∷ fs) = 1

-- main, as far as the exit status
unfoldable pub leak_main : Harness → List Case → GatewayState → Result ℕ
leak_main h cases s =
    classify h.app.mediator (surfaces_of h (post_all h cases s)) cases no_findings >>= λ r.
    ok (status_of r.mediation_failures)
