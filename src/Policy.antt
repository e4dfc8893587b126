-- ===== src/Policy.antt =====
-- gateway/policy.py: the four actions, the default policy, policy loading and policy decisions.
-- A score is a float of at least 0: an exact multiple of 2^-1074, and so a natural number of those;
-- `round(x, 3)` is the parameter `round3`. JSON parsing and file reading are parameters too.
pub mod Decisions
pub mod Sorting
pub mod Extremes
pub mod Blocking
pub mod Examples
use privacy_gateway_llm_appl.Prelude.{
  ℕ, Text, codes, List, [], ◌∷◌, ◌++◌, Option, none, some, Bool, true, false, ltb, leb, length,
  lookup, insert, text_eq, ◌==◌, if◌then◌else◌, min, max, map,
}
use privacy_gateway_llm_appl.Errors.{
  Exception, os_error, file_not_found, value_error, key_error, attribute_error, gateway,
  configuration_error, Result, ok, raise, ◌>>=◌, is_os_error,
}
use privacy_gateway_llm_appl.Json.{Json, string, object, Members, no_members, member}

-- class PolicyAction(StrEnum)
pub data PolicyAction : Type 0 where
  allow tokenize redact block : PolicyAction

unfoldable pub policy_action_value : PolicyAction → Text
policy_action_value allow = codes "allow"
policy_action_value tokenize = codes "tokenize"
policy_action_value redact = codes "redact"
policy_action_value block = codes "block"

-- dict[str, PolicyAction]
abbrev pub Policy : Type 0
Policy = List (Text × PolicyAction)

abbrev pub default_policy : Policy
default_policy =
    (codes "PERSON", tokenize)
    ∷ (codes "EMAIL_ADDRESS", tokenize)
    ∷ (codes "PHONE_NUMBER", tokenize)
    ∷ (codes "LOCATION", tokenize)
    ∷ (codes "IP_ADDRESS", tokenize)
    ∷ (codes "UK_NINO", redact)
    ∷ (codes "IBAN_CODE", redact)
    ∷ (codes "CREDIT_CARD", block)
    ∷ (codes "US_SSN", block)
    ∷ (codes "DATE_TIME", allow)
    ∷ []

-- class PolicyDecision
pub record PolicyDecision : Type 0 where
  pub entity_type : Text
  pub action : PolicyAction
  pub count : ℕ
  pub score_min : ℕ
  pub score_max : ℕ
  pub request_blocked : Bool
  pub reason_code : Text

-- PolicyAction(action): ValueError for anything but the four strings
unfoldable pub policy_action : Json → Result PolicyAction
policy_action (string s) =
    if s == codes "allow"
    then ok allow
    else if s == codes "tokenize"
    then ok tokenize
    else if s == codes "redact"
    then ok redact
    else if s == codes "block"
    then ok block
    else raise value_error
policy_action _ = raise value_error

unfoldable pub policy_items : Members → Policy → Result Policy
policy_items no_members found = ok found
policy_items (member entity action more) found =
    policy_action action >>= λ a. policy_items more (insert entity a found)

-- raw.items(): AttributeError for anything but an object
unfoldable pub policy_of_json : Json → Result Policy
policy_of_json (object members) = policy_items members []
policy_of_json _ = raise attribute_error

abbrev policy_message : Text
policy_message = codes "The privacy policy file could not be loaded or contains an unknown action."

-- except (OSError, ValueError)
abbrev or_configuration_error : Result Policy → Result Policy
or_configuration_error (ok p) = ok p
or_configuration_error (raise os_error) =
    raise (gateway (configuration_error (some policy_message)))
or_configuration_error (raise file_not_found) =
    raise (gateway (configuration_error (some policy_message)))
or_configuration_error (raise value_error) =
    raise (gateway (configuration_error (some policy_message)))
or_configuration_error (raise x) = raise x

-- `read path` is json.loads(Path(path).read_text(encoding="utf-8"))
unfoldable pub load_policy : (Text → Result Json) → Option Text → Result Policy
load_policy read none = ok default_policy
load_policy read (some path) = or_configuration_error (read path >>= λ raw. policy_of_json raw)

-- if entity_type in policy: grouped.setdefault(entity_type, []).append(score)
abbrev pub scores_in : List (Text × List ℕ) → Text → List ℕ
scores_in grouped e = elim (lookup e grouped) [ none ↦ [] | some scores ↦ scores ]

unfoldable pub add_score : Policy → Text → ℕ → List (Text × List ℕ) → List (Text × List ℕ)
add_score policy e score grouped = elim (lookup e policy) [
  | none ↦ grouped
  | some a ↦ insert e (scores_in grouped e ++ score ∷ []) grouped
]

unfoldable pub group_scores : Policy → List (Text × List ℕ) → List (Text × ℕ) → List (Text × List ℕ)
group_scores policy grouped [] = grouped
group_scores policy grouped ((e, score) ∷ detections) =
    group_scores policy (add_score policy e score grouped) detections

-- The order of Python's `str`: by code points.
unfoldable pub text_le : Text → Text → Bool
text_le [] t = true
text_le (a ∷ s) [] = false
text_le (a ∷ s) (b ∷ t) = if ltb a b then true else if ltb b a then false else text_le s t

unfoldable pub insert_sorted : Text → List Text → List Text
insert_sorted x [] = x ∷ []
insert_sorted x (y ∷ ys) = if text_le x y then x ∷ y ∷ ys else y ∷ insert_sorted x ys

-- sorted(..)
unfoldable pub sorted : List Text → List Text
sorted [] = []
sorted (x ∷ xs) = insert_sorted x (sorted xs)

abbrev pub keys {ℓ} : {V : Type ℓ} → List (Text × V) → List Text
keys m = map (λ p. p.0) m

-- d[k], min(..) and max(..), with the exceptions that they raise
unfoldable pub get_item {ℓ} : {V : Type ℓ} → List (Text × V) → Text → Result V
get_item m k = elim (lookup k m) [ none ↦ raise key_error | some v ↦ ok v ]

abbrev pub least : ℕ → List ℕ → ℕ
least x [] = x
least x (y ∷ ys) = least (min x y) ys

abbrev pub greatest : ℕ → List ℕ → ℕ
greatest x [] = x
greatest x (y ∷ ys) = greatest (max x y) ys

abbrev pub min_of : List ℕ → Result ℕ
min_of [] = raise value_error
min_of (x ∷ xs) = ok (least x xs)

abbrev pub max_of : List ℕ → Result ℕ
max_of [] = raise value_error
max_of (x ∷ xs) = ok (greatest x xs)

abbrev pub is_block : PolicyAction → Bool
is_block block = true
is_block _ = false

-- One round of the loop over sorted(grouped).
unfoldable pub decide : (ℕ → ℕ) → Policy → List (Text × List ℕ) → Text → Result PolicyDecision
unfolding policy_action_value
decide round3 policy grouped entity_type = do
  scores ← get_item grouped entity_type
  action ← get_item policy entity_type
  lowest ← min_of scores
  highest ← max_of scores
  ok (record {
    entity_type = entity_type;
    action = action;
    count = length scores;
    score_min = round3 lowest;
    score_max = round3 highest;
    request_blocked = is_block action;
    reason_code = codes "policy_" ++ policy_action_value action;
  })

unfoldable pub decide_all :
    (ℕ → ℕ) → Policy → List (Text × List ℕ) → List Text → Result (List PolicyDecision)
decide_all round3 policy grouped [] = ok []
decide_all round3 policy grouped (e ∷ es) = decide round3 policy grouped e >>= λ d.
    decide_all round3 policy grouped es >>= λ ds. ok (d ∷ ds)

unfoldable pub build_decisions : (ℕ → ℕ) → List (Text × ℕ) → Policy → Result (List PolicyDecision)
build_decisions round3 detections policy =
    let grouped = group_scores policy [] detections in
    decide_all round3 policy grouped (sorted (keys grouped))

unfoldable pub blocked_entity_types : List PolicyDecision → List Text
blocked_entity_types [] = []
blocked_entity_types (d ∷ ds) =
    if d.request_blocked then d.entity_type ∷ blocked_entity_types ds else blocked_entity_types ds
