-- ===== src/Policy/Examples.antt =====
-- Runs of gateway/policy.py with the default policy.
use privacy_gateway_llm_appl.Prelude.{
  ℕ, Text, codes, List, [], ◌∷◌, true, false, some, none, ◌≡◌, ◌≢◌, ◌↔◌, refl, text_eq, lookup,
  insert, text_beq,
}
use privacy_gateway_llm_appl.Errors.{ok}
use privacy_gateway_llm_appl.Policy.{
  PolicyDecision, default_policy, tokenize, block, build_decisions, blocked_entity_types, get_item,
  decide, decide_all, sorted, insert_sorted, group_scores, add_score, text_le, policy_action_value,
}
use privacy_gateway_llm_appl.Policy.Decisions.{Member, scores_of}
use privacy_gateway_llm_appl.Policy.Blocking.{Summaries, build_decisions_lem, blocked_iff}

abbrev detections : List (Text × ℕ)
detections =
    (codes "US_SSN", 850)
    ∷ (codes "PERSON", 700)
    ∷ (codes "CRYPTO", 990)
    ∷ (codes "US_SSN", 400)
    ∷ []

abbrev decisions : List PolicyDecision
decisions =
    (record {
      entity_type = codes "PERSON";
      action = tokenize;
      count = 1;
      score_min = 700;
      score_max = 700;
      request_blocked = false;
      reason_code = codes "policy_tokenize";
    })
    ∷ (record {
      entity_type = codes "US_SSN";
      action = block;
      count = 2;
      score_min = 400;
      score_max = 850;
      request_blocked = true;
      reason_code = codes "policy_block";
    })
    ∷ []

decided : build_decisions (λ x. x) detections default_policy ≡ ok decisions
unfolding build_decisions decide_all decide sorted insert_sorted group_scores add_score text_le
    policy_action_value get_item lookup insert text_beq
decided = refl

build_decisions_lem_example :
    (es : List Text) × (ds : List PolicyDecision) × (build_decisions
        (λ x. x)
        detections
        default_policy
      ≡ ok ds)
    × Summaries (λ x. x) default_policy detections es ds
    × ((e : Text)
        → Member e es ↔ ((lookup e default_policy ≢ none) × (scores_of e detections ≢ [])))
build_decisions_lem_example = build_decisions_lem (λ x. x) default_policy detections

blocked_iff_example : (Member (codes "US_SSN") (blocked_entity_types decisions)) ↔ (
    (lookup (codes "US_SSN") default_policy ≡ some block)
    × (scores_of (codes "US_SSN") detections ≢ []))
blocked_iff_example =
    blocked_iff (λ x. x) default_policy detections decisions decided (codes "US_SSN")
