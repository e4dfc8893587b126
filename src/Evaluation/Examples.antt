-- ===== src/Evaluation/Examples.antt =====
-- The evaluation of one case in which the second of two labelled values is missed.
use privacy_gateway_llm_appl.Prelude.{
  finite_float, codes, List, [], ◌∷◌, ◌≡◌, float_one, false, ◌/◌,
}
use privacy_gateway_llm_appl.Errors.{ok, ◌>>=◌}
use privacy_gateway_llm_appl.Policy.{default_policy}
use privacy_gateway_llm_appl.Mediator.{PiiMediator}
use privacy_gateway_llm_appl.Evaluation.{Case, evaluate}
use privacy_gateway_llm_appl.Evaluation.Tallies.{tally_all}
use privacy_gateway_llm_appl.Evaluation.Agreement.{evaluate-tally_all}

abbrev finder : PiiMediator
finder = record {
  presidio = record {
    analyze = λ text entities threshold. ok (
        (record { entity_type = codes "PERSON"; start = 0; stop = 3; score = 850 })
        ∷ (record { entity_type = codes "US_SSN"; start = 4; stop = 5; score = 850 })
        ∷ []);
    anonymize = λ text results operators context. (ok text, context);
    default_operator = λ e v. v;
  };
  policy = default_policy;
  score_threshold = finite_float (record { is_negative = false; magnitude = float_one / 2 });
}

abbrev two_people : List Case
two_people =
    (record {
      id = codes "people";
      text = codes "Ann, Bob";
      entities =
          (record { type = codes "PERSON"; value = codes "Ann" })
          ∷ (record { type = codes "PERSON"; value = codes "Bob" })
          ∷ [];
    })
    ∷ []

evaluate-tally_all_example :
    (evaluate finder two_people >>= λ evaluation. ok evaluation.total) ≡ tally_all finder two_people
evaluate-tally_all_example = evaluate-tally_all finder two_people
