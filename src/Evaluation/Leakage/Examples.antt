-- ===== src/Evaluation/Leakage/Examples.antt =====
-- The script of evaluation/run_leakage_evaluation.py on one case, whose name the gateway tokenizes.
use privacy_gateway_llm_appl.Prelude.{ℕ, Text, codes, List, [], ◌∷◌, All, ◌≡◌, ◌↔◌, refl}
use privacy_gateway_llm_appl.Errors.{ok}
use privacy_gateway_llm_appl.Mediator.{RecognizerResult, analyze}
use privacy_gateway_llm_appl.Mediator.Examples.{person}
use privacy_gateway_llm_appl.Providers.{ProviderCall}
use privacy_gateway_llm_appl.Gateway.Requests.{ChatMessage, join_lines}
use privacy_gateway_llm_appl.Gateway.Examples.{surroundings, fresh_state}
use privacy_gateway_llm_appl.Gateway.EchoExamples.{echo_app}
use privacy_gateway_llm_appl.Evaluation.{Case}
use privacy_gateway_llm_appl.Evaluation.Leakage.{Harness, leak_main, surfaces_of, post_all}
use privacy_gateway_llm_appl.Evaluation.Leakage.Excuses.{IsClean, leak_main_iff}

abbrev contents : List ChatMessage → List Text
contents [] = []
contents (m ∷ ms) = m.content ∷ contents ms

abbrev call_texts : List ProviderCall → List Text
call_texts [] = []
call_texts (c ∷ calls) = join_lines (contents c.messages) ∷ call_texts calls

abbrev harness : Harness
harness = record {
  app = echo_app;
  env = λ c. surroundings;
  requests_text = λ calls. join_lines (call_texts calls);
  database_text = λ audit. [];
  response_text = λ response. [];
  logs_text = [];
}

abbrev one_case : List Case
one_case =
    (record {
      id = codes "name";
      text = codes "Ann";
      entities = (record { type = codes "PERSON"; value = codes "Ann" }) ∷ [];
    })
    ∷ []

ann_analyzed :
    All
      (λ (c : Case). (dets : List RecognizerResult) × (analyze echo_app.mediator c.text ≡ ok dets))
      one_case
unfolding analyze
ann_analyzed = ((person ∷ [], refl), tt)

leak_main_iff_example :
    (status : ℕ) × (leak_main harness one_case fresh_state ≡ ok status)
    × ((status ≡ 0)
        ↔ All
            (IsClean echo_app.mediator
              (surfaces_of harness (post_all harness one_case fresh_state)))
            one_case)
leak_main_iff_example = leak_main_iff harness one_case fresh_state ann_analyzed
