-- ===== src/Evaluation/Agreement.antt =====
-- `evaluate` of evaluation/run_detection_evaluation.py counts what the description in Tallies says.
use privacy_gateway_llm_appl.Prelude.{
  List, [], ◌∷◌, not, ◌≡◌, refl, sym, ap, ◌∙◌, nat_eq, text_eq, arith,
}
use privacy_gateway_llm_appl.Errors.{Result, ok, raise, ◌>>=◌}
use privacy_gateway_llm_appl.Mediator.{RecognizerResult, PiiMediator, analyze}
use privacy_gateway_llm_appl.Evaluation.{
  Entity, Case, any, Counters, Progress, entity_loop, add_counts, overall, evaluate_case,
  with_report, evaluate_cases, evaluate, Case,
}
use privacy_gateway_llm_appl.Evaluation.Tallies.{
  Matching, count_if, tally, accounts_for, tally_all, add_counts-zero, Counts-eq, add_counts_swap,
  zero-add_counts,
}
use privacy_gateway_llm_appl.Evaluation.Loops.{
  spotted, entity_counts, surplus_counts, hit_counts, spotted-accounts_for, entity_loop-counts,
  entity_loop-matched, surplus_loop-counts,
}

entity_counts_lem :
    (matches : Matching) (dets : List RecognizerResult) (es : List Entity)
    → entity_counts matches dets es ≡ record {
      tp = count_if (λ e. any (matches e) dets) es;
      fp = 0;
      fn = count_if (λ e. not (any (matches e) dets)) es;
    }
entity_counts_lem matches dets [] = refl
entity_counts_lem matches dets (e ∷ es) =
    ap (add_counts (hit_counts (any (matches e) dets))) (entity_counts_lem matches dets es)

counts-tally :
    (matches : Matching) (es : List Entity) (dets : List RecognizerResult)
    → add_counts (entity_counts matches dets es) (surplus_counts matches es dets)
      ≡ tally matches es dets
counts-tally matches es dets =
    ap (λ c. add_counts c (surplus_counts matches es dets)) (entity_counts_lem matches dets es)
    ∙ Counts-eq _ _ (omega arith) (omega arith) (omega arith)

evaluate_case-tally :
    (c : Case) (dets : List RecognizerResult) (counters : Counters)
    → overall (evaluate_case c dets counters).1
      ≡ add_counts (tally (accounts_for c.text) c.entities dets) (overall counters)
unfolding evaluate_case
evaluate_case-tally c dets counters =
    let begin : Progress = record { matched = []; counters = counters; listed = [] } in
    let found = entity_loop c.text dets c.entities begin in
    surplus_loop-counts (spotted c.text) c.entities 0 dets (record found { listed = [] })
      (λ i le. entity_loop-matched c.text dets i c.entities begin)
    ∙ ap (add_counts (surplus_counts (spotted c.text) c.entities dets))
        (entity_loop-counts c.text dets c.entities begin)
    ∙ add_counts_swap (surplus_counts (spotted c.text) c.entities dets)
        (entity_counts (spotted c.text) dets c.entities) (overall counters)
    ∙ ap (λ t. add_counts t (overall counters)) (counts-tally (spotted c.text) c.entities dets)
    ∙ ap (λ (m : Matching). add_counts (tally m c.entities dets) (overall counters))
        (spotted-accounts_for c.text)

map_twice {ℓ κ ι} :
    {A : Type ℓ} {B : Type κ} {C : Type ι} (r : Result A) (f : A → B) (g : B → C)
    → (r >>= λ a. ok (f a)) >>= (λ b. ok (g b)) ≡ r >>= λ a. ok (g (f a))
map_twice (ok a) f g = refl
map_twice (raise x) f g = refl

-- One case, for what analyze returns or raises, before the others.
case_step :
    (m : PiiMediator) (c : Case) (cases : List Case) (counters : Counters)
    (r : Result (List RecognizerResult))
    → ((counters' : Counters)
        → (evaluate_cases m cases counters' >>= λ done. ok (overall done.1))
          ≡ (tally_all m cases >>= λ t. ok (add_counts t (overall counters'))))
    → ((r >>= λ dets. evaluate_cases m cases (evaluate_case c dets counters).1 >>= λ rest.
          ok (with_report (evaluate_case c dets counters).0 rest))
        >>= (λ done. ok (overall done.1)))
      ≡ ((r >>= λ dets. tally_all m cases >>= λ rest.
            ok (add_counts (tally (accounts_for c.text) c.entities dets) rest))
          >>= (λ t. ok (add_counts t (overall counters))))
case_step m c cases counters (raise x) others = refl
case_step m c cases counters (ok dets) others =
    let counters' = (evaluate_case c dets counters).1 in
    let own = tally (accounts_for c.text) c.entities dets in
    map_twice (evaluate_cases m cases counters') _ _
    ∙ others counters'
    ∙ ap (λ f. tally_all m cases >>= f)
        (λ i t. ok (
          (ap (add_counts t) (evaluate_case-tally c dets counters)
              ∙ add_counts_swap t own (overall counters))
            i))
    ∙ sym (map_twice (tally_all m cases) (add_counts own) (λ t. add_counts t (overall counters)))

evaluate_cases-tally :
    (m : PiiMediator) (cases : List Case) (counters : Counters)
    → (evaluate_cases m cases counters >>= λ done. ok (overall done.1))
      ≡ (tally_all m cases >>= λ t. ok (add_counts t (overall counters)))
unfolding evaluate_cases tally_all
evaluate_cases-tally m [] counters = ap ok (sym (zero-add_counts (overall counters)))
evaluate_cases-tally m (c ∷ cases) counters =
    case_step m c cases counters (analyze m c.text) (evaluate_cases-tally m cases)

bind-ok {ℓ} : {A : Type ℓ} (r : Result A) → (r >>= λ a. ok a) ≡ r
bind-ok (ok a) = refl
bind-ok (raise x) = refl

-- The overall counts of evaluate, which it keeps through loops over indices and a dictionary of
-- counters, are the sums over the cases of: the entities of which some detection of the same type
-- overlaps a place of the value in the text, those of which none does, and the detections that do so
-- for no entity. The places are all those at which the value stands, and an exception of analyze goes
-- through.
pub evaluate-tally_all :
    (m : PiiMediator) (cases : List Case)
    → (evaluate m cases >>= λ evaluation. ok evaluation.total) ≡ tally_all m cases
unfolding evaluate overall
evaluate-tally_all m cases =
    map_twice (evaluate_cases m cases []) _ _
    ∙ evaluate_cases-tally m cases []
    ∙ ap (λ f. tally_all m cases >>= f) (λ i t. ok (add_counts-zero t i))
    ∙ bind-ok (tally_all m cases)
