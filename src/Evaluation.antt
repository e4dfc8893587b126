-- ===== src/Evaluation.antt =====
-- evaluation/run_detection_evaluation.py: the spans of a labelled value in a text, and the counts of
-- `evaluate`. The ratios that it computes of the counts are floats and are left out.
pub mod Tables
pub mod Attacks
pub mod Leakage
pub mod Latency
pub mod Spans
pub mod Tallies
pub mod Loops
pub mod Agreement
pub mod Examples
use privacy_gateway_llm_appl.Prelude.{
  ℕ, zero, suc, ◌+◌, Text, List, [], ◌∷◌, ◌++◌, Option, none, some, Bool, true, false, ◌&&◌, ◌||◌,
  ltb, leb, nat_eq, text_eq, ◌==◌, if◌then◌else◌, length, drop, lookup, insert,
}
use privacy_gateway_llm_appl.Errors.{Result, ok, ◌>>=◌}
use privacy_gateway_llm_appl.Mediator.{RecognizerResult, PiiMediator, analyze}

-- An element of case["entities"], and of the dataset.
pub record Entity : Type 0 where
  pub type : Text
  pub value : Text

pub record Case : Type 0 where
  pub id : Text
  pub text : Text
  pub entities : List Entity

-- text.startswith(value)
unfoldable pub starts_with : Text → Text → Bool
starts_with text [] = true
starts_with [] (v ∷ value) = false
starts_with (c ∷ text) (v ∷ value) = c == v && starts_with text value

-- The first place of `value` in the rest of a text, which begins at `start`.
unfoldable pub find_in : Text → Text → ℕ → Option ℕ
find_in value [] start = if starts_with [] value then some start else none
find_in value (c ∷ rest) start =
    let later = find_in value rest (start + 1) in
    if starts_with (c ∷ rest) value then some start else later

-- text.find(value, start)
unfoldable pub find : Text → Text → ℕ → Option ℕ
find text value start =
    if leb start (length text) then find_in value (drop start text) start else none

-- The `while` loop of _spans_of, on fuel.
unfoldable pub spans_loop : ℕ → Text → Text → Option ℕ → List (ℕ × ℕ)
spans_loop fuel text value none = []
spans_loop zero text value (some start) = []
spans_loop (suc fuel) text value (some start) =
    (start, start + length value) ∷ spans_loop fuel text value (find text value (start + 1))

-- _spans_of: a text has one place more than characters
unfoldable pub spans_of : Text → Text → List (ℕ × ℕ)
spans_of text value = spans_loop (length text + 1) text value (find text value 0)

-- _overlaps
unfoldable pub overlaps : ℕ × ℕ → ℕ × ℕ → Bool
overlaps a b = ltb a.0 b.1 && ltb b.0 a.1

abbrev pub any {ℓ} : {A : Type ℓ} → (A → Bool) → List A → Bool
any test [] = false
any test (x ∷ xs) = test x || any test xs

-- The condition on a detection in the loop over enumerate(detections).
abbrev pub detects : List (ℕ × ℕ) → Text → RecognizerResult → Bool
detects spans type det = det.entity_type == type && any (overlaps (det.start, det.stop)) spans

pub record Counts : Type 0 where
  pub tp : ℕ
  pub fp : ℕ
  pub fn : ℕ

pub data CountKey : Type 0 where
  true_positive false_positive false_negative : CountKey

abbrev pub zero_counts : Counts
zero_counts = record { tp = 0; fp = 0; fn = 0 }

abbrev pub increment : CountKey → Counts → Counts
increment true_positive c = record c { tp = c.tp + 1 }
increment false_positive c = record c { fp = c.fp + 1 }
increment false_negative c = record c { fn = c.fn + 1 }

abbrev pub Counters : Type 0
Counters = List (Text × Counts)

abbrev pub counts_or_zero : Option Counts → Counts
counts_or_zero none = zero_counts
counts_or_zero (some c) = c

-- bump
unfoldable pub bump : Text → CountKey → Counters → Counters
bump entity_type key counters =
    insert entity_type (increment key (counts_or_zero (lookup entity_type counters))) counters

-- The loop over the detections, for one entity: the matched indices, and `hit`.
unfoldable pub match_loop :
    (RecognizerResult → Bool) → ℕ → List RecognizerResult → List ℕ → Bool → List ℕ × Bool
match_loop test index [] matched hit = (matched, hit)
match_loop test index (det ∷ dets) matched hit =
    let skipped = match_loop test (index + 1) dets matched hit in
    let added = match_loop test (index + 1) dets (index ∷ matched) true in
    if test det then added else skipped

-- The matched indices, the counters, and the types of the missed entities or the false positives.
pub record Progress : Type 0 where
  pub matched : List ℕ
  pub counters : Counters
  pub listed : List Text

abbrev pub after_entity : Text → List ℕ × Bool → Progress → Progress
after_entity type (matched, true) p = record p {
  matched = matched;
  counters = bump type true_positive p.counters;
}
after_entity type (matched, false) p = record {
  matched = matched;
  counters = bump type false_negative p.counters;
  listed = p.listed ++ type ∷ [];
}

-- The loop over the entities of a case.
unfoldable pub entity_loop : Text → List RecognizerResult → List Entity → Progress → Progress
entity_loop text dets [] p = p
entity_loop text dets (e ∷ es) p = entity_loop text dets es (
    after_entity e.type (match_loop (detects (spans_of text e.value) e.type) 0 dets p.matched false)
      p)

-- index in matched_detections
abbrev pub is_matched : ℕ → List ℕ → Bool
is_matched index matched = any (λ i. i == index) matched

abbrev pub after_detection : Bool → RecognizerResult → Progress → Progress
after_detection true det p = p
after_detection false det p = record p {
  counters = bump det.entity_type false_positive p.counters;
  listed = p.listed ++ det.entity_type ∷ [];
}

-- The loop that counts the false positives.
unfoldable pub surplus_loop : ℕ → List RecognizerResult → Progress → Progress
surplus_loop index [] p = p
surplus_loop index (det ∷ dets) p =
    surplus_loop (index + 1) dets (after_detection (is_matched index p.matched) det p)

-- An element of per_case.
pub record CaseReport : Type 0 where
  pub id : Text
  pub false_negatives : List Text
  pub false_positives : List Text

-- The body of the loop over the cases, for the detections that analyze found.
unfoldable pub evaluate_case : Case → List RecognizerResult → Counters → CaseReport × Counters
evaluate_case c dets counters =
    let found =
      entity_loop c.text dets c.entities
        (record { matched = []; counters = counters; listed = [] }) in
    let surplus = surplus_loop 0 dets (record found { listed = [] }) in
    (
      record { id = c.id; false_negatives = found.listed; false_positives = surplus.listed },
      surplus.counters,
    )

-- per_case.append(..)
abbrev pub with_report : CaseReport → List CaseReport × Counters → List CaseReport × Counters
with_report report (reports, counters) = (report ∷ reports, counters)

unfoldable pub evaluate_cases :
    PiiMediator → List Case → Counters → Result (List CaseReport × Counters)
evaluate_cases m [] counters = ok ([], counters)
evaluate_cases m (c ∷ cases) counters = analyze m c.text >>= λ dets.
    evaluate_cases m cases (evaluate_case c dets counters).1 >>= λ rest.
    ok (with_report (evaluate_case c dets counters).0 rest)

abbrev pub add_counts : Counts → Counts → Counts
add_counts a b = record { tp = a.tp + b.tp; fp = a.fp + b.fp; fn = a.fn + b.fn }

-- `overall`, summed over counters.values()
unfoldable pub overall : Counters → Counts
overall [] = zero_counts
overall ((entity_type, c) ∷ counters) = add_counts c (overall counters)

pub record Evaluation : Type 0 where
  pub per_entity : Counters
  pub total : Counts
  pub per_case : List CaseReport

-- evaluate, without the ratios and without sorting the entity types
unfoldable pub evaluate : PiiMediator → List Case → Result Evaluation
evaluate m cases = evaluate_cases m cases [] >>= λ done.
    ok (record { per_entity = done.1; total = overall done.1; per_case = done.0 })
