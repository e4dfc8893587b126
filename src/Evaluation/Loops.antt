-- ===== src/Evaluation/Loops.antt =====
-- The loops of `evaluate` of evaluation/run_detection_evaluation.py over one case: matched indices, and
-- what the counters gain.
use privacy_gateway_llm_appl.Prelude.{
  ℕ, ◌+◌, ◌<◌, ◌≤◌, Text, List, [], ◌∷◌, Bool, true, false, not, ◌&&◌, ◌||◌, ◌≡◌, refl, sym, ap,
  ◌∙◌, nat_eq, text_eq, ◌==◌, ==_self, if◌then◌else◌, Bool-cases, inl, inr, arith,
}
use privacy_gateway_llm_appl.Mediator.{RecognizerResult}
use privacy_gateway_llm_appl.Evaluation.{
  Entity, spans_of, any, detects, Counts, true_positive, false_positive, false_negative,
  zero_counts, match_loop, Progress, after_entity, after_detection, entity_loop, is_matched,
  surplus_loop, add_counts, overall,
}
use privacy_gateway_llm_appl.Evaluation.Spans.{spans_of-places}
use privacy_gateway_llm_appl.Evaluation.Tallies.{
  Matching, count_if, accounts_for, Counts-eq, add_counts_swap, zero-add_counts, overall-bump,
}

-- Whether the test holds of the detection with number `i`, counted from `index`.
abbrev holds_at : (RecognizerResult → Bool) → ℕ → ℕ → List RecognizerResult → Bool
holds_at test i index [] = false
holds_at test i index (det ∷ dets) = index == i && test det || holds_at test i (index + 1) dets

match_loop-hit :
    (test : RecognizerResult → Bool) (index : ℕ) (dets : List RecognizerResult) (matched : List ℕ)
    (hit : Bool)
    → (match_loop test index dets matched hit).1 ≡ (hit || any test dets)
unfolding match_loop
match_loop-hit test index [] matched hit = ground arith
match_loop-hit test index (det ∷ dets) matched hit = elim (Bool-cases (test det)) [
  | inl fits ↦ rw (fits, match_loop-hit test (index + 1) dets (index ∷ matched) true) (ground arith)
  | inr misses ↦ rw (misses, match_loop-hit test (index + 1) dets matched hit) refl
]

match_loop-matched :
    (test : RecognizerResult → Bool) (i index : ℕ) (dets : List RecognizerResult) (matched : List ℕ)
    (hit : Bool)
    → is_matched i (match_loop test index dets matched hit).0
      ≡ (is_matched i matched || holds_at test i index dets)
unfolding match_loop
match_loop-matched test i index [] matched hit = ground arith
match_loop-matched test i index (det ∷ dets) matched hit = elim (Bool-cases (test det)) [
  | inl fits ↦
      rw (fits, match_loop-matched test i (index + 1) dets (index ∷ matched) true) (ground arith)
  | inr misses ↦ rw (misses, match_loop-matched test i (index + 1) dets matched hit) (ground arith)
]

holds_at-past :
    (test : RecognizerResult → Bool) (i index : ℕ) (dets : List RecognizerResult)
    → i < index
    → holds_at test i index dets ≡ false
holds_at-past test i index [] h = refl
holds_at-past test i index (det ∷ dets) h =
    let later = holds_at-past test i (index + 1) dets (omega arith) in ground arith

-- What the code tests: with the spans that _spans_of finds.
abbrev pub spotted : Text → Matching
spotted text e det = detects (spans_of text e.value) e.type det

pub spotted-accounts_for : (text : Text) → spotted text ≡ accounts_for text
spotted-accounts_for text = λ i e det. detects (spans_of-places text e.value i) e.type det

-- The counts of one entity, and of a list of entities, without the false positives.
abbrev pub hit_counts : Bool → Counts
hit_counts hit = record { tp = if hit then 1 else 0; fp = 0; fn = if not hit then 1 else 0 }

abbrev pub entity_counts : Matching → List RecognizerResult → List Entity → Counts
entity_counts matches dets [] = zero_counts
entity_counts matches dets (e ∷ es) =
    add_counts (hit_counts (any (matches e) dets)) (entity_counts matches dets es)

after_entity-counts :
    (type : Text) (out : List ℕ × Bool) (p : Progress)
    → overall (after_entity type out p).counters
      ≡ add_counts (hit_counts out.1) (overall p.counters)
after_entity-counts type (matched, true) p =
    overall-bump type true_positive p.counters
    ∙ Counts-eq _ _ (omega arith) (omega arith) (omega arith)
after_entity-counts type (matched, false) p =
    overall-bump type false_negative p.counters
    ∙ Counts-eq _ _ (omega arith) (omega arith) (omega arith)

after_entity-matched :
    (type : Text) (out : List ℕ × Bool) (p : Progress) → (after_entity type out p).matched ≡ out.0
after_entity-matched type (matched, true) p = refl
after_entity-matched type (matched, false) p = refl

or_assoc : (a b c : Bool) → ((a || b) || c) ≡ (a || (b || c))
or_assoc a b c = ground arith

module _ (text : Text) (dets : List RecognizerResult) where
  pub entity_loop-counts :
      (es : List Entity) (p : Progress)
      → overall (entity_loop text dets es p).counters
        ≡ add_counts (entity_counts (spotted text) dets es) (overall p.counters)
  unfolding entity_loop
  entity_loop-counts [] p = sym (zero-add_counts (overall p.counters))
  entity_loop-counts (e ∷ es) p =
      let out = match_loop (spotted text e) 0 dets p.matched false in
      entity_loop-counts es (after_entity e.type out p)
      ∙ ap (add_counts (entity_counts (spotted text) dets es)) (
          after_entity-counts e.type out p
          ∙ ap (λ hit. add_counts (hit_counts hit) (overall p.counters))
              (match_loop-hit (spotted text e) 0 dets p.matched false))
      ∙ add_counts_swap (entity_counts (spotted text) dets es)
          (hit_counts (any (spotted text e) dets)) (overall p.counters)

  pub entity_loop-matched :
      (i : ℕ) (es : List Entity) (p : Progress)
      → is_matched i (entity_loop text dets es p).matched
        ≡ (is_matched i p.matched || any (λ e. holds_at (spotted text e) i 0 dets) es)
  unfolding entity_loop
  entity_loop-matched i [] p = ground arith
  entity_loop-matched i (e ∷ es) p =
      let out = match_loop (spotted text e) 0 dets p.matched false in
      entity_loop-matched i es (after_entity e.type out p)
      ∙ ap (λ m. is_matched i m || any (λ e. holds_at (spotted text e) i 0 dets) es)
          (after_entity-matched e.type out p)
      ∙ ap (λ b. b || any (λ e. holds_at (spotted text e) i 0 dets) es)
          (match_loop-matched (spotted text e) i 0 dets p.matched false)
      ∙ or_assoc (is_matched i p.matched) (holds_at (spotted text e) i 0 dets) _

-- The detections from number `index` on that account for no entity.
abbrev pub surplus_counts : Matching → List Entity → List RecognizerResult → Counts
surplus_counts matches es dets = record {
  tp = 0;
  fp = count_if (λ det. not (any (λ e. matches e det) es)) dets;
  fn = 0;
}

any-ext {ℓ} :
    {A : Type ℓ} (f g : A → Bool) (xs : List A) → ((x : A) → f x ≡ g x) → any f xs ≡ any g xs
any-ext f g xs h = ap (λ t. any t xs) (λ i x. h x i)

holds_at_self :
    (test : RecognizerResult → Bool) (index : ℕ) (det : RecognizerResult)
    (dets : List RecognizerResult)
    → holds_at test index index (det ∷ dets) ≡ test det
holds_at_self test index det dets =
    rw (==_self index, holds_at-past test index (index + 1) dets (omega arith)) (ground arith)

holds_at-later :
    (test : RecognizerResult → Bool) (i index : ℕ) (det : RecognizerResult)
    (dets : List RecognizerResult)
    → index + 1 ≤ i
    → holds_at test i index (det ∷ dets) ≡ holds_at test i (index + 1) dets
holds_at-later test i index det dets h = ground arith

abbrev surplus_count : Bool → Counts
surplus_count accounted = record { tp = 0; fp = if not accounted then 1 else 0; fn = 0 }

after_detection-counts :
    (b : Bool) (det : RecognizerResult) (p : Progress)
    → overall (after_detection b det p).counters ≡ add_counts (surplus_count b) (overall p.counters)
after_detection-counts true det p = sym (zero-add_counts (overall p.counters))
after_detection-counts false det p =
    overall-bump det.entity_type false_positive p.counters
    ∙ Counts-eq _ _ (omega arith) (omega arith) (omega arith)

after_detection-matched :
    (b : Bool) (det : RecognizerResult) (p : Progress)
    → (after_detection b det p).matched ≡ p.matched
after_detection-matched true det p = refl
after_detection-matched false det p = refl

module _ (matches : Matching) (es : List Entity) where
  -- The matched indices from `index` on are those of detections that some entity is matched by.
  abbrev AreMatched : ℕ → List RecognizerResult → Progress → Type 0
  AreMatched index dets p =
      (i : ℕ) → index ≤ i → is_matched i p.matched ≡ any (λ e. holds_at (matches e) i index dets) es

  pub surplus_loop-counts :
      (index : ℕ) (dets : List RecognizerResult) (p : Progress)
      → AreMatched index dets p
      → overall (surplus_loop index dets p).counters
        ≡ add_counts (surplus_counts matches es dets) (overall p.counters)
  unfolding surplus_loop
  surplus_loop-counts index [] p h = sym (zero-add_counts (overall p.counters))
  surplus_loop-counts index (det ∷ dets) p h =
      let b = is_matched index p.matched in
      let p' = after_detection b det p in
      let accounted : b ≡ any (λ e. matches e det) es =
        h index (omega arith) ∙ any-ext _ _ es (λ e. holds_at_self (matches e) index det dets) in
      surplus_loop-counts (index + 1) dets p' (λ i le.
        ap (is_matched i) (after_detection-matched b det p)
        ∙ h i (omega arith)
        ∙ any-ext _ _ es (λ e. holds_at-later (matches e) i index det dets le))
      ∙ ap (add_counts (surplus_counts matches es dets)) (
          after_detection-counts b det p
          ∙ ap (λ a. add_counts (surplus_count a) (overall p.counters)) accounted)
      ∙ add_counts_swap (surplus_counts matches es dets)
          (surplus_count (any (λ e. matches e det) es)) (overall p.counters)
