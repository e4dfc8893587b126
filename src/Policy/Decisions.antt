-- ===== src/Policy/Decisions.antt =====
-- What build_decisions returns: it never raises, each decision sums up the detections of its entity
-- type, and a request is blocked exactly if a detection has the action BLOCK.
use mathlib.Core.List.{append_assoc, append-nil}
use privacy_gateway_llm_appl.Prelude.{
  ℕ, Text, List, [], ◌∷◌, ◌++◌, Option, none, some, ◌≡◌, ◌≢◌, ◌⊎◌, inl, inr, sym, ap, ◌∙◌, subst,
  Option-cases, Bool-cases, ◌==◌, ==_iff, ==_self, text_eq, lookup, insert, lookup-insert,
  lookup-insert_self, lookup-insert_ne, ==_ne, if◌then◌else◌, Text-cases, arith,
}
use privacy_gateway_llm_appl.Policy.{PolicyAction, Policy, scores_in, add_score, group_scores}

-- The scores of the detections of one entity type, in order.
abbrev pub scores_of : Text → List (Text × ℕ) → List ℕ
scores_of e [] = []
scores_of e ((j, score) ∷ detections) =
    if j == e then score ∷ scores_of e detections else scores_of e detections

abbrev pub Member : Text → List Text → Type 0
Member a [] = ⊥
Member a (x ∷ xs) = (x ≡ a) ⊎ Member a xs

-- Every group belongs to an entity type of the policy and holds a score.
abbrev pub IsGrouped : Policy → List (Text × List ℕ) → Type 0
IsGrouped policy grouped =
    (e : Text) (scores : List ℕ)
    → lookup e grouped ≡ some scores
    → (scores ≢ []) × (lookup e policy ≢ none)

append-ne-nil : (xs : List ℕ) (x : ℕ) → xs ++ x ∷ [] ≢ []
append-ne-nil [] x = cc
append-ne-nil (y ∷ xs) x = cc

scores_of-cons :
    (e k : Text) (score : ℕ) (detections : List (Text × ℕ))
    → scores_of k ((e, score) ∷ []) ++ scores_of k detections
      ≡ scores_of k ((e, score) ∷ detections)
scores_of-cons e k score detections = elim (Bool-cases (e == k)) [
  | inl same ↦ rw same
  | inr other ↦ rw other
]

abbrev pub scores_or : Option (List ℕ) → List ℕ
scores_or o = elim o [ none ↦ [] | some scores ↦ scores ]

abbrev ScoresIn : Text → Text → ℕ → List (Text × List ℕ) → Type 0
ScoresIn e k score grouped =
    scores_in (insert e (scores_in grouped e ++ score ∷ []) grouped) k
    ≡ scores_in grouped k ++ scores_of k ((e, score) ∷ [])

module _ (policy : Policy) where
  add_score-absent :
      (e : Text) (score : ℕ) (grouped : List (Text × List ℕ))
      → lookup e policy ≡ none
      → add_score policy e score grouped ≡ grouped
  unfolding add_score
  add_score-absent e score grouped out = rw (out, add_score)

  add_score-present :
      (e : Text) (score : ℕ) (grouped : List (Text × List ℕ)) {a : PolicyAction}
      → lookup e policy ≡ some a
      → add_score policy e score grouped ≡ insert e (scores_in grouped e ++ score ∷ []) grouped
  unfolding add_score
  add_score-present e score grouped present = rw (present, add_score)

  insert-IsGrouped :
      (e : Text) (scores : List ℕ) (grouped : List (Text × List ℕ))
      → IsGrouped policy grouped
      → scores ≢ []
      → lookup e policy ≢ none
      → IsGrouped policy (insert e scores grouped)
  insert-IsGrouped e scores grouped h ne present k found lookup_k = elim (Text-cases e k) [
    | inl same ↦
        let same_scores : scores ≡ found =
          ground (arith, lookup-insert e k scores grouped, ==_iff e k) in
        (subst (λ x. x ≢ []) same_scores ne, subst (λ x. lookup x policy ≢ none) same present)
    | inr other ↦ h k found (ground (arith, lookup-insert e k scores grouped, ==_iff e k))
  ]

  add_score-IsGrouped :
      (e : Text) (score : ℕ) (grouped : List (Text × List ℕ))
      → IsGrouped policy grouped
      → IsGrouped policy (add_score policy e score grouped)
  add_score-IsGrouped e score grouped h = elim (Option-cases (lookup e policy)) [
    | inl out ↦ subst (IsGrouped policy) (sym (add_score-absent e score grouped out)) h
    | inr (a, present) ↦
        subst (IsGrouped policy) (sym (add_score-present e score grouped present))
          (insert-IsGrouped e _ grouped h (append-ne-nil (scores_in grouped e) score) (λ gone. cc))
  ]

  pub group_scores-IsGrouped :
      (detections : List (Text × ℕ)) (grouped : List (Text × List ℕ))
      → IsGrouped policy grouped
      → IsGrouped policy (group_scores policy grouped detections)
  unfolding group_scores
  group_scores-IsGrouped [] grouped h = h
  group_scores-IsGrouped ((e, score) ∷ detections) grouped h =
      group_scores-IsGrouped detections (add_score policy e score grouped)
        (add_score-IsGrouped e score grouped h)

  absent_other : (e k : Text) → lookup e policy ≡ none → lookup k policy ≢ none → e ≢ k
  absent_other e k out present same = present (subst (λ x. lookup x policy ≡ none) same out)

  scores_of_other : (e k : Text) (score : ℕ) → e ≢ k → scores_of k ((e, score) ∷ []) ≡ []
  scores_of_other e k score other = ground (arith, ==_iff e k)

  self : (e : Text) (score : ℕ) (grouped : List (Text × List ℕ)) → ScoresIn e e score grouped
  self e score grouped =
      ground (arith, lookup-insert_self e (scores_in grouped e ++ score ∷ []) grouped, ==_self e)

  scores_in-insert :
      (e k : Text) (score : ℕ) (grouped : List (Text × List ℕ))
      → scores_in (insert e (scores_in grouped e ++ score ∷ []) grouped) k
        ≡ scores_in grouped k ++ scores_of k ((e, score) ∷ [])
  scores_in-insert e k score grouped = elim (Text-cases e k) [
    | inl same ↦ subst (λ x. ScoresIn e x score grouped) same (self e score grouped)
    | inr other ↦ rw (==_ne e k other) (
        ap (λ o. scores_or o)
          (lookup-insert_ne e k (scores_in grouped e ++ score ∷ []) grouped other)
        ∙ sym (append-nil (scores_in grouped k)))
  ]

  -- An entity type of the policy has, beside its old scores, those of its detections.
  scores_in-add_score :
      (e k : Text) (score : ℕ) (grouped : List (Text × List ℕ))
      → lookup k policy ≢ none
      → scores_in (add_score policy e score grouped) k
        ≡ scores_in grouped k ++ scores_of k ((e, score) ∷ [])
  scores_in-add_score e k score grouped present = elim (Option-cases (lookup e policy)) [
    | inl out ↦
        ap (λ m. scores_in m k) (add_score-absent e score grouped out)
        ∙ sym (append-nil (scores_in grouped k))
        ∙ ap (λ s. scores_in grouped k ++ s)
            (sym (scores_of_other e k score (absent_other e k out present)))
    | inr (a, found) ↦
        ap (λ m. scores_in m k) (add_score-present e score grouped found)
        ∙ scores_in-insert e k score grouped
  ]

  pub scores_in-group_scores :
      (detections : List (Text × ℕ)) (k : Text) (grouped : List (Text × List ℕ))
      → lookup k policy ≢ none
      → scores_in (group_scores policy grouped detections) k
        ≡ scores_in grouped k ++ scores_of k detections
  unfolding group_scores
  scores_in-group_scores [] k grouped present = sym (append-nil _)
  scores_in-group_scores ((e, score) ∷ detections) k grouped present =
      scores_in-group_scores detections k (add_score policy e score grouped) present
      ∙ ap (λ s. s ++ scores_of k detections) (scores_in-add_score e k score grouped present)
      ∙ append_assoc (scores_in grouped k) (scores_of k ((e, score) ∷ [])) (scores_of k detections)
      ∙ ap (λ s. scores_in grouped k ++ s) (scores_of-cons e k score detections)
