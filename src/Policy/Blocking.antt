-- ===== src/Policy/Blocking.antt =====
-- What build_decisions returns: it never raises, each decision sums up the detections of its entity
-- type, and a request is blocked exactly if a detection has the action BLOCK.
use privacy_gateway_llm_appl.Prelude.{
  codes, ℕ, ◌≤◌, Text, List, [], ◌∷◌, ◌++◌, none, some, true, false, ◌≡◌, ◌≢◌, ◌⊎◌, ◌↔◌, inl, inr,
  refl, sym, ap, ◌∙◌, subst, Option-cases, Bool-cases, All, text_eq, length, lookup, arith,
}
use privacy_gateway_llm_appl.Errors.{ok-injective, ok}
use privacy_gateway_llm_appl.Policy.{
  PolicyAction, block, Policy, PolicyDecision, scores_in, group_scores, sorted, keys,
  policy_action_value, least, greatest, is_block, decide, decide_all, build_decisions,
  blocked_entity_types,
}
use privacy_gateway_llm_appl.Policy.Decisions.{
  scores_of, Member, IsGrouped, scores_or, group_scores-IsGrouped, scores_in-group_scores,
}
use privacy_gateway_llm_appl.Policy.Sorting.{Member-sorted, Member-keys, get_item-found}
use privacy_gateway_llm_appl.Policy.Extremes.{
  Among, least-le, le-greatest, least_bounds, greatest_bounds, All-both, least-Among,
  greatest-Among,
}

-- A decision sums up the detections of its entity type.
pub record IsSummary (round3 : ℕ → ℕ) (policy : Policy) (detections : List (Text × ℕ)) (e : Text)
    (d : PolicyDecision) : Type 0 where
  pub entity_type : d.entity_type ≡ e
  pub action : lookup e policy ≡ some d.action
  pub count : d.count ≡ length (scores_of e detections)
  pub lowest : ℕ
  pub highest : ℕ
  pub attained : Among lowest (scores_of e detections) × Among highest (scores_of e detections)
  pub bounds : All (λ s. (lowest ≤ s) × (s ≤ highest)) (scores_of e detections)
  pub score_min : d.score_min ≡ round3 lowest
  pub score_max : d.score_max ≡ round3 highest
  pub request_blocked : d.request_blocked ≡ is_block d.action

abbrev pub Summaries : (ℕ → ℕ) → Policy → List (Text × ℕ) → List Text → List PolicyDecision → Type 0
Summaries round3 policy detections [] [] = Unit
Summaries round3 policy detections (e ∷ es) (d ∷ ds) =
    IsSummary round3 policy detections e d × Summaries round3 policy detections es ds
Summaries round3 policy detections _ _ = ⊥

action_of_blocked : (a : PolicyAction) → is_block a ≡ true → a ≡ block
action_of_blocked a h = ground arith

not_blocked : (a : PolicyAction) → is_block a ≡ false → a ≢ block
not_blocked a h e = ground arith

some-eq : {a b : PolicyAction} → some a ≡ some b → a ≡ b
some-eq e = cc

module _ (round3 : ℕ → ℕ) (policy : Policy) (detections : List (Text × ℕ)) where
  abbrev grouped : List (Text × List ℕ)
  grouped = group_scores policy [] detections

  abbrev decision_of : Text → ℕ → List ℕ → PolicyAction → PolicyDecision
  decision_of e x xs a = record {
    entity_type = e;
    action = a;
    count = length (x ∷ xs);
    score_min = round3 (least x xs);
    score_max = round3 (greatest x xs);
    request_blocked = is_block a;
    reason_code = codes "policy_" ++ policy_action_value a;
  }

  decide_lem :
      (e : Text) (scores : List ℕ) (a : PolicyAction)
      → lookup e grouped ≡ some scores
      → scores ≡ scores_of e detections
      → scores ≢ []
      → lookup e policy ≡ some a
      → (d : PolicyDecision) × (decide round3 policy grouped e ≡ ok d)
        × IsSummary round3 policy detections e d
  unfolding decide
  decide_lem e [] a found same ne present = absurd (ne refl)
  decide_lem e (x ∷ xs) a found same ne present = (
    decision_of e x xs a,
    rw (get_item-found e grouped found, get_item-found e policy present),
    record {
      entity_type = refl;
      action = present;
      count = ap (λ (s : List ℕ). length s) same;
      lowest = least x xs;
      highest = greatest x xs;
      attained =
          subst (λ (l : List ℕ). Among (least x xs) l × Among (greatest x xs) l) same
            (least-Among x xs, greatest-Among x xs);
      bounds =
          subst (λ (l : List ℕ). All (λ s. (least x xs ≤ s) × (s ≤ greatest x xs)) l) same
            (
              (least-le x x xs (omega arith), le-greatest x x xs (omega arith)),
              All-both _ _ xs (least_bounds x xs) (greatest_bounds x xs),
            );
      score_min = refl;
      score_max = refl;
      request_blocked = refl;
    },
  )

  IsGrouped-grouped : IsGrouped policy grouped
  IsGrouped-grouped =
      group_scores-IsGrouped policy detections [] (unfold lookup in (λ e scores h. cc))

  grouped_scores :
      (e : Text) → lookup e policy ≢ none → scores_in grouped e ≡ scores_of e detections
  grouped_scores e present =
      scores_in-group_scores policy detections e [] present ∙ unfold lookup in refl

  detected :
      (e : Text)
      → (lookup e grouped ≡ none) ⊎ ((scores : List ℕ) × (lookup e grouped ≡ some scores))
      → lookup e grouped ≢ none
      → (lookup e policy ≢ none) × (scores_of e detections ≢ [])
  detected e (inl gone) h = absurd (h gone)
  detected e (inr (scores, found)) h =
      let (ne, present) = IsGrouped-grouped e scores found in
      let same = ap (λ o. scores_or o) (sym found) ∙ grouped_scores e present in
      (present, subst (λ (l : List ℕ). l ≢ []) same ne)

  held : (e : Text) → lookup e policy ≢ none → scores_of e detections ≢ [] → lookup e grouped ≢ none
  held e present ne gone = ne (sym (grouped_scores e present) ∙ ap (λ o. scores_or o) gone)

  -- The entity types that decisions are made for: those of the policy that were detected.
  grouped_iff :
      (e : Text)
      → (lookup e grouped ≢ none) ↔ ((lookup e policy ≢ none) × (scores_of e detections ≢ []))
  grouped_iff e = (λ h. detected e (Option-cases (lookup e grouped)) h, λ h. held e h.0 h.1)

  decide_key :
      (e : Text)
      → lookup e grouped ≢ none
      → (d : PolicyDecision) × (decide round3 policy grouped e ≡ ok d)
        × IsSummary round3 policy detections e d
  decide_key e h = elim (Option-cases (lookup e grouped)) [
    | inl gone ↦ absurd (h gone)
    | inr (scores, found) ↦ elim (Option-cases (lookup e policy)) [
      | inl out ↦ absurd ((IsGrouped-grouped e scores found).1 out)
      | inr (a, present) ↦
          let there = (IsGrouped-grouped e scores found).1 in
          decide_lem e scores a found (ap (λ o. scores_or o) (sym found) ∙ grouped_scores e there)
            (IsGrouped-grouped e scores found).0 present
    ]
  ]

  decide_all_lem :
      (es : List Text)
      → ((e : Text) → Member e es → lookup e grouped ≢ none)
      → (ds : List PolicyDecision) × (decide_all round3 policy grouped es ≡ ok ds)
        × Summaries round3 policy detections es ds
  unfolding decide_all
  decide_all_lem [] h = ([], refl, tt)
  decide_all_lem (e ∷ es) h =
      let (d, decided, summary) = decide_key e (h e (inl refl)) in
      let (ds, rest, summaries) = decide_all_lem es (λ k m. h k (inr m)) in
      (d ∷ ds, rw (decided, rest), (summary, summaries))

  -- build_decisions never raises. It returns one decision for each of a list of entity types, which
  -- sums up the detections of that type: their number, their least and greatest score, rounded, and
  -- the action of the policy. The list holds exactly the entity types of the policy that were detected.
  pub build_decisions_lem :
      (es : List Text) × (ds : List PolicyDecision) × (build_decisions round3 detections policy
        ≡ ok ds)
      × Summaries round3 policy detections es ds
      × ((e : Text) → Member e es ↔ ((lookup e policy ≢ none) × (scores_of e detections ≢ [])))
  unfolding build_decisions
  build_decisions_lem =
      let (ds, built, summaries) =
        decide_all_lem (sorted (keys grouped))
          (λ e m. (Member-keys e grouped).0 ((Member-sorted e (keys grouped)).0 m)) in
      (
        sorted (keys grouped),
        ds,
        built,
        summaries,
        λ e. (
          λ m. (grouped_iff e).0 ((Member-keys e grouped).0 ((Member-sorted e (keys grouped)).0 m)),
          λ h. (Member-sorted e (keys grouped)).1 ((Member-keys e grouped).1 ((grouped_iff e).1 h)),
        ),
      )

  -- What the entity types and the decisions of a request have to do with one another.
  blocked_of_Summaries :
      (es : List Text) (ds : List PolicyDecision)
      → Summaries round3 policy detections es ds
      → (e : Text)
      → (Member e (blocked_entity_types ds)) ↔ (Member e es × (lookup e policy ≡ some block))
  unfolding blocked_entity_types
  blocked_of_Summaries [] [] h e = (λ m. absurd m, λ m. m.0)
  blocked_of_Summaries [] (d ∷ ds) h e = absurd h
  blocked_of_Summaries (k ∷ es) [] h e = absurd h
  blocked_of_Summaries (k ∷ es) (d ∷ ds) (s, h) e =
      let (to, from) = blocked_of_Summaries es ds h e in
      let after_k : k ≡ e → lookup e policy ≡ some d.action =
        λ same. subst (λ x. lookup x policy ≡ some d.action) same s.action in
      elim (Bool-cases d.request_blocked) [
        | inl blocks ↦
            let act : d.action ≡ block =
              action_of_blocked d.action (sym s.request_blocked ∙ blocks) in
            rw blocks (
              λ m. elim m [
                | inl same ↦
                    let k_e = sym s.entity_type ∙ same in (inl k_e, after_k k_e ∙ ap some act)
                | inr later ↦ (inr (to later).0, (to later).1)
              ],
              λ p. elim p.0 [
                | inl k_e ↦ inl (s.entity_type ∙ k_e)
                | inr later ↦ inr (from (later, p.1))
              ],
            )
        | inr passes ↦ rw passes (
          λ m. (inr (to m).0, (to m).1),
          λ p. elim p.0 [
            | inl k_e ↦ absurd (
                not_blocked d.action (sym s.request_blocked ∙ passes)
                  (some-eq (sym (after_k k_e) ∙ p.1)))
            | inr later ↦ from (later, p.1)
          ],
        )
      ]

  -- In what build_decisions returns, an entity type is reported as blocked exactly if the policy
  -- has BLOCK for it and it was detected.
  pub blocked_iff :
      (ds : List PolicyDecision)
      → build_decisions round3 detections policy ≡ ok ds
      → (e : Text)
      → (Member e (blocked_entity_types ds))
        ↔ ((lookup e policy ≡ some block) × (scores_of e detections ≢ []))
  blocked_iff ds built e =
      let (es, ds', built', summaries, members) = build_decisions_lem in
      let same : ds' ≡ ds = ok-injective (sym built' ∙ built) in
      let (to, from) =
        blocked_of_Summaries es ds (subst (Summaries round3 policy detections es) same summaries)
          e in
      let (in_policy, from_policy) = members e in
      (λ m. ((to m).1, (in_policy (to m).0).1), λ h. from (from_policy (λ gone. cc, h.1), h.0))
