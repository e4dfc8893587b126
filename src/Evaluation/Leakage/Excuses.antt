-- ===== src/Evaluation/Leakage/Excuses.antt =====
-- When evaluation/run_leakage_evaluation.py ends with status 0.
use privacy_gateway_llm_appl.Prelude.{
  ℕ, ◌+◌, Text, List, [], ◌∷◌, ◌++◌, Option, none, some, Bool, true, false, ◌≡◌, ◌≢◌, ◌⊎◌, ◌↔◌, inl,
  inr, refl, sym, ap, subst, All, lookup, text_eq, Bool-cases, arith,
}
use privacy_gateway_llm_appl.Errors.{Result, ok, raise, Result-cases, ok-injective, raise-ne-ok}
use privacy_gateway_llm_appl.Policy.{PolicyAction, allow, tokenize, redact, block, default_policy}
use privacy_gateway_llm_appl.Tokenization.{contains}
use privacy_gateway_llm_appl.Mediator.{RecognizerResult, PiiMediator, analyze}
use privacy_gateway_llm_appl.Gateway.{GatewayState}
use privacy_gateway_llm_appl.Evaluation.{Entity, Case}
use privacy_gateway_llm_appl.Evaluation.Leakage.{
  Harness, Surface, provider_boundary, audit_database, application_output, captured_logs, Finding,
  Findings, add_finding, is_allow, leaves_gateway, surface_loop, was_detected, leak_loop, classify,
  no_findings, status_of, leak_main, surfaces_of, post_all,
}

-- Why a value may stand on a surface: its type is allowed, or it was not detected. Nothing excuses one
-- in the audit database or in the logs.
abbrev pub Excused : Surface → Option PolicyAction → Bool → Type 0
Excused audit_database action found = ⊥
Excused captured_logs action found = ⊥
Excused _ action found = (action ≡ some allow) ⊎ (found ≡ false)

abbrev pub AbsentOrExcused : Entity → Option PolicyAction → Bool → Surface × Text → Type 0
AbsentOrExcused e action found (surface, haystack) =
    (contains haystack e.value ≡ false) ⊎ Excused surface action found

-- What analyze returns.
abbrev pub returned : Result (List RecognizerResult) → List RecognizerResult
returned (ok dets) = dets
returned (raise x) = []

-- Every value of the case that stands on a surface is excused, for given detections.
abbrev pub CleanWith : List (Surface × Text) → Case → List RecognizerResult → Type 0
CleanWith surfaces c dets =
    All
      (λ e. All (AbsentOrExcused e (lookup e.type default_policy) (was_detected c dets e)) surfaces)
      c.entities

abbrev pub IsClean : PiiMediator → List (Surface × Text) → Case → Type 0
IsClean m surfaces c = CleanWith surfaces c (returned (analyze m c.text))

abbrev NoFailures : Findings → Type 0
NoFailures r = r.mediation_failures ≡ []

snoc-ne-nil : {A : Type 0} (xs : List A) (x : A) → xs ++ x ∷ [] ≢ []
snoc-ne-nil [] x e = cc
snoc-ne-nil (y ∷ xs) x e = cc

allow-cases :
    (a : Option PolicyAction) → (a ≡ some allow) ⊎ ((a ≢ some allow) × (is_allow a ≡ false))
allow-cases none = inr (λ e. cc, refl)
allow-cases (some allow) = inl refl
allow-cases (some tokenize) = inr (λ e. cc, refl)
allow-cases (some redact) = inr (λ e. cc, refl)
allow-cases (some block) = inr (λ e. cc, refl)

staying_iff :
    (f : Finding) (found : Bool) (r : Findings)
    → leaves_gateway f.surface ≡ false
    → NoFailures (add_finding f found r) ↔ (NoFailures r × ⊥)
staying_iff f found r stays = elim (Bool-cases (is_allow f.policy_action)) [
  | inl a ↦ elim (Bool-cases found) [
    | inl y ↦ rw (a, stays, y) (λ e. absurd (snoc-ne-nil _ f e), λ h. absurd h.1)
    | inr n ↦ rw (a, stays, n) (λ e. absurd (snoc-ne-nil _ f e), λ h. absurd h.1)
  ]
  | inr a ↦ elim (Bool-cases found) [
    | inl y ↦ rw (a, stays, y) (λ e. absurd (snoc-ne-nil _ f e), λ h. absurd h.1)
    | inr n ↦ rw (a, stays, n) (λ e. absurd (snoc-ne-nil _ f e), λ h. absurd h.1)
  ]
]

leaving_iff :
    (f : Finding) (found : Bool) (r : Findings)
    → leaves_gateway f.surface ≡ true
    → NoFailures (add_finding f found r)
      ↔ (NoFailures r × ((f.policy_action ≡ some allow) ⊎ (found ≡ false)))
leaving_iff f found r leaves = elim (allow-cases f.policy_action) [
  | inl a ↦ rw (a, leaves) (λ e. (e, inl refl), λ h. h.0)
  | inr (other, a) ↦ elim (Bool-cases found) [
    | inl y ↦
        rw (a, leaves, y)
          (λ e. absurd (snoc-ne-nil _ f e), λ h. elim h.1 [ inl b ↦ absurd (other b) | inr b ↦ cc ])
    | inr n ↦ rw (a, leaves, n) (λ e. (e, inr refl), λ h. h.0)
  ]
]

add_finding_iff :
    (f : Finding) (found : Bool) (r : Findings) (surface : Surface)
    → f.surface ≡ surface
    → NoFailures (add_finding f found r) ↔ (NoFailures r × Excused surface f.policy_action found)
add_finding_iff f found r provider_boundary same = leaving_iff f found r (ap leaves_gateway same)
add_finding_iff f found r application_output same = leaving_iff f found r (ap leaves_gateway same)
add_finding_iff f found r audit_database same = staying_iff f found r (ap leaves_gateway same)
add_finding_iff f found r captured_logs same = staying_iff f found r (ap leaves_gateway same)

surface_loop_iff :
    (c : Case) (e : Entity) (action : Option PolicyAction) (found : Bool)
    (surfaces : List (Surface × Text)) (r : Findings)
    → NoFailures (surface_loop c e action found surfaces r)
      ↔ (NoFailures r × All (AbsentOrExcused e action found) surfaces)
unfolding surface_loop
surface_loop_iff c e action found [] r = (λ h. (h, tt), λ h. h.0)
surface_loop_iff c e action found ((surface, haystack) ∷ more) r =
    let f : Finding = record {
      case_id = c.id;
      type = e.type;
      surface = surface;
      policy_action = action;
    } in
    let counted : Findings = record r { checked = r.checked + 1 } in
    elim (Bool-cases (contains haystack e.value)) [
      | inl held ↦
          let (to, from) = surface_loop_iff c e action found more (add_finding f found counted) in
          let (add_to, add_from) = add_finding_iff f found counted surface refl in
          rw (surface_loop, held)
            (
              λ h.
                  let (now, rest) = to h in
                  let (before, excuse) = add_to now in (before, (inr excuse, rest)),
              λ h. from (add_from (h.0, elim h.1.0 [ inl free ↦ cc | inr excuse ↦ excuse ]), h.1.1),
            )
      | inr free ↦
          let (to, from) = surface_loop_iff c e action found more counted in
          rw (surface_loop, free)
            (λ h. let (now, rest) = to h in (now, (inl refl, rest)), λ h. from (h.0, h.1.1))
    ]

leak_loop_iff :
    (c : Case) (dets : List RecognizerResult) (surfaces : List (Surface × Text)) (es : List Entity)
    (r : Findings)
    → NoFailures (leak_loop c dets surfaces es r) ↔ (
        NoFailures r
        × All
            (λ e.
              All
                (AbsentOrExcused e (lookup e.type default_policy) (was_detected c dets e))
                surfaces)
            es)
unfolding leak_loop
leak_loop_iff c dets surfaces [] r = (λ h. (h, tt), λ h. h.0)
leak_loop_iff c dets surfaces (e ∷ es) r =
    let action = lookup e.type default_policy in
    let found = was_detected c dets e in
    let (to, from) = leak_loop_iff c dets surfaces es (surface_loop c e action found surfaces r) in
    let (first_to, first_from) = surface_loop_iff c e action found surfaces r in
    (
      λ h. let (now, rest) = to h in let (before, first) = first_to now in (before, (first, rest)),
      λ h. from (first_from (h.0, h.1.0), h.1.1),
    )

classify_iff :
    (m : PiiMediator) (surfaces : List (Surface × Text)) (cases : List Case) (r out : Findings)
    → classify m surfaces cases r ≡ ok out
    → NoFailures out ↔ (NoFailures r × All (IsClean m surfaces) cases)
unfolding classify
classify_iff m surfaces [] r out e =
    let same : r ≡ out = ok-injective e in rw (← same) (λ h. (h, tt), λ h. h.0)
classify_iff m surfaces (c ∷ cases) r out e = elim (Result-cases (analyze m c.text)) [
  | inr (x, a) ↦ absurd (raise-ne-ok (rw (classify, a) at e))
  | inl (dets, a) ↦
      let (to, from) =
        classify_iff m surfaces cases (leak_loop c dets surfaces c.entities r) out
          (rw (classify, a) at e) in
      let (case_to, case_from) = leak_loop_iff c dets surfaces c.entities r in
      (
        λ h.
            let (now, rest) = to h in
            let (before, clean) = case_to now in
            (before, (subst (CleanWith surfaces c) (sym (ap returned a)) clean, rest)),
        λ h. from (case_from (h.0, subst (CleanWith surfaces c) (ap returned a) h.1.0), h.1.1),
      )
]

status_of_iff : (fs : List Finding) → (status_of fs ≡ 0) ↔ (fs ≡ [])
status_of_iff [] = (λ h. refl, λ h. refl)
status_of_iff (f ∷ fs) = (λ h. absurd (omega arith), λ h. cc)

classify_succeeds :
    (m : PiiMediator) (surfaces : List (Surface × Text)) (cases : List Case) (r : Findings)
    → All (λ c. (dets : List RecognizerResult) × (analyze m c.text ≡ ok dets)) cases
    → (out : Findings) × (classify m surfaces cases r ≡ ok out)
unfolding classify
classify_succeeds m surfaces [] r h = (r, refl)
classify_succeeds m surfaces (c ∷ cases) r ((dets, a), hs) =
    let (out, e) = classify_succeeds m surfaces cases (leak_loop c dets surfaces c.entities r) hs in
    (out, rw (classify, a) e)

-- If the analyzer returns for every case, the script ends, and with status 0 exactly if every labelled
-- value that stands on a surface is excused there: no value is in the audit database or in the logs,
-- and one at the provider's boundary or in the responses has a type that the default policy allows,
-- or has no occurrence that a detection of its type overlaps.
pub leak_main_iff :
    (h : Harness) (cases : List Case) (s : GatewayState)
    → All (λ c. (dets : List RecognizerResult) × (analyze h.app.mediator c.text ≡ ok dets)) cases
    → (status : ℕ) × (leak_main h cases s ≡ ok status)
      × ((status ≡ 0) ↔ All (IsClean h.app.mediator (surfaces_of h (post_all h cases s))) cases)
unfolding leak_main
leak_main_iff h cases s analyzed =
    let surfaces = surfaces_of h (post_all h cases s) in
    let (out, e) = classify_succeeds h.app.mediator surfaces cases no_findings analyzed in
    let (to, from) = classify_iff h.app.mediator surfaces cases no_findings out e in
    let (none_to, none_from) = status_of_iff out.mediation_failures in
    (
      status_of out.mediation_failures,
      rw e refl,
      (λ z. (to (none_to z)).1, λ clean. none_from (from (refl, clean))),
    )
