-- ===== src/Mediator/Sanitizing.antt =====
-- What PIIMediator.apply does with the spans of a text: it fails closed on a BLOCK entity, and what
-- it tokenizes is restored by rehydrate.
use mathlib.Core.List.{append-nil}
use privacy_gateway_llm_appl.Prelude.{
  Text, List, [], ◌∷◌, ◌++◌, Option, none, some, true, ◌≡◌, ◌⊎◌, inl, inr, refl, sym, ap, ◌∙◌,
  subst, All, map, lookup, insert, lookup-insert_self, lookup-insert, text_eq, ◌==◌, ==_iff,
  Bool-cases,
}
use privacy_gateway_llm_appl.Errors.{ok, raise, runtime_error, ok-injective}
use privacy_gateway_llm_appl.Policy.{Policy, PolicyAction, allow, tokenize, redact, block}
use privacy_gateway_llm_appl.Policy.Decisions.{Member}
use privacy_gateway_llm_appl.Anonymizer.{
  Segment, kept, span, original, Rendered, nil, keep, replace_first, replace_last, test_first,
  test_last,
}
use privacy_gateway_llm_appl.Tokenization.{TokenizationContext, token_for}
use privacy_gateway_llm_appl.Tokenization.Restore.{IsEntityName}
use privacy_gateway_llm_appl.Tokenization.RoundTrip.{HasEntityNames}
use privacy_gateway_llm_appl.Mediator.{
  OperatorConfig, replace, RecognizerResult, Operators, custom, Presidio, PiiMediator, actionable,
  operators_for, apply, run_operator, SpansFrom, ReplacesSpans,
}

-- A result whose entity type the policy tokenizes, and that TOKEN_PATTERN admits.
abbrev pub IsTokenized : Policy → RecognizerResult → Type 0
IsTokenized policy r = (lookup r.entity_type policy ≡ some tokenize) × IsEntityName r.entity_type

actionable-tokenized :
    (policy : Policy) (results : List RecognizerResult)
    → All (IsTokenized policy) results
    → actionable policy results ≡ ok results
unfolding actionable
actionable-tokenized policy [] h = refl
actionable-tokenized policy (r ∷ results) ((t, name), hs) =
    rw (t, actionable-tokenized policy results hs, actionable)

actionable-raises :
    (policy : Policy) (q : RecognizerResult) (rest : List RecognizerResult)
    (a : Option PolicyAction)
    → lookup q.entity_type policy ≡ a
    → actionable policy rest ≡ raise runtime_error
    → actionable policy (q ∷ rest) ≡ raise runtime_error
unfolding actionable
actionable-raises policy q rest none e raised = rw (e, raised, actionable)
actionable-raises policy q rest (some allow) e raised = rw (e, raised, actionable)
actionable-raises policy q rest (some tokenize) e raised = rw (e, raised, actionable)
actionable-raises policy q rest (some redact) e raised = rw (e, raised, actionable)
actionable-raises policy q rest (some block) e raised = rw (e, actionable)

actionable-block :
    (policy : Policy) (before : List RecognizerResult) (r : RecognizerResult)
    (after : List RecognizerResult)
    → lookup r.entity_type policy ≡ some block
    → actionable policy (before ++ r ∷ after) ≡ raise runtime_error
unfolding actionable
actionable-block policy [] r after h = rw (h, actionable)
actionable-block policy (q ∷ before) r after h =
    actionable-raises policy q (before ++ r ∷ after) _ refl
      (actionable-block policy before r after h)

abbrev types_of : List RecognizerResult → List Text
types_of results = map (λ (r : RecognizerResult). r.entity_type) results

custom_kept :
    (e k : Text) (ops : Operators)
    → lookup k ops ≡ some (custom k)
    → lookup k (insert e (custom e) ops) ≡ some (custom k)
custom_kept e k ops h = elim (Bool-cases (e == k)) [
  | inl same ↦
      let e_k : e ≡ k = (==_iff e k).0 same in
      subst (λ j. lookup j (insert e (custom e) ops) ≡ some (custom j)) e_k
        (lookup-insert_self e (custom e) ops)
  | inr differ ↦ rw (lookup-insert, differ) h
]

-- Every entity type of the results gets its tokenizer.
operators_for-tokenized :
    (policy : Policy) (results : List RecognizerResult) (ops : Operators)
    → All (IsTokenized policy) results
    → (final : Operators) × (operators_for policy true results ops ≡ ok final)
      × ((e : Text)
          → (Member e (types_of results)) ⊎ (lookup e ops ≡ some (custom e))
          → lookup e final ≡ some (custom e))
unfolding operators_for
operators_for-tokenized policy [] ops h =
    (ops, refl, λ e found. elim found [ inl m ↦ absurd m | inr there ↦ there ])
operators_for-tokenized policy (r ∷ results) ops ((t, name), hs) =
    let (final, made, has) =
      operators_for-tokenized policy results (insert r.entity_type (custom r.entity_type) ops) hs in
    (
      final,
      rw (t, operators_for) made,
      λ e found. elim found [
        | inl m ↦ elim m [
          | inl same ↦ has e (
              inr (
                subst
                  (λ k.
                    lookup k (insert r.entity_type (custom r.entity_type) ops) ≡ some (custom k))
                  same (lookup-insert_self r.entity_type (custom r.entity_type) ops)))
          | inr later ↦ has e (inl later)
        ]
        | inr there ↦ has e (inr (custom_kept r.entity_type e ops there))
      ],
    )

run_operator-tokenized :
    (presidio : Presidio) (ops : Operators) (e v : Text) (ctx : TokenizationContext)
    → lookup e ops ≡ some (custom e)
    → run_operator presidio ops e v ctx ≡ token_for e v ctx
unfolding run_operator
run_operator-tokenized presidio ops e v ctx h = rw (h, run_operator)

state_of :
    (presidio : Presidio) (ops : Operators) (e v : Text) (ctx : TokenizationContext)
    (c : Option OperatorConfig)
    → lookup e ops ≡ c
    → ((k : Text) × ((run_operator presidio ops e v ctx).1 ≡ (token_for k v ctx).1))
      ⊎ ((run_operator presidio ops e v ctx).1 ≡ ctx)
unfolding run_operator
state_of presidio ops e v ctx none h = inr (rw (h, run_operator))
state_of presidio ops e v ctx (some (custom k)) h = inl (k, rw (h, run_operator))
state_of presidio ops e v ctx (some (replace new)) h = inr (rw (h, run_operator))

-- An operator leaves the context alone, or is a tokenizer.
operator_state :
    (presidio : Presidio) (ops : Operators) (e v : Text) (ctx : TokenizationContext)
    → ((k : Text) × ((run_operator presidio ops e v ctx).1 ≡ (token_for k v ctx).1))
      ⊎ ((run_operator presidio ops e v ctx).1 ≡ ctx)
operator_state presidio ops e v ctx = state_of presidio ops e v ctx (lookup e ops) refl

module _ (presidio : Presidio) (ops : Operators) where
  -- Every span has a tokenizer.
  abbrev AllTokenized : List Segment → Type 0
  AllTokenized [] = Unit
  AllTokenized (kept p ∷ segs) = AllTokenized segs
  AllTokenized (span e v ∷ segs) = (lookup e ops ≡ some (custom e)) × AllTokenized segs

  Rendered-token_for :
      {segs : List Segment} {ctx ctx' : TokenizationContext} {out : Text}
      → Rendered (run_operator presidio ops) segs ctx out ctx'
      → AllTokenized segs
      → Rendered token_for segs ctx out ctx'
  Rendered-token_for nil all = nil
  Rendered-token_for (keep h) all = keep (Rendered-token_for h all)
  Rendered-token_for (replace_first {e} {v} {segs} {s} {s'} {out} h) (a, all) =
      let same = run_operator-tokenized presidio ops e v s a in
      subst (λ o. Rendered token_for (span e v ∷ segs) s (o.0 ++ out) s') (sym same)
        (replace_first
          (subst (λ o. Rendered token_for segs o.1 out s') same (Rendered-token_for h all)))
  Rendered-token_for (replace_last {e} {v} {segs} {s} {s'} {out} h) (a, all) =
      let same = run_operator-tokenized presidio ops e v s' a in
      subst (λ o. Rendered token_for (span e v ∷ segs) s (o.0 ++ out) o.1) (sym same)
        (replace_last (Rendered-token_for h all))
  Rendered-token_for (test_first {e} {v} {segs} {s} {s'} {out} h) all =
      let later = Rendered-token_for h all in
      elim (operator_state presidio ops e v s) [
        | inl (k, same) ↦
            test_first {e = k} {v = v} (subst (λ c. Rendered token_for segs c out s') same later)
        | inr same ↦ subst (λ c. Rendered token_for segs c out s') same later
      ]
  Rendered-token_for (test_last {e} {v} {segs} {s} {s'} {out} h) all =
      let before = Rendered-token_for h all in
      elim (operator_state presidio ops e v s') [
        | inl (k, same) ↦
            subst (λ c. Rendered token_for segs s out c) (sym same)
              (test_last {e = k} {v = v} before)
        | inr same ↦ subst (λ c. Rendered token_for segs s out c) (sym same) before
      ]

name_of_member :
    (policy : Policy) (e : Text) (results : List RecognizerResult)
    → All (IsTokenized policy) results
    → Member e (types_of results)
    → IsEntityName e
name_of_member policy e [] h m = absurd m
name_of_member policy e (r ∷ results) ((t, name), hs) (inl same) = subst IsEntityName same name
name_of_member policy e (r ∷ results) (h, hs) (inr later) = name_of_member policy e results hs later

spans_tokenized :
    (presidio : Presidio) (policy : Policy) (results : List RecognizerResult) (ops : Operators)
    (segs : List Segment)
    → All (IsTokenized policy) results
    → ((e : Text) → Member e (types_of results) → lookup e ops ≡ some (custom e))
    → SpansFrom results segs
    → AllTokenized presidio ops segs × HasEntityNames segs
spans_tokenized presidio policy results ops [] h has s = (tt, tt)
spans_tokenized presidio policy results ops (kept p ∷ segs) h has s =
    spans_tokenized presidio policy results ops segs h has s
spans_tokenized presidio policy results ops (span e v ∷ segs) h has (m, s) =
    let (all, names) = spans_tokenized presidio policy results ops segs h has s in
    ((has e m, all), (name_of_member policy e results h m, names))

-- What apply amounts to where all results are tokenized.
apply-tokenized :
    (m : PiiMediator) (text : Text) (r : RecognizerResult) (results : List RecognizerResult)
    (ctx : TokenizationContext) (ops : Operators)
    → actionable m.policy (r ∷ results) ≡ ok (r ∷ results)
    → operators_for m.policy true (r ∷ results) [] ≡ ok ops
    → apply m text (r ∷ results) (some ctx) ≡ (
      (m.presidio.anonymize text (r ∷ results) ops ctx).0,
      some (m.presidio.anonymize text (r ∷ results) ops ctx).1,
    )
unfolding apply
apply-tokenized m text r results ctx ops a o = rw (a, apply, o)

-- A text that apply returns is made of the given one by tokens in the places of spans, where all
-- results are tokenized.
pub apply-Rendered :
    (m : PiiMediator) (presidio : ReplacesSpans m.presidio) (text : Text)
    (results : List RecognizerResult) (ctx : TokenizationContext) (out : Text)
    → All (IsTokenized m.policy) results
    → (apply m text results (some ctx)).0 ≡ ok out
    → (segs : List Segment) × (ctx' : TokenizationContext) × ((apply m text results (some ctx)).1
        ≡ some ctx')
      × (original segs ≡ text)
      × HasEntityNames segs
      × Rendered token_for segs ctx out ctx'
unfolding apply actionable
apply-Rendered m presidio text [] ctx out all e = (
  kept text ∷ [],
  ctx,
  refl,
  append-nil text,
  tt,
  subst (λ o. Rendered token_for (kept text ∷ []) ctx o ctx) (append-nil text ∙ ok-injective e)
      (keep nil),
)
apply-Rendered m presidio text (q ∷ results) ctx out all e =
    let (ops, made, has) = operators_for-tokenized m.policy (q ∷ results) [] all in
    let runs =
      apply-tokenized m text q results ctx ops (actionable-tokenized m.policy (q ∷ results) all)
        made in
    let (segs, whole, spans, rendered) =
      presidio.replaces text (q ∷ results) ops ctx out (ap (λ o. o.0) (sym runs) ∙ e) in
    let (tokenized, names) =
      spans_tokenized m.presidio m.policy (q ∷ results) ops segs all (λ k i. has k (inl i)) spans in
    (
      segs,
      (m.presidio.anonymize text (q ∷ results) ops ctx).1,
      ap (λ o. o.1) runs,
      whole,
      names,
      Rendered-token_for m.presidio ops rendered tokenized,
    )

-- A result whose action is BLOCK makes apply raise RuntimeError and leave the context alone.
pub apply_refuses_block :
    (m : PiiMediator) (text : Text) (before : List RecognizerResult) (r : RecognizerResult)
    (after : List RecognizerResult) (context : Option TokenizationContext)
    → lookup r.entity_type m.policy ≡ some block
    → apply m text (before ++ r ∷ after) context ≡ (raise runtime_error, context)
unfolding apply
apply_refuses_block m text before r after context blocks =
    rw (actionable-block m.policy before r after blocks)
