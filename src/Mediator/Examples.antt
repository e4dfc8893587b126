-- ===== src/Mediator/Examples.antt =====
-- Runs of gateway/pii_mediator.py with an anonymizer that takes the whole text as one span of the
-- first result.
use mathlib.Core.List.{append-nil}
use privacy_gateway_llm_appl.Prelude.{
  finite_float, float_one, ◌/◌, false, Text, codes, List, [], ◌∷◌, ◌++◌, some, ◌≡◌, refl, subst,
  inl, lookup, text_eq, text_beq,
}
use privacy_gateway_llm_appl.Errors.{Result, ok, ok-injective}
use privacy_gateway_llm_appl.Pattern.{done, take_one, take_more, take_no_more}
use privacy_gateway_llm_appl.Policy.{tokenize, default_policy}
use privacy_gateway_llm_appl.Anonymizer.{
  Segment, kept, span, original, Rendered, nil, keep, replace_first,
}
use privacy_gateway_llm_appl.Tokenization.{TokenizationContext, empty_context, token_for}
use privacy_gateway_llm_appl.Tokenization.Restore.{IsNamespace, IsEntityName}
use privacy_gateway_llm_appl.Mediator.{
  RecognizerResult, Operators, Presidio, PiiMediator, run_operator, SpansFrom, ReplacesSpans,
}

abbrev no_presidio : Presidio
no_presidio = record {
  analyze = λ text entities threshold. ok [];
  anonymize = λ text results operators ctx. (ok text, ctx);
  default_operator = λ e v. v;
}

abbrev whole_text :
    Text
    → List RecognizerResult
    → Operators
    → TokenizationContext
    → Result Text × TokenizationContext
whole_text text [] operators ctx = (ok (text ++ []), ctx)
whole_text text (r ∷ results) operators ctx =
    let (t, ctx') = run_operator no_presidio operators r.entity_type text ctx in
    (ok (t ++ []), ctx')

-- With the results that the analyzer finds in every text.
abbrev pub presidio_finding : List RecognizerResult → Presidio
presidio_finding found = record {
  analyze = λ text entities threshold. ok found;
  anonymize = whole_text;
  default_operator = λ e v. v;
}

replaces_whole :
    (found : List RecognizerResult) (text : Text) (results : List RecognizerResult)
    (operators : Operators) (ctx : TokenizationContext) (out : Text)
    → (whole_text text results operators ctx).0 ≡ ok out
    → (segs : List Segment) × (original segs ≡ text)
      × SpansFrom results segs
      × Rendered
          (run_operator (presidio_finding found) operators)
          segs
          ctx
          out
          (whole_text text results operators ctx).1
unfolding run_operator
replaces_whole found text [] operators ctx out e = (
  kept text ∷ [],
  append-nil text,
  tt,
  subst (λ o. Rendered (run_operator (presidio_finding found) operators) (kept text ∷ []) ctx o ctx)
      (ok-injective e) (keep nil),
)
replaces_whole found text (r ∷ results) operators ctx out e = (
  span r.entity_type text ∷ [],
  append-nil text,
  (inl refl, tt),
  subst
      (λ o.
        Rendered (run_operator (presidio_finding found) operators) (span r.entity_type text ∷ [])
          ctx o (whole_text text (r ∷ results) operators ctx).1)
      (ok-injective e) (replace_first nil),
)

pub presidio_finding-ReplacesSpans :
    (found : List RecognizerResult) → ReplacesSpans (presidio_finding found)
presidio_finding-ReplacesSpans found = record { replaces = replaces_whole found }

abbrev pub mediator_finding : List RecognizerResult → PiiMediator
mediator_finding found = record {
  presidio = presidio_finding found;
  policy = default_policy;
  score_threshold = finite_float (record { is_negative = false; magnitude = float_one / 2 });
}

abbrev mediator : PiiMediator
mediator = mediator_finding []

abbrev pub context : TokenizationContext
context = empty_context (codes "0A1B2C3D")

abbrev pub person : RecognizerResult
person = record { entity_type = codes "PERSON"; start = 0; stop = 3; score = 850 }

pub context-IsNamespace : IsNamespace context.namespace
context-IsNamespace = take_one refl (
    take_one refl (
      take_one refl
        (take_one refl (take_one refl (take_one refl (take_one refl (take_one refl done)))))))

pub person-IsEntityName : IsEntityName person.entity_type
person-IsEntityName = take_one refl (
    take_more refl
      (take_more refl (take_more refl (take_more refl (take_more refl (take_no_more done))))))

pub person_tokenized : lookup person.entity_type default_policy ≡ some tokenize
unfolding lookup text_beq
person_tokenized = refl

abbrev pub ann_token : Text
ann_token = (token_for (codes "PERSON") (codes "Ann") context).0 ++ []
