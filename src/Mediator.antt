-- ===== src/Mediator.antt =====
-- gateway/pii_mediator.py: detection and sanitization. Presidio's analyzer and anonymizer are the
-- fields of `Presidio`; their set-up (models, recognizers) is not modelled.
pub mod Sanitizing
pub mod Restoring
pub mod Examples
use privacy_gateway_llm_appl.Prelude.{
  ℕ, AnyFloat, Text, codes, List, [], ◌∷◌, ◌++◌, Option, none, some, Bool, true, false, map, lookup,
  insert, text_eq, ◌≡◌, ◌≢◌, ◌⊎◌,
}
use privacy_gateway_llm_appl.Errors.{Result, ok, raise, runtime_error, ◌>>=◌}
use privacy_gateway_llm_appl.Policy.{Policy, PolicyAction, allow, tokenize, redact, block, keys}
use privacy_gateway_llm_appl.Policy.Decisions.{Member}
use privacy_gateway_llm_appl.Anonymizer.{Segment, kept, span, original, Rendered}
use privacy_gateway_llm_appl.Tokenization.{TokenizationContext, token_for, empty_context}

-- What is read of a RecognizerResult.
pub record RecognizerResult : Type 0 where
  pub entity_type : Text
  pub start : ℕ
  pub stop : ℕ
  pub score : ℕ

-- OperatorConfig("custom", ..) with the tokenizer of an entity type, or "replace" with a new value.
pub data OperatorConfig : Type 0 where
  custom : (entity_type : Text) → OperatorConfig
  replace : (new_value : Text) → OperatorConfig

abbrev pub Operators : Type 0
Operators = List (Text × OperatorConfig)

-- AnalyzerEngine.analyze(text, entities, score_threshold) and AnonymizerEngine.anonymize, either of
-- which may raise; the tokenizers that it calls change the context. `default_operator` is what Presidio
-- puts for an entity type without an operator.
pub record Presidio : Type 0 where
  pub analyze : Text → List Text → AnyFloat → Result (List RecognizerResult)
  pub anonymize :
      Text
      → List RecognizerResult
      → Operators
      → TokenizationContext
      → Result Text × TokenizationContext
  pub default_operator : Text → Text → Text

-- The attributes of a PIIMediator.
pub record PiiMediator : Type 0 where
  pub presidio : Presidio
  pub policy : Policy
  pub score_threshold : AnyFloat

-- PIIMediator.clone_with_policy
unfoldable pub clone_with_policy : PiiMediator → Policy → PiiMediator
clone_with_policy m policy = record m { policy = policy }

-- PIIMediator.analyze
unfoldable pub analyze : PiiMediator → Text → Result (List RecognizerResult)
analyze m [] = ok []
analyze m (c ∷ text) = m.presidio.analyze (c ∷ text) (keys m.policy) m.score_threshold

abbrev keep_if :
    Option PolicyAction → RecognizerResult → List RecognizerResult → List RecognizerResult
keep_if (some tokenize) r rest = r ∷ rest
keep_if (some redact) r rest = r ∷ rest
keep_if _ r rest = rest

-- The loop that collects the results to act on; a BLOCK result must not get here.
unfoldable pub actionable : Policy → List RecognizerResult → Result (List RecognizerResult)
actionable policy [] = ok []
actionable policy (r ∷ results) =
    let rest = actionable policy results in
    elim (lookup r.entity_type policy) [
      | some block ↦ raise runtime_error
      | action ↦ rest >>= λ more. ok (keep_if action r more)
    ]

-- f"[REDACTED:{entity_type}]"
unfoldable pub redaction : Text → Text
redaction entity_type = codes "[REDACTED:" ++ (entity_type ++ codes "]")

-- The loop over the entity types; an entity type that occurs twice gets the same operator again.
unfoldable pub operators_for : Policy → Bool → List RecognizerResult → Operators → Result Operators
operators_for policy has_context [] found = ok found
operators_for policy has_context (r ∷ results) found =
    let with_token =
      operators_for policy has_context results
        (insert r.entity_type (custom r.entity_type) found) in
    let with_redaction =
      operators_for policy has_context results
        (insert r.entity_type (replace (redaction r.entity_type)) found) in
    elim (lookup r.entity_type policy) [
      | some tokenize ↦ elim has_context [ true ↦ with_token | false ↦ raise runtime_error ]
      | _ ↦ with_redaction
    ]

abbrev pub is_given : Option TokenizationContext → Bool
is_given none = false
is_given (some ctx) = true

abbrev run_anonymizer :
    PiiMediator
    → Text
    → List RecognizerResult
    → Option TokenizationContext
    → Result Operators
    → Result Text × Option TokenizationContext
run_anonymizer m text results none (ok operators) =
    ((m.presidio.anonymize text results operators (empty_context [])).0, none)
run_anonymizer m text results (some ctx) (ok operators) =
    let (out, ctx') = m.presidio.anonymize text results operators ctx in (out, some ctx')
run_anonymizer m text results context (raise x) = (raise x, context)

abbrev pub apply_actionable :
    PiiMediator
    → Text
    → Option TokenizationContext
    → Result (List RecognizerResult)
    → Result Text × Option TokenizationContext
apply_actionable m text context (raise x) = (raise x, context)
apply_actionable m text context (ok []) = (ok text, context)
apply_actionable m text context (ok (r ∷ results)) =
    run_anonymizer m text (r ∷ results) context
      (operators_for m.policy (is_given context) (r ∷ results) [])

-- PIIMediator.apply: the text, or the exception, and the context afterwards
unfoldable pub apply :
    PiiMediator
    → Text
    → List RecognizerResult
    → Option TokenizationContext
    → Result Text × Option TokenizationContext
apply m text results context = apply_actionable m text context (actionable m.policy results)

unfoldable pub redactions : List RecognizerResult → Operators → Operators
redactions [] found = found
redactions (r ∷ results) found =
    redactions results (insert r.entity_type (replace (redaction r.entity_type)) found)

-- PIIMediator.redact_all
unfoldable pub redact_all : PiiMediator → Text → List RecognizerResult → Result Text
redact_all m text [] = ok text
redact_all m text (r ∷ results) =
    (m.presidio.anonymize text (r ∷ results) (redactions (r ∷ results) []) (empty_context [])).0

-- What an operator returns for a span, and the tokenizers' context afterwards.
unfoldable pub run_operator :
    Presidio → Operators → Text → Text → TokenizationContext → Text × TokenizationContext
run_operator presidio operators e v ctx = elim (lookup e operators) [
  | none ↦ (presidio.default_operator e v, ctx)
  | some (custom entity_type) ↦ token_for entity_type v ctx
  | some (replace new_value) ↦ (new_value, ctx)
]

-- The spans have entity types of the results.
abbrev pub SpansFrom : List RecognizerResult → List Segment → Type 0
SpansFrom results [] = Unit
SpansFrom results (kept p ∷ segs) = SpansFrom results segs
SpansFrom results (span e v ∷ segs) =
    Member e (map (λ r. r.entity_type) results) × SpansFrom results segs

-- Presidio's documented behaviour: where anonymize returns, the text falls into stretches that are
-- kept and spans of the given results, each replaced by what its operator returns; operators may be
-- tested on other values.
pub record ReplacesSpans (presidio : Presidio) : Type 0 where
  pub replaces :
      (text : Text) (results : List RecognizerResult) (operators : Operators)
      (ctx : TokenizationContext) (out : Text)
      → (presidio.anonymize text results operators ctx).0 ≡ ok out
      → (segs : List Segment) × (original segs ≡ text)
        × SpansFrom results segs
        × Rendered
            (run_operator presidio operators)
            segs
            ctx
            out
            (presidio.anonymize text results operators ctx).1
