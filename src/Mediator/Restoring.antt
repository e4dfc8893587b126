-- ===== src/Mediator/Restoring.antt =====
-- Texts that apply tokenized with one context after another, and that come back inside of another text:
-- rehydrate in the last context restores them there.
use privacy_gateway_llm_appl.Prelude.{
  ℕ, Text, List, [], ◌∷◌, ◌++◌, Option, some, true, false, ◌≡◌, refl, ap, ◌∙◌, subst, All,
}
use privacy_gateway_llm_appl.Errors.{ok}
use privacy_gateway_llm_appl.Anonymizer.{kept, original, nil, keep}
use privacy_gateway_llm_appl.Pattern.{take_one}
use privacy_gateway_llm_appl.Tokenization.{TokenizationContext, is_hex_digit, rehydrate}
use privacy_gateway_llm_appl.Tokenization.Registry.{IsRegistry, Extends, Extends-trans}
use privacy_gateway_llm_appl.Tokenization.Restore.{IsIn, IsNamespace}
use privacy_gateway_llm_appl.Tokenization.RoundTrip.{Rendered-IsRegistry, rehydrate-Rendered}
use privacy_gateway_llm_appl.Mediator.{RecognizerResult, PiiMediator, apply, ReplacesSpans}
use privacy_gateway_llm_appl.Mediator.Sanitizing.{IsTokenized, apply-Rendered}

first_is_hex :
    (ns : Text) → IsNamespace ns → (c : ℕ) × (s : Text) × (ns ≡ c ∷ s) × (is_hex_digit c ≡ true)
first_is_hex [] h = elim h [ ]
first_is_hex (c ∷ s) (take_one h rest) = (c, s, refl, h)

-- A text of characters other than hexadecimal digits, put in front, adds no namespace.
pub not-IsIn-prefix :
    (ns p text : Text)
    → IsNamespace ns
    → All (λ c. is_hex_digit c ≡ false) p
    → ¬ IsIn ns text
    → ¬ IsIn ns (p ++ text)
not-IsIn-prefix ns [] text hns h free i = free i
not-IsIn-prefix ns (d ∷ p) text hns (h, hs) free ([], b, e) =
    let (c, s, form, hex) = first_is_hex ns hns in
    let e' : d ∷ (p ++ text) ≡ c ∷ (s ++ b) = rw form at e in
    let same : d ≡ c = cc in let clash : true ≡ false = cc in cc
not-IsIn-prefix ns (d ∷ p) text hns (h, hs) free (a ∷ as', b, e) =
    not-IsIn-prefix ns p text hns hs free (as', b, cc)

-- The empty text holds no namespace.
pub not-IsIn-nil : (ns : Text) → IsNamespace ns → ¬ IsIn ns []
not-IsIn-nil ns hns ([], b, e) =
    let (c, s, form, hex) = first_is_hex ns hns in let e' : [] ≡ c ∷ (s ++ b) = rw form at e in cc
not-IsIn-nil ns hns (a ∷ more, b, e) = cc

-- In each later context of the request, `out` is restored to `text` behind any text `p`, as long as the
-- whole does not hold the namespace.
abbrev pub Restores : Text → TokenizationContext → Text → Text → Type 0
Restores ns last text out =
    (final : TokenizationContext) (p : Text)
    → IsRegistry final
    → Extends last final
    → ¬ IsIn ns (p ++ text)
    → rehydrate final (p ++ out) ≡ p ++ text

pub Restores-later :
    (ns text out : Text) (ctx ctx' : TokenizationContext)
    → Extends ctx ctx'
    → Restores ns ctx text out
    → Restores ns ctx' text out
Restores-later ns text out ctx ctx' x h final p r later free =
    h final p r (Extends-trans x later) free

-- Nothing to restore.
pub Restores-nil :
    (ctx : TokenizationContext)
    → IsRegistry ctx
    → IsNamespace ctx.namespace
    → Restores ctx.namespace ctx [] []
Restores-nil ctx r hns final p rf x free =
    rehydrate-Rendered (kept p ∷ []) ctx ctx final (p ++ []) r hns tt free (keep nil) rf x

-- What an apply that returns leaves, where all results are tokenized.
pub record Left (ctx : TokenizationContext) (text out : Text) (after : Option TokenizationContext)
    : Type 0 where
  pub context : TokenizationContext
  pub left : after ≡ some context
  pub registry : IsRegistry context
  pub extends : Extends ctx context
  pub restores : Restores ctx.namespace context text out

pub apply-Left :
    (m : PiiMediator) (presidio : ReplacesSpans m.presidio) (text : Text)
    (results : List RecognizerResult) (ctx : TokenizationContext) (out : Text)
    → All (IsTokenized m.policy) results
    → IsRegistry ctx
    → IsNamespace ctx.namespace
    → (apply m text results (some ctx)).0 ≡ ok out
    → Left ctx text out (apply m text results (some ctx)).1
apply-Left m presidio text results ctx out all r hns e =
    let (segs, ctx', left, whole, names, tokens) =
      apply-Rendered m presidio text results ctx out all e in
    let (r', x) = Rendered-IsRegistry tokens r in
    record {
      context = ctx';
      left = left;
      registry = r';
      extends = x;
      restores = λ final p rf later free.
          let same : p ++ original segs ≡ p ++ text = ap (λ t. p ++ t) whole in
          rehydrate-Rendered (kept p ∷ segs) ctx ctx' final (p ++ out) r hns names
            (λ i. free (subst (IsIn ctx.namespace) same i)) (keep tokens) rf later
          ∙ same;
    }
