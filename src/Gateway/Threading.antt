-- ===== src/Gateway/Threading.antt =====
-- The messages of a request, sanitized one after another with one context as in gateway/gateway_api.py:
-- each of them is restored by the context that the last one leaves.
use privacy_gateway_llm_appl.Prelude.{
  Text, List, [], ◌∷◌, Option, some, ◌≡◌, refl, sym, ap, ◌∙◌, subst, All,
}
use privacy_gateway_llm_appl.Errors.{Exception, Result, ok, raise, ok-injective, raise-ne-ok}
use privacy_gateway_llm_appl.Tokenization.{TokenizationContext}
use privacy_gateway_llm_appl.Tokenization.Registry.{
  IsRegistry, Extends, Extends-refl, Extends-trans,
}
use privacy_gateway_llm_appl.Tokenization.Restore.{IsNamespace}
use privacy_gateway_llm_appl.Mediator.{RecognizerResult, PiiMediator, apply, ReplacesSpans}
use privacy_gateway_llm_appl.Mediator.Sanitizing.{IsTokenized}
use privacy_gateway_llm_appl.Mediator.Restoring.{Left, Restores, Restores-later, apply-Left}
use privacy_gateway_llm_appl.Gateway.{apply_all, with_content}
use privacy_gateway_llm_appl.Gateway.Requests.{ChatMessage}

-- The messages that are sent, of which each has the role of the original and is restored to it.
abbrev pub AllRestore : Text → TokenizationContext → List ChatMessage → List ChatMessage → Type 0
AllRestore ns last [] [] = Unit
AllRestore ns last (m ∷ ms) (s ∷ ss) =
    (s.role ≡ m.role) × Restores ns last m.content s.content × AllRestore ns last ms ss
AllRestore ns last _ _ = ⊥

abbrev pub AllTokenized : PiiMediator → List (List RecognizerResult) → Type 0
AllTokenized m results = All (All (IsTokenized m.policy)) results

-- What apply_all leaves where it returns.
pub record Sent (ctx : TokenizationContext) (ms sent : List ChatMessage)
    (after : Option TokenizationContext) : Type 0 where
  pub context : TokenizationContext
  pub left : after ≡ some context
  pub registry : IsRegistry context
  pub extends : Extends ctx context
  pub restores : AllRestore ctx.namespace context ms sent

AllRestore-later :
    (ns : Text) (ctx ctx' : TokenizationContext) (ms sent : List ChatMessage)
    → Extends ctx ctx'
    → AllRestore ns ctx ms sent
    → AllRestore ns ctx' ms sent
AllRestore-later ns ctx ctx' [] [] x h = tt
AllRestore-later ns ctx ctx' (m ∷ ms) (s ∷ ss) x (role, h, hs) = (
  role,
  Restores-later ns m.content s.content ctx ctx' x h,
  AllRestore-later ns ctx ctx' ms ss x hs,
)
AllRestore-later ns ctx ctx' (m ∷ ms) [] x h = h
AllRestore-later ns ctx ctx' [] (s ∷ ss) x h = h

-- The outcome of apply_all, if it is of messages that are sent.
abbrev pub Leaves :
    TokenizationContext
    → List ChatMessage
    → Result (List ChatMessage) × Option TokenizationContext
    → Type 0
Leaves ctx ms o = (sent : List ChatMessage) → o.0 ≡ ok sent → Sent ctx ms sent o.1

-- One message in front of others, each of which is sanitized.
with_content-Leaves :
    (ctx : TokenizationContext) (m : ChatMessage) (ms : List ChatMessage) (out : Text)
    (after : Option TokenizationContext) (l : Left ctx m.content out after)
    (rest : Result (List ChatMessage) × Option TokenizationContext)
    → Leaves l.context ms rest
    → Leaves ctx (m ∷ ms) (with_content m rest out)
with_content-Leaves ctx m ms out after l (raise x, c) more sent e = absurd (raise-ne-ok e)
with_content-Leaves ctx m ms out after l (ok ss, c) more sent e =
    let h = more ss refl in
    subst (λ s. Sent ctx (m ∷ ms) s c) (ok-injective e)
      (record {
        context = h.context;
        left = h.left;
        registry = h.registry;
        extends = Extends-trans l.extends h.extends;
        restores = (
          refl,
          Restores-later ctx.namespace m.content out l.context h.context h.extends l.restores,
          subst (λ ns. AllRestore ns h.context ms ss) l.extends.namespace h.restores,
        );
      })

apply_all-first :
    (m : PiiMediator) (t : ChatMessage) (ts : List ChatMessage) (q : List RecognizerResult)
    (qs : List (List RecognizerResult)) (context after : Option TokenizationContext) (out : Text)
    → apply m t.content q context ≡ (ok out, after)
    → apply_all m (t ∷ ts) (q ∷ qs) context ≡ with_content t (apply_all m ts qs after) out
unfolding apply_all
apply_all-first m t ts q qs context after out same =
    rw (apply_all, ap (λ o. o.0) same, ap (λ o. o.1) same) refl

apply_all-raises :
    (m : PiiMediator) (t : ChatMessage) (ts : List ChatMessage) (q : List RecognizerResult)
    (qs : List (List RecognizerResult)) (context after : Option TokenizationContext) (x : Exception)
    → apply m t.content q context ≡ (raise x, after)
    → apply_all m (t ∷ ts) (q ∷ qs) context ≡ (raise x, after)
unfolding apply_all
apply_all-raises m t ts q qs context after x same =
    rw (apply_all, ap (λ o. o.0) same, ap (λ o. o.1) same) refl

-- What becomes of the first message decides whether the others are sanitized.
applied-Leaves :
    (m : PiiMediator) (presidio : ReplacesSpans m.presidio) (t : ChatMessage)
    (ts : List ChatMessage) (q : List RecognizerResult) (qs : List (List RecognizerResult))
    (ctx : TokenizationContext) (first : Result Text) (after : Option TokenizationContext)
    → apply m t.content q (some ctx) ≡ (first, after)
    → All (IsTokenized m.policy) q
    → IsRegistry ctx
    → IsNamespace ctx.namespace
    → ((c : TokenizationContext)
        → IsRegistry c
        → IsNamespace c.namespace
        → Leaves c ts (apply_all m ts qs (some c)))
    → Leaves ctx (t ∷ ts) (apply_all m (t ∷ ts) (q ∷ qs) (some ctx))
applied-Leaves m presidio t ts q qs ctx (raise x) after same a r hns others =
    subst (Leaves ctx (t ∷ ts)) (sym (apply_all-raises m t ts q qs (some ctx) after x same))
      (λ sent e. absurd (raise-ne-ok e))
applied-Leaves m presidio t ts q qs ctx (ok out) after same a r hns others =
    let l = apply-Left m presidio t.content q ctx out a r hns (ap (λ o. o.0) same) in
    let then_on : after ≡ some l.context = ap (λ o. o.1) (sym same) ∙ l.left in
    let whole : apply m t.content q (some ctx) ≡ (ok out, some l.context) =
      same ∙ ap (λ o. (ok out, o)) then_on in
    subst (Leaves ctx (t ∷ ts))
      (sym (apply_all-first m t ts q qs (some ctx) (some l.context) out whole))
      (with_content-Leaves ctx t ts out _ l (apply_all m ts qs (some l.context))
        (others l.context l.registry (subst IsNamespace (sym l.extends.namespace) hns)))

pub apply_all-Leaves :
    (m : PiiMediator) (presidio : ReplacesSpans m.presidio) (ms : List ChatMessage)
    (results : List (List RecognizerResult)) (ctx : TokenizationContext)
    → AllTokenized m results
    → IsRegistry ctx
    → IsNamespace ctx.namespace
    → Leaves ctx ms (apply_all m ms results (some ctx))
unfolding apply_all
apply_all-Leaves m presidio [] [] ctx all r hns sent e =
    subst (λ s. Sent ctx [] s (some ctx)) (ok-injective e)
      (record {
        context = ctx;
        left = refl;
        registry = r;
        extends = Extends-refl ctx;
        restores = tt;
      })
apply_all-Leaves m presidio [] (q ∷ qs) ctx all r hns sent e = absurd (raise-ne-ok e)
apply_all-Leaves m presidio (t ∷ ts) [] ctx all r hns sent e = absurd (raise-ne-ok e)
apply_all-Leaves m presidio (t ∷ ts) (q ∷ qs) ctx (a, more) r hns sent e =
    applied-Leaves m presidio t ts q qs ctx _ _ refl a r hns
      (λ c. apply_all-Leaves m presidio ts qs c more) sent e
