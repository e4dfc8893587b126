-- ===== src/Tokenization/RoundTrip.antt =====
-- Tokenization followed by rehydration, on a whole text.
use mathlib.Core.List.{append_assoc, append-nil}
use privacy_gateway_llm_appl.Prelude.{
  ℕ, Text, codes, List, [], ◌∷◌, ◌++◌, some, false, ◌≡◌, refl, sym, ap, ◌∙◌, subst, lookup, text_eq,
  length, Option-cases, inl, inr, arith, suc, ◌-◌,
}
use privacy_gateway_llm_appl.Anonymizer.{
  Segment, kept, span, original, Rendered, nil, keep, replace_first, replace_last, test_first,
  test_last,
}
use privacy_gateway_llm_appl.Pattern.{Matches, sub, sub_from}
use privacy_gateway_llm_appl.Tokenization.{
  clear, TokenizationContext, token, token_pattern, token_for, contains, replace, rehydrate,
}
use privacy_gateway_llm_appl.Tokenization.Registry.{
  IsRegistry, Extends, Extends-refl, Extends-trans, token_for-Tokenized,
}
use privacy_gateway_llm_appl.Tokenization.Restore.{
  IsIn, IsIn-left, IsIn-right, not-IsIn_of_contains, IsNamespace, IsEntityName, token-Matches,
  token_found, Barrier, brackets, nothing, plain_kept, HasShape-ne-nil, Matches-HasShape,
}

-- The entity types of the spans are ones that TOKEN_PATTERN admits.
abbrev pub HasEntityNames : List Segment → Type 0
HasEntityNames [] = Unit
HasEntityNames (kept p ∷ segs) = HasEntityNames segs
HasEntityNames (span e v ∷ segs) = IsEntityName e × HasEntityNames segs

-- A run of the tokenizer keeps the registry and loses nothing.
pub Rendered-IsRegistry :
    {segs : List Segment} {ctx ctx' : TokenizationContext} {out : Text}
    → Rendered token_for segs ctx out ctx'
    → IsRegistry ctx
    → IsRegistry ctx' × Extends ctx ctx'
Rendered-IsRegistry {ctx} nil r = (r, Extends-refl ctx)
Rendered-IsRegistry (keep h) r = Rendered-IsRegistry h r
Rendered-IsRegistry {ctx} (replace_first {e} {v} h) r =
    let t = token_for-Tokenized ctx e v r in
    let (r', x) = Rendered-IsRegistry h t.registry in (r', Extends-trans t.extends x)
Rendered-IsRegistry (replace_last {e} {v} {s' = s'} h) r =
    let (r', x) = Rendered-IsRegistry h r in
    let t = token_for-Tokenized s' e v r' in (t.registry, Extends-trans x t.extends)
Rendered-IsRegistry {ctx} (test_first {e} {v} h) r =
    let t = token_for-Tokenized ctx e v r in
    let (r', x) = Rendered-IsRegistry h t.registry in (r', Extends-trans t.extends x)
Rendered-IsRegistry (test_last {e} {v} {s' = s'} h) r =
    let (r', x) = Rendered-IsRegistry h r in
    let t = token_for-Tokenized s' e v r' in (t.registry, Extends-trans x t.extends)

IsIn-trans : (a b c : Text) → IsIn a b → IsIn b c → IsIn a c
IsIn-trans a b c (x, y, e) (z, w, f) = (z ++ x, y ++ w, f ∙ rw e (simp append_assoc))

namespace-IsIn-token : (ns e : Text) (n : ℕ) → IsIn ns (token ns e n)
unfolding token
namespace-IsIn-token ns e n = (codes "[[PGW_", _, refl)

token-Barrier : (ns e : Text) (n : ℕ) (rest : Text) → Barrier (token ns e n ++ rest)
unfolding token
token-Barrier ns e n rest = brackets _

skip_all :
    (f : Text → Text) (t rest : Text)
    → sub_from token_pattern f (length t) (t ++ rest) ≡ sub_from token_pattern f 0 rest
unfolding sub_from
skip_all f [] rest = refl
skip_all f (c ∷ t) rest = skip_all f t rest

-- A token at the start is replaced, whole.
token_replaced :
    (f : Text → Text) (t rest : Text)
    → Matches token_pattern t
    → sub_from token_pattern f 0 (t ++ rest) ≡ f t ++ sub_from token_pattern f 0 rest
unfolding sub_from
token_replaced f [] rest h = absurd (HasShape-ne-nil (Matches-HasShape h) refl)
token_replaced f (c ∷ t) rest h =
    let size : suc (length t) - 1 ≡ length t = omega arith in
    rw (token_found (c ∷ t) rest h, size, skip_all f t rest)

module _ (final : TokenizationContext) (r : IsRegistry final)
    (hns : IsNamespace final.namespace) where
  -- A text without the namespace holds no token of the context.
  replace_foreign : (p m : Text) → ¬ IsIn final.namespace p → IsIn m p → replace final m ≡ m
  replace_foreign p m free i = elim (Option-cases (lookup m final.token_to_value)) [
    | inl absent ↦ rw (absent, replace)
    | inr (v, held) ↦
        let (e, key) = r.owned m v held in
        let (n, form, le, value) = r.minted e v m key in
        absurd (
          free (
            IsIn-trans final.namespace m p
              (subst (IsIn final.namespace) (sym form) (namespace-IsIn-token final.namespace e n))
              i))
  ]

  abbrev resume : Text → Text
  resume = sub_from token_pattern (replace final) 0

  plain_restored :
      (p rest : Text)
      → Barrier rest
      → ¬ IsIn final.namespace p
      → resume (p ++ rest) ≡ p ++ resume rest
  plain_restored p rest b free =
      plain_kept (replace final) 0 p rest b (λ m s i. replace_foreign p m free i) (omega arith)

  token_restored :
      (e v t rest : Text) (n : ℕ)
      → IsEntityName e
      → t ≡ token final.namespace e n
      → lookup t final.token_to_value ≡ some v
      → resume (t ++ rest) ≡ v ++ resume rest
  token_restored e v t rest n he form value =
      token_replaced (replace final) t rest
        (subst (Matches token_pattern) (sym form) (token-Matches final.namespace e n hns he))
      ∙ rw (value, replace)

  IsIn-after :
      (p v rest : Text) → IsIn final.namespace rest → IsIn final.namespace (p ++ (v ++ rest))
  IsIn-after p v rest i =
      IsIn-right final.namespace p (v ++ rest) (IsIn-right final.namespace v rest i)

  span_restored :
      (p e v t out tail : Text) (s : TokenizationContext)
      → IsEntityName e
      → (n : ℕ) × (t ≡ token s.namespace e n)
      → final.namespace ≡ s.namespace
      → lookup t final.token_to_value ≡ some v
      → ¬ IsIn final.namespace (p ++ (v ++ tail))
      → resume out ≡ tail
      → resume (p ++ (t ++ out)) ≡ p ++ (v ++ tail)
  span_restored p e v t out tail s he (n, form) same value free rest =
      let form' : t ≡ token final.namespace e n = form ∙ ap (λ ns. token ns e n) (sym same) in
      let barrier =
        subst (λ x. Barrier (x ++ out)) (sym form') (token-Barrier final.namespace e n out) in
      plain_restored p (t ++ out) barrier (λ i. free (IsIn-left final.namespace p (v ++ tail) i))
      ∙ ap (λ x. p ++ x) (token_restored e v t out n he form' value ∙ ap (λ x. v ++ x) rest)

  -- With text `p` still pending in front.
  restored :
      {segs : List Segment} {ctx ctx' : TokenizationContext} {out : Text} (p : Text)
      → Rendered token_for segs ctx out ctx'
      → IsRegistry ctx
      → Extends ctx' final
      → HasEntityNames segs
      → ¬ IsIn final.namespace (p ++ original segs)
      → resume (p ++ out) ≡ p ++ original segs
  unfolding sub_from
  restored p nil rc x names free =
      plain_restored p [] nothing (λ i. free (IsIn-left final.namespace p [] i))
  restored p (keep {p = q} {segs} {out} h) rc x names free =
      let same : (p ++ q) ++ original segs ≡ p ++ (q ++ original segs) =
        append_assoc p q (original segs) in
      ap resume (sym (append_assoc p q out))
      ∙ restored (p ++ q) h rc x names (λ i. free (subst (IsIn final.namespace) same i))
      ∙ same
  restored p (replace_first {e} {v} {segs} {s} {out = out} h) rc x names free =
      let t = token_for-Tokenized s e v rc in
      let (r', later) = Rendered-IsRegistry h t.registry in
      let rest =
        restored [] h t.registry x names.1 (λ i. free (IsIn-after p v (original segs) i)) in
      span_restored p e v (token_for e v s).0 out (original segs) s names.0 t.form
        (x.namespace ∙ later.namespace ∙ t.extends.namespace) (x.kept _ v (later.kept _ v t.value))
        free rest
  restored p (replace_last {e} {v} {segs} {s' = s'} {out = out} h) rc x names free =
      let (r', before) = Rendered-IsRegistry h rc in
      let t = token_for-Tokenized s' e v r' in
      let rest =
        restored [] h rc (Extends-trans t.extends x) names.1
          (λ i. free (IsIn-after p v (original segs) i)) in
      span_restored p e v (token_for e v s').0 out (original segs) s' names.0 t.form
        (x.namespace ∙ t.extends.namespace) (x.kept _ v t.value) free rest
  restored p (test_first {e} {v} {s = s} h) rc x names free =
      restored p h (token_for-Tokenized s e v rc).registry x names free
  restored p (test_last {e} {v} {s' = s'} h) rc x names free =
      let (r', before) = Rendered-IsRegistry h rc in
      restored p h rc (Extends-trans (token_for-Tokenized s' e v r').extends x) names free

pub rehydrate-Rendered :
    (segs : List Segment) (ctx ctx' final : TokenizationContext) (out : Text)
    → IsRegistry ctx
    → IsNamespace ctx.namespace
    → HasEntityNames segs
    → ¬ IsIn ctx.namespace (original segs)
    → Rendered token_for segs ctx out ctx'
    → IsRegistry final
    → Extends ctx' final
    → rehydrate final out ≡ original segs
unfolding rehydrate sub
rehydrate-Rendered segs ctx ctx' final out r hns names free h rf x =
    let (r', e) = Rendered-IsRegistry h r in
    let same = x.namespace ∙ e.namespace in
    restored final rf (subst IsNamespace (sym same) hns) [] h r x names
      (subst (λ ns. ¬ IsIn ns (original segs)) (sym same) free)

-- Every text whose spans token_for replaced, in any order, starting from a registry, is restored
-- by rehydrate in the resulting context or in a later registry of the same request, if the text
-- does not hold the namespace, and the namespace and the entity types of the spans are ones that
-- TOKEN_PATTERN admits.
pub rehydrate_restores :
    (segs : List Segment) (ctx ctx' final : TokenizationContext) (out : Text)
    → IsRegistry ctx
    → IsNamespace ctx.namespace
    → HasEntityNames segs
    → contains (original segs) ctx.namespace ≡ false
    → Rendered token_for segs ctx out ctx'
    → IsRegistry final
    → Extends ctx' final
    → rehydrate final out ≡ original segs
rehydrate_restores segs ctx ctx' final out r hns names free h rf x =
    rehydrate-Rendered segs ctx ctx' final out r hns names
      (not-IsIn_of_contains ctx.namespace (original segs) free) h rf x

-- In a registry whose namespace is one that TOKEN_PATTERN admits, rehydration leaves a text alone that
-- does not hold the namespace, whatever tokens of other requests it holds.
pub rehydrate_foreign :
    (ctx : TokenizationContext) (text : Text)
    → IsRegistry ctx
    → IsNamespace ctx.namespace
    → contains text ctx.namespace ≡ false
    → rehydrate ctx text ≡ text
unfolding rehydrate sub sub_from
rehydrate_foreign ctx text r hns free =
    ap (sub_from token_pattern (replace ctx) 0) (sym (append-nil text))
    ∙ plain_restored ctx r hns text [] nothing (not-IsIn_of_contains ctx.namespace text free)
    ∙ append-nil text

-- A context without tokens restores nothing.
pub rehydrate_empty :
    (ctx : TokenizationContext) (text : Text) → ctx.token_to_value ≡ [] → rehydrate ctx text ≡ text
unfolding rehydrate sub sub_from lookup
rehydrate_empty ctx text none_held =
    ap (sub_from token_pattern (replace ctx) 0) (sym (append-nil text))
    ∙ plain_kept (replace ctx) 0 text [] nothing (λ m s i. rw none_held refl) (omega arith)
    ∙ append-nil text

-- So does a cleared one.
pub rehydrate-clear : (ctx : TokenizationContext) (text : Text) → rehydrate (clear ctx) text ≡ text
unfolding clear
rehydrate-clear ctx text = rehydrate_empty (clear ctx) text refl
