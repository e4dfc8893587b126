-- ===== src/Tokenization/Registry.antt =====
-- The registry of a request: within one context, tokens and (entity type, value) pairs determine one
-- another, and a token once minted keeps its value.
use privacy_gateway_llm_appl.Prelude.{
  ℕ, ◌+◌, ◌≤◌, Text, codes, str, str-injective, All-str, All, All-append, [], ◌∷◌, ◌++◌, none, some,
  ◌≡◌, ◌≢◌, refl, sym, ap, ◌∙◌, subst, Option-cases, Bool-cases, ◌⊎◌, inl, inr, ◌==◌, ==_iff,
  text_eq, pair_eq, lookup, insert, lookup-insert, lookup-insert_self, lookup-insert_ne, last_split,
  first_split, Text-cases, arith,
}
use privacy_gateway_llm_appl.Tokenization.{
  TokenizationContext, token, token_for, counter_of, empty_context,
}

append_cancel : (xs ys zs : Text) → xs ++ ys ≡ xs ++ zs → ys ≡ zs
append_cancel [] ys zs e = e
append_cancel (x ∷ xs) ys zs e = append_cancel xs ys zs cc

tail_of : Text → Text
tail_of [] = []
tail_of (c ∷ s) = s

numeral_end_has_no_underscore : (n : ℕ) → All (λ c. c ≢ b'_') (str n ++ codes "]]")
numeral_end_has_no_underscore n =
    All-append (λ c. c ≢ b'_') (str n) (codes "]]")
      (All-str (λ c. c ≢ b'_') (λ d lo hi. omega arith) n) (omega arith)

-- In one namespace a token determines its entity type and its number, also where entity types hold
-- underscores and digits.
pub token-injective :
    (ns e e' : Text) (n n' : ℕ) → token ns e n ≡ token ns e' n' → (e ≡ e') × (n ≡ n')
unfolding token tail_of
token-injective ns e e' n n' h =
    let a = append_cancel (codes "[[PGW_") _ _ h in
    let b = append_cancel ns _ _ a in
    let (same, ends) =
      last_split b'_' e e' _ _ (numeral_end_has_no_underscore n) (numeral_end_has_no_underscore n')
        (ap tail_of b) in
    let (numerals, _) =
      first_split b']' (str n) (str n') _ _ (All-str (λ c. c ≢ b']') (λ d lo hi. omega arith) n)
        (All-str (λ c. c ≢ b']') (λ d lo hi. omega arith) n') ends in
    (same, str-injective n n' numerals)

abbrev Key : Type 0
Key = Text × Text

-- What `token_to_value`, `_value_to_token` and `_counters` have to do with one another.
pub record IsRegistry (ctx : TokenizationContext) : Type 0 where
  -- a key's token is of its entity type, with a number already given out, and has the key's value
  pub minted :
      (e v t : Text)
      → lookup (e, v) ctx.value_to_token ≡ some t
      → (n : ℕ) × (t ≡ token ctx.namespace e n)
        × (n ≤ counter_of ctx e)
        × (lookup t ctx.token_to_value ≡ some v)
  -- two keys with one token are the same
  pub distinct :
      (k k' : Text × Text) (t : Text)
      → lookup k ctx.value_to_token ≡ some t
      → lookup k' ctx.value_to_token ≡ some t
      → k ≡ k'
  -- a token with a value is some key's token
  pub owned :
      (t v : Text)
      → lookup t ctx.token_to_value ≡ some v
      → (e : Text) × (lookup (e, v) ctx.value_to_token ≡ some t)

pub empty_context-IsRegistry : (ns : Text) → IsRegistry (empty_context ns)
unfolding lookup
empty_context-IsRegistry ns = record {
  minted = λ e v t h. cc;
  distinct = λ k k' t h h'. cc;
  owned = λ t v h. cc;
}

-- Nothing that one context has given out is lost in the other.
pub record Extends (ctx ctx' : TokenizationContext) : Type 0 where
  pub namespace : ctx'.namespace ≡ ctx.namespace
  pub kept :
      (t v : Text) → lookup t ctx.token_to_value ≡ some v → lookup t ctx'.token_to_value ≡ some v

pub Extends-refl : (ctx : TokenizationContext) → Extends ctx ctx
Extends-refl ctx = record { namespace = refl; kept = λ t v h. h }

pub Extends-trans : {a b c : TokenizationContext} → Extends a b → Extends b c → Extends a c
Extends-trans x y = record {
  namespace = y.namespace ∙ x.namespace;
  kept = λ t v h. y.kept t v (x.kept t v h);
}

-- A fresh key is given a token that no other key has.
module _ (ctx : TokenizationContext) (r : IsRegistry ctx) (e v : Text) where
  abbrev number : ℕ
  number = counter_of ctx e + 1

  abbrev minted_token : Text
  minted_token = token ctx.namespace e number

  abbrev next : TokenizationContext
  next = record ctx {
    token_to_value = insert minted_token v ctx.token_to_value;
    value_to_token = insert (e, v) minted_token ctx.value_to_token;
    counters = insert e number ctx.counters;
  }

  counter_grows : (e' : Text) → counter_of ctx e' ≤ counter_of next e'
  counter_grows e' = elim (Text-cases e e') [
    | inl same ↦
        subst (λ x. counter_of ctx x ≤ counter_of next x) same
          (rw (lookup-insert_self e number ctx.counters, counter_of) (omega arith))
    | inr other ↦ rw (lookup-insert_ne e e' number ctx.counters other, counter_of) (omega arith)
  ]

  unused_key : (k : Text × Text) → lookup k ctx.value_to_token ≢ some minted_token
  unused_key (e', v') h =
      let (n, same, le, _) = r.minted e' v' minted_token h in
      let (es, ns) = token-injective ctx.namespace e e' number n same in
      let le' = subst (λ x. n ≤ counter_of ctx x) (sym es) le in absurd (omega arith)

  unused_token : lookup minted_token ctx.token_to_value ≡ none
  unused_token = elim (Option-cases (lookup minted_token ctx.token_to_value)) [
    | inl free ↦ free
    | inr (w, used) ↦ let (e', h) = r.owned minted_token w used in absurd (unused_key (e', w) h)
  ]

  next-kept :
      (t w : Text) → lookup t ctx.token_to_value ≡ some w → lookup t next.token_to_value ≡ some w
  next-kept t w h = elim (Text-cases minted_token t) [
    | inl same ↦ absurd (
        let h' = subst (λ x. lookup x ctx.token_to_value ≡ some w) (sym same) h in
        let u = unused_token in cc)
    | inr other ↦ rw (lookup-insert_ne minted_token t v ctx.token_to_value other) h
  ]

  abbrev Keyed : Text × Text → Text → Type 0
  Keyed k t = (k ≡ (e, v)) × (t ≡ minted_token) ⊎ (lookup k ctx.value_to_token ≡ some t)

  -- A key of the new registry is the new one, or an old one.
  key_cases : (k : Text × Text) (t : Text) → lookup k next.value_to_token ≡ some t → Keyed k t
  key_cases k t h = elim (Bool-cases ((e, v) == k)) [
    | inl same ↦
        let h' = rw (lookup-insert (e, v) k minted_token ctx.value_to_token, same) at h in
        inl (sym ((==_iff (e, v) k).0 same), ground arith)
    | inr other ↦ inr (rw (lookup-insert (e, v) k minted_token ctx.value_to_token, other) at h)
  ]

  abbrev Minted : Text → Text → Text → Type 0
  Minted e' v' t =
      (n : ℕ) × (t ≡ token next.namespace e' n)
      × (n ≤ counter_of next e')
      × (lookup t next.token_to_value ≡ some v')

  new-Minted : Minted e v minted_token
  new-Minted = (
    number,
    refl,
    rw (lookup-insert_self e number ctx.counters, counter_of) (omega arith),
    lookup-insert_self minted_token v ctx.token_to_value,
  )

  next-Minted : (e' v' t : Text) → Keyed (e', v') t → Minted e' v' t
  next-Minted e' v' t (inl (k, same)) =
      subst (λ x. Minted e' v' x) (sym same)
        (subst (λ (p : Text × Text). Minted p.0 p.1 minted_token) (sym k) new-Minted)
  next-Minted e' v' t (inr h) =
      let (n, same, le, value) = r.minted e' v' t h in
      let grows = counter_grows e' in (n, same, omega arith, next-kept t v' value)

  next_distinct : (k k' : Text × Text) (t : Text) → Keyed k t → Keyed k' t → k ≡ k'
  next_distinct k k' t (inl (a, b)) (inl (a', b')) = a ∙ sym a'
  next_distinct k k' t (inl (a, b)) (inr h) =
      absurd (unused_key k' (subst (λ x. lookup k' ctx.value_to_token ≡ some x) b h))
  next_distinct k k' t (inr h) (inl (a, b)) =
      absurd (unused_key k (subst (λ x. lookup k ctx.value_to_token ≡ some x) b h))
  next_distinct k k' t (inr h) (inr h') = r.distinct k k' t h h'

  new_key_absent :
      lookup (e, v) ctx.value_to_token ≡ none
      → (k : Text × Text) (t : Text) → lookup k ctx.value_to_token ≡ some t
      → lookup k next.value_to_token ≡ some t
  new_key_absent fresh k t h = elim (Bool-cases ((e, v) == k)) [
    | inl same ↦ absurd (
        let h' =
          subst (λ x. lookup x ctx.value_to_token ≡ some t) (sym ((==_iff (e, v) k).0 same)) h in
        cc)
    | inr other ↦ rw (lookup-insert (e, v) k minted_token ctx.value_to_token, other) h
  ]

  next_owned :
      lookup (e, v) ctx.value_to_token ≡ none
      → (t w : Text) → lookup t next.token_to_value ≡ some w
      → (e' : Text) × (lookup (e', w) next.value_to_token ≡ some t)
  next_owned fresh t w h = elim (Text-cases minted_token t) [
    | inl same ↦
        let new : lookup minted_token next.token_to_value ≡ some v =
          lookup-insert_self minted_token v ctx.token_to_value in
        let old = subst (λ x. lookup x next.token_to_value ≡ some w) (sym same) h in
        let values : v ≡ w = ground arith in
        (
          e,
          subst (λ x. lookup (e, x) next.value_to_token ≡ some t) values
              (lookup-insert_self (e, v) minted_token ctx.value_to_token ∙ ap some same),
        )
    | inr other ↦
        let old = rw (lookup-insert_ne minted_token t v ctx.token_to_value other) at h in
        let (e', k) = r.owned t w old in (e', new_key_absent fresh (e', w) t k)
  ]

  next-IsRegistry : lookup (e, v) ctx.value_to_token ≡ none → IsRegistry next
  next-IsRegistry fresh = record {
    minted = λ e' v' t h. next-Minted e' v' t (key_cases (e', v') t h);
    distinct = λ k k' t h h'. next_distinct k k' t (key_cases k t h) (key_cases k' t h');
    owned = λ t w h. next_owned fresh t w h;
  }

-- What one call of token_for gives: a context that is a registry again and has lost nothing, and a
-- token of the entity type that stands for the value in it.
pub record Tokenized (ctx : TokenizationContext) (e v : Text) (out : Text × TokenizationContext)
    : Type 0 where
  pub registry : IsRegistry out.1
  pub extends : Extends ctx out.1
  pub known : lookup (e, v) out.1.value_to_token ≡ some out.0
  pub value : lookup out.0 out.1.token_to_value ≡ some v
  pub form : (n : ℕ) × (out.0 ≡ token ctx.namespace e n)

-- In a registry, token_for gives a token of the entity type that stands for the value, and leaves a
-- registry that has lost nothing, whether the pair is new or was seen before.
pub token_for-Tokenized :
    (ctx : TokenizationContext) (e v : Text)
    → IsRegistry ctx
    → Tokenized ctx e v (token_for e v ctx)
unfolding token_for
token_for-Tokenized ctx e v r = elim (Option-cases (lookup (e, v) ctx.value_to_token)) [
  | inl fresh ↦ rw fresh (record {
    registry = next-IsRegistry ctx r e v fresh;
    extends = record { namespace = refl; kept = next-kept ctx r e v };
    known = lookup-insert_self (e, v) (minted_token ctx r e v) ctx.value_to_token;
    value = lookup-insert_self (minted_token ctx r e v) v ctx.token_to_value;
    form = (number ctx r e v, refl);
  })
  | inr (t, seen) ↦
      let (n, same, le, value) = r.minted e v t seen in
      rw seen (record {
        registry = r;
        extends = Extends-refl ctx;
        known = seen;
        value = value;
        form = (n, same);
      })
]

-- In a registry, asking again for the same pair gives the same token and changes nothing.
pub token_for_again :
    (ctx : TokenizationContext) (e v : Text)
    → IsRegistry ctx
    → token_for e v (token_for e v ctx).1 ≡ token_for e v ctx
token_for_again ctx e v r =
    let k = (token_for-Tokenized ctx e v r).known in unfold token_for in (rw k)
