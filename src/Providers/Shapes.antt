-- ===== src/Providers/Shapes.antt =====
-- What _normalize_openai_response copies of a provider's answer.
use privacy_gateway_llm_appl.Prelude.{
  ℕ, ◌+◌, Text, codes, List, [], ◌∷◌, false, ◌≡◌, ◌≢◌, inl, inr, refl, ap, subst, ◌∙◌, ◌==◌,
  text_eq,
}
use privacy_gateway_llm_appl.Errors.{
  key_error, ok, raise, ok-injective, raise-ne-ok, Result-cases, bind_ok,
}
use privacy_gateway_llm_appl.Json.{
  Json, null, array, object, Elements, no_elements, element, Members, no_members, member, Python,
  find_key, item, get,
}
use privacy_gateway_llm_appl.Providers.{
  Choice, ProviderResponse, message_content, text_or, normalize_choices, expect_elements,
  response_of, read_openai_response, normalize_openai_response, count_or_zero,
}

-- The members of one dict behind those of another.
abbrev pub join_members : Members → Members → Members
join_members no_members after = after
join_members (member k v ms) after = member k v (join_members ms after)

-- The keys that are read of an answer.
abbrev pub known_keys : List Text
known_keys = codes "choices" ∷ codes "usage" ∷ codes "id" ∷ codes "model" ∷ []

abbrev pub IsUnknown : Text → List Text → Type 0
IsUnknown key [] = Unit
IsUnknown key (k ∷ ks) = ((key == k) ≡ false) × IsUnknown key ks

find_key-insert :
    {A : Type 0} (found : Json → A) (missing : A) (wanted key : Text) (v : Json)
    (before after : Members)
    → (key == wanted) ≡ false
    → find_key found missing wanted (join_members before (member key v after))
      ≡ find_key found missing wanted (join_members before after)
unfolding find_key
find_key-insert found missing wanted key v no_members after h = rw h refl
find_key-insert found missing wanted key v (member k w ms) after h =
    rw (find_key-insert found missing wanted key v ms after h) refl

-- A member of the answer whose key is none of the four known ones has no effect on the normalized
-- response, and none on the error, wherever it stands in the answer and whatever its value is.
pub normalize_drops_unknown :
    (py : Python) (key : Text) (v : Json) (before after : Members) (model : Text)
    → IsUnknown key known_keys
    → normalize_openai_response py (object (join_members before (member key v after))) model
      ≡ normalize_openai_response py (object (join_members before after)) model
unfolding normalize_openai_response read_openai_response response_of item get
normalize_drops_unknown py key v before after model h =
    rw
      (
        find_key-insert ok (raise key_error) (codes "choices") key v before after h.0,
        find_key-insert (λ w. w) null (codes "usage") key v before after h.1.0,
        find_key-insert (λ w. w) null (codes "id") key v before after h.1.1.0,
        find_key-insert (λ w. w) null (codes "model") key v before after h.1.1.1.0,
      )
      refl

-- One choice for each element, in order, numbered from `index`, with the content found in it.
pub data Copied : ℕ → Elements → List Choice → Type 0 where
  copied_all : {index : ℕ} → Copied index no_elements []
  copied :
      {index : ℕ} {choice : Json} {more : Elements} {rest : List Choice} (c : Choice)
      → c.index ≡ index
      → message_content choice ≡ ok c.content
      → Copied (index + 1) more rest
      → Copied index (element choice more) (c ∷ rest)

normalize_choices-Copied :
    (py : Python) (index : ℕ) (vs : Elements) (cs : List Choice)
    → normalize_choices py index vs ≡ ok cs
    → Copied index vs cs
unfolding normalize_choices
normalize_choices-Copied py index no_elements cs e =
    subst (Copied index no_elements) (ok-injective e) copied_all
normalize_choices-Copied py index (element choice more) cs e =
    let (content, read, e₁) = bind_ok (message_content choice) _ e in
    let (finish, _, e₂) = bind_ok (text_or py choice (codes "finish_reason") (codes "stop")) _ e₁ in
    let (rest, tail, e₃) = bind_ok (normalize_choices py (index + 1) more) _ e₂ in
    subst (Copied index (element choice more)) (ok-injective e₃)
      (copied _ refl read (normalize_choices-Copied py (index + 1) more rest tail))

-- The choices of a normalized response, and the list in the answer that they are copied of.
abbrev pub AreCopied : Json → List Choice → Type 0
AreCopied data_in cs =
    (vs : Elements) × (item data_in (codes "choices") ≡ ok (array vs)) × Copied 0 vs cs × (cs ≢ [])

elements_of :
    (j : Json) (vs : Elements) → expect_elements j ≡ ok vs → (j ≡ array vs) × (vs ≢ no_elements)
elements_of (array (element v vs)) ws e = let same = ok-injective e in (ap array same, λ n. cc)
elements_of _ ws e = elim (raise-ne-ok e) [ ]

Copied-ne_nil : {vs : Elements} {cs : List Choice} → Copied 0 vs cs → vs ≢ no_elements → cs ≢ []
Copied-ne_nil copied_all ne e = ne refl
Copied-ne_nil (copied c i m t) ne e = cc

read-AreCopied :
    (py : Python) (data_in : Json) (model : Text) (r : ProviderResponse)
    → read_openai_response py data_in model ≡ ok r
    → AreCopied data_in r.choices
unfolding read_openai_response response_of
read-AreCopied py data_in model r e =
    let (j, found, e₁) = bind_ok (item data_in (codes "choices")) _ e in
    let (vs, listed, e₂) = bind_ok (expect_elements j) _ e₁ in
    let (cs, normalized, e₃) = bind_ok (normalize_choices py 0 vs) _ e₂ in
    let (usage, _, e₄) = bind_ok (get data_in (codes "usage")) _ e₃ in
    let (id, _, e₅) = bind_ok (text_or py data_in (codes "id") []) _ e₄ in
    let (m, _, e₆) = bind_ok (text_or py data_in (codes "model") model) _ e₅ in
    let (n, _, e₇) = bind_ok (count_or_zero py _ (codes "prompt_tokens")) _ e₆ in
    let (n', _, e₈) = bind_ok (count_or_zero py _ (codes "completion_tokens")) _ e₇ in
    let (same, filled) = elements_of j vs listed in
    let copies = normalize_choices-Copied py 0 vs cs normalized in
    subst (λ s. AreCopied data_in s.choices) (ok-injective e₈)
      (vs, found ∙ ap ok same, copies, Copied-ne_nil copies filled)

-- The choices of a normalized response are not empty. There is one for each element of the answer's
-- list "choices", in its order, numbered from 0, and its content is the string at
-- choice["message"]["content"].
pub normalize-AreCopied :
    (py : Python) (data_in : Json) (model : Text) (r : ProviderResponse)
    → normalize_openai_response py data_in model ≡ ok r
    → AreCopied data_in r.choices
unfolding normalize_openai_response
normalize-AreCopied py data_in model r e =
    elim (Result-cases (read_openai_response py data_in model)) [
      | inl (s, read) ↦
          let e' = rw read at e in
          subst (λ t. AreCopied data_in t.choices) (ok-injective e')
            (read-AreCopied py data_in model s read)
      | inr (x, failed) ↦ let e' = rw failed at e in elim (raise-ne-ok e') [ ]
    ]
