-- ===== src/Providers/Reading.antt =====
-- What the readers of a provider's answer in gateway/llm_client.py can raise.
use privacy_gateway_llm_appl.Prelude.{
  ℕ, ℤ, Text, List, [], ◌∷◌, Bool, true, false, ◌≡◌, refl, ◌==◌, ◌+◌, sym, subst, nat_eq, text_eq,
  if◌then◌else◌,
}
use privacy_gateway_llm_appl.Errors.{
  Exception, key_error, type_error, value_error, attribute_error, overflow_error, Result, ok, raise,
  ◌>>=◌,
}
use privacy_gateway_llm_appl.Json.{
  Json, boolean, integer, float, infinity, not_a_number, string, array, object, Elements,
  no_elements, element, Members, no_members, member, Python, to_int, find_key, item, get,
}
use privacy_gateway_llm_appl.Providers.{
  Choice, expect_text, expect_elements, message_content, text_or, count_or_zero, normalize_choices,
  response_of, read_openai_response,
}
use privacy_gateway_llm_appl.Providers.Adapters.{
  iterate, block_texts, is_text_type, join_texts, read_anthropic_response,
}

-- A result that is a value, or raises what `E` allows.
pub data Within {ℓ} {A : Type ℓ} (E : Exception → Type 0) : Result A → Type ℓ where
  gives : (a : A) → Within E (ok a)
  fails : (x : Exception) → E x → Within E (raise x)

-- The errors of a value of the wrong shape, with OverflowError.
pub data IsReading : Exception → Type 0 where
  a_key : IsReading key_error
  a_type : IsReading type_error
  a_value : IsReading value_error
  an_attribute : IsReading attribute_error
  an_overflow : IsReading overflow_error

pub then_Within {ℓ κ} :
    {A : Type ℓ} {B : Type κ} {E : Exception → Type 0} {r : Result A} {f : A → Result B}
    → Within E r
    → ((a : A) → Within E (f a))
    → Within E (r >>= f)
then_Within (gives a) h = h a
then_Within (fails x e) h = fails x e

pub found-Within {ℓ} :
    {A : Type ℓ} {E : Exception → Type 0} (b : Bool) {r r' : Result A}
    → Within E r
    → Within E r'
    → Within E (if b then r else r')
found-Within true h h' = h
found-Within false h h' = h'

find_item-Within :
    (key : Text) (ms : Members) → Within IsReading (find_key ok (raise key_error) key ms)
unfolding find_key
find_item-Within key no_members = fails key_error a_key
find_item-Within key (member k v ms) = found-Within (k == key) (gives v) (find_item-Within key ms)

item-Within : (j : Json) (key : Text) → Within IsReading (item j key)
unfolding item
item-Within (object ms) key = find_item-Within key ms
item-Within _ key = fails type_error a_type

get-Within : (j : Json) (key : Text) → Within IsReading (get j key)
unfolding get
get-Within (object ms) key = gives _
get-Within _ key = fails attribute_error an_attribute

expect_text-Within : (j : Json) → Within IsReading (expect_text j)
expect_text-Within (string t) = gives t
expect_text-Within _ = fails type_error a_type

expect_elements-Within : (j : Json) → Within IsReading (expect_elements j)
expect_elements-Within (array (element v vs)) = gives _
expect_elements-Within _ = fails type_error a_type

message_content-Within : (j : Json) → Within IsReading (message_content j)
message_content-Within j =
    then_Within (item-Within j _) λ m. then_Within (item-Within m _) expect_text-Within

-- `int` of a string gives a number or raises ValueError.
abbrev pub ParsesIntegers : Python → Type 0
ParsesIntegers py = (t : Text) → (x : Exception) → py.int_of_text t ≡ raise x → x ≡ value_error

module _ (py : Python) (parses : ParsesIntegers py) where
  parsed-Within : (t : Text) (r : Result ℤ) → py.int_of_text t ≡ r → Within {A = ℤ} IsReading r
  parsed-Within t (ok n) e = gives n
  parsed-Within t (raise x) e =
      subst (λ y. Within {A = ℤ} IsReading (raise y)) (sym (parses t x e))
        (fails value_error a_value)

  to_int-Within : (j : Json) → Within IsReading (to_int py j)
  unfolding to_int
  to_int-Within (boolean true) = gives _
  to_int-Within (boolean false) = gives _
  to_int-Within (integer n) = gives n
  to_int-Within (float x) = gives _
  to_int-Within (infinity negative) = fails overflow_error an_overflow
  to_int-Within not_a_number = fails value_error a_value
  to_int-Within (string t) = parsed-Within t _ refl
  to_int-Within _ = fails type_error a_type

  text_or-Within : (j : Json) (key default : Text) → Within IsReading (text_or py j key default)
  text_or-Within j key default = then_Within (get-Within j key) λ v. gives _

  count-Within : (j : Json) (key : Text) → Within IsReading (count_or_zero py j key)
  count-Within j key = then_Within (get-Within j key) λ v. to_int-Within _

  choices-Within : (index : ℕ) (vs : Elements) → Within IsReading (normalize_choices py index vs)
  unfolding normalize_choices
  choices-Within index no_elements = gives []
  choices-Within index (element choice more) =
      then_Within (message_content-Within choice) λ content.
        then_Within (text_or-Within choice _ _)
          λ finish_reason. then_Within (choices-Within (index + 1) more) λ rest. gives _

  response-Within :
      (j : Json) (model : Text) (choices : Result (List Choice)) (usage : Json)
      (prompt completion : Text)
      → Within IsReading choices
      → Within IsReading (response_of py j model choices usage prompt completion)
  unfolding response_of
  response-Within j model choices usage prompt completion h =
      then_Within (text_or-Within j _ _) λ id. then_Within (text_or-Within j _ _) λ model'.
        then_Within h λ cs.
          then_Within (count-Within usage prompt)
            λ n. then_Within (count-Within usage completion) λ n'. gives _

  pub openai-Within : (j : Json) (model : Text) → Within IsReading (read_openai_response py j model)
  unfolding read_openai_response
  openai-Within j model = then_Within (item-Within j _) λ cs.
      then_Within (expect_elements-Within cs) λ vs. then_Within (choices-Within 0 vs) λ out.
        then_Within (get-Within j _) λ usage. response-Within j model (ok out) _ _ _ (gives out)

  iterate-Within : (j : Json) → Within IsReading (iterate j)
  unfolding iterate
  iterate-Within (array vs) = gives _
  iterate-Within (string t) = gives _
  iterate-Within (object ms) = gives _
  iterate-Within _ = fails type_error a_type

  blocks-Within : (bs : List Json) → Within IsReading (block_texts bs)
  unfolding block_texts
  blocks-Within [] = gives []
  blocks-Within (b ∷ bs) = then_Within (get-Within b _) λ type.
      found-Within (is_text_type type)
        (then_Within (item-Within b _) λ text. then_Within (blocks-Within bs) λ texts. gives _)
        (blocks-Within bs)

  join-Within : (vs : List Json) → Within IsReading (join_texts vs)
  unfolding join_texts
  join-Within [] = gives []
  join-Within (v ∷ vs) =
      then_Within (expect_text-Within v) λ t. then_Within (join-Within vs) λ ts. gives _

  pub anthropic-Within :
      (j : Json) (model : Text) → Within IsReading (read_anthropic_response py j model)
  unfolding read_anthropic_response
  anthropic-Within j model = then_Within (item-Within j _) λ content.
      then_Within (iterate-Within content) λ blocks. then_Within (blocks-Within blocks) λ texts.
        then_Within (join-Within texts) λ text. then_Within (get-Within j _) λ usage.
          response-Within j model _ _ _ _
            (then_Within (text_or-Within j _ _) λ finish_reason. gives _)
