-- ===== src/Tokenization.antt =====
-- gateway/tokenization.py: the request-scoped token registry.
-- `secrets.token_hex(4).upper()` is a function of the attempt, `candidate`.
pub mod Registry
pub mod Restore
pub mod RoundTrip
pub mod Examples
use privacy_gateway_llm_appl.Prelude.{
  ℕ, zero, suc, ◌+◌, Text, codes, str, List, [], ◌∷◌, ◌++◌, Option, none, some, Bool, true, false,
  not, ◌==◌, ◌&&◌, ◌||◌, leb, text_eq, pair_eq, nat_eq, lookup, insert, length, if◌then◌else◌,
}
use privacy_gateway_llm_appl.Errors.{Result, ok, raise, runtime_error}
use privacy_gateway_llm_appl.Pattern.{Item, once, many, sub, sub_from}

-- TOKEN_PATTERN = \[\[PGW_[0-9A-F]{8}_[A-Z][A-Z0-9_]*_[0-9]+\]\]
abbrev pub is_char : ℕ → ℕ → Bool
is_char x c = c == x

abbrev pub is_digit : ℕ → Bool
is_digit c = leb b'0' c && leb c b'9'

abbrev pub is_upper : ℕ → Bool
is_upper c = leb b'A' c && leb c b'Z'

abbrev pub is_hex_digit : ℕ → Bool
is_hex_digit c = is_digit c || (leb b'A' c && leb c b'F')

abbrev pub is_word : ℕ → Bool
is_word c = is_upper c || is_digit c || c == b'_'

abbrev pub opening : List Item
opening = once (is_char b'[') ∷ once (is_char b'[') ∷ once (is_char b'P') ∷ []

abbrev pub namespace_pattern : List Item
namespace_pattern =
    once is_hex_digit
    ∷ once is_hex_digit
    ∷ once is_hex_digit
    ∷ once is_hex_digit
    ∷ once is_hex_digit
    ∷ once is_hex_digit
    ∷ once is_hex_digit
    ∷ once is_hex_digit
    ∷ []

abbrev pub entity_pattern : List Item
entity_pattern = once is_upper ∷ many is_word ∷ []

abbrev pub counter_pattern : List Item
counter_pattern = once is_digit ∷ many is_digit ∷ []

abbrev pub underscore : List Item
underscore = once (is_char b'_') ∷ []

abbrev pub closing : List Item
closing = once (is_char b']') ∷ once (is_char b']') ∷ []

-- What stands between "[[P" and "]]".
abbrev pub body_pattern : List Item
body_pattern =
    once (is_char b'G')
    ∷ once (is_char b'W')
    ∷ once (is_char b'_')
    ∷ (namespace_pattern ++ (underscore ++ (entity_pattern ++ (underscore ++ counter_pattern))))

abbrev pub token_pattern : List Item
token_pattern = opening ++ (body_pattern ++ closing)

-- `sub in text`
abbrev pub starts_with : Text → Text → Bool
starts_with s [] = true
starts_with [] (d ∷ p) = false
starts_with (c ∷ s) (d ∷ p) = c == d && starts_with s p

unfoldable pub contains : Text → Text → Bool
contains [] p = starts_with [] p
contains (c ∷ s) p = starts_with (c ∷ s) p || contains s p

abbrev pub namespace_attempts : ℕ
namespace_attempts = 32

-- class TokenizationContext
pub record TokenizationContext : Type 0 where
  pub namespace : Text
  pub token_to_value : List (Text × Text)
  pub value_to_token : List ((Text × Text) × Text)
  pub counters : List (Text × ℕ)

-- The loop of __init__: the first candidate that does not occur in the text.
unfoldable pub find_namespace : ℕ → ℕ → (ℕ → Text) → Text → Option Text
find_namespace zero k candidate request_text = none
find_namespace (suc n) k candidate request_text =
    let rest = find_namespace n (suc k) candidate request_text in
    if not (contains request_text (candidate k)) then some (candidate k) else rest

abbrev pub empty_context : Text → TokenizationContext
empty_context namespace = record {
  namespace = namespace;
  token_to_value = [];
  value_to_token = [];
  counters = [];
}

-- TokenizationContext.__init__
unfoldable pub new_context : (ℕ → Text) → Text → Result TokenizationContext
unfolding find_namespace
new_context candidate request_text =
    elim (find_namespace namespace_attempts 0 candidate request_text) [
      | none ↦ raise runtime_error
      | some namespace ↦ ok (empty_context namespace)
    ]

-- f"[[PGW_{namespace}_{entity_type}_{counter}]]"
unfoldable pub token : Text → Text → ℕ → Text
token namespace entity_type counter =
    codes "[[PGW_" ++ (namespace ++ b'_' ∷ (entity_type ++ b'_' ∷ (str counter ++ codes "]]")))

abbrev pub counter_of : TokenizationContext → Text → ℕ
counter_of ctx entity_type = elim (lookup entity_type ctx.counters) [ none ↦ 0 | some n ↦ n ]

-- TokenizationContext.token_for
abbrev mint : Text → Text → TokenizationContext → Option Text → Text × TokenizationContext
mint entity_type value ctx (some existing) = (existing, ctx)
mint entity_type value ctx none =
    let n = counter_of ctx entity_type + 1 in
    let t = token ctx.namespace entity_type n in
    (
      t,
      record ctx {
        token_to_value = insert t value ctx.token_to_value;
        value_to_token = insert (entity_type, value) t ctx.value_to_token;
        counters = insert entity_type n ctx.counters;
      },
    )

unfoldable pub token_for : Text → Text → TokenizationContext → Text × TokenizationContext
token_for entity_type value ctx =
    mint entity_type value ctx (lookup (entity_type, value) ctx.value_to_token)

-- the function `_replace` of rehydrate
abbrev pub replace : TokenizationContext → Text → Text
replace ctx t = elim (lookup t ctx.token_to_value) [ none ↦ t | some value ↦ value ]

-- TokenizationContext.rehydrate
unfoldable pub rehydrate : TokenizationContext → Text → Text
rehydrate ctx text = sub token_pattern (replace ctx) text

-- TokenizationContext.clear
unfoldable pub clear : TokenizationContext → TokenizationContext
clear ctx = record ctx { token_to_value = []; value_to_token = []; counters = [] }

-- TokenizationContext.__len__
unfoldable pub context_length : TokenizationContext → ℕ
context_length ctx = length ctx.token_to_value
