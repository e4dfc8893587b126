-- ===== src/Tokenization/Examples.antt =====
-- Runs of the token registry of gateway/tokenization.py, on one request that names Ann and Bob.
use privacy_gateway_llm_appl.Prelude.{
  ℕ, Text, codes, List, [], ◌∷◌, ◌++◌, false, ◌≡◌, refl, text_eq, lookup, insert, text_beq,
}
use privacy_gateway_llm_appl.Errors.{ok}
use privacy_gateway_llm_appl.Pattern.{done, take_one, take_more, take_no_more}
use privacy_gateway_llm_appl.Anonymizer.{
  Segment, kept, span, original, Rendered, nil, keep, replace_first, replace_last,
}
use privacy_gateway_llm_appl.Tokenization.{
  TokenizationContext, empty_context, new_context, contains, find_namespace, token, token_for,
  rehydrate,
}
use privacy_gateway_llm_appl.Tokenization.Registry.{
  IsRegistry, Tokenized, Extends-refl, empty_context-IsRegistry, token_for-Tokenized,
}
use privacy_gateway_llm_appl.Tokenization.Restore.{IsNamespace, IsEntityName}
use privacy_gateway_llm_appl.Tokenization.RoundTrip.{
  Rendered-IsRegistry, rehydrate_restores, rehydrate_foreign,
}

abbrev hex_name : Text
hex_name = codes "0A1B2C3D"

abbrev person : Text
person = codes "PERSON"

abbrev ann : Text
ann = codes "Ann"

abbrev bob : Text
bob = codes "Bob"

abbrev ctx : TokenizationContext
ctx = empty_context hex_name

abbrev with_bob : TokenizationContext
with_bob = (token_for person bob ctx).1

abbrev final : TokenizationContext
final = (token_for person ann with_bob).1

abbrev message : List Segment
message = kept (codes "Hi ") ∷ span person ann ∷ kept (codes " and ") ∷ span person bob ∷ []

-- What the provider is sent: Bob is replaced first.
abbrev sent : Text
sent =
    codes "Hi "
    ++ ((token_for person ann with_bob).0
        ++ (codes " and " ++ ((token_for person bob ctx).0 ++ [])))

hex_name-IsNamespace : IsNamespace hex_name
hex_name-IsNamespace = take_one refl (
    take_one refl (
      take_one refl
        (take_one refl (take_one refl (take_one refl (take_one refl (take_one refl done)))))))

person-IsEntityName : IsEntityName person
person-IsEntityName = take_one refl (
    take_more refl
      (take_more refl (take_more refl (take_more refl (take_more refl (take_no_more done))))))

message-Rendered : Rendered token_for message ctx sent final
message-Rendered = keep (replace_last (keep (replace_first nil)))

final-IsRegistry : IsRegistry final
final-IsRegistry = (Rendered-IsRegistry message-Rendered (empty_context-IsRegistry hex_name)).0

sent_text :
    sent
    ≡ codes "Hi " ++ (token hex_name person 2 ++ (codes " and " ++ (token hex_name person 1 ++ [])))
unfolding token_for lookup insert text_beq
sent_text = refl

-- The first candidate occurs in the request and is passed over.
namespace_passed_over :
    new_context
      (λ k. elim k [ ℕ.zero ↦ codes "AAAAAAAA" | ℕ.suc _ ↦ hex_name ])
      (codes "about AAAAAAAA")
    ≡ ok ctx
unfolding new_context find_namespace contains
namespace_passed_over = refl

message_free : contains (original message) hex_name ≡ false
unfolding contains
message_free = refl

rehydrate_restores_example : rehydrate final sent ≡ codes "Hi Ann and Bob"
rehydrate_restores_example =
    rehydrate_restores message ctx final final sent (empty_context-IsRegistry hex_name)
      hex_name-IsNamespace (person-IsEntityName, (person-IsEntityName, tt)) message_free
      message-Rendered final-IsRegistry (Extends-refl final)

foreign_free : contains (codes "[[PGW_FFFFFFFF_PERSON_1]]") hex_name ≡ false
unfolding contains
foreign_free = refl

final-IsNamespace : IsNamespace final.namespace
unfolding token_for lookup insert text_beq
final-IsNamespace = hex_name-IsNamespace

foreign_free_final : contains (codes "[[PGW_FFFFFFFF_PERSON_1]]") final.namespace ≡ false
unfolding token_for lookup insert text_beq
foreign_free_final = foreign_free

rehydrate_foreign_example :
    rehydrate final (codes "[[PGW_FFFFFFFF_PERSON_1]]") ≡ codes "[[PGW_FFFFFFFF_PERSON_1]]"
rehydrate_foreign_example =
    rehydrate_foreign final (codes "[[PGW_FFFFFFFF_PERSON_1]]") final-IsRegistry final-IsNamespace
      foreign_free_final

token_for-Tokenized_example : Tokenized with_bob person ann (token_for person ann with_bob)
token_for-Tokenized_example =
    token_for-Tokenized with_bob person ann
      (token_for-Tokenized ctx person bob (empty_context-IsRegistry hex_name)).registry
