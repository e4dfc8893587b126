-- ===== src/Gateway/Echo.antt =====
-- The answer of MockLLMClient of gateway/llm_client.py, which holds the last message of a user, and what
-- the rehydration of gateway/gateway_api.py makes of it.
use mathlib.Core.Option.{some-injective}
use privacy_gateway_llm_appl.Prelude.{
  ℕ, zero, suc, Text, codes, List, [], ◌∷◌, ◌++◌, none, some, true, false, ltb, ◌≡◌, refl, sym, ◌∙◌,
  All, map, length, inl, inr, Bool-cases, arith, pos, Option-cases,
}
use privacy_gateway_llm_appl.Errors.{ok, ok-injective, raise-ne-ok}
use privacy_gateway_llm_appl.Tokenization.{
  TokenizationContext, is_hex_digit, contains, namespace_attempts, find_namespace, empty_context,
  new_context, rehydrate, context_length,
}
use privacy_gateway_llm_appl.Tokenization.Restore.{IsIn, IsIn-cons, IsIn-left, IsIn-right}
use privacy_gateway_llm_appl.Tokenization.RoundTrip.{rehydrate_empty}
use privacy_gateway_llm_appl.Mediator.Restoring.{Restores}
use privacy_gateway_llm_appl.Providers.{ProviderResponse, ProviderCall}
use privacy_gateway_llm_appl.Providers.Clients.{MockClient, is_user, last_user, mock_chat}
use privacy_gateway_llm_appl.Gateway.{rehydrate_response}
use privacy_gateway_llm_appl.Gateway.Threading.{AllRestore}
use privacy_gateway_llm_appl.Gateway.Requests.{ChatMessage, join_lines}

found_namespace_free :
    (candidate : ℕ → Text) (text ns : Text) (n k : ℕ)
    → find_namespace n k candidate text ≡ some ns
    → contains text ns ≡ false
unfolding find_namespace
found_namespace_free candidate text ns zero k e = cc
found_namespace_free candidate text ns (suc n) k e =
    elim (Bool-cases (contains text (candidate k))) [
      | inl held ↦ found_namespace_free candidate text ns n (suc k) (rw held at e)
      | inr free ↦
          let same : candidate k ≡ ns = some-injective _ _ (rw free at e) in rw (← same) free
    ]

-- A new context is empty, with a namespace that the text does not hold.
pub new_context-empty :
    (candidate : ℕ → Text) (text : Text) (ctx : TokenizationContext)
    → new_context candidate text ≡ ok ctx
    → (ctx ≡ empty_context ctx.namespace) × (contains text ctx.namespace ≡ false)
unfolding new_context
new_context-empty candidate text ctx e =
    elim (Option-cases (find_namespace namespace_attempts 0 candidate text)) [
      | inl gone ↦ absurd (raise-ne-ok (rw (gone, new_context) at e))
      | inr (ns, found) ↦
          let same : empty_context ns ≡ ctx = ok-injective (rw (found, new_context) at e) in
          (
            rw (← same) refl,
            rw (← same) (found_namespace_free candidate text ns namespace_attempts 0 found),
          )
    ]

-- A line does not hold what the lines together do not hold.
pub not-IsIn-lines :
    (ns : Text) (ms : List ChatMessage)
    → ¬ IsIn ns (join_lines (map (λ (m : ChatMessage). m.content) ms))
    → All (λ (m : ChatMessage). ¬ IsIn ns m.content) ms
not-IsIn-lines ns [] free = tt
not-IsIn-lines ns (m ∷ []) free = (free, tt)
not-IsIn-lines ns (m ∷ n ∷ ms) free = (
  λ i. free (IsIn-left ns m.content _ i),
  not-IsIn-lines ns (n ∷ ms) (λ i. free (IsIn-right ns m.content _ (IsIn-cons ns b'\n' i))),
)

pub last_user_free :
    (ns default : Text) (ms : List ChatMessage)
    → ¬ IsIn ns default
    → All (λ (m : ChatMessage). ¬ IsIn ns m.content) ms
    → ¬ IsIn ns (last_user default ms)
unfolding last_user
last_user_free ns default [] d h = d
last_user_free ns default (m ∷ ms) d (h, hs) = elim (Bool-cases (is_user m.role)) [
  | inl u ↦ rw u (last_user_free ns m.content ms h hs)
  | inr u ↦ rw u (last_user_free ns default ms d hs)
]

pub last_user-Restores :
    (ns default default' : Text) (last : TokenizationContext) (ms sent : List ChatMessage)
    → Restores ns last default default'
    → AllRestore ns last ms sent
    → Restores ns last (last_user default ms) (last_user default' sent)
unfolding last_user
last_user-Restores ns default default' last [] [] d h = d
last_user-Restores ns default default' last (m ∷ ms) [] d h = absurd h
last_user-Restores ns default default' last [] (s ∷ ss) d h = absurd h
last_user-Restores ns default default' last (m ∷ ms) (s ∷ ss) d (role, h, hs) =
    elim (Bool-cases (is_user m.role)) [
      | inl u ↦ rw (role, u) (last_user-Restores ns m.content s.content last ms ss h hs)
      | inr u ↦ rw (role, u) (last_user-Restores ns default default' last ms ss d hs)
    ]

-- What the mock client answers to messages.
abbrev pub greeting : Text
greeting = codes "[mock LLM] I received your message: "

abbrev pub echo : Text → List ChatMessage → ProviderResponse
echo model messages = record {
  id = codes "mock-completion-1";
  model = model;
  choices =
      (record {
        index = 0;
        content = greeting ++ last_user [] messages;
        finish_reason = codes "stop";
      })
      ∷ [];
  prompt_tokens = pos 0;
  completion_tokens = pos 0;
}

pub mock_chat-echo :
    (client : MockClient) (call : ProviderCall)
    → client.responder ≡ none
    → (mock_chat client call).0 ≡ ok (echo call.model call.messages)
unfolding mock_chat
mock_chat-echo client call e = rw e refl

pub greeting_is_no_hex : All (λ c. is_hex_digit c ≡ false) greeting
greeting_is_no_hex = ground arith

length_zero : {A : Type 0} (xs : List A) → ltb 0 (length xs) ≡ false → xs ≡ []
length_zero [] e = refl
length_zero (x ∷ xs) e = absurd (ground arith)

context_length-empty :
    (ctx : TokenizationContext) → ltb 0 (context_length ctx) ≡ false → ctx.token_to_value ≡ []
unfolding context_length
context_length-empty ctx e = length_zero ctx.token_to_value e

-- Rehydration of the echo, also where the context has no tokens and the handler leaves it out.
pub rehydrate-echo :
    (ctx : TokenizationContext) (model : Text) (ms sent : List ChatMessage)
    → rehydrate ctx (greeting ++ last_user [] sent) ≡ greeting ++ last_user [] ms
    → rehydrate_response true (some ctx) (echo model sent) ≡ echo model ms
unfolding rehydrate_response
rehydrate-echo ctx model ms sent e = elim (Bool-cases (ltb 0 (context_length ctx))) [
  | inl held ↦ rw (held, e) refl
  | inr free ↦
      let same : greeting ++ last_user [] sent ≡ greeting ++ last_user [] ms =
        sym (rehydrate_empty ctx _ (context_length-empty ctx free)) ∙ e in
      rw (free, same) refl
]
