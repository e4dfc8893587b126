-- ===== src/Providers/Credentials.antt =====
-- The client of gateway/llm_client.py that a production gateway is started with.
use privacy_gateway_llm_appl.Prelude.{
  Text, codes, List, [], ◌∷◌, ◌++◌, ◌≡◌, ◌≢◌, refl, ◌∙◌, inl, inr, subst, sym,
}
use privacy_gateway_llm_appl.Errors.{ok, ok-injective, raise-ne-ok}
use privacy_gateway_llm_appl.Config.{
  production, Provider, mock, openai, anthropic, Settings, Parsed, Pydantic, load,
}
use privacy_gateway_llm_appl.Config.Safety.{HasCredentials, IsStrong, IsSafe, load-Answers}
use privacy_gateway_llm_appl.Providers.{ProviderCall}
use privacy_gateway_llm_appl.Providers.Adapters.{openai_request, anthropic_request, new_adapter}
use privacy_gateway_llm_appl.Providers.Clients.{
  LlmClient, openai_client, anthropic_client, mock_client, client_for, build_client,
}

-- Every request of the client carries a key that is not empty.
abbrev pub IsKeyed : LlmClient → Type 0
IsKeyed (openai_client a) =
    (call : ProviderCall)
    → (key : Text) × (key ≢ [])
      × ((openai_request a call).headers ≡ (codes "Authorization", codes "Bearer " ++ key) ∷ [])
IsKeyed (anthropic_client a) =
    (call : ProviderCall)
    → (key : Text) × (more : List (Text × Text)) × (key ≢ [])
      × ((anthropic_request a call).headers ≡ (codes "x-api-key", key) ∷ more)
IsKeyed (mock_client c) = Unit

loaded-IsSafe :
    {I : Type 0} (parse : I → Parsed) (py : Pydantic) (input : I) (s : Settings)
    → load parse py input ≡ ok s
    → IsSafe py s
loaded-IsSafe parse py input s e = elim (load-Answers parse py input) [
  | inl (t, e', safe) ↦ subst (IsSafe py) (ok-injective (sym e' ∙ e)) safe
  | inr (inl (message, e')) ↦ elim (raise-ne-ok (sym e' ∙ e)) [ ]
  | inr (inr (x, unreadable, e')) ↦ elim (raise-ne-ok (sym e' ∙ e)) [ ]
]

client_for-IsKeyed : (p : Provider) (s : Settings) → HasCredentials p s → IsKeyed (client_for p s)
unfolding openai_request anthropic_request new_adapter
client_for-IsKeyed mock s h = tt
client_for-IsKeyed openai s h = λ call. (s.openai_api_key, h, refl)
client_for-IsKeyed anthropic s h = λ call. (s.anthropic_api_key, _, h, refl)

-- The client that build_client makes of settings loaded for production is the mock, or sends a key
-- that is not empty in the header of every request.
pub build_client-IsKeyed :
    {I : Type 0} (parse : I → Parsed) (py : Pydantic) (input : I) (s : Settings)
    → load parse py input ≡ ok s
    → s.app_env ≡ production
    → IsKeyed (build_client s)
unfolding build_client
build_client-IsKeyed parse py input s e env =
    let strong = subst (λ v. IsStrong v s) env (loaded-IsSafe parse py input s e).strong in
    client_for-IsKeyed s.provider s strong.2
