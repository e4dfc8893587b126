-- ===== src/Config/Safety.antt =====
-- What Settings.load guarantees of the settings that it returns.
use privacy_gateway_llm_appl.Prelude.{
  AnyFloat, finite_float, infinite_float, nan_float, ◌&&◌, float_one, ◌*◌, ◌≤◌, ◌<◌, Text, List, [],
  ◌∷◌, some, Bool, true, false, ◌≡◌, ◌≢◌, ◌⊎◌, inl, inr, refl, length, text_eq, nat_eq, ◌==◌,
  ==_iff, Bool-cases, if◌then◌else◌, arith, ltb, ◌∙◌, ap, sym, subst,
}
use privacy_gateway_llm_appl.Errors.{Exception, Result, ok, raise, gateway, configuration_error}
use privacy_gateway_llm_appl.Config.{
  AppEnv, development, test, production, Provider, mock, openai, anthropic, Settings, Parsed,
  unparsed, parsed, unread, Pydantic, insecure_dev_key, min_hmac_key_length, at_most,
  not_below_zero, above_zero, score_in_range, timeout_in_range, configuration, credentials,
  production_rules, with_dev_key, rules_for, enforce_security_rules, invalid_fields, range_errors,
  or_validation_error, load,
}

-- The provider's key is there, if it needs one.
abbrev pub HasCredentials : Provider → Settings → Type 0
HasCredentials mock s = Unit
HasCredentials openai s = s.openai_api_key ≢ []
HasCredentials anthropic s = s.anthropic_api_key ≢ []

-- Settings that are safe to start with in an environment.
abbrev pub IsStrong : AppEnv → Settings → Type 0
IsStrong production s =
    (s.audit_hmac_key ≢ insecure_dev_key)
    × (min_hmac_key_length ≤ length s.audit_hmac_key)
    × HasCredentials s.provider s
IsStrong _ s = Unit

-- From 0 to 1, and above 0 and up to 600; NaN only if pydantic lets it pass.
abbrev pub IsScore : Pydantic → AnyFloat → Type 0
IsScore py (finite_float x) =
    (x.magnitude ≤ 1 * float_one) × ((x.is_negative ≡ false) ⊎ (x.magnitude ≡ 0))
IsScore py (infinite_float is_negative) = ⊥
IsScore py nan_float = py.nan_passes ≡ true

abbrev pub IsTimeout : Pydantic → AnyFloat → Type 0
IsTimeout py (finite_float x) =
    (x.magnitude ≤ 600 * float_one) × (0 < x.magnitude) × (x.is_negative ≡ false)
IsTimeout py (infinite_float is_negative) = ⊥
IsTimeout py nan_float = py.nan_passes ≡ true

pub record IsSafe (py : Pydantic) (s : Settings) : Type 0 where
  pub keyed : s.audit_hmac_key ≢ []
  pub strong : IsStrong s.app_env s
  pub score : IsScore py s.score_threshold
  pub timeout : IsTimeout py s.provider_timeout_seconds

-- What a rule answers: settings with `P`, or a ConfigurationError.
data Answers (P : Settings → Type 0) : Result Settings → Type 0 where
  accepts : {r : Result Settings} (s : Settings) → r ≡ ok s → P s → Answers P r
  refuses :
      {r : Result Settings} (message : Text)
      → r ≡ raise (gateway (configuration_error (some message)))
      → Answers P r

-- a test that leads to a ConfigurationError
refuse_if :
    {P : Settings → Type 0} (b : Bool) (message : Text) (r : Result Settings)
    → (b ≡ false → Answers P r)
    → Answers P (if b then configuration message else r)
refuse_if true message r h = refuses message refl
refuse_if false message r h = h refl

text_ne : (a b : Text) → (a == b) ≡ false → a ≢ b
text_ne a b h e = let same = (==_iff a b).1 e in cc

credentials-Answers :
    (p : Provider) (s : Settings) → Answers (λ t. (t ≡ s) × HasCredentials p s) (credentials p s)
credentials-Answers mock s = accepts s refl (refl, tt)
credentials-Answers openai s =
    refuse_if (s.openai_api_key == []) _ (ok s) λ h. accepts s refl (refl, text_ne _ _ h)
credentials-Answers anthropic s =
    refuse_if (s.anthropic_api_key == []) _ (ok s) λ h. accepts s refl (refl, text_ne _ _ h)

-- The rules of an environment change nothing but an empty key.
abbrev Ruled : AppEnv → Settings → Settings → Type 0
Ruled env s t =
    (t.audit_hmac_key ≢ [])
    × IsStrong env t
    × (t.app_env ≡ s.app_env)
    × (t.score_threshold ≡ s.score_threshold)
    × (t.provider_timeout_seconds ≡ s.provider_timeout_seconds)

production-Answers : (s : Settings) → Answers (Ruled production s) (production_rules s)
unfolding production_rules
production-Answers s = refuse_if (s.audit_hmac_key == []) _ _ λ keyed.
    refuse_if (s.audit_hmac_key == insecure_dev_key) _ _ λ own.
      refuse_if (ltb (length s.audit_hmac_key) min_hmac_key_length) _ _
        λ long. with_credentials keyed own (ground arith) (credentials-Answers s.provider s)
  where
    with_credentials :
        (s.audit_hmac_key == []) ≡ false
        → (s.audit_hmac_key == insecure_dev_key) ≡ false
        → min_hmac_key_length ≤ length s.audit_hmac_key
        → Answers (λ t. (t ≡ s) × HasCredentials s.provider s) (credentials s.provider s)
        → Answers (Ruled production s) (credentials s.provider s)
    with_credentials keyed own long (refuses message e) = refuses message e
    with_credentials keyed own long (accepts t e (same, h)) =
        accepts s (e ∙ ap ok same) (text_ne _ _ keyed, (text_ne _ _ own, long, h), refl, refl, refl)

dev_key-Ruled :
    (env : AppEnv) (s : Settings) → ((t : Settings) → IsStrong env t) → Ruled env s (with_dev_key s)
unfolding with_dev_key
dev_key-Ruled env s weak = elim (Bool-cases (s.audit_hmac_key == [])) [
  | inl empty ↦ rw empty (ground arith, weak _, refl, refl, refl)
  | inr keyed ↦ rw keyed (text_ne _ _ keyed, weak _, refl, refl, refl)
]

rules-Answers : (env : AppEnv) (s : Settings) → Answers (Ruled env s) (rules_for env s)
rules-Answers production s = production-Answers s
rules-Answers development s = accepts _ refl (dev_key-Ruled development s (λ t. tt))
rules-Answers test s = accepts _ refl (dev_key-Ruled test s (λ t. tt))

range_tests :
    (py : Pydantic) (s : Settings)
    → range_errors py s ≡ []
    → (score_in_range py s ≡ true) × (timeout_in_range py s ≡ true)
unfolding range_errors
range_tests py s e = elim (Bool-cases (score_in_range py s)) [
  | inl score ↦ elim (Bool-cases (timeout_in_range py s)) [
    | inl timeout ↦ (score, timeout)
    | inr late ↦ let e' = rw (score, late) at e in cc
  ]
  | inr low ↦ let e' = rw low at e in cc
]

score_lem :
    (py : Pydantic) (x : AnyFloat) → (not_below_zero py x && at_most py x 1) ≡ true → IsScore py x
unfolding not_below_zero at_most
score_lem py (finite_float x) h = ground arith
score_lem py (infinite_float true) h = cc
score_lem py (infinite_float false) h = cc
score_lem py nan_float h = ground arith

timeout_lem :
    (py : Pydantic) (x : AnyFloat) → (above_zero py x && at_most py x 600) ≡ true → IsTimeout py x
unfolding above_zero at_most
timeout_lem py (finite_float x) h = ground arith
timeout_lem py (infinite_float true) h = cc
timeout_lem py (infinite_float false) h = cc
timeout_lem py nan_float h = ground arith

rules-IsSafe :
    (py : Pydantic) (s : Settings) {r : Result Settings}
    → score_in_range py s ≡ true
    → timeout_in_range py s ≡ true
    → Answers (Ruled s.app_env s) r
    → Answers (IsSafe py) r
unfolding score_in_range timeout_in_range
rules-IsSafe py s score timeout (refuses message e) = refuses message e
rules-IsSafe py s score timeout (accepts t e (keyed, strong, env, same_score, same_timeout)) =
    accepts t e (record {
      keyed = keyed;
      strong = subst (λ v. IsStrong v t) (sym env) strong;
      score = subst (IsScore py) (sym same_score) (score_lem py s.score_threshold score);
      timeout =
          subst (IsTimeout py) (sym same_timeout)
            (timeout_lem py s.provider_timeout_seconds timeout);
    })

validated-Answers :
    (py : Pydantic) (errors : List Text) (s : Settings)
    → range_errors py s ≡ errors
    → Answers (IsSafe py) (or_validation_error errors s)
unfolding enforce_security_rules
validated-Answers py (f ∷ fs) s e = refuses _ refl
validated-Answers py [] s e =
    let (score, timeout) = range_tests py s e in
    rules-IsSafe py s score timeout (rules-Answers s.app_env s)

-- What load makes of a parsed input.
abbrev Loads : Pydantic → Parsed → Result Settings → Type 0
Loads py p r =
    ((s : Settings) × (r ≡ ok s) × IsSafe py s)
    ⊎ (((message : Text) × (r ≡ raise (gateway (configuration_error (some message)))))
        ⊎ ((x : Exception) × (p ≡ unread x) × (r ≡ raise x)))

Loads-sum :
    {py : Pydantic} {p : Parsed} {r : Result Settings} → Answers (IsSafe py) r → Loads py p r
Loads-sum (accepts s e safe) = inl (s, e, safe)
Loads-sum (refuses message e) = inr (inl (message, e))

parsed-Loads :
    (py : Pydantic) (p : Parsed)
    → Loads py p (elim p [
      | unparsed fields ↦ configuration (invalid_fields fields)
      | parsed s ↦ or_validation_error (range_errors py s) s
      | unread x ↦ raise x
    ])
parsed-Loads py (unparsed fields) = inr (inl (_, refl))
parsed-Loads py (parsed s) = Loads-sum (validated-Answers py (range_errors py s) s refl)
parsed-Loads py (unread x) = inr (inr (x, refl, refl))

-- Settings.load returns safe settings, or raises ConfigurationError, or raises the exception, no
-- ValidationError, that reading the input raised. Safe settings have an HMAC key, a score threshold
-- from 0 to 1 and a timeout above 0 and up to 600 seconds, or NaN in their place if pydantic's
-- comparisons let NaN pass; in production the key is not the public one and has 32 characters or
-- more, and the key for the chosen provider is there.
pub load-Answers :
    {I : Type 0} (parse : I → Parsed) (py : Pydantic) (input : I)
    → ((s : Settings) × (load parse py input ≡ ok s) × IsSafe py s)
      ⊎ (((message : Text) × (load parse py input
              ≡ raise (gateway (configuration_error (some message)))))
          ⊎ ((x : Exception) × (parse input ≡ unread x) × (load parse py input ≡ raise x)))
unfolding load
load-Answers parse py input = parsed-Loads py (parse input)
