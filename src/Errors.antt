-- ===== src/Errors.antt =====
-- gateway/errors.py and the two error classes of gateway/gateway_api.py: the safe error codes, the
-- typed exceptions with their class attributes, and how Python's exceptions are passed as values.
use privacy_gateway_llm_appl.Prelude.{
  ℕ, Text, codes, List, Option, none, some, Bool, true, false, ◌≡◌, ◌⊎◌, inl, inr, refl,
}

-- class ErrorCode(StrEnum)
pub data ErrorCode : Type 0 where
  policy_blocked provider_timeout provider_auth provider_response : ErrorCode
  detector_failure response_scan_failure audit_write config_invalid : ErrorCode

-- The strings of the enumeration.
unfoldable pub error_code_value : ErrorCode → Text
error_code_value policy_blocked = codes "PGW-POLICY-BLOCKED"
error_code_value provider_timeout = codes "PGW-PROVIDER-TIMEOUT"
error_code_value provider_auth = codes "PGW-PROVIDER-AUTH"
error_code_value provider_response = codes "PGW-PROVIDER-RESPONSE"
error_code_value detector_failure = codes "PGW-DETECTOR-FAILURE"
error_code_value response_scan_failure = codes "PGW-RESPONSE-SCAN-FAILURE"
error_code_value audit_write = codes "PGW-AUDIT-WRITE"
error_code_value config_invalid = codes "PGW-CONFIG-INVALID"

-- GatewayError and its subclasses. The payload of `policy_blocked_error` is `blocked_entity_types`,
-- that of `configuration_error` the overriding message.
pub data GatewayError : Type 0 where
  gateway_error : Option Text → GatewayError
  policy_blocked_error : List Text → GatewayError
  provider_timeout_error provider_auth_error provider_response_error : GatewayError
  detector_failure_error response_scan_failure_error audit_write_error : GatewayError
  configuration_error : Option Text → GatewayError
  admin_disabled_error admin_unauthorized_error : GatewayError

-- exc.code
unfoldable pub error_code : GatewayError → ErrorCode
error_code (gateway_error m) = config_invalid
error_code (policy_blocked_error ts) = policy_blocked
error_code provider_timeout_error = provider_timeout
error_code provider_auth_error = provider_auth
error_code provider_response_error = provider_response
error_code detector_failure_error = detector_failure
error_code response_scan_failure_error = response_scan_failure
error_code audit_write_error = audit_write
error_code (configuration_error m) = config_invalid
error_code admin_disabled_error = config_invalid
error_code admin_unauthorized_error = config_invalid

-- exc.http_status
unfoldable pub http_status : GatewayError → ℕ
http_status (gateway_error m) = 500
http_status (policy_blocked_error ts) = 400
http_status provider_timeout_error = 504
http_status provider_auth_error = 502
http_status provider_response_error = 502
http_status detector_failure_error = 500
http_status response_scan_failure_error = 500
http_status audit_write_error = 500
http_status (configuration_error m) = 500
http_status admin_disabled_error = 403
http_status admin_unauthorized_error = 401

-- `safe_message`, overridden only where the constructor was given a message.
abbrev override : Option Text → Text → Text
override none fixed = fixed
override (some m) fixed = m

unfoldable pub safe_message : GatewayError → Text
safe_message (gateway_error m) = override m (codes "Internal gateway error.")
safe_message (policy_blocked_error ts) =
    codes "The request was blocked by the configured privacy policy."
safe_message provider_timeout_error = codes "The LLM provider did not respond in time."
safe_message provider_auth_error = codes "Authentication with the LLM provider failed."
safe_message provider_response_error = codes "The LLM provider returned an unusable response."
safe_message detector_failure_error =
    codes "Privacy mediation failed; the request was not sent to the provider."
safe_message response_scan_failure_error =
    codes
      "Privacy scanning of the provider response failed; the response was not returned to the client."
safe_message audit_write_error = codes "The audit record could not be written."
safe_message (configuration_error m) = override m (codes "The gateway configuration is invalid.")
safe_message admin_disabled_error =
    codes "Audit endpoints are disabled (no administrative API key is configured)."
safe_message admin_unauthorized_error = codes "Invalid or missing administrative credential."

-- The exceptions that the code raises, catches or lets through.
pub data Exception : Type 0 where
  gateway : GatewayError → Exception
  file_not_found os_error value_error key_error type_error index_error : Exception
  attribute_error runtime_error operational_error overflow_error : Exception
  request_validation_error other_error : Exception

-- A call that may raise.
pub data Result {ℓ} (A : Type ℓ) : Type ℓ where
  ok : A → Result A
  raise : Exception → Result A

infixl 5 ◌>>=◌
abbrev pub ◌>>=◌ {ℓ κ} : {A : Type ℓ} {B : Type κ} → Result A → (A → Result B) → Result B
ok a >>= f = f a
raise x >>= f = raise x

pub Result-cases {ℓ} :
    {A : Type ℓ} (r : Result A) → ((a : A) × (r ≡ ok a)) ⊎ ((x : Exception) × (r ≡ raise x))
Result-cases (ok a) = inl (a, refl)
Result-cases (raise x) = inr (x, refl)

pub ok-injective {ℓ} : {A : Type ℓ} {a b : A} → ok a ≡ ok b → a ≡ b
ok-injective {a} {b} e = cc

pub raise-ne-ok {ℓ} : {A : Type ℓ} {a : A} {x : Exception} → ¬ (◌≡◌ {A = Result A} (raise x) (ok a))
raise-ne-ok e = cc

-- What a chain that returned has gone through.
pub bind_ok {ℓ κ} :
    {A : Type ℓ} {B : Type κ} (r : Result A) (f : A → Result B) {b : B}
    → (r >>= f) ≡ ok b
    → (a : A) × (r ≡ ok a) × (f a ≡ ok b)
bind_ok (ok a) f e = (a, refl, e)
bind_ok (raise x) f e = elim (raise-ne-ok e) [ ]

-- except OSError, which FileNotFoundError is a subclass of
unfoldable pub is_os_error : Exception → Bool
is_os_error file_not_found = true
is_os_error os_error = true
is_os_error _ = false
