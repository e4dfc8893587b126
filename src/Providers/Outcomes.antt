-- ===== src/Providers/Outcomes.antt =====
-- The outcomes of a call of gateway/llm_client.py: a response, one of three typed errors, or the
-- OverflowError that `int` raises for the JSON value Infinity.
use privacy_gateway_llm_appl.Prelude.{ℕ, nat_eq, text_eq}
use privacy_gateway_llm_appl.Errors.{
  Exception, gateway, value_error, overflow_error, provider_timeout_error, provider_auth_error,
  provider_response_error, ok, raise,
}
use privacy_gateway_llm_appl.Json.{Json}
use privacy_gateway_llm_appl.Providers.{HttpOutcome, timeout_exception, http_error, response}

-- The errors that leave an adapter.
pub data IsProviderFailure : Exception → Type 0 where
  late : IsProviderFailure (gateway provider_timeout_error)
  refused : IsProviderFailure (gateway provider_auth_error)
  unusable : IsProviderFailure (gateway provider_response_error)
  overflow : IsProviderFailure overflow_error

-- What httpx documents: post raises TimeoutException or another HTTPError, and json() ValueError.
pub data IsDocumented : HttpOutcome → Type 0 where
  a_timeout : IsDocumented timeout_exception
  an_http_error : IsDocumented http_error
  a_body : (status : ℕ) (j : Json) → IsDocumented (response status (ok j))
  no_json : (status : ℕ) → IsDocumented (response status (raise value_error))
