-- ===== src/Gateway/Http.antt =====
-- The error handlers, the token-clearing middleware and the health endpoint of
-- gateway/gateway_api.py: what a client receives for a result of the chat handler.
use privacy_gateway_llm_appl.Prelude.{ℕ, Text, codes, List, [], ◌∷◌, ◌++◌, Option, none, some, map}
use privacy_gateway_llm_appl.Errors.{
  Exception, gateway, GatewayError, policy_blocked_error, error_code, error_code_value, http_status,
  safe_message, Result, ok, raise,
}
use privacy_gateway_llm_appl.Tokenization.{TokenizationContext, clear}
use privacy_gateway_llm_appl.Gateway.{ChatResponse}

-- An entry of exc.errors() of a RequestValidationError: `loc`, each part by `str`, and `msg`.
pub record ValidationProblem : Type 0 where
  pub loc : List Text
  pub msg : Text

-- An element of `details`.
pub record Detail : Type 0 where
  pub field : Text
  pub problem : Text

-- The dict that _error_body returns, below its key "error".
pub record ErrorBody : Type 0 where
  pub code : Text
  pub message : Text
  pub blocked_entity_types : Option (List Text)
  pub details : Option (List Detail)

abbrev pub error_body : Text → Text → ErrorBody
error_body code message = record {
  code = code;
  message = message;
  blocked_entity_types = none;
  details = none;
}

-- The status and the content of a JSONResponse.
pub record ErrorResponse : Type 0 where
  pub status_code : ℕ
  pub content : ErrorBody

-- _gateway_error_handler
unfoldable pub gateway_error_handler : GatewayError → ErrorResponse
gateway_error_handler (policy_blocked_error types) = record {
  status_code = http_status (policy_blocked_error types);
  content =
      record (error_body (codes "privacy_policy_blocked")
        (safe_message (policy_blocked_error types))) { blocked_entity_types = some types };
}
gateway_error_handler exc = record {
  status_code = http_status exc;
  content = error_body (error_code_value (error_code exc)) (safe_message exc);
}

-- ".".join(..)
abbrev join_dots : List Text → Text
join_dots [] = []
join_dots (t ∷ []) = t
join_dots (t ∷ u ∷ ts) = t ++ b'.' ∷ join_dots (u ∷ ts)

-- _validation_error_handler
unfoldable pub validation_error_handler : List ValidationProblem → ErrorResponse
validation_error_handler problems = record {
  status_code = 422;
  content =
      record (error_body (codes "request_invalid")
        (codes "The request is not valid for this limited OpenAI-style endpoint.")) {
          details = some (
              map (λ (p : ValidationProblem). record { field = join_dots p.loc; problem = p.msg })
                problems);
        };
}

-- What is sent for a result of the chat handler. An exception that is no GatewayError has no handler
-- here: the framework answers it.
pub data Reply : Type 0 where
  completion : ChatResponse → Reply
  failure : ErrorResponse → Reply
  unhandled : Exception → Reply

abbrev pub reply : Result ChatResponse → Reply
reply (ok response) = completion response
reply (raise (gateway e)) = failure (gateway_error_handler e)
reply (raise x) = unhandled x

abbrev pub reply_status : Reply → Option ℕ
reply_status (completion response) = some 200
reply_status (failure r) = some r.status_code
reply_status (unhandled x) = none

-- _clear_request_token_context, on the context that the handler registered
unfoldable pub clear_request_token_context : Option TokenizationContext → Option TokenizationContext
clear_request_token_context none = none
clear_request_token_context (some context) = some (clear context)
