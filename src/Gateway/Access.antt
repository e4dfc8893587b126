-- ===== src/Gateway/Access.antt =====
-- Who gets an answer of the audit endpoints of gateway/gateway_api.py.
use privacy_gateway_llm_appl.Prelude.{
  ℤ, Text, [], ◌∷◌, Option, none, some, Bool, true, false, ◌≡◌, ◌≢◌, refl, ap, ◌∙◌, text_eq, ==_iff,
  List,
}
use privacy_gateway_llm_appl.Errors.{Result, ok, bind_ok, raise-ne-ok, ok-injective}
use privacy_gateway_llm_appl.Checkpoint.{AuditCheckpoint}
use privacy_gateway_llm_appl.Audit.{AuditLogger, Row}
use privacy_gateway_llm_appl.Gateway.{AuditPayload}
use privacy_gateway_llm_appl.Gateway.Admin.{
  require_admin, if_authorized, AdminRequest, AuditPage, audit_entries, Verification, audit_verify,
}

-- A key is configured, and the request has a header with exactly that key.
abbrev pub HasKey : AdminRequest → Type 0
HasKey request = (request.configured ≢ []) × (request.header ≡ some request.configured)

-- Different texts have different encodings.
abbrev pub IsEncoding : (Text → Result Text) → Type 0
IsEncoding encode = (a b x : Text) → encode a ≡ ok x → encode b ≡ ok x → a ≡ b

authorized : (b : Bool) → if_authorized b ≡ ok tt → b ≡ true
authorized true e = refl
authorized false e = elim (raise-ne-ok e) [ ]

require_admin-key :
    (encode : Text → Result Text) (configured : Text) (header : Option Text)
    → IsEncoding encode
    → require_admin encode configured header ≡ ok tt
    → (configured ≢ []) × (header ≡ some configured)
unfolding require_admin
require_admin-key encode [] header injective e = elim (raise-ne-ok e) [ ]
require_admin-key encode (c ∷ configured) none injective e =
    let (b, compared, passed) = bind_ok _ if_authorized e in
    let (x, first, e₁) = bind_ok (encode []) _ compared in
    let (y, second, e₂) = bind_ok (encode (c ∷ configured)) _ e₁ in
    let same = (==_iff x y).0 (ok-injective e₂ ∙ authorized b passed) in
    let never = injective [] (c ∷ configured) y (first ∙ ap ok same) second in cc
require_admin-key encode (c ∷ configured) (some t) injective e =
    let (b, compared, passed) = bind_ok _ if_authorized e in
    let (x, first, e₁) = bind_ok (encode t) _ compared in
    let (y, second, e₂) = bind_ok (encode (c ∷ configured)) _ e₁ in
    let same = (==_iff x y).0 (ok-injective e₂ ∙ authorized b passed) in
    (λ n. cc, ap some (injective t (c ∷ configured) y (first ∙ ap ok same) second))

-- Neither audit endpoint answers a request unless an administrative key is configured and the request
-- carries exactly that key in its header, for an encoding that keeps different texts apart.
pub audit_endpoints_need_key :
    (log : AuditLogger AuditPayload) (request : AdminRequest)
    → IsEncoding request.encode
    → ((limit offset : Option ℤ) (rows counted : List Row) (page : AuditPage)
        → audit_entries log request limit offset rows counted ≡ ok page
        → HasKey request)
      × ((store : Option (Result (Option AuditCheckpoint))) (rows : List Row) (v : Verification)
          → audit_verify log request store rows ≡ ok v
          → HasKey request)
unfolding audit_entries audit_verify
audit_endpoints_need_key log request injective = (
  λ limit offset rows counted page e.
      require_admin-key request.encode request.configured request.header injective
        (bind_ok (require_admin request.encode request.configured request.header) _ e).1,
  λ store rows v e.
      require_admin-key request.encode request.configured request.header injective
        (bind_ok (require_admin request.encode request.configured request.header) _ e).1,
)
