-- ===== src/Gateway/Admin.antt =====
-- The endpoints of gateway/gateway_api.py for the audit log, behind require_admin. FastAPI calls the
-- dependency before it reports query parameters that are out of range.
use privacy_gateway_llm_appl.Prelude.{
  ℕ, ℤ, pos, negsuc, Text, codes, str, List, [], ◌∷◌, ◌++◌, Option, none, some, Bool, true, false,
  ◌&&◌, leb, text_eq, nat_eq, ◌==◌, if◌then◌else◌, map,
}
use privacy_gateway_llm_appl.Errors.{
  Exception, gateway, request_validation_error, admin_disabled_error, admin_unauthorized_error,
  Result, ok, raise, ◌>>=◌,
}
use privacy_gateway_llm_appl.Checkpoint.{AuditCheckpoint}
use privacy_gateway_llm_appl.Audit.{AuditLogger, AuditRecord, Row, entries, count}
use privacy_gateway_llm_appl.Audit.Verify.{
  ChainStatus, valid, invalid, empty, unverifiable_against_external_checkpoint, Reason,
  log_is_empty, breaks_sequence, prev_hash_mismatch, record_hash_mismatch, mac_invalid,
  checkpoint_record_missing, checkpoint_mac_mismatch, checkpoint_stale, no_external_checkpoint,
  ChainVerificationResult, verify_with_store,
}
use privacy_gateway_llm_appl.Gateway.{AuditPayload}

-- hmac.compare_digest of two texts in UTF-8, of which `encode` gives the bytes
abbrev same_bytes : (Text → Result Text) → Text → Text → Result Bool
same_bytes encode a b = encode a >>= λ x. encode b >>= λ y. ok (x == y)

abbrev header_or_empty : Option Text → Text
header_or_empty none = []
header_or_empty (some t) = t

abbrev pub if_authorized : Bool → Result {0} Unit
if_authorized true = ok tt
if_authorized false = raise (gateway admin_unauthorized_error)

-- require_admin, with the configured key and the header X-Admin-Api-Key, if it was sent
unfoldable pub require_admin : (Text → Result Text) → Text → Option Text → Result {0} Unit
require_admin encode [] header = raise (gateway admin_disabled_error)
require_admin encode (c ∷ configured) header =
    same_bytes encode (header_or_empty header) (c ∷ configured) >>= if_authorized

-- Query(ge=low, le=high) and Query(ge=0), with the default of a parameter that was not sent
unfoldable pub limit_parameter : Option ℤ → Result ℕ
limit_parameter none = ok 50
limit_parameter (some (pos n)) =
    if leb 1 n && leb n 200 then ok n else raise request_validation_error
limit_parameter (some (negsuc n)) = raise request_validation_error

unfoldable pub offset_parameter : Option ℤ → Result ℕ
offset_parameter none = ok 0
offset_parameter (some (pos n)) = ok n
offset_parameter (some (negsuc n)) = raise request_validation_error

-- An element of `records`: the hash of a record is not shown.
pub record ShownRecord : Type 0 where
  pub id : ℕ
  pub schema_version : ℕ
  pub timestamp : Text
  pub payload : AuditPayload
  pub prev_hash : Text
  pub record_mac : Text

pub record AuditPage : Type 0 where
  pub total : ℕ
  pub limit : ℕ
  pub offset : ℕ
  pub records : List ShownRecord

-- The payload without the key "redacted_messages".
abbrev pub shown : AuditRecord AuditPayload → ShownRecord
shown r = record {
  id = r.id;
  schema_version = r.schema_version;
  timestamp = r.timestamp;
  payload = record r.payload { redacted_messages = none };
  prev_hash = r.prev_hash;
  record_mac = r.record_mac;
}

-- A database call, with what it raises if it fails.
abbrev pub unless_raised {ℓ} : {A : Type ℓ} → Option Exception → Result A → Result A
unless_raised none r = r
unless_raised (some x) r = raise x

-- A request of an audit endpoint: the key of the settings, the header, and how the two queries end.
pub record AdminRequest : Type 0 where
  pub encode : Text → Result Text
  pub configured : Text
  pub header : Option Text
  pub entries_failure : Option Exception
  pub count_failure : Option Exception

-- The body of audit_entries. `counted` are the rows when audit.count() runs, later than entries().
unfoldable pub page_of :
    AuditLogger AuditPayload → AdminRequest → ℕ → ℕ → List Row → List Row → Result AuditPage
page_of log request limit offset rows counted = do
  records ← unless_raised request.entries_failure (entries log (some limit) offset rows)
  total ← unless_raised request.count_failure (ok (count counted))
  ok (record { total = total; limit = limit; offset = offset; records = map shown records })

-- GET /v1/audit/entries
unfoldable pub audit_entries :
    AuditLogger AuditPayload
    → AdminRequest
    → Option ℤ
    → Option ℤ
    → List Row
    → List Row
    → Result AuditPage
audit_entries log request limit_in offset_in rows counted =
    require_admin request.encode request.configured request.header >>= λ authorized.
    limit_parameter limit_in >>= λ limit.
    offset_parameter offset_in >>= λ offset. page_of log request limit offset rows counted

unfoldable pub status_value : ChainStatus → Text
status_value valid = codes "valid"
status_value invalid = codes "invalid"
status_value empty = codes "empty"
status_value unverifiable_against_external_checkpoint =
    codes "unverifiable_against_external_checkpoint"

-- result.reason
unfoldable pub reason_text : Reason → Text
reason_text log_is_empty =
    codes
      "the external checkpoint expects records, but the log is empty (complete deletion or replacement)"
reason_text (breaks_sequence record_id expected) =
    codes "record id "
    ++ str record_id
    ++ codes " breaks the sequence (expected "
    ++ str expected
    ++ codes "): a record was deleted, duplicated, or renumbered"
reason_text prev_hash_mismatch =
    codes
      "prev_hash does not match the previous record's hash: chain linkage broken (edit, reorder, or deletion upstream)"
reason_text record_hash_mismatch =
    codes "stored record_hash does not match the recomputed hash: record content was modified"
reason_text mac_invalid = codes "record MAC invalid: the record was re-hashed without the audit key"
reason_text (checkpoint_record_missing id) =
    codes "the external checkpoint expects record "
    ++ str id
    ++ codes ", which is missing (tail deletion or database rollback)"
reason_text checkpoint_mac_mismatch =
    codes
      "the record named by the external checkpoint has a different MAC (rewritten history or checkpoint mismatch)"
reason_text (checkpoint_stale last latest) =
    codes "the external checkpoint verifies history through record "
    ++ str last
    ++ codes ", but the current tail is record "
    ++ str latest
    ++ codes "; the checkpoint is stale and does not verify the current tail"
reason_text no_external_checkpoint =
    codes
      "internal chain is consistent, but no external checkpoint exists to verify the tail against"

-- The dict of audit_verify.
pub record Verification : Type 0 where
  pub status : Text
  pub entries_checked : ℕ
  pub first_invalid_id : Option ℕ
  pub reason : Option Text
  pub tail_verified : Bool

abbrev reason_or_none : Option Reason → Option Text
reason_or_none none = none
reason_or_none (some why) = some (reason_text why)

abbrev pub verification_of : ChainVerificationResult → Verification
verification_of result = record {
  status = status_value result.status;
  entries_checked = result.entries_checked;
  first_invalid_id = result.first_invalid_id;
  reason = reason_or_none result.reason;
  tail_verified = result.tail_verified;
}

-- GET /v1/audit/verify
unfoldable pub audit_verify :
    AuditLogger AuditPayload
    → AdminRequest
    → Option (Result (Option AuditCheckpoint))
    → List Row
    → Result Verification
audit_verify log request store rows =
    require_admin request.encode request.configured request.header >>= λ authorized.
    verify_with_store log store rows >>= λ result. ok (verification_of result)
