-- ===== src/Audit/Append.antt =====
-- AuditLogger.append and _append_once of gateway/audit_logger.py. What SQLite and the checkpoint
-- store do at each attempt is given by an `AppendEnv`: a transaction commits, or raises and is
-- rolled back, so that the table is as before.
use privacy_gateway_llm_appl.Prelude.{
  ℕ, zero, suc, ◌+◌, Text, List, [], ◌∷◌, ◌++◌, Option, none, some, Bool, if◌then◌else◌,
}
use privacy_gateway_llm_appl.Errors.{
  Exception, gateway, operational_error, is_os_error, audit_write_error, Result, ok, raise,
}
use privacy_gateway_llm_appl.Checkpoint.{AuditCheckpoint, checkpoint_version}
use privacy_gateway_llm_appl.Audit.{
  AuditLogger, Row, AuditRecord, AuditState, genesis_hash, audit_schema_version,
  compute_record_hash, mac, last_row,
}

-- One transaction: the time that it reads, and the exception that the database raises, if any.
pub record Attempt : Type 0 where
  pub now : Text
  pub failure : Option Exception

-- All that the surroundings decide about one call of `append`.
pub record AppendEnv : Type 0 where
  pub attempt : ℕ → Attempt
  pub saved_at : Text
  pub save_failure : Option Exception

abbrev pub append_retries : ℕ
append_retries = 5

-- next_id and prev_hash from the newest row
unfoldable pub next_link : Option Row → ℕ × Text
next_link none = (1, genesis_hash)
next_link (some r) = (r.id + 1, r.record_hash)

module _ {P : Type 0} (log : AuditLogger P) where
  unfoldable pub new_row : Text → Text → ℕ × Text → Row
  new_row timestamp payload_json (next_id, prev_hash) =
      let record_hash =
        compute_record_hash log next_id audit_schema_version timestamp payload_json prev_hash in
      record {
        id = next_id;
        schema_version = audit_schema_version;
        timestamp = timestamp;
        payload = payload_json;
        prev_hash = prev_hash;
        record_hash = record_hash;
        record_mac = mac log record_hash;
      }

  abbrev pub record_of : P → Row → AuditRecord P
  record_of payload r = record {
    id = r.id;
    schema_version = r.schema_version;
    timestamp = r.timestamp;
    payload = payload;
    prev_hash = r.prev_hash;
    record_hash = r.record_hash;
    record_mac = r.record_mac;
  }

  abbrev pub commit : Option Exception → P → Row → List Row → Result (AuditRecord P) × List Row
  commit none payload r rows = (ok (record_of payload r), rows ++ r ∷ [])
  commit (some x) payload r rows = (raise x, rows)

  unfoldable pub append_once : Attempt → Text → P → List Row → Result (AuditRecord P) × List Row
  append_once attempt payload_json payload rows =
      commit attempt.failure payload (new_row attempt.now payload_json (next_link (last_row rows)))
        rows

  -- `except sqlite3.OperationalError`: anything else leaves the loop.
  abbrev pub or_retry :
      Result (AuditRecord P) × List Row
      → Result (AuditRecord P) × List Row
      → Result (AuditRecord P) × List Row
  or_retry (raise operational_error, _) again = again
  or_retry done again = done

  -- The attempts from number `k` on, `n` of them; the `else` of the loop when they are used up.
  unfoldable pub append_attempts :
      ℕ → ℕ → (ℕ → Attempt) → Text → P → List Row → Result (AuditRecord P) × List Row
  append_attempts zero k attempt payload_json payload rows =
      (raise (gateway audit_write_error), rows)
  append_attempts (suc n) k attempt payload_json payload rows =
      let again = append_attempts n (suc k) attempt payload_json payload rows in
      or_retry (append_once (attempt k) payload_json payload rows) again

  abbrev pub checkpoint_for : Text → AuditRecord P → AuditCheckpoint
  checkpoint_for now r = record {
    last_record_id = r.id;
    last_record_mac = r.record_mac;
    created_at = now;
    version = checkpoint_version;
  }

  abbrev pub save_checkpoint :
      Bool → AppendEnv → AuditRecord P → AuditState → Result (AuditRecord P) × AuditState
  save_checkpoint Bool.false env r s = (ok r, s)
  save_checkpoint Bool.true env r s = elim env.save_failure [
    | none ↦ (ok r, record s { checkpoint = some (checkpoint_for env.saved_at r) })
    | some x ↦ (raise (if is_os_error x then gateway audit_write_error else x), s)
  ]

  abbrev pub after_attempts :
      AppendEnv
      → Option AuditCheckpoint
      → Result (AuditRecord P) × List Row
      → Result (AuditRecord P) × AuditState
  after_attempts env checkpoint (ok r, rows) =
      save_checkpoint log.has_checkpoint_store env r
        (record { rows = rows; checkpoint = checkpoint })
  after_attempts env checkpoint (raise x, rows) =
      (raise x, record { rows = rows; checkpoint = checkpoint })

  unfoldable pub append : AppendEnv → P → AuditState → Result (AuditRecord P) × AuditState
  append env payload s =
      after_attempts env s.checkpoint
        (append_attempts append_retries 0 env.attempt (log.dumps payload) payload s.rows)
