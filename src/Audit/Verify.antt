-- ===== src/Audit/Verify.antt =====
-- AuditLogger.verify_chain and verify_with_store of gateway/audit_logger.py.
use privacy_gateway_llm_appl.Prelude.{
  ℕ, ◌+◌, Text, List, [], ◌∷◌, Option, none, some, Bool, true, false, not, ◌==◌, nat_eq, text_eq,
  lookup, insert, if◌then◌else◌,
}
use privacy_gateway_llm_appl.Errors.{Result, ok, ◌>>=◌}
use privacy_gateway_llm_appl.Checkpoint.{AuditCheckpoint}
use privacy_gateway_llm_appl.Audit.{
  AuditLogger, Row, genesis_hash, compute_record_hash, mac, compare_digest,
}

-- class ChainStatus(StrEnum)
pub data ChainStatus : Type 0 where
  valid invalid empty unverifiable_against_external_checkpoint : ChainStatus

-- The texts of `reason`, with the numbers that they show.
pub data Reason : Type 0 where
  log_is_empty : Reason
  breaks_sequence : (record_id expected : ℕ) → Reason
  prev_hash_mismatch record_hash_mismatch mac_invalid : Reason
  checkpoint_record_missing : ℕ → Reason
  checkpoint_mac_mismatch : Reason
  checkpoint_stale : (last_record_id latest_id : ℕ) → Reason
  no_external_checkpoint : Reason

-- @dataclass ChainVerificationResult
pub record ChainVerificationResult : Type 0 where
  pub status : ChainStatus
  pub entries_checked : ℕ
  pub first_invalid_id : Option ℕ
  pub reason : Option Reason
  pub tail_verified : Bool

abbrev pub invalid_at : ℕ → Option ℕ → Reason → ChainVerificationResult
invalid_at checked first why = record {
  status = invalid;
  entries_checked = checked;
  first_invalid_id = first;
  reason = some why;
  tail_verified = false;
}

abbrev pub valid_with : ℕ → Option Reason → Bool → ChainVerificationResult
valid_with checked why tail = record {
  status = valid;
  entries_checked = checked;
  first_invalid_id = none;
  reason = why;
  tail_verified = tail;
}

abbrev pub empty_log : ChainVerificationResult
empty_log = record {
  status = empty;
  entries_checked = 0;
  first_invalid_id = none;
  reason = none;
  tail_verified = false;
}

abbrev pub unverifiable : ℕ → ChainVerificationResult
unverifiable checked = record {
  status = unverifiable_against_external_checkpoint;
  entries_checked = checked;
  first_invalid_id = none;
  reason = some no_external_checkpoint;
  tail_verified = false;
}

-- How the loop over the rows ends: by an early return, or with `checked` and `macs_by_id`.
pub data Walk : Type 0 where
  stopped : ChainVerificationResult → Walk
  finished : ℕ → List (ℕ × Text) → Walk

abbrev pub last_id : ℕ → List Row → ℕ
last_id i [] = i
last_id i (r ∷ rows) = last_id r.id rows

module _ {P : Type 0} (log : AuditLogger P) where
  -- the last test of the loop's body, on the outcome of compare_digest
  abbrev after_mac : ℕ → ℕ → Result Walk → Bool → Result Walk
  after_mac checked record_id rest matches =
      if not matches then ok (stopped (invalid_at checked (some record_id) mac_invalid)) else rest

  -- the loop, with its variables checked, expected_prev, expected_id and macs_by_id
  unfoldable pub walk : List Row → ℕ → Text → ℕ → List (ℕ × Text) → Result Walk
  walk [] checked expected_prev expected_id macs = ok (finished checked macs)
  walk (r ∷ rows) checked expected_prev expected_id macs =
      let rest =
        walk rows (checked + 1) r.record_hash (expected_id + 1) (insert r.id r.record_mac macs) in
      if not (r.id == expected_id)
      then ok (stopped (invalid_at (checked + 1) (some r.id) (breaks_sequence r.id expected_id)))
      else if not (r.prev_hash == expected_prev)
      then ok (stopped (invalid_at (checked + 1) (some r.id) prev_hash_mismatch))
      else if not (
          compute_record_hash log r.id r.schema_version r.timestamp r.payload r.prev_hash
          == r.record_hash)
      then ok (stopped (invalid_at (checked + 1) (some r.id) record_hash_mismatch))
      else compare_digest (mac log r.record_hash) r.record_mac >>= λ matches.
          after_mac (checked + 1) r.id rest matches

  -- the tests after the loop
  abbrev after_checkpoint_mac : ℕ → ℕ → ℕ → Bool → ChainVerificationResult
  after_checkpoint_mac checked latest_id k matches =
      if not matches
      then invalid_at checked (some k) checkpoint_mac_mismatch
      else if not (k == latest_id)
      then valid_with checked (some (checkpoint_stale k latest_id)) false
      else valid_with checked none true

  abbrev against_mac : ℕ → ℕ → AuditCheckpoint → Option Text → Result ChainVerificationResult
  against_mac checked latest_id cp none =
      ok (invalid_at checked none (checkpoint_record_missing cp.last_record_id))
  against_mac checked latest_id cp (some expected_mac) =
      compare_digest expected_mac cp.last_record_mac >>= λ matches.
      ok (after_checkpoint_mac checked latest_id cp.last_record_id matches)

  unfoldable pub conclude : Option AuditCheckpoint → ℕ → Walk → Result ChainVerificationResult
  conclude cp latest_id (stopped result) = ok result
  conclude none latest_id (finished checked macs) = ok (valid_with checked none false)
  conclude (some cp) latest_id (finished checked macs) =
      against_mac checked latest_id cp (lookup cp.last_record_id macs)

  unfoldable pub verify_chain : Option AuditCheckpoint → List Row → Result ChainVerificationResult
  verify_chain none [] = ok empty_log
  verify_chain (some cp) [] = ok (invalid_at 0 none log_is_empty)
  verify_chain cp (r ∷ rows) =
      walk (r ∷ rows) 0 genesis_hash 1 [] >>= λ w. conclude cp (last_id r.id rows) w

  -- a valid chain is reported as unverifiable where the store has no checkpoint
  abbrev without_checkpoint : ChainVerificationResult → ChainVerificationResult
  without_checkpoint result = elim result.status [
    | valid ↦ unverifiable result.entries_checked
    | _ ↦ result
  ]

  abbrev with_loaded : List Row → Option AuditCheckpoint → Result ChainVerificationResult
  with_loaded rows none = verify_chain none rows >>= λ result. ok (without_checkpoint result)
  with_loaded rows (some cp) = verify_chain (some cp) rows

  -- `store` is None, or the outcome of store.load()
  unfoldable pub verify_with_store :
      Option (Result (Option AuditCheckpoint)) → List Row → Result ChainVerificationResult
  verify_with_store none rows = verify_chain none rows
  verify_with_store (some loaded) rows = loaded >>= λ cp. with_loaded rows cp
