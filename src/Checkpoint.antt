-- ===== src/Checkpoint.antt =====
-- gateway/checkpoint.py: the externally stored expectation about the tail of the audit log.
pub mod Store
pub mod Crashes
pub mod Examples
use privacy_gateway_llm_appl.Prelude.{ℕ, Text}

abbrev pub checkpoint_version : ℕ
checkpoint_version = 1

-- @dataclass AuditCheckpoint
pub record AuditCheckpoint : Type 0 where
  pub last_record_id : ℕ
  pub last_record_mac : Text
  pub created_at : Text
  pub version : ℕ
