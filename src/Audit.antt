-- ===== src/Audit.antt =====
-- gateway/audit_logger.py: the table of audit rows, the hash and MAC of a row, and the queries.
-- SHA-256, HMAC and JSON are fields of `Library`, so that nothing is assumed of them here. The table
-- is the list of its rows in the order of `id`, which is what every query of the code sorts by.
pub mod Append
pub mod Verify
pub mod Chain
pub mod Verdicts
pub mod Pinned
pub mod Tampering
pub mod Growth
pub mod Retries
pub mod Concurrent
pub mod Recovery
pub mod History
pub mod Examples
use privacy_gateway_llm_appl.Prelude.{
  ℕ, zero, suc, ◌+◌, Text, codes, str, List, [], ◌∷◌, ◌++◌, Option, none, some, Bool, ltb, ◌==◌,
  ◌&&◌, text_eq, length, take, drop, if◌then◌else◌,
}
use privacy_gateway_llm_appl.Errors.{Result, ok, raise, type_error, ◌>>=◌}
use privacy_gateway_llm_appl.Checkpoint.{AuditCheckpoint, checkpoint_version}

-- What the logger calls: hashlib.sha256(..).hexdigest(), hmac.new(key, .., sha256).hexdigest(), and
-- the JSON encoder and decoder of a payload.
pub record Library (P : Type 0) : Type 0 where
  pub sha256_hex : Text → Text
  pub hmac_hex : Text → Text → Text
  pub dumps : P → Text
  pub loads : Text → Result P

-- The attributes of an `AuditLogger`: its key, and whether `_checkpoint_store` is set.
pub record AuditLogger (P : Type 0) : Type 0 where
  pub lib : Library P
  pub open lib use *
  pub hmac_key : Text
  pub has_checkpoint_store : Bool

-- A row of the table `audit_log`.
pub record Row : Type 0 where
  pub id : ℕ
  pub schema_version : ℕ
  pub timestamp : Text
  pub payload : Text
  pub prev_hash : Text
  pub record_hash : Text
  pub record_mac : Text

-- @dataclass AuditRecord: a row with its payload decoded.
pub record AuditRecord (P : Type 0) : Type 0 where
  pub id : ℕ
  pub schema_version : ℕ
  pub timestamp : Text
  pub payload : P
  pub prev_hash : Text
  pub record_hash : Text
  pub record_mac : Text

-- The database table and the checkpoint store, which several logger instances share.
pub record AuditState : Type 0 where
  pub rows : List Row
  pub checkpoint : Option AuditCheckpoint

-- GENESIS_HASH = "0" * 64
abbrev pub genesis_hash : Text
genesis_hash = codes "0000000000000000000000000000000000000000000000000000000000000000"

abbrev pub audit_schema_version : ℕ
audit_schema_version = 2

-- '|', which separates the fields of the hashed material.
abbrev pub bar : ℕ
bar = b'|'

-- The f-string that is hashed.
unfoldable pub material : ℕ → ℕ → Text → Text → Text → Text
material record_id schema_version timestamp payload_json prev_hash =
    str record_id
    ++ bar ∷ (str schema_version ++ bar ∷ (timestamp ++ bar ∷ (payload_json ++ bar ∷ prev_hash)))

-- hmac.compare_digest on two `str`: it raises TypeError on a character that is not ASCII.
unfoldable pub is_ascii : Text → Bool
is_ascii [] = Bool.true
is_ascii (c ∷ s) = ltb c 128 && is_ascii s

unfoldable pub compare_digest : Text → Text → Result Bool
compare_digest a b = if is_ascii a && is_ascii b then ok (a == b) else raise type_error

module _ {P : Type 0} (log : AuditLogger P) where
  unfoldable pub compute_record_hash : ℕ → ℕ → Text → Text → Text → Text
  compute_record_hash record_id schema_version timestamp payload_json prev_hash =
      log.sha256_hex (material record_id schema_version timestamp payload_json prev_hash)

  -- AuditLogger._mac
  unfoldable pub mac : Text → Text
  mac record_hash = log.hmac_hex log.hmac_key record_hash

  abbrev pub decode : Row → Result (AuditRecord P)
  decode r = log.loads r.payload >>= λ p. ok (record {
    id = r.id;
    schema_version = r.schema_version;
    timestamp = r.timestamp;
    payload = p;
    prev_hash = r.prev_hash;
    record_hash = r.record_hash;
    record_mac = r.record_mac;
  })

  abbrev pub decode_all : List Row → Result (List (AuditRecord P))
  decode_all [] = ok []
  decode_all (r ∷ rows) = decode r >>= λ a. decode_all rows >>= λ rest. ok (a ∷ rest)

  -- LIMIT and OFFSET apply only if a limit is given.
  abbrev pub page : Option ℕ → ℕ → List Row → List Row
  page none offset rows = rows
  page (some limit) offset rows = take limit (drop offset rows)

  unfoldable pub entries : Option ℕ → ℕ → List Row → Result (List (AuditRecord P))
  entries limit offset rows = decode_all (page limit offset rows)

-- ORDER BY id DESC LIMIT 1
abbrev pub last_row : List Row → Option Row
last_row [] = none
last_row (r ∷ []) = some r
last_row (_ ∷ r ∷ rows) = last_row (r ∷ rows)

unfoldable pub count : List Row → ℕ
count rows = length rows

module _ {P : Type 0} (log : AuditLogger P) where
  abbrev latest_of : Option Row → Result (Option (AuditRecord P))
  latest_of none = ok none
  latest_of (some r) = decode log r >>= λ a. ok (some a)

  unfoldable pub latest : List Row → Result (Option (AuditRecord P))
  latest rows = latest_of (last_row rows)

  abbrev checkpoint_of : Text → Option (AuditRecord P) → Option AuditCheckpoint
  checkpoint_of now none = none
  checkpoint_of now (some last) = some (record {
    last_record_id = last.id;
    last_record_mac = last.record_mac;
    created_at = now;
    version = checkpoint_version;
  })

  -- `now` is the result of _utc_now().
  unfoldable pub create_checkpoint : Text → List Row → Result (Option AuditCheckpoint)
  create_checkpoint now rows = latest rows >>= λ last. ok (checkpoint_of now last)
