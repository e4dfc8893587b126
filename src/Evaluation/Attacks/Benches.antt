-- ===== src/Evaluation/Attacks/Benches.antt =====
-- The tables that evaluation/run_audit_attack_evaluation.py starts from, where no append fails, and what
-- is taken of the hash functions, at the texts that the script hashes, and of JSON.
use privacy_gateway_llm_appl.Prelude.{
  ℕ, zero, suc, ◌+◌, ◌-◌, Text, codes, List, [], ◌∷◌, ◌++◌, none, some, true, ◌≡◌, ◌≢◌, refl, All,
  arith,
}
use privacy_gateway_llm_appl.Errors.{Result, ok}
use privacy_gateway_llm_appl.Checkpoint.{AuditCheckpoint}
use privacy_gateway_llm_appl.Audit.{
  Library, Row, genesis_hash, create_checkpoint, latest, last_row, compute_record_hash, mac,
}
use privacy_gateway_llm_appl.Audit.Append.{new_row}
use privacy_gateway_llm_appl.Audit.Chain.{HasHexDigests, IsHex, IsIntact}
use privacy_gateway_llm_appl.Audit.Growth.{added_row, extend-IsIntact}
use privacy_gateway_llm_appl.Audit.Retries.{append_succeeds}
use privacy_gateway_llm_appl.Audit.Pinned.{NoCollision}
use privacy_gateway_llm_appl.Evaluation.Attacks.{
  Note, Bench, logger_with, logger, numbered_note, append_notes, fresh_logger, all_f, Scenario,
  is_ok, forged, attack_key, different_key,
}

-- Digests are hexadecimal. JSON text gives the payload back, a dict with keys is not printed as "{}",
-- and a record of the script is not printed as the forged one.
pub record IsDocumented (lib : Library Note) : Type 0 where
  pub sha256_hex : (m : Text) → All IsHex (lib.sha256_hex m)
  pub hmac_hex : (key m : Text) → All IsHex (lib.hmac_hex key m)
  pub reads_back : (p : Note) → lib.loads (lib.dumps p) ≡ ok p
  pub has_keys : (p : Note) → lib.dumps p ≢ codes "{}"
  pub not_forged : (i : ℕ) → lib.dumps (numbered_note i) ≢ forged

-- The database is free at the first attempt of each append, and the clock is past 2001.
pub record IsCalm (bench : Bench) : Type 0 where
  pub free : (name : Text) (i : ℕ) → ((bench.env name i).attempt 0).failure ≡ none
  pub saves : (name : Text) (i : ℕ) → (bench.env name i).save_failure ≡ none
  pub clock :
      (name : Text) (i : ℕ) → ((bench.env name i).attempt 0).now ≢ codes "2001-01-01T00:00:00+00:00"

pub HasHexDigests-logger :
    (bench : Bench) (key : Text)
    → IsDocumented bench.library
    → HasHexDigests (logger_with bench key)
HasHexDigests-logger bench key documented = record {
  sha256_hex = documented.sha256_hex;
  hmac_hex = documented.hmac_hex key;
}

module _ (bench : Bench) where
  -- The rows after appends of `n` notes from number `i` on.
  abbrev pub grown : Text → (ℕ → Note) → ℕ → ℕ → List Row → List Row
  grown name note_of zero i rows = rows
  grown name note_of (suc n) i rows =
      grown name note_of n (i + 1)
        (rows ++ added_row (logger bench) ((bench.env name i).attempt 0).now (note_of i) rows ∷ [])

  abbrev pub Table : List Row → Type 0
  Table rows = IsIntact (logger bench) 1 genesis_hash rows

  pub grown-IsIntact :
      (name : Text) (note_of : ℕ → Note) (n i : ℕ) (rows : List Row)
      → Table rows
      → Table (grown name note_of n i rows)
  grown-IsIntact name note_of zero i rows h = h
  grown-IsIntact name note_of (suc n) i rows h =
      grown-IsIntact name note_of n (i + 1) _
        (extend-IsIntact (logger bench) rows ((bench.env name i).attempt 0).now (note_of i) h)

  pub append_notes-grown :
      (name : Text) (note_of : ℕ → Note) (n i : ℕ) (rows : List Row)
      → IsCalm bench
      → Table rows
      → append_notes bench name note_of n i (record { rows = rows; checkpoint = none })
        ≡ ok (record { rows = grown name note_of n i rows; checkpoint = none })
  unfolding append_notes
  append_notes-grown name note_of zero i rows calm h = refl
  append_notes-grown name note_of (suc n) i rows calm h =
      rw
        (append_succeeds (logger bench) (bench.env name i) (note_of i)
          (record { rows = rows; checkpoint = none }) 0 h (omega arith) tt (calm.free name i)
          (calm.saves name i))
        (append_notes-grown name note_of n (i + 1) _ calm
          (extend-IsIntact (logger bench) rows ((bench.env name i).attempt 0).now (note_of i) h))

  -- The row with number `k` of a table.
  abbrev pub nth_row : Text → ℕ → Row
  nth_row name k =
      added_row (logger bench) ((bench.env name k).attempt 0).now (numbered_note k)
        (grown name numbered_note (k - 1) 1 [])

  -- Row 1 with the forged payload, and the hash that goes with it.
  abbrev pub forged_hash : Text → Text
  forged_hash name =
      compute_record_hash (logger bench) 1 2 (nth_row name 1).timestamp forged
        (nth_row name 1).prev_hash

  abbrev pub forged_row : Text → Row
  forged_row name = record (nth_row name 1) { payload = forged; record_hash = forged_hash name }

  -- The script meets no collision: a row that it changes and the row that this was do not collide, by
  -- SHA-256 or by HMAC with the script's key; different keys give the hash of row 1 different MACs;
  -- and the hash of row 3 is not 64 times "f".
  pub record MeetsNoCollision : Type 0 where
    pub content :
        NoCollision
          (logger bench)
          (record (nth_row (codes "modify_record_content") 3) { payload = codes "{}" })
          (nth_row (codes "modify_record_content") 3)
    pub timestamp :
        NoCollision
          (logger bench)
          (record (nth_row (codes "modify_timestamp") 2) {
            timestamp = codes "2001-01-01T00:00:00+00:00";
          })
          (nth_row (codes "modify_timestamp") 2)
    pub order :
        NoCollision
          (logger bench)
          (record (nth_row (codes "reorder_records") 3) { id = 2 })
          (nth_row (codes "reorder_records") 3)
    pub copy :
        NoCollision
          (logger bench)
          (record (nth_row (codes "duplicate_record") 2) { id = 6 })
          (nth_row (codes "duplicate_record") 2)
    pub rehash :
        NoCollision
          (logger bench)
          (forged_row (codes "rehash_without_hmac_key"))
          (nth_row (codes "rehash_without_hmac_key") 1)
    pub keys :
        mac
            (logger_with bench different_key)
            (nth_row (codes "verify_with_wrong_key") 1).record_hash
          ≡ mac (logger bench) (nth_row (codes "verify_with_wrong_key") 1).record_hash
        → different_key ≡ attack_key
    pub prev_hash : (nth_row (codes "modify_prev_hash") 3).record_hash ≢ all_f

  -- The tables of five and of three rows.
  abbrev pub five : Text → List Row
  five name = grown name numbered_note 5 1 []

  abbrev pub three : Text → List Row
  three name = grown name numbered_note 3 1 []

  pub fresh_logger-grown :
      (name : Text) (n : ℕ)
      → IsCalm bench
      → fresh_logger bench name n
        ≡ ok (record { rows = grown name numbered_note n 1 []; checkpoint = none })
  unfolding fresh_logger
  fresh_logger-grown name n calm = append_notes-grown name numbered_note n 1 [] calm tt

  -- The checkpoint of a table that ends with an added row.
  abbrev pub tail_checkpoint : Text → Row → AuditCheckpoint
  tail_checkpoint now r = record {
    last_record_id = r.id;
    last_record_mac = r.record_mac;
    created_at = now;
    version = 1;
  }

last_row-end : (rows : List Row) (r : Row) → last_row (rows ++ r ∷ []) ≡ some r
last_row-end [] r = refl
last_row-end (q ∷ []) r = refl
last_row-end (q ∷ p ∷ rows) r = last_row-end (p ∷ rows) r

pub create_checkpoint-end :
    (bench : Bench) (now moment : Text) (p : Note) (rows : List Row)
    → IsDocumented bench.library
    → create_checkpoint (logger bench) now (rows ++ added_row (logger bench) moment p rows ∷ [])
      ≡ ok (some (tail_checkpoint bench now (added_row (logger bench) moment p rows)))
unfolding create_checkpoint latest new_row
create_checkpoint-end bench now moment p rows documented =
    rw (last_row-end rows (added_row (logger bench) moment p rows), documented.reads_back p) refl

-- A scenario that the script finds as it expects.
abbrev pub Passes : Result Scenario → Type 0
Passes r = (s : Scenario) × (r ≡ ok s) × (is_ok s ≡ true)
