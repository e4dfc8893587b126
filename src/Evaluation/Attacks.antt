-- ===== src/Evaluation/Attacks.antt =====
-- evaluation/run_audit_attack_evaluation.py: manipulations of a table by SQL, what the verifier answers
-- to each, and the exit status of the script. A table is the list of its rows; a query puts them in
-- the order of their ids.
pub mod Benches
pub mod Hashes
pub mod Forgeries
pub mod Limits
pub mod Examples
use privacy_gateway_llm_appl.Prelude.{
  ℕ, zero, suc, ◌+◌, Text, codes, str, List, [], ◌∷◌, ◌++◌, Option, none, some, Bool, true, false,
  not, ◌&&◌, leb, nat_eq, text_eq, ◌==◌, if◌then◌else◌, map,
}
use privacy_gateway_llm_appl.Errors.{Result, ok, raise, type_error, ◌>>=◌}
use privacy_gateway_llm_appl.Checkpoint.{AuditCheckpoint}
use privacy_gateway_llm_appl.Audit.{
  Library, AuditLogger, Row, AuditState, compute_record_hash, create_checkpoint,
}
use privacy_gateway_llm_appl.Audit.Append.{AppendEnv, append}
use privacy_gateway_llm_appl.Audit.Verify.{
  ChainStatus, valid, invalid, empty, ChainVerificationResult, verify_chain,
}
use privacy_gateway_llm_appl.Gateway.Admin.{status_value}
use privacy_gateway_llm_appl.Evaluation.Tables.{
  order_by_id, update_where, delete_where, select_where,
}

-- The payloads of the script, whose first records have a key "request_id".
pub record Note : Type 0 where
  pub request_id : Option Text
  pub note : Text

-- KEY, and the key of the verifier that has another one
abbrev pub attack_key : Text
attack_key = codes "audit-attack-evaluation-key"

abbrev pub different_key : Text
different_key = codes "a-different-key"

-- What the script uses: hashes and JSON, and for each scenario, by its name, what happens at the append
-- of each record and the time at which a checkpoint is made.
pub record Bench : Type 0 where
  pub library : Library Note
  pub env : Text → ℕ → AppendEnv
  pub now : Text → Text

-- AuditLogger(.., key)
abbrev pub logger_with : Bench → Text → AuditLogger Note
logger_with bench key = record { lib = bench.library; hmac_key = key; has_checkpoint_store = false }

abbrev pub logger : Bench → AuditLogger Note
logger bench = logger_with bench attack_key

abbrev pub numbered_note : ℕ → Note
numbered_note i = record {
  request_id = some (codes "req-" ++ str i);
  note = codes "record " ++ str i;
}

abbrev pub plain_note : ℕ → Note
plain_note i = record { request_id = none; note = codes "record " ++ str i }

-- Appends from record `i` on, `n` of them.
unfoldable pub append_notes : Bench → Text → (ℕ → Note) → ℕ → ℕ → AuditState → Result AuditState
append_notes bench name note_of zero i s = ok s
append_notes bench name note_of (suc n) i s =
    let (out, s') = append (logger bench) (bench.env name i) (note_of i) s in
    out >>= λ r. append_notes bench name note_of n (i + 1) s'

-- _fresh_logger
unfoldable pub fresh_logger : Bench → Text → ℕ → Result AuditState
fresh_logger bench name records =
    append_notes bench name numbered_note records 1 (record { rows = []; checkpoint = none })

-- An element of `scenarios`. A key that only some elements have is `none` in the others.
pub record Scenario : Type 0 where
  pub scenario : Text
  pub expected_internal_status : Text
  pub observed_internal_status : Text
  pub observed_first_invalid_id : Option ℕ
  pub internal_matches_expectation : Bool
  pub expected_with_checkpoint : Option Text
  pub observed_with_checkpoint : Option Text
  pub observed_tail_verified : Option Bool
  pub checkpoint_matches_expectation : Option Bool

abbrev pub internal_entry : Text → Text → ChainVerificationResult → Scenario
internal_entry name expected internal = record {
  scenario = name;
  expected_internal_status = expected;
  observed_internal_status = status_value internal.status;
  observed_first_invalid_id = internal.first_invalid_id;
  internal_matches_expectation = status_value internal.status == expected;
  expected_with_checkpoint = none;
  observed_with_checkpoint = none;
  observed_tail_verified = none;
  checkpoint_matches_expectation = none;
}

-- What a verification against a checkpoint should say, and how the script tests that. The result's
-- `tail_verified` is recorded for the stale checkpoint only.
pub record Expected : Type 0 where
  pub status : Text
  pub test : ChainVerificationResult → Bool
  pub records_tail : Bool

-- The keys that a verification against a checkpoint adds.
abbrev pub with_checkpoint_keys : Expected → ChainVerificationResult → Scenario → Scenario
with_checkpoint_keys expected with_cp entry = record entry {
  expected_with_checkpoint = some expected.status;
  observed_with_checkpoint = some (status_value with_cp.status);
  observed_tail_verified = if expected.records_tail then some with_cp.tail_verified else none;
  checkpoint_matches_expectation = some (expected.test with_cp);
}

abbrev pub is_reported_invalid : Expected
is_reported_invalid = record {
  status = codes "invalid";
  test = λ with_cp. status_value with_cp.status == codes "invalid";
  records_tail = false;
}

-- The two verifications of a manipulated table.
unfoldable pub observe :
    AuditLogger Note
    → Text
    → Text
    → Expected
    → Bool
    → Option AuditCheckpoint
    → List Row
    → Result Scenario
observe log name expected as_expected use_checkpoint checkpoint rows =
    verify_chain log none (order_by_id rows) >>= λ internal. elim use_checkpoint [
      | false ↦ ok (internal_entry name expected internal)
      | true ↦ verify_chain log checkpoint (order_by_id rows) >>= λ with_cp.
          ok (with_checkpoint_keys as_expected with_cp (internal_entry name expected internal))
    ]

-- run
unfoldable pub run : Bench → Text → Text → (List Row → Result (List Row)) → Bool → Result Scenario
run bench name expected attack use_checkpoint = fresh_logger bench name 5 >>= λ s.
    create_checkpoint (logger bench) (bench.now name) s.rows >>= λ checkpoint.
    attack s.rows >>= λ rows.
    observe (logger bench) name expected is_reported_invalid use_checkpoint checkpoint rows

-- the attacks
abbrev pub modify_record_content : List Row → List Row
modify_record_content = update_where 3 (λ r. record r { payload = codes "{}" })

abbrev pub modify_timestamp : List Row → List Row
modify_timestamp = update_where 2 (λ r. record r { timestamp = codes "2001-01-01T00:00:00+00:00" })

abbrev repeat : ℕ → ℕ → Text
repeat zero c = []
repeat (suc n) c = c ∷ repeat n c

-- "f" * 64
abbrev pub all_f : Text
all_f = repeat 64 b'f'

abbrev pub modify_prev_hash : List Row → List Row
modify_prev_hash = update_where 4 (λ r. record r { prev_hash = all_f })

abbrev pub delete_middle_record : List Row → List Row
delete_middle_record = delete_where (λ r. r.id == 3)

abbrev pub reorder : List Row → List Row
reorder rows =
    update_where 99 (λ r. record r { id = 3 })
      (update_where 3 (λ r. record r { id = 2 }) (update_where 2 (λ r. record r { id = 99 }) rows))

-- The columns of None, the fetchone() of an empty result, cannot be bound.
abbrev pub duplicate_of : Option Row → List Row → Result (List Row)
duplicate_of none rows = raise type_error
duplicate_of (some r) rows = ok (rows ++ record r { id = 6 } ∷ [])

abbrev pub duplicate : List Row → Result (List Row)
duplicate rows = duplicate_of (select_where 2 rows) rows

abbrev pub forged : Text
forged = codes "{\"note\":\"forged\"}"

abbrev pub rehash_from : Bench → Option Row → List Row → Result (List Row)
rehash_from bench none rows = raise type_error
rehash_from bench (some r) rows =
    let forged_hash = compute_record_hash (logger bench) 1 2 r.timestamp forged r.prev_hash in
    ok (
      update_where 2 (λ q. record q { prev_hash = forged_hash })
        (update_where 1 (λ q. record q { payload = forged; record_hash = forged_hash }) rows))

abbrev pub rehash_without_key : Bench → List Row → Result (List Row)
rehash_without_key bench rows = rehash_from bench (select_where 1 rows) rows

-- the scenario "verify_with_wrong_key"
unfoldable pub wrong_key : Bench → Result Scenario
wrong_key bench = fresh_logger bench (codes "verify_with_wrong_key") 5 >>= λ s.
    observe (logger_with bench different_key) (codes "verify_with_wrong_key") (codes "invalid")
      is_reported_invalid false none s.rows

-- rollback: the copy of the database file holds the table of three rows
unfoldable pub rollback : Bench → Result Scenario
rollback bench = fresh_logger bench (codes "rollback_to_old_valid_database") 3 >>= λ snapshot.
    append_notes bench (codes "rollback_to_old_valid_database") plain_note 2 4 snapshot >>= λ s.
    create_checkpoint (logger bench) (bench.now (codes "rollback_to_old_valid_database")) s.rows
    >>= λ checkpoint.
        observe (logger bench) (codes "rollback_to_old_valid_database") (codes "valid")
          is_reported_invalid true checkpoint snapshot.rows

-- stale_ok
abbrev pub is_stale : Expected
is_stale = record {
  status = codes "valid";
  test = λ with_cp. status_value with_cp.status == codes "valid" && not with_cp.tail_verified;
  records_tail = true;
}

unfoldable pub stale_checkpoint : Bench → Result Scenario
stale_checkpoint bench = fresh_logger bench (codes "stale_checkpoint_current_tail") 3 >>= λ early.
    create_checkpoint (logger bench) (bench.now (codes "stale_checkpoint_current_tail")) early.rows
    >>= λ checkpoint.
        append_notes bench (codes "stale_checkpoint_current_tail") plain_note 2 4 early >>= λ s.
        observe (logger bench) (codes "stale_checkpoint_current_tail") (codes "valid") is_stale true
          checkpoint s.rows

-- The scenarios in the order of the script.
abbrev pub scenario_runs : Bench → List (Result Scenario)
scenario_runs bench =
    run bench (codes "modify_record_content") (codes "invalid")
      (λ rows. ok (modify_record_content rows)) false
    ∷ run bench (codes "modify_timestamp") (codes "invalid") (λ rows. ok (modify_timestamp rows))
        false
    ∷ run bench (codes "modify_prev_hash") (codes "invalid") (λ rows. ok (modify_prev_hash rows))
        false
    ∷ run bench (codes "delete_middle_record") (codes "invalid")
        (λ rows. ok (delete_middle_record rows)) false
    ∷ run bench (codes "reorder_records") (codes "invalid") (λ rows. ok (reorder rows)) false
    ∷ run bench (codes "duplicate_record") (codes "invalid") duplicate false
    ∷ run bench (codes "rehash_without_hmac_key") (codes "invalid") (rehash_without_key bench) false
    ∷ wrong_key bench
    ∷ run bench (codes "tail_deletion") (codes "valid")
        (λ rows. ok (delete_where (λ r. r.id == 5) rows)) true
    ∷ run bench (codes "multiple_trailing_deletion") (codes "valid")
        (λ rows. ok (delete_where (λ r. leb 4 r.id) rows)) true
    ∷ run bench (codes "complete_database_deletion") (codes "empty") (λ rows. ok []) true
    ∷ rollback bench
    ∷ stale_checkpoint bench
    ∷ []

abbrev pub collect {ℓ} : {A : Type ℓ} → List (Result A) → Result (List A)
collect [] = ok []
collect (r ∷ rs) = r >>= λ a. collect rs >>= λ more. ok (a ∷ more)

-- _scenarios
unfoldable pub scenarios : Bench → Result (List Scenario)
scenarios bench = collect (scenario_runs bench)

abbrev true_or_absent : Option Bool → Bool
true_or_absent none = true
true_or_absent (some b) = b

abbrev pub is_ok : Scenario → Bool
is_ok s = s.internal_matches_expectation && true_or_absent s.checkpoint_matches_expectation

abbrev pub all_ok : List Scenario → Bool
all_ok [] = true
all_ok (s ∷ more) = is_ok s && all_ok more

-- main, as far as the exit status
unfoldable pub main : Bench → Result ℕ
main bench = scenarios bench >>= λ found. ok (if all_ok found then 0 else 1)
