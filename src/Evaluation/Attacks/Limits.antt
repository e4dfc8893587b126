-- ===== src/Evaluation/Attacks/Limits.antt =====
-- The scenarios of evaluation/run_audit_attack_evaluation.py that the chain alone cannot find, and the
-- exit status of the script.
use privacy_gateway_llm_appl.Prelude.{
  ℕ, ◌<◌, Text, codes, List, [], ◌∷◌, ◌++◌, some, true, ◌≡◌, refl, length, text_beq, leb, nat_eq,
  ◌==◌, ==_self, text_eq, arith, All,
}
use privacy_gateway_llm_appl.Errors.{Result, ok}
use privacy_gateway_llm_appl.Checkpoint.{AuditCheckpoint}
use privacy_gateway_llm_appl.Audit.{AuditLogger, Row, create_checkpoint}
use privacy_gateway_llm_appl.Audit.Append.{new_row}
use privacy_gateway_llm_appl.Audit.Verify.{verify_chain}
use privacy_gateway_llm_appl.Audit.Chain.{mac_is_ascii}
use privacy_gateway_llm_appl.Audit.Growth.{added_row}
use privacy_gateway_llm_appl.Audit.Verdicts.{verify_chain-valid_iff, verify_chain-checkpoint}
use privacy_gateway_llm_appl.Audit.Tampering.{truncation}
use privacy_gateway_llm_appl.Gateway.Admin.{status_value}
use privacy_gateway_llm_appl.Evaluation.Tables.{insert_by_id, order_by_id, delete_where}
use privacy_gateway_llm_appl.Evaluation.Attacks.{
  Note, Bench, logger, attack_key, numbered_note, plain_note, observe, run, rollback,
  stale_checkpoint, Scenario, all_ok, collect, scenario_runs, scenarios, main,
}
use privacy_gateway_llm_appl.Evaluation.Attacks.Benches.{
  IsDocumented, IsCalm, nth_row, MeetsNoCollision, HasHexDigests-logger, grown, Table,
  grown-IsIntact, five, three, append_notes-grown, fresh_logger-grown, tail_checkpoint,
  create_checkpoint-end, Passes,
}
use privacy_gateway_llm_appl.Evaluation.Attacks.Forgeries.{forgeries-Passes}

module _ (bench : Bench) (documented : IsDocumented bench.library) (calm : IsCalm bench) where
  abbrev log : AuditLogger Note
  log = logger bench

  abbrev moment : Text → ℕ → Text
  moment name i = ((bench.env name i).attempt 0).now

  -- The checkpoint of the table of five.
  abbrev fifth : Text → AuditCheckpoint
  fifth name =
      tail_checkpoint bench (bench.now name)
        (added_row log (moment name 5) (numbered_note 5) (grown bench name numbered_note 4 1 []))

  fifth-made :
      (name : Text)
      → create_checkpoint log (bench.now name) (five bench name) ≡ ok (some (fifth name))
  fifth-made name =
      create_checkpoint-end bench (bench.now name) (moment name 5) (numbered_note 5)
        (grown bench name numbered_note 4 1 []) documented

  -- Rows taken away at the end, but not all.
  truncated-Passes :
      (name : Text) (attack : List Row → List Row) (r : Row) (kept lost : List Row)
      → order_by_id (attack (five bench name)) ≡ r ∷ kept
      → Table bench (r ∷ kept ++ lost)
      → length (r ∷ kept) < 5
      → Passes (run bench name (codes "valid") (λ rows. ok (attack rows)) true)
  unfolding run observe status_value text_beq new_row
  truncated-Passes name attack r kept lost same intact short =
      let (alone, against) =
        truncation log (HasHexDigests-logger bench attack_key documented) r kept lost (fifth name)
          intact short (mac_is_ascii log (HasHexDigests-logger bench attack_key documented) _) in
      rw (fresh_logger-grown bench name 5 calm, fifth-made name, same, alone, against)
        (_, refl, refl)

  abbrev nth : Text → ℕ → Row
  nth name k = nth_row bench name k

  tail_deletion-Passes :
      (name : Text)
      → Passes
          (run bench name (codes "valid") (λ rows. ok (delete_where (λ r. r.id == 5) rows)) true)
  unfolding delete_where order_by_id insert_by_id new_row
  tail_deletion-Passes name =
      truncated-Passes name _ (nth name 1) (nth name 2 ∷ nth name 3 ∷ nth name 4 ∷ [])
        (nth name 5 ∷ []) refl (grown-IsIntact bench name numbered_note 5 1 [] tt) (omega arith)

  trailing_deletion-Passes :
      (name : Text)
      → Passes
          (run bench name (codes "valid") (λ rows. ok (delete_where (λ r. leb 4 r.id) rows)) true)
  unfolding delete_where order_by_id insert_by_id new_row
  trailing_deletion-Passes name =
      truncated-Passes name _ (nth name 1) (nth name 2 ∷ nth name 3 ∷ [])
        (nth name 4 ∷ nth name 5 ∷ []) refl (grown-IsIntact bench name numbered_note 5 1 [] tt)
        (omega arith)

  complete_deletion-Passes :
      (name : Text) → Passes (run bench name (codes "empty") (λ rows. ok []) true)
  unfolding run observe status_value text_beq order_by_id verify_chain
  complete_deletion-Passes name =
      rw (fresh_logger-grown bench name 5 calm, fifth-made name) (_, refl, refl)

  -- The table of three with two more rows of the other kind.
  abbrev later : Text → List Row
  later name = grown bench name plain_note 2 4 (three bench name)

  later-IsIntact : (name : Text) → Table bench (later name)
  later-IsIntact name =
      grown-IsIntact bench name plain_note 2 4 (three bench name)
        (grown-IsIntact bench name numbered_note 3 1 [] tt)

  abbrev plain_row : Text → ℕ → List Row → Row
  plain_row name i rows = added_row log (moment name i) (plain_note i) rows

  rollback-Passes : Passes (rollback bench)
  unfolding rollback observe status_value text_beq order_by_id insert_by_id new_row
  rollback-Passes =
      let name = codes "rollback_to_old_valid_database" in
      let fourth = grown bench name plain_note 1 4 (three bench name) in
      let cp = tail_checkpoint bench (bench.now name) (plain_row name 5 fourth) in
      let (alone, against) =
        truncation log (HasHexDigests-logger bench attack_key documented) (nth name 1)
          (nth name 2 ∷ nth name 3 ∷ [])
          (plain_row name 4 (three bench name) ∷ plain_row name 5 fourth ∷ []) cp
          (later-IsIntact name) (omega arith)
          (mac_is_ascii log (HasHexDigests-logger bench attack_key documented) _) in
      rw
        (
          fresh_logger-grown bench name 3 calm,
          append_notes-grown bench name plain_note 2 4 (three bench name) calm
              (grown-IsIntact bench name numbered_note 3 1 [] tt),
          create_checkpoint-end bench (bench.now name) (moment name 5) (plain_note 5) fourth
              documented,
          alone,
          against,
        )
        (_, refl, refl)

  stale-Passes : Passes (stale_checkpoint bench)
  unfolding stale_checkpoint observe status_value text_beq order_by_id insert_by_id new_row
  stale-Passes =
      let name = codes "stale_checkpoint_current_tail" in
      let second = grown bench name numbered_note 2 1 [] in
      let cp =
        tail_checkpoint bench (bench.now name)
          (added_row log (moment name 3) (numbered_note 3) second) in
      let fourth = grown bench name plain_note 1 4 (three bench name) in
      let more =
        nth name 2
        ∷ nth name 3
        ∷ plain_row name 4 (three bench name)
        ∷ plain_row name 5 fourth
        ∷ [] in
      let hex = HasHexDigests-logger bench attack_key documented in
      rw
        (
          fresh_logger-grown bench name 3 calm,
          create_checkpoint-end bench (bench.now name) (moment name 3) (numbered_note 3) second
              documented,
          append_notes-grown bench name plain_note 2 4 (three bench name) calm
              (grown-IsIntact bench name numbered_note 3 1 [] tt),
          (verify_chain-valid_iff log hex (nth name 1) more).1 (later-IsIntact name),
          verify_chain-checkpoint log hex (nth name 1) more cp (later-IsIntact name)
              (mac_is_ascii log hex _),
          ==_self cp.last_record_mac,
        )
        (_, refl, refl)

-- What the script collects where all scenarios pass.
collect-all_ok :
    (rs : List (Result Scenario))
    → All Passes rs
    → (ss : List Scenario) × (collect rs ≡ ok ss) × (all_ok ss ≡ true)
collect-all_ok [] h = ([], refl, refl)
collect-all_ok (r ∷ rs) ((s, e, fine), hs) =
    let (ss, more, rest) = collect-all_ok rs hs in (s ∷ ss, rw (e, more) refl, rw (fine, rest) refl)

-- Every manipulation of the script has the outcome that its documentation states, so that its exit
-- status is 0: a changed, deleted, reordered, copied or rehashed row, and another key, are found by
-- the chain alone; deletions at the end, of everything, and a rollback are found by the checkpoint
-- only, and an old checkpoint leaves the tail unverified. Conditions: digests are hexadecimal and JSON
-- text gives its payload back; the changed rows do not collide with the rows they were, nor the
-- two keys on a record's hash, and the hash of one record is not the script's 64 times "f"; the
-- database is free and the clock past 2001.
pub main-all_ok :
    (bench : Bench)
    → IsDocumented bench.library
    → MeetsNoCollision bench
    → IsCalm bench
    → main bench ≡ ok 0
unfolding main scenarios
main-all_ok bench documented free calm =
    let (content, timestamp, prev, middle, order, copy, rehash, key) =
      forgeries-Passes bench documented calm free in
    let (ss, found, fine) = collect-all_ok (scenario_runs bench) (
      content,
      (
        timestamp,
        (
          prev,
          (
            middle,
            (
              order,
              (
                copy,
                (
                  rehash,
                  (
                    key,
                    (
                      tail_deletion-Passes bench documented calm _,
                      (
                        trailing_deletion-Passes bench documented calm _,
                        (
                          complete_deletion-Passes bench documented calm _,
                          (
                            rollback-Passes bench documented calm,
                            (stale-Passes bench documented calm, tt),
                          ),
                        ),
                      ),
                    ),
                  ),
                ),
              ),
            ),
          ),
        ),
      ),
    ) in
    rw (found, fine) refl
