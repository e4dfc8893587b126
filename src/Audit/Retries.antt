-- ===== src/Audit/Retries.antt =====
-- How AuditLogger.append ends by what its attempts meet: a free database, a locked one, and a
-- checkpoint store that cannot be written.
use native.Mathlib.Nat.{add-zero, zero-add}
use privacy_gateway_llm_appl.Prelude.{
  ℕ, zero, suc, ◌+◌, ◌<◌, List, [], ◌∷◌, ◌++◌, Option, none, some, Bool, true, false, ◌≡◌, refl,
  subst, if◌then◌else◌, arith,
}
use privacy_gateway_llm_appl.Errors.{
  Exception, gateway, operational_error, audit_write_error, is_os_error, ok, raise,
}
use privacy_gateway_llm_appl.Checkpoint.{AuditCheckpoint}
use privacy_gateway_llm_appl.Audit.{AuditLogger, Row, AuditRecord, AuditState, genesis_hash}
use privacy_gateway_llm_appl.Audit.Append.{
  Attempt, AppendEnv, append_retries, append_attempts, append, record_of, checkpoint_for,
  save_checkpoint,
}
use privacy_gateway_llm_appl.Audit.Chain.{IsIntact}
use privacy_gateway_llm_appl.Audit.Growth.{added_row, append_once-committed, append_once-failed}

module _ {P : Type 0} (log : AuditLogger P) where
  -- The first `j` attempts from number `k` on meet a locked database.
  abbrev pub Locked : (ℕ → Attempt) → ℕ → ℕ → Type 0
  Locked attempt k zero = Unit
  Locked attempt k (suc j) =
      ((attempt k).failure ≡ some operational_error) × Locked attempt (suc k) j

  attempts_after-Locked :
      (n j k : ℕ) (attempt : ℕ → Attempt) (payload : P) (rows : List Row)
      → j < n
      → IsIntact log 1 genesis_hash rows
      → Locked attempt k j
      → (attempt (k + j)).failure ≡ none
      → append_attempts log n k attempt (log.dumps payload) payload rows ≡ (
        ok (record_of log payload (added_row log (attempt (k + j)).now payload rows)),
        rows ++ added_row log (attempt (k + j)).now payload rows ∷ [],
      )
  unfolding append_attempts
  attempts_after-Locked zero j k attempt payload rows lt h l e = elim lt [ ]
  attempts_after-Locked (suc n) zero k attempt payload rows lt h l e =
      let e' : (attempt k).failure ≡ none =
        subst (λ (i : ℕ). (attempt i).failure ≡ none) (add-zero k) e in
      rw add-zero (rw (append_once-committed log (attempt k) payload rows h e'))
  attempts_after-Locked (suc n) (suc j) k attempt payload rows lt h (l, ls) e =
      let same : k + suc j ≡ suc k + j = omega arith in
      rw (append_once-failed log (attempt k) (log.dumps payload) payload rows l, same)
        (attempts_after-Locked n j (suc k) attempt payload rows (omega arith) h ls
          (subst (λ (i : ℕ). (attempt i).failure ≡ none) same e))

  attempts_all-Locked :
      (n k : ℕ) (attempt : ℕ → Attempt) (payload : P) (rows : List Row)
      → Locked attempt k n
      → append_attempts log n k attempt (log.dumps payload) payload rows
        ≡ (raise (gateway audit_write_error), rows)
  unfolding append_attempts
  attempts_all-Locked zero k attempt payload rows l = refl
  attempts_all-Locked (suc n) k attempt payload rows (l, ls) =
      rw (append_once-failed log (attempt k) (log.dumps payload) payload rows l)
        (attempts_all-Locked n (suc k) attempt payload rows ls)

  -- The checkpoint store after an append that returned `r`.
  abbrev pub store_after :
      AppendEnv → AuditRecord P → Option AuditCheckpoint → Option AuditCheckpoint
  store_after env r old =
      if log.has_checkpoint_store then some (checkpoint_for log env.saved_at r) else old

  save_succeeds :
      (env : AppendEnv) (has_store : Bool) (r : AuditRecord P) (s : AuditState)
      → env.save_failure ≡ none
      → save_checkpoint log has_store env r s ≡ (
        ok r,
        record s {
          checkpoint = if has_store then some (checkpoint_for log env.saved_at r) else s.checkpoint;
        },
      )
  save_succeeds env false r s e = refl
  save_succeeds env true r s e = rw e

  save_raises :
      (env : AppendEnv) (r : AuditRecord P) (s : AuditState) {x : Exception}
      → env.save_failure ≡ some x
      → save_checkpoint log true env r s
        ≡ (raise (if is_os_error x then gateway audit_write_error else x), s)
  save_raises env r s e = rw e

  -- Over an intact table, if fewer than five attempts meet a locked database, the next one commits
  -- and the checkpoint can be saved, append returns the record of a new last row and leaves, where
  -- a checkpoint store is configured, a checkpoint that names it.
  pub append_succeeds :
      (env : AppendEnv) (payload : P) (s : AuditState) (j : ℕ)
      → IsIntact log 1 genesis_hash s.rows
      → j < append_retries
      → Locked env.attempt 0 j
      → (env.attempt j).failure ≡ none
      → env.save_failure ≡ none
      → append log env payload s ≡ (
        ok (record_of log payload (added_row log (env.attempt j).now payload s.rows)),
        record {
          rows = s.rows ++ added_row log (env.attempt j).now payload s.rows ∷ [];
          checkpoint =
              store_after env
                (record_of log payload (added_row log (env.attempt j).now payload s.rows))
                s.checkpoint;
        },
      )
  unfolding append
  append_succeeds env payload s j h lt l e saved =
      rw
        (
          attempts_after-Locked append_retries j 0 env.attempt payload s.rows lt h l
              (rw zero-add e),
          zero-add,
        )
        (save_succeeds env log.has_checkpoint_store _ _ saved)

  -- If all five attempts meet a locked database, append raises AuditWriteError and changes nothing.
  pub append_gives_up :
      (env : AppendEnv) (payload : P) (s : AuditState)
      → Locked env.attempt 0 append_retries
      → append log env payload s ≡ (raise (gateway audit_write_error), s)
  unfolding append
  append_gives_up env payload s l =
      rw (attempts_all-Locked append_retries 0 env.attempt payload s.rows l)

  -- If the table is intact, the first attempt commits and the checkpoint cannot be saved in the
  -- configured store, append raises, an OSError as AuditWriteError, but the row stays in the table
  -- and the old checkpoint in its store.
  pub append_save_fails :
      (env : AppendEnv) (payload : P) (s : AuditState) (x : Exception)
      → IsIntact log 1 genesis_hash s.rows
      → log.has_checkpoint_store ≡ true
      → (env.attempt 0).failure ≡ none
      → env.save_failure ≡ some x
      → append log env payload s ≡ (
        raise (if is_os_error x then gateway audit_write_error else x),
        record {
          rows = s.rows ++ added_row log (env.attempt 0).now payload s.rows ∷ [];
          checkpoint = s.checkpoint;
        },
      )
  unfolding append
  append_save_fails env payload s x h store e failed =
      rw
        (
          attempts_after-Locked append_retries 0 0 env.attempt payload s.rows (omega arith) h tt e,
          store,
        )
        (save_raises env _ _ failed)
