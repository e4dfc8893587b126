-- ===== src/Audit/Recovery.antt =====
-- What several writers on one database need to do for a verifier to vouch for the newest record again,
-- after checkpoints that were lost, are still to be saved, or are of older records.
use privacy_gateway_llm_appl.Prelude.{
  ℕ, ◌+◌, ◌<◌, Bool, if◌then◌else◌, sym, ap, ◌∙◌, subst, Text, List, [], ◌∷◌, ◌++◌, some, none,
  true, ◌≡◌, refl, length, ==_self, nat_eq, text_eq, arith,
}
use privacy_gateway_llm_appl.Errors.{ok}
use privacy_gateway_llm_appl.Checkpoint.{AuditCheckpoint}
use privacy_gateway_llm_appl.Audit.{AuditLogger, AuditState, Row, genesis_hash}
use privacy_gateway_llm_appl.Audit.Append.{
  AppendEnv, append_retries, append, checkpoint_for, record_of, new_row,
}
use privacy_gateway_llm_appl.Audit.Verify.{valid_with, verify_with_store}
use privacy_gateway_llm_appl.Audit.Chain.{HasHexDigests, IsIntact}
use privacy_gateway_llm_appl.Audit.Verdicts.{verify_chain-checkpoint}
use privacy_gateway_llm_appl.Audit.Growth.{added_row, extend-IsIntact, append_once-committed}
use privacy_gateway_llm_appl.Audit.Retries.{Locked, append_succeeds, store_after}
use privacy_gateway_llm_appl.Audit.Concurrent.{
  Shared, Step, commit, save, Reach, Names, Names-added, Names-ascii, Reach-IsSound,
}

pub length-snoc : {A : Type 0} (xs : List A) (x : A) → length (xs ++ x ∷ []) ≡ 1 + length xs
length-snoc [] x = refl
length-snoc (y ∷ xs) x = let e = length-snoc xs x in omega arith

module _ {P : Type 0} (log : AuditLogger P) (hex : HasHexDigests log) where
  -- A checkpoint of the last row of an intact table verifies the whole of it.
  tail_verified :
      (rows : List Row) (cp : AuditCheckpoint) (k : ℕ)
      → Names log rows cp
      → IsIntact log 1 genesis_hash rows
      → length rows ≡ k
      → cp.last_record_id ≡ k
      → verify_with_store log (some (ok (some cp))) rows ≡ ok (valid_with k none true)
  unfolding verify_with_store
  tail_verified [] cp k n h count last = absurd (let e = n.found in ground arith)
  tail_verified (r ∷ rows) cp k n h count last =
      rw
        (
          verify_chain-checkpoint log hex r rows cp h (Names-ascii log hex (r ∷ rows) cp h n),
          n.found,
          n.mac,
          count,
          last,
          ==_self cp.last_record_mac,
          ==_self k,
        )
        refl

  -- What the database and the checkpoint store do in a call of append that goes through, if after waiting.
  pub record Takes (env : AppendEnv) : Type 0 where
    pub waits : ℕ
    pub enough : waits < append_retries
    pub locked : Locked log env.attempt 0 waits
    pub commits : (env.attempt waits).failure ≡ none
    pub saves : env.save_failure ≡ none

  -- The log has one more row than `n`, and the stored checkpoint verifies all of it.
  pub record IsVerified (n : ℕ) (s : AuditState) : Type 0 where
    pub intact : IsIntact log 1 genesis_hash s.rows
    pub grown : length s.rows ≡ 1 + n
    pub verified :
        verify_with_store log (some (ok s.checkpoint)) s.rows ≡ ok (valid_with (1 + n) none true)

  pub append-IsVerified :
      (env : AppendEnv) (payload : P) (s : AuditState)
      → log.has_checkpoint_store ≡ true
      → IsIntact log 1 genesis_hash s.rows
      → Takes env
      → IsVerified (length s.rows) (append log env payload s).1
  unfolding new_row
  append-IsVerified env payload s stores intact t =
      let now = (env.attempt t.waits).now in
      let row = added_row log now payload s.rows in
      let longer = extend-IsIntact log s.rows now payload intact in
      let cp = checkpoint_for log env.saved_at (record_of log payload row) in
      let stored : store_after log env (record_of log payload row) s.checkpoint ≡ some cp =
        ap (λ (b : Bool). if b then some cp else s.checkpoint) stores in
      let left =
        ap (λ o. o.1)
          (append_succeeds log env payload s t.waits intact t.enough t.locked t.commits t.saves)
        ∙ ap (λ c. record { rows = s.rows ++ row ∷ []; checkpoint = c }) stored in
      subst (IsVerified (length s.rows)) (sym left) (record {
        intact = longer;
        grown = length-snoc s.rows row;
        verified =
            tail_verified (s.rows ++ row ∷ []) cp (1 + length s.rows)
              (Names-added log now env.saved_at payload s.rows intact) longer
              (length-snoc s.rows row) refl;
      })

  -- The shared state after a commit of `payload` and the save of its checkpoint, one right after the other.
  pub record Recovers (s : Shared) (now saved_at : Text) (payload : P) : Type 0 where
    pub committed : Shared
    pub saved : Shared
    pub commits : Step log s committed
    pub saves : Step log committed saved
    pub grown : saved.rows ≡ s.rows ++ added_row log now payload s.rows ∷ []
    pub verified :
        verify_with_store log (some (ok saved.checkpoint)) saved.rows
        ≡ ok (valid_with (1 + length s.rows) none true)

  -- From every state that the writers can reach, whatever checkpoint is stored, still to be saved or
  -- lost, one more commit and the save of its checkpoint lead to a state in which verification
  -- against the store answers valid for all rows, with the tail verified. Digests are taken to be
  -- hexadecimal.
  pub Reach-Recovers :
      (s : Shared) (now saved_at : Text) (payload : P)
      → Reach log s
      → Recovers s now saved_at payload
  unfolding new_row
  Reach-Recovers s now saved_at payload r =
      let v = Reach-IsSound log r in
      let row = added_row log now payload s.rows in
      let cp = checkpoint_for log saved_at (record_of log payload row) in
      let grown =
        append_once-committed log (record { now = now; failure = none }) payload s.rows v.intact
          refl in
      record {
        committed = _;
        saved = _;
        commits = commit now saved_at payload;
        saves = save [] s.pending cp refl;
        grown = rw grown refl;
        verified = rw grown (
            tail_verified (s.rows ++ row ∷ []) cp (1 + length s.rows)
              (Names-added log now saved_at payload s.rows v.intact)
              (extend-IsIntact log s.rows now payload v.intact) (length-snoc s.rows row) refl);
      }
