-- ===== src/Audit/Growth.antt =====
-- What AuditLogger.append does to the table and to the checkpoint store, on every branch.
use native.Mathlib.Nat.{add-zero}
use privacy_gateway_llm_appl.Prelude.{
  ℕ, zero, suc, ◌+◌, Text, List, [], ◌∷◌, ◌++◌, Option, none, some, Bool, true, false, ◌≡◌, ◌⊎◌,
  inl, inr, refl, sym, ap, ◌∙◌, subst, Option-cases, length, if◌then◌else◌, arith,
}
use privacy_gateway_llm_appl.Errors.{
  ok-injective, raise-ne-ok, Exception, gateway, operational_error, audit_write_error, is_os_error,
  Result, ok, raise,
}
use privacy_gateway_llm_appl.Checkpoint.{AuditCheckpoint}
use privacy_gateway_llm_appl.Audit.{
  AuditLogger, Row, AuditRecord, AuditState, genesis_hash, last_row,
}
use privacy_gateway_llm_appl.Audit.Append.{
  Attempt, AppendEnv, append_retries, next_link, new_row, append_once, append_attempts, append,
  record_of, or_retry, after_attempts, save_checkpoint,
}
use privacy_gateway_llm_appl.Audit.Chain.{IsLinked, IsIntact}

-- The hash that the next row has to name.
abbrev pub last_hash : Text → List Row → Text
last_hash prev [] = prev
last_hash prev (r ∷ rows) = last_hash r.record_hash rows

module _ {P : Type 0} (log : AuditLogger P) where
  new_row-IsLinked :
      (now json : Text) (id : ℕ) (prev : Text)
      → IsLinked log id prev (new_row log now json (id, prev))
  unfolding new_row
  new_row-IsLinked now json id prev = record {
    id = refl;
    prev_hash = refl;
    record_hash = refl;
    record_mac = refl;
  }

  next_link-last :
      (r : Row) (rows : List Row) (id : ℕ) (prev : Text)
      → IsIntact log id prev (r ∷ rows)
      → next_link (last_row (r ∷ rows)) ≡ (id + length (r ∷ rows), last_hash prev (r ∷ rows))
  unfolding next_link
  next_link-last r [] id prev (l, h) = ap (λ (k : ℕ). (k, r.record_hash)) (omega (arith, l.id))
  next_link-last r (q ∷ rows) id prev (l, h) =
      next_link-last q rows (id + 1) r.record_hash h
      ∙ ap (λ (k : ℕ). (k, last_hash prev (r ∷ q ∷ rows))) (omega arith)

  next_link-intact :
      (rows : List Row)
      → IsIntact log 1 genesis_hash rows
      → next_link (last_row rows) ≡ (1 + length rows, last_hash genesis_hash rows)
  next_link-intact [] h = unfold next_link in refl
  next_link-intact (r ∷ rows) h = next_link-last r rows 1 genesis_hash h

  extend :
      (rows : List Row) (id : ℕ) (prev : Text) (now json : Text)
      → IsIntact log id prev rows
      → IsIntact log id prev
          (rows ++ new_row log now json (id + length rows, last_hash prev rows) ∷ [])
  extend [] id prev now json h = rw add-zero (new_row-IsLinked now json id prev, tt)
  extend (r ∷ rows) id prev now json (l, h) =
      let same : id + suc (length rows) ≡ id + 1 + length rows = omega arith in
      (l, rw same (extend rows (id + 1) r.record_hash now json h))

  -- The row that the next append adds.
  abbrev pub added_row : Text → P → List Row → Row
  added_row now payload rows =
      new_row log now (log.dumps payload) (1 + length rows, last_hash genesis_hash rows)

  pub extend-IsIntact :
      (rows : List Row) (now : Text) (payload : P)
      → IsIntact log 1 genesis_hash rows
      → IsIntact log 1 genesis_hash (rows ++ added_row now payload rows ∷ [])
  extend-IsIntact rows now payload h = extend rows 1 genesis_hash now (log.dumps payload) h

  pub append_once-committed :
      (a : Attempt) (payload : P) (rows : List Row)
      → IsIntact log 1 genesis_hash rows
      → a.failure ≡ none
      → append_once log a (log.dumps payload) payload rows ≡ (
        ok (record_of log payload (added_row a.now payload rows)),
        rows ++ added_row a.now payload rows ∷ [],
      )
  unfolding append_once
  append_once-committed a payload rows h e = rw (next_link-intact rows h, e)

  pub append_once-failed :
      (a : Attempt) (json : Text) (payload : P) (rows : List Row) {x : Exception}
      → a.failure ≡ some x
      → append_once log a json payload rows ≡ (raise x, rows)
  unfolding append_once
  append_once-failed a json payload rows e = rw e

  -- What becomes of the attempts of one append on an intact table: a record that is now the last one,
  -- or an exception and the table as before.
  pub data Attempted (payload : P) (rows : List Row) (out : Result (AuditRecord P) × List Row)
      : Type 0 where
    added :
        (now : Text)
        → out ≡ (
          ok (record_of log payload (added_row now payload rows)),
          rows ++ added_row now payload rows ∷ [],
        )
        → Attempted payload rows out
    unchanged : (x : Exception) → out ≡ (raise x, rows) → Attempted payload rows out

  retry-Attempted :
      (x : Exception) (payload : P) (rows : List Row) {again : Result (AuditRecord P) × List Row}
      → Attempted payload rows again
      → Attempted payload rows (or_retry log (raise x, rows) again)
  retry-Attempted operational_error payload rows h = h
  retry-Attempted (gateway e) payload rows h = unchanged (gateway e) refl
  retry-Attempted x payload rows h = unchanged x refl

  pub append_attempts-Attempted :
      (n k : ℕ) (attempt : ℕ → Attempt) (payload : P) (rows : List Row)
      → IsIntact log 1 genesis_hash rows
      → Attempted payload rows (append_attempts log n k attempt (log.dumps payload) payload rows)
  unfolding append_attempts
  append_attempts-Attempted zero k attempt payload rows h =
      unchanged (gateway audit_write_error) refl
  append_attempts-Attempted (suc n) k attempt payload rows h =
      let again = append_attempts-Attempted n (suc k) attempt payload rows h in
      elim (Option-cases (attempt k).failure) [
        | inl committed ↦
            rw (append_once-committed (attempt k) payload rows h committed)
              (added (attempt k).now refl)
        | inr (x, failed) ↦
            rw (append_once-failed (attempt k) (log.dumps payload) payload rows failed)
              (retry-Attempted x payload rows again)
      ]

  -- The state of the table after one append, whatever its outcome.
  abbrev pub Grown : P → List Row → List Row → Type 0
  Grown payload rows rows' =
      (rows' ≡ rows) ⊎ ((now : Text) × (rows' ≡ rows ++ added_row now payload rows ∷ []))

  pub save-rows :
      (env : AppendEnv) (has_store : Bool) (r : AuditRecord P) (s : AuditState)
      → (save_checkpoint log has_store env r s).1.rows ≡ s.rows
  save-rows env false r s = refl
  save-rows env true r s = elim (Option-cases env.save_failure) [ inl e ↦ rw e | inr (x, e) ↦ rw e ]

  after-Grown :
      (env : AppendEnv) (payload : P) (rows : List Row) (cp : Option AuditCheckpoint)
      {out : Result (AuditRecord P) × List Row}
      → Attempted payload rows out
      → Grown payload rows (after_attempts log env cp out).1.rows
  after-Grown env payload rows cp {out} (added now e) =
      rw e (inr (now, save-rows env log.has_checkpoint_store _ _))
  after-Grown env payload rows cp {out} (unchanged x e) = rw e (inl refl)

  Grown-IsIntact :
      (payload : P) (rows rows' : List Row)
      → IsIntact log 1 genesis_hash rows
      → Grown payload rows rows'
      → IsIntact log 1 genesis_hash rows'
  Grown-IsIntact payload rows rows' h (inl e) = subst (IsIntact log 1 genesis_hash) (sym e) h
  Grown-IsIntact payload rows rows' h (inr (now, e)) =
      subst (IsIntact log 1 genesis_hash) (sym e) (extend-IsIntact rows now payload h)

  -- Whatever the database and the checkpoint store do, an append leaves an intact table as it was or
  -- with one row more, and so intact.
  pub append-IsIntact :
      (env : AppendEnv) (payload : P) (s : AuditState)
      → IsIntact log 1 genesis_hash s.rows
      → Grown payload s.rows (append log env payload s).1.rows
        × IsIntact log 1 genesis_hash (append log env payload s).1.rows
  unfolding append
  append-IsIntact env payload s h =
      let grown =
        after-Grown env payload s.rows s.checkpoint
          (append_attempts-Attempted append_retries 0 env.attempt payload s.rows h) in
      (grown, Grown-IsIntact payload s.rows _ h grown)

  save_returned :
      (env : AppendEnv) (has_store : Bool) (r r' : AuditRecord P) (s s' : AuditState)
      → save_checkpoint log has_store env r s ≡ (ok r', s')
      → r' ≡ r
  save_returned env false r r' s s' e = ok-injective (ap (λ o. o.0) (sym e))
  save_returned env true r r' s s' e = elim (Option-cases env.save_failure) [
    | inl saved ↦ let e' = rw saved at e in ok-injective (ap (λ o. o.0) (sym e'))
    | inr (x, failed) ↦
        let e' = rw failed at e in
        let gone : raise (if is_os_error x then gateway audit_write_error else x) ≡ ok r' =
          ap (λ o. o.0) e' in
        cc
  ]

  after_returned :
      (env : AppendEnv) (payload : P) (rows : List Row) (cp : Option AuditCheckpoint)
      (out : Result (AuditRecord P) × List Row) {r : AuditRecord P} {s' : AuditState}
      → Attempted payload rows out
      → after_attempts log env cp out ≡ (ok r, s')
      → (now : Text) × (r ≡ record_of log payload (added_row now payload rows))
        × (s'.rows ≡ rows ++ added_row now payload rows ∷ [])
  after_returned env payload rows cp out {r} {s'} (added now e) h =
      let h' = rw e at h in
      (
        now,
        save_returned env log.has_checkpoint_store _ r _ s' h',
        ap (λ o. o.1.rows) (sym h') ∙ save-rows env log.has_checkpoint_store _ _,
      )
  after_returned env payload rows cp out {r} {s'} (unchanged x e) h =
      let h' = rw e at h in
      let gone : raise x ≡ ok r = ap (λ o. o.0) h' in absurd (raise-ne-ok gone)

  -- A record that append returns is that of a row which it has added at the end.
  pub append_returned :
      (env : AppendEnv) (payload : P) (s s' : AuditState) (r : AuditRecord P)
      → IsIntact log 1 genesis_hash s.rows
      → append log env payload s ≡ (ok r, s')
      → (now : Text) × (r ≡ record_of log payload (added_row now payload s.rows))
        × (s'.rows ≡ s.rows ++ added_row now payload s.rows ∷ [])
  unfolding append
  append_returned env payload s s' r h e =
      after_returned env payload s.rows s.checkpoint _
        (append_attempts-Attempted append_retries 0 env.attempt payload s.rows h) e
