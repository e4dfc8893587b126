-- ===== src/Audit/History.antt =====
-- AuditLogger of gateway/audit_logger.py seen through append and entries alone: a list of records that
-- grows at its end.
use mathlib.Core.List.{append-nil, append_assoc}
use privacy_gateway_llm_appl.Prelude.{
  Text, List, [], ◌∷◌, ◌++◌, Option, none, Bool, true, false, ◌≡◌, ◌⊎◌, inl, inr, refl, sym, ap,
  ◌∙◌, Option-cases,
}
use privacy_gateway_llm_appl.Errors.{Exception, Result, ok, raise, bind_ok, ok-injective}
use privacy_gateway_llm_appl.Checkpoint.{AuditCheckpoint}
use privacy_gateway_llm_appl.Audit.{
  AuditLogger, Row, AuditRecord, AuditState, genesis_hash, entries, decode, decode_all,
}
use privacy_gateway_llm_appl.Audit.Append.{
  AppendEnv, append, append_retries, after_attempts, save_checkpoint, record_of, new_row,
}
use privacy_gateway_llm_appl.Audit.Chain.{IsIntact}
use privacy_gateway_llm_appl.Audit.Growth.{
  added_row, Attempted, added, unchanged, append_attempts-Attempted, append-IsIntact, save-rows,
}

-- One call of append, with what its surroundings do.
pub record Call (P : Type 0) : Type 0 where
  pub env : AppendEnv
  pub payload : P

module _ {P : Type 0} (log : AuditLogger P) where
  -- The outcomes of calls one after the other, and the state after them.
  abbrev pub run : List (Call P) → AuditState → List (Result (AuditRecord P)) × AuditState
  run [] s = ([], s)
  run (c ∷ calls) s =
      let (out, s') = append log c.env c.payload s in
      let (outs, s'') = run calls s' in (out ∷ outs, s'')

  -- The specification: a call adds its record at the end and returns it, adds it and raises, or
  -- raises and adds nothing.
  pub data History
      : List (Call P) → List (Result (AuditRecord P)) → List (AuditRecord P) → Type 0 where
    nothing : History [] [] []
    kept :
        {c : Call P} {calls : List (Call P)} {out : Result (AuditRecord P)}
        {outs : List (Result (AuditRecord P))} {r : AuditRecord P} {rs : List (AuditRecord P)}
        → r.payload ≡ c.payload
        → (out ≡ ok r) ⊎ ((x : Exception) × (out ≡ raise x))
        → History calls outs rs
        → History (c ∷ calls) (out ∷ outs) (r ∷ rs)
    dropped :
        {c : Call P} {calls : List (Call P)} {out : Result (AuditRecord P)}
        {outs : List (Result (AuditRecord P))} {rs : List (AuditRecord P)} (x : Exception)
        → out ≡ raise x
        → History calls outs rs
        → History (c ∷ calls) (out ∷ outs) rs

  -- What one call does to the rows.
  data Stepped (payload : P) (rows : List Row) (out : Result (AuditRecord P) × AuditState)
      : Type 0 where
    appended :
        (now : Text)
        → out.1.rows ≡ rows ++ added_row log now payload rows ∷ []
        → (out.0 ≡ ok (record_of log payload (added_row log now payload rows)))
          ⊎ ((x : Exception) × (out.0 ≡ raise x))
        → Stepped payload rows out
    refused : (x : Exception) → out.0 ≡ raise x → out.1.rows ≡ rows → Stepped payload rows out

  save-outcome :
      (env : AppendEnv) (has_store : Bool) (r : AuditRecord P) (s : AuditState)
      → ((save_checkpoint log has_store env r s).0 ≡ ok r)
        ⊎ ((x : Exception) × ((save_checkpoint log has_store env r s).0 ≡ raise x))
  save-outcome env false r s = inl refl
  save-outcome env true r s = elim (Option-cases env.save_failure) [
    | inl saved ↦ rw saved (inl refl)
    | inr (x, failed) ↦ rw failed (inr (_, refl))
  ]

  after-Stepped :
      (env : AppendEnv) (payload : P) (rows : List Row) (cp : Option AuditCheckpoint)
      {out : Result (AuditRecord P) × List Row}
      → Attempted log payload rows out
      → Stepped payload rows (after_attempts log env cp out)
  after-Stepped env payload rows cp {out} (added now e) = rw e (
      appended now (save-rows log env log.has_checkpoint_store _ _)
        (save-outcome env log.has_checkpoint_store _ _))
  after-Stepped env payload rows cp {out} (unchanged x e) = rw e (refused x refl refl)

  append-Stepped :
      (env : AppendEnv) (payload : P) (s : AuditState)
      → IsIntact log 1 genesis_hash s.rows
      → Stepped payload s.rows (append log env payload s)
  unfolding append
  append-Stepped env payload s h =
      after-Stepped env payload s.rows s.checkpoint
        (append_attempts-Attempted log append_retries 0 env.attempt payload s.rows h)

  decode_all-end :
      (rows : List Row) (r : Row) (olds : List (AuditRecord P)) (a : AuditRecord P)
      → decode_all log rows ≡ ok olds
      → decode log r ≡ ok a
      → decode_all log (rows ++ r ∷ []) ≡ ok (olds ++ a ∷ [])
  decode_all-end [] r olds a h e = rw e (ap (λ bs. ok (bs ++ a ∷ [])) (ok-injective h))
  decode_all-end (q ∷ rows) r olds a h e =
      let (b, first, h₁) = bind_ok (decode log q) _ h in
      let (bs, rest, h₂) = bind_ok (decode_all log rows) _ h₁ in
      rw (first, decode_all-end rows r bs a rest e) (ap (λ cs. ok (cs ++ a ∷ [])) (ok-injective h₂))

module _ {P : Type 0} (log : AuditLogger P)
    (reads_back : (p : P) → log.loads (log.dumps p) ≡ ok p) where
  decode-added :
      (now : Text) (payload : P) (rows : List Row)
      → decode log (added_row log now payload rows)
        ≡ ok (record_of log payload (added_row log now payload rows))
  unfolding new_row
  decode-added now payload rows = rw (reads_back payload) refl

  -- What entries lists after the calls: what it listed before, and what the specification allows.
  abbrev pub Lists : List (Call P) → AuditState → List (AuditRecord P) → Type 0
  Lists calls s olds =
      (news : List (AuditRecord P)) × (entries log none 0 (run log calls s).1.rows
        ≡ ok (olds ++ news))
      × History log calls (run log calls s).0 news

  step-Lists :
      (c : Call P) (calls : List (Call P)) (s : AuditState) (olds : List (AuditRecord P))
      → ((s' : AuditState) (olds' : List (AuditRecord P))
          → IsIntact log 1 genesis_hash s'.rows
          → entries log none 0 s'.rows ≡ ok olds'
          → Lists calls s' olds')
      → IsIntact log 1 genesis_hash (append log c.env c.payload s).1.rows
      → entries log none 0 s.rows ≡ ok olds
      → Stepped log c.payload s.rows (append log c.env c.payload s)
      → Lists (c ∷ calls) s olds
  unfolding entries
  step-Lists c calls s olds again intact listed (refused x raised same) =
      let (news, lists, history) =
        again (append log c.env c.payload s).1 olds intact (rw same listed) in
      (news, lists, dropped x raised history)
  step-Lists c calls s olds again intact listed (appended now grown outcome) =
      let r = record_of log c.payload (added_row log now c.payload s.rows) in
      let (news, lists, history) = again (append log c.env c.payload s).1 (olds ++ r ∷ []) intact (
        rw grown (decode_all-end log s.rows _ olds r listed (decode-added now c.payload s.rows))) in
      (r ∷ news, lists ∙ ap ok (append_assoc olds (r ∷ []) news), kept refl outcome history)

  -- Over an intact table, and where the JSON text of a payload gives the payload back, calls of
  -- append one after the other make entries list what it listed before and then, in the order of
  -- the calls, a record with the payload of each call that kept it. Every call that returned kept
  -- exactly the record that it returned; a call that added nothing raised.
  pub appends_are_listed :
      (calls : List (Call P)) (s : AuditState) (olds : List (AuditRecord P))
      → IsIntact log 1 genesis_hash s.rows
      → entries log none 0 s.rows ≡ ok olds
      → Lists calls s olds
  appends_are_listed [] s olds intact listed = ([], listed ∙ ap ok (sym (append-nil olds)), nothing)
  appends_are_listed (c ∷ calls) s olds intact listed =
      step-Lists c calls s olds (appends_are_listed calls)
        (append-IsIntact log c.env c.payload s intact).1 listed
        (append-Stepped log c.env c.payload s intact)
