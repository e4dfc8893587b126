-- ===== src/Audit/Concurrent.antt =====
-- Several writers that share one database and one checkpoint store. A transaction of _append_once is
-- one step (BEGIN IMMEDIATE admits a single writer); the checkpoint that it leads to is saved by a
-- later step, in any order with the steps of other writers, or never.
use privacy_gateway_llm_appl.Prelude.{
  ℕ, ◌+◌, Text, List, [], ◌∷◌, ◌++◌, Option, none, some, true, ◌≡◌, ◌≢◌, refl, ◌∙◌, subst, ap, All,
  length, nat_eq, ◌==◌, arith, Bool-cases, ==_iff, text_eq, inl, inr,
}
use privacy_gateway_llm_appl.Errors.{ok}
use privacy_gateway_llm_appl.Checkpoint.{AuditCheckpoint}
use privacy_gateway_llm_appl.Audit.{AuditLogger, Row, genesis_hash, is_ascii}
use privacy_gateway_llm_appl.Audit.Append.{new_row, append_once, checkpoint_for, record_of}
use privacy_gateway_llm_appl.Audit.Verify.{
  invalid, empty_log, unverifiable, ChainVerificationResult, verify_chain, verify_with_store,
}
use privacy_gateway_llm_appl.Audit.Chain.{HasHexDigests, IsIntact, mac_is_ascii}
use privacy_gateway_llm_appl.Audit.Verdicts.{
  find_row, find_row_above, verify_chain-valid_iff, verify_chain-checkpoint, checkpoint_verdict,
  find_row-IsLinked,
}
use privacy_gateway_llm_appl.Audit.Growth.{added_row, extend-IsIntact, append_once-committed}

-- The shared state, with the checkpoints that writers have still to save.
pub record Shared : Type 0 where
  pub rows : List Row
  pub checkpoint : Option AuditCheckpoint
  pub pending : List AuditCheckpoint

abbrev pub start : Shared
start = record { rows = []; checkpoint = none; pending = [] }

-- An element taken out of the middle.
All-take {ℓ κ} :
    {A : Type ℓ} (Q : A → Type κ) (before after : List A) (a : A)
    → All Q (before ++ a ∷ after)
    → Q a × All Q (before ++ after)
All-take Q [] after a h = h
All-take Q (b ∷ before) after a (h, hs) =
    let (q, rest) = All-take Q before after a hs in (q, (h, rest))

module _ {P : Type 0} (log : AuditLogger P) where
  pub data Step (s : Shared) : Shared → Type 0 where
    commit :
        (now saved_at : Text) (payload : P)
        → Step s (record {
          rows =
              (append_once log
                (record { now = now; failure = none })
                (log.dumps payload)
                payload
                s.rows).1;
          checkpoint = s.checkpoint;
          pending =
              checkpoint_for log saved_at (record_of log payload (added_row log now payload s.rows))
              ∷ s.pending;
        })
    save :
        (before after : List AuditCheckpoint) (cp : AuditCheckpoint)
        → s.pending ≡ before ++ cp ∷ after
        → Step s (record s { checkpoint = some cp; pending = before ++ after })
    give_up :
        (before after : List AuditCheckpoint) (cp : AuditCheckpoint)
        → s.pending ≡ before ++ cp ∷ after
        → Step s (record s { pending = before ++ after })

  pub data Reach : Shared → Type 0 where
    here : Reach start
    next : {s t : Shared} → Reach s → Step s t → Reach t

  -- The checkpoint names a row of the table, with its MAC.
  pub record Names (rows : List Row) (cp : AuditCheckpoint) : Type 0 where
    pub row : Row
    pub found : find_row cp.last_record_id rows ≡ some row
    pub mac : row.record_mac ≡ cp.last_record_mac

  abbrev NamesIfSome : List Row → Option AuditCheckpoint → Type 0
  NamesIfSome rows none = Unit
  NamesIfSome rows (some cp) = Names rows cp

  pub record IsSound (s : Shared) : Type 0 where
    pub intact : IsIntact log 1 genesis_hash s.rows
    pub saved : NamesIfSome s.rows s.checkpoint
    pub awaited : All (Names s.rows) s.pending

  find_row-append :
      (k : ℕ) (rows more : List Row) {r : Row}
      → find_row k rows ≡ some r
      → find_row k (rows ++ more) ≡ some r
  find_row-append k [] more e = absurd (ground arith)
  find_row-append k (q ∷ rows) more {r} e = elim (Bool-cases (q.id == k)) [
    | inl first ↦ rw first (rw first at e)
    | inr later ↦ rw later (find_row-append k rows more (rw later at e))
  ]

  Names-append :
      (rows more : List Row) {cp : AuditCheckpoint} → Names rows cp → Names (rows ++ more) cp
  Names-append rows more {cp} n = record {
    row = n.row;
    found = find_row-append cp.last_record_id rows more n.found;
    mac = n.mac;
  }

  All-Names-append :
      (rows more : List Row) (cps : List AuditCheckpoint)
      → All (Names rows) cps
      → All (Names (rows ++ more)) cps
  All-Names-append rows more [] h = tt
  All-Names-append rows more (cp ∷ cps) (h, hs) =
      (Names-append rows more h, All-Names-append rows more cps hs)

  NamesIfSome-append :
      (rows more : List Row) (cp : Option AuditCheckpoint)
      → NamesIfSome rows cp
      → NamesIfSome (rows ++ more) cp
  NamesIfSome-append rows more none h = tt
  NamesIfSome-append rows more (some cp) h = Names-append rows more h

  pub find_row-last :
      (k : ℕ) (rows : List Row) (r : Row)
      → find_row k rows ≡ none
      → r.id ≡ k
      → find_row k (rows ++ r ∷ []) ≡ some r
  find_row-last k [] r e same = ground arith
  find_row-last k (q ∷ rows) r e same = elim (Bool-cases (q.id == k)) [
    | inl first ↦ absurd (ground arith)
    | inr later ↦ rw later (find_row-last k rows r (rw later at e) same)
  ]

  pub Names-added :
      (now saved_at : Text) (payload : P) (rows : List Row)
      → IsIntact log 1 genesis_hash rows
      → Names
          (rows ++ added_row log now payload rows ∷ [])
          (checkpoint_for log saved_at (record_of log payload (added_row log now payload rows)))
  unfolding new_row
  Names-added now saved_at payload rows h = record {
    row = added_row log now payload rows;
    found =
        find_row-last (1 + length rows) rows (added_row log now payload rows)
          (find_row_above log rows (1 + length rows) 1 genesis_hash h (omega arith)) refl;
    mac = refl;
  }

  Step-IsSound : {s t : Shared} → Step s t → IsSound s → IsSound t
  Step-IsSound {s} (commit now saved_at payload) v =
      rw
        (append_once-committed log (record { now = now; failure = none }) payload s.rows v.intact
          refl)
        (record {
          intact = extend-IsIntact log s.rows now payload v.intact;
          saved = NamesIfSome-append s.rows _ s.checkpoint v.saved;
          awaited = (
            Names-added now saved_at payload s.rows v.intact,
            All-Names-append s.rows _ s.pending v.awaited,
          );
        })
  Step-IsSound {s} (save before after cp e) v =
      let (named, rest) =
        All-take (Names s.rows) before after cp (subst (All (Names s.rows)) e v.awaited) in
      record { intact = v.intact; saved = named; awaited = rest }
  Step-IsSound {s} (give_up before after cp e) v =
      let (named, rest) =
        All-take (Names s.rows) before after cp (subst (All (Names s.rows)) e v.awaited) in
      record { intact = v.intact; saved = v.saved; awaited = rest }

  -- In every state that the writers can reach, the table is intact, and the saved checkpoint and those
  -- still to be saved name rows of it.
  pub Reach-IsSound : {s : Shared} → Reach s → IsSound s
  Reach-IsSound here = record { intact = tt; saved = tt; awaited = tt }
  Reach-IsSound (next r st) = Step-IsSound st (Reach-IsSound r)

module _ {P : Type 0} (log : AuditLogger P) (hex : HasHexDigests log) where
  pub Names-ascii :
      (rows : List Row) (cp : AuditCheckpoint)
      → IsIntact log 1 genesis_hash rows
      → Names log rows cp
      → is_ascii cp.last_record_mac ≡ true
  Names-ascii rows cp h n =
      let (j, p, l) = find_row-IsLinked log rows cp.last_record_id 1 genesis_hash h n.found in
      rw (← n.mac, ← l.record_mac) (mac_is_ascii log hex n.row.record_hash)

  -- What the verifier answers with the checkpoint of the store.
  abbrev pub NoAlarm : List Row → Option AuditCheckpoint → ChainVerificationResult → Type 0
  NoAlarm rows stored res =
      (verify_with_store log (some (ok stored)) rows ≡ ok res)
      × (res.status ≢ invalid)
      × ((cp : AuditCheckpoint)
          → stored ≡ some cp
          → res.tail_verified ≡ (cp.last_record_id == length rows))

  named_verdict :
      (cp : AuditCheckpoint) (n : ℕ) (found : Option Row) (q : Row)
      → found ≡ some q
      → q.record_mac ≡ cp.last_record_mac
      → ((checkpoint_verdict cp n found).status ≢ invalid)
        × ((checkpoint_verdict cp n found).tail_verified ≡ (cp.last_record_id == n))
  named_verdict cp n found q e m =
      let same = (==_iff q.record_mac cp.last_record_mac).1 m in
      (ground (arith, same), ground (arith, same))

  answer :
      (rows : List Row) (stored : Option AuditCheckpoint)
      → IsIntact log 1 genesis_hash rows
      → NamesIfSome log rows stored
      → (res : ChainVerificationResult) × NoAlarm rows stored res
  unfolding verify_with_store
  answer [] none h n = (empty_log, (unfold verify_chain in refl, cc, λ cp e. cc))
  answer [] (some cp) h n = absurd (let e = n.found in ground arith)
  answer (r ∷ rows) none h n = (
    unverifiable (length (r ∷ rows)),
    (rw ((verify_chain-valid_iff log hex r rows).1 h), cc, λ cp e. cc),
  )
  answer (r ∷ rows) (some cp) h n =
      let (fine, tail) =
        named_verdict cp (length (r ∷ rows)) (find_row cp.last_record_id (r ∷ rows)) n.row n.found
          n.mac in
      (
        checkpoint_verdict cp (length (r ∷ rows)) (find_row cp.last_record_id (r ∷ rows)),
        (
          verify_chain-checkpoint log hex r rows cp h (Names-ascii (r ∷ rows) cp h n),
          fine,
          λ c e.
              let same : cp ≡ c = cc in
              tail ∙ ap (λ (x : AuditCheckpoint). x.last_record_id == length (r ∷ rows)) same,
        ),
      )

  -- In every reachable state, whatever the interleaving of commits and saves, verification against
  -- the store returns an answer and never calls the log invalid; with a checkpoint saved, the tail is
  -- verified exactly if the checkpoint is for the last row. Digests are taken to be hexadecimal.
  pub no_false_alarm :
      (s : Shared) → Reach log s → (res : ChainVerificationResult) × NoAlarm s.rows s.checkpoint res
  no_false_alarm s r = let v = Reach-IsSound log r in answer s.rows s.checkpoint v.intact v.saved
