-- ===== src/Audit/Verdicts.antt =====
-- What verify_chain answers: which tables it calls valid, where it stops on a damaged one, and how
-- an external checkpoint changes the answer.
use privacy_gateway_llm_appl.Prelude.{
  ℕ, ◌+◌, ◌≤◌, ◌<◌, Text, List, [], ◌∷◌, ◌++◌, Option, none, some, true, false, ◌≡◌, ◌≢◌, ◌↔◌, inl,
  inr, refl, ap, ◌∙◌, subst, ◌==◌, Bool-cases, Option-cases, nat_eq, text_eq, length, lookup,
  insert, lookup-insert, if◌then◌else◌, arith,
}
use native.Mathlib.Nat.{zero-add}
use privacy_gateway_llm_appl.Errors.{Result, ok, raise, ◌>>=◌}
use privacy_gateway_llm_appl.Checkpoint.{AuditCheckpoint}
use privacy_gateway_llm_appl.Audit.{AuditLogger, Row, genesis_hash, is_ascii}
use privacy_gateway_llm_appl.Audit.Verify.{
  valid, invalid, Reason, checkpoint_record_missing, checkpoint_mac_mismatch, checkpoint_stale,
  ChainVerificationResult, invalid_at, valid_with, Walk, stopped, finished, last_id, walk, conclude,
  verify_chain,
}
use privacy_gateway_llm_appl.Audit.Chain.{
  HasHexDigests, IsLinked, IsIntact, macs_of, compare_digest_ascii, compare_digest-true, walk_sound,
  walk_stopped, mac_is_ascii, walk-intact, walk-damaged,
}

cons_ne_nil : (good : List Row) (bad : Row) (rest : List Row) → good ++ bad ∷ rest ≢ []
cons_ne_nil [] bad rest = cc
cons_ne_nil (r ∷ good) bad rest = cc

-- The row with a given id.
abbrev pub find_row : ℕ → List Row → Option Row
find_row k [] = none
find_row k (r ∷ rows) = if r.id == k then some r else find_row k rows

abbrev mac_or : Option Text → Option Row → Option Text
mac_or found none = found
mac_or found (some r) = some r.record_mac

-- The verdict on an intact, non-empty table of `n` rows, by the row that the checkpoint names.
abbrev pub checkpoint_verdict : AuditCheckpoint → ℕ → Option Row → ChainVerificationResult
checkpoint_verdict cp n none = invalid_at n none (checkpoint_record_missing cp.last_record_id)
checkpoint_verdict cp n (some r) =
    if r.record_mac == cp.last_record_mac
    then (if cp.last_record_id == n
        then valid_with n none true
        else valid_with n (some (checkpoint_stale cp.last_record_id n)) false)
    else invalid_at n (some cp.last_record_id) checkpoint_mac_mismatch

-- A result other than an early return of the loop comes from its end.
walk_finished :
    {P : Type 0} (log : AuditLogger P) (w : Result Walk) (cp : Option AuditCheckpoint) (latest : ℕ)
    {res : ChainVerificationResult}
    → (w >>= λ x. conclude log cp latest x) ≡ ok res
    → res.status ≡ valid
    → ((s : ChainVerificationResult) → w ≡ ok (stopped s) → s.status ≡ invalid)
    → (n : ℕ) × (m : List (ℕ × Text)) × (w ≡ ok (finished n m))
unfolding conclude
walk_finished log (raise x) cp latest e v h = cc
walk_finished log (ok (stopped s)) cp latest e v h = let i = h s refl in absurd (ground arith)
walk_finished log (ok (finished n m)) cp latest e v h = (n, m, refl)

module _ {P : Type 0} (log : AuditLogger P) where
  last_id-intact :
      (r : Row) (rows : List Row) (id : ℕ) (prev : Text)
      → IsIntact log id prev (r ∷ rows)
      → last_id r.id rows + 1 ≡ id + length (r ∷ rows)
  last_id-intact r [] id prev (h, hs) = omega (arith, h.id)
  last_id-intact r (q ∷ rows) id prev (h, hs) =
      omega (arith, last_id-intact q rows (id + 1) r.record_hash hs)

  pub find_row_below :
      (rows : List Row) (k id : ℕ) (prev : Text)
      → IsIntact log id prev rows
      → k < id
      → find_row k rows ≡ none
  find_row_below [] k id prev h lt = refl
  find_row_below (r ∷ rows) k id prev (h, hs) lt =
      ground (arith, h.id, find_row_below rows k (id + 1) r.record_hash hs (omega arith))

  pub find_row_above :
      (rows : List Row) (k id : ℕ) (prev : Text)
      → IsIntact log id prev rows
      → id + length rows ≤ k
      → find_row k rows ≡ none
  find_row_above [] k id prev h le = refl
  find_row_above (r ∷ rows) k id prev (h, hs) le =
      ground (arith, h.id, find_row_above rows k (id + 1) r.record_hash hs (omega arith))

  -- In an intact chain the dictionary of the loop holds the MAC of each row.
  lookup-macs_of :
      (rows : List Row) (k id : ℕ) (prev : Text) (macs : List (ℕ × Text))
      → IsIntact log id prev rows
      → lookup k (macs_of rows macs) ≡ mac_or (lookup k macs) (find_row k rows)
  lookup-macs_of [] k id prev macs h = refl
  lookup-macs_of (r ∷ rows) k id prev macs (h, hs) =
      lookup-macs_of rows k (id + 1) r.record_hash (insert r.id r.record_mac macs) hs
      ∙ ground (
        arith,
        h.id,
        lookup-insert r.id k r.record_mac macs,
        find_row_below rows k (id + 1) r.record_hash hs,
      )

  conclude-finished :
      (cp : AuditCheckpoint) (rows : List Row) (id : ℕ) (prev : Text) (latest n : ℕ)
      → IsIntact log id prev rows
      → latest ≡ n
      → ((r : Row) → find_row cp.last_record_id rows ≡ some r → is_ascii r.record_mac ≡ true)
      → is_ascii cp.last_record_mac ≡ true
      → conclude log (some cp) latest (finished n (macs_of rows []))
        ≡ ok (checkpoint_verdict cp n (find_row cp.last_record_id rows))
  unfolding conclude lookup
  conclude-finished cp rows id prev latest n h e ascii_rows ascii_cp =
      elim (Option-cases (find_row cp.last_record_id rows)) [
        | inl gone ↦
            let found = lookup-macs_of rows cp.last_record_id id prev [] h in ground (arith, found)
        | inr (r, there) ↦
            let found = lookup-macs_of rows cp.last_record_id id prev [] h in
            let ascii_r = ascii_rows r there in
            ground
              (arith, found, compare_digest_ascii r.record_mac cp.last_record_mac ascii_r ascii_cp)
      ]

  conclude_names :
      (cp : AuditCheckpoint) (rows : List Row) (id : ℕ) (prev : Text) (latest n : ℕ)
      {res : ChainVerificationResult}
      → IsIntact log id prev rows
      → conclude log (some cp) latest (finished n (macs_of rows [])) ≡ ok res
      → res.status ≡ valid
      → (q : Row) × (find_row cp.last_record_id rows ≡ some q) × (q.record_mac ≡ cp.last_record_mac)
  unfolding conclude lookup
  conclude_names cp rows id prev latest n {res} h e v =
      let found = lookup-macs_of rows cp.last_record_id id prev [] h in
      elim (Option-cases (find_row cp.last_record_id rows)) [
        | inl gone ↦ absurd (ground (arith, found))
        | inr (q, there) ↦
            (q, there, ground (arith, found, compare_digest-true q.record_mac cp.last_record_mac))
      ]

  pub find_row-IsLinked :
      (rows : List Row) (k id : ℕ) (prev : Text) {r : Row}
      → IsIntact log id prev rows
      → find_row k rows ≡ some r
      → (j : ℕ) × (p : Text) × IsLinked log j p r
  find_row-IsLinked [] k id prev h e = cc
  find_row-IsLinked (q ∷ rows) k id prev {r} (h, hs) e = elim (Bool-cases (q.id == k)) [
    | inl here ↦
        let same : q ≡ r = ground arith in (id, prev, subst (λ x. IsLinked log id prev x) same h)
    | inr later ↦ find_row-IsLinked rows k (id + 1) q.record_hash hs (ground arith)
  ]

  -- A table that is called valid is intact, with and without a checkpoint.
  pub verify_chain_sound :
      (cp : Option AuditCheckpoint) (r : Row) (rows : List Row) {res : ChainVerificationResult}
      → verify_chain log cp (r ∷ rows) ≡ ok res
      → res.status ≡ valid
      → IsIntact log 1 genesis_hash (r ∷ rows)
  unfolding verify_chain
  verify_chain_sound cp r rows e v =
      let (n, m, f) =
        walk_finished log _ cp (last_id r.id rows) e v
          (λ s q. walk_stopped log (r ∷ rows) 0 genesis_hash 1 [] q) in
      walk_sound log (r ∷ rows) 0 genesis_hash 1 [] f

  verify_chain_stopped :
      (cp : Option AuditCheckpoint) (rows : List Row) {s : ChainVerificationResult}
      → rows ≢ []
      → walk log rows 0 genesis_hash 1 [] ≡ ok (stopped s)
      → verify_chain log cp rows ≡ ok s
  unfolding verify_chain conclude
  verify_chain_stopped cp [] ne e = absurd (ne refl)
  verify_chain_stopped cp (r ∷ rows) ne e = rw e

module _ {P : Type 0} (log : AuditLogger P) (hex : HasHexDigests log) where
  -- Where digests are hexadecimal, verify_chain without a checkpoint calls a non-empty table valid, all
  -- rows examined, exactly if it is intact.
  pub verify_chain-valid_iff :
      (r : Row) (rows : List Row)
      → (verify_chain log none (r ∷ rows) ≡ ok (valid_with (length (r ∷ rows)) none false))
        ↔ IsIntact log 1 genesis_hash (r ∷ rows)
  unfolding verify_chain conclude
  verify_chain-valid_iff r rows = (
    λ e. verify_chain_sound log none r rows e refl,
    λ h. rw (walk-intact log hex (r ∷ rows) 0 genesis_hash 1 [] h) (ground arith),
  )

  -- An intact, non-empty table against a checkpoint whose MAC is ASCII, where digests are hexadecimal:
  -- verify_chain answers by the row that the checkpoint names. Without such a row, or if its MAC is
  -- another one, the answer is INVALID; for the last row it is VALID with the tail verified, for an
  -- earlier one VALID with a stale checkpoint.
  pub verify_chain-checkpoint :
      (r : Row) (rows : List Row) (cp : AuditCheckpoint)
      → IsIntact log 1 genesis_hash (r ∷ rows)
      → is_ascii cp.last_record_mac ≡ true
      → verify_chain log (some cp) (r ∷ rows)
        ≡ ok (checkpoint_verdict cp (length (r ∷ rows)) (find_row cp.last_record_id (r ∷ rows)))
  unfolding verify_chain
  verify_chain-checkpoint r rows cp h ascii =
      rw (walk-intact log hex (r ∷ rows) 0 genesis_hash 1 [] h, zero-add)
        (conclude-finished log cp (r ∷ rows) 1 genesis_hash (last_id r.id rows) _ h
          (omega (arith, last_id-intact log r rows 1 genesis_hash h))
          (λ q there.
            let (j, p, l) =
              find_row-IsLinked log (r ∷ rows) cp.last_record_id 1 genesis_hash h there in
            rw (← l.record_mac) (mac_is_ascii log hex q.record_hash))
          ascii)

  -- If rows are intact and not with one more, whose MAC is ASCII, then verify_chain reports that row
  -- as the first invalid one and the number of rows up to it as examined, whatever rows follow and
  -- with every checkpoint, where digests are hexadecimal.
  pub verify_chain-damaged :
      (good : List Row) (bad : Row) (rest : List Row) (cp : Option AuditCheckpoint)
      → IsIntact log 1 genesis_hash good
      → ¬ IsIntact log 1 genesis_hash (good ++ bad ∷ [])
      → is_ascii bad.record_mac ≡ true
      → (why : Reason) × (verify_chain log cp (good ++ bad ∷ rest)
          ≡ ok (invalid_at (length good + 1) (some bad.id) why))
  verify_chain-damaged good bad rest cp h broken ascii =
      let (why, stops) = walk-damaged log hex good bad rest 0 genesis_hash 1 [] h broken ascii in
      (
        why,
        verify_chain_stopped log cp (good ++ bad ∷ rest) (cons_ne_nil good bad rest) stops
            ∙ ap ok (ap (λ (n : ℕ). invalid_at n (some bad.id) why) (omega arith)),
      )

  -- A table that is valid against a checkpoint holds the row that it names, with that MAC.
  pub verify_chain_names :
      (r : Row) (rows : List Row) (cp : AuditCheckpoint) {res : ChainVerificationResult}
      → verify_chain log (some cp) (r ∷ rows) ≡ ok res
      → res.status ≡ valid
      → (q : Row) × (find_row cp.last_record_id (r ∷ rows) ≡ some q)
        × (q.record_mac ≡ cp.last_record_mac)
  unfolding verify_chain
  verify_chain_names r rows cp {res} e v =
      let h = verify_chain_sound log (some cp) r rows e v in
      let e' = rw (walk-intact log hex (r ∷ rows) 0 genesis_hash 1 [] h) at e in
      conclude_names log cp (r ∷ rows) 1 genesis_hash (last_id r.id rows) _ h e' v
