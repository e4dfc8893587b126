-- ===== src/Audit/Tampering.antt =====
-- What verify_chain does on particular manipulations of the table: a truncated tail, a MAC that is
-- not ASCII, and a '|' moved between the timestamp and the payload of a row.
use privacy_gateway_llm_appl.Prelude.{
  ℕ, ◌+◌, ◌<◌, Text, List, [], ◌∷◌, ◌++◌, Option, none, some, true, false, ◌≡◌, ◌≢◌, refl, ap, ◌∙◌,
  ==_iff, nat_eq, text_eq, length, length-append, str, insert, arith,
}
use privacy_gateway_llm_appl.Errors.{ok, raise, type_error}
use privacy_gateway_llm_appl.Checkpoint.{AuditCheckpoint}
use privacy_gateway_llm_appl.Audit.{
  AuditLogger, Row, genesis_hash, bar, material, mac, compute_record_hash, compare_digest, is_ascii,
}
use privacy_gateway_llm_appl.Audit.Verify.{
  walk, last_id, verify_chain, valid_with, invalid_at, checkpoint_record_missing,
}
use privacy_gateway_llm_appl.Audit.Chain.{HasHexDigests, IsIntact, walk-past, mac_is_ascii}
use privacy_gateway_llm_appl.Audit.Verdicts.{
  find_row_above, verify_chain-valid_iff, verify_chain-checkpoint, checkpoint_verdict,
}

-- The row with the text up to a '|' of its payload moved to the end of its timestamp.
abbrev pub shifted : Row → Text → Text → Row
shifted r a b = record r { timestamp = r.timestamp ++ bar ∷ a; payload = b }

regroup_payload : (a b h : Text) → a ++ bar ∷ (b ++ bar ∷ h) ≡ (a ++ bar ∷ b) ++ bar ∷ h
regroup_payload [] b h = refl
regroup_payload (c ∷ a) b h = ap (λ (x : Text). c ∷ x) (regroup_payload a b h)

regroup :
    (t a b h : Text)
    → (t ++ bar ∷ a) ++ bar ∷ (b ++ bar ∷ h) ≡ t ++ bar ∷ ((a ++ bar ∷ b) ++ bar ∷ h)
regroup [] a b h = ap (λ (x : Text). bar ∷ x) (regroup_payload a b h)
regroup (c ∷ t) a b h = ap (λ (x : Text). c ∷ x) (regroup t a b h)

longer : (t a : Text) → length (t ++ bar ∷ a) ≢ length t
longer t a e = omega (arith, length-append {0} t (bar ∷ a))

shifted_differs : (r : Row) (a b : Text) → shifted r a b ≢ r
shifted_differs r a b e = longer r.timestamp a (ap (λ (q : Row). length q.timestamp) e)

module _ {P : Type 0} (log : AuditLogger P) where
  IsIntact-prefix :
      (kept lost : List Row) (id : ℕ) (prev : Text)
      → IsIntact log id prev (kept ++ lost)
      → IsIntact log id prev kept
  IsIntact-prefix [] lost id prev h = tt
  IsIntact-prefix (r ∷ kept) lost id prev (h, hs) =
      (h, IsIntact-prefix kept lost (id + 1) r.record_hash hs)

  shifted-hash :
      (r : Row) (a b : Text)
      → r.payload ≡ a ++ bar ∷ b
      → compute_record_hash log r.id r.schema_version (r.timestamp ++ bar ∷ a) b r.prev_hash
        ≡ compute_record_hash log r.id r.schema_version r.timestamp r.payload r.prev_hash
  unfolding compute_record_hash material
  shifted-hash r a b e = rw e (
      ap (λ (t : Text). log.sha256_hex (str r.id ++ bar ∷ (str r.schema_version ++ bar ∷ t)))
        (regroup r.timestamp a b r.prev_hash))

  walk-shifted :
      (before : List Row) (r : Row) (after : List Row) (a b : Text) (checked : ℕ) (prev : Text)
      (id : ℕ) (macs : List (ℕ × Text))
      → r.payload ≡ a ++ bar ∷ b
      → walk log (before ++ shifted r a b ∷ after) checked prev id macs
        ≡ walk log (before ++ r ∷ after) checked prev id macs
  unfolding walk
  walk-shifted [] r after a b checked prev id macs e = rw (shifted-hash r a b e)
  walk-shifted (q ∷ before) r after a b checked prev id macs e = rw (
      walk-shifted before r after a b (checked + 1) q.record_hash (id + 1)
        (insert q.id q.record_mac macs) e)

  last_id-shifted :
      (before : List Row) (r : Row) (after : List Row) (a b : Text) (i : ℕ)
      → last_id i (before ++ shifted r a b ∷ after) ≡ last_id i (before ++ r ∷ after)
  last_id-shifted [] r after a b i = refl
  last_id-shifted (q ∷ before) r after a b i = last_id-shifted before r after a b q.id

  -- If the payload of a row holds a '|', the text before it can be moved to the end of the timestamp:
  -- the row is then another one, and verify_chain gives the same answer as before, for every table
  -- and every checkpoint.
  pub shifted_unnoticed :
      (before : List Row) (r : Row) (after : List Row) (a b : Text) (cp : Option AuditCheckpoint)
      → r.payload ≡ a ++ bar ∷ b
      → (shifted r a b ≢ r)
        × (verify_chain log cp (before ++ shifted r a b ∷ after)
            ≡ verify_chain log cp (before ++ r ∷ after))
  unfolding verify_chain
  shifted_unnoticed [] r after a b cp e =
      (shifted_differs r a b, rw (walk-shifted [] r after a b 0 genesis_hash 1 [] e))
  shifted_unnoticed (q ∷ before) r after a b cp e = (
    shifted_differs r a b,
    rw (
      walk-shifted (q ∷ before) r after a b 0 genesis_hash 1 [] e,
      last_id-shifted before r after a b q.id,
    ),
  )

module _ {P : Type 0} (log : AuditLogger P) (hex : HasHexDigests log) where
  -- The row with the MAC that its hash should have.
  abbrev pub remade : Row → Row
  remade r = record r { record_mac = mac log r.record_hash }

  -- Deleting the newest rows, but not all, of an intact table leaves a table that is valid without a
  -- checkpoint, and is found out by a checkpoint with an ASCII MAC for an id beyond the rows that are
  -- left, where digests are hexadecimal.
  pub truncation :
      (r : Row) (kept lost : List Row) (cp : AuditCheckpoint)
      → IsIntact log 1 genesis_hash (r ∷ kept ++ lost)
      → length (r ∷ kept) < cp.last_record_id
      → is_ascii cp.last_record_mac ≡ true
      → (verify_chain log none (r ∷ kept) ≡ ok (valid_with (length (r ∷ kept)) none false))
        × (verify_chain log (some cp) (r ∷ kept)
            ≡ ok
                (invalid_at (length (r ∷ kept)) none (checkpoint_record_missing cp.last_record_id)))
  truncation r kept lost cp h lt ascii =
      let intact = IsIntact-prefix log (r ∷ kept) lost 1 genesis_hash h in
      (
        (verify_chain-valid_iff log hex r kept).1 intact,
        verify_chain-checkpoint log hex r kept cp intact ascii
            ∙ ap (λ found. ok (checkpoint_verdict cp (length (r ∷ kept)) found))
                (find_row_above log (r ∷ kept) cp.last_record_id 1 genesis_hash intact
                  (omega arith)),
      )

  walk-non_ascii :
      (good : List Row) (bad : Row) (rest : List Row) (checked : ℕ) (prev : Text) (id : ℕ)
      (macs : List (ℕ × Text))
      → IsIntact log id prev (good ++ remade bad ∷ [])
      → is_ascii bad.record_mac ≡ false
      → walk log (good ++ bad ∷ rest) checked prev id macs ≡ raise type_error
  walk-non_ascii [] bad rest checked prev id macs (l, h) not_ascii =
      unfold walk compare_digest in
      ground (
        arith,
        l.id,
        l.prev_hash,
        l.record_hash,
        ==_iff bad.prev_hash prev,
        ==_iff
            (compute_record_hash log bad.id bad.schema_version bad.timestamp bad.payload
              bad.prev_hash)
            bad.record_hash,
        mac_is_ascii log hex bad.record_hash,
      )
  walk-non_ascii (r ∷ good) bad rest checked prev id macs (l, h) not_ascii =
      walk-past log hex r (good ++ bad ∷ rest) checked prev id macs l
      ∙ walk-non_ascii good bad rest (checked + 1) r.record_hash (id + 1)
          (insert r.id r.record_mac macs) h not_ascii

  -- If only the MAC of a row is wrong, the rows before it are intact and the MAC is not ASCII, then
  -- verify_chain raises TypeError, where digests are hexadecimal.
  pub verify_chain-non_ascii :
      (good : List Row) (bad : Row) (rest : List Row) (cp : Option AuditCheckpoint)
      → IsIntact log 1 genesis_hash (good ++ remade bad ∷ [])
      → is_ascii bad.record_mac ≡ false
      → verify_chain log cp (good ++ bad ∷ rest) ≡ raise type_error
  unfolding verify_chain
  verify_chain-non_ascii [] bad rest cp h not_ascii =
      rw (walk-non_ascii [] bad rest 0 genesis_hash 1 [] h not_ascii)
  verify_chain-non_ascii (r ∷ good) bad rest cp h not_ascii =
      rw (walk-non_ascii (r ∷ good) bad rest 0 genesis_hash 1 [] h not_ascii)
