-- ===== src/Audit/Chain.antt =====
-- What an intact chain of rows is, independently of the loop of verify_chain, and the loop's outcome
-- on intact and on damaged chains.
use privacy_gateway_llm_appl.Prelude.{
  ℕ, ◌+◌, ◌≤◌, Text, List, [], ◌∷◌, ◌++◌, true, false, ◌≡◌, ◌≢◌, ◌⊎◌, inl, inr, refl, ap, ◌∙◌, some,
  ◌==◌, Bool-cases, ==_iff, nat_eq, text_eq, length, All, insert, arith,
}
use native.Mathlib.Nat.{add-zero}
use privacy_gateway_llm_appl.Errors.{Result, ok}
use privacy_gateway_llm_appl.Audit.{
  AuditLogger, Row, compute_record_hash, mac, compare_digest, is_ascii, bar,
}
use privacy_gateway_llm_appl.Audit.Verify.{
  invalid, ChainVerificationResult, Reason, Walk, stopped, finished, walk, invalid_at,
  breaks_sequence, prev_hash_mismatch, record_hash_mismatch, mac_invalid,
}

abbrev pub IsHex : ℕ → Type 0
IsHex c = ((48 ≤ c) × (c ≤ 57)) ⊎ ((97 ≤ c) × (c ≤ 102))

-- hexdigest() returns lower-case hexadecimal digits.
pub record HasHexDigests {P : Type 0} (log : AuditLogger P) : Type 0 where
  pub sha256_hex : (m : Text) → All IsHex (log.sha256_hex m)
  pub hmac_hex : (m : Text) → All IsHex (log.hmac_hex log.hmac_key m)

pub is_ascii-hex : (s : Text) → All IsHex s → is_ascii s ≡ true
unfolding is_ascii
is_ascii-hex [] h = refl
is_ascii-hex (c ∷ s) (h, hs) = ground (arith, is_ascii-hex s hs)

pub not_bar_of_hex : (s : Text) → All IsHex s → All (λ c. c ≢ bar) s
not_bar_of_hex [] h = tt
not_bar_of_hex (c ∷ s) (h, hs) = (ground arith, not_bar_of_hex s hs)

pub compare_digest_ascii :
    (a b : Text) → is_ascii a ≡ true → is_ascii b ≡ true → compare_digest a b ≡ ok (a == b)
unfolding compare_digest
compare_digest_ascii a b ha hb = ground arith

pub compare_digest-true : (a b : Text) → compare_digest a b ≡ ok true → a ≡ b
unfolding compare_digest
compare_digest-true a b h = ground (arith, ==_iff a b)

module _ {P : Type 0} (log : AuditLogger P) where
  -- A row with the expected id and predecessor, its own hash, and that hash's MAC.
  pub record IsLinked (expected_id : ℕ) (expected_prev : Text) (r : Row) : Type 0 where
    pub id : r.id ≡ expected_id
    pub prev_hash : r.prev_hash ≡ expected_prev
    pub record_hash :
        compute_record_hash log r.id r.schema_version r.timestamp r.payload r.prev_hash
        ≡ r.record_hash
    pub record_mac : mac log r.record_hash ≡ r.record_mac

  -- Consecutive ids, each row linked to the one before.
  abbrev pub IsIntact : ℕ → Text → List Row → Type 0
  IsIntact expected_id expected_prev [] = Unit
  IsIntact expected_id expected_prev (r ∷ rows) =
      IsLinked expected_id expected_prev r × IsIntact (expected_id + 1) r.record_hash rows

abbrev pub macs_of : List Row → List (ℕ × Text) → List (ℕ × Text)
macs_of [] macs = macs
macs_of (r ∷ rows) macs = macs_of rows (insert r.id r.record_mac macs)

module _ {P : Type 0} (log : AuditLogger P) where
  -- A row that passes every test of the loop is linked.
  IsLinked-of_tests :
      (r : Row) (id : ℕ) (prev : Text)
      → r.id ≡ id
      → r.prev_hash ≡ prev
      → compute_record_hash log r.id r.schema_version r.timestamp r.payload r.prev_hash
        ≡ r.record_hash
      → mac log r.record_hash ≡ r.record_mac
      → IsLinked log id prev r
  IsLinked-of_tests r id prev a b c d = record {
    id = a;
    prev_hash = b;
    record_hash = c;
    record_mac = d;
  }

  abbrev Passed : Row → ℕ → Text → Result Walk → Result Walk → Type 0
  Passed r id prev rest out = IsLinked log id prev r × (rest ≡ out)

  -- The loop reaches its end only through rows that are linked.
  pub walk_sound :
      (rows : List Row) (checked : ℕ) (prev : Text) (id : ℕ) (macs : List (ℕ × Text)) {n : ℕ}
      {m : List (ℕ × Text)}
      → walk log rows checked prev id macs ≡ ok (finished n m)
      → IsIntact log id prev rows
  unfolding walk
  walk_sound [] checked prev id macs e = tt
  walk_sound (r ∷ rows) checked prev id macs {n} {m} e = ground (
    arith,
    ==_iff r.prev_hash prev,
    ==_iff (compute_record_hash log r.id r.schema_version r.timestamp r.payload r.prev_hash)
        r.record_hash,
    compare_digest-true (mac log r.record_hash) r.record_mac,
    walk_sound rows (checked + 1) r.record_hash (id + 1) (insert r.id r.record_mac macs) {n = n}
        {m = m},
  )

  -- An early return of the loop reports an invalid chain.
  pub walk_stopped :
      (rows : List Row) (checked : ℕ) (prev : Text) (id : ℕ) (macs : List (ℕ × Text))
      {s : ChainVerificationResult}
      → walk log rows checked prev id macs ≡ ok (stopped s)
      → s.status ≡ invalid
  unfolding walk
  walk_stopped [] checked prev id macs e = cc
  walk_stopped (r ∷ rows) checked prev id macs {s} e = ground (
    arith,
    walk_stopped rows (checked + 1) r.record_hash (id + 1) (insert r.id r.record_mac macs) {s = s},
  )

module _ {P : Type 0} (log : AuditLogger P) (hex : HasHexDigests log) where
  pub mac_is_ascii : (h : Text) → is_ascii (mac log h) ≡ true
  unfolding mac
  mac_is_ascii h = is_ascii-hex _ (hex.hmac_hex h)

  compare_digest-mac : (h m : Text) → mac log h ≡ m → compare_digest (mac log h) m ≡ ok true
  compare_digest-mac h m e =
      compare_digest_ascii (mac log h) m (mac_is_ascii h) (rw (← e) (mac_is_ascii h))
      ∙ ap ok ((==_iff (mac log h) m).1 e)

  -- The loop goes past a linked row.
  pub walk-past :
      (r : Row) (rows : List Row) (checked : ℕ) (prev : Text) (id : ℕ) (macs : List (ℕ × Text))
      → IsLinked log id prev r
      → walk log (r ∷ rows) checked prev id macs
        ≡ walk log rows (checked + 1) r.record_hash (id + 1) (insert r.id r.record_mac macs)
  unfolding walk
  walk-past r rows checked prev id macs h = ground (
    arith,
    ==_iff r.prev_hash prev,
    ==_iff (compute_record_hash log r.id r.schema_version r.timestamp r.payload r.prev_hash)
        r.record_hash,
    compare_digest-mac r.record_hash r.record_mac h.record_mac,
  )

  pub walk-intact :
      (rows : List Row) (checked : ℕ) (prev : Text) (id : ℕ) (macs : List (ℕ × Text))
      → IsIntact log id prev rows
      → walk log rows checked prev id macs
        ≡ ok (finished (checked + length rows) (macs_of rows macs))
  walk-intact [] checked prev id macs h = unfold walk in (ground arith)
  walk-intact (r ∷ rows) checked prev id macs (h, hs) =
      walk-past r rows checked prev id macs h
      ∙ walk-intact rows (checked + 1) r.record_hash (id + 1) (insert r.id r.record_mac macs) hs
      ∙ ap (λ (n : ℕ). ok (finished n (macs_of (r ∷ rows) macs))) (omega arith)

  abbrev StopsAt : Row → ℕ → Result Walk → Type 0
  StopsAt bad checked out =
      (why : Reason) × (out ≡ ok (stopped (invalid_at checked (some bad.id) why)))

  not_mac :
      (h m : Text) → is_ascii m ≡ true → (mac log h ≡ m) ⊎ (compare_digest (mac log h) m ≡ ok false)
  not_mac h m ascii = elim (Bool-cases (mac log h == m)) [
    | inl same ↦ inl ((==_iff (mac log h) m).0 same)
    | inr other ↦ inr (compare_digest_ascii (mac log h) m (mac_is_ascii h) ascii ∙ ap ok other)
  ]

  walk-bad :
      (bad : Row) (rest : List Row) (checked : ℕ) (prev : Text) (id : ℕ) (macs : List (ℕ × Text))
      → ¬ IsLinked log id prev bad
      → is_ascii bad.record_mac ≡ true
      → StopsAt bad (checked + 1) (walk log (bad ∷ rest) checked prev id macs)
  unfolding walk
  walk-bad bad rest checked prev id macs broken ascii = elim (Bool-cases (bad.id == id)) [
    | inr no_id ↦ (breaks_sequence bad.id id, ground arith)
    | inl is_id ↦ elim (Bool-cases (bad.prev_hash == prev)) [
      | inr no_prev ↦ (prev_hash_mismatch, ground arith)
      | inl is_prev ↦
          elim (Bool-cases (
            compute_record_hash log bad.id bad.schema_version bad.timestamp bad.payload
              bad.prev_hash
            == bad.record_hash)) [
              | inr no_hash ↦ (record_hash_mismatch, ground arith)
              | inl is_hash ↦ elim (not_mac bad.record_hash bad.record_mac ascii) [
                | inr no_mac ↦ (mac_invalid, ground arith)
                | inl is_mac ↦ absurd (
                    broken (
                      IsLinked-of_tests log bad id prev ((==_iff bad.id id).0 is_id)
                        ((==_iff bad.prev_hash prev).0 is_prev)
                        ((==_iff _ bad.record_hash).0 is_hash) is_mac))
              ]
            ]
    ]
  ]

  -- A row that is not linked stops the loop there, whatever stands intact before it.
  pub walk-damaged :
      (good : List Row) (bad : Row) (rest : List Row) (checked : ℕ) (prev : Text) (id : ℕ)
      (macs : List (ℕ × Text))
      → IsIntact log id prev good
      → ¬ IsIntact log id prev (good ++ bad ∷ [])
      → is_ascii bad.record_mac ≡ true
      → StopsAt bad (checked + length good + 1) (walk log (good ++ bad ∷ rest) checked prev id macs)
  walk-damaged [] bad rest checked prev id macs h broken ascii =
      rw add-zero (walk-bad bad rest checked prev id macs (λ l. broken (l, tt)) ascii)
  walk-damaged (r ∷ good) bad rest checked prev id macs (h, hs) broken ascii =
      let (why, stops) =
        walk-damaged good bad rest (checked + 1) r.record_hash (id + 1)
          (insert r.id r.record_mac macs) hs (λ i. broken (h, i)) ascii in
      (
        why,
        walk-past r (good ++ bad ∷ rest) checked prev id macs h
            ∙ stops
            ∙ ap (λ (n : ℕ). ok (stopped (invalid_at n (some bad.id) why))) (omega arith),
      )
