-- ===== src/Evaluation/Attacks/Forgeries.antt =====
-- The scenarios of evaluation/run_audit_attack_evaluation.py in which the verifier has to find a row that
-- was changed, taken away, moved, copied or written without the key.
use privacy_gateway_llm_appl.Prelude.{
  ℕ, Text, codes, List, [], ◌∷◌, ◌++◌, none, true, false, ◌≡◌, ◌≢◌, refl, sym, ap, length, text_beq,
  nat_eq, arith, inl, inr,
}
use privacy_gateway_llm_appl.Errors.{Result, ok}
use privacy_gateway_llm_appl.Audit.{AuditLogger, Row, is_ascii, compute_record_hash, mac}
use privacy_gateway_llm_appl.Audit.Append.{new_row}
use privacy_gateway_llm_appl.Audit.Chain.{mac_is_ascii}
use privacy_gateway_llm_appl.Audit.Pinned.{NoCollision}
use privacy_gateway_llm_appl.Audit.Verdicts.{verify_chain-damaged}
use privacy_gateway_llm_appl.Gateway.Admin.{status_value}
use privacy_gateway_llm_appl.Evaluation.Tables.{
  insert_by_id, order_by_id, update_where, delete_where, select_where,
}
use privacy_gateway_llm_appl.Evaluation.Attacks.{
  Note, Bench, logger_with, logger, attack_key, different_key, numbered_note, observe, run,
  modify_record_content, modify_timestamp, modify_prev_hash, delete_middle_record, reorder,
  duplicate, rehash_without_key, wrong_key, all_f,
}
use privacy_gateway_llm_appl.Evaluation.Attacks.Hashes.{same_payload, same_timestamp, other_id}
use privacy_gateway_llm_appl.Evaluation.Attacks.Benches.{
  IsDocumented, IsCalm, nth_row, forged_hash, forged_row, MeetsNoCollision, HasHexDigests-logger,
  grown, Table, grown-IsIntact, five, fresh_logger-grown, create_checkpoint-end, Passes,
}

module _ (bench : Bench) (documented : IsDocumented bench.library) (calm : IsCalm bench) where
  abbrev log : AuditLogger Note
  log = logger bench

  -- Rows in front of a damaged one, and the damaged table.
  record IsDamaged (rows : List Row) : Type 0 where
    good : List Row
    bad : Row
    rest : List Row
    split : rows ≡ good ++ bad ∷ rest
    intact : Table bench good
    broken : ¬ Table bench (good ++ bad ∷ [])
    ascii : is_ascii bad.record_mac ≡ true

  run-Passes :
      (name : Text) (attack : List Row → Result (List Row)) (rows : List Row)
      → attack (five bench name) ≡ ok rows
      → IsDamaged (order_by_id rows)
      → Passes (run bench name (codes "invalid") attack false)
  unfolding run observe status_value text_beq
  run-Passes name attack rows same d =
      let (why, found) =
        verify_chain-damaged log (HasHexDigests-logger bench attack_key documented) d.good d.bad
          d.rest none d.intact d.broken d.ascii in
      rw
        (
          fresh_logger-grown bench name 5 calm,
          create_checkpoint-end bench (bench.now name) ((bench.env name 5).attempt 0).now
              (numbered_note 5) (grown bench name numbered_note 4 1 []) documented,
          same,
          d.split,
          found,
        )
        (_, refl, refl)

  modified_content :
      (name : Text)
      → NoCollision log
          (record (nth_row bench name 3) { payload = codes "{}" })
          (nth_row bench name 3)
      → IsDamaged (order_by_id (modify_record_content (five bench name)))
  unfolding new_row update_where order_by_id insert_by_id compute_record_hash
  modified_content name free = record {
    good = nth_row bench name 1 ∷ nth_row bench name 2 ∷ [];
    bad = record (nth_row bench name 3) { payload = codes "{}" };
    rest = nth_row bench name 4 ∷ nth_row bench name 5 ∷ [];
    split = refl;
    intact = grown-IsIntact bench name numbered_note 2 1 [] tt;
    broken = λ h.
        documented.has_keys (numbered_note 3)
          (sym (same_payload 3 _ _ _ _ (free.sha256 h.1.1.0.record_hash)));
    ascii = mac_is_ascii log (HasHexDigests-logger bench attack_key documented) _;
  }

  modified_timestamp :
      (name : Text)
      → NoCollision log
          (record (nth_row bench name 2) { timestamp = codes "2001-01-01T00:00:00+00:00" })
          (nth_row bench name 2)
      → IsDamaged (order_by_id (modify_timestamp (five bench name)))
  unfolding new_row update_where order_by_id insert_by_id compute_record_hash
  modified_timestamp name free = record {
    good = nth_row bench name 1 ∷ [];
    bad = record (nth_row bench name 2) { timestamp = codes "2001-01-01T00:00:00+00:00" };
    rest = nth_row bench name 3 ∷ nth_row bench name 4 ∷ nth_row bench name 5 ∷ [];
    split = refl;
    intact = grown-IsIntact bench name numbered_note 1 1 [] tt;
    broken =
        λ h. calm.clock name 2 (sym (same_timestamp 2 _ _ _ _ (free.sha256 h.1.0.record_hash)));
    ascii = mac_is_ascii log (HasHexDigests-logger bench attack_key documented) _;
  }

  modified_prev_hash :
      (name : Text)
      → (nth_row bench name 3).record_hash ≢ all_f
      → IsDamaged (order_by_id (modify_prev_hash (five bench name)))
  unfolding new_row update_where order_by_id insert_by_id compute_record_hash
  modified_prev_hash name other = record {
    good = nth_row bench name 1 ∷ nth_row bench name 2 ∷ nth_row bench name 3 ∷ [];
    bad = record (nth_row bench name 4) { prev_hash = all_f };
    rest = nth_row bench name 5 ∷ [];
    split = refl;
    intact = grown-IsIntact bench name numbered_note 3 1 [] tt;
    broken = λ h. other (sym h.1.1.1.0.prev_hash);
    ascii = mac_is_ascii log (HasHexDigests-logger bench attack_key documented) _;
  }

  deleted_middle : (name : Text) → IsDamaged (order_by_id (delete_middle_record (five bench name)))
  unfolding new_row delete_where order_by_id insert_by_id
  deleted_middle name = record {
    good = nth_row bench name 1 ∷ nth_row bench name 2 ∷ [];
    bad = nth_row bench name 4;
    rest = nth_row bench name 5 ∷ [];
    split = refl;
    intact = grown-IsIntact bench name numbered_note 2 1 [] tt;
    broken = λ h. let e : ◌≡◌ {A = ℕ} 4 3 = h.1.1.0.id in omega arith;
    ascii = mac_is_ascii log (HasHexDigests-logger bench attack_key documented) _;
  }

  reordered :
      (name : Text)
      → NoCollision log (record (nth_row bench name 3) { id = 2 }) (nth_row bench name 3)
      → IsDamaged (order_by_id (reorder (five bench name)))
  unfolding new_row update_where order_by_id insert_by_id compute_record_hash
  reordered name free = record {
    good = nth_row bench name 1 ∷ [];
    bad = record (nth_row bench name 3) { id = 2 };
    rest =
        record (nth_row bench name 2) { id = 3 } ∷ nth_row bench name 4 ∷ nth_row bench name 5 ∷ [];
    split = refl;
    intact = grown-IsIntact bench name numbered_note 1 1 [] tt;
    broken = λ h. other_id 3 _ _ _ (inl refl) (free.sha256 h.1.0.record_hash);
    ascii = mac_is_ascii log (HasHexDigests-logger bench attack_key documented) _;
  }

  duplicated :
      (name : Text)
      → NoCollision log (record (nth_row bench name 2) { id = 6 }) (nth_row bench name 2)
      → IsDamaged (order_by_id (five bench name ++ record (nth_row bench name 2) { id = 6 } ∷ []))
  unfolding new_row order_by_id insert_by_id compute_record_hash
  duplicated name free = record {
    good = five bench name;
    bad = record (nth_row bench name 2) { id = 6 };
    rest = [];
    split = refl;
    intact = grown-IsIntact bench name numbered_note 5 1 [] tt;
    broken = λ h. other_id 6 _ _ _ (inr refl) (sym (free.sha256 h.1.1.1.1.1.0.record_hash));
    ascii = mac_is_ascii log (HasHexDigests-logger bench attack_key documented) _;
  }

  -- The table that `rehash_without_key` leaves.
  abbrev rehashed_rows : Text → List Row
  rehashed_rows name =
      forged_row bench name
      ∷ record (nth_row bench name 2) { prev_hash = forged_hash bench name }
      ∷ nth_row bench name 3
      ∷ nth_row bench name 4
      ∷ nth_row bench name 5
      ∷ []

  rehash-rows : (name : Text) → rehash_without_key bench (five bench name) ≡ ok (rehashed_rows name)
  unfolding new_row select_where update_where
  rehash-rows name = refl

  duplicate-rows :
      (name : Text)
      → duplicate (five bench name)
        ≡ ok (five bench name ++ record (nth_row bench name 2) { id = 6 } ∷ [])
  unfolding new_row select_where
  duplicate-rows name = refl

  rehashed :
      (name : Text)
      → NoCollision log (forged_row bench name) (nth_row bench name 1)
      → IsDamaged (order_by_id (rehashed_rows name))
  unfolding new_row order_by_id insert_by_id mac compute_record_hash
  rehashed name free = record {
    good = [];
    bad = forged_row bench name;
    rest =
        record (nth_row bench name 2) { prev_hash = forged_hash bench name }
        ∷ nth_row bench name 3
        ∷ nth_row bench name 4
        ∷ nth_row bench name 5
        ∷ [];
    split = refl;
    intact = tt;
    broken = λ h.
        documented.not_forged 1
          (sym (same_payload 1 _ _ _ _ (free.sha256 (free.hmac h.0.record_mac))));
    ascii = mac_is_ascii log (HasHexDigests-logger bench attack_key documented) _;
  }

  abbrev other_log : AuditLogger Note
  other_log = logger_with bench different_key

  wrong_key-Passes : MeetsNoCollision bench → Passes (wrong_key bench)
  unfolding wrong_key observe status_value text_beq order_by_id insert_by_id new_row mac
  wrong_key-Passes free =
      let name = codes "verify_with_wrong_key" in
      let hex = HasHexDigests-logger bench different_key documented in
      let (why, found) =
        verify_chain-damaged other_log hex [] (nth_row bench name 1)
          (nth_row bench name 2
            ∷ nth_row bench name 3
            ∷ nth_row bench name 4
            ∷ nth_row bench name 5
            ∷ [])
          none tt
          (λ h. let keys : ◌≡◌ {A = ℕ} 15 27 = ap length (free.keys h.0.record_mac) in omega arith)
          (mac_is_ascii log (HasHexDigests-logger bench attack_key documented) _) in
      rw (fresh_logger-grown bench name 5 calm, found) (_, refl, refl)

  -- The scenarios in which a row is damaged are found as the script expects.
  pub forgeries-Passes :
      MeetsNoCollision bench
      → Passes (
          run bench
            (codes "modify_record_content")
            (codes "invalid")
            (λ rows. ok (modify_record_content rows))
            false)
        × Passes (
            run bench
              (codes "modify_timestamp")
              (codes "invalid")
              (λ rows. ok (modify_timestamp rows))
              false)
        × Passes (
            run bench
              (codes "modify_prev_hash")
              (codes "invalid")
              (λ rows. ok (modify_prev_hash rows))
              false)
        × Passes (
            run bench
              (codes "delete_middle_record")
              (codes "invalid")
              (λ rows. ok (delete_middle_record rows))
              false)
        × Passes (
            run bench (codes "reorder_records") (codes "invalid") (λ rows. ok (reorder rows)) false)
        × Passes (run bench (codes "duplicate_record") (codes "invalid") duplicate false)
        × Passes (
            run bench
              (codes "rehash_without_hmac_key")
              (codes "invalid")
              (rehash_without_key bench)
              false)
        × Passes (wrong_key bench)
  forgeries-Passes free = (
    run-Passes _ _ _ refl (modified_content _ free.content),
    run-Passes _ _ _ refl (modified_timestamp _ free.timestamp),
    run-Passes _ _ _ refl (modified_prev_hash _ free.prev_hash),
    run-Passes _ _ _ refl (deleted_middle _),
    run-Passes _ _ _ refl (reordered _ free.order),
    run-Passes _ _ _ (duplicate-rows _) (duplicated _ free.copy),
    run-Passes _ _ _ (rehash-rows _) (rehashed _ free.rehash),
    wrong_key-Passes free,
  )
