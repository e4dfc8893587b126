-- ===== src/Audit/Examples.antt =====
-- Runs of gateway/audit_logger.py on a log of three rows, with a checksum of three digits for both
-- SHA-256 and HMAC.
use privacy_gateway_llm_appl.Prelude.{
  ℕ, ◌+◌, ◌*◌, ◌/◌, ◌%◌, Text, codes, str, List, [], ◌∷◌, ◌++◌, none, some, true, false, ◌≡◌, ◌≢◌,
  ◌↔◌, inl, refl, ◌∙◌, sym, nat_eq, text_eq, ==_self, str_from, All, arith,
}
use privacy_gateway_llm_appl.Errors.{
  ok, raise, gateway, os_error, operational_error, type_error, audit_write_error, is_os_error,
}
use privacy_gateway_llm_appl.Checkpoint.{AuditCheckpoint}
use privacy_gateway_llm_appl.Audit.{
  AuditLogger, Row, AuditState, genesis_hash, bar, material, is_ascii, compute_record_hash, mac,
  entries,
}
use privacy_gateway_llm_appl.Audit.Append.{
  Attempt, AppendEnv, new_row, record_of, checkpoint_for, append_once, next_link, append,
}
use privacy_gateway_llm_appl.Audit.Verify.{
  valid, ChainVerificationResult, Reason, checkpoint_record_missing, verify_chain, valid_with,
  invalid_at,
}
use privacy_gateway_llm_appl.Audit.Chain.{HasHexDigests, IsHex, IsIntact, mac_is_ascii}
use privacy_gateway_llm_appl.Audit.Verdicts.{
  find_row, checkpoint_verdict, verify_chain-valid_iff, verify_chain-checkpoint,
  verify_chain-damaged,
}
use privacy_gateway_llm_appl.Audit.Pinned.{NoCollision, history, checkpoint_pins_history}
use privacy_gateway_llm_appl.Audit.Tampering.{
  shifted, shifted_unnoticed, truncation, verify_chain-non_ascii,
}
use privacy_gateway_llm_appl.Audit.Growth.{added_row, extend-IsIntact}
use privacy_gateway_llm_appl.Audit.History.{Call, Lists, appends_are_listed}
use privacy_gateway_llm_appl.Audit.Retries.{append_succeeds, append_save_fails}
use privacy_gateway_llm_appl.Audit.Recovery.{Recovers, Reach-Recovers}
use privacy_gateway_llm_appl.Audit.Concurrent.{
  Shared, Reach, here, next, commit, save, NoAlarm, no_false_alarm,
}

abbrev checksum : ℕ → Text → ℕ
checksum acc [] = acc
checksum acc (c ∷ s) = checksum ((acc * 31 + c) % 997) s

abbrev digest : Text → Text
digest m =
    (48 + checksum 7 m / 100 % 10) ∷ (48 + checksum 7 m / 10 % 10) ∷ (48 + checksum 7 m % 10) ∷ []

abbrev logger : AuditLogger Text
logger = record {
  lib = record {
    sha256_hex = digest;
    hmac_hex = λ key m. digest (key ++ m);
    dumps = λ p. p;
    loads = λ s. ok s;
  };
  hmac_key = codes "key";
  has_checkpoint_store = true;
}

digest-IsHex : (m : Text) → All IsHex (digest m)
digest-IsHex m = (
  inl (omega arith, omega arith),
  (inl (omega arith, omega arith), (inl (omega arith, omega arith), tt)),
)

hex : HasHexDigests logger
hex = record { sha256_hex = digest-IsHex; hmac_hex = λ m. digest-IsHex (codes "key" ++ m) }

abbrev row1 : Row
row1 = added_row logger (codes "t1") (codes "a|b") []

abbrev row2 : Row
row2 = added_row logger (codes "t2") (codes "second") (row1 ∷ [])

abbrev row3 : Row
row3 = added_row logger (codes "t3") (codes "third") (row1 ∷ row2 ∷ [])

abbrev checkpoint_of_row : Row → AuditCheckpoint
checkpoint_of_row r = checkpoint_for logger (codes "t4") (record_of logger (codes "") r)

intact1 : IsIntact logger 1 genesis_hash (row1 ∷ [])
intact1 = extend-IsIntact logger [] (codes "t1") (codes "a|b") tt

intact2 : IsIntact logger 1 genesis_hash (row1 ∷ row2 ∷ [])
intact2 = extend-IsIntact logger (row1 ∷ []) (codes "t2") (codes "second") intact1

intact3 : IsIntact logger 1 genesis_hash (row1 ∷ row2 ∷ row3 ∷ [])
intact3 = extend-IsIntact logger (row1 ∷ row2 ∷ []) (codes "t3") (codes "third") intact2

row_mac_is_ascii :
    (now json : Text) (link : ℕ × Text) → is_ascii (new_row logger now json link).record_mac ≡ true
unfolding new_row
row_mac_is_ascii now json (id, prev) = mac_is_ascii logger hex _

verify_chain-valid_iff_example :
    (verify_chain logger none (row1 ∷ row2 ∷ []) ≡ ok (valid_with 2 none false))
    ↔ IsIntact logger 1 genesis_hash (row1 ∷ row2 ∷ [])
verify_chain-valid_iff_example = verify_chain-valid_iff logger hex row1 (row2 ∷ [])

verify_chain-checkpoint_example :
    verify_chain logger (some (checkpoint_of_row row2)) (row1 ∷ row2 ∷ [])
    ≡ ok (
        checkpoint_verdict
          (checkpoint_of_row row2)
          2
          (find_row (checkpoint_of_row row2).last_record_id (row1 ∷ row2 ∷ [])))
verify_chain-checkpoint_example =
    verify_chain-checkpoint logger hex row1 (row2 ∷ []) (checkpoint_of_row row2) intact2
      (row_mac_is_ascii _ _ _)

-- The second row is missing.
gap : ¬ IsIntact logger 1 genesis_hash (row1 ∷ row3 ∷ [])
unfolding new_row
gap (l, (l', h)) = let e : ◌≡◌ {A = ℕ} 3 2 = l'.id in omega arith

verify_chain-damaged_example :
    (why : Reason) × (verify_chain logger none (row1 ∷ row3 ∷ [])
      ≡ ok (invalid_at 2 (some row3.id) why))
verify_chain-damaged_example =
    verify_chain-damaged logger hex (row1 ∷ []) row3 [] none intact1 gap (row_mac_is_ascii _ _ _)

truncation_example :
    (verify_chain logger none (row1 ∷ []) ≡ ok (valid_with 1 none false))
    × (verify_chain logger (some (checkpoint_of_row row2)) (row1 ∷ [])
        ≡ ok
            (invalid_at 1 none (checkpoint_record_missing (checkpoint_of_row row2).last_record_id)))
unfolding new_row
truncation_example =
    truncation logger hex row1 [] (row2 ∷ []) (checkpoint_of_row row2) intact2 (omega arith)
      (row_mac_is_ascii _ _ _)

bar_in_row1 : row1.payload ≡ codes "a" ++ bar ∷ codes "b"
unfolding new_row
bar_in_row1 = refl

shifted_unnoticed_example :
    (shifted row1 (codes "a") (codes "b") ≢ row1)
    × (verify_chain logger none (shifted row1 (codes "a") (codes "b") ∷ row2 ∷ [])
        ≡ verify_chain logger none (row1 ∷ row2 ∷ []))
shifted_unnoticed_example =
    shifted_unnoticed logger [] row1 (row2 ∷ []) (codes "a") (codes "b") none bar_in_row1

abbrev accented : Row
accented = record row2 { record_mac = 233 ∷ [] }

accented_remade :
    IsIntact logger 1 genesis_hash
      (row1 ∷ record accented { record_mac = mac logger accented.record_hash } ∷ [])
unfolding new_row
accented_remade = intact2

accented_not_ascii : is_ascii accented.record_mac ≡ false
unfolding is_ascii
accented_not_ascii = refl

verify_chain-non_ascii_example :
    verify_chain logger none (row1 ∷ accented ∷ row3 ∷ []) ≡ raise type_error
verify_chain-non_ascii_example =
    verify_chain-non_ascii logger hex (row1 ∷ []) accented (row3 ∷ []) none accented_remade
      accented_not_ascii

-- Two attempts meet a locked database, and the third commits.
abbrev busy : ℕ → Attempt
busy ℕ.zero = record { now = codes "t1"; failure = some operational_error }
busy (ℕ.suc ℕ.zero) = record { now = codes "t2"; failure = some operational_error }
busy _ = record { now = codes "t3"; failure = none }

abbrev state2 : AuditState
state2 = record { rows = row1 ∷ row2 ∷ []; checkpoint = some (checkpoint_of_row row2) }

abbrev env_busy : AppendEnv
env_busy = record { attempt = busy; saved_at = codes "t4"; save_failure = none }

abbrev env_full : AppendEnv
env_full = record {
  attempt = λ k. record { now = codes "t3"; failure = none };
  saved_at = codes "t4";
  save_failure = some os_error;
}

append_succeeds_example : append logger env_busy (codes "third") state2 ≡ (
  ok (record_of logger (codes "third") row3),
  record {
    rows = row1 ∷ row2 ∷ row3 ∷ [];
    checkpoint = some (checkpoint_for logger (codes "t4") (record_of logger (codes "third") row3));
  },
)
append_succeeds_example =
    append_succeeds logger env_busy (codes "third") state2 2 intact2 (omega arith)
      (refl, (refl, tt)) refl refl

append_save_fails_example : append logger env_full (codes "third") state2 ≡ (
  raise (gateway audit_write_error),
  record { rows = row1 ∷ row2 ∷ row3 ∷ []; checkpoint = state2.checkpoint },
)
unfolding is_os_error
append_save_fails_example =
    append_save_fails logger env_full (codes "third") state2 os_error intact2 refl refl refl

-- The table as the checkpoint for row 1 saw it, and a longer one.
abbrev hashed_text : Row → Text
hashed_text r = material r.id r.schema_version r.timestamp r.payload r.prev_hash

first_digest : digest (hashed_text row1) ≡ codes "902"
unfolding new_row material str str_from
first_digest = refl

second_digest : digest (hashed_text row2) ≡ codes "439"
unfolding new_row material compute_record_hash str str_from
second_digest = refl

codes_differ : codes "902" ≢ codes "439"
codes_differ e = ground arith

digests_differ : digest (hashed_text row1) ≢ digest (hashed_text row2)
digests_differ e = codes_differ (sym first_digest ∙ e ∙ second_digest)

pinned_at_row1 :
    verify_chain logger (some (checkpoint_of_row row1)) (row1 ∷ [])
    ≡ ok (
        checkpoint_verdict
          (checkpoint_of_row row1)
          1
          (find_row (checkpoint_of_row row1).last_record_id (row1 ∷ [])))
pinned_at_row1 =
    verify_chain-checkpoint logger hex row1 [] (checkpoint_of_row row1) intact1
      (row_mac_is_ascii _ _ _)

pinned_at_row2 :
    verify_chain logger (some (checkpoint_of_row row1)) (row1 ∷ row2 ∷ [])
    ≡ ok (
        checkpoint_verdict
          (checkpoint_of_row row1)
          2
          (find_row (checkpoint_of_row row1).last_record_id (row1 ∷ row2 ∷ [])))
pinned_at_row2 =
    verify_chain-checkpoint logger hex row1 (row2 ∷ []) (checkpoint_of_row row1) intact2
      (row_mac_is_ascii _ _ _)

verdict_valid :
    (n : ℕ) (rows : List Row)
    → (checkpoint_verdict
        (checkpoint_of_row row1)
        n
        (find_row (checkpoint_of_row row1).last_record_id (row1 ∷ rows))).status
      ≡ valid
unfolding new_row
verdict_valid n rows = ground (arith, ==_self row1.record_mac)

same_row_NoCollision : NoCollision logger row1 row1
same_row_NoCollision = record { sha256 = λ e. refl; hmac = λ e. refl }

two_rows_NoCollision : NoCollision logger row1 row2
unfolding mac new_row compute_record_hash material str str_from
two_rows_NoCollision = record { sha256 = λ e. absurd (digests_differ e); hmac = λ e. ground arith }

checkpoint_pins_history_example : history 1 (row1 ∷ []) ≡ history 1 (row1 ∷ row2 ∷ [])
unfolding new_row
checkpoint_pins_history_example =
    checkpoint_pins_history logger hex (row1 ∷ []) (row1 ∷ row2 ∷ []) (checkpoint_of_row row1)
      (omega arith, tt) (omega arith, (omega arith, tt))
      ((same_row_NoCollision, (two_rows_NoCollision, tt)), tt) pinned_at_row1 pinned_at_row2
      (verdict_valid 1 []) (verdict_valid 2 (row2 ∷ []))

-- Two writers commit, and save their checkpoints in the other order.
abbrev shared_rows : Shared
shared_rows = record {
  rows = row1 ∷ row2 ∷ [];
  checkpoint = some (checkpoint_of_row row1);
  pending = [];
}

shared_rows-Reach : Reach logger shared_rows
unfolding append_once next_link new_row
shared_rows-Reach =
    next
      (next
        (next (next here (commit (codes "t1") (codes "t4") (codes "a|b")))
          (commit (codes "t2") (codes "t4") (codes "second")))
        (save [] (checkpoint_of_row row1 ∷ []) (checkpoint_of_row row2) refl))
      (save [] [] (checkpoint_of_row row1) refl)

no_false_alarm_example :
    (res : ChainVerificationResult) × NoAlarm logger hex
      (row1 ∷ row2 ∷ [])
      (some (checkpoint_of_row row1))
      res
no_false_alarm_example = no_false_alarm logger hex shared_rows shared_rows-Reach

-- Here the checkpoint of the first row was saved last.
Reach-Recovers_example : Recovers logger hex shared_rows (codes "t3") (codes "t4") (codes "third")
Reach-Recovers_example =
    Reach-Recovers logger hex shared_rows (codes "t3") (codes "t4") (codes "third")
      shared_rows-Reach

-- A call that commits but cannot save its checkpoint, one that meets a locked database five times, and
-- one that goes through.
abbrev three_calls : List (Call Text)
three_calls =
    (record {
      env = record {
        attempt = λ k. record { now = codes "t1"; failure = none };
        saved_at = codes "t1";
        save_failure = some os_error;
      };
      payload = codes "first";
    })
    ∷ (record {
      env = record {
        attempt = λ k. record { now = codes "t2"; failure = some operational_error };
        saved_at = codes "t2";
        save_failure = none;
      };
      payload = codes "second";
    })
    ∷ (record {
      env = record {
        attempt = λ k. record { now = codes "t3"; failure = none };
        saved_at = codes "t3";
        save_failure = none;
      };
      payload = codes "third";
    })
    ∷ []

abbrev no_rows : AuditState
no_rows = record { rows = []; checkpoint = none }

nothing_listed : entries logger none 0 [] ≡ ok []
unfolding entries
nothing_listed = refl

appends_are_listed_example : Lists logger (λ p. refl) three_calls no_rows []
appends_are_listed_example =
    appends_are_listed logger (λ p. refl) three_calls no_rows [] tt nothing_listed
