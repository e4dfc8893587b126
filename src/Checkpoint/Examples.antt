-- ===== src/Checkpoint/Examples.antt =====
-- A save of gateway/checkpoint.py that fails when it renames, over an older checkpoint file.
use privacy_gateway_llm_appl.Prelude.{codes, [], ◌∷◌, none, some, false, ◌≡◌, ◌⊎◌, refl, All}
use privacy_gateway_llm_appl.Errors.{Exception, os_error, value_error, ok, raise}
use privacy_gateway_llm_appl.Json.{Python}
use privacy_gateway_llm_appl.Checkpoint.{AuditCheckpoint}
use privacy_gateway_llm_appl.Checkpoint.Store.{JsonText, Disk, SaveEnv, asdict, save, load}
use privacy_gateway_llm_appl.Checkpoint.Crashes.{
  stored, disks, FindsEither, save_is_atomic, save_then_load,
}

abbrev python : Python
python = record { str_of = λ j. codes "None"; int_of_text = λ t. raise value_error }

abbrev third_record : AuditCheckpoint
third_record = record {
  last_record_id = 3;
  last_record_mac = codes "ab12";
  created_at = codes "t3";
  version = 1;
}

abbrev third_text : JsonText
third_text = record { dump = λ j. codes "third"; loads = λ t. ok (asdict third_record) }

abbrev rename_fails : SaveEnv
rename_fails = record {
  mkdir_failure = none;
  mkstemp_failure = none;
  partial = codes "thi" ∷ [];
  write_failure = none;
  replace_failure = some os_error;
  unlink_fails = false;
}

abbrev old_disk : Disk
old_disk = record { checkpoint_file = some (codes "old"); temporary = none }

save_is_atomic_example :
    All
      (FindsEither python third_text third_record refl old_disk)
      (disks (save third_text rename_fails third_record old_disk))
save_is_atomic_example = save_is_atomic python third_text third_record refl rename_fails old_disk

save_then_load_example :
    (((save third_text rename_fails third_record old_disk).outcome ≡ ok tt)
      × (load python third_text none (save third_text rename_fails third_record old_disk).disk
          ≡ ok (some (stored third_record))))
    ⊎ ((x : Exception) × ((save third_text rename_fails third_record old_disk).outcome ≡ raise x)
        × (load python third_text none (save third_text rename_fails third_record old_disk).disk
            ≡ load python third_text none old_disk))
save_then_load_example = save_then_load python third_text third_record refl rename_fails old_disk
