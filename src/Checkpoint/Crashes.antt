-- ===== src/Checkpoint/Crashes.antt =====
-- What a reader of the checkpoint file finds after a save, and after a crash in the middle of one.
use privacy_gateway_llm_appl.Prelude.{
  pos, Text, List, [], ◌∷◌, Option, none, some, Bool, ◌≡◌, ◌⊎◌, inl, inr, refl, ◌∙◌, map, All,
  All-append, text_beq, arith,
}
use privacy_gateway_llm_appl.Errors.{Exception, ok, raise}
use privacy_gateway_llm_appl.Json.{Python, item, find_key, to_int, to_str}
use privacy_gateway_llm_appl.Checkpoint.{AuditCheckpoint}
use privacy_gateway_llm_appl.Checkpoint.Store.{
  JsonText, Disk, SaveEnv, SaveRun, asdict, clean_up, with_temporary, replace_file, write_temporary,
  unless_failed, save, LoadedCheckpoint, read_checkpoint, read_text, load,
}

-- What a saved checkpoint is read back as.
abbrev pub stored : AuditCheckpoint → LoadedCheckpoint
stored c = record {
  last_record_id = pos c.last_record_id;
  last_record_mac = c.last_record_mac;
  created_at = c.created_at;
  version = pos c.version;
}

-- The checkpoint file is that of `d`, or holds `text`.
abbrev OldOrNew : Disk → Text → Disk → Type 0
OldOrNew d text d' = (d'.checkpoint_file ≡ d.checkpoint_file) ⊎ (d'.checkpoint_file ≡ some text)

temporaries-OldOrNew :
    (d : Disk) (text : Text) (ts : List Text) → All (OldOrNew d text) (map (with_temporary d) ts)
temporaries-OldOrNew d text [] = tt
temporaries-OldOrNew d text (t ∷ ts) = (inl refl, temporaries-OldOrNew d text ts)

-- The disks of a run, the last one included.
abbrev pub disks : SaveRun → List Disk
disks run = run.disk ∷ run.passed

clean_up-file :
    (b : Bool) (x : Exception) (passed : List Disk) (d : Disk)
    → (clean_up b x passed d).disk.checkpoint_file ≡ d.checkpoint_file
unfolding clean_up
clean_up-file b x passed d = ground arith

module _ (text : Text) (d : Disk) where
  clean_up-OldOrNew :
      (b : Bool) (x : Exception) (passed : List Disk) (d' : Disk)
      → All (OldOrNew d text) passed
      → OldOrNew d text d'
      → All (OldOrNew d text) (disks (clean_up b x passed d'))
  unfolding clean_up
  clean_up-OldOrNew b x passed d' h old = (
    elim old [
      | inl e ↦ inl (clean_up-file b x passed d' ∙ e)
      | inr e ↦ inr (clean_up-file b x passed d' ∙ e)
    ],
    h,
  )

  replace-OldOrNew :
      (failure : Option Exception) (b : Bool) (passed : List Disk)
      → All (OldOrNew d text) passed
      → All (OldOrNew d text) (disks (replace_file failure b text passed d))
  replace-OldOrNew (some x) b passed h = clean_up-OldOrNew b x passed _ h (inl refl)
  replace-OldOrNew none b passed h = (inr refl, h)

  write-OldOrNew :
      (failure : Option Exception) (env : SaveEnv)
      → All (OldOrNew d text) (disks (write_temporary failure env text d))
  write-OldOrNew (some x) env =
      clean_up-OldOrNew env.unlink_fails x _ _
        (inl refl, temporaries-OldOrNew d text ([] ∷ env.partial)) (inl refl)
  write-OldOrNew none env = replace-OldOrNew env.replace_failure env.unlink_fails _ (
    inl refl,
    All-append (OldOrNew d text) (map (with_temporary d) ([] ∷ env.partial)) _
        (temporaries-OldOrNew d text ([] ∷ env.partial)) (inl refl, tt),
  )

  unless_failed-OldOrNew :
      (failure : Option Exception) (run : SaveRun)
      → All (OldOrNew d text) (disks run)
      → All (OldOrNew d text) (disks (unless_failed failure d run))
  unless_failed-OldOrNew (some x) run h = (inl refl, tt)
  unless_failed-OldOrNew none run h = h

save-OldOrNew :
    (json : JsonText) (env : SaveEnv) (c : AuditCheckpoint) (d : Disk)
    → All (OldOrNew d (json.dump (asdict c))) (disks (save json env c d))
unfolding save
save-OldOrNew json env c d =
    let text = json.dump (asdict c) in
    unless_failed-OldOrNew text d env.mkdir_failure _ (
      unless_failed-OldOrNew text d env.mkstemp_failure _
        (write-OldOrNew text d env.write_failure env))

-- How a run ends: it returns and the file holds `text`, or it raises and the file is that of `d`.
data Ended (text : Text) (d : Disk) (run : SaveRun) : Type 0 where
  returned : run.outcome ≡ ok tt → run.disk.checkpoint_file ≡ some text → Ended text d run
  raised :
      (x : Exception)
      → run.outcome ≡ raise x
      → run.disk.checkpoint_file ≡ d.checkpoint_file
      → Ended text d run

module _ (text : Text) (d : Disk) where
  clean_up-Ended :
      (b : Bool) (x : Exception) (passed : List Disk) (t : Text)
      → Ended text d (clean_up b x passed (with_temporary d t))
  unfolding clean_up
  clean_up-Ended b x passed t = raised x refl (clean_up-file b x passed _)

  replace-Ended :
      (failure : Option Exception) (b : Bool) (passed : List Disk)
      → Ended text d (replace_file failure b text passed d)
  replace-Ended (some x) b passed = clean_up-Ended b x passed text
  replace-Ended none b passed = returned refl refl

  write-Ended :
      (failure : Option Exception) (env : SaveEnv)
      → Ended text d (write_temporary failure env text d)
  write-Ended (some x) env = clean_up-Ended env.unlink_fails x _ _
  write-Ended none env = replace-Ended env.replace_failure env.unlink_fails _

  unless_failed-Ended :
      (failure : Option Exception) (run : SaveRun)
      → Ended text d run
      → Ended text d (unless_failed failure d run)
  unless_failed-Ended (some x) run h = raised x refl refl
  unless_failed-Ended none run h = h

save-Ended :
    (json : JsonText) (env : SaveEnv) (c : AuditCheckpoint) (d : Disk)
    → Ended (json.dump (asdict c)) d (save json env c d)
unfolding save
save-Ended json env c d =
    let text = json.dump (asdict c) in
    unless_failed-Ended text d env.mkdir_failure _
      (unless_failed-Ended text d env.mkstemp_failure _ (write-Ended text d env.write_failure env))

module _ (py : Python) (json : JsonText) (c : AuditCheckpoint)
    (reads_back : json.loads (json.dump (asdict c)) ≡ ok (asdict c)) where
  load_new :
      (d : Disk)
      → d.checkpoint_file ≡ some (json.dump (asdict c))
      → load py json none d ≡ ok (some (stored c))
  unfolding load read_text read_checkpoint item find_key text_beq to_int to_str
  load_new d e = rw (e, reads_back) refl

  load_old :
      (d d' : Disk) (failure : Option Exception)
      → d'.checkpoint_file ≡ d.checkpoint_file
      → load py json failure d' ≡ load py json failure d
  unfolding load read_text
  load_old d d' failure e = rw e refl

  -- What a read that succeeds finds on a disk: what it finds on `before`, or the new checkpoint.
  abbrev pub FindsEither : Disk → Disk → Type 0
  FindsEither before d =
      (load py json none d ≡ load py json none before)
      ⊎ (load py json none d ≡ ok (some (stored c)))

  all-FindsEither :
      (before : Disk) (ds : List Disk)
      → All (OldOrNew before (json.dump (asdict c))) ds
      → All (FindsEither before) ds
  all-FindsEither before [] h = tt
  all-FindsEither before (d ∷ ds) (inl e, h) =
      (inl (load_old before d none e), all-FindsEither before ds h)
  all-FindsEither before (d ∷ ds) (inr e, h) = (inr (load_new d e), all-FindsEither before ds h)

  -- For a checkpoint that the JSON text gives back: on every disk that a crash in the middle of save
  -- can leave, and on the disk after it, a read of the file loads what it loads before the save, or
  -- the new checkpoint. No failure of a system call and no half-written text gives anything else.
  pub save_is_atomic :
      (env : SaveEnv) (before : Disk) → All (FindsEither before) (disks (save json env c before))
  save_is_atomic env before =
      all-FindsEither before (disks (save json env c before)) (save-OldOrNew json env c before)

  after-Ended :
      (d : Disk) (run : SaveRun)
      → Ended (json.dump (asdict c)) d run
      → ((run.outcome ≡ ok tt) × (load py json none run.disk ≡ ok (some (stored c))))
        ⊎ ((x : Exception) × (run.outcome ≡ raise x)
            × (load py json none run.disk ≡ load py json none d))
  after-Ended d run (returned e file) = inl (e, load_new run.disk file)
  after-Ended d run (raised x e file) = inr (x, e, load_old d run.disk none file)

  -- For a checkpoint that the JSON text gives back: a save returns, and a read of the file then loads
  -- the checkpoint with all its fields, or it raises, and a read loads what it loads before.
  pub save_then_load :
      (env : SaveEnv) (before : Disk)
      → (((save json env c before).outcome ≡ ok tt)
          × (load py json none (save json env c before).disk ≡ ok (some (stored c))))
        ⊎ ((x : Exception) × ((save json env c before).outcome ≡ raise x)
            × (load py json none (save json env c before).disk ≡ load py json none before))
  save_then_load env before = after-Ended before _ (save-Ended json env c before)
