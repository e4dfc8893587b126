-- ===== src/Checkpoint/Store.antt =====
-- LocalFileCheckpointStore of gateway/checkpoint.py: the write-then-rename of `save` with all disks
-- that a crash can leave, and `load`. The operating system's outcomes and the JSON text are parameters.
use privacy_gateway_llm_appl.Prelude.{
  ℤ, pos, Text, codes, List, [], ◌∷◌, ◌++◌, Option, none, some, Bool, map, if◌then◌else◌,
}
use privacy_gateway_llm_appl.Errors.{
  Exception, file_not_found, value_error, key_error, Result, ok, raise, ◌>>=◌, is_os_error,
}
use privacy_gateway_llm_appl.Json.{
  Json, integer, string, object, no_members, member, Python, to_int, to_str, find_key, item, get,
}
use privacy_gateway_llm_appl.Checkpoint.{AuditCheckpoint, checkpoint_version}

-- json.dumps of a dict, and json.loads
pub record JsonText : Type 0 where
  pub dump : Json → Text
  pub loads : Text → Result Json

-- The contents of the checkpoint file and of the temporary file of `save`, where they exist. mkstemp
-- makes a new file, so the two are different ones.
pub record Disk : Type 0 where
  pub checkpoint_file : Option Text
  pub temporary : Option Text

-- How the system calls of one `save` end. `partial` are the contents of the temporary file while it
-- is written.
pub record SaveEnv : Type 0 where
  pub mkdir_failure : Option Exception
  pub mkstemp_failure : Option Exception
  pub partial : List Text
  pub write_failure : Option Exception
  pub replace_failure : Option Exception
  pub unlink_fails : Bool

-- The outcome of `save`, the disks that it goes through, in order, and the disk that it leaves.
pub record SaveRun : Type 0 where
  pub outcome : Result {0} Unit
  pub passed : List Disk
  pub disk : Disk

-- dataclasses.asdict(checkpoint)
abbrev pub asdict : AuditCheckpoint → Json
asdict c = object (
    member (codes "last_record_id") (integer (pos c.last_record_id)) (
      member (codes "last_record_mac") (string c.last_record_mac) (
        member (codes "created_at") (string c.created_at)
          (member (codes "version") (integer (pos c.version)) no_members))))

-- except OSError: unlink the temporary file, as far as that works, and raise
unfoldable pub clean_up : Bool → Exception → List Disk → Disk → SaveRun
clean_up unlink_fails x passed d = record {
  outcome = raise x;
  passed = passed;
  disk = if is_os_error x then (if unlink_fails then d else record d { temporary = none }) else d;
}

abbrev pub with_temporary : Disk → Text → Disk
with_temporary d t = record d { temporary = some t }

-- os.replace
abbrev pub replace_file : Option Exception → Bool → Text → List Disk → Disk → SaveRun
replace_file (some x) unlink_fails text passed d =
    clean_up unlink_fails x passed (with_temporary d text)
replace_file none unlink_fails text passed d = record {
  outcome = ok tt;
  passed = passed;
  disk = record { checkpoint_file = some text; temporary = none };
}

abbrev pub last_of : Text → List Text → Text
last_of t [] = t
last_of t (u ∷ us) = last_of u us

-- the `with` block, from the new and empty temporary file on, and what follows it
abbrev pub write_temporary : Option Exception → SaveEnv → Text → Disk → SaveRun
write_temporary (some x) env text d =
    clean_up env.unlink_fails x (d ∷ map (with_temporary d) ([] ∷ env.partial))
      (with_temporary d (last_of [] env.partial))
write_temporary none env text d =
    replace_file env.replace_failure env.unlink_fails text
      (d ∷ map (with_temporary d) ([] ∷ env.partial) ++ with_temporary d text ∷ []) d

-- a system call before the `try`
abbrev pub unless_failed : Option Exception → Disk → SaveRun → SaveRun
unless_failed (some x) d run = record { outcome = raise x; passed = []; disk = d }
unless_failed none d run = run

-- LocalFileCheckpointStore.save
unfoldable pub save : JsonText → SaveEnv → AuditCheckpoint → Disk → SaveRun
save json env checkpoint d = unless_failed env.mkdir_failure d (
    unless_failed env.mkstemp_failure d
      (write_temporary env.write_failure env (json.dump (asdict checkpoint)) d))

-- An AuditCheckpoint that `load` makes of a file: its numbers can be below 0.
pub record LoadedCheckpoint : Type 0 where
  pub last_record_id : ℤ
  pub last_record_mac : Text
  pub created_at : Text
  pub version : ℤ

-- data.get("version", CHECKPOINT_VERSION)
abbrev pub version_or_default : Json → Result Json
version_or_default (object ms) =
    ok (find_key (λ v. v) (integer (pos checkpoint_version)) (codes "version") ms)
version_or_default j = get j (codes "version")

unfoldable pub read_checkpoint : Python → Json → Result LoadedCheckpoint
read_checkpoint py loaded = do
  id ← item loaded (codes "last_record_id")
  last_record_id ← to_int py id
  last_record_mac ← item loaded (codes "last_record_mac")
  created_at ← item loaded (codes "created_at")
  stored_version ← version_or_default loaded
  version ← to_int py stored_version
  ok (record {
    last_record_id = last_record_id;
    last_record_mac = to_str py last_record_mac;
    created_at = to_str py created_at;
    version = version;
  })

-- self._path.read_text(..), where `read_failure` is what an existing file raises
unfoldable pub read_text : Option Exception → Disk → Result Text
read_text read_failure d = elim d.checkpoint_file [
  | none ↦ raise file_not_found
  | some text ↦ elim read_failure [ some x ↦ raise x | none ↦ ok text ]
]

-- the two `except` clauses of load
abbrev pub or_no_checkpoint : Result LoadedCheckpoint → Result (Option LoadedCheckpoint)
or_no_checkpoint (ok c) = ok (some c)
or_no_checkpoint (raise value_error) = ok none
or_no_checkpoint (raise key_error) = ok none
or_no_checkpoint (raise x) = if is_os_error x then ok none else raise x

-- LocalFileCheckpointStore.load
unfoldable pub load : Python → JsonText → Option Exception → Disk → Result (Option LoadedCheckpoint)
load py json read_failure d =
    or_no_checkpoint
      (read_text read_failure d >>= λ text. json.loads text >>= λ loaded. read_checkpoint py loaded)
