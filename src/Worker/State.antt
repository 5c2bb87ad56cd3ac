-- ===== src/Worker/State.antt =====
-- What the workers share, what one worker is given, and how an output is stored and registered.
use verifier_ci.Prelude.{ℕ, Bool, Option, List, [], ◌∷◌, ◌++◌, String, if◌then◌else◌, contains}
use verifier_ci.Errors.{Fallible, returned, failed}
use verifier_ci.Models.Job.{Key}
use verifier_ci.Models.Capture.{VerifierManifest}
use verifier_ci.Report.Parser.{ReportBytes}
use verifier_ci.Queue.Database.{Database}
use verifier_ci.Artifacts.Disk.{Bytes, Node, Retention, Artifact, World, Reply, register_artifact}
use verifier_ci.Artifacts.Put.{Registration, PutRequest, put_bytes}
use verifier_ci.Sandbox.Lines.{Text}
use verifier_ci.Sandbox.Prepare.{Files, Git}
use verifier_ci.Sandbox.Execute.{Run}
use verifier_ci.Worker.Command.{CommandSpec}
use verifier_ci.Worker.Resolve.{Resolver, Registry, fallible}

-- The database of the queue, and the artifact store with its table. The queue reads of the table
-- of artifacts only which digests it has.
pub record Shared : Type 0 where
  pub db : Database
  pub store : World

-- What a worker calls that is not its own code, and its resolvers. `hash` is the SHA-256 hexdigest,
-- `key_of` the number that stands for a text, `message` the text of an exception of another library.
-- `run` is what a command does on the files, `files_after` and `file_after` what it leaves in
-- `source/` and at a path below `out/`.
pub record Host : Type 0 where
  pub hash : Bytes → String
  pub key_of : String → Key
  pub split : Bytes → List Bytes
  pub message : String
  pub fnmatch : Text → Text → Bool
  pub decode : Bytes → Text
  pub git : Git
  pub directory : Text → Option (List (Text × Node))
  pub default_path : Key → Text
  pub snapshot_resolver : Resolver Text
  pub diff_resolver : Resolver Bytes
  pub manifest_resolver : Resolver VerifierManifest
  pub registry : Registry
  pub run : CommandSpec → Files → Run
  pub files_after : CommandSpec → Files → Files
  pub file_after : CommandSpec → Files → Text → Option Bytes
  pub source_dir : Key → Text
  pub out_dir : Key → Text
  pub decode_report : Bytes → ReportBytes
  pub reads_float : String → Bool
  pub new_attempt_id : Key
  pub now : ℕ

-- A step that changes what is shared, and returns or raises.
abbrev pub then_with {ℓ κ} :
    {A : Type ℓ} {B : Type κ}
    → Fallible A × Shared
    → (A → Shared → Fallible B × Shared)
    → Fallible B × Shared
then_with (returned a, s) f = f a s
then_with (failed e, s) f = (failed e, s)

-- `max_bytes` and `max_report_bytes`: 16 MiB.
unfoldable pub output_limit : ℕ
output_limit = 16_777_216

abbrev pub output_request : String → String → ℕ → PutRequest
output_request kind media_type now = record {
  max_bytes = output_limit;
  kind = kind;
  access_policy = "restricted";
  media_type = media_type;
  retention_until = Retention.unlimited;
  registration = λ _. Registration.unconnected;
  now = now;
}

abbrev pub add_digest : Key → Database → Database
add_digest d db =
    if contains d db.artifacts then db else record db { artifacts = db.artifacts ++ d ∷ [] }

-- `_register_artifact`, whose INSERT names no retention.
unfoldable pub register : (String → Key) → Artifact → Shared → Shared
unfolding register_artifact
register key_of a s = record {
  db = add_digest (key_of a.digest) s.db;
  store = record s.store {
    rows = register_artifact (record a { retention_until = Retention.unlimited }) s.store.rows;
  };
}

abbrev pub registered : Host → Fallible Artifact × World → Database → Fallible Key × Shared
registered h (returned a, store) db =
    (returned (h.key_of a.digest), register h.key_of a (record { db = db; store = store }))
registered h (failed e, store) db = (failed e, record { db = db; store = store })

abbrev pub as_fallible : String → Reply Artifact × World → Fallible Artifact × World
as_fallible message (r, w) = (fallible message r, w)

-- `put_bytes` and `_register_artifact`, and the digest.
unfoldable pub store_output : Host → String → String → Bytes → Shared → Fallible Key × Shared
unfolding put_bytes register
store_output h kind media_type content s =
    registered h
      (as_fallible h.message
        (put_bytes h.hash h.split (output_request kind media_type h.now) content s.store))
      s.db
