-- ===== src/Worker/Running.antt =====
-- The preparation of a running job and its commands: steps 2 to 4 of `run_one`.
use verifier_ci.Prelude.{
  ℕ, Bool, true, false, not, Option, none, some, List, [], ◌∷◌, String, if◌then◌else◌, is_empty,
  map,
}
use verifier_ci.Prelude.Int.{ℤ, pos, int_eq}
use verifier_ci.Prelude.Text.{codes}
use verifier_ci.Errors.{
  ErrorClass, ErrorCode, value, Failure, known, unknown, Fallible, returned, failed, ◌>>=◌,
}
use verifier_ci.Models.Job.{Key, Job}
use verifier_ci.Models.Attempt.{ResourceUsage}
use verifier_ci.Models.Capture.{ExecutionCapture, VerifierManifest}
use verifier_ci.Artifacts.Disk.{Bytes}
use verifier_ci.Sandbox.Lines.{Text}
use verifier_ci.Sandbox.Execute.{execute, Execution}
use verifier_ci.Sandbox.Prepare.{Files, Workspace, prepare_workspace}
use verifier_ci.Worker.Command.{CommandSpec, resolve_command}
use verifier_ci.Worker.Resolve.{resolve_snapshot, resolve_diff, resolve_manifest}
use verifier_ci.Worker.State.{Host, Shared}

-- How the preparation ends: with the manifest and the workspace, or with an exception and the
-- manifest if it was resolved before.
pub data Preparation : Type 0 where
  prepared : VerifierManifest → Workspace → Preparation
  unprepared : Option VerifierManifest → Failure → Preparation

abbrev pub with_workspace : VerifierManifest → Fallible Workspace → Preparation
with_workspace m (returned w) = prepared m w
with_workspace m (failed e) = unprepared (some m) e

unfoldable pub prepare : Host → Shared → Job → Preparation
unfolding resolve_snapshot resolve_diff resolve_manifest prepare_workspace
prepare h s job =
    elim (resolve_snapshot h.directory h.default_path h.snapshot_resolver h.registry job.task_key) [
      | failed e ↦ unprepared none e
      | returned tree ↦
          elim (resolve_diff h.hash h.message h.diff_resolver h.registry s.store job.case_id) [
            | failed e ↦ unprepared none e
            | returned diff ↦
                elim (resolve_manifest h.manifest_resolver h.registry job.verifier_key) [
                  | failed e ↦ unprepared none e
                  | returned m ↦ with_workspace m (
                      prepare_workspace h.fnmatch h.decode h.git tree diff
                        (map codes m.allowed_edit_paths))
                ]
          ]
    ]

-- `val_err.code`, or `str(prep_err)`
abbrev pub error_text : Failure → String
error_text (known c code) = value code
error_text (unknown message) = message

abbrev no_resources : ResourceUsage
no_resources = record {
  duration = some 0;
  allocated_cpu = none;
  cpu_seconds = none;
  peak_memory = none;
  model_usage = none;
  estimated_cost = none;
  pricing_version = none;
  bytes_written = none;
}

abbrev pub failed_capture : Key → String → ExecutionCapture
failed_capture attempt_id message = record {
  attempt_id = attempt_id;
  exit_code = some (pos 1);
  timed_out = false;
  oom_killed = some false;
  cancelled = false;
  build_exit_code = none;
  stdout_hash = none;
  stderr_hash = none;
  report_digest = none;
  truncated = false;
  resources = no_resources;
  runtime_error = some message;
}

-- `one_cpu` is the float 1.0.
abbrev pub build_capture : Key → ℕ → Option ℤ → ExecutionCapture
build_capture attempt_id one_cpu code = record {
  attempt_id = attempt_id;
  exit_code = code;
  timed_out = false;
  oom_killed = some false;
  cancelled = false;
  build_exit_code = code;
  stdout_hash = none;
  stderr_hash = none;
  report_digest = none;
  truncated = false;
  resources = record no_resources {
    allocated_cpu = some one_cpu;
    cpu_seconds = some 0;
    bytes_written = some 0;
  };
  runtime_error = none;
}

-- What a run leaves: the capture, the two logs and the file at the path of the report.
pub record Ran : Type 0 where
  pub capture : ExecutionCapture
  pub stdout_log : Option Bytes
  pub stderr_log : Option Bytes
  pub report : Option Bytes

-- `DEFAULT_MAX_CAPTURE_BYTES`
unfoldable pub capture_limit : ℕ
capture_limit = 10_485_760

abbrev is_nonzero : Option ℤ → Bool
is_nonzero none = false
is_nonzero (some code) = not (int_eq code (pos 0))

-- A log that is not written leaves the one that is there.
abbrev pub log_after : Option Bytes → Option Bytes → Option Bytes
log_after none before = before
log_after (some log) before = some log

abbrev pub execution : Host → Job → CommandSpec → Files → Text → Execution
execution h job spec files path =
    execute (λ b. h.key_of (h.hash b)) capture_limit job
      (record (h.run spec files) { report = h.file_after spec files path; has_capture_dir = true })

abbrev pub paths_of : Host → Key → List (Text × Text)
paths_of h attempt_id =
    (codes "workspace", h.source_dir attempt_id)
    ∷ (codes "verifier", h.source_dir attempt_id)
    ∷ (codes "out", h.out_dir attempt_id)
    ∷ (codes "seed", codes "0")
    ∷ []

abbrev pub require_command : Option CommandSpec → Fallible CommandSpec
require_command none = failed (known ErrorClass.validation_error ErrorCode.validation_error)
require_command (some spec) = returned spec

abbrev pub resolved : Host → Key → VerifierManifest → List String → Fallible CommandSpec
resolved h attempt_id m template = require_command (
    resolve_command (map codes template) (paths_of h attempt_id) (h.source_dir attempt_id)
      m.timeout_seconds)

-- The verification command, after a build that left these files and logs.
unfoldable pub verify :
    Host → Job → Key → VerifierManifest → Files → Option Bytes → Option Bytes → Fallible Ran
unfolding resolve_command execute
verify h job attempt_id m files out_before err_before = do
  spec ← resolved h attempt_id m m.command
  returned (record {
    capture = (execution h job spec files (codes m.report_path)).capture;
    stdout_log = log_after (execution h job spec files (codes m.report_path)).stdout_log out_before;
    stderr_log = log_after (execution h job spec files (codes m.report_path)).stderr_log err_before;
    report = h.file_after spec files (codes m.report_path);
  })

-- The build command, and the verification if it ends with 0.
unfoldable pub build_and_verify : Host → Job → Key → VerifierManifest → Files → Fallible Ran
unfolding verify resolve_command execute
build_and_verify h job attempt_id m files = do
  spec ← resolved h attempt_id m m.build_command
  let built = execution h job spec files (codes "report.json")
  if is_nonzero built.capture.exit_code
      then returned (record {
        capture = build_capture attempt_id (h.run spec files).one_cpu built.capture.exit_code;
        stdout_log = built.stdout_log;
        stderr_log = built.stderr_log;
        report = h.file_after spec files (codes m.report_path);
      })
      else verify h job attempt_id m (h.files_after spec files) built.stdout_log built.stderr_log

abbrev pub nothing_ran : ExecutionCapture → Ran
nothing_ran c = record { capture = c; stdout_log = none; stderr_log = none; report = none }

-- Step 4. A workspace that was not prepared has no files.
unfoldable pub run_commands : Host → Job → Key → Preparation → Fallible Ran
unfolding verify build_and_verify
run_commands h job attempt_id (unprepared m e) =
    returned (nothing_ran (failed_capture attempt_id (error_text e)))
run_commands h job attempt_id (prepared m w) =
    if is_empty m.build_command
    then verify h job attempt_id m w.source none none
    else build_and_verify h job attempt_id m w.source

abbrev pub manifest_of : Preparation → Option VerifierManifest
manifest_of (prepared m w) = some m
manifest_of (unprepared m e) = m
