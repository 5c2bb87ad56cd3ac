-- ===== src/Sandbox/Examples.antt =====
-- Patches that pass and patches that do not.
use verifier_ci.Prelude.{◌≡◌, refl, Bool, false, none, some, List, [], ◌∷◌, ◌++◌}
use verifier_ci.Prelude.Text.{codes}
use verifier_ci.Artifacts.Disk.{Bytes}
use verifier_ci.Sandbox.Lines.{Text, split_lines, strip, strip_slashes, split_on, ends_with}
use verifier_ci.Sandbox.Patch.{
  Violation, is_symlink_mode, target_files, check_target, check_targets, check_line, check_lines,
  validate_patch,
}
use verifier_ci.Models.Job.{Job, JobState}
use verifier_ci.Sandbox.Execute.{Process, Run, execute, read_stream}
use verifier_ci.Sandbox.Faithful.{IsFaithful, execute-IsFaithful}
use verifier_ci.Prelude.{length, true}
use verifier_ci.Prelude.Int.{pos}
use verifier_ci.Sandbox.Names.{Names}

abbrev decode : Bytes → Text
decode bytes = bytes

abbrev never : Text → Text → Bool
never path pattern = false

abbrev patch : Bytes
patch = codes "--- a/src/x.py" ++ 10 ∷ codes "+++ b/src/x.py" ++ 10 ∷ []

abbrev allowed : List Text
allowed = codes "src/" ∷ []

abbrev path : Text
path = codes "src/x.py"

escape_is_refused :
    validate_patch never decode (codes "+++ b/src/../x") allowed ≡ some Violation.traversal
unfolding validate_patch check_lines check_line is_symlink_mode target_files check_targets
    check_target split_lines strip strip_slashes split_on ends_with
escape_is_refused = refl

-- The target of a rename passes though it lies outside: its first two characters are cut off.
rename_target_is_cut : validate_patch never decode (codes "rename to x/src/y") allowed ≡ none
unfolding validate_patch check_lines check_line is_symlink_mode target_files check_targets
    check_target split_lines strip strip_slashes split_on ends_with
rename_target_is_cut = refl

abbrev job : Job
job = record {
  job_id = 1;
  run_id = 2;
  task_key = 3;
  case_id = 4;
  verifier_key = 5;
  repetition = 0;
  state = JobState.running;
  fence = 1;
  attempt_id = some 6;
  lease_token = none;
  worker_id = none;
  lease_expires_ms = none;
  attempts_started = 1;
  selected_attempt_id = none;
  terminal_reason = none;
}

-- Three bytes of output under a limit of two.
abbrev long_run : Run
long_run = record {
  process = Process.exited (pos 0);
  stdout = (1 ∷ 2 ∷ []) ∷ (3 ∷ []) ∷ [];
  stderr = [];
  report = some (7 ∷ []);
  has_capture_dir = true;
  elapsed = 10;
  one_cpu = 1;
  unknown = 0;
}

execute-IsFaithful_example : IsFaithful length 2 long_run (execute length 2 job long_run)
execute-IsFaithful_example = execute-IsFaithful length 2 job long_run refl

long_run_is_truncated : (execute length 2 job long_run).capture.truncated ≡ true
unfolding execute read_stream
long_run_is_truncated = refl
