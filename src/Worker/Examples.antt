-- ===== src/Worker/Examples.antt =====
-- One worker runs one job: a test that prints and leaves a report with one passing test.
use verifier_ci.Prelude.{
  ℕ, List, ◌≡◌, refl, true, false, none, some, [], ◌∷◌, String, is_empty, if◌then◌else◌, str_eq,
}
use verifier_ci.Prelude.Int.{pos}
use verifier_ci.Prelude.Text.{codes, lower_is, is_blank}
use verifier_ci.Errors.{returned}
use verifier_ci.Models.Job.{Job, JobState}
use verifier_ci.Models.Attempt.{EvaluationAttempt, Outcome, Validity, Disposition}
use verifier_ci.Models.Attempt.Validation.{check_row}
use verifier_ci.Models.Capture.{Value, Items, Fields, Mode, VerifierManifest}
use verifier_ci.Report.Scan.{get_field, status_of}
use verifier_ci.Report.Parser.{ReportBytes, parse}
use verifier_ci.Outcomes.Classify.{parse_capture}
use verifier_ci.Artifacts.Disk.{Bytes, Node, is_valid_digest, register_artifact}
use verifier_ci.Artifacts.Put.{put_stream}
use verifier_ci.Sandbox.Prepare.{Git, GitAnswer, copy_snapshot}
use verifier_ci.Sandbox.Execute.{Run, Process, execute, read_stream, read_report}
use verifier_ci.Queue.Database.{RunRow, RunState}
use verifier_ci.Queue.RunState.{update_run_state}
use verifier_ci.Queue.Claim.{ClaimRequest, claim}
use verifier_ci.Queue.Lease.{mark_running, heartbeat}
use verifier_ci.Queue.Complete.{
  complete, complete_row, lease_is_dead, identity_agrees, commit_attempt,
}
use verifier_ci.Worker.Command.{resolve_command}
use verifier_ci.Worker.Resolve.{Resolver, resolve_snapshot, resolve_diff, resolve_manifest}
use verifier_ci.Worker.State.{Host, Shared, store_output, register, output_limit}
use verifier_ci.Worker.Running.{Preparation, capture_limit, prepare, run_commands}
use verifier_ci.Worker.Evaluate.{evaluate, collect, classify}
use verifier_ci.Worker.Turn.{
  Schedule, Turn, idle, finished, stopped, run_one, run_claimed, work, submit, beat,
}
use verifier_ci.Worker.Evidence.{IsKept}
use verifier_ci.Worker.Submission.{evaluate-IsKept}
use verifier_ci.Worker.Moves.{Moves}
use verifier_ci.Worker.Refinement.{ScheduleMoves}
use verifier_ci.Worker.Looping.{shared_at_end, run_until_terminal-Moves}
use verifier_ci.Worker.Turn.{Round, Ended, exhausted, drained, raised, run_until_terminal}

abbrev zeros : String
zeros = "0000000000000000000000000000000000000000000000000000000000000000"

abbrev ones : String
ones = "1111111111111111111111111111111111111111111111111111111111111111"

abbrev digest : Bytes → String
digest content = if is_empty content then zeros else ones

abbrev manifest : VerifierManifest
manifest = record {
  manifest_hash = 1;
  mode = Mode.compatibility;
  command = "pytest" ∷ "{workspace}" ∷ [];
  build_command = [];
  expected_collection = "t::one" ∷ [];
  parser_id = "pytest-report-v1";
  report_path = "report.json";
  payload_digest = 2;
  allowed_edit_paths = [];
  required_pass_ids = "t::one" ∷ [];
  permitted_skips = [];
  timeout_seconds = 60;
}

abbrev report : ReportBytes
report = ReportBytes.document (
    Value.object (
      Fields.field "tests"
        (Value.array (
          Items.cons
            (Value.object (
              Fields.field "nodeid" (Value.text "t::one")
                (Fields.field "outcome" (Value.text "passed") Fields.end)))
            Items.nil))
        Fields.end))

abbrev passing_run : Run
passing_run = record {
  process = Process.exited (pos 0);
  stdout = (79 ∷ 75 ∷ []) ∷ [];
  stderr = [];
  report = none;
  has_capture_dir = true;
  elapsed = 5;
  one_cpu = 1;
  unknown = 99;
}

abbrev git : Git
git = record {
  check = λ files diff. GitAnswer.exited (pos 0);
  apply = λ files diff. (GitAnswer.exited (pos 0), files);
}

abbrev host : Host
host = record {
  hash = digest;
  key_of = λ s. if str_eq s ones then 9 else 8;
  split = λ b. b ∷ [];
  message = "OSError";
  fnmatch = λ path pattern. false;
  decode = λ b. b;
  git = git;
  directory = λ path. some ((codes "a.py", Node.file (1 ∷ [])) ∷ []);
  default_path = λ task. codes "task";
  snapshot_resolver = Resolver.absent;
  diff_resolver = Resolver.mapping ((30, []) ∷ []);
  manifest_resolver = Resolver.callable (λ k. returned manifest);
  registry = record {
    tasks = [];
    snapshots = [];
    patch_cases = [];
    verifier_versions = [];
    verifier_manifests = [];
  };
  run = λ spec files. passing_run;
  files_after = λ spec files. files;
  file_after = λ spec files path. some (123 ∷ 125 ∷ []);
  source_dir = λ k. codes "source";
  out_dir = λ k. codes "out";
  decode_report = λ b. report;
  reads_float = λ s. false;
  new_attempt_id = 500;
  now = 1_050;
}

abbrev waiting_job : Job
waiting_job = record {
  job_id = 1;
  run_id = 7;
  task_key = 20;
  case_id = 30;
  verifier_key = 40;
  repetition = 0;
  state = JobState.pending;
  fence = 0;
  attempt_id = none;
  lease_token = none;
  worker_id = none;
  lease_expires_ms = none;
  attempts_started = 0;
  selected_attempt_id = none;
  terminal_reason = none;
}

abbrev planned_run : RunRow
planned_run = record {
  run_id = 7;
  manifest_hash = 70;
  state = RunState.planned;
  cancel_requested = false;
  finished_at = none;
}

abbrev start : Shared
start = record {
  db = record {
    jobs = waiting_job ∷ [];
    attempts = [];
    runs = planned_run ∷ [];
    manifests = [];
    artifacts = [];
  };
  store = record { entries = λ _. none; temps = []; rows = [] };
}

abbrev request : ClaimRequest
request = record {
  worker_id = 1;
  now_ms = 1_000;
  run_id = some 7;
  lease_duration_ms = 500;
  new_attempt_id = 101;
  new_lease_token = 201;
}

-- The worker is alone, and beats once.
abbrev schedule : Schedule
schedule = record {
  before_running = λ db. db;
  running_at = 1_010;
  beats = record { others = λ db. db; time = 1_200 } ∷ [];
  before_complete = λ db. db;
  complete_at = 1_600;
}

abbrev turn : Turn
turn = run_one host request schedule start

abbrev shared_in : Turn → Shared
shared_in (finished v job attempt s) = s
shared_in (idle s) = s
shared_in (stopped e s) = s

abbrev after_turn : Shared
after_turn = shared_in turn

abbrev beaten_job : Job
beaten_job = record waiting_job {
  state = JobState.running;
  fence = 1;
  attempt_id = some 101;
  lease_token = some 201;
  worker_id = some 1;
  lease_expires_ms = some 1_700;
  attempts_started = 1;
}

abbrev accepted : EvaluationAttempt
accepted = record {
  attempt_id = 101;
  job_id = 1;
  fence = 1;
  outcome = some Outcome.accept;
  evaluation_validity = Validity.valid;
  error_code = none;
  disposition = Disposition.authoritative;
  started_at = 1_050;
  finished_at = some 1_050;
  exit_code = some (pos 0);
  stdout_hash = some 9;
  stderr_hash = none;
  report_digest = some 9;
  test_collection = "t::one" ∷ [];
  tests_passed = some 1;
  tests_failed = some 0;
  resources = record {
    duration = some 5;
    allocated_cpu = some 1;
    cpu_seconds = some 5;
    peak_memory = none;
    model_usage = none;
    estimated_cost = none;
    pricing_version = none;
    bytes_written = some 2;
  };
  artifact_digests = 9 ∷ 9 ∷ [];
  capture_truncated = false;
}

abbrev prepared : Preparation
prepared = prepare host start beaten_job

digest-is_valid : (content : Bytes) → is_valid_digest (digest content) ≡ true
unfolding is_valid_digest
digest-is_valid [] = refl
digest-is_valid (_ ∷ _) = refl

evaluate-IsKept_example : IsKept host.key_of (evaluate host 101 beaten_job false prepared start).1 9
unfolding prepare resolve_snapshot resolve_diff resolve_manifest copy_snapshot evaluate run_commands
    resolve_command execute read_stream read_report collect store_output put_stream
    register_artifact register capture_limit output_limit classify parse_capture parse get_field
    status_of lower_is is_blank
evaluate-IsKept_example =
    evaluate-IsKept host 101 beaten_job false prepared start
      (evaluate host 101 beaten_job false prepared start).1 accepted 9 digest-is_valid refl refl

abbrev ended_with : Ended → ℕ
ended_with (exhausted count s) = count
ended_with (drained count s) = count
ended_with (raised e s) = 0

-- The loop has two rounds; in the second there is nothing to claim.
abbrev rounds : List Round
rounds =
    record { host = host; request = request; schedule = schedule }
    ∷ record { host = host; request = request; schedule = schedule }
    ∷ []

alone : ScheduleMoves schedule
alone = record {
  running = λ db. Moves.here;
  beating = ((λ db. Moves.here), tt);
  completing = λ db. Moves.here;
}

run_until_terminal-Moves_example :
    Moves start.db (shared_at_end (run_until_terminal 0 rounds start)).db
run_until_terminal-Moves_example = run_until_terminal-Moves 0 rounds start (alone, (alone, tt))

-- The job is done in the first round, so the loop ends in the second.
loop_count : ended_with (run_until_terminal 0 rounds start) ≡ 1
unfolding capture_limit output_limit run_until_terminal run_one claim update_run_state run_claimed
    mark_running work prepare resolve_snapshot resolve_diff resolve_manifest copy_snapshot beat
    heartbeat evaluate run_commands resolve_command execute read_stream read_report collect
    store_output put_stream register_artifact register classify parse_capture parse get_field
    status_of lower_is is_blank submit complete complete_row lease_is_dead identity_agrees
    commit_attempt check_row
loop_count = refl
