-- ===== src/Matrix/Examples.antt =====
-- A cell of three repetitions: all accepted, and one missing.
use verifier_ci.Prelude.{ℕ, ◌≡◌, ◌≢◌, ◌⊎◌, ◌↔◌, refl, false, none, some, List, [], ◌∷◌, length}
use verifier_ci.Models.Job.{Key}
use verifier_ci.Models.Attempt.{EvaluationAttempt, Outcome, Validity, Disposition}
use verifier_ci.Matrix.Reduce.{aggregate_cell, CellKey, AcceptanceCell, Label, Role}
use verifier_ci.Matrix.Unanimity.{AllEnded, aggregate_cell-unanimous}

abbrev cell : CellKey
cell = record {
  task_key = 1;
  repository_id = 2;
  case_id = 3;
  verifier_key = 4;
  adjudication_id = 5;
  label = Label.valid;
  role = Role.challenge;
}

abbrev pub attempt : Key → Outcome → EvaluationAttempt
attempt k o = record {
  attempt_id = k;
  job_id = k;
  fence = 1;
  outcome = some o;
  evaluation_validity = Validity.valid;
  error_code = none;
  disposition = Disposition.authoritative;
  started_at = 0;
  finished_at = none;
  exit_code = none;
  stdout_hash = none;
  stderr_hash = none;
  report_digest = none;
  test_collection = [];
  tests_passed = none;
  tests_failed = none;
  resources = record {
    duration = none;
    allocated_cpu = none;
    cpu_seconds = none;
    peak_memory = none;
    model_usage = none;
    estimated_cost = none;
    pricing_version = none;
    bytes_written = none;
  };
  artifact_digests = [];
  capture_truncated = false;
}

abbrev repetitions : List (Key × ℕ)
repetitions = (1, 0) ∷ (2, 1) ∷ (3, 2) ∷ []

abbrev attempts : Outcome → List EvaluationAttempt
attempts last = attempt 1 Outcome.accept ∷ attempt 2 Outcome.accept ∷ attempt 3 last ∷ []

abbrev flaky_cell : AcceptanceCell
flaky_cell = aggregate_cell cell 3 (attempts Outcome.reject) repetitions

aggregate_cell-unanimous_example :
    (length flaky_cell.repetition_outcomes ≡ 3)
    × ((flaky_cell.outcome ≡ Outcome.accept)
        ↔ AllEnded Outcome.accept flaky_cell.repetition_outcomes)
    × ((flaky_cell.outcome ≡ Outcome.reject)
        ↔ (AllEnded Outcome.reject flaky_cell.repetition_outcomes × (◌≢◌ {A = ℕ} 0 3)))
    × ((flaky_cell.evaluation_validity ≡ Validity.valid)
        ↔ ((flaky_cell.outcome ≡ Outcome.accept) ⊎ (flaky_cell.outcome ≡ Outcome.reject)))
aggregate_cell-unanimous_example =
    aggregate_cell-unanimous cell 3 (attempts Outcome.reject) repetitions

a_disagreement_is_flaky : flaky_cell.outcome ≡ Outcome.flaky
unfolding aggregate_cell
a_disagreement_is_flaky = refl

agreement_is_accepted :
    (aggregate_cell cell 3 (attempts Outcome.accept) repetitions).outcome ≡ Outcome.accept
unfolding aggregate_cell
agreement_is_accepted = refl

-- No planned repetition: every one of none has accepted.
nothing_planned : (aggregate_cell cell 0 [] []).outcome ≡ Outcome.accept
unfolding aggregate_cell
nothing_planned = refl
