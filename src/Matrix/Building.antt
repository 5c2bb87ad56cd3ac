-- ===== src/Matrix/Building.antt =====
-- A matrix of two repetitions in one cell, built.
use verifier_ci.Prelude.{
  ℕ, ◌≡◌, ◌↔◌, ◌⊎◌, inl, refl, true, none, some, List, [], ◌∷◌, arith, map, contains, length,
}
use verifier_ci.Prelude.Tables.{IsIn}
use verifier_ci.Errors.{ErrorClass}
use verifier_ci.Models.Job.{Key, Job, JobState}
use verifier_ci.Models.Attempt.{Outcome}
use verifier_ci.Planner.Manifest.{AuditManifest}
use verifier_ci.Matrix.Reduce.{Role, Label}
use verifier_ci.Matrix.Build.{
  MatrixRequest, AcceptanceMatrix, AttemptRecord, MatrixPayload, CellIndex, assembled, refused,
  build_matrix, matrix_of, index_of_job, cell_at,
}
use verifier_ci.Matrix.Build.{
  repeats_from, validate_matrix, sorted_cell_keys, is_complete, attempts_by_cell,
}
use verifier_ci.Matrix.Cell.{selections, select_repetition, latest}
use verifier_ci.Matrix.Reduce.{reduce, completed, reduce_completed, dedupe_from, aggregate_cell}
use verifier_ci.Matrix.Identities.{Consistent, build_matrix-Consistent}
use verifier_ci.Matrix.Assembly.{Increasing, index_of_cell, build_matrix-cells}
use verifier_ci.Matrix.Evidence.{OfCell, ids_listed, build_matrix-OfCell}
use verifier_ci.Matrix.Completeness.{SelectedAt, build_matrix-SelectedAt}
use verifier_ci.Matrix.Examples.{attempt}

abbrev manifest : AuditManifest
manifest = record {
  manifest_hash = 90;
  run_id = 7;
  benchmark_version = 1;
  task_pins = [];
  panel_key = 1;
  adjudication_version = 1;
  evaluation_harness_version = 1;
  config_hash = 1;
  policy_hash = 1;
  analysis_plan_hash = none;
  timestamp = 0;
  host_fingerprint = 1;
  seed = none;
  agent_version = none;
  model_identifier = none;
  max_repetitions = 2;
  max_attempts_per_job = 1;
  timeout_seconds = 60;
  resource_policy = 1;
  expansion_digest = 1;
  parent_run_id = none;
}

abbrev ended_job : Key → ℕ → Job
ended_job k repetition = record {
  job_id = k;
  run_id = 7;
  task_key = 10;
  case_id = 20;
  verifier_key = 30;
  repetition = repetition;
  state = JobState.done;
  fence = 1;
  attempt_id = none;
  lease_token = none;
  worker_id = none;
  lease_expires_ms = none;
  attempts_started = 1;
  selected_attempt_id = some k;
  terminal_reason = none;
}

abbrev request : MatrixRequest
request = record {
  manifest = manifest;
  jobs = ended_job 1 0 ∷ ended_job 2 1 ∷ [];
  attempts = attempt 1 Outcome.accept ∷ attempt 2 Outcome.accept ∷ [];
  adjudications = (20, record { adjudication_id = 5; case_id = 20; label = Label.valid }) ∷ [];
  cases = (20, Role.challenge) ∷ [];
  repository_map = [];
  reducer_version = 1;
  empty_text = 0;
  unadjudicated = 99;
}

abbrev source_digest : List AttemptRecord → Key
source_digest rows = length rows

abbrev matrix_digest : MatrixPayload → Key
matrix_digest p = p.run_id

abbrev matrix : AcceptanceMatrix
matrix = matrix_of source_digest matrix_digest 0 request

abbrev index : CellIndex
index = index_of_job (ended_job 1 0)

built_matrix : build_matrix source_digest matrix_digest 0 request ≡ assembled matrix
unfolding build_matrix repeats_from validate_matrix
built_matrix = refl

has_cell : IsIn (cell_at request index) matrix.cells
unfolding sorted_cell_keys
has_cell = inl refl

whole : matrix.complete ≡ true
unfolding is_complete cell_at sorted_cell_keys attempts_by_cell aggregate_cell selections
    select_repetition latest reduce completed reduce_completed dedupe_from
whole = refl

build_matrix-Consistent_example :
    (Consistent request × (build_matrix source_digest matrix_digest 0 request ≡ assembled matrix))
    ⊎ ((¬ Consistent request)
        × (build_matrix source_digest matrix_digest 0 request
            ≡ refused ErrorClass.identity_conflict))
build_matrix-Consistent_example = build_matrix-Consistent source_digest matrix_digest 0 request

build_matrix-cells_example :
    Increasing (map index_of_cell matrix.cells)
    × (IsIn index (map index_of_cell matrix.cells)
        ↔ ((j : Job) × IsIn j request.jobs × (index ≡ index_of_job j)))
build_matrix-cells_example =
    build_matrix-cells source_digest matrix_digest 0 request matrix index built_matrix

build_matrix-OfCell_example :
    (contains 2 (ids_listed (cell_at request index)) ≡ true)
    ↔ OfCell request (index_of_cell (cell_at request index)) 2
build_matrix-OfCell_example =
    build_matrix-OfCell source_digest matrix_digest 0 request matrix (cell_at request index) 2
      built_matrix has_cell

build_matrix-SelectedAt_example : SelectedAt request (cell_at request index) 1
build_matrix-SelectedAt_example =
    build_matrix-SelectedAt source_digest matrix_digest 0 request matrix (cell_at request index) 1
      built_matrix whole has_cell (omega arith)
