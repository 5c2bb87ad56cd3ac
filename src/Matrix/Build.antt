-- ===== src/Matrix/Build.antt =====
-- `build_matrix`, with the records that it makes and `validate_matrix`. The two SHA-256 digests are
-- parameters; what a set or a dictionary holds is a list.
use verifier_ci.Prelude.{
  ℕ, Bool, false, ◌&&◌, ◌||◌, not, Option, none, some, List, [], ◌∷◌, if◌then◌else◌, ◌==◌, ltb, leb,
  map, keep_if, length, any, all, contains, is_some, or_default,
}
use verifier_ci.Prelude.Tables.{find_key}
use verifier_ci.Errors.{ErrorClass}
use verifier_ci.Models.Job.{Key, Job, is_terminal}
use verifier_ci.Models.Attempt.{EvaluationAttempt, Outcome, Validity, Disposition}
use verifier_ci.Planner.Manifest.{AuditManifest}
use verifier_ci.Matrix.Reduce.{aggregate_cell, AcceptanceCell, CellKey, Label, Role}

-- What is read of an `Adjudication`.
pub record Adjudication : Type 0 where
  pub adjudication_id : Key
  pub case_id : Key
  pub label : Label

-- The key of a cell: `(task_key, case_id, verifier_key)`.
pub record CellIndex : Type 0 where
  pub task_key : Key
  pub case_id : Key
  pub verifier_key : Key

abbrev pub index_of_job : Job → CellIndex
index_of_job j = record {
  task_key = j.task_key;
  case_id = j.case_id;
  verifier_key = j.verifier_key;
}

abbrev pub index_eq : CellIndex → CellIndex → Bool
index_eq a b =
    (a.task_key == b.task_key) && (a.case_id == b.case_id) && (a.verifier_key == b.verifier_key)

abbrev pub index_lt : CellIndex → CellIndex → Bool
index_lt a b =
    ltb a.task_key b.task_key
    || ((a.task_key == b.task_key)
        && (ltb a.case_id b.case_id
            || ((a.case_id == b.case_id) && ltb a.verifier_key b.verifier_key)))

-- The arguments. The mappings are in the order of their entries, a `repository_map` of None is empty,
-- and a `PatchCase` is read for its role. The last two fields stand for the texts "" and
-- "unadjudicated".
pub record MatrixRequest : Type 0 where
  pub manifest : AuditManifest
  pub jobs : List Job
  pub attempts : List EvaluationAttempt
  pub adjudications : List (Key × Adjudication)
  pub cases : List (Key × Role)
  pub repository_map : List (Key × Key)
  pub reducer_version : Key
  pub empty_text : Key
  pub unadjudicated : Key

-- A row of `attempt_records`.
pub record AttemptRecord : Type 0 where
  pub attempt_id : Key
  pub job_id : Key
  pub disposition : Disposition
  pub outcome : Option Outcome
  pub validity : Validity

-- A row of the cells in `matrix_id_payload`.
pub record CellRecord : Type 0 where
  pub task_key : Key
  pub case_id : Key
  pub verifier_key : Key
  pub outcome : Outcome
  pub validity : Validity

-- `matrix_id_payload`
pub record MatrixPayload : Type 0 where
  pub run_id : Key
  pub reducer_version : Key
  pub source_attempts_digest : Key
  pub cells : List CellRecord

-- `AcceptanceMatrix`
pub record AcceptanceMatrix : Type 0 where
  pub matrix_id : Key
  pub run_id : Key
  pub reducer_version : Key
  pub cells : List AcceptanceCell
  pub complete : Bool
  pub source_attempts_digest : Key
  pub created_at : ℕ

pub data Assembled : Type 0 where
  assembled : AcceptanceMatrix → Assembled
  refused : ErrorClass → Assembled

-- The loop that raises at an identifier already seen.
unfoldable pub repeats_from : List Key → List Key → Bool
repeats_from seen [] = false
repeats_from seen (k ∷ ks) = contains k seen || repeats_from (k ∷ seen) ks

-- `job_by_id.get(…)`; no identifier stands twice by then.
abbrev pub job_by_id : List Job → Key → Option Job
job_by_id jobs k = find_key (λ j. j.job_id) k jobs

abbrev pub is_orphan : List Job → EvaluationAttempt → Bool
is_orphan jobs a = not (is_some (job_by_id jobs a.job_id))

-- The set of the keys, sorted: a key that is there already is not added.
abbrev pub add_index : CellIndex → List CellIndex → List CellIndex
add_index k [] = k ∷ []
add_index k (x ∷ xs) =
    if index_eq k x then x ∷ xs else if index_lt k x then k ∷ x ∷ xs else x ∷ add_index k xs

unfoldable pub sorted_cell_keys : List Job → List CellIndex
sorted_cell_keys [] = []
sorted_cell_keys (j ∷ js) = add_index (index_of_job j) (sorted_cell_keys js)

abbrev pub is_of_cell : List Job → CellIndex → EvaluationAttempt → Bool
is_of_cell jobs k a = elim (job_by_id jobs a.job_id) [
  | none ↦ false
  | some j ↦ index_eq (index_of_job j) k
]

-- `attempts_by_cell[k]`
unfoldable pub attempts_by_cell :
    List Job → CellIndex → List EvaluationAttempt → List EvaluationAttempt
attempts_by_cell jobs k attempts = keep_if (is_of_cell jobs k) attempts

abbrev value_at {ℓ} : {A : Type ℓ} → Key → List (Key × A) → Option A
value_at k [] = none
value_at k ((j, v) ∷ entries) = if j == k then some v else value_at k entries

-- The adjudication that is filed under the case, or else the first one that is about it.
abbrev pub adjudication_of : List (Key × Adjudication) → Key → Option Adjudication
adjudication_of entries c = elim (value_at c entries) [
  | none ↦
      find_key (λ (a : Adjudication). a.case_id) c (map (λ (e : Key × Adjudication). e.1) entries)
  | some a ↦ some a
]

abbrev adjudication_id_of : Option Adjudication → Key → Key
adjudication_id_of none default = default
adjudication_id_of (some a) default = a.adjudication_id

abbrev label_of : Option Adjudication → Label
label_of none = Label.unresolved
label_of (some a) = a.label

-- The arguments of `aggregate_cell` that the cell carries on.
abbrev pub cell_key : MatrixRequest → CellIndex → CellKey
cell_key q k =
    let adj = adjudication_of q.adjudications k.case_id in
    record {
      task_key = k.task_key;
      repository_id = or_default (value_at k.task_key q.repository_map) q.empty_text;
      case_id = k.case_id;
      verifier_key = k.verifier_key;
      adjudication_id = adjudication_id_of adj q.unadjudicated;
      label = label_of adj;
      role = or_default (value_at k.case_id q.cases) Role.challenge;
    }

-- `job_repetition_map`
abbrev pub job_repetition_map : List Job → List (Key × ℕ)
job_repetition_map = map (λ j. (j.job_id, j.repetition))

-- The body of the loop over the keys.
unfoldable pub cell_at : MatrixRequest → CellIndex → AcceptanceCell
unfolding attempts_by_cell aggregate_cell
cell_at q k =
    aggregate_cell (cell_key q k) q.manifest.max_repetitions (attempts_by_cell q.jobs k q.attempts)
      (job_repetition_map q.jobs)

-- `is_complete`
unfoldable pub is_complete : MatrixRequest → List AcceptanceCell → Bool
is_complete q cells =
    all (λ j. is_terminal j.state) q.jobs
    && all (λ c. length c.selected_attempt_ids == q.manifest.max_repetitions) cells

abbrev insert_attempt : EvaluationAttempt → List EvaluationAttempt → List EvaluationAttempt
insert_attempt a [] = a ∷ []
insert_attempt a (b ∷ bs) =
    if leb a.attempt_id b.attempt_id then a ∷ b ∷ bs else b ∷ insert_attempt a bs

-- `sorted(attempts, key=…)`
unfoldable pub sort_attempts : List EvaluationAttempt → List EvaluationAttempt
sort_attempts [] = []
sort_attempts (a ∷ as_) = insert_attempt a (sort_attempts as_)

abbrev pub attempt_record : EvaluationAttempt → AttemptRecord
attempt_record a = record {
  attempt_id = a.attempt_id;
  job_id = a.job_id;
  disposition = a.disposition;
  outcome = a.outcome;
  validity = a.evaluation_validity;
}

abbrev pub cell_record : AcceptanceCell → CellRecord
cell_record c = record {
  task_key = c.task_key;
  case_id = c.case_id;
  verifier_key = c.verifier_key;
  outcome = c.outcome;
  validity = c.evaluation_validity;
}

unfoldable pub validate_matrix : AcceptanceMatrix → AuditManifest → Option ErrorClass
validate_matrix m manifest =
    if m.run_id == manifest.run_id then none else some ErrorClass.validation_error

module _ (source_digest : List AttemptRecord → Key) (matrix_digest : MatrixPayload → Key)
    (now : ℕ) where
  -- The matrix that is built once the identities are checked.
  abbrev pub matrix_of : MatrixRequest → AcceptanceMatrix
  matrix_of q =
      let cells = map (cell_at q) (sorted_cell_keys q.jobs) in
      let source = source_digest (map attempt_record (sort_attempts q.attempts)) in
      record {
        matrix_id = matrix_digest (record {
          run_id = q.manifest.run_id;
          reducer_version = q.reducer_version;
          source_attempts_digest = source;
          cells = map cell_record cells;
        });
        run_id = q.manifest.run_id;
        reducer_version = q.reducer_version;
        cells = cells;
        complete = is_complete q cells;
        source_attempts_digest = source;
        created_at = now;
      }

  abbrev validated : AcceptanceMatrix → AuditManifest → Assembled
  validated m manifest = elim (validate_matrix m manifest) [
    | none ↦ assembled m
    | some e ↦ refused e
  ]

  unfoldable pub build_matrix : MatrixRequest → Assembled
  unfolding repeats_from sorted_cell_keys cell_at is_complete sort_attempts validate_matrix
  build_matrix q =
      if repeats_from [] (map (λ j. j.job_id) q.jobs)
      then refused ErrorClass.identity_conflict
      else if repeats_from [] (map (λ a. a.attempt_id) q.attempts)
      then refused ErrorClass.identity_conflict
      else if any (is_orphan q.jobs) q.attempts
      then refused ErrorClass.identity_conflict
      else validated (matrix_of q) q.manifest
