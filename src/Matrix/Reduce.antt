-- ===== src/Matrix/Reduce.antt =====
-- `aggregate_cell`: from the outcomes of the repetitions to the cell.
use verifier_ci.Prelude.{
  ℕ, ◌+◌, Bool, ◌&&◌, Option, none, some, List, [], ◌∷◌, ◌++◌, String, if◌then◌else◌, ◌==◌, ltb,
  keep_if, count_if, length, any, str_eq,
}
use verifier_ci.Models.Job.{Key}
use verifier_ci.Models.Attempt.{EvaluationAttempt, Outcome, Validity, outcome_eq}
use verifier_ci.Matrix.Cell.{
  RepetitionOutcome, selections, all_selected, all_excluded, all_codes, repetition_outcomes,
  is_excluded, attempt_ids,
}

pub data Label : Type 0 where
  valid invalid unresolved : Label

pub data Role : Type 0 where
  challenge reference noop : Role

-- `AcceptanceCell`
pub record AcceptanceCell : Type 0 where
  pub task_key : Key
  pub repository_id : Key
  pub case_id : Key
  pub verifier_key : Key
  pub adjudication_id : Key
  pub label : Label
  pub role : Role
  pub outcome : Outcome
  pub evaluation_validity : Validity
  pub planned_repetitions : ℕ
  pub selected_attempt_ids : List Key
  pub excluded_attempt_ids : List Key
  pub repetition_outcomes : List RepetitionOutcome
  pub diagnostic_codes : List String

-- The arguments that the cell carries on unread.
pub record CellKey : Type 0 where
  pub task_key : Key
  pub repository_id : Key
  pub case_id : Key
  pub verifier_key : Key
  pub adjudication_id : Key
  pub label : Label
  pub role : Role

-- `[o for o in repetition_outcomes if o != "pending"]`
unfoldable pub completed : List RepetitionOutcome → List Outcome
completed [] = []
completed (none ∷ os) = completed os
completed (some o ∷ os) = o ∷ completed os

abbrev pub count_of : Outcome → List Outcome → ℕ
count_of o = count_if (outcome_eq o)

-- The outcome, the validity and the diagnostic that is added.
pub record Reduction : Type 0 where
  pub outcome : Outcome
  pub validity : Validity
  pub added : Option String

abbrev pub reduction : Outcome → Validity → Option String → Reduction
reduction o v c = record { outcome = o; validity = v; added = c }

unfoldable pub reduce_completed : List Outcome → Reduction
reduce_completed os =
    let accepts = count_of Outcome.accept os in
    let rejects = count_of Outcome.reject os in
    let total = length os in
    if accepts == total
    then reduction Outcome.accept Validity.valid none
    else if rejects == total
    then reduction Outcome.reject Validity.valid none
    else if ltb 0 accepts && ltb 0 rejects && (accepts + rejects == total)
    then reduction Outcome.flaky Validity.invalid (some "FLAKY")
    else if count_of Outcome.invalid_evaluation os == total
    then reduction Outcome.invalid_evaluation Validity.invalid none
    else if count_of Outcome.error os == total
    then reduction Outcome.error Validity.invalid none
    else reduction Outcome.invalid_evaluation Validity.invalid (some "instability_detected")

unfoldable pub reduce : ℕ → List RepetitionOutcome → Reduction
unfolding completed reduce_completed
reduce planned os =
    if ltb (length (completed os)) planned
    then reduction Outcome.invalid_evaluation Validity.invalid (some "INCOMPLETE_REPETITIONS")
    else reduce_completed (completed os)

abbrev pub has_code : String → List String → Bool
has_code s = any (str_eq s)

abbrev add_code : Option String → List String → List String
add_code none codes = codes
add_code (some s) codes = if has_code s codes then codes else codes ++ s ∷ []

-- The codes without repetition, in the order of their first occurrence.
unfoldable pub dedupe_from : List String → List String → List String
dedupe_from seen [] = []
dedupe_from seen (c ∷ cs) =
    if has_code c seen then dedupe_from seen cs else c ∷ dedupe_from (c ∷ seen) cs

unfoldable pub aggregate_cell :
    CellKey → ℕ → List EvaluationAttempt → List (Key × ℕ) → AcceptanceCell
unfolding selections reduce dedupe_from
aggregate_cell k planned attempts m =
    let chosen = selections m attempts 0 planned in
    let result = reduce planned (repetition_outcomes chosen) in
    record {
      task_key = k.task_key;
      repository_id = k.repository_id;
      case_id = k.case_id;
      verifier_key = k.verifier_key;
      adjudication_id = k.adjudication_id;
      label = k.label;
      role = k.role;
      outcome = result.outcome;
      evaluation_validity = result.validity;
      planned_repetitions = planned;
      selected_attempt_ids = all_selected chosen;
      excluded_attempt_ids =
          attempt_ids (keep_if (is_excluded m planned) attempts) ++ all_excluded chosen;
      repetition_outcomes = repetition_outcomes chosen;
      diagnostic_codes = dedupe_from [] (add_code result.added (all_codes chosen));
    }
