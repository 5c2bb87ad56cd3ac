-- ===== src/Models/Attempt/Validation.antt =====
-- `validate_attempt` of src/verifierci/models/result.py, and the CHECK constraint of the
-- `evaluation_attempts` table in src/verifierci/storage/migrations/001_initial_schema.sql.
use verifier_ci.Prelude.{
  ◌<◌, ◌≡◌, ◌↔◌, Bool, true, false, not, ◌&&◌, ◌||◌, Option, some, leb, is_some, if◌then◌else◌,
  arith, opt_eq,
}
use verifier_ci.Models.Attempt.{
  EvaluationAttempt, Outcome, Validity, Disposition, outcome_eq, is_decision, is_non_decision,
  is_closed, is_active,
}

abbrev invalid_is_allowed : Option Outcome → Disposition → Bool
invalid_is_allowed o d = is_non_decision o || (not (is_some o) && is_closed d)

-- `true` where the Python function returns, `false` where it raises `ValidationError`.
pub validate_attempt : EvaluationAttempt → Bool
validate_attempt a =
    if leb a.fence 0
    then false
    else if opt_eq outcome_eq a.outcome (some Outcome.flaky)
    then false
    else elim a.evaluation_validity [
      | Validity.pending ↦ not (is_some a.outcome || not (is_active a.disposition))
      | Validity.valid ↦ is_decision a.outcome
      | Validity.invalid ↦ invalid_is_allowed a.outcome a.disposition
    ]

-- The row constraint of the table, clause by clause; a null outcome fails a membership test.
unfoldable pub check_row : Option Outcome → Validity → Disposition → Bool
check_row o v d = (not (is_some o) || is_decision o || is_non_decision o) && elim v [
  | Validity.pending ↦ not (is_some o) && is_active d
  | Validity.valid ↦ is_some o && is_decision o
  | Validity.invalid ↦ (is_some o && is_non_decision o) || (not (is_some o) && is_closed d)
]

-- An attempt passes `validate_attempt` exactly when the table's constraints on the fence, the
-- outcome, the validity and the disposition accept it as a row.
pub validate_attempt-check_row :
    (a : EvaluationAttempt)
    → (validate_attempt a ≡ true)
      ↔ ((0 < a.fence) × (check_row a.outcome a.evaluation_validity a.disposition ≡ true))
unfolding validate_attempt check_row
validate_attempt-check_row a = ground arith
