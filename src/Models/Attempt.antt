-- ===== src/Models/Attempt.antt =====
-- `EvaluationAttempt` and `ResourceUsage` of src/verifierci/models. A time is its number of
-- milliseconds and a float measurement is a number that is only stored and compared.
pub mod Validation
use verifier_ci.Prelude.{
  ℕ, Bool, true, false, ◌&&◌, Option, none, some, List, [], ◌∷◌, String, ◌==◌, opt_eq, list_eq,
  str_eq, length, any, all,
}
use verifier_ci.Prelude.Int.{ℤ}
use verifier_ci.Models.Job.{Key}

-- Outcomes of attempts and of cells; `flaky` is a cell's only.
pub data Outcome : Type 0 where
  accept reject invalid_evaluation error flaky : Outcome

pub data Validity : Type 0 where
  pending valid invalid : Validity

pub data Disposition : Type 0 where
  active authoritative stale abandoned : Disposition

pub record ResourceUsage : Type 0 where
  pub duration : Option ℕ
  pub allocated_cpu : Option ℕ
  pub cpu_seconds : Option ℕ
  pub peak_memory : Option ℕ
  pub model_usage : Option (List (Key × ℕ))
  pub estimated_cost : Option String
  pub pricing_version : Option String
  pub bytes_written : Option ℕ

pub record EvaluationAttempt : Type 0 where
  pub attempt_id : Key
  pub job_id : Key
  pub fence : ℕ
  pub outcome : Option Outcome
  pub evaluation_validity : Validity
  pub error_code : Option String
  pub disposition : Disposition
  pub started_at : ℕ
  pub finished_at : Option ℕ
  pub exit_code : Option ℤ
  pub stdout_hash : Option Key
  pub stderr_hash : Option Key
  pub report_digest : Option Key
  pub test_collection : List String
  pub tests_passed : Option ℕ
  pub tests_failed : Option ℕ
  pub resources : ResourceUsage
  pub artifact_digests : List Key
  pub capture_truncated : Bool

abbrev pub outcome_eq : Outcome → Outcome → Bool
outcome_eq Outcome.accept Outcome.accept = true
outcome_eq Outcome.reject Outcome.reject = true
outcome_eq Outcome.invalid_evaluation Outcome.invalid_evaluation = true
outcome_eq Outcome.error Outcome.error = true
outcome_eq Outcome.flaky Outcome.flaky = true
outcome_eq _ _ = false

abbrev pub validity_eq : Validity → Validity → Bool
validity_eq Validity.pending Validity.pending = true
validity_eq Validity.valid Validity.valid = true
validity_eq Validity.invalid Validity.invalid = true
validity_eq _ _ = false

-- `disposition IN ('active', 'abandoned')`
abbrev pub is_open : Disposition → Bool
is_open Disposition.active = true
is_open Disposition.abandoned = true
is_open _ = false

abbrev pub is_active : Disposition → Bool
is_active Disposition.active = true
is_active _ = false

abbrev pub is_authoritative : Disposition → Bool
is_authoritative Disposition.authoritative = true
is_authoritative _ = false

-- `disposition IN ('abandoned', 'stale')`
abbrev pub is_closed : Disposition → Bool
is_closed Disposition.abandoned = true
is_closed Disposition.stale = true
is_closed _ = false

-- `outcome IN ('accept', 'reject')`
abbrev pub is_decision : Option Outcome → Bool
is_decision (some Outcome.accept) = true
is_decision (some Outcome.reject) = true
is_decision _ = false

-- `outcome IN ('invalid_evaluation', 'error')`
abbrev pub is_non_decision : Option Outcome → Bool
is_non_decision (some Outcome.invalid_evaluation) = true
is_non_decision (some Outcome.error) = true
is_non_decision _ = false

-- Equality of two dictionaries of token counts: as many entries, and every entry of one in the
-- other, whatever the order.
abbrev pub entry_eq : Key × ℕ → Key × ℕ → Bool
entry_eq (k, n) (j, m) = (k == j) && (n == m)

abbrev pub usage_eq : List (Key × ℕ) → List (Key × ℕ) → Bool
usage_eq xs ys = (length xs == length ys) && all (λ e. any (entry_eq e) ys) xs

-- Equality of the dictionaries that the queue writes for the measured resources.
abbrev pub resources_eq : ResourceUsage → ResourceUsage → Bool
resources_eq r s =
    opt_eq ◌==◌ r.duration s.duration
    && opt_eq ◌==◌ r.allocated_cpu s.allocated_cpu
    && opt_eq ◌==◌ r.cpu_seconds s.cpu_seconds
    && opt_eq ◌==◌ r.peak_memory s.peak_memory
    && opt_eq usage_eq r.model_usage s.model_usage
    && opt_eq str_eq r.estimated_cost s.estimated_cost
    && opt_eq str_eq r.pricing_version s.pricing_version
    && opt_eq ◌==◌ r.bytes_written s.bytes_written
