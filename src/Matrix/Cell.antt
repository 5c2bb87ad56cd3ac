-- ===== src/Matrix/Cell.antt =====
-- `aggregate_cell`: the attempts of a cell, grouped by repetition and selected.
use verifier_ci.Prelude.{
  ℕ, zero, suc, Bool, false, ◌&&◌, ◌||◌, not, Option, none, some, List, [], ◌∷◌, ◌++◌, String,
  if◌then◌else◌, ◌==◌, ltb, map, keep_if,
}
use verifier_ci.Prelude.Text.{is_text}
use verifier_ci.Models.Job.{Key}
use verifier_ci.Models.Attempt.{EvaluationAttempt, Outcome, is_authoritative, is_closed}

-- The outcome of a repetition: of an attempt, or `pending`.
abbrev pub RepetitionOutcome : Type 0
RepetitionOutcome = Option Outcome

-- `job_repetition_map`, which may be None or empty; of equal identifiers the first one here is the
-- entry that is kept.
abbrev pub repetition_of : List (Key × ℕ) → Key → Option ℕ
repetition_of [] k = none
repetition_of ((j, r) ∷ m) k = if j == k then some r else repetition_of m k

abbrev is_planned : ℕ → Option ℕ → Bool
is_planned planned none = false
is_planned planned (some r) = ltb r planned

-- The attempts of one repetition, in the order given.
abbrev pub in_repetition : List (Key × ℕ) → ℕ → EvaluationAttempt → Bool
in_repetition m r a = elim (repetition_of m a.job_id) [ none ↦ false | some s ↦ s == r ]

-- The attempts of no planned repetition.
abbrev pub is_excluded : List (Key × ℕ) → ℕ → EvaluationAttempt → Bool
is_excluded m planned a = not (is_planned planned (repetition_of m a.job_id))

-- `(a.fence, a.started_at, a.attempt_id) < (b.fence, …)`
abbrev pub precedes : EvaluationAttempt → EvaluationAttempt → Bool
precedes a b =
    ltb a.fence b.fence
    || ((a.fence == b.fence)
        && (ltb a.started_at b.started_at
            || ((a.started_at == b.started_at) && ltb a.attempt_id b.attempt_id)))

-- `max`: the first of the greatest.
unfoldable pub latest : EvaluationAttempt → List EvaluationAttempt → EvaluationAttempt
latest a [] = a
latest a (b ∷ bs) = latest (if precedes a b then b else a) bs

abbrev pub attempt_ids : List EvaluationAttempt → List Key
attempt_ids = map (λ a. a.attempt_id)

abbrev others : EvaluationAttempt → List EvaluationAttempt → List Key
others a bs = attempt_ids (keep_if (λ b. not (b.attempt_id == a.attempt_id)) bs)

-- What one repetition contributes to the four lists.
pub record Selection : Type 0 where
  pub selected : List Key
  pub excluded : List Key
  pub outcome : RepetitionOutcome
  pub codes : List String

abbrev error_codes : Option String → List String
error_codes none = []
error_codes (some s) = if is_text s then s ∷ [] else []

abbrev pub selecting : EvaluationAttempt → List EvaluationAttempt → Selection
selecting a bs = record {
  selected = a.attempt_id ∷ [];
  excluded = others a bs;
  outcome = a.outcome;
  codes = error_codes a.error_code;
}

abbrev pub nothing_selected : List EvaluationAttempt → Selection
nothing_selected bs = record {
  selected = [];
  excluded = attempt_ids bs;
  outcome = none;
  codes = [];
}

abbrev pub select_latest : List EvaluationAttempt → Selection
select_latest [] = nothing_selected []
select_latest (b ∷ bs) =
    if is_closed (latest b bs).disposition
    then nothing_selected (b ∷ bs)
    else selecting (latest b bs) (b ∷ bs)

abbrev pub select_authoritative : List EvaluationAttempt → List EvaluationAttempt → Selection
select_authoritative [] bs = select_latest bs
select_authoritative (a ∷ more) bs = selecting (latest a more) bs

-- The body of the loop over the repetitions.
unfoldable pub select_repetition : List EvaluationAttempt → Selection
unfolding latest
select_repetition bs = select_authoritative (keep_if (λ b. is_authoritative b.disposition) bs) bs

-- `range(planned)`, from `r` on.
unfoldable pub selections : List (Key × ℕ) → List EvaluationAttempt → ℕ → ℕ → List Selection
unfolding select_repetition
selections m attempts r zero = []
selections m attempts r (suc left) =
    select_repetition (keep_if (in_repetition m r) attempts) ∷ selections m attempts (suc r) left

abbrev pub all_selected : List Selection → List Key
all_selected [] = []
all_selected (s ∷ ss) = s.selected ++ all_selected ss

abbrev pub all_excluded : List Selection → List Key
all_excluded [] = []
all_excluded (s ∷ ss) = s.excluded ++ all_excluded ss

abbrev pub all_codes : List Selection → List String
all_codes [] = []
all_codes (s ∷ ss) = s.codes ++ all_codes ss

abbrev pub repetition_outcomes : List Selection → List RepetitionOutcome
repetition_outcomes = map (λ s. s.outcome)
