-- ===== src/Matrix/Unanimity.antt =====
-- No majority voting: what the outcome of a cell says of its repetitions.
use verifier_ci.Prelude.{
  ℕ, zero, suc, ◌+◌, ◌≤◌, ◌≡◌, ◌≢◌, ◌↔◌, ◌⊎◌, inl, inr, refl, ap, sym, ◌∙◌, true, false, none, some,
  List, [], ◌∷◌, arith, length, count_if-le, ◌==◌, ltb, Bool-cases,
}
use verifier_ci.Models.Job.{Key}
use verifier_ci.Models.Attempt.{EvaluationAttempt, Outcome, Validity, outcome_eq}
use verifier_ci.Matrix.Cell.{selections, repetition_outcomes, RepetitionOutcome}
use verifier_ci.Matrix.Reduce.{
  completed, count_of, reduce, reduce_completed, aggregate_cell, CellKey, Reduction, reduction,
}

-- Every repetition ended with the outcome.
abbrev pub AllEnded : Outcome → List RepetitionOutcome → Type 0
AllEnded o [] = Unit
AllEnded o (r ∷ rs) = (r ≡ some o) × AllEnded o rs

length-completed : (rs : List RepetitionOutcome) → length (completed rs) ≤ length rs
unfolding completed
length-completed [] = omega arith
length-completed (none ∷ rs) = omega (arith, length-completed rs)
length-completed (some o ∷ rs) = omega (arith, length-completed rs)

outcome_eq→eq : (o p : Outcome) → outcome_eq o p ≡ true → o ≡ p
outcome_eq→eq o p h = ground arith

-- If every repetition is complete and as many as there are have the outcome, all have it.
unanimous :
    (o : Outcome) (rs : List RepetitionOutcome)
    → length rs ≤ length (completed rs)
    → count_of o (completed rs) ≡ length (completed rs)
    → AllEnded o rs
unfolding completed
unanimous o [] h c = tt
unanimous o (none ∷ rs) h c = absurd (omega (arith, length-completed rs))
unanimous o (some p ∷ rs) h c = elim (Bool-cases (outcome_eq o p)) [
  | inl same ↦ (ap some (sym (outcome_eq→eq o p same)), unanimous o rs (omega arith) (ground arith))
  | inr other ↦ absurd (ground (arith, count_if-le (outcome_eq o) (completed rs)))
]

outcome_eq_refl : (o : Outcome) → outcome_eq o o ≡ true
outcome_eq_refl o = ground arith

all_count :
    (o : Outcome) (rs : List RepetitionOutcome)
    → AllEnded o rs
    → (count_of o (completed rs) ≡ length rs) × (length (completed rs) ≡ length rs)
unfolding completed
all_count o [] h = (refl, refl)
all_count o (none ∷ rs) (h, hs) = ground arith
all_count o (some p ∷ rs) (h, hs) =
    let (c, l) = all_count o rs hs in
    let same : outcome_eq o p ≡ true = ground (arith, outcome_eq_refl o) in
    (ground arith, omega arith)

count_none : (o p : Outcome) (os : List Outcome) → o ≢ p → count_of o os + count_of p os ≤ length os
count_none o p [] h = omega arith
count_none o p (q ∷ os) h = ground (arith, count_none o p os h)

-- The cell is unresolved: neither decision was unanimous.
abbrev Unresolved : ℕ → List RepetitionOutcome → Type 0
Unresolved planned rs =
    ((reduce planned rs).validity ≡ Validity.invalid)
    × ((reduce planned rs).outcome ≢ Outcome.accept)
    × ((reduce planned rs).outcome ≢ Outcome.reject)
    × (¬ AllEnded Outcome.accept rs)
    × (¬ AllEnded Outcome.reject rs)

incomplete :
    (planned : ℕ) (rs : List RepetitionOutcome)
    → length rs ≡ planned
    → ltb (length (completed rs)) planned ≡ true
    → Unresolved planned rs
unfolding reduce
incomplete planned rs n missing = (
  ground arith,
  λ h. ground arith,
  λ h. ground arith,
  λ h. let (c, l) = all_count Outcome.accept rs h in ground arith,
  λ h. let (c, l) = all_count Outcome.reject rs h in ground arith,
)

disagreeing :
    (planned : ℕ) (rs : List RepetitionOutcome)
    → length rs ≡ planned
    → ltb (length (completed rs)) planned ≡ false
    → (count_of Outcome.accept (completed rs) == length (completed rs)) ≡ false
    → (count_of Outcome.reject (completed rs) == length (completed rs)) ≡ false
    → Unresolved planned rs
unfolding reduce reduce_completed
disagreeing planned rs n whole a r = (
  ground arith,
  λ h. ground arith,
  λ h. ground arith,
  λ h. let (c, l) = all_count Outcome.accept rs h in ground arith,
  λ h. let (c, l) = all_count Outcome.reject rs h in ground arith,
)

-- What the outcomes of the planned repetitions say, when there are as many as planned.
reduce_cases :
    (planned : ℕ) (rs : List RepetitionOutcome)
    → length rs ≡ planned
    → ((reduce planned rs ≡ reduction Outcome.accept Validity.valid none)
        × AllEnded Outcome.accept rs)
      ⊎ ((reduce planned rs ≡ reduction Outcome.reject Validity.valid none)
          × AllEnded Outcome.reject rs
          × (0 ≢ planned))
      ⊎ Unresolved planned rs
unfolding reduce reduce_completed
reduce_cases planned rs n =
    let short = length-completed rs in
    let few = count_if-le (outcome_eq Outcome.accept) (completed rs) in
    elim (Bool-cases (ltb (length (completed rs)) planned)) [
      | inl missing ↦ inr (inr (incomplete planned rs n missing))
      | inr whole ↦
          elim (Bool-cases (count_of Outcome.accept (completed rs) == length (completed rs))) [
            | inl all ↦
                inl (ground arith, unanimous Outcome.accept rs (ground arith) (ground arith))
            | inr not_all ↦
                elim (Bool-cases
                  (count_of Outcome.reject (completed rs) == length (completed rs))) [
                    | inl all ↦ inr (
                        inl (
                          ground arith,
                          unanimous Outcome.reject rs (ground arith) (ground arith),
                          λ h. ground arith,
                        ))
                    | inr mixed ↦ inr (inr (disagreeing planned rs n whole not_all mixed))
                  ]
          ]
    ]

length-selections :
    (m : List (Key × ℕ)) (attempts : List EvaluationAttempt) (r left : ℕ)
    → length (repetition_outcomes (selections m attempts r left)) ≡ left
unfolding selections
length-selections m attempts r zero = refl
length-selections m attempts r (suc left) = ap suc (length-selections m attempts (suc r) left)

not_both :
    (rs : List RepetitionOutcome)
    → AllEnded Outcome.accept rs
    → AllEnded Outcome.reject rs
    → 0 ≡ length rs
not_both [] a r = refl
not_both (x ∷ rs) (a, as_all) (r, rs_all) = ground arith

reduction_laws :
    (planned : ℕ) (rs : List RepetitionOutcome)
    → length rs ≡ planned
    → (let d = reduce planned rs in
        ((d.outcome ≡ Outcome.accept) ↔ AllEnded Outcome.accept rs)
        × ((d.outcome ≡ Outcome.reject) ↔ (AllEnded Outcome.reject rs × (0 ≢ planned)))
        × ((d.validity ≡ Validity.valid)
            ↔ ((d.outcome ≡ Outcome.accept) ⊎ (d.outcome ≡ Outcome.reject))))
reduction_laws planned rs n = elim (reduce_cases planned rs n) [
  | inl (is, all) ↦
      let o : (reduce planned rs).outcome ≡ Outcome.accept = ap (λ (x : Reduction). x.outcome) is in
      let v : (reduce planned rs).validity ≡ Validity.valid =
        ap (λ (x : Reduction). x.validity) is in
      (
        (λ h. all, λ h. o),
        (λ h. ground arith, λ (h, some_one). absurd (some_one (not_both rs all h ∙ n))),
        (λ h. inl o, λ h. v),
      )
  | inr (inl (is, all, some_one)) ↦
      let o : (reduce planned rs).outcome ≡ Outcome.reject = ap (λ (x : Reduction). x.outcome) is in
      let v : (reduce planned rs).validity ≡ Validity.valid =
        ap (λ (x : Reduction). x.validity) is in
      (
        (λ h. ground arith, λ h. absurd (some_one (not_both rs h all ∙ n))),
        (λ h. (all, some_one), λ h. o),
        (λ h. inr o, λ h. v),
      )
  | inr (inr (v, a, r, na, nr)) ↦ (
    (λ h. absurd (a h), λ h. absurd (na h)),
    (λ h. absurd (r h), λ h. absurd (nr h.0)),
    (λ h. ground arith, λ h. elim h [ inl x ↦ absurd (a x) | inr x ↦ absurd (r x) ]),
  )
]

-- The cell has one outcome for each planned repetition. It is `accept` if and only if every one of
-- them is `accept`. It is `reject` if and only if every one of them is `reject` and a repetition is
-- planned. Its validity is `valid` if and only if its outcome is one of the two: no majority, no
-- missing repetition and no error makes a cell a decision.
pub aggregate_cell-unanimous :
    (k : CellKey) (planned : ℕ) (attempts : List EvaluationAttempt) (m : List (Key × ℕ))
    → let c = aggregate_cell k planned attempts m in
      (length c.repetition_outcomes ≡ planned)
      × ((c.outcome ≡ Outcome.accept) ↔ AllEnded Outcome.accept c.repetition_outcomes)
      × ((c.outcome ≡ Outcome.reject)
          ↔ (AllEnded Outcome.reject c.repetition_outcomes × (0 ≢ planned)))
      × ((c.evaluation_validity ≡ Validity.valid)
          ↔ ((c.outcome ≡ Outcome.accept) ⊎ (c.outcome ≡ Outcome.reject)))
unfolding aggregate_cell
aggregate_cell-unanimous k planned attempts m =
    let n = length-selections m attempts 0 planned in
    let (a, r, v) =
      reduction_laws planned (repetition_outcomes (selections m attempts 0 planned)) n in
    (n, a, r, v)
