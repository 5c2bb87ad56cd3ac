-- ===== src/Planner/Coverage.antt =====
-- The jobs of a plan are exactly the cross product that its manifest asks for, in order.
use verifier_ci.Prelude.{
  ℕ, zero, suc, ◌+◌, ◌≤◌, ◌<◌, ◌≡◌, ◌↔◌, ◌⊎◌, inl, inr, true, false, Option, List, [], ◌∷◌, arith,
  map, Bool-cases, ◌==◌,
}
use verifier_ci.Prelude.Tables.{IsIn, IsIn-append, IsIn-map}
use verifier_ci.Models.Job.{Key, Job}
use verifier_ci.Planner.Manifest.{TaskPin, PanelView, AuditManifest}
use verifier_ci.Planner.Expand.{
  Coordinates, planned_job, cases_of, repetitions_of, verifiers_of, cases_in, pins_in, job_le,
  insert_job, sort_jobs, expand,
}

-- What a plan asks for, with one pin and these cases.
abbrev pub OfPin : Key → ℕ → TaskPin → List Key → Coordinates → Type 0
OfPin run n pin cases c =
    (c.run_id ≡ run)
    × (c.task_key ≡ pin.task_key)
    × IsIn c.case_id cases
    × ((c.verifier_key ≡ pin.verifier_baseline_version)
        ⊎ (c.verifier_key ≡ pin.verifier_candidate_version))
    × (c.repetition < n)

abbrev pub OfPins : Key → ℕ → Option PanelView → List TaskPin → Coordinates → Type 0
OfPins run n panel [] c = ⊥
OfPins run n panel (pin ∷ pins) c =
    OfPin run n pin (cases_of pin panel) c ⊎ OfPins run n panel pins c

-- Equal in all but the repetition, which lies in a range.
abbrev InRange : Key → TaskPin → Key → Key → ℕ → ℕ → Coordinates → Type 0
InRange run pin case verifier r left c =
    (c.run_id ≡ run)
    × (c.task_key ≡ pin.task_key)
    × (c.case_id ≡ case)
    × (c.verifier_key ≡ verifier)
    × (r ≤ c.repetition)
    × (c.repetition < r + left)

pub repetitions-InRange :
    (run : Key) (pin : TaskPin) (case verifier : Key) (r left : ℕ) (c : Coordinates)
    → IsIn c (repetitions_of run pin case verifier r left)
    → InRange run pin case verifier r left c
unfolding repetitions_of
repetitions-InRange run pin case verifier r zero c h = absurd h
repetitions-InRange run pin case verifier r (suc left) c (inl e) = ground arith
repetitions-InRange run pin case verifier r (suc left) c (inr h) =
    ground (arith, repetitions-InRange run pin case verifier (suc r) left c h)

InRange-repetitions :
    (run : Key) (pin : TaskPin) (case verifier : Key) (r left : ℕ) (c : Coordinates)
    → InRange run pin case verifier r left c
    → IsIn c (repetitions_of run pin case verifier r left)
unfolding repetitions_of
InRange-repetitions run pin case verifier r zero c (a, b, d, e, lo, hi) = absurd (omega arith)
InRange-repetitions run pin case verifier r (suc left) c (a, b, d, e, lo, hi) =
    elim (Bool-cases (c.repetition == r)) [
      | inl hit ↦ inl (ground arith)
      | inr later ↦ inr (
          InRange-repetitions run pin case verifier (suc r) left c
            (a, b, d, e, ground arith, ground arith))
    ]

module _ (run : Key) (n : ℕ) (c : Coordinates) where
  pub verifiers-OfPin :
      (pin : TaskPin) (case : Key)
      → IsIn c (verifiers_of run pin n case)
      → (c.case_id ≡ case) × OfPin run n pin (case ∷ []) c
  unfolding verifiers_of
  verifiers-OfPin pin case h =
      let base = pin.verifier_baseline_version in
      let candidate = pin.verifier_candidate_version in
      elim ((IsIn-append c (repetitions_of run pin case base 0 n) _).0 h) [
        | inl m ↦
            let (a, b, d, v, lo, hi) = repetitions-InRange run pin case base 0 n c m in
            (d, (a, b, inl d, inl v, omega arith))
        | inr m ↦
            let (a, b, d, v, lo, hi) = repetitions-InRange run pin case candidate 0 n c m in
            (d, (a, b, inl d, inr v, omega arith))
      ]

  OfPin-verifiers :
      (pin : TaskPin) (case : Key)
      → c.case_id ≡ case
      → (c.run_id ≡ run)
      → (c.task_key ≡ pin.task_key)
      → ((c.verifier_key ≡ pin.verifier_baseline_version)
          ⊎ (c.verifier_key ≡ pin.verifier_candidate_version))
      → c.repetition < n
      → IsIn c (verifiers_of run pin n case)
  unfolding verifiers_of
  OfPin-verifiers pin case d a b v hi =
      let base = pin.verifier_baseline_version in
      let candidate = pin.verifier_candidate_version in
      (IsIn-append c (repetitions_of run pin case base 0 n)
          (repetitions_of run pin case candidate 0 n)).1
        (elim v [
          | inl e ↦
              inl
                (InRange-repetitions run pin case base 0 n c (a, b, d, e, omega arith, omega arith))
          | inr e ↦ inr (
              InRange-repetitions run pin case candidate 0 n c
                (a, b, d, e, omega arith, omega arith))
        ])

  pub cases-OfPin :
      (pin : TaskPin) (cases : List Key)
      → IsIn c (cases_in run pin n cases)
      → OfPin run n pin cases c
  unfolding cases_in
  cases-OfPin pin [] h = absurd h
  cases-OfPin pin (case ∷ cases) h = elim ((IsIn-append c (verifiers_of run pin n case) _).0 h) [
    | inl m ↦ let (d, (a, b, _, v, hi)) = verifiers-OfPin pin case m in (a, b, inl d, v, hi)
    | inr m ↦ let (a, b, i, v, hi) = cases-OfPin pin cases m in (a, b, inr i, v, hi)
  ]

  OfPin-cases :
      (pin : TaskPin) (cases : List Key)
      → OfPin run n pin cases c
      → IsIn c (cases_in run pin n cases)
  unfolding cases_in
  OfPin-cases pin [] (a, b, i, v, hi) = absurd i
  OfPin-cases pin (case ∷ cases) (a, b, inl d, v, hi) =
      (IsIn-append c (verifiers_of run pin n case) (cases_in run pin n cases)).1
        (inl (OfPin-verifiers pin case d a b v hi))
  OfPin-cases pin (case ∷ cases) (a, b, inr i, v, hi) =
      (IsIn-append c (verifiers_of run pin n case) (cases_in run pin n cases)).1
        (inr (OfPin-cases pin cases (a, b, i, v, hi)))

  pub pins-OfPins :
      (panel : Option PanelView) (pins : List TaskPin)
      → IsIn c (pins_in run n panel pins) ↔ OfPins run n panel pins c
  unfolding pins_in
  pins-OfPins panel [] = (λ h. h, λ h. h)
  pins-OfPins panel (pin ∷ pins) =
      let rest = pins-OfPins panel pins in
      let both =
        IsIn-append c (cases_in run pin n (cases_of pin panel)) (pins_in run n panel pins) in
      (
        λ h. elim (both.0 h) [
          | inl m ↦ inl (cases-OfPin pin (cases_of pin panel) m)
          | inr m ↦ inr (rest.0 m)
        ],
        λ h. elim h [
          | inl o ↦ both.1 (inl (OfPin-cases pin (cases_of pin panel) o))
          | inr o ↦ both.1 (inr (rest.1 o))
        ],
      )

IsIn-insert : (i j : Job) (js : List Job) → IsIn i (insert_job j js) ↔ IsIn i (j ∷ js)
IsIn-insert i j [] = (λ h. h, λ h. h)
IsIn-insert i j (k ∷ js) =
    let rest = IsIn-insert i j js in
    elim (Bool-cases (job_le j k)) [
      | inl le ↦ rw le (λ h. h, λ h. h)
      | inr gt ↦ rw gt (
        λ h. elim h [
          | inl e ↦ inr (inl e)
          | inr m ↦ elim (rest.0 m) [ inl e ↦ inl e | inr x ↦ inr (inr x) ]
        ],
        λ h. elim h [
          | inl e ↦ inr (rest.1 (inl e))
          | inr (inl e) ↦ inl e
          | inr (inr m) ↦ inr (rest.1 (inr m))
        ],
      )
    ]

IsIn-sort : (i : Job) (js : List Job) → IsIn i (sort_jobs js) ↔ IsIn i js
unfolding sort_jobs
IsIn-sort i [] = (λ h. h, λ h. h)
IsIn-sort i (j ∷ js) =
    let rest = IsIn-sort i js in
    let put = IsIn-insert i j (sort_jobs js) in
    (
      λ h. elim (put.0 h) [ inl e ↦ inl e | inr m ↦ inr (rest.0 m) ],
      λ h. elim h [ inl e ↦ put.1 (inl e) | inr m ↦ put.1 (inr (rest.1 m)) ],
    )

-- The jobs of a plan are those of the coordinates that its pins ask for.
pub expand-OfPins :
    (job_id : Coordinates → Key) (m : AuditManifest) (panel : Option PanelView) (j : Job)
    → IsIn j (expand job_id m panel) ↔ (
        (c : Coordinates) × OfPins m.run_id m.max_repetitions panel m.task_pins c
        × (j ≡ planned_job job_id c))
unfolding expand
expand-OfPins job_id m panel j =
    let cs = pins_in m.run_id m.max_repetitions panel m.task_pins in
    let sorted = IsIn-sort j (map (planned_job job_id) cs) in
    let image = IsIn-map (planned_job job_id) j cs in
    (
      λ h.
          let (c, i, e) = image.0 (sorted.0 h) in
          (c, (pins-OfPins m.run_id m.max_repetitions c panel m.task_pins).0 i, e),
      λ (c, o, e).
          sorted.1
            (image.1 (c, (pins-OfPins m.run_id m.max_repetitions c panel m.task_pins).1 o, e)),
    )

-- Each job comes before the next one in the order of (task, case, verifier, repetition).
abbrev pub IsSorted : List Job → Type 0
IsSorted [] = Unit
IsSorted (j ∷ []) = Unit
IsSorted (j ∷ k ∷ js) = (job_le j k ≡ true) × IsSorted (k ∷ js)

job_le_total : (a b : Job) → job_le a b ≡ false → job_le b a ≡ true
job_le_total a b h = ground arith

insert-IsSorted : (j : Job) (js : List Job) → IsSorted js → IsSorted (insert_job j js)
insert-IsSorted j [] s = tt
insert-IsSorted j (k ∷ []) s = ground (arith, job_le_total j k)
insert-IsSorted j (k ∷ l ∷ js) s = ground (arith, job_le_total j k, insert-IsSorted j (l ∷ js))

sort-IsSorted : (js : List Job) → IsSorted (sort_jobs js)
unfolding sort_jobs
sort-IsSorted [] = tt
sort-IsSorted (j ∷ js) = insert-IsSorted j (sort_jobs js) (sort-IsSorted js)

-- The jobs of a plan are in the order of task, case, verifier and repetition.
pub expand-IsSorted :
    (job_id : Coordinates → Key) (m : AuditManifest) (panel : Option PanelView)
    → IsSorted (expand job_id m panel)
unfolding expand
expand-IsSorted job_id m panel =
    sort-IsSorted (map (planned_job job_id) (pins_in m.run_id m.max_repetitions panel m.task_pins))
