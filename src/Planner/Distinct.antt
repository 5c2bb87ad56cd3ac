-- ===== src/Planner/Distinct.antt =====
-- The jobs of a plan have distinct coordinates, and so distinct identifiers in the queue.
use verifier_ci.Prelude.{
  ℕ, zero, suc, ◌≡◌, ◌≢◌, refl, ap, sym, subst, ◌∙◌, inl, inr, true, false, ◌||◌, Option, List, [],
  ◌∷◌, ◌++◌, arith, map, contains, ◌==◌,
}
use verifier_ci.Prelude.Tables.{IsIn, Unique, IsIn-append}
use verifier_ci.Models.Job.{Key, Job}
use verifier_ci.Queue.Database.{Database}
use verifier_ci.Queue.Evolution.{job_key}
use verifier_ci.Queue.Claims.{HasUniqueJobs}
use verifier_ci.Planner.Manifest.{TaskPin, PanelView, AuditManifest}
use verifier_ci.Planner.Expand.{
  Coordinates, planned_job, cases_of, repetitions_of, verifiers_of, cases_in, pins_in, insert_job,
  sort_jobs, expand,
}
use verifier_ci.Planner.Coverage.{
  OfPins, repetitions-InRange, cases-OfPin, verifiers-OfPin, pins-OfPins,
}

abbrev Distinct : {A : Type 0} → List A → Type 0
Distinct [] = Unit
Distinct (x ∷ xs) = (¬ IsIn x xs) × Distinct xs

module _ {A : Type 0} where
  append-Distinct :
      (xs ys : List A)
      → Distinct xs
      → Distinct ys
      → ((a : A) → IsIn a xs → ¬ IsIn a ys)
      → Distinct (xs ++ ys)
  append-Distinct [] ys d e apart = e
  append-Distinct (x ∷ xs) ys (new, d) e apart = (
    λ h. elim ((IsIn-append x xs ys).0 h) [ inl m ↦ new m | inr m ↦ apart x (inl refl) m ],
    append-Distinct xs ys d e (λ a m. apart a (inr m)),
  )

  -- An injective image of distinct values has no key twice.
  map-Unique :
      (f : A → Key) (xs : List A)
      → ((a b : A) → IsIn a xs → IsIn b xs → f a ≡ f b → a ≡ b)
      → Distinct xs
      → Unique (map f xs)
  map-Unique f [] inj d = tt
  map-Unique f (x ∷ xs) inj (new, d) = (
    absent xs (λ b m e. new (subst (λ y. IsIn y xs) (sym (inj x b (inl refl) (inr m) e)) m)),
    map-Unique f xs (λ a b m n. inj a b (inr m) (inr n)) d,
  )
    where
      absent : (ys : List A) → ((b : A) → IsIn b ys → f x ≢ f b) → contains (f x) (map f ys) ≡ false
      absent [] h = refl
      absent (y ∷ ys) h = ground (arith, h y (inl refl), absent ys (λ b m. h b (inr m)))

contains-IsIn : (k : Key) (ks : List Key) → IsIn k ks → contains k ks ≡ true
contains-IsIn k [] m = absurd m
contains-IsIn k (x ∷ ks) (inl e) = ground arith
contains-IsIn k (x ∷ ks) (inr m) = ground (arith, contains-IsIn k ks m)

repetitions-Distinct :
    (run : Key) (pin : TaskPin) (case verifier : Key) (r left : ℕ)
    → Distinct (repetitions_of run pin case verifier r left)
unfolding repetitions_of
repetitions-Distinct run pin case verifier r zero = tt
repetitions-Distinct run pin case verifier r (suc left) = (
  λ h.
      let (a, b, c, d, lo, hi) = repetitions-InRange run pin case verifier (suc r) left _ h in
      absurd (omega arith),
  repetitions-Distinct run pin case verifier (suc r) left,
)

verifiers-Distinct :
    (run : Key) (pin : TaskPin) (n : ℕ) (case : Key)
    → pin.verifier_baseline_version ≢ pin.verifier_candidate_version
    → Distinct (verifiers_of run pin n case)
unfolding verifiers_of
verifiers-Distinct run pin n case other =
    append-Distinct _ _ (repetitions-Distinct run pin case pin.verifier_baseline_version 0 n)
      (repetitions-Distinct run pin case pin.verifier_candidate_version 0 n)
      λ c m m'.
        let (a, b, d, v, lo, hi) =
          repetitions-InRange run pin case pin.verifier_baseline_version 0 n c m in
        let (a', b', d', v', lo', hi') =
          repetitions-InRange run pin case pin.verifier_candidate_version 0 n c m' in
        other (sym v ∙ v')

cases-Distinct :
    (run : Key) (pin : TaskPin) (n : ℕ) (cases : List Key)
    → pin.verifier_baseline_version ≢ pin.verifier_candidate_version
    → Unique cases
    → Distinct (cases_in run pin n cases)
unfolding cases_in
cases-Distinct run pin n [] other u = tt
cases-Distinct run pin n (case ∷ cases) other (new, u) =
    append-Distinct (verifiers_of run pin n case) (cases_in run pin n cases)
      (verifiers-Distinct run pin n case other) (cases-Distinct run pin n cases other u)
      λ c m m'.
        let (d, _) = verifiers-OfPin run n c pin case m in
        let (a, b, i, v, hi) = cases-OfPin run n c pin cases m' in
        cc (new, contains-IsIn case cases (subst (λ k. IsIn k cases) d i))

-- Each task once, each case of a task once, and two different verifiers.
abbrev pub IsWellPinned : Option PanelView → List TaskPin → Type 0
IsWellPinned panel [] = Unit
IsWellPinned panel (pin ∷ pins) =
    (contains pin.task_key (map (λ p. p.task_key) pins) ≡ false)
    × Unique (cases_of pin panel)
    × (pin.verifier_baseline_version ≢ pin.verifier_candidate_version)
    × IsWellPinned panel pins

OfPins-contains :
    (run : Key) (n : ℕ) (panel : Option PanelView) (pins : List TaskPin) (c : Coordinates)
    → OfPins run n panel pins c
    → contains c.task_key (map (λ p. p.task_key) pins) ≡ true
OfPins-contains run n panel [] c h = absurd h
OfPins-contains run n panel (pin ∷ pins) c (inl (a, b, i, v, hi)) = ground arith
OfPins-contains run n panel (pin ∷ pins) c (inr h) =
    ground (arith, OfPins-contains run n panel pins c h)

pins-Distinct :
    (run : Key) (n : ℕ) (panel : Option PanelView) (pins : List TaskPin)
    → IsWellPinned panel pins
    → Distinct (pins_in run n panel pins)
unfolding pins_in
pins-Distinct run n panel [] w = tt
pins-Distinct run n panel (pin ∷ pins) (new, u, other, w) =
    append-Distinct (cases_in run pin n (cases_of pin panel)) (pins_in run n panel pins)
      (cases-Distinct run pin n (cases_of pin panel) other u) (pins-Distinct run n panel pins w)
      λ c m m'.
        let (a, b, i, v, hi) = cases-OfPin run n c pin (cases_of pin panel) m in
        let there = OfPins-contains run n panel pins c ((pins-OfPins run n c panel pins).0 m') in
        cc (new, subst (λ k. contains k (map (λ (p : TaskPin). p.task_key) pins) ≡ true) b there)

contains-insert :
    (k : Key) (j : Job) (js : List Job)
    → contains k (map job_key (insert_job j js)) ≡ ((k == j.job_id) || contains k (map job_key js))
contains-insert k j [] = refl
contains-insert k j (x ∷ js) = ground (arith, contains-insert k j js)

insert-Unique :
    (j : Job) (js : List Job)
    → contains j.job_id (map job_key js) ≡ false
    → Unique (map job_key js)
    → Unique (map job_key (insert_job j js))
insert-Unique j [] h u = (refl, tt)
insert-Unique j (x ∷ js) h u =
    ground (arith, contains-insert x.job_id j js, insert-Unique j js (ground arith) u.1)

contains-sort :
    (k : Key) (js : List Job)
    → contains k (map job_key (sort_jobs js)) ≡ contains k (map job_key js)
unfolding sort_jobs
contains-sort k [] = refl
contains-sort k (j ∷ js) = ground (arith, contains-insert k j (sort_jobs js), contains-sort k js)

sort-Unique : (js : List Job) → Unique (map job_key js) → Unique (map job_key (sort_jobs js))
unfolding sort_jobs
sort-Unique [] u = tt
sort-Unique (j ∷ js) u =
    insert-Unique j (sort_jobs js) (contains-sort j.job_id js ∙ u.0) (sort-Unique js u.1)

map-planned :
    (job_id : Coordinates → Key) (cs : List Coordinates)
    → map job_key (map (planned_job job_id) cs) ≡ map job_id cs
map-planned job_id [] = refl
map-planned job_id (c ∷ cs) = ap (◌∷◌ (job_id c)) (map-planned job_id cs)

-- If each task is pinned once, with distinct cases and two different verifiers, and no two planned
-- coordinates have the same digest, then a queue that holds the jobs of the plan has unique job
-- identifiers: what the theorems on the queue's histories ask for.
pub expand-HasUniqueJobs :
    (job_id : Coordinates → Key) (m : AuditManifest) (panel : Option PanelView) (db : Database)
    → IsWellPinned panel m.task_pins
    → ((c c' : Coordinates)
        → OfPins m.run_id m.max_repetitions panel m.task_pins c
        → OfPins m.run_id m.max_repetitions panel m.task_pins c'
        → job_id c ≡ job_id c'
        → c ≡ c')
    → db.jobs ≡ expand job_id m panel
    → HasUniqueJobs db
unfolding expand
expand-HasUniqueJobs job_id m panel db w apart e =
    let cs = pins_in m.run_id m.max_repetitions panel m.task_pins in
    let planned = λ (c : Coordinates). pins-OfPins m.run_id m.max_repetitions c panel m.task_pins in
    let keys : Unique (map job_id cs) =
      map-Unique job_id cs (λ a b i k. apart a b ((planned a).0 i) ((planned b).0 k))
        (pins-Distinct m.run_id m.max_repetitions panel m.task_pins w) in
    let jobs : Unique (map job_key (map (planned_job job_id) cs)) =
      subst Unique (sym (map-planned job_id cs)) keys in
    subst (λ js. Unique (map job_key js)) (sym e) (sort-Unique (map (planned_job job_id) cs) jobs)
