-- ===== src/Matrix/Evidence.antt =====
-- The evidence of a cell: the attempts that it lists, by the coordinates of their jobs.
use verifier_ci.Prelude.{
  ℕ, ◌≡◌, ◌↔◌, inl, inr, refl, ap, sym, ◌∙◌, subst, Bool, true, false, Option, none, some, List, [],
  ◌∷◌, ◌++◌, arith, ◌==◌, contains, keep_if, Bool-cases, ==_iff,
}
use verifier_ci.Prelude.Tables.{
  Unique, IsIn, IsIn-map, find_key-key, find_key-eq-some-IsIn, find_key-IsIn,
}
use verifier_ci.Models.Job.{Key, Job}
use verifier_ci.Models.Attempt.{EvaluationAttempt}
use verifier_ci.Matrix.Cell.{attempt_ids}
use verifier_ci.Matrix.Reduce.{AcceptanceCell}
use verifier_ci.Matrix.Build.{
  MatrixRequest, AcceptanceMatrix, AttemptRecord, MatrixPayload, CellIndex, assembled, build_matrix,
  index_of_job, sorted_cell_keys, cell_key, job_repetition_map, cell_at, attempts_by_cell,
  is_of_cell, job_by_id,
}
use verifier_ci.Matrix.Identities.{job_ids}
use verifier_ci.Matrix.Accounting.{aggregate_cell-lists}
use verifier_ci.Matrix.Assembly.{
  index_of_cell, index_eq-path, index_eq_refl, index-cell_at, assembled-matrix_of, cells-matrix_of,
}

pub is_of_cell-found :
    (jobs : List Job) (k : CellIndex) (a : EvaluationAttempt)
    → is_of_cell jobs k a ≡ true
    → (j : Job) × (job_by_id jobs a.job_id ≡ some j) × (k ≡ index_of_job j)
is_of_cell-found jobs k a h = found (job_by_id jobs a.job_id) refl
  where
    found :
        (o : Option Job)
        → job_by_id jobs a.job_id ≡ o
        → (j : Job) × (job_by_id jobs a.job_id ≡ some j) × (k ≡ index_of_job j)
    found none e = absurd (ground arith)
    found (some j) e = (j, e, sym (index_eq-path (index_of_job j) k (ground arith)))

is_of_cell-job :
    (jobs : List Job) (k : CellIndex) (a : EvaluationAttempt)
    → is_of_cell jobs k a ≡ true
    → (j : Job) × IsIn j jobs × (j.job_id ≡ a.job_id) × (k ≡ index_of_job j)
is_of_cell-job jobs k a h =
    let (j, e, i) = is_of_cell-found jobs k a h in
    (j, find_key-eq-some-IsIn _ a.job_id jobs j e, find_key-key _ a.job_id jobs j e, i)

job-is_of_cell :
    (jobs : List Job) (k : CellIndex) (a : EvaluationAttempt) (j : Job)
    → Unique (job_ids jobs)
    → IsIn j jobs
    → j.job_id ≡ a.job_id
    → k ≡ index_of_job j
    → is_of_cell jobs k a ≡ true
job-is_of_cell jobs k a j u m e i =
    let hit =
      subst (λ (x : Key). job_by_id jobs x ≡ some j) e
        (find_key-IsIn (λ (x : Job). x.job_id) j jobs u m) in
    ground (arith, hit, i, index_eq_refl (index_of_job j))

-- An identifier listed is that of an attempt that is kept.
pub contains-attempts :
    (x : Key) (p : EvaluationAttempt → Bool) (bs : List EvaluationAttempt)
    → (contains x (attempt_ids (keep_if p bs)) ≡ true)
      ↔ ((a : EvaluationAttempt) × IsIn a bs × (x ≡ a.attempt_id) × (p a ≡ true))
contains-attempts x p [] = (λ h. absurd (ground arith), λ (a, m, e, k). absurd m)
contains-attempts x p (b ∷ bs) =
    let rest = contains-attempts x p bs in
    elim (Bool-cases (p b)) [
      | inl kept ↦ rw kept (
        (λ h. elim (Bool-cases (x == b.attempt_id)) [
          | inl same ↦ (b, inl refl, (==_iff x b.attempt_id).0 same, kept)
          | inr other ↦ let (a, m, e, k) = rest.0 (ground arith) in (a, inr m, e, k)
        ]),
        (λ (a, m, e, k). elim m [
          | inl same ↦ ground (arith, ap (λ (y : EvaluationAttempt). y.attempt_id) same)
          | inr n ↦ ground (arith, rest.1 (a, n, e, k))
        ]),
      )
      | inr dropped ↦ rw dropped (
        (λ h. let (a, m, e, k) = rest.0 h in (a, inr m, e, k)),
        (λ (a, m, e, k). elim m [
          | inl same ↦ absurd (clash (sym (ap p same) ∙ k) dropped)
          | inr n ↦ rest.1 (a, n, e, k)
        ]),
      )
    ]
  where
    clash : {c : Bool} → c ≡ true → c ≡ false → ⊥
    clash h k = ground arith

-- The attempts whose job has the coordinates of the cell.
abbrev pub OfCell : MatrixRequest → CellIndex → Key → Type 0
OfCell q k x =
    (a : EvaluationAttempt) × IsIn a q.attempts
    × (x ≡ a.attempt_id)
    × ((j : Job) × IsIn j q.jobs × (j.job_id ≡ a.job_id) × (k ≡ index_of_job j))

abbrev pub ids_listed : AcceptanceCell → List Key
ids_listed c = c.selected_attempt_ids ++ c.excluded_attempt_ids

cell_at-OfCell :
    (q : MatrixRequest) (k : CellIndex) (x : Key)
    → Unique (job_ids q.jobs)
    → (contains x (ids_listed (cell_at q k)) ≡ true) ↔ OfCell q k x
unfolding cell_at attempts_by_cell
cell_at-OfCell q k x u =
    let lists =
      aggregate_cell-lists x (cell_key q k) q.manifest.max_repetitions
        (attempts_by_cell q.jobs k q.attempts) (job_repetition_map q.jobs) in
    let kept = contains-attempts x (is_of_cell q.jobs k) q.attempts in
    (
      λ h. let (a, m, e, p) = kept.0 (sym lists ∙ h) in (a, m, e, is_of_cell-job q.jobs k a p),
      λ (a, m, e, (j, n, f, i)). lists ∙ kept.1 (a, m, e, job-is_of_cell q.jobs k a j u n f i),
    )

module _ (source_digest : List AttemptRecord → Key) (matrix_digest : MatrixPayload → Key) (now : ℕ)
    (q : MatrixRequest) (m : AcceptanceMatrix) where
  pub cells-cell_at :
      (c : AcceptanceCell)
      → build_matrix source_digest matrix_digest now q ≡ assembled m
      → IsIn c m.cells
      → c ≡ cell_at q (index_of_cell c)
  cells-cell_at c h i =
      let (k, n, e) = (IsIn-map (cell_at q) c (sorted_cell_keys q.jobs)).0 (
        subst (λ (cs : List AcceptanceCell). IsIn c cs)
          (cells-matrix_of source_digest matrix_digest now q m h) i) in
      e ∙ ap (cell_at q) (sym (ap index_of_cell e ∙ index-cell_at q k))

  -- If build_matrix returns a matrix, then each of its cells lists, among the selected attempts or the
  -- excluded ones, exactly the attempts whose job has the cell's coordinates: no evidence is lost and
  -- none is foreign.
  pub build_matrix-OfCell :
      (c : AcceptanceCell) (x : Key)
      → build_matrix source_digest matrix_digest now q ≡ assembled m
      → IsIn c m.cells
      → (contains x (ids_listed c) ≡ true) ↔ OfCell q (index_of_cell c) x
  build_matrix-OfCell c x h i =
      subst
        (λ (d : AcceptanceCell). (contains x (ids_listed d) ≡ true) ↔ OfCell q (index_of_cell c) x)
        (sym (cells-cell_at c h i))
        (cell_at-OfCell q (index_of_cell c) x
          (assembled-matrix_of source_digest matrix_digest now q m h).0.jobs_differ)
