-- ===== src/Matrix/Completeness.antt =====
-- What `complete` says of a matrix: each planned repetition of each cell has a selected attempt.
use verifier_ci.Prelude.{
  ℕ, zero, suc, ◌+◌, ◌≤◌, ◌<◌, ◌≡◌, inl, inr, refl, ap, sym, ◌∙◌, subst, Bool, true, ◌&&◌, some,
  List, [], ◌∷◌, arith, ◌==◌, map, all, contains, keep_if, if◌then◌else◌, length, length-append,
  Bool-cases, ==_iff,
}
use verifier_ci.Prelude.Tables.{IsIn, find_key-key, find_key-eq-some-IsIn}
use verifier_ci.Models.Job.{Key, Job, is_terminal}
use verifier_ci.Models.Attempt.{EvaluationAttempt, is_closed, is_authoritative}
use verifier_ci.Matrix.Cell.{
  selections, select_repetition, select_latest, select_authoritative, all_selected, in_repetition,
  latest, attempt_ids,
}
use verifier_ci.Matrix.Reduce.{AcceptanceCell, aggregate_cell}
use verifier_ci.Matrix.Build.{
  MatrixRequest, AcceptanceMatrix, AttemptRecord, MatrixPayload, CellIndex, assembled, build_matrix,
  index_of_job, sorted_cell_keys, cell_at, job_repetition_map, job_by_id, attempts_by_cell,
  is_of_cell, is_complete,
}
use verifier_ci.Matrix.Accounting.{contains-append, listed-select_repetition}
use verifier_ci.Matrix.Assembly.{index_of_cell, assembled-matrix_of, cells-matrix_of}
use verifier_ci.Matrix.Evidence.{contains-attempts, is_of_cell-found, cells-cell_at}

selected-length : (bs : List EvaluationAttempt) → length (select_repetition bs).selected ≤ 1
unfolding select_repetition
selected-length bs = of_authoritative (keep_if (λ b. is_authoritative b.disposition) bs) bs
  where
    of_latest : (cs : List EvaluationAttempt) → length (select_latest cs).selected ≤ 1
    of_latest [] = omega arith
    of_latest (c ∷ cs) = elim (Bool-cases (is_closed (latest c cs).disposition)) [
      | inl e ↦ rw e (omega arith)
      | inr e ↦ rw e (omega arith)
    ]

    of_authoritative :
        (as_ cs : List EvaluationAttempt) → length (select_authoritative as_ cs).selected ≤ 1
    of_authoritative [] cs = of_latest cs
    of_authoritative (a ∷ as_) cs = omega arith

selected-le :
    (m : List (Key × ℕ)) (bs : List EvaluationAttempt) (r left : ℕ)
    → length (all_selected (selections m bs r left)) ≤ left
unfolding selections
selected-le m bs r zero = omega arith
selected-le m bs r (suc left) =
    let kept = keep_if (in_repetition m r) bs in
    omega (
      arith,
      length-append (select_repetition kept).selected (all_selected (selections m bs (suc r) left)),
      selected-length kept,
      selected-le m bs (suc r) left,
    )

-- A repetition that selects an attempt selects one of its own.
selected-own :
    (bs : List EvaluationAttempt)
    → length (select_repetition bs).selected ≡ 1
    → (x : Key) × (contains x (select_repetition bs).selected ≡ true)
      × (contains x (attempt_ids bs) ≡ true)
selected-own bs h = first (select_repetition bs).selected refl
  where
    first :
        (xs : List Key)
        → (select_repetition bs).selected ≡ xs
        → (x : Key) × (contains x (select_repetition bs).selected ≡ true)
          × (contains x (attempt_ids bs) ≡ true)
    first [] e = absurd (ground (arith))
    first (x ∷ xs) e =
        let here : contains x (select_repetition bs).selected ≡ true = rw e (ground arith) in
        (x, here, sym (listed-select_repetition x bs) ∙ (rw here refl))

selected-each :
    (m : List (Key × ℕ)) (bs : List EvaluationAttempt) (r left s : ℕ)
    → length (all_selected (selections m bs r left)) ≡ left
    → r ≤ s
    → s < r + left
    → (x : Key) × (contains x (all_selected (selections m bs r left)) ≡ true)
      × (contains x (attempt_ids (keep_if (in_repetition m s) bs)) ≡ true)
unfolding selections
selected-each m bs r zero s h lo hi = absurd (omega arith)
selected-each m bs r (suc left) s h lo hi =
    let kept = keep_if (in_repetition m r) bs in
    let rest = selections m bs (suc r) left in
    let total = length-append (select_repetition kept).selected (all_selected rest) in
    let one : length (select_repetition kept).selected ≡ 1 =
      omega (arith, total, selected-length kept, selected-le m bs (suc r) left) in
    let others : length (all_selected rest) ≡ left =
      omega (arith, total, selected-length kept, selected-le m bs (suc r) left) in
    elim (Bool-cases (r == s)) [
      | inl same ↦
          let (x, i, own) = selected-own kept one in
          (
            x,
            contains-append x (select_repetition kept).selected (all_selected rest) ∙ (rw i refl),
            subst (λ (t : ℕ). contains x (attempt_ids (keep_if (in_repetition m t) bs)) ≡ true)
                ((==_iff r s).0 same) own,
          )
      | inr later ↦
          let (x, i, own) =
            selected-each m bs (suc r) left s others (ground arith) (ground arith) in
          (
            x,
            contains-append x (select_repetition kept).selected (all_selected rest) ∙ ground arith,
            own,
          )
    ]

all-IsIn :
    {A : Type 0} (p : A → Bool) (a : A) (xs : List A) → all p xs ≡ true → IsIn a xs → p a ≡ true
all-IsIn p a [] h m = absurd m
all-IsIn p a (x ∷ xs) h (inl e) = ap p e ∙ ground arith
all-IsIn p a (x ∷ xs) h (inr m) = all-IsIn p a xs (ground arith) m

-- The repetition that the map gives is that of a job that is found.
repetition-job :
    (jobs : List Job) (a : EvaluationAttempt) (j : Job) (r : ℕ)
    → job_by_id jobs a.job_id ≡ some j
    → in_repetition (job_repetition_map jobs) r a ≡ true
    → j.repetition ≡ r
repetition-job [] a j r h i = ground arith
repetition-job (k ∷ jobs) a j r h i = elim (Bool-cases (k.job_id == a.job_id)) [
  | inl hit ↦ ground arith
  | inr miss ↦ repetition-job jobs a j r (ground arith) (ground arith)
]

kept-IsIn :
    {A : Type 0} (p : A → Bool) (a : A) (xs : List A)
    → IsIn a (keep_if p xs)
    → IsIn a xs × (p a ≡ true)
kept-IsIn p a [] m = absurd m
kept-IsIn p a (x ∷ xs) m = elim (Bool-cases (p x)) [
  | inl e ↦ elim (subst (λ (b : Bool). IsIn a (if b then x ∷ keep_if p xs else keep_if p xs)) e m) [
    | inl s ↦ (inl s, ap p s ∙ e)
    | inr n ↦ let (i, k) = kept-IsIn p a xs n in (inr i, k)
  ]
  | inr e ↦
      let (i, k) =
        kept-IsIn p a xs
          (subst (λ (b : Bool). IsIn a (if b then x ∷ keep_if p xs else keep_if p xs)) e m) in
      (inr i, k)
]

-- A selected attempt of a repetition of the cell, whose job is at its end.
abbrev pub SelectedAt : MatrixRequest → AcceptanceCell → ℕ → Type 0
SelectedAt q c r =
    (a : EvaluationAttempt) × IsIn a q.attempts
    × (contains a.attempt_id c.selected_attempt_ids ≡ true)
    × ((j : Job) × IsIn j q.jobs
        × (j.job_id ≡ a.job_id)
        × (index_of_cell c ≡ index_of_job j)
        × (j.repetition ≡ r)
        × (is_terminal j.state ≡ true))

cell_at-SelectedAt :
    (q : MatrixRequest) (k : CellIndex) (r : ℕ)
    → all (λ j. is_terminal j.state) q.jobs ≡ true
    → length (cell_at q k).selected_attempt_ids ≡ q.manifest.max_repetitions
    → r < q.manifest.max_repetitions
    → SelectedAt q (cell_at q k) r
unfolding cell_at aggregate_cell attempts_by_cell
cell_at-SelectedAt q k r done h lt =
    let mine = attempts_by_cell q.jobs k q.attempts in
    let (x, i, own) =
      selected-each (job_repetition_map q.jobs) mine 0 q.manifest.max_repetitions r h (omega arith)
        (omega arith) in
    let (a, kept, same, rep) =
      (contains-attempts x (in_repetition (job_repetition_map q.jobs) r) mine).0 own in
    let (given, of_cell) = kept-IsIn (is_of_cell q.jobs k) a q.attempts kept in
    let (j, hit, index) = is_of_cell-found q.jobs k a of_cell in
    let member = find_key-eq-some-IsIn _ a.job_id q.jobs j hit in
    (
      a,
      given,
      subst (λ (y : Key). contains y (cell_at q k).selected_attempt_ids ≡ true) same i,
      (
        j,
        member,
        find_key-key _ a.job_id q.jobs j hit,
        index,
        repetition-job q.jobs a j r hit rep,
        all-IsIn (λ (y : Job). is_terminal y.state) j q.jobs done member,
      ),
    )

module _ (source_digest : List AttemptRecord → Key) (matrix_digest : MatrixPayload → Key) (now : ℕ)
    (q : MatrixRequest) (m : AcceptanceMatrix) where
  -- If build_matrix returns a matrix and calls it complete, then each planned repetition of each of its
  -- cells has a selected attempt, and the job of this attempt is a job of the cell, has this repetition
  -- and is DONE, FAILED or ABANDONED.
  pub build_matrix-SelectedAt :
      (c : AcceptanceCell) (r : ℕ)
      → build_matrix source_digest matrix_digest now q ≡ assembled m
      → m.complete ≡ true
      → IsIn c m.cells
      → r < q.manifest.max_repetitions
      → SelectedAt q c r
  unfolding is_complete
  build_matrix-SelectedAt c r h whole i lt =
      let e = cells-cell_at source_digest matrix_digest now q m c h i in
      let cells = map (cell_at q) (sorted_cell_keys q.jobs) in
      let all_there : is_complete q cells ≡ true =
        ap (λ (x : AcceptanceMatrix). x.complete)
          (assembled-matrix_of source_digest matrix_digest now q m h).1
        ∙ whole in
      let (done, full) = both (all (λ j. is_terminal j.state) q.jobs) _ all_there in
      let here =
        subst (λ (cs : List AcceptanceCell). IsIn c cs)
          (cells-matrix_of source_digest matrix_digest now q m h) i in
      subst (λ (d : AcceptanceCell). SelectedAt q d r) (sym e)
        (cell_at-SelectedAt q (index_of_cell c) r done
          (subst
            (λ (d : AcceptanceCell). length d.selected_attempt_ids ≡ q.manifest.max_repetitions) e
            ((==_iff _ _).0 (
              all-IsIn
                (λ (d : AcceptanceCell).
                  length d.selected_attempt_ids == q.manifest.max_repetitions)
                c cells full here)))
          lt)
    where
      both : (a b : Bool) → (a && b) ≡ true → (a ≡ true) × (b ≡ true)
      both a b k = ground arith
