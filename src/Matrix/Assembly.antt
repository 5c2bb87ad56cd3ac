-- ===== src/Matrix/Assembly.antt =====
-- The matrix that build_matrix returns: its cells, what they list, and what `complete` says.
use verifier_ci.Prelude.{
  ℕ, ◌≡◌, ◌↔◌, ◌⊎◌, inl, inr, refl, ap, sym, ◌∙◌, subst, true, false, List, [], ◌∷◌, arith, map,
  Bool-cases,
}
use verifier_ci.Prelude.Tables.{IsIn}
use verifier_ci.Models.Job.{Key, Job}
use verifier_ci.Matrix.Reduce.{AcceptanceCell, aggregate_cell}
use verifier_ci.Matrix.Build.{
  MatrixRequest, AcceptanceMatrix, AttemptRecord, MatrixPayload, CellIndex, assembled, build_matrix,
  matrix_of, index_of_job, index_eq, index_lt, add_index, sorted_cell_keys, cell_at,
}
use verifier_ci.Matrix.Identities.{Consistent, build_matrix-Consistent}

abbrev pub index_of_cell : AcceptanceCell → CellIndex
index_of_cell c = record {
  task_key = c.task_key;
  case_id = c.case_id;
  verifier_key = c.verifier_key;
}

-- Each key is smaller than the next one.
abbrev pub Increasing : List CellIndex → Type 0
Increasing [] = Unit
Increasing (a ∷ []) = Unit
Increasing (a ∷ b ∷ ks) = (index_lt a b ≡ true) × Increasing (b ∷ ks)

pub index_eq-path : (a b : CellIndex) → index_eq a b ≡ true → a ≡ b
index_eq-path a b h = ground arith

pub index_eq_refl : (a : CellIndex) → index_eq a a ≡ true
index_eq_refl a = ground arith

index_lt_total :
    (a b : CellIndex) → index_eq a b ≡ false → index_lt a b ≡ false → index_lt b a ≡ true
index_lt_total a b h k = ground arith

IsIn-add_index :
    (k i : CellIndex) (xs : List CellIndex) → IsIn k (add_index i xs) ↔ ((k ≡ i) ⊎ IsIn k xs)
IsIn-add_index k i [] = (λ h. h, λ h. h)
IsIn-add_index k i (x ∷ xs) = elim (Bool-cases (index_eq i x)) [
  | inl same ↦
      rw same (λ h. inr h, λ h. elim h [ inl e ↦ inl (e ∙ index_eq-path i x same) | inr m ↦ m ])
  | inr differ ↦ elim (Bool-cases (index_lt i x)) [
    | inl below ↦ rw (differ, below) (λ h. h, λ h. h)
    | inr above ↦
        rw (differ, above)
          (
            (λ h. elim h [
              | inl e ↦ inr (inl e)
              | inr m ↦ elim ((IsIn-add_index k i xs).0 m) [ inl e ↦ inl e | inr n ↦ inr (inr n) ]
            ]),
            (λ h. elim h [
              | inl e ↦ inr ((IsIn-add_index k i xs).1 (inl e))
              | inr (inl e) ↦ inl e
              | inr (inr n) ↦ inr ((IsIn-add_index k i xs).1 (inr n))
            ]),
          )
  ]
]

IsIn-sorted_cell_keys :
    (k : CellIndex) (js : List Job)
    → IsIn k (sorted_cell_keys js) ↔ ((j : Job) × IsIn j js × (k ≡ index_of_job j))
unfolding sorted_cell_keys
IsIn-sorted_cell_keys k [] = (λ h. absurd h, λ (j, m, e). absurd m)
IsIn-sorted_cell_keys k (j ∷ js) =
    let add = IsIn-add_index k (index_of_job j) (sorted_cell_keys js) in
    let rest = IsIn-sorted_cell_keys k js in
    (
      λ h. elim (add.0 h) [
        | inl e ↦ (j, inl refl, e)
        | inr m ↦ let (i, n, e) = rest.0 m in (i, inr n, e)
      ],
      λ (i, m, e). elim m [
        | inl same ↦ add.1 (inl (e ∙ ap index_of_job same))
        | inr n ↦ add.1 (inr (rest.1 (i, n, e)))
      ],
    )

add_index-Increasing :
    (i : CellIndex) (xs : List CellIndex) → Increasing xs → Increasing (add_index i xs)
add_index-Increasing i [] s = tt
add_index-Increasing i (x ∷ []) s = ground (arith, index_lt_total i x)
add_index-Increasing i (x ∷ y ∷ xs) s =
    ground (arith, index_lt_total i x, add_index-Increasing i (y ∷ xs))

sorted-Increasing : (js : List Job) → Increasing (sorted_cell_keys js)
unfolding sorted_cell_keys
sorted-Increasing [] = tt
sorted-Increasing (j ∷ js) =
    add_index-Increasing (index_of_job j) (sorted_cell_keys js) (sorted-Increasing js)

pub index-cell_at : (q : MatrixRequest) (k : CellIndex) → index_of_cell (cell_at q k) ≡ k
unfolding cell_at aggregate_cell
index-cell_at q k = refl

indices-cell_at :
    (q : MatrixRequest) (ks : List CellIndex) → map index_of_cell (map (cell_at q) ks) ≡ ks
indices-cell_at q [] = refl
indices-cell_at q (k ∷ ks) = cc (index-cell_at q k, indices-cell_at q ks)

module _ (source_digest : List AttemptRecord → Key) (matrix_digest : MatrixPayload → Key) (now : ℕ)
    (q : MatrixRequest) (m : AcceptanceMatrix) where
  pub assembled-matrix_of :
      build_matrix source_digest matrix_digest now q ≡ assembled m
      → Consistent q × (matrix_of source_digest matrix_digest now q ≡ m)
  assembled-matrix_of h = elim (build_matrix-Consistent source_digest matrix_digest now q) [
    | inl (c, e) ↦ (c, cc)
    | inr (n, e) ↦ absurd (cc)
  ]

  pub cells-matrix_of :
      build_matrix source_digest matrix_digest now q ≡ assembled m
      → m.cells ≡ map (cell_at q) (sorted_cell_keys q.jobs)
  cells-matrix_of h = sym (ap (λ (x : AcceptanceMatrix). x.cells) (assembled-matrix_of h).1)

  -- If build_matrix returns a matrix, then its cells stand in the strict order of (task, case,
  -- verifier), and there is a cell for such a triple if and only if there is a job with it.
  pub build_matrix-cells :
      (k : CellIndex)
      → build_matrix source_digest matrix_digest now q ≡ assembled m
      → Increasing (map index_of_cell m.cells)
        × (IsIn k (map index_of_cell m.cells) ↔ ((j : Job) × IsIn j q.jobs × (k ≡ index_of_job j)))
  build_matrix-cells k h =
      let e =
        ap (map index_of_cell) (cells-matrix_of h) ∙ indices-cell_at q (sorted_cell_keys q.jobs) in
      subst
        (λ (ks : List CellIndex).
          Increasing ks × (IsIn k ks ↔ ((j : Job) × IsIn j q.jobs × (k ≡ index_of_job j))))
        (sym e) (sorted-Increasing q.jobs, IsIn-sorted_cell_keys k q.jobs)
