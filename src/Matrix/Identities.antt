-- ===== src/Matrix/Identities.antt =====
-- What build_matrix demands of the identities of jobs and attempts.
use verifier_ci.Prelude.{
  ℕ, ◌≡◌, ◌⊎◌, inl, inr, refl, sym, Bool, true, false, not, List, [], ◌∷◌, arith, map, any,
  contains, is_some, Bool-cases, ==_refl, ap, subst, some, none, Option,
}
use verifier_ci.Prelude.Tables.{Unique, IsIn, find_key-key, find_key-eq-some-IsIn}
use verifier_ci.Errors.{ErrorClass}
use verifier_ci.Models.Job.{Key, Job}
use verifier_ci.Models.Attempt.{EvaluationAttempt}
use verifier_ci.Matrix.Build.{
  MatrixRequest, AttemptRecord, MatrixPayload, assembled, refused, build_matrix, matrix_of,
  repeats_from, is_orphan, job_by_id, validate_matrix,
}

abbrev pub job_ids : List Job → List Key
job_ids = map (λ j. j.job_id)

abbrev pub attempt_keys : List EvaluationAttempt → List Key
attempt_keys = map (λ a. a.attempt_id)

-- None of the keys has been seen.
abbrev Unseen : List Key → List Key → Type 0
Unseen seen [] = Unit
Unseen seen (k ∷ ks) = (contains k seen ≡ false) × Unseen seen ks

Unseen-tail :
    (k : Key) (seen ks : List Key) → Unseen (k ∷ seen) ks → (contains k ks ≡ false) × Unseen seen ks
Unseen-tail k seen [] u = (refl, tt)
Unseen-tail k seen (x ∷ xs) (a, u) = ground (arith, Unseen-tail k seen xs u)

Unseen-cons :
    (k : Key) (seen ks : List Key) → contains k ks ≡ false → Unseen seen ks → Unseen (k ∷ seen) ks
Unseen-cons k seen [] h u = tt
Unseen-cons k seen (x ∷ xs) h (a, u) = (ground arith, Unseen-cons k seen xs (ground arith) u)

repeats-Unique : (seen ks : List Key) → repeats_from seen ks ≡ false → Unique ks × Unseen seen ks
unfolding repeats_from
repeats-Unique seen [] h = (tt, tt)
repeats-Unique seen (k ∷ ks) h =
    let (u, fresh) = repeats-Unique (k ∷ seen) ks (ground arith) in
    let (new, others) = Unseen-tail k seen ks fresh in ((new, u), (ground arith, others))

Unique-repeats : (seen ks : List Key) → Unique ks → Unseen seen ks → repeats_from seen ks ≡ false
unfolding repeats_from
Unique-repeats seen [] u f = refl
Unique-repeats seen (k ∷ ks) (a, u) (b, f) =
    ground (arith, Unique-repeats (k ∷ seen) ks u (Unseen-cons k seen ks a f))

Unseen-nil : (ks : List Key) → Unseen [] ks
Unseen-nil [] = tt
Unseen-nil (k ∷ ks) = (refl, Unseen-nil ks)

-- Every attempt is one of a job that is given.
abbrev pub HasJobs : List Job → List EvaluationAttempt → Type 0
HasJobs jobs attempts =
    (a : EvaluationAttempt) → IsIn a attempts → (j : Job) × IsIn j jobs × (j.job_id ≡ a.job_id)

orphan-job :
    (jobs : List Job) (a : EvaluationAttempt)
    → is_orphan jobs a ≡ false
    → (j : Job) × IsIn j jobs × (j.job_id ≡ a.job_id)
orphan-job jobs a h = found (job_by_id jobs a.job_id) refl h
  where
    found :
        (o : Option Job)
        → job_by_id jobs a.job_id ≡ o
        → not (is_some o) ≡ false
        → (j : Job) × IsIn j jobs × (j.job_id ≡ a.job_id)
    found none e n = absurd (ground arith)
    found (some j) e n =
        (j, find_key-eq-some-IsIn _ a.job_id jobs j e, find_key-key _ a.job_id jobs j e)

orphans-HasJobs :
    (jobs : List Job) (attempts : List EvaluationAttempt)
    → any (is_orphan jobs) attempts ≡ false
    → HasJobs jobs attempts
orphans-HasJobs jobs [] h a m = absurd m
orphans-HasJobs jobs (b ∷ bs) h a (inl e) =
    subst (λ (x : EvaluationAttempt). (j : Job) × IsIn j jobs × (j.job_id ≡ x.job_id)) (sym e)
      (orphan-job jobs b (ground arith))
orphans-HasJobs jobs (b ∷ bs) h a (inr m) = orphans-HasJobs jobs bs (ground arith) a m

found-IsIn : (j : Job) (jobs : List Job) → IsIn j jobs → is_some (job_by_id jobs j.job_id) ≡ true
found-IsIn j [] m = absurd m
found-IsIn j (k ∷ jobs) (inl e) = ground (arith, ap (λ (x : Job). x.job_id) e)
found-IsIn j (k ∷ jobs) (inr m) = ground (arith, found-IsIn j jobs m)

HasJobs-orphans :
    (jobs : List Job) (attempts : List EvaluationAttempt)
    → HasJobs jobs attempts
    → any (is_orphan jobs) attempts ≡ false
HasJobs-orphans jobs [] h = refl
HasJobs-orphans jobs (a ∷ attempts) h =
    let (j, m, e) = h a (inl refl) in
    ground (
      arith,
      subst (λ (k : Key). is_some (job_by_id jobs k) ≡ true) e (found-IsIn j jobs m),
      HasJobs-orphans jobs attempts (λ b n. h b (inr n)),
    )

-- The identifiers of the jobs are distinct, those of the attempts are, and every attempt has its job.
pub record Consistent (q : MatrixRequest) : Type 0 where
  pub jobs_differ : Unique (job_ids q.jobs)
  pub attempts_differ : Unique (attempt_keys q.attempts)
  pub has_jobs : HasJobs q.jobs q.attempts

module _ (source_digest : List AttemptRecord → Key) (matrix_digest : MatrixPayload → Key)
    (now : ℕ) where
  -- If the identifiers of the jobs are distinct, those of the attempts are, and every attempt is one of
  -- a job that is given, then build_matrix returns the matrix of the cells; else it raises
  -- IdentityConflict.
  pub build_matrix-Consistent :
      (q : MatrixRequest)
      → (Consistent q
          × (build_matrix source_digest matrix_digest now q
              ≡ assembled (matrix_of source_digest matrix_digest now q)))
        ⊎ ((¬ Consistent q)
            × (build_matrix source_digest matrix_digest now q
                ≡ refused ErrorClass.identity_conflict))
  unfolding build_matrix validate_matrix
  build_matrix-Consistent q = elim (Bool-cases (repeats_from [] (job_ids q.jobs))) [
    | inl e ↦ inr (
      (λ (c : Consistent q).
          absurd (clash (Unique-repeats [] (job_ids q.jobs) c.jobs_differ (Unseen-nil _)) e)),
      rw e refl,
    )
    | inr e ↦ elim (Bool-cases (repeats_from [] (attempt_keys q.attempts))) [
      | inl f ↦ inr (
        (λ (c : Consistent q). absurd (
            clash (Unique-repeats [] (attempt_keys q.attempts) c.attempts_differ (Unseen-nil _))
              f)),
        rw (e, f) refl,
      )
      | inr f ↦ elim (Bool-cases (any (is_orphan q.jobs) q.attempts)) [
        | inl g ↦ inr (
          (λ (c : Consistent q). absurd (clash (HasJobs-orphans q.jobs q.attempts c.has_jobs) g)),
          rw (e, f, g) refl,
        )
        | inr g ↦ inl (
          record {
            jobs_differ = (repeats-Unique [] (job_ids q.jobs) e).0;
            attempts_differ = (repeats-Unique [] (attempt_keys q.attempts) f).0;
            has_jobs = orphans-HasJobs q.jobs q.attempts g;
          },
          rw (e, f, g) (ground (arith, ==_refl q.manifest.run_id)),
        )
      ]
    ]
  ]
    where
      clash : {b : Bool} → b ≡ false → b ≡ true → ⊥
      clash h k = ground arith
