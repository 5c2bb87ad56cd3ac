-- ===== src/Queue/Expiry.antt =====
-- `reap_expired` as a whole: what each stored job becomes, and what it keeps.
use verifier_ci.Prelude.{
  true, ℕ, ◌≡◌, refl, ◌∙◌, Option, some, List, [], ◌∷◌, arith, inl, inr, Bool-cases, keep_if, sym,
  ap, subst, if◌then◌else◌,
}
use verifier_ci.Prelude.Tables.{Unique, find_key-key, find_key-eq-some-IsIn}
use verifier_ci.Models.Job.{Key, Job}
use verifier_ci.Queue.Database.{Database, ok, find_job}
use verifier_ci.Queue.RunState.{update_run_state}
use verifier_ci.Queue.Evolution.{job_key}
use verifier_ci.Queue.Ordering
use verifier_ci.Queue.Reaping.{verdict_on, reap_rows-ok}
use verifier_ci.Queue.Evolution.{Advance, Advance-refl}
use verifier_ci.Queue.Keeps.{Keeps, RunsEvolve, Keeps-refl, Keeps-trans, update_run_state-Keeps}
use verifier_ci.Queue.Reap.{
  reap_rows, reap_expired, job_ids, expired_rows, is_expired, update_run_states, affected_runs,
}

update_run_states-jobs :
    (runs : List Key) (now : ℕ) (db : Database) → (update_run_states runs now db).jobs ≡ db.jobs
unfolding update_run_states update_run_state
update_run_states-jobs [] now db = refl
update_run_states-jobs (run ∷ runs) now db =
    update_run_states-jobs runs now (update_run_state run now db)

expired_rows-Unique :
    (now : ℕ) (jobs : List Job) → Unique (job_ids jobs) → Unique (job_ids (expired_rows now jobs))
expired_rows-Unique now jobs u =
    Ordering.order-Unique (keep_if (is_expired now) jobs)
      (Ordering.keep_if-Unique (is_expired now) jobs u)

-- What a reap does, for every stored job at once.
pub reap_expired-jobs :
    (limit : Option ℕ) (now : ℕ) (db : Database)
    → Unique (job_ids db.jobs)
    → (db' : Database) × (reap_expired limit now db ≡ ok (job_ids (expired_rows now db.jobs), db'))
      × ((k : Key) (j : Job)
          → find_job k db.jobs ≡ some j
          → find_job k db'.jobs ≡ some (if is_expired now j then verdict_on limit db j else j))
unfolding reap_expired
reap_expired-jobs limit now db u =
    let rows = expired_rows now db.jobs in
    let (mid, e, s) = reap_rows-ok limit now rows db (expired_rows-Unique now db.jobs u) in
    let kept = update_run_states-jobs (affected_runs rows) now mid in
    (
      update_run_states (affected_runs rows) now mid,
      rw e,
      λ k j found. elim (Bool-cases (is_expired now j)) [
        | inl late ↦
            let here = find_key-eq-some-IsIn job_key k db.jobs j found in
            let in_rows =
              Ordering.order-IsIn j _
                (Ordering.keep_if-IsIn (is_expired now) j db.jobs late here) in
            let at : job_key j ≡ k = find_key-key job_key k db.jobs j found in
            rw late (
              ap (find_job k) kept
              ∙ subst (λ x. find_job x mid.jobs ≡ some (verdict_on limit db j)) at
                  (s.rows_change j in_rows
                    (subst (λ x. find_job x db.jobs ≡ some j) (sym at) found)))
        | inr live ↦ rw live (
            ap (find_job k) kept
            ∙ s.others_stay k (
                Ordering.contains-order k (keep_if (is_expired now) db.jobs)
                ∙ Ordering.keep_if-misses (is_expired now) k db.jobs j u found live)
            ∙ found)
      ],
    )

-- The second half of a reap, on the jobs that it found: nothing else of the database moves.
update_run_states-Keeps :
    (runs : List Key) (now : ℕ) (db : Database) → Keeps db (update_run_states runs now db)
unfolding update_run_states
update_run_states-Keeps [] now db = Keeps-refl db
update_run_states-Keeps (run ∷ runs) now db =
    Keeps-trans db (update_run_state run now db) _ (update_run_state-Keeps run now db)
      (update_run_states-Keeps runs now (update_run_state run now db))

verdict_on-Advance :
    (limit : Option ℕ) (now : ℕ) (db : Database) (j : Job)
    → is_expired now j ≡ true
    → Advance j (verdict_on limit db j)
verdict_on-Advance limit now db j late = ground arith

reaped-Advance :
    (limit : Option ℕ) (now : ℕ) (db : Database) (j : Job)
    → Advance j (if is_expired now j then verdict_on limit db j else j)
reaped-Advance limit now db j = elim (Bool-cases (is_expired now j)) [
  | inl late ↦ rw late (verdict_on-Advance limit now db j late)
  | inr live ↦ rw live (Advance-refl j)
]

reap_expired-rows :
    (limit : Option ℕ) (now : ℕ) (db mid : Database)
    → reap_rows limit now (expired_rows now db.jobs) db ≡ ok mid
    → reap_expired limit now db
      ≡ ok (
        job_ids (expired_rows now db.jobs),
        update_run_states (affected_runs (expired_rows now db.jobs)) now mid,
      )
unfolding reap_expired
reap_expired-rows limit now db mid e = rw e

pub reap_expired-Keeps :
    (limit : Option ℕ) (now : ℕ) (db db' : Database) (ids : List Key)
    → Unique (job_ids db.jobs)
    → reap_expired limit now db ≡ ok (ids, db')
    → Keeps db db'
reap_expired-Keeps limit now db db' ids u h =
    let rows = expired_rows now db.jobs in
    let (mid, e, s) = reap_rows-ok limit now rows db (expired_rows-Unique now db.jobs u) in
    let (db'', e'', spec) = reap_expired-jobs limit now db u in
    let last : update_run_states (affected_runs rows) now mid ≡ db' =
      cc (h, reap_expired-rows limit now db mid e) in
    let same : db'' ≡ db' = cc (h, e'') in
    let final : Keeps mid db' =
      subst (Keeps mid) last (update_run_states-Keeps (affected_runs rows) now mid) in
    record {
      jobs_evolve = λ k j found. (
        (if is_expired now j then verdict_on limit db j else j),
        subst
            (λ (d : Database).
              find_job k d.jobs ≡ some (if is_expired now j then verdict_on limit db j else j))
            same (spec k j found),
        reaped-Advance limit now db j,
      );
      runs_evolve = subst (λ runs. RunsEvolve runs db'.runs) s.kept_runs final.runs_evolve;
      authority_stays = λ k a f t. final.authority_stays k a (s.kept_authority k a f t) t;
      same_ids = final.same_ids ∙ s.kept_ids;
    }
