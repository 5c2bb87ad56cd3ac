-- ===== src/Queue/Claims.antt =====
-- The loop of `claim`: the row that it selects, and the ways through it.
use verifier_ci.Prelude.{
  ℕ, zero, suc, ◌≡◌, refl, Bool, true, false, ◌&&◌, Option, none, some, List, [], ◌∷◌, map, arith,
  inl, inr, ◌⊎◌, Bool-cases, Option-cases, count_if, subst, sym, ◌∙◌, ◌++◌, leb,
}
use verifier_ci.Prelude.Tables.{IsIn, find_key-IsIn, Unique}
use verifier_ci.Models.Job.{Key, Job, is_pending}
use verifier_ci.Queue.Database.{Database, ok, find_job, update_jobs, has_id}
use verifier_ci.Queue.RunState.{update_run_state}
use verifier_ci.Queue.Evolution.{job_key, Advance}
use verifier_ci.Queue.Keeps.{
  Keeps, Keeps-refl, Keeps-trans, update_jobs-Keeps, update_row-Keeps, update_run_state-Keeps,
  insert-Keeps,
}
use verifier_ci.Queue.Claim.{
  ClaimRequest, least_job, is_claimable, claim, claim_loop, grant, fail_pending, is_pending_in,
  cancelled_job, claimed_job, earlier, new_attempt, run_is_cancelled,
}

-- The primary key of `jobs`.
abbrev pub HasUniqueJobs : Database → Type 0
HasUniqueJobs db = Unique (map job_key db.jobs)

pub Keeps-HasUniqueJobs : (db db' : Database) → Keeps db db' → HasUniqueJobs db → HasUniqueJobs db'
Keeps-HasUniqueJobs db db' k u = subst Unique (sym k.same_ids) u

earlier-IsIn :
    (p : Job → Bool) (j m : Job) (jobs : List Job) (row : Job)
    → p j ≡ true
    → IsIn m jobs × (p m ≡ true)
    → row ≡ earlier j (some m)
    → IsIn row (j ∷ jobs) × (p row ≡ true)
earlier-IsIn p j m jobs row hit (here, hit') e = elim (Bool-cases (leb j.job_id m.job_id)) [
  | inl le ↦ let q : row ≡ j = ground arith in (inl q, rw q hit)
  | inr gt ↦
      let q : row ≡ m = ground arith in (inr (subst (λ x. IsIn x jobs) (sym q) here), rw q hit')
]

-- The selected row stands in the table and passes the test.
pub least_job-IsIn :
    (p : Job → Bool) (jobs : List Job) (row : Job)
    → least_job p jobs ≡ some row
    → IsIn row jobs × (p row ≡ true)
unfolding least_job
least_job-IsIn p [] row h = ground arith
least_job-IsIn p (j ∷ jobs) row h = elim (Bool-cases (p j)) [
  | inl hit ↦ elim (Option-cases (least_job p jobs)) [
    | inl e ↦ (inl (ground arith), ground arith)
    | inr (m, e) ↦ earlier-IsIn p j m jobs row hit (least_job-IsIn p jobs m e) (ground arith)
  ]
  | inr miss ↦ let (here, hit) = least_job-IsIn p jobs row (ground arith) in (inr here, hit)
]

pub fail_pending-Keeps : (run : Key) (db : Database) → Keeps db (fail_pending run db)
fail_pending-Keeps run db =
    update_jobs-Keeps (is_pending_in run) cancelled_job db (λ j. refl) λ k j h hit. ground arith

pub grant-Keeps :
    (r : ClaimRequest) (row : Job) (db db' : Database) (o : Option Job)
    → find_job row.job_id db.jobs ≡ some row
    → is_pending row.state ≡ true
    → grant r row db ≡ ok (o, db')
    → Keeps db db'
unfolding grant
grant-Keeps r row db db' o found waiting h = subst (Keeps db) (sym done) (
    Keeps-trans db marked _
      (update_row-Keeps row.job_id _ (claimed_job r row) db row (λ j. refl) (λ j t. ground arith)
        found advances)
      (Keeps-trans marked (record marked { attempts = db.attempts ++ new_attempt r row ∷ [] }) _
        (insert-Keeps (new_attempt r row) marked) (update_run_state-Keeps row.run_id r.now_ms _)))
  where
    marked : Database
    marked = update_jobs (λ j. has_id row.job_id j && is_pending j.state) (claimed_job r row) db

    done :
        db'
        ≡ update_run_state row.run_id r.now_ms
            (record marked { attempts = db.attempts ++ new_attempt r row ∷ [] })
    done = ground arith

    advances : Advance row (claimed_job r row row)
    advances = ground arith

-- The row that `claim` selects is the stored one, and pending.
pub selected_row :
    (run : Option Key) (db : Database) (row : Job)
    → HasUniqueJobs db
    → least_job (is_claimable run) db.jobs ≡ some row
    → (find_job row.job_id db.jobs ≡ some row) × (is_claimable run row ≡ true)
selected_row run db row u e =
    let (here, hit) = least_job-IsIn (is_claimable run) db.jobs row e in
    (find_key-IsIn job_key row db.jobs u here, hit)

-- A way through the loop of `claim`, from a database to its result.
pub data Claims (r : ClaimRequest) (o : Option Job) (db' : Database) : Database → Type 0 where
  empty_queue :
      {db : Database}
      → least_job (is_claimable r.run_id) db.jobs ≡ none
      → o ≡ none
      → db' ≡ db
      → Claims r o db' db
  skip_run :
      {db : Database} (row : Job)
      → least_job (is_claimable r.run_id) db.jobs ≡ some row
      → run_is_cancelled row.run_id db ≡ true
      → Claims r o db' (update_run_state row.run_id r.now_ms (fail_pending row.run_id db))
      → Claims r o db' db
  grant_row :
      {db : Database} (row : Job)
      → least_job (is_claimable r.run_id) db.jobs ≡ some row
      → run_is_cancelled row.run_id db ≡ false
      → grant r row db ≡ ok (o, db')
      → Claims r o db' db

module _ (fuel : ℕ) (r : ClaimRequest) (db : Database) where
  claim_loop-empty :
      least_job (is_claimable r.run_id) db.jobs ≡ none → claim_loop (suc fuel) r db ≡ ok (none, db)
  unfolding claim_loop
  claim_loop-empty e = ground arith

  module _ (row : Job) (e : least_job (is_claimable r.run_id) db.jobs ≡ some row) where
    claim_loop-skip :
        run_is_cancelled row.run_id db ≡ true
        → claim_loop (suc fuel) r db
          ≡ claim_loop fuel r (update_run_state row.run_id r.now_ms (fail_pending row.run_id db))
    unfolding claim_loop
    claim_loop-skip c = ground arith

    claim_loop-grant :
        run_is_cancelled row.run_id db ≡ false
        → (claim_loop (suc fuel) r db ≡ claim_loop fuel r db)
          ⊎ (claim_loop (suc fuel) r db ≡ grant r row db)
    unfolding claim_loop
    claim_loop-grant c = ground arith

pub claim_loop-Claims :
    (fuel : ℕ) (r : ClaimRequest) (db db' : Database) (o : Option Job)
    → claim_loop fuel r db ≡ ok (o, db')
    → Claims r o db' db
unfolding claim_loop
claim_loop-Claims zero r db db' o h = cc
claim_loop-Claims (suc fuel) r db db' o h =
    elim (Option-cases (least_job (is_claimable r.run_id) db.jobs)) [
      | inl e ↦ let same = sym (claim_loop-empty fuel r db e) ∙ h in empty_queue e (cc) (cc)
      | inr (row, e) ↦ elim (Bool-cases (run_is_cancelled row.run_id db)) [
        | inl stopped ↦
            skip_run row e stopped
              (claim_loop-Claims fuel r _ db' o (sym (claim_loop-skip fuel r db row e stopped) ∙ h))
        | inr going ↦ elim (claim_loop-grant fuel r db row e going) [
          | inl again ↦ claim_loop-Claims fuel r db db' o (sym again ∙ h)
          | inr granted ↦ grant_row row e going (sym granted ∙ h)
        ]
      ]
    ]

-- A transaction of `claim` that commits went one of these ways.
pub claim-Claims :
    (r : ClaimRequest) (db db' : Database) (o : Option Job)
    → claim r db ≡ ok (o, db')
    → Claims r o db' db
unfolding claim
claim-Claims r db db' o h =
    claim_loop-Claims (suc (count_if (λ j. is_pending j.state) db.jobs)) r db db' o h

pub Claims-Keeps :
    (r : ClaimRequest) (o : Option Job) (db' : Database) {db : Database}
    → HasUniqueJobs db
    → Claims r o db' db
    → Keeps db db'
Claims-Keeps r o db' {db} u (empty_queue e none_left same) =
    subst (Keeps db) (sym same) (Keeps-refl db)
Claims-Keeps r o db' {db} u (skip_run row e stopped rest) =
    let first : Keeps db (update_run_state row.run_id r.now_ms (fail_pending row.run_id db)) =
      Keeps-trans db _ _ (fail_pending-Keeps row.run_id db)
        (update_run_state-Keeps row.run_id r.now_ms _) in
    Keeps-trans db _ db' first (Claims-Keeps r o db' (Keeps-HasUniqueJobs db _ first u) rest)
Claims-Keeps r o db' {db} u (grant_row row e going granted) =
    let (found, ready) = selected_row r.run_id db row u e in
    grant-Keeps r row db db' o found (ground arith) granted
