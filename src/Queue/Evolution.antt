-- ===== src/Queue/Evolution.antt =====
-- How a stored job may change: the relation that every operation of jobs.py keeps.
use verifier_ci.Prelude.{
  ℕ, ◌≤◌, ◌<◌, ◌⊎◌, none, ◌≡◌, refl, Bool, true, some, List, ◌∙◌, arith, Bool-cases, inl, inr,
}
use verifier_ci.Prelude.Tables.{find_key-update, update_where}
use verifier_ci.Models.Job.{Key, Job, is_terminal}
use verifier_ci.Queue.Database.{find_job}

abbrev pub job_key : Job → ℕ
job_key j = j.job_id

-- The lease of a job, as far as the fence stays: it is cleared, or its holder is the same.
abbrev pub KeepsHolder : Job → Job → Type 0
KeepsHolder j j' =
    (j.fence < j'.fence)
    ⊎ ((j'.lease_token ≡ none)
        ⊎ ((j'.lease_token ≡ j.lease_token)
            × (j'.worker_id ≡ j.worker_id)
            × (j'.attempt_id ≡ j.attempt_id)))

-- From one stored job to a later one: the coordinates stay, the fence and the number of attempts
-- do not fall, the lease changes hands only under a higher fence, and a terminal job does not change
-- at all.
pub record Advance (j j' : Job) : Type 0 where
  pub same_job : j'.job_id ≡ j.job_id
  pub same_run : j'.run_id ≡ j.run_id
  pub same_task : j'.task_key ≡ j.task_key
  pub same_case : j'.case_id ≡ j.case_id
  pub same_verifier : j'.verifier_key ≡ j.verifier_key
  pub same_repetition : j'.repetition ≡ j.repetition
  pub fence_grows : j.fence ≤ j'.fence
  pub attempts_grow : j.attempts_started ≤ j'.attempts_started
  pub keeps_holder : KeepsHolder j j'
  pub terminal_stays : is_terminal j.state ≡ true → j' ≡ j

pub Advance-refl : (j : Job) → Advance j j
Advance-refl j = record {
  same_job = refl;
  same_run = refl;
  same_task = refl;
  same_case = refl;
  same_verifier = refl;
  same_repetition = refl;
  fence_grows = omega arith;
  attempts_grow = omega arith;
  keeps_holder = inr (inr (refl, refl, refl));
  terminal_stays = λ _. refl;
}

KeepsHolder-trans :
    (a b c : Job)
    → a.fence ≤ b.fence
    → b.fence ≤ c.fence
    → KeepsHolder a b
    → KeepsHolder b c
    → KeepsHolder a c
KeepsHolder-trans a b c p q (inl h) k = inl (omega arith)
KeepsHolder-trans a b c p q (inr h) (inl k) = inl (omega arith)
KeepsHolder-trans a b c p q (inr h) (inr (inl k)) = inr (inl k)
KeepsHolder-trans a b c p q (inr (inl h)) (inr (inr (t, w, i))) = inr (inl (t ∙ h))
KeepsHolder-trans a b c p q (inr (inr (t, w, i))) (inr (inr (t', w', i'))) =
    inr (inr (t' ∙ t, w' ∙ w, i' ∙ i))

pub Advance-trans : (a b c : Job) → Advance a b → Advance b c → Advance a c
Advance-trans a b c h k = record {
  same_job = k.same_job ∙ h.same_job;
  same_run = k.same_run ∙ h.same_run;
  same_task = k.same_task ∙ h.same_task;
  same_case = k.same_case ∙ h.same_case;
  same_verifier = k.same_verifier ∙ h.same_verifier;
  same_repetition = k.same_repetition ∙ h.same_repetition;
  fence_grows = omega (arith, h.fence_grows, k.fence_grows);
  attempts_grow = omega (arith, h.attempts_grow, k.attempts_grow);
  keeps_holder = KeepsHolder-trans a b c h.fence_grows k.fence_grows h.keeps_holder k.keeps_holder;
  terminal_stays = λ t. let e = h.terminal_stays t in k.terminal_stays (rw e t) ∙ e;
}

-- Every stored job is still stored, and has advanced.
abbrev pub Evolves : List Job → List Job → Type 0
Evolves jobs jobs' =
    (k : Key) (j : Job)
    → find_job k jobs ≡ some j
    → (j' : Job) × (find_job k jobs' ≡ some j') × Advance j j'

pub Evolves-refl : (jobs : List Job) → Evolves jobs jobs
Evolves-refl jobs k j h = (j, h, Advance-refl j)

pub Evolves-trans : (a b c : List Job) → Evolves a b → Evolves b c → Evolves a c
Evolves-trans a b c f g k j h =
    let (j', h', adv') = f k j h in
    let (j'', h'', adv'') = g k j' h' in (j'', h'', Advance-trans j j' j'' adv' adv'')

-- An UPDATE evolves the table if it advances each job that it touches.
pub update-Evolves :
    (p : Job → Bool) (f : Job → Job)
    → ((j : Job) → job_key (f j) ≡ job_key j)
    → (jobs : List Job)
    → ((k : Key) (j : Job) → find_job k jobs ≡ some j → p j ≡ true → Advance j (f j))
    → Evolves jobs (update_where p f jobs)
update-Evolves p f keeps jobs adv k j h = elim (Bool-cases (p j)) [
  | inl hit ↦ (f j, rw (find_key-update job_key p f keeps k jobs, h) (rw hit), adv k j h hit)
  | inr miss ↦ (j, rw (find_key-update job_key p f keeps k jobs, h) (rw miss), Advance-refl j)
]
