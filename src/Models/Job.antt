-- ===== src/Models/Job.antt =====
-- `Job` of src/verifierci/models/protocol.py, which is also a row of the `jobs` table. An
-- identifier, a lease token or a worker name is only compared and ordered by the program, so it is
-- a natural number.
use verifier_ci.Prelude.{ℕ, Bool, true, false, Option, String}

abbrev pub Key : Type 0
Key = ℕ

pub data JobState : Type 0 where
  pending claimed running done failed abandoned : JobState

pub record Job : Type 0 where
  pub job_id : Key
  pub run_id : Key
  pub task_key : Key
  pub case_id : Key
  pub verifier_key : Key
  pub repetition : ℕ
  pub state : JobState
  pub fence : ℕ
  pub attempt_id : Option Key
  pub lease_token : Option Key
  pub worker_id : Option Key
  pub lease_expires_ms : Option ℕ
  pub attempts_started : ℕ
  pub selected_attempt_id : Option Key
  pub terminal_reason : Option String

-- `state = 'PENDING'`
abbrev pub is_pending : JobState → Bool
is_pending JobState.pending = true
is_pending _ = false

-- `state IN ('CLAIMED', 'RUNNING')`
abbrev pub is_active : JobState → Bool
is_active JobState.claimed = true
is_active JobState.running = true
is_active _ = false

-- `state IN ('DONE', 'FAILED', 'ABANDONED')`
abbrev pub is_terminal : JobState → Bool
is_terminal JobState.done = true
is_terminal JobState.failed = true
is_terminal JobState.abandoned = true
is_terminal _ = false

-- `state IN ('DONE', 'FAILED')`
abbrev pub is_finished : JobState → Bool
is_finished JobState.done = true
is_finished JobState.failed = true
is_finished _ = false

-- `state = 'FAILED'`
abbrev pub is_failed : JobState → Bool
is_failed JobState.failed = true
is_failed _ = false
