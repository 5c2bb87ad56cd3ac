-- ===== src/Queue/RunState.antt =====
-- `_update_run_state`: the state of a run follows the states of its jobs.
use verifier_ci.Prelude.{
  ℕ, Bool, true, false, ◌&&◌, not, some, List, if◌then◌else◌, ◌==◌, ltb, count_if,
}
use verifier_ci.Prelude.Tables.{update_where}
use verifier_ci.Models.Job.{Key, Job, is_finished, is_failed}
use verifier_ci.Queue.Database.{Database, RunRow, RunState}

abbrev pub run_is_terminal : RunState → Bool
run_is_terminal RunState.complete = true
run_is_terminal RunState.cancelled = true
run_is_terminal RunState.failed = true
run_is_terminal _ = false

abbrev pub run_is_planned : RunState → Bool
run_is_planned RunState.planned = true
run_is_planned _ = false

abbrev pub total_count : Key → List Job → ℕ
total_count run = count_if (λ j. j.run_id == run)

abbrev pub active_count : Key → List Job → ℕ
active_count run = count_if (λ j. (j.run_id == run) && not (is_finished j.state))

abbrev pub fail_count : Key → List Job → ℕ
fail_count run = count_if (λ j. (j.run_id == run) && is_failed j.state)

-- The row of the run after the update, by the counts of its jobs.
unfoldable pub next_run_row : List Job → ℕ → RunRow → RunRow
next_run_row jobs now_ms r =
    if run_is_terminal r.state
    then r
    else if total_count r.run_id jobs == 0
    then r
    else if ltb 0 (active_count r.run_id jobs)
    then (if run_is_planned r.state then record r { state = RunState.running } else r)
    else record r {
      state =
          if r.cancel_requested
          then RunState.cancelled
          else if ltb 0 (fail_count r.run_id jobs)
          then RunState.failed
          else RunState.complete;
      finished_at = some now_ms;
    }

unfoldable pub update_run_state : Key → ℕ → Database → Database
unfolding next_run_row
update_run_state run now_ms db = record db {
  runs = update_where (λ r. r.run_id == run) (next_run_row db.jobs now_ms) db.runs;
}
