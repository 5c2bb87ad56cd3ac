-- ===== src/Queue/Cancel.antt =====
-- `request_cancel`: a run is marked and its pending jobs fail. The caller's clock is an argument.
use verifier_ci.Prelude.{ℕ, true, ◌==◌}
use verifier_ci.Prelude.Tables.{update_where}
use verifier_ci.Models.Job.{Key}
use verifier_ci.Queue.Database.{Database, Result, ok}
use verifier_ci.Queue.RunState.{update_run_state}
use verifier_ci.Queue.Claim.{fail_pending}

abbrev pub mark_cancelled : Key → Database → Database
mark_cancelled run db = record db {
  runs = update_where (λ r. r.run_id == run) (λ r. record r { cancel_requested = true }) db.runs;
}

unfoldable pub request_cancel : Key → ℕ → Database → Result (Unit {0} × Database)
unfolding update_run_state
request_cancel run now_ms db =
    ok (tt, update_run_state run now_ms (fail_pending run (mark_cancelled run db)))
