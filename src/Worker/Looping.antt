-- ===== src/Worker/Looping.antt =====
-- The whole loop of a worker, as a history of the queue.
use verifier_ci.Prelude.{ℕ, suc, List, [], ◌∷◌}
use verifier_ci.Queue.Database.{Database}
use verifier_ci.Worker.State.{Shared}
use verifier_ci.Worker.Turn.{
  Turn, idle, finished, stopped, run_one, Round, Ended, exhausted, drained, raised,
  run_until_terminal,
}
use verifier_ci.Worker.Moves.{Moves, here, Moves-trans}
use verifier_ci.Worker.Refinement.{ScheduleMoves, shared_after, run_one-Moves}

abbrev pub RoundsMove : List Round → Type 0
RoundsMove [] = Unit
RoundsMove (r ∷ rounds) = ScheduleMoves r.schedule × RoundsMove rounds

abbrev pub shared_at_end : Ended → Shared
shared_at_end (exhausted count s) = s
shared_at_end (drained count s) = s
shared_at_end (raised e s) = s

after_turn :
    (count : ℕ) (db : Database) (u : Turn) (go_on : Shared → Ended)
    → Moves db (shared_after u).db
    → ((s : Shared) → Moves s.db (shared_at_end (go_on s)).db)
    → Moves db
        (shared_at_end (elim u as (λ _. Ended) [
          | idle s ↦ drained count s
          | stopped e s ↦ raised e s
          | finished v job attempt s ↦ go_on s
        ])).db
after_turn count db (idle s) go_on m rest = m
after_turn count db (stopped e s) go_on m rest = m
after_turn count db (finished v job attempt s) go_on m rest = Moves-trans m (rest s)

-- Provided that what the others do between the transactions of this worker are transactions of the
-- queue and registrations of artifacts: the loop of a worker, however it ends, leads from the
-- database that it found to the one that it leaves by a sequence of such transactions (claims,
-- lease checks, heartbeats, completions, reaps, cancellations) and registrations alone.
pub run_until_terminal-Moves :
    (count : ℕ) (rounds : List Round) (s : Shared)
    → RoundsMove rounds
    → Moves s.db (shared_at_end (run_until_terminal count rounds s)).db
unfolding run_until_terminal
run_until_terminal-Moves count [] s others = here
run_until_terminal-Moves count (r ∷ rounds) s (first, others) =
    after_turn count s.db (run_one r.host r.request r.schedule s)
      (λ s1. run_until_terminal (suc count) rounds s1)
      (run_one-Moves r.host r.request r.schedule s first)
      (λ s1. run_until_terminal-Moves (suc count) rounds s1 others)
