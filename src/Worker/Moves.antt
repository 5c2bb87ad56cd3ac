-- ===== src/Worker/Moves.antt =====
-- What storing the outputs of a run does to the database: it registers artifacts.
use verifier_ci.Prelude.{◌≡◌, refl, Option, none, some, [], ◌∷◌, String}
use verifier_ci.Errors.{Fallible, returned, failed}
use verifier_ci.Models.Job.{Key}
use verifier_ci.Artifacts.Disk.{Bytes, Artifact, World, Reply, done, raised, os_error}
use verifier_ci.Queue.Database.{Database}
use verifier_ci.Queue.History.{Step}
use verifier_ci.Worker.State.{
  Host, Shared, then_with, store_output, register, registered, as_fallible, add_digest,
}
use verifier_ci.Worker.Running.{Ran}
use verifier_ci.Worker.Evaluate.{store_log, store_report, collect, report_read}

-- A committed transaction of the queue, or the registration of an artifact.
pub data Move (db db' : Database) : Type 0 where
  steps : Step db db' → Move db db'
  registers : (d : Key) → db' ≡ add_digest d db → Move db db'

pub data Moves (db : Database) : Database → Type 0 where
  here : Moves db db
  next : {mid db' : Database} → Moves db mid → Move mid db' → Moves db db'

pub Moves-trans : {a b c : Database} → Moves a b → Moves b c → Moves a c
Moves-trans m here = m
Moves-trans m (next n move) = next (Moves-trans m n) move

pub one : {a b : Database} → Move a b → Moves a b
one m = next here m

pub then_with-Moves {ℓ κ} :
    {A : Type ℓ} {B : Type κ} (db : Database) (m : Fallible A × Shared)
    (f : A → Shared → Fallible B × Shared)
    → Moves db m.1.db
    → ((a : A) (s : Shared) → Moves s.db (f a s).1.db)
    → Moves db (then_with m f).1.db
then_with-Moves db (returned a, s) f first later = Moves-trans first (later a s)
then_with-Moves db (failed e, s) f first later = first

registered-Moves :
    (h : Host) (x : Reply Artifact × World) (db : Database)
    → Moves db (registered h (as_fallible h.message x) db).1.db
unfolding register
registered-Moves h (done a, w) db = one (Move.registers (h.key_of a.digest) refl)
registered-Moves h (raised c e, w) db = here
registered-Moves h (os_error, w) db = here

store_output-Moves :
    (h : Host) (kind media_type : String) (content : Bytes) (s : Shared)
    → Moves s.db (store_output h kind media_type content s).1.db
unfolding store_output
store_output-Moves h kind media_type content s = registered-Moves h _ s.db

store_log-Moves :
    (h : Host) (kind : String) (log : Option Bytes) (s : Shared)
    → Moves s.db (store_log h kind log s).1.db
unfolding store_log
store_log-Moves h kind none s = here
store_log-Moves h kind (some []) s = here
store_log-Moves h kind (some (b ∷ bs)) s =
    then_with-Moves s.db (store_output h kind "application/octet-stream" (b ∷ bs) s) _
      (store_output-Moves h kind "application/octet-stream" (b ∷ bs) s) (λ d mid. here)

store_report-Moves :
    (h : Host) (report : Option Bytes) (s : Shared) → Moves s.db (store_report h report s).1.db
unfolding store_report
store_report-Moves h none s = here
store_report-Moves h (some content) s =
    then_with-Moves s.db (store_output h "report" "application/json" content s) _
      (store_output-Moves h "report" "application/json" content s) (λ d mid. here)

pub collect-Moves : (h : Host) (r : Ran) (s : Shared) → Moves s.db (collect h r s).1.db
unfolding collect
collect-Moves h r s =
    then_with-Moves s.db (store_log h "stdout" r.stdout_log s) _
      (store_log-Moves h "stdout" r.stdout_log s)
      (λ out s1.
        then_with-Moves s1.db (store_log h "stderr" r.stderr_log s1) _
          (store_log-Moves h "stderr" r.stderr_log s1)
          (λ err_log s2.
            then_with-Moves s2.db (store_report h (report_read r.report) s2) _
              (store_report-Moves h (report_read r.report) s2) (λ report s3. here)))
