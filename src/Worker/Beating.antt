-- ===== src/Worker/Beating.antt =====
-- What the preparation of a job has resolved, and what the heartbeats leave of the job.
use verifier_ci.Prelude.{◌≡◌, inl, inr, refl, ℕ, Bool, true, false, some, List, [], ◌∷◌, arith}
use verifier_ci.Errors.{returned}
use verifier_ci.Models.Job.{Job}
use verifier_ci.Models.Capture.{VerifierManifest}
use verifier_ci.Queue.Database.{Database, ok}
use verifier_ci.Queue.Lease.{heartbeat}
use verifier_ci.Worker.Resolve.{resolve_manifest}
use verifier_ci.Worker.State.{Host, Shared}
use verifier_ci.Worker.Running.{manifest_of, prepare}
use verifier_ci.Worker.Turn.{Beat, beat, beat_if}
use verifier_ci.Worker.Finishing.{Result-cases}

pub manifest-resolved :
    (h : Host) (s : Shared) (job : Job) (m : VerifierManifest)
    → manifest_of (prepare h s job) ≡ some m
    → resolve_manifest h.manifest_resolver h.registry job.verifier_key ≡ returned m
unfolding prepare
manifest-resolved h s job m e = ground arith

-- The two have the task, the case and the verifier in common.
abbrev pub SameKeys : Job → Job → Type 0
SameKeys j k =
    (j.verifier_key ≡ k.verifier_key) × (j.task_key ≡ k.task_key) × (j.case_id ≡ k.case_id)

heartbeat-same :
    (job job' : Job) (now extension : ℕ) (db db' : Database)
    → heartbeat job now extension db ≡ ok (job', db')
    → SameKeys job' job
unfolding heartbeat
heartbeat-same job job' now extension db db' e = ground arith

beat-same :
    (extension : ℕ) (bs : List Beat) (db : Database) (job : Job)
    → SameKeys (beat extension bs db job).job job
unfolding beat
beat-same extension [] db job = (refl, refl, refl)
beat-same extension (b ∷ bs) db job =
    elim (Result-cases (heartbeat job b.time extension (b.others db))) [
      | inl ((job', db'), e) ↦
          let s = beat-same extension bs db' job' in
          let k = heartbeat-same job job' b.time extension (b.others db) db' e in ground (arith, e)
      | inr (inl (c, e)) ↦ ground (arith, e)
      | inr (inr e) ↦ ground (arith, e)
    ]

pub beat_if-same :
    (on : Bool) (extension : ℕ) (bs : List Beat) (db : Database) (job : Job)
    → SameKeys (beat_if on extension bs db job).job job
beat_if-same true extension bs db job = beat-same extension bs db job
beat_if-same false extension bs db job = (refl, refl, refl)
