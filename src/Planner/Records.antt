-- ===== src/Planner/Records.antt =====
-- What a manifest that is built says of its jobs.
use verifier_ci.Prelude.{
  ℕ, ◌≡◌, refl, subst, Bool, false, Option, List, arith, is_empty, if◌then◌else◌, ◌⊎◌, inl, inr,
  some, none, ◌≤◌, ◌==◌, length, Bool-cases,
}
use verifier_ci.Errors.{ErrorClass, ErrorCode}
use verifier_ci.Models.Job.{Key, Job}
use verifier_ci.Planner.Manifest.{TaskPin, PanelView, AuditOptions, AuditManifest}
use verifier_ci.Planner.Expand.{Coordinates, expand}
use verifier_ci.Planner.Build.{
  BuildRequest, Constants, built, refused, build_manifest, compute_expansion_digest, temp_manifest,
  exceeds, finished,
}

passed :
    (b d : Bool) (t m : AuditManifest)
    → (if b
        then refused ErrorClass.validation_error ErrorCode.validation_error
        else if d
        then refused ErrorClass.validation_error ErrorCode.resource_exhausted
        else built t)
      ≡ built m
    → (b ≡ false) × (d ≡ false) × (t ≡ m)
passed b d t m h = ground arith

-- The number of jobs is within the ceiling that the options set, if they set one: 0 sets none.
abbrev pub WithinCeiling : Option AuditOptions → ℕ → Type 0
WithinCeiling none n = Unit
WithinCeiling (some o) n = (o.max_jobs ≡ 0) ⊎ (n ≤ o.max_jobs)

within :
    (options : Option AuditOptions) (jobs : List Job)
    → exceeds options jobs ≡ false
    → WithinCeiling options (length jobs)
within none jobs h = tt
within (some o) jobs h = elim (Bool-cases (o.max_jobs == 0)) [
  | inl e ↦ inl (ground arith)
  | inr e ↦ inr (ground arith)
]

module _ (job_id : Coordinates → Key) (ids_digest : List Key → Key)
    (content_hash : AuditManifest → Key) where
  -- If `build_manifest` returns a manifest, then expanding this manifest gives jobs whose digest it
  -- records, it has a task pin, and these jobs are at most `max_jobs` of the options, unless there are
  -- no options or their `max_jobs` is 0.
  pub build_manifest-expand :
      (c : Constants) (new_run : Key) (now : ℕ) (r : BuildRequest) (options : Option AuditOptions)
      (pins : List TaskPin) (panel : Option PanelView) (m : AuditManifest)
      → build_manifest job_id ids_digest content_hash c new_run now r options pins panel ≡ built m
      → (m.expansion_digest ≡ compute_expansion_digest ids_digest (expand job_id m panel))
        × (is_empty m.task_pins ≡ false)
        × WithinCeiling options (length (expand job_id m panel))
  unfolding build_manifest expand
  build_manifest-expand c new_run now r options pins panel m h =
      let t = temp_manifest c new_run now r options pins panel in
      let jobs = expand job_id t panel in
      let (some_pin, below, same) =
        passed _ _ (finished job_id ids_digest content_hash t jobs) m h in
      subst
        (λ (x : AuditManifest).
          (x.expansion_digest ≡ compute_expansion_digest ids_digest (expand job_id x panel))
          × (is_empty x.task_pins ≡ false)
          × WithinCeiling options (length (expand job_id x panel)))
        same (refl, some_pin, within options jobs below)
