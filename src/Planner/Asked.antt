-- ===== src/Planner/Asked.antt =====
-- What the jobs of a plan are, from its pins and its panel.
use verifier_ci.Prelude.{
  ◌<◌, ◌≡◌, ◌↔◌, ◌⊎◌, inl, inr, refl, subst, sym, Option, none, some, List, [], ◌∷◌, arith,
}
use verifier_ci.Prelude.Tables.{IsIn}
use verifier_ci.Models.Job.{Key, Job, JobState}
use verifier_ci.Planner.Manifest.{TaskPin, PanelView, AuditManifest}
use verifier_ci.Planner.Expand.{Coordinates, expand, cases_of}
use verifier_ci.Planner.Coverage.{OfPins, expand-OfPins}

-- A case that is planned for a pin: one of its own, or, if it has none, a membership of the panel.
pub data HasCase (pin : TaskPin) (case : Key) : Option PanelView → Type 0 where
  own : (panel : Option PanelView) → IsIn case pin.case_ids → HasCase pin case panel
  of_panel :
      (panel : PanelView) (cases : List Key)
      → pin.case_ids ≡ []
      → panel.memberships ≡ some cases
      → IsIn case cases
      → HasCase pin case (some panel)

-- The coordinates are asked for by a pin.
pub record IsAsked (m : AuditManifest) (panel : Option PanelView) (c : Coordinates) : Type 0 where
  pub pin : TaskPin
  pub of_manifest : IsIn pin m.task_pins
  pub of_run : c.run_id ≡ m.run_id
  pub of_task : c.task_key ≡ pin.task_key
  pub of_case : HasCase pin c.case_id panel
  pub of_verifier :
      (c.verifier_key ≡ pin.verifier_baseline_version)
      ⊎ (c.verifier_key ≡ pin.verifier_candidate_version)
  pub in_range : c.repetition < m.max_repetitions

-- A job as it is planned, all its columns.
abbrev pub new_job : Key → Coordinates → Job
new_job id c = record {
  job_id = id;
  run_id = c.run_id;
  task_key = c.task_key;
  case_id = c.case_id;
  verifier_key = c.verifier_key;
  repetition = c.repetition;
  state = JobState.pending;
  fence = 0;
  attempt_id = none;
  lease_token = none;
  worker_id = none;
  lease_expires_ms = none;
  attempts_started = 0;
  selected_attempt_id = none;
  terminal_reason = none;
}

module _ (pin : TaskPin) (case : Key) where
  -- Where the panel has no say, the cases are the pin's own.
  own_only :
      (panel : PanelView)
      → cases_of pin (some panel) ≡ pin.case_ids
      → ((cases : List Key) → pin.case_ids ≡ [] → panel.memberships ≡ some cases → ⊥)
      → IsIn case (cases_of pin (some panel)) ↔ HasCase pin case (some panel)
  own_only panel same no_say =
      (λ i. own (some panel) (subst (IsIn case) same i), λ h. subst (IsIn case) (sym same) (back h))
    where
      back : HasCase pin case (some panel) → IsIn case pin.case_ids
      back (own _ i) = i
      back (of_panel _ cases e f i) = absurd (no_say cases e f)

  from_panel :
      (panel : PanelView) (members : List Key)
      → cases_of pin (some panel) ≡ members
      → pin.case_ids ≡ []
      → panel.memberships ≡ some members
      → IsIn case (cases_of pin (some panel)) ↔ HasCase pin case (some panel)
  from_panel panel members same e f = (
    λ i. of_panel panel members e f (subst (IsIn case) same i),
    λ h. subst (IsIn case) (sym same) (back h),
  )
    where
      back : HasCase pin case (some panel) → IsIn case members
      back (own _ i) = absurd (subst (IsIn case) e i)
      back (of_panel _ cases e' f' i) =
          let alike : cases ≡ members = cc (f, f') in subst (IsIn case) alike i

  with_panel :
      (own_cases : List Key) (panel : PanelView) (members : Option (List Key))
      → pin.case_ids ≡ own_cases
      → panel.memberships ≡ members
      → IsIn case (cases_of pin (some panel)) ↔ HasCase pin case (some panel)
  unfolding cases_of
  with_panel (x ∷ xs) panel members e f =
      own_only panel (ground (arith, e)) (λ cases e' f'. ground (arith, e, e'))
  with_panel [] panel none e f =
      own_only panel (ground (arith, e, f)) (λ cases e' f'. ground (arith, f, f'))
  with_panel [] panel (some members) e f = from_panel panel members (ground (arith, e, f)) e f

  cases_of-HasCase :
      (panel : Option PanelView) → IsIn case (cases_of pin panel) ↔ HasCase pin case panel
  unfolding cases_of
  cases_of-HasCase none = (λ i. own none i, back)
    where
      back : HasCase pin case none → IsIn case pin.case_ids
      back (own _ i) = i
  cases_of-HasCase (some panel) = with_panel pin.case_ids panel panel.memberships refl refl

module _ (m : AuditManifest) (panel : Option PanelView) (c : Coordinates) where
  pins-IsAsked :
      (pins : List TaskPin)
      → ((pin : TaskPin) → IsIn pin pins → IsIn pin m.task_pins)
      → OfPins m.run_id m.max_repetitions panel pins c
      → IsAsked m panel c
  pins-IsAsked [] sub o = absurd o
  pins-IsAsked (pin ∷ pins) sub (inl (run, task, case, verifier, low)) = record {
    pin = pin;
    of_manifest = sub pin (inl refl);
    of_run = run;
    of_task = task;
    of_case = (cases_of-HasCase pin c.case_id panel).0 case;
    of_verifier = verifier;
    in_range = low;
  }
  pins-IsAsked (pin ∷ pins) sub (inr o) = pins-IsAsked pins (λ p i. sub p (inr i)) o

  IsAsked-pins :
      (a : IsAsked m panel c) (pins : List TaskPin)
      → IsIn a.pin pins
      → OfPins m.run_id m.max_repetitions panel pins c
  IsAsked-pins a [] i = absurd i
  IsAsked-pins a (pin ∷ pins) (inl e) = inl (
      subst
        (λ (p : TaskPin).
          (c.run_id ≡ m.run_id)
          × (c.task_key ≡ p.task_key)
          × IsIn c.case_id (cases_of p panel)
          × ((c.verifier_key ≡ p.verifier_baseline_version)
              ⊎ (c.verifier_key ≡ p.verifier_candidate_version))
          × (c.repetition < m.max_repetitions))
        e
        (
          a.of_run,
          a.of_task,
          (cases_of-HasCase a.pin c.case_id panel).1 a.of_case,
          a.of_verifier,
          a.in_range,
        ))
  IsAsked-pins a (pin ∷ pins) (inr i) = inr (IsAsked-pins a pins i)

-- A job is planned if and only if its coordinates are those of the run, of a pin of the manifest, of
-- a case of this pin (or of a membership of the panel, if the pin has no case and the panel has
-- memberships), of the baseline or the candidate verifier of the pin, and of a repetition below the
-- number of repetitions; and it is planned as PENDING, without a lease, under fence 0, with no
-- attempt started or selected, and with the identifier that its coordinates give.
pub expand-IsAsked :
    (job_id : Coordinates → Key) (m : AuditManifest) (panel : Option PanelView) (j : Job)
    → IsIn j (expand job_id m panel)
      ↔ ((c : Coordinates) × IsAsked m panel c × (j ≡ new_job (job_id c) c))
expand-IsAsked job_id m panel j =
    let of_pins = expand-OfPins job_id m panel j in
    (
      λ i. let (c, o, e) = of_pins.0 i in (c, pins-IsAsked m panel c m.task_pins (λ p h. h) o, e),
      λ (c, a, e). of_pins.1 (c, IsAsked-pins m panel c a m.task_pins a.of_manifest, e),
    )
