-- ===== src/Worker/Submission.antt =====
-- What an attempt that is submitted was computed from, and that its digests are kept.
use verifier_ci.Prelude.{
  ◌≡◌, inl, inr, refl, ◌∙◌, sym, ap, subst, Bool, true, Option, none, some, List, ◌++◌, arith,
  contains, ◌==◌, ==_iff, Bool-cases,
}
use verifier_ci.Errors.{Fallible, returned, failed}
use verifier_ci.Models.Job.{Key, Job}
use verifier_ci.Models.Attempt.{EvaluationAttempt}
use verifier_ci.Models.Capture.{VerifierManifest}
use verifier_ci.Artifacts.Disk.{Bytes, is_valid_digest}
use verifier_ci.Worker.State.{Host, Shared}
use verifier_ci.Worker.Running.{Preparation, Ran, run_commands, manifest_of}
use verifier_ci.Worker.Evaluate.{
  Collected, Classified, collect, classify, evaluate, attempt_of, after_run, classified_attempt,
  evidence_of, listed,
}
use verifier_ci.Worker.Evidence.{then_with-returned, IsKept}
use verifier_ci.Worker.Collecting.{OptionKept, collect-Stores}

-- The steps 4 to 6 that led to an attempt.
pub record Submitted (h : Host) (attempt_id : Key) (job : Job) (lost : Bool) (p : Preparation)
    (s s' : Shared) (attempt : EvaluationAttempt) : Type 0 where
  pub ran : Ran
  pub collected : Collected
  pub classified : Classified
  pub was_run : run_commands h job attempt_id p ≡ returned ran
  pub was_collected : collect h ran s ≡ (returned collected, s')
  pub was_classified : classify h (manifest_of p) ran.capture collected ≡ returned classified
  pub submits : attempt ≡ attempt_of h attempt_id job lost collected classified

after_classify :
    (h : Host) (attempt_id : Key) (job : Job) (lost : Bool) (k : Collected)
    (m : Fallible Classified) (attempt : EvaluationAttempt)
    → classified_attempt h attempt_id job lost k m ≡ returned attempt
    → (x : Classified) × (m ≡ returned x) × (attempt ≡ attempt_of h attempt_id job lost k x)
after_classify h attempt_id job lost k (returned x) attempt e = (x, refl, cc)
after_classify h attempt_id job lost k (failed f) attempt e = cc

after_run-returned :
    (h : Host) (attempt_id : Key) (job : Job) (lost : Bool) (m : Option VerifierManifest)
    (s s' : Shared) (x : Fallible Ran) (attempt : EvaluationAttempt)
    → after_run h attempt_id job lost m s x ≡ (returned attempt, s')
    → (r : Ran) × (x ≡ returned r)
      × (k : Collected) × (collect h r s ≡ (returned k, s'))
      × (c : Classified) × (classify h m r.capture k ≡ returned c)
      × (attempt ≡ attempt_of h attempt_id job lost k c)
unfolding after_run
after_run-returned h attempt_id job lost m s s' (failed f) attempt e = cc
after_run-returned h attempt_id job lost m s s' (returned r) attempt e =
    let (k, mid, c, last) = then_with-returned (collect h r s) _ attempt s' e in
    let same : mid ≡ s' = ap (λ (x : Fallible EvaluationAttempt × Shared). x.1) last in
    let (x, cl, at) =
      after_classify h attempt_id job lost k (classify h m r.capture k) attempt
        (ap (λ (x : Fallible EvaluationAttempt × Shared). x.0) last) in
    (r, refl, k, subst (λ y. collect h r s ≡ (returned k, y)) same c, x, cl, at)

evaluate-after_run :
    (h : Host) (attempt_id : Key) (job : Job) (lost : Bool) (p : Preparation) (s : Shared)
    → evaluate h attempt_id job lost p s
      ≡ after_run h attempt_id job lost (manifest_of p) s (run_commands h job attempt_id p)
unfolding evaluate
evaluate-after_run h attempt_id job lost p s = refl

pub evaluate-Submitted :
    (h : Host) (attempt_id : Key) (job : Job) (lost : Bool) (p : Preparation) (s s' : Shared)
    (attempt : EvaluationAttempt)
    → evaluate h attempt_id job lost p s ≡ (returned attempt, s')
    → Submitted h attempt_id job lost p s s' attempt
evaluate-Submitted h attempt_id job lost p s s' attempt e =
    let (r, m, k, c, x, cl, at) =
      after_run-returned h attempt_id job lost (manifest_of p) s s'
        (run_commands h job attempt_id p) attempt
        (sym (evaluate-after_run h attempt_id job lost p s) ∙ e) in
    record {
      ran = r;
      collected = k;
      classified = x;
      was_run = m;
      was_collected = c;
      was_classified = cl;
      submits = at;
    }

IsKept-eq :
    (h : Host) (s : Shared) (d e : Key)
    → (d == e) ≡ true
    → IsKept h.key_of s e
    → IsKept h.key_of s d
IsKept-eq h s d e same k = subst (IsKept h.key_of s) (sym ((==_iff d e).0 same)) k

listed-IsKept :
    (h : Host) (s : Shared) (d : Key) (o : Option Key) (rest : List Key)
    → OptionKept h s o
    → (contains d rest ≡ true → IsKept h.key_of s d)
    → contains d (listed o ++ rest) ≡ true
    → IsKept h.key_of s d
listed-IsKept h s d none rest k others there = others there
listed-IsKept h s d (some e) rest k others there = elim (Bool-cases (d == e)) [
  | inl same ↦ IsKept-eq h s d e same k
  | inr differs ↦ others (ground arith)
]

last-IsKept :
    (h : Host) (s : Shared) (d : Key) (o : Option Key)
    → OptionKept h s o
    → contains d (listed o) ≡ true
    → IsKept h.key_of s d
last-IsKept h s d none k there = cc
last-IsKept h s d (some e) k there = IsKept-eq h s d e (ground arith) k

-- Provided that every hash is a digest of the form that the store asks for: each digest that an
-- evaluated attempt names as evidence is registered in the table of artifacts and stands for a
-- file that exists in the store, when the attempt is handed to `complete`.
pub evaluate-IsKept :
    (h : Host) (attempt_id : Key) (job : Job) (lost : Bool) (p : Preparation) (s s' : Shared)
    (attempt : EvaluationAttempt) (d : Key)
    → ((content : Bytes) → is_valid_digest (h.hash content) ≡ true)
    → evaluate h attempt_id job lost p s ≡ (returned attempt, s')
    → contains d attempt.artifact_digests ≡ true
    → IsKept h.key_of s' d
evaluate-IsKept h attempt_id job lost p s s' attempt d valid e there =
    let u = evaluate-Submitted h attempt_id job lost p s s' attempt e in
    let (st, out, err_log, report, read, filled) =
      collect-Stores h valid u.ran s s' u.collected u.was_collected in
    let named : contains d (evidence_of u.collected) ≡ true =
      subst (λ (a : EvaluationAttempt). contains d a.artifact_digests ≡ true) u.submits there in
    listed-IsKept h s' d u.collected.stdout_hash
      (listed u.collected.stderr_hash ++ listed u.collected.report_digest) out
      (listed-IsKept h s' d u.collected.stderr_hash (listed u.collected.report_digest) err_log
        (last-IsKept h s' d u.collected.report_digest report))
      named
