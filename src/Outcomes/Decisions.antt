-- ===== src/Outcomes/Decisions.antt =====
-- What a decision of `parse_capture` rests on, and that every answer can be stored.
use verifier_ci.Prelude.{
  ◌≡◌, ◌⊎◌, inl, inr, sym, ap, ◌∙◌, Bool, true, false, Option, some, List, String, arith,
  Option-cases, Bool-cases,
}
use verifier_ci.Prelude.Text.{is_text}
use verifier_ci.Models.Attempt.{Outcome, Validity, Disposition}
use verifier_ci.Models.Attempt.Validation.{check_row}
use verifier_ci.Models.Capture.{ExecutionCapture, TestResult, ParsedOutcome, VerifierManifest}
use verifier_ci.Report.Judge.{report_of}
use verifier_ci.Report.Parser.{ReportBytes, parse}
use verifier_ci.Report.Reading.{ReadsReport}
use verifier_ci.Report.Acceptance.{Earned, judge-accept}
use verifier_ci.Outcomes.Classify.{parse_capture, classify_completed, with_evidence}
use verifier_ci.Outcomes.Precedence.{
  IsGraded, RanToEnd, completed_cases, parse-holds, parse-IsGraded, with_evidence-same,
}

-- A capture with a runtime error is never a decision; any other is classified by the later steps.
capture_cases :
    (reads_float : String → Bool) (c : ExecutionCapture) (m : VerifierManifest)
    (report : Option ReportBytes) (r : ParsedOutcome)
    → parse_capture reads_float c m report ≡ some r
    → ((r.evaluation_validity ≡ Validity.invalid)
        × ((r.outcome ≡ Outcome.invalid_evaluation) ⊎ (r.outcome ≡ Outcome.error)))
      ⊎ (((e : String) → c.runtime_error ≡ some e → is_text e ≡ false)
          × (classify_completed reads_float c m report ≡ some r))
unfolding parse_capture
capture_cases reads_float c m report r h = elim (Option-cases c.runtime_error) [
  | inl e ↦ inr ((λ t q. cc), ground arith)
  | inr (t, e) ↦ elim (Bool-cases (is_text t)) [
    | inl full ↦ inl (ground arith)
    | inr empty ↦ inr ((λ s q. ground arith), ground arith)
  ]
]

-- A decision comes from the report parser, on a run that went to its end.
decided :
    (reads_float : String → Bool) (c : ExecutionCapture) (m : VerifierManifest)
    (report : Option ReportBytes) (r : ParsedOutcome)
    → parse_capture reads_float c m report ≡ some r
    → ((r.evaluation_validity ≡ Validity.invalid)
        × ((r.outcome ≡ Outcome.invalid_evaluation) ⊎ (r.outcome ≡ Outcome.error)))
      ⊎ (RanToEnd c m
          × (q : ParsedOutcome) × (parse reads_float report m c ≡ some q)
          × (r ≡ with_evidence c q))
decided reads_float c m report r h = elim (capture_cases reads_float c m report r h) [
  | inl stopped ↦ inl stopped
  | inr (quiet, later) ↦ elim (completed_cases reads_float c m report r later) [
    | inl (v, o) ↦ inl (v, inl o)
    | inr (b, cancel, time, oom, cut, known, q, e, same) ↦ inr (
      record {
        no_error = quiet;
        built = b;
        not_cancelled = cancel;
        in_time = time;
        in_memory = oom;
        not_truncated = cut;
        known_parser = known;
      },
      q,
      e,
      same,
    )
  ]
]

graded :
    (reads_float : String → Bool) (c : ExecutionCapture) (m : VerifierManifest)
    (report : Option ReportBytes) (r : ParsedOutcome)
    → parse_capture reads_float c m report ≡ some r
    → IsGraded r
graded reads_float c m report r h = elim (decided reads_float c m report r h) [
  | inl stopped ↦ inr stopped
  | inr (ran, q, e, same) ↦
      let g = parse-IsGraded reads_float report m c q e in
      let s = with_evidence-same c q in
      let o : r.outcome ≡ q.outcome = ap (λ (x : ParsedOutcome). x.outcome) same ∙ s.0 in
      let v : r.evaluation_validity ≡ q.evaluation_validity =
        ap (λ (x : ParsedOutcome). x.evaluation_validity) same ∙ s.1 in
      ground arith
]

-- Whatever `parse_capture` answers, an attempt with this outcome and validity passes the CHECK
-- constraint of the attempts table as an authoritative row, so a commit is not refused for it.
pub parse_capture-check_row :
    (reads_float : String → Bool) (c : ExecutionCapture) (m : VerifierManifest)
    (report : Option ReportBytes) (r : ParsedOutcome)
    → parse_capture reads_float c m report ≡ some r
    → check_row (some r.outcome) r.evaluation_validity Disposition.authoritative ≡ true
unfolding check_row
parse_capture-check_row reads_float c m report r h =
    ground (arith, graded reads_float c m report r h)

-- If `parse_capture` answers `accept`, the run had no runtime error, was built if it had a build,
-- was not cancelled, timed out, killed for memory or truncated, and its manifest names the pytest
-- parser. The report that was given is an object, and its results, one for each entry of `tests` in
-- their order, with the name and the status that the entry says, are those of the report that is
-- kept; and they earn the acceptance: there is one, none failed, skips are permitted, required tests
-- passed, the collection is the expected one with the same multiplicities (if one is expected), and
-- no nonzero exit.
pub parse_capture-accept :
    (reads_float : String → Bool) (c : ExecutionCapture) (m : VerifierManifest)
    (report : Option ReportBytes) (r : ParsedOutcome)
    → parse_capture reads_float c m report ≡ some r
    → r.outcome ≡ Outcome.accept
    → RanToEnd c m
      × (rs : List TestResult) × ReadsReport report rs
      × (r.report ≡ some (report_of rs))
      × Earned rs m c
parse_capture-accept reads_float c m report r h accepts =
    elim (decided reads_float c m report r h) [
      | inl stopped ↦ ground arith
      | inr (ran, q, e, same) ↦
          let s = with_evidence-same c q in
          let o : q.outcome ≡ Outcome.accept =
            sym s.0 ∙ sym (ap (λ (x : ParsedOutcome). x.outcome) same) ∙ accepts in
          let (rs, read, kept, earned) =
            parse-holds report
              (λ x.
                x.outcome ≡ Outcome.accept
                → (rs : List TestResult) × ReadsReport report rs
                  × (x.report ≡ some (report_of rs))
                  × Earned rs m c)
              m c (λ code bad. cc)
              (λ rs flag read accepted.
                let (f, k, w) = judge-accept rs flag m c accepted in (rs, read, k, w))
              reads_float q e o in
          (ran, rs, read, ap (λ (x : ParsedOutcome). x.report) same ∙ s.2 ∙ kept, earned)
    ]
