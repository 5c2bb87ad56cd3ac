-- ===== src/Outcomes/Precedence.antt =====
-- What an outcome of `parse_capture` says of the capture.
use verifier_ci.Prelude.{
  ◌≡◌, refl, sym, subst, ◌⊎◌, Bool, true, false, Option, none, some, List, [], ◌∷◌, String, arith,
  str_eq,
}
use verifier_ci.Prelude.Text.{is_text}
use verifier_ci.Models.Attempt.{Outcome, Validity}
use verifier_ci.Models.Capture.{
  ExecutionCapture, Value, Items, Fields, TestResult, ParsedOutcome, VerifierManifest,
}
use verifier_ci.Report.Scan.{scan_tests, get_field, Scanned, malformed, raises, scanned}
use verifier_ci.Report.Judge.{judge, exit_is_nonzero, invalid_report}
use verifier_ci.Report.Parser.{
  ReportBytes, parse, parser_id, finish, parse_items, parse_document, tests_of,
}
use verifier_ci.Report.Reading.{
  AllRead, at_end, ReadsReport, with_tests, without_tests, scan_tests-AllRead,
}
use verifier_ci.Outcomes.Classify.{classify_completed, is_true, with_evidence}

-- The validity of an outcome says whether it is a decision; a cell's `flaky` is no outcome here.
abbrev pub IsGraded : ParsedOutcome → Type 0
IsGraded r =
    ((r.evaluation_validity ≡ Validity.valid)
      × ((r.outcome ≡ Outcome.accept) ⊎ (r.outcome ≡ Outcome.reject)))
    ⊎ ((r.evaluation_validity ≡ Validity.invalid)
        × ((r.outcome ≡ Outcome.invalid_evaluation) ⊎ (r.outcome ≡ Outcome.error)))

judge-IsGraded :
    (rs : List TestResult) (e : Bool) (m : VerifierManifest) (c : ExecutionCapture)
    → IsGraded (judge rs e m c)
unfolding judge
judge-IsGraded rs e m c = ground arith

same_answer : {a b : ParsedOutcome} → some a ≡ some b → a ≡ b
same_answer h = cc

-- A rule for the answers of `parse`: what holds of its own failures and of every judgement of the
-- results of the report holds of every answer.
module _ (report : Option ReportBytes) (P : ParsedOutcome → Type 0) (m : VerifierManifest)
    (c : ExecutionCapture) (failed : (code : Option String) → P (invalid_report code none))
    (judged : (rs : List TestResult) (e : Bool) → ReadsReport report rs → P (judge rs e m c)) where
  finish-holds :
      (s : Scanned (List TestResult)) (r : ParsedOutcome)
      → ((rs : List TestResult) (e : Bool) → s ≡ scanned rs e → ReadsReport report rs)
      → finish m c s ≡ some r
      → P r
  finish-holds malformed r all h = subst P (same_answer h) (failed _)
  finish-holds raises r all h = cc
  finish-holds (scanned rs e) r all h = subst P (same_answer h) (judged rs e (all rs e refl))

  items-holds :
      (reads_float : String → Bool) (fs : Fields) (found : Option Value) (r : ParsedOutcome)
      → report ≡ some (ReportBytes.document (Value.object fs))
      → get_field "tests" fs ≡ found
      → parse_items reads_float m c (tests_of found) ≡ some r
      → P r
  items-holds reads_float fs none r at e h =
      finish-holds (scan_tests reads_float Items.nil) r
        (λ rs b f.
          subst (λ x. ReadsReport x rs) (sym at)
            (no_tests rs (scan_tests-AllRead reads_float Items.nil rs b f)))
        h
    where
      no_tests :
          (rs : List TestResult)
          → AllRead Items.nil rs
          → ReadsReport (some (ReportBytes.document (Value.object fs))) rs
      no_tests [] at_end = without_tests fs e
      no_tests (x ∷ rs) read = elim read [ ]
  items-holds reads_float fs (some (Value.array ts)) r at e h =
      finish-holds (scan_tests reads_float ts) r
        (λ rs b f.
          subst (λ x. ReadsReport x rs) (sym at)
            (with_tests fs ts rs e (scan_tests-AllRead reads_float ts rs b f)))
        h
  items-holds reads_float fs (some _) r at e h = subst P (same_answer h) (failed _)

  document-holds :
      (reads_float : String → Bool) (v : Value) (r : ParsedOutcome)
      → report ≡ some (ReportBytes.document v)
      → parse_document reads_float m c v ≡ some r
      → P r
  document-holds reads_float (Value.object fs) r at h =
      items-holds reads_float fs (get_field "tests" fs) r at refl h
  document-holds reads_float _ r at h = subst P (same_answer h) (failed _)

  report-holds :
      (reads_float : String → Bool) (b : Option ReportBytes) (r : ParsedOutcome)
      → report ≡ b
      → parse reads_float b m c ≡ some r
      → P r
  unfolding parse
  report-holds reads_float none r at h = subst P (same_answer h) (failed _)
  report-holds reads_float (some ReportBytes.blank) r at h = subst P (same_answer h) (failed _)
  report-holds reads_float (some ReportBytes.undecodable) r at h =
      subst P (same_answer h) (failed _)
  report-holds reads_float (some (ReportBytes.document v)) r at h =
      document-holds reads_float v r at h

  pub parse-holds :
      (reads_float : String → Bool) (r : ParsedOutcome)
      → parse reads_float report m c ≡ some r
      → P r
  parse-holds reads_float r h = report-holds reads_float report r refl h

pub parse-IsGraded :
    (reads_float : String → Bool) (report : Option ReportBytes) (m : VerifierManifest)
    (c : ExecutionCapture) (r : ParsedOutcome)
    → parse reads_float report m c ≡ some r
    → IsGraded r
parse-IsGraded reads_float report m c =
    parse-holds report IsGraded m c (λ code. ground arith) (λ rs e read. judge-IsGraded rs e m c)
      reads_float

-- What a decision presupposes of the run.
pub record RanToEnd (c : ExecutionCapture) (m : VerifierManifest) : Type 0 where
  pub no_error : (e : String) → c.runtime_error ≡ some e → is_text e ≡ false
  pub built : exit_is_nonzero c.build_exit_code ≡ false
  pub not_cancelled : c.cancelled ≡ false
  pub in_time : c.timed_out ≡ false
  pub in_memory : is_true c.oom_killed ≡ false
  pub not_truncated : c.truncated ≡ false
  pub known_parser : str_eq m.parser_id parser_id ≡ true

-- The answers of the steps that follow a run without runtime error.
pub completed_cases :
    (reads_float : String → Bool) (c : ExecutionCapture) (m : VerifierManifest)
    (report : Option ReportBytes) (r : ParsedOutcome)
    → classify_completed reads_float c m report ≡ some r
    → ((r.evaluation_validity ≡ Validity.invalid) × (r.outcome ≡ Outcome.invalid_evaluation))
      ⊎ ((exit_is_nonzero c.build_exit_code ≡ false)
          × (c.cancelled ≡ false)
          × (c.timed_out ≡ false)
          × (is_true c.oom_killed ≡ false)
          × (c.truncated ≡ false)
          × (str_eq m.parser_id parser_id ≡ true)
          × (q : ParsedOutcome) × (parse reads_float report m c ≡ some q)
          × (r ≡ with_evidence c q))
unfolding classify_completed
completed_cases reads_float c m report r h = ground arith

pub with_evidence-same :
    (c : ExecutionCapture) (q : ParsedOutcome)
    → ((with_evidence c q).outcome ≡ q.outcome)
      × ((with_evidence c q).evaluation_validity ≡ q.evaluation_validity)
      × ((with_evidence c q).report ≡ q.report)
unfolding with_evidence
with_evidence-same c q = ground arith
