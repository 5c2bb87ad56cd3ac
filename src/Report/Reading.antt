-- ===== src/Report/Reading.antt =====
-- What the results of a report are, told from the document and not from the loop that reads it.
use verifier_ci.Prelude.{
  ◌≡◌, inl, inr, refl, sym, subst, Bool, true, false, Option, none, some, List, [], ◌∷◌, String,
  arith, Bool-cases,
}
use verifier_ci.Prelude.Text.{lower_is}
use verifier_ci.Models.Capture.{Value, Items, Fields, TestResult, TestStatus}
use verifier_ci.Report.Scan.{
  get_field, status_of, with_duration, read_fields, read_test, prepend, scan_tests, Scanned,
  malformed, raises, scanned,
}
use verifier_ci.Report.Parser.{ReportBytes}

-- The status of a test with this outcome: a text that is `passed` or `skipped` in lower case says so,
-- and anything else, a missing outcome included, says that the test failed.
pub data ReadAs : Option Value → TestStatus → Type 0 where
  as_passed :
      (s : String) → lower_is s "passed" ≡ true → ReadAs (some (Value.text s)) TestStatus.passed
  as_skipped :
      (s : String) → lower_is s "skipped" ≡ true → ReadAs (some (Value.text s)) TestStatus.skipped
  as_failed :
      (outcome : Option Value)
      → ((s : String)
          → outcome ≡ some (Value.text s)
          → (lower_is s "passed" ≡ false) × (lower_is s "skipped" ≡ false))
      → ReadAs outcome TestStatus.failed

-- The result of one entry of `tests`: an object that names the test and has an outcome.
abbrev pub ReadFrom : Value → TestResult → Type 0
ReadFrom v r =
    (fs : Fields) × (v ≡ Value.object fs)
    × (get_field "nodeid" fs ≡ some (Value.text r.test_id))
    × ReadAs (get_field "outcome" fs) r.status

-- One result for each entry, in their order.
pub data AllRead : Items → List TestResult → Type 0 where
  at_end : AllRead Items.nil []
  with_next :
      (v : Value) (ts : Items) (r : TestResult) (rs : List TestResult)
      → ReadFrom v r
      → AllRead ts rs
      → AllRead (Items.cons v ts) (r ∷ rs)

-- The results of a report: it is an object whose `tests`, if there are any, are an array.
pub data ReadsReport : Option ReportBytes → List TestResult → Type 0 where
  with_tests :
      (fs : Fields) (ts : Items) (rs : List TestResult)
      → get_field "tests" fs ≡ some (Value.array ts)
      → AllRead ts rs
      → ReadsReport (some (ReportBytes.document (Value.object fs))) rs
  without_tests :
      (fs : Fields)
      → get_field "tests" fs ≡ none
      → ReadsReport (some (ReportBytes.document (Value.object fs))) []

status_of-ReadAs : (outcome : Option Value) → ReadAs outcome (status_of outcome)
unfolding status_of
status_of-ReadAs none = as_failed none (λ s e. ground arith)
status_of-ReadAs (some (Value.text s)) = elim (Bool-cases (lower_is s "passed")) [
  | inl p ↦ rw p (as_passed s p)
  | inr p ↦ elim (Bool-cases (lower_is s "skipped")) [
    | inl k ↦ rw (p, k) (as_skipped s k)
    | inr k ↦ rw (p, k) (as_failed (some (Value.text s)) (λ t e. ground (arith, p, k)))
  ]
]
status_of-ReadAs (some Value.null) = as_failed _ (λ s e. ground arith)
status_of-ReadAs (some (Value.boolean b)) = as_failed _ (λ s e. ground arith)
status_of-ReadAs (some (Value.integer n)) = as_failed _ (λ s e. ground arith)
status_of-ReadAs (some (Value.float x)) = as_failed _ (λ s e. ground arith)
status_of-ReadAs (some (Value.array xs)) = as_failed _ (λ s e. ground arith)
status_of-ReadAs (some (Value.object fs)) = as_failed _ (λ s e. ground arith)

module _ (reads_float : String → Bool) where
  with_duration-same :
      (nodeid : String) (outcome duration : Option Value) (r : TestResult) (bad : Bool)
      → with_duration reads_float nodeid outcome duration ≡ scanned r bad
      → (r.test_id ≡ nodeid) × (r.status ≡ status_of outcome)
  with_duration-same nodeid outcome none r bad h = ground arith
  with_duration-same nodeid outcome (some Value.null) r bad h = ground arith
  with_duration-same nodeid outcome (some v) r bad h = ground arith

  fields-ReadFrom :
      (fs : Fields) (found : Option Value) (r : TestResult) (bad : Bool)
      → get_field "nodeid" fs ≡ found
      → read_fields reads_float fs found ≡ scanned r bad
      → ReadFrom (Value.object fs) r
  fields-ReadFrom fs (some (Value.text nodeid)) r bad e h =
      let timed : with_duration reads_float nodeid (get_field "outcome" fs)
            (get_field "duration" fs)
          ≡ scanned r bad =
        ground arith in
      let (id, status) = with_duration-same nodeid _ _ r bad timed in
      (
        fs,
        refl,
        subst (λ n. get_field "nodeid" fs ≡ some (Value.text n)) (sym id) e,
        subst (ReadAs (get_field "outcome" fs)) (sym status)
            (status_of-ReadAs (get_field "outcome" fs)),
      )
  fields-ReadFrom fs _ r bad e h = ground arith

  read_test-ReadFrom :
      (v : Value) (r : TestResult) (bad : Bool)
      → read_test reads_float v ≡ scanned r bad
      → ReadFrom v r
  unfolding read_test
  read_test-ReadFrom (Value.object fs) r bad h =
      fields-ReadFrom fs (get_field "nodeid" fs) r bad refl h
  read_test-ReadFrom _ r bad h = ground arith

  -- Without an entry there is no result.
  none_read :
      (rs : List TestResult) (bad : Bool) → scanned [] false ≡ scanned rs bad → AllRead Items.nil rs
  none_read rs bad h = subst (AllRead Items.nil) (ground arith) at_end

  prepended :
      (v : Value) (ts : Items) (r : TestResult) (bad : Bool) (rest : Scanned (List TestResult))
      (rs : List TestResult) (flag : Bool)
      → ReadFrom v r
      → ((later : List TestResult) (b : Bool) → rest ≡ scanned later b → AllRead ts later)
      → prepend r bad rest ≡ scanned rs flag
      → AllRead (Items.cons v ts) rs
  prepended v ts r bad malformed rs flag one all h = ground arith
  prepended v ts r bad raises rs flag one all h = ground arith
  prepended v ts r bad (scanned later b) rs flag one all h =
      subst (AllRead (Items.cons v ts)) (ground arith)
        (with_next v ts r later one (all later b refl))

  entry_read :
      (v : Value) (ts : Items) (found : Scanned TestResult) (rest : Scanned (List TestResult))
      (rs : List TestResult) (flag : Bool)
      → read_test reads_float v ≡ found
      → ((later : List TestResult) (b : Bool) → rest ≡ scanned later b → AllRead ts later)
      → (elim found as (λ _. Scanned (List TestResult)) [
        | malformed ↦ malformed
        | raises ↦ raises
        | scanned r bad ↦ prepend r bad rest
      ])
        ≡ scanned rs flag
      → AllRead (Items.cons v ts) rs
  entry_read v ts malformed rest rs flag e all h = ground arith
  entry_read v ts raises rest rs flag e all h = ground arith
  entry_read v ts (scanned r bad) rest rs flag e all h =
      prepended v ts r bad rest rs flag (read_test-ReadFrom v r bad e) all h

  pub scan_tests-AllRead :
      (ts : Items) (rs : List TestResult) (bad : Bool)
      → scan_tests reads_float ts ≡ scanned rs bad
      → AllRead ts rs
  unfolding scan_tests
  scan_tests-AllRead Items.nil rs bad h = none_read rs bad h
  scan_tests-AllRead (Items.cons v ts) rs bad h =
      entry_read v ts (read_test reads_float v) (scan_tests reads_float ts) rs bad refl
        (λ later b e. scan_tests-AllRead ts later b e) h
