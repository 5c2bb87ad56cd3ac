-- ===== src/Report/Scan.antt =====
-- The loop of `PytestReportParser.parse` over the `tests` array.
use verifier_ci.Prelude.{
  ℕ, ◌-◌, ◌^◌, Bool, true, false, ◌||◌, Option, none, some, List, [], ◌∷◌, String, if◌then◌else◌,
  str_eq, ltb,
}
use verifier_ci.Prelude.Int.{ℤ, pos, negsuc}
use verifier_ci.Prelude.Text.{lower_is, is_blank}
use verifier_ci.Models.Capture.{Value, Items, Fields, TestResult, TestStatus}

-- `d.get(key)` of the dictionary that an object becomes: of equal keys the last one counts.
unfoldable pub get_field : String → Fields → Option Value
get_field key Fields.end = none
get_field key (Fields.field k v rest) = elim (get_field key rest) [
  | some w ↦ some w
  | none ↦ if str_eq k key then some v else none
]

-- The least natural number that `float` refuses with OverflowError.
abbrev pub float_limit : ℕ
float_limit = 2 ^ 1024 - 2 ^ 970

-- What `float(value)` does: it converts, raises TypeError or ValueError, or raises OverflowError.
-- Whether a text reads as a float is left to `reads_float`.
pub data Conversion : Type 0 where
  converted refused overflows : Conversion

abbrev pub int_conversion : ℤ → Conversion
int_conversion (pos n) = if ltb n float_limit then Conversion.converted else Conversion.overflows
int_conversion (negsuc n) =
    if ltb n (float_limit - 1) then Conversion.converted else Conversion.overflows

unfoldable pub conversion : (String → Bool) → Value → Conversion
conversion reads_float Value.null = Conversion.refused
conversion reads_float (Value.boolean b) = Conversion.converted
conversion reads_float (Value.integer n) = int_conversion n
conversion reads_float (Value.float x) = Conversion.converted
conversion reads_float (Value.text s) =
    if reads_float s then Conversion.converted else Conversion.refused
conversion reads_float (Value.array xs) = Conversion.refused
conversion reads_float (Value.object fs) = Conversion.refused

-- `str(t.get("outcome", "failed")).lower()`, as far as it is compared: only a text can be `passed`
-- or `skipped`.
unfoldable pub status_of : Option Value → TestStatus
status_of (some (Value.text s)) =
    if lower_is s "passed"
    then TestStatus.passed
    else if lower_is s "skipped"
    then TestStatus.skipped
    else TestStatus.failed
status_of _ = TestStatus.failed

-- What one pass of the loop does: it returns a parser error at once, it raises, or it appends a
-- result and notes whether the duration was refused.
pub data Scanned {ℓ} (A : Type ℓ) : Type ℓ where
  malformed : Scanned A
  raises : Scanned A
  scanned : A → Bool → Scanned A

abbrev result : String → Option Value → Option Value → TestResult
result nodeid outcome duration = record {
  test_id = nodeid;
  status = status_of outcome;
  duration = duration;
  failure_digest = none;
}

abbrev pub with_duration :
    (String → Bool) → String → Option Value → Option Value → Scanned TestResult
with_duration reads_float nodeid outcome none = scanned (result nodeid outcome none) false
with_duration reads_float nodeid outcome (some Value.null) =
    scanned (result nodeid outcome none) false
with_duration reads_float nodeid outcome (some v) = elim (conversion reads_float v) [
  | Conversion.converted ↦ scanned (result nodeid outcome (some v)) false
  | Conversion.refused ↦ scanned (result nodeid outcome none) true
  | Conversion.overflows ↦ raises
]

abbrev pub read_fields : (String → Bool) → Fields → Option Value → Scanned TestResult
read_fields reads_float fs (some (Value.text nodeid)) =
    if is_blank nodeid
    then malformed
    else with_duration reads_float nodeid (get_field "outcome" fs) (get_field "duration" fs)
read_fields reads_float fs _ = malformed

unfoldable pub read_test : (String → Bool) → Value → Scanned TestResult
unfolding conversion
read_test reads_float (Value.object fs) = read_fields reads_float fs (get_field "nodeid" fs)
read_test reads_float _ = malformed

abbrev pub prepend : TestResult → Bool → Scanned (List TestResult) → Scanned (List TestResult)
prepend r bad malformed = malformed
prepend r bad raises = raises
prepend r bad (scanned rs later) = scanned (r ∷ rs) (bad || later)

-- The whole loop; the flag is `parser_error`.
unfoldable pub scan_tests : (String → Bool) → Items → Scanned (List TestResult)
unfolding read_test
scan_tests reads_float Items.nil = scanned [] false
scan_tests reads_float (Items.cons t ts) =
    let rest = scan_tests reads_float ts in
    elim (read_test reads_float t) [
      | malformed ↦ malformed
      | raises ↦ raises
      | scanned r bad ↦ prepend r bad rest
    ]
