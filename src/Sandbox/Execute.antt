-- ===== src/Sandbox/Execute.antt =====
-- `execute`: how the streams of a process are captured, the report is digested and the capture is
-- made. What the process did, the clock and SHA-256 are parameters. A stream is the list of the
-- chunks that its reader takes; an empty chunk, an OSError or the end of the five seconds ends it.
use verifier_ci.Prelude.{
  ℕ, zero, suc, ◌+◌, ◌-◌, Bool, true, false, ◌||◌, Option, none, some, List, [], ◌∷◌, ◌++◌, String,
  if◌then◌else◌, ltb, leb, length, is_empty, or_default,
}
use verifier_ci.Prelude.Int.{ℤ, negsuc}
use verifier_ci.Models.Job.{Key, Job}
use verifier_ci.Models.Capture.{ExecutionCapture}
use verifier_ci.Artifacts.Disk.{Bytes}

-- How the process ended. A launch that fails starts no reader.
pub data Process : Type 0 where
  launch_failed : String → Process
  exited : ℤ → Process
  overran : Process

-- A buffer, and whether something was left out.
pub record Captured : Type 0 where
  pub bytes : Bytes
  pub cut : Bool

abbrev pub captured : Bytes → Bool → Captured
captured b t = record { bytes = b; cut = t }

-- `xs[:n]`
abbrev pub take : ℕ → Bytes → Bytes
take zero xs = []
take (suc n) [] = []
take (suc n) (x ∷ xs) = x ∷ take n xs

abbrev pub drop : ℕ → Bytes → Bytes
drop zero xs = xs
drop (suc n) [] = []
drop (suc n) (x ∷ xs) = drop n xs

-- The body of the loop of `_reader`. The buffer is never above the cap, so that `remaining` is not
-- negative.
abbrev pub read_chunk : ℕ → Captured → Bytes → Captured
read_chunk limit c chunk =
    let remaining = limit - length c.bytes in
    if ltb 0 remaining
    then captured (c.bytes ++ take remaining chunk) (c.cut || ltb remaining (length chunk))
    else captured c.bytes true

-- `_reader`
unfoldable pub read_stream : ℕ → Captured → List Bytes → Captured
read_stream limit c [] = c
read_stream limit c (chunk ∷ chunks) = elim (is_empty chunk) [
  | true ↦ c
  | false ↦ read_stream limit (read_chunk limit c chunk) chunks
]

-- "Cap captured stream sizes"
abbrev pub cap_stream : ℕ → Captured → Captured
cap_stream limit c = if ltb limit (length c.bytes) then captured (take limit c.bytes) true else c

abbrev pub min : ℕ → ℕ → ℕ
min a b = if leb a b then a else b

-- The loop over the report file: what was read, and the rest of the file. The fuel is one more than
-- the bytes of the file, and each round but the last reads one at least.
unfoldable pub read_report : ℕ → ℕ → Bytes → Bytes → Bytes
read_report limit zero got rest = got
read_report limit (suc fuel) got rest =
    let n = min 8_192 (limit - length got) in
    elim (is_empty (take n rest)) [
      | true ↦ got
      | false ↦ elim (leb limit (length (got ++ take n rest))) [
        | true ↦ got ++ take n rest
        | false ↦ read_report limit fuel (got ++ take n rest) (drop n rest)
      ]
    ]

pub record Run : Type 0 where
  pub process : Process
  pub stdout : List Bytes
  pub stderr : List Bytes
  pub report : Option Bytes
  pub has_capture_dir : Bool
  pub elapsed : ℕ
  pub one_cpu : ℕ
  pub unknown : Key

-- The capture, and the files `stdout.log` and `stderr.log` where they are written.
pub record Execution : Type 0 where
  pub capture : ExecutionCapture
  pub stdout_log : Option Bytes
  pub stderr_log : Option Bytes

abbrev pub stream_of : ℕ → Process → List Bytes → Captured
stream_of limit (launch_failed _) chunks = captured [] false
stream_of limit (exited _) chunks = cap_stream limit (read_stream limit (captured [] false) chunks)
stream_of limit overran chunks = cap_stream limit (read_stream limit (captured [] false) chunks)

abbrev pub exit_code_of : Process → ℤ
exit_code_of (launch_failed _) = negsuc 0
exit_code_of (exited code) = code
exit_code_of overran = negsuc 0

abbrev pub has_overrun : Process → Bool
has_overrun overran = true
has_overrun _ = false

abbrev pub runtime_error_of : Process → Option String
runtime_error_of (launch_failed message) = some message
runtime_error_of (exited _) = none
runtime_error_of overran = none

abbrev pub report_exceeds : ℕ → Option Bytes → Bool
report_exceeds limit none = false
report_exceeds limit (some content) = ltb limit (length content)

abbrev pub log_of : Bool → Bytes → Option Bytes
log_of has_dir [] = none
log_of has_dir (b ∷ bs) = if has_dir then some (b ∷ bs) else none

module _ (hash : Bytes → Key) where
  -- `hashlib.sha256(…).hexdigest() if … else None`
  abbrev pub hash_of : Bytes → Option Key
  hash_of [] = none
  hash_of (b ∷ bs) = some (hash (b ∷ bs))

  unfoldable pub report_digest_of : ℕ → Option Bytes → Option Key
  unfolding read_report
  report_digest_of limit none = none
  report_digest_of limit (some content) =
      some (hash (read_report limit (suc (length content)) [] content))

  unfoldable pub execute : ℕ → Job → Run → Execution
  unfolding read_stream report_digest_of
  execute limit job r =
      let out = stream_of limit r.process r.stdout in
      let err = stream_of limit r.process r.stderr in
      record {
        capture = record {
          attempt_id = or_default job.attempt_id r.unknown;
          exit_code = some (exit_code_of r.process);
          timed_out = has_overrun r.process;
          oom_killed = some false;
          cancelled = false;
          build_exit_code = none;
          stdout_hash = hash_of out.bytes;
          stderr_hash = hash_of err.bytes;
          report_digest = report_digest_of limit r.report;
          truncated = out.cut || err.cut || report_exceeds limit r.report;
          resources = record {
            duration = some r.elapsed;
            allocated_cpu = some r.one_cpu;
            cpu_seconds = some r.elapsed;
            peak_memory = none;
            model_usage = none;
            estimated_cost = none;
            pricing_version = none;
            bytes_written = some (length out.bytes + length err.bytes);
          };
          runtime_error = runtime_error_of r.process;
        };
        stdout_log = log_of r.has_capture_dir out.bytes;
        stderr_log = log_of r.has_capture_dir err.bytes;
      }
