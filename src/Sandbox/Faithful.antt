-- ===== src/Sandbox/Faithful.antt =====
-- What a run whose process was started leaves in its capture.
use verifier_ci.Prelude.{
  ℕ, suc, ◌+◌, ◌≡◌, refl, ap, ◌∙◌, Bool, true, false, ◌||◌, Option, none, some, List, [], arith,
  ltb, length,
}
use verifier_ci.Models.Job.{Key, Job}
use verifier_ci.Artifacts.Disk.{Bytes}
use verifier_ci.Sandbox.Execute.{
  Process, launch_failed, exited, overran, Captured, take, Run, Execution, stream_of,
  report_exceeds, hash_of, report_digest_of, execute,
}
use verifier_ci.Sandbox.Capture.{capture_of, stream_bytes, stream_of-capture_of, read_report-take}

abbrev pub has_started : Process → Bool
has_started (launch_failed _) = false
has_started (exited _) = true
has_started overran = true

started-capture_of :
    (limit : ℕ) (p : Process) (chunks : List Bytes)
    → has_started p ≡ true
    → stream_of limit p chunks ≡ capture_of limit (stream_bytes chunks)
started-capture_of limit (launch_failed m) chunks h = absurd (ground arith)
started-capture_of limit (exited code) chunks h = stream_of-capture_of limit chunks
started-capture_of limit overran chunks h = stream_of-capture_of limit chunks

abbrev pub digest_below : (Bytes → Key) → ℕ → Option Bytes → Option Key
digest_below hash limit none = none
digest_below hash limit (some content) = some (hash (take limit content))

-- The digests are those of the first bytes of the streams and of the report, up to the limit; the
-- capture is marked as truncated exactly if one of the three is longer; and the bytes that are kept of
-- the streams are counted.
pub record IsFaithful (hash : Bytes → Key) (limit : ℕ) (r : Run) (x : Execution) : Type 0 where
  pub stdout : x.capture.stdout_hash ≡ hash_of hash (take limit (stream_bytes r.stdout))
  pub stderr : x.capture.stderr_hash ≡ hash_of hash (take limit (stream_bytes r.stderr))
  pub report : x.capture.report_digest ≡ digest_below hash limit r.report
  pub truncated : x.capture.truncated ≡ (
      ltb limit (length (stream_bytes r.stdout))
      || ltb limit (length (stream_bytes r.stderr))
      || report_exceeds limit r.report)
  pub written :
      x.capture.resources.bytes_written
      ≡ some (
          length (take limit (stream_bytes r.stdout)) + length (take limit (stream_bytes r.stderr)))

digest_below-report :
    (hash : Bytes → Key) (limit : ℕ) (report : Option Bytes)
    → report_digest_of hash limit report ≡ digest_below hash limit report
unfolding report_digest_of
digest_below-report hash limit none = refl
digest_below-report hash limit (some content) =
    ap (λ (t : Bytes). some (hash t))
      (read_report-take limit (suc (length content)) [] content (omega arith) (omega arith)
        ∙ ap (λ (n : ℕ). take n content) (omega arith))

-- If the process of a run was started, then the digests of the capture are those of the first bytes of
-- the standard output, of the standard error and of the report, up to the limit; the capture is marked
-- as truncated if and only if one of the three is longer than the limit; and the bytes written that
-- it counts are those kept of the two streams.
pub execute-IsFaithful :
    (hash : Bytes → Key) (limit : ℕ) (job : Job) (r : Run)
    → has_started r.process ≡ true
    → IsFaithful hash limit r (execute hash limit job r)
unfolding execute
execute-IsFaithful hash limit job r h =
    let out = started-capture_of limit r.process r.stdout h in
    let err = started-capture_of limit r.process r.stderr h in
    record {
      stdout = ap (λ (c : Captured). hash_of hash c.bytes) out;
      stderr = ap (λ (c : Captured). hash_of hash c.bytes) err;
      report = digest_below-report hash limit r.report;
      truncated = cc (out, err);
      written = cc (out, err);
    }
