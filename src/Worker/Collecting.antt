-- ===== src/Worker/Collecting.antt =====
-- What a worker has stored and registered when step 5 of `run_one` returns.
use verifier_ci.Prelude.{◌≡◌, refl, ap, subst, true, Option, none, some, [], ◌∷◌, String, is_some}
use verifier_ci.Errors.{Fallible, returned}
use verifier_ci.Models.Job.{Key}
use verifier_ci.Artifacts.Disk.{Bytes, is_valid_digest}
use verifier_ci.Worker.State.{Host, Shared, then_with, store_output}
use verifier_ci.Worker.Running.{Ran}
use verifier_ci.Worker.Evaluate.{Collected, collect, store_log, store_report, report_read}
use verifier_ci.Worker.Evidence.{
  then_with-returned, IsKept, Stores, Stores-refl, Stores-trans, store_output-Stores,
}

abbrev collected : Option Key → Option Key → Option Key → Ran → Collected
collected out err report r = record {
  stdout_hash = out;
  stderr_hash = err;
  report_digest = report;
  report_bytes = report_read r.report;
}

module _ (h : Host) where
  -- A digest that is there is kept.
  abbrev pub OptionKept : Shared → Option Key → Type 0
  OptionKept s none = Unit
  OptionKept s (some d) = IsKept h.key_of s d

  later : (s s' : Shared) (d : Option Key) → Stores h s s' → OptionKept s d → OptionKept s' d
  later s s' none st k = tt
  later s s' (some d) st k = st.kept d k

  module _ (valid : (content : Bytes) → is_valid_digest (h.hash content) ≡ true) where
    nothing_stored :
        (s s' : Shared) (d : Option Key)
        → ◌≡◌ {A = Fallible (Option Key) × Shared} (returned none, s) (returned d, s')
        → Stores h s s' × OptionKept s' d
    nothing_stored s s' none e = (
      subst (Stores h s) (ap (λ (x : Fallible (Option Key) × Shared). x.1) e) (Stores-refl h s),
      tt,
    )
    nothing_stored s s' (some d) e = cc

    stored_option :
        (kind media_type : String) (content : Bytes) (s s' : Shared) (d : Option Key)
        → then_with (store_output h kind media_type content s) (λ k mid. (returned (some k), mid))
          ≡ (returned d, s')
        → Stores h s s' × OptionKept s' d
    stored_option kind media_type content s s' d e =
        let (k, mid, put, last) =
          then_with-returned (store_output h kind media_type content s)
            (λ k mid. (returned (some k), mid)) d s' e in
        let (st, kept) = store_output-Stores h kind media_type content s mid k valid put in
        let same : mid ≡ s' = ap (λ (x : Fallible (Option Key) × Shared). x.1) last in
        let value : some k ≡ d = cc in
        subst (λ (x : Shared). Stores h s x × OptionKept x d) same
          (st, subst (OptionKept mid) value kept)

    store_log-Stores :
        (kind : String) (log : Option Bytes) (s s' : Shared) (d : Option Key)
        → store_log h kind log s ≡ (returned d, s')
        → Stores h s s' × OptionKept s' d
    unfolding store_log
    store_log-Stores kind none s s' d e = nothing_stored s s' d e
    store_log-Stores kind (some []) s s' d e = nothing_stored s s' d e
    store_log-Stores kind (some (b ∷ bs)) s s' d e =
        stored_option kind "application/octet-stream" (b ∷ bs) s s' d e

    store_report-Stores :
        (report : Option Bytes) (s s' : Shared) (d : Option Key)
        → store_report h report s ≡ (returned d, s')
        → Stores h s s' × OptionKept s' d × (is_some d ≡ is_some report)
    unfolding store_report
    store_report-Stores none s s' none e =
        let (st, kept) = nothing_stored s s' none e in (st, kept, refl)
    store_report-Stores none s s' (some d) e = cc
    store_report-Stores (some content) s s' (some d) e =
        let (st, kept) = stored_option "report" "application/json" content s s' (some d) e in
        (st, kept, refl)
    store_report-Stores (some content) s s' none e =
        let (k, mid, put, last) =
          then_with-returned (store_output h "report" "application/json" content s)
            (λ k mid. (returned (some k), mid)) none s' e in
        cc

    -- What step 5 has stored when it returns.
    pub collect-Stores :
        (r : Ran) (s s' : Shared) (k : Collected)
        → collect h r s ≡ (returned k, s')
        → Stores h s s'
          × OptionKept s' k.stdout_hash
          × OptionKept s' k.stderr_hash
          × OptionKept s' k.report_digest
          × (k.report_bytes ≡ report_read r.report)
          × (is_some k.report_digest ≡ is_some k.report_bytes)
    unfolding collect
    collect-Stores r s s' k e =
        let (out, s1, e1, f1) = then_with-returned (store_log h "stdout" r.stdout_log s) _ k s' e in
        let (err, s2, e2, f2) =
          then_with-returned (store_log h "stderr" r.stderr_log s1) _ k s' f1 in
        let (report, s3, e3, f3) =
          then_with-returned (store_report h (report_read r.report) s2) _ k s' f2 in
        let (st1, k1) = store_log-Stores "stdout" r.stdout_log s s1 out e1 in
        let (st2, k2) = store_log-Stores "stderr" r.stderr_log s1 s2 err e2 in
        let (st3, k3, filled) = store_report-Stores (report_read r.report) s2 s3 report e3 in
        let same : s3 ≡ s' = ap (λ (x : Fallible Collected × Shared). x.1) f3 in
        let last : collected out err report r ≡ k = cc in
        subst
          (λ (x : Shared).
            Stores h s x
            × OptionKept x k.stdout_hash
            × OptionKept x k.stderr_hash
            × OptionKept x k.report_digest
            × (k.report_bytes ≡ report_read r.report)
            × (is_some k.report_digest ≡ is_some k.report_bytes))
          same
          (subst
            (λ (c : Collected).
              Stores h s s3
              × OptionKept s3 c.stdout_hash
              × OptionKept s3 c.stderr_hash
              × OptionKept s3 c.report_digest
              × (c.report_bytes ≡ report_read r.report)
              × (is_some c.report_digest ≡ is_some c.report_bytes))
            last
            (
              Stores-trans h s s2 s3 (Stores-trans h s s1 s2 st1 st2) st3,
              later s2 s3 out st3 (later s1 s2 out st2 k1),
              later s2 s3 err st3 k2,
              k3,
              refl,
              filled,
            ))
