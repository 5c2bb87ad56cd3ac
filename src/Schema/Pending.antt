-- ===== src/Schema/Pending.antt =====
-- Which migrations are pending, before and after some of them are recorded.
use verifier_ci.Prelude.{
  ℕ, ◌≡◌, inl, inr, refl, sym, subst, ◌∙◌, true, false, Option, none, some, List, [], ◌∷◌, ◌++◌,
  arith, ◌==◌, ==_refl, ==_iff, Option-cases, Bool-cases,
}
use verifier_ci.Prelude.Tables.{find_key-append_new, find_key-append_none}
use verifier_ci.Schema.Migrate.{
  MigrationFile, AppliedRow, Pending, find_applied, is_beyond, add_pending, pending_file, next_file,
  named_file, pending_of, row_of,
}

-- From the rows before to the rows after.
pub record Extends (target : Option ℕ) (rows rows' : List AppliedRow) : Type 0 where
  pub kept : (v : ℕ) (a : AppliedRow) → find_applied v rows ≡ some a → find_applied v rows' ≡ some a
  pub bounded :
      (v : ℕ) → is_beyond target v ≡ true → find_applied v rows ≡ none → find_applied v rows' ≡ none

pub Extends-refl : (target : Option ℕ) (rows : List AppliedRow) → Extends target rows rows
Extends-refl target rows = record { kept = λ v a h. h; bounded = λ v b h. h }

pub Extends-trans :
    (target : Option ℕ) (a b c : List AppliedRow)
    → Extends target a b
    → Extends target b c
    → Extends target a c
Extends-trans target a b c f g = record {
  kept = λ v x h. g.kept v x (f.kept v x h);
  bounded = λ v x h. g.bounded v x (f.bounded v x h);
}

abbrev pub row_key : AppliedRow → ℕ
row_key a = a.version

apart :
    (target : Option ℕ) (v w : ℕ)
    → is_beyond target v ≡ true
    → is_beyond target w ≡ false
    → (w == v) ≡ false
apart target v w b within = elim (Bool-cases (w == v)) [
  | inl same ↦ absurd (
      let e : w ≡ v = (==_iff w v).0 same in
      let c : is_beyond target w ≡ true = subst (λ x. is_beyond target x ≡ true) (sym e) b in cc)
  | inr differs ↦ differs
]

pub append-Extends :
    (target : Option ℕ) (row : AppliedRow) (rows : List AppliedRow)
    → is_beyond target row.version ≡ false
    → Extends target rows (rows ++ row ∷ [])
append-Extends target row rows within = record {
  kept = λ v a h. find_key-append_new row_key v rows row a h;
  bounded = λ v b h.
      let e = apart target v row.version b within in
      find_key-append_none row_key v rows row h ∙ rw e refl;
}

module _ {ℓ} {Script : Type ℓ} where
  abbrev pub AllRecorded : List AppliedRow → List (Pending Script) → Type 0
  AllRecorded rows [] = Unit
  AllRecorded rows (p ∷ ps) = (find_applied p.version rows ≡ some (row_of p)) × AllRecorded rows ps

  abbrev pub AllWithin : Option ℕ → List (Pending Script) → Type 0
  AllWithin target [] = Unit
  AllWithin target (p ∷ ps) = (is_beyond target p.version ≡ false) × AllWithin target ps

  add_pending-some :
      (p : Pending Script) (rest : Option (List (Pending Script))) (ps : List (Pending Script))
      → add_pending p rest ≡ some ps
      → (qs : List (Pending Script)) × (rest ≡ some qs) × (p ∷ qs ≡ ps)
  add_pending-some p none ps h = cc
  add_pending-some p (some qs) ps h = (qs, refl, cc)

  -- One file, whose version is read.
  named_file-again :
      (target : Option ℕ) (rows rows' : List AppliedRow) (f : MigrationFile Script)
      (version : Option ℕ) (rest rest' : Option (List (Pending Script)))
      (ps : List (Pending Script))
      → Extends target rows rows'
      → ((qs : List (Pending Script)) → rest ≡ some qs → AllRecorded rows' qs → rest' ≡ some [])
      → named_file target rows f version rest ≡ some ps
      → AllRecorded rows' ps
      → named_file target rows' f version rest' ≡ some []
  named_file-again target rows rows' f none rest rest' ps x later h all_in = later ps h all_in
  named_file-again target rows rows' f (some v) rest rest' ps x later h all_in =
      elim (Option-cases (find_applied v rows)) [
        | inr (a, e) ↦
            let h' = subst (λ o. next_file target f v o rest ≡ some ps) e h in
            subst (λ o. next_file target f v o rest' ≡ some []) (sym (x.kept v a e))
              (elim (Bool-cases (a.checksum == f.checksum)) [
                | inl same ↦ rw same (later ps (ground arith) all_in)
                | inr differs ↦ absurd (ground arith)
              ])
        | inl e ↦
            let h' = subst (λ o. next_file target f v o rest ≡ some ps) e h in
            elim (Bool-cases (is_beyond target v)) [
              | inl beyond ↦
                  subst (λ o. next_file target f v o rest' ≡ some []) (sym (x.bounded v beyond e))
                    (rw beyond refl)
              | inr within ↦
                  let (qs, there, same) =
                    add_pending-some (pending_file v f) rest ps (ground arith) in
                  let (first, others) = subst (AllRecorded rows') (sym same) all_in in
                  subst (λ o. next_file target f v o rest' ≡ some []) (sym first)
                    (rw (==_refl f.checksum) (later qs there others))
            ]
      ]

  pub nothing_pending :
      (target : Option ℕ) (rows rows' : List AppliedRow) (files : List (MigrationFile Script))
      (ps : List (Pending Script))
      → Extends target rows rows'
      → pending_of target rows files ≡ some ps
      → AllRecorded rows' ps
      → pending_of target rows' files ≡ some []
  unfolding pending_of
  nothing_pending target rows rows' [] ps x h all_in = refl
  nothing_pending target rows rows' (f ∷ files) ps x h all_in =
      named_file-again target rows rows' f f.version (pending_of target rows files)
        (pending_of target rows' files) ps x
        (λ qs e others. nothing_pending target rows rows' files qs x e others) h all_in

  named_file-Within :
      (target : Option ℕ) (rows : List AppliedRow) (f : MigrationFile Script) (version : Option ℕ)
      (rest : Option (List (Pending Script))) (ps : List (Pending Script))
      → ((qs : List (Pending Script)) → rest ≡ some qs → AllWithin target qs)
      → named_file target rows f version rest ≡ some ps
      → AllWithin target ps
  named_file-Within target rows f none rest ps later h = later ps h
  named_file-Within target rows f (some v) rest ps later h =
      elim (Option-cases (find_applied v rows)) [
        | inr (a, e) ↦
            let h' = subst (λ o. next_file target f v o rest ≡ some ps) e h in
            later ps (ground arith)
        | inl e ↦
            let h' = subst (λ o. next_file target f v o rest ≡ some ps) e h in
            elim (Bool-cases (is_beyond target v)) [
              | inl beyond ↦
                  let empty : ◌≡◌ {A = Option (List (Pending Script))} (some []) (some ps) =
                    ground arith in
                  nothing_Within ps empty
              | inr within ↦
                  let (qs, there, same) =
                    add_pending-some (pending_file v f) rest ps (ground arith) in
                  subst (AllWithin target) same (within, later qs there)
            ]
      ]
    where
      nothing_Within :
          (ps : List (Pending Script))
          → ◌≡◌ {A = Option (List (Pending Script))} (some []) (some ps)
          → AllWithin target ps
      nothing_Within [] e = tt
      nothing_Within (p ∷ ps) e = cc

  pub pending_of-Within :
      (target : Option ℕ) (rows : List AppliedRow) (files : List (MigrationFile Script))
      (ps : List (Pending Script))
      → pending_of target rows files ≡ some ps
      → AllWithin target ps
  unfolding pending_of
  pending_of-Within target rows [] [] h = tt
  pending_of-Within target rows [] (p ∷ ps) h = cc
  pending_of-Within target rows (f ∷ files) ps h =
      named_file-Within target rows f f.version (pending_of target rows files) ps
        (λ qs e. pending_of-Within target rows files qs e) h
