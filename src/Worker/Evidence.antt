-- ===== src/Worker/Evidence.antt =====
-- What storing one output of a run keeps: worker.py, `_register_artifact` after `put_bytes`.
use verifier_ci.Prelude.{
  ◌≡◌, inl, inr, refl, sym, ap, subst, ◌∙◌, true, List, [], ◌∷◌, ◌++◌, String, arith, ==_refl, ltb,
  length, contains, Bool-cases, eq_refl,
}
use verifier_ci.Errors.{Fallible, returned, failed}
use verifier_ci.Models.Job.{Key}
use verifier_ci.Queue.Database.{Database}
use verifier_ci.Artifacts.Disk.{
  Bytes, Artifact, World, Reply, done, raised, os_error, is_valid_digest,
}
use verifier_ci.Artifacts.Put.{PutRequest, put_stream, put_bytes}
use verifier_ci.Artifacts.Read.{exists}
use verifier_ci.Artifacts.Storing.{put_stream-stored, content_of}
use verifier_ci.Artifacts.Addressing.{
  put_stream-exists, IsAddressed, StoreStep, StoreStep-IsAddressed,
}
use verifier_ci.Worker.State.{
  Host, Shared, then_with, store_output, output_request, register, registered, as_fallible,
  add_digest,
}

pub then_with-returned {ℓ κ} :
    {A : Type ℓ} {B : Type κ} (m : Fallible A × Shared) (f : A → Shared → Fallible B × Shared)
    (b : B) (s' : Shared)
    → then_with m f ≡ (returned b, s')
    → (a : A) × (mid : Shared) × (m ≡ (returned a, mid)) × (f a mid ≡ (returned b, s'))
then_with-returned (returned a, mid) f b s' h = (a, mid, refl, h)
then_with-returned (failed e, mid) f b s' h = cc

-- The number stands for a digest that exists in the store and in the table of artifacts.
abbrev pub IsKept : (String → Key) → Shared → Key → Type 0
IsKept key_of s d =
    (digest : String) × (d ≡ key_of digest)
    × (exists digest s.store ≡ true)
    × (contains d s.db.artifacts ≡ true)

-- From before an output is stored to after it: the rest of the database is the same, files stand
-- under their digests, and what was kept is kept.
pub record Stores (h : Host) (s s' : Shared) : Type 0 where
  pub same_db : s'.db ≡ record s.db { artifacts = s'.db.artifacts }
  pub addressed : IsAddressed h.hash s.store → IsAddressed h.hash s'.store
  pub kept : (d : Key) → IsKept h.key_of s d → IsKept h.key_of s' d

pub Stores-refl : (h : Host) (s : Shared) → Stores h s s
Stores-refl h s = record { same_db = refl; addressed = λ a. a; kept = λ d k. k }

pub Stores-trans : (h : Host) (a b c : Shared) → Stores h a b → Stores h b c → Stores h a c
Stores-trans h a b c f g = record {
  same_db = g.same_db ∙ ap (λ (d : Database). record d { artifacts = c.db.artifacts }) f.same_db;
  addressed = λ x. g.addressed (f.addressed x);
  kept = λ d k. g.kept d (f.kept d k);
}

contains-added :
    (d e : Key) (db : Database)
    → contains e db.artifacts ≡ true
    → contains e (add_digest d db).artifacts ≡ true
contains-added d e db h = elim (Bool-cases (contains d db.artifacts)) [
  | inl there ↦ rw there h
  | inr new ↦ rw new (appended db.artifacts h)
]
  where
    appended : (xs : List Key) → contains e xs ≡ true → contains e (xs ++ d ∷ []) ≡ true
    appended [] k = absurd (ground arith)
    appended (x ∷ xs) k = ground (arith, appended xs)

contains-new : (d : Key) (db : Database) → contains d (add_digest d db).artifacts ≡ true
contains-new d db = elim (Bool-cases (contains d db.artifacts)) [
  | inl there ↦ rw there there
  | inr new ↦ rw new (appended db.artifacts)
]
  where
    appended : (xs : List Key) → contains d (xs ++ d ∷ []) ≡ true
    appended [] = ground (arith, ==_refl d)
    appended (x ∷ xs) = ground (arith, appended xs)

pub same_after_add :
    (d : Key) (db : Database)
    → add_digest d db ≡ record db { artifacts = (add_digest d db).artifacts }
same_after_add d db = elim (Bool-cases (contains d db.artifacts)) [
  | inl there ↦ rw there refl
  | inr new ↦ rw new refl
]

put_bytes-done :
    (hash : Bytes → String) (split : Bytes → List Bytes) (r : PutRequest) (content : Bytes)
    (w w' : World) (a : Artifact)
    → put_bytes hash split r content w ≡ (done a, w')
    → put_stream hash r (split content) w ≡ (done a, w')
unfolding put_bytes
put_bytes-done hash split r content w w' a e =
    elim (Bool-cases (ltb r.max_bytes (length content))) [
      | inl over ↦ absurd (ground arith)
      | inr fits ↦ ground arith
    ]

module _ (h : Host) where
  registered-returned :
      (x : Reply Artifact × World) (db : Database) (d : Key) (s' : Shared)
      → registered h (as_fallible h.message x) db ≡ (returned d, s')
      → (a : Artifact) × (w : World) × (x ≡ (done a, w))
        × (d ≡ h.key_of a.digest)
        × (s' ≡ register h.key_of a (record { db = db; store = w }))
  registered-returned (done a, w) db d s' e = (a, w, refl, cc, cc)
  registered-returned (raised c k, w) db d s' e = cc
  registered-returned (os_error, w) db d s' e = cc

  register-Stores :
      (a : Artifact) (w : World) (s : Shared)
      → (IsAddressed h.hash s.store → IsAddressed h.hash w)
      → ((e : String) → exists e s.store ≡ true → exists e w ≡ true)
      → Stores h s (register h.key_of a (record { db = s.db; store = w }))
  unfolding register exists
  register-Stores a w s addressed there = record {
    same_db = same_after_add (h.key_of a.digest) s.db;
    addressed = addressed;
    kept = λ d (digest, same, at, known).
        (digest, same, there digest at, contains-added (h.key_of a.digest) d s.db known);
  }

  register-IsKept :
      (a : Artifact) (w : World) (db : Database) (d : Key)
      → d ≡ h.key_of a.digest
      → exists a.digest w ≡ true
      → IsKept h.key_of (register h.key_of a (record { db = db; store = w })) d
  unfolding register exists
  register-IsKept a w db d same there = (
    a.digest,
    same,
    there,
    subst (λ (x : Key). contains x (add_digest (h.key_of a.digest) db).artifacts ≡ true) (sym same)
        (contains-new (h.key_of a.digest) db),
  )

  exists-stored :
      (r : PutRequest) (chunks : List Bytes) (w w' : World) (a : Artifact)
      → ((content : Bytes) → is_valid_digest (h.hash content) ≡ true)
      → put_stream h.hash r chunks w ≡ (done a, w')
      → exists a.digest w' ≡ true
  unfolding exists
  exists-stored r chunks w w' a valid e =
      let (_, same, entries, _) = put_stream-stored h.hash r chunks w w' a e in
      rw (same, entries)
        (ground (arith, valid (content_of chunks), eq_refl (h.hash (content_of chunks))))

  -- An output that is stored is kept, and nothing else is lost.
  pub store_output-Stores :
      (kind media_type : String) (content : Bytes) (s s' : Shared) (d : Key)
      → ((content : Bytes) → is_valid_digest (h.hash content) ≡ true)
      → store_output h kind media_type content s ≡ (returned d, s')
      → Stores h s s' × IsKept h.key_of s' d
  unfolding store_output
  store_output-Stores kind media_type content s s' d valid e =
      let r = output_request kind media_type h.now in
      let (a, w, put, same, now) =
        registered-returned (put_bytes h.hash h.split r content s.store) s.db d s' e in
      let stream = put_bytes-done h.hash h.split r content s.store w a put in
      subst (λ (x : Shared). Stores h s x × IsKept h.key_of x d) (sym now)
        (
          register-Stores a w s
              (λ x.
                StoreStep-IsAddressed h.hash s.store w x
                  (StoreStep.puts r (h.split content) (done a) stream))
              (λ digest x.
                put_stream-exists h.hash r (h.split content) s.store w (done a) digest stream x),
          register-IsKept a w s.db d same
              (exists-stored r (h.split content) s.store w a valid stream),
        )
