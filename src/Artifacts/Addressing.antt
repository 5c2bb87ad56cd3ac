-- ===== src/Artifacts/Addressing.antt =====
-- Every file of the store has the digest under which it stands, through any history of the store.
use verifier_ci.Prelude.{
  ℕ, ◌≡◌, ap, refl, sym, subst, Bool, true, false, Option, none, some, List, [], ◌∷◌, String, arith,
  if◌then◌else◌, str_eq, eq_iff, keep_if, Bool-cases, inl, inr,
}
use verifier_ci.Artifacts.Disk.{
  Bytes, Node, Artifact, World, Reply, done, write_entry, is_valid_digest,
}
use verifier_ci.Artifacts.Put.{PutRequest, put_stream}
use verifier_ci.Artifacts.Read.{read_bytes, verify_node, exists, is_file}
use verifier_ci.Artifacts.Sweep.{
  garbage_collect, sweep_rows, purge, unlinked, order_by_digest, is_candidate,
}
use verifier_ci.Artifacts.Storing.{put_stream-entries, content_of}

abbrev pub Addressed : (Bytes → String) → String → Option Node → Type 0
Addressed hash d (some (Node.file content)) = hash content ≡ d
Addressed hash d _ = Unit

abbrev pub IsAddressed : (Bytes → String) → World → Type 0
IsAddressed hash w = (d : String) → Addressed hash d (w.entries d)

-- What the store does: a put, with any answer, and a sweep.
pub data StoreStep (hash : Bytes → String) (w w' : World) : Type 0 where
  puts :
      (r : PutRequest) (chunks : List Bytes) (reply : Reply Artifact)
      → put_stream hash r chunks w ≡ (reply, w')
      → StoreStep hash w w'
  sweeps :
      (now : ℕ) (dry_run : Bool) (ids : List String)
      → garbage_collect now dry_run w ≡ (ids, w')
      → StoreStep hash w w'

pub data StoreReach (hash : Bytes → String) (w : World) : World → Type 0 where
  here : StoreReach hash w w
  next : {mid w' : World} → StoreReach hash w mid → StoreStep hash mid w' → StoreReach hash w w'

module _ (hash : Bytes → String) where
  write-IsAddressed :
      (d : String) (content : Bytes) (entries : String → Option Node)
      → hash content ≡ d
      → ((e : String) → Addressed hash e (entries e))
      → (e : String) → Addressed hash e (write_entry d (some (Node.file content)) entries e)
  write-IsAddressed d content entries same all e = elim (Bool-cases (str_eq d e)) [
    | inl hit ↦ rw hit (ground (arith, eq_iff d e))
    | inr miss ↦ rw miss (all e)
  ]

  unlinked-Addressed :
      (d : String) (node : Option Node) → Addressed hash d node → Addressed hash d (unlinked node)
  unlinked-Addressed d none a = tt
  unlinked-Addressed d (some (Node.file content)) a = tt
  unlinked-Addressed d (some (Node.link true)) a = tt
  unlinked-Addressed d (some (Node.link false)) a = tt
  unlinked-Addressed d (some Node.directory) a = tt
  unlinked-Addressed d (some Node.special) a = tt

  purge-IsAddressed : (d : String) (w : World) → IsAddressed hash w → IsAddressed hash (purge d w)
  unfolding purge
  purge-IsAddressed d w all e = elim (Bool-cases (str_eq d e)) [
    | inl hit ↦ rw hit (
        subst (λ x. Addressed hash x (unlinked (w.entries d))) ((eq_iff d e).0 hit)
          (unlinked-Addressed d (w.entries d) (all d)))
    | inr miss ↦ rw miss (all e)
  ]

  either :
      (b : Bool) (w v : World)
      → IsAddressed hash w
      → IsAddressed hash v
      → IsAddressed hash (if b then w else v)
  either true w v h k = h
  either false w v h k = k

  sweep_rows-IsAddressed :
      (dry_run : Bool) (now : ℕ) (rows : List Artifact) (w : World)
      → IsAddressed hash w
      → IsAddressed hash (sweep_rows dry_run now rows w).1
  unfolding sweep_rows
  sweep_rows-IsAddressed dry_run now [] w all = all
  sweep_rows-IsAddressed dry_run now (a ∷ rows) w all =
      sweep_rows-IsAddressed dry_run now rows _
        (either _ (purge a.digest w) w (purge-IsAddressed a.digest w all) all)

  put_stream-IsAddressed :
      (r : PutRequest) (chunks : List Bytes) (w w' : World) (reply : Reply Artifact)
      → IsAddressed hash w
      → put_stream hash r chunks w ≡ (reply, w')
      → IsAddressed hash w'
  put_stream-IsAddressed r chunks w w' reply all h =
      elim (put_stream-entries hash r chunks w w' reply h) [
        | inl same ↦
            subst (λ (es : String → Option Node). (d : String) → Addressed hash d (es d)) (sym same)
              all
        | inr written ↦ λ d.
            subst (Addressed hash d) (sym (written d)) (
              write-IsAddressed (hash (content_of chunks)) (content_of chunks) w.entries refl all d)
      ]

  pub StoreStep-IsAddressed :
      (w w' : World) → IsAddressed hash w → StoreStep hash w w' → IsAddressed hash w'
  unfolding garbage_collect
  StoreStep-IsAddressed w w' all (puts r chunks reply h) =
      put_stream-IsAddressed r chunks w w' reply all h
  StoreStep-IsAddressed w w' all (sweeps now dry_run ids h) =
      subst (IsAddressed hash) (ap (λ (x : List String × World). x.1) h)
        (sweep_rows-IsAddressed dry_run now (order_by_digest (keep_if is_candidate w.rows)) w all)

  pub StoreReach-IsAddressed :
      (w : World) {w' : World} → IsAddressed hash w → StoreReach hash w w' → IsAddressed hash w'
  StoreReach-IsAddressed w all here = all
  StoreReach-IsAddressed w all (next {mid} {w'} r s) =
      StoreStep-IsAddressed mid w' (StoreReach-IsAddressed w all r) s

  verified :
      (d : String) (node : Option Node)
      → Addressed hash d node
      → is_file node ≡ true
      → (content : Bytes) × (verify_node hash d node ≡ done content) × (hash content ≡ d)
  unfolding verify_node
  verified d (some (Node.file content)) a f = (content, ground (arith, eq_iff (hash content) d), a)
  verified d none a f = cc
  verified d (some (Node.link b)) a f = cc
  verified d (some Node.directory) a f = cc
  verified d (some Node.special) a f = cc

  -- From a store whose files stand under their digests, after any history of puts (refused ones
  -- included) and sweeps, an artifact that `exists` reports is read: `read_bytes` returns bytes with
  -- the digest that was asked for.
  pub StoreReach-exists :
      (w w' : World) (d : String)
      → IsAddressed hash w
      → StoreReach hash w w'
      → exists d w' ≡ true
      → (content : Bytes) × (read_bytes hash d w' ≡ done content) × (hash content ≡ d)
  unfolding exists read_bytes
  StoreReach-exists w w' d all r e =
      let valid : is_valid_digest d ≡ true = ground arith in
      let (content, v, h) =
        verified d (w'.entries d) (StoreReach-IsAddressed w all r d) (ground arith) in
      (content, rw valid v, h)

  -- A put, whatever it answers, leaves every artifact that exists in place.
  pub put_stream-exists :
      (r : PutRequest) (chunks : List Bytes) (w w' : World) (reply : Reply Artifact) (d : String)
      → put_stream hash r chunks w ≡ (reply, w')
      → exists d w ≡ true
      → exists d w' ≡ true
  unfolding exists
  put_stream-exists r chunks w w' reply d h e =
      elim (put_stream-entries hash r chunks w w' reply h) [
        | inl same ↦ rw same e
        | inr written ↦ rw (written d) (ground (arith, eq_iff (hash (content_of chunks)) d))
      ]
