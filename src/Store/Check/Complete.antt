-- ===== src/Store/Check/Complete.antt =====
-- Check raises no false alarm.
use mathlib.Core.Path.{subst}
use hauler.Base.{
  ◌||◌, ℕ, zero, suc, ◌≡◌, refl, true, not, Option, some, List, [], ◌∷◌, ◌++◌, Text, text_eq,
  length, All, Option-cases, Bool-cases, inl, inr, arith,
}
use hauler.Base.Dict
use hauler.Base.Dict.{lookup-insert}
use hauler.Base.Int.{is_positive, eq_ℤ}
use hauler.Content.Descriptor.{Descriptor}
use hauler.Store.Manifest.{
  Manifest, BlobLib, file, Disk, blob_file, Fetched, fetch_failed, read_failed, bytes, fetch,
}
use hauler.Store.Check.{
  record_hash, BlobResult, CheckResult, is_ok, Checker, new_checker, hash_content, check_file,
  check_blob, check_memo, check_leaves, check_children, leaves, children, no_problems,
  check_manifest, check_fetched, check,
}
use hauler.Store.Check.Graph.{
  no_problems-append, All-of_mem, Reaches, itself, leaf, below, Descends, root, child, manifest_of,
  decoded,
}

module _ (lib : BlobLib) (disk : Disk) where
  abbrev Check : Type 0
  Check = Descriptor → Checker → Option (CheckResult × Checker)

  -- a readable file of the right size and digest, in an algorithm of this build
  pub record IsHealthy (d : Descriptor) : Type 0 where
    pub content : Text
    pub on_disk : blob_file lib disk d.digest ≡ file content true true
    pub exact : lib.verified d.digest content ≡ true
    pub fits : (not (is_positive d.size) || eq_ℤ (length content) d.size) ≡ true
    pub available : lib.available (lib.algorithm d.digest) ≡ true

  abbrev AllOk : Checker → Type 0
  AllOk c =
      (digest : Text) (r : BlobResult) → Dict.lookup digest c.memo ≡ some r → is_ok r.status ≡ true

  check_file-healthy :
      (d : Descriptor) (c : Checker)
      → IsHealthy d
      → (is_ok (check_blob lib disk d c).0.status ≡ true)
        × ((check_blob lib disk d c).1.memo ≡ c.memo)
  unfolding check_blob check_file hash_content record_hash
  check_file-healthy d c g = rw g.on_disk (ground arith)

  memo-healthy :
      (d : Descriptor) (c : Checker)
      → IsHealthy d
      → AllOk c
      → (is_ok (check_memo lib disk d c).0.status ≡ true) × AllOk (check_memo lib disk d c).1
  memo-healthy d c g ok = elim (Option-cases (Dict.lookup d.digest c.memo)) [
    | inr (r, hit) ↦
        let same : check_memo lib disk d c ≡ (r, c) =
          unfold check_memo in rw (hit, check_memo) refl in
        rw same (ok d.digest r hit, ok)
    | inl miss ↦
        let (fine, kept) = check_file-healthy d c g in
        let (r0, c1) = check_blob lib disk d c in
        let same : check_memo lib disk d c
            ≡ (r0, record c1 { memo = Dict.insert d.digest r0 c1.memo }) =
          unfold check_memo in rw (miss, check_memo) refl in
        rw same (
          fine,
          λ digest r known. elim (Bool-cases (text_eq d.digest digest)) [
            | inl here ↦
                let it : r0 ≡ r = ground (arith, here, lookup-insert d.digest digest r0 c1.memo) in
                subst (λ (x : BlobResult). is_ok x.status ≡ true) it fine
            | inr other ↦
                ok digest r (ground (arith, other, kept, lookup-insert d.digest digest r0 c1.memo))
          ],
        )
  ]

  leaves-healthy :
      (ds : List Descriptor) (c : Checker)
      → All IsHealthy ds
      → AllOk c
      → (no_problems (check_leaves lib disk ds c).0 ≡ true) × AllOk (check_leaves lib disk ds c).1
  unfolding check_leaves no_problems
  leaves-healthy [] c g ok = (refl, ok)
  leaves-healthy (d ∷ ds) c (g, gs) ok =
      let (fine, ok1) = memo-healthy d c g ok in
      let (rest, ok2) = leaves-healthy ds (check_memo lib disk d c).1 gs ok1 in (rw fine rest, ok2)

  -- what one check of a healthy child reports
  abbrev Passes : Check → Descriptor → Type 0
  Passes run d =
      (c : Checker) (r : CheckResult) (c' : Checker)
      → AllOk c
      → run d c ≡ some (r, c')
      → (r.ok ≡ true) × AllOk c'

  children-healthy :
      (run : Check) (ds : List Descriptor) (c : Checker) (problems : List BlobResult) (c' : Checker)
      → All (Passes run) ds
      → AllOk c
      → check_children run ds c ≡ some (problems, c')
      → (no_problems problems ≡ true) × AllOk c'
  unfolding check_children
  children-healthy run [] c problems c' ps ok h =
      let none_left : [] ≡ problems = cc in
      let same : c ≡ c' = cc in
      (
        subst (λ (xs : List BlobResult). no_problems xs ≡ true) none_left
            (unfold no_problems in refl),
        subst AllOk same ok,
      )
  children-healthy run (d ∷ ds) c problems c' (p, ps) ok h = elim (Option-cases (run d c)) [
    | inl dry ↦ cc (rw (dry, check_children) at h)
    | inr ((r, c1), done) ↦ elim (Option-cases (check_children run ds c1)) [
      | inl dry ↦ absurd (ground (arith, done, dry))
      | inr ((rest, c2), rest_done) ↦
          let (fine, ok1) = p c r c1 ok done in
          let (clean, ok2) = children-healthy run ds c1 rest c2 ps ok1 rest_done in
          let same : c2 ≡ c' = ground (arith, done, rest_done) in
          let all_of : rest ≡ problems = ground (arith, done, rest_done, fine) in
          (
            subst (λ (xs : List BlobResult). no_problems xs ≡ true) all_of clean,
            subst AllOk same ok2,
          )
    ]
  ]

  manifest-healthy :
      (run : Check) (m : Manifest) (c : Checker) (r : CheckResult) (c' : Checker)
      → All IsHealthy (leaves lib m)
      → All (Passes run) (children lib m)
      → AllOk c
      → check_manifest lib disk run m c ≡ some (r, c')
      → (r.ok ≡ true) × AllOk c'
  unfolding check_manifest
  manifest-healthy run m c r c' ls cs ok h =
      let (clean, ok1) = leaves-healthy (leaves lib m) c ls ok in
      let (own, c1) = check_leaves lib disk (leaves lib m) c in
      elim (Option-cases (check_children run (children lib m) c1)) [
        | inl dry ↦ absurd (ground (arith, dry))
        | inr ((rest, c2), done) ↦
            let (clean_below, ok2) = children-healthy run (children lib m) c1 rest c2 cs ok1 done in
            let same : c2 ≡ c' = ground (arith, done) in
            let ok_lem : no_problems (own ++ rest) ≡ r.ok = ground (arith, done) in
            (
              ground (arith, ok_lem, no_problems-append own rest, clean, clean_below),
              subst AllOk same ok2,
            )
      ]

  fetched-healthy :
      (run : Check) (d : Descriptor) (m : Manifest) (c : Checker) (r : CheckResult) (c' : Checker)
      → (f : Fetched) → All IsHealthy (leaves lib m)
      → All (Passes run) (children lib m)
      → AllOk c
      → decoded lib disk f ≡ some m
      → check_fetched lib disk run d.digest f c ≡ some (r, c')
      → (r.ok ≡ true) × AllOk c'
  unfolding check_fetched decoded
  fetched-healthy run d m c r c' fetch_failed ls cs ok at h = cc
  fetched-healthy run d m c r c' read_failed ls cs ok at h = cc
  fetched-healthy run d m c r c' (bytes content) ls cs ok at h =
      manifest-healthy run m c r c' ls cs ok (rw (at, check_fetched) at h)

  complete :
      (fuel : ℕ) (d : Descriptor) (c : Checker) (r : CheckResult) (c' : Checker)
      → ((e : Descriptor) → Reaches lib disk d e → IsHealthy e)
      → ((e : Descriptor)
          → Descends lib disk d e
          → (m : Manifest) × (manifest_of lib disk e ≡ some m))
      → AllOk c
      → check lib disk fuel d c ≡ some (r, c')
      → (r.ok ≡ true) × AllOk c'
  unfolding check
  complete zero d c r c' healthy parses ok h = cc
  complete (suc fuel) d c r c' healthy parses ok h =
      let (fine, ok1) = memo-healthy d c (healthy d (itself d)) ok in
      let (m, at) = parses d (root d) in
      fetched-healthy (check lib disk fuel) d m (check_memo lib disk d c).1 r c'
        (fetch (blob_file lib disk d.digest))
        (All-of_mem IsHealthy (leaves lib m) (λ e member. healthy e (leaf m at member)))
        (All-of_mem (Passes (check lib disk fuel)) (children lib m)
          (λ e member e_checker er ec e_ok done.
            complete fuel e e_checker er ec (λ x reached. healthy x (below m e at member reached))
              (λ x descends. parses x (child m e at member descends)) e_ok done))
        ok1 (unfold manifest_of in at) (rw (fine, check) at h)

  -- If every blob of the graph is healthy (on disk and readable, of the size and digest promised, in an
  -- algorithm of this build) and every manifest in it decodes, a Check with a new Checker that ends
  -- reports OK.
  pub check_complete :
      (fuel : ℕ) (d : Descriptor) (r : CheckResult) (c : Checker)
      → ((e : Descriptor) → Reaches lib disk d e → IsHealthy e)
      → ((e : Descriptor)
          → Descends lib disk d e
          → (m : Manifest) × (manifest_of lib disk e ≡ some m))
      → check lib disk fuel d new_checker ≡ some (r, c)
      → r.ok ≡ true
  unfolding Dict.lookup
  check_complete fuel d r c healthy parses h =
      (complete fuel d new_checker r c healthy parses (λ digest x known. cc known) h).0
