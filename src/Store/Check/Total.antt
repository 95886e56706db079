-- ===== src/Store/Check/Total.antt =====
-- Check ends, with fuel for the depth of the graph.
use mathlib.Core.List.{Memᴰ}
use hauler.Base.{
  ℕ, zero, suc, ◌<◌, ◌≡◌, refl, not, Option, some, List, [], ◌∷◌, ◌++◌, Text, All, Option-cases,
  Bool-cases, inl, inr, if◌then◌else◌, arith,
}
use hauler.Content.Descriptor.{Descriptor}
use hauler.Store.Manifest.{
  Manifest, BlobLib, Disk, blob_file, Fetched, fetch_failed, read_failed, bytes, fetch,
}
use hauler.Store.Check.{
  failed, result_of, blob_unreadable, decoding_manifest, gathered, BlobResult, CheckResult, is_ok,
  Checker, check_memo, check_leaves, check_children, leaves, children, check_manifest,
  check_fetched, check,
}
use hauler.Store.Check.Graph.{All-of_mem, manifest_of, decoded}

module _ (lib : BlobLib) (disk : Disk) where
  abbrev Check : Type 0
  Check = Descriptor → Checker → Option (CheckResult × Checker)

  children-total :
      (run : Check) (ds : List Descriptor) (c : Checker)
      → All (λ d. (c : Checker) → (x : CheckResult × Checker) × (run d c ≡ some x)) ds
      → (x : List BlobResult × Checker) × (check_children run ds c ≡ some x)
  unfolding check_children
  children-total run [] c h = (([], c), refl)
  children-total run (d ∷ ds) c (h, hs) =
      let (x, done) = h c in
      let (y, rest) = children-total run ds x.1 hs in
      (((if not x.0.ok then x.0.problems ++ y.0 else y.0), y.1), ground (arith, done, rest))

  fetched-total :
      (run : Check) (d : Descriptor) (c : Checker) (f : Fetched)
      → fetch (blob_file lib disk d.digest) ≡ f
      → ((m : Manifest)
          → manifest_of lib disk d ≡ some m
          → All
              (λ e. (c : Checker) → (x : CheckResult × Checker) × (run e c ≡ some x))
              (children lib m))
      → (x : CheckResult × Checker) × (check_fetched lib disk run d.digest f c ≡ some x)
  unfolding check_fetched check_manifest manifest_of decoded
  fetched-total run d c fetch_failed got h = (_, refl)
  fetched-total run d c read_failed got h = (_, refl)
  fetched-total run d c (bytes content) got h = elim (Option-cases (lib.decode content)) [
    | inl malformed ↦ (
      (failed (result_of d.digest blob_unreadable decoding_manifest), c),
      rw (malformed, check_fetched) refl,
    )
    | inr (m, parsed) ↦
        let (own, c1) = check_leaves lib disk (leaves lib m) c in
        let (y, done) = children-total run (children lib m) c1 (h m (rw got parsed)) in
        (gathered (own ++ y.0) y.1, rw (parsed, check_fetched) (rw (done, check_manifest) refl))
  ]

  -- With more fuel than the depth of the graph, given by a number that falls from each manifest to
  -- its children, a Check ends with a result.
  pub check-total :
      (rank : Text → ℕ)
      → ((d : Descriptor) (m : Manifest) (c : Descriptor)
          → manifest_of lib disk d ≡ some m
          → Memᴰ c (children lib m)
          → rank c.digest < rank d.digest)
      → (fuel : ℕ) (d : Descriptor) (c : Checker) → rank d.digest < fuel
      → (x : CheckResult × Checker) × (check lib disk fuel d c ≡ some x)
  unfolding check
  check-total rank falls zero d c h = absurd (omega arith)
  check-total rank falls (suc fuel) d c h =
      elim (Bool-cases (is_ok (check_memo lib disk d c).0.status)) [
        | inr bad ↦ (
          (failed (check_memo lib disk d c).0, (check_memo lib disk d c).1),
          rw (bad, check) refl,
        )
        | inl ok ↦
            let (x, done) =
              fetched-total (check lib disk fuel) d (check_memo lib disk d c).1 _ refl (λ m at.
                All-of_mem _ (children lib m) (λ e member e_checker.
                  check-total rank falls fuel e e_checker
                    (omega (arith, falls d m e at member)))) in
            (x, rw (ok, check) done)
      ]
