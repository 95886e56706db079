-- ===== src/Store/CleanUp/Totality.antt =====
-- CleanUp ends, with fuel for the depth of the manifest lists.
use hauler.Base.Dict.{Dict}
use mathlib.Core.List.{Memᴰ}
use hauler.Base.{
  All, ◌<◌, ◌⊎◌, ℕ, zero, suc, ◌≡◌, refl, Option, none, some, List, [], ◌∷◌, Text, Option-cases,
  Bool-cases, select, inl, inr, arith,
}
use hauler.Content.Descriptor.{Descriptor}
use hauler.Content.Reference.{Named}
use hauler.Content.Index.{Oci, load_index}
use hauler.Store.Manifest.{
  Manifest, BlobLib, Disk, blob_file, Fetched, fetch_failed, read_failed, bytes, fetch,
}
use hauler.Store.Check.{children}
use hauler.Store.Check.Graph.{decoded, manifest_of}
use hauler.Store.CleanUp.{
  mark, manifest_desc, process_list, process_fetched, process_manifest, process_index, CleanUpError,
  load_failed, walk_failed, read_dir_failed, Cleaned, DirEntry, sweep, clean_up, scan,
}

module _ (lib : BlobLib) (disk : Disk) where
  list-total :
      (run : Descriptor → List Text → Option (List Text)) (ms : List Descriptor) (refs : List Text)
      → ((c : Descriptor)
          → Memᴰ c (select (λ x. lib.valid x.digest) ms)
          → (refs : List Text) → (out : List Text) × (run (manifest_desc c) refs ≡ some out))
      → (out : List Text) × (process_list lib run ms refs ≡ some out)
  unfolding process_list select
  list-total run [] refs h = (refs, refl)
  list-total run (m ∷ ms) refs h = elim (Bool-cases (lib.valid m.digest)) [
    | inr bad ↦
        let (out, done) = list-total run ms refs (λ c member. h c (rw bad member)) in
        (out, rw (bad, process_list) done)
    | inl valid ↦
        let (refs1, done) = h m (rw valid (Memᴰ.head refl)) (lib.hex m.digest ∷ refs) in
        let (out, rest) = list-total run ms refs1 (λ c member. h c (rw valid (Memᴰ.tail member))) in
        (out, rw (valid, done, process_list) rest)
  ]

  fetched-total :
      (run : Descriptor → List Text → Option (List Text)) (f : Fetched) (refs : List Text)
      → ((m : Manifest)
          → decoded lib disk f ≡ some m
          → (c : Descriptor) → Memᴰ c (children lib m)
          → (refs : List Text) → (out : List Text) × (run (manifest_desc c) refs ≡ some out))
      → (out : List Text) × (process_fetched lib run f refs ≡ some out)
  unfolding process_fetched decoded children
  fetched-total run fetch_failed refs h = (refs, refl)
  fetched-total run read_failed refs h = (refs, refl)
  fetched-total run (bytes content) refs h = elim (Option-cases (lib.decode content)) [
    | inl malformed ↦ (refs, rw (malformed, process_fetched) refl)
    | inr (m, parsed) ↦
        let (out, done) =
          list-total run m.manifests (mark lib (m.config ∷ m.layers) refs) (h m parsed) in
        (out, rw (parsed, process_fetched) done)
  ]

  manifest-total :
      (rank : Text → ℕ)
      → ((d : Descriptor) (m : Manifest) (c : Descriptor)
          → manifest_of lib disk d ≡ some m
          → Memᴰ c (children lib m)
          → rank c.digest < rank d.digest)
      → (fuel : ℕ) (d : Descriptor) (refs : List Text) → rank d.digest < fuel
      → (out : List Text) × (process_manifest lib disk fuel d refs ≡ some out)
  unfolding process_manifest
  manifest-total rank falls zero d refs deep = absurd (omega arith)
  manifest-total rank falls (suc fuel) d refs deep = elim (Bool-cases (lib.valid d.digest)) [
    | inr bad ↦ (refs, rw (bad, process_manifest) refl)
    | inl valid ↦
        let (out, done) =
          fetched-total (process_manifest lib disk fuel) (fetch (blob_file lib disk d.digest))
            (lib.hex d.digest ∷ refs)
            (λ m at c member c_refs.
              manifest-total rank falls fuel (manifest_desc c) c_refs
                (omega (arith, falls d m c (unfold manifest_of in at) member))) in
        (out, rw (valid, process_manifest) done)
  ]

  process_index-total :
      (rank : Text → ℕ)
      → ((d : Descriptor) (m : Manifest) (c : Descriptor)
          → manifest_of lib disk d ≡ some m
          → Memᴰ c (children lib m)
          → rank c.digest < rank d.digest)
      → (fuel : ℕ) (m : Dict Descriptor) (refs : List Text) → All (λ e. rank e.1.digest < fuel) m
      → (out : List Text) × (process_index lib disk fuel m refs ≡ some out)
  unfolding process_index
  process_index-total rank falls fuel [] refs deep = (refs, refl)
  process_index-total rank falls fuel ((k, d) ∷ m) refs (first, rest) =
      let (refs1, done) = manifest-total rank falls fuel d refs first in
      let (out, rest_done) = process_index-total rank falls fuel m refs1 rest in
      (out, rw (done, process_index) rest_done)

  sweep-total :
      (fuel : ℕ) (directory : Option (List DirEntry)) (m : Dict Descriptor) (refs : List Text)
      → process_index lib disk fuel m [] ≡ some refs
      → (x : CleanUpError ⊎ Cleaned) × (sweep lib disk fuel directory m ≡ some x)
  unfolding sweep
  sweep-total fuel none m refs done = (inl read_dir_failed, rw (done, sweep) refl)
  sweep-total fuel (some entries) m refs done = (inr (scan refs entries), rw (done, sweep) refl)

  -- With more fuel than the depth of the graph of each entry of the index that is loaded, given by a
  -- number that falls from each manifest list to its children, a CleanUp ends with a result.
  pub clean_up-total :
      (rank : Text → ℕ)
      → ((d : Descriptor) (m : Manifest) (c : Descriptor)
          → manifest_of lib disk d ≡ some m
          → Memᴰ c (children lib m)
          → rank c.digest < rank d.digest)
      → (parse_reference : Text → Option Named) (fuel : ℕ) (directory : Option (List DirEntry))
      → (s : Oci)
      → All
          (λ e. rank e.1.digest < fuel)
          (load_index parse_reference (load_index parse_reference s).1).1.name_map
      → (x : CleanUpError ⊎ Cleaned) × ((clean_up lib disk parse_reference fuel directory s).0
          ≡ some x)
  unfolding clean_up
  clean_up-total rank falls parse_reference fuel directory s deep =
      let (e, s1) = load_index parse_reference s in
      let (e_walk, s2) = load_index parse_reference s1 in
      let (refs, done) = process_index-total rank falls fuel s2.name_map [] deep in
      let (x, swept) = sweep-total fuel directory s2.name_map refs done in
      elim (Option-cases e) [
        | inr (y, bad) ↦ (inl (load_failed y), rw (bad, clean_up) refl)
        | inl ok ↦ elim (Option-cases e_walk) [
          | inr (y, bad) ↦ (inl (walk_failed y), rw (ok, bad, clean_up) refl)
          | inl ok_walk ↦ (x, rw (ok, ok_walk, clean_up) swept)
        ]
      ]
