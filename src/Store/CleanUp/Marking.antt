-- ===== src/Store/CleanUp/Marking.antt =====
-- What CleanUp marks: every blob of the descriptor graph of every entry of the index.
use mathlib.Core.List.{Memᴰ}
use hauler.Base.{
  ℕ, zero, suc, ◌≡◌, refl, ap, true, some, List, [], ◌∷◌, Text, text_eq, text_eq_refl, Option-cases,
  Bool-cases, select, inl, inr, arith, if◌then◌else◌,
}
use hauler.Base.Dict
use hauler.Base.Dict.{Dict}
use hauler.Content.Descriptor.{Descriptor}
use hauler.Store.Manifest.{
  Manifest, BlobLib, Disk, blob_file, Fetched, fetch_failed, read_failed, bytes, fetch,
}
use hauler.Store.Check.{leaves, children}
use hauler.Store.Check.Graph.{decoded, manifest_of, Reaches, itself, leaf, below}
use hauler.Store.CleanUp.{
  referenced, mark, manifest_desc, process_list, process_fetched, process_manifest, process_index,
}
use hauler.Store.CleanUp.Growth.{
  Run, Grows, mark-grows, list-Grows, fetched-Grows, manifest-Grows, index-grows,
}

module _ (lib : BlobLib) (disk : Disk) where
  select_mem :
      (ds : List Descriptor) {e : Descriptor}
      → Memᴰ e (select (λ d. lib.valid d.digest) ds)
      → Memᴰ e ds × (lib.valid e.digest ≡ true)
  unfolding select
  select_mem [] member = elim member [ ]
  select_mem (d ∷ ds) {e} member = elim (Bool-cases (lib.valid d.digest)) [
    | inl valid ↦ first valid (λ later. select_mem ds later) (rw valid at member)
    | inr bad ↦ let (there, valid) = select_mem ds (rw bad at member) in (Memᴰ.tail there, valid)
  ]
    where
      first :
          lib.valid d.digest ≡ true
          → (Memᴰ e (select (λ d. lib.valid d.digest) ds) → Memᴰ e ds × (lib.valid e.digest ≡ true))
          → Memᴰ e (d ∷ select (λ d. lib.valid d.digest) ds)
          → Memᴰ e (d ∷ ds) × (lib.valid e.digest ≡ true)
      first valid later (Memᴰ.head same) = (Memᴰ.head same, rw same valid)
      first valid later (Memᴰ.tail member) =
          let (there, known) = later member in (Memᴰ.tail there, known)

  mark-marks :
      (ds : List Descriptor) (refs : List Text) {e : Descriptor}
      → Memᴰ e ds
      → lib.valid e.digest ≡ true
      → referenced (lib.hex e.digest) (mark lib ds refs) ≡ true
  unfolding mark referenced
  mark-marks [] refs member valid = elim member [ ]
  mark-marks (d ∷ ds) refs {e} (Memᴰ.head same) valid =
      mark-grows lib disk ds (if lib.valid d.digest then lib.hex d.digest ∷ refs else refs)
        (lib.hex e.digest)
        (let here : lib.valid d.digest ≡ true = rw (← same) valid in
          rw (same, here) (ground (arith, text_eq_refl (lib.hex d.digest))))
  mark-marks (d ∷ ds) refs (Memᴰ.tail member) valid = mark-marks ds _ member valid

  -- what a run on x marks of the graph of d, which has the same digest
  abbrev Marks : Run → Descriptor → Descriptor → Type 0
  Marks run x d =
      (refs refs' : List Text)
      → run x refs ≡ some refs'
      → lib.valid d.digest ≡ true
      → (e : Descriptor) → Reaches lib disk d e
      → referenced (lib.hex e.digest) refs' ≡ true

  -- every child in the list is run, and what is marked there stays
  list-Marks :
      (run : Run)
      → Grows run
      → (ms : List Descriptor) (refs refs' : List Text) → process_list lib run ms refs ≡ some refs'
      → (c : Descriptor) → Memᴰ c ms
      → lib.valid c.digest ≡ true
      → Marks run (manifest_desc c) c
      → (e : Descriptor) → Reaches lib disk c e
      → referenced (lib.hex e.digest) refs' ≡ true
  unfolding process_list
  list-Marks run grows [] refs refs' h c member valid marks e r = elim member [ ]
  list-Marks run grows (m ∷ ms) refs refs' h c (Memᴰ.head same) valid marks e r =
      let valid_m : lib.valid m.digest ≡ true = rw (← same) valid in
      elim (Option-cases (run (manifest_desc m) (lib.hex m.digest ∷ refs))) [
        | inl dry ↦ cc (rw (valid_m, dry, process_list) at h)
        | inr (refs1, done) ↦
            list-Grows lib disk run grows ms refs1 refs' (rw (valid_m, done, process_list) at h)
              (lib.hex e.digest) (marks (lib.hex m.digest ∷ refs) refs1 (rw same done) valid e r)
      ]
  list-Marks run grows (m ∷ ms) refs refs' h c (Memᴰ.tail member) valid marks e r =
      elim (Bool-cases (lib.valid m.digest)) [
        | inr bad ↦
            list-Marks run grows ms refs refs' (rw (bad, process_list) at h) c member valid marks e
              r
        | inl valid_m ↦ elim (Option-cases (run (manifest_desc m) (lib.hex m.digest ∷ refs))) [
          | inl dry ↦ cc (rw (valid_m, dry, process_list) at h)
          | inr (refs1, done) ↦
              list-Marks run grows ms refs1 refs' (rw (valid_m, done, process_list) at h) c member
                valid marks e r
        ]
      ]

  fetched-Marks :
      (run : Run)
      → Grows run
      → (f : Fetched) (m : Manifest) → decoded lib disk f ≡ some m
      → ((c : Descriptor) → Marks run (manifest_desc c) c)
      → (refs refs' : List Text) → process_fetched lib run f refs ≡ some refs'
      → ((e : Descriptor) → Memᴰ e (leaves lib m) → referenced (lib.hex e.digest) refs' ≡ true)
        × ((c e : Descriptor)
            → Memᴰ c (children lib m)
            → Reaches lib disk c e
            → referenced (lib.hex e.digest) refs' ≡ true)
  unfolding process_fetched decoded
  fetched-Marks run grows fetch_failed m at marks refs refs' h = cc
  fetched-Marks run grows read_failed m at marks refs refs' h = cc
  fetched-Marks run grows (bytes content) m at marks refs refs' h =
      let rest = rw (at, process_fetched) at h in
      (
        λ e member.
            let (there, valid) =
              select_mem (m.config ∷ m.layers) {e = e} (unfold leaves in member) in
            list-Grows lib disk run grows m.manifests (mark lib (m.config ∷ m.layers) refs) refs'
              rest (lib.hex e.digest) (mark-marks (m.config ∷ m.layers) refs there valid),
        λ c e member r.
            let (there, valid) = select_mem m.manifests {e = c} (unfold children in member) in
            list-Marks run grows m.manifests (mark lib (m.config ∷ m.layers) refs) refs' rest c
              there valid (marks c) e r,
      )

  -- a node of the graph marks what is below it
  node-Marks :
      (run : Run)
      → Grows run
      → ((c : Descriptor) → Marks run (manifest_desc c) c)
      → (d : Descriptor) (refs refs' : List Text)
      → process_fetched lib run (fetch (blob_file lib disk d.digest)) refs ≡ some refs'
      → referenced (lib.hex d.digest) refs ≡ true
      → (e : Descriptor) → Reaches lib disk d e
      → referenced (lib.hex e.digest) refs' ≡ true
  node-Marks run grows marks d refs refs' h own e (itself d') =
      fetched-Grows lib disk run grows _ refs refs' h (lib.hex d.digest) own
  node-Marks run grows marks d refs refs' h own e (leaf m at member) =
      (fetched-Marks run grows (fetch (blob_file lib disk d.digest)) m (unfold manifest_of in at)
          marks refs refs' h).0
        e member
  node-Marks run grows marks d refs refs' h own e (below m c at member r) =
      (fetched-Marks run grows (fetch (blob_file lib disk d.digest)) m (unfold manifest_of in at)
          marks refs refs' h).1
        c e member r

  manifest-Marks :
      (fuel : ℕ) (x d : Descriptor)
      → x.digest ≡ d.digest
      → Marks (process_manifest lib disk fuel) x d
  unfolding process_manifest referenced
  manifest-Marks zero x d same refs refs' h valid e r = cc
  manifest-Marks (suc fuel) x d same refs refs' h valid e r =
      node-Marks (process_manifest lib disk fuel) (manifest-Grows lib disk fuel)
        (λ c. manifest-Marks fuel (manifest_desc c) c refl) d (lib.hex d.digest ∷ refs) refs'
        (rw same at (rw (same, valid, process_manifest) at h))
        (ground (arith, text_eq_refl (lib.hex d.digest))) e r

  -- the entries of the index
  pub index-marks :
      (fuel : ℕ) (m : Dict Descriptor) (refs refs' : List Text)
      → process_index lib disk fuel m refs ≡ some refs'
      → (k : Text) (d e : Descriptor) → Dict.lookup k m ≡ some d
      → lib.valid d.digest ≡ true
      → Reaches lib disk d e
      → referenced (lib.hex e.digest) refs' ≡ true
  unfolding process_index Dict.lookup
  index-marks fuel [] refs refs' h k d e hit valid r = cc
  index-marks fuel ((k', d') ∷ m) refs refs' h k d e hit valid r =
      elim (Option-cases (process_manifest lib disk fuel d' refs)) [
        | inl dry ↦ cc (rw (dry, process_index) at h)
        | inr (refs1, done) ↦
            let rest = rw (done, process_index) at h in
            elim (Bool-cases (text_eq k' k)) [
              | inr other ↦
                  index-marks fuel m refs1 refs' rest k d e (ground (arith, other)) valid r
              | inl here ↦
                  let same : d' ≡ d = ground (arith, here) in
                  index-grows lib disk fuel m refs1 refs' rest (lib.hex e.digest) (
                    manifest-Marks fuel d' d (ap (λ (x : Descriptor). x.digest) same) refs refs1
                      done valid e r)
            ]
      ]
