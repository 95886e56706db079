-- ===== src/Store/CleanUp/Growth.antt =====
-- What CleanUp has marked stays marked.
use hauler.Base.Dict.{Dict}
use hauler.Base.{
  ℕ, zero, suc, ◌≡◌, true, Option, some, List, [], ◌∷◌, Text, Option-cases, Bool-cases, inl, inr,
  arith, if◌then◌else◌,
}
use hauler.Content.Descriptor.{Descriptor}
use hauler.Store.Manifest.{BlobLib, Disk, Fetched, fetch_failed, read_failed, bytes}
use hauler.Store.CleanUp.{
  referenced, mark, manifest_desc, process_list, process_fetched, process_manifest, process_index,
}

-- what a run marks is never unmarked
abbrev pub Run : Type 0
Run = Descriptor → List Text → Option (List Text)

abbrev pub Grows : Run → Type 0
Grows run =
    (d : Descriptor) (refs refs' : List Text)
    → run d refs ≡ some refs'
    → (hex : Text) → referenced hex refs ≡ true
    → referenced hex refs' ≡ true

module _ (lib : BlobLib) (disk : Disk) where
  pub mark-grows :
      (ds : List Descriptor) (refs : List Text) (hex : Text)
      → referenced hex refs ≡ true
      → referenced hex (mark lib ds refs) ≡ true
  unfolding mark referenced
  mark-grows [] refs hex h = h
  mark-grows (d ∷ ds) refs hex h =
      mark-grows ds (if lib.valid d.digest then lib.hex d.digest ∷ refs else refs) hex
        (ground (arith, h))

  pub list-Grows :
      (run : Run)
      → Grows run
      → (ms : List Descriptor) (refs refs' : List Text) → process_list lib run ms refs ≡ some refs'
      → (hex : Text) → referenced hex refs ≡ true
      → referenced hex refs' ≡ true
  unfolding process_list referenced
  list-Grows run grows [] refs refs' h hex known = let same : refs ≡ refs' = cc in rw (← same) known
  list-Grows run grows (m ∷ ms) refs refs' h hex known = elim (Bool-cases (lib.valid m.digest)) [
    | inr bad ↦ list-Grows run grows ms refs refs' (rw (bad, process_list) at h) hex known
    | inl valid ↦ elim (Option-cases (run (manifest_desc m) (lib.hex m.digest ∷ refs))) [
      | inl dry ↦ cc (rw (valid, dry, process_list) at h)
      | inr (refs1, done) ↦
          list-Grows run grows ms refs1 refs' (rw (valid, done, process_list) at h) hex
            (grows _ _ refs1 done hex (ground (arith, known)))
    ]
  ]

  pub fetched-Grows :
      (run : Run)
      → Grows run
      → (f : Fetched) (refs refs' : List Text) → process_fetched lib run f refs ≡ some refs'
      → (hex : Text) → referenced hex refs ≡ true
      → referenced hex refs' ≡ true
  unfolding process_fetched
  fetched-Grows run grows fetch_failed refs refs' h hex known =
      let same : refs ≡ refs' = cc in rw (← same) known
  fetched-Grows run grows read_failed refs refs' h hex known =
      let same : refs ≡ refs' = cc in rw (← same) known
  fetched-Grows run grows (bytes content) refs refs' h hex known =
      elim (Option-cases (lib.decode content)) [
        | inl malformed ↦ let same : refs ≡ refs' = ground (arith, malformed) in rw (← same) known
        | inr (m, parsed) ↦
            list-Grows run grows m.manifests (mark lib (m.config ∷ m.layers) refs) refs'
              (rw (parsed, process_fetched) at h) hex
              (mark-grows (m.config ∷ m.layers) refs hex known)
      ]

  pub manifest-Grows : (fuel : ℕ) → Grows (process_manifest lib disk fuel)
  unfolding process_manifest referenced
  manifest-Grows zero d refs refs' h hex known = cc
  manifest-Grows (suc fuel) d refs refs' h hex known = elim (Bool-cases (lib.valid d.digest)) [
    | inr bad ↦ let same : refs ≡ refs' = ground (arith, bad) in rw (← same) known
    | inl valid ↦
        fetched-Grows (process_manifest lib disk fuel) (manifest-Grows fuel) _
          (lib.hex d.digest ∷ refs) refs' (rw (valid, process_manifest) at h) hex
          (ground (arith, known))
  ]

  pub index-grows :
      (fuel : ℕ) (m : Dict Descriptor) (refs refs' : List Text)
      → process_index lib disk fuel m refs ≡ some refs'
      → (hex : Text) → referenced hex refs ≡ true
      → referenced hex refs' ≡ true
  unfolding process_index
  index-grows fuel [] refs refs' h hex known = let same : refs ≡ refs' = cc in rw (← same) known
  index-grows fuel ((k, d) ∷ m) refs refs' h hex known =
      elim (Option-cases (process_manifest lib disk fuel d refs)) [
        | inl dry ↦ cc (rw (dry, process_index) at h)
        | inr (refs1, done) ↦
            index-grows fuel m refs1 refs' (rw (done, process_index) at h) hex
              (manifest-Grows fuel d refs refs1 done hex known)
      ]
