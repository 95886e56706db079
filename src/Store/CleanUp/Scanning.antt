-- ===== src/Store/CleanUp/Scanning.antt =====
-- The scan of CleanUp over the blob directory, and what a CleanUp keeps and removes.
use mathlib.Core.Path.{subst}
use mathlib.Core.List.{Memᴰ}
use hauler.Base.{
  ℕ, ◌+◌, ◌≡◌, refl, ap, sym, ◌∙◌, true, ◌||◌, Option, none, some, List, [], ◌∷◌, Text,
  Option-cases, Bool-cases, inl, inr, arith, length, All,
}
use hauler.Base.Dict
use hauler.Base.Dict.{Dict}
use hauler.Content.Descriptor.{Descriptor}
use hauler.Content.Reference.{Named}
use hauler.Content.Index.{Oci, load_index}
use hauler.Store.Manifest.{BlobLib, Disk}
use hauler.Store.Check.Graph.{Reaches}
use hauler.Store.CleanUp.{
  referenced, DirEntry, Cleaned, info_size, scan, sweep, process_index, clean_up,
}
use hauler.Store.CleanUp.Marking.{index-marks}

scan-keeps :
    (refs : List Text) (entries : List DirEntry) (e : DirEntry)
    → Memᴰ e entries
    → (e.is_dir || referenced e.name refs) ≡ true
    → Memᴰ e (scan refs entries).remaining
unfolding scan
scan-keeps refs [] e member kept = elim member [ ]
scan-keeps refs (x ∷ entries) e (Memᴰ.head same) kept =
    let stays : (x.is_dir || referenced x.name refs) ≡ true =
      ap (λ (y : DirEntry). y.is_dir || referenced y.name refs) (sym same) ∙ kept in
    rw (stays, scan) (Memᴰ.head same)
scan-keeps refs (x ∷ entries) e (Memᴰ.tail member) kept =
    let below = scan-keeps refs entries e member kept in
    elim (Bool-cases (x.is_dir || referenced x.name refs)) [
      | inl stays ↦ rw (stays, scan) (Memᴰ.tail below)
      | inr goes ↦ elim (Bool-cases x.removable) [
        | inl removed ↦ rw (goes, removed, scan) below
        | inr refused ↦ rw (goes, refused, scan) (Memᴰ.tail member)
      ]
    ]

pub total_size : List DirEntry → ℕ
total_size [] = 0
total_size (e ∷ entries) = info_size e + total_size entries

scan-count :
    (refs : List Text) (entries : List DirEntry)
    → (scan refs entries).count + length (scan refs entries).remaining ≡ length entries
unfolding scan
scan-count refs [] = refl
scan-count refs (e ∷ entries) = ground (arith, scan-count refs entries)

abbrev pub Stays : List Text → DirEntry → Type 0
Stays refs e = (e.is_dir || referenced e.name refs) ≡ true

-- a scan that removes what it can: the sizes add up, and no unreferenced file remains
scan-removes :
    (refs : List Text) (entries : List DirEntry)
    → (scan refs entries).failed ≡ none
    → ((scan refs entries).size + total_size (scan refs entries).remaining ≡ total_size entries)
      × All (Stays refs) (scan refs entries).remaining
unfolding scan total_size
scan-removes refs [] done = (refl, tt)
scan-removes refs (e ∷ entries) done = elim (Bool-cases (e.is_dir || referenced e.name refs)) [
  | inl stays ↦
      let (sizes, all_stay) = scan-removes refs entries (rw (stays, scan) at done) in
      rw (stays, scan) (omega (arith, sizes), (stays, all_stay))
  | inr goes ↦ elim (Bool-cases e.removable) [
    | inr refused ↦ cc (rw (goes, refused, scan) at done)
    | inl removed ↦
        let (sizes, all_stay) = scan-removes refs entries (rw (goes, removed, scan) at done) in
        rw (goes, removed, scan) (omega (arith, sizes), all_stay)
  ]
]

module _ (lib : BlobLib) (disk : Disk) (parse_reference : Text → Option Named) where
  sweep_lem :
      (fuel : ℕ) (entries : List DirEntry) (m : Dict Descriptor) (cleaned : Cleaned)
      → sweep lib disk fuel (some entries) m ≡ some (inr cleaned)
      → (refs : List Text) × (process_index lib disk fuel m [] ≡ some refs)
        × (scan refs entries ≡ cleaned)
  unfolding sweep
  sweep_lem fuel entries m cleaned h = elim (Option-cases (process_index lib disk fuel m [])) [
    | inl dry ↦ cc (rw (dry, sweep) at h)
    | inr (refs, marked) ↦ (refs, marked, ground (arith, marked))
  ]

  clean_up-scan :
      (fuel : ℕ) (entries : List DirEntry) (s : Oci) (cleaned : Cleaned)
      → (clean_up lib disk parse_reference fuel (some entries) s).0 ≡ some (inr cleaned)
      → (refs : List Text) × (process_index lib disk fuel
            (clean_up lib disk parse_reference fuel (some entries) s).1.name_map
            []
          ≡ some refs)
        × (scan refs entries ≡ cleaned)
  unfolding clean_up
  clean_up-scan fuel entries s cleaned h = elim (Option-cases (load_index parse_reference s).0) [
    | inr (x, bad) ↦ absurd (ground (arith, bad))
    | inl ok ↦
        let s1 = (load_index parse_reference s).1 in
        elim (Option-cases (load_index parse_reference s1).0) [
          | inr (x, bad) ↦ absurd (ground (arith, ok, bad))
          | inl ok_walk ↦
              rw (ok, ok_walk, clean_up)
                (sweep_lem fuel entries (load_index parse_reference s1).1.name_map cleaned
                  (rw (ok, ok_walk, clean_up) at h))
        ]
  ]

  -- A CleanUp that scans the directory keeps the file of every blob in the descriptor graph of an entry
  -- of the index that has a valid digest, whether or not a removal fails on the way.
  pub clean_up-keeps :
      (fuel : ℕ) (entries : List DirEntry) (s : Oci) (cleaned : Cleaned)
      → (clean_up lib disk parse_reference fuel (some entries) s).0 ≡ some (inr cleaned)
      → (k : Text) (d e : Descriptor)
      → Dict.lookup k (clean_up lib disk parse_reference fuel (some entries) s).1.name_map ≡ some d
      → lib.valid d.digest ≡ true
      → Reaches lib disk d e
      → (x : DirEntry) → Memᴰ x entries
      → x.name ≡ lib.hex e.digest
      → Memᴰ x cleaned.remaining
  clean_up-keeps fuel entries s cleaned h k d e hit valid r x member named =
      let (refs, marked, scanned) = clean_up-scan fuel entries s cleaned h in
      let known =
        index-marks lib disk fuel
          (clean_up lib disk parse_reference fuel (some entries) s).1.name_map [] refs marked k d e
          hit valid r in
      rw (← scanned) (
        scan-keeps refs entries x member
          (ground (arith, named, ap (λ n. referenced n refs) named, known)))

  -- A CleanUp that scans the directory and fails to remove no file counts the files that it removed and
  -- what they held together, and what remains are directories and files whose name the marks of the
  -- index hold.
  pub clean_up-removes :
      (fuel : ℕ) (entries : List DirEntry) (s : Oci) (cleaned : Cleaned)
      → (clean_up lib disk parse_reference fuel (some entries) s).0 ≡ some (inr cleaned)
      → cleaned.failed ≡ none
      → (refs : List Text) × (process_index lib disk fuel
            (clean_up lib disk parse_reference fuel (some entries) s).1.name_map
            []
          ≡ some refs)
        × All (Stays refs) cleaned.remaining
        × (cleaned.count + length cleaned.remaining ≡ length entries)
        × (cleaned.size + total_size cleaned.remaining ≡ total_size entries)
  clean_up-removes fuel entries s cleaned h none_failed =
      let (refs, marked, scanned) = clean_up-scan fuel entries s cleaned h in
      let (sizes, stay) = scan-removes refs entries (rw scanned none_failed) in
      (
        refs,
        marked,
        subst (λ (c : Cleaned). All (Stays refs) c.remaining) scanned stay,
        rw (← scanned) (scan-count refs entries),
        rw (← scanned) sizes,
      )
