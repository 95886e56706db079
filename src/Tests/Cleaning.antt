-- ===== src/Tests/Cleaning.antt =====
-- CleanUp on the same index, with a stale file in the directory.
use mathlib.Core.List.{Memᴰ}
use hauler.Base.{
  ◌+◌, ◌≡◌, refl, true, false, Option, none, some, List, [], ◌∷◌, Text, codes, text_eq, length, All,
  ◌⊎◌, inr, arith,
}
use hauler.Base.Dict
use hauler.Base.Dict.{Dict}
use hauler.Content.Reference.{Named}
use hauler.Content.Index.{Oci, new_oci, missing, load_file, load_index}
use hauler.Store.Manifest.{fetch}
use hauler.Store.CleanUp.{
  DirEntry, Cleaned, CleanUpError, scan, referenced, mark, process_list, process_fetched,
  process_manifest, process_index, sweep, clean_up,
}
use hauler.Store.CleanUp.Scanning.{Stays, total_size, clean_up-keeps, clean_up-removes}
use hauler.Store.CleanUp.Totality.{clean_up-total}
use hauler.Tests.Graph.{desc, lib, disk, rank, rank_falls, layer_reached}

abbrev no_reference : Text → Option Named
no_reference t = none

abbrev stored : Oci
stored = record (new_oci missing) { name_map = (codes "k", desc (codes "i")) ∷ [] }

abbrev blob_entry : Text → DirEntry
blob_entry name = record { name = name; is_dir = false; size = some 5; removable = true }

abbrev entries : List DirEntry
entries = blob_entry (codes "stale") ∷ blob_entry (codes "layer") ∷ []

abbrev cleaned : Cleaned
cleaned = record { count = 1; size = 5; failed = none; remaining = blob_entry (codes "layer") ∷ [] }

cleaned_so : (clean_up lib disk no_reference 3 (some entries) stored).0 ≡ some (inr cleaned)
unfolding clean_up load_index load_file sweep process_index process_manifest process_fetched
    process_list mark scan referenced fetch text_eq
cleaned_so = refl

clean_up-keeps_example : Memᴰ (blob_entry (codes "layer")) cleaned.remaining
unfolding Dict.lookup clean_up load_index load_file text_eq
clean_up-keeps_example =
    clean_up-keeps lib disk no_reference 3 entries stored cleaned cleaned_so (codes "k")
      (desc (codes "i")) (desc (codes "layer")) refl refl layer_reached (blob_entry (codes "layer"))
      (Memᴰ.tail (Memᴰ.head refl)) refl

clean_up-removes_example :
    (refs : List Text) × (process_index lib disk 3
        (clean_up lib disk no_reference 3 (some entries) stored).1.name_map
        []
      ≡ some refs)
    × All (Stays refs) cleaned.remaining
    × (cleaned.count + length cleaned.remaining ≡ length entries)
    × (cleaned.size + total_size cleaned.remaining ≡ total_size entries)
clean_up-removes_example =
    clean_up-removes lib disk no_reference 3 entries stored cleaned cleaned_so refl

clean_up-total_example :
    (x : CleanUpError ⊎ Cleaned) × ((clean_up lib disk no_reference 2 (some entries) stored).0
      ≡ some x)
unfolding load_index load_file text_eq
clean_up-total_example =
    clean_up-total lib disk rank rank_falls no_reference 2 (some entries) stored (omega arith, tt)
