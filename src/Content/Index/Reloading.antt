-- ===== src/Content/Index/Reloading.antt =====
-- Loading the same index.json again changes nothing.
use hauler.Base.{
  ◌≡◌, refl, sym, ap, ◌∙◌, Option, none, some, List, [], ◌∷◌, Text, text_eq, Option-cases, inl, inr,
  if◌then◌else◌, arith,
}
use hauler.Base.Dict
use hauler.Base.Dict.{Dict, lookup-insert}
use hauler.Consts.{ref_name_key, kind_key}
use hauler.Content.Descriptor.{Descriptor, annotation}
use hauler.Content.Reference.{Named, parse}
use hauler.Content.Index.{
  Oci, IndexFile, missing, unreadable, malformed, listing, entry_key, default_kind, normalized,
  load_entry, load_entries, load_file, load_index,
}

-- the later of two answers
abbrev or_else : Option Descriptor → Option Descriptor → Option Descriptor
or_else none o = o
or_else (some d) o = some d

module _ (parse_reference : Text → Option Named) where
  -- what one entry of the index stores under a key
  stored_as : Text → Descriptor → Option Descriptor
  stored_as k d = elim (parse parse_reference (annotation ref_name_key d)) [
    | none ↦ none
    | some key ↦ elim (entry_key key (default_kind (annotation kind_key d))) [
      | none ↦ none
      | some j ↦ if text_eq j k then some (normalized d) else none
    ]
  ]

  lookup-load_entry :
      (k : Text) (acc : Dict Descriptor) (d : Descriptor)
      → Dict.lookup k (load_entry parse_reference acc d)
        ≡ or_else (stored_as k d) (Dict.lookup k acc)
  unfolding load_entry stored_as
  lookup-load_entry k acc d =
      elim (Option-cases (parse parse_reference (annotation ref_name_key d))) [
        | inl bad ↦ rw (bad, load_entry, stored_as) refl
        | inr (key, parsed) ↦
            elim (Option-cases (entry_key key (default_kind (annotation kind_key d)))) [
              | inl unkeyed ↦ rw (parsed, unkeyed, load_entry, stored_as) refl
              | inr (j, keyed) ↦
                  rw (parsed, keyed, load_entry, stored_as)
                    (ground (arith, lookup-insert j k (normalized d) acc))
            ]
      ]

  -- the last of the entries that is stored under a key
  last_stored : Text → List Descriptor → Option Descriptor
  last_stored k [] = none
  last_stored k (d ∷ ds) = or_else (last_stored k ds) (stored_as k d)

  lookup-load_entries :
      (k : Text) (acc : Dict Descriptor) (ds : List Descriptor)
      → Dict.lookup k (load_entries parse_reference acc ds)
        ≡ or_else (last_stored k ds) (Dict.lookup k acc)
  unfolding load_entries last_stored
  lookup-load_entries k acc [] = refl
  lookup-load_entries k acc (d ∷ ds) =
      lookup-load_entries k (load_entry parse_reference acc d) ds
      ∙ ap (or_else (last_stored k ds)) (lookup-load_entry k acc d)
      ∙ or_else_assoc (last_stored k ds) (stored_as k d) (Dict.lookup k acc)
    where
      or_else_assoc :
          (a b c : Option Descriptor) → or_else a (or_else b c) ≡ or_else (or_else a b) c
      or_else_assoc none b c = refl
      or_else_assoc (some x) b c = refl

  again : (a b : Option Descriptor) → or_else a (or_else a b) ≡ or_else a b
  again none b = refl
  again (some x) b = refl

  load_file_again :
      (f : IndexFile) (s : Oci) (k : Text)
      → (Dict.lookup k (load_file parse_reference f (load_file parse_reference f s).1).1.name_map
          ≡ Dict.lookup k (load_file parse_reference f s).1.name_map)
        × ((load_file parse_reference f (load_file parse_reference f s).1).0
            ≡ (load_file parse_reference f s).0)
  unfolding load_file
  load_file_again missing s k = (refl, refl)
  load_file_again unreadable s k = (refl, refl)
  load_file_again malformed s k = (refl, refl)
  load_file_again (listing ds) s k = (
    lookup-load_entries k (load_entries parse_reference s.name_map ds) ds
        ∙ ap (or_else (last_stored k ds)) (lookup-load_entries k s.name_map ds)
        ∙ again (last_stored k ds) (Dict.lookup k s.name_map)
        ∙ sym (lookup-load_entries k s.name_map ds),
    refl,
  )

  file_kept : (f : IndexFile) (s : Oci) → (load_file parse_reference f s).1.file ≡ s.file
  unfolding load_file
  file_kept missing s = refl
  file_kept unreadable s = refl
  file_kept malformed s = refl
  file_kept (listing ds) s = refl

  -- A second load with the same index.json changes the entry of no key, and answers as the first.
  pub load_index_again :
      (s : Oci) (k : Text)
      → (Dict.lookup k (load_index parse_reference (load_index parse_reference s).1).1.name_map
          ≡ Dict.lookup k (load_index parse_reference s).1.name_map)
        × ((load_index parse_reference (load_index parse_reference s).1).0
            ≡ (load_index parse_reference s).0)
  unfolding load_index
  load_index_again s k = rw (file_kept s.file s) (load_file_again s.file s k)
