-- ===== src/Content/Index/Saving.antt =====
-- What a save leaves on disk, and that a load of it gives the name map back.
use hauler.Base.{
  inr, ℕ, ◌≡◌, refl, ap, sym, ◌∙◌, ◌⊎◌, Bool, true, Option, none, some, [], ◌∷◌, ◌++◌, Text,
  text_eq_iff, arith, select, is_some,
}
use hauler.Base.Dict
use hauler.Base.Dict.{Dict, lookup-insert}
use hauler.Content.Descriptor.{Descriptor}
use hauler.Content.Reference.{Named}
use hauler.Content.Index.{
  Error, dir_sync_failed, listing, Oci, SaveIo, new_oci, ranged, sorts_before, sort_stable, values,
  before_rename, after_rename, save_index, load_entries, load_index, IsSynced,
}
use hauler.Content.Index.Canonical.{IsCanonical, ranged-IsCanonical, load_entry-IsEntry}
use hauler.Content.Index.Sorting.{
  is_image_kind, other, sort_lem, sort_entries, values-sort, lookup-sort, IsCanonical-IsDistinct,
  sort-IsCanonical,
}

-- an entry of the first map, or else of the second
abbrev or_else : Option Descriptor → Option Descriptor → Option Descriptor
or_else none o = o
or_else (some d) o = some d

or_else-none : (o : Option Descriptor) → or_else o none ≡ o
or_else-none none = refl
or_else-none (some d) = refl

or_else_self : (o : Option Descriptor) → or_else o o ≡ o
or_else_self none = refl
or_else_self (some d) = refl

module _ (parse_reference : Text → Option Named) where
  -- loading the entries of a canonical map overrides what was there by that map
  pub lookup-load :
      (j : Text) (acc m : Dict Descriptor)
      → IsCanonical parse_reference m
      → Dict.lookup j (load_entries parse_reference acc (values m))
        ≡ or_else (Dict.lookup j m) (Dict.lookup j acc)
  unfolding load_entries Dict.lookup
  lookup-load j acc [] h = refl
  lookup-load j acc ((k, d) ∷ m) (e, fresh, h) = ground (
    arith,
    ap (λ (a : Dict Descriptor). Dict.lookup j (load_entries parse_reference a (values m)))
        (load_entry-IsEntry parse_reference acc e),
    lookup-load j (Dict.insert k d acc) m h,
    lookup-insert k j d acc,
    text_eq_iff k j,
  )

file-after_rename :
    (io : SaveIo) (now : ℕ) (durable : Bool) (s : Oci)
    → (after_rename io now durable s).1.file ≡ s.file
unfolding after_rename
file-after_rename io now durable s = ground arith

-- A save that reaches the rename has written the descriptors with their reference names: the images
-- and image indexes first, then all other artifacts, each part in the order of the name map.
pub save-images_first :
    (io : SaveIo) (now : ℕ) (durable : Bool) (s : Oci)
    → is_some s.index ≡ true
    → before_rename io durable ≡ none
    → (save_index io now durable s).1.file
      ≡ listing (
          select is_image_kind (values (ranged s.name_map))
          ++ select (other is_image_kind) (values (ranged s.name_map)))
unfolding save_index
save-images_first io now durable s loaded reached = rw loaded (
    rw reached (
      file-after_rename io now durable _
      ∙ ap listing (sort_lem is_image_kind (values (ranged s.name_map)))))

-- A save that fails before the rename leaves index.json as it was. Only the directory's fsync can fail after it.
pub save-atomic :
    (io : SaveIo) (now : ℕ) (durable : Bool) (s : Oci) (e : Error)
    → (save_index io now durable s).0 ≡ some e
    → ((save_index io now durable s).1.file ≡ s.file)
      ⊎ ((e ≡ dir_sync_failed)
          × ((save_index io now durable s).1.last_durable_save ≡ s.last_durable_save))
unfolding save_index
save-atomic io now durable s e failed = ground arith

module _ (parse_reference : Text → Option Named) where
  -- a save of a canonical map writes the values of its sorted entries
  file_saved :
      (io : SaveIo) (now : ℕ) (durable : Bool) (s : Oci)
      → IsCanonical parse_reference s.name_map
      → is_some s.index ≡ true
      → before_rename io durable ≡ none
      → (save_index io now durable s).1.file
        ≡ listing (values (sort_entries sorts_before s.name_map))
  unfolding save_index
  file_saved io now durable s canonical loaded reached = rw loaded (
      rw reached (
        file-after_rename io now durable _
        ∙ ap listing (
            ap (λ (m : Dict Descriptor). sort_stable sorts_before (values m))
              (ranged-IsCanonical parse_reference s.name_map canonical)
            ∙ sym (values-sort sorts_before s.name_map))))

  -- what a save of a canonical map wrote can be loaded
  pub load_saved :
      (io : SaveIo) (now : ℕ) (durable : Bool) (s : Oci)
      → IsCanonical parse_reference s.name_map
      → is_some s.index ≡ true
      → before_rename io durable ≡ none
      → (load_index parse_reference (save_index io now durable s).1).0 ≡ none
  unfolding load_index
  load_saved io now durable s canonical loaded reached =
      rw (file_saved io now durable s canonical loaded reached) refl

  pub name_map_saved :
      (io : SaveIo) (now : ℕ) (durable : Bool) (s : Oci)
      → IsCanonical parse_reference s.name_map
      → (save_index io now durable s).1.name_map ≡ s.name_map
  unfolding save_index
  name_map_saved io now durable s canonical =
      ground (arith, ranged-IsCanonical parse_reference s.name_map canonical)

  -- a load by the process that saved the map changes no entry
  pub lookup-reload :
      (io : SaveIo) (now : ℕ) (durable : Bool) (s : Oci) (k : Text)
      → IsCanonical parse_reference s.name_map
      → is_some s.index ≡ true
      → before_rename io durable ≡ none
      → Dict.lookup k (load_index parse_reference (save_index io now durable s).1).1.name_map
        ≡ Dict.lookup k s.name_map
  unfolding load_index
  lookup-reload io now durable s k canonical loaded reached =
      let m = sort_entries sorts_before s.name_map in
      rw (file_saved io now durable s canonical loaded reached) (
        lookup-load parse_reference k _ m (sort-IsCanonical parse_reference s.name_map canonical)
        ∙ ap (or_else (Dict.lookup k m))
            (ap (Dict.lookup k) (name_map_saved io now durable s canonical))
        ∙ ap (λ (o : Option Descriptor). or_else o (Dict.lookup k s.name_map))
            (lookup-sort sorts_before k s.name_map
              (IsCanonical-IsDistinct parse_reference s.name_map canonical))
        ∙ or_else_self _)

  -- Saving and loading in a new process gives the name map back: every key has the descriptor that
  -- it had, if each entry stood under the key of its reference and kind.
  pub load-save :
      (io : SaveIo) (now : ℕ) (durable : Bool) (s : Oci) (k : Text)
      → IsCanonical parse_reference s.name_map
      → is_some s.index ≡ true
      → before_rename io durable ≡ none
      → Dict.lookup k
          (load_index parse_reference (new_oci (save_index io now durable s).1.file)).1.name_map
        ≡ Dict.lookup k s.name_map
  unfolding load_index Dict.lookup
  load-save io now durable s k canonical loaded reached =
      let m = sort_entries sorts_before s.name_map in
      rw (file_saved io now durable s canonical loaded reached) (
        lookup-load parse_reference k [] m (sort-IsCanonical parse_reference s.name_map canonical)
        ∙ or_else-none _
        ∙ lookup-sort sorts_before k s.name_map
            (IsCanonical-IsDistinct parse_reference s.name_map canonical))

-- a save that reports no error has reached the rename, of a loaded index
pub save_succeeded :
    (io : SaveIo) (now : ℕ) (durable : Bool) (s : Oci)
    → (save_index io now durable s).0 ≡ none
    → (is_some s.index ≡ true) × (before_rename io durable ≡ none)
unfolding save_index
save_succeeded io now durable s h = ground arith

-- after a save that succeeded the process has what index.json holds
pub save_index-IsSynced :
    (io : SaveIo) (now : ℕ) (durable : Bool) (s : Oci)
    → (save_index io now durable s).0 ≡ none
    → IsSynced (save_index io now durable s).1
unfolding save_index after_rename
save_index-IsSynced io now durable s h =
    let (loaded, reached) = save_succeeded io now durable s h in
    let descs = sort_stable sorts_before (values (ranged s.name_map)) in
    let indexed : (save_index io now durable s).1.index ≡ some descs =
      ground (arith, loaded, reached, h) in
    let filed : (save_index io now durable s).1.file ≡ listing descs =
      ground (arith, loaded, reached, h) in
    inr (inr (descs, indexed, filed))
