-- ===== src/Content/Index/Retrying.antt =====
-- An AddIndex whose save failed, and the same AddIndex again.
use hauler.Base.{
  inl, inr, ℕ, ◌-◌, leb, ◌≡◌, refl, ap, ◌∙◌, Bool, true, false, Option, none, some, List, [], ◌∷◌,
  Text, text_eq, text_eq_iff, text_eq_refl, arith, Bool-cases, is_some,
}
use hauler.Base.Dict
use hauler.Base.Dict.{Dict, lookup-insert_self}
use hauler.Base.Int.{ℤ, pos, negsuc}
use hauler.Content.Descriptor.{
  Descriptor, Platform, texts_eq, size_eq, submap, maps_eq, platform_eq, platform_fields_eq,
  descriptors_equal,
}
use hauler.Content.Reference.{Named}
use hauler.Content.Index.{
  Error, Oci, SaveIo, checkpoint_interval, save_index, save_index_checkpoint, before_rename,
  with_ref_name, ranged,
}
use hauler.Content.Index.Operations.{already_stored, add_index}
use hauler.Content.Index.Canonical.{IsEntry, with_ref_name-IsEntry}
use hauler.Content.Index.Sorting.{IsDistinct}
use hauler.Content.Index.Adding.{add_stores}

submap-cons :
    (l m : Dict Text) (k v : Text)
    → Dict.lookup k l ≡ none
    → submap l m ≡ true
    → submap l ((k, v) ∷ m) ≡ true
unfolding submap Dict.lookup
submap-cons [] m k v fresh h = refl
submap-cons ((j, w) ∷ l) m k v fresh h =
    ground (arith, submap-cons l m k v, text_eq_iff k j, text_eq_iff j k)

submap_self : (m : Dict Text) → IsDistinct m → submap m m ≡ true
unfolding submap Dict.lookup
submap_self [] h = refl
submap_self ((k, v) ∷ m) (fresh, h) =
    ground (arith, text_eq_refl k, text_eq_refl v, submap-cons m m k v fresh (submap_self m h))

texts_eq_refl : (ts : List Text) → texts_eq ts ts ≡ true
unfolding texts_eq
texts_eq_refl [] = refl
texts_eq_refl (t ∷ ts) = ground (arith, text_eq_refl t, texts_eq_refl ts)

size_eq_refl : (n : ℤ) → size_eq n n ≡ true
unfolding size_eq
size_eq_refl (pos n) = ground arith
size_eq_refl (negsuc n) = ground arith

platform_eq_refl : (p : Option Platform) → platform_eq p p ≡ true
unfolding platform_eq platform_fields_eq
platform_eq_refl none = refl
platform_eq_refl (some p) = simp (text_eq_refl, texts_eq_refl)

maps_eq_refl : (m : Dict Text) → IsDistinct m → maps_eq m m ≡ true
unfolding maps_eq
maps_eq_refl m h = rw (submap_self m h) (ground arith)

pub descriptors_equal_refl :
    (d : Descriptor) → IsDistinct d.annotations → descriptors_equal d d ≡ true
unfolding descriptors_equal
descriptors_equal_refl d h =
    simp (text_eq_refl, texts_eq_refl, size_eq_refl, platform_eq_refl, maps_eq_refl d.annotations h)

lookup-ranged :
    (k : Text) (m : Dict Descriptor) (d : Descriptor)
    → Dict.lookup k m ≡ some d
    → Dict.lookup k (ranged m) ≡ some (with_ref_name d)
unfolding ranged Dict.lookup
lookup-ranged k [] d h = cc
lookup-ranged k ((j, e) ∷ m) d h = elim (Bool-cases (text_eq j k)) [
  | inl same ↦ ground (arith, same)
  | inr other ↦ rw other (lookup-ranged k m d (rw other at h))
]

-- a save that fails before the rename keeps the file and the name map that it ranged over
save_failed :
    (io : SaveIo) (now : ℕ) (durable : Bool) (s : Oci) (x : Error)
    → before_rename io durable ≡ some x
    → is_some s.index ≡ true
    → ((save_index io now durable s).1.file ≡ s.file)
      × ((save_index io now durable s).1.name_map ≡ ranged s.name_map)
unfolding save_index
save_failed io now durable s x failed loaded = rw loaded (rw failed (refl, refl))

module _ (parse_reference : Text → Option Named) where
  stored_already :
      (io : SaveIo) (now : ℕ) (k : Text) (d : Descriptor) (s : Oci)
      → IsEntry parse_reference k d
      → already_stored k d s.name_map ≡ true
      → add_index parse_reference io now d s ≡ (none, s)
  unfolding add_index
  stored_already io now k d s e held = rw e.has_ref (rw e.parsed (rw e.keyed (rw held refl)))

  -- When the save of an AddIndex fails before its rename, the descriptor stays in the name map. The
  -- same AddIndex again then reports success, whatever the file system answers, without a save:
  -- index.json stays as it was before the first call.
  pub add_index-after_failure :
      (io io' : SaveIo) (now now' : ℕ) (k : Text) (d : Descriptor) (s : Oci) (x : Error)
      → IsEntry parse_reference k d
      → IsDistinct d.annotations
      → already_stored k d s.name_map ≡ false
      → is_some s.index ≡ true
      → before_rename io (leb checkpoint_interval (now - s.last_durable_save)) ≡ some x
      → (add_index parse_reference io' now' d (add_index parse_reference io now d s).1
          ≡ (none, (add_index parse_reference io now d s).1))
        × ((add_index parse_reference io now d s).1.file ≡ s.file)
  unfolding save_index_checkpoint already_stored
  add_index-after_failure io io' now now' k d s x e distinct new loaded failed =
      let stored : Oci = record s { name_map = Dict.insert k d s.name_map } in
      let durable = leb checkpoint_interval (now - s.last_durable_save) in
      let (same_file, map_kept) = save_failed io now durable stored x failed loaded in
      let held : Dict.lookup k (save_index io now durable stored).1.name_map ≡ some d =
        ap (Dict.lookup k) map_kept
        ∙ lookup-ranged k stored.name_map d (lookup-insert_self k d s.name_map)
        ∙ ap some (with_ref_name-IsEntry parse_reference e) in
      rw (add_stores parse_reference io now k d s e new) (
        stored_already io' now' k d (save_index io now durable stored).1 e
            (rw (held, already_stored) (descriptors_equal_refl d distinct)),
        same_file,
      )
