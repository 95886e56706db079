-- ===== src/Content/Index/Adding.antt =====
-- AddIndex, Resolve and RemoveArtifact together: what is added is found, what is removed is not.
use hauler.Base.{
  ℕ, ◌-◌, leb, ◌≡◌, refl, ap, ◌∙◌, ◌⊎◌, inl, inr, Bool, false, Option, none, some, Text, text_eq,
  arith, if◌then◌else◌,
}
use hauler.Base.Dict
use hauler.Base.Dict.{Dict, lookup-insert, lookup-remove}
use hauler.Content.Descriptor.{Descriptor}
use hauler.Content.Reference.{Named}
use hauler.Content.Index.{
  Error, not_found, Oci, SaveIo, checkpoint_interval, save_index, save_index_checkpoint, load_index,
}
use hauler.Content.Index.Operations.{already_stored, add_index, resolve}
use hauler.Content.Index.Canonical.{IsCanonical, IsEntry, insert-IsCanonical}
use hauler.Content.Index.Saving.{load_saved, lookup-reload, save_succeeded}

-- the answer of Resolve for the descriptor that the name map has
abbrev pub found : Text → Option Descriptor → Error ⊎ Descriptor
found ref none = inl (not_found ref)
found ref (some d) = inr d

module _ (parse_reference : Text → Option Named) where
  pub resolve_lem :
      (ref : Text) (s : Oci)
      → (load_index parse_reference s).0 ≡ none
      → (resolve parse_reference ref s).0
        ≡ found ref (Dict.lookup ref (load_index parse_reference s).1.name_map)
  unfolding resolve
  resolve_lem ref s loaded = ground arith

  -- Resolve after a save that succeeded answers from the name map that was saved
  pub resolve-save :
      (io : SaveIo) (now : ℕ) (durable : Bool) (s : Oci) (ref : Text)
      → IsCanonical parse_reference s.name_map
      → (save_index io now durable s).0 ≡ none
      → (resolve parse_reference ref (save_index io now durable s).1).0
        ≡ found ref (Dict.lookup ref s.name_map)
  unfolding resolve
  resolve-save io now durable s ref canonical saved =
      let (loaded, reached) = save_succeeded io now durable s saved in
      resolve_lem ref (save_index io now durable s).1
        (load_saved parse_reference io now durable s canonical loaded reached)
      ∙ ap (found ref) (lookup-reload parse_reference io now durable s ref canonical loaded reached)

  pub add_stores :
      (io : SaveIo) (now : ℕ) (k : Text) (d : Descriptor) (s : Oci)
      → IsEntry parse_reference k d
      → already_stored k d s.name_map ≡ false
      → add_index parse_reference io now d s
        ≡ save_index_checkpoint io now (record s { name_map = Dict.insert k d s.name_map })
  unfolding add_index
  add_stores io now k d s e new = rw e.has_ref (rw e.parsed (rw e.keyed (rw new refl)))

  -- After an AddIndex of a descriptor that the store does not hold yet, and that reports no error,
  -- Resolve of its key returns that descriptor, and Resolve of any other key what it returned for the
  -- name map before, if the entries stand under their keys.
  pub resolve-add_index :
      (io : SaveIo) (now : ℕ) (k : Text) (d : Descriptor) (s : Oci) (ref : Text)
      → IsCanonical parse_reference s.name_map
      → IsEntry parse_reference k d
      → already_stored k d s.name_map ≡ false
      → (add_index parse_reference io now d s).0 ≡ none
      → (resolve parse_reference ref (add_index parse_reference io now d s).1).0
        ≡ found ref (if text_eq k ref then some d else Dict.lookup ref s.name_map)
  unfolding save_index_checkpoint
  resolve-add_index io now k d s ref canonical e new added =
      let stored : Oci = record s { name_map = Dict.insert k d s.name_map } in
      let durable = leb checkpoint_interval (now - s.last_durable_save) in
      let eq = add_stores io now k d s e new in
      rw eq (
        resolve-save io now durable stored ref
          (insert-IsCanonical parse_reference k d s.name_map e canonical) (rw eq at added)
        ∙ ap (found ref) (lookup-insert k ref d s.name_map))
