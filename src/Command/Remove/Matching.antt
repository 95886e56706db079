-- ===== src/Command/Remove/Matching.antt =====
-- What is left of the index once the matching artifacts are removed.
use hauler.Base.{
  ℕ, ◌≡◌, refl, ◌∙◌, Bool, true, false, ◌||◌, Option, none, some, List, [], ◌∷◌, Text, text_eq,
  text_eq_iff, text_eq_refl, Option-cases, Bool-cases, inl, inr, if◌then◌else◌, arith,
}
use hauler.Base.Dict
use hauler.Base.Dict.{Dict, lookup-remove}
use hauler.Content.Descriptor.{Descriptor}
use hauler.Content.Reference.{Named}
use hauler.Content.Index.{Oci, SaveIo, load_index, IsSynced}
use hauler.Content.Index.Operations.{remove_from_index}
use hauler.Content.Index.Canonical.{IsCanonical, remove-IsCanonical}
use hauler.Content.Index.Saving.{lookup-reload, save_succeeded, name_map_saved}
use hauler.Content.Index.Loading.{load_index-IsCanonical}
use hauler.Content.Index.Reloading.{load_index_again}
use hauler.Store.Remove.{remove_artifact, remove_saves}
use hauler.Command.Remove.{is_match, matches, remove_matches}

-- a key of the list
member : Text → List Text → Bool
member k [] = false
member k (j ∷ keys) = text_eq j k || member k keys

module _ (parse_reference : Text → Option Named) (empty_refused : parse_reference [] ≡ none)
    (io : SaveIo) (now : ℕ) where
  remove-reload :
      (k : Text) (s : Oci) (ref : Text)
      → IsCanonical parse_reference s.name_map
      → (remove_artifact parse_reference io now k s).0 ≡ none
      → (Dict.lookup ref
            (load_index parse_reference (remove_artifact parse_reference io now k s).1).1.name_map
          ≡ (if text_eq k ref
              then none
              else Dict.lookup ref (load_index parse_reference s).1.name_map))
        × IsCanonical parse_reference (remove_artifact parse_reference io now k s).1.name_map
  unfolding remove_from_index
  remove-reload k s ref canonical removed =
      let eq = remove_saves parse_reference io now k s removed in
      let m = (load_index parse_reference s).1.name_map in
      let without =
        remove-IsCanonical parse_reference k m
          (load_index-IsCanonical parse_reference empty_refused s canonical) in
      let left = remove_from_index k (load_index parse_reference s).1 in
      let (loaded, reached) = save_succeeded io now true left (rw eq at removed) in
      rw eq (
        lookup-reload parse_reference io now true left ref without loaded reached
            ∙ lookup-remove k ref m,
        rw (name_map_saved parse_reference io now true left without) without,
      )

  matches-reload :
      (keys : List Text) (s : Oci) (ref : Text)
      → IsCanonical parse_reference s.name_map
      → (remove_matches parse_reference io now keys s).0 ≡ none
      → Dict.lookup ref
          (load_index parse_reference (remove_matches parse_reference io now keys s).1).1.name_map
        ≡ (if member ref keys
            then none
            else Dict.lookup ref (load_index parse_reference s).1.name_map)
  unfolding remove_matches member
  matches-reload [] s ref canonical removed = refl
  matches-reload (k ∷ keys) s ref canonical removed =
      elim (Option-cases (remove_artifact parse_reference io now k s).0) [
        | inr (x, failed) ↦ absurd (ground (arith, failed, removed))
        | inl fine ↦
            let (here, canonical1) = remove-reload k s ref canonical fine in
            let s1 = (remove_artifact parse_reference io now k s).1 in
            let rest =
              matches-reload keys s1 ref canonical1 (rw (fine, remove_matches) at removed) in
            rw (fine, remove_matches) (rest ∙ ground (arith, here))
      ]

  unmatched :
      (query k : Text) (m : Dict Descriptor)
      → Dict.lookup k m ≡ none
      → member k (matches query m) ≡ false
  unfolding matches member Dict.lookup
  unmatched query k [] h = refl
  unmatched query k ((j, d) ∷ m) h = ground (arith, h, unmatched query k m, text_eq_iff j k)

  member-matches :
      (query k : Text) (d : Descriptor) (m : Dict Descriptor)
      → IsCanonical parse_reference m
      → Dict.lookup k m ≡ some d
      → member k (matches query m) ≡ is_match query k d
  unfolding matches member Dict.lookup
  member-matches query k d [] canonical h = cc
  member-matches query k d ((j, e) ∷ m) (ej, fresh, canonical) h = elim (Bool-cases (text_eq j k)) [
    | inr other ↦ ground (arith, other, h, member-matches query k d m canonical)
    | inl here ↦
        let same : j ≡ k = (text_eq_iff j k).0 here in
        let entry : e ≡ d = ground (arith, here, h) in
        let later = unmatched query k m (rw same at fresh) in
        rw (same, entry) (ground (arith, later, text_eq_refl k))
  ]

  -- When RemoveCmd's loop over the entries that match a query reports no error, the next load finds no
  -- entry that matched, and every entry that did not, unchanged. The conditions: each entry of the name
  -- map stood under the key of its reference and kind, which a renaming by UpdateAnnotations can break;
  -- the process had no other index than index.json; and the empty reference does not parse.
  pub remove_matches-lookup :
      (query : Text) (s : Oci) (k : Text) (d : Descriptor)
      → IsCanonical parse_reference s.name_map
      → IsSynced s
      → Dict.lookup k (load_index parse_reference s).1.name_map ≡ some d
      → (remove_matches parse_reference io now
          (matches query (load_index parse_reference s).1.name_map)
          (load_index parse_reference s).1).0
        ≡ none
      → Dict.lookup k
          (load_index parse_reference
            (remove_matches parse_reference io now
              (matches query (load_index parse_reference s).1.name_map)
              (load_index parse_reference s).1).1).1.name_map
        ≡ (if is_match query k d then none else some d)
  remove_matches-lookup query s k d canonical synced hit done =
      let loaded = (load_index parse_reference s).1 in
      let whole = load_index-IsCanonical parse_reference empty_refused s canonical in
      let kept : Dict.lookup k (load_index parse_reference loaded).1.name_map ≡ some d =
        (load_index_again parse_reference s k).0 ∙ hit in
      matches-reload (matches query loaded.name_map) loaded k whole done
      ∙ rw (member-matches query k d loaded.name_map whole hit, kept) refl
