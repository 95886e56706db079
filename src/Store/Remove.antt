-- ===== src/Store/Remove.antt =====
-- pkg/store/store.go, RemoveArtifact.
use hauler.Base.{[], ℕ, ◌≡◌, ◌∙◌, ap, true, Option, none, some, Text, text_eq, if◌then◌else◌, arith}
use hauler.Base.Dict
use hauler.Base.Dict.{Dict, lookup-remove}
use hauler.Content.Reference.{Named}
use hauler.Content.Index.{Error, Oci, SaveIo, save_index, load_index, IsSynced}
use hauler.Content.Index.Operations.{remove_from_index, resolve}
use hauler.Content.Index.Canonical.{IsCanonical, remove-IsCanonical}
use hauler.Content.Index.Loading.{load_index-IsCanonical}
use hauler.Content.Index.Saving.{save_index-IsSynced}
use hauler.Content.Index.Adding.{found, resolve-save}

module _ (parse_reference : Text → Option Named) where
  -- RemoveArtifact: load, drop the key, save durably
  unfoldable pub remove_artifact : SaveIo → ℕ → Text → Oci → Option Error × Oci
  remove_artifact io now reference s =
      let (e, loaded) = load_index parse_reference s in
      elim e [
        | some x ↦ (some x, loaded)
        | none ↦ save_index io now true (remove_from_index reference loaded)
      ]

  pub remove_saves :
      (io : SaveIo) (now : ℕ) (reference : Text) (s : Oci)
      → (remove_artifact io now reference s).0 ≡ none
      → remove_artifact io now reference s
        ≡ save_index io now true (remove_from_index reference (load_index parse_reference s).1)
  unfolding remove_artifact
  remove_saves io now reference s removed = ground arith

  -- After a RemoveArtifact that reports no error, the removed key no longer resolves, not even by the
  -- load that Resolve makes, and every other key resolves to what the load before the removal had for
  -- it; and the process has what index.json holds. The conditions: each entry of the name map stands
  -- under the key of its reference and kind, which a renaming by UpdateAnnotations can break; the
  -- process had no other index than index.json; and the empty reference does not parse.
  pub resolve-remove_artifact :
      parse_reference [] ≡ none
      → (io : SaveIo) (now : ℕ) (reference : Text) (s : Oci) (ref : Text)
      → IsCanonical parse_reference s.name_map
      → IsSynced s
      → (remove_artifact io now reference s).0 ≡ none
      → ((resolve parse_reference ref (remove_artifact io now reference s).1).0
          ≡ found ref (
              if text_eq reference ref
              then none
              else Dict.lookup ref (load_index parse_reference s).1.name_map))
        × IsSynced (remove_artifact io now reference s).1
  unfolding remove_from_index
  resolve-remove_artifact empty_refused io now reference s ref canonical synced removed =
      let eq = remove_saves io now reference s removed in
      let m = (load_index parse_reference s).1.name_map in
      let left = remove_from_index reference (load_index parse_reference s).1 in
      let saved : (save_index io now true left).0 ≡ none = rw eq at removed in
      rw eq (
        resolve-save parse_reference io now true left ref
              (remove-IsCanonical parse_reference reference m
                (load_index-IsCanonical parse_reference empty_refused s canonical))
              saved
            ∙ ap (found ref) (lookup-remove reference ref m),
        save_index-IsSynced io now true left saved,
      )
