-- ===== src/Content/Index/Canonical.antt =====
-- The entries of the name map that stand under the key that a load of index.json gives them.
use hauler.Base.{
  Bool-cases, inl, inr, ◌≡◌, refl, ap, true, Option, none, some, [], ◌∷◌, Text, text_eq,
  text_eq_iff, is_some, arith,
}
use mathlib.Core.Path.{subst}
use hauler.Base.Dict
use hauler.Base.Dict.{Dict, lookup-insert, lookup-remove}
use hauler.Consts.{ref_name_key, kind_key}
use hauler.Content.Descriptor.{Descriptor, annotation}
use hauler.Content.Reference.{Named, parse}
use hauler.Content.Index.{
  entry_key, default_kind, with_kind, normalized, with_ref_name, ranged, load_entry,
}

-- writing the value that a key has changes nothing
insert_same :
    (k : Text) (m : Dict Text)
    → is_some (Dict.lookup k m) ≡ true
    → Dict.insert k (Dict.get_or k [] m) m ≡ m
unfolding Dict.insert Dict.lookup Dict.get_or
insert_same k [] h = cc
insert_same k ((j, v) ∷ m) h = ground (arith, text_eq_iff j k, insert_same k m)

module _ (parse_reference : Text → Option Named) where
  -- `d` is stored under `k`: its reference parses to that key, and its kind is a current one.
  pub record IsEntry (k : Text) (d : Descriptor) : Type 0 where
    pub key : Named
    pub parsed : parse parse_reference (annotation ref_name_key d) ≡ some key
    pub keyed : entry_key key (annotation kind_key d) ≡ some k
    pub current : default_kind (annotation kind_key d) ≡ annotation kind_key d
    pub has_kind : is_some (Dict.lookup kind_key d.annotations) ≡ true
    pub has_ref : is_some (Dict.lookup ref_name_key d.annotations) ≡ true

  -- Every entry stands under its key, once.
  abbrev pub IsCanonical : Dict Descriptor → Type 0
  IsCanonical [] = Unit
  IsCanonical ((k, d) ∷ m) = IsEntry k d × (Dict.lookup k m ≡ none) × IsCanonical m

  pub with_ref_name-IsEntry : {k : Text} {d : Descriptor} → IsEntry k d → with_ref_name d ≡ d
  unfolding with_ref_name
  with_ref_name-IsEntry {d = d} e =
      ap (λ (a : Dict Text). record d { annotations = a })
        (insert_same ref_name_key d.annotations e.has_ref)

  pub normalized-IsEntry : {k : Text} {d : Descriptor} → IsEntry k d → normalized d ≡ d
  unfolding normalized with_kind
  normalized-IsEntry {d = d} e = rw e.current (
      ap (λ (a : Dict Text). record d { annotations = a })
        (insert_same kind_key d.annotations e.has_kind))

  pub load_entry-IsEntry :
      {k : Text} {d : Descriptor} (m : Dict Descriptor)
      → IsEntry k d
      → load_entry parse_reference m d ≡ Dict.insert k d m
  unfolding load_entry
  load_entry-IsEntry {d = d} m e =
      rw (e.parsed, load_entry) (rw e.current (rw e.keyed (rw (normalized-IsEntry e) refl)))

  pub ranged-IsCanonical : (m : Dict Descriptor) → IsCanonical m → ranged m ≡ m
  unfolding ranged
  ranged-IsCanonical [] h = refl
  ranged-IsCanonical ((k, d) ∷ m) (e, fresh, h) =
      cc (with_ref_name-IsEntry e, ranged-IsCanonical m h)

  pub insert-IsCanonical :
      (k : Text) (d : Descriptor) (m : Dict Descriptor)
      → IsEntry k d
      → IsCanonical m
      → IsCanonical (Dict.insert k d m)
  unfolding Dict.insert Dict.lookup
  insert-IsCanonical k d [] e h = (e, refl, tt)
  insert-IsCanonical k d ((j, v) ∷ m) e (ej, fresh, h) = elim (Bool-cases (text_eq j k)) [
    | inl same ↦
        rw same (e, subst (λ t. Dict.lookup t m ≡ none) ((text_eq_iff j k).0 same) fresh, h)
    | inr other ↦ rw other (
      ej,
      simp lookup-insert (ground (arith, text_eq_iff j k, text_eq_iff k j)),
      insert-IsCanonical k d m e h,
    )
  ]

  pub remove-IsCanonical :
      (k : Text) (m : Dict Descriptor) → IsCanonical m → IsCanonical (Dict.remove k m)
  unfolding Dict.remove
  remove-IsCanonical k [] h = tt
  remove-IsCanonical k ((j, v) ∷ m) (ej, fresh, h) = elim (Bool-cases (text_eq j k)) [
    | inl same ↦ rw same (remove-IsCanonical k m h)
    | inr other ↦ rw other (ej, simp lookup-remove (ground arith), remove-IsCanonical k m h)
  ]
