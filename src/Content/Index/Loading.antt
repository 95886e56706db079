-- ===== src/Content/Index/Loading.antt =====
-- A load makes the name map canonical: each entry of index.json is stored under its key.
use hauler.Base.{
  has_prefix, ◌≡◌, refl, inl, inr, true, Option, none, some, List, [], ◌∷◌, Text, text_eq,
  Bool-cases, Option-cases, is_some,
}
use hauler.Base.Dict
use hauler.Base.Dict.{lookup-insert_self, lookup-insert_ne, get_or-lookup, Dict, lookup-insert}
use hauler.Consts.{ref_name_key, kind_key, kind_image, normalize_legacy_kind}
use hauler.Consts.Legacy.{normalize_idem}
use hauler.Content.Descriptor.{Descriptor, annotation}
use hauler.Content.Reference.{Named, parse}
use hauler.Content.Index.{
  Oci, IndexFile, missing, unreadable, malformed, listing, entry_key, default_kind, with_kind,
  normalized, load_entry, load_entries, load_file, load_index, new_oci, IsSynced,
}
use hauler.Content.Index.Canonical.{IsCanonical, IsEntry, insert-IsCanonical}

default_kind_image : default_kind kind_image ≡ kind_image
unfolding default_kind normalize_legacy_kind has_prefix text_eq
default_kind_image = refl

default_kind_idem : (k : Text) → default_kind (default_kind k) ≡ default_kind k
unfolding default_kind
default_kind_idem k = elim (Bool-cases (text_eq (normalize_legacy_kind k) [])) [
  | inl empty ↦ rw empty default_kind_image
  | inr kept ↦ rw kept (rw (normalize_idem k) (rw kept refl))
]

kind-normalized :
    (d : Descriptor) → annotation kind_key (normalized d) ≡ default_kind (annotation kind_key d)
unfolding normalized with_kind
kind-normalized d = get_or-lookup kind_key [] _ (lookup-insert_self kind_key _ d.annotations)

ref-normalized :
    (d : Descriptor)
    → Dict.lookup ref_name_key (normalized d).annotations ≡ Dict.lookup ref_name_key d.annotations
unfolding normalized with_kind text_eq
ref-normalized d = lookup-insert_ne kind_key ref_name_key _ d.annotations refl

has_kind_normalized :
    (d : Descriptor) → is_some (Dict.lookup kind_key (normalized d).annotations) ≡ true
unfolding normalized with_kind
has_kind_normalized d =
    rw (lookup-insert_self kind_key (default_kind (annotation kind_key d)) d.annotations) refl

module _ (parse_reference : Text → Option Named) (empty_refused : parse_reference [] ≡ none) where
  -- the empty reference does not parse
  has_ref_of_parsed :
      (d : Descriptor) {key : Named}
      → parse parse_reference (annotation ref_name_key d) ≡ some key
      → is_some (Dict.lookup ref_name_key d.annotations) ≡ true
  unfolding parse
  has_ref_of_parsed d parsed = elim (Option-cases (Dict.lookup ref_name_key d.annotations)) [
    | inl absent ↦
        let at_empty = rw (get_or-lookup ref_name_key [] d.annotations absent) at parsed in
        cc (rw (empty_refused, parse) at at_empty)
    | inr (v, present) ↦ rw present refl
  ]

  normalized-IsEntry :
      (d : Descriptor) (key : Named) (k : Text)
      → parse parse_reference (annotation ref_name_key d) ≡ some key
      → entry_key key (default_kind (annotation kind_key d)) ≡ some k
      → IsEntry parse_reference k (normalized d)
  normalized-IsEntry d key k parsed keyed = record {
    key = key;
    parsed =
        rw (get_or-lookup ref_name_key [] _ (ref-normalized d))
          (rw (← get_or-lookup ref_name_key [] d.annotations refl) parsed);
    keyed = rw (kind-normalized d) keyed;
    current = rw (kind-normalized d) (default_kind_idem _);
    has_kind = has_kind_normalized d;
    has_ref = rw (ref-normalized d) (has_ref_of_parsed d parsed);
  }

  load_entry-IsCanonical :
      (m : Dict Descriptor) (d : Descriptor)
      → IsCanonical parse_reference m
      → IsCanonical parse_reference (load_entry parse_reference m d)
  unfolding load_entry
  load_entry-IsCanonical m d h =
      elim (Option-cases (parse parse_reference (annotation ref_name_key d))) [
        | inl unparsed ↦
            let same : load_entry parse_reference m d ≡ m = rw (unparsed, load_entry) refl in
            rw same h
        | inr (key, parsed) ↦
            elim (Option-cases (entry_key key (default_kind (annotation kind_key d)))) [
              | inl dashes ↦
                  let same : load_entry parse_reference m d ≡ m =
                    rw (parsed, load_entry) (rw dashes refl) in
                  rw same h
              | inr (k, keyed) ↦
                  let stored : load_entry parse_reference m d ≡ Dict.insert k (normalized d) m =
                    rw (parsed, load_entry) (rw keyed refl) in
                  rw stored (
                    insert-IsCanonical parse_reference k (normalized d) m
                      (normalized-IsEntry d key k parsed keyed) h)
            ]
      ]

  pub load_entries-IsCanonical :
      (m : Dict Descriptor) (ds : List Descriptor)
      → IsCanonical parse_reference m
      → IsCanonical parse_reference (load_entries parse_reference m ds)
  unfolding load_entries
  load_entries-IsCanonical m [] h = h
  load_entries-IsCanonical m (d ∷ ds) h =
      load_entries-IsCanonical (load_entry parse_reference m d) ds (load_entry-IsCanonical m d h)

  -- a load of index.json keeps every entry of the name map under its own key
  pub load_index-IsCanonical :
      (s : Oci)
      → IsCanonical parse_reference s.name_map
      → IsCanonical parse_reference (load_index parse_reference s).1.name_map
  unfolding load_index
  load_index-IsCanonical s h = by_file s.file
    where
      by_file :
          (f : IndexFile) → IsCanonical parse_reference (load_file parse_reference f s).1.name_map
      by_file missing = h
      by_file unreadable = h
      by_file malformed = h
      by_file (listing ds) = load_entries-IsCanonical s.name_map ds h

  -- After the first load of a process, whatever index.json holds, every entry of the name map stands
  -- under the key of its reference and kind, once, if the empty reference does not parse; and the
  -- process has no other index than the file.
  pub load_index-new_oci :
      (f : IndexFile)
      → IsCanonical parse_reference (load_index parse_reference (new_oci f)).1.name_map
        × IsSynced (load_index parse_reference (new_oci f)).1
  unfolding load_index load_file
  load_index-new_oci f = (load_index-IsCanonical (new_oci f) tt, synced f)
    where
      synced : (f : IndexFile) → IsSynced (load_index parse_reference (new_oci f)).1
      synced missing = inr (inl refl)
      synced unreadable = inl refl
      synced malformed = inl refl
      synced (listing ds) = inr (inr (ds, refl, refl))
