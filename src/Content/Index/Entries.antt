-- ===== src/Content/Index/Entries.antt =====
-- A property of digests that every entry of the name map and of index.json has, through a save and
-- an AddIndex, in every outcome.
use hauler.Base.{
  ℕ, Bool-cases, Option-cases, Bool, true, Option, some, List, [], ◌∷◌, Text, text_eq, is_some,
  ◌==◌, All, inl, inr,
}
use hauler.Base.Dict
use hauler.Base.Dict.{Dict}
use hauler.Consts.{ref_name_key, kind_key}
use hauler.Content.Descriptor.{Descriptor, annotation}
use hauler.Content.Reference.{Named, parse}
use hauler.Content.Index.{
  Oci, SaveIo, IndexFile, missing, unreadable, malformed, listing, with_ref_name, ranged, values,
  insert_stable, sort_stable, sorts_before, before_rename, after_rename, save_index, entry_key,
  save_index_checkpoint, default_kind, normalized, with_kind, load_entry, load_entries, load_file,
  load_index,
}
use hauler.Content.Index.Operations.{
  already_stored, store_entry, add_index, update_entries, update_annotations,
}

abbrev pub Listed : (Text → Type 0) → IndexFile → Type 0
Listed P missing = Unit
Listed P unreadable = Unit
Listed P malformed = Unit
Listed P (listing ds) = All (λ (d : Descriptor). P d.digest) ds

abbrev pub InMap : (Text → Type 0) → Dict Descriptor → Type 0
InMap P m = All (λ (e : Text × Descriptor). P e.1.digest) m

pub record Everywhere (P : Text → Type 0) (s : Oci) : Type 0 where
  pub entries : InMap P s.name_map
  pub listed : Listed P s.file

module _ {P Q : Text → Type 0} (weaker : (t : Text) → P t → Q t) where
  list-weaker :
      (ds : List Descriptor)
      → All (λ (d : Descriptor). P d.digest) ds
      → All (λ (d : Descriptor). Q d.digest) ds
  list-weaker [] h = tt
  list-weaker (d ∷ ds) (p, h) = (weaker d.digest p, list-weaker ds h)

  map-weaker : (m : Dict Descriptor) → InMap P m → InMap Q m
  map-weaker [] h = tt
  map-weaker ((k, d) ∷ m) (p, h) = (weaker d.digest p, map-weaker m h)

  file-weaker : (f : IndexFile) → Listed P f → Listed Q f
  file-weaker missing h = tt
  file-weaker unreadable h = tt
  file-weaker malformed h = tt
  file-weaker (listing ds) h = list-weaker ds h

  pub Everywhere-weaker : (s : Oci) → Everywhere P s → Everywhere Q s
  Everywhere-weaker s h = record {
    entries = map-weaker s.name_map h.entries;
    listed = file-weaker s.file h.listed;
  }

module _ (P : Text → Type 0) where
  abbrev Each : List Descriptor → Type 0
  Each ds = All (λ (d : Descriptor). P d.digest) ds

  ranged-InMap : (m : Dict Descriptor) → InMap P m → InMap P (ranged m)
  unfolding ranged with_ref_name
  ranged-InMap [] h = tt
  ranged-InMap ((k, d) ∷ m) (p, h) = (p, ranged-InMap m h)

  values-Each : (m : Dict Descriptor) → InMap P m → Each (values m)
  values-Each [] h = tt
  values-Each ((k, d) ∷ m) (p, h) = (p, values-Each m h)

  insert_stable-Each :
      (d : Descriptor) (ds : List Descriptor)
      → P d.digest
      → Each ds
      → Each (insert_stable sorts_before d ds)
  unfolding insert_stable
  insert_stable-Each d [] p h = (p, tt)
  insert_stable-Each d (x ∷ ds) p (q, h) = elim (Bool-cases (sorts_before x d)) [
    | inl past ↦ rw past (q, insert_stable-Each d ds p h)
    | inr here ↦ rw here (p, (q, h))
  ]

  sort_stable-Each : (ds : List Descriptor) → Each ds → Each (sort_stable sorts_before ds)
  unfolding sort_stable
  sort_stable-Each [] h = tt
  sort_stable-Each (d ∷ ds) (p, h) =
      insert_stable-Each d (sort_stable sorts_before ds) p (sort_stable-Each ds h)

  insert-InMap :
      (k : Text) (d : Descriptor) (m : Dict Descriptor)
      → P d.digest
      → InMap P m
      → InMap P (Dict.insert k d m)
  unfolding Dict.insert
  insert-InMap k d [] p h = (p, tt)
  insert-InMap k d ((j, x) ∷ m) p (q, h) = elim (Bool-cases (text_eq j k)) [
    | inl same ↦ rw same (p, h)
    | inr other ↦ rw other (q, insert-InMap k d m p h)
  ]

  after_rename-Everywhere :
      (io : SaveIo) (now : ℕ) (durable : Bool) (s : Oci)
      → Everywhere P s
      → Everywhere P (after_rename io now durable s).1
  unfolding after_rename
  after_rename-Everywhere io now durable s h = elim (Bool-cases durable) [
    | inr quick ↦ rw quick record { entries = h.entries; listed = h.listed }
    | inl slow ↦ elim (Bool-cases io.sync_dir) [
      | inl synced ↦ rw slow (rw synced record { entries = h.entries; listed = h.listed })
      | inr failed ↦ rw slow (rw failed record { entries = h.entries; listed = h.listed })
    ]
  ]

  pub save_index-Everywhere :
      (io : SaveIo) (now : ℕ) (durable : Bool) (s : Oci)
      → Everywhere P s
      → Everywhere P (save_index io now durable s).1
  unfolding save_index
  save_index-Everywhere io now durable s h =
      let ds = sort_stable sorts_before (values (ranged s.name_map)) in
      let kept = ranged-InMap s.name_map h.entries in
      let sorted =
        sort_stable-Each (values (ranged s.name_map)) (values-Each (ranged s.name_map) kept) in
      elim (Bool-cases (is_some s.index)) [
        | inr no_index ↦ rw no_index record { entries = kept; listed = h.listed }
        | inl has_index ↦ elim (Option-cases (before_rename io durable)) [
          | inr (e, failed) ↦ rw has_index (rw failed record { entries = kept; listed = h.listed })
          | inl renamed ↦ rw has_index (
              rw renamed (
                after_rename-Everywhere io now durable
                  (record s { name_map = ranged s.name_map; index = some ds; file = listing ds })
                  (record { entries = kept; listed = sorted })))
        ]
      ]

  pub remove-InMap : (k : Text) (m : Dict Descriptor) → InMap P m → InMap P (Dict.remove k m)
  unfolding Dict.remove
  remove-InMap k [] h = tt
  remove-InMap k ((j, d) ∷ m) (p, h) = elim (Bool-cases (text_eq j k)) [
    | inl same ↦ rw same (remove-InMap k m h)
    | inr other ↦ rw other (p, remove-InMap k m h)
  ]

  update_entries-InMap :
      (match : Descriptor → Bool) (apply : Dict Text → Dict Text) (m : Dict Descriptor)
      → InMap P m
      → InMap P (update_entries match apply m).1
  unfolding update_entries
  update_entries-InMap match apply [] h = tt
  update_entries-InMap match apply ((k, d) ∷ m) (p, h) =
      let rest = update_entries-InMap match apply m h in
      elim (Bool-cases (match d)) [
        | inl yes_ ↦ rw (yes_, update_entries) (p, rest)
        | inr no_ ↦ rw (no_, update_entries) (p, rest)
      ]

  module _ (parse_reference : Text → Option Named) where
    store_entry-Everywhere :
        (io : SaveIo) (now : ℕ) (k : Text) (d : Descriptor) (s : Oci)
        → P d.digest
        → Everywhere P s
        → Everywhere P (store_entry parse_reference io now k d s).1
    unfolding store_entry save_index_checkpoint
    store_entry-Everywhere io now k d s p h = elim (Bool-cases (already_stored k d s.name_map)) [
      | inl old ↦ rw old h
      | inr fresh ↦ rw fresh (
          save_index-Everywhere io now _ (record s { name_map = Dict.insert k d s.name_map })
            (record { entries = insert-InMap k d s.name_map p h.entries; listed = h.listed }))
    ]

    -- AddIndex of a descriptor whose digest has the property
    pub add_index-Everywhere :
        (io : SaveIo) (now : ℕ) (d : Descriptor) (s : Oci)
        → P d.digest
        → Everywhere P s
        → Everywhere P (add_index parse_reference io now d s).1
    unfolding add_index
    add_index-Everywhere io now d s p h =
        elim (Bool-cases (is_some (Dict.lookup ref_name_key d.annotations))) [
          | inr bare ↦ rw bare h
          | inl has_ref ↦ elim (Option-cases (parse parse_reference (annotation ref_name_key d))) [
            | inl bad ↦ rw has_ref (rw bad h)
            | inr (key, parsed) ↦ elim (Option-cases (entry_key key (annotation kind_key d))) [
              | inl skipped ↦ rw has_ref (rw parsed (rw skipped h))
              | inr (k, keyed) ↦
                  rw has_ref (rw parsed (rw keyed (store_entry-Everywhere io now k d s p h)))
            ]
          ]
        ]

    load_entry-InMap :
        (m : Dict Descriptor) (d : Descriptor)
        → P d.digest
        → InMap P m
        → InMap P (load_entry parse_reference m d)
    unfolding load_entry normalized with_kind
    load_entry-InMap m d p h =
        elim (Option-cases (parse parse_reference (annotation ref_name_key d))) [
          | inl bad ↦ rw (bad, load_entry) h
          | inr (key, parsed) ↦
              elim (Option-cases (entry_key key (default_kind (annotation kind_key d)))) [
                | inl skipped ↦ rw (parsed, load_entry) (rw skipped h)
                | inr (k, keyed) ↦
                    rw (parsed, load_entry) (rw keyed (insert-InMap k (normalized d) m p h))
              ]
        ]

    load_entries-InMap :
        (m : Dict Descriptor) (ds : List Descriptor)
        → Each ds
        → InMap P m
        → InMap P (load_entries parse_reference m ds)
    unfolding load_entries
    load_entries-InMap m [] h k = k
    load_entries-InMap m (d ∷ ds) (p, h) k =
        load_entries-InMap (load_entry parse_reference m d) ds h (load_entry-InMap m d p k)

    load_file-Everywhere :
        (f : IndexFile) (s : Oci)
        → Listed P f
        → Everywhere P s
        → Everywhere P (load_file parse_reference f s).1
    unfolding load_file
    load_file-Everywhere missing s l h = record { entries = h.entries; listed = h.listed }
    load_file-Everywhere unreadable s l h = h
    load_file-Everywhere malformed s l h = h
    load_file-Everywhere (listing ds) s l h = record {
      entries = load_entries-InMap s.name_map ds l h.entries;
      listed = h.listed;
    }

    pub load_index-Everywhere :
        (s : Oci) → Everywhere P s → Everywhere P (load_index parse_reference s).1
    unfolding load_index
    load_index-Everywhere s h = load_file-Everywhere s.file s h.listed h

    pub update_annotations-Everywhere :
        (io : SaveIo) (now : ℕ) (match : Descriptor → Bool) (apply : Dict Text → Dict Text)
        (s : Oci)
        → Everywhere P s
        → Everywhere P (update_annotations parse_reference io now match apply s).1
    unfolding update_annotations
    update_annotations-Everywhere io now match apply s h =
        let loaded = load_index-Everywhere s h in
        let l = (load_index parse_reference s).1 in
        let r = update_entries match apply l.name_map in
        elim (Option-cases (load_index parse_reference s).0) [
          | inr (e, failed) ↦ rw (failed, update_annotations) loaded
          | inl ok ↦ elim (Bool-cases (r.0 == 0)) [
            | inl unmatched ↦ rw (ok, update_annotations) (rw unmatched loaded)
            | inr matched ↦
                rw (ok, update_annotations)
                  (rw matched (
                    save_index-Everywhere io now true (record l { name_map = r.1 })
                      (record {
                        entries = update_entries-InMap match apply l.name_map loaded.entries;
                        listed = loaded.listed;
                      })))
          ]
        ]
