-- ===== src/Content/Blob/Writing.antt =====
-- What WriteBlob leaves in the store.
use mathlib.Core.Path.{subst}
use hauler.Base.{
  not, ◌||◌, ap, sym, ◌∙◌, Option-cases, text_eq_refl, ◌≡◌, refl, ◌⊎◌, inl, inr, Bool, true, Option,
  is_some, none, some, Text, text_eq_iff, length, arith,
}
use hauler.Base.Dict
use hauler.Base.Dict.{Dict, lookup-insert}
use hauler.Base.Int.{ℤ, is_positive, eq_ℤ}
use hauler.Content.Blob.{
  BlobError, DigestLib, BlobStore, Attempt, Flight, is_cached, blob_path, write_blob_once,
  write_blob_shared, write_blob,
}

-- a blob stands at the path of the digest, of the size where that is known
abbrev pub IsPresent : DigestLib → Text → ℤ → BlobStore → Type 0
IsPresent lib expected size s =
    (c : Text) × (Dict.lookup (blob_path lib expected) s.blobs ≡ some c)
    × ((not (is_positive size) || eq_ℤ (length c) size) ≡ true)

module _ (lib : DigestLib) where
  -- the content was committed at its path, and its digest is the expected one
  abbrev pub Committed : Text → BlobStore → BlobStore → Text → Type 0
  Committed expected s s' c =
      (s'.blobs ≡ Dict.insert (blob_path lib expected) c s.blobs) × (lib.from_bytes c ≡ expected)

  once-blobs :
      (expected : Text) (size : ℤ) (a : Attempt) (s : BlobStore)
      → ((write_blob_once lib expected size a s).1.blobs ≡ s.blobs)
        ⊎ ((write_blob_once lib expected size a s).0 ≡ none)
          × Committed expected s (write_blob_once lib expected size a s).1 a.streamed
  unfolding write_blob_once
  once-blobs expected size a s = ground (arith, text_eq_iff (lib.from_bytes a.streamed) expected)

  shared-blobs :
      (expected : Text) (f : Flight) (s : BlobStore)
      → ((write_blob_shared lib expected f s).1.blobs ≡ s.blobs)
        ⊎ ((write_blob_shared lib expected f s).0 ≡ none)
          × Committed expected s (write_blob_shared lib expected f s).1 f.attempt.streamed
  unfolding write_blob_shared
  shared-blobs expected f s = ground (arith, once-blobs expected f.size f.attempt s)

  once-IsPresent :
      (expected : Text) (size : ℤ) (a : Attempt) (s : BlobStore)
      → (write_blob_once lib expected size a s).0 ≡ none
      → IsPresent lib expected size (write_blob_once lib expected size a s).1
  unfolding write_blob_once
  once-IsPresent expected size a s h =
      let path = blob_path lib expected in
      let stored = lookup-insert path path a.streamed s.blobs in
      elim (Option-cases (Dict.lookup path (write_blob_once lib expected size a s).1.blobs)) [
        | inl absent ↦ absurd (ground (arith, stored, text_eq_refl path))
        | inr (c, present) ↦ (c, present, ground (arith, stored, text_eq_refl path))
      ]

  shared-IsPresent :
      (expected : Text) (f : Flight) (s : BlobStore)
      → (write_blob_shared lib expected f s).0 ≡ none
      → IsPresent lib expected f.size (write_blob_shared lib expected f s).1
  unfolding write_blob_shared
  shared-IsPresent expected f s h = elim (Option-cases f.attempt.acquired) [
    | inl granted ↦
        let once : write_blob_shared lib expected f s
            ≡ write_blob_once lib expected f.size f.attempt s =
          rw (granted, write_blob_shared) refl in
        subst (λ (r : Option BlobError × BlobStore). IsPresent lib expected f.size r.1) (sym once)
          (once-IsPresent expected f.size f.attempt s (rw once at h))
    | inr (x, refused) ↦ cc (rw (refused, write_blob_shared) at h)
  ]

  cached-IsPresent :
      (expected : Text) (size : ℤ) (s s' : BlobStore)
      → is_cached size (blob_path lib expected) s ≡ true
      → s'.blobs ≡ s.blobs
      → IsPresent lib expected size s'
  unfolding is_cached
  cached-IsPresent expected size s s' cached kept =
      elim (Option-cases (Dict.lookup (blob_path lib expected) s.blobs)) [
        | inl absent ↦ absurd (ground arith)
        | inr (c, present) ↦
            (c, ap (Dict.lookup (blob_path lib expected)) kept ∙ present, ground arith)
      ]

  module _ (started mkdir live : Bool) (first second : Flight) (expected : Text) (size : ℤ)
      (s : BlobStore) where
    abbrev result : Option BlobError × BlobStore
    result = write_blob lib started mkdir live first second expected size s

    one_of_flights :
        (result.1.blobs ≡ s.blobs)
        ⊎ ((result.0 ≡ none) × Committed expected s result.1 first.attempt.streamed)
        ⊎ ((result.0 ≡ none) × Committed expected s result.1 second.attempt.streamed)
    unfolding write_blob
    one_of_flights =
        let s' = (write_blob_shared lib expected first s).1 in
        ground (arith, shared-blobs expected first s, shared-blobs expected second s')

    -- WriteBlob either leaves every blob as it was, whatever it returns, or it reports no error and
    -- the only change is that the blob of the expected digest holds content with that digest: a
    -- failing or cancelled writer, its retry included, never touches a stored blob.
    pub write_blob-blobs :
        (result.1.blobs ≡ s.blobs)
        ⊎ ((c : Text) × (result.0 ≡ none)
            × (result.1.blobs ≡ Dict.insert (blob_path lib expected) c s.blobs)
            × (lib.from_bytes c ≡ expected))
    write_blob-blobs = elim one_of_flights [
      | inl kept ↦ inl kept
      | inr (inl (ok, (stored, exact))) ↦ inr (first.attempt.streamed, ok, stored, exact)
      | inr (inr (ok, (stored, exact))) ↦ inr (second.attempt.streamed, ok, stored, exact)
    ]

    abbrev after_first : BlobStore
    after_first = (write_blob_shared lib expected first s).1

    ok_cases :
        result.0 ≡ none
        → ((is_cached size (blob_path lib expected) s ≡ true) × (result.1.blobs ≡ s.blobs))
          ⊎ (((write_blob_shared lib expected first s).0 ≡ none)
              × (result ≡ write_blob_shared lib expected first s))
          ⊎ (((write_blob_shared lib expected second after_first).0 ≡ none)
              × (result ≡ write_blob_shared lib expected second after_first))
    unfolding write_blob
    ok_cases ok = ground arith

    -- When WriteBlob reports no error, a blob stands at the path of the digest, of the expected size
    -- where that is known, if the flights for the digest are made with that size.
    pub write_blob-IsPresent :
        first.size ≡ size
        → second.size ≡ size
        → result.0 ≡ none
        → IsPresent lib expected size result.1
    unfolding write_blob
    write_blob-IsPresent same same' ok = elim (ok_cases ok) [
      | inl (cached, kept) ↦ cached-IsPresent expected size s result.1 cached kept
      | inr (inl (done, eq)) ↦
          subst (λ (r : Option BlobError × BlobStore). IsPresent lib expected size r.1) (sym eq)
            (subst (λ (n : ℤ). IsPresent lib expected n (write_blob_shared lib expected first s).1)
              same (shared-IsPresent expected first s done))
      | inr (inr (done, eq)) ↦
          subst (λ (r : Option BlobError × BlobStore). IsPresent lib expected size r.1) (sym eq)
            (subst
              (λ (n : ℤ).
                IsPresent lib expected n (write_blob_shared lib expected second after_first).1)
              same' (shared-IsPresent expected second after_first done))
    ]

    -- a blob that stood before still stands
    pub write_blob_monotone :
        (path : Text)
        → is_some (Dict.lookup path s.blobs) ≡ true
        → is_some (Dict.lookup path result.1.blobs) ≡ true
    write_blob_monotone path before = elim write_blob-blobs [
      | inl kept ↦ rw kept before
      | inr (c, done, stored, exact) ↦
          rw stored (ground (arith, lookup-insert (blob_path lib expected) path c s.blobs, before))
    ]

    any_size :
        (n : ℤ) (b : BlobStore)
        → IsPresent lib expected n b
        → is_some (Dict.lookup (blob_path lib expected) b.blobs) ≡ true
    any_size n b (c, there, sized) = rw there refl

    -- after a success the blob stands, whatever sizes the flights are made with
    pub write_blob-stands :
        result.0 ≡ none → is_some (Dict.lookup (blob_path lib expected) result.1.blobs) ≡ true
    write_blob-stands ok = elim (ok_cases ok) [
      | inl (cached, kept) ↦
          any_size size result.1 (cached-IsPresent expected size s result.1 cached kept)
      | inr (inl (done, eq)) ↦ rw eq (
          any_size first.size (write_blob_shared lib expected first s).1
            (shared-IsPresent expected first s done))
      | inr (inr (done, eq)) ↦ rw eq (
          any_size second.size (write_blob_shared lib expected second after_first).1
            (shared-IsPresent expected second after_first done))
    ]
