-- ===== src/Content/Blob/Pushing.antt =====
-- Every blob stands at the path of its own digest, whatever is written and pushed.
use hauler.Base.{
  Option-cases, ◌≡◌, refl, sym, ap, ◌∙◌, ◌≢◌, ◌⊎◌, inl, inr, Bool, none, some, Text, [],
  text_eq_iff, arith,
}
use hauler.Base.Dict
use hauler.Base.Dict.{Dict, lookup-insert}
use hauler.Base.Int.{ℤ}
use hauler.Content.Blob.{
  BlobError, DigestLib, BlobStore, Flight, Writer, discard, temp, PushIo, blob_path, push_blob,
  close_writer, write_blob,
}
use hauler.Content.Blob.Writing.{write_blob-blobs}

pub record IsVerified (lib : DigestLib) (s : BlobStore) : Type 0 where
  pub at :
      (path c : Text) → Dict.lookup path s.blobs ≡ some c → path ≡ blob_path lib (lib.from_bytes c)

module _ (lib : DigestLib) where
  insert-IsVerified :
      (s s' : BlobStore) (expected c : Text)
      → IsVerified lib s
      → s'.blobs ≡ Dict.insert (blob_path lib expected) c s.blobs
      → lib.from_bytes c ≡ expected
      → IsVerified lib s'
  insert-IsVerified s s' expected c v stored exact = record {
    at = λ path b here.
        let at_insert = lookup-insert (blob_path lib expected) path c s.blobs in
        ground (arith, at_insert, v.at path b, text_eq_iff (blob_path lib expected) path);
  }

  -- WriteBlob keeps every blob at the path of its own digest, on every outcome.
  pub write_blob-IsVerified :
      (started mkdir live : Bool) (first second : Flight) (expected : Text) (size : ℤ)
      (s : BlobStore)
      → IsVerified lib s
      → IsVerified lib (write_blob lib started mkdir live first second expected size s).1
  write_blob-IsVerified started mkdir live first second expected size s v =
      elim (write_blob-blobs lib started mkdir live first second expected size s) [
        | inl kept ↦ record {
          at = λ path c here. v.at path c (ap (Dict.lookup path) (sym kept) ∙ here);
        }
        | inr (c, done, stored, exact) ↦ insert-IsVerified s _ expected c v stored exact
      ]

  -- the writer of a push belongs to the pushed digest
  abbrev pub IsWriterOf : Text → Writer → Type 0
  IsWriterOf digest (discard hash) = hash ≡ digest
  IsWriterOf digest (temp path hash) = (path ≡ blob_path lib digest) × (hash ≡ digest)

  push-IsWriterOf :
      (io : PushIo) (digest : Text) (s : BlobStore) (w : Writer)
      → push_blob lib io digest s ≡ inr w
      → IsWriterOf digest w
  unfolding push_blob
  push-IsWriterOf io digest s (discard hash) h = ground arith
  push-IsWriterOf io digest s (temp path hash) h = ground arith

  close_lem :
      (io : PushIo) (digest : Text) (w : Writer) (content : Text) (s : BlobStore)
      → digest ≢ []
      → IsWriterOf digest w
      → ((close_writer lib io w content s).1.blobs ≡ s.blobs)
          × (((close_writer lib io w content s).0 ≡ none) → lib.from_bytes content ≡ digest)
        ⊎ ((close_writer lib io w content s).0 ≡ none)
          × ((close_writer lib io w content s).1.blobs
              ≡ Dict.insert (blob_path lib digest) content s.blobs)
          × (lib.from_bytes content ≡ digest)
  unfolding close_writer
  close_lem io digest (discard hash) content s nonempty mine =
      inl (
        refl,
        λ done. ground (arith, text_eq_iff hash [], text_eq_iff (lib.from_bytes content) hash),
      )
  close_lem io digest (temp path hash) content s nonempty mine =
      ground (arith, text_eq_iff hash [], text_eq_iff (lib.from_bytes content) hash)

  push_close_lem :
      (io io' : PushIo) (digest content : Text) (s s' : BlobStore) (w : Writer)
      → digest ≢ []
      → IsVerified lib s'
      → push_blob lib io digest s ≡ inr w
      → IsVerified lib (close_writer lib io' w content s').1
        × ((close_writer lib io' w content s').0 ≡ none → lib.from_bytes content ≡ digest)
        × ((close_writer lib io' w content s').0 ≢ none
            → (close_writer lib io' w content s').1.blobs ≡ s'.blobs)
  push_close_lem io io' digest content s s' w nonempty v pushed =
      elim (close_lem io' digest w content s' nonempty (push-IsWriterOf io digest s w pushed)) [
        | inl (kept, exact) ↦ (
          record { at = λ path c here. v.at path c (ap (Dict.lookup path) (sym kept) ∙ here) },
          exact,
          λ failed. kept,
        )
        | inr (done, stored, exact) ↦ (
          insert-IsVerified s' _ digest content v stored exact,
          (λ ok. exact),
          λ failed. absurd (failed done),
        )
      ]

  -- A pushed blob, closed in any later store: every blob stays at the path of its digest, and either the
  -- close reports no error and the content has the pushed digest, or it reports an error and every blob
  -- is as it was.
  pub push-close :
      (io io' : PushIo) (digest content : Text) (s s' : BlobStore) (w : Writer)
      → digest ≢ []
      → IsVerified lib s'
      → push_blob lib io digest s ≡ inr w
      → IsVerified lib (close_writer lib io' w content s').1
        × ((((close_writer lib io' w content s').0 ≡ none) × (lib.from_bytes content ≡ digest))
            ⊎ ((e : BlobError) × ((close_writer lib io' w content s').0 ≡ some e)
                × ((close_writer lib io' w content s').1.blobs ≡ s'.blobs)))
  push-close io io' digest content s s' w nonempty v pushed =
      let (verified, exact, kept) = push_close_lem io io' digest content s s' w nonempty v pushed in
      (
        verified,
        elim (Option-cases (close_writer lib io' w content s').0) [
          | inl fine ↦ inl (fine, exact fine)
          | inr (e, failed) ↦ inr (e, failed, kept (λ fine. cc (fine, failed)))
        ],
      )
