-- ===== src/Tests/Blobs.antt =====
-- Blob writes and pushes whose digest is their content.
use hauler.Base.{◌≡◌, refl, ◌≢◌, ◌⊎◌, true, none, some, [], Text, codes, text_eq}
use hauler.Base.Dict
use hauler.Base.Dict.{Dict}
use hauler.Base.Int.{pos}
use hauler.Content.Blob.{
  BlobError, DigestLib, BlobStore, Attempt, Flight, Writer, temp, PushIo, blob_path, write_blob,
  write_blob_shared, is_cached, push_blob, close_writer,
}
use hauler.Content.Blob.Writing.{IsPresent, write_blob-blobs, write_blob-IsPresent}
use hauler.Content.Blob.Pushing.{IsVerified, write_blob-IsVerified, push-close}

abbrev lib : DigestLib
lib = record { algorithm = λ d. codes "s"; hex = λ d. d; from_bytes = λ c. c }

abbrev no_blobs : BlobStore
no_blobs = record { blobs = []; cached = 0; written = 0; bytes_written = 0 }

abbrev good : Attempt
good = record {
  acquired = none;
  live = true;
  create = true;
  opened = true;
  streamed = codes "abc";
  copied = none;
  close_reader = true;
  chmod = true;
  sync = true;
  close = true;
  rename = true;
}

abbrev flight : Flight
flight = record { size = pos 3; attempt = good }

none-IsVerified : IsVerified lib no_blobs
unfolding Dict.lookup
none-IsVerified = record { at = λ path c here. cc }

write_blob-blobs_example :
    let result = write_blob lib true true true flight flight (codes "abc") (pos 3) no_blobs in
    (result.1.blobs ≡ no_blobs.blobs)
    ⊎ ((c : Text) × (result.0 ≡ none)
        × (result.1.blobs ≡ Dict.insert (blob_path lib (codes "abc")) c no_blobs.blobs)
        × (lib.from_bytes c ≡ codes "abc"))
write_blob-blobs_example =
    write_blob-blobs lib true true true flight flight (codes "abc") (pos 3) no_blobs

write_blob-IsPresent_example :
    IsPresent lib
      (codes "abc")
      (pos 3)
      (write_blob lib true true true flight flight (codes "abc") (pos 3) no_blobs).1
unfolding write_blob Dict.lookup text_eq is_cached write_blob_shared
write_blob-IsPresent_example =
    write_blob-IsPresent lib true true true flight flight (codes "abc") (pos 3) no_blobs refl refl
      refl

write_blob-IsVerified_example :
    IsVerified lib (write_blob lib true true true flight flight (codes "abc") (pos 3) no_blobs).1
write_blob-IsVerified_example =
    write_blob-IsVerified lib true true true flight flight (codes "abc") (pos 3) no_blobs
      none-IsVerified

abbrev push_io : PushIo
push_io = record {
  mkdir = true;
  acquired = none;
  create = true;
  chmod = true;
  sync = true;
  close = true;
  rename = true;
}

abbrev opened : Writer
opened = temp (blob_path lib (codes "abc")) (codes "abc")

not_empty : codes "abc" ≢ []
not_empty = λ same. cc same

push-close_example :
    IsVerified lib (close_writer lib push_io opened (codes "xyz") no_blobs).1
    × ((((close_writer lib push_io opened (codes "xyz") no_blobs).0 ≡ none)
          × (lib.from_bytes (codes "xyz") ≡ codes "abc"))
        ⊎ ((e : BlobError) × ((close_writer lib push_io opened (codes "xyz") no_blobs).0 ≡ some e)
            × ((close_writer lib push_io opened (codes "xyz") no_blobs).1.blobs ≡ no_blobs.blobs)))
unfolding push_blob Dict.lookup
push-close_example =
    push-close lib push_io push_io (codes "abc") (codes "xyz") no_blobs no_blobs opened not_empty
      none-IsVerified refl
