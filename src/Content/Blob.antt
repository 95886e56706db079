-- ===== src/Content/Blob.antt =====
-- pkg/content/oci.go, the blobs: WriteBlob and its helpers, ociPusher.Push past the index, and the
-- writers that it returns. go-digest is a parameter; the answers of the file system, of the context
-- and of the downloaded reader are arguments.
pub mod Writing
pub mod Pushing
use hauler.Base.{
  ℕ, suc, ◌+◌, ltb, Bool, true, false, not, ◌&&◌, Option, none, some, Text, codes, text_eq, length,
  is_some, if◌then◌else◌, ◌++◌, [], ◌⊎◌, inl, inr,
}
use hauler.Base.Dict
use hauler.Base.Dict.{Dict}
use hauler.Base.Int.{ℤ, is_positive, eq_ℤ}
use hauler.Content.Descriptor.{Descriptor}

pub data BlobError : Type 0 where
  canceled mkdir_failed create_failed open_failed read_failed close_read_failed : BlobError
  size_mismatch digest_mismatch chmod_failed sync_failed close_failed rename_failed : BlobError

-- go-digest: the two parts of a digest, and the canonical digest of a content.
pub record DigestLib : Type 0 where
  pub algorithm : Text → Text
  pub hex : Text → Text
  pub from_bytes : Text → Text

-- The files below <root>/blobs by path, and the counters of IOStats.
pub record BlobStore : Type 0 where
  pub blobs : Dict Text
  pub cached : ℕ
  pub written : ℕ
  pub bytes_written : ℕ

-- What one writeBlobOnce meets: the answer of the semaphore, whether the context is live at the
-- check, the bytes that the reader gives before it ends or fails, and each step of the commit.
pub record Attempt : Type 0 where
  pub acquired : Option BlobError
  pub live : Bool
  pub create : Bool
  pub opened : Bool
  pub streamed : Text
  pub copied : Option BlobError
  pub close_reader : Bool
  pub chmod : Bool
  pub sync : Bool
  pub close : Bool
  pub rename : Bool

-- The singleflight of a digest that a caller leads or joins: its leader's size and attempt.
pub record Flight : Type 0 where
  pub size : ℤ
  pub attempt : Attempt

-- `size > 0 && info.Size() == size`, or `size <= 0 && info.Size() > 0`
abbrev pub size_trusted : ℤ → ℕ → Bool
size_trusted size n = if is_positive size then eq_ℤ n size else ltb 0 n

-- A file at the path with the size that is trusted.
unfoldable pub is_cached : ℤ → Text → BlobStore → Bool
is_cached size path s = elim (Dict.lookup path s.blobs) [
  | none ↦ false
  | some c ↦ size_trusted size (length c)
]

-- The first step of the commit that fails.
pub commit_error : Bool → Bool → Bool → Bool → Option BlobError
commit_error chmod sync close rename =
    if not chmod
    then some chmod_failed
    else if not sync
    then some sync_failed
    else if not close
    then some close_failed
    else if not rename
    then some rename_failed
    else none

module _ (lib : DigestLib) where
  open lib use {algorithm, hex, from_bytes}

  -- filepath.Join(root, "blobs", algorithm, hex), below the blobs directory
  abbrev pub blob_path : Text → Text
  blob_path d = algorithm d ++ codes "/" ++ hex d

  -- The first reason not to commit what was streamed.
  pub stream_error : Text → ℤ → Attempt → Option BlobError
  unfolding commit_error
  stream_error expected size a =
      if is_some a.copied
      then a.copied
      else if not a.close_reader
      then some close_read_failed
      else if is_positive size && not (eq_ℤ (length a.streamed) size)
      then some size_mismatch
      else if not (text_eq (from_bytes a.streamed) expected)
      then some digest_mismatch
      else commit_error a.chmod a.sync a.close a.rename

  -- writeBlobOnce
  pub write_blob_once : Text → ℤ → Attempt → BlobStore → Option BlobError × BlobStore
  unfolding is_cached stream_error
  write_blob_once expected size a s =
      if is_cached size (blob_path expected) s
      then (none, record s { cached = suc s.cached })
      else if not a.live
      then (some canceled, s)
      else if not a.create
      then (some create_failed, s)
      else if not a.opened
      then (some open_failed, s)
      else elim (stream_error expected size a) [
        | some e ↦ (some e, s)
        | none ↦ (
          none,
          record s {
            blobs = Dict.insert (blob_path expected) a.streamed s.blobs;
            written = suc s.written;
            bytes_written = s.bytes_written + length a.streamed;
          },
        )
      ]

  -- writeBlobShared
  unfoldable pub write_blob_shared : Text → Flight → BlobStore → Option BlobError × BlobStore
  unfolding write_blob_once
  write_blob_shared expected f s = elim f.attempt.acquired [
    | some e ↦ (some e, s)
    | none ↦ write_blob_once expected f.size f.attempt s
  ]

  -- errors.Is(err, context.Canceled)
  is_canceled : Option BlobError → Bool
  is_canceled none = false
  is_canceled (some canceled) = true
  is_canceled (some e) = false

  -- WriteBlob: `started` and `live` say whether the caller's context is live at the start and after
  -- the first flight; the second flight is met only by a retry.
  unfoldable pub write_blob :
      (started mkdir live : Bool) (first second : Flight) (expected : Text) (size : ℤ)
      → BlobStore
      → Option BlobError × BlobStore
  unfolding is_canceled
  write_blob started mkdir live first second expected size s =
      if not started
      then (some canceled, s)
      else if not mkdir
      then (some mkdir_failed, s)
      else if is_cached size (blob_path expected) s
      then (none, record s { cached = suc s.cached })
      else (let (e, s') = write_blob_shared expected first s in
          if is_canceled e && live then write_blob_shared expected second s' else (e, s'))

-- The writer of a push: it discards what it is given, or streams it into a temp file.
pub data Writer : Type 0 where
  discard : Text → Writer
  temp : Text → Text → Writer

-- What a push and the close of its writer meet.
pub record PushIo : Type 0 where
  pub mkdir : Bool
  pub acquired : Option BlobError
  pub create : Bool
  pub chmod : Bool
  pub sync : Bool
  pub close : Bool
  pub rename : Bool

module _ (lib : DigestLib) where
  -- Push past the index: a blob that exists is read and discarded
  unfoldable pub push_blob : PushIo → Text → BlobStore → BlobError ⊎ Writer
  push_blob io digest s =
      if not io.mkdir
      then inl mkdir_failed
      else if is_some (Dict.lookup (blob_path lib digest) s.blobs)
      then inr (discard digest)
      else elim io.acquired [
        | some e ↦ inl e
        | none ↦
            if not io.create then inl create_failed else inr (temp (blob_path lib digest) digest)
      ]

  -- `w.outputHash != "" && computed != w.outputHash`
  mismatch : Text → Text → Bool
  mismatch hash content = not (text_eq hash []) && not (text_eq (lib.from_bytes content) hash)

  -- Close of IoContentWriter over a discarding writer, and of ociBlobWriter
  pub close_writer : PushIo → Writer → Text → BlobStore → Option BlobError × BlobStore
  unfolding mismatch commit_error
  close_writer io (discard hash) content s =
      (if mismatch hash content then some digest_mismatch else none, s)
  close_writer io (temp path hash) content s =
      if mismatch hash content
      then (some digest_mismatch, s)
      else elim (commit_error io.chmod io.sync io.close io.rename) [
        | some e ↦ (some e, s)
        | none ↦ (none, record s { blobs = Dict.insert path content s.blobs })
      ]
