-- ===== src/Store/Manifest.antt =====
-- The fields of an image manifest or an image index that pkg/store decodes, and what the store reads
-- of go-digest and encoding/json, as parameters.
use hauler.Base.{Bool, true, false, Option, List, Text, codes, ◌++◌}
use hauler.Content.Descriptor.{Descriptor}

-- manifestLike: an image manifest has a config and layers, an image index has manifests
pub record Manifest : Type 0 where
  pub config : Descriptor
  pub layers : List Descriptor
  pub manifests : List Descriptor

-- `algorithm` and `hex` are the parts of a digest, `valid` is Digest.Validate() == nil, `available`
-- is Algorithm.Available(), `verified` is the verdict of Digest.Verifier() on a content, and `decode`
-- is json.Unmarshal into the fields of a manifest.
pub record BlobLib : Type 0 where
  pub algorithm : Text → Text
  pub hex : Text → Text
  pub valid : Text → Bool
  pub available : Text → Bool
  pub verified : Text → Text → Bool
  pub decode : Text → Option Manifest

-- What stands at a path below <root>/blobs: nothing, a file whose stat fails, or a file with its
-- content, and whether it can be opened and read to its end.
pub data BlobFile : Type 0 where
  missing stat_failed : BlobFile
  file : Text → Bool → Bool → BlobFile

abbrev pub Disk : Type 0
Disk = Text → BlobFile

-- <algorithm>/<hex>, below the blobs directory
abbrev pub blob_file : BlobLib → Disk → Text → BlobFile
blob_file lib disk digest = disk (lib.algorithm digest ++ codes "/" ++ lib.hex digest)

-- OCI.Fetch followed by io.ReadAll: the error is `inl true` for the open, `inl false` for the read
pub data Fetched : Type 0 where
  fetch_failed read_failed : Fetched
  bytes : Text → Fetched

unfoldable pub fetch : BlobFile → Fetched
fetch missing = fetch_failed
fetch stat_failed = fetch_failed
fetch (file content opens reads) = elim opens [
  | false ↦ fetch_failed
  | true ↦ elim reads [ false ↦ read_failed | true ↦ bytes content ]
]
