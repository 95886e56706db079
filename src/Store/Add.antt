-- ===== src/Store/Add.antt =====
-- pkg/store/store.go, the adding of content: what the Layout keeps, the steps that the operations
-- are made of, and what go-containerregistry answers about images and indexes, a parameter. A
-- layer list is in the order in which the goroutines of its group commit.
pub mod Writing
pub mod Images
pub mod Artifacts
pub mod Rules
pub mod Keeping
pub mod Delivering
pub mod Sealing
pub mod Delivery
pub mod Yielding
pub mod Complete
pub mod Bundles
pub mod Backed
pub mod Listing
pub mod Preserving
use hauler.Base.{Bool, true, false, Option, none, some, List, Text, ◌⊎◌, inl, inr}
use hauler.Base.Int.{ℤ}
use hauler.Content.Descriptor.{Platform}
use hauler.Content.Index.{Error, Oci}
use hauler.Content.Blob.{BlobError, BlobStore, Flight}

-- The parts of Layout that an addition changes: its index and its blobs.
pub record Layout : Type 0 where
  pub oci : Oci
  pub blobs : BlobStore

pub data AddError : Type 0 where
  layers_failed layer_digest_failed layer_digest_invalid layer_size_failed : AddError
  config_failed manifest_failed media_type_failed digest_failed digest_invalid : AddError
  child_failed transport_failed bad_image_ref fetch_failed pin_mismatch bad_platform : AddError
  no_docker_host contents_failed : AddError
  blob_failed : BlobError → AddError
  index_failed : Error → AddError

-- A step on the layout that may fail.
abbrev pub Run : Type 0 → Type 0
Run A = Layout → (AddError ⊎ A) × Layout

abbrev pub pure : {A : Type 0} → A → Run A
pure a s = (inr a, s)

abbrev pub after : {A B : Type 0} → AddError ⊎ A → (A → Run B) → Run B
after (inl e) f s = (inl e, s)
after (inr a) f s = f a s

infixl 5 ◌>>=◌ ◌>>◌
abbrev pub ◌>>=◌ : {A B : Type 0} → Run A → (A → Run B) → Run B
◌>>=◌ m f s = let (r, s') = m s in after r f s'

abbrev pub ◌>>◌ : {B : Type 0} → Run (Unit {0}) → Run B → Run B
m >> k = m >>= λ _. k

-- An answer of a library: its value, or the error that the code wraps.
abbrev pub expect : {A : Type 0} → AddError → Option A → Run A
expect e none s = (inl e, s)
expect e (some a) s = (inr a, s)

abbrev pub guard : Bool → AddError → Run (Unit {0})
guard true e s = (inr tt, s)
guard false e s = (inl e, s)

-- What one WriteBlob meets.
pub record WriteIo : Type 0 where
  pub started : Bool
  pub mkdir : Bool
  pub live : Bool
  pub first : Flight
  pub second : Flight

-- v1.Layer: the answers of Digest (and of digest.Parse on it) and Size, and its write.
pub record Layer : Type 0 where
  pub digest : Option Text
  pub parsed : Bool
  pub size : Option ℤ
  pub io : WriteIo

-- v1.Image
pub record Image : Type 0 where
  pub layers : Option (List Layer)
  pub config : Option Text
  pub config_io : WriteIo
  pub manifest : Option Text
  pub manifest_io : WriteIo
  pub media_type : Option Text
  pub digest : Option Text
  pub parsed : Bool

-- What v1.ImageIndex answers about itself; `readable` is that of IndexManifest.
pub record IndexAnswers : Type 0 where
  pub readable : Bool
  pub raw : Option Text
  pub raw_io : WriteIo
  pub media_type : Option Text
  pub digest : Option Text
  pub parsed : Bool

-- v1.ImageIndex with its children in the order of the manifest: each is an index, or what
-- `idx.Image` answers.
mutual
  pub data ImageIndex : Type 0 where
    index : IndexAnswers → Children → ImageIndex

  pub data Children : Type 0 where
    no_more : Children
    nested : ImageIndex → Children → Children
    plain : Image → Children → Children
    unfetched : Children → Children

-- name.Reference: Name(), Context().RegistryStr() and Context().String()
pub record ImageRef : Type 0 where
  pub name : Text
  pub registry : Text
  pub context : Text

-- remote.Descriptor: its digest, and ImageIndex() where that gives no error
pub record Fetched : Type 0 where
  pub digest : Text
  pub as_index : Option ImageIndex

-- One manifest of a referrers index: Digest.String() and Digest.Hex
pub record Referrer : Type 0 where
  pub digest : Text
  pub hex : Text

-- The registry's client: BuildTransport, ParseReference, Context().Digest(d), NewDigest,
-- remote.Get, remote.Image of the name of a reference, and remote.Referrers with IndexManifest.
pub record Registry : Type 0 where
  pub transport : Bool
  pub parse : Text → Option ImageRef
  pub at_digest : ImageRef → Text → Text
  pub new_digest : Text → Option Text
  pub get : Text → Option Fetched
  pub image : Text → Option Platform → Option Image
  pub referrers : Text → Option (List Referrer)
