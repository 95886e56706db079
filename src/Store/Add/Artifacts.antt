-- ===== src/Store/Add/Artifacts.antt =====
-- pkg/store/store.go: AddArtifact, AddArtifactCollection, loadOrCreateStoreID, Flush and Identify.
-- An artifact is the one behind the layer cache, where the layout has one.
use hauler.Base.{
  ℕ, Bool, true, false, not, ◌&&◌, Option, none, some, List, [], ◌∷◌, Text, text_eq, length,
  if◌then◌else◌,
}
use hauler.Base.Int.{pos}
use hauler.Consts.{ref_name_key, kind_key, kind_image}
use hauler.Content.Descriptor.{Descriptor}
use hauler.Content.Reference.{Named}
use hauler.Content.Index.{SaveIo}
use hauler.Content.Blob.{DigestLib}
use hauler.Store.Add.{
  layers_failed, config_failed, manifest_failed, contents_failed, Run, pure, ◌>>=◌, ◌>>◌, expect,
  WriteIo, Layer,
}
use hauler.Store.Add.Writing.{write_layers, write_blob_data, put_index}

-- artifacts.OCI: Manifest (encoded, with its media type), RawConfig and Layers
pub record Artifact : Type 0 where
  pub manifest : Option Text
  pub media_type : Text
  pub manifest_io : WriteIo
  pub config : Option Text
  pub config_io : WriteIo
  pub layers : Option (List Layer)

-- the entry of an artifact
unfoldable pub artifact_descriptor : DigestLib → Text → Text → Text → Descriptor
artifact_descriptor lib media_type content ref = record {
  media_type = media_type;
  digest = lib.from_bytes content;
  size = pos (length content);
  urls = [];
  annotations = (kind_key, kind_image) ∷ (ref_name_key, ref) ∷ [];
  payload = [];
  platform = none;
  artifact_type = [];
}

module _ (lib : DigestLib) (parse_reference : Text → Option Named) (save : SaveIo) (now : ℕ) where
  -- AddArtifact
  unfoldable pub add_artifact : Artifact → Text → Run Descriptor
  unfolding artifact_descriptor
  add_artifact oci ref = do
    content ← expect manifest_failed oci.manifest
    write_blob_data lib oci.manifest_io content
    config ← expect config_failed oci.config
    write_blob_data lib oci.config_io config
    layers ← expect layers_failed oci.layers
    write_layers lib layers
    put_index lib parse_reference save now (artifact_descriptor lib oci.media_type content ref)
    pure (artifact_descriptor lib oci.media_type content ref)

  -- the loop of AddArtifactCollection
  unfoldable pub add_each : List (Text × Artifact) → Run (List Descriptor)
  add_each [] = pure []
  add_each ((ref, oci) ∷ rest) = do d ← add_artifact oci ref; ds ← add_each rest; pure (d ∷ ds)

  -- AddArtifactCollection
  unfoldable pub add_artifact_collection : Option (List (Text × Artifact)) → Run (List Descriptor)
  add_artifact_collection contents = do cnts ← expect contents_failed contents; add_each cnts

-- What stands at store.json: nothing that can be read, what does not decode, or a store id.
pub data Metadata : Type 0 where
  no_file undecodable : Metadata
  stored_id : Text → Metadata

-- loadOrCreateStoreID: the id, and the file afterwards; `marshals`, `writes` and `renames` are the
-- answers of a creation, `fresh` the id of uuid.New
load_or_create_store_id : (marshals writes renames : Bool) → Text → Metadata → Text × Metadata
load_or_create_store_id marshals writes renames fresh file =
    let created = if marshals && writes && renames then stored_id fresh else file in
    elim file [
      | no_file ↦ (fresh, created)
      | undecodable ↦ (fresh, created)
      | stored_id m ↦ if text_eq m [] then (fresh, created) else (m, stored_id m)
    ]

-- The parts of the layout's directory that Flush removes, in order: what each removal answers.
pub record Directory : Type 0 where
  pub blobs : Bool
  pub index : Bool
  pub oci_layout : Bool

-- Flush: whether it succeeds, and what is left
flush : (blobs index oci_layout : Bool) → Directory → Bool × Directory
flush blobs index oci_layout dir =
    if not blobs
    then (false, dir)
    else if not index
    then (false, record dir { blobs = false })
    else if not oci_layout
    then (false, record dir { blobs = false; index = false })
    else (true, record { blobs = false; index = false; oci_layout = false })

-- Identify: the config's media type, where the blob is fetched and decodes
identify : (decode : Text → Option Text) → Option Text → Text
identify decode none = []
identify decode (some content) = elim (decode content) [ none ↦ [] | some media_type ↦ media_type ]
