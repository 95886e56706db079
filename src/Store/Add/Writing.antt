-- ===== src/Store/Add/Writing.antt =====
-- pkg/store/store.go: writeLayer, writeBlobData, writeImageBlobs, writeImage, writeIndexBlobs and
-- writeIndex. The counters of ImageStats are not kept; `counted` says whether the context has them.
use hauler.Base.{
  ℕ, Bool, true, not, ◌&&◌, ◌||◌, Option, none, some, List, [], ◌∷◌, ◌++◌, Text, codes, text_eq,
  has_prefix, length, drop, is_some, if◌then◌else◌, inl, inr,
}
use hauler.Base.Int.{ℤ, pos}
use hauler.Consts.{ref_name_key, kind_key, containerd_name_key, original_ref_key}
use hauler.Content.Descriptor.{Descriptor}
use hauler.Content.Reference.{Named}
use hauler.Content.Index.{SaveIo}
use hauler.Content.Index.Operations.{add_index}
use hauler.Content.Blob.{DigestLib, write_blob}
use hauler.Store.Add.{
  layers_failed, layer_digest_failed, layer_digest_invalid, layer_size_failed, config_failed,
  manifest_failed, media_type_failed, digest_failed, digest_invalid, child_failed, blob_failed,
  index_failed, Run, pure, ◌>>=◌, ◌>>◌, expect, guard, WriteIo, Layer, Image, IndexAnswers,
  ImageIndex, index, Children, no_more, nested, plain, unfetched, ImageRef,
}

-- every layer answers its size
sizes_known : List Layer → Bool
sizes_known [] = true
sizes_known (l ∷ ls) = is_some l.size && sizes_known ls

-- strings.TrimPrefix
unfoldable pub trim_prefix : Text → Text → Text
trim_prefix s p = if has_prefix s p then drop (length p) s else s

-- the reference name that an entry is annotated with: without its registry
unfoldable pub short_name : ImageRef → Text
unfolding trim_prefix has_prefix
short_name ref = trim_prefix ref.name (ref.registry ++ codes "/")

abbrev pub answers : ImageIndex → IndexAnswers
answers (index a children) = a

module _ (lib : DigestLib) where
  unfoldable pub put_blob : WriteIo → Text → ℤ → Run (Unit {0})
  put_blob io expected size s =
      let (e, b) =
        write_blob lib io.started io.mkdir io.live io.first io.second expected size s.blobs in
      elim e [
        | none ↦ (inr tt, record s { blobs = b })
        | some x ↦ (inl (blob_failed x), record s { blobs = b })
      ]

  -- writeLayer
  unfoldable pub write_layer : Layer → Run (Unit {0})
  write_layer l = do
    d ← expect layer_digest_failed l.digest
    guard l.parsed layer_digest_invalid
    size ← expect layer_size_failed l.size
    put_blob l.io d size

  -- writeBlobData: the digest and the size of a static layer are those of its content
  unfoldable pub write_blob_data : WriteIo → Text → Run (Unit {0})
  write_blob_data io content = put_blob io (lib.from_bytes content) (pos (length content))

  -- the group: every goroutine runs, and Wait returns the first error
  unfoldable pub write_layers : List Layer → Run (Unit {0})
  write_layers [] s = (inr tt, s)
  write_layers (l ∷ ls) s =
      let (r, s1) = write_layer l s in
      let (rest, s2) = write_layers ls s1 in elim r [ inl e ↦ (inl e, s2) | inr done ↦ (rest, s2) ]

  module _ (counted : Bool) where
    -- writeImageBlobs
    unfoldable pub write_image_blobs : Image → Run (Unit {0})
    unfolding sizes_known
    write_image_blobs img = do
      layers ← expect layers_failed img.layers
      guard (not counted || sizes_known layers) layer_size_failed
      write_layers layers
      config ← expect config_failed img.config
      write_blob_data img.config_io config
      manifest ← expect manifest_failed img.manifest
      write_blob_data img.manifest_io manifest

    unfoldable mutual
      -- writeIndexBlobs
      pub write_index_blobs : ImageIndex → Run (Unit {0})
      write_index_blobs (index a children) = do
        guard a.readable manifest_failed
        write_children children

      -- its loop over the manifests of the index
      pub write_children : Children → Run (Unit {0})
      write_children no_more = pure tt
      write_children (nested i rest) = do
        write_index_blobs i
        raw ← expect manifest_failed (answers i).raw
        write_blob_data (answers i).raw_io raw
        write_children rest
      write_children (plain img rest) = do write_image_blobs img; write_children rest
      write_children (unfetched rest) = expect child_failed none

  -- the descriptor of an image or an index
  unfoldable pub described : ImageRef → Text → Text → Text → Text → Text → Descriptor
  described ref kind containerd media_type digest content = record {
    media_type = media_type;
    digest = digest;
    size = pos (length content);
    urls = [];
    annotations =
        (kind_key, kind)
        ∷ (ref_name_key, short_name ref)
        ∷ (containerd_name_key, containerd)
        ∷ (original_ref_key, containerd)
        ∷ [];
    payload = [];
    platform = none;
    artifact_type = [];
  }

module _ (lib : DigestLib) (parse_reference : Text → Option Named) (io : SaveIo) (now : ℕ) where
  -- the index's AddIndex on the layout
  unfoldable pub put_index : Descriptor → Run (Unit {0})
  put_index d s =
      let (e, o) = add_index parse_reference io now d s.oci in
      elim e [
        | none ↦ (inr tt, record s { oci = o })
        | some x ↦ (inl (index_failed x), record s { oci = o })
      ]

  module _ (counted : Bool) where
    -- writeImage
    unfoldable pub write_image : ImageRef → Image → Text → Text → Run (Unit {0})
    write_image ref img kind containerd = do
      write_image_blobs lib counted img
      media_type ← expect media_type_failed img.media_type
      digest ← expect digest_failed img.digest
      guard img.parsed digest_invalid
      raw ← expect manifest_failed img.manifest
      let named = if text_eq containerd [] then ref.name else containerd
      put_index (described lib ref kind named media_type digest raw)

    -- writeIndex
    unfoldable pub write_index : ImageRef → ImageIndex → Text → Run (Unit {0})
    write_index ref i kind = do
      let a = answers i
      write_index_blobs lib counted i
      raw ← expect manifest_failed a.raw
      write_blob_data lib a.raw_io raw
      media_type ← expect media_type_failed a.media_type
      digest ← expect digest_failed a.digest
      guard a.parsed digest_invalid
      put_index (described lib ref kind ref.name media_type digest raw)
