-- ===== src/Store/Add/Bundles.antt =====
-- pkg/store/store.go: AddArtifact, AddArtifactCollection and AddLocalImage keep what the writes keep.
use hauler.Base.{ℕ, ◌≡◌, refl, Bool, Option, some, List, [], ◌∷◌, Text}
use hauler.Consts.{kind_image}
use hauler.Content.Reference.{Named}
use hauler.Content.Index.{SaveIo}
use hauler.Content.Blob.{DigestLib}
use hauler.Store.Add.{
  Layout, pure, ◌>>=◌, ◌>>◌, expect, Image, ImageRef, manifest_failed, config_failed, layers_failed,
  contents_failed, bad_image_ref, no_docker_host, fetch_failed, digest_failed,
}
use hauler.Store.Add.Rules.{Ensures, Ensures-bind, Ensures-error, Ensures-weaker}
use hauler.Store.Add.Writing.{write_layers, write_blob_data, put_index}
use hauler.Store.Add.Images.{Docker, ensure_docker_host, add_local_image}
use hauler.Store.Add.Artifacts.{
  Artifact, artifact_descriptor, add_artifact, add_each, add_artifact_collection,
}
use hauler.Store.Add.Keeping.{
  Has, IsStable, With-IsStable, Keeps, Keeps-then, Keeps-expect, write_blob_data-Ensures,
  write_blob_data-Keeps, write_layers-Keeps,
}
use hauler.Store.Add.Listing.{IsExact, put_index-Ensures, write_image-Keeps}

module _ (lib : DigestLib) (parse_reference : Text → Option Named) (save : SaveIo) (now : ℕ)
    (I : Layout → Type 0) (stable : IsStable lib parse_reference save now I) where
  abbrev Holding : Text → Layout → Type 0
  Holding t s = I s × Has lib s.blobs t

  abbrev holding : (t : Text) → IsStable lib parse_reference save now (Holding t)
  holding t = With-IsStable lib parse_reference save now I stable t

  -- AddArtifact past the manifest's blob, which stands throughout
  rest-Keeps :
      (oci : Artifact) (ref content : Text)
      → Ensures
          (Holding (lib.from_bytes content))
          (Holding (lib.from_bytes content))
          (λ _. Holding (lib.from_bytes content))
          (expect config_failed oci.config >>= λ config.
            write_blob_data lib oci.config_io config
            >> (expect layers_failed oci.layers >>= λ layers.
                write_layers lib layers
                >> (put_index lib parse_reference save now
                      (artifact_descriptor lib oci.media_type content ref)
                    >> pure (artifact_descriptor lib oci.media_type content ref))))
  unfolding artifact_descriptor
  rest-Keeps oci ref content =
      let t = lib.from_bytes content in
      let d = artifact_descriptor lib oci.media_type content ref in
      Keeps-expect lib parse_reference save now (Holding t) (holding t) config_failed oci.config
        λ config configured.
          Keeps-then lib parse_reference save now (Holding t) (holding t)
            (write_blob_data-Keeps lib parse_reference save now (Holding t) (holding t)
              oci.config_io config)
            (Keeps-expect lib parse_reference save now (Holding t) (holding t) layers_failed
              oci.layers
              λ layers listed.
                Keeps-then lib parse_reference save now (Holding t) (holding t)
                  (write_layers-Keeps lib parse_reference save now (Holding t) (holding t) layers)
                  (Keeps-then lib parse_reference save now (Holding t) (holding t)
                    (Ensures-weaker (λ s h. (h, h.1)) (λ a s h. h)
                      (put_index-Ensures lib parse_reference save now (Holding t) (holding t) d t
                        refl))
                    record { run = λ s h. h }))

  pub add_artifact-Keeps :
      (oci : Artifact) (ref : Text)
      → Keeps lib parse_reference save now I stable
          (add_artifact lib parse_reference save now oci ref)
  unfolding add_artifact
  add_artifact-Keeps oci ref =
      Keeps-expect lib parse_reference save now I stable manifest_failed oci.manifest
        λ content known.
          Ensures-bind (λ _. Holding (lib.from_bytes content))
            (write_blob_data-Ensures lib parse_reference save now I stable oci.manifest_io content)
            λ written.
              Ensures-error {E = Holding (lib.from_bytes content)} (λ s h. h.0)
                (Ensures-weaker (λ s h. h) (λ a s h. h.0) (rest-Keeps oci ref content))

  add_each-Keeps :
      (contents : List (Text × Artifact))
      → Keeps lib parse_reference save now I stable (add_each lib parse_reference save now contents)
  unfolding add_each
  add_each-Keeps [] = record { run = λ s h. h }
  add_each-Keeps ((ref, oci) ∷ contents) =
      Ensures-bind (λ _. I) (add_artifact-Keeps oci ref)
        λ d. Ensures-bind (λ _. I) (add_each-Keeps contents) λ ds. record { run = λ s h. h }

  pub add_artifact_collection-Keeps :
      (contents : Option (List (Text × Artifact)))
      → Keeps lib parse_reference save now I stable
          (add_artifact_collection lib parse_reference save now contents)
  unfolding add_artifact_collection
  add_artifact_collection-Keeps contents =
      Keeps-expect lib parse_reference save now I stable contents_failed contents
        λ cnts known. add_each-Keeps cnts

  pub add_local_image-Keeps :
      (counted : Bool) (parse : Text → Option ImageRef) (docker : Docker) (ref : Text)
      → ((name : Text) (img : Image)
          → docker.image name ≡ some img
          → IsExact lib img.manifest img.digest)
      → Keeps lib parse_reference save now I stable
          (add_local_image lib parse_reference save now counted parse docker ref)
  unfolding add_local_image
  add_local_image-Keeps counted parse docker ref exact =
      Keeps-expect lib parse_reference save now I stable bad_image_ref (parse ref) λ parsed known.
        Keeps-expect lib parse_reference save now I stable no_docker_host
          (ensure_docker_host docker)
          λ host there.
            Keeps-expect lib parse_reference save now I stable fetch_failed
              (docker.image parsed.name)
              λ img found.
                Keeps-expect lib parse_reference save now I stable digest_failed img.digest
                  λ digest answered.
                    Keeps-then lib parse_reference save now I stable
                      (write_image-Keeps lib parse_reference save now I stable counted parsed img
                        kind_image [] (exact parsed.name img found))
                      record { run = λ s h. h }
