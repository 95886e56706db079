-- ===== src/Store/Add/Backed.antt =====
-- pkg/store/store.go: AddImage keeps a store whose index lists stored manifests only.
use hauler.Base.{ℕ, ◌≡◌, Bool, true, Option, some, List, Option-cases, Text, ◌⊎◌, inl, inr}
use hauler.Content.Descriptor.{Descriptor}
use hauler.Content.Reference.{Named}
use hauler.Content.Index.{Oci, SaveIo, load_index}
use hauler.Content.Index.Operations.{remove_from_index, update_annotations}
use hauler.Content.Index.Entries.{
  Everywhere, save_index-Everywhere, remove-InMap, load_index-Everywhere,
  update_annotations-Everywhere, Everywhere-weaker, add_index-Everywhere,
}
use hauler.Content.Blob.{DigestLib}
use hauler.Store.Add.{Layout, AddError, Run, Image, ImageRef, Registry}
use hauler.Store.Add.Rules.{Outcome}
use hauler.Store.Add.Images.{add_image, add_local_image, Docker}
use hauler.Store.Add.Keeping.{Has, IsStable, Keeps}
use hauler.Store.Add.Listing.{IsExact, IsFaithful}
use hauler.Store.Add.Bundles.{
  add_artifact-Keeps, add_artifact_collection-Keeps, add_local_image-Keeps,
}
use hauler.Store.Add.Artifacts.{Artifact, add_artifact, add_artifact_collection}
use hauler.Store.Remove.{remove_artifact}
use hauler.Base.Dict.{Dict}
use hauler.Store.Add.Preserving.{add_image-Keeps}

module _ (P : Text → Type 0) (parse_reference : Text → Option Named) where
  remove_artifact-Everywhere :
      (io : SaveIo) (now : ℕ) (reference : Text) (s : Oci)
      → Everywhere P s
      → Everywhere P (remove_artifact parse_reference io now reference s).1
  unfolding remove_artifact remove_from_index
  remove_artifact-Everywhere io now reference s h =
      let loaded = load_index-Everywhere P parse_reference s h in
      let m = (load_index parse_reference s).1.name_map in
      elim (Option-cases (load_index parse_reference s).0) [
        | inr (e, failed) ↦ rw (failed, remove_artifact) loaded
        | inl ok ↦
            rw (ok, remove_artifact)
              (save_index-Everywhere P io now true
                (remove_from_index reference (load_index parse_reference s).1)
                (record {
                  entries = remove-InMap P reference m loaded.entries;
                  listed = loaded.listed;
                }))
      ]

-- every manifest that the name map or index.json lists has its blob
abbrev pub IsBacked : DigestLib → Layout → Type 0
IsBacked lib s = Everywhere (Has lib s.blobs) s.oci

module _ (lib : DigestLib) (parse_reference : Text → Option Named) (save : SaveIo) (now : ℕ) where
  pub IsBacked-IsStable : IsStable lib parse_reference save now (IsBacked lib)
  IsBacked-IsStable = record {
    grown = λ s s' same grows h.
        rw same (Everywhere-weaker {P = Has lib s.blobs} {Q = Has lib s'.blobs} grows s.oci h);
    listed = λ d s stands h.
        add_index-Everywhere (Has lib s.blobs) parse_reference save now d s.oci stands h;
  }

  settled :
      {A : Type 0} (r : AddError ⊎ A) (s : Layout)
      → Outcome (IsBacked lib) (λ _. IsBacked lib) r s
      → IsBacked lib s
  settled (inl e) s h = h
  settled (inr a) s h = h

  from_Keeps :
      {A : Type 0} {m : Run A} (s : Layout)
      → Keeps lib parse_reference save now (IsBacked lib) IsBacked-IsStable m
      → IsBacked lib s
      → IsBacked lib (m s).1
  from_Keeps {m = m} s k h = settled (m s).0 (m s).1 (k.run s h)

-- One operation of the store, with the answers that it meets, from a layout to what it leaves,
-- whether it succeeds or fails: the additions, RemoveArtifact, and UpdateAnnotations, by which an
-- image is renamed.
pub data Step (lib : DigestLib) (parse_reference : Text → Option Named)
    : Layout → Layout → Type 0 where
  added_image :
      (save : SaveIo) (now : ℕ) (counted : Bool) (registry : Registry) (ref platform : Text)
      (exclude_extras : Bool) (pinned : Text) (s : Layout)
      → IsFaithful lib registry
      → Step lib parse_reference s
          (add_image lib parse_reference save now counted registry ref platform exclude_extras
            pinned s).1
  added_local :
      (save : SaveIo) (now : ℕ) (counted : Bool) (parse : Text → Option ImageRef) (docker : Docker)
      (ref : Text) (s : Layout)
      → ((name : Text) (img : Image)
          → docker.image name ≡ some img
          → IsExact lib img.manifest img.digest)
      → Step lib parse_reference s
          (add_local_image lib parse_reference save now counted parse docker ref s).1
  added_artifact :
      (save : SaveIo) (now : ℕ) (oci : Artifact) (ref : Text) (s : Layout)
      → Step lib parse_reference s (add_artifact lib parse_reference save now oci ref s).1
  added_collection :
      (save : SaveIo) (now : ℕ) (contents : Option (List (Text × Artifact))) (s : Layout)
      → Step lib parse_reference s
          (add_artifact_collection lib parse_reference save now contents s).1
  removed :
      (save : SaveIo) (now : ℕ) (reference : Text) (s : Layout)
      → Step lib parse_reference s
          (record s { oci = (remove_artifact parse_reference save now reference s.oci).1 })
  renamed :
      (save : SaveIo) (now : ℕ) (match : Descriptor → Bool) (apply : Dict Text → Dict Text)
      (s : Layout)
      → Step lib parse_reference s
          (record s { oci = (update_annotations parse_reference save now match apply s.oci).1 })

pub data Reach (lib : DigestLib) (parse_reference : Text → Option Named) (s : Layout)
    : Layout → Type 0 where
  here : Reach lib parse_reference s s
  next :
      {t u : Layout}
      → Reach lib parse_reference s t
      → Step lib parse_reference t u
      → Reach lib parse_reference s u

module _ (lib : DigestLib) (parse_reference : Text → Option Named) where
  Step-IsBacked : {s t : Layout} → Step lib parse_reference s t → IsBacked lib s → IsBacked lib t
  Step-IsBacked
        (added_image save now counted registry ref platform exclude_extras pinned s faithful) h =
      from_Keeps lib parse_reference save now s
        (add_image-Keeps lib parse_reference save now (IsBacked lib)
          (IsBacked-IsStable lib parse_reference save now) counted registry faithful ref platform
          exclude_extras pinned)
        h
  Step-IsBacked (added_local save now counted parse docker ref s exact) h =
      from_Keeps lib parse_reference save now s
        (add_local_image-Keeps lib parse_reference save now (IsBacked lib)
          (IsBacked-IsStable lib parse_reference save now) counted parse docker ref exact)
        h
  Step-IsBacked (added_artifact save now oci ref s) h =
      from_Keeps lib parse_reference save now s
        (add_artifact-Keeps lib parse_reference save now (IsBacked lib)
          (IsBacked-IsStable lib parse_reference save now) oci ref)
        h
  Step-IsBacked (added_collection save now contents s) h =
      from_Keeps lib parse_reference save now s
        (add_artifact_collection-Keeps lib parse_reference save now (IsBacked lib)
          (IsBacked-IsStable lib parse_reference save now) contents)
        h
  Step-IsBacked (removed save now reference s) h =
      remove_artifact-Everywhere (Has lib s.blobs) parse_reference save now reference s.oci h
  Step-IsBacked (renamed save now match apply s) h =
      update_annotations-Everywhere (Has lib s.blobs) parse_reference save now match apply s.oci h

  -- Whatever additions of images, local images and artifacts, removals and renamings are made, and
  -- however their reads, writes and saves fail, each manifest that the name map or index.json lists
  -- has its blob in the store, if it was so at the start and the clients compute the digests from
  -- the manifests they return.
  pub Reach-IsBacked :
      {s t : Layout} → IsBacked lib s → Reach lib parse_reference s t → IsBacked lib t
  Reach-IsBacked h here = h
  Reach-IsBacked h (next r step) = Step-IsBacked step (Reach-IsBacked h r)
