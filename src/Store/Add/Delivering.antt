-- ===== src/Store/Add/Delivering.antt =====
-- pkg/store/store.go: what an AddImage delivers, and what writeImage and writeIndex leave.
use hauler.Base.{
  ℕ, Option-cases, ◌≡◌, refl, Bool, true, false, ◌&&◌, ◌||◌, is_some, Option, none, some, [], ◌∷◌,
  Text, text_eq, inl, inr,
}
use hauler.Content.Descriptor.{Descriptor, Platform}
use hauler.Content.Reference.{Named}
use hauler.Content.Index.{SaveIo}
use hauler.Content.Index.Operations.{add_index}
use hauler.Content.Blob.{DigestLib, BlobStore}
use hauler.Store.Add.{
  manifest_failed, media_type_failed, digest_failed, digest_invalid, bad_platform, pin_mismatch,
  Layout, Run, guard, Image, ImageIndex, ImageRef, Fetched, Registry,
}
use hauler.Store.Add.Rules.{Ensures-bind, Ensures-weaker}
use hauler.Store.Add.Writing.{answers, put_index, write_image, write_index}
use hauler.Store.Add.Images.{parse_platform, platform_option, fetch_name}
use hauler.Store.Add.Complete.{HasContent, HasImage, HasIndex, index-Grows}
use hauler.Store.Add.Yielding.{
  Yields, Yields-expect, Yields-guard, write_blob_data-Yields, write_image_blobs-Yields,
  write_index_blobs-Yields,
}

-- the platform option is the one that is asked for
abbrev pub Requested : Text → Option Platform → Type 0
Requested [] p = p ≡ none
Requested (c ∷ s) p = (q : Platform) × (p ≡ some q) × (parse_platform (c ∷ s) ≡ some q)

-- What an AddImage delivers for the reference that it fetches, and the digest that it returns: the
-- whole index, if it is one and no platform is asked for, or else one image, of the platform that is
-- asked for.
pub data Delivered (lib : DigestLib) (registry : Registry) (fetch platform digest : Text)
    (o : Option ImageIndex) (b : BlobStore) : Type 0 where
  whole :
      (i : ImageIndex)
      → o ≡ some i
      → platform ≡ []
      → (answers i).digest ≡ some digest
      → HasIndex lib b i
      → HasContent lib b (answers i).raw
      → Delivered lib registry fetch platform digest o b
  single :
      (p : Option Platform) (img : Image)
      → (text_eq platform [] && is_some o) ≡ false
      → Requested platform p
      → registry.image fetch p ≡ some img
      → img.digest ≡ some digest
      → HasImage lib b img
      → Delivered lib registry fetch platform digest o b

-- what AddImage has done when it returns `digest`
abbrev pub Added : DigestLib → Registry → (ref platform pinned digest : Text) → BlobStore → Type 0
Added lib registry ref platform pinned digest b =
    (parsed : ImageRef) × (d : Fetched) × (registry.parse ref ≡ some parsed)
    × (registry.get (fetch_name registry parsed pinned) ≡ some d)
    × ((text_eq pinned [] || text_eq d.digest pinned) ≡ true)
    × Delivered lib registry (fetch_name registry parsed pinned) platform digest d.as_index b

module _ (lib : DigestLib) (parse_reference : Text → Option Named) (save : SaveIo) (now : ℕ) where
  put_index-blobs :
      (P : BlobStore → Type 0) (d : Descriptor)
      → Yields lib parse_reference save now
          (λ s. P s.blobs)
          (λ _ s. P s.blobs)
          (put_index lib parse_reference save now d)
  unfolding put_index
  put_index-blobs P d = record {
    run = λ s h. elim (Option-cases (add_index parse_reference save now d s.oci).0) [
      | inl ok ↦ rw (ok, put_index) h
      | inr (e, failed) ↦ rw (failed, put_index) tt
    ];
  }

  module _ (counted : Bool) where
    pub write_image-Yields :
        (ref : ImageRef) (img : Image) (kind containerd : Text)
        → Yields lib parse_reference save now
            (λ _. Unit)
            (λ _ s. HasImage lib s.blobs img)
            (write_image lib parse_reference save now counted ref img kind containerd)
    unfolding write_image
    write_image-Yields ref img kind containerd =
        Ensures-bind (λ _ s. HasImage lib s.blobs img)
          (write_image_blobs-Yields lib parse_reference save now counted img)
          λ done.
            Yields-expect lib parse_reference save now media_type_failed img.media_type λ t typed.
              Yields-expect lib parse_reference save now digest_failed img.digest λ d answered.
                Yields-guard lib parse_reference save now img.parsed digest_invalid (
                  Yields-expect lib parse_reference save now manifest_failed img.manifest
                    λ raw read. put_index-blobs (λ b. HasImage lib b img) _)

    pub write_index-Yields :
        (ref : ImageRef) (i : ImageIndex) (kind : Text)
        → Yields lib parse_reference save now
            (λ _. Unit)
            (λ _ s. HasIndex lib s.blobs i × HasContent lib s.blobs (answers i).raw)
            (write_index lib parse_reference save now counted ref i kind)
    unfolding write_index
    write_index-Yields ref i kind =
        Ensures-bind (λ _ s. HasIndex lib s.blobs i)
          (write_index_blobs-Yields lib parse_reference save now counted i)
          λ done.
            Yields-expect lib parse_reference save now manifest_failed (answers i).raw λ raw known.
              Ensures-bind (λ _ s. HasIndex lib s.blobs i × HasContent lib s.blobs (answers i).raw)
                (Ensures-weaker (λ s h. h) (λ _ s h. (h.0, (raw, known, h.1)))
                  (write_blob_data-Yields lib parse_reference save now (λ b. HasIndex lib b i)
                    (λ b b' grows h. index-Grows lib b b' grows h) (answers i).raw_io raw))
                λ written.
                  Yields-expect lib parse_reference save now media_type_failed
                    (answers i).media_type
                    λ t typed.
                      Yields-expect lib parse_reference save now digest_failed (answers i).digest
                        λ d answered.
                          Yields-guard lib parse_reference save now (answers i).parsed
                            digest_invalid
                            (put_index-blobs
                              (λ b. HasIndex lib b i × HasContent lib b (answers i).raw) _)

    pub checked :
        (b : Bool)
        → Yields lib parse_reference save now (λ _. Unit) (λ _ _. b ≡ true) (guard b pin_mismatch)
    checked true = record { run = λ s h. refl }
    checked false = record { run = λ s h. tt }

    pub known_fact :
        {A : Type 0} {X : Type 0} {Q : A → Layout → Type 0} {m : Run A}
        → (X → Yields lib parse_reference save now (λ _. Unit) Q m)
        → Yields lib parse_reference save now (λ _. X) Q m
    known_fact k = record { run = λ s x. (k x).run s tt }

    pub platform_option-Yields :
        (platform : Text)
        → Yields lib parse_reference save now
            (λ _. Unit)
            (λ p _. Requested platform p)
            (platform_option platform)
    unfolding platform_option
    platform_option-Yields [] = record { run = λ s h. refl }
    platform_option-Yields (c ∷ t) =
        Yields-expect lib parse_reference save now bad_platform (parse_platform (c ∷ t))
          λ q parsed. record { run = λ s h. (q, refl, parsed) }
