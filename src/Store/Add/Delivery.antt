-- ===== src/Store/Add/Delivery.antt =====
-- pkg/store/store.go: an AddImage that succeeds leaves all the content of what it fetched.
use hauler.Base.{
  ℕ, Bool-cases, Option-cases, ◌≡◌, refl, Bool, true, false, ◌&&◌, ◌||◌, is_some, arith, Option,
  none, some, [], Text, text_eq, text_eq_iff, inl, inr, if◌then◌else◌,
}
use hauler.Consts.{kind_image, kind_index}
use hauler.Content.Descriptor.{Platform}
use hauler.Content.Reference.{Named}
use hauler.Content.Index.{SaveIo}
use hauler.Content.Blob.{DigestLib, BlobStore}
use hauler.Store.Add.{
  digest_failed, fetch_failed, transport_failed, bad_image_ref, Layout, pure, ◌>>=◌, ◌>>◌, expect,
  ImageIndex, ImageRef, Fetched, Registry,
}
use hauler.Store.Add.Rules.{Ensures-bind, Ensures-error, Ensures-result}
use hauler.Store.Add.Writing.{answers, write_image}
use hauler.Store.Add.Images.{
  add_whole_index, add_single_image, add_fetched, fetch_name, add_extras, add_image,
}
use hauler.Store.Add.Listing.{IsFaithful}
use hauler.Store.Add.Preserving.{add_extras-Keeps}
use hauler.Store.Add.Complete.{
  HasContent, HasImage, HasIndex, image-Grows, index-Grows, content-Grows,
}
use hauler.Store.Add.Yielding.{Lasts, Lasts-IsStable, Yields, Yields-expect, Yields-guard}
use hauler.Store.Add.Delivering.{
  Requested, Delivered, whole, single, Added, write_image-Yields, write_index-Yields, checked,
  known_fact, platform_option-Yields,
}

module _ (lib : DigestLib) (parse_reference : Text → Option Named) (save : SaveIo) (now : ℕ)
    (counted : Bool) where
  module _ (registry : Registry) where
    Delivered-Lasts :
        (fetch platform digest : Text) (o : Option ImageIndex)
        → Lasts lib parse_reference save now (Delivered lib registry fetch platform digest o)
    Delivered-Lasts fetch platform digest o b b' grows (whole i multi all answered h raw) =
        whole i multi all answered (index-Grows lib b b' grows h)
          (content-Grows lib b b' grows (answers i).raw raw)
    Delivered-Lasts fetch platform digest o b b' grows (single p img one asked found answered h) =
        single p img one asked found answered (image-Grows lib b b' grows img h)

    single_image :
        (ref : ImageRef) (fetch platform : Text) (o : Option ImageIndex) (p : Option Platform)
        → (text_eq platform [] && is_some o) ≡ false
        → Requested platform p
        → Yields lib parse_reference save now
            (λ _. Unit)
            (λ digest s. Delivered lib registry fetch platform digest o s.blobs)
            (expect fetch_failed (registry.image fetch p) >>= λ img.
              expect digest_failed img.digest >>= λ digest.
              write_image lib parse_reference save now counted ref img kind_image [] >> pure digest)
    single_image ref fetch platform o p one asked =
        Yields-expect lib parse_reference save now fetch_failed (registry.image fetch p)
          λ img found.
            Yields-expect lib parse_reference save now digest_failed img.digest λ digest answered.
              Ensures-bind (λ _ s. HasImage lib s.blobs img)
                (write_image-Yields lib parse_reference save now counted ref img kind_image [])
                λ done. record { run = λ s h. single p img one asked found answered h }

    single-Yields :
        (ref : ImageRef) (fetch platform : Text) (o : Option ImageIndex)
        → (text_eq platform [] && is_some o) ≡ false
        → Yields lib parse_reference save now
            (λ _. Unit)
            (λ digest s. Delivered lib registry fetch platform digest o s.blobs)
            (add_single_image lib parse_reference save now counted registry ref fetch platform)
    unfolding add_single_image
    single-Yields ref fetch platform o one =
        Ensures-bind (λ p _. Requested platform p)
          (platform_option-Yields lib parse_reference save now counted platform)
          λ p. record { run = λ s asked. (single_image ref fetch platform o p one asked).run s tt }

    fetched-Yields :
        (ref : ImageRef) (fetch platform : Text) (d : Fetched)
        → Yields lib parse_reference save now
            (λ _. Unit)
            (λ digest s. Delivered lib registry fetch platform digest d.as_index s.blobs)
            (add_fetched lib parse_reference save now counted registry ref fetch platform d)
    unfolding add_fetched add_whole_index
    fetched-Yields ref fetch platform d = elim (Option-cases d.as_index) [
      | inl image ↦ rw (image, add_fetched) (single-Yields ref fetch platform none (ground arith))
      | inr (i, multi) ↦ elim (Bool-cases (text_eq platform [])) [
        | inr filtered ↦
            rw (multi, add_fetched)
              (rw filtered (single-Yields ref fetch platform (some i) (ground (arith, filtered))))
        | inl all ↦
            rw (multi, add_fetched)
              (rw all (
                Yields-expect lib parse_reference save now digest_failed (answers i).digest
                  λ digest answered.
                    Ensures-bind
                      (λ _ s. HasIndex lib s.blobs i × HasContent lib s.blobs (answers i).raw)
                      (write_index-Yields lib parse_reference save now counted ref i kind_index)
                      λ done. record {
                        run =
                            λ s h. whole i refl ((text_eq_iff platform []).0 all) answered h.0 h.1;
                      }))
      ]
    ]

    module _ (faithful : IsFaithful lib registry) where
      extras-Yield :
          (P : BlobStore → Type 0) (lasts : Lasts lib parse_reference save now P) (b : Bool)
          (ref : ImageRef) (digest : Text)
          → Yields lib parse_reference save now
              (λ s. P s.blobs)
              (λ _ s. P s.blobs)
              (if b
                then pure tt
                else add_extras lib parse_reference save now counted registry ref digest)
      extras-Yield P lasts true ref digest = record { run = λ s h. h }
      extras-Yield P lasts false ref digest =
          Ensures-error {E = λ s. P s.blobs} (λ s h. tt)
            (add_extras-Keeps lib parse_reference save now (λ s. P s.blobs)
              (Lasts-IsStable lib parse_reference save now P lasts) counted registry faithful ref
              digest)

      add_image-Yields :
          (ref platform : Text) (exclude_extras : Bool) (pinned : Text)
          → Yields lib parse_reference save now
              (λ _. Unit)
              (λ digest s. Added lib registry ref platform pinned digest s.blobs)
              (add_image lib parse_reference save now counted registry ref platform exclude_extras
                pinned)
      unfolding add_image
      add_image-Yields ref platform exclude_extras pinned =
          Yields-guard lib parse_reference save now registry.transport transport_failed (
            Yields-expect lib parse_reference save now bad_image_ref (registry.parse ref)
              λ parsed known.
                let fetch = fetch_name registry parsed pinned in
                Yields-expect lib parse_reference save now fetch_failed (registry.get fetch)
                  λ d got.
                    Ensures-bind (λ _ _. (text_eq pinned [] || text_eq d.digest pinned) ≡ true)
                      (checked lib parse_reference save now counted
                        (text_eq pinned [] || text_eq d.digest pinned))
                      λ pass. known_fact lib parse_reference save now counted λ same.
                        Ensures-bind
                          (λ digest s.
                            Delivered lib registry fetch platform digest d.as_index s.blobs)
                          (fetched-Yields parsed fetch platform d)
                          λ digest.
                            Ensures-bind
                              (λ _ s.
                                Delivered lib registry fetch platform digest d.as_index s.blobs)
                              (extras-Yield
                                (Delivered lib registry fetch platform digest d.as_index)
                                (Delivered-Lasts fetch platform digest d.as_index) exclude_extras
                                parsed digest)
                              λ extras. record { run = λ s h. (parsed, d, known, got, same, h) })

      -- When AddImage returns a digest, everything that it fetched under the reference stands in the
      -- store: the whole index with every image and index below it, if it is an index and no platform
      -- is asked for, or else the one image, of the platform that is asked for; each with its manifest,
      -- its config and all its layers. What it fetched has the pinned digest, if one is given. The
      -- condition: the registry's client computes digests from the manifests that it returns.
      pub add_image-delivers :
          (ref platform : Text) (exclude_extras : Bool) (pinned : Text) (s : Layout) (digest : Text)
          → (add_image lib parse_reference save now counted registry ref platform exclude_extras
              pinned s).0
            ≡ inr digest
          → Added lib registry ref platform pinned digest
              (add_image lib parse_reference save now counted registry ref platform exclude_extras
                pinned s).1.blobs
      add_image-delivers ref platform exclude_extras pinned s digest ok =
          Ensures-result s digest (add_image-Yields ref platform exclude_extras pinned) tt ok
