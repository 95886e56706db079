-- ===== src/Store/Add/Listing.antt =====
-- pkg/store/store.go: an addition lists a manifest in the index only after its blob is stored.
use hauler.Base.{ℕ, Option-cases, ◌≡◌, refl, Bool, Option, none, some, Text, inl, inr}
use hauler.Content.Descriptor.{Descriptor, Platform}
use hauler.Content.Reference.{Named}
use hauler.Content.Index.{SaveIo}
use hauler.Content.Index.Operations.{add_index}
use hauler.Content.Blob.{DigestLib}
use hauler.Store.Add.{
  manifest_failed, media_type_failed, digest_failed, digest_invalid, Layout, AddError, Run, ◌>>=◌,
  ◌>>◌, expect, guard, Image, ImageIndex, ImageRef, Fetched, Registry,
}
use hauler.Store.Add.Rules.{Ensures-found, Ensures, Ensures-bind, Ensures-guard}
use hauler.Store.Add.Writing.{answers, described, put_index, write_image, write_index}
use hauler.Store.Add.Keeping.{
  Has, IsStable, With, Keeps, Keeps-then, Keeps-expect, write_blob_data-Ensures,
  write_image_blobs-Ensures, write_index_blobs-Keeps,
}

-- The digest that an image or an index answers is the one of its manifest.
abbrev pub IsExact : DigestLib → Option Text → Option Text → Type 0
IsExact lib manifest digest =
    (m d : Text) → manifest ≡ some m → digest ≡ some d → d ≡ lib.from_bytes m

-- go-containerregistry computes the digests of what it fetches from the manifests.
pub record IsFaithful (lib : DigestLib) (registry : Registry) : Type 0 where
  pub image_exact :
      (name : Text) (p : Option Platform) (img : Image)
      → registry.image name p ≡ some img
      → IsExact lib img.manifest img.digest
  pub index_exact :
      (name : Text) (d : Fetched) (i : ImageIndex)
      → registry.get name ≡ some d
      → d.as_index ≡ some i
      → IsExact lib (answers i).raw (answers i).digest

module _ (lib : DigestLib) (parse_reference : Text → Option Named) (save : SaveIo) (now : ℕ)
    (I : Layout → Type 0) (stable : IsStable lib parse_reference save now I) where
  pub put_index-Ensures :
      (d : Descriptor) (t : Text)
      → d.digest ≡ t
      → Ensures I
          (With lib parse_reference save now I stable t)
          (λ _. I)
          (put_index lib parse_reference save now d)
  unfolding put_index
  put_index-Ensures d t same = record {
    run = λ s h.
        let r = add_index parse_reference save now d s.oci in
        let stands : Has lib s.blobs d.digest = rw same h.1 in
        let kept = stable.listed d s stands h.0 in
        elim (Option-cases r.0) [
          | inl ok ↦ rw (ok, put_index) kept
          | inr (e, failed) ↦ rw (failed, put_index) kept
        ];
  }

  -- the tail that writeImage and writeIndex share, once the manifest `m` is stored
  listing-Ensures :
      {A : Type 0} (e : AddError) (o : Option A) (m : Text) {k : A → Run (Unit {0})}
      → ((a : A)
          → o ≡ some a
          → Ensures I (With lib parse_reference save now I stable m) (λ _. I) (k a))
      → Ensures I (With lib parse_reference save now I stable m) (λ _. I) (expect e o >>= k)
  listing-Ensures e none m k = record { run = λ s h. h.0 }
  listing-Ensures e (some a) m k = record { run = λ s h. (k a refl).run s h }

  abbrev Listing : Text → Run (Unit {0}) → Type 0
  Listing m k = Ensures I (With lib parse_reference save now I stable m) (λ _. I) k

  described-Ensures :
      (media_type digest : Option Text) (parsed : Bool) (m : Text)
      {k : Text → Text → Run (Unit {0})}
      → ((t d : Text) → digest ≡ some d → Listing m (k t d))
      → Listing m (
          expect media_type_failed media_type >>= λ t.
          expect digest_failed digest >>= λ d. guard parsed digest_invalid >> k t d)
  described-Ensures media_type digest parsed m k =
      listing-Ensures media_type_failed media_type m λ t typed.
        listing-Ensures digest_failed digest m λ d answered.
          Ensures-bind (λ _. With lib parse_reference save now I stable m)
            (Ensures-guard (λ s h. h.0) parsed digest_invalid) (λ valid. k t d answered)

  module _ (counted : Bool) where
    pub write_image-Keeps :
        (ref : ImageRef) (img : Image) (kind containerd : Text)
        → IsExact lib img.manifest img.digest
        → Keeps lib parse_reference save now I stable
            (write_image lib parse_reference save now counted ref img kind containerd)
    unfolding write_image described
    write_image-Keeps ref img kind containerd exact =
        Ensures-bind
          (λ _ s.
            (m : Text) × (img.manifest ≡ some m)
            × With lib parse_reference save now I stable (lib.from_bytes m) s)
          (write_image_blobs-Ensures lib parse_reference save now I stable counted img)
          λ done. Ensures-found λ m stored.
            described-Ensures img.media_type img.digest img.parsed (lib.from_bytes m)
              λ media_type digest answered.
                listing-Ensures manifest_failed img.manifest (lib.from_bytes m) λ raw read.
                  put_index-Ensures _ (lib.from_bytes m) (exact m digest stored answered)

    pub write_index-Keeps :
        (ref : ImageRef) (i : ImageIndex) (kind : Text)
        → IsExact lib (answers i).raw (answers i).digest
        → Keeps lib parse_reference save now I stable
            (write_index lib parse_reference save now counted ref i kind)
    unfolding write_index described
    write_index-Keeps ref i kind exact =
        Keeps-then lib parse_reference save now I stable
          (write_index_blobs-Keeps lib parse_reference save now I stable counted i)
          (Keeps-expect lib parse_reference save now I stable manifest_failed (answers i).raw
            λ raw stored.
              Ensures-bind (λ _. With lib parse_reference save now I stable (lib.from_bytes raw))
                (write_blob_data-Ensures lib parse_reference save now I stable (answers i).raw_io
                  raw)
                λ written.
                  described-Ensures (answers i).media_type (answers i).digest (answers i).parsed
                    (lib.from_bytes raw)
                    λ media_type digest answered.
                      put_index-Ensures _ (lib.from_bytes raw) (exact raw digest stored answered))
