-- ===== src/Store/Add/Keeping.antt =====
-- What the writes of images and indexes keep of the layout: a property that survives when blobs
-- are added, and when a descriptor is listed whose blob is stored.
use hauler.Base.{
  ℕ, Option-cases, sum-cases, ◌≡◌, refl, Bool, true, Option, none, some, List, [], ◌∷◌, Text,
  is_some, length, inl, inr, ◌⊎◌,
}
use hauler.Base.Int.{ℤ, pos}
use hauler.Base.Dict
use hauler.Content.Descriptor.{Descriptor}
use hauler.Content.Reference.{Named}
use hauler.Content.Index.{SaveIo}
use hauler.Content.Index.Operations.{add_index}
use hauler.Content.Blob.{DigestLib, BlobStore, blob_path, write_blob}
use hauler.Content.Blob.Writing.{write_blob_monotone, write_blob-stands}
use hauler.Store.Add.{
  layer_digest_failed, layer_digest_invalid, layer_size_failed, layers_failed, config_failed,
  manifest_failed, Layout, AddError, Run, ◌>>=◌, ◌>>◌, expect, guard, WriteIo, Layer, Image,
  ImageIndex, index, Children, no_more, nested, plain, unfetched,
}
use hauler.Store.Add.Rules.{Outcome, Ensures, Ensures-bind, Ensures-guard, Ensures-weaker}
use hauler.Store.Add.Writing.{
  answers, put_blob, write_layer, write_blob_data, write_layers, write_image_blobs,
  write_index_blobs, write_children,
}

-- a blob stands at the digest's path
abbrev pub Has : DigestLib → BlobStore → Text → Type 0
Has lib b d = is_some (Dict.lookup (blob_path lib d) b.blobs) ≡ true

pub record IsStable (lib : DigestLib) (parse_reference : Text → Option Named) (save : SaveIo)
    (now : ℕ) (I : Layout → Type 0) : Type 0 where
  pub grown :
      (s s' : Layout)
      → s'.oci ≡ s.oci
      → ((d : Text) → Has lib s.blobs d → Has lib s'.blobs d)
      → I s
      → I s'
  pub listed :
      (d : Descriptor) (s : Layout)
      → Has lib s.blobs d.digest
      → I s
      → I (record s { oci = (add_index parse_reference save now d s.oci).1 })

module _ (lib : DigestLib) where
  -- A step that only adds blobs keeps what is backed.
  abbrev pub Adds : {A : Type 0} → Run A → Type 0
  Adds m =
      (s : Layout)
      → ((m s).1.oci ≡ s.oci) × ((d : Text) → Has lib s.blobs d → Has lib (m s).1.blobs d)

  put_blob-Adds : (io : WriteIo) (expected : Text) (size : ℤ) → Adds (put_blob lib io expected size)
  unfolding put_blob
  put_blob-Adds io expected size s =
      let r = write_blob lib io.started io.mkdir io.live io.first io.second expected size s.blobs in
      let present =
        write_blob_monotone lib io.started io.mkdir io.live io.first io.second expected size
          s.blobs in
      elim (Option-cases r.0) [
        | inl ok ↦ rw (ok, put_blob) (refl, λ d h. present (blob_path lib d) h)
        | inr (e, failed) ↦ rw (failed, put_blob) (refl, λ d h. present (blob_path lib d) h)
      ]

  put_blob-Has :
      (io : WriteIo) (expected : Text) (size : ℤ) (s : Layout) (done : Unit {0})
      → (put_blob lib io expected size s).0 ≡ inr done
      → Has lib (put_blob lib io expected size s).1.blobs expected
  unfolding put_blob
  put_blob-Has io expected size s done h =
      let r = write_blob lib io.started io.mkdir io.live io.first io.second expected size s.blobs in
      let stands =
        write_blob-stands lib io.started io.mkdir io.live io.first io.second expected size
          s.blobs in
      elim (Option-cases r.0) [
        | inl ok ↦ rw (ok, put_blob) (stands ok)
        | inr (e, failed) ↦ cc (rw (failed, put_blob) at h)
      ]

module _ (lib : DigestLib) (parse_reference : Text → Option Named) (save : SaveIo) (now : ℕ)
    (I : Layout → Type 0) (stable : IsStable lib parse_reference save now I) where
  -- the property, and the blob of `d`
  abbrev pub With : Text → Layout → Type 0
  With d s = I s × Has lib s.blobs d

  pub put_blob-Ensures :
      (io : WriteIo) (expected : Text) (size : ℤ)
      → Ensures I I (λ _. With expected) (put_blob lib io expected size)
  put_blob-Ensures io expected size = record {
    run = λ s h.
        let m = put_blob lib io expected size in
        let adds = put_blob-Adds lib io expected size s in
        outcome (m s).0 (m s).1 (stable.grown s (m s).1 adds.0 adds.1 h)
          (λ done ok. put_blob-Has lib io expected size s done ok);
  }
    where
      outcome :
          (r : AddError ⊎ Unit {0}) (s' : Layout)
          → I s'
          → ((done : Unit {0}) → r ≡ inr done → Has lib s'.blobs expected)
          → Outcome I (λ _. With expected) r s'
      outcome (inl e) s' h k = h
      outcome (inr done) s' h k = (h, k done refl)

  pub write_blob_data-Ensures :
      (io : WriteIo) (content : Text)
      → Ensures I I (λ _. With (lib.from_bytes content)) (write_blob_data lib io content)
  unfolding write_blob_data
  write_blob_data-Ensures io content =
      put_blob-Ensures io (lib.from_bytes content) (pos (length content))

  -- a step after which nothing more than before is known
  abbrev pub Keeps : {A : Type 0} → Run A → Type 0
  Keeps m = Ensures I I (λ _. I) m

  pub Keeps-then :
      {B : Type 0} {P : Layout → Type 0} {R : B → Layout → Type 0} {m : Run (Unit {0})} {k : Run B}
      → Ensures I P (λ _. I) m
      → Ensures I I R k
      → Ensures I P R (m >> k)
  Keeps-then h k = Ensures-bind (λ _. I) h (λ _. k)

  -- a known answer of a library
  pub Keeps-expect :
      {A B : Type 0} {R : B → Layout → Type 0} (e : AddError) (o : Option A) {f : A → Run B}
      → ((a : A) → o ≡ some a → Ensures I I R (f a))
      → Ensures I I R (expect e o >>= f)
  Keeps-expect e none k = record { run = λ s h. h }
  Keeps-expect e (some a) k = record { run = λ s h. (k a refl).run s h }

  pub Keeps-guard : (b : Bool) (e : AddError) → Keeps (guard b e)
  Keeps-guard b e = Ensures-guard (λ s h. h) b e

  pub write_blob_data-Keeps :
      (io : WriteIo) (content : Text) → Keeps (write_blob_data lib io content)
  write_blob_data-Keeps io content =
      Ensures-weaker (λ s h. h) (λ a s h. h.0) (write_blob_data-Ensures io content)

  write_layer-Keeps : (l : Layer) → Keeps (write_layer lib l)
  unfolding write_layer
  write_layer-Keeps l = Keeps-expect layer_digest_failed l.digest λ d known.
      Keeps-then (Keeps-guard l.parsed layer_digest_invalid) (
        Keeps-expect layer_size_failed l.size
          λ size sized. Ensures-weaker (λ s h. h) (λ a s h. h.0) (put_blob-Ensures l.io d size))

  pub settled : {A : Type 0} (r : AddError ⊎ A) (s : Layout) → Outcome I (λ _. I) r s → I s
  settled (inl e) s h = h
  settled (inr a) s h = h

  -- the group keeps what is backed, whichever of its layers fail
  pub write_layers-Keeps : (ls : List Layer) → Keeps (write_layers lib ls)
  unfolding write_layers
  write_layers-Keeps [] = record { run = λ s h. h }
  write_layers-Keeps (l ∷ ls) = record {
    run = λ s h.
        let one = write_layer lib l s in
        let rest = write_layers lib ls one.1 in
        let h1 = settled one.0 one.1 ((write_layer-Keeps l).run s h) in
        let h2 = (write_layers-Keeps ls).run one.1 h1 in
        elim (sum-cases one.0) [
          | inl (e, failed) ↦ rw (failed, write_layers) (settled rest.0 rest.1 h2)
          | inr (done, ok) ↦ rw (ok, write_layers) h2
        ];
  }

  module _ (counted : Bool) where
    -- the manifest is written last
    pub write_image_blobs-Ensures :
        (img : Image)
        → Ensures I I
            (λ _ s. (m : Text) × (img.manifest ≡ some m) × With (lib.from_bytes m) s)
            (write_image_blobs lib counted img)
    unfolding write_image_blobs
    write_image_blobs-Ensures img = Keeps-expect layers_failed img.layers λ layers listed.
        Keeps-then (Keeps-guard _ layer_size_failed) (
          Keeps-then (write_layers-Keeps layers) (
            Keeps-expect config_failed img.config λ config configured.
              Keeps-then (write_blob_data-Keeps img.config_io config) (
                Keeps-expect manifest_failed img.manifest λ manifest known.
                  Ensures-weaker (λ s h. h) (λ a s h. (manifest, known, h))
                    (write_blob_data-Ensures img.manifest_io manifest))))

    write_image_blobs-Keeps : (img : Image) → Keeps (write_image_blobs lib counted img)
    write_image_blobs-Keeps img =
        Ensures-weaker (λ s h. h) (λ a s h. h.2.0) (write_image_blobs-Ensures img)

    mutual
      unfolding write_index_blobs write_children

      pub write_index_blobs-Keeps : (i : ImageIndex) → Keeps (write_index_blobs lib counted i)
      write_index_blobs-Keeps (index a children) =
          Keeps-then (Keeps-guard a.readable manifest_failed) (write_children-Keeps children)

      pub write_children-Keeps : (c : Children) → Keeps (write_children lib counted c)
      write_children-Keeps no_more = record { run = λ s h. h }
      write_children-Keeps (nested i rest) = Keeps-then (write_index_blobs-Keeps i) (
          Keeps-expect manifest_failed (answers i).raw λ raw known.
            Keeps-then (write_blob_data-Keeps (answers i).raw_io raw) (write_children-Keeps rest))
      write_children-Keeps (plain img rest) =
          Keeps-then (write_image_blobs-Keeps img) (write_children-Keeps rest)
      write_children-Keeps (unfetched rest) = record { run = λ s h. h }

-- A stable property stays stable beside the blob of a digest.
pub With-IsStable :
    (lib : DigestLib) (parse_reference : Text → Option Named) (save : SaveIo) (now : ℕ)
    (I : Layout → Type 0) (stable : IsStable lib parse_reference save now I) (t : Text)
    → IsStable lib parse_reference save now (λ s. I s × Has lib s.blobs t)
With-IsStable lib parse_reference save now I stable t = record {
  grown = λ s s' same grows h. (stable.grown s s' same grows h.0, grows t h.1);
  listed = λ d s stands h. (stable.listed d s stands h.0, h.1);
}
