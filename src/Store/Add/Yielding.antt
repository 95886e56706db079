-- ===== src/Store/Add/Yielding.antt =====
-- pkg/store/store.go: writeImageBlobs and writeIndexBlobs leave all the content, if they succeed.
use hauler.Base.{
  none, ℕ, sum-cases, ◌≡◌, refl, Bool, Option, some, List, [], ◌∷◌, Text, All, inl, inr,
}
use hauler.Content.Reference.{Named}
use hauler.Content.Index.{SaveIo}
use hauler.Content.Blob.{DigestLib, BlobStore}
use hauler.Store.Add.{
  layer_digest_failed, layer_digest_invalid, layer_size_failed, layers_failed, config_failed,
  manifest_failed, Layout, AddError, Run, ◌>>=◌, ◌>>◌, expect, guard, Layer, WriteIo, Image,
  ImageIndex, index, Children, no_more, nested, plain, unfetched,
}
use hauler.Store.Add.Rules.{
  Ensures, Ensures-bind, Ensures-guard, Ensures-weaker, Ensures-error, Ensures-both, Ensures-result,
}
use hauler.Store.Add.Writing.{
  answers, write_layer, write_blob_data, write_layers, write_image_blobs, write_index_blobs,
  write_children,
}
use hauler.Store.Add.Keeping.{
  Has, IsStable, Keeps, put_blob-Ensures, write_blob_data-Ensures, write_layers-Keeps, settled,
  write_children-Keeps,
}
use hauler.Store.Add.Complete.{
  HasLayer, HasImage, HasIndex, complete, HasChildren, none_left, has_nested, has_plain, Grows,
  layers-Grows, image-Grows, index-Grows,
}

module _ (lib : DigestLib) (parse_reference : Text → Option Named) (save : SaveIo) (now : ℕ) where
  -- a property of the blobs that their growth keeps
  abbrev pub Lasts : (BlobStore → Type 0) → Type 0
  Lasts P = (b b' : BlobStore) → Grows lib b b' → P b → P b'

  pub Lasts-IsStable :
      (P : BlobStore → Type 0) → Lasts P → IsStable lib parse_reference save now (λ s. P s.blobs)
  Lasts-IsStable P lasts = record {
    grown = λ s s' same grows h. lasts s.blobs s'.blobs grows h;
    listed = λ d s stands h. h;
  }

  -- what a step yields if it succeeds
  abbrev pub Yields : {A : Type 0} → (Layout → Type 0) → (A → Layout → Type 0) → Run A → Type 0
  Yields P Q m = Ensures (λ _. Unit) P Q m

  pub Yields-expect :
      {A B : Type 0} {P : Layout → Type 0} {R : B → Layout → Type 0} (e : AddError) (o : Option A)
      {f : A → Run B}
      → ((a : A) → o ≡ some a → Yields P R (f a))
      → Yields P R (expect e o >>= f)
  Yields-expect e none k = record { run = λ s h. tt }
  Yields-expect e (some a) k = record { run = λ s h. (k a refl).run s h }

  pub Yields-guard :
      {B : Type 0} {P : Layout → Type 0} {R : B → Layout → Type 0} (b : Bool) (e : AddError)
      {k : Run B}
      → Yields P R k
      → Yields P R (guard b e >> k)
  Yields-guard {P = P} b e k = Ensures-bind (λ _. P) (Ensures-guard (λ s h. tt) b e) (λ _. k)

  -- a content that is written stands beside what stood before
  pub write_blob_data-Yields :
      (P : BlobStore → Type 0) (lasts : Lasts P) (io : WriteIo) (content : Text)
      → Yields
          (λ s. P s.blobs)
          (λ _ s. P s.blobs × Has lib s.blobs (lib.from_bytes content))
          (write_blob_data lib io content)
  write_blob_data-Yields P lasts io content =
      Ensures-error {E = λ s. P s.blobs} (λ s h. tt)
        (write_blob_data-Ensures lib parse_reference save now (λ s. P s.blobs)
          (Lasts-IsStable P lasts) io content)

  write_layer-Yields :
      (l : Layer) → Yields (λ _. Unit) (λ _ s. HasLayer lib s.blobs l) (write_layer lib l)
  unfolding write_layer
  write_layer-Yields l = Yields-expect layer_digest_failed l.digest λ d known.
      Yields-guard l.parsed layer_digest_invalid (
        Yields-expect layer_size_failed l.size λ size sized.
          Ensures-weaker (λ s h. h) (λ a s h. (d, known, h.1))
            (put_blob-Ensures lib parse_reference save now (λ s. Unit)
              (Lasts-IsStable (λ _. Unit) (λ b b' grows h. tt)) l.io d size))

  -- the blobs that stood before a step that keeps what lasts
  write_layers-Grows :
      (ls : List Layer) (s : Layout) → Grows lib s.blobs (write_layers lib ls s).1.blobs
  write_layers-Grows ls s =
      let since : BlobStore → Type 0 = λ b. Grows lib s.blobs b in
      let stable = Lasts-IsStable since (λ b b' grows h d known. grows d (h d known)) in
      let r = write_layers lib ls s in
      settled lib parse_reference save now (λ t. since t.blobs) stable r.0 r.1
        ((write_layers-Keeps lib parse_reference save now (λ t. since t.blobs) stable ls).run s
          (λ d known. known))

  write_layers-Yields :
      (ls : List Layer)
      → Yields (λ _. Unit) (λ _ s. All (HasLayer lib s.blobs) ls) (write_layers lib ls)
  unfolding write_layers
  write_layers-Yields [] = record { run = λ s h. tt }
  write_layers-Yields (l ∷ ls) = record {
    run = λ s h.
        let one = write_layer lib l s in
        let rest = write_layers lib ls one.1 in
        elim (sum-cases one.0) [
          | inl (e, failed) ↦ rw (failed, write_layers) tt
          | inr (done, ok) ↦ elim (sum-cases rest.0) [
            | inl (e, failed) ↦ rw (ok, write_layers) (rw failed tt)
            | inr (done', ok') ↦
                rw (ok, write_layers)
                  (rw ok' (
                    (layers-Grows lib one.1.blobs rest.1.blobs (write_layers-Grows ls one.1)
                        (l ∷ []) (Ensures-result s done (write_layer-Yields l) tt ok, tt)).0,
                    Ensures-result one.1 done' (write_layers-Yields ls) tt ok',
                  ))
          ]
        ];
  }

  module _ (counted : Bool) where
    pub write_image_blobs-Yields :
        (img : Image)
        → Yields (λ _. Unit) (λ _ s. HasImage lib s.blobs img) (write_image_blobs lib counted img)
    unfolding write_image_blobs
    write_image_blobs-Yields img = Yields-expect layers_failed img.layers λ ls listed.
        let Layers : BlobStore → Type 0 = λ b. All (HasLayer lib b) ls in
        let lasts : Lasts Layers = λ b b' grows h. layers-Grows lib b b' grows ls h in
        Yields-guard _ layer_size_failed (
          Ensures-bind (λ _ s. Layers s.blobs) (write_layers-Yields ls)
            λ done. Yields-expect config_failed img.config λ config configured.
              Ensures-bind (λ _ s. Layers s.blobs × Has lib s.blobs (lib.from_bytes config))
                (write_blob_data-Yields Layers lasts img.config_io config)
                λ written. Yields-expect manifest_failed img.manifest λ manifest known.
                  Ensures-weaker (λ s h. h)
                    (λ a s h. record {
                      layers = (ls, listed, h.0.0);
                      config = (config, configured, h.0.1);
                      manifest = (manifest, known, h.1);
                    })
                    (write_blob_data-Yields (λ b. Layers b × Has lib b (lib.from_bytes config))
                      (λ b b' grows h. (lasts b b' grows h.0, grows (lib.from_bytes config) h.1))
                      img.manifest_io manifest))

    -- what a later step keeps, and what it yields
    keep_and_yield :
        {A : Type 0} (P : BlobStore → Type 0) (Q : A → Layout → Type 0) {m : Run A}
        (lasts : Lasts P)
        → Keeps lib parse_reference save now (λ s. P s.blobs) (Lasts-IsStable P lasts) m
        → Yields (λ _. Unit) Q m
        → Yields (λ s. P s.blobs) (λ a s. P s.blobs × Q a s) m
    keep_and_yield P Q lasts k y =
        Ensures-error {E = λ s. P s.blobs} (λ s h. tt)
          (Ensures-weaker (λ s h. (h, tt)) (λ a s h. h) (Ensures-both k y))

    mutual
      unfolding write_index_blobs write_children

      pub write_index_blobs-Yields :
          (i : ImageIndex)
          → Yields (λ _. Unit) (λ _ s. HasIndex lib s.blobs i) (write_index_blobs lib counted i)
      write_index_blobs-Yields (index a c) =
          Yields-guard a.readable manifest_failed
            (Ensures-weaker (λ s h. h) (λ _ s h. complete h) (write_children-Yields c))

      write_children-Yields :
          (c : Children)
          → Yields (λ _. Unit) (λ _ s. HasChildren lib s.blobs c) (write_children lib counted c)
      write_children-Yields no_more = record { run = λ s h. none_left }
      write_children-Yields (unfetched rest) = record { run = λ s h. tt }
      write_children-Yields (plain img rest) =
          let lasts : Lasts (λ b. HasImage lib b img) =
            λ b b' grows h. image-Grows lib b b' grows img h in
          Ensures-bind (λ _ s. HasImage lib s.blobs img) (write_image_blobs-Yields img)
            λ done.
              Ensures-weaker (λ s h. h) (λ _ s h. has_plain h.0 h.1)
                (keep_and_yield (λ b. HasImage lib b img) (λ _ s. HasChildren lib s.blobs rest)
                  lasts
                  (write_children-Keeps lib parse_reference save now (λ s. HasImage lib s.blobs img)
                    (Lasts-IsStable (λ b. HasImage lib b img) lasts) counted rest)
                  (write_children-Yields rest))
      write_children-Yields (nested i rest) =
          Ensures-bind (λ _ s. HasIndex lib s.blobs i) (write_index_blobs-Yields i)
            λ done. Yields-expect manifest_failed (answers i).raw λ raw known.
              let Both : BlobStore → Type 0 =
                λ b. HasIndex lib b i × Has lib b (lib.from_bytes raw) in
              let lasts : Lasts Both =
                λ b b' grows h. (index-Grows lib b b' grows h.0, grows (lib.from_bytes raw) h.1) in
              Ensures-bind (λ _ s. Both s.blobs)
                (write_blob_data-Yields (λ b. HasIndex lib b i)
                  (λ b b' grows h. index-Grows lib b b' grows h) (answers i).raw_io raw)
                λ written.
                  Ensures-weaker (λ s h. h) (λ _ s h. has_nested h.0.0 (raw, known, h.0.1) h.1)
                    (keep_and_yield Both (λ _ s. HasChildren lib s.blobs rest) lasts
                      (write_children-Keeps lib parse_reference save now (λ s. Both s.blobs)
                        (Lasts-IsStable Both lasts) counted rest)
                      (write_children-Yields rest))
