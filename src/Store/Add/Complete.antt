-- ===== src/Store/Add/Complete.antt =====
-- pkg/store/store.go: all the content of an image or an index that is written without an error
-- stands in the store.
use hauler.Base.{◌≡◌, Option, some, List, [], ◌∷◌, Text, All}
use hauler.Content.Blob.{DigestLib, BlobStore}
use hauler.Store.Add.{
  Layer, Image, IndexAnswers, ImageIndex, index, Children, no_more, nested, plain,
}
use hauler.Store.Add.Writing.{answers}
use hauler.Store.Add.Keeping.{Has}

module _ (lib : DigestLib) where
  abbrev pub HasLayer : BlobStore → Layer → Type 0
  HasLayer b l = (d : Text) × (l.digest ≡ some d) × Has lib b d

  -- the digest of a content that a library answers
  abbrev pub HasContent : BlobStore → Option Text → Type 0
  HasContent b o = (c : Text) × (o ≡ some c) × Has lib b (lib.from_bytes c)

  -- every layer, the config and the manifest of the image
  pub record HasImage (b : BlobStore) (img : Image) : Type 0 where
    pub layers : (ls : List Layer) × (img.layers ≡ some ls) × All (HasLayer b) ls
    pub config : HasContent b img.config
    pub manifest : HasContent b img.manifest

  -- every image below the index, and the manifest of every index below it
  mutual
    pub data HasIndex (b : BlobStore) : ImageIndex → Type 0 where
      complete : {a : IndexAnswers} {c : Children} → HasChildren b c → HasIndex b (index a c)

    pub data HasChildren (b : BlobStore) : Children → Type 0 where
      none_left : HasChildren b no_more
      has_nested :
          {i : ImageIndex} {rest : Children}
          → HasIndex b i
          → HasContent b (answers i).raw
          → HasChildren b rest
          → HasChildren b (nested i rest)
      has_plain :
          {img : Image} {rest : Children}
          → HasImage b img
          → HasChildren b rest
          → HasChildren b (plain img rest)

  abbrev pub Grows : BlobStore → BlobStore → Type 0
  Grows b b' = (d : Text) → Has lib b d → Has lib b' d

  module _ (b b' : BlobStore) (grows : Grows b b') where
    pub layers-Grows : (ls : List Layer) → All (HasLayer b) ls → All (HasLayer b') ls
    layers-Grows [] h = tt
    layers-Grows (l ∷ ls) ((d, known, h), hs) = ((d, known, grows d h), layers-Grows ls hs)

    pub content-Grows : (o : Option Text) → HasContent b o → HasContent b' o
    content-Grows o (c, known, h) = (c, known, grows (lib.from_bytes c) h)

    pub image-Grows : (img : Image) → HasImage b img → HasImage b' img
    image-Grows img h = record {
      layers = (h.layers.0, h.layers.1, layers-Grows h.layers.0 h.layers.2);
      config = content-Grows img.config h.config;
      manifest = content-Grows img.manifest h.manifest;
    }

    mutual
      pub index-Grows : {i : ImageIndex} → HasIndex b i → HasIndex b' i
      index-Grows (complete h) = complete (children-Grows h)

      children-Grows : {c : Children} → HasChildren b c → HasChildren b' c
      children-Grows none_left = none_left
      children-Grows (has_nested {i = i} h raw hs) =
          has_nested (index-Grows h) (content-Grows (answers i).raw raw) (children-Grows hs)
      children-Grows (has_plain {img = img} h hs) =
          has_plain (image-Grows img h) (children-Grows hs)
