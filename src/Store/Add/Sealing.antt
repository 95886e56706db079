-- ===== src/Store/Add/Sealing.antt =====
-- pkg/store/store.go: how the digest of what an AddImage stores follows from that of what it fetched.
use hauler.Base.{
  ◌≡◌, ap, sym, ◌∙◌, false, Option, none, some, Option-cases, [], ◌∷◌, Text, text_eq, is_some, inl,
  inr, arith, ◌&&◌,
}
use hauler.Content.Descriptor.{Platform}
use hauler.Content.Blob.{DigestLib, BlobStore}
use hauler.Store.Add.{
  Image, IndexAnswers, ImageIndex, index, Children, nested, plain, unfetched, Fetched, Registry,
}
use hauler.Store.Add.Writing.{answers}
use hauler.Store.Add.Delivering.{Requested, Delivered, whole, single}

-- The digest is that of an image which an index, or an index below it, lists.
mutual
  pub data ListsImage : ImageIndex → Text → Type 0 where
    listed : {a : IndexAnswers} {c : Children} {d : Text} → OneOf c d → ListsImage (index a c) d

  pub data OneOf : Children → Text → Type 0 where
    is_image : {img : Image} {c : Children} {d : Text} → img.digest ≡ some d → OneOf (plain img c) d
    in_index : {i : ImageIndex} {c : Children} {d : Text} → ListsImage i d → OneOf (nested i c) d
    after_image : {img : Image} {c : Children} {d : Text} → OneOf c d → OneOf (plain img c) d
    after_index : {i : ImageIndex} {c : Children} {d : Text} → OneOf c d → OneOf (nested i c) d
    after_unfetched : {c : Children} {d : Text} → OneOf c d → OneOf (unfetched c) d

-- What go-containerregistry promises for a reference that both calls resolve to the same content: an
-- index has the digest of its descriptor, and so has an image that is no index; the image of a
-- platform of an index is one that the index lists.
pub record IsAddressed (registry : Registry) : Type 0 where
  pub index_digest :
      (name : Text) (d : Fetched) (i : ImageIndex)
      → registry.get name ≡ some d
      → d.as_index ≡ some i
      → (answers i).digest ≡ some d.digest
  pub image_digest :
      (name : Text) (d : Fetched) (p : Option Platform) (img : Image)
      → registry.get name ≡ some d
      → d.as_index ≡ none
      → registry.image name p ≡ some img
      → img.digest ≡ some d.digest
  pub child_digest :
      (name : Text) (d : Fetched) (i : ImageIndex) (q : Platform) (img : Image) (digest : Text)
      → registry.get name ≡ some d
      → d.as_index ≡ some i
      → registry.image name (some q) ≡ some img
      → img.digest ≡ some digest
      → ListsImage i digest

-- What is stored has the digest of what was fetched, or is an image that the fetched index lists, if a
-- platform is asked for.
pub data Sealed (d : Fetched) (platform digest : Text) : Type 0 where
  exact : digest ≡ d.digest → Sealed d platform digest
  selected :
      (i : ImageIndex)
      → d.as_index ≡ some i
      → text_eq platform [] ≡ false
      → ListsImage i digest
      → Sealed d platform digest

some_once : {a b : Text} → some a ≡ some b → a ≡ b
some_once e = cc e

module _ (lib : DigestLib) (registry : Registry) (addressed : IsAddressed registry) where
  platform_given :
      (platform : Text) (p : Option Platform)
      → Requested platform p
      → text_eq platform [] ≡ false
      → (q : Platform) × (p ≡ some q)
  unfolding text_eq
  platform_given [] p none_asked filtered = cc filtered
  platform_given (c ∷ s) p (q, same, parsed) filtered = (q, same)

  single-Sealed :
      (fetch platform digest : Text) (d : Fetched) (p : Option Platform) (img : Image)
      → registry.get fetch ≡ some d
      → (text_eq platform [] && is_some d.as_index) ≡ false
      → Requested platform p
      → registry.image fetch p ≡ some img
      → img.digest ≡ some digest
      → Sealed d platform digest
  single-Sealed fetch platform digest d p img got one asked found answered =
      elim (Option-cases d.as_index) [
        | inl image ↦
            exact (some_once (sym answered ∙ addressed.image_digest fetch d p img got image found))
        | inr (i, multi) ↦
            let filtered : text_eq platform [] ≡ false = ground (arith, one, multi) in
            let (q, same) = platform_given platform p asked filtered in
            selected i multi filtered (
              addressed.child_digest fetch d i q img digest got multi
                (ap (registry.image fetch) (sym same) ∙ found) answered)
      ]

  pub Delivered-Sealed :
      (fetch platform digest : Text) (d : Fetched) (b : BlobStore)
      → registry.get fetch ≡ some d
      → Delivered lib registry fetch platform digest d.as_index b
      → Sealed d platform digest
  Delivered-Sealed fetch platform digest d b got (whole i multi all answered h raw) =
      exact (some_once (sym answered ∙ addressed.index_digest fetch d i got multi))
  Delivered-Sealed fetch platform digest d b got (single p img one asked found answered h) =
      single-Sealed fetch platform digest d p img got one asked found answered
