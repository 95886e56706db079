-- ===== src/Store/Check/Graph.antt =====
-- The descriptor graph below a root, as Check walks it.
use mathlib.Core.Path.{subst}
use mathlib.Core.List.{Memᴰ}
use hauler.Base.{◌&&◌, ◌≡◌, refl, sym, Option, none, some, List, [], ◌∷◌, ◌++◌, All}
use hauler.Content.Descriptor.{Descriptor}
use hauler.Store.Manifest.{
  Manifest, BlobLib, Disk, blob_file, Fetched, fetch_failed, read_failed, bytes, fetch,
}
use hauler.Store.Check.{BlobResult, leaves, children, no_problems}

pub no_problems-append :
    (xs ys : List BlobResult) → no_problems (xs ++ ys) ≡ (no_problems xs && no_problems ys)
unfolding no_problems
no_problems-append [] ys = refl
no_problems-append (x ∷ xs) ys = refl

pub All-of_mem :
    (P : Descriptor → Type 0) (ds : List Descriptor)
    → ((d : Descriptor) → Memᴰ d ds → P d)
    → All P ds
All-of_mem P [] h = tt
All-of_mem P (d ∷ ds) h = (h d (Memᴰ.head refl), All-of_mem P ds (λ e m. h e (Memᴰ.tail m)))

pub All-Memᴰ :
    (P : Descriptor → Type 0) (ds : List Descriptor) {d : Descriptor} → All P ds → Memᴰ d ds → P d
All-Memᴰ P [] ps member = elim member [ ]
All-Memᴰ P (x ∷ ds) (px, ps) (Memᴰ.head e) = subst P (sym e) px
All-Memᴰ P (x ∷ ds) (px, ps) (Memᴰ.tail m) = All-Memᴰ P ds ps m

module _ (lib : BlobLib) (disk : Disk) where
  unfoldable pub decoded : Fetched → Option Manifest
  decoded fetch_failed = none
  decoded read_failed = none
  decoded (bytes content) = lib.decode content

  -- The manifest that stands at the digest of a descriptor.
  unfoldable pub manifest_of : Descriptor → Option Manifest
  unfolding decoded
  manifest_of d = decoded (fetch (blob_file lib disk d.digest))

  -- The blobs of the graph below a descriptor: itself, the config and layers with a valid digest of
  -- its manifest, and those of the children with a valid digest.
  pub data Reaches : Descriptor → Descriptor → Type 0 where
    itself : (d : Descriptor) → Reaches d d
    leaf :
        {d e : Descriptor} (m : Manifest)
        → manifest_of d ≡ some m
        → Memᴰ e (leaves lib m)
        → Reaches d e
    below :
        {d e : Descriptor} (m : Manifest) (c : Descriptor)
        → manifest_of d ≡ some m
        → Memᴰ c (children lib m)
        → Reaches c e
        → Reaches d e

  -- the manifests of the graph: the descriptor and the children below it
  pub data Descends : Descriptor → Descriptor → Type 0 where
    root : (d : Descriptor) → Descends d d
    child :
        {d e : Descriptor} (m : Manifest) (c : Descriptor)
        → manifest_of d ≡ some m
        → Memᴰ c (children lib m)
        → Descends c e
        → Descends d e
