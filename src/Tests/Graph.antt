-- ===== src/Tests/Graph.antt =====
-- Check and CleanUp on an index with one image.
use mathlib.Core.List.{Memᴰ}
use mathlib.Core.Path.{subst}
use hauler.Base.{
  ℕ, zero, suc, ◌≤◌, ◌<◌, ◌≡◌, sym, refl, true, not, none, some, [], ◌∷◌, Text, codes, text_eq,
  drop, select, Bool-cases, some-injective, text_eq_iff, text_eq_refl, if◌then◌else◌, ◌⊎◌, inl, inr,
  arith,
}
use hauler.Base.Dict
use hauler.Base.Dict.{Dict}
use hauler.Base.Int.{negsuc}
use hauler.Content.Descriptor.{Descriptor}
use hauler.Store.Manifest.{Manifest, BlobLib, Disk, file, fetch}
use hauler.Store.Check.{
  CheckResult, Checker, new_checker, hash_count, no_problems, check, check_memo, check_blob,
  check_fetched, check_manifest, check_children, check_leaves, record_hash, leaves, children,
}
use hauler.Store.Check.Memo.{IsIntact}
use hauler.Store.Check.Graph.{
  Reaches, itself, leaf, below, Descends, root, child, manifest_of, decoded, All-Memᴰ,
}
use hauler.Store.Check.Walk.{check-ok-IsIntact, check-hashes_once}
use hauler.Store.Check.Total.{check-total}
use hauler.Store.Check.Complete.{IsHealthy, check_complete}

abbrev pub desc : Text → Descriptor
desc digest = record {
  media_type = [];
  digest = digest;
  size = negsuc 0;
  urls = [];
  annotations = [];
  payload = [];
  platform = none;
  artifact_type = [];
}

-- a digest is its content here, and the file of each digest holds that
abbrev pub image : Manifest
image = record {
  config = desc (codes "config");
  layers = desc (codes "layer") ∷ desc (codes "layer") ∷ [];
  manifests = [];
}

abbrev pub index : Manifest
index = record { config = desc []; layers = []; manifests = desc (codes "m") ∷ [] }

abbrev pub lib : BlobLib
lib = record {
  algorithm = λ d. codes "s";
  hex = λ d. d;
  valid = λ d. not (text_eq d []);
  available = λ a. true;
  verified = λ d content. text_eq content d;
  decode = λ content.
      if text_eq content (codes "i")
      then some index
      else if text_eq content (codes "m")
      then some image
      else none;
}

abbrev pub disk : Disk
disk path = file (drop 2 path) true true

abbrev checked : CheckResult
checked = record { ok = true; problems = [] }

-- what the check of the index ends with
outcome : (c : Checker) × (check lib disk 3 (desc (codes "i")) new_checker ≡ some (checked, c))
unfolding check check_memo Dict.lookup check_blob text_eq check_fetched fetch check_manifest
    check_children children select check_leaves leaves Dict.insert record_hash no_problems
outcome = (_, refl)

pub layer_reached : Reaches lib disk (desc (codes "i")) (desc (codes "layer"))
unfolding manifest_of decoded children leaves select text_eq fetch
layer_reached =
    below index (desc (codes "m")) refl (Memᴰ.head refl)
      (leaf image refl (Memᴰ.tail (Memᴰ.head refl)))

check-ok-IsIntact_example : IsIntact lib disk (codes "layer")
check-ok-IsIntact_example =
    check-ok-IsIntact lib disk 3 (desc (codes "i")) checked outcome.0 outcome.1 refl
      (desc (codes "layer")) layer_reached

check-hashes_once_example :
    (hash_count (codes "layer") outcome.0 ≤ 1) × (checked.ok ≡ no_problems checked.problems)
check-hashes_once_example =
    check-hashes_once lib disk 3 (desc (codes "i")) checked outcome.0 (codes "layer") outcome.1

-- the two manifests
decode_cases :
    (d : Descriptor) (m : Manifest)
    → manifest_of lib disk d ≡ some m
    → ((d.digest ≡ codes "i") × (m ≡ index)) ⊎ ((d.digest ≡ codes "m") × (m ≡ image))
unfolding manifest_of decoded fetch
decode_cases d m at = elim (Bool-cases (text_eq d.digest (codes "i"))) [
  | inl is_index ↦
      inl ((text_eq_iff d.digest (codes "i")).0 is_index, sym (some-injective (rw is_index at at)))
  | inr other ↦ elim (Bool-cases (text_eq d.digest (codes "m"))) [
    | inl is_image ↦ inr (
      (text_eq_iff d.digest (codes "m")).0 is_image,
      sym (some-injective (rw (other, is_image) at at)),
    )
    | inr neither ↦ cc (rw (other, neither) at at)
  ]
]

abbrev pub rank : Text → ℕ
rank t = if text_eq t (codes "i") then 1 else 0

pub rank_falls :
    (d : Descriptor) (m : Manifest) (c : Descriptor)
    → manifest_of lib disk d ≡ some m
    → Memᴰ c (children lib m)
    → rank c.digest < rank d.digest
unfolding children select text_eq
rank_falls d m c at member = elim (decode_cases d m at) [
  | inl (is_i, is_index) ↦
      let low : rank c.digest ≡ 0 =
        All-Memᴰ (λ x. rank x.digest ≡ 0) (children lib index) (refl, tt)
          (subst (λ (n : Manifest). Memᴰ c (children lib n)) is_index member) in
      let high : rank d.digest ≡ 1 = rw is_i refl in omega (arith, low, high)
  | inr (is_m, is_image) ↦ cc (
      All-Memᴰ (λ x. zero ≡ suc zero) (children lib image) tt
        (subst (λ (n : Manifest). Memᴰ c (children lib n)) is_image member))
]

check-total_example :
    (x : CheckResult × Checker) × (check lib disk 2 (desc (codes "i")) new_checker ≡ some x)
unfolding text_eq
check-total_example =
    check-total lib disk rank rank_falls 2 (desc (codes "i")) new_checker (omega arith)

-- every blob of the graph has an unknown size
unsized : (d e : Descriptor) → Reaches lib disk d e → d.size ≡ negsuc 0 → e.size ≡ negsuc 0
unfolding leaves children select text_eq
unsized d e (itself d') known = known
unsized d e (leaf m at member) known = elim (decode_cases d m at) [
  | inl (is_i, is_index) ↦
      All-Memᴰ (λ x. x.size ≡ negsuc 0) (leaves lib index) tt
        (subst (λ (n : Manifest). Memᴰ e (leaves lib n)) is_index member)
  | inr (is_m, is_image) ↦
      All-Memᴰ (λ x. x.size ≡ negsuc 0) (leaves lib image) (refl, (refl, (refl, tt)))
        (subst (λ (n : Manifest). Memᴰ e (leaves lib n)) is_image member)
]
unsized d e (below m c at member r) known = elim (decode_cases d m at) [
  | inl (is_i, is_index) ↦ unsized c e r (
      All-Memᴰ (λ x. x.size ≡ negsuc 0) (children lib index) (refl, tt)
        (subst (λ (n : Manifest). Memᴰ c (children lib n)) is_index member))
  | inr (is_m, is_image) ↦ unsized c e r (
      All-Memᴰ (λ x. x.size ≡ negsuc 0) (children lib image) tt
        (subst (λ (n : Manifest). Memᴰ c (children lib n)) is_image member))
]

healthy : (e : Descriptor) → Reaches lib disk (desc (codes "i")) e → IsHealthy lib disk e
healthy e r = record {
  content = e.digest;
  on_disk = refl;
  exact = text_eq_refl e.digest;
  fits = rw (unsized (desc (codes "i")) e r refl) refl;
  available = refl;
}

abbrev Parses : Descriptor → Type 0
Parses d = (m : Manifest) × (manifest_of lib disk d ≡ some m)

parses : (d e : Descriptor) → Descends lib disk d e → Parses d → Parses e
unfolding children select text_eq manifest_of decoded fetch
parses d e (root d') known = known
parses d e (child m c at member r) known = elim (decode_cases d m at) [
  | inl (is_i, is_index) ↦ parses c e r (
      All-Memᴰ Parses (children lib index) ((image, refl), tt)
        (subst (λ (n : Manifest). Memᴰ c (children lib n)) is_index member))
  | inr (is_m, is_image) ↦ cc (
      All-Memᴰ (λ x. zero ≡ suc zero) (children lib image) tt
        (subst (λ (n : Manifest). Memᴰ c (children lib n)) is_image member))
]

index-Parses : Parses (desc (codes "i"))
unfolding manifest_of decoded fetch text_eq
index-Parses = (index, refl)

check_complete_example : checked.ok ≡ true
check_complete_example =
    check_complete lib disk 3 (desc (codes "i")) checked outcome.0 healthy
      (λ e r. parses (desc (codes "i")) e r index-Parses) outcome.1
