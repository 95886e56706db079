-- ===== src/Content/Descriptor.antt =====
-- ocispec.Descriptor with the fields that pkg/content/oci.go reads, and `descriptorsEqual`.
use hauler.Base.{
  ◌==◌, Bool, true, false, ◌&&◌, Option, none, some, List, [], ◌∷◌, Text, text_eq, length,
  if◌then◌else◌,
}
use hauler.Base.Dict
use hauler.Base.Dict.{Dict}
use hauler.Base.Int.{ℤ, pos, negsuc, eq_ℤ}

-- ocispec.Platform
pub record Platform : Type 0 where
  pub architecture : Text
  pub os : Text
  pub os_version : Text
  pub os_features : List Text
  pub variant : Text

pub record Descriptor : Type 0 where
  pub media_type : Text
  pub digest : Text
  pub size : ℤ
  pub urls : List Text
  pub annotations : Dict Text
  pub payload : Text
  pub platform : Option Platform
  pub artifact_type : Text

-- desc.Annotations[key]
abbrev pub annotation : Text → Descriptor → Text
annotation k d = Dict.get_or k [] d.annotations

-- slices.Equal on strings
unfoldable pub texts_eq : List Text → List Text → Bool
texts_eq [] [] = true
texts_eq [] (t ∷ ts) = false
texts_eq (s ∷ ss) [] = false
texts_eq (s ∷ ss) (t ∷ ts) = text_eq s t && texts_eq ss ts

unfoldable pub size_eq : ℤ → ℤ → Bool
size_eq (pos n) m = eq_ℤ n m
size_eq (negsuc n) (pos m) = false
size_eq (negsuc n) (negsuc m) = n == m

-- every entry of the first map is an entry of the second
unfoldable pub submap : Dict Text → Dict Text → Bool
submap [] m = true
submap ((k, v) ∷ l) m = elim (Dict.lookup k m) [ none ↦ false | some w ↦ text_eq v w ] && submap l m

-- maps.Equal
unfoldable pub maps_eq : Dict Text → Dict Text → Bool
unfolding submap Dict.lookup
maps_eq a b = (length a == length b) && submap a b

unfoldable pub platform_fields_eq : Platform → Platform → Bool
platform_fields_eq p q =
    text_eq p.architecture q.architecture
    && text_eq p.os q.os
    && text_eq p.os_version q.os_version
    && text_eq p.variant q.variant
    && texts_eq p.os_features q.os_features

-- both nil, or both set with the same fields
unfoldable pub platform_eq : Option Platform → Option Platform → Bool
platform_eq none none = true
platform_eq none (some q) = false
platform_eq (some p) none = false
platform_eq (some p) (some q) = platform_fields_eq p q

unfoldable pub descriptors_equal : Descriptor → Descriptor → Bool
unfolding texts_eq size_eq maps_eq platform_fields_eq platform_eq
descriptors_equal a b =
    if text_eq a.media_type b.media_type
      && text_eq a.digest b.digest
      && size_eq a.size b.size
      && text_eq a.artifact_type b.artifact_type
    then maps_eq a.annotations b.annotations
      && texts_eq a.urls b.urls
      && text_eq a.payload b.payload
      && platform_eq a.platform b.platform
    else false
