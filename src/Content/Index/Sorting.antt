-- ===== src/Content/Index/Sorting.antt =====
-- The stable sort of a save: which list it writes, and that it loses no entry.
use hauler.Base.{
  ◌∙◌, ◌≡◌, refl, ap, Bool, true, false, not, ◌&&◌, Option, none, some, List, [], ◌∷◌, ◌++◌, Text,
  text_eq, text_eq_iff, arith, Bool-cases, inl, inr, select, has_prefix, if◌then◌else◌,
}
use hauler.Base.Dict
use hauler.Base.Dict.{Dict}
use hauler.Consts.{kind_key, kind_image}
use hauler.Content.Descriptor.{Descriptor, annotation}
use hauler.Content.Reference.{Named}
use hauler.Content.Index.{sorts_before, insert_stable, sort_stable, values}
use hauler.Content.Index.Canonical.{IsCanonical, IsEntry}

-- images and image indexes
abbrev pub is_image_kind : Descriptor → Bool
is_image_kind d = has_prefix (annotation kind_key d) kind_image

module _ {A : Type 0} (image : A → Bool) where
  abbrev pub other : A → Bool
  other a = not (image a)

  abbrev pub image_first : A → A → Bool
  image_first a b = image a && not (image b)

  -- an image passes nothing
  insert_image : (a : A) (l : List A) → image a ≡ true → insert_stable image_first a l ≡ a ∷ l
  unfolding insert_stable
  insert_image a [] h = refl
  insert_image a (b ∷ l) h = ground arith

  -- any other element stops before the first that is no image, and passes the images
  insert_at_others :
      (a : A) (m : List A)
      → image a ≡ false
      → insert_stable image_first a (select other m) ≡ a ∷ select other m
  unfolding insert_stable select
  insert_at_others a [] h = refl
  insert_at_others a (b ∷ m) h = ground (arith, insert_at_others a m h)

  insert_other :
      (a : A) (l m : List A)
      → image a ≡ false
      → insert_stable image_first a (select image l ++ select other m)
        ≡ select image l ++ a ∷ select other m
  unfolding insert_stable select
  insert_other a [] m h = insert_at_others a m h
  insert_other a (b ∷ l) m h = ground (arith, insert_other a l m h)

  -- The sort is the images in their order, then the rest in theirs.
  pub sort_lem : (l : List A) → sort_stable image_first l ≡ select image l ++ select other l
  unfolding sort_stable select
  sort_lem [] = refl
  sort_lem (a ∷ l) = rw (sort_lem l) (elim (Bool-cases (image a)) [
    | inl is_image ↦ rw is_image (insert_image a _ is_image)
    | inr no_image ↦ rw no_image (insert_other a l l no_image)
  ])

-- no key stands twice
abbrev pub IsDistinct : {A : Type 0} → Dict A → Type 0
IsDistinct [] = Unit {0}
IsDistinct ((k, a) ∷ m) = (Dict.lookup k m ≡ none) × IsDistinct m

module _ {A : Type 0} (less : A → A → Bool) where
  -- the sort of the entries, by their values
  abbrev by_value : Text × A → Text × A → Bool
  by_value a b = less a.1 b.1

  pub sort_entries : Dict A → Dict A
  sort_entries m = sort_stable by_value m

  values-insert :
      (k : Text) (a : A) (m : Dict A)
      → values (insert_stable by_value (k, a) m) ≡ insert_stable less a (values m)
  unfolding insert_stable
  values-insert k a [] = refl
  values-insert k a ((j, b) ∷ m) = ground (arith, values-insert k a m)

  pub values-sort : (m : Dict A) → values (sort_entries m) ≡ sort_stable less (values m)
  unfolding sort_entries sort_stable
  values-sort [] = refl
  values-sort ((k, a) ∷ m) =
      rw (values-insert k a (sort_entries m)) (ap (insert_stable less a) (values-sort m))

  lookup-insert_stable :
      (k j : Text) (a : A) (m : Dict A)
      → Dict.lookup k m ≡ none
      → Dict.lookup j (insert_stable by_value (k, a) m)
        ≡ (if text_eq k j then some a else Dict.lookup j m)
  unfolding insert_stable Dict.lookup
  lookup-insert_stable k j a [] h = refl
  lookup-insert_stable k j a ((i, b) ∷ m) h =
      ground
        (arith, lookup-insert_stable k j a m, text_eq_iff k j, text_eq_iff i k, text_eq_iff i j)

  pub lookup-sort :
      (j : Text) (m : Dict A) → IsDistinct m → Dict.lookup j (sort_entries m) ≡ Dict.lookup j m
  unfolding sort_entries sort_stable Dict.lookup
  lookup-sort j [] h = refl
  lookup-sort j ((k, a) ∷ m) (fresh, h) =
      lookup-insert_stable k j a (sort_entries m) (lookup-sort k m h ∙ fresh)
      ∙ ap (λ (o : Option A). if text_eq k j then some a else o) (lookup-sort j m h)

module _ (parse_reference : Text → Option Named) where
  insert_stable-IsCanonical :
      (k : Text) (d : Descriptor) (m : Dict Descriptor)
      → IsEntry parse_reference k d
      → Dict.lookup k m ≡ none
      → IsCanonical parse_reference m
      → IsCanonical parse_reference (insert_stable (by_value sorts_before) (k, d) m)
  unfolding insert_stable Dict.lookup
  insert_stable-IsCanonical k d [] e fresh h = (e, refl, tt)
  insert_stable-IsCanonical k d ((j, v) ∷ m) e fresh (ej, fresh_j, h) =
      elim (Bool-cases (sorts_before v d)) [
        | inl after ↦ rw after (
          ej,
          ground
              (arith, lookup-insert_stable sorts_before k j d m, text_eq_iff k j, text_eq_iff j k),
          insert_stable-IsCanonical k d m e (ground arith) h,
        )
        | inr here ↦ rw here (e, fresh, (ej, fresh_j, h))
      ]

  pub IsCanonical-IsDistinct : (m : Dict Descriptor) → IsCanonical parse_reference m → IsDistinct m
  IsCanonical-IsDistinct [] h = tt
  IsCanonical-IsDistinct ((k, d) ∷ m) (e, fresh, h) = (fresh, IsCanonical-IsDistinct m h)

  pub sort-IsCanonical :
      (m : Dict Descriptor)
      → IsCanonical parse_reference m
      → IsCanonical parse_reference (sort_entries sorts_before m)
  unfolding sort_entries sort_stable
  sort-IsCanonical [] h = tt
  sort-IsCanonical ((k, d) ∷ m) (e, fresh, h) =
      insert_stable-IsCanonical k d _ e
        (lookup-sort sorts_before k m (IsCanonical-IsDistinct m h) ∙ fresh) (sort-IsCanonical m h)
