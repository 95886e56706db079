-- ===== src/Mapper/Traversal.antt =====
-- Where the file store writes.
use hauler.Base.{
  ◌≡◌, ap, true, List, [], Text, text_eq, is_some, Option-cases, Bool-cases, inl, inr,
}
use hauler.Base.Dict
use hauler.Consts.{ref_name_key}
use hauler.Content.Descriptor.{Descriptor}
use hauler.Paths.{join, rel, leaves, has_base}
use hauler.Paths.Inside.{rel-inside, has_base-append}
use hauler.Mapper.{Mapping, discard, traversal, write_to, below_directory, mapped_name, push}

write_to-injective : {p q : List Text} → write_to p ≡ write_to q → p ≡ q
write_to-injective {p} h = ap (λ w. elim w [ discard ↦ p | traversal n ↦ p | write_to r ↦ r ]) h

below-inside :
    (dest_dir : List Text) (filename : Text) (path : List Text)
    → below_directory dest_dir filename ≡ write_to path
    → has_base dest_dir path ≡ true
unfolding below_directory
below-inside dest_dir filename path h =
    elim (Bool-cases (leaves (rel dest_dir (join dest_dir filename)))) [
      | inl out ↦ cc (rw (out, below_directory) at h)
      | inr stays ↦
          let same : join dest_dir filename ≡ path =
            write_to-injective (rw (stays, below_directory) at h) in
          rw (← same) (
            rw (rel-inside dest_dir (join dest_dir filename) stays)
              (has_base-append dest_dir (rel dest_dir (join dest_dir filename))))
    ]

-- Whatever the annotations of a descriptor say, a file that Push writes is below the destination
-- directory.
pub push-inside :
    (mapper : Mapping) (dest_dir : List Text) (d : Descriptor) (path : List Text)
    → push mapper dest_dir d ≡ write_to path
    → has_base dest_dir path ≡ true
unfolding push
push-inside mapper dest_dir d path h =
    elim (Bool-cases (is_some (Dict.lookup ref_name_key d.annotations))) [
      | inl named ↦ cc (rw (named, push) at h)
      | inr unnamed ↦ elim (Option-cases (mapped_name mapper d)) [
        | inl unmapped ↦ cc (rw (unnamed, unmapped, push) at h)
        | inr (filename, found) ↦ elim (Bool-cases (text_eq filename [])) [
          | inl declined ↦ cc (rw (unnamed, found, declined, push) at h)
          | inr given ↦ below-inside dest_dir filename path (rw (unnamed, found, given, push) at h)
        ]
      ]
    ]
