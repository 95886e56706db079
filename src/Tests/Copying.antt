-- ===== src/Tests/Copying.antt =====
-- Copies of the same index to an empty registry, and one whose registry refuses a layer.
use mathlib.Core.List.{Memᴰ}
use hauler.Base.{
  cut_byte, ℕ, ◌<◌, ◌≡◌, refl, Bool, true, not, Option, none, some, List, [], ◌∷◌, Text, codes,
  text_eq, All, Bool-cases, if◌then◌else◌, ◌⊎◌, inl, inr, arith,
}
use hauler.Base.Dict
use hauler.Base.Dict.{Dict}
use hauler.Consts.{oci_manifest, oci_index, ref_name_key}
use hauler.Content.Descriptor.{Descriptor}
use hauler.Content.Reference.{Named}
use hauler.Content.Index.{Oci, new_oci, missing, load_file, load_index}
use hauler.Content.Index.Operations.{resolve, fetcher}
use hauler.Store.Manifest.{Manifest, bytes}
use hauler.Store.Copy.{
  copy_fetched, copy_index, copy_children, copy_manifest, copy_descriptor, copy_answer, copy_layers,
  then_push, commit, push_answer, push_data, CopyError, Event, writer, Pusher, Source, Outcome,
  copy_graph,
}
use hauler.Store.Copy.Delivery.{Delivered, Extends, IsOrdered}
use hauler.Store.Copy.Totality.{children_in, copy_graph-delivers}
use hauler.Store.CopyAll.{
  copy_entries, copy_entry, copy, copied, summed, target_reference, Target, copy_all,
}
use hauler.Store.CopyAll.Delivers.{copy_all-IsOrdered, copy_all-Delivered}
use hauler.Store.Check.Graph.{All-Memᴰ}
use hauler.Tests.Graph.{desc, image, index}

abbrev typed : Text → Text → Descriptor
typed media_type digest = record (desc digest) { media_type = media_type }

abbrev pushed_index : Manifest
pushed_index = record index { manifests = typed oci_manifest (codes "m") ∷ [] }

abbrev as_manifest : Text → Option Manifest
as_manifest content = if text_eq content (codes "m") then some image else none

abbrev as_index : Text → Option Manifest
as_index content = if text_eq content (codes "i") then some pushed_index else none

abbrev source : Source
source d = bytes d.digest

abbrev accepting : Pusher
accepting log d = writer true true true

abbrev rank_of : Descriptor → ℕ
rank_of d = if text_eq d.digest (codes "i") then 1 else 0

low_rank : rank_of (typed oci_manifest (codes "m")) ≡ 0
unfolding text_eq
low_rank = refl

ranks_fall :
    (d c : Descriptor)
    → Memᴰ c (children_in as_manifest as_index source (source d))
    → rank_of c < rank_of d
unfolding children_in
ranks_fall d c member = elim (Bool-cases (text_eq d.digest (codes "i"))) [
  | inl is_i ↦
      let low : rank_of c ≡ 0 =
        All-Memᴰ (λ x. rank_of x ≡ 0) pushed_index.manifests (low_rank, tt)
          (rw (is_i, children_in) at member) in
      let high : rank_of d ≡ 1 = rw is_i refl in omega (arith, low, high)
  | inr other ↦ elim (rw (other, children_in) at member) [ ]
]

copy_graph-delivers_example :
    (out : Outcome) × (copy_graph source accepting as_manifest as_index 2
        (typed oci_index (codes "i"))
        []
      ≡ some out)
    × Extends [] out.1
    × IsOrdered as_manifest as_index out.1
    × (((e : CopyError) × (out.0 ≡ some e)) ⊎ Delivered out.1 (typed oci_index (codes "i")))
unfolding IsOrdered text_eq
copy_graph-delivers_example =
    copy_graph-delivers as_manifest as_index source rank_of ranks_fall accepting 2
      (typed oci_index (codes "i")) [] (omega arith) tt

abbrev no_reference : Text → Option Named
no_reference t = none

abbrev root_desc : Descriptor
root_desc = record (typed oci_index (codes "i")) {
  annotations = (ref_name_key, codes "app:1") ∷ [];
}

abbrev stored : Oci
stored = record (new_oci missing) { name_map = (codes "k", root_desc) ∷ [] }

abbrev registry : Target
registry ref = some accepting

abbrev is_valid : Text → Bool
is_valid d = not (text_eq d [])

abbrev as_is : Text → Option Text
as_is t = some t

copied_all :
    (log : List Event) × ((copy_all no_reference as_manifest as_index source registry is_valid as_is
        2 stored []).0
      ≡ some (inr (inr (root_desc ∷ [])), log))
unfolding copy_all load_index load_file copy_entries copy_entry text_eq Dict.get_or Dict.lookup copy
    resolve fetcher copied summed target_reference cut_byte copy_graph copy_fetched copy_index
    copy_children copy_manifest copy_descriptor copy_answer copy_layers then_push commit push_answer
    push_data
copied_all = (_, refl)

copy_all-IsOrdered_example : Extends [] copied_all.0 × IsOrdered as_manifest as_index copied_all.0
unfolding IsOrdered
copy_all-IsOrdered_example =
    copy_all-IsOrdered no_reference as_manifest as_index source registry is_valid as_is 2 stored []
      (inr (inr (root_desc ∷ []))) copied_all.0 copied_all.1 tt

copy_all-Delivered_example : All (Delivered copied_all.0) (root_desc ∷ [])
copy_all-Delivered_example =
    copy_all-Delivered no_reference as_manifest as_index source registry is_valid as_is 2 stored []
      (root_desc ∷ []) copied_all.0 copied_all.1
