-- ===== src/Store/Copy/Totality.antt =====
-- A copy of an acyclic graph ends, and what a CopyAll leaves on the target.
use mathlib.Core.List.{Memᴰ}
use hauler.Base.{
  ◌⊎◌, ◌<◌, ℕ, zero, suc, ◌≡◌, refl, Option, none, some, List, [], ◌∷◌, Text, Option-cases,
  Bool-cases, inl, inr, arith,
}
use hauler.Content.Descriptor.{Descriptor}
use hauler.Store.Manifest.{Manifest, Fetched, fetch_failed, read_failed, bytes}
use hauler.Store.Copy.{
  decoding, CopyError, Event, Pusher, Source, Outcome, copy_children, then_push, is_manifest,
  is_index, push_data, copy_descriptor, copy_manifest, copy_index, copy_fetched, copy_graph, child,
  push_index, descriptor,
}
use hauler.Store.Copy.Delivery.{Delivered, Extends, IsOrdered}
use hauler.Store.Copy.Integrity.{graph-Advances}

module _ (as_manifest as_index : Text → Option Manifest) (source : Source) where
  -- the children of an index as it is fetched
  unfoldable pub children_in : Fetched → List Descriptor
  children_in fetch_failed = []
  children_in read_failed = []
  children_in (bytes content) = elim (as_index content) [ none ↦ [] | some m ↦ m.manifests ]

  children-total :
      (copy : Descriptor → List Event → Option Outcome) (ds : List Descriptor) (log : List Event)
      → ((d : Descriptor) → Memᴰ d ds → (log : List Event) → (x : Outcome) × (copy d log ≡ some x))
      → (x : Outcome) × (copy_children copy ds log ≡ some x)
  unfolding copy_children
  children-total copy [] log h = (_, refl)
  children-total copy (d ∷ ds) log h =
      let ((e, log1), done) = h d (Memᴰ.head refl) log in
      let (y, rest) = children-total copy ds log1 (λ e member. h e (Memᴰ.tail member)) in
      elim (Option-cases e) [
        | inr (x, failed) ↦ ((some (child x), log1), rw (done, failed, copy_children) refl)
        | inl fine ↦ (y, rw (done, fine, copy_children) rest)
      ]

  index-total :
      (pusher : Pusher) (copy : Descriptor → List Event → Option Outcome) (d : Descriptor)
      → (f : Fetched) (log : List Event)
      → ((c : Descriptor)
          → Memᴰ c (children_in f)
          → (log : List Event) → (x : Outcome) × (copy c log ≡ some x))
      → (x : Outcome) × (copy_fetched as_index (copy_index source pusher copy d) f log ≡ some x)
  unfolding copy_fetched copy_index children_in
  index-total pusher copy d fetch_failed log h = (_, refl)
  index-total pusher copy d read_failed log h = (_, refl)
  index-total pusher copy d (bytes content) log h = elim (Option-cases (as_index content)) [
    | inl malformed ↦ ((some decoding, log), rw (malformed, copy_fetched) refl)
    | inr (m, parsed) ↦
        let ((e, log1), done) =
          children-total copy m.manifests log (λ c member. h c (rw (parsed, children_in) member)) in
        elim (Option-cases e) [
          | inr (x, failed) ↦
              ((some x, log1), rw (parsed, copy_fetched) (rw (done, failed, copy_index) refl))
          | inl fine ↦ (
            then_push push_index (push_data source pusher d content) log1,
            rw (parsed, copy_fetched) (rw (done, fine, copy_index) refl),
          )
        ]
  ]

  manifest-total :
      (decode : Text → Option Manifest) (copy : Text → Manifest → List Event → Outcome)
      → (f : Fetched) (log : List Event)
      → (x : Outcome) × (copy_fetched decode (λ content m log. some (copy content m log)) f log
          ≡ some x)
  unfolding copy_fetched
  manifest-total decode copy fetch_failed log = (_, refl)
  manifest-total decode copy read_failed log = (_, refl)
  manifest-total decode copy (bytes content) log = elim (Option-cases (decode content)) [
    | inl malformed ↦ ((some decoding, log), rw (malformed, copy_fetched) refl)
    | inr (m, parsed) ↦ (copy content m log, rw (parsed, copy_fetched) refl)
  ]

  -- With more fuel than the depth of the graph, given by a number that falls from each index to its
  -- children, a copy of the graph ends with an outcome, whatever the pusher answers.
  copy_graph-total :
      (rank : Descriptor → ℕ)
      → ((d c : Descriptor) → Memᴰ c (children_in (source d)) → rank c < rank d)
      → (pusher : Pusher) (fuel : ℕ) (d : Descriptor) (log : List Event) → rank d < fuel
      → (x : Outcome) × (copy_graph source pusher as_manifest as_index fuel d log ≡ some x)
  unfolding copy_graph
  copy_graph-total rank falls pusher zero d log deep = absurd (omega arith)
  copy_graph-total rank falls pusher (suc fuel) d log deep =
      elim (Bool-cases (is_manifest d.media_type)) [
        | inl kind ↦
            let (x, done) =
              manifest-total as_manifest (copy_manifest source pusher d) (source d) log in
            (x, rw (kind, copy_graph) done)
        | inr kind ↦ elim (Bool-cases (is_index d.media_type)) [
          | inl index ↦
              let (x, done) =
                index-total pusher (copy_graph source pusher as_manifest as_index fuel) d (source d)
                  log
                  (λ c member c_log.
                    copy_graph-total rank falls pusher fuel c c_log
                      (omega (arith, falls d c member))) in
              (x, rw (kind, index, copy_graph) done)
          | inr other ↦ (
            then_push descriptor (copy_descriptor source pusher d) log,
            rw (kind, other, copy_graph) refl,
          )
        ]
      ]

  -- With more fuel than the depth of the graph, given by a number that falls from each index to its
  -- children, and whatever the pusher answers: the copy ends; it only adds to what the target holds; a
  -- target on which every manifest comes after its config and layers, and every index after its
  -- children, stays so; and either an error is reported or the root has arrived.
  pub copy_graph-delivers :
      (rank : Descriptor → ℕ)
      → ((d c : Descriptor) → Memᴰ c (children_in (source d)) → rank c < rank d)
      → (pusher : Pusher) (fuel : ℕ) (d : Descriptor) (log : List Event) → rank d < fuel
      → IsOrdered as_manifest as_index log
      → (out : Outcome) × (copy_graph source pusher as_manifest as_index fuel d log ≡ some out)
        × Extends log out.1
        × IsOrdered as_manifest as_index out.1
        × (((e : CopyError) × (out.0 ≡ some e)) ⊎ Delivered out.1 d)
  copy_graph-delivers rank falls pusher fuel d log deep ordered =
      let (out, done) = copy_graph-total rank falls pusher fuel d log deep in
      let a = graph-Advances as_manifest as_index source pusher fuel d log out done in
      (out, done, a.extends, a.ordered ordered, by_error out a.arrives)
    where
      by_error :
          (out : Outcome)
          → (out.0 ≡ none → Delivered out.1 d)
          → ((e : CopyError) × (out.0 ≡ some e)) ⊎ Delivered out.1 d
      by_error out arrives = elim (Option-cases out.0) [
        | inl fine ↦ inr (arrives fine)
        | inr (e, failed) ↦ inl (e, failed)
      ]
