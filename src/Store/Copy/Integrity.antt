-- ===== src/Store/Copy/Integrity.antt =====
-- What a copy of a descriptor graph leaves on the target, whether or not it succeeds.
use mathlib.Core.Path.{subst}
use hauler.Base.{
  some-injective, ℕ, zero, suc, ◌≡◌, sym, ◌∙◌, true, false, Option, some, List, ◌∷◌, Text, All,
  Option-cases, Bool-cases, inl, inr,
}
use hauler.Content.Descriptor.{Descriptor}
use hauler.Store.Manifest.{Manifest, Fetched, fetch_failed, read_failed, bytes}
use hauler.Store.Copy.{
  CopyError, Event, node, Pusher, Source, Outcome, copy_layers, copy_children, then_push,
  is_manifest, is_index, push_data, copy_descriptor, copy_manifest, copy_index, copy_fetched,
  copy_graph, config, push_manifest, push_index, descriptor,
}
use hauler.Store.Copy.Delivery.{
  Delivered, Extends, HasParts, IsOrdered, Advances, stuck-Advances, push-Advances, copy-Advances,
}
use hauler.Store.Copy.Walking.{layers-Advance, children-Advance}

module _ (as_manifest as_index : Text → Option Manifest) where
  then_push-Advances :
      (context : CopyError → CopyError) (push : List Event → Outcome) (d : Descriptor)
      → (log : List Event) → Advances as_manifest as_index d log (push log)
      → Advances as_manifest as_index d log (then_push context push log)
  unfolding then_push
  then_push-Advances context push d log a =
      let (e, log1) = push log in
      elim (Option-cases e) [
        | inl fine ↦
            rw (fine, then_push)
              record { extends = a.extends; ordered = a.ordered; arrives = λ done. a.arrives fine }
        | inr (x, failed) ↦
            rw (failed, then_push)
              record { extends = a.extends; ordered = a.ordered; arrives = λ done. cc }
      ]

  -- a later step's gain, from where an earlier one started
  pub after-Advances :
      (d : Descriptor) (log log1 : List Event) (out : Outcome)
      → Extends log log1
      → (IsOrdered as_manifest as_index log → IsOrdered as_manifest as_index log1)
      → Advances as_manifest as_index d log1 out
      → Advances as_manifest as_index d log out
  after-Advances d log log1 out extends ordered a = record {
    extends = λ digest known. a.extends digest (extends digest known);
    ordered = λ known. a.ordered (ordered known);
    arrives = a.arrives;
  }

  -- a failure on the way
  fails-Advances :
      (d : Descriptor) (log log1 : List Event) (e : CopyError)
      → Extends log log1
      → (IsOrdered as_manifest as_index log → IsOrdered as_manifest as_index log1)
      → Advances as_manifest as_index d log (some e, log1)
  fails-Advances d log log1 e extends ordered =
      after-Advances d log log1 _ extends ordered (stuck-Advances as_manifest as_index d e log1)

  manifest-parts :
      (d : Descriptor) (content : Text) (m : Manifest) (log : List Event)
      → is_manifest d.media_type ≡ true
      → as_manifest content ≡ some m
      → All (Delivered log) (m.config ∷ m.layers)
      → HasParts as_manifest as_index (node d content) log
  unfolding HasParts
  manifest-parts d content m log kind parsed all = (
    λ known m' parsed'.
        let same : m ≡ m' = some-injective (sym parsed ∙ parsed') in
        subst (λ (n : Manifest). All (Delivered log) (n.config ∷ n.layers)) same all,
    λ other. cc,
  )

  index-parts :
      (d : Descriptor) (content : Text) (m : Manifest) (log : List Event)
      → is_manifest d.media_type ≡ false
      → as_index content ≡ some m
      → All (Delivered log) m.manifests
      → HasParts as_manifest as_index (node d content) log
  unfolding HasParts
  index-parts d content m log kind parsed all = (
    λ other. cc,
    λ known m' parsed'.
        let same : m ≡ m' = some-injective (sym parsed ∙ parsed') in
        subst (λ (n : Manifest). All (Delivered log) n.manifests) same all,
  )

  module _ (source : Source) (pusher : Pusher) where
    descriptor-Advances :
        (d : Descriptor) (log : List Event)
        → Advances as_manifest as_index d log (copy_descriptor source pusher d log)
    unfolding copy_descriptor
    descriptor-Advances d log = copy-Advances as_manifest as_index (pusher log d) d (source d) log

    manifest-Advances :
        (d : Descriptor) (content : Text) (m : Manifest) (log : List Event)
        → is_manifest d.media_type ≡ true
        → as_manifest content ≡ some m
        → Advances as_manifest as_index d log (copy_manifest source pusher d content m log)
    unfolding copy_manifest push_data
    manifest-Advances d content m log kind parsed =
        let first = descriptor-Advances m.config log in
        let (e, log1) = copy_descriptor source pusher m.config log in
        let rest =
          layers-Advance as_manifest as_index (copy_descriptor source pusher) descriptor-Advances
            m.layers log1 in
        let (e_layers, log2) = copy_layers (copy_descriptor source pusher) m.layers log1 in
        elim (Option-cases e) [
          | inr (x, failed) ↦
              rw (failed, copy_manifest)
                (fails-Advances d log log1 (config x) first.extends first.ordered)
          | inl fine ↦ elim (Option-cases e_layers) [
            | inr (x, failed) ↦
                rw (fine, failed, copy_manifest)
                  (after-Advances d log log1 _ first.extends first.ordered
                    (fails-Advances d log1 log2 x rest.extends rest.ordered))
            | inl all_fine ↦
                let all : All (Delivered log2) (m.config ∷ m.layers) =
                  (rest.extends m.config.digest (first.arrives fine), rest.arrive all_fine) in
                rw (fine, all_fine, copy_manifest)
                  (after-Advances d log log1 _ first.extends first.ordered (
                    after-Advances d log1 log2 _ rest.extends rest.ordered (
                      then_push-Advances push_manifest (push_data source pusher d content) d log2 (
                        push-Advances as_manifest as_index (pusher log2 d) d content log2
                          (manifest-parts d content m log2 kind parsed all)))))
          ]
        ]

    index-Advances :
        (copy : Descriptor → List Event → Option Outcome)
        → ((d : Descriptor) (log : List Event) (out : Outcome)
            → copy d log ≡ some out
            → Advances as_manifest as_index d log out)
        → (d : Descriptor) (content : Text) (m : Manifest) (log : List Event) (out : Outcome)
        → is_manifest d.media_type ≡ false
        → as_index content ≡ some m
        → copy_index source pusher copy d content m log ≡ some out
        → Advances as_manifest as_index d log out
    unfolding copy_index push_data
    index-Advances copy adv d content m log out kind parsed h =
        elim (Option-cases (copy_children copy m.manifests log)) [
          | inl dry ↦ cc (rw (dry, copy_index) at h)
          | inr ((e, log1), done) ↦
              let all =
                children-Advance as_manifest as_index copy adv m.manifests log (e, log1) done in
              elim (Option-cases e) [
                | inr (x, failed) ↦
                    subst (Advances as_manifest as_index d log)
                      (some-injective (rw (done, failed, copy_index) at h))
                      (fails-Advances d log log1 x all.extends all.ordered)
                | inl fine ↦
                    subst (Advances as_manifest as_index d log)
                      (some-injective (rw (done, fine, copy_index) at h))
                      (after-Advances d log log1 _ all.extends all.ordered (
                        then_push-Advances push_index (push_data source pusher d content) d log1 (
                          push-Advances as_manifest as_index (pusher log1 d) d content log1
                            (index-parts d content m log1 kind parsed (all.arrive fine)))))
              ]
        ]

    fetched-Advances :
        (decode : Text → Option Manifest) (copy : Text → Manifest → List Event → Option Outcome)
        → (d : Descriptor) (f : Fetched) (log : List Event) (out : Outcome)
        → ((content : Text) (m : Manifest)
            → decode content ≡ some m
            → copy content m log ≡ some out
            → Advances as_manifest as_index d log out)
        → copy_fetched decode copy f log ≡ some out
        → Advances as_manifest as_index d log out
    unfolding copy_fetched
    fetched-Advances decode copy d fetch_failed log out adv h =
        subst (Advances as_manifest as_index d log) (some-injective h)
          (stuck-Advances as_manifest as_index d _ log)
    fetched-Advances decode copy d read_failed log out adv h =
        subst (Advances as_manifest as_index d log) (some-injective h)
          (stuck-Advances as_manifest as_index d _ log)
    fetched-Advances decode copy d (bytes content) log out adv h =
        elim (Option-cases (decode content)) [
          | inl malformed ↦
              subst (Advances as_manifest as_index d log)
                (some-injective (rw (malformed, copy_fetched) at h))
                (stuck-Advances as_manifest as_index d _ log)
          | inr (m, parsed) ↦ adv content m parsed (rw (parsed, copy_fetched) at h)
        ]

    pub graph-Advances :
        (fuel : ℕ) (d : Descriptor) (log : List Event) (out : Outcome)
        → copy_graph source pusher as_manifest as_index fuel d log ≡ some out
        → Advances as_manifest as_index d log out
    unfolding copy_graph
    graph-Advances zero d log out h = cc
    graph-Advances (suc fuel) d log out h = elim (Bool-cases (is_manifest d.media_type)) [
      | inl kind ↦
          fetched-Advances as_manifest _ d (source d) log out
            (λ content m parsed done.
              subst (Advances as_manifest as_index d log) (some-injective done)
                (manifest-Advances d content m log kind parsed))
            (rw (kind, copy_graph) at h)
      | inr kind ↦ elim (Bool-cases (is_index d.media_type)) [
        | inl index ↦
            fetched-Advances as_index _ d (source d) log out
              (λ content m parsed done.
                index-Advances (copy_graph source pusher as_manifest as_index fuel)
                  (graph-Advances fuel) d content m log out kind parsed done)
              (rw (kind, index, copy_graph) at h)
        | inr other ↦
            subst (Advances as_manifest as_index d log)
              (some-injective (rw (kind, other, copy_graph) at h))
              (then_push-Advances descriptor (copy_descriptor source pusher d) d log
                (descriptor-Advances d log))
      ]
    ]
