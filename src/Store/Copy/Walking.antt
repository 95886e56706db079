-- ===== src/Store/Copy/Walking.antt =====
-- How lists of descriptors are copied.
use mathlib.Core.Path.{subst}
use hauler.Base.{
  some-injective, ◌≡◌, Option, none, some, List, [], ◌∷◌, Text, All, Option-cases, inl, inr,
}
use hauler.Content.Descriptor.{Descriptor}
use hauler.Store.Manifest.{Manifest}
use hauler.Store.Copy.{Event, Outcome, copy_layers, copy_children}
use hauler.Store.Copy.Delivery.{Delivered, Extends, IsOrdered, Advances}

module _ (as_manifest as_index : Text → Option Manifest) where
  -- the same for a list of descriptors
  pub record AdvancesAll (ds : List Descriptor) (log : List Event) (out : Outcome) : Type 0 where
    pub extends : Extends log out.1
    pub ordered : IsOrdered as_manifest as_index log → IsOrdered as_manifest as_index out.1
    pub arrive : out.0 ≡ none → All (Delivered out.1) ds

  pub All-Extends :
      (log log' : List Event)
      → Extends log log'
      → (ds : List Descriptor) → All (Delivered log) ds
      → All (Delivered log') ds
  All-Extends log log' more [] known = tt
  All-Extends log log' more (d ∷ ds) (known, rest) =
      (more d.digest known, All-Extends log log' more ds rest)

  pub layers-Advance :
      (copy : Descriptor → List Event → Outcome)
      → ((d : Descriptor) (log : List Event) → Advances as_manifest as_index d log (copy d log))
      → (ds : List Descriptor) (log : List Event) → AdvancesAll ds log (copy_layers copy ds log)
  unfolding copy_layers
  layers-Advance copy adv [] log = record {
    extends = λ digest known. known;
    ordered = λ ordered. ordered;
    arrive = λ done. tt;
  }
  layers-Advance copy adv (d ∷ ds) log =
      let first = adv d log in
      let (e, log1) = copy d log in
      let rest = layers-Advance copy adv ds log1 in
      elim (Option-cases e) [
        | inr (x, failed) ↦
            rw (failed, copy_layers)
              record { extends = first.extends; ordered = first.ordered; arrive = λ done. cc }
        | inl fine ↦
            rw (fine, copy_layers)
              record {
                extends = λ digest known. rest.extends digest (first.extends digest known);
                ordered = λ ordered. rest.ordered (first.ordered ordered);
                arrive = λ done. (rest.extends d.digest (first.arrives fine), rest.arrive done);
              }
      ]

  pub children-Advance :
      (copy : Descriptor → List Event → Option Outcome)
      → ((d : Descriptor) (log : List Event) (out : Outcome)
          → copy d log ≡ some out
          → Advances as_manifest as_index d log out)
      → (ds : List Descriptor) (log : List Event) (out : Outcome)
      → copy_children copy ds log ≡ some out
      → AdvancesAll ds log out
  unfolding copy_children
  children-Advance copy adv [] log out h =
      subst (AdvancesAll [] log) (some-injective h) record {
        extends = λ digest known. known;
        ordered = λ ordered. ordered;
        arrive = λ done. tt;
      }
  children-Advance copy adv (d ∷ ds) log out h = elim (Option-cases (copy d log)) [
    | inl dry ↦ cc (rw (dry, copy_children) at h)
    | inr ((e, log1), done) ↦
        let first = adv d log (e, log1) done in
        elim (Option-cases e) [
          | inr (x, failed) ↦
              subst (AdvancesAll (d ∷ ds) log)
                (some-injective (rw (done, failed, copy_children) at h))
                record { extends = first.extends; ordered = first.ordered; arrive = λ done. cc }
          | inl fine ↦
              let rest =
                children-Advance copy adv ds log1 out (rw (done, fine, copy_children) at h) in
              record {
                extends = λ digest known. rest.extends digest (first.extends digest known);
                ordered = λ ordered. rest.ordered (first.ordered ordered);
                arrive = λ ends. (rest.extends d.digest (first.arrives fine), rest.arrive ends);
              }
        ]
  ]
