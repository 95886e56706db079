-- ===== src/Store/CopyAll/Delivers.antt =====
-- What a Copy and a CopyAll leave on the target.
use mathlib.Core.Path.{subst}
use hauler.Base.{
  some-injective, sum-cases, ℕ, ◌≡◌, refl, Bool, Option, some, List, [], ◌∷◌, Text, text_eq, All,
  Option-cases, Bool-cases, inl, inr, ◌⊎◌,
}
use hauler.Base.Dict.{Dict}
use hauler.Consts.{ref_name_key}
use hauler.Content.Descriptor.{Descriptor, annotation}
use hauler.Content.Reference.{Named}
use hauler.Content.Index.{Error, Oci, load_index}
use hauler.Content.Index.Operations.{resolve, fetcher}
use hauler.Store.Manifest.{Manifest}
use hauler.Store.Copy.{Event, Pusher, Source, copy_graph}
use hauler.Store.CopyAll.{
  Copied, CopyAllError, Target, copied, copy, copy_entry, copy_entries, copy_all, summed,
  target_reference,
}
use hauler.Store.Copy.Delivery.{Delivered, Extends, IsOrdered}
use hauler.Store.Copy.Integrity.{graph-Advances}

module _ (parse_reference : Text → Option Named) (as_manifest as_index : Text → Option Manifest)
    (source : Source) (to : Target) where
  -- what a copy does to the target
  record Leaves (log : List Event) (out : Copied) : Type 0 where
    extends : Extends log out.1
    ordered : IsOrdered as_manifest as_index log → IsOrdered as_manifest as_index out.1
    arrives : (c : Descriptor) → out.0 ≡ inr c → Delivered out.1 c

  refused-Leaves : (e : CopyAllError) (log : List Event) → Leaves log (inl e, log)
  refused-Leaves e log = record {
    extends = λ digest known. known;
    ordered = λ ordered. ordered;
    arrives = λ c done. cc;
  }

  copied-Leaves :
      (pusher : Pusher) (fuel : ℕ) (d : Descriptor) (log : List Event) (out : Copied)
      → copied d (copy_graph source pusher as_manifest as_index fuel d log) ≡ some out
      → Leaves log out
  unfolding copied
  copied-Leaves pusher fuel d log out h =
      elim (Option-cases (copy_graph source pusher as_manifest as_index fuel d log)) [
        | inl dry ↦ cc (rw (dry, copied) at h)
        | inr ((e, log1), done) ↦
            let a = graph-Advances as_manifest as_index source pusher fuel d log (e, log1) done in
            elim (Option-cases e) [
              | inr (x, failed) ↦
                  subst (Leaves log) (some-injective (rw (done, failed, copied) at h))
                    record { extends = a.extends; ordered = a.ordered; arrives = λ c done. cc }
              | inl fine ↦
                  subst (Leaves log) (some-injective (rw (done, fine, copied) at h)) record {
                    extends = a.extends;
                    ordered = a.ordered;
                    arrives = λ c arrived.
                        (let same : d ≡ c = cc in subst (Delivered log1) same (a.arrives fine));
                  }
            ]
      ]

  copy-Leaves :
      (fuel : ℕ) (ref to_ref : Text) (s : Oci) (log : List Event) (out : Copied)
      → (copy parse_reference as_manifest as_index source to fuel ref to_ref s log).0 ≡ some out
      → Leaves log out
  unfolding copy
  copy-Leaves fuel ref to_ref s log out h =
      let (resolved, s1) = resolve parse_reference ref s in
      let (fetches, s2) = fetcher parse_reference ref s1 in
      elim (sum-cases resolved) [
        | inl (x, bad) ↦
            subst (Leaves log) (some-injective (rw (bad, copy) at h)) (refused-Leaves _ log)
        | inr (d, at) ↦ elim (sum-cases fetches) [
          | inl (x, bad) ↦
              subst (Leaves log) (some-injective (rw (at, bad, copy) at h)) (refused-Leaves _ log)
          | inr (found, got) ↦ elim (Option-cases (to to_ref)) [
            | inl none_there ↦
                subst (Leaves log) (some-injective (rw (at, got, none_there, copy) at h))
                  (refused-Leaves _ log)
            | inr (pusher, there) ↦
                copied-Leaves pusher fuel d log out (rw (at, got, there, copy) at h)
          ]
        ]
      ]

  entry-Leaves :
      (valid : Text → Bool) (mapper : Text → Option Text) (fuel : ℕ) (k : Text) (d : Descriptor)
      → (s : Oci) (log : List Event) (out : Copied)
      → (copy_entry parse_reference as_manifest as_index source to valid mapper fuel k d s log).0
        ≡ some out
      → Leaves log out
  unfolding copy_entry
  entry-Leaves valid mapper fuel k d s log out h =
      elim (Bool-cases (text_eq (annotation ref_name_key d) [])) [
        | inl unnamed ↦
            subst (Leaves log) (some-injective (rw (unnamed, copy_entry) at h))
              (refused-Leaves _ log)
        | inr named ↦ elim (Option-cases (mapper (annotation ref_name_key d))) [
          | inl bad ↦
              subst (Leaves log) (some-injective (rw (named, bad, copy_entry) at h))
                (refused-Leaves _ log)
          | inr (mapped, good) ↦
              copy-Leaves fuel k (target_reference valid mapped d) s log out
                (rw (named, good, copy_entry) at h)
        ]
      ]

  -- what the copies of the entries do to the target
  record LeavesAll (log : List Event) (out : List Descriptor × List CopyAllError × List Event)
      : Type 0 where
    extends : Extends log out.2
    ordered : IsOrdered as_manifest as_index log → IsOrdered as_manifest as_index out.2
    arrive : All (Delivered out.2) out.0

  entries-Leave :
      (valid : Text → Bool) (mapper : Text → Option Text) (fuel : ℕ) (m : Dict Descriptor)
      → (s : Oci) (log : List Event) (out : List Descriptor × List CopyAllError × List Event)
      → (copy_entries parse_reference as_manifest as_index source to valid mapper fuel m s log).0
        ≡ some out
      → LeavesAll log out
  unfolding copy_entries
  entries-Leave valid mapper fuel [] s log out h =
      subst (LeavesAll log) (some-injective h)
        record { extends = λ digest known. known; ordered = λ ordered. ordered; arrive = tt }
  entries-Leave valid mapper fuel ((k, d) ∷ m) s log out h =
      let (result, s1) =
        copy_entry parse_reference as_manifest as_index source to valid mapper fuel k d s log in
      elim (Option-cases result) [
        | inl dry ↦ cc (rw (dry, copy_entries) at h)
        | inr ((outcome, log1), done) ↦
            let first = entry-Leaves valid mapper fuel k d s log (outcome, log1) done in
            elim (Option-cases
              (copy_entries parse_reference as_manifest as_index source to valid mapper fuel m s1
                log1).0) [
                  | inl dry ↦ cc (rw (done, dry, copy_entries) at h)
                  | inr ((descs, errors, log2), rest_done) ↦
                      let rest =
                        entries-Leave valid mapper fuel m s1 log1 (descs, errors, log2) rest_done in
                      elim (sum-cases outcome) [
                        | inl (x, failed) ↦
                            subst (LeavesAll log)
                              (some-injective (rw (done, rest_done, failed, copy_entries) at h))
                              record {
                                extends = λ digest known.
                                    rest.extends digest (first.extends digest known);
                                ordered = λ known. rest.ordered (first.ordered known);
                                arrive = rest.arrive;
                              }
                        | inr (c, fine) ↦
                            subst (LeavesAll log)
                              (some-injective (rw (done, rest_done, fine, copy_entries) at h))
                              record {
                                extends = λ digest known.
                                    rest.extends digest (first.extends digest known);
                                ordered = λ known. rest.ordered (first.ordered known);
                                arrive =
                                    (rest.extends c.digest (first.arrives c fine), rest.arrive);
                              }
                      ]
                ]
      ]

  summed-fine :
      (descs : List Descriptor) (errors : List CopyAllError) (ds : List Descriptor)
      → summed descs errors ≡ inr ds
      → descs ≡ ds
  unfolding summed
  summed-fine descs [] ds h = cc
  summed-fine descs (x ∷ xs) ds h = cc

  abbrev Delivers :
      List Event → (Error ⊎ (List CopyAllError ⊎ List Descriptor)) × List Event → Type 0
  Delivers log (result, log') =
      Extends log log'
      × (IsOrdered as_manifest as_index log → IsOrdered as_manifest as_index log')
      × ((descs : List Descriptor) → result ≡ inr (inr descs) → All (Delivered log') descs)

  copy_all_lem :
      (valid : Text → Bool) (mapper : Text → Option Text) (fuel : ℕ) (s : Oci) (log : List Event)
      → (result : Error ⊎ (List CopyAllError ⊎ List Descriptor)) (log' : List Event)
      → (copy_all parse_reference as_manifest as_index source to valid mapper fuel s log).0
        ≡ some (result, log')
      → Extends log log'
        × (IsOrdered as_manifest as_index log → IsOrdered as_manifest as_index log')
        × ((descs : List Descriptor) → result ≡ inr (inr descs) → All (Delivered log') descs)
  unfolding copy_all
  copy_all_lem valid mapper fuel s log result log' h =
      let (e, s1) = load_index parse_reference s in
      let (entries, s2) =
        copy_entries parse_reference as_manifest as_index source to valid mapper fuel s1.name_map s1
          log in
      elim (Option-cases e) [
        | inr (x, failed) ↦
            subst (Delivers log) (some-injective (rw (failed, copy_all) at h))
              (λ digest known. known, λ ordered. ordered, λ ds done. cc)
        | inl fine ↦ elim (Option-cases entries) [
          | inl dry ↦ cc (rw (fine, dry, copy_all) at h)
          | inr ((descs, errors, log2), done) ↦
              let all =
                entries-Leave valid mapper fuel s1.name_map s1 log (descs, errors, log2) done in
              subst (Delivers log) (some-injective (rw (fine, done, copy_all) at h)) (
                all.extends,
                all.ordered,
                λ ds ended.
                    subst (All (Delivered log2)) (summed-fine descs errors ds (cc ended))
                      all.arrive,
              )
        ]
      ]

  -- However a CopyAll ends, it only adds to what the target holds, and a target on which every manifest
  -- comes after its config and layers, and every index after its children, stays so.
  pub copy_all-IsOrdered :
      (valid : Text → Bool) (mapper : Text → Option Text) (fuel : ℕ) (s : Oci) (log : List Event)
      → (result : Error ⊎ (List CopyAllError ⊎ List Descriptor)) (log' : List Event)
      → (copy_all parse_reference as_manifest as_index source to valid mapper fuel s log).0
        ≡ some (result, log')
      → IsOrdered as_manifest as_index log
      → Extends log log' × IsOrdered as_manifest as_index log'
  copy_all-IsOrdered valid mapper fuel s log result log' h ordered =
      let (extends, keeps, arrive) = copy_all_lem valid mapper fuel s log result log' h in
      (extends, keeps ordered)

  -- When a CopyAll reports no error, each descriptor that it returns has arrived at the target.
  pub copy_all-Delivered :
      (valid : Text → Bool) (mapper : Text → Option Text) (fuel : ℕ) (s : Oci)
      → (log : List Event) (descs : List Descriptor) (log' : List Event)
      → (copy_all parse_reference as_manifest as_index source to valid mapper fuel s log).0
        ≡ some (inr (inr descs), log')
      → All (Delivered log') descs
  copy_all-Delivered valid mapper fuel s log descs log' h =
      (copy_all_lem valid mapper fuel s log (inr (inr descs)) log' h).2 descs refl
