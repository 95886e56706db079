-- ===== src/Store/Add/Preserving.antt =====
-- pkg/store/store.go: AddImage and its parts keep what the writes of images and indexes keep.
use hauler.Base.{
  ℕ, Bool-cases, Option-cases, ◌≡◌, Bool, true, false, Option, none, some, List, [], ◌∷◌, ◌++◌,
  Text, codes, text_eq, inl, inr, if◌then◌else◌,
}
use hauler.Consts.{kind_image, kind_index, kind_referrers}
use hauler.Content.Reference.{Named}
use hauler.Content.Index.{SaveIo}
use hauler.Content.Blob.{DigestLib}
use hauler.Store.Add.{
  digest_failed, bad_platform, fetch_failed, transport_failed, bad_image_ref, pin_mismatch, Layout,
  Run, pure, ◌>>◌, ImageRef, Fetched, Referrer, Registry,
}
use hauler.Store.Add.Rules.{Ensures-bind}
use hauler.Store.Add.Writing.{answers}
use hauler.Store.Add.Images.{
  parse_platform, platform_option, is_member, note_digest, save_tags, related_tags,
  save_related_artifacts, save_each_referrer, save_referrers, add_whole_index, add_single_image,
  add_fetched, fetch_name, add_extras, add_image,
}
use hauler.Store.Add.Keeping.{IsStable, Keeps, Keeps-then, Keeps-expect, Keeps-guard}
use hauler.Store.Add.Listing.{IsFaithful, write_image-Keeps, write_index-Keeps}

module _ (lib : DigestLib) (parse_reference : Text → Option Named) (save : SaveIo) (now : ℕ)
    (I : Layout → Type 0) (stable : IsStable lib parse_reference save now I) (counted : Bool) where
  module _ (registry : Registry) (faithful : IsFaithful lib registry) where
    save_tags-Keeps :
        (ref : ImageRef) (tags : List (Text × Text)) (saved : List Text)
        → Keeps lib parse_reference save now I stable
            (save_tags lib parse_reference save now counted registry ref tags saved)
    unfolding save_tags
    save_tags-Keeps ref [] saved = record { run = λ s h. h }
    save_tags-Keeps ref ((tag, kind) ∷ tags) saved =
        elim (Option-cases (registry.parse (ref.context ++ codes ":" ++ tag))) [
          | inl bad ↦ rw (bad, save_tags) (save_tags-Keeps ref tags saved)
          | inr (r, parsed) ↦ elim (Option-cases (registry.image r.name none)) [
            | inl absent ↦ rw (parsed, save_tags) (rw absent (save_tags-Keeps ref tags saved))
            | inr (img, found) ↦
                rw (parsed, save_tags)
                  (rw found (
                    Keeps-then lib parse_reference save now I stable
                      (write_image-Keeps lib parse_reference save now I stable counted ref img kind
                        [] (faithful.image_exact r.name none img found))
                      (save_tags-Keeps ref tags (note_digest img.digest saved))))
          ]
        ]

    save_each_referrer-Keeps :
        (ref : ImageRef) (saved : List Text) (rs : List Referrer)
        → Keeps lib parse_reference save now I stable
            (save_each_referrer lib parse_reference save now counted registry ref saved rs)
    unfolding save_each_referrer
    save_each_referrer-Keeps ref saved [] = record { run = λ s h. h }
    save_each_referrer-Keeps ref saved (r ∷ rs) =
        let rest = save_each_referrer-Keeps ref saved rs in
        elim (Option-cases (registry.new_digest (ref.context ++ codes "@" ++ r.digest))) [
          | inl bad ↦ rw (bad, save_each_referrer) rest
          | inr (name, parsed) ↦ elim (Option-cases (registry.image name none)) [
            | inl absent ↦ rw (parsed, save_each_referrer) (rw absent rest)
            | inr (img, found) ↦ elim (Bool-cases (is_member r.digest saved)) [
              | inl old ↦ rw (parsed, save_each_referrer) (rw found (rw old rest))
              | inr fresh ↦
                  rw (parsed, save_each_referrer)
                    (rw found (
                      rw fresh (
                        Keeps-then lib parse_reference save now I stable
                          (write_image-Keeps lib parse_reference save now I stable counted ref img
                            (kind_referrers ++ codes "/" ++ r.hex) []
                            (faithful.image_exact name none img found))
                          rest)))
            ]
          ]
        ]

    save_referrers-Keeps :
        (ref : ImageRef) (digest : Text) (saved : List Text)
        → Keeps lib parse_reference save now I stable
            (save_referrers lib parse_reference save now counted registry ref digest saved)
    unfolding save_referrers
    save_referrers-Keeps ref digest saved =
        elim (Option-cases (registry.new_digest (ref.context ++ codes "@" ++ digest))) [
          | inl bad ↦ rw (bad, save_referrers) record { run = λ s h. h }
          | inr (name, parsed) ↦ elim (Option-cases (registry.referrers name)) [
            | inl absent ↦ rw (parsed, save_referrers) (rw absent record { run = λ s h. h })
            | inr (rs, found) ↦
                rw (parsed, save_referrers) (rw found (save_each_referrer-Keeps ref saved rs))
          ]
        ]

    pub add_extras-Keeps :
        (ref : ImageRef) (digest : Text)
        → Keeps lib parse_reference save now I stable
            (add_extras lib parse_reference save now counted registry ref digest)
    unfolding add_extras save_related_artifacts
    add_extras-Keeps ref digest =
        Ensures-bind (λ _. I) (save_tags-Keeps ref (related_tags digest) [])
          λ saved. save_referrers-Keeps ref digest saved

    then_pure :
        {m : Run (Unit {0})} (t : Text)
        → Keeps lib parse_reference save now I stable m
        → Keeps lib parse_reference save now I stable (m >> pure t)
    then_pure t h = Keeps-then lib parse_reference save now I stable h record { run = λ s p. p }

    platform_option-Keeps :
        (p : Text) → Keeps lib parse_reference save now I stable (platform_option p)
    unfolding platform_option
    platform_option-Keeps [] = record { run = λ s h. h }
    platform_option-Keeps (c ∷ p) =
        Keeps-expect lib parse_reference save now I stable bad_platform (parse_platform (c ∷ p))
          λ q known. record { run = λ s h. h }

    add_single_image-Keeps :
        (ref : ImageRef) (fetch platform : Text)
        → Keeps lib parse_reference save now I stable
            (add_single_image lib parse_reference save now counted registry ref fetch platform)
    unfolding add_single_image
    add_single_image-Keeps ref fetch platform =
        Ensures-bind (λ _. I) (platform_option-Keeps platform)
          λ p.
            Keeps-expect lib parse_reference save now I stable fetch_failed (registry.image fetch p)
              λ img found.
                Keeps-expect lib parse_reference save now I stable digest_failed img.digest
                  λ digest known. then_pure digest (
                    write_image-Keeps lib parse_reference save now I stable counted ref img
                      kind_image [] (faithful.image_exact fetch p img found))

    add_fetched-Keeps :
        (ref : ImageRef) (fetch platform : Text) (d : Fetched)
        → registry.get fetch ≡ some d
        → Keeps lib parse_reference save now I stable
            (add_fetched lib parse_reference save now counted registry ref fetch platform d)
    unfolding add_fetched add_whole_index
    add_fetched-Keeps ref fetch platform d got =
        let single = add_single_image-Keeps ref fetch platform in
        elim (Option-cases d.as_index) [
          | inl image ↦ rw (image, add_fetched) single
          | inr (i, multi) ↦ elim (Bool-cases (text_eq platform [])) [
            | inr filtered ↦ rw (multi, add_fetched) (rw filtered single)
            | inl whole ↦
                rw (multi, add_fetched)
                  (rw whole (
                    Keeps-expect lib parse_reference save now I stable digest_failed
                      (answers i).digest
                      λ digest known. then_pure digest (
                        write_index-Keeps lib parse_reference save now I stable counted ref i
                          kind_index (faithful.index_exact fetch d i got multi))))
          ]
        ]

    extras_or_not :
        (b : Bool) (ref : ImageRef) (digest : Text)
        → Keeps lib parse_reference save now I stable (
            if b
            then pure tt
            else add_extras lib parse_reference save now counted registry ref digest)
    extras_or_not true ref digest = record { run = λ s h. h }
    extras_or_not false ref digest = add_extras-Keeps ref digest

    pub add_image-Keeps :
        (ref platform : Text) (exclude_extras : Bool) (pinned : Text)
        → Keeps lib parse_reference save now I stable (
            add_image lib parse_reference save now counted registry ref platform exclude_extras
              pinned)
    unfolding add_image
    add_image-Keeps ref platform exclude_extras pinned =
        Keeps-then lib parse_reference save now I stable
          (Keeps-guard lib parse_reference save now I stable registry.transport transport_failed)
          (Keeps-expect lib parse_reference save now I stable bad_image_ref (registry.parse ref)
            λ parsed known.
              Keeps-expect lib parse_reference save now I stable fetch_failed
                (registry.get (fetch_name registry parsed pinned))
                λ d got.
                  Keeps-then lib parse_reference save now I stable
                    (Keeps-guard lib parse_reference save now I stable _ pin_mismatch)
                    (Ensures-bind (λ _. I)
                      (add_fetched-Keeps parsed (fetch_name registry parsed pinned) platform d got)
                      λ digest. then_pure digest (extras_or_not exclude_extras parsed digest)))
