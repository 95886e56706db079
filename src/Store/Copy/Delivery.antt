-- ===== src/Store/Copy/Delivery.antt =====
-- The order in which a copy delivers a descriptor graph.
use hauler.Base.{
  ◌≡◌, refl, Bool, true, false, ◌||◌, Option, none, some, List, [], ◌∷◌, Text, text_eq,
  text_eq_refl, All, arith,
}
use hauler.Content.Descriptor.{Descriptor}
use hauler.Store.Manifest.{Manifest, Fetched, fetch_failed, read_failed, bytes}
use hauler.Store.Copy.{
  CopyError, Event, blob, node, existed, event_digest, Answer, already_exists, push_refused, writer,
  Outcome, commit, push_answer, copy_answer, is_manifest,
}

-- a blob of this digest has reached the target, or was there
pub delivered : Text → List Event → Bool
delivered digest [] = false
delivered digest (e ∷ log) = text_eq (event_digest e) digest || delivered digest log

abbrev pub Delivered : List Event → Descriptor → Type 0
Delivered log d = delivered d.digest log ≡ true

abbrev pub Extends : List Event → List Event → Type 0
Extends log log' = (digest : Text) → delivered digest log ≡ true → delivered digest log' ≡ true

module _ (as_manifest as_index : Text → Option Manifest) where
  -- what the content of a manifest or an index names
  unfoldable pub HasParts : Event → List Event → Type 0
  HasParts (blob d content) log = Unit
  HasParts (existed d) log = Unit
  HasParts (node d content) log =
      (is_manifest d.media_type ≡ true
        → (m : Manifest) → as_manifest content ≡ some m
        → All (Delivered log) (m.config ∷ m.layers))
      × (is_manifest d.media_type ≡ false
          → (m : Manifest) → as_index content ≡ some m
          → All (Delivered log) m.manifests)

  -- every manifest and index comes after the blobs that it names
  unfoldable pub IsOrdered : List Event → Type 0
  IsOrdered [] = Unit
  IsOrdered (e ∷ log) = HasParts e log × IsOrdered log

  -- what a copy of a descriptor does to the target
  pub record Advances (d : Descriptor) (log : List Event) (out : Outcome) : Type 0 where
    pub extends : Extends log out.1
    pub ordered : IsOrdered log → IsOrdered out.1
    pub arrives : out.0 ≡ none → Delivered out.1 d

  -- an event for the descriptor is added, whatever is reported
  pub landed-Advances :
      (event : Event) (d : Descriptor) (e : Option CopyError) (log : List Event)
      → event_digest event ≡ d.digest
      → HasParts event log
      → Advances d log (e, event ∷ log)
  unfolding delivered IsOrdered
  landed-Advances event d e log same parts = record {
    extends = λ digest known. ground (arith, known);
    ordered = λ ordered. (parts, ordered);
    arrives = λ done. rw same (ground (arith, text_eq_refl d.digest));
  }

  -- an error and no event
  pub stuck-Advances :
      (d : Descriptor) (e : CopyError) (log : List Event) → Advances d log (some e, log)
  stuck-Advances d e log = record {
    extends = λ digest known. known;
    ordered = λ ordered. ordered;
    arrives = λ done. cc;
  }

  commit-Advances :
      (event : Event) (d : Descriptor) (committed closes : Bool) (log : List Event)
      → event_digest event ≡ d.digest
      → HasParts event log
      → Advances d log (commit event committed closes log)
  unfolding commit
  commit-Advances event d false closes log same parts = stuck-Advances d _ log
  commit-Advances event d true false log same parts = landed-Advances event d _ log same parts
  commit-Advances event d true true log same parts = landed-Advances event d _ log same parts

  pub push-Advances :
      (answer : Answer) (d : Descriptor) (content : Text) (log : List Event)
      → HasParts (node d content) log
      → Advances d log (push_answer answer d content log)
  unfolding push_answer HasParts
  push-Advances already_exists d content log parts = landed-Advances (existed d) d none log refl tt
  push-Advances push_refused d content log parts = stuck-Advances d _ log
  push-Advances (writer false committed closes) d content log parts = stuck-Advances d _ log
  push-Advances (writer true committed closes) d content log parts =
      commit-Advances (node d content) d committed closes log refl parts

  pub copy-Advances :
      (answer : Answer) (d : Descriptor) (f : Fetched) (log : List Event)
      → Advances d log (copy_answer answer d f log)
  unfolding copy_answer HasParts
  copy-Advances answer d fetch_failed log = stuck-Advances d _ log
  copy-Advances already_exists d read_failed log = landed-Advances (existed d) d none log refl tt
  copy-Advances push_refused d read_failed log = stuck-Advances d _ log
  copy-Advances (writer writes committed closes) d read_failed log = stuck-Advances d _ log
  copy-Advances already_exists d (bytes content) log =
      landed-Advances (existed d) d none log refl tt
  copy-Advances push_refused d (bytes content) log = stuck-Advances d _ log
  copy-Advances (writer false committed closes) d (bytes content) log = stuck-Advances d _ log
  copy-Advances (writer true committed closes) d (bytes content) log =
      commit-Advances (blob d content) d committed closes log refl tt
