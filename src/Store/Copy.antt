-- ===== src/Store/Copy.antt =====
-- pkg/store/store.go: copyDescriptorGraph, copyDescriptor and pushData. The target's
-- pusher is a parameter: what it answers to a push may depend on all that was delivered before. A
-- reader of the store is taken to close without an error.
pub mod Walking
pub mod Delivery
pub mod Integrity
pub mod Totality
use hauler.Base.{
  ℕ, zero, suc, Bool, true, false, not, ◌||◌, Option, none, some, List, [], ◌∷◌, ◌++◌, Text, codes,
  text_eq, cut_byte, if◌then◌else◌, ◌⊎◌, inl, inr,
}
use hauler.Base.Dict.{Dict}
use hauler.Consts.{ref_name_key, oci_manifest, oci_index, docker_manifest, docker_list}
use hauler.Content.Descriptor.{Descriptor, annotation}
use hauler.Content.Reference.{Named}
use hauler.Content.Index.{Error, Oci, load_index}
use hauler.Content.Index.Operations.{resolve, fetcher}
use hauler.Store.Manifest.{Manifest, BlobLib, Fetched, fetch_failed, read_failed, bytes}

pub data CopyError : Type 0 where
  fetching reading decoding refused writing committing closing : CopyError
  config layer push_manifest child push_index descriptor : CopyError → CopyError

-- What reached the target, newest first: the content of a blob from copyDescriptor, that of a manifest
-- or an index from pushData, or a push that the target answered with "already exists".
pub data Event : Type 0 where
  blob node : Descriptor → Text → Event
  existed : Descriptor → Event

abbrev pub event_digest : Event → Text
event_digest (blob d content) = d.digest
event_digest (node d content) = d.digest
event_digest (existed d) = d.digest

-- Pusher.Push: an error, "already exists", or a writer with the answers to its Write, Commit and Close
pub data Answer : Type 0 where
  already_exists push_refused : Answer
  writer : Bool → Bool → Bool → Answer

abbrev pub Pusher : Type 0
Pusher = List Event → Descriptor → Answer

-- the store's fetcher, with the read to the end
abbrev pub Source : Type 0
Source = Descriptor → Fetched

-- A result, and what has reached the target.
abbrev pub Outcome : Type 0
Outcome = Option CopyError × List Event

-- Commit and Close, after the content has been written
unfoldable pub commit : Event → Bool → Bool → List Event → Outcome
commit event committed closes log =
    if not committed
    then (some committing, log)
    else if not closes
    then (some closing, event ∷ log)
    else (none, event ∷ log)

-- pushData, on the pusher's answer
unfoldable pub push_answer : Answer → Descriptor → Text → List Event → Outcome
unfolding commit
push_answer already_exists d content log = (none, existed d ∷ log)
push_answer push_refused d content log = (some refused, log)
push_answer (writer writes committed closes) d content log =
    if not writes then (some writing, log) else commit (node d content) committed closes log

-- copyDescriptor, on the pusher's answer
unfoldable pub copy_answer : Answer → Descriptor → Fetched → List Event → Outcome
unfolding commit
copy_answer answer d fetch_failed log = (some fetching, log)
copy_answer already_exists d read_failed log = (none, existed d ∷ log)
copy_answer push_refused d read_failed log = (some refused, log)
copy_answer (writer writes committed closes) d read_failed log = (some reading, log)
copy_answer already_exists d (bytes content) log = (none, existed d ∷ log)
copy_answer push_refused d (bytes content) log = (some refused, log)
copy_answer (writer writes committed closes) d (bytes content) log =
    if not writes then (some writing, log) else commit (blob d content) committed closes log

-- the layers in order, up to the first that fails
unfoldable pub copy_layers :
    (Descriptor → List Event → Outcome) → List Descriptor → List Event → Outcome
copy_layers copy [] log = (none, log)
copy_layers copy (d ∷ ds) log =
    let (e, log1) = copy d log in
    let rest = copy_layers copy ds log1 in elim e [ some x ↦ (some (layer x), log1) | none ↦ rest ]

-- the children in order, each with a copy of its graph
unfoldable pub copy_children :
    (Descriptor → List Event → Option Outcome) → List Descriptor → List Event → Option Outcome
copy_children copy [] log = some (none, log)
copy_children copy (d ∷ ds) log = elim (copy d log) [
  | none ↦ none
  | some (e, log1) ↦ elim e [
    | some x ↦ some (some (child x), log1)
    | none ↦ copy_children copy ds log1
  ]
]

-- the first error of the two, in its context
unfoldable pub then_push : (CopyError → CopyError) → (List Event → Outcome) → List Event → Outcome
then_push context push log =
    let (e, log1) = push log in elim e [ some x ↦ (some (context x), log1) | none ↦ (none, log1) ]

abbrev pub is_manifest : Text → Bool
is_manifest t = text_eq t oci_manifest || text_eq t docker_manifest

abbrev pub is_index : Text → Bool
is_index t = text_eq t oci_index || text_eq t docker_list

-- what is fetched for a manifest or an index, decoded by json.Unmarshal
unfoldable pub copy_fetched :
    (Text → Option Manifest)
    → (Text → Manifest → List Event → Option Outcome)
    → Fetched
    → List Event
    → Option Outcome
copy_fetched decode copy fetch_failed log = some (some fetching, log)
copy_fetched decode copy read_failed log = some (some reading, log)
copy_fetched decode copy (bytes content) log = elim (decode content) [
  | none ↦ some (some decoding, log)
  | some m ↦ copy content m log
]

module _ (source : Source) (pusher : Pusher) where
  unfoldable pub push_data : Descriptor → Text → List Event → Outcome
  push_data d content log = push_answer (pusher log d) d content log

  unfoldable pub copy_descriptor : Descriptor → List Event → Outcome
  copy_descriptor d log = copy_answer (pusher log d) d (source d) log

  -- the config, the layers, then the manifest itself
  unfoldable pub copy_manifest : Descriptor → Text → Manifest → List Event → Outcome
  copy_manifest d content m log =
      let (e, log1) = copy_descriptor m.config log in
      let (e_layers, log2) = copy_layers copy_descriptor m.layers log1 in
      elim e [
        | some x ↦ (some (config x), log1)
        | none ↦ elim e_layers [
          | some x ↦ (some x, log2)
          | none ↦ then_push push_manifest (push_data d content) log2
        ]
      ]

  -- the children, then the index itself
  unfoldable pub copy_index :
      (Descriptor → List Event → Option Outcome)
      → Descriptor
      → Text
      → Manifest
      → List Event
      → Option Outcome
  copy_index copy d content m log = elim (copy_children copy m.manifests log) [
    | none ↦ none
    | some (e, log1) ↦ elim e [
      | some x ↦ some (some x, log1)
      | none ↦ some (then_push push_index (push_data d content) log1)
    ]
  ]

  -- copyDescriptorGraph, on fuel for the depth of indexes; json.Unmarshal into an ocispec.Manifest and
  -- into an ocispec.Index are the two decoders
  unfoldable pub copy_graph :
      (Text → Option Manifest)
      → (Text → Option Manifest)
      → ℕ
      → Descriptor
      → List Event
      → Option Outcome
  copy_graph as_manifest as_index zero d log = none
  copy_graph as_manifest as_index (suc fuel) d log =
      let recur = copy_graph as_manifest as_index fuel in
      elim (is_manifest d.media_type) [
        | true ↦
            copy_fetched as_manifest (λ content m log. some (copy_manifest d content m log))
              (source d) log
        | false ↦ elim (is_index d.media_type) [
          | true ↦ copy_fetched as_index (copy_index recur d) (source d) log
          | false ↦ some (then_push descriptor (copy_descriptor d) log)
        ]
      ]
