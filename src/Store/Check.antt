-- ===== src/Store/Check.antt =====
-- pkg/store/check.go: the Checker, its per-digest memo and its walk of a descriptor graph. The
-- goroutines over a manifest's config and layers are taken in the order in which they are started.
pub mod Memo
pub mod Graph
pub mod Total
pub mod Walk
pub mod Complete
use hauler.Base.{
  ℕ, zero, suc, ◌+◌, Bool, true, false, not, ◌&&◌, Option, none, some, List, [], ◌∷◌, ◌++◌, Text,
  length, select, if◌then◌else◌,
}
use hauler.Base.Dict
use hauler.Base.Dict.{Dict}
use hauler.Base.Int.{ℤ, is_positive, eq_ℤ}
use hauler.Content.Descriptor.{Descriptor}
use hauler.Store.Manifest.{
  Manifest, BlobLib, BlobFile, missing, stat_failed, file, Disk, blob_file, Fetched, fetch_failed,
  read_failed, bytes, fetch,
}

pub data BlobStatus : Type 0 where
  blob_ok blob_missing blob_size_mismatch blob_digest_mismatch blob_unreadable : BlobStatus

-- The human-readable context of a result.
pub data Detail : Type 0 where
  empty not_found stat_error algorithm_unavailable open_error read_error wrong_digest : Detail
  expected_found : ℤ → ℕ → Detail
  fetching_manifest reading_manifest decoding_manifest : Detail

pub record BlobResult : Type 0 where
  pub digest : Text
  pub status : BlobStatus
  pub detail : Detail

abbrev pub is_ok : BlobStatus → Bool
is_ok blob_ok = true
is_ok blob_missing = false
is_ok blob_size_mismatch = false
is_ok blob_digest_mismatch = false
is_ok blob_unreadable = false

pub record CheckResult : Type 0 where
  pub ok : Bool
  pub problems : List BlobResult

pub record Checker : Type 0 where
  pub memo : Dict BlobResult
  pub hash_counts : Dict ℕ

-- NewChecker
abbrev pub new_checker : Checker
new_checker = record { memo = []; hash_counts = [] }

-- HashCount
abbrev pub hash_count : Text → Checker → ℕ
hash_count digest c = Dict.get_or digest 0 c.hash_counts

-- recordHash
unfoldable pub record_hash : Text → Checker → Checker
unfolding Dict.insert Dict.get_or
record_hash digest c = record c {
  hash_counts = Dict.insert digest (suc (hash_count digest c)) c.hash_counts;
}

abbrev pub result_of : Text → BlobStatus → Detail → BlobResult
result_of digest status detail = record { digest = digest; status = status; detail = detail }

-- the children in order, by a check of each; `none` when a check has no fuel left
unfoldable pub check_children :
    (Descriptor → Checker → Option (CheckResult × Checker))
    → List Descriptor
    → Checker
    → Option (List BlobResult × Checker)
check_children check [] c = some ([], c)
check_children check (d ∷ ds) c = elim (check d c) [
  | none ↦ none
  | some (r, c') ↦ elim (check_children check ds c') [
    | none ↦ none
    | some (problems, c'') ↦ some ((if not r.ok then r.problems ++ problems else problems), c'')
  ]
]

abbrev pub failed : BlobResult → CheckResult
failed r = record { ok = false; problems = r ∷ [] }

unfoldable pub no_problems : List BlobResult → Bool
no_problems [] = true
no_problems (r ∷ rs) = false

abbrev pub gathered : List BlobResult → Checker → CheckResult × Checker
gathered problems c = (record { ok = no_problems problems; problems = problems }, c)

module _ (lib : BlobLib) where
  -- the content is streamed through the verifier
  pub hash_content : Text → Text → Bool → Checker → BlobResult × Checker
  hash_content digest content reads c = (
    (if not reads
        then result_of digest blob_unreadable read_error
        else if not (lib.verified digest content)
        then result_of digest blob_digest_mismatch wrong_digest
        else result_of digest blob_ok empty),
    record_hash digest c,
  )

  pub check_file : Descriptor → BlobFile → Checker → BlobResult × Checker
  check_file desc missing c = (result_of desc.digest blob_missing not_found, c)
  check_file desc stat_failed c = (result_of desc.digest blob_unreadable stat_error, c)
  check_file desc (file content opens reads) c =
      if is_positive desc.size && not (eq_ℤ (length content) desc.size)
      then (result_of desc.digest blob_size_mismatch (expected_found desc.size (length content)), c)
      else if not (lib.available (lib.algorithm desc.digest))
      then (result_of desc.digest blob_unreadable algorithm_unavailable, c)
      else if not opens
      then (result_of desc.digest blob_unreadable open_error, c)
      else hash_content desc.digest content reads c

  -- m.Config and the layers, those with a valid digest
  unfoldable pub leaves : Manifest → List Descriptor
  leaves m = select (λ d. lib.valid d.digest) (m.config ∷ m.layers)

  unfoldable pub children : Manifest → List Descriptor
  children m = select (λ d. lib.valid d.digest) m.manifests

  module _ (disk : Disk) where
    -- CheckBlob
    unfoldable pub check_blob : Descriptor → Checker → BlobResult × Checker
    unfolding hash_content check_file
    check_blob desc c = check_file desc (blob_file lib disk desc.digest) c

    -- checkMemo
    unfoldable pub check_memo : Descriptor → Checker → BlobResult × Checker
    check_memo desc c =
        let (r, c') = check_blob desc c in
        elim (Dict.lookup desc.digest c.memo) [
          | some known ↦ (known, c)
          | none ↦ (r, record c' { memo = Dict.insert desc.digest r c'.memo })
        ]

    -- the problems of a manifest's own blobs
    unfoldable pub check_leaves : List Descriptor → Checker → List BlobResult × Checker
    check_leaves [] c = ([], c)
    check_leaves (d ∷ ds) c =
        let (r, c') = check_memo d c in
        let (problems, c'') = check_leaves ds c' in
        ((if is_ok r.status then problems else r ∷ problems), c'')

    unfoldable pub check_manifest :
        (Descriptor → Checker → Option (CheckResult × Checker))
        → Manifest
        → Checker
        → Option (CheckResult × Checker)
    check_manifest check m c =
        let (own, c') = check_leaves (leaves m) c in
        elim (check_children check (children m) c') [
          | none ↦ none
          | some (below, c'') ↦ some (gathered (own ++ below) c'')
        ]

    unfoldable pub check_fetched :
        (Descriptor → Checker → Option (CheckResult × Checker))
        → Text
        → Fetched
        → Checker
        → Option (CheckResult × Checker)
    check_fetched check digest fetch_failed c =
        some (failed (result_of digest blob_unreadable fetching_manifest), c)
    check_fetched check digest read_failed c =
        some (failed (result_of digest blob_unreadable reading_manifest), c)
    check_fetched check digest (bytes content) c = elim (lib.decode content) [
      | none ↦ some (failed (result_of digest blob_unreadable decoding_manifest), c)
      | some m ↦ check_manifest check m c
    ]

    -- Check, on fuel: the depth of manifests that it may descend
    unfoldable pub check : ℕ → Descriptor → Checker → Option (CheckResult × Checker)
    check zero desc c = none
    check (suc fuel) desc c =
        let (r, c') = check_memo desc c in
        elim (is_ok r.status) [
          | false ↦ some (failed r, c')
          | true ↦
              check_fetched (check fuel) desc.digest (fetch (blob_file lib disk desc.digest)) c'
        ]
