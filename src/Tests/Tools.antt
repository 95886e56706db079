-- ===== src/Tests/Tools.antt =====
-- Retries, flags, chunks, paths, inventories and kinds at concrete inputs.
use hauler.Base.{
  has_prefix, All, min, max, ℕ, zero, suc, ◌*◌, ◌^◌, ◌≤◌, ◌<◌, ◌≡◌, refl, Bool, true, false, Option,
  none, some, [], ◌∷◌, Text, codes, text_eq, length, All, ltb, if◌then◌else◌, inr, arith, is_some,
}
use hauler.Base.Dict
use hauler.Base.Dict.{Dict}
use hauler.Base.Int.{ℤ, pos, negsuc}
use hauler.Content.Descriptor.{Descriptor}
use hauler.Archives.Split.{SplitIo, SplitOut, split_archive, split_loop, join_files}
use hauler.Archives.Split.Chunks.{IsChunk, split_archive-total, split_archive-lossless}
use hauler.Retry.{unsuccessful, retry_operation}
use hauler.Retry.Attempts.{
  answer, state_after, last_error, retry_operation-succeeds, retry_operation-gives_up,
}
use hauler.Paths.{
  enter_all, enter, segments, parent, rendered, below, join, rel, has_base, secure_path, leaves,
}
use hauler.Paths.Inside.{IsClean, secure_path-inside}
use hauler.Mapper.{title_key, file_layer, files, push}
use hauler.Mapper.Traversal.{push-inside}
use hauler.Flags.{blob_concurrency_for}
use hauler.Flags.Resolving.{blob_concurrency_for-range, blob_concurrency_for-exact}
use hauler.Store.Inventory.{
  InventoryEntry, StoreInventory, InventoryIo, load_inventory, update_store_inventory,
  resolve_store_id,
}
use hauler.Store.Inventory.Lookup.{IsMap, resolve_store_id-update}

abbrev split_io : SplitIo
split_io = record {
  short = λ step. 1;
  read = λ step. true;
  create = λ index. true;
  write = λ step. true;
  remove = true;
}

abbrev seven_bytes : Text
seven_bytes = codes "archive"

split_archive-total_example :
    (out : SplitOut) × (split_archive true split_io (pos 3) seven_bytes ≡ some out)
split_archive-total_example = split_archive-total true split_io (pos 3) seven_bytes

abbrev three_chunks : SplitOut
three_chunks = record {
  error = none;
  files = codes "arc" ∷ codes "hiv" ∷ codes "e" ∷ [];
  removed = true;
}

split_archive-lossless_example :
    (join_files three_chunks.files ≡ seven_bytes) × All (IsChunk 3) three_chunks.files
unfolding split_archive split_loop
split_archive-lossless_example =
    split_archive-lossless true split_io (pos 3) seven_bytes three_chunks refl refl

-- an operation that counts its calls and fails twice
abbrev third_time : ℕ → Option ℕ × ℕ
third_time n = ((if ltb n 2 then some n else none), suc n)

abbrev always : ℕ → ℕ → Bool
always x k = true

fails_twice : (j : ℕ) → j < 2 → is_some (answer third_time j 0) ≡ true
unfolding answer
fails_twice zero lower = refl
fails_twice (suc zero) lower = refl
fails_twice (suc (suc j)) lower = absurd (omega arith)

retry_operation-succeeds_example :
    let r = retry_operation third_time (λ e. false) (λ k. true) (λ k. true) true (negsuc 0) 0 in
    (r.result ≡ none)
    × (r.state ≡ state_after third_time 3 0)
    × (r.calls ≡ 3)
    × (length r.lines ≡ 2)
unfolding answer
retry_operation-succeeds_example =
    retry_operation-succeeds third_time (λ e. false) (λ k. true) (λ k. true) true (λ k. refl)
      (λ k. refl) (negsuc 0) 2 0 (omega arith) fails_twice refl

fails_at_both : (j : ℕ) → j < 2 → is_some (answer third_time j 0) ≡ true
fails_at_both j lower = fails_twice j lower

retry_operation-gives_up_example :
    let r = retry_operation third_time (λ e. false) (λ k. true) (λ k. true) false (pos 2) 0 in
    (r.result ≡ some (unsuccessful 2 (last_error third_time 2 none 0)))
    × (r.calls ≡ 2)
    × (length r.lines ≡ 2)
retry_operation-gives_up_example =
    retry_operation-gives_up third_time (λ e. false) (λ k. true) (λ k. true) false (λ k. refl)
      (λ k. refl) (pos 2) 0 fails_at_both

-- below the root every name but that of the root itself is refused
refused_below_root : secure_path true [] (codes "etc/passwd") ≡ none
unfolding secure_path join enter_all enter segments parent rendered below has_prefix text_eq
refused_below_root = refl

secure_path-inside_example :
    (secure_path true (codes "store" ∷ []) (codes "../../etc/passwd")
      ≡ some (codes "store" ∷ codes "etc" ∷ codes "passwd" ∷ []))
    × All IsClean (join [] (codes "../../etc/passwd"))
unfolding join enter_all enter segments parent text_eq
secure_path-inside_example = secure_path-inside true (codes "store" ∷ []) (codes "../../etc/passwd")

abbrev titled : Descriptor
titled = record {
  media_type = file_layer;
  digest = codes "d";
  size = pos 1;
  urls = [];
  annotations = (title_key, codes "sub/../file.txt") ∷ [];
  payload = [];
  platform = none;
  artifact_type = [];
}

push-inside_example : has_base (codes "out" ∷ []) (codes "out" ∷ codes "file.txt" ∷ []) ≡ true
unfolding push files Dict.lookup text_eq leaves rel join
push-inside_example =
    push-inside files (codes "out" ∷ []) titled (codes "out" ∷ codes "file.txt" ∷ []) refl

blob_concurrency_for-range_example :
    (k : ℕ) × (blob_concurrency_for (pos (2 ^ 62)) ≡ pos k) × (16 ≤ k) × (k ≤ 32)
blob_concurrency_for-range_example = blob_concurrency_for-range (pos (2 ^ 62))

blob_concurrency_for-exact_example : blob_concurrency_for (pos 5) ≡ pos (min 32 (max 16 (4 * 5)))
blob_concurrency_for-exact_example = blob_concurrency_for-exact 5 (omega arith)

abbrev no_env : Text → Text
no_env name = []

abbrev no_number : Text → Option ℤ
no_number s = none

abbrev entry_at : Text → InventoryEntry
entry_at path = record { path = path; updated = codes "then" }

abbrev two_stores : Option StoreInventory
two_stores = some ((codes "id1", entry_at (codes "p1")) ∷ (codes "id2", entry_at (codes "p2")) ∷ [])

abbrev all_fine : InventoryIo
all_fine = record { mkdir = true; write = true; rename = true }

abbrev metadata : Text → Option Text
metadata path = if text_eq path (codes "p2") then some (codes "id2") else none

two_stores-IsMap : IsMap (load_inventory two_stores)
unfolding Dict.lookup text_eq
two_stores-IsMap = (refl, (refl, tt))

resolve_store_id-update_example :
    let updated =
      update_store_inventory metadata all_fine
        (codes "now")
        (codes "id3")
        (codes "p3")
        two_stores in
    (resolve_store_id (codes "id3") updated ≡ inr (codes "id3", codes "p3"))
    × (resolve_store_id (codes "id2") updated ≡ inr (codes "id2", codes "p2"))
unfolding Dict.lookup text_eq
resolve_store_id-update_example =
    resolve_store_id-update metadata all_fine (codes "now") (codes "id3") (codes "p3") two_stores
      two_stores-IsMap refl refl refl (codes "id2")
