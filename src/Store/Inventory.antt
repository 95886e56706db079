-- ===== src/Store/Inventory.antt =====
-- pkg/store/inventory.go: the last-known location of each store by its id. The inventory file is
-- `none` where it cannot be read or parsed; JSON and the metadata files are parameters.
pub mod Lookup
use hauler.Base.{
  ℕ, zero, suc, ◌==◌, Bool, true, false, not, ◌&&◌, Option, none, some, List, [], ◌∷◌, Text,
  text_eq, has_prefix, if◌then◌else◌, ◌⊎◌, inl, inr,
}
use hauler.Base.Dict
use hauler.Base.Dict.{Dict}

-- inventoryEntry
pub record InventoryEntry : Type 0 where
  pub path : Text
  pub updated : Text

abbrev pub StoreInventory : Type 0
StoreInventory = Dict InventoryEntry

-- loadInventory: an empty inventory where the file is missing or malformed
abbrev pub load_inventory : Option StoreInventory → StoreInventory
load_inventory none = []
load_inventory (some inv) = inv

-- the answers of MkdirAll, WriteFile and Rename
pub record InventoryIo : Type 0 where
  pub mkdir : Bool
  pub write : Bool
  pub rename : Bool

-- saveInventory: the file after it, and whether it succeeded
pub save_inventory :
    InventoryIo → StoreInventory → Option StoreInventory → Bool × Option StoreInventory
save_inventory io inv file =
    if not io.mkdir
    then (false, file)
    else if not io.write
    then (false, file)
    else if not io.rename
    then (false, file)
    else (true, some inv)

-- MatchesStoreID: `metadata` is the store id in the store.json below a path, where one can be read
abbrev pub matches_store_id : (Text → Option Text) → Text → Text → Bool
matches_store_id metadata path store_id = elim (metadata path) [
  | none ↦ false
  | some id ↦ text_eq id store_id
]

-- the entries that the update keeps
pub kept : (Text → Option Text) → Text → StoreInventory → StoreInventory
kept metadata store_id [] = []
kept metadata store_id ((id, entry) ∷ inv) =
    let rest = kept metadata store_id inv in
    if text_eq id store_id
    then (id, entry) ∷ rest
    else if not (matches_store_id metadata entry.path id)
    then rest
    else (id, entry) ∷ rest

-- updateStoreInventory, whose save may fail with a warning
pub update_store_inventory :
    (Text → Option Text)
    → InventoryIo
    → Text
    → Text
    → Text
    → Option StoreInventory
    → Option StoreInventory
unfolding Dict.insert kept save_inventory
update_store_inventory metadata io now store_id path file =
    (save_inventory io
      (Dict.insert store_id (record { path = path; updated = now })
        (kept metadata store_id (load_inventory file)))
      file).1

pub data InventoryError : Type 0 where
  no_store ambiguous : Text → InventoryError

-- the entries whose id has the prefix: their number and the last of them
pub prefix_matches : Text → StoreInventory → ℕ × Option (Text × Text)
prefix_matches prefix [] = (0, none)
prefix_matches prefix ((id, entry) ∷ inv) =
    let (count, last) = prefix_matches prefix inv in
    if has_prefix id prefix
    then (suc count, elim last [ none ↦ some (id, entry.path) | some l ↦ some l ])
    else (count, last)

-- by the number of matches; the last of one match is the match
pub resolved_prefix : Text → ℕ → Option (Text × Text) → InventoryError ⊎ Text × Text
resolved_prefix prefix zero last = inl (no_store prefix)
resolved_prefix prefix (suc zero) none = inr ([], [])
resolved_prefix prefix (suc zero) (some l) = inr l
resolved_prefix prefix (suc (suc n)) last = inl (ambiguous prefix)

-- ResolveStoreID
pub resolve_store_id : Text → Option StoreInventory → InventoryError ⊎ Text × Text
unfolding Dict.lookup prefix_matches resolved_prefix
resolve_store_id id_or_prefix file =
    let inv = load_inventory file in
    let (count, last) = prefix_matches id_or_prefix inv in
    elim (Dict.lookup id_or_prefix inv) [
      | some entry ↦ inr (id_or_prefix, entry.path)
      | none ↦ resolved_prefix id_or_prefix count last
    ]
