-- ===== src/Store/Inventory/Lookup.antt =====
-- What an update of the inventory leaves to a lookup.
use hauler.Base.{
  ap, sym, text_eq_refl, none, ◌≡◌, refl, ◌∙◌, true, false, Option, some, [], ◌∷◌, Text, text_eq,
  text_eq_iff, Bool-cases, inl, inr, if◌then◌else◌, arith,
}
use mathlib.Core.Path.{subst}
use hauler.Base.Dict
use hauler.Base.Dict.{Dict, lookup-insert, lookup-insert_self, lookup-insert_ne}
use hauler.Store.Inventory.{
  InventoryEntry, StoreInventory, load_inventory, InventoryIo, save_inventory, matches_store_id,
  kept, update_store_inventory, resolve_store_id,
}

resolve-hit :
    (id : Text) (inv : StoreInventory) (entry : InventoryEntry)
    → Dict.lookup id inv ≡ some entry
    → resolve_store_id id (some inv) ≡ inr (id, entry.path)
unfolding resolve_store_id
resolve-hit id inv entry hit = rw (hit, resolve_store_id) refl

update-saved :
    (metadata : Text → Option Text) (io : InventoryIo) (now store_id path : Text)
    → (file : Option StoreInventory) → io.mkdir ≡ true
    → io.write ≡ true
    → io.rename ≡ true
    → update_store_inventory metadata io now store_id path file
      ≡ some (
          Dict.insert store_id
            (record { path = path; updated = now })
            (kept metadata store_id (load_inventory file)))
unfolding update_store_inventory save_inventory
update-saved metadata io now store_id path file makes writes renames =
    ground (arith, makes, writes, renames)

-- a Go map has one entry for a key
abbrev pub IsMap : StoreInventory → Type 0
IsMap [] = Unit
IsMap ((id, entry) ∷ inv) = (Dict.lookup id inv ≡ none) × IsMap inv

-- the entry of a store that is still at its path
abbrev pub still_there : (Text → Option Text) → Text → Option InventoryEntry → Option InventoryEntry
still_there metadata id none = none
still_there metadata id (some entry) =
    if matches_store_id metadata entry.path id then some entry else none

-- what the inventory has for an id: no entry, or one whose path is what the id resolves to
abbrev pub Resolves : Text → Option InventoryEntry → Option StoreInventory → Type 0
Resolves id none file = Dict.lookup id (load_inventory file) ≡ none
Resolves id (some entry) file = resolve_store_id id file ≡ inr (id, entry.path)

head-pruned :
    (metadata : Text → Option Text) (store_id : Text) (e : InventoryEntry) (inv : StoreInventory)
    (id : Text)
    → text_eq id store_id ≡ false
    → Dict.lookup id (kept metadata store_id inv) ≡ none
    → Dict.lookup id (kept metadata store_id ((id, e) ∷ inv))
      ≡ still_there metadata id (Dict.lookup id ((id, e) ∷ inv))
unfolding kept Dict.lookup
head-pruned metadata store_id e inv id other gone =
    elim (Bool-cases (matches_store_id metadata e.path id)) [
      | inl fits ↦ rw other (rw fits (rw (text_eq_refl id) (rw fits refl)))
      | inr stale ↦ rw other (rw stale (rw (text_eq_refl id) (rw stale gone)))
    ]

lookup-pruned :
    (metadata : Text → Option Text) (store_id : Text) (inv : StoreInventory) (id : Text)
    → IsMap inv
    → text_eq id store_id ≡ false
    → Dict.lookup id (kept metadata store_id inv) ≡ still_there metadata id (Dict.lookup id inv)
unfolding kept Dict.lookup
lookup-pruned metadata store_id [] id unique other = refl
lookup-pruned metadata store_id ((k, e) ∷ inv) id (fresh, unique) other =
    elim (Bool-cases (text_eq k id)) [
      | inr elsewhere ↦ ground (
        arith,
        elsewhere,
        other,
        text_eq_iff k store_id,
        text_eq_iff id store_id,
        lookup-pruned metadata store_id inv id unique other,
      )
      | inl here ↦
          let same : k ≡ id = (text_eq_iff k id).0 here in
          subst
            (λ (t : Text).
              Dict.lookup id (kept metadata store_id ((t, e) ∷ inv))
              ≡ still_there metadata id (Dict.lookup id ((t, e) ∷ inv)))
            (sym same)
            (head-pruned metadata store_id e inv id other (
              let gone : Dict.lookup id inv ≡ none =
                subst (λ (t : Text). Dict.lookup t inv ≡ none) same fresh in
              lookup-pruned metadata store_id inv id unique other
              ∙ ap (still_there metadata id) gone))
    ]

lookup-updated :
    (metadata : Text → Option Text) (store_id : Text) (fresh : InventoryEntry)
    (inv : StoreInventory) (id : Text)
    → IsMap inv
    → Dict.lookup id (Dict.insert store_id fresh (kept metadata store_id inv))
      ≡ (if text_eq store_id id then some fresh else still_there metadata id (Dict.lookup id inv))
lookup-updated metadata store_id fresh inv id unique =
    lookup-insert store_id id fresh (kept metadata store_id inv)
    ∙ elim (Bool-cases (text_eq store_id id)) [
      | inl same ↦ rw same refl
      | inr other ↦ rw other (
          lookup-pruned metadata store_id inv id unique
            (ground (arith, text_eq_iff store_id id, text_eq_iff id store_id, other)))
    ]

resolves :
    (id : Text) (o : Option InventoryEntry) (inv : StoreInventory)
    → Dict.lookup id inv ≡ o
    → Resolves id o (some inv)
resolves id none inv absent = absent
resolves id (some entry) inv hit = resolve-hit id inv entry hit

-- After an update whose save succeeds, whatever the inventory had before, even nothing, the store's id
-- resolves to the path that was given; and the id of every other store resolves to its path as before,
-- if it had an entry and is still at its path, and has no entry otherwise. The inventory that was
-- loaded is a map: it has one entry for an id.
pub resolve_store_id-update :
    (metadata : Text → Option Text) (io : InventoryIo) (now store_id path : Text)
    → (file : Option StoreInventory) → IsMap (load_inventory file)
    → io.mkdir ≡ true
    → io.write ≡ true
    → io.rename ≡ true
    → (id : Text)
    → let updated = update_store_inventory metadata io now store_id path file in
      (resolve_store_id store_id updated ≡ inr (store_id, path))
      × Resolves id
          (if text_eq store_id id
            then some (record { path = path; updated = now })
            else still_there metadata id (Dict.lookup id (load_inventory file)))
          updated
resolve_store_id-update metadata io now store_id path file unique makes writes renames id =
    let fresh : InventoryEntry = record { path = path; updated = now } in
    let inv = kept metadata store_id (load_inventory file) in
    rw (update-saved metadata io now store_id path file makes writes renames) (
      resolve-hit store_id (Dict.insert store_id fresh inv) fresh
          (lookup-insert_self store_id fresh inv),
      resolves id _ (Dict.insert store_id fresh inv)
          (lookup-updated metadata store_id fresh (load_inventory file) id unique),
    )
