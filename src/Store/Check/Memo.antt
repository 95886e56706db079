-- ===== src/Store/Check/Memo.antt =====
-- The memo of a Checker: a blob that is reported intact is intact, and no digest is hashed twice.
use mathlib.Core.Path.{subst}
use hauler.Base.{
  sym, suc, ◌+◌, ◌≤◌, ◌≡◌, refl, ◌⊎◌, inl, inr, true, false, none, some, Text, text_eq, text_eq_iff,
  Option-cases, Bool-cases, if◌then◌else◌, is_some, arith,
}
use hauler.Base.Dict
use hauler.Base.Dict.{Dict, lookup-insert}
use hauler.Content.Descriptor.{Descriptor}
use hauler.Store.Manifest.{BlobLib, BlobFile, missing, stat_failed, file, Disk, blob_file}
use hauler.Store.Check.{
  BlobResult, is_ok, Checker, new_checker, hash_count, record_hash, check_blob, check_file,
  hash_content, check_memo,
}

module _ (lib : BlobLib) (disk : Disk) where
  -- the file of the digest is there, can be read, and has content of that digest
  pub record IsIntact (digest : Text) : Type 0 where
    pub content : Text
    pub on_disk : blob_file lib disk digest ≡ file content true true
    pub exact : lib.verified digest content ≡ true

  -- A Checker's state: what it reported intact is intact, and only memoized digests were hashed, once.
  pub record IsSound (c : Checker) : Type 0 where
    pub intact :
        (digest : Text) (r : BlobResult)
        → Dict.lookup digest c.memo ≡ some r
        → is_ok r.status ≡ true
        → IsIntact digest
    pub hashed :
        (digest : Text)
        → hash_count digest c ≤ (if is_some (Dict.lookup digest c.memo) then 1 else 0)

  pub new-IsSound : IsSound new_checker
  unfolding Dict.lookup Dict.get_or
  new-IsSound = record { intact = λ digest r h ok. cc; hashed = λ digest. omega arith }

  -- a blob is reported intact exactly on a readable file of the right size and digest
  check_file-ok :
      (desc : Descriptor) (f : BlobFile) (c : Checker)
      → is_ok (check_file lib desc f c).0.status ≡ true
      → (content : Text) × (f ≡ file content true true) × (lib.verified desc.digest content ≡ true)
  unfolding check_file hash_content
  check_file-ok desc missing c h = cc
  check_file-ok desc stat_failed c h = cc
  check_file-ok desc (file content opens reads) c h = (content, ground arith, ground arith)

  count-record_hash :
      (k j : Text) (c : Checker)
      → hash_count j (record_hash k c)
        ≡ (if text_eq k j then suc (hash_count k c) else hash_count j c)
  unfolding record_hash Dict.get_or
  count-record_hash k j c = ground (arith, lookup-insert k j (suc (hash_count k c)) c.hash_counts)

  -- a check hashes its own digest at most once more, no other, and leaves the memo
  count-check_file :
      (desc : Descriptor) (f : BlobFile) (c : Checker) (digest : Text)
      → (hash_count digest (check_file lib desc f c).1
          ≤ hash_count digest c + (if text_eq desc.digest digest then 1 else 0))
        × ((check_file lib desc f c).1.memo ≡ c.memo)
  unfolding check_file hash_content
  count-check_file desc missing c digest = (omega arith, refl)
  count-check_file desc stat_failed c digest = (omega arith, refl)
  count-check_file desc (file content opens reads) c digest = (
    ground (arith, count-record_hash desc.digest digest c, text_eq_iff desc.digest digest),
    unfold record_hash in ground arith,
  )

  memo-hit :
      (desc : Descriptor) (c : Checker) {r : BlobResult}
      → Dict.lookup desc.digest c.memo ≡ some r
      → check_memo lib disk desc c ≡ (r, c)
  unfolding check_memo
  memo-hit desc c hit = rw (hit, check_memo) refl

  -- a digest that the memo lacks is checked, and the memo gets the result
  module _ (desc : Descriptor) (c : Checker) (s : IsSound c)
      (miss : Dict.lookup desc.digest c.memo ≡ none) where
    abbrev checked : BlobResult × Checker
    checked = check_file lib desc (blob_file lib disk desc.digest) c

    abbrev noted : Checker
    noted = record checked.1 { memo = Dict.insert desc.digest checked.0 checked.1.memo }

    memo-miss : check_memo lib disk desc c ≡ (checked.0, noted)
    unfolding check_memo check_blob
    memo-miss = rw (miss, check_memo) refl

    checked-IsIntact : is_ok checked.0.status ≡ true → IsIntact desc.digest
    checked-IsIntact ok =
        let (content, on_disk, exact) = check_file-ok desc (blob_file lib disk desc.digest) c ok in
        record { content = content; on_disk = on_disk; exact = exact }

    noted-IsSound : IsSound noted
    noted-IsSound = record {
      intact =
          λ digest r known ok. by_test digest r known ok (Bool-cases (text_eq desc.digest digest));
      hashed = λ digest.
          let (grown, kept) = count-check_file desc (blob_file lib disk desc.digest) c digest in
          ground (
            arith,
            grown,
            kept,
            s.hashed digest,
            lookup-insert desc.digest digest checked.0 checked.1.memo,
            text_eq_iff desc.digest digest,
          );
    }
      where
        by_test :
            (digest : Text) (r : BlobResult)
            → Dict.lookup digest noted.memo ≡ some r
            → is_ok r.status ≡ true
            → (text_eq desc.digest digest ≡ true) ⊎ (text_eq desc.digest digest ≡ false)
            → IsIntact digest
        by_test digest r known ok (inl same) =
            let here : checked.0 ≡ r =
              ground (arith, lookup-insert desc.digest digest checked.0 checked.1.memo) in
            subst IsIntact ((text_eq_iff desc.digest digest).0 same)
              (checked-IsIntact (subst (λ (x : BlobResult). is_ok x.status ≡ true) (sym here) ok))
        by_test digest r known ok (inr other) =
            let (_, kept) = count-check_file desc (blob_file lib disk desc.digest) c digest in
            s.intact digest r
              (ground (arith, kept, lookup-insert desc.digest digest checked.0 checked.1.memo)) ok

  pub check_memo-IsSound :
      (desc : Descriptor) (c : Checker) → IsSound c → IsSound (check_memo lib disk desc c).1
  check_memo-IsSound desc c s = elim (Option-cases (Dict.lookup desc.digest c.memo)) [
    | inl miss ↦ rw (memo-miss desc c s miss) (noted-IsSound desc c s miss)
    | inr (r, hit) ↦ rw (memo-hit desc c hit) s
  ]

  -- what the memo answers for a descriptor that it reports intact
  pub check_memo-IsIntact :
      (desc : Descriptor) (c : Checker)
      → IsSound c
      → is_ok (check_memo lib disk desc c).0.status ≡ true
      → IsIntact desc.digest
  check_memo-IsIntact desc c s ok = elim (Option-cases (Dict.lookup desc.digest c.memo)) [
    | inl miss ↦ checked-IsIntact desc c s miss (rw (memo-miss desc c s miss) at ok)
    | inr (r, hit) ↦ s.intact desc.digest r hit (rw (memo-hit desc c hit) at ok)
  ]
