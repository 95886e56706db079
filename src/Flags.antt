-- ===== src/Flags.antt =====
-- internal/flags: concurrency.go, retries.go and ignore_errors.go. The environment and strconv.Atoi
-- are parameters; an int is a ℤ with the wrap-around of 64 bits.
pub mod Resolving
use hauler.Base.{
  ℕ, suc, ◌+◌, ◌*◌, ◌-◌, ◌%◌, ◌^◌, ltb, Bool, true, false, Option, none, some, List, [], ◌∷◌, Text,
  codes, text_eq, if◌then◌else◌, ◌⊎◌, inl, inr,
}
use hauler.Base.Int.{ℤ, pos, negsuc, is_positive, eq_ℤ}
use hauler.Consts.{default_concurrency, default_blob_concurrency, default_retries}

abbrev pub hauler_concurrency : Text
hauler_concurrency = codes "HAULER_CONCURRENCY"

abbrev pub hauler_blob_concurrency : Text
hauler_blob_concurrency = codes "HAULER_BLOB_CONCURRENCY"

abbrev pub hauler_retries : Text
hauler_retries = codes "HAULER_RETRIES"

abbrev pub hauler_ignore_errors : Text
hauler_ignore_errors = codes "HAULER_IGNORE_ERRORS"

-- the flag that is out of range, or the variable that is not a number or out of range
pub data FlagError : Type 0 where
  bad_flag : ℤ → FlagError
  bad_value : Text → FlagError
  bad_variable : ℤ → FlagError

abbrev pub is_negative : ℤ → Bool
is_negative (pos n) = false
is_negative (negsuc n) = true

-- the 64 bits of a result, read as a signed integer
pub wrap_int : ℤ → ℤ
wrap_int (pos n) = let r = n % 2 ^ 64 in if ltb r (2 ^ 63) then pos r else negsuc (2 ^ 64 - 1 - r)
wrap_int (negsuc n) =
    let r = n % 2 ^ 64 in if ltb r (2 ^ 63) then negsuc r else pos (2 ^ 64 - 1 - r)

abbrev pub four_times : ℤ → ℤ
four_times (pos n) = pos (4 * n)
four_times (negsuc n) = negsuc (4 * n + 3)

-- n < b
abbrev pub below : ℤ → ℕ → Bool
below (pos n) b = ltb n b
below (negsuc n) b = true

-- b < n
abbrev pub above : ℤ → ℕ → Bool
above (pos n) b = ltb b n
above (negsuc n) b = false

-- BlobConcurrencyFor
pub blob_concurrency_for : ℤ → ℤ
unfolding wrap_int
blob_concurrency_for concurrency =
    let n = wrap_int (four_times concurrency) in
    let floored = if below n default_blob_concurrency then pos default_blob_concurrency else n in
    if above floored 32 then pos 32 else floored

module _ (getenv : Text → Text) (atoi : Text → Option ℤ) where
  -- ResolveConcurrency
  pub resolve_concurrency : Bool → ℤ → FlagError ⊎ ℤ
  resolve_concurrency flag_changed flag_value =
      let v = getenv hauler_concurrency in
      if flag_changed
      then (if below flag_value 1 then inl (bad_flag flag_value) else inr flag_value)
      else if text_eq v []
      then inr (pos default_concurrency)
      else elim (atoi v) [
        | none ↦ inl (bad_value v)
        | some n ↦ if below n 1 then inl (bad_variable n) else inr n
      ]

  -- ResolveBlobConcurrency
  pub resolve_blob_concurrency : ℤ → FlagError ⊎ ℤ
  resolve_blob_concurrency flag_value =
      let v = getenv hauler_blob_concurrency in
      if is_negative flag_value
      then inl (bad_flag flag_value)
      else if is_positive flag_value
      then inr flag_value
      else if text_eq v []
      then inr (pos 0)
      else elim (atoi v) [
        | none ↦ inl (bad_value v)
        | some n ↦ if below n 1 then inl (bad_variable n) else inr n
      ]

  -- SyncBlobConcurrency
  pub sync_blob_concurrency : ℤ → ℤ → FlagError ⊎ ℤ
  sync_blob_concurrency blob_flag_value concurrency =
      elim (resolve_blob_concurrency blob_flag_value) [
        | inl x ↦ inl x
        | inr bc ↦ inr (if eq_ℤ 0 bc then blob_concurrency_for concurrency else bc)
      ]

  -- ResolveRetries
  pub resolve_retries : ℤ → FlagError ⊎ ℤ
  resolve_retries flag_value =
      let v = getenv hauler_retries in
      if is_negative flag_value
      then inl (bad_flag flag_value)
      else if is_positive flag_value
      then inr flag_value
      else if text_eq v []
      then inr (pos default_retries)
      else elim (atoi v) [
        | none ↦ inl (bad_value v)
        | some n ↦
            if is_negative n
            then inl (bad_variable n)
            else if below n 1
            then inr (pos default_retries)
            else inr n
      ]

  -- ShouldIgnoreErrors: `none` is a nil option record
  pub should_ignore_errors : Option Bool → Bool
  should_ignore_errors none = false
  should_ignore_errors (some ignore_errors) =
      if ignore_errors then true else text_eq (getenv hauler_ignore_errors) (codes "true")
