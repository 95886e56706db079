-- ===== src/Flags/Resolving.antt =====
-- The ranges of the values that the flags resolve to.
use hauler.Base.{
  min, max, inr-injective, sum-cases, ℕ, zero, suc, ◌*◌, ◌^◌, ◌≤◌, ◌<◌, ltb, ◌≡◌, refl, true, false,
  Option, none, some, Text, text_eq, Bool-cases, Option-cases, sum-cases, if◌then◌else◌, ◌⊎◌, inl,
  inr, arith, [],
}
use hauler.Base.Int.{ℤ, pos, negsuc, is_positive, eq_ℤ}
use hauler.Consts.{default_retries}
use hauler.Flags.{
  FlagError, bad_value, bad_variable, is_negative, wrap_int, four_times, below, above,
  blob_concurrency_for, resolve_blob_concurrency, sync_blob_concurrency, resolve_retries,
  hauler_blob_concurrency, hauler_retries,
}

clamped-range :
    (n : ℤ)
    → (k : ℕ) × ((if above (if below n 16 then pos 16 else n) 32
          then pos 32
          else (if below n 16 then pos 16 else n))
        ≡ pos k)
      × (16 ≤ k)
      × (k ≤ 32)
clamped-range (pos n) = elim (Bool-cases (ltb n 16)) [
  | inl low ↦ (16, rw low refl, omega arith, omega arith)
  | inr high ↦ elim (Bool-cases (ltb 32 n)) [
    | inl over ↦ (32, rw (high, over) refl, omega arith, omega arith)
    | inr fits ↦ (n, rw (high, fits) refl, ground (arith, high), ground (arith, fits))
  ]
]
clamped-range (negsuc n) = (16, refl, omega arith, omega arith)

-- Whatever the concurrency, a 4 * concurrency that wraps around included, the derived ceiling is from
-- 16 to 32.
pub blob_concurrency_for-range :
    (c : ℤ) → (k : ℕ) × (blob_concurrency_for c ≡ pos k) × (16 ≤ k) × (k ≤ 32)
unfolding blob_concurrency_for
blob_concurrency_for-range c = clamped-range (wrap_int (four_times c))

-- Below 2 ^ 61 the derived ceiling is max(16, 4 * concurrency), capped at 32.
pub blob_concurrency_for-exact :
    (n : ℕ) → n < 2 ^ 61 → blob_concurrency_for (pos n) ≡ pos (min 32 (max 16 (4 * n)))
unfolding blob_concurrency_for wrap_int
blob_concurrency_for-exact n small = ground (arith, small)

positive : (k : ℕ) → 1 ≤ k → is_positive (pos k) ≡ true
positive zero low = absurd (omega arith)
positive (suc k) low = refl

above_zero : (n : ℤ) → below n 1 ≡ false → is_positive n ≡ true
above_zero (pos zero) h = cc
above_zero (pos (suc n)) h = refl
above_zero (negsuc n) h = cc

derived-positive : (c : ℤ) → is_positive (blob_concurrency_for c) ≡ true
derived-positive c =
    let (k, at, low, high) = blob_concurrency_for-range c in rw at (positive k (omega arith))

module _ (getenv : Text → Text) (atoi : Text → Option ℤ) where
  resolve_blob-nonnegative :
      (flag_value n : ℤ)
      → resolve_blob_concurrency getenv atoi flag_value ≡ inr n
      → eq_ℤ 0 n ≡ false
      → is_positive n ≡ true
  unfolding resolve_blob_concurrency
  resolve_blob-nonnegative flag_value n h nonzero = elim (Bool-cases (is_negative flag_value)) [
    | inl bad ↦ cc (rw (bad, resolve_blob_concurrency) at h)
    | inr fine ↦ elim (Bool-cases (is_positive flag_value)) [
      | inl set ↦
          let same : flag_value ≡ n =
            inr-injective (rw (fine, set, resolve_blob_concurrency) at h) in
          rw (← same) set
      | inr unset ↦
          by_variable (getenv hauler_blob_concurrency)
            (rw (fine, unset, resolve_blob_concurrency) at h)
    ]
  ]
    where
      by_variable :
          (v : Text)
          → (if text_eq v [] then inr (pos 0) else elim (atoi v) as (λ x. FlagError ⊎ ℤ) [
            | none ↦ inl (bad_value v)
            | some n ↦ if below n 1 then inl (bad_variable n) else inr n
          ])
            ≡ inr n
          → is_positive n ≡ true
      by_variable v h = elim (Bool-cases (text_eq v [])) [
        | inl unset ↦
            let same : pos 0 ≡ n = inr-injective (rw unset at h) in cc (rw (← same) at nonzero)
        | inr set ↦ elim (Option-cases (atoi v)) [
          | inl malformed ↦ cc (rw (set, malformed) at h)
          | inr (k, parsed) ↦ elim (Bool-cases (below k 1)) [
            | inl low ↦ cc (rw (set, parsed, low) at h)
            | inr good ↦
                let same : k ≡ n = inr-injective (rw (set, parsed, good) at h) in
                rw (← same) (above_zero k good)
          ]
        ]
      ]

  -- The ceiling that `store sync` resolves is never 0 and never negative.
  sync_blob_concurrency-positive :
      (blob_flag_value concurrency n : ℤ)
      → sync_blob_concurrency getenv atoi blob_flag_value concurrency ≡ inr n
      → is_positive n ≡ true
  unfolding sync_blob_concurrency
  sync_blob_concurrency-positive blob_flag_value concurrency n h =
      elim (sum-cases (resolve_blob_concurrency getenv atoi blob_flag_value)) [
        | inl (x, bad) ↦ cc (rw (bad, sync_blob_concurrency) at h)
        | inr (bc, good) ↦
            let at : (if eq_ℤ 0 bc then blob_concurrency_for concurrency else bc) ≡ n =
              inr-injective (rw (good, sync_blob_concurrency) at h) in
            elim (Bool-cases (eq_ℤ 0 bc)) [
              | inl auto ↦ rw (← at) (rw auto (derived-positive concurrency))
              | inr nonzero ↦
                  rw (← at) (rw nonzero (resolve_blob-nonnegative blob_flag_value bc good nonzero))
            ]
      ]

  -- The number of retries that is resolved is never 0 and never negative.
  pub resolve_retries-positive :
      (flag_value n : ℤ) → resolve_retries getenv atoi flag_value ≡ inr n → is_positive n ≡ true
  unfolding resolve_retries
  resolve_retries-positive flag_value n h = elim (Bool-cases (is_negative flag_value)) [
    | inl bad ↦ cc (rw (bad, resolve_retries) at h)
    | inr fine ↦ elim (Bool-cases (is_positive flag_value)) [
      | inl set ↦
          let same : flag_value ≡ n = inr-injective (rw (fine, set, resolve_retries) at h) in
          rw (← same) set
      | inr unset ↦ by_variable (getenv hauler_retries) (rw (fine, unset, resolve_retries) at h)
    ]
  ]
    where
      by_variable :
          (v : Text)
          → (if text_eq v []
              then inr (pos default_retries)
              else elim (atoi v) as (λ x. FlagError ⊎ ℤ) [
                | none ↦ inl (bad_value v)
                | some n ↦
                    if is_negative n
                    then inl (bad_variable n)
                    else if below n 1
                    then inr (pos default_retries)
                    else inr n
              ])
            ≡ inr n
          → is_positive n ≡ true
      by_variable v h = elim (Bool-cases (text_eq v [])) [
        | inl unset ↦
            let same : pos default_retries ≡ n = inr-injective (rw unset at h) in rw (← same) refl
        | inr set ↦ elim (Option-cases (atoi v)) [
          | inl malformed ↦ cc (rw (set, malformed) at h)
          | inr (k, parsed) ↦ elim (Bool-cases (is_negative k)) [
            | inl bad ↦ cc (rw (set, parsed, bad) at h)
            | inr natural ↦ elim (Bool-cases (below k 1)) [
              | inl low ↦
                  let same : pos default_retries ≡ n =
                    inr-injective (rw (set, parsed, natural, low) at h) in
                  rw (← same) refl
              | inr good ↦
                  let same : k ≡ n = inr-injective (rw (set, parsed, natural, good) at h) in
                  rw (← same) (above_zero k good)
            ]
          ]
        ]
      ]
