-- ===== src/Archives/Naming/Numbers.antt =====
-- pkg/archives: the number in the name of a chunk is read back from it.
use hauler.Base.{
  ℕ, zero, suc, ◌+◌, ◌*◌, ◌^◌, ◌-◌, ◌/◌, ◌%◌, ◌==◌, ltb, ◌≡◌, refl, ◌∙◌, true, false, Bool-cases,
  none, some, [], ◌∷◌, ◌++◌, Text, text_eq, contains_byte, length, length-append, inl, inr,
  if◌then◌else◌, arith,
}
use hauler.Archives.Naming.{
  all_digits, value_from, atoi, split_last, chunk_info, digits, padded, chunk_name,
}

value_from-append :
    (acc : ℕ) (s t : Text) → value_from acc (s ++ t) ≡ value_from (value_from acc s) t
unfolding value_from
value_from-append acc [] t = refl
value_from-append acc (c ∷ s) t = value_from-append (acc * 10 + (c - 48)) s t

all_digits-append :
    (s t : Text) → all_digits s ≡ true → all_digits t ≡ true → all_digits (s ++ t) ≡ true
unfolding all_digits
all_digits-append [] t hs ht = ht
all_digits-append (c ∷ s) t hs ht =
    ground (arith, hs, all_digits-append s t (ground (arith, hs)) ht)

smaller_quotient :
    (fuel n : ℕ) → ltb n (suc fuel) ≡ true → ltb n 10 ≡ false → ltb (n / 10) fuel ≡ true
smaller_quotient fuel n h big = ground arith

value_from-digits : (fuel n : ℕ) → ltb n fuel ≡ true → value_from 0 (digits fuel n) ≡ n
unfolding value_from digits
value_from-digits zero n h = absurd (ground (arith, h))
value_from-digits (suc fuel) n h = elim (Bool-cases (ltb n 10)) [
  | inl small ↦ rw small (ground arith)
  | inr big ↦ rw big (
      value_from-append 0 (digits fuel (n / 10)) ((48 + n % 10) ∷ [])
      ∙ ground (arith, value_from-digits fuel (n / 10) (smaller_quotient fuel n h big)))
]

all_digits-digits : (fuel n : ℕ) → all_digits (digits fuel n) ≡ true
unfolding all_digits digits
all_digits-digits zero n = refl
all_digits-digits (suc fuel) n = elim (Bool-cases (ltb n 10)) [
  | inl small ↦ rw small (ground arith)
  | inr big ↦ rw big (
      all_digits-append (digits fuel (n / 10)) ((48 + n % 10) ∷ [])
        (all_digits-digits fuel (n / 10)) (ground arith))
]

length-digits :
    (fuel n : ℕ)
    → ltb n 10 ≡ false
    → length (digits (suc fuel) n) ≡ suc (length (digits fuel (n / 10)))
unfolding digits
length-digits fuel n big =
    rw big (ground (arith, length-append (digits fuel (n / 10)) ((48 + n % 10) ∷ [])))

split_last-digits : (t : Text) → all_digits t ≡ true → split_last b'.' t ≡ none
unfolding split_last all_digits
split_last-digits [] h = refl
split_last-digits (c ∷ t) h = rw (split_last-digits t (ground (arith, h))) (ground (arith, h))

split_last-append :
    (s t : Text) → all_digits t ≡ true → split_last b'.' (s ++ (b'.' ∷ t)) ≡ some (s, t)
unfolding split_last
split_last-append [] t h = rw (split_last-digits t h) refl
split_last-append (c ∷ s) t h = rw (split_last-append s t h) refl

-- the three digits or more of a chunk's number
padded-digits : (n : ℕ) → all_digits (padded n) ≡ true
unfolding padded all_digits
padded-digits n = ground (arith, all_digits-digits (suc n) n)

padded-value : (n : ℕ) → value_from 0 (padded n) ≡ n
unfolding padded value_from
padded-value n = ground (arith, value_from-digits (suc n) n)

digits-positive : (fuel n : ℕ) → ltb 0 (length (digits (suc fuel) n)) ≡ true
unfolding digits
digits-positive fuel n = elim (Bool-cases (ltb n 10)) [
  | inl small ↦ rw small refl
  | inr big ↦ rw big (ground (arith, length-append (digits fuel (n / 10)) ((48 + n % 10) ∷ [])))
]

two_digits : (n : ℕ) → ltb n 10 ≡ false → ltb (length (digits (suc n) n)) 2 ≡ false
two_digits zero big = absurd (ground (arith, big))
two_digits (suc k) big =
    ground (arith, length-digits (suc k) (suc k) big, digits-positive k (suc k / 10))

long_digits : (n : ℕ) → ltb n 100 ≡ false → ltb (length (digits (suc n) n)) 3 ≡ false
long_digits zero big = absurd (ground (arith, big))
long_digits (suc zero) big = absurd (ground (arith, big))
long_digits (suc (suc k)) big =
    let n = suc (suc k) in
    ground (
      arith,
      length-digits n n (ground (arith, big)),
      length-digits (suc k) (n / 10) (ground (arith, big)),
      digits-positive k (n / 10 / 10),
    )

unpadded :
    (n : ℕ) (ds : Text)
    → ltb n 10 ≡ false
    → ltb n 100 ≡ false
    → (if ltb n 10 then 48 ∷ 48 ∷ ds else if ltb n 100 then 48 ∷ ds else ds) ≡ ds
unpadded n ds medium big = rw medium (rw big refl)

padded_lem : (n : ℕ) → ltb n 10 ≡ false → ltb n 100 ≡ false → padded n ≡ digits (suc n) n
unfolding padded
padded_lem n medium big = unpadded n (digits (suc n) n) medium big

padded-long : (n : ℕ) → ltb n 10 ≡ false → ltb n 100 ≡ false → ltb (length (padded n)) 3 ≡ false
padded-long n medium big = rw (padded_lem n medium big) (long_digits n big)

padded-length : (n : ℕ) → ltb (length (padded n)) 3 ≡ false
unfolding padded
padded-length n = elim (Bool-cases (ltb n 10)) [
  | inl small ↦ rw small (ground (arith, digits-positive n n))
  | inr medium ↦ elim (Bool-cases (ltb n 100)) [
    | inl small ↦ rw medium (rw small (ground (arith, two_digits n medium)))
    | inr big ↦ padded-long n medium big
  ]
]

atoi-padded : (n : ℕ) → ltb n (2 ^ 63) ≡ true → atoi (padded n) ≡ some n
unfolding atoi
atoi-padded n small = rw (padded-value n) (rw small refl)

chunk_info_lem :
    (name base number : Text) (idx : ℕ)
    → split_last b'.' name ≡ some (base, number)
    → text_eq base [] ≡ false
    → contains_byte b'\n' base ≡ false
    → ltb (length number) 3 ≡ false
    → all_digits number ≡ true
    → atoi number ≡ some idx
    → (idx == 0) ≡ false
    → chunk_info name ≡ some (base, idx)
unfolding chunk_info
chunk_info_lem name base number idx split named one_line long all parsed positive =
    rw (split, chunk_info)
      (rw named (rw one_line (rw long (rw all (rw parsed (rw positive refl))))))

-- The name that SplitArchive gives to a chunk is recognised by chunkInfo, with the archive and the
-- number of the chunk, if the archive's name is not empty and has no line feed, and the number is
-- positive and fits in 63 bits: JoinChunks finds the chunks by these.
pub chunk_info-chunk_name :
    (archive : Text) (idx : ℕ)
    → text_eq archive [] ≡ false
    → contains_byte b'\n' archive ≡ false
    → (idx == 0) ≡ false
    → ltb idx (2 ^ 63) ≡ true
    → chunk_info (chunk_name archive idx) ≡ some (archive, idx)
unfolding chunk_name
chunk_info-chunk_name archive idx named one_line positive small =
    chunk_info_lem (chunk_name archive idx) archive (padded idx) idx
      (split_last-append archive (padded idx) (padded-digits idx)) named one_line
      (padded-length idx) (padded-digits idx) (atoi-padded idx small) positive
