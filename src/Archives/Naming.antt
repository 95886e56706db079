-- ===== src/Archives/Naming.antt =====
-- pkg/archives/unarchiver.go, chunkInfo, legacyChunkInfo, ChunkGroupKey and JoinChunks, and the chunk
-- names of SplitArchive. A name stands for a path in one directory, which all the names share; Glob is
-- an argument, and chunks of the same number keep the order in which it lists them.
pub mod Numbers
pub mod Ordered
use hauler.Base.{
  ℕ, zero, suc, ◌+◌, ◌*◌, ◌^◌, ◌-◌, ◌/◌, ◌%◌, ◌==◌, ltb, leb, Bool, true, false, not, ◌&&◌, ◌||◌,
  Option, none, some, List, [], ◌∷◌, ◌++◌, Text, codes, text_eq, contains_byte, cut_byte, length,
  if◌then◌else◌,
}
use hauler.Content.Index.{sort_stable}

abbrev is_digit : ℕ → Bool
is_digit c = leb 48 c && leb c 57

unfoldable pub all_digits : Text → Bool
all_digits [] = true
all_digits (c ∷ s) = is_digit c && all_digits s

-- the number that digits denote after those of `acc`
unfoldable pub value_from : ℕ → Text → ℕ
value_from acc [] = acc
value_from acc (c ∷ s) = value_from (acc * 10 + (c - 48)) s

-- strconv.Atoi of a text of digits, which fails past 64 bits
unfoldable pub atoi : Text → Option ℕ
unfolding value_from
atoi s = if ltb (value_from 0 s) (2 ^ 63) then some (value_from 0 s) else none

-- the parts around the last byte `sep`
unfoldable pub split_last : ℕ → Text → Option (Text × Text)
split_last sep [] = none
split_last sep (c ∷ s) = elim (split_last sep s) [
  | some (before, after) ↦ some (c ∷ before, after)
  | none ↦ if c == sep then some ([], s) else none
]

-- chunkInfo: the base and the number of `<base>.NNN`
unfoldable pub chunk_info : Text → Option (Text × ℕ)
unfolding split_last all_digits atoi contains_byte
chunk_info name = elim (split_last b'.' name) [
  | none ↦ none
  | some (base, number) ↦
      if text_eq base []
        || contains_byte b'\n' base
        || ltb (length number) 3
        || not (all_digits number)
      then none
      else elim (atoi number) [
        | none ↦ none
        | some idx ↦ if idx == 0 then none else some (base, idx)
      ]
]

is_alphanumeric : ℕ → Bool
is_alphanumeric c = is_digit c || (leb 65 c && leb c 90) || (leb 97 c && leb c 122)

all_alphanumeric : Text → Bool
unfolding is_alphanumeric
all_alphanumeric [] = true
all_alphanumeric (c ∷ s) = is_alphanumeric c && all_alphanumeric s

is_word : Text → Bool
unfolding all_alphanumeric
is_word s = not (text_eq s []) && all_alphanumeric s

-- one extension, or two with a dot between them
is_extension : Text → Bool
unfolding is_word contains_byte cut_byte
is_extension s =
    let (first, second) = cut_byte b'.' s in
    if contains_byte b'.' s then is_word first && is_word second else is_word s

-- digits without a leading zero
is_plain_number : Text → Bool
unfolding all_digits
is_plain_number [] = false
is_plain_number (c ∷ s) = if c == 48 then text_eq s [] else is_digit c && all_digits s

-- legacyChunkInfo: the base, the extension and the number of `<base>_N<ext>`
legacy_chunk_info : Text → Option (Text × Text × ℕ)
unfolding cut_byte split_last is_extension is_plain_number atoi contains_byte
legacy_chunk_info name =
    let (head, ext) = cut_byte b'.' name in
    elim (split_last b'_' head) [
      | none ↦ none
      | some (base, number) ↦
          if text_eq base []
            || contains_byte b'/' base
            || not (is_plain_number number)
            || not (is_extension ext)
          then none
          else elim (atoi number) [ none ↦ none | some idx ↦ some (base, codes "." ++ ext, idx) ]
    ]

-- ChunkGroupKey
chunk_group_key : Text → Option Text
unfolding chunk_info legacy_chunk_info
chunk_group_key name = elim (chunk_info name) [
  | some (base, idx) ↦ some base
  | none ↦ elim (legacy_chunk_info name) [
    | some (base, ext, idx) ↦ some (base ++ ext)
    | none ↦ none
  ]
]

-- What JoinChunks does: nothing, or joinFiles of these names into a file of that name.
pub data Joining : Type 0 where
  unchanged : Joining
  joining : List Text → Text → Joining

-- the chunks of the group `base` among the names, with their numbers
unfoldable pub group_of : Text → List Text → List (ℕ × Text)
unfolding chunk_info
group_of base [] = []
group_of base (m ∷ ms) =
    let rest = group_of base ms in
    elim (chunk_info m) [
      | none ↦ rest
      | some (m_base, idx) ↦ if text_eq m_base base then (idx, m) ∷ rest else rest
    ]

legacy_group_of : Text → Text → List Text → List (ℕ × Text)
unfolding legacy_chunk_info
legacy_group_of base ext [] = []
legacy_group_of base ext (m ∷ ms) =
    let rest = legacy_group_of base ext ms in
    elim (legacy_chunk_info m) [
      | none ↦ rest
      | some (m_base, m_ext, idx) ↦
          if text_eq m_base base && text_eq m_ext ext then (idx, m) ∷ rest else rest
    ]

names_of : List (ℕ × Text) → List Text
names_of [] = []
names_of ((idx, m) ∷ ms) = m ∷ names_of ms

-- in numeric order
pub join_matches : Text → List (ℕ × Text) → Joining
unfolding names_of
join_matches name [] = unchanged
join_matches name (m ∷ ms) = joining (names_of (sort_stable (λ a b. ltb a.0 b.0) (m ∷ ms))) name

-- JoinChunks
pub join_chunks : (glob : Text → Option (List Text)) → Text → Joining
unfolding chunk_info legacy_chunk_info group_of legacy_group_of join_matches
join_chunks glob name = elim (chunk_info name) [
  | some (base, idx) ↦ elim (glob (base ++ codes ".*")) [
    | none ↦ unchanged
    | some all ↦ join_matches base (group_of base all)
  ]
  | none ↦ elim (legacy_chunk_info name) [
    | none ↦ unchanged
    | some (base, ext, idx) ↦ elim (glob (base ++ codes "_*" ++ ext)) [
      | none ↦ unchanged
      | some all ↦ join_matches (base ++ ext) (legacy_group_of base ext all)
    ]
  ]
]

-- the decimal digits of a number, on fuel for their count
unfoldable pub digits : ℕ → ℕ → Text
digits zero n = []
digits (suc fuel) n =
    let rest = digits fuel (n / 10) in
    if ltb n 10 then (48 + n) ∷ [] else rest ++ (48 + n % 10) ∷ []

-- fmt.Sprintf("%03d", n)
unfoldable pub padded : ℕ → Text
unfolding digits
padded n =
    let ds = digits (suc n) n in
    if ltb n 10 then 48 ∷ 48 ∷ ds else if ltb n 100 then 48 ∷ ds else ds

-- the name of a chunk of SplitArchive
unfoldable pub chunk_name : Text → ℕ → Text
unfolding padded
chunk_name archive idx = archive ++ b'.' ∷ padded idx
