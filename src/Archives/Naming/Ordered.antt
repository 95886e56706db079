-- ===== src/Archives/Naming/Ordered.antt =====
-- pkg/archives: the order in which JoinChunks joins the chunks that Glob answers.
use hauler.Base.{
  ℕ, zero, suc, ◌^◌, ◌==◌, ltb, ◌≡◌, refl, ap, sym, ◌∙◌, Bool, true, false, Bool-cases,
  Option-cases, Option, some, List, [], ◌∷◌, ◌++◌, Text, codes, text_eq, text_eq_refl,
  contains_byte, All, inl, inr, arith,
}
use mathlib.Core.Path.{subst}
use hauler.Content.Index.{insert_stable, sort_stable}
use hauler.Archives.Naming.{
  joining, chunk_info, chunk_name, group_of, names_of, join_matches, join_chunks,
}
use hauler.Archives.Naming.Numbers.{chunk_info-chunk_name}

abbrev Chunk : Type 0
Chunk = ℕ × Text

abbrev less : Chunk → Chunk → Bool
less a b = ltb a.0 b.0

abbrev IsBelow : ℕ → Chunk → Type 0
IsBelow k a = ltb a.0 k ≡ true

All-insert :
    (k : ℕ) (a : Chunk) (l : List Chunk)
    → IsBelow k a
    → All (IsBelow k) l
    → All (IsBelow k) (insert_stable less a l)
unfolding insert_stable
All-insert k a [] ha hl = (ha, tt)
All-insert k a (b ∷ l) ha (hb, hl) = elim (Bool-cases (less b a)) [
  | inl before ↦ rw before (hb, All-insert k a l ha hl)
  | inr after ↦ rw after (ha, (hb, hl))
]

All-sort : (k : ℕ) (l : List Chunk) → All (IsBelow k) l → All (IsBelow k) (sort_stable less l)
unfolding sort_stable
All-sort k [] h = tt
All-sort k (a ∷ l) (ha, h) = All-insert k a (sort_stable less l) ha (All-sort k l h)

-- the largest goes to the end
insert-largest :
    (k : ℕ) (c : Text) (l : List Chunk)
    → All (IsBelow k) l
    → insert_stable less (k, c) l ≡ l ++ (k, c) ∷ []
unfolding insert_stable
insert-largest k c [] h = refl
insert-largest k c (b ∷ l) (hb, h) = rw hb (ap (◌∷◌ b) (insert-largest k c l h))

asymmetric : (m n : ℕ) → ltb m n ≡ true → ltb n m ≡ false
asymmetric m n h = ground (arith, h)

insert-append :
    (k : ℕ) (c : Text) (a : Chunk) (l : List Chunk)
    → IsBelow k a
    → insert_stable less a (l ++ (k, c) ∷ []) ≡ insert_stable less a l ++ (k, c) ∷ []
unfolding insert_stable
insert-append k c a [] ha = rw (asymmetric a.0 k ha) refl
insert-append k c a (b ∷ l) ha = elim (Bool-cases (less b a)) [
  | inl before ↦ rw before (ap (◌∷◌ b) (insert-append k c a l ha))
  | inr after ↦ rw after refl
]

sort-largest :
    (k : ℕ) (c : Text) (xs ys : List Chunk)
    → All (IsBelow k) (xs ++ ys)
    → sort_stable less (xs ++ (k, c) ∷ ys) ≡ sort_stable less (xs ++ ys) ++ (k, c) ∷ []
unfolding sort_stable
sort-largest k c [] ys h = insert-largest k c (sort_stable less ys) (All-sort k ys h)
sort-largest k c (a ∷ xs) ys (ha, h) =
    ap (insert_stable less a) (sort-largest k c xs ys h)
    ∙ insert-append k c a (sort_stable less (xs ++ ys)) ha

group_of-append :
    (base : Text) (xs ys : List Text)
    → group_of base (xs ++ ys) ≡ group_of base xs ++ group_of base ys
unfolding group_of
group_of-append base [] ys = refl
group_of-append base (m ∷ xs) ys = elim (Option-cases (chunk_info m)) [
  | inl stray ↦ rw (stray, group_of) (group_of-append base xs ys)
  | inr ((m_base, idx), found) ↦
      rw (found, group_of)
        (elim (Bool-cases (text_eq m_base base)) [
          | inl same ↦ rw same (ap (◌∷◌ (idx, m)) (group_of-append base xs ys))
          | inr other ↦ rw other (group_of-append base xs ys)
        ])
]

names_of-append :
    (l : List Chunk) (k : ℕ) (c : Text) → names_of (l ++ (k, c) ∷ []) ≡ names_of l ++ c ∷ []
unfolding names_of
names_of-append [] k c = refl
names_of-append ((j, m) ∷ l) k c = ap (◌∷◌ m) (names_of-append l k c)

-- the names of the chunks 1 to n of an archive
abbrev pub chunk_names : Text → ℕ → List Text
chunk_names archive zero = []
chunk_names archive (suc n) = chunk_names archive n ++ chunk_name archive (suc n) ∷ []

abbrev numbered : Text → ℕ → List Chunk
numbered archive zero = []
numbered archive (suc n) = numbered archive n ++ (suc n, chunk_name archive (suc n)) ∷ []

-- An answer of Glob with the chunks 1 to n of an archive in any order, and of other files between them, which
-- are no chunks of it.
pub data Lists (archive : Text) : ℕ → List Text → Type 0 where
  nothing : Lists archive 0 []
  a_chunk :
      (n : ℕ) (xs ys : List Text)
      → Lists archive n (xs ++ ys)
      → Lists archive (suc n) (xs ++ chunk_name archive (suc n) ∷ ys)
  another :
      (n : ℕ) (m : Text) (xs ys : List Text)
      → group_of archive (m ∷ []) ≡ []
      → Lists archive n (xs ++ ys)
      → Lists archive n (xs ++ m ∷ ys)

All-weaker : (n : ℕ) (l : List Chunk) → All (IsBelow n) l → All (IsBelow (suc n)) l
All-weaker n [] h = tt
All-weaker n (a ∷ l) (ha, h) = (ground (arith, ha), All-weaker n l h)

All-between :
    (k : ℕ) (a : Chunk) (xs ys : List Chunk)
    → IsBelow k a
    → All (IsBelow k) (xs ++ ys)
    → All (IsBelow k) (xs ++ a ∷ ys)
All-between k a [] ys ha h = (ha, h)
All-between k a (b ∷ xs) ys ha (hb, h) = (hb, All-between k a xs ys ha h)

names_of-numbered : (archive : Text) (n : ℕ) → names_of (numbered archive n) ≡ chunk_names archive n
unfolding names_of
names_of-numbered archive zero = refl
names_of-numbered archive (suc n) =
    names_of-append (numbered archive n) (suc n) (chunk_name archive (suc n))
    ∙ ap (λ (l : List Text). l ++ chunk_name archive (suc n) ∷ []) (names_of-numbered archive n)

nonempty : (l : List Chunk) (a : Chunk) → [] ≡ l ++ a ∷ [] → ⊥
nonempty [] a h = cc
nonempty (b ∷ l) a h = cc

module _ (archive : Text) (named : text_eq archive [] ≡ false)
    (one_line : contains_byte b'\n' archive ≡ false) where
  chunk-group :
      (n : ℕ) (ys : List Text)
      → ltb (suc n) (2 ^ 63) ≡ true
      → group_of archive (chunk_name archive (suc n) ∷ ys)
        ≡ (suc n, chunk_name archive (suc n)) ∷ group_of archive ys
  unfolding group_of
  chunk-group n ys small =
      rw (chunk_info-chunk_name archive (suc n) named one_line (ground arith) small, group_of)
        (rw (text_eq_refl archive) refl)

  other-group :
      (m : Text) (ys : List Text)
      → group_of archive (m ∷ []) ≡ []
      → group_of archive (m ∷ ys) ≡ group_of archive ys
  other-group m ys other =
      group_of-append archive (m ∷ []) ys ∙ ap (λ (l : List Chunk). l ++ group_of archive ys) other

  -- the chunks of a listing, sorted, and how large their numbers are
  record Ordered (n : ℕ) (all : List Text) : Type 0 where
    sorted : sort_stable less (group_of archive all) ≡ numbered archive n
    below : All (IsBelow (suc n)) (group_of archive all)

  a_chunk-Ordered :
      (n : ℕ) (xs ys : List Text)
      → ltb (suc n) (2 ^ 63) ≡ true
      → Ordered n (xs ++ ys)
      → Ordered (suc n) (xs ++ chunk_name archive (suc n) ∷ ys)
  a_chunk-Ordered n xs ys small o =
      let c = chunk_name archive (suc n) in
      let apart = group_of-append archive xs ys in
      let together =
        group_of-append archive xs (c ∷ ys)
        ∙ ap (λ (l : List Chunk). group_of archive xs ++ l) (chunk-group n ys small) in
      let below = subst (All (IsBelow (suc n))) apart o.below in
      record {
        sorted =
            ap (sort_stable less) together
            ∙ sort-largest (suc n) c (group_of archive xs) (group_of archive ys) below
            ∙ ap (λ (l : List Chunk). sort_stable less l ++ (suc n, c) ∷ []) (sym apart)
            ∙ ap (λ (l : List Chunk). l ++ (suc n, c) ∷ []) o.sorted;
        below = subst (All (IsBelow (suc (suc n)))) (sym together) (
            All-between (suc (suc n)) (suc n, c) (group_of archive xs) (group_of archive ys)
              (ground arith)
              (All-weaker (suc n) (group_of archive xs ++ group_of archive ys) below));
      }

  listed-Ordered :
      (n : ℕ) (all : List Text) → ltb n (2 ^ 63) ≡ true → Lists archive n all → Ordered n all
  unfolding group_of sort_stable
  listed-Ordered _ _ small nothing = record { sorted = refl; below = tt }
  listed-Ordered _ _ small (a_chunk n xs ys l) =
      a_chunk-Ordered n xs ys small (listed-Ordered n (xs ++ ys) (ground (arith, small)) l)
  listed-Ordered _ _ small (another n m xs ys other l) =
      let same =
        group_of-append archive xs (m ∷ ys)
        ∙ ap (λ (g : List Chunk). group_of archive xs ++ g) (other-group m ys other)
        ∙ sym (group_of-append archive xs ys) in
      let o = listed-Ordered n (xs ++ ys) small l in
      record {
        sorted = ap (sort_stable less) same ∙ o.sorted;
        below = subst (All (IsBelow (suc n))) (sym same) o.below;
      }

  joined :
      (n : ℕ) (g : List Chunk)
      → sort_stable less g ≡ numbered archive (suc n)
      → join_matches archive g ≡ joining (chunk_names archive (suc n)) archive
  unfolding join_matches sort_stable
  joined n [] sorted =
      absurd (nonempty (numbered archive n) (suc n, chunk_name archive (suc n)) sorted)
  joined n (a ∷ g) sorted =
      ap (λ (l : List Chunk). joining (names_of l) archive) sorted
      ∙ ap (λ (l : List Text). joining l archive) (names_of-numbered archive (suc n))

  -- Whichever of its chunks JoinChunks is given, it joins all the chunks of the archive, in the order
  -- of their numbers and under the name of the archive, if Glob, called with the archive's name and
  -- ".*", answers the chunks that SplitArchive named, in any order and between any files that are no
  -- chunks of this archive, and their count fits in 63 bits; the archive's name is not empty and has no
  -- line feed. For a name with a metacharacter of Glob that need not be what the directory holds.
  pub join_chunks-Lists :
      (glob : Text → Option (List Text)) (n idx : ℕ) (all : List Text)
      → glob (archive ++ codes ".*") ≡ some all
      → Lists archive (suc n) all
      → ltb (suc n) (2 ^ 63) ≡ true
      → (idx == 0) ≡ false
      → ltb idx (suc (suc n)) ≡ true
      → join_chunks glob (chunk_name archive idx) ≡ joining (chunk_names archive (suc n)) archive
  unfolding join_chunks
  join_chunks-Lists glob n idx all listed l small positive within =
      let known =
        chunk_info-chunk_name archive idx named one_line positive (ground (arith, small, within)) in
      let o = listed-Ordered (suc n) all small l in
      rw (known, join_chunks) (rw listed (joined n (group_of archive all) o.sorted))
