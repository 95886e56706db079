-- ===== src/Tests/Chunks.antt =====
-- A directory that lists the second chunk of an archive before the first, and a chunk of another.
use hauler.Base.{◌≡◌, refl, some, [], ◌∷◌, Text, codes, text_eq, contains_byte}
use hauler.Archives.Naming.{
  joining, chunk_info, chunk_name, group_of, join_chunks, split_last, all_digits, atoi, value_from,
  padded, digits,
}
use hauler.Archives.Naming.Ordered.{Lists, nothing, a_chunk, another, join_chunks-Lists}

abbrev archive : Text
archive = codes "haul.tar.zst"

abbrev first_chunk : Text
first_chunk = codes "haul.tar.zst.001"

abbrev second_chunk : Text
second_chunk = codes "haul.tar.zst.002"

abbrev other_chunk : Text
other_chunk = codes "haul.tar.zst.old.001"

listing : Lists archive 2 (second_chunk ∷ other_chunk ∷ first_chunk ∷ [])
unfolding group_of chunk_info split_last all_digits atoi value_from text_eq contains_byte chunk_name
    padded digits
listing =
    a_chunk 1 [] (other_chunk ∷ first_chunk ∷ [])
      (another 1 other_chunk [] (first_chunk ∷ []) refl (a_chunk 0 [] [] nothing))

join_chunks-Lists_example :
    join_chunks (λ pattern. some (second_chunk ∷ other_chunk ∷ first_chunk ∷ [])) second_chunk
    ≡ joining (first_chunk ∷ second_chunk ∷ []) archive
unfolding chunk_name padded digits text_eq contains_byte
join_chunks-Lists_example =
    join_chunks-Lists archive refl refl
      (λ pattern. some (second_chunk ∷ other_chunk ∷ first_chunk ∷ [])) 1 2
      (second_chunk ∷ other_chunk ∷ first_chunk ∷ []) refl listing refl refl refl
