-- ===== src/Archives/Split.antt =====
-- pkg/archives/archiver.go, SplitArchive, and joinFiles of pkg/archives/unarchiver.go. The file
-- system's answers are arguments: how many bytes a read delivers, and which steps fail.
pub mod Lossless
pub mod Chunks
use hauler.Base.{
  ℕ, zero, suc, ◌+◌, ◌-◌, min, ltb, Bool, true, false, not, ◌&&◌, ◌*◌, is_some, Option, none, some,
  List, [], ◌∷◌, ◌++◌, Text, length, take, drop, if◌then◌else◌,
}
use hauler.Base.Int.{ℤ, pos, negsuc, is_positive, to_ℕ}

pub data SplitError : Type 0 where
  not_positive open_failed create_failed write_failed read_failed remove_failed : SplitError

-- Read number `step` delivers at most `suc (short step)` bytes; the other answers say which steps
-- succeed.
pub record SplitIo : Type 0 where
  pub short : ℕ → ℕ
  pub read : ℕ → Bool
  pub create : ℕ → Bool
  pub write : ℕ → Bool
  pub remove : Bool

-- The error, the chunk files in the order of their numbers, and whether the archive was removed.
pub record SplitOut : Type 0 where
  pub error : Option SplitError
  pub files : List Text
  pub removed : Bool

abbrev pub buffer_size : ℕ
buffer_size = 32 * 1024

-- the chunk that is being written, where there is one
abbrev pub with_current : List Text → Option Text → List Text
with_current files none = files
with_current files (some content) = files ++ content ∷ []

abbrev pub stopped : SplitError → List Text → SplitOut
stopped e files = record { error = some e; files = files; removed = false }

-- after the last read: the archive is removed
abbrev pub finished : SplitIo → List Text → SplitOut
finished io files =
    if io.remove
    then record { error = none; files = files; removed = true }
    else stopped remove_failed files

abbrev pub content_of : Option Text → Text
content_of none = []
content_of (some content) = content

-- the loop of SplitArchive, on fuel for its reads: the closed chunks, the open one, the bytes written
-- to it and the bytes of the archive that are still to read
unfoldable pub split_loop :
    SplitIo → ℕ → ℕ → ℕ → List Text → Option Text → ℕ → Text → Option SplitOut
split_loop io max_bytes zero step files current written [] = none
split_loop io max_bytes zero step files current written (b ∷ archive) = none
split_loop io max_bytes (suc fuel) step files current written [] = some (
    if io.read step
    then finished io (with_current files current)
    else stopped read_failed (with_current files current))
split_loop io max_bytes (suc fuel) step files current written (b ∷ archive) =
    let read_size = min buffer_size (max_bytes - written) in
    let n = min (min read_size (suc (io.short step))) (length (b ∷ archive)) in
    let content = content_of current ++ take n (b ∷ archive) in
    let closed =
      split_loop io max_bytes fuel (suc step) (files ++ content ∷ []) none 0
        (drop n (b ∷ archive)) in
    let opened =
      split_loop io max_bytes fuel (suc step) files (some content) (written + n)
        (drop n (b ∷ archive)) in
    if not (io.read step)
    then some (stopped read_failed (with_current files current))
    else if not (is_some current) && not (io.create (suc (length files)))
    then some (stopped create_failed files)
    else if not (io.write step)
    then some (stopped write_failed (with_current files (some (content_of current))))
    else if ltb (written + n) max_bytes
    then opened
    else closed

-- SplitArchive; `opens` says whether os.Open succeeds
unfoldable pub split_archive : Bool → SplitIo → ℤ → Text → Option SplitOut
split_archive opens io max_bytes archive =
    if not (is_positive max_bytes)
    then some (stopped not_positive [])
    else if not opens
    then some (stopped open_failed [])
    else split_loop io (to_ℕ max_bytes) (suc (length archive)) 0 [] none 0 archive

-- joinFiles, where every chunk can be read: their contents in order
pub join_files : List Text → Text
join_files [] = []
join_files (f ∷ files) = f ++ join_files files
