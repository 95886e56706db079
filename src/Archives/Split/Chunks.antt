-- ===== src/Archives/Split/Chunks.antt =====
-- The chunks that a split makes.
use mathlib.Core.Path.{subst}
use hauler.Base.{
  some-injective, ℕ, zero, suc, ◌+◌, ◌-◌, ◌≤◌, ◌<◌, min, ltb, ◌≡◌, refl, sym, ap, ◌∙◌, Bool, true,
  false, not, ◌&&◌, is_some, Option, none, some, List, [], ◌∷◌, ◌++◌, Text, length, take, drop,
  length-take, length-drop, length-append, All, Bool-cases, inl, inr, arith,
}
use hauler.Base.Int.{ℤ, pos, negsuc, is_positive, to_ℕ}
use hauler.Archives.Split.{
  not_positive, open_failed, read_failed, create_failed, write_failed, SplitIo, SplitOut,
  buffer_size, with_current, stopped, finished, content_of, split_loop, split_archive, join_files,
}
use hauler.Archives.Split.Lossless.{loop-joins, finished-files, stopped-keeps}

All-snoc : (P : Text → Type 0) (xs : List Text) {y : Text} → All P xs → P y → All P (xs ++ y ∷ [])
All-snoc P [] all last = (last, tt)
All-snoc P (x ∷ xs) (first, rest) last = (first, All-snoc P xs rest last)

-- not empty, and not above the size asked for
abbrev pub IsChunk : ℕ → Text → Type 0
IsChunk max_bytes f = (1 ≤ length f) × (length f ≤ max_bytes)

positive_ℕ : (n : ℤ) → not (is_positive n) ≡ false → 0 < to_ℕ n
positive_ℕ (pos zero) h = cc
positive_ℕ (pos (suc n)) h = omega arith
positive_ℕ (negsuc n) h = cc

module _ (io : SplitIo) (max_bytes : ℕ) where
  -- the open chunk, which has room
  IsOpen : Option Text → ℕ → Type 0
  IsOpen none written = written ≡ 0
  IsOpen (some content) written = (1 ≤ written) × (length content ≡ written)

  with_current-chunks :
      (files : List Text) (current : Option Text) (written : ℕ)
      → All (IsChunk max_bytes) files
      → IsOpen current written
      → written < max_bytes
      → All (IsChunk max_bytes) (with_current files current)
  unfolding IsOpen
  with_current-chunks files none written all is_open room = all
  with_current-chunks files (some content) written all (begun, same) room =
      All-snoc (IsChunk max_bytes) files all (omega (arith, begun, same), omega (arith, same, room))

  -- a read adds at least a byte, and no more than there is room for
  read-length :
      (current : Option Text) (written n : ℕ) (archive : Text)
      → IsOpen current written
      → n ≤ length archive
      → length (content_of current ++ take n archive) ≡ written + n
  unfolding IsOpen
  read-length none written n archive is_open fits =
      omega (arith, length-take n archive, is_open, fits)
  read-length (some content) written n archive (begun, same) fits =
      omega (arith, length-append content (take n archive), length-take n archive, same, fits)

  loop-chunks :
      (fuel step : ℕ) (files : List Text) (current : Option Text) (written : ℕ) (rest : Text)
      → (out : SplitOut) → split_loop io max_bytes fuel step files current written rest ≡ some out
      → out.removed ≡ true
      → All (IsChunk max_bytes) files
      → IsOpen current written
      → written < max_bytes
      → All (IsChunk max_bytes) out.files
  unfolding split_loop IsOpen
  loop-chunks zero step files current written [] out h removed all is_open room = cc
  loop-chunks zero step files current written (b ∷ rest) out h removed all is_open room = cc
  loop-chunks (suc fuel) step files current written [] out h removed all is_open room =
      elim (Bool-cases (io.read step)) [
        | inr bad ↦ cc (stopped-keeps io max_bytes _ _ out (rw (bad, split_loop) at h))
        | inl good ↦
            let same : finished io (with_current files current) ≡ out =
              some-injective (rw (good, split_loop) at h) in
            subst (All (IsChunk max_bytes))
              (sym (finished-files io max_bytes (with_current files current))
                ∙ ap (λ (o : SplitOut). o.files) same)
              (with_current-chunks files current written all is_open room)
      ]
  loop-chunks (suc fuel) step files current written (b ∷ rest) out h removed all is_open room =
      elim (Bool-cases (io.read step)) [
        | inr bad ↦ cc (stopped-keeps io max_bytes _ _ out (rw (bad, split_loop) at h))
        | inl good ↦
            elim (Bool-cases (not (is_some current) && not (io.create (suc (length files))))) [
              | inl bad ↦ cc (stopped-keeps io max_bytes _ _ out (rw (good, bad, split_loop) at h))
              | inr created ↦ elim (Bool-cases (io.write step)) [
                | inr bad ↦
                    cc (
                      stopped-keeps io max_bytes _ _ out (rw (good, created, bad, split_loop) at h))
                | inl wrote ↦
                    let n =
                      min (min (min buffer_size (max_bytes - written)) (suc (io.short step)))
                        (length (b ∷ rest)) in
                    let content = content_of current ++ take n (b ∷ rest) in
                    let sized = read-length current written n (b ∷ rest) is_open (omega arith) in
                    elim (Bool-cases (ltb (written + n) max_bytes)) [
                      | inl more ↦
                          loop-chunks fuel (suc step) files (some content) (written + n)
                            (drop n (b ∷ rest)) out
                            (rw (good, created, wrote, more, split_loop) at h) removed all
                            (omega (arith, room), sized) (ground (arith, more))
                      | inr full ↦
                          loop-chunks fuel (suc step) (files ++ content ∷ []) none 0
                            (drop n (b ∷ rest)) out
                            (rw (good, created, wrote, full, split_loop) at h) removed
                            (All-snoc (IsChunk max_bytes) files all
                              (omega (arith, sized, room), omega (arith, sized, room)))
                            refl (omega (arith, room))
                    ]
              ]
            ]
      ]

  loop-total :
      (fuel step : ℕ) (files : List Text) (current : Option Text) (written : ℕ) (rest : Text)
      → length rest < fuel
      → written < max_bytes
      → (out : SplitOut) × (split_loop io max_bytes fuel step files current written rest ≡ some out)
  unfolding split_loop
  loop-total zero step files current written rest enough room = absurd (omega arith)
  loop-total (suc fuel) step files current written [] enough room = (_, refl)
  loop-total (suc fuel) step files current written (b ∷ rest) enough room =
      let n =
        min (min (min buffer_size (max_bytes - written)) (suc (io.short step)))
          (length (b ∷ rest)) in
      let content = content_of current ++ take n (b ∷ rest) in
      let shorter = length-drop n (b ∷ rest) in
      elim (Bool-cases (io.read step)) [
        | inr bad ↦ (stopped read_failed (with_current files current), rw (bad, split_loop) refl)
        | inl good ↦
            elim (Bool-cases (not (is_some current) && not (io.create (suc (length files))))) [
              | inl bad ↦ (stopped create_failed files, rw (good, bad, split_loop) refl)
              | inr created ↦ elim (Bool-cases (io.write step)) [
                | inr bad ↦ (
                  stopped write_failed (with_current files (some (content_of current))),
                  rw (good, created, bad, split_loop) refl,
                )
                | inl wrote ↦ elim (Bool-cases (ltb (written + n) max_bytes)) [
                  | inl more ↦
                      let (out, done) =
                        loop-total fuel (suc step) files (some content) (written + n)
                          (drop n (b ∷ rest)) (omega (arith, shorter, enough, room))
                          (ground (arith, more)) in
                      (out, rw (good, created, wrote, more, split_loop) done)
                  | inr full ↦
                      let (out, done) =
                        loop-total fuel (suc step) (files ++ content ∷ []) none 0
                          (drop n (b ∷ rest)) (omega (arith, shorter, enough, room))
                          (omega (arith, room)) in
                      (out, rw (good, created, wrote, full, split_loop) done)
                ]
              ]
            ]
      ]

-- A split ends, whatever the reads and writes answer.
pub split_archive-total :
    (opens : Bool) (io : SplitIo) (max_bytes : ℤ) (archive : Text)
    → (out : SplitOut) × (split_archive opens io max_bytes archive ≡ some out)
unfolding split_archive
split_archive-total opens io max_bytes archive = elim (Bool-cases (not (is_positive max_bytes))) [
  | inl bad ↦ (stopped not_positive [], rw (bad, split_archive) refl)
  | inr good ↦ elim (Bool-cases opens) [
    | inr bad ↦ (stopped open_failed [], rw (good, bad, split_archive) refl)
    | inl opened ↦
        let (out, done) =
          loop-total io (to_ℕ max_bytes) (suc (length archive)) 0 [] none 0 archive (omega arith)
            (positive_ℕ max_bytes good) in
        (out, rw (good, opened, split_archive) done)
  ]
]

-- When a split has removed the archive, the chunk files joined in order are the archive, and each is
-- not empty and not above the size asked for.
pub split_archive-lossless :
    (opens : Bool) (io : SplitIo) (max_bytes : ℤ) (archive : Text) (out : SplitOut)
    → split_archive opens io max_bytes archive ≡ some out
    → out.removed ≡ true
    → (join_files out.files ≡ archive) × All (IsChunk (to_ℕ max_bytes)) out.files
unfolding split_archive join_files IsOpen
split_archive-lossless opens io max_bytes archive out h removed =
    elim (Bool-cases (not (is_positive max_bytes))) [
      | inl bad ↦ cc (stopped-keeps io (to_ℕ max_bytes) _ _ out (rw (bad, split_archive) at h))
      | inr good ↦ elim (Bool-cases opens) [
        | inr bad ↦
            cc (stopped-keeps io (to_ℕ max_bytes) _ _ out (rw (good, bad, split_archive) at h))
        | inl opened ↦
            let run = rw (good, opened, split_archive) at h in
            (
              loop-joins io (to_ℕ max_bytes) (suc (length archive)) 0 [] none 0 archive out run
                  removed,
              loop-chunks io (to_ℕ max_bytes) (suc (length archive)) 0 [] none 0 archive out run
                  removed tt refl (positive_ℕ max_bytes good),
            )
      ]
    ]
