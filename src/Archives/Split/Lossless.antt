-- ===== src/Archives/Split/Lossless.antt =====
-- Splitting loses nothing.
use hauler.Base.{
  some-injective, ℕ, zero, suc, ◌+◌, ◌-◌, min, ltb, ◌≡◌, refl, sym, ap, ◌∙◌, true, false, not, ◌&&◌,
  is_some, Option, none, some, List, [], ◌∷◌, ◌++◌, Text, length, take, drop, take-append-drop,
  Bool-cases, inl, inr, arith,
}
use hauler.Archives.Split.{
  SplitError, SplitIo, SplitOut, buffer_size, with_current, stopped, finished, content_of,
  split_loop, join_files,
}
use mathlib.Core.List.{append_assoc, append-nil}

join-append : (xs ys : List Text) → join_files (xs ++ ys) ≡ join_files xs ++ join_files ys
unfolding join_files
join-append [] ys = refl
join-append (x ∷ xs) ys =
    rw (join-append xs ys) (sym (append_assoc x (join_files xs) (join_files ys)))

-- what has been read so far, the open chunk last
join-current :
    (files : List Text) (current : Option Text)
    → join_files (with_current files current) ≡ join_files files ++ content_of current
unfolding join_files
join-current files none = sym (append-nil (join_files files))
join-current files (some content) =
    join-append files (content ∷ []) ∙ ap (λ x. join_files files ++ x) (append-nil content)

module _ (io : SplitIo) (max_bytes : ℕ) where
  pub finished-files : (files : List Text) → (finished io files).files ≡ files
  finished-files files = elim (Bool-cases io.remove) [
    | inl removes ↦ rw removes refl
    | inr fails ↦ rw fails refl
  ]

  finished-joins :
      (files : List Text)
      → (finished io files).removed ≡ true
      → join_files (finished io files).files ≡ join_files files
  finished-joins files h = elim (Bool-cases io.remove) [
    | inl removes ↦ rw removes refl
    | inr fails ↦ absurd (ground (arith, fails, h))
  ]

  pub stopped-keeps :
      (e : SplitError) (files : List Text) (out : SplitOut)
      → some (stopped e files) ≡ some out
      → out.removed ≡ false
  stopped-keeps e files out h = ap (λ (o : SplitOut). o.removed) (sym (some-injective h))

  -- the bytes of a chunk and those after it
  regroup :
      (before : Text) (n : ℕ) (archive : Text)
      → (before ++ take n archive) ++ drop n archive ≡ before ++ archive
  regroup before n archive =
      append_assoc before (take n archive) (drop n archive)
      ∙ ap (λ x. before ++ x) (take-append-drop n archive)

  pub loop-joins :
      (fuel step : ℕ) (files : List Text) (current : Option Text) (written : ℕ) (rest : Text)
      → (out : SplitOut) → split_loop io max_bytes fuel step files current written rest ≡ some out
      → out.removed ≡ true
      → join_files out.files ≡ join_files files ++ (content_of current ++ rest)
  unfolding split_loop
  loop-joins zero step files current written [] out h removed = cc
  loop-joins zero step files current written (b ∷ rest) out h removed = cc
  loop-joins (suc fuel) step files current written [] out h removed =
      elim (Bool-cases (io.read step)) [
        | inr bad ↦ cc (stopped-keeps _ _ out (rw (bad, split_loop) at h))
        | inl good ↦
            let same : finished io (with_current files current) ≡ out =
              some-injective (rw (good, split_loop) at h) in
            ap (λ (o : SplitOut). join_files o.files) (sym same)
            ∙ finished-joins (with_current files current)
                (ap (λ (o : SplitOut). o.removed) same ∙ removed)
            ∙ join-current files current
            ∙ ap (λ x. join_files files ++ x) (sym (append-nil (content_of current)))
      ]
  loop-joins (suc fuel) step files current written (b ∷ rest) out h removed =
      elim (Bool-cases (io.read step)) [
        | inr bad ↦ cc (stopped-keeps _ _ out (rw (bad, split_loop) at h))
        | inl good ↦
            elim (Bool-cases (not (is_some current) && not (io.create (suc (length files))))) [
              | inl bad ↦ cc (stopped-keeps _ _ out (rw (good, bad, split_loop) at h))
              | inr created ↦ elim (Bool-cases (io.write step)) [
                | inr bad ↦ cc (stopped-keeps _ _ out (rw (good, created, bad, split_loop) at h))
                | inl wrote ↦
                    let n =
                      min (min (min buffer_size (max_bytes - written)) (suc (io.short step)))
                        (length (b ∷ rest)) in
                    let content = content_of current ++ take n (b ∷ rest) in
                    elim (Bool-cases (ltb (written + n) max_bytes)) [
                      | inl more ↦
                          loop-joins fuel (suc step) files (some content) (written + n)
                            (drop n (b ∷ rest)) out
                            (rw (good, created, wrote, more, split_loop) at h) removed
                          ∙ ap (λ x. join_files files ++ x)
                              (regroup (content_of current) n (b ∷ rest))
                      | inr full ↦
                          loop-joins fuel (suc step) (files ++ content ∷ []) none 0
                            (drop n (b ∷ rest)) out
                            (rw (good, created, wrote, full, split_loop) at h) removed
                          ∙ ap (λ x. x ++ drop n (b ∷ rest)) (join-current files (some content))
                          ∙ append_assoc (join_files files) content (drop n (b ∷ rest))
                          ∙ ap (λ x. join_files files ++ x)
                              (regroup (content_of current) n (b ∷ rest))
                    ]
              ]
            ]
      ]
