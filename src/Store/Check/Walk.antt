-- ===== src/Store/Check/Walk.antt =====
-- Check against the descriptor graph: what an OK result says of every blob of the graph.
use mathlib.Core.Path.{subst}
use mathlib.Core.List.{Memᴰ}
use hauler.Base.{
  ◌≤◌, ℕ, zero, suc, ◌≡◌, refl, ◌∙◌, ap, sym, true, not, Option, some, List, [], ◌∷◌, ◌++◌, Text,
  All, Option-cases, Bool-cases, inl, inr, if◌then◌else◌, arith,
}
use hauler.Content.Descriptor.{Descriptor}
use hauler.Store.Manifest.{
  Manifest, BlobLib, Disk, blob_file, Fetched, fetch_failed, read_failed, bytes, fetch,
}
use hauler.Store.Check.{
  failed, new_checker, hash_count, BlobResult, CheckResult, is_ok, Checker, check_memo,
  check_leaves, check_children, leaves, children, no_problems, check_manifest, check_fetched, check,
}
use hauler.Store.Check.Graph.{
  decoded, manifest_of, Reaches, itself, leaf, below, no_problems-append, All-Memᴰ,
}
use hauler.Store.Check.Memo.{
  new-IsSound, IsIntact, IsSound, check_memo-IsSound, check_memo-IsIntact,
}

module _ (lib : BlobLib) (disk : Disk) where
  abbrev pub AllIntact : Descriptor → Type 0
  AllIntact d = (e : Descriptor) → Reaches lib disk d e → IsIntact lib disk e.digest

  -- what one check of a child promises
  pub record Promises (d : Descriptor) (r : CheckResult) (c : Checker) : Type 0 where
    pub sound : IsSound lib disk c
    pub consistent : r.ok ≡ no_problems r.problems
    pub intact : r.ok ≡ true → AllIntact d

  leaves-IsIntact :
      (ds : List Descriptor) (c : Checker)
      → IsSound lib disk c
      → IsSound lib disk (check_leaves lib disk ds c).1
        × (no_problems (check_leaves lib disk ds c).0 ≡ true
            → All (λ d. IsIntact lib disk d.digest) ds)
  unfolding check_leaves no_problems
  leaves-IsIntact [] c s = (s, λ h. tt)
  leaves-IsIntact (d ∷ ds) c s =
      let (rest_sound, rest) =
        leaves-IsIntact ds (check_memo lib disk d c).1 (check_memo-IsSound lib disk d c s) in
      (
        rest_sound,
        λ clean. elim (Bool-cases (is_ok (check_memo lib disk d c).0.status)) [
          | inl ok ↦ (check_memo-IsIntact lib disk d c s ok, rest (rw ok at clean))
          | inr bad ↦ cc (rw bad at clean)
        ],
      )

  abbrev pub Check : Type 0
  Check = Descriptor → Checker → Option (CheckResult × Checker)

  abbrev pub Keeps : Check → Type 0
  Keeps check =
      (d : Descriptor) (c : Checker) (r : CheckResult) (c' : Checker)
      → IsSound lib disk c
      → check d c ≡ some (r, c')
      → Promises d r c'

  children-intact :
      (run : Check)
      → Keeps run
      → (ds : List Descriptor) (c : Checker) (problems : List BlobResult) (c' : Checker)
      → IsSound lib disk c
      → check_children run ds c ≡ some (problems, c')
      → IsSound lib disk c' × (no_problems problems ≡ true → All AllIntact ds)
  unfolding check_children
  children-intact run keeps [] c problems c' s h =
      let same : c ≡ c' = cc in (subst (IsSound lib disk) same s, λ clean. tt)
  children-intact run keeps (d ∷ ds) c problems c' s h = elim (Option-cases (run d c)) [
    | inl dry ↦ cc (rw (dry, check_children) at h)
    | inr ((r, c1), done) ↦ elim (Option-cases (check_children run ds c1)) [
      | inl dry ↦ absurd (ground (arith, done, dry))
      | inr ((rest, c2), rest_done) ↦
          let p = keeps d c r c1 s done in
          let (s2, rest_intact) = children-intact run keeps ds c1 rest c2 p.sound rest_done in
          let same : c2 ≡ c' = ground (arith, done, rest_done) in
          let split : (if not r.ok then r.problems ++ rest else rest) ≡ problems =
            ground (arith, done, rest_done) in
          (
            subst (IsSound lib disk) same s2,
            λ clean. elim (Bool-cases r.ok) [
              | inl ok ↦ (p.intact ok, rest_intact (ground (arith, ok, split)))
              | inr bad ↦
                  absurd
                    (ground (arith, bad, split, no_problems-append r.problems rest, p.consistent))
            ],
          )
    ]
  ]

  -- a manifest whose own blobs and children are intact
  manifest-intact :
      (d : Descriptor) (m : Manifest)
      → manifest_of lib disk d ≡ some m
      → IsIntact lib disk d.digest
      → All (λ e. IsIntact lib disk e.digest) (leaves lib m)
      → All AllIntact (children lib m)
      → AllIntact d
  manifest-intact d m at own ls cs e (itself d') = own
  manifest-intact d m at own ls cs e (leaf m' at' member) =
      let same : m' ≡ m = cc in
      All-Memᴰ (λ x. IsIntact lib disk x.digest) (leaves lib m) ls
        (subst (λ (n : Manifest). Memᴰ e (leaves lib n)) same member)
  manifest-intact d m at own ls cs e (below m' c at' member r) =
      let same : m' ≡ m = cc in
      All-Memᴰ AllIntact (children lib m) cs
        (subst (λ (n : Manifest). Memᴰ c (children lib n)) same member) e r

  -- a manifest's own blobs and children, gathered
  manifest-Promises :
      (run : Check)
      → Keeps run
      → (d : Descriptor) (m : Manifest) (c : Checker) (r : CheckResult) (c' : Checker)
      → manifest_of lib disk d ≡ some m
      → IsIntact lib disk d.digest
      → IsSound lib disk c
      → check_manifest lib disk run m c ≡ some (r, c')
      → Promises d r c'
  unfolding check_manifest
  manifest-Promises run keeps d m c r c' at own s h =
      let (s1, ls) = leaves-IsIntact (leaves lib m) c s in
      let (mine, c1) = check_leaves lib disk (leaves lib m) c in
      elim (Option-cases (check_children run (children lib m) c1)) [
        | inl dry ↦ absurd (ground (arith, dry))
        | inr ((rest, c2), done) ↦
            let (s2, cs) = children-intact run keeps (children lib m) c1 rest c2 s1 done in
            let same : c2 ≡ c' = ground (arith, done) in
            let all_problems : mine ++ rest ≡ r.problems = ground (arith, done) in
            let ok_lem : no_problems (mine ++ rest) ≡ r.ok = ground (arith, done) in
            record {
              sound = subst (IsSound lib disk) same s2;
              consistent = sym ok_lem ∙ ap no_problems all_problems;
              intact = λ ok.
                  manifest-intact d m at own
                    (ls (ground (arith, ok, ok_lem, no_problems-append mine rest)))
                    (cs (ground (arith, ok, ok_lem, no_problems-append mine rest)));
            }
      ]

  failed-Promises :
      (d : Descriptor) (r : CheckResult) (x : BlobResult) (c c' : Checker)
      → IsSound lib disk c
      → ◌≡◌ {A = Option (CheckResult × Checker)} (some (failed x, c)) (some (r, c'))
      → Promises d r c'
  unfolding no_problems
  failed-Promises d r x c c' s h = record {
    sound = let same : c ≡ c' = cc in subst (IsSound lib disk) same s;
    consistent =
        let same : failed x ≡ r = cc in
        subst (λ (q : CheckResult). q.ok ≡ no_problems q.problems) same refl;
    intact = λ ok. let same : failed x ≡ r = cc in cc (ok, ap (λ (q : CheckResult). q.ok) same);
  }

  fetched-Promises :
      (run : Check)
      → Keeps run
      → (d : Descriptor) (c : Checker) (r : CheckResult) (c' : Checker) → IsIntact lib disk d.digest
      → IsSound lib disk c
      → (f : Fetched) → fetch (blob_file lib disk d.digest) ≡ f
      → check_fetched lib disk run d.digest f c ≡ some (r, c')
      → Promises d r c'
  unfolding check_fetched manifest_of decoded
  fetched-Promises run keeps d c r c' own s fetch_failed got h = failed-Promises d r _ c c' s h
  fetched-Promises run keeps d c r c' own s read_failed got h = failed-Promises d r _ c c' s h
  fetched-Promises run keeps d c r c' own s (bytes content) got h =
      elim (Option-cases (lib.decode content)) [
        | inl malformed ↦ failed-Promises d r _ c c' s (rw (malformed, check_fetched) at h)
        | inr (m, parsed) ↦
            manifest-Promises run keeps d m c r c' (rw got parsed) own s
              (rw (parsed, check_fetched) at h)
      ]

  pub check-Promises : (fuel : ℕ) → Keeps (check lib disk fuel)
  unfolding check
  check-Promises zero d c r c' s h = cc
  check-Promises (suc fuel) d c r c' s h =
      let s1 = check_memo-IsSound lib disk d c s in
      elim (Bool-cases (is_ok (check_memo lib disk d c).0.status)) [
        | inl ok ↦
            fetched-Promises (check lib disk fuel) (check-Promises fuel) d _ r c'
              (check_memo-IsIntact lib disk d c s ok) s1 _ refl (rw (ok, check) at h)
        | inr bad ↦ failed-Promises d r _ _ c' s1 (rw (bad, check) at h)
      ]

  -- When a Check with a new Checker reports OK, every blob of the graph is on disk, can be read and has
  -- the content of its digest.
  pub check-ok-IsIntact :
      (fuel : ℕ) (d : Descriptor) (r : CheckResult) (c : Checker)
      → check lib disk fuel d new_checker ≡ some (r, c)
      → r.ok ≡ true
      → (e : Descriptor) → Reaches lib disk d e
      → IsIntact lib disk e.digest
  check-ok-IsIntact fuel d r c h ok e reached =
      (check-Promises fuel d new_checker r c (new-IsSound lib disk) h).intact ok e reached

  -- A Check with a new Checker hashes no digest more than once, however many entries of the graph have
  -- it and however the check ends, and it reports OK exactly when it lists no problem.
  pub check-hashes_once :
      (fuel : ℕ) (d : Descriptor) (r : CheckResult) (c : Checker) (digest : Text)
      → check lib disk fuel d new_checker ≡ some (r, c)
      → (hash_count digest c ≤ 1) × (r.ok ≡ no_problems r.problems)
  check-hashes_once fuel d r c digest h =
      let p = check-Promises fuel d new_checker r c (new-IsSound lib disk) h in
      (ground (arith, p.sound.hashed digest), p.consistent)
