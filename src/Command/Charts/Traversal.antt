-- ===== src/Command/Charts/Traversal.antt =====
-- cmd/hauler/cli/store/add.go: what traverseChartLevels has fetched when it returns.
use hauler.Base.{
  ℕ, zero, suc, sum-cases, ◌≡◌, refl, sym, ap, ◌∙◌, List, [], ◌∷◌, ◌++◌, Text, All, ◌⊎◌, inl, inr,
  arith,
}
use mathlib.Core.Path.{subst}
use mathlib.Core.List.{append_assoc, append-nil}
use hauler.Store.Add.Images.{is_member}
use hauler.Command.Images.{ImageJob}
use hauler.Command.Charts.{
  ChartJob, Walked, keys, unseen, fetch_level, levels, traverse_chart_levels, max_chart_depth,
}
use hauler.Command.Charts.Keys.{
  Seen, Fresh, Same, keys-append, member-append, unseen-Same, unseen-Seen, unseen-Fresh, Fresh-Same,
  Fresh-append, Seen-Same, Seen-left, All-append, All-join,
}

module _ {E : Type 0} (fetch : ChartJob → E ⊎ (List ImageJob × List ChartJob)) where
  -- the images of the charts, in the order in which they are fetched
  pub collected : List ChartJob → List ImageJob
  collected [] = []
  collected (j ∷ js) = elim (fetch j) [
    | inl e ↦ collected js
    | inr (images, deps) ↦ images ++ collected js
  ]

  collected-append : (js ks : List ChartJob) → collected (js ++ ks) ≡ collected js ++ collected ks
  unfolding collected
  collected-append [] ks = refl
  collected-append (j ∷ js) ks = elim (sum-cases (fetch j)) [
    | inl (e, failed) ↦ rw (failed, collected) (collected-append js ks)
    | inr ((images, deps), ok) ↦
        rw (ok, collected)
          (rw (collected-append js ks) (sym (append_assoc images (collected js) (collected ks))))
  ]

  -- the chart was fetched without an error, and every chart that it depends on has a key of these
  abbrev pub Expanded : List Text → ChartJob → Type 0
  Expanded ts j =
      (images : List ImageJob) × (deps : List ChartJob) × (fetch j ≡ inr (images, deps))
      × All (Seen ts) deps

  Expanded-Same :
      (s t : List Text) (js : List ChartJob) → Same s t → All (Expanded s) js → All (Expanded t) js
  Expanded-Same s t [] same h = tt
  Expanded-Same s t (j ∷ js) same ((images, deps, ok, seen), h) =
      ((images, deps, ok, Seen-Same s t deps same seen), Expanded-Same s t js same h)

  level-Expanded :
      (ts : List Text) (level : List ChartJob) (images : List ImageJob) (deps : List ChartJob)
      → fetch_level fetch level ≡ inr (images, deps)
      → All (Seen ts) deps
      → All (Expanded ts) level × (images ≡ collected level)
  unfolding fetch_level collected
  level-Expanded ts [] images deps h seen = (tt, ground (arith, h))
  level-Expanded ts (j ∷ js) images deps h seen = elim (sum-cases (fetch j)) [
    | inl (e, failed) ↦ absurd (ground (arith, failed, h))
    | inr ((found, others), ok) ↦ elim (sum-cases (fetch_level fetch js)) [
      | inl (e, failed) ↦ absurd (ground (arith, ok, failed, h))
      | inr ((more, rest), done) ↦
          let all_images : images ≡ found ++ more = ground (arith, ok, done, h) in
          let all_deps : deps ≡ others ++ rest = ground (arith, ok, done, h) in
          let (here, there) =
            All-append (Seen ts) others rest
              (subst (λ (l : List ChartJob). All (Seen ts) l) all_deps seen) in
          let (expanded, same) = level-Expanded ts js more rest done there in
          (
            ((found, others, ok, here), expanded),
            rw (ok, collected) (all_images ∙ ap (λ (l : List ImageJob). found ++ l) same),
          )
    ]
  ]

  -- Everything that a walk without a remainder says about what it fetched.
  pub record IsClosed (seen : List Text) (level : List ChartJob) (w : Walked) : Type 0 where
    pub rest : List ChartJob
    pub starts : w.fetched ≡ level ++ rest
    pub once : Fresh seen rest
    pub closed : All (Expanded (keys rest ++ seen)) w.fetched
    pub gathered : w.images ≡ collected w.fetched

  module _ (seen : List Text) (deps : List ChartJob) (w' : Walked)
      (ih : IsClosed (unseen seen deps).1 (unseen seen deps).0 w') where
    abbrev next : List ChartJob × List Text
    next = unseen seen deps

    fetched_keys : keys w'.fetched ≡ keys next.0 ++ keys ih.rest
    fetched_keys = ap keys ih.starts ∙ keys-append next.0 ih.rest

    all_seen : Same (keys ih.rest ++ next.1) (keys w'.fetched ++ seen)
    all_seen k =
        member-append k (keys ih.rest) next.1
        ∙ ground (
          arith,
          unseen-Same seen deps k,
          member-append k (keys next.0) seen,
          member-append k (keys w'.fetched) seen,
          ap (is_member k) fetched_keys,
          member-append k (keys next.0) (keys ih.rest),
        )

    Fresh-rest : Fresh seen w'.fetched
    Fresh-rest =
        subst (λ (l : List ChartJob). Fresh seen l) (sym ih.starts)
          (Fresh-append seen next.0 ih.rest (unseen-Fresh seen deps)
            (Fresh-Same next.1 (keys next.0 ++ seen) ih.rest (unseen-Same seen deps) ih.once))

    deps_Seen : All (Seen (keys w'.fetched ++ seen)) deps
    deps_Seen =
        Seen-Same (keys ih.rest ++ next.1) (keys w'.fetched ++ seen) deps all_seen
          (Seen-left (keys ih.rest) next.1 deps (unseen-Seen seen deps))

    -- the invariant after one more level
    level-IsClosed :
        (level : List ChartJob) (images : List ImageJob) (w : Walked)
        → fetch_level fetch level ≡ inr (images, deps)
        → w.fetched ≡ level ++ w'.fetched
        → w.images ≡ images ++ w'.images
        → IsClosed seen level w
    level-IsClosed level images w ok fetched found =
        let (expanded, same) =
          level-Expanded (keys w'.fetched ++ seen) level images deps ok deps_Seen in
        record {
          rest = w'.fetched;
          starts = fetched;
          once = Fresh-rest;
          closed =
              subst (λ (l : List ChartJob). All (Expanded (keys w'.fetched ++ seen)) l)
                (sym fetched)
                (All-join (Expanded (keys w'.fetched ++ seen)) level w'.fetched expanded (
                  Expanded-Same (keys ih.rest ++ next.1) (keys w'.fetched ++ seen) w'.fetched
                    all_seen ih.closed));
          gathered =
              found
              ∙ ap (λ (l : List ImageJob). l ++ w'.images) same
              ∙ ap (λ (l : List ImageJob). collected level ++ l) ih.gathered
              ∙ sym (collected-append level w'.fetched)
              ∙ sym (ap collected fetched);
        }

  nothing-IsClosed :
      (seen : List Text) (level : List ChartJob) (w : Walked)
      → level ≡ []
      → w.fetched ≡ []
      → w.images ≡ []
      → IsClosed seen level w
  unfolding collected
  nothing-IsClosed seen level w empty fetched found = record {
    rest = [];
    starts = fetched ∙ sym (append-nil level ∙ empty);
    once = tt;
    closed = subst (λ (l : List ChartJob). All (Expanded seen) l) (sym fetched) tt;
    gathered = found ∙ sym (ap collected fetched);
  }

  levels-IsClosed :
      (n : ℕ) (seen : List Text) (level : List ChartJob) (w : Walked)
      → levels fetch n seen level ≡ inr w
      → w.left ≡ []
      → IsClosed seen level w
  unfolding levels collected
  levels-IsClosed zero seen level w h done =
      nothing-IsClosed seen level w (ground (arith, h, done)) (ground (arith, h))
        (ground (arith, h))
  levels-IsClosed (suc n) seen [] w h done =
      nothing-IsClosed seen [] w refl (ground (arith, h)) (ground (arith, h))
  levels-IsClosed (suc n) seen (j ∷ js) w h done = elim (sum-cases (fetch_level fetch (j ∷ js))) [
    | inl (e, failed) ↦ absurd (ground (arith, failed, h))
    | inr ((images, deps), ok) ↦
        let next = unseen seen deps in
        elim (sum-cases (levels fetch n next.1 next.0)) [
          | inl (e, failed) ↦ absurd (ground (arith, ok, failed, h))
          | inr (w', walked) ↦
              let stops : w'.left ≡ [] = ground (arith, ok, walked, h, done) in
              level-IsClosed seen deps w' (levels-IsClosed n next.1 next.0 w' walked stops) (j ∷ js)
                images w ok (ground (arith, ok, walked, h)) (ground (arith, ok, walked, h))
        ]
  ]

  -- When a walk of the chart tree reports no error and its depth limit leaves nothing behind, it has
  -- fetched the given charts and then others, none of them with a key that was fetched before; every
  -- chart that a fetched chart depends on has the key of a fetched chart; and the images are those
  -- of the fetched charts, in that order.
  pub traverse_complete :
      (jobs : List ChartJob) (w : Walked)
      → traverse_chart_levels fetch jobs ≡ inr w
      → w.left ≡ []
      → (rest : List ChartJob) × (w.fetched ≡ jobs ++ rest)
        × Fresh (keys jobs) rest
        × All (Expanded (keys w.fetched)) w.fetched
        × (w.images ≡ collected w.fetched)
  unfolding traverse_chart_levels
  traverse_complete jobs w h done =
      let c = levels-IsClosed max_chart_depth (keys jobs) jobs w h done in
      let same : Same (keys c.rest ++ keys jobs) (keys w.fetched) = λ k.
        member-append k (keys c.rest) (keys jobs)
        ∙ ground (
          arith,
          ap (is_member k) (ap keys c.starts ∙ keys-append jobs c.rest),
          member-append k (keys jobs) (keys c.rest),
        ) in
      (
        c.rest,
        c.starts,
        c.once,
        Expanded-Same (keys c.rest ++ keys jobs) (keys w.fetched) w.fetched same c.closed,
        c.gathered,
      )
