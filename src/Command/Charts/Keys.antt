-- ===== src/Command/Charts/Keys.antt =====
-- cmd/hauler/cli/store/add.go: the keys that traverseChartLevels has seen.
use hauler.Base.{
  Bool-cases, ◌≡◌, refl, sym, ap, ◌∙◌, true, false, ◌||◌, List, [], ◌∷◌, ◌++◌, Text, text_eq,
  text_eq_iff, All, inl, inr, arith,
}
use mathlib.Core.Path.{subst}
use hauler.Store.Add.Images.{is_member}
use hauler.Command.Charts.{ChartJob, chart_job_key, keys, unseen}

-- the key of the job is among those
abbrev pub Seen : List Text → ChartJob → Type 0
Seen ts j = is_member (chart_job_key j) ts ≡ true

-- no job has a key that is seen before it
abbrev pub Fresh : List Text → List ChartJob → Type 0
Fresh seen [] = Unit
Fresh seen (j ∷ js) = (is_member (chart_job_key j) seen ≡ false) × Fresh (chart_job_key j ∷ seen) js

-- two lists of keys with the same members
abbrev pub Same : List Text → List Text → Type 0
Same s t = (k : Text) → is_member k s ≡ is_member k t

pub keys-append : (js ks : List ChartJob) → keys (js ++ ks) ≡ keys js ++ keys ks
keys-append [] ks = refl
keys-append (j ∷ js) ks = rw (keys-append js ks) refl

pub member-append :
    (k : Text) (s t : List Text) → is_member k (s ++ t) ≡ (is_member k s || is_member k t)
unfolding is_member
member-append k [] t = refl
member-append k (x ∷ s) t = ground (arith, member-append k s t)

-- the keys after a level are those before it and those of the next level
pub unseen-Same :
    (seen : List Text) (ds : List ChartJob)
    → Same (unseen seen ds).1 (keys (unseen seen ds).0 ++ seen)
unfolding unseen is_member
unseen-Same seen [] k = refl
unseen-Same seen (d ∷ ds) k = elim (Bool-cases (is_member (chart_job_key d) seen)) [
  | inl old ↦ rw (old, unseen) (unseen-Same seen ds k)
  | inr new ↦
      rw (new, unseen)
        (unseen-Same (chart_job_key d ∷ seen) ds k
          ∙ ground (
            arith,
            member-append k (keys (unseen (chart_job_key d ∷ seen) ds).0) (chart_job_key d ∷ seen),
            member-append k (keys (unseen (chart_job_key d ∷ seen) ds).0) seen,
          ))
]

unseen-keeps :
    (seen : List Text) (ds : List ChartJob) (k : Text)
    → is_member k seen ≡ true
    → is_member k (unseen seen ds).1 ≡ true
unseen-keeps seen ds k h =
    ground (arith, unseen-Same seen ds k, member-append k (keys (unseen seen ds).0) seen, h)

pub unseen-Seen : (seen : List Text) (ds : List ChartJob) → All (Seen (unseen seen ds).1) ds
unfolding unseen is_member
unseen-Seen seen [] = tt
unseen-Seen seen (d ∷ ds) = elim (Bool-cases (is_member (chart_job_key d) seen)) [
  | inl old ↦
      let eq : unseen seen (d ∷ ds) ≡ unseen seen ds = rw (old, unseen) refl in
      subst (λ (r : List ChartJob × List Text). All (Seen r.1) (d ∷ ds)) (sym eq)
        (unseen-keeps seen ds (chart_job_key d) old, unseen-Seen seen ds)
  | inr new ↦
      let taken = unseen (chart_job_key d ∷ seen) ds in
      let eq : unseen seen (d ∷ ds) ≡ (d ∷ taken.0, taken.1) = rw (new, unseen) refl in
      subst (λ (r : List ChartJob × List Text). All (Seen r.1) (d ∷ ds)) (sym eq)
        (
          unseen-keeps (chart_job_key d ∷ seen) ds (chart_job_key d)
              (ground (arith, text_eq_iff (chart_job_key d) (chart_job_key d))),
          unseen-Seen (chart_job_key d ∷ seen) ds,
        )
]

pub unseen-Fresh : (seen : List Text) (ds : List ChartJob) → Fresh seen (unseen seen ds).0
unfolding unseen
unseen-Fresh seen [] = tt
unseen-Fresh seen (d ∷ ds) = elim (Bool-cases (is_member (chart_job_key d) seen)) [
  | inl old ↦ rw (old, unseen) (unseen-Fresh seen ds)
  | inr new ↦ rw (new, unseen) (new, unseen-Fresh (chart_job_key d ∷ seen) ds)
]

pub Fresh-Same : (s t : List Text) (js : List ChartJob) → Same s t → Fresh s js → Fresh t js
unfolding is_member
Fresh-Same s t [] same h = tt
Fresh-Same s t (j ∷ js) same (new, h) = (
  sym (same (chart_job_key j)) ∙ new,
  Fresh-Same (chart_job_key j ∷ s) (chart_job_key j ∷ t) js
      (λ k. ap (λ b. text_eq (chart_job_key j) k || b) (same k)) h,
)

pub Fresh-append :
    (s : List Text) (js ks : List ChartJob)
    → Fresh s js
    → Fresh (keys js ++ s) ks
    → Fresh s (js ++ ks)
unfolding is_member
Fresh-append s [] ks h h' = h'
Fresh-append s (j ∷ js) ks (new, h) h' = (
  new,
  Fresh-append (chart_job_key j ∷ s) js ks h (
      Fresh-Same (chart_job_key j ∷ keys js ++ s) (keys js ++ chart_job_key j ∷ s) ks
        (λ k.
          ground
            (arith, member-append k (keys js) s, member-append k (keys js) (chart_job_key j ∷ s)))
        h'),
)

pub Seen-Same :
    (s t : List Text) (ds : List ChartJob) → Same s t → All (Seen s) ds → All (Seen t) ds
Seen-Same s t [] same h = tt
Seen-Same s t (d ∷ ds) same (h, hs) = (sym (same (chart_job_key d)) ∙ h, Seen-Same s t ds same hs)

pub Seen-left : (s t : List Text) (ds : List ChartJob) → All (Seen t) ds → All (Seen (s ++ t)) ds
Seen-left s t [] h = tt
Seen-left s t (d ∷ ds) (h, hs) =
    (ground (arith, member-append (chart_job_key d) s t, h), Seen-left s t ds hs)

pub All-append {ℓ} :
    {A : Type 0} (P : A → Type ℓ) (xs ys : List A) → All P (xs ++ ys) → All P xs × All P ys
All-append P [] ys h = (tt, h)
All-append P (x ∷ xs) ys (p, h) = let (l, r) = All-append P xs ys h in ((p, l), r)

pub All-join {ℓ} :
    {A : Type 0} (P : A → Type ℓ) (xs ys : List A) → All P xs → All P ys → All P (xs ++ ys)
All-join P [] ys h k = k
All-join P (x ∷ xs) ys (p, h) k = (p, All-join P xs ys h k)
