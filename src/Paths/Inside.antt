-- ===== src/Paths/Inside.antt =====
-- Paths that stay below a directory.
use hauler.Base.{
  All, Bool, false, not, none, ◌∙◌, ◌&&◌, ◌==◌, contains_byte, has_prefix, has_prefix-append, codes,
  if◌then◌else◌, arith, ◌≡◌, refl, ap, sym, true, false, some, List, [], ◌∷◌, ◌++◌, Text, text_eq,
  text_eq_iff, text_eq_refl, Bool-cases, inl, inr,
}
use mathlib.Core.List.{append_assoc, append-nil}
use hauler.Paths.{
  segments, parent, enter, enter_all, join, ups, dot, dot_dot, rel, leaves, below, rendered,
  secure_path, has_base,
}

-- a relative path that does not leave the base is what follows the base
pub rel-inside :
    (base target : List Text) → leaves (rel base target) ≡ false → target ≡ base ++ rel base target
unfolding rel leaves ups
rel-inside [] target h = refl
rel-inside (b ∷ base) [] h = cc (h, text_eq_refl dot_dot)
rel-inside (b ∷ base) (t ∷ target) h = elim (Bool-cases (text_eq b t)) [
  | inl same ↦
      let eq : b ≡ t = (text_eq_iff b t).0 same in
      let deeper = rel-inside base target (rw (same, rel) at h) in
      rw (same, rel) (rw (← deeper) (ap (λ x. x ∷ target) (sym eq)))
  | inr other ↦ cc (rw (other, rel) at h, text_eq_refl dot_dot)
]

pub rel-append : (base rest : List Text) → rel base (base ++ rest) ≡ rest
unfolding rel
rel-append [] rest = refl
rel-append (b ∷ base) rest = rw (text_eq_refl b) (rel-append base rest)

pub has_base-append : (base rest : List Text) → has_base base (base ++ rest) ≡ true
unfolding has_base
has_base-append [] rest = refl
has_base-append (b ∷ base) rest = rw (text_eq_refl b) (has_base-append base rest)

-- a name that is one segment, and neither "." nor ".."
pub record IsClean (s : Text) : Type 0 where
  pub nonempty : text_eq s [] ≡ false
  pub not_dot : text_eq s dot ≡ false
  pub not_dot_dot : text_eq s dot_dot ≡ false
  pub one_segment : contains_byte b'/' s ≡ false

abbrev IsOne : Text → Type 0
IsOne s = contains_byte b'/' s ≡ false

segments_cons : (s : Text) → (t : Text) × (ts : List Text) × (segments s ≡ t ∷ ts)
unfolding segments
segments_cons [] = ([], [], refl)
segments_cons (c ∷ s) =
    let (t, ts, same) = segments_cons s in
    elim (Bool-cases (c == b'/')) [
      | inl separator ↦ ([], t ∷ ts, rw same (rw separator refl))
      | inr letter ↦ (c ∷ t, ts, rw same (rw letter refl))
    ]

segments-AreOne : (s : Text) → All IsOne (segments s)
unfolding segments contains_byte
segments-AreOne [] = (refl, tt)
segments-AreOne (c ∷ s) =
    let (t, ts, same) = segments_cons s in
    let h = segments-AreOne s in
    let (one, ones) = rw same at h in
    elim (Bool-cases (c == b'/')) [
      | inl separator ↦ rw same (rw separator (refl, (one, ones)))
      | inr letter ↦ rw same (rw letter (ground (arith, letter, one), ones))
    ]

parent-All : (path : List Text) → All IsClean path → All IsClean (parent path)
unfolding parent
parent-All [] h = tt
parent-All (s ∷ []) h = tt
parent-All (s ∷ t ∷ path) (hs, h) = (hs, parent-All (t ∷ path) h)

append-All :
    (path : List Text) (s : Text) → All IsClean path → IsClean s → All IsClean (path ++ s ∷ [])
append-All [] s h hs = (hs, tt)
append-All (t ∷ path) s (ht, h) hs = (ht, append-All path s h hs)

enter-All : (path : List Text) (s : Text) → All IsClean path → IsOne s → All IsClean (enter path s)
unfolding enter
enter-All path s h one = elim (Bool-cases (text_eq s [])) [
  | inl empty ↦ rw empty h
  | inr nonempty ↦ elim (Bool-cases (text_eq s dot)) [
    | inl here ↦ rw nonempty (rw here h)
    | inr not_dot ↦ elim (Bool-cases (text_eq s dot_dot)) [
      | inl up ↦ rw nonempty (rw not_dot (rw up (parent-All path h)))
      | inr not_dot_dot ↦ rw nonempty (
          rw not_dot (
            rw not_dot_dot (
              append-All path s h (record {
                nonempty = nonempty;
                not_dot = not_dot;
                not_dot_dot = not_dot_dot;
                one_segment = one;
              }))))
    ]
  ]
]

enter_all-All :
    (path names : List Text)
    → All IsClean path
    → All IsOne names
    → All IsClean (enter_all path names)
unfolding enter_all
enter_all-All path [] h ones = h
enter_all-All path (s ∷ names) h (one, ones) =
    enter_all-All (enter path s) names (enter-All path s h one) ones

join-AreClean : (name : Text) → All IsClean (join [] name)
unfolding join
join-AreClean name = enter_all-All [] (segments name) tt (segments-AreOne name)

enter-IsClean : (path : List Text) (s : Text) → IsClean s → enter path s ≡ path ++ s ∷ []
unfolding enter
enter-IsClean path s clean = rw clean.nonempty (rw clean.not_dot (rw clean.not_dot_dot refl))

-- clean segments are appended
enter_all-append :
    (base names : List Text) → All IsClean names → enter_all base names ≡ base ++ names
unfolding enter_all
enter_all-append base [] h = sym (append-nil base)
enter_all-append base (s ∷ names) (clean, h) =
    enter_all-append (enter base s) names h
    ∙ ap (λ (p : List Text). p ++ names) (enter-IsClean base s clean)
    ∙ append_assoc base (s ∷ []) names

below-append : (base rest : List Text) → below (base ++ rest) ≡ below base ++ below rest
unfolding below
below-append [] rest = refl
below-append (s ∷ base) rest =
    ap (λ (t : Text). b'/' ∷ (s ++ t)) (below-append base rest)
    ∙ ap (◌∷◌ b'/') (sym (append_assoc s (below base) (below rest)))

-- what follows a base in the text of a path below it
after_base : List Text → Text
after_base [] = []
after_base (t ∷ rest) = (t ++ below rest) ++ codes "/"

below-separated : (rest : List Text) → below rest ++ codes "/" ≡ codes "/" ++ after_base rest
unfolding below after_base
below-separated [] = refl
below-separated (t ∷ rest) = refl

separated-append :
    (b : Text) (base rest : List Text)
    → (b ++ below (base ++ rest)) ++ codes "/" ≡ ((b ++ below base) ++ codes "/") ++ after_base rest
separated-append b base rest =
    ap (λ (t : Text). (b ++ t) ++ codes "/") (below-append base rest)
    ∙ ap (λ (t : Text). t ++ codes "/") (sym (append_assoc b (below base) (below rest)))
    ∙ append_assoc (b ++ below base) (below rest) (codes "/")
    ∙ ap (λ (t : Text). (b ++ below base) ++ t) (below-separated rest)
    ∙ sym (append_assoc (b ++ below base) (codes "/") (after_base rest))

rendered-append :
    (absolute : Bool) (b : Text) (base rest : List Text)
    → rendered absolute ((b ∷ base) ++ rest) ++ codes "/"
      ≡ (rendered absolute (b ∷ base) ++ codes "/") ++ after_base rest
unfolding rendered
rendered-append true b base rest = ap (◌∷◌ b'/') (separated-append b base rest)
rendered-append false b base rest = separated-append b base rest

guard-below :
    (absolute : Bool) (b : Text) (base rest : List Text)
    → has_prefix
        (rendered absolute ((b ∷ base) ++ rest) ++ codes "/")
        (rendered absolute (b ∷ base) ++ codes "/")
      ≡ true
guard-below absolute b base rest =
    rw (rendered-append absolute b base rest)
      (has_prefix-append (rendered absolute (b ∷ base) ++ codes "/") (after_base rest))

guard-top :
    (absolute : Bool) (t : Text) (rest : List Text)
    → IsClean t
    → has_prefix (rendered absolute (t ∷ rest) ++ codes "/") (rendered absolute [] ++ codes "/")
      ≡ false
unfolding rendered has_prefix below text_eq contains_byte
guard-top true [] rest clean = absurd (ground (arith, clean.nonempty))
guard-top true (c ∷ t) rest clean = ground (arith, clean.one_segment)
guard-top false [] rest clean = absurd (ground (arith, clean.nonempty))
guard-top false (c ∷ []) rest clean = ground (arith, clean.not_dot)
guard-top false (c ∷ d ∷ t) rest clean = ground (arith, clean.one_segment)

has_prefix_self : (s : Text) → has_prefix s s ≡ true
unfolding has_prefix
has_prefix_self [] = refl
has_prefix_self (c ∷ s) = ground (arith, has_prefix_self s)

abbrev pub is_top : List Text → Bool
is_top [] = true
is_top (s ∷ path) = false

guarded :
    (absolute : Bool) (base rest : List Text)
    → All IsClean rest
    → (if has_prefix
          (rendered absolute (base ++ rest) ++ codes "/")
          (rendered absolute base ++ codes "/")
        then some (base ++ rest)
        else none)
      ≡ (if is_top base && not (is_top rest) then none else some (base ++ rest))
guarded absolute (b ∷ base) rest h = rw (guard-below absolute b base rest) refl
guarded absolute [] (t ∷ rest) (clean, h) = rw (guard-top absolute t rest clean) refl
guarded absolute [] [] h = rw (has_prefix_self (rendered absolute [] ++ codes "/")) refl

-- Whatever the name in an archive, ".." segments included, and whether the directory is absolute or
-- relative: securePath finds the directory followed by the name cleaned as a path of its own, in which
-- no segment is empty, "." or ".."; but if the directory is the root or ".", it refuses every name
-- that does not clean to the directory itself.
pub secure_path-inside :
    (absolute : Bool) (base : List Text) (name : Text)
    → (secure_path absolute base name ≡ (
        if is_top base && not (is_top (join [] name)) then none else some (base ++ join [] name)))
      × All IsClean (join [] name)
unfolding secure_path
secure_path-inside absolute base name = (
  rw (enter_all-append base (join [] name) (join-AreClean name))
      (guarded absolute base (join [] name) (join-AreClean name)),
  join-AreClean name,
)
