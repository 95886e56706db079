-- ===== src/Paths.antt =====
-- The paths of path/filepath as lists of segments, and securePath of pkg/archives/unarchiver.go. A
-- clean path is the list of its segments; the empty list is the root of the absolute paths and the "."
-- of the relative ones.
pub mod Inside
use hauler.Base.{
  ◌==◌, has_prefix, Bool, true, false, not, ◌||◌, Option, none, some, List, [], ◌∷◌, ◌++◌, Text,
  codes, text_eq, ℕ, if◌then◌else◌,
}

-- strings.Split(name, "/")
unfoldable pub segments : Text → List Text
segments [] = [] ∷ []
segments (c ∷ s) = elim (segments s) [
  | [] ↦ (c ∷ []) ∷ []
  | t ∷ ts ↦ if c == b'/' then [] ∷ (t ∷ ts) else (c ∷ t) ∷ ts
]

abbrev pub dot : Text
dot = codes "."

abbrev pub dot_dot : Text
dot_dot = codes ".."

-- the parent directory; that of the root is the root
unfoldable pub parent : List Text → List Text
parent [] = []
parent (s ∷ []) = []
parent (s ∷ t ∷ ts) = s ∷ parent (t ∷ ts)

-- one segment of a name, as filepath.Clean takes it
unfoldable pub enter : List Text → Text → List Text
unfolding parent
enter path s =
    if text_eq s [] || text_eq s dot
    then path
    else if text_eq s dot_dot
    then parent path
    else path ++ s ∷ []

unfoldable pub enter_all : List Text → List Text → List Text
enter_all path [] = path
enter_all path (s ∷ names) = enter_all (enter path s) names

-- filepath.Join(path, name) of a clean absolute path
unfoldable pub join : List Text → Text → List Text
unfolding segments enter enter_all
join path name = enter_all path (segments name)

pub ups : List Text → List Text
ups [] = []
ups (s ∷ path) = dot_dot ∷ ups path

-- filepath.Rel(base, target)
unfoldable pub rel : List Text → List Text → List Text
unfolding ups
rel [] target = target
rel (b ∷ base) [] = ups (b ∷ base)
rel (b ∷ base) (t ∷ target) = if text_eq b t then rel base target else ups (b ∷ base) ++ t ∷ target

-- rel == ".." || strings.HasPrefix(rel, "../")
unfoldable pub leaves : List Text → Bool
leaves [] = false
leaves (s ∷ path) = text_eq s dot_dot

-- the path is the base or below it
pub has_base : List Text → List Text → Bool
has_base [] path = true
has_base (b ∷ base) [] = false
has_base (b ∷ base) (s ∷ path) = if text_eq b s then has_base base path else false

-- the segments after the first ones, each after its separator
unfoldable pub below : List Text → Text
below [] = []
below (s ∷ path) = b'/' ∷ (s ++ below path)

-- a clean path as text: the root is "/", and the empty relative path "."
unfoldable pub rendered : (absolute : Bool) → List Text → Text
unfolding below
rendered true [] = codes "/"
rendered true (s ∷ path) = below (s ∷ path)
rendered false [] = dot
rendered false (s ∷ path) = s ++ below path

-- securePath: the name, cleaned below a root of its own, is joined to the base, and the text of the
-- result must have that of the base and a separator as its prefix
unfoldable pub secure_path : (absolute : Bool) → List Text → Text → Option (List Text)
unfolding join enter_all rendered has_prefix
secure_path absolute base name =
    let relative = join [] name in
    let path = enter_all base relative in
    if has_prefix (rendered absolute path ++ codes "/") (rendered absolute base ++ codes "/")
    then some path
    else none
