-- ===== src/Store/Catalog.antt =====
-- What the index of pkg/content/oci.go and the RemoveArtifact of pkg/store/store.go promise together:
-- a catalog that gives each key a descriptor, in which names, files, loads and saves are forgotten.
use hauler.Base.{
  ℕ, ◌≡◌, false, Option, none, some, List, [], ◌∷◌, Text, text_eq, ◌⊎◌, inl, inr, if◌then◌else◌,
}
use hauler.Base.Dict
use hauler.Base.Dict.{Dict}
use hauler.Content.Descriptor.{Descriptor, descriptors_equal}
use hauler.Content.Reference.{Named}
use hauler.Content.Index.{Error, Oci, SaveIo, load_index}
use hauler.Content.Index.Operations.{add_index, resolve}
use hauler.Content.Index.Canonical.{IsCanonical, IsEntry}
use hauler.Content.Index.Adding.{found}
use hauler.Store.Remove.{remove_artifact}

abbrev pub Catalog : Type 0
Catalog = Text → Option Descriptor

-- What a client asks of the index. `entry` says under which key the descriptor belongs.
pub data Request : Type 0 where
  adding : SaveIo → ℕ → Text → Descriptor → Request
  removing : SaveIo → ℕ → Text → Request
  resolving : Text → Request

-- What it is answered: an error, or the descriptor that Resolve returns.
abbrev pub Answer : Type 0
Answer = Error ⊎ Option Descriptor

abbrev pub answer_of : Option Error → Answer
answer_of none = inr none
answer_of (some e) = inl e

abbrev pub resolved_of : Error ⊎ Descriptor → Answer
resolved_of (inl e) = inl e
resolved_of (inr d) = inr (some d)

-- An equal descriptor is kept as it is, and any other is replaced.
unfoldable pub put : Text → Descriptor → Catalog → Catalog
put k d m ref =
    if (elim (m k) [ none ↦ false | some e ↦ descriptors_equal e d ])
    then m ref
    else if text_eq k ref
    then some d
    else m ref

unfoldable pub drop : Text → Catalog → Catalog
drop k m ref = if text_eq k ref then none else m ref

-- the specification of one request
unfoldable pub specified : Request → Catalog → Answer × Catalog
unfolding put drop
specified (adding io now k d) m = (inr none, put k d m)
specified (removing io now k) m = (inr none, drop k m)
specified (resolving ref) m = (resolved_of (found ref (m ref)), m)

unfoldable pub specify : List Request → Catalog → List Answer
unfolding specified
specify [] m = []
specify (q ∷ qs) m = (specified q m).0 ∷ specify qs (specified q m).1

module _ (parse_reference : Text → Option Named) where
  -- the same request, served by the code
  unfoldable pub served : Request → Oci → Answer × Oci
  served (adding io now k d) s =
      let (e, s') = add_index parse_reference io now d s in (answer_of e, s')
  served (removing io now k) s =
      let (e, s') = remove_artifact parse_reference io now k s in (answer_of e, s')
  served (resolving ref) s = let (r, s') = resolve parse_reference ref s in (resolved_of r, s')

  pub serve : List Request → Oci → List Answer
  unfolding served
  serve [] s = []
  serve (q ∷ qs) s = (served q s).0 ∷ serve qs (served q s).1

  -- A descriptor that is added belongs under its key, and no addition or removal fails.
  abbrev pub IsSaved : Request → Oci → Type 0
  IsSaved (adding io now k d) s =
      IsEntry parse_reference k d × ((add_index parse_reference io now d s).0 ≡ none)
  IsSaved (removing io now k) s = (remove_artifact parse_reference io now k s).0 ≡ none
  IsSaved (resolving ref) s = Unit {0}

  abbrev pub AreSaved : List Request → Oci → Type 0
  AreSaved [] s = Unit {0}
  AreSaved (q ∷ qs) s = IsSaved q s × AreSaved qs (served q s).1

  -- The name map and what a load makes of it and of index.json are the catalog.
  pub record Represents (s : Oci) (m : Catalog) : Type 0 where
    pub canonical : IsCanonical parse_reference s.name_map
    pub loads : (load_index parse_reference s).0 ≡ none
    pub held : (ref : Text) → Dict.lookup ref s.name_map ≡ m ref
    pub reloaded : (ref : Text) → Dict.lookup ref (load_index parse_reference s).1.name_map ≡ m ref
