-- ===== src/Command/Names.antt =====
-- pkg/reference/reference.go: Parse, NewTagged and Relocate with all the parts of a reference, and
-- applyDefaultRegistry of cmd/hauler/cli/store/add.go. go-containerregistry is a parameter.
use hauler.Base.{
  ◌==◌, ◌||◌, Bool, Option, none, some, [], ◌++◌, map, Text, codes, text_eq, contains_byte,
  trim_space, if◌then◌else◌,
}
use hauler.Consts.{default_namespace}
use hauler.Store.Add.Writing.{trim_prefix}
use hauler.Command.Rewriting.{FullRef}
use hauler.Command.Remove.{to_lower}

-- go-containerregistry: ParseReference with its defaults, with a default registry, and with hauler's
-- (no registry, the tag "latest"); whether NewDigest accepts; String(); Context().Digest and
-- Context().Tag.
pub record RefLib : Type 0 where
  pub parse_reference : Text → Option FullRef
  pub parse_in : Text → Text → Option FullRef
  pub parse_bare : Text → Option FullRef
  pub is_digest : Text → Bool
  pub string : FullRef → Text
  pub at_digest : FullRef → Text → FullRef
  pub at_tag : FullRef → Text → FullRef

-- strings.Replace(s, "+", "-", -1)
pub plus_to_dash : Text → Text
plus_to_dash s = map (λ c. if c == b'+' then b'-' else c) s

module _ (lib : RefLib) where
  -- Parse
  unfoldable pub parse_named : Text → Option FullRef
  unfolding contains_byte
  parse_named ref = elim (lib.parse_bare ref) [
    | none ↦ none
    | some r ↦
        if contains_byte b'/' (lib.string r)
        then some r
        else lib.parse_bare (default_namespace ++ codes "/" ++ lib.string r)
  ]

  -- NewTagged
  pub new_tagged : Text → Text → Option FullRef
  unfolding parse_named plus_to_dash to_lower
  new_tagged n tag = elim (parse_named (plus_to_dash (to_lower n))) [
    | none ↦ none
    | some repo ↦ some (lib.at_tag repo (plus_to_dash tag))
  ]

  -- Relocate
  unfoldable pub relocate : Text → Text → Option FullRef
  relocate reference registry = elim (lib.parse_reference reference) [
    | none ↦ none
    | some ref ↦ elim (lib.parse_in registry ref.repository) [
      | none ↦ none
      | some relocated ↦
          if lib.is_digest ref.base.name
          then some (lib.at_digest relocated ref.identifier)
          else some (lib.at_tag relocated ref.identifier)
    ]
  ]

  -- applyDefaultRegistry: none for its error
  pub apply_default_registry : Text → Text → Option Text
  unfolding parse_named relocate trim_prefix trim_space
  apply_default_registry img default_registry =
      let trimmed = trim_space (trim_prefix img (codes "/")) in
      if text_eq trimmed [] || text_eq default_registry []
      then some trimmed
      else elim (parse_named trimmed) [
        | none ↦ none
        | some ref ↦
            if text_eq ref.base.registry []
            then elim (relocate trimmed default_registry) [
              | none ↦ none
              | some new ↦ some new.base.name
            ]
            else some trimmed
      ]
