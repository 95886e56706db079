-- ===== src/Content/Reference.antt =====
-- pkg/reference/reference.go over the reference parser of go-containerregistry, a parameter.
use hauler.Base.{Option, none, some, ◌++◌, Text, codes, contains_byte, if◌then◌else◌}
use hauler.Consts.{default_namespace}

-- name.Reference: its context (registry and repository) and its text.
pub data Named : Type 0 where
  tag : Text → Text → Named
  digest : Text → Text → Named

-- r.String()
unfoldable pub text_of : Named → Text
text_of (tag context text) = text
text_of (digest context text) = text

module _ (parse_reference : Text → Option Named) where
  or_default_namespace : Named → Option Named
  or_default_namespace r =
      if contains_byte b'/' (text_of r)
      then some r
      else parse_reference (default_namespace ++ codes "/" ++ text_of r)

  -- Parse
  unfoldable pub parse : Text → Option Named
  unfolding or_default_namespace text_of contains_byte
  parse ref = elim (parse_reference ref) [ none ↦ none | some r ↦ or_default_namespace r ]
