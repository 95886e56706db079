-- ===== src/Command/Precedence.antt =====
-- cmd/hauler/cli/store/sync.go: an image of a manifest, the options of the command line, and what
-- takes precedence over what.
use hauler.Base.{Bool, not, ◌&&◌, ◌||◌, [], Text, codes, text_eq, if◌then◌else◌}
use hauler.Base.Dict
use hauler.Base.Dict.{Dict}

-- v1.Image
pub record ImageSpec : Type 0 where
  pub name : Text
  pub key : Text
  pub tlog : Bool
  pub cert_identity : Text
  pub cert_identity_regexp : Text
  pub cert_oidc_issuer : Text
  pub cert_oidc_issuer_regexp : Text
  pub cert_github_workflow_repository : Text
  pub platform : Text
  pub rewrite : Text
  pub exclude_extras : Bool
  pub local : Bool
  pub ca_file : Text
  pub insecure_skip_tls_verify : Bool

-- flags.SyncOpts
pub record SyncOpts : Type 0 where
  pub registry : Text
  pub key : Text
  pub tlog : Bool
  pub tlog_changed : Bool
  pub cert_identity : Text
  pub cert_identity_regexp : Text
  pub cert_oidc_issuer : Text
  pub cert_oidc_issuer_regexp : Text
  pub cert_github_workflow_repository : Text
  pub platform : Text
  pub exclude_extras : Bool
  pub exclude_extras_changed : Bool
  pub ca_file : Text
  pub insecure_skip_tls_verify : Bool
  pub insecure_changed : Bool

pub data ResolveError : Type 0 where
  nil_reference not_relocated local_verification not_expanded : ResolveError
  partial_credentials unset_credentials bad_retries negative_retries store_unresolved : ResolveError
  store_unopened : ResolveError

-- hauler.dev/<name>
abbrev pub at_hauler : Text → Dict Text → Text
at_hauler key a = Dict.get_or key [] a

abbrev pub key_annotation : Text
key_annotation = codes "hauler.dev/key"

abbrev pub identity_annotation : Text
identity_annotation = codes "hauler.dev/certificate-identity"

abbrev pub identity_regexp_annotation : Text
identity_regexp_annotation = codes "hauler.dev/certificate-identity-regexp"

-- s != ""
abbrev pub is_set : Text → Bool
is_set s = not (text_eq s [])

-- a[key] == "true"
unfoldable pub is_true : Text → Dict Text → Bool
unfolding Dict.get_or
is_true key a = text_eq (at_hauler key a) (codes "true")

-- the command line, or the item, or the annotation
unfoldable pub first_set : Text → Text → Text → Text
first_set cli item annotation =
    if is_set cli
    then cli
    else if is_set item
    then item
    else if is_set annotation
    then annotation
    else cli

-- resolveBoolFlag
unfoldable pub resolve_bool_flag : (item ann_true global cli_changed : Bool) → Bool
resolve_bool_flag item ann_true global cli_changed =
    if cli_changed then global else global || item || ann_true

-- the CA file of an item: the command line's, or its own, or the annotation's
unfoldable pub resolve_ca_file : SyncOpts → Dict Text → Text → Text
unfolding Dict.get_or
resolve_ca_file o a item =
    let annotation = at_hauler (codes "hauler.dev/ca-file") a in
    if text_eq o.ca_file [] && text_eq item [] && is_set annotation
    then annotation
    else if is_set o.ca_file
    then o.ca_file
    else item

-- a CA file of the command line forces the verification of TLS on
unfoldable pub resolve_insecure : SyncOpts → Dict Text → Bool → Bool
unfolding is_true resolve_bool_flag
resolve_insecure o a item =
    text_eq o.ca_file []
    && resolve_bool_flag item (is_true (codes "hauler.dev/insecure-skip-tls-verify") a)
        o.insecure_skip_tls_verify o.insecure_changed

unfoldable pub needs_key : SyncOpts → Dict Text → ImageSpec → Bool
unfolding Dict.get_or
needs_key o a i = is_set (at_hauler key_annotation a) || is_set o.key || is_set i.key

unfoldable pub needs_keyless : SyncOpts → Dict Text → ImageSpec → Bool
unfolding Dict.get_or
needs_keyless o a i =
    is_set (at_hauler identity_regexp_annotation a)
    || is_set (at_hauler identity_annotation a)
    || is_set o.cert_identity_regexp
    || is_set o.cert_identity
    || is_set i.cert_identity_regexp
    || is_set i.cert_identity
