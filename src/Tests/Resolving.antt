-- ===== src/Tests/Resolving.antt =====
-- A manifest's image that gets its key from an annotation, and whose name gets a registry.
use hauler.Base.{◌≡◌, true, false, some, [], ◌∷◌, ◌++◌, Text, codes, arith}
use hauler.Base.Dict
use hauler.Base.Dict.{Dict}
use hauler.Command.Verify.{empty_config}
use hauler.Command.Images.{ImageJob}
use hauler.Command.Rewriting.{FullRef}
use hauler.Command.Names.{RefLib}
use hauler.Command.Precedence.{ImageSpec, SyncOpts, is_set}
use hauler.Tests.Adding.{image_ref}

abbrev pub at_registry : Text → Text → FullRef
at_registry registry repository = record {
  base = record image_ref { registry = registry; name = registry ++ codes "/" ++ repository };
  repository = repository;
  identifier = codes "1";
  tag = some (codes "1");
}

abbrev pub lib : RefLib
lib = record {
  parse_reference = λ s. some (at_registry (codes "docker.io") s);
  parse_in = λ registry s. some (at_registry registry s);
  parse_bare = λ s. some (at_registry [] s);
  is_digest = λ s. false;
  string = λ r. codes "/" ++ r.repository;
  at_digest = λ r d. r;
  at_tag = λ r t. r;
}

abbrev pub opts : SyncOpts
opts = record {
  registry = codes "r";
  key = [];
  tlog = false;
  tlog_changed = false;
  cert_identity = [];
  cert_identity_regexp = [];
  cert_oidc_issuer = [];
  cert_oidc_issuer_regexp = [];
  cert_github_workflow_repository = [];
  platform = [];
  exclude_extras = false;
  exclude_extras_changed = false;
  ca_file = [];
  insecure_skip_tls_verify = false;
  insecure_changed = false;
}

abbrev spec : ImageSpec
spec = record {
  name = codes "a";
  key = [];
  tlog = true;
  cert_identity = [];
  cert_identity_regexp = [];
  cert_oidc_issuer = [];
  cert_oidc_issuer_regexp = [];
  cert_github_workflow_repository = [];
  platform = [];
  rewrite = [];
  exclude_extras = false;
  local = false;
  ca_file = [];
  insecure_skip_tls_verify = false;
}

abbrev annotations : Dict Text
annotations = (codes "hauler.dev/key", codes "~/k") ∷ []

abbrev resolved : ImageJob
resolved = record {
  name = codes "r/a";
  platform = [];
  exclude_extras = false;
  rewrite = [];
  local = false;
  config = record empty_config { key = codes "~/k"; tlog = true };
}

kept : (t p : Text) → is_set t ≡ true → some t ≡ some p → is_set p ≡ true
kept t p set same = ground (arith, set, same)
