-- ===== src/Consts.antt =====
-- pkg/consts/consts.go and pkg/consts/migrate.go: the annotation keys and media types that the
-- other modules test, and the translation of legacy kinds.
pub mod Legacy
use hauler.Base.{ℕ, ◌++◌, Text, codes, has_prefix, length, drop, if◌then◌else◌}

abbrev pub ref_name_key : Text
ref_name_key = codes "org.opencontainers.image.ref.name"

abbrev pub kind_key : Text
kind_key = codes "kind"

abbrev pub kind_image : Text
kind_image = codes "dev.hauler/image"

abbrev pub kind_index : Text
kind_index = codes "dev.hauler/imageIndex"

abbrev pub kind_sigs : Text
kind_sigs = codes "dev.hauler/sigs"

abbrev pub kind_atts : Text
kind_atts = codes "dev.hauler/atts"

abbrev pub kind_sboms : Text
kind_sboms = codes "dev.hauler/sboms"

abbrev pub kind_referrers : Text
kind_referrers = codes "dev.hauler/referrers"

abbrev pub containerd_name_key : Text
containerd_name_key = codes "io.containerd.image.name"

abbrev pub original_ref_key : Text
original_ref_key = codes "hauler.dev/original-ref"

abbrev pub oci_manifest : Text
oci_manifest = codes "application/vnd.oci.image.manifest.v1+json"

abbrev pub oci_index : Text
oci_index = codes "application/vnd.oci.image.index.v1+json"

abbrev pub docker_manifest : Text
docker_manifest = codes "application/vnd.docker.distribution.manifest.v2+json"

abbrev pub docker_list : Text
docker_list = codes "application/vnd.docker.distribution.manifest.list.v2+json"

abbrev pub default_namespace : Text
default_namespace = codes "hauler"

abbrev pub default_retries : ℕ
default_retries = 3

abbrev pub default_concurrency : ℕ
default_concurrency = 5

abbrev pub default_blob_concurrency : ℕ
default_blob_concurrency = 16

abbrev pub old_prefix : Text
old_prefix = codes "dev.cosignproject.cosign"

abbrev pub new_prefix : Text
new_prefix = codes "dev.hauler"

-- NormalizeLegacyKind
unfoldable pub normalize_legacy_kind : Text → Text
normalize_legacy_kind kind =
    if has_prefix kind old_prefix then new_prefix ++ drop (length old_prefix) kind else kind
