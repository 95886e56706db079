-- ===== src/Mapper.antt =====
-- internal/mapper: which file of the destination a descriptor is extracted to.
pub mod Traversal
use hauler.Base.{
  Bool, true, false, not, ◌||◌, Option, none, some, List, [], ◌∷◌, ◌++◌, Text, codes, text_eq,
  is_some, if◌then◌else◌,
}
use hauler.Base.Dict
use hauler.Base.Dict.{Dict}
use hauler.Consts.{ref_name_key, oci_manifest, docker_manifest, docker_list}
use hauler.Content.Descriptor.{Descriptor}
use hauler.Store.Manifest.{Manifest}
use hauler.Paths.{join, rel, leaves}

abbrev pub title_key : Text
title_key = codes "org.opencontainers.image.title"

abbrev pub chart_layer : Text
chart_layer = codes "application/vnd.cncf.helm.chart.content.v1.tar+gzip"

abbrev pub chart_config : Text
chart_config = codes "application/vnd.cncf.helm.config.v1+json"

abbrev pub prov_layer : Text
prov_layer = codes "application/vnd.cncf.helm.chart.provenance.v1.prov"

abbrev pub file_layer : Text
file_layer = codes "application/vnd.content.hauler.file.layer.v1"

abbrev pub file_local_config : Text
file_local_config = codes "application/vnd.content.hauler.file.local.config.v1+json"

abbrev pub file_directory_config : Text
file_directory_config = codes "application/vnd.content.hauler.file.directory.config.v1+json"

abbrev pub file_http_config : Text
file_http_config = codes "application/vnd.content.hauler.file.http.config.v1+json"

abbrev pub docker_config : Text
docker_config = codes "application/vnd.docker.container.image.v1+json"

abbrev pub oci_image_config : Text
oci_image_config = codes "application/vnd.oci.image.config.v1+json"

abbrev pub oci_layer : Text
oci_layer = codes "application/vnd.oci.image.layer.v1.tar+gzip"

abbrev pub oci_tar_layer : Text
oci_tar_layer = codes "application/vnd.oci.image.layer.v1.tar"

abbrev pub docker_layer : Text
docker_layer = codes "application/vnd.docker.image.rootfs.diff.tar.gzip"

-- Fn, whose error is nil in every mapper
abbrev pub Fn : Type 0
Fn = Descriptor → Text

abbrev pub Mapping : Type 0
Mapping = Dict Fn

abbrev pub title_or : Text → Descriptor → Text
title_or other d = Dict.value_or other (Dict.lookup title_key d.annotations)

-- Images
pub images : Mapping
unfolding Dict.lookup
images =
    (docker_manifest, λ d. codes "manifest.json")
    ∷ (docker_list, λ d. codes "manifest.json")
    ∷ (oci_manifest, λ d. codes "manifest.json")
    ∷ (oci_layer, λ d. d.digest ++ codes ".tar.gz")
    ∷ (docker_layer, λ d. d.digest ++ codes ".tar.gz")
    ∷ (docker_config, λ d. codes "config.json")
    ∷ []

-- Chart
pub chart : Mapping
unfolding Dict.lookup
chart =
    (chart_layer, λ d. title_or (codes "chart.tar.gz") d)
    ∷ (prov_layer, λ d. codes "prov.json")
    ∷ []

-- DefaultCatchAll
abbrev pub catch_all : Text
catch_all = []

-- Default
pub fallback : Mapping
unfolding Dict.lookup
fallback = (catch_all, λ d. title_or (d.digest ++ codes ".bin") d) ∷ []

-- Files
unfoldable pub files : Mapping
unfolding Dict.lookup
files =
    (file_layer, λ d. title_or (d.digest ++ codes ".file") d)
    ∷ (oci_layer, λ d. title_or (d.digest ++ codes ".file") d)
    ∷ (oci_tar_layer, λ d. title_or (d.digest ++ codes ".file") d)
    ∷ (catch_all, λ d. title_or [] d)
    ∷ []

-- a layer of the manifest has a title
pub any_titled : List Descriptor → Bool
any_titled [] = false
any_titled (d ∷ ds) = is_some (Dict.lookup title_key d.annotations) || any_titled ds

-- FromManifest
pub from_manifest : Manifest → Mapping
unfolding any_titled
from_manifest m =
    let t = m.config.media_type in
    if text_eq t chart_layer || text_eq t chart_config
    then chart
    else if text_eq t file_local_config
        || text_eq t file_directory_config
        || text_eq t file_http_config
    then files
    else if text_eq t docker_config || text_eq t oci_image_config
    then (if any_titled m.layers then files else images)
    else if any_titled m.layers
    then files
    else fallback

-- where Push writes: nowhere, an error for a name outside of the directory, or a file
pub data Destination : Type 0 where
  discard : Destination
  traversal : Text → Destination
  write_to : List Text → Destination

-- a name below the destination directory
pub below_directory : List Text → Text → Destination
below_directory dest_dir filename =
    let full = join dest_dir filename in
    if leaves (rel dest_dir full) then traversal filename else write_to full

pub mapped_name : Mapping → Descriptor → Option Text
unfolding Dict.lookup
mapped_name mapper d = elim (Dict.lookup d.media_type mapper) [
  | some fn ↦ some (fn d)
  | none ↦ elim (Dict.lookup catch_all mapper) [ some fn ↦ some (fn d) | none ↦ none ]
]

-- Push of the file store, up to the directories and files that it then creates
unfoldable pub push : Mapping → List Text → Descriptor → Destination
unfolding below_directory mapped_name
push mapper dest_dir d =
    if is_some (Dict.lookup ref_name_key d.annotations)
    then discard
    else elim (mapped_name mapper d) [
      | none ↦ discard
      | some filename ↦ if text_eq filename [] then discard else below_directory dest_dir filename
    ]
