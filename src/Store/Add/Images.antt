-- ===== src/Store/Add/Images.antt =====
-- pkg/store/store.go: AddImage, AddLocalImage, ensureDockerHost, parsePlatform, and what is saved
-- beside an image, saveRelatedArtifacts and saveReferrers.
use hauler.Base.{
  ℕ, ◌==◌, Bool, true, false, not, ◌||◌, Option, none, some, List, [], ◌∷◌, ◌++◌, map, Text, codes,
  text_eq, contains_byte, cut_byte, if◌then◌else◌,
}
use hauler.Consts.{kind_image, kind_index, kind_sigs, kind_atts, kind_sboms, kind_referrers}
use hauler.Content.Descriptor.{Platform}
use hauler.Content.Reference.{Named}
use hauler.Content.Index.{SaveIo}
use hauler.Content.Blob.{DigestLib}
use hauler.Store.Add.{
  digest_failed, transport_failed, bad_image_ref, fetch_failed, pin_mismatch, bad_platform,
  no_docker_host, Run, pure, ◌>>=◌, ◌>>◌, expect, guard, Image, ImageIndex, ImageRef, Fetched,
  Referrer, Registry,
}
use hauler.Store.Add.Writing.{answers, write_image, write_index}

-- parsePlatform: "os/arch[/variant]"
pub parse_platform : Text → Option Platform
unfolding cut_byte contains_byte
parse_platform s =
    let (os, rest) = cut_byte b'/' s in
    let (architecture, variant) = cut_byte b'/' rest in
    if contains_byte b'/' s
    then some record {
      architecture = if contains_byte b'/' rest then architecture else rest;
      os = os;
      os_version = [];
      os_features = [];
      variant = variant;
    }
    else none

-- the platform option of remote.Image: none for the empty text
unfoldable pub platform_option : Text → Run (Option Platform)
unfolding parse_platform
platform_option [] = pure none
platform_option (c ∷ s) = do p ← expect bad_platform (parse_platform (c ∷ s)); pure (some p)

-- strings.ReplaceAll(s, ":", "-")
colons_to_dashes : Text → Text
colons_to_dashes s = map (λ c. if c == b':' then b'-' else c) s

-- cosign's tags of an image, with the kinds of what stands under them
pub related_tags : Text → List (Text × Text)
unfolding colons_to_dashes
related_tags digest =
    let prefix = colons_to_dashes digest in
    (prefix ++ codes ".sig", kind_sigs)
    ∷ (prefix ++ codes ".att", kind_atts)
    ∷ (prefix ++ codes ".sbom", kind_sboms)
    ∷ []

-- `saved[d]`, of the map that is kept as the list of its keys
unfoldable pub is_member : Text → List Text → Bool
is_member d [] = false
is_member d (t ∷ ts) = text_eq t d || is_member d ts

-- `if d, err := img.Digest(); err == nil { saved[d] = true }`
pub note_digest : Option Text → List Text → List Text
note_digest none saved = saved
note_digest (some d) saved = d ∷ saved

-- What the Docker client and the host answer: DOCKER_HOST, the sockets (the second in the home
-- directory, where there is one), Setenv, and daemon.Image.
pub record Docker : Type 0 where
  pub host : Text
  pub default_socket : Bool
  pub home_socket : Option Text
  pub has_home_socket : Bool
  pub set_env : Bool
  pub image : Text → Option Image

-- ensureDockerHost: the value of DOCKER_HOST that it leaves
pub ensure_docker_host : Docker → Option Text
ensure_docker_host docker =
    if not (text_eq docker.host []) || docker.default_socket
    then some docker.host
    else elim docker.home_socket [
      | none ↦ none
      | some sock ↦
          if docker.has_home_socket
          then (if docker.set_env then some (codes "unix://" ++ sock) else none)
          else none
    ]

-- fetchRef, the reference that drives the network
unfoldable pub fetch_name : Registry → ImageRef → Text → Text
fetch_name registry ref pinned =
    if text_eq pinned [] then ref.name else registry.at_digest ref pinned

module _ (lib : DigestLib) (parse_reference : Text → Option Named) (io : SaveIo) (now : ℕ)
    (counted : Bool) where
  module _ (registry : Registry) where
    -- the loop of saveRelatedArtifacts over cosign's tags
    unfoldable pub save_tags : ImageRef → List (Text × Text) → List Text → Run (List Text)
    unfolding note_digest
    save_tags ref [] saved = pure saved
    save_tags ref ((tag, kind) ∷ tags) saved =
        elim (registry.parse (ref.context ++ codes ":" ++ tag)) [
          | none ↦ save_tags ref tags saved
          | some r ↦ elim (registry.image r.name none) [
            | none ↦ save_tags ref tags saved
            | some img ↦
                write_image lib parse_reference io now counted ref img kind []
                >> save_tags ref tags (note_digest img.digest saved)
          ]
        ]

    -- saveRelatedArtifacts
    unfoldable pub save_related_artifacts : ImageRef → Text → Run (List Text)
    unfolding save_tags related_tags
    save_related_artifacts ref digest = save_tags ref (related_tags digest) []

    -- the loop of saveReferrers
    unfoldable pub save_each_referrer : ImageRef → List Text → List Referrer → Run (Unit {0})
    unfolding is_member
    save_each_referrer ref saved [] = pure tt
    save_each_referrer ref saved (r ∷ rs) =
        elim (registry.new_digest (ref.context ++ codes "@" ++ r.digest)) [
          | none ↦ save_each_referrer ref saved rs
          | some name ↦ elim (registry.image name none) [
            | none ↦ save_each_referrer ref saved rs
            | some img ↦ elim (is_member r.digest saved) [
              | true ↦ save_each_referrer ref saved rs
              | false ↦
                  write_image lib parse_reference io now counted ref img
                    (kind_referrers ++ codes "/" ++ r.hex) []
                  >> save_each_referrer ref saved rs
            ]
          ]
        ]

    -- saveReferrers
    unfoldable pub save_referrers : ImageRef → Text → List Text → Run (Unit {0})
    unfolding save_each_referrer
    save_referrers ref digest saved =
        elim (registry.new_digest (ref.context ++ codes "@" ++ digest)) [
          | none ↦ pure tt
          | some name ↦ elim (registry.referrers name) [
            | none ↦ pure tt
            | some rs ↦ save_each_referrer ref saved rs
          ]
        ]

    -- a multi-arch image without a platform filter: the whole index
    unfoldable pub add_whole_index : ImageRef → ImageIndex → Run Text
    add_whole_index ref i = do
      digest ← expect digest_failed (answers i).digest
      write_index lib parse_reference io now counted ref i kind_index
      pure digest

    -- one image, of the platform that is asked for
    unfoldable pub add_single_image : ImageRef → Text → Text → Run Text
    unfolding platform_option
    add_single_image ref fetch platform = do
      p ← platform_option platform
      img ← expect fetch_failed (registry.image fetch p)
      digest ← expect digest_failed img.digest
      write_image lib parse_reference io now counted ref img kind_image []
      pure digest

    unfoldable pub add_fetched : ImageRef → Text → Text → Fetched → Run Text
    unfolding add_whole_index add_single_image
    add_fetched ref fetch platform d = elim d.as_index [
      | none ↦ add_single_image ref fetch platform
      | some i ↦ elim (text_eq platform []) [
        | true ↦ add_whole_index ref i
        | false ↦ add_single_image ref fetch platform
      ]
    ]

    unfoldable pub add_extras : ImageRef → Text → Run (Unit {0})
    unfolding save_related_artifacts save_referrers
    add_extras ref digest = do
      saved ← save_related_artifacts ref digest
      save_referrers ref digest saved

    -- AddImage
    unfoldable pub add_image : Text → Text → Bool → Text → Run Text
    unfolding fetch_name add_fetched add_extras
    add_image ref platform exclude_extras pinned = do
      guard registry.transport transport_failed
      parsed ← expect bad_image_ref (registry.parse ref)
      d ← expect fetch_failed (registry.get (fetch_name registry parsed pinned))
      guard (text_eq pinned [] || text_eq d.digest pinned) pin_mismatch
      digest ← add_fetched parsed (fetch_name registry parsed pinned) platform d
      if exclude_extras then pure tt else add_extras parsed digest
      pure digest

  -- AddLocalImage
  unfoldable pub add_local_image : (parse : Text → Option ImageRef) → Docker → Text → Run Text
  unfolding ensure_docker_host
  add_local_image parse docker ref = do
    parsed ← expect bad_image_ref (parse ref)
    host ← expect no_docker_host (ensure_docker_host docker)
    img ← expect fetch_failed (docker.image parsed.name)
    digest ← expect digest_failed img.digest
    write_image lib parse_reference io now counted parsed img kind_image []
    pure digest
