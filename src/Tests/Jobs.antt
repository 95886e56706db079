-- ===== src/Tests/Jobs.antt =====
-- An image job that verifies and stores an image, and a walk over charts that depend on each other.
use hauler.Base.{
  arith, contains_byte, has_prefix, trim_space, ◌≡◌, refl, true, false, none, some, List, [], ◌∷◌,
  ◌++◌, Text, codes, text_eq, All, ◌⊎◌, inr,
}
use hauler.Base.Int.{pos}
use hauler.Base.Dict
use hauler.Store.Add.Writing.{
  write_image, write_image_blobs, write_layers, write_layer, put_blob, write_blob_data, put_index,
  described, short_name, trim_prefix,
}
use hauler.Content.Blob.{write_blob, is_cached, write_blob_shared}
use hauler.Content.Index.Operations.{add_index, already_stored}
use hauler.Content.Reference.{parse, text_of}
use hauler.Content.Index.{save_index, after_rename, before_rename, entry_key, save_index_checkpoint}
use hauler.Store.Add.Sealing.{IsAddressed}
use hauler.Store.Add.Images.{
  Docker, add_image, add_fetched, add_single_image, fetch_name, platform_option,
}
use hauler.Retry.{retry_operation, attempts}
use hauler.Command.Verify.{is_empty_config, Config, empty_config, accepted, Notary}
use hauler.Command.Images.{ImageJob, run_image_job}
use hauler.Command.Rewriting.{Env, FullRef}
use hauler.Command.Images.Verified.{VerifiedAs, run_image_job-verified}
use hauler.Command.Charts.{ChartJob, ChartOptions, Walked, keys, traverse_chart_levels}
use hauler.Command.Charts.Traversal.{Expanded, collected, traverse_complete}
use hauler.Command.Charts.Keys.{Fresh}
use hauler.Tests.Adding.{
  lib, parse_reference, image_ref, registry, save, start, registry-IsFaithful,
}

abbrev full_ref : FullRef
full_ref = record {
  base = image_ref;
  repository = codes "h/a";
  identifier = codes "1";
  tag = some (codes "1");
}

abbrev docker : Docker
docker = record {
  host = [];
  default_socket = false;
  home_socket = none;
  has_home_socket = false;
  set_env = false;
  image = λ name. none;
}

abbrev env : Env
env = record {
  started = true;
  parse = λ name. some full_ref;
  worlds = λ k. record { registry = registry; save = save; now = 7 };
  live = λ k. true;
  waits = λ k. true;
  is_tlog = λ e. false;
  retries = pos 1;
  ignore_errors = false;
  rename_save = save;
  rename_now = 8;
  docker = docker;
}

abbrev notary : Notary
notary = record {
  parse = λ name. some image_ref;
  heads = λ k. accepted;
  head_digest = λ k. codes "m";
  at_digest = λ ref d. d;
  configure = λ cfg. accepted;
  verify = λ cfg name. accepted;
  live = λ k. true;
  waits = λ k. true;
  retries = pos 1;
}

abbrev keyed : Config
keyed = record empty_config { key = codes "k" }

abbrev job : ImageJob
job = record {
  name = codes "a";
  platform = [];
  exclude_extras = true;
  rewrite = [];
  local = false;
  config = keyed;
}

registry-IsAddressed : IsAddressed registry
registry-IsAddressed = record {
  index_digest = λ name d i got multi. absurd (ground (arith, got, multi));
  image_digest = λ name d p img got one found. ground (arith, got, found);
  child_digest = λ name d i q img digest got multi. absurd (ground (arith, got, multi));
}

run_image_job-verified_example :
    (pinned : Text) × VerifiedAs lib env notary job pinned
      (run_image_job lib parse_reference env notary job start).1.blobs
unfolding add_image text_eq write_image write_image_blobs write_layers write_layer put_blob
    write_blob is_cached Dict.lookup write_blob_shared write_blob_data Dict.insert put_index
    add_index described parse Dict.get_or contains_byte has_prefix trim_space already_stored
    save_index after_rename before_rename entry_key save_index_checkpoint text_of add_fetched
    add_single_image fetch_name platform_option short_name trim_prefix is_empty_config run_image_job
    retry_operation attempts
run_image_job-verified_example =
    run_image_job-verified lib parse_reference env (λ k. registry-IsFaithful) notary job start
      (λ k. registry-IsAddressed) (λ k same. cc same) refl refl refl

abbrev options : ChartOptions
options = record {
  repo_url = [];
  version = [];
  verify = false;
  keyring = [];
  username = [];
  password = [];
  pass_credentials_all = false;
  cert_file = [];
  key_file = [];
  ca_file = [];
  insecure_skip_tls_verify = false;
  plain_http = false;
  add_images = true;
  add_dependencies = true;
  exclude_extras = false;
  registry = [];
  platform = [];
  values_files = [];
}

abbrev chart : Text → ChartJob
chart name = record {
  name = name;
  repo_url = [];
  version = [];
  options = options;
  rewrite = [];
  parent = [];
  depth = 0;
}

-- each chart depends on both
abbrev fetch : ChartJob → Unit {0} ⊎ (List ImageJob × List ChartJob)
fetch j = inr (job ∷ [], chart (codes "a") ∷ chart (codes "b") ∷ [])

abbrev walked : Walked
walked = record {
  images = job ∷ job ∷ [];
  fetched = chart (codes "a") ∷ chart (codes "b") ∷ [];
  left = [];
}

traverse_complete_example :
    (rest : List ChartJob) × (walked.fetched ≡ (chart (codes "a") ∷ []) ++ rest)
    × Fresh (keys (chart (codes "a") ∷ [])) rest
    × All (Expanded fetch (keys walked.fetched)) walked.fetched
    × (walked.images ≡ collected fetch walked.fetched)
unfolding traverse_chart_levels text_eq
traverse_complete_example = traverse_complete fetch (chart (codes "a") ∷ []) walked refl refl
