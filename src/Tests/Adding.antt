-- ===== src/Tests/Adding.antt =====
-- An image with one layer that is added, verified and stored, and a walk of three charts.
use hauler.Base.{
  contains_byte, has_prefix, trim_space, refl, true, Option, none, some, [], ◌∷◌, ◌++◌, Text, codes,
  text_eq, arith, length,
}
use hauler.Store.Add.Writing.{
  write_image, write_image_blobs, write_layers, write_layer, put_blob, write_blob_data, put_index,
  described, short_name, trim_prefix,
}
use hauler.Content.Index.Operations.{add_index, already_stored}
use hauler.Base.Int.{pos}
use hauler.Base.Dict
use hauler.Content.Reference.{parse, text_of, Named, tag}
use hauler.Content.Index.{
  save_index, after_rename, before_rename, entry_key, save_index_checkpoint, missing, SaveIo,
  new_oci,
}
use hauler.Content.Blob.{write_blob, is_cached, write_blob_shared, DigestLib, Flight}
use hauler.Store.Add.{Layout, WriteIo, Layer, Image, ImageRef, Registry}
use hauler.Store.Add.Images.{add_fetched, add_single_image, fetch_name, platform_option, add_image}
use hauler.Store.Add.Artifacts.{Artifact, add_artifact}
use hauler.Store.Add.Listing.{IsFaithful}
use hauler.Store.Add.Delivering.{Added}
use hauler.Store.Add.Delivery.{add_image-delivers}
use hauler.Store.Add.Backed.{IsBacked, added_image, added_artifact, here, next, Reach-IsBacked}

abbrev pub lib : DigestLib
lib = record { algorithm = λ d. codes "s"; hex = λ d. d; from_bytes = λ c. c }

abbrev pub parse_reference : Text → Option Named
parse_reference [] = none
parse_reference (c ∷ t) = some (tag (c ∷ t) (c ∷ t))

abbrev flight_of : Text → Flight
flight_of content = record {
  size = pos (length content);
  attempt = record {
    acquired = none;
    live = true;
    create = true;
    opened = true;
    streamed = content;
    copied = none;
    close_reader = true;
    chmod = true;
    sync = true;
    close = true;
    rename = true;
  };
}

abbrev write_of : Text → WriteIo
write_of content = record {
  started = true;
  mkdir = true;
  live = true;
  first = flight_of content;
  second = flight_of content;
}

abbrev layer : Layer
layer = record {
  digest = some (codes "l");
  parsed = true;
  size = some (pos 1);
  io = write_of (codes "l");
}

abbrev pub image : Image
image = record {
  layers = some (layer ∷ []);
  config = some (codes "c");
  config_io = write_of (codes "c");
  manifest = some (codes "m");
  manifest_io = write_of (codes "m");
  media_type = some (codes "t");
  digest = some (codes "m");
  parsed = true;
}

abbrev pub image_ref : ImageRef
image_ref = record { name = codes "r/h/a:1"; registry = codes "r"; context = codes "r/h/a" }

abbrev pub registry : Registry
registry = record {
  transport = true;
  parse = λ name. some image_ref;
  at_digest = λ ref d. ref.context ++ codes "@" ++ d;
  new_digest = λ name. none;
  get = λ name. some (record { digest = codes "m"; as_index = none });
  image = λ name p. some image;
  referrers = λ name. none;
}

abbrev pub save : SaveIo
save = record {
  create = true;
  write = true;
  chmod = true;
  sync = true;
  close = true;
  rename = true;
  sync_dir = true;
}

abbrev pub start : Layout
start = record {
  oci = record (new_oci missing) { index = some [] };
  blobs = record { blobs = []; cached = 0; written = 0; bytes_written = 0 };
}

start-IsBacked : IsBacked lib start
start-IsBacked = record { entries = tt; listed = tt }

pub registry-IsFaithful : IsFaithful lib registry
registry-IsFaithful = record {
  image_exact = λ name p img found m d manifest digest. ground (arith, found, manifest, digest);
  index_exact = λ name d i got multi m t raw digest. absurd (ground (arith, got, multi));
}

add_image-delivers_example :
    Added lib registry
      (codes "a")
      []
      (codes "m")
      (codes "m")
      (add_image lib parse_reference save 7 true registry
        (codes "a")
        []
        true
        (codes "m")
        start).1.blobs
unfolding add_image text_eq write_image write_image_blobs write_layers write_layer put_blob
    write_blob is_cached Dict.lookup write_blob_shared write_blob_data Dict.insert put_index
    add_index described parse Dict.get_or contains_byte has_prefix trim_space already_stored
    save_index after_rename before_rename entry_key save_index_checkpoint text_of add_fetched
    add_single_image fetch_name platform_option short_name trim_prefix
add_image-delivers_example =
    add_image-delivers lib parse_reference save 7 true registry registry-IsFaithful (codes "a") []
      true (codes "m") start (codes "m") refl

abbrev bundle : Artifact
bundle = record {
  manifest = some (codes "f");
  media_type = codes "t";
  manifest_io = write_of (codes "f");
  config = some (codes "c");
  config_io = write_of (codes "c");
  layers = some (layer ∷ []);
}

abbrev after_image : Layout
after_image = (add_image lib parse_reference save 7 true registry (codes "a") [] true [] start).1

Reach-IsBacked_example :
    IsBacked lib (add_artifact lib parse_reference save 7 bundle (codes "h/f:1") after_image).1
Reach-IsBacked_example = Reach-IsBacked lib parse_reference start-IsBacked (
    next
      (next here
        (added_image save 7 true registry (codes "a") [] true [] start registry-IsFaithful))
      (added_artifact save 7 bundle (codes "h/f:1") after_image))
