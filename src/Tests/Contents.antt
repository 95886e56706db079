-- ===== src/Tests/Contents.antt =====
-- Two documents that name the same store, which the first of them opens.
use hauler.Base.{
  inr, Option, if◌then◌else◌, none, false, ℕ, suc, ◌≡◌, refl, false, none, some, [], ◌∷◌, Text,
  codes, text_eq,
}
use hauler.Base.Int.{pos}
use hauler.Base.Dict
use hauler.Base.Dict.{Dict}
use hauler.Command.Content.{
  Document, files, other_kind, unsupported_kind, SyncEnv, process_content, process_document,
  with_store, ran,
}
use hauler.Command.Documents.{resolve_target_store, resolve_doc_retries}
use hauler.Command.Content.Opening.{IsOpen, process_content-IsOpen}
use hauler.Tests.Resolving.{lib, opts}

abbrev env : SyncEnv (Unit {0}) Text ℕ
env = record {
  options = opts;
  lib = lib;
  expand = λ t. some t;
  getenv = λ t. [];
  join = λ t. t;
  atoi = λ t. none;
  resolve_dir = λ t. some (b'/' ∷ t);
  open_store = λ t. some t;
  root = codes "/default";
  default_store = codes "default";
  store_set = false;
  retries = pos 1;
  retries_set = false;
  run_files = λ s r jobs w. (none, suc w);
  run_images = λ s r jobs w. (none, w);
  run_charts = λ s r jobs w. (none, w);
}

abbrev document : Document
document = files (codes "v1") (some ((codes "hauler.dev/store", codes "t") ∷ [], []))

-- the store is opened once, both documents run their jobs, and a third ends the manifest
opened_once :
    process_content env (document ∷ document ∷ other_kind ∷ []) (0, [])
    ≡ (some unsupported_kind, (2, (codes "/t", codes "/t") ∷ []))
unfolding process_content process_document with_store ran resolve_target_store resolve_doc_retries
    Dict.get_or Dict.lookup Dict.insert text_eq
opened_once = refl

-- opening the store again would fail
abbrev closed : Text → Option Text
closed p = if text_eq p (codes "/t") then none else some p

closed-elsewhere : (p : Text) → text_eq p (codes "/t") ≡ false → closed p ≡ env.open_store p
closed-elsewhere p other = rw other refl

abbrev named : Dict Text
named = (codes "hauler.dev/store", codes "t") ∷ []

abbrev opened : Dict Text
opened = (codes "/t", codes "/t") ∷ []

process_content-IsOpen_example :
    let after = (process_content env (document ∷ other_kind ∷ []) (0, opened)).1.1 in
    (process_content env (document ∷ other_kind ∷ []) (0, opened)
      ≡ process_content
          (record env { open_store = closed })
          (document ∷ other_kind ∷ [])
          (0, opened))
    × IsOpen (codes "/t") (codes "/t") after
    × (resolve_target_store env.resolve_dir env.open_store named env.root env.default_store after
          env.store_set
        ≡ inr (codes "/t", after))
unfolding Dict.get_or Dict.lookup text_eq
process_content-IsOpen_example =
    process_content-IsOpen env (codes "/t") (codes "/t") closed closed-elsewhere
      (document ∷ other_kind ∷ []) (0, opened) named refl (refl, refl, refl)
