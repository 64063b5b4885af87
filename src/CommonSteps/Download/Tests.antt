-- ===== src/CommonSteps/Download/Tests.antt =====
-- The download at concrete inputs.
use packer_plugin_sdk.Prelude.{
  got, ℕ, ◌≡◌, refl, false, Option, none, some, List, [], ◌∷◌, ◌++◌, String, if◌then◌else◌, ltb,
  length, str_eq, text, codes,
}
use packer_plugin_sdk.Multistep.StateBag.{Value, StateBag}
use packer_plugin_sdk.CommonSteps.Ui.{Ui}
use packer_plugin_sdk.CommonSteps.Download.{
  StepDownload, UrlLib, Files, downloaded, other_error, download_run, use_source, try_sources, keep,
  retrieve, download, after_get, parse_source_url, target, cache_path, has_suffix, source_of,
}
use packer_plugin_sdk.CommonSteps.Download.Retrieved.{Retrieved, download_run-Retrieved}
use packer_plugin_sdk.CommonSteps.Download.Shared.{path_of, use_source-shared}

abbrev Notes : Type 0
Notes = String → Option Value

abbrev notes : StateBag Notes
notes = record {
  get_ok = λ k s. s k;
  put = λ k v s j. if str_eq k j then some v else s j;
  remove = λ k s j. if str_eq k j then none else s j;
  get_ok-put = λ k j v s. refl;
  get_ok-remove = λ k j s. refl;
}

abbrev mute : Ui Notes notes
mute = record {
  error = λ m s. s;
  say = λ m s. s;
  get_ok-error = λ k m s. refl;
  get_ok-say = λ k m s. refl;
}

-- An address is its text, with no query, and the hash of a text is the text.
abbrev urls : UrlLib (List ℕ)
urls = record {
  goos = "linux";
  parse = λ source. got source;
  checksum = λ u. "";
  set_checksum = λ sum u. u;
  show = λ u. u;
  scheme = λ u. codes "https";
  path = λ u. u;
  to_slash = λ p. p;
  to_lower = λ p. p;
  clean = λ p. p;
  ext = λ p. [];
  path_join = λ p q. p ++ (b'/' ∷ q);
  abs = λ p. got p;
  sha1_hex = λ sum. sum;
  default_cache_dir = codes "cache";
  packer_cache_dir = [];
}

-- A client that only gets sources with a short address.
abbrev short_only : Files Notes
short_only = record {
  exists = λ p s. false;
  remove = λ p s. (none, s);
  lock = λ p s. s;
  unlock = λ p s. s;
  get = λ path source s.
      (if ltb (length source) 2 then downloaded path else other_error "not found", s);
}

abbrev iso : StepDownload
iso = record {
  checksum = "5f";
  description = "ISO";
  result_key = "iso_path";
  target_path = [];
  url = codes "ab" ∷ codes "c" ∷ [];
  extension = codes "iso";
}

abbrev blank : Notes
blank j = none

download_run-Retrieved_example :
    (let r =
        download_run urls mute short_only
          (λ p. Value.error (text p))
          (λ es. "")
          (λ i. false)
          iso
          blank in
      Retrieved urls mute short_only
        (λ p. Value.error (text p))
        (λ es. "")
        (λ i. false)
        0
        iso.url
        iso
        blank
        r.0
        r.2)
download_run-Retrieved_example =
    download_run-Retrieved urls mute short_only (λ p. Value.error (text p)) (λ es. "") (λ i. false)
      iso blank refl

-- The second source is the one that is kept.
second_kept :
    (download_run urls mute short_only
        (λ p. Value.error (text p))
        (λ es. "")
        (λ i. false)
        iso
        blank).2
      "SourceImageURL"
    ≡ some (Value.error "c")
unfolding download_run try_sources keep retrieve download after_get use_source parse_source_url
    target cache_path has_suffix source_of text str_eq
second_kept = refl

use_source-shared_example :
    (path_of (use_source urls (codes "ab") iso).0 ≡ path_of (use_source urls (codes "c") iso).0)
    × ((use_source urls (codes "ab") iso).1 ≡ iso)
unfolding str_eq parse_source_url
use_source-shared_example =
    use_source-shared urls iso (codes "ab") (codes "c") (codes "ab") (codes "c") refl refl refl refl
      refl
