-- ===== src/CommonSteps/Download/Shared.antt =====
-- The place of a download in the cache.
use packer_plugin_sdk.Prelude.{Result, failed, got, ℕ, ◌≡◌, true, List, arith, str_eq}
use packer_plugin_sdk.CommonSteps.Download.{
  StepDownload, UrlLib, is_checked, parse_source_url, use_source,
}

-- The path of a target.
abbrev pub path_of : {Url : Type 0} → Result (Url × List ℕ) → Result (List ℕ)
path_of (failed e) = failed e
path_of (got p) = got p.1

module _ {Url : Type 0} (lib : UrlLib Url) where
  -- With a checksum, and sources that are addresses with none in their query: both have one target, and
  -- finding it leaves the step as it was.
  pub use_source-shared :
      (s : StepDownload) (source other : List ℕ) (u v : Url)
      → is_checked s.checksum ≡ true
      → parse_source_url lib source ≡ got u
      → parse_source_url lib other ≡ got v
      → str_eq (lib.checksum u) "" ≡ true
      → str_eq (lib.checksum v) "" ≡ true
      → (path_of (use_source lib source s).0 ≡ path_of (use_source lib other s).0)
        × ((use_source lib source s).1 ≡ s)
  unfolding use_source
  use_source-shared s source other u v c hu hv nu nv = ground (arith, c, hu, hv, nu, nv)
