-- ===== src/ShellLocal/Run/OnlyOn.antt =====
-- What `only_on` lets run.
use packer_plugin_sdk.Prelude.{
  ◌≡◌, refl, true, false, none, List, [], ◌∷◌, String, str_eq, str_eq_iff, elem, is_nil, All,
  Bool-cases, inl, inr,
}
use packer_plugin_sdk.ShellLocal.Config.{Config, Machine, supported_syslist, validate}
use packer_plugin_sdk.ShellLocal.Config.Accepts.{validate_only_on}
use packer_plugin_sdk.ShellLocal.Run.{Shell, Build, run}

not_in :
    (os : String) (oses : List String)
    → elem os supported_syslist ≡ true
    → All (λ o. elem o supported_syslist ≡ false) oses
    → elem os oses ≡ false
not_in os [] s h = refl
not_in os (o ∷ oses) s h = elim (Bool-cases (str_eq o os)) [
  | inl e ↦ cc ((str_eq_iff o os).0 e, s, h.0)
  | inr e ↦ rw e (not_in os oses s h.1)
]

module _ {S : Type 0} (shell : Shell S) (build : Build) where
  -- On a system of the list of supported ones: settings that are accepted, and that name any system in
  -- `only_on`, are never run, and the run reports no error.
  pub run-only_on :
      (m : Machine) (c : Config) (s : S)
      → elem m.goos supported_syslist ≡ true
      → is_nil c.only_on ≡ false
      → (validate m c).0 ≡ []
      → run shell build m (validate m c).1 s
        ≡ (true, none, shell.say "Skipping shell-local due to runtime OS" s)
  unfolding run
  run-only_on m c s known named ok =
      let v = validate_only_on m c ok in rw (v.0, named, not_in m.goos c.only_on known v.1)
