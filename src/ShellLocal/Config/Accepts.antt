-- ===== src/ShellLocal/Config/Accepts.antt =====
-- Which settings of shell-local are accepted.
use mathlib.Core.List.{append-eq-nil_iff}
use mathlib.Core.Bool.{false≢true}
use packer_plugin_sdk.Prelude.{
  ℕ, ◌≡◌, refl, sym, ◌∙◌, ◌↔◌, Bool-cases, inl, inr, join, text, Bool, true, false, not, ◌&&◌, none,
  some, List, [], ◌∷◌, ◌++◌, String, if◌then◌else◌, arith, elem, is_nil, is_some, All,
}
use packer_plugin_sdk.ShellLocal.Config.{
  Config, Machine, items, no_command, set_defaults, take_command, take_script, take_sources,
  bad_scripts, supported_syslist, invalid_os, is_variable, bad_variables, finish, with_pathing,
  validate,
}

-- Exactly one of the four ways to say what is run is taken; next to scripts, `inline` is nil.
abbrev pub one_source : Config → Bool
one_source c =
    if not (no_command c)
    then is_nil (items c.inline) && is_nil c.scripts && is_nil c.script
    else if not (is_nil c.script)
    then is_nil c.scripts && not (is_some c.inline)
    else if not (is_nil c.scripts)
    then not (is_some c.inline)
    else not (is_nil (items c.inline))

take_sources_iff : (c : Config) → ((take_sources c).0 ≡ []) ↔ (one_source c ≡ true)
unfolding take_sources take_command take_script
take_sources_iff c = (λ h. ground arith, λ h. ground arith)

bad_scripts_iff :
    (m : Machine) (paths : List (List ℕ))
    → (bad_scripts m paths ≡ []) ↔ All (λ path. m.stat path ≡ none) paths
unfolding bad_scripts
bad_scripts_iff m [] = (λ h. tt, λ h. refl)
bad_scripts_iff m (p ∷ ps) =
    let ih = bad_scripts_iff m ps in
    (
      λ h. let parts = append-eq-nil_iff.0 h in (there p parts.0, ih.0 parts.1),
      λ h. rw (h.0, ih.1 h.1),
    )
  where
    there :
        (p : List ℕ)
        → (elim (m.stat p) [
          | none ↦ []
          | some e ↦ join "Bad script '" (join (text p) (join "': " e)) ∷ []
        ])
          ≡ []
        → m.stat p ≡ none
    there p h = ground arith

invalid_os_iff :
    (oses : List String)
    → (invalid_os oses ≡ none) ↔ All (λ os. elem os supported_syslist ≡ false) oses
unfolding invalid_os
invalid_os_iff [] = (λ h. tt, λ h. refl)
invalid_os_iff (os ∷ oses) =
    let ih = invalid_os_iff oses in
    elim (Bool-cases (elem os supported_syslist)) [
      | inl b ↦ (λ h. absurd (supported b h), λ h. absurd (false≢true (sym h.0 ∙ b)))
      | inr b ↦ (λ h. (b, ih.0 (unsupported b h)), λ h. rw (b, invalid_os) (ih.1 h.1))
    ]
  where
    supported : elem os supported_syslist ≡ true → invalid_os (os ∷ oses) ≡ none → ⊥
    supported b h = ground arith

    unsupported :
        elem os supported_syslist ≡ false → invalid_os (os ∷ oses) ≡ none → invalid_os oses ≡ none
    unsupported b h = ground arith

bad_variables_iff :
    (kvs : List (List ℕ)) → (bad_variables kvs ≡ []) ↔ All (λ kv. is_variable kv ≡ true) kvs
unfolding bad_variables
bad_variables_iff [] = (λ h. tt, λ h. refl)
bad_variables_iff (kv ∷ kvs) = elim (Bool-cases (is_variable kv)) [
  | inl b ↦ rw b (λ h. (refl, (bad_variables_iff kvs).0 h), λ h. (bad_variables_iff kvs).1 h.1)
  | inr b ↦ rw b (λ h. cc, λ h. absurd (false≢true h.0))
]

-- The scripts that are run from files.
abbrev pub script_files : Config → List (List ℕ)
script_files c = if is_nil c.script then c.scripts else c.script ∷ []

module _ (m : Machine) (c : Config) where
  abbrev taken : List String × Config
  taken = take_sources (set_defaults m c)

  -- What the defaults and the four ways to say what is run leave alone.
  taken_kept :
      (one_source (set_defaults m c) ≡ one_source c)
      × (taken.1.only_on ≡ c.only_on)
      × (taken.1.vars ≡ c.vars)
      × (taken.1.use_linux_pathing ≡ c.use_linux_pathing)
  unfolding take_sources take_command take_script set_defaults
  taken_kept = (ground arith, ground arith, ground arith, ground arith)

  taken-scripts : one_source c ≡ true → taken.1.scripts ≡ script_files c
  unfolding take_sources take_command take_script set_defaults
  taken-scripts h = ground arith

  validate_errors :
      c.use_linux_pathing ≡ false
      → invalid_os c.only_on ≡ none
      → (validate m c).0 ≡ (taken.0 ++ bad_scripts m taken.1.scripts) ++ bad_variables c.vars
  unfolding validate with_pathing finish
  validate_errors l o = let k = taken_kept in ground (arith, k.1, k.2, k.3)

  validate_os : (validate m c).0 ≡ [] → invalid_os c.only_on ≡ none
  unfolding validate
  validate_os h = let k = taken_kept in ground (arith, k.1)

  -- Settings that are not for the Windows subsystem for Linux are accepted exactly if one of the four
  -- ways to say what is run is taken, every script file can be found, no system in `only_on` is in the
  -- list of supported systems, and every variable has a name and an equals sign.
  pub validate_ok_iff :
      c.use_linux_pathing ≡ false
      → ((validate m c).0 ≡ []) ↔ (
          (one_source c ≡ true)
          × All (λ path. m.stat path ≡ none) (script_files c)
          × All (λ os. elem os supported_syslist ≡ false) c.only_on
          × All (λ kv. is_variable kv ≡ true) c.vars)
  validate_ok_iff l = (forth, back)
    where
      forth :
          (validate m c).0 ≡ []
          → (one_source c ≡ true)
            × All (λ path. m.stat path ≡ none) (script_files c)
            × All (λ os. elem os supported_syslist ≡ false) c.only_on
            × All (λ kv. is_variable kv ≡ true) c.vars
      forth h =
          let o = validate_os h in
          let parts =
            (append-eq-nil_iff {p = taken.0 ++ bad_scripts m taken.1.scripts}).0
              (sym (validate_errors l o) ∙ h) in
          let before = append-eq-nil_iff.0 parts.0 in
          let one = sym taken_kept.0 ∙ (take_sources_iff (set_defaults m c)).0 before.0 in
          (
            one,
            rw (taken-scripts one) at ((bad_scripts_iff m taken.1.scripts).0 before.1),
            (invalid_os_iff c.only_on).0 o,
            (bad_variables_iff c.vars).0 parts.1,
          )

      back :
          (one_source c ≡ true)
            × All (λ path. m.stat path ≡ none) (script_files c)
            × All (λ os. elem os supported_syslist ≡ false) c.only_on
            × All (λ kv. is_variable kv ≡ true) c.vars
          → (validate m c).0 ≡ []
      back h =
          rw
            (
              validate_errors l ((invalid_os_iff c.only_on).1 h.2),
              (take_sources_iff (set_defaults m c)).1 (taken_kept.0 ∙ h.0),
              taken-scripts h.0,
              (bad_scripts_iff m (script_files c)).1 h.1,
              (bad_variables_iff c.vars).1 h.3,
            )
            refl

  -- Settings that are accepted keep the systems of `only_on`, none of which is a supported one.
  pub validate_only_on :
      (validate m c).0 ≡ []
      → ((validate m c).1.only_on ≡ c.only_on)
        × All (λ os. elem os supported_syslist ≡ false) c.only_on
  unfolding validate with_pathing finish
  validate_only_on h =
      let k = taken_kept in (ground (arith, k.1), (invalid_os_iff c.only_on).0 (validate_os h))
