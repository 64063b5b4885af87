-- ===== src/Communicator/Config/Idempotent.antt =====
-- Settings that are prepared already are prepared as they are.
use packer_plugin_sdk.Prelude.{
  ℕ, ◌≡◌, refl, sym, ap, ◌∙◌, Bool, true, false, not, ◌&&◌, String, if◌then◌else◌, ℤ, pos, arith,
  str_eq, Bool-cases, inl, inr,
}
use packer_plugin_sdk.Communicator.Config.{
  Ssh, WinRm, Config, Host, is_zero, is_empty, or_default, or_text, ntlm, timeout_of, ssh_defaults,
  winrm_defaults, prepare_ssh, prepare_winrm, prepare_kind, prepare, without_settings,
}

or_default_idem : (n : ℕ) (z : ℤ) → or_default n (or_default n z) ≡ or_default n z
or_default_idem n z = ground arith

or_text_idem : (s t : String) → or_text s (or_text s t) ≡ or_text s t
or_text_idem s t = ground arith

if_twice :
    {A : Type 0} (b : Bool) (f : A → A) (x : A)
    → f (f x) ≡ f x
    → (if b then f (if b then f x else x) else (if b then f x else x)) ≡ (if b then f x else x)
if_twice true f x h = h
if_twice false f x h = refl

module _ (t w a : ℤ) where
  abbrev unlimited : Bool
  unlimited = is_zero t && is_zero a

  abbrev new_timeout : ℤ
  new_timeout = if is_zero w then (if unlimited then pos 300000000000 else t) else w

  abbrev new_attempts : ℤ
  new_attempts = if unlimited then pos 10 else a

  limits_idem : is_zero new_timeout && is_zero new_attempts ≡ false
  limits_idem = go unlimited refl
    where
      go :
          (b : Bool)
          → b ≡ unlimited
          → is_zero (if is_zero w then (if b then pos 300000000000 else t) else w)
              && is_zero (if b then pos 10 else a)
            ≡ false
      go true h = ground arith
      go false h = ground arith

if_nested :
    {A : Type 0} (b : Bool) (x y : A)
    → (if b then (if b then x else y) else y) ≡ (if b then x else y)
if_nested true x y = refl
if_nested false x y = refl

if_again :
    {A : Type 0} (b : Bool) (x y : A)
    → (if b then x else (if b then x else y)) ≡ (if b then x else y)
if_again true x y = refl
if_again false x y = refl

ssh_defaults_idem : (c : Ssh) → ssh_defaults (ssh_defaults c) ≡ ssh_defaults c
unfolding ssh_defaults
ssh_defaults_idem c =
    let bastion = not (is_empty c.ssh_bastion_host) in
    rw
      (
        limits_idem c.ssh_timeout c.ssh_wait_timeout c.ssh_handshake_attempts,
        or_default_idem 22 c.ssh_port,
        or_default_idem 5000000000 c.ssh_keep_alive_interval,
        or_text_idem "scp" c.ssh_file_transfer_method,
        if_nested (is_zero c.ssh_wait_timeout) (timeout_of c) c.ssh_wait_timeout,
        if_twice bastion (or_default 22) c.ssh_bastion_port (or_default_idem 22 c.ssh_bastion_port),
        if_twice bastion (or_text c.ssh_private_key_file) c.ssh_bastion_private_key_file
            (or_text_idem _ _),
        if_twice bastion (or_text c.ssh_certificate_file) c.ssh_bastion_certificate_file
            (or_text_idem _ _),
        if_twice (not (is_empty c.ssh_proxy_host)) (or_default 1080) c.ssh_proxy_port
            (or_default_idem 1080 c.ssh_proxy_port),
      )
      (unfold ssh_defaults in refl)

winrm_defaults_idem : (c : WinRm) → winrm_defaults (winrm_defaults c) ≡ winrm_defaults c
unfolding winrm_defaults
winrm_defaults_idem c =
    rw
      (
        or_default_idem (if c.winrm_use_ssl then 5986 else 5985) c.winrm_port,
        or_default_idem 1800000000000 c.winrm_timeout,
        if_again c.winrm_use_ntlm ntlm c.winrm_transport_decorator,
      )
      (unfold winrm_defaults in refl)

module _ {Signer Certificate : Type 0} (lib : Host Signer Certificate) where
  prepare_kind_idem :
      (c : Config)
      → ((prepare_kind lib c).1.kind ≡ c.kind)
        × (prepare_kind lib (prepare_kind lib c).1 ≡ prepare_kind lib c)
  unfolding prepare_kind prepare_ssh prepare_winrm winrm_defaults
  prepare_kind_idem c = elim (Bool-cases (str_eq c.kind "ssh")) [
    | inl h ↦ rw (h, ssh_defaults_idem c.ssh) (refl, unfold prepare_kind prepare_ssh in rw h refl)
    | inr h ↦ elim (Bool-cases (str_eq c.kind "winrm")) [
      | inl k ↦
          rw (h, k, winrm_defaults_idem c.winrm)
            (refl, unfold prepare_kind prepare_winrm in rw (h, k) refl)
      | inr k ↦ elim (Bool-cases (without_settings c.kind)) [
        | inl d ↦ rw (h, k, d) (refl, unfold prepare_kind in rw (h, k, d) refl)
        | inr d ↦ rw (h, k, d) (refl, unfold prepare_kind in rw (h, k, d) refl)
      ]
    ]
  ]

  -- Settings that were prepared are prepared to themselves, with the errors they had.
  pub prepare_idem : (c : Config) → prepare lib (prepare lib c).1 ≡ prepare lib c
  unfolding prepare
  prepare_idem c = go (or_text "ssh" c.kind) (or_text_idem "ssh" c.kind)
    where
      go :
          (k : String)
          → or_text "ssh" k ≡ k
          → prepare lib (prepare_kind lib (record c { kind = k })).1
            ≡ prepare_kind lib (record c { kind = k })
      go k h =
          let p = prepare_kind_idem (record c { kind = k }) in
          let d = (prepare_kind lib (record c { kind = k })).1 in
          ap (λ n. prepare_kind lib (record d { kind = n })) (ap (or_text "ssh") p.0 ∙ h ∙ sym p.0)
          ∙ p.1
