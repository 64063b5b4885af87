-- ===== src/Communicator/Prepared.antt =====
-- What settings that are prepared without an error can rely on: communicator/config.go against
-- communicator/step_connect_ssh.go.
use mathlib.Core.List.{append-eq-nil_iff}
use packer_plugin_sdk.Prelude.{
  Result, failed, got, ℕ, suc, ◌≡◌, refl, Bool, true, false, not, none, List, [], ◌∷◌, String, pos,
  arith, is_nil, All, Bool-cases, inl, inr, str_eq_refl,
}
use packer_plugin_sdk.Communicator.Tunnel.{
  NetLib, TunnelDirection, TunnelSpec, unset_tunnel, local_tunnel, remote_tunnel,
  parse_tunnel_argument,
}
use packer_plugin_sdk.Communicator.Config.{
  Ssh, Config, Host, is_empty, or_text, certificate_errors, key_errors, bastion_errors,
  tunnel_error, tunnel_errors, ssh_errors, ssh_defaults, prepare_ssh, prepare_kind, prepare,
}
use packer_plugin_sdk.Communicator.Auth.{
  ClientConfig, Session, bastion_signer, bastion_key_methods, ssh_bastion_config,
}
use packer_plugin_sdk.Communicator.Connect.{
  Turn, parse_tunnels, tunnels_of, start, bastion_config, wait_for_ssh, loop,
}
use packer_plugin_sdk.Communicator.Connect.Attempts.{succeeds, Classified, loop_lem}

got_of : {A : Type 0} (r : Result A) → succeeds r ≡ true → (a : A) × (r ≡ got a)
got_of (failed e) h = cc
got_of (got a) h = (a, refl)

module _ (net : NetLib) where
  parses_any_way :
      (v : List ℕ) (d : TunnelDirection)
      → succeeds (parse_tunnel_argument net v d)
        ≡ succeeds (parse_tunnel_argument net v unset_tunnel)
  unfolding parse_tunnel_argument
  parses_any_way v d = ground arith

module _ {Signer Certificate : Type 0} (lib : Host Signer Certificate) where
  tunnel-parses :
      (setting : String) (v : List ℕ)
      → tunnel_error lib setting v ≡ []
      → succeeds (parse_tunnel_argument lib.net v unset_tunnel) ≡ true
  tunnel-parses setting v h = ground arith

  signer-succeeds :
      (setting key cert : String)
      → key_errors lib setting key cert ≡ []
      → succeeds (bastion_signer lib key cert) ≡ true
  unfolding key_errors certificate_errors bastion_signer
  signer-succeeds setting key cert h = ground arith

  parse_tunnels-succeeds :
      (setting : String) (d : TunnelDirection) (vs : List (List ℕ))
      → tunnel_errors lib setting vs ≡ []
      → succeeds (parse_tunnels lib.net d vs) ≡ true
  unfolding parse_tunnels tunnel_errors
  parse_tunnels-succeeds setting d [] h = refl
  parse_tunnels-succeeds setting d (v ∷ vs) h =
      let parts = (append-eq-nil_iff {p = tunnel_error lib setting v}).0 h in
      ground (
        arith,
        parses_any_way lib.net v d,
        tunnel-parses setting v parts.0,
        parse_tunnels-succeeds setting d vs parts.1,
      )

  -- The errors of a bastion host, of the local and of the remote tunnels.
  errors-parts :
      (c : Ssh)
      → ssh_errors lib c ≡ []
      → (bastion_errors lib c ≡ [])
        × (tunnel_errors lib "ssh_local_tunnels" c.ssh_local_tunnels ≡ [])
        × (tunnel_errors lib "ssh_remote_tunnels" c.ssh_remote_tunnels ≡ [])
  unfolding ssh_errors
  errors-parts c h =
      let remote = append-eq-nil_iff.0 h in
      let local = append-eq-nil_iff.0 remote.0 in
      let both = append-eq-nil_iff.0 local.0 in
      let method = append-eq-nil_iff.0 both.0 in
      let bastion = append-eq-nil_iff.0 method.0 in (bastion.1, local.1, remote.1)

  tunnels-parse : (c : Ssh) → ssh_errors lib c ≡ [] → succeeds (tunnels_of lib.net c) ≡ true
  unfolding tunnels_of
  tunnels-parse c h =
      let parts = errors-parts c h in
      ground (
        arith,
        parse_tunnels-succeeds "ssh_local_tunnels" local_tunnel c.ssh_local_tunnels parts.1,
        parse_tunnels-succeeds "ssh_remote_tunnels" remote_tunnel c.ssh_remote_tunnels parts.2,
      )

  module _ (session : Session) where
    -- The configuration is there, with a method to authenticate with.
    abbrev offers : Result (ClientConfig Signer) → Bool
    offers (failed e) = false
    offers (got config) = not (is_nil config.auth)

    bastion-offers :
        (c : Ssh)
        → bastion_errors lib c ≡ []
        → is_empty c.ssh_bastion_host ≡ false
        → session.tty ≡ none
        → is_empty session.auth_sock ≡ false
        → session.dial session.auth_sock ≡ none
        → offers (ssh_bastion_config lib session c) ≡ true
    unfolding bastion_errors ssh_bastion_config bastion_key_methods
    bastion-offers c h host tty sock dial = ground (
      arith,
      signer-succeeds "ssh_bastion_private_key_file" c.ssh_bastion_private_key_file
          c.ssh_bastion_certificate_file,
    )

    -- Settings for SSH that were prepared without an error, in a session whose terminal can be opened
    -- and whose agent can be reached.
    module _ (c : Config) (ssh : or_text "ssh" c.kind ≡ "ssh") (prepared : (prepare lib c).0 ≡ [])
        (tty : session.tty ≡ none) (sock : is_empty session.auth_sock ≡ false)
        (dial : session.dial session.auth_sock ≡ none) where
      prepare-ssh :
          ((prepare lib c).0 ≡ ssh_errors lib (ssh_defaults c.ssh))
          × ((prepare lib c).1.ssh ≡ ssh_defaults c.ssh)
      unfolding prepare prepare_kind prepare_ssh
      prepare-ssh = rw (ssh, str_eq_refl "ssh") (refl, refl)

      clean : ssh_errors lib (prepare lib c).1.ssh ≡ []
      clean = rw (prepare-ssh.1, ← prepare-ssh.0) prepared

      -- The configuration for the bastion host is made from the settings without an error, and it has
      -- a method to authenticate with.
      pub ssh_bastion_config-prepared :
          is_empty (prepare lib c).1.ssh.ssh_bastion_host ≡ false
          → (config : ClientConfig Signer) × (ssh_bastion_config lib session (prepare lib c).1.ssh
              ≡ got config)
            × (is_nil config.auth ≡ false)
      ssh_bastion_config-prepared host =
          offered _
            (bastion-offers (prepare lib c).1.ssh (errors-parts _ clean).0 host tty sock dial)
        where
          offered :
              (r : Result (ClientConfig Signer))
              → offers r ≡ true
              → (config : ClientConfig Signer) × (r ≡ got config) × (is_nil config.auth ≡ false)
          offered (failed e) h = cc
          offered (got config) h = (config, refl, ground arith)

      bastion_config-prepared : succeeds (bastion_config lib session (prepare lib c).1.ssh) ≡ true
      unfolding bastion_config
      bastion_config-prepared =
          elim (Bool-cases (is_empty (prepare lib c).1.ssh.ssh_bastion_host)) [
            | inl none_set ↦ rw none_set
            | inr host ↦ rw (host, (ssh_bastion_config-prepared host).1)
          ]

      loop-entered :
          (contains : String → String → Bool) (ts : List Turn)
          → wait_for_ssh lib session contains ts (prepare lib c).1.ssh
            ≡ loop lib.net contains true ts 0 (start (prepare lib c).1.ssh)
      unfolding wait_for_ssh
      loop-entered contains ts = rw ((got_of _ bastion_config-prepared).1, wait_for_ssh)

      -- No error of the settings themselves ends the wait.
      pub wait_for_ssh-prepared :
          (contains : String → String → Bool) (m : ℕ) (ts : List Turn)
          → (prepare lib c).1.ssh.ssh_handshake_attempts ≡ pos (suc m)
          → All (λ t. t.done ≡ false) ts
          → (specs : List TunnelSpec) × (tunnels_of lib.net (prepare lib c).1.ssh ≡ got specs)
            × Classified lib.net contains specs m ts
                (wait_for_ssh lib session contains ts (prepare lib c).1.ssh).0
      wait_for_ssh-prepared contains m ts limit d =
          let parsed = got_of _ (tunnels-parse (prepare lib c).1.ssh clean) in
          (
            parsed.0,
            parsed.1,
            rw (loop-entered contains ts) (
                loop_lem lib.net contains parsed.0 m ts (start (prepare lib c).1.ssh) parsed.1 limit
                  d),
          )
