-- ===== src/Communicator/Connect.antt =====
-- communicator/step_connect_ssh.go: the loop of `waitForSSH`, which ends with a connection, an error,
-- or not at all.
pub mod Attempts
use packer_plugin_sdk.Prelude.{
  Result, failed, got, ℕ, zero, suc, Bool, true, false, not, ◌&&◌, Option, none, some, List, [],
  ◌∷◌, ◌++◌, String, if◌then◌else◌, ℤ, pos, negsuc, join, leb,
}
use packer_plugin_sdk.Communicator.Tunnel.{
  NetLib, TunnelDirection, TunnelSpec, local_tunnel, remote_tunnel, parse_tunnel_argument,
}
use packer_plugin_sdk.Communicator.Config.{Ssh, Host, is_empty}
use packer_plugin_sdk.Communicator.Auth.{ClientConfig, Session, ◌>>=◌, explain, ssh_bastion_config}

-- What one turn of the loop meets: whether the context is done before it, which the first turn does not
-- ask; the answers of the callbacks `Host`, `SSHPort` and `SSHConfig`, of which `SSHPort` may be nil;
-- the error of the connection; and what `ssh.New` gives for the tunnels.
pub record Turn : Type 0 where
  pub done : Bool
  pub host : Result String
  pub ssh_port : Option (Result ℤ)
  pub ssh_config : Option String
  pub connection : Option String
  pub new : List TunnelSpec → Result ℕ

-- The settings that the loop writes to, and whether the bag has them as "communicator_config".
pub record Waiting : Type 0 where
  pub config : Ssh
  pub shown : Bool

pub data Outcome : Type 0 where
  connected : ℕ → Outcome
  ended : String → Outcome
  waiting : Outcome

-- What a turn leads to: the next one, with the count of attempts, or the end.
pub data Next : Type 0 where
  continue : ℕ → Waiting → Next
  stop : Outcome → Waiting → Next

-- `s.Config.SSHHandshakeAttempts > 0 && handshakeAttempts >= s.Config.SSHHandshakeAttempts`
abbrev pub limit_reached : ℤ → ℕ → Bool
limit_reached (pos zero) n = false
limit_reached (pos (suc m)) n = leb (suc m) n
limit_reached (negsuc m) n = false

abbrev pub set_host : String → Waiting → Waiting
set_host h s = record s { config = record s.config { ssh_host = h } }

abbrev pub set_port : ℤ → Waiting → Waiting
set_port p s = record s { config = record s.config { ssh_port = p } }

abbrev pub show_config : Waiting → Waiting
show_config s = record s { shown = true }

module _ (net : NetLib) where
  unfoldable pub parse_tunnels : TunnelDirection → List (List ℕ) → Result (List TunnelSpec)
  parse_tunnels direction [] = got []
  parse_tunnels direction (v ∷ vs) = elim (parse_tunnel_argument net v direction) [
    | failed e ↦ failed e
    | got spec ↦ elim (parse_tunnels direction vs) [
      | failed e ↦ failed e
      | got specs ↦ got (spec ∷ specs)
    ]
  ]

  -- The local tunnels and then the remote ones.
  unfoldable pub tunnels_of : Ssh → Result (List TunnelSpec)
  tunnels_of c = elim (parse_tunnels local_tunnel c.ssh_local_tunnels) [
    | failed e ↦ failed e
    | got local ↦ elim (parse_tunnels remote_tunnel c.ssh_remote_tunnels) [
      | failed e ↦ failed e
      | got remote ↦ got (local ++ remote)
    ]
  ]

-- `strings.Contains` is a parameter.
module _ (net : NetLib) (contains : String → String → Bool) where
  abbrev pub is_authentication : String → Bool
  is_authentication e = contains e "authenticate"

  -- From the error of `ssh.New` on.
  unfoldable pub after_error : ℕ → String → Waiting → Next
  after_error attempts e s =
      if is_authentication e
      then (if limit_reached s.config.ssh_handshake_attempts (suc attempts)
          then stop
              (ended (
                join
                  "Packer experienced an authentication error when trying to connect via SSH. This can happen if your username/password are wrong. You may want to double-check your credentials as part of your debugging process. original error: "
                  e))
              s
          else continue (suc attempts) s)
      else (if limit_reached s.config.ssh_handshake_attempts attempts
          then stop (ended e) s
          else continue attempts s)

  -- From the parsing of the tunnels on.
  unfoldable pub handshake : Turn → ℕ → Waiting → Next
  handshake t attempts s = elim (tunnels_of net s.config) [
    | failed e ↦ stop (ended (join "Error parsing port forwarding: " e)) s
    | got tunnels ↦ elim (t.new tunnels) [
      | failed e ↦ after_error attempts e s
      | got comm ↦ stop (connected comm) s
    ]
  ]

  -- From the retrieval of the SSH configuration on.
  unfoldable pub with_address : Turn → ℕ → Waiting → Next
  with_address t attempts s = elim t.ssh_config [
    | some e ↦ continue attempts s
    | none ↦ elim t.connection [ some e ↦ continue attempts s | none ↦ handshake t attempts s ]
  ]

  unfoldable pub with_host : Turn → ℕ → Waiting → Next
  with_host t attempts s = elim t.ssh_port [
    | none ↦ with_address t attempts (show_config s)
    | some r ↦ elim r [
      | failed e ↦ continue attempts s
      | got p ↦ with_address t attempts (show_config (set_port p s))
    ]
  ]

  -- One turn of the loop.
  unfoldable pub turn : Bool → Turn → ℕ → Waiting → Next
  turn first t attempts s =
      if not first && t.done then stop (ended "SSH wait cancelled") s else elim t.host [
        | failed e ↦ continue attempts s
        | got h ↦ with_host t attempts (set_host h s)
      ]

  unfoldable pub loop : Bool → List Turn → ℕ → Waiting → Outcome × Waiting
  loop first [] attempts s = (waiting, s)
  loop first (t ∷ ts) attempts s = elim (turn first t attempts s) [
    | continue n u ↦ loop false ts n u
    | stop o u ↦ (o, u)
  ]

abbrev pub start : Ssh → Waiting
start c = record { config = c; shown = false }

module _ {Signer Certificate : Type 0} (lib : Host Signer Certificate) (session : Session) where
  -- The configuration of the bastion host, if there is one.
  unfoldable pub bastion_config : Ssh → Result (Option (ClientConfig Signer))
  bastion_config c =
      if is_empty c.ssh_bastion_host
      then got none
      else explain "Error configuring bastion: " (ssh_bastion_config lib session c) >>= λ config.
          got (some config)

  -- `waitForSSH`: the bastion, `handshakeAttempts := 0`, and the loop.
  unfoldable pub wait_for_ssh : (String → String → Bool) → List Turn → Ssh → Outcome × Waiting
  wait_for_ssh contains ts c = elim (bastion_config c) [
    | failed e ↦ (ended e, start c)
    | got bastion ↦ loop lib.net contains true ts 0 (start c)
  ]
