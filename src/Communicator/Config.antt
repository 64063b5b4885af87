-- ===== src/Communicator/Config.antt =====
-- communicator/config.go: the settings of a communicator, their defaults and their validation.
pub mod Idempotent
use packer_plugin_sdk.Prelude.{
  Result, failed, got, ℕ, zero, Bool, true, false, not, ◌&&◌, ◌||◌, Option, none, some, List, [],
  ◌∷◌, ◌++◌, String, if◌then◌else◌, ℤ, pos, join, text, str_eq,
}
use packer_plugin_sdk.Communicator.Tunnel.{NetLib, unset_tunnel, parse_tunnel_argument}
use packer_plugin_sdk.Communicator.Keys.{KeyLib, file_signer, file_signer_with_cert}

pub record SshTemporaryKeyPair : Type 0 where
  pub temporary_key_pair_type : String
  pub temporary_key_pair_bits : ℤ

-- `SSH`. A text that is empty is not set; tunnels are the code points of their texts.
pub record Ssh : Type 0 where
  pub ssh_host : String
  pub ssh_port : ℤ
  pub ssh_username : String
  pub ssh_password : String
  pub ssh_keypair_name : String
  pub ssh_temporary_key_pair_name : String
  pub ssh_temporary_key_pair : SshTemporaryKeyPair
  pub ssh_ciphers : List String
  pub ssh_clear_authorized_keys : Bool
  pub ssh_kex_algos : List String
  pub ssh_private_key_file : String
  pub ssh_certificate_file : String
  pub ssh_pty : Bool
  pub ssh_timeout : ℤ
  pub ssh_wait_timeout : ℤ
  pub ssh_agent_auth : Bool
  pub ssh_disable_agent_forwarding : Bool
  pub ssh_handshake_attempts : ℤ
  pub ssh_bastion_host : String
  pub ssh_bastion_port : ℤ
  pub ssh_bastion_agent_auth : Bool
  pub ssh_bastion_username : String
  pub ssh_bastion_password : String
  pub ssh_bastion_interactive : Bool
  pub ssh_bastion_private_key_file : String
  pub ssh_bastion_certificate_file : String
  pub ssh_file_transfer_method : String
  pub ssh_proxy_host : String
  pub ssh_proxy_port : ℤ
  pub ssh_proxy_username : String
  pub ssh_proxy_password : String
  pub ssh_keep_alive_interval : ℤ
  pub ssh_read_write_timeout : ℤ
  pub ssh_remote_tunnels : List (List ℕ)
  pub ssh_local_tunnels : List (List ℕ)
  pub ssh_public_key : List ℕ
  pub ssh_private_key : List ℕ

-- `WinRMTransportDecorator`: nil, the transport that `prepareWinRM` sets, or another.
pub data Decorator : Type 0 where
  no_decorator ntlm proxied proxied_ntlm : Decorator
  another : ℕ → Decorator

pub record WinRm : Type 0 where
  pub winrm_user : String
  pub winrm_password : String
  pub winrm_host : String
  pub winrm_no_proxy : Bool
  pub winrm_port : ℤ
  pub winrm_timeout : ℤ
  pub winrm_use_ssl : Bool
  pub winrm_insecure : Bool
  pub winrm_use_ntlm : Bool
  pub winrm_transport_decorator : Decorator

pub record Config : Type 0 where
  pub kind : String
  pub pause_before_connect : ℤ
  pub ssh : Ssh
  pub winrm : WinRm

-- What the settings are checked against: `net` and `strconv`, the home directories behind
-- `pathing.ExpandUser`, `os.Stat` with its error, and the files of keys.
pub record Host (Signer Certificate : Type 0) : Type 0 where
  pub net : NetLib
  pub expand_user : String → Result String
  pub stat : String → Option String
  pub keys : KeyLib Signer Certificate

abbrev pub is_empty : String → Bool
is_empty s = str_eq s ""

abbrev pub is_zero : ℤ → Bool
is_zero (pos zero) = true
is_zero z = false

-- A setting that is zero gets its default.
abbrev pub or_default : ℕ → ℤ → ℤ
or_default n z = if is_zero z then pos n else z

abbrev pub or_text : String → String → String
or_text s t = if is_empty t then s else t

abbrev pub fail_if : Bool → String → List String
fail_if b e = if b then e ∷ [] else []

-- `Config.Port`, `Config.Host`, `Config.User` and `Config.Password`
abbrev of_kind : {A : Type 0} → Config → A → A → A → A
of_kind c s w d = if str_eq c.kind "ssh" then s else if str_eq c.kind "winrm" then w else d

unfoldable pub port : Config → ℤ
port c = of_kind c c.ssh.ssh_port c.winrm.winrm_port (pos 0)

unfoldable pub host : Config → String
host c = of_kind c c.ssh.ssh_host c.winrm.winrm_host ""

unfoldable pub user : Config → String
user c = of_kind c c.ssh.ssh_username c.winrm.winrm_user ""

unfoldable pub password : Config → String
password c = of_kind c c.ssh.ssh_password c.winrm.winrm_password ""

-- The defaults that `prepareSSH` sets; times are in nanoseconds.
abbrev pub no_limits : Ssh → Bool
no_limits c = is_zero c.ssh_timeout && is_zero c.ssh_handshake_attempts

abbrev pub timeout_of : Ssh → ℤ
timeout_of c = if no_limits c then pos 300000000000 else c.ssh_timeout

unfoldable pub ssh_defaults : Ssh → Ssh
ssh_defaults c =
    let bastion = not (is_empty c.ssh_bastion_host) in
    record c {
      ssh_port = or_default 22 c.ssh_port;
      ssh_timeout = if is_zero c.ssh_wait_timeout then timeout_of c else c.ssh_wait_timeout;
      ssh_handshake_attempts = if no_limits c then pos 10 else c.ssh_handshake_attempts;
      ssh_keep_alive_interval = or_default 5000000000 c.ssh_keep_alive_interval;
      ssh_bastion_port = if bastion then or_default 22 c.ssh_bastion_port else c.ssh_bastion_port;
      ssh_bastion_private_key_file =
          if bastion
          then or_text c.ssh_private_key_file c.ssh_bastion_private_key_file
          else c.ssh_bastion_private_key_file;
      ssh_bastion_certificate_file =
          if bastion
          then or_text c.ssh_certificate_file c.ssh_bastion_certificate_file
          else c.ssh_bastion_certificate_file;
      ssh_proxy_port =
          if not (is_empty c.ssh_proxy_host)
          then or_default 1080 c.ssh_proxy_port
          else c.ssh_proxy_port;
      ssh_file_transfer_method = or_text "scp" c.ssh_file_transfer_method;
    }

unfoldable pub winrm_defaults : WinRm → WinRm
winrm_defaults c = record c {
  winrm_port = or_default (if c.winrm_use_ssl then 5986 else 5985) c.winrm_port;
  winrm_timeout = or_default 1800000000000 c.winrm_timeout;
  winrm_transport_decorator = if c.winrm_use_ntlm then ntlm else c.winrm_transport_decorator;
}

-- The kinds of communicator that have no settings to check.
abbrev pub without_settings : String → Bool
without_settings k = str_eq k "docker" || str_eq k "dockerWindowsContainer" || str_eq k "none"

module _ {Signer Certificate : Type 0} (lib : Host Signer Certificate) where
  abbrev pub signer_errors : String → Result Signer → List String
  signer_errors setting (failed e) = join setting (join " is invalid: " e) ∷ []
  signer_errors setting (got signer) = []

  -- The errors of a key that is set, with its certificate. A certificate whose path is not expanded
  -- leaves the empty path.
  unfoldable pub certificate_errors : String → String → String → List String
  certificate_errors setting path cert = elim (lib.expand_user cert) [
    | failed e ↦
        "invalid identity certificate: #{err}"
        ∷ signer_errors setting (file_signer_with_cert lib.keys path "")
    | got certificate_path ↦
        signer_errors setting (file_signer_with_cert lib.keys path certificate_path)
  ]

  unfoldable pub key_errors : String → String → String → List String
  key_errors setting key cert = elim (lib.expand_user key) [
    | failed e ↦ join setting (join " is invalid: " e) ∷ []
    | got path ↦ elim (lib.stat path) [
      | some e ↦ join setting (join " is invalid: " e) ∷ []
      | none ↦
          if is_empty cert
          then signer_errors setting (file_signer lib.keys path)
          else certificate_errors setting path cert
    ]
  ]

  unfoldable pub bastion_errors : Ssh → List String
  bastion_errors c =
      if is_empty c.ssh_bastion_host
      then []
      else if is_empty c.ssh_bastion_password
          && is_empty c.ssh_bastion_private_key_file
          && not c.ssh_bastion_agent_auth
      then "ssh_bastion_password, ssh_bastion_private_key_file or ssh_bastion_agent_auth must be specified"
        ∷ []
      else if is_empty c.ssh_bastion_private_key_file
      then []
      else key_errors "ssh_bastion_private_key_file" c.ssh_bastion_private_key_file
          c.ssh_bastion_certificate_file

  abbrev pub tunnel_error : String → List ℕ → List String
  tunnel_error setting v = elim (parse_tunnel_argument lib.net v unset_tunnel) [
    | failed e ↦ join setting (join " ('" (join (text v) (join "') is invalid: " e))) ∷ []
    | got spec ↦ []
  ]

  unfoldable pub tunnel_errors : String → List (List ℕ) → List String
  tunnel_errors setting [] = []
  tunnel_errors setting (v ∷ vs) = tunnel_error setting v ++ tunnel_errors setting vs

  -- The validation in `prepareSSH`, of settings that have their defaults.
  unfoldable pub ssh_errors : Ssh → List String
  ssh_errors c =
      fail_if (is_empty c.ssh_username)
        "An ssh_username must be specified\n  Note: some builders used to default ssh_username to \"root\"."
      ++ (if is_empty c.ssh_private_key_file
          then []
          else key_errors "ssh_private_key_file" c.ssh_private_key_file c.ssh_certificate_file)
      ++ bastion_errors c
      ++ fail_if
          (not (str_eq c.ssh_file_transfer_method "scp")
            && not (str_eq c.ssh_file_transfer_method "sftp"))
          (join "ssh_file_transfer_method ('"
            (join c.ssh_file_transfer_method "') is invalid, valid methods: sftp, scp"))
      ++ fail_if (not (is_empty c.ssh_bastion_host) && not (is_empty c.ssh_proxy_host))
          "please specify either ssh_bastion_host or ssh_proxy_host, not both"
      ++ tunnel_errors "ssh_local_tunnels" c.ssh_local_tunnels
      ++ tunnel_errors "ssh_remote_tunnels" c.ssh_remote_tunnels

  unfoldable pub prepare_ssh : Ssh → List String × Ssh
  prepare_ssh c = let d = ssh_defaults c in (ssh_errors d, d)

  unfoldable pub prepare_winrm : WinRm → List String × WinRm
  prepare_winrm c =
      (fail_if (is_empty c.winrm_user) "winrm_username must be specified.", winrm_defaults c)

  -- `Config.Prepare`: the errors and the settings it leaves.
  unfoldable pub prepare_kind : Config → List String × Config
  prepare_kind c =
      if str_eq c.kind "ssh"
      then (let p = prepare_ssh c.ssh in (p.0, record c { ssh = p.1 }))
      else if str_eq c.kind "winrm"
      then (let p = prepare_winrm c.winrm in (p.0, record c { winrm = p.1 }))
      else if without_settings c.kind
      then ([], c)
      else (join "Communicator type " (join c.kind " is invalid") ∷ [], c)

  unfoldable pub prepare : Config → List String × Config
  prepare c = prepare_kind (record c { kind = or_text "ssh" c.kind })
