-- ===== src/Communicator/Tests.antt =====
-- Settings, certificates, waits and connections at concrete inputs.
use packer_plugin_sdk.Prelude.{
  failed, got, ℕ, ◌≡◌, refl, ◌↔◌, Bool, true, false, Option, none, some, String, List, [], ◌∷◌, pos,
  is_nil, if◌then◌else◌, str_eq, lookup,
}
use packer_plugin_sdk.Multistep.StateBag.{Value, StateBag}
use packer_plugin_sdk.Multistep.Step.{action_continue, plain, Step}
use packer_plugin_sdk.CommonSteps.Ui.{Ui}
use packer_plugin_sdk.Communicator.Tunnel.{TunnelSpec, split_colon, parse_tunnel_argument}
use packer_plugin_sdk.Communicator.Keys.{KeyLib, parse_key_file, file_signer}
use packer_plugin_sdk.Communicator.Config.{
  Ssh, no_decorator, Config, Host, key_errors, bastion_errors, tunnel_errors, ssh_errors,
  ssh_defaults, prepare_ssh, prepare_kind, prepare,
}
use packer_plugin_sdk.Communicator.Config.Idempotent.{prepare_idem}
use packer_plugin_sdk.Communicator.Auth.{
  ClientConfig, Session, ssh_bastion_config, agent_keys, public_keys, password,
  password_interactive, ssh_config_func, private_keys, read_ssh_private_key_file, key_methods,
  key_signer,
}
use packer_plugin_sdk.Communicator.Connect.{Turn, tunnels_of, wait_for_ssh}
use packer_plugin_sdk.Communicator.Connect.Attempts.{Classified}
use packer_plugin_sdk.Communicator.Prepared.{ssh_bastion_config-prepared, wait_for_ssh-prepared}
use packer_plugin_sdk.Communicator.WaitForWinRm
use packer_plugin_sdk.Communicator.WaitForWinRm.{
  Process, turn, with_host, with_user, with_proxy, dial, check, wait_loop,
}
use packer_plugin_sdk.Communicator.WaitForWinRm.Echo.{echoed, wait_for_winrm-echoed}
use packer_plugin_sdk.Communicator.Steps.{finished, ssh_run}
use packer_plugin_sdk.Communicator.Steps.Settled.{Settled, in_time, ssh_run-Settled}
use packer_plugin_sdk.Communicator.StepConnect.{StepConnect, Times, connect_run, connect_cleanup}
use packer_plugin_sdk.Communicator.StepConnect.Chosen.{
  connector, cleaned, Continues, connect_run-connector,
}

-- Every address ends in its port, and a key is a number.
abbrev keys : KeyLib ℕ ℕ
keys = record {
  read_file = λ path. got (1 ∷ []);
  now = 1700000000;
  pem_decode = λ bytes. some [];
  parse_private_key = λ bytes. got 7;
  parse_authorized_key = λ bytes. got (some 1);
  valid_after = λ c. 0;
  valid_before = λ c. 0xffffffffffffffff;
  new_cert_signer = λ c s. got s;
}

abbrev machine : Host ℕ ℕ
machine = record {
  net = record {
    split_host_port = λ address. got (address, b'8' ∷ b'0' ∷ []);
    atoi = λ digits. got (pos 80);
  };
  expand_user = λ path. got path;
  stat = λ path. none;
  keys = keys;
}

abbrev session : Session
session = record { tty = none; auth_sock = "/run/agent"; dial = λ sock. none; quote = λ s. s }

-- A bastion host with the key of the connection, and one tunnel.
abbrev ssh : Ssh
ssh = record {
  ssh_host = "";
  ssh_port = pos 0;
  ssh_username = "root";
  ssh_password = "";
  ssh_keypair_name = "";
  ssh_temporary_key_pair_name = "";
  ssh_temporary_key_pair = record {
    temporary_key_pair_type = "rsa";
    temporary_key_pair_bits = pos 0;
  };
  ssh_ciphers = [];
  ssh_clear_authorized_keys = false;
  ssh_kex_algos = [];
  ssh_private_key_file = "~/key";
  ssh_certificate_file = "";
  ssh_pty = false;
  ssh_timeout = pos 0;
  ssh_wait_timeout = pos 0;
  ssh_agent_auth = false;
  ssh_disable_agent_forwarding = false;
  ssh_handshake_attempts = pos 0;
  ssh_bastion_host = "bastion";
  ssh_bastion_port = pos 0;
  ssh_bastion_agent_auth = true;
  ssh_bastion_username = "jump";
  ssh_bastion_password = "";
  ssh_bastion_interactive = false;
  ssh_bastion_private_key_file = "";
  ssh_bastion_certificate_file = "";
  ssh_file_transfer_method = "";
  ssh_proxy_host = "";
  ssh_proxy_port = pos 0;
  ssh_proxy_username = "";
  ssh_proxy_password = "";
  ssh_keep_alive_interval = pos 0;
  ssh_read_write_timeout = pos 0;
  ssh_remote_tunnels = [];
  ssh_local_tunnels = (b'8' ∷ b':' ∷ b'a' ∷ b':' ∷ b'8' ∷ b'0' ∷ []) ∷ [];
  ssh_public_key = [];
  ssh_private_key = [];
}

abbrev config : Config
config = record {
  kind = "";
  pause_before_connect = pos 1000000000;
  ssh = ssh;
  winrm = record {
    winrm_user = "";
    winrm_password = "";
    winrm_host = "";
    winrm_no_proxy = false;
    winrm_port = pos 0;
    winrm_timeout = pos 0;
    winrm_use_ssl = false;
    winrm_insecure = false;
    winrm_use_ntlm = false;
    winrm_transport_decorator = no_decorator;
  };
}

prepare_idem_example : prepare machine (prepare machine config).1 ≡ prepare machine config
prepare_idem_example = prepare_idem machine config

no_errors : (prepare machine config).0 ≡ []
unfolding prepare prepare_kind prepare_ssh ssh_defaults ssh_errors key_errors bastion_errors
    tunnel_errors file_signer parse_key_file parse_tunnel_argument split_colon str_eq lookup
no_errors = refl

has_bastion : str_eq (prepare machine config).1.ssh.ssh_bastion_host "" ≡ false
unfolding prepare prepare_kind prepare_ssh ssh_defaults str_eq
has_bastion = refl

ten_attempts : (prepare machine config).1.ssh.ssh_handshake_attempts ≡ pos 10
unfolding prepare prepare_kind prepare_ssh ssh_defaults str_eq
ten_attempts = refl

ssh_bastion_config-prepared_example :
    (c : ClientConfig ℕ) × (ssh_bastion_config machine session (prepare machine config).1.ssh
      ≡ got c)
    × (is_nil c.auth ≡ false)
unfolding str_eq
ssh_bastion_config-prepared_example =
    ssh_bastion_config-prepared machine session config refl no_errors refl refl refl has_bastion

-- A bastion host that is to be asked at the terminal alone is refused.
interactive_refused :
    bastion_errors machine
      (record ssh { ssh_bastion_interactive = true; ssh_bastion_agent_auth = false })
    ≡ "ssh_bastion_password, ssh_bastion_private_key_file or ssh_bastion_agent_auth must be specified"
      ∷ []
unfolding bastion_errors str_eq
interactive_refused = refl

-- With the agent, the password and the key are offered too.
agent_and_password :
    ssh_config_func machine session
      (record ssh { ssh_agent_auth = true; ssh_password = "secret" })
      none
    ≡ got (record {
      user = "root";
      ciphers = [];
      key_exchanges = [];
      auth =
          agent_keys "/run/agent"
          ∷ public_keys 7
          ∷ password "secret"
          ∷ password_interactive "secret"
          ∷ [];
    })
unfolding ssh_config_func private_keys read_ssh_private_key_file key_methods key_signer str_eq
agent_and_password = refl

-- The server answers, and refuses the authentication.
abbrev refusal : Turn
refusal = record {
  done = false;
  host = got "10.0.0.1";
  ssh_port = none;
  ssh_config = none;
  connection = none;
  new = λ specs. failed "ssh: unable to authenticate";
}

abbrev authenticate : String → String → Bool
authenticate s t = true

wait_for_ssh-prepared_example :
    (specs : List TunnelSpec) × (tunnels_of machine.net (prepare machine config).1.ssh ≡ got specs)
    × Classified machine.net authenticate specs 9
        (refusal ∷ [])
        (wait_for_ssh machine session authenticate (refusal ∷ []) (prepare machine config).1.ssh).0
unfolding str_eq
wait_for_ssh-prepared_example =
    wait_for_ssh-prepared machine session config refl no_errors refl refl refl authenticate 9
      (refusal ∷ []) ten_attempts (refl, tt)

abbrev Notes : Type 0
Notes = String → Option Value

abbrev notes : StateBag Notes
notes = record {
  get_ok = λ k s. s k;
  put = λ k v s j. if str_eq k j then some v else s j;
  remove = λ k s j. if str_eq k j then none else s j;
  get_ok-put = λ k j v s. refl;
  get_ok-remove = λ k j s. refl;
}

-- A user interface that shows nothing.
abbrev mute : Ui Notes notes
mute = record {
  error = λ m s. s;
  say = λ m s. s;
  get_ok-error = λ k m s. refl;
  get_ok-say = λ k m s. refl;
}

abbrev blank : Notes
blank j = none

ssh_run-Settled_example :
    Settled notes mute (in_time notes mute ((λ s. s) ∷ []) (finished (failed "refused"))) (
      ssh_run notes mute
        (pos 300)
        (in_time notes mute ((λ s. s) ∷ []) (finished (failed "refused")))
        blank)
ssh_run-Settled_example =
    ssh_run-Settled notes mute (pos 300)
      (in_time notes mute ((λ s. s) ∷ []) (finished (failed "refused"))) blank

abbrev docker_step : Step Notes
docker_step = record {
  step_name = "StepConnectDocker";
  inner_name = plain;
  run = λ done s. (some action_continue, s);
  cleanup = λ s. s;
}

abbrev connection : StepConnect Notes
connection = record {
  config = record config { kind = "docker" };
  host = λ s. (got "localhost", s);
  ssh = docker_step;
  winrm = docker_step;
  custom_connect = ("docker", some docker_step) ∷ [];
}

abbrev times : Times
times = record { at_start = false; in_pause = false; after_pause = false }

connect_run-connector_example :
    (let r = connect_run notes mute Value.nil Value.nil (λ d. "1s") connection times blank in
      (connect_cleanup notes mute Value.nil Value.nil (λ d. "1s") r blank
        ≡ cleaned (connector connection) blank)
      × ((r.action ≡ some action_continue)
          ↔ Continues notes mute Value.nil Value.nil
              (λ d. "1s")
              connection
              times
              blank
              (connector connection)))
connect_run-connector_example =
    connect_run-connector notes mute Value.nil Value.nil (λ d. "1s") connection times blank blank

abbrev process : Process
process = record { setenv = λ v. none; contains = λ s t. str_eq s t; decimal = λ n. "5985" }

abbrev answering : WaitForWinRm.Turn
answering = record {
  done = false;
  host = got "10.0.0.1";
  winrm_port = none;
  winrm_config = none;
  new = λ endpoint. got 5;
}

-- The command fails once, and then echoes.
abbrev checks : List WaitForWinRm.Check
checks =
    record { done = false; error = some "refused"; stdout = "" }
    ∷ record { done = false; error = none; stdout = "WinRM connected." }
    ∷ []

winrm_connects :
    (WaitForWinRm.wait_for_winrm process (answering ∷ []) checks config.winrm "").0
    ≡ WaitForWinRm.connected 5
unfolding wait_loop turn with_host with_user with_proxy dial check str_eq
winrm_connects = refl

wait_for_winrm-echoed_example :
    (echoed process checks ≡ true)
    × ((WaitForWinRm.wait_for_winrm process (answering ∷ []) checks config.winrm "").1.shown ≡ true)
wait_for_winrm-echoed_example =
    wait_for_winrm-echoed process (answering ∷ []) checks config.winrm "" 5 winrm_connects
