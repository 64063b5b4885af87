-- ===== src/Communicator/Auth.antt =====
-- How a client authenticates itself: `sshBastionConfig` of communicator/step_connect_ssh.go, and
-- `SSHConfigFunc` with `ReadSSHPrivateKeyFile` of communicator/config.go.
use packer_plugin_sdk.Prelude.{
  Result, failed, got, ℕ, Bool, not, Option, none, some, List, [], ◌∷◌, ◌++◌, String, if◌then◌else◌,
  join, is_nil,
}
use packer_plugin_sdk.Communicator.Keys.{file_signer, file_signer_with_cert, read_certificate}
use packer_plugin_sdk.Communicator.Config.{Ssh, Host, is_empty}

pub data AuthMethod (Signer : Type 0) : Type 0 where
  interactive : AuthMethod Signer
  password : String → AuthMethod Signer
  password_interactive : String → AuthMethod Signer
  public_keys : Signer → AuthMethod Signer
  agent_keys : String → AuthMethod Signer

-- `ssh.ClientConfig`, whose host key callback accepts every key. An empty list is the default.
pub record ClientConfig (Signer : Type 0) : Type 0 where
  pub user : String
  pub ciphers : List String
  pub key_exchanges : List String
  pub auth : List (AuthMethod Signer)

-- The error of opening a terminal, the environment variable SSH_AUTH_SOCK, the error of connecting to
-- the socket of an agent, and a text as `%q` prints it.
pub record Session : Type 0 where
  pub tty : Option String
  pub auth_sock : String
  pub dial : String → Option String
  pub quote : String → String

infixl 5 ◌>>=◌
abbrev pub ◌>>=◌ : {A B : Type 0} → Result A → (A → Result B) → Result B
failed e >>= f = failed e
got a >>= f = f a

-- The error with a text in front of it.
abbrev pub explain : {A : Type 0} → String → Result A → Result A
explain t (failed e) = failed (join t e)
explain t (got a) = got a

abbrev pub password_methods : {Signer : Type 0} → String → List (AuthMethod Signer)
password_methods p = if is_empty p then [] else password p ∷ password_interactive p ∷ []

abbrev agent_with : {Signer : Type 0} → Session → Option String → Result (List (AuthMethod Signer))
agent_with s (some e) =
    failed (join "Cannot connect to SSH Agent socket " (join (s.quote s.auth_sock) (join ": " e)))
agent_with s none = got (agent_keys s.auth_sock ∷ [])

abbrev pub agent_methods : {Signer : Type 0} → Session → Bool → Result (List (AuthMethod Signer))
agent_methods s wanted =
    if not wanted
    then got []
    else if is_empty s.auth_sock
    then failed "SSH_AUTH_SOCK is not set"
    else agent_with s (s.dial s.auth_sock)

abbrev terminal_with : {Signer : Type 0} → Option String → Result (List (AuthMethod Signer))
terminal_with (some e) = failed e
terminal_with none = got (interactive ∷ [])

abbrev pub interactive_methods :
    {Signer : Type 0} → Session → Bool → Result (List (AuthMethod Signer))
interactive_methods s wanted = if wanted then terminal_with s.tty else got []

module _ {Signer Certificate : Type 0} (lib : Host Signer Certificate) where
  unfoldable pub bastion_signer : String → String → Result Signer
  bastion_signer key cert = do
    path ← explain "Error expanding path for SSH bastion private key: " (lib.expand_user key)
    if is_empty cert then file_signer lib.keys path else do
      identity ←
          explain "Error expanding path for SSH bastion identity certificate: "
            (lib.expand_user cert)
      file_signer_with_cert lib.keys path identity

  unfoldable pub bastion_key_methods : Ssh → Result (List (AuthMethod Signer))
  bastion_key_methods c = if is_empty c.ssh_bastion_private_key_file then got [] else do
    signer ← bastion_signer c.ssh_bastion_private_key_file c.ssh_bastion_certificate_file
    got (public_keys signer ∷ [])

  unfoldable pub read_ssh_private_key_file : Ssh → Result (List ℕ)
  read_ssh_private_key_file c = if is_empty c.ssh_private_key_file then got [] else do
    path ←
        explain "Error expanding path for SSH private key: "
          (lib.expand_user c.ssh_private_key_file)
    explain "Error on reading SSH private key: " (lib.keys.read_file path)

  -- The key file, the key that the state has as "privateKey", and the key of the settings.
  unfoldable pub private_keys : Ssh → Option (List ℕ) → Result (List (List ℕ))
  private_keys c in_state = do
    file ←
        (if is_empty c.ssh_private_key_file
          then got []
          else do key ← read_ssh_private_key_file c; got (key ∷ []))
    got (
        file
        ++ ((elim in_state [ none ↦ [] | some key ↦ key ∷ [] ])
            ++ (if is_nil c.ssh_private_key then [] else c.ssh_private_key ∷ [])))

  unfoldable pub key_signer : String → List ℕ → Result Signer
  key_signer certificate_path key = do
    signer ← explain "Error on parsing SSH private key: " (lib.keys.parse_private_key key)
    if is_empty certificate_path
        then got signer
        else read_certificate lib.keys certificate_path signer

  unfoldable pub key_methods : String → List (List ℕ) → Result (List (AuthMethod Signer))
  key_methods certificate_path [] = got []
  key_methods certificate_path (key ∷ keys) = key_signer certificate_path key >>= λ signer.
      key_methods certificate_path keys >>= λ rest. got (public_keys signer ∷ rest)

  module _ (session : Session) where
    unfoldable pub ssh_bastion_config : Ssh → Result (ClientConfig Signer)
    ssh_bastion_config c = do
      typed ← interactive_methods session c.ssh_bastion_interactive
      keys ← bastion_key_methods c
      agent ← agent_methods session c.ssh_bastion_agent_auth
      got (record {
        user = c.ssh_bastion_username;
        ciphers = [];
        key_exchanges = [];
        auth = typed ++ (password_methods c.ssh_bastion_password ++ (keys ++ agent));
      })

    unfoldable pub ssh_config_func : Ssh → Option (List ℕ) → Result (ClientConfig Signer)
    ssh_config_func c in_state = do
      agent ← agent_methods session c.ssh_agent_auth
      private ← private_keys c in_state
      certificate_path ←
          (if is_empty c.ssh_certificate_file
            then got ""
            else lib.expand_user c.ssh_certificate_file)
      keys ← key_methods certificate_path private
      got (record {
        user = c.ssh_username;
        ciphers = c.ssh_ciphers;
        key_exchanges = c.ssh_kex_algos;
        auth = agent ++ (keys ++ password_methods c.ssh_password);
      })
