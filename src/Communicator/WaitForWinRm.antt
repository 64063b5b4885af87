-- ===== src/Communicator/WaitForWinRm.antt =====
-- communicator/step_connect_winrm.go: `waitForWinRM`, whose first loop ends with a client and whose
-- second one with an echo over it, and `setNoProxy`.
pub mod Echo
use packer_plugin_sdk.Prelude.{
  Result, failed, got, ℕ, Bool, true, false, not, ◌&&◌, Option, none, some, List, [], ◌∷◌, String,
  if◌then◌else◌, ℤ, ◌||◌, join,
}
use packer_plugin_sdk.Communicator.Config.{
  WinRm, Decorator, proxied, proxied_ntlm, is_empty, or_text,
}

-- `winrm.Config`
pub record Endpoint : Type 0 where
  pub host : String
  pub port : ℤ
  pub username : String
  pub password : String
  pub timeout : ℤ
  pub https : Bool
  pub insecure : Bool
  pub transport_decorator : Decorator

-- What one turn of the first loop meets: whether the context is done before it, which the first turn
-- does not ask; the answers of the callbacks, of which the last two may be nil, the second with a user
-- name and a password; and what `winrm.New` gives.
pub record Turn : Type 0 where
  pub done : Bool
  pub host : Result String
  pub winrm_port : Option (Result ℤ)
  pub winrm_config : Option (Result (String × String))
  pub new : Endpoint → Result ℕ

-- What one turn of the second loop meets: whether the context is done, and the error and the output of
-- the command.
pub record Check : Type 0 where
  pub done : Bool
  pub error : Option String
  pub stdout : String

-- The settings, whether the bag has them as "communicator_config", and the variable NO_PROXY.
pub record Waiting : Type 0 where
  pub config : WinRm
  pub shown : Bool
  pub no_proxy : String

pub data Outcome : Type 0 where
  connected : ℕ → Outcome
  ended : String → Outcome
  waiting : Outcome

-- The next turn, a client, or the end with an error.
pub data Next : Type 0 where
  continue : Waiting → Next
  dialled : ℕ → Waiting → Next
  stop : String → Waiting → Next

-- `os.Setenv` with its error, `strings.Contains`, and `%d`.
pub record Process : Type 0 where
  pub setenv : String → Option String
  pub contains : String → String → Bool
  pub decimal : ℤ → String

module _ (process : Process) where
  -- `setNoProxy`, of the value of NO_PROXY: the new value.
  unfoldable pub no_proxy_with : String → String → ℤ → String
  no_proxy_with current host port =
      let p = join host (join ":" (process.decimal port)) in
      if is_empty current
      then p
      else if not (process.contains current p)
      then join current (join "," p)
      else current

  -- The variable is written only if it changes.
  abbrev pub writes : String → String → ℤ → Bool
  writes current host port =
      is_empty current
      || not (process.contains current (join host (join ":" (process.decimal port))))

  abbrev proxy_decorator : WinRm → Decorator
  proxy_decorator c = if c.winrm_use_ntlm then proxied_ntlm else proxied

  -- From `winrm.New` on.
  unfoldable pub dial : Turn → String → ℤ → String → String → Waiting → Next
  dial t host port user password s =
      elim (t.new (record {
        host = host;
        port = port;
        username = user;
        password = password;
        timeout = s.config.winrm_timeout;
        https = s.config.winrm_use_ssl;
        insecure = s.config.winrm_insecure;
        transport_decorator = s.config.winrm_transport_decorator;
      })) [ failed e ↦ continue s | got comm ↦ dialled comm s ]

  -- From `WinRMNoProxy` on.
  unfoldable pub with_proxy : Turn → String → ℤ → String → String → Waiting → Next
  with_proxy t host port user password s =
      if not s.config.winrm_no_proxy
      then dial t host port user password s
      else (let value = no_proxy_with s.no_proxy host port in
          let set = (if writes s.no_proxy host port then process.setenv value else none) in
          elim set [
            | some e ↦ stop (join "Error setting no_proxy: " e) s
            | none ↦ dial t host port user password (record s {
              config = record s.config { winrm_transport_decorator = proxy_decorator s.config };
              no_proxy = value;
            })
          ])

  -- From the callback `WinRMConfig` on. An empty name or password leaves the one of the settings.
  unfoldable pub with_user : Turn → String → ℤ → Waiting → Next
  with_user t host port s = elim t.winrm_config [
    | none ↦ with_proxy t host port s.config.winrm_user s.config.winrm_password s
    | some r ↦ elim r [
      | failed e ↦ continue s
      | got p ↦
          (let password = or_text s.config.winrm_password p.1 in
            with_proxy t host port (or_text s.config.winrm_user p.0) password
              (record s { config = record s.config { winrm_password = password } }))
    ]
  ]

  abbrev show_port : ℤ → Waiting → Waiting
  show_port p s = record s { config = record s.config { winrm_port = p }; shown = true }

  unfoldable pub with_host : Turn → String → Waiting → Next
  with_host t host s = elim t.winrm_port [
    | none ↦ with_user t host s.config.winrm_port (record s { shown = true })
    | some r ↦ elim r [ failed e ↦ continue s | got p ↦ with_user t host p (show_port p s) ]
  ]

  -- One turn of the first loop.
  unfoldable pub turn : Bool → Turn → Waiting → Next
  turn first t s = if not first && t.done then stop "WinRM wait cancelled" s else elim t.host [
    | failed e ↦ continue s
    | got h ↦ with_host t h (record s { config = record s.config { winrm_host = h } })
  ]

  -- The second loop.
  unfoldable pub check : List Check → ℕ → Outcome
  check [] comm = waiting
  check (c ∷ cs) comm =
      let rest = check cs comm in
      if c.done then ended "WinRM wait canceled" else elim c.error [
        | some e ↦ rest
        | none ↦ if process.contains c.stdout "WinRM connected." then connected comm else rest
      ]

  unfoldable pub wait_loop : Bool → List Turn → List Check → Waiting → Outcome × Waiting
  wait_loop first [] cs s = (waiting, s)
  wait_loop first (t ∷ ts) cs s = elim (turn first t s) [
    | continue u ↦ wait_loop false ts cs u
    | dialled comm u ↦ (check cs comm, u)
    | stop e u ↦ (ended e, u)
  ]

  -- `waitForWinRM`
  abbrev pub wait_for_winrm : List Turn → List Check → WinRm → String → Outcome × Waiting
  wait_for_winrm ts cs c no_proxy =
      wait_loop true ts cs (record { config = c; shown = false; no_proxy = no_proxy })
