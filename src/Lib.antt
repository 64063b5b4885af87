-- ===== src/Lib.antt =====
-- packer-plugin-sdk: a model of the parts of the SDK that plugins are built from.
--
-- A plugin's builder is a list of steps that a runner executes over a shared bag of state
-- (multistep). The runner is chosen by the -debug and -on-error settings (multistep/commonsteps),
-- which wrap the steps. A step may type a boot command into a machine over one of three keyboard
-- drivers (bootcommand), or wait until the machine can be reached (communicator). Calls of a cloud are
-- repeated (retry), and hooks run the provisioners (packer), some of which are scripts on this machine
-- (shell-local) or send files through an ssh proxy (adapter). Plugins talk over streams that a broker
-- connects (rpc). The legacy JSON template says what is built (template).
--
-- Prelude: shared types, tests and lemmas. Signed numbers and `length` stand on native numbers, a Go
--   map is an association list, and a Go string is a text or the list of its code points.
-- Multistep/StateBag, Multistep/BasicStateBag: multistep/statebag.go. `StateBag` is the interface
--   with its laws, which the runners take as a parameter; `BasicStateBag` is the map behind it. A
--   method is one function, also Remove, which takes no lock.
-- Multistep/Step, Multistep/BasicRunner: multistep/multistep.go, multistep/if.go and
--   multistep/basic_runner.go. A step is a record of functions over the state; a result of none is a
--   panic. `loop` and `round` are the loop of `BasicRunner.Run`, `clean_up` its deferred calls, and
--   `run` the whole method. What other goroutines do is an `Env`: a list of events for each place
--   where the loop can see them. Logged has the steps that note their calls, Trace and Signals the
--   order of the calls and what the bag says at the end.
-- Multistep/DebugRunner: multistep/debug_runner.go, as a basic runner of steps and pauses.
-- CommonSteps: multistep/commonsteps/multistep_runner.go and multistep_debug.go. `new_runner` is
--   newRunner; `abort_step` and `ask_step` are the wrappers. What happens at a prompt is a list of
--   events, whose end is a closed input. `ask_run` has fuel, one more than the number of those events
--   being enough, since every retry takes one.
-- CommonSteps/Download, Provision, OutputDir, Settings: multistep/commonsteps/step_download.go with
--   packer/cache.go, step_provision.go, step_output_dir.go, and iso_config.go, http_config.go,
--   floppy_config.go and extra_iso_config.go. A step that changes its own fields returns itself. What
--   happens while the hook runs is a list of events.
-- Chroot/MountExtra: chroot/step_mount_extra.go. The mounts are a stack, the last one first.
-- Plugin/Set: plugin/set.go. A registration of a name that is taken is none, the panic of the source.
-- Bootcommand: bootcommand/boot_command.go, boot_command_ast.go, config.go, driver.go,
--   pc_xt_driver.go, vnc_driver.go and usb_driver.go. Peg is the machine of the generated parser,
--   Grammar has the rules of the grammar and their actions. A driver is a record of three functions
--   over its state, `BcDriver`; the machine or connection behind it is a function over its own state.
-- Communicator: communicator/config.go, communicator/ssh/ssh.go and tunnel.go, step_connect.go,
--   step_connect_ssh.go and step_connect_winrm.go. Config has the settings and `prepare`, Auth the
--   methods of authentication, Connect and WaitForWinRm the loops that wait, over a list of what each
--   turn meets, Steps and StepConnect the steps. Prepared joins the settings with what is made of
--   them. Files, the clock, certificates and connections are parameters.
-- Rpc/MuxBroker: rpc/mux_broker.go. The goroutines of the broker are a list of threads, and `Step` is
--   one action of one of them; a channel of one place is an option, the mutex a Boolean, and a pending
--   stands at a number that its holders share.
-- ShellLocal: shell-local/config.go and run.go, and shell/exit_code.go. Config has `validate`, which
--   gives the errors and the settings that it leaves; Run has `run` over a record of what executing a
--   script is done with.
-- Adapter: adapter/scp.go, and the choice of a session in adapter/adapter.go. Connection has the bytes
--   that are still to be read and those that were written, Scp both directions of the protocol. `protocol` has fuel, one more than the
--   number of input bytes being enough, since every message takes one.
-- Template: template/template.go and template/parse.go. `V` is what an interface{} holds, and the
--   decoders of mapstructure are parameters. `template` is rawTemplate.Template. The search for
--   duplicate fields reads the tokens that encoding/json gives for a document, with fuel that the
--   size of the document bounds.
-- Retry: retry/retry.go. `run_from` is the loop of Config.Run; its fuel has to be more than the
--   number of tries, where that is positive. With no limit of tries the loop need not end.
-- Packer: packer/hook.go and packer/multi_error.go. `dispatch` is DispatchHook.Run, and
--   `multi_error_append` is MultiErrorAppend over errors that may be collections themselves.
--
-- Not modelled: time other than by its order, so sleeps and intervals; the mutual exclusion that a
-- mutex gives inside one method, whose methods are taken as atomic, but for the broker, where it is
-- held over a wait; what log lines say. Ranging over a Go map has the order of the association list.
-- The marshalling of calls over net/rpc, the plugin server, the connections of SSH and WinRM
-- themselves, the steps that make disk images or serve files, and the generators of code are not part of
-- the model.
pub mod Prelude
pub mod Multistep
pub mod CommonSteps
pub mod Bootcommand
pub mod Template
pub mod Retry
pub mod Packer
pub mod Communicator
pub mod Rpc
pub mod ShellLocal
pub mod Adapter
pub mod Plugin
pub mod Chroot
