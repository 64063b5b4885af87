-- ===== src/Multistep/BasicRunner.antt =====
-- multistep/basic_runner.go. The loop of `Run` steps over the list; deferred clean-ups are kept on a
-- stack. What other goroutines do meanwhile is given by an environment: a burst of events for each
-- place of the loop where they are observed.
pub mod Logged
pub mod Signals
pub mod Trace
use packer_plugin_sdk.Prelude.{
  ℕ, suc, Bool, true, false, Option, none, some, List, [], ◌∷◌, if◌then◌else◌, ◌&&◌, ◌||◌, not,
  is_some, length,
}
use packer_plugin_sdk.Multistep.StateBag.{Value, StateBag, state_cancelled, state_halted}
use packer_plugin_sdk.Multistep.Step.{StepAction, action_continue, action_halt, Step}

pub data RunState : Type 0 where
  idle running cancelling : RunState

-- The context is cancelled; the goroutine that waits for that runs.
pub data Event : Type 0 where
  cancel listen : Event

pub record Env : Type 0 where
  pub before_check : ℕ → List Event
  pub before_run : ℕ → List Event
  pub after_run : ℕ → List Event
  pub before_cleanup : ℕ → List Event

-- Nothing happens beside the runner.
abbrev pub quiet : Env
quiet = record {
  before_check = λ i. [];
  before_run = λ i. [];
  after_run = λ i. [];
  before_cleanup = λ i. [];
}

-- What the loop and the listening goroutine share.
pub record World (S : Type 0) : Type 0 where
  pub state : S
  pub ctx_done : Bool
  pub listening : Bool

-- How the loop was left: the clean-ups that are deferred, the last one first.
pub record Left (S : Type 0) : Type 0 where
  pub deferred : List (Step S)
  pub world : World S
  pub panicking : Bool

pub data Progress (S : Type 0) : Type 0 where
  next : List (Step S) → World S → Progress S
  leave : Left S → Progress S

pub record BasicRunner (S : Type 0) : Type 0 where
  pub steps : List (Option (Step S))
  pub run_state : RunState
  pub locked : Bool

-- The end of a call of `Run` on a runner `R`. `blocked`: the mutex is held and the call does not
-- return. `already_running`: the panic of that name. `panicked`: a step panicked, and the deferred
-- calls have run.
pub data Outcome (R S : Type 0) : Type 0 where
  blocked : Outcome R S
  already_running : R → Outcome R S
  returned panicked : R → S → Outcome R S

abbrev pub is_cancelling : RunState → Bool
is_cancelling cancelling = true
is_cancelling _ = false

abbrev pub is_idle : RunState → Bool
is_idle idle = true
is_idle _ = false

module _ {S : Type 0} (bag : StateBag S) where
  abbrev pub mark : World S → World S
  mark w = record w { state = bag.put state_cancelled (Value.bool true) w.state }

  -- The goroutine's `select`: it puts the key once, after the context is done.
  abbrev pub notice : World S → World S
  notice w = if w.ctx_done && w.listening then record (mark w) { listening = false } else w

  abbrev pub happen : List Event → World S → World S
  happen [] w = w
  happen (cancel ∷ es) w = happen es (record w { ctx_done = true })
  happen (listen ∷ es) w = happen es (notice w)

  -- The tests after a step has returned: a cancelled bag, or a halt, ends the loop.
  unfoldable pub after_step : StepAction → List (Step S) → World S → Progress S
  after_step action ds w =
      if is_some (bag.get_ok state_cancelled w.state)
      then leave (record { deferred = ds; world = w; panicking = false })
      else elim action [
        | action_halt ↦ leave (record {
          deferred = ds;
          world = record w { state = bag.put state_halted (Value.bool true) w.state };
          panicking = false;
        })
        | action_continue ↦ next ds w
      ]

  -- One round of the loop, on a step that is not nil. A step that panics has no clean-up deferred.
  unfoldable pub round : Env → ℕ → RunState → Step S → List (Step S) → World S → Progress S
  unfolding after_step
  round env i st step ds w =
      let w' = happen (env.before_check i) w in
      if w'.ctx_done || is_cancelling st
      then leave (record { deferred = ds; world = mark w'; panicking = false })
      else let w'' = happen (env.before_run i) w' in
        let (result, s) = step.run w''.ctx_done w''.state in
        let after = happen (env.after_run i) (record w'' { state = s }) in
        elim result [
          | none ↦ leave (record { deferred = ds; world = after; panicking = true })
          | some action ↦ after_step action (step ∷ ds) after
        ]

  unfoldable pub loop :
      Env → ℕ → RunState → List (Option (Step S)) → List (Step S) → World S → Left S
  loop env i st [] ds w = record { deferred = ds; world = w; panicking = false }
  loop env i st (none ∷ steps) ds w = loop env (suc i) st steps ds w
  loop env i st (some step ∷ steps) ds w = elim (round env i st step ds w) [
    | next ds' w' ↦ loop env (suc i) st steps ds' w'
    | leave l ↦ l
  ]

  -- The deferred clean-ups, from the top of the stack.
  unfoldable pub clean_up : Env → List (Step S) → World S → World S
  clean_up env [] w = w
  clean_up env (step ∷ ds) w =
      let w' = happen (env.before_cleanup (length ds)) w in
      clean_up env ds (record w' { state = step.cleanup w'.state })

  -- `Run`. The mutex is held over the test of the state, and a panic leaves it locked.
  unfoldable pub run : Env → Bool → BasicRunner S → S → Outcome (BasicRunner S) S
  unfolding round loop clean_up
  run env done b s =
      if b.locked
      then blocked
      else if not (is_idle b.run_state)
      then already_running (record b { locked = true })
      else let start : World S = record { state = s; ctx_done = done; listening = true } in
        let l = loop env 0 running b.steps [] start in
        let w = clean_up env l.deferred l.world in
        let b' = record b { run_state = idle } in
        if l.panicking then panicked b' w.state else returned b' w.state
