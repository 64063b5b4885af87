-- ===== src/Bootcommand/Sequence.antt =====
-- bootcommand/boot_command_ast.go: the expressions of a boot command and their execution.
pub mod Waits
use packer_plugin_sdk.Prelude.{
  ℕ, suc, Bool, true, false, Option, none, some, List, [], ◌∷◌, ◌++◌, String, if◌then◌else◌, ℤ,
  is_positive, is_nil, join,
}
use packer_plugin_sdk.Bootcommand.Driver.{KeyAction, BcDriver}

pub data Expression : Type 0 where
  wait : ℤ → Expression
  special : String → KeyAction → Expression
  literal : ℕ → KeyAction → Expression

-- What the context does: whether it is done when the i-th expression is reached, whether the i-th
-- wait is cut short by it, and its error.
pub record Ctx : Type 0 where
  pub done : ℕ → Bool
  pub interrupts : ℕ → Bool
  pub reason : String

abbrev pub background : Ctx
background = record { done = λ i. false; interrupts = λ i. false; reason = "context canceled" }

-- `Validate` of one expression; the text is the error. `show` is `Duration.String`.
abbrev pub validate : (ℤ → String) → Expression → Option String
validate show (wait d) =
    if is_positive d then none else some (join "Expecting a positive wait value. Got " (show d))
validate show (special s action) = none
validate show (literal r action) = none

abbrev pub cons? : Option String → List String → List String
cons? none errs = errs
cons? (some e) errs = e ∷ errs

-- `expressionSequence.Validate`
unfoldable pub validate_all : (ℤ → String) → List Expression → List String
validate_all show [] = []
validate_all show (exp ∷ exps) = cons? (validate show exp) (validate_all show exps)

module _ {D : Type 0} (driver : BcDriver D) (ctx : Ctx) where
  -- `Do` of one expression. A wait flushes first, and drops the result of that.
  unfoldable pub do_expression : ℕ → Expression → D → Option String × D
  do_expression i (wait d) s =
      let s' = (driver.flush s).1 in if ctx.interrupts i then (some ctx.reason, s') else (none, s')
  do_expression i (special name action) s = driver.send_special name action s
  do_expression i (literal r action) s = driver.send_key r action s

  -- The loop of `expressionSequence.Do`, and the flush behind it.
  unfoldable pub do_loop : ℕ → List Expression → D → Option String × D
  do_loop i [] s = driver.flush s
  do_loop i (exp ∷ exps) s =
      if ctx.done i
      then (some ctx.reason, s)
      else let (err, s') = do_expression i exp s in
        elim err [ some e ↦ (some e, s') | none ↦ do_loop (suc i) exps s' ]

  unfoldable pub do_sequence : (ℤ → String) → List Expression → D → Option String × D
  do_sequence show exps s = if is_nil (validate_all show exps) then do_loop 0 exps s else (
    some
        "Found an invalid boot command. This is likely an error in Packer, so please open a ticket.",
    s,
  )
