-- ===== src/Bootcommand/Config/Prepared.antt =====
-- From the settings to the keys: a command that is written from items is accepted and typed.
use packer_plugin_sdk.Prelude.{
  ℕ, ◌≡◌, refl, sym, ap, ◌∙◌, Bool, none, some, List, [], map, String, ℤ, concat, All,
}
use packer_plugin_sdk.Bootcommand.PcXt.{pc_xt_driver}
use packer_plugin_sdk.Bootcommand.PcXt.Chunks.{IsChunk}
use packer_plugin_sdk.Bootcommand.PcXt.Typing.{
  record_codes, typed_all, IsTypable, do_sequence-typed,
}
use packer_plugin_sdk.Bootcommand.Sequence.{Expression, background, validate_all, do_sequence}
use packer_plugin_sdk.Bootcommand.Grammar.{GoLib, parsed, generate_expression_sequence}
use packer_plugin_sdk.Bootcommand.Grammar.Items.{Item, written_all, meant, IsWritable}
use packer_plugin_sdk.Bootcommand.Grammar.RoundTrip.{generate-written}
use packer_plugin_sdk.Bootcommand.Config.{
  BootConfig, commands, flat_boot_command, command_errors, prepare,
}

module _ (lib : GoLib) (show : ℤ → String) where
  -- Settings whose command is the text of writable items have the errors of the waits among the items,
  -- and no others.
  pub prepare-written :
      (c : BootConfig) (cs : List (List ℕ)) (items : List Item)
      → c.boot_command ≡ some cs
      → concat cs ≡ written_all items
      → All (IsWritable lib) items
      → (prepare lib show c).0 ≡ validate_all show (map (meant lib) items)
  unfolding prepare command_errors
  prepare-written c cs items some_command same h =
      rw (some_command, same, generate-written lib items h, command_errors) refl

  -- With no such error, the expressions of the command, executed on a fresh PC-XT driver with nothing
  -- that interrupts them, end with no error, and the machine receives the codes of the items in their
  -- order, in chunks that are not empty and not longer than a positive size.
  pub prepare-typed :
      (size : ℕ) (is_upper : ℕ → Bool) (c : BootConfig) (cs : List (List ℕ)) (items : List Item)
      → c.boot_command ≡ some cs
      → concat cs ≡ written_all items
      → All (IsWritable lib) items
      → All (IsTypable size is_upper) (map (meant lib) items)
      → (prepare lib show c).0 ≡ []
      → (exps : List Expression) × (log : List (List String)) × (generate_expression_sequence lib
            (flat_boot_command c)
          ≡ parsed exps)
        × (do_sequence
              (pc_xt_driver record_codes size is_upper)
              background
              show
              exps
              (record { buffer = []; vm = [] })
            ≡ (none, record { buffer = []; vm = log }))
        × (concat log ≡ typed_all size is_upper (map (meant lib) items))
        × All (IsChunk size) log
  prepare-typed size is_upper c cs items some_command same h typable clean =
      let exps = map (meant lib) items in
      let valid = sym (prepare-written c cs items some_command same h) ∙ clean in
      let (log, ends, sent, fine) = do_sequence-typed size is_upper show exps valid typable in
      (
        exps,
        log,
        ap (λ o. generate_expression_sequence lib (concat (commands o))) some_command
            ∙ ap (generate_expression_sequence lib) same
            ∙ generate-written lib items h,
        ends,
        sent,
        fine,
      )
