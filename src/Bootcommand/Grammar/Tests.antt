-- ===== src/Bootcommand/Grammar/Tests.antt =====
-- Commands parsed, and the theorems on the grammar at concrete inputs.
use packer_plugin_sdk.Prelude.{
  ℕ, ◌+◌, ◌*◌, ◌-◌, ◌≡◌, refl, Bool, some, none, List, [], ◌∷◌, String, map, codes, arith, concat,
  ℤ, pos, negsuc, All, text, leb, ◌&&◌, lookup, str_eq, hex02,
}
use packer_plugin_sdk.Bootcommand.Driver.{key_on, key_press}
use packer_plugin_sdk.Bootcommand.Sequence.{
  Expression, wait, special, literal, background, validate_all, do_sequence,
}
use packer_plugin_sdk.Bootcommand.PcXt.{pc_xt_driver, key_codes, scancode_of, special_codes}
use packer_plugin_sdk.Bootcommand.PcXt.Chunks.{IsChunk}
use packer_plugin_sdk.Bootcommand.PcXt.Typing.{record_codes, typed_all}
use packer_plugin_sdk.Bootcommand.Peg.{
  matches, lit_matcher, any_matcher, char_class, not_expr, choice, zero_or_one, repeat,
  zero_or_more, one_or_more, seq, action,
}
use packer_plugin_sdk.Bootcommand.Grammar.{
  GoLib, expr_start, expr_end, literal_rule, on, off, digit, non_zero_digit, integer, number,
  time_unit, duration, special_key, wait_rule, char_toggle, special_rule, expr_choice, expr, eof,
  input, parsed, parse, generate_expression_sequence, on_wait, on_special, to_int64, second,
}
use packer_plugin_sdk.Bootcommand.Grammar.Whole.{input-whole}
use packer_plugin_sdk.Bootcommand.Grammar.Items.{
  Item, press, hold, key, pause, pause_seconds, written_all, meant,
}
use packer_plugin_sdk.Bootcommand.Grammar.RoundTrip.{generate-written}
use packer_plugin_sdk.Bootcommand.Config.{BootConfig, flat_boot_command, prepare}
use packer_plugin_sdk.Bootcommand.Config.Prepared.{prepare-written, prepare-typed}

-- The number of a text of digits.
abbrev decimal : ℕ → List ℕ → ℕ
decimal n [] = n
decimal n (d ∷ ds) = decimal (10 * n + (d - b'0')) ds

abbrev go : GoLib
go = record {
  parse_int = λ ds. (decimal 0 ds, []);
  parse_duration = λ t. (pos 1500000000, []);
  lower_high = λ c. c;
}

abbrev items : List Item
items =
    key "leftshift" key_on
    ∷ press b'a'
    ∷ key "enter" key_press
    ∷ hold b'w'
    ∷ pause_seconds b'1' (b'0' ∷ [])
    ∷ pause
    ∷ []

abbrev meaning : List Expression
meaning =
    special "leftshift" key_on
    ∷ literal b'a' key_press
    ∷ special "enter" key_press
    ∷ literal b'w' key_on
    ∷ wait (pos 10000000000)
    ∷ wait (pos 1000000000)
    ∷ []

-- The case of the names is of no matter, a duration has a unit, and what is no expression is typed.
mixed_command :
    generate_expression_sequence go (codes "<LeftShiftOn><wait1.5s><foo")
    ≡ parsed (
        special "leftshift" key_on
        ∷ wait (pos 1500000000)
        ∷ literal b'<' key_press
        ∷ literal b'f' key_press
        ∷ literal b'o' key_press
        ∷ literal b'o' key_press
        ∷ [])
unfolding generate_expression_sequence parse input expr expr_choice wait_rule char_toggle
    special_rule special_key literal_rule duration number integer digit non_zero_digit time_unit on
    off eof expr_start expr_end on_special on_wait text lit_matcher any_matcher char_class not_expr
    choice zero_or_one repeat zero_or_more one_or_more seq action
mixed_command = refl

-- "<wait0>" waits for a second.
wait_zero : generate_expression_sequence go (codes "<wait0>") ≡ parsed (wait (pos 1000000000) ∷ [])
unfolding generate_expression_sequence parse input expr expr_choice wait_rule char_toggle
    special_rule special_key literal_rule duration number integer digit non_zero_digit time_unit on
    off eof expr_start expr_end on_wait lit_matcher any_matcher char_class not_expr choice
    zero_or_one repeat zero_or_more one_or_more seq action
wait_zero = refl

-- The first number of seconds that does not fit.
wait_wraps : to_int64 (9223372037 * second) ≡ negsuc 9223372036709551615
unfolding to_int64
wait_wraps = refl

input-whole_example :
    (exps : List Expression) × (errs' : List String) × (input go (codes "<<On>") []
      ≡ matches exps (codes "<<On>") [] errs')
input-whole_example = input-whole go b'<' (codes "<On>") []

generate-written_example :
    generate_expression_sequence go (written_all items) ≡ parsed (map (meant go) items)
unfolding str_eq
generate-written_example =
    generate-written go items (refl, (refl, (refl, (tt, ((refl, (refl, tt), refl), (tt, tt))))))

abbrev seconds : ℤ → String
seconds d = "1s"

abbrev settings : BootConfig
settings = record {
  boot_group_interval = pos 0;
  boot_wait = pos 0;
  boot_command = some (codes "a<enter>" ∷ codes "<wait>" ∷ []);
}

abbrev typed_items : List Item
typed_items = press b'a' ∷ key "enter" key_press ∷ pause ∷ []

prepare-written_example :
    (prepare go seconds settings).0 ≡ validate_all seconds (map (meant go) typed_items)
unfolding written_all str_eq
prepare-written_example =
    prepare-written go seconds settings (codes "a<enter>" ∷ codes "<wait>" ∷ []) typed_items refl
      refl (refl, (refl, (tt, tt)))

abbrev upper : ℕ → Bool
upper c = leb b'A' c && leb c b'Z'

prepare-typed_example :
    (exps : List Expression) × (log : List (List String)) × (generate_expression_sequence go
        (flat_boot_command settings)
      ≡ parsed exps)
    × (do_sequence
          (pc_xt_driver record_codes 4 upper)
          background
          seconds
          exps
          (record { buffer = []; vm = [] })
        ≡ (none, record { buffer = []; vm = log }))
    × (concat log ≡ typed_all 4 upper (map (meant go) typed_items))
    × All (IsChunk 4) log
unfolding written_all validate_all key_codes special_codes lookup str_eq scancode_of hex02
prepare-typed_example =
    prepare-typed go seconds 4 upper settings (codes "a<enter>" ∷ codes "<wait>" ∷ []) typed_items
      refl refl (refl, (refl, (tt, tt))) ((λ _. omega arith), ((refl, λ _. omega arith), (tt, tt)))
      (prepare-written_example)
