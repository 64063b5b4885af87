-- ===== src/Bootcommand/Grammar.antt =====
-- bootcommand/boot_command.go: the rules of the grammar of boot commands, with their actions.
mod Rules
pub mod Whole
pub mod Items
pub mod Keys
pub mod Seconds
pub mod Reads
pub mod RoundTrip
mod Tests
use packer_plugin_sdk.Prelude.{
  ℕ, suc, ◌+◌, ◌-◌, ◌*◌, ◌%◌, Bool, true, false, Option, none, some, List, [], ◌∷◌, ◌++◌, map,
  String, if◌then◌else◌, ltb, is_nil, ℤ, pos, negsuc, codes, text,
}
use packer_plugin_sdk.Bootcommand.Driver.{KeyAction, key_on, key_off, key_press}
use packer_plugin_sdk.Bootcommand.Sequence.{Expression, wait, special, literal}
use packer_plugin_sdk.Bootcommand.Specials.{special_keys}
use packer_plugin_sdk.Bootcommand.Peg.{
  Match, fails, matches, stuck, Parser, to_lower, lit_matcher, any_matcher, char_class, not_expr,
  choice, zero_or_one, zero_or_more, one_or_more, seq, action, as_value,
}

-- What the actions use of Go's library: `strconv.ParseInt(s, 10, 64)` of a text of digits and
-- `time.ParseDuration`, each with its error, if any, and `unicode.ToLower` beyond ASCII.
pub record GoLib : Type 0 where
  pub parse_int : List ℕ → ℕ × List String
  pub parse_duration : List ℕ → ℤ × List String
  pub lower_high : ℕ → ℕ

-- The value of rule Integer: the bytes of a "0", or an int64.
pub data IntegerValue : Type 0 where
  bytes : List ℕ → IntegerValue
  int64 : ℕ → IntegerValue

-- The value that rule Wait finds between "wait" and ">".
pub data WaitValue : Type 0 where
  duration_value : ℤ → WaitValue
  integer_value : IntegerValue → WaitValue

-- A number taken into the range of an int64.
unfoldable pub to_int64 : ℕ → ℤ
to_int64 n =
    let m = n % 0x10000000000000000 in
    if ltb m 0x8000000000000000 then pos m else negsuc (0xffffffffffffffff - m)

abbrev pub second : ℕ
second = 1000000000

-- `onWait1`: what is no duration and no int64 is one second.
unfoldable pub on_wait : Option WaitValue → Expression
on_wait none = wait (pos second)
on_wait (some (duration_value d)) = wait d
on_wait (some (integer_value (int64 t))) = wait (to_int64 (t * second))
on_wait (some (integer_value (bytes b))) = wait (pos second)

-- How a parse ends. `loops` is an endless repetition.
pub data Parsed : Type 0 where
  parsed : List Expression → Parsed
  refused : List String → Parsed
  loops : Parsed

abbrev pub time_units : List String
time_units = "ns" ∷ "us" ∷ "µs" ∷ "ms" ∷ "s" ∷ "m" ∷ "h" ∷ []

-- `onLiteral1`, on the text of one rune.
abbrev pub on_literal : List ℕ → ℕ
on_literal [] = 0xfffd
on_literal (c ∷ cs) = c

abbrev pub action_of : Option KeyAction → KeyAction
action_of none = key_press
action_of (some a) = a

module _ (lib : GoLib) where
  abbrev pub exact : String → Parser (List ℕ)
  exact s = lit_matcher (λ c. c) (codes s)

  abbrev pub any_case : String → Parser (List ℕ)
  any_case s = lit_matcher (to_lower lib.lower_high) (codes s)

  -- `onSpecial1`
  unfoldable pub on_special : List ℕ → Option KeyAction → Expression
  on_special s t = special (text (map (to_lower lib.lower_high) s)) (action_of t)

  unfoldable pub expr_start : Parser (List ℕ)
  expr_start = exact "<"

  unfoldable pub expr_end : Parser (List ℕ)
  expr_end = exact ">"

  unfoldable pub literal_rule : Parser ℕ
  literal_rule = action (λ t a. (on_literal t, [])) any_matcher

  unfoldable pub on : Parser KeyAction
  on = action (λ t a. (key_on, [])) (any_case "on")

  unfoldable pub off : Parser KeyAction
  off = action (λ t a. (key_off, [])) (any_case "off")

  unfoldable pub digit : Parser (List ℕ)
  digit = char_class b'0' b'9'

  unfoldable pub non_zero_digit : Parser (List ℕ)
  non_zero_digit = char_class b'1' b'9'

  unfoldable pub integer : Parser IntegerValue
  integer = choice (as_value bytes (exact "0")) (
      action (λ t a. (int64 (lib.parse_int t).0, (lib.parse_int t).1))
        (seq non_zero_digit (zero_or_more digit)))

  unfoldable pub number : Parser (List ℕ)
  number =
      action (λ t a. (t, []))
        (seq (zero_or_one (exact "-"))
          (seq integer (zero_or_one (seq (exact ".") (one_or_more digit)))))

  -- A choice of literals.
  abbrev pub choices : (String → Parser (List ℕ)) → List String → Parser (List ℕ)
  choices p [] inp errs = fails errs
  choices p (s ∷ ss) inp errs = choice (p s) (choices p ss) inp errs

  unfoldable pub time_unit : Parser (List ℕ)
  time_unit = choices exact time_units

  unfoldable pub duration : Parser ℤ
  duration = action (λ t a. lib.parse_duration t) (one_or_more (seq number time_unit))

  unfoldable pub special_key : Parser (List ℕ)
  special_key = choices any_case special_keys

  unfoldable pub wait_rule : Parser Expression
  wait_rule =
      action (λ t (a, (b, (d, e))). (on_wait d, []))
        (seq expr_start (
          seq (exact "wait") (
            seq
              (zero_or_one
                (choice (as_value duration_value duration) (as_value integer_value integer)))
              expr_end)))

  unfoldable pub char_toggle : Parser Expression
  char_toggle =
      action (λ t (a, (l, (k, e))). (literal l k, []))
        (seq expr_start (seq literal_rule (seq (choice on off) expr_end)))

  unfoldable pub special_rule : Parser Expression
  special_rule =
      action (λ t (a, (s, (k, e))). (on_special s k, []))
        (seq expr_start (seq special_key (seq (zero_or_one (choice on off)) expr_end)))

  -- The choice of rule Expr. A literal that stands for itself is pressed.
  unfoldable pub expr_choice : Parser Expression
  expr_choice =
      choice wait_rule (
        choice char_toggle (choice special_rule (as_value (λ l. literal l key_press) literal_rule)))

  unfoldable pub expr : Parser (List Expression)
  expr = one_or_more expr_choice

  unfoldable pub eof : Parser (List ℕ)
  eof = not_expr any_matcher

  unfoldable pub input : Parser (List Expression)
  input = action (λ t (l, e). (l, [])) (seq expr eof)

  -- `Parse`: the expressions, or the errors.
  unfoldable pub parse : List ℕ → Parsed
  parse command = elim (input command []) [
    | fails errs ↦ refused (if is_nil errs then "no match found" ∷ [] else errs)
    | matches exps t rest errs ↦ if is_nil errs then parsed exps else refused errs
    | stuck ↦ loops
  ]

  -- `GenerateExpressionSequence`
  unfoldable pub generate_expression_sequence : List ℕ → Parsed
  generate_expression_sequence [] = parsed []
  generate_expression_sequence (c ∷ cs) = parse (c ∷ cs)
