-- ===== src/Bootcommand/Tests.antt =====
-- Keys typed on the drivers, and the theorems at concrete inputs.
use packer_plugin_sdk.Prelude.{
  ℕ, suc, ◌≡◌, refl, Bool, true, false, Option, none, some, List, [], ◌∷◌, String, arith, concat,
  All, ltb, if◌then◌else◌, leb, ◌&&◌, lookup, str_eq, hex02, ℤ, pos,
}
use packer_plugin_sdk.Bootcommand.Driver.{key_press, BcDriver}
use packer_plugin_sdk.Bootcommand.PcXt
use packer_plugin_sdk.Bootcommand.PcXt.{
  Scancode, PcXtDriver, chunk_loop, chunk_scan_codes, scancode_in, scancode_of, key_codes,
  special_codes, send_all, pc_xt_driver,
}
use packer_plugin_sdk.Bootcommand.PcXt.Chunks.{IsChunk}
use packer_plugin_sdk.Bootcommand.PcXt.Typing.{record_codes, typed_all, do_sequence-typed}
use packer_plugin_sdk.Bootcommand.Vnc
use packer_plugin_sdk.Bootcommand.Vnc.{VncDriver}
use packer_plugin_sdk.Bootcommand.Sequence.{
  Expression, wait, special, literal, background, validate_all, do_expression, do_loop, do_sequence,
}
use packer_plugin_sdk.Bootcommand.Sequence.Waits.{mute_flush, Unheard, do_sequence-Unheard}

-- `unicode.IsUpper` on ASCII.
abbrev ascii_upper : ℕ → Bool
ascii_upper c = leb b'A' c && leb c b'Z'

abbrev seconds : ℤ → String
seconds d = "1s"

-- `aB<enter><wait>`
abbrev command : List Expression
command =
    literal b'a' key_press ∷ literal b'B' key_press ∷ special "enter" key_press ∷ wait (pos 1) ∷ []

abbrev start : PcXtDriver (List (List String))
start = record { buffer = []; vm = [] }

sent_codes :
    do_sequence (pc_xt_driver record_codes 4 ascii_upper) background seconds command start ≡ (
      none,
      record {
        buffer = [];
        vm = ("1e" ∷ "9e" ∷ []) ∷ ("2a" ∷ "30" ∷ "b0" ∷ "aa" ∷ []) ∷ ("1c" ∷ "9c" ∷ []) ∷ [];
      },
    )
unfolding do_sequence do_loop do_expression validate_all PcXt.flush PcXt.send_key PcXt.send_special
    chunk_scan_codes send_all key_codes scancode_of special_codes hex02 lookup str_eq
sent_codes = refl

do_sequence-typed_example :
    (log : List (List String)) × (do_sequence
        (pc_xt_driver record_codes 4 ascii_upper)
        background
        seconds
        command
        start
      ≡ (none, record { buffer = []; vm = log }))
    × (concat log ≡ typed_all 4 ascii_upper command)
    × All (IsChunk 4) log
unfolding validate_all key_codes special_codes lookup str_eq scancode_of hex02
do_sequence-typed_example =
    do_sequence-typed 4 ascii_upper seconds command refl
      ((λ _. omega arith), ((λ _. omega arith), ((refl, λ _. omega arith), (tt, tt))))

-- A connection that counts its events and fails at the fourth.
abbrev counted : ℕ → Bool → ℕ → Option String × ℕ
counted k down n = if ltb n 3 then (none, suc n) else (some "closed", n)

abbrev link : VncDriver ℕ
link = record { c = 0; err = none }

abbrev broken : VncDriver ℕ
broken = record { c = 3; err = some "closed" }

-- A shifted key has four events, and the fourth fails.
shifted_press_breaks :
    Vnc.send_key counted ascii_upper b'Q' key_press link ≡ (some "closed", broken)
unfolding Vnc.send_key Vnc.key_event
shifted_press_breaks = refl

-- A driver whose flush fails once.
abbrev failing : BcDriver Bool
failing = record {
  send_key = λ key action s. (none, s);
  send_special = λ name action s. (none, s);
  flush = λ s. if s then (some "closed", false) else (none, false);
}

-- The error of the flush in front of the wait is not the one that the command ends with.
do_sequence-Unheard_example :
    Unheard failing background
      (do_sequence (mute_flush failing) background (λ d. "0s") (wait (pos 1) ∷ []) true)
      (do_sequence failing background (λ d. "0s") (wait (pos 1) ∷ []) true)
do_sequence-Unheard_example =
    do_sequence-Unheard failing background (λ d. "0s") (wait (pos 1) ∷ []) true
