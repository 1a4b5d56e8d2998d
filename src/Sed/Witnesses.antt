-- ===== src/Sed/Witnesses.antt =====
-- The theorems on shell/sed at concrete inputs.

use websh.Base.{◌≡◌, ◌≢◌, ◌↔◌, refl, true, false, none, some, List, [], ◌∷◌, arith, Bytes, codes}
use websh.Base.Int.{pos}
use websh.Base.Result.{ok}
use websh.Sed.Types.{
  addr_line, addr_zero, addr_regex, no_address, new_command, Command, ReplPart, lit, group, case_op,
}
use websh.Sed.Samples.{host, has_match, find_word}
use websh.Sed.Output.Text.{Accepts}
use websh.Sed.Input.{new_input}
use websh.Sed.Input.Lines.{all_lines, join_lines}
use websh.Sed.Input.Reading.{read_times, read_times-new_input, join_lines-read_times}
use websh.Sed.State.{Program}
use websh.Sed.Run.{run, done, start_state}
use websh.Sed.Run.Cat.{run_empty}
use websh.Sed.Ranges.{View}
use websh.Sed.Ranges.Lines.{sweep, sweep_lines}
use websh.Sed.Ranges.Regexes.{sweep_zero}
use websh.Sed.Translate.{translate}
use websh.Sed.Translate.Dialects.{
  Piece, opening, closing, alternative, plus, ordinary, literal, translate-dialects,
}
use websh.Sed.Parse.Replacement.{parse_replacement}
use websh.Sed.Parse.Replacement.RoundTrip.{parse_replacement-write_parts}
use websh.Sed.Parse.Cursor.{Parser, number, delimited}
use websh.Sed.Parse.Cursor.Reading.{WasDelimited, delimited_iff}
use websh.Sed.Parse.{parse}
use websh.Sed.Parse.Progress.{parse-ne-none}
use websh.Sed.Parse.Jumps.{JumpsRight, parse-JumpsRight}
use websh.Base.Decimal.{itoa}
use websh.Sed.Numbers.{number-itoa}
use websh.Sed.Exec.{exec_from}
use websh.Sed.Exec.Forward.{exec_from-Forward}

abbrev inputs : List Bytes
inputs = codes "one\ntwo" ∷ [] ∷ codes "three\n" ∷ []

host-Accepts : Accepts host
host-Accepts w s = refl

abbrev no_commands : Program
no_commands = record {
  quiet = false;
  cmds = [];
  hold = [];
  last_rx = none;
  writers = [];
  code = pos 3;
}

read_times-new_input_example :
    let r = read_times 3 (new_input inputs) in
    (r.0 ≡ all_lines inputs) × (r.1.has_next ≡ false) × (r.1.line ≡ 3)
read_times-new_input_example = read_times-new_input inputs

join_lines-read_times_example :
    join_lines (read_times 2 (new_input (codes "one\ntwo" ∷ []))).0 ≡ codes "one\ntwo"
join_lines-read_times_example = join_lines-read_times (codes "one\ntwo")

run_empty_example :
    run 5 1 host no_commands inputs
    ≡ some (record no_commands { code = pos 0 }, codes "one\ntwo\nthree\n", done)
run_empty_example = run_empty host host-Accepts 5 0 no_commands inputs refl refl (omega arith)

-- Three lines, and the commands `2,3d`, `2,+1d` and `0,/b/d`.
abbrev views : List View
views =
    record { ps = codes "a"; line = 1; last = false }
    ∷ record { ps = codes "b"; line = 2; last = false }
    ∷ record { ps = codes "c"; line = 3; last = true }
    ∷ []

abbrev lines_2_3 : Command
lines_2_3 = record new_command {
  name = b'd';
  a1 = record no_address { kind = addr_line; line = pos 2 };
  a2 = record no_address { kind = addr_line; line = pos 3 };
}

abbrev zero_to_b : Command
zero_to_b = record new_command {
  name = b'd';
  a1 = record no_address { kind = addr_zero };
  a2 = record no_address { kind = addr_regex; re = codes "(?s)b" };
  active = true;
}

sweep_lines_example : sweep host none lines_2_3 views ≡ ok false ∷ ok true ∷ ok true ∷ []
sweep_lines_example =
    sweep_lines host 2 3 views none lines_2_3 1 (refl, (refl, (refl, tt))) (omega arith) refl refl
      refl refl refl

sweep_zero_example : sweep host none zero_to_b views ≡ ok true ∷ ok true ∷ ok false ∷ []
unfolding has_match find_word
sweep_zero_example = sweep_zero host (codes "(?s)b") views none zero_to_b refl refl refl refl refl

-- `\(a\|b\)\+` and `(a|b)+`
abbrev pieces : List Piece
pieces = opening ∷ ordinary b'a' ∷ alternative ∷ ordinary b'b' ∷ closing ∷ plus ∷ literal b'?' ∷ []

translate-dialects_example :
    (translate (codes "\\(a\\|b\\)\\+?") false b'/' ≡ ok (codes "(a|b)+\\?"))
    × (translate (codes "(a|b)+\\?") true b'/' ≡ ok (codes "(a|b)+\\?"))
translate-dialects_example =
    translate-dialects b'/' refl pieces (tt, (refl, (tt, (refl, (tt, (tt, (refl, tt)))))))

abbrev parts : List ReplPart
parts = lit (codes "a&") ∷ group 1 ∷ case_op b'U' ∷ lit (codes "\\") ∷ []

parse_replacement-write_parts_example : parse_replacement (codes "a\\&\\1\\U\\\\") ≡ parts
parse_replacement-write_parts_example =
    parse_replacement-write_parts parts
      (refl, λ e. absurd cc, (refl, omega arith, (refl, refl, (refl, λ e. absurd cc, tt))))

abbrev any_parser : Parser
any_parser = record { total = 5; ere = false; compiles = λ _. true }

delimited_iff_example :
    (delimited any_parser b'/' (codes "a\\/b/g") ≡ ok (codes "a\\/b", codes "g"))
    ↔ WasDelimited any_parser b'/' (codes "a\\/b/g") (codes "a\\/b") (codes "g")
delimited_iff_example =
    delimited_iff any_parser b'/' (codes "a\\/b/g") (codes "a\\/b") (codes "g") refl

number-itoa_example : number (codes "120,") ≡ (pos 120, codes ",")
unfolding itoa
number-itoa_example = number-itoa 120 (codes ",") (omega arith) refl

parse-ne-none_example : parse (λ _. true) (codes "1!{s/a/b/;p}") false ≢ none
parse-ne-none_example = parse-ne-none (λ _. true) (codes "1!{s/a/b/;p}") false

-- The script `:a;ba`.
abbrev label_a : Command
label_a = record new_command { name = b':'; text = codes "a" }

abbrev branch_a : Command
branch_a = record new_command { name = b'b'; text = codes "a"; block = 0 }

parse-JumpsRight_example : JumpsRight (label_a ∷ branch_a ∷ []) 1 branch_a
unfolding parse
parse-JumpsRight_example = parse-JumpsRight (λ _. true) (codes ":a;ba") false 1 branch_a refl refl

-- The script `p;b`.
abbrev print_branch : Program
print_branch = record no_commands {
  cmds = record new_command { name = b'p' } ∷ record new_command { name = b'b'; block = 2 } ∷ [];
}

exec_from-Forward_example : exec_from 3 host 0 (start_state print_branch inputs) ≢ none
unfolding start_state
exec_from-Forward_example =
    exec_from-Forward host (start_state print_branch inputs)
      (λ e. absurd (ground arith), (λ e. omega arith, tt))
