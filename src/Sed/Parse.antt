-- ===== src/Sed/Parse.antt =====
-- shell/sed/parse.go: `parse`. The methods of `parser` are in the children.
pub mod Cursor
pub mod Addresses
pub mod Replacement
pub mod Arguments
pub mod Progress
pub mod Targets
pub mod Labels
pub mod Jumps
use mathlib.Core.Option
use websh.Base.Result.{plain, with_text, Result, ok, err, ◌>>=◌}
use websh.Sed.Types.{Address, no_address, Command, new_command, is_none, is_regex, is_zero}
use websh.Base.{
  ℕ, zero, suc, ◌+◌, ◌%◌, Bool, true, false, not, ◌&&◌, ◌||◌, Option, none, some, List, [], ◌∷◌,
  ◌++◌, map, ◌==◌, if◌then◌else◌, Bytes, codes, one_of, length, drop, equal,
}
use Cursor.{Parser, peek, skip_space, errorf}
use Addresses.{address}
use Arguments.{command_argument}

-- the separators between commands
unfoldable pub skip_separators : Bytes → Bytes
skip_separators [] = []
skip_separators (c ∷ rest) =
    let later = skip_separators rest in if one_of (codes " \t\n;") c then later else c ∷ rest

-- a comment, up to its newline
unfoldable pub skip_comment : Bytes → Bytes
skip_comment [] = []
skip_comment (c ∷ rest) = let later = skip_comment rest in if c == b'\n' then c ∷ rest else later

-- The blanks and `!` in front of a name, and whether there was a `!`.
unfoldable pub negations : Bool → Bytes → Bool × Bytes
negations negate [] = (negate, [])
negations negate (c ∷ rest) =
    let later = negations (negate || c == b'!') rest in
    if c == b' ' || c == b'\t' || c == b'!' then later else (negate, c ∷ rest)

second_address : Parser → Address → Bytes → Result (Address × Bytes)
unfolding address errorf skip_space
second_address p a1 rest =
    if not (is_none a1.kind) && peek rest == b','
    then (do
      a2 ← address p false (skip_space (drop 1 rest))
      if is_none a2.0.kind then errorf p a2.1 (plain "unexpected `,'") else ok a2)
    else ok (no_address, rest)

-- the command's name and its argument
named_command : Parser → Command → Bytes → Result (Command × Bytes)
unfolding command_argument errorf
named_command p cmd [] = errorf p [] (plain "missing command")
named_command p cmd (c ∷ rest) = command_argument p (record cmd { name = c }) rest

-- One command, addresses and argument included: the loop's body up to `p.command(cmd)`.
unfoldable pub parse_command : Parser → Bytes → Result (Command × Bytes)
unfolding address errorf named_command negations second_address
parse_command p rest = do
  a1 ← address p true rest
  a2 ← second_address p a1.0 a1.1
  if is_zero a1.0.kind && not (is_regex a2.0.kind)
      then errorf p a2.1 (plain "invalid usage of line address 0")
      else (let n = negations false a2.1 in
          named_command p (record new_command { a1 = a1.0; a2 = a2.0; negate = n.0 }) n.1)

-- `p.cmds[i].block = b`
unfoldable pub set_block : List Command → ℕ → ℕ → List Command
set_block [] i b = []
set_block (c ∷ cs) zero b = record c { block = b } ∷ cs
set_block (c ∷ cs) (suc i) b = c ∷ set_block cs i b

-- The commands read so far, and the indices of the open `{`, the last one in front.
pub record Blocks : Type 0 where
  pub cmds : List Command
  pub opened : List ℕ

close_block : Parser → Blocks → Command → Bytes → List ℕ → Result Blocks
unfolding errorf set_block
close_block p b cmd rest [] = errorf p rest (plain "unexpected `}'")
close_block p b cmd rest (o ∷ opened) =
    ok (record { cmds = set_block b.cmds o (length b.cmds) ++ cmd ∷ []; opened = opened })

-- the `switch cmd.name` behind `p.command(cmd)`, and the append
unfoldable pub add_command : Parser → Blocks → Command → Bytes → Result Blocks
unfolding close_block errorf
add_command p b cmd rest =
    if cmd.name == b'{'
    then ok (record { cmds = b.cmds ++ cmd ∷ []; opened = length b.cmds ∷ b.opened })
    else if cmd.name == b'}'
    then (if not (is_none cmd.a1.kind)
        then errorf p rest (plain "} doesn't want any addresses")
        else close_block p b cmd rest b.opened)
    else ok (record b { cmds = b.cmds ++ cmd ∷ [] })

-- How a round of the loop ends: the loop is over, or it goes on with what is left.
pub data Round : Type 0 where
  over : Result Blocks → Round
  further : Blocks → Bytes → Round

added : Bytes → Result Blocks → Round
added rest (err e) = over (err e)
added rest (ok b) = further b rest

parsed : Parser → Blocks → Result (Command × Bytes) → Round
unfolding add_command added
parsed p b (err e) = over (err e)
parsed p b (ok r) = added r.1 (add_command p b r.0 r.1)

-- one round, from behind the separators
round_at : Parser → Blocks → Bytes → Round
unfolding parse_command parsed skip_comment
round_at p b [] = over (ok b)
round_at p b (c ∷ s) =
    if c == b'#' then further b (skip_comment (c ∷ s)) else parsed p b (parse_command p (c ∷ s))

-- one round of the loop of `parse`
unfoldable pub parse_round : Parser → Blocks → Bytes → Round
unfolding round_at skip_separators
parse_round p b rest = round_at p b (skip_separators rest)

-- The loop of `parse` with fuel; `none` means that the fuel ran out.
unfoldable pub parse_loop : ℕ → Parser → Blocks → Bytes → Option (Result Blocks)
unfolding parse_round
parse_loop zero p b rest = none
parse_loop (suc fuel) p b rest = elim (parse_round p b rest) [
  | over r ↦ some r
  | further b' s ↦ parse_loop fuel p b' s
]

-- `labels[name]`
unfoldable pub find_label : Bytes → List (Bytes × ℕ) → Option ℕ
unfolding equal
find_label name [] = none
find_label name ((l, i) ∷ m) = if equal l name then some i else find_label name m

-- the labels of the commands from index `i` on
unfoldable pub collect_labels : ℕ → List (Bytes × ℕ) → List Command → Result (List (Bytes × ℕ))
unfolding find_label
collect_labels i labels [] = ok labels
collect_labels i labels (c ∷ cs) =
    let skipped = collect_labels (suc i) labels cs in
    let added = collect_labels (suc i) ((c.text, i) ∷ labels) cs in
    if c.name == b':'
    then (elim (find_label c.text labels) [
      | some j ↦ err (with_text "duplicate label %q" c.text)
      | none ↦ added
    ])
    else skipped

-- the target of a branch
unfoldable pub resolve_command : ℕ → List (Bytes × ℕ) → Command → Result Command
unfolding equal find_label
resolve_command count labels c =
    if one_of (codes "btT") c.name
    then (if equal c.text []
        then ok (record c { block = count })
        else elim (find_label c.text labels) [
          | none ↦ err (with_text "can't find label for jump to `%s'" c.text)
          | some i ↦ ok (record c { block = i })
        ])
    else ok c

unfoldable pub resolve_all : ℕ → List (Bytes × ℕ) → List Command → Result (List Command)
unfolding resolve_command
resolve_all count labels [] = ok []
resolve_all count labels (c ∷ cs) = do
  d ← resolve_command count labels c
  ds ← resolve_all count labels cs
  ok (d ∷ ds)

-- what `parse` does behind its loop
unfoldable pub finish_parse : Blocks → Result (List Command)
unfolding collect_labels resolve_all
finish_parse b = elim b.opened [
  | o ∷ _ ↦ err (plain "unmatched `{'")
  | [] ↦ do labels ← collect_labels 0 [] b.cmds; resolve_all (length b.cmds) labels b.cmds
]

-- `parse(src, ere)`
unfoldable pub parse : (Bytes → Bool) → Bytes → Bool → Option (Result (List Command))
unfolding finish_parse parse_loop
parse compiles src ere =
    let p : Parser = record { total = length src; ere = ere; compiles = compiles } in
    Option.map (λ r. r >>= finish_parse)
      (parse_loop (suc (length src)) p (record { cmds = []; opened = [] }) src)
