-- ===== src/Sed/Parse/Arguments/Progress.antt =====
-- What the arguments of a command leave: at most what they were given.
use websh.Base.{
  ℕ, zero, suc, ◌≤◌, false, [], ◌∷◌, ◌++◌, arith, if◌then◌else◌, Bytes, length, drop, equal,
}
use websh.Base.Int.{pos, int_eq}
use websh.Base.Result.{Result, ok, err, plain, ◌>>=◌}
use websh.Sed.Types.{Command}
use websh.Sed.Parse.Cursor.{Parser, skip_space, errorf, number, delimited, to_end, end_command}
use websh.Sed.Parse.Replacement.{parse_replacement}
use websh.Sed.Parse.Arguments.{
  text_loop, text_start, text_argument, Flags, flags_loop, substitute_finish, substitute_argument,
  translit_argument, quit_argument, label_argument, file_argument, command_argument,
  substitute_pattern,
}
use websh.Sed.Parse.Cursor.Progress.{
  AtMost, AtMost-mono, AtMost-bind, AtMost-if, AtMost-ok, AtMost-err, skip_space-le, drop-le,
  number-le, to_end-le, delimited-AtMost, end_command-EndsAtMost, AtMost-end,
}

text_loop-le : (s out : Bytes) → length (text_loop out s).1 ≤ length s
unfolding text_loop
text_loop-le [] out = omega arith
text_loop-le (c ∷ []) out = ground arith
text_loop-le (c ∷ d ∷ s) out =
    ground (arith, text_loop-le s (out ++ d ∷ []), text_loop-le (d ∷ s) (out ++ c ∷ []))

text_start-le : (s : Bytes) → length (text_start s) ≤ length s
unfolding text_start
text_start-le s = ground (
  arith,
  skip_space-le s,
  skip_space-le (skip_space s),
  drop-le (skip_space s),
  drop-le (drop 1 (skip_space s)),
)

text_argument-AtMost :
    (p : Parser) (cmd : Command) (s : Bytes) → AtMost (length s) (text_argument p cmd s)
unfolding text_argument AtMost
text_argument-AtMost p cmd s = at_start (text_start s) (text_start-le s)
  where
    at_start :
        (r : Bytes)
        → length r ≤ length s
        → AtMost {A = Command} (length s) (elim r as (λ _. Result (Command × Bytes)) [
          | [] ↦ errorf p [] (plain "expected \\ after `a', `c' or `i'")
          | c ∷ s' ↦ ok (record cmd { text = (text_loop [] (c ∷ s')).0 }, (text_loop [] (c ∷ s')).1)
        ])
    at_start [] h = tt
    at_start (c ∷ s') h = omega (arith, text_loop-le (c ∷ s') [])

flags_loop-AtMost :
    (p : Parser) (s : Bytes) (k : ℕ) (f : Flags) → AtMost (length s) (flags_loop p k f s)
unfolding flags_loop
flags_loop-AtMost p [] k f = unfold AtMost in omega arith
flags_loop-AtMost p (c ∷ s) (suc k) f =
    AtMost-mono (flags_loop p k f s) (length s) (suc (length s)) (omega arith)
      (flags_loop-AtMost p s k f)
flags_loop-AtMost p (c ∷ s) zero f =
    let n = suc (length s) in
    let later : (k : ℕ) (g : Flags) → AtMost n (flags_loop p k g s) = λ k g.
      AtMost-mono (flags_loop p k g s) (length s) n (omega arith) (flags_loop-AtMost p s k g) in
    let all : n ≤ n = omega arith in
    let file : length (to_end false s).1 ≤ n = omega (arith, to_end-le false s) in
    search (AtMost-if, AtMost-ok, AtMost-err, later) depth 10

-- the end of a command behind its argument
ended :
    (p : Parser) (cmd : Command) (s : Bytes) (n : ℕ)
    → length s ≤ n
    → AtMost n (end_command p s >>= λ r. ok (cmd, r))
ended p cmd s n h =
    AtMost-end (end_command p s) (λ _. cmd) (length s) n h (end_command-EndsAtMost p s)

quit_argument-AtMost :
    (p : Parser) (cmd : Command) (s : Bytes) → AtMost (length s) (quit_argument p cmd s)
unfolding quit_argument
quit_argument-AtMost p cmd s =
    let r = skip_space s in
    let counted : length (number r).1 ≤ length s = omega (arith, number-le r, skip_space-le s) in
    AtMost-if (length s) _ _ _ (ended p (record cmd { code = (number r).0 }) (number r).1 _ counted)
      (ended p cmd r _ (skip_space-le s))

label_argument-AtMost :
    (p : Parser) (cmd : Command) (s : Bytes) → AtMost (length s) (label_argument p cmd s)
unfolding label_argument
label_argument-AtMost p cmd s = search (AtMost-if, AtMost-ok, AtMost-err, to_end-le)

file_argument-AtMost :
    (p : Parser) (cmd : Command) (s : Bytes) → AtMost (length s) (file_argument p cmd s)
unfolding file_argument
file_argument-AtMost p cmd s =
    let n = length s in AtMost-if n _ _ _ (AtMost-err _ n _) (AtMost-ok n _ _ (to_end-le false s))

translit_argument-AtMost :
    (p : Parser) (cmd : Command) (s : Bytes) → AtMost (length s) (translit_argument p cmd s)
unfolding translit_argument
translit_argument-AtMost p cmd [] = AtMost-err _ _ _
translit_argument-AtMost p cmd (d ∷ s) =
    AtMost-bind (delimited p d s) _ (length s) _ (delimited-AtMost p d s) (λ src h.
      AtMost-bind (delimited p d src.1) _ (length src.1) _ (delimited-AtMost p d src.1) (λ dst k.
        let le : length dst.1 ≤ suc (length s) = omega arith in
        AtMost-if _ _ _ _ (ended p _ dst.1 _ le) (AtMost-err _ _ _)))

substitute_finish-AtMost :
    (p : Parser) (d : ℕ) (pat rep : Bytes) (f : Flags) (s : Bytes)
    → AtMost (length s) (substitute_finish p d pat rep (f, s))
unfolding substitute_finish
substitute_finish-AtMost p d pat rep f s = go (
    substitute_pattern p d pat
      (record f { cmd = record (f.cmd) { nth = if int_eq f.cmd.nth 0 then pos 1 else f.cmd.nth } })
      s)
  where
    go :
        (m : Result Command)
        → AtMost (length s) (
            m >>= λ cmd.
            let done = record cmd { repl = parse_replacement rep } in
            if equal done.wfile [] then (end_command p s >>= λ r. ok (done, r)) else ok (done, s))
    go (err e) = AtMost-err _ _ _
    go (ok cmd) =
        let all : length s ≤ length s = omega arith in
        AtMost-if _ _ _ _ (ended p _ s _ all) (AtMost-ok _ _ _ all)

substitute_argument-AtMost :
    (p : Parser) (cmd : Command) (s : Bytes) → AtMost (length s) (substitute_argument p cmd s)
unfolding substitute_argument
substitute_argument-AtMost p cmd [] = AtMost-err _ _ _
substitute_argument-AtMost p cmd (d ∷ s) = AtMost-if _ _ _ _ (AtMost-err _ _ _) (
    AtMost-bind (delimited p d s) _ (length s) _ (delimited-AtMost p d s) (λ pat h.
      AtMost-bind (delimited p d pat.1) _ (length pat.1) _ (delimited-AtMost p d pat.1) (λ rep k.
        AtMost-bind (flags_loop p 0 (record { cmd = cmd; icase = false; multi = false }) rep.1) _
          (length rep.1) _ (flags_loop-AtMost p rep.1 0 _)
          (λ fl m.
            let le : length fl.1 ≤ suc (length s) = omega arith in
            AtMost-mono (substitute_finish p d pat.0 rep.0 fl) (length fl.1) _ le
              (substitute_finish-AtMost p d pat.0 rep.0 fl.0 fl.1)))))

-- A command's argument is read off the front of what is left.
pub command_argument-AtMost :
    (p : Parser) (cmd : Command) (s : Bytes) → AtMost (length s) (command_argument p cmd s)
unfolding command_argument
command_argument-AtMost p cmd s =
    let n = length s in
    let all : n ≤ n = omega arith in
    let closed = ended p cmd s n all in
    search
      (
        AtMost-if, AtMost-ok, AtMost-err, quit_argument-AtMost, label_argument-AtMost, to_end-le,
        file_argument-AtMost, text_argument-AtMost, substitute_argument-AtMost,
        translit_argument-AtMost,
      )
      depth 13
