-- ===== src/Sed/Ranges.antt =====
-- shell/sed/sed.go: `matchRegex`, `matchOne` and `selected`, the addresses of a command.
pub mod Lines
pub mod Regexes
pub mod Kept
use websh.Base.Result.{plain, Result, ok, err}
use websh.Base.Int.{int_sub, int_abs, int_le, int_eq, int_add}
use websh.Sed.Types.{
  AddrKind, addr_line, addr_last, addr_regex, addr_step, addr_plus, Address, Command, is_none,
}
use websh.Base.{
  ℕ, ◌%◌, Bool, true, false, not, ◌&&◌, ◌||◌, Option, none, some, ◌==◌, if◌then◌else◌, Bytes,
}
use websh.Sed.Host.{Host}

-- What an address is held against: the pattern space, the line number, and whether the line is the
-- last one.
pub record View : Type 0 where
  pub ps : Bytes
  pub line : ℕ
  pub last : Bool

-- The answer, the command with its new range state, and the regex used last.
pub record Selection : Type 0 where
  pub verdict : Result Bool
  pub cmd : Command
  pub last_rx : Option Bytes

-- `st.matchRegex(a)`
unfoldable pub match_regex : Host → View → Option Bytes → Address → Result Bool × Option Bytes
match_regex h v last_rx a =
    if a.empty
    then (elim last_rx [
      | none ↦ (err (plain "no previous regular expression"), none)
      | some re ↦ (ok (h.matches re v.ps), some re)
    ])
    else (ok (h.matches a.re v.ps), some a.re)

match_kind : AddrKind → Host → View → Option Bytes → Address → Result Bool × Option Bytes
unfolding int_eq int_le int_sub match_regex
match_kind addr_line h v rx a = (ok (int_eq a.line v.line), rx)
match_kind addr_last h v rx a = (ok v.last, rx)
match_kind addr_regex h v rx a = match_regex h v rx a
match_kind addr_step h v rx a =
    if int_le a.step 0
    then (ok (int_eq a.line v.line), rx)
    else (ok (int_le a.line v.line && int_abs (int_sub v.line a.line) % int_abs a.step == 0), rx)
match_kind _ h v rx a = (ok false, rx)

-- `st.matchOne(a)`
unfoldable pub match_one : Host → View → Option Bytes → Address → Result Bool × Option Bytes
unfolding match_kind
match_one h v rx a = match_kind a.kind h v rx a

-- the first `switch c.a2.kind`: the line that `a1` has matched
start_range : AddrKind → View → Command → Command
unfolding int_add int_eq int_le
start_range addr_line v c = if int_le c.a2.line v.line then record c { active = false } else c
start_range addr_plus v c =
    let c' = record c { end_line = int_add v.line c.a2.line } in
    if int_eq c.a2.line 0 then record c' { active = false } else c'
start_range addr_step v c =
    if int_le c.a2.step 0 || v.line % int_abs c.a2.step == 0 then record c { active = false } else c
start_range addr_last v c = if v.last then record c { active = false } else c
start_range _ v c = c

-- outside the range: has `a1` matched?
enter_range : View → Command → Result Bool × Option Bytes → Selection
unfolding start_range
enter_range v c (ok true, rx) = record {
  verdict = ok true;
  cmd = start_range c.a2.kind v (record c { active = true });
  last_rx = rx;
}
enter_range v c (r, rx) = record { verdict = r; cmd = c; last_rx = rx }

-- the end of the range is a regex
leave_range : Command → Result Bool × Option Bytes → Selection
leave_range c (ok b, rx) = record {
  verdict = ok true;
  cmd = if b then record c { active = false } else c;
  last_rx = rx;
}
leave_range c (err e, rx) = record { verdict = err e; cmd = c; last_rx = rx }

-- The second `switch c.a2.kind`, inside the range. A step here is above 0, or the range had ended
-- with its first line.
inside_range : AddrKind → Host → View → Option Bytes → Command → Selection
unfolding int_le leave_range match_regex
inside_range addr_line h v rx c = record {
  verdict = ok true;
  cmd = if int_le c.a2.line v.line then record c { active = false } else c;
  last_rx = rx;
}
inside_range addr_plus h v rx c = record {
  verdict = ok true;
  cmd = if int_le c.end_line v.line then record c { active = false } else c;
  last_rx = rx;
}
inside_range addr_step h v rx c = record {
  verdict = ok true;
  cmd = if v.line % int_abs c.a2.step == 0 then record c { active = false } else c;
  last_rx = rx;
}
inside_range addr_last h v rx c = record {
  verdict = ok true;
  cmd = if v.last then record c { active = false } else c;
  last_rx = rx;
}
inside_range addr_regex h v rx c = leave_range c (match_regex h v rx c.a2)
inside_range _ h v rx c = record { verdict = ok true; cmd = c; last_rx = rx }

-- `st.selected(c)`
unfoldable pub selected : Host → View → Option Bytes → Command → Selection
unfolding enter_range inside_range match_one
selected h v rx c =
    if is_none c.a1.kind
    then record { verdict = ok true; cmd = c; last_rx = rx }
    else if is_none c.a2.kind
    then (let r = match_one h v rx c.a1 in record { verdict = r.0; cmd = c; last_rx = r.1 })
    else if not c.active
    then enter_range v c (match_one h v rx c.a1)
    else inside_range c.a2.kind h v rx c
