-- ===== src/Sed/Types.antt =====
-- The data of shell/sed/parse.go and sed.go: addresses, the parts of a replacement, commands. A
-- compiled regular expression stands as the RE2 text that it was compiled from.
use websh.Base.Int.{ℤ, pos}
use websh.Base.{ℕ, Bool, true, false, List, [], Bytes}

pub data AddrKind : Type 0 where
  addr_none addr_line addr_last addr_regex addr_step addr_plus addr_zero : AddrKind

pub AddrKind-discrete : Discrete AddrKind
AddrKind-discrete = hlevel

pub record Address : Type 0 where
  pub kind : AddrKind
  pub line : ℤ
  pub step : ℤ
  pub re : Bytes
  pub empty : Bool

-- `address{}`
abbrev pub no_address : Address
no_address = record { kind = addr_none; line = pos 0; step = pos 0; re = []; empty = false }

-- A `replPart`: a literal, a group, or a case conversion. The source's third field tells which of
-- the three it is: `group` is -1 but for a group, `caseOp` is 0 but for a conversion.
pub data ReplPart : Type 0 where
  lit : Bytes → ReplPart
  group : ℕ → ReplPart
  case_op : ℕ → ReplPart

pub record Command : Type 0 where
  pub a1 : Address
  pub a2 : Address
  pub negate : Bool
  pub name : ℕ
  pub active : Bool
  pub end_line : ℤ
  pub text : Bytes
  pub fname : Bytes
  pub block : ℕ
  pub re : Bytes
  pub re_empty : Bool
  pub repl : List ReplPart
  pub global : Bool
  pub nth : ℤ
  pub print : Bool
  pub wfile : Bytes
  pub ymap : List (ℕ × ℕ)
  pub code : ℤ

-- `&command{}`
abbrev pub new_command : Command
new_command = record {
  a1 = no_address;
  a2 = no_address;
  negate = false;
  name = 0;
  active = false;
  end_line = pos 0;
  text = [];
  fname = [];
  block = 0;
  re = [];
  re_empty = false;
  repl = [];
  global = false;
  nth = pos 0;
  print = false;
  wfile = [];
  ymap = [];
  code = pos 0;
}

-- `a.kind == addrNone` and the like
abbrev pub is_none : AddrKind → Bool
is_none addr_none = true
is_none _ = false

abbrev pub is_regex : AddrKind → Bool
is_regex addr_regex = true
is_regex _ = false

abbrev pub is_zero : AddrKind → Bool
is_zero addr_zero = true
is_zero _ = false
