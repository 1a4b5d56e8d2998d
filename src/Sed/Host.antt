-- ===== src/Sed/Host.antt =====
-- What shell/sed calls and does not implement: Go's regexp and unicode packages, the callbacks of
-- `Options`, and the writers.
use websh.Base.{ℕ, Bool, Option, List, Bytes}

-- One match of `FindAllStringSubmatchIndex`: the bounds of the whole, and of each group that took
-- part.
pub record Match : Type 0 where
  pub start : ℕ
  pub stop : ℕ
  pub groups : List (Option (ℕ × ℕ))

-- `regexp`: whether a text compiles, whether the compiled text matches, and all its matches.
-- `unicode`: the upper and lower case of a rune. `Options`: `ReadFile` and `OpenWrite`, `none`
-- where nil. The writers: what a writer holds after a write, and whether the write succeeded.
pub record Host : Type 0 where
  pub compiles : Bytes → Bool
  pub matches : Bytes → Bytes → Bool
  pub find_all : Bytes → Bytes → List Match
  pub to_upper : ℕ → ℕ
  pub to_lower : ℕ → ℕ
  pub read_file : Option (Bytes → Option Bytes)
  pub open_write : Option (Bytes → Bool)
  pub put : Bytes → Bytes → Bytes × Bool
  pub file_put : Bytes → Bytes → Bytes → Bytes × Bool
