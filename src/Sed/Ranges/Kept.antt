-- ===== src/Sed/Ranges/Kept.antt =====
-- `selected` changes only the range state of a command.
use websh.Base.{Bytes, ◌≡◌, refl, Bool, true, false, Option, if◌then◌else◌, arith}
use websh.Base.Result.{Result, ok, err}
use websh.Sed.Types.{AddrKind, addr_line, addr_last, addr_regex, addr_step, addr_plus, Command}
use websh.Sed.Host.{Host}
use websh.Sed.Ranges.{
  View, Selection, match_regex, start_range, enter_range, leave_range, inside_range, selected,
}

-- The name and the block stay.
abbrev pub Kept : Command → Command → Type 0
Kept c d = (d.name ≡ c.name) × (d.block ≡ c.block)

start_range-Kept : (k : AddrKind) (v : View) (c : Command) → Kept c (start_range k v c)
unfolding start_range
start_range-Kept addr_line v c = ground arith
start_range-Kept addr_plus v c = ground arith
start_range-Kept addr_step v c = ground arith
start_range-Kept addr_last v c = ground arith
start_range-Kept _ v c = (refl, refl)

enter_range-Kept :
    (v : View) (c : Command) (r : Result Bool) (rx : Option Bytes)
    → Kept c (enter_range v c (r, rx)).cmd
unfolding enter_range
enter_range-Kept v c (ok true) rx = start_range-Kept c.a2.kind v (record c { active = true })
enter_range-Kept v c (ok false) rx = (refl, refl)
enter_range-Kept v c (err e) rx = (refl, refl)

leave_range-Kept :
    (c : Command) (r : Result Bool) (rx : Option Bytes) → Kept c (leave_range c (r, rx)).cmd
unfolding leave_range
leave_range-Kept c (ok b) rx = ground arith
leave_range-Kept c (err e) rx = (refl, refl)

inside_range-Kept :
    (k : AddrKind) (h : Host) (v : View) (rx : Option Bytes) (c : Command)
    → Kept c (inside_range k h v rx c).cmd
unfolding inside_range
inside_range-Kept addr_line h v rx c = ground arith
inside_range-Kept addr_plus h v rx c = ground arith
inside_range-Kept addr_step h v rx c = ground arith
inside_range-Kept addr_last h v rx c = ground arith
inside_range-Kept addr_regex h v rx c =
    let r = match_regex h v rx c.a2 in leave_range-Kept c r.0 r.1
inside_range-Kept _ h v rx c = (refl, refl)

SelectionKept : Command → Selection → Type 0
SelectionKept c s = Kept c s.cmd

SelectionKept-if :
    (c : Command) (b : Bool) (x y : Selection)
    → SelectionKept c x
    → SelectionKept c y
    → SelectionKept c (if b then x else y)
SelectionKept-if c true x y k l = k
SelectionKept-if c false x y k l = l

module _ (h : Host) (v : View) (rx : Option Bytes) (c : Command) where
  whole :
      (r : Result Bool) (rx' : Option Bytes)
      → SelectionKept c (record { verdict = r; cmd = c; last_rx = rx' })
  unfolding SelectionKept
  whole r rx' = (refl, refl)

  entering : (r : Result Bool × Option Bytes) → SelectionKept c (enter_range v c r)
  unfolding SelectionKept
  entering r = enter_range-Kept v c r.0 r.1

  inside : (k : AddrKind) → SelectionKept c (inside_range k h v rx c)
  unfolding SelectionKept
  inside k = inside_range-Kept k h v rx c

  selected-SelectionKept : SelectionKept c (selected h v rx c)
  unfolding selected
  selected-SelectionKept = search (SelectionKept-if, whole, entering, inside)

  -- The command that `selected` leaves has the name and the block of the one it was given.
  pub selected-Kept : Kept c (selected h v rx c).cmd
  selected-Kept = unfold SelectionKept in selected-SelectionKept
