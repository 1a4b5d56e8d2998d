-- ===== src/Sed/Ranges/Regexes.antt =====
-- The range `0,/re/`, which may end on the first line.
use websh.Base.{
  ◌≡◌, refl, ap₂, Bool, true, false, not, List, [], ◌∷◌, arith, if◌then◌else◌, Bytes, Option,
  Bool-cases, inl, inr,
}
use websh.Base.Result.{Result, ok}
use websh.Sed.Types.{Command, addr_zero, addr_regex}
use websh.Sed.Host.{Host}
use websh.Sed.Ranges.{View, selected}
use websh.Sed.Ranges.Lines.{sweep}

-- The same answer for each line.
abbrev pub always : Bool → List View → List (Result Bool)
always b [] = []
always b (v ∷ vs) = ok b ∷ always b vs

-- Yes up to the first line that matches, that line included, and no behind it.
abbrev pub up_to_match : Host → Bytes → List View → List (Result Bool)
up_to_match h re [] = []
up_to_match h re (v ∷ vs) =
    let later = up_to_match h re vs in
    ok true ∷ (if h.matches re v.ps then always false vs else later)

record IsZeroRange (c : Command) (re : Bytes) (active : Bool) : Type 0 where
  first : c.a1.kind ≡ addr_zero
  second : c.a2.kind ≡ addr_regex
  given : c.a2.empty ≡ false
  expression : c.a2.re ≡ re
  state : c.active ≡ active

module _ (h : Host) (re : Bytes) where
  selected-inside :
      (v : View) (rx : Option Bytes) (c : Command)
      → IsZeroRange c re true
      → let s = selected h v rx c in
        (s.verdict ≡ ok true) × IsZeroRange s.cmd re (not (h.matches re v.ps))
  unfolding selected
  selected-inside v rx c z = (ground arith, ground arith)

  selected-outside :
      (v : View) (rx : Option Bytes) (c : Command)
      → IsZeroRange c re false
      → let s = selected h v rx c in (s.verdict ≡ ok false) × IsZeroRange s.cmd re false
  unfolding selected
  selected-outside v rx c z = (ground arith, ground arith)

  sweep-outside :
      (vs : List View) (rx : Option Bytes) (c : Command)
      → IsZeroRange c re false
      → sweep h rx c vs ≡ always false vs
  unfolding sweep
  sweep-outside [] rx c z = refl
  sweep-outside (v ∷ vs) rx c z =
      let (a, z') = selected-outside v rx c z in
      let s = selected h v rx c in ap₂ ◌∷◌ a (sweep-outside vs s.last_rx s.cmd z')

  sweep-inside :
      (vs : List View) (rx : Option Bytes) (c : Command)
      → IsZeroRange c re true
      → sweep h rx c vs ≡ up_to_match h re vs
  unfolding sweep
  sweep-inside [] rx c z = refl
  sweep-inside (v ∷ vs) rx c z =
      let (a, z') = selected-inside v rx c z in
      let s = selected h v rx c in
      elim (Bool-cases (h.matches re v.ps)) [
        | inl e ↦ rw e (ap₂ ◌∷◌ a (sweep-outside vs s.last_rx s.cmd (rw e at z')))
        | inr e ↦ rw e (ap₂ ◌∷◌ a (sweep-inside vs s.last_rx s.cmd (rw e at z')))
      ]

  -- A command `0,/re/`, active from the start as `Compile` makes it and reached once on every line,
  -- is selected on the lines up to the first one that `re` matches, which may be the first line of
  -- all, and on no line behind it.
  pub sweep_zero :
      (vs : List View) (rx : Option Bytes) (c : Command)
      → c.a1.kind ≡ addr_zero
      → c.a2.kind ≡ addr_regex
      → c.a2.empty ≡ false
      → c.a2.re ≡ re
      → c.active ≡ true
      → sweep h rx c vs ≡ up_to_match h re vs
  sweep_zero vs rx c f s g e a =
      sweep-inside vs rx c (record { first = f; second = s; given = g; expression = e; state = a })
