-- ===== src/Sed/Ranges/Lines.antt =====
-- The ranges by line numbers, `m,n` and `m,+n`, over the lines of an input.
use websh.Base.{
  ℕ, suc, ◌+◌, ◌≤◌, ◌<◌, ◌≡◌, refl, ap₂, Bool, true, false, ◌&&◌, ◌||◌, List, [], ◌∷◌, arith, ◌==◌,
  ltb, leb, Bytes, Option,
}
use websh.Base.Result.{Result, ok}
use websh.Base.Int.{pos, int_add-pos, int_limit}
use websh.Sed.Types.{Command, addr_line, addr_plus}
use websh.Sed.Host.{Host}
use websh.Sed.Ranges.{View, selected}

-- The answers of `selected` for a command that is reached once on every line, its range state
-- and the regex used last passed on.
unfoldable pub sweep : Host → Option Bytes → Command → List View → List (Result Bool)
sweep h rx c [] = []
sweep h rx c (v ∷ vs) = let s = selected h v rx c in s.verdict ∷ sweep h s.last_rx s.cmd vs

-- Lines with successive numbers from `k` on.
abbrev pub Numbered : ℕ → List View → Type 0
Numbered k [] = Unit
Numbered k (v ∷ vs) = (v.line ≡ k) × Numbered (suc k) vs

-- Line `k` is line `m`, or one from `m` to `n`.
abbrev pub in_lines : ℕ → ℕ → ℕ → Bool
in_lines m n k = k == m || (leb m k && leb k n)

-- For each of the lines the answer whether it is in the range.
abbrev pub expected : ℕ → ℕ → List View → List (Result Bool)
expected m n [] = []
expected m n (v ∷ vs) = ok (in_lines m n v.line) ∷ expected m n vs

module _ (h : Host) (m n : ℕ) where
  -- The range state in front of line `k`.
  abbrev before : ℕ → Bool
  before k = ltb m k && leb k n

  record IsLineRange (c : Command) (k : ℕ) : Type 0 where
    first : c.a1.kind ≡ addr_line
    from : c.a1.line ≡ pos m
    second : c.a2.kind ≡ addr_line
    to : c.a2.line ≡ pos n
    state : c.active ≡ before k

  selected-IsLineRange :
      (v : View) (rx : Option Bytes) (c : Command) (k : ℕ)
      → v.line ≡ k
      → IsLineRange c k
      → let s = selected h v rx c in
        (s.verdict ≡ ok (in_lines m n v.line)) × IsLineRange s.cmd (suc k)
  unfolding selected
  selected-IsLineRange v rx c k e r = (ground arith, ground arith)

  sweep-IsLineRange :
      (vs : List View) (rx : Option Bytes) (c : Command) (k : ℕ)
      → Numbered k vs
      → IsLineRange c k
      → sweep h rx c vs ≡ expected m n vs
  unfolding sweep
  sweep-IsLineRange [] rx c k e r = refl
  sweep-IsLineRange (v ∷ vs) rx c k e r =
      let (a, r') = selected-IsLineRange v rx c k e.0 r in
      let later =
        sweep-IsLineRange vs (selected h v rx c).last_rx (selected h v rx c).cmd (suc k) e.1 r' in
      ap₂ ◌∷◌ a later

  -- A command `m,n` that is not in its range and is reached on every line from line `k` on, with
  -- `k` at most `m`, is selected on exactly the lines from `m` to `n`, and on line `m` also where
  -- `n` is below `m`.
  pub sweep_lines :
      (vs : List View) (rx : Option Bytes) (c : Command) (k : ℕ)
      → Numbered k vs
      → k ≤ m
      → c.a1.kind ≡ addr_line
      → c.a1.line ≡ pos m
      → c.a2.kind ≡ addr_line
      → c.a2.line ≡ pos n
      → c.active ≡ false
      → sweep h rx c vs ≡ expected m n vs
  sweep_lines vs rx c k e le f₁ f₂ s₁ s₂ a =
      sweep-IsLineRange vs rx c k e
        (record { first = f₁; from = f₂; second = s₁; to = s₂; state = ground arith })

module _ (h : Host) (m n : ℕ) (fits : m + n < int_limit) where
  record IsCountRange (c : Command) (k : ℕ) : Type 0 where
    first : c.a1.kind ≡ addr_line
    from : c.a1.line ≡ pos m
    second : c.a2.kind ≡ addr_plus
    count : c.a2.line ≡ pos n
    state : c.active ≡ (ltb m k && leb k (m + n))
    end_known : c.active ≡ true → c.end_line ≡ pos (m + n)

  selected-IsCountRange :
      (v : View) (rx : Option Bytes) (c : Command) (k : ℕ)
      → v.line ≡ k
      → IsCountRange c k
      → let s = selected h v rx c in
        (s.verdict ≡ ok (in_lines m (m + n) v.line)) × IsCountRange s.cmd (suc k)
  unfolding selected
  selected-IsCountRange v rx c k e r =
      let wraps = int_add-pos m n fits in (ground arith, ground arith)

  sweep-IsCountRange :
      (vs : List View) (rx : Option Bytes) (c : Command) (k : ℕ)
      → Numbered k vs
      → IsCountRange c k
      → sweep h rx c vs ≡ expected m (m + n) vs
  unfolding sweep
  sweep-IsCountRange [] rx c k e r = refl
  sweep-IsCountRange (v ∷ vs) rx c k e r =
      let (a, r') = selected-IsCountRange v rx c k e.0 r in
      let later =
        sweep-IsCountRange vs (selected h v rx c).last_rx (selected h v rx c).cmd (suc k) e.1 r' in
      ap₂ ◌∷◌ a later

  -- A command `m,+n` that is not in its range and is reached on every line from line `k` on, with
  -- `k` at most `m`, is selected on exactly the `n + 1` lines from `m` to `m + n`. The sum has to
  -- stay below 2^63.
  pub sweep_count :
      (vs : List View) (rx : Option Bytes) (c : Command) (k : ℕ)
      → Numbered k vs
      → k ≤ m
      → c.a1.kind ≡ addr_line
      → c.a1.line ≡ pos m
      → c.a2.kind ≡ addr_plus
      → c.a2.line ≡ pos n
      → c.active ≡ false
      → sweep h rx c vs ≡ expected m (m + n) vs
  sweep_count vs rx c k e le f₁ f₂ s₁ s₂ a = sweep-IsCountRange vs rx c k e (record {
    first = f₁;
    from = f₂;
    second = s₁;
    count = s₂;
    state = ground arith;
    end_known = λ t. ground arith;
  })
