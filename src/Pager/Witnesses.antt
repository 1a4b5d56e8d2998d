-- ===== src/Pager/Witnesses.antt =====
-- The theorem on the pager at a concrete input, and some runs.
use websh.Base.{
  ℕ, ◌+◌, ◌≤◌, ◌≡◌, ◌⊎◌, refl, Option, none, some, [], ◌∷◌, ◌++◌, Bytes, codes, length,
}
use websh.Pager.{Text, run_less}
use websh.Pager.Bounds.{run_less-le}

-- Five lines on a terminal that shows two.
abbrev five_lines : Text
five_lines = record {
  name = codes "notes";
  lines = codes "a" ∷ codes "b" ∷ codes "c" ∷ codes "d" ∷ codes "e" ∷ [];
  cols = 10;
  page = 2;
}

-- Space twice, the key of the next page, and the arrow up.
abbrev page_keys : Bytes
page_keys = codes "  " ++ (0x1b ∷ codes "[6~" ++ 0x1b ∷ codes "[A")

run_less-le_example :
    (q : ℕ × Bytes) × (run_less five_lines page_keys ≡ some q)
    × ((q.0 ≡ 0) ⊎ (q.0 + 2 ≤ length five_lines.lines))
run_less-le_example = run_less-le five_lines page_keys

top_of : Option (ℕ × Bytes) → Option ℕ
top_of none = none
top_of (some q) = some q.0

ends_at : top_of (run_less five_lines page_keys) ≡ some 2
unfolding run_less top_of
ends_at = refl
