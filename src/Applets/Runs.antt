-- ===== src/Applets/Runs.antt =====
-- The runs that `uniq` prints are those of the lines.
use websh.Base.{
  ℕ, zero, suc, ◌≡◌, refl, sym, subst, ap, ◌∙◌, Bool, true, false, List, [], ◌∷◌, Bytes, arith,
  equal, equal_iff,
}
use websh.Applets.Lines.{runs_from}

-- a line several times, in front of others
unfoldable pub repeated : ℕ → Bytes → List Bytes → List Bytes
repeated zero l ls = ls
repeated (suc n) l ls = l ∷ repeated n l ls

-- the lines that runs stand for
unfoldable pub expanded : List (ℕ × Bytes) → List Bytes
unfolding repeated
expanded [] = []
expanded ((n, l) ∷ rs) = repeated n l (expanded rs)

-- Runs of one line or more, of which no two neighbours are equal.
pub data AreRuns : List (ℕ × Bytes) → Type 0 where
  no_runs : AreRuns []
  last_run : (n : ℕ) (l : Bytes) → AreRuns ((suc n, l) ∷ [])
  next_run :
      (n k : ℕ) (l m : Bytes) (rs : List (ℕ × Bytes))
      → equal m l ≡ false
      → AreRuns ((k, m) ∷ rs)
      → AreRuns ((suc n, l) ∷ (k, m) ∷ rs)

-- Runs that stand for lines, the first of them of a line `l`.
data RunsOf (l : Bytes) (ls : List Bytes) : List (ℕ × Bytes) → Type 0 where
  runs_of :
      (k : ℕ) (rs : List (ℕ × Bytes))
      → AreRuns ((k, l) ∷ rs)
      → repeated k l (expanded rs) ≡ ls
      → RunsOf l ls ((k, l) ∷ rs)

repeated-cons : (n : ℕ) (l : Bytes) (ls : List Bytes) → repeated n l (l ∷ ls) ≡ l ∷ repeated n l ls
unfolding repeated
repeated-cons zero l ls = refl
repeated-cons (suc n) l ls = ap (◌∷◌ l) (repeated-cons n l ls)

RunsOf-next :
    (n : ℕ) (l m : Bytes) {ls : List Bytes} {rs : List (ℕ × Bytes)}
    → equal m l ≡ false
    → RunsOf m ls rs
    → RunsOf l (repeated (suc n) l ls) ((suc n, l) ∷ rs)
unfolding expanded
RunsOf-next n l m e (runs_of k rs r h) =
    runs_of (suc n) ((k, m) ∷ rs) (next_run n k l m rs e r) (ap (repeated (suc n) l) h)

runs_from-nil : (prev : Bytes) (n : ℕ) → runs_from prev (suc n) [] ≡ (suc n, prev) ∷ []
unfolding runs_from
runs_from-nil prev n = ground arith

runs_from-same :
    (prev l : Bytes) (n : ℕ) (ls : List Bytes)
    → equal l prev ≡ true
    → runs_from prev (suc n) (l ∷ ls) ≡ runs_from prev (suc (suc n)) ls
unfolding runs_from
runs_from-same prev l n ls e = ground (arith, e)

runs_from-other :
    (prev l : Bytes) (n : ℕ) (ls : List Bytes)
    → equal l prev ≡ false
    → runs_from prev (suc n) (l ∷ ls) ≡ (suc n, prev) ∷ runs_from l 1 ls
unfolding runs_from
runs_from-other prev l n ls e = ground (arith, e)

runs_from-first : (prev l : Bytes) (ls : List Bytes) → runs_from prev 0 (l ∷ ls) ≡ runs_from l 1 ls
unfolding runs_from
runs_from-first prev l ls = ground arith

runs_from-RunsOf :
    (prev : Bytes) (n : ℕ) (ls : List Bytes)
    → RunsOf prev (repeated (suc n) prev ls) (runs_from prev (suc n) ls)
unfolding expanded repeated
runs_from-RunsOf prev n [] =
    subst (RunsOf prev (repeated (suc n) prev [])) (sym (runs_from-nil prev n))
      (runs_of (suc n) [] (last_run n prev) refl)
runs_from-RunsOf prev n (l ∷ ls) =
    go (equal l prev) refl (runs_from-RunsOf prev (suc n) ls) (runs_from-RunsOf l 0 ls)
  where
    go :
        (b : Bool)
        → equal l prev ≡ b
        → RunsOf prev (repeated (suc (suc n)) prev ls) (runs_from prev (suc (suc n)) ls)
        → RunsOf l (repeated 1 l ls) (runs_from l 1 ls)
        → RunsOf prev (repeated (suc n) prev (l ∷ ls)) (runs_from prev (suc n) (l ∷ ls))
    go true e same other =
        let line : l ≡ prev = (equal_iff l prev).0 e in
        let moved : repeated (suc (suc n)) prev ls ≡ repeated (suc n) prev (l ∷ ls) =
          sym (repeated-cons (suc n) prev ls)
          ∙ ap (λ m. repeated (suc n) prev (m ∷ ls)) (sym line) in
        subst (RunsOf prev (repeated (suc n) prev (l ∷ ls))) (sym (runs_from-same prev l n ls e))
          (subst (λ ms. RunsOf prev ms (runs_from prev (suc (suc n)) ls)) moved same)
    go false e same other =
        subst (RunsOf prev (repeated (suc n) prev (l ∷ ls))) (sym (runs_from-other prev l n ls e))
          (RunsOf-next n prev l e other)

RunsOf-expanded :
    {l : Bytes} {ls : List Bytes} {rs : List (ℕ × Bytes)}
    → RunsOf l ls rs
    → AreRuns rs × (expanded rs ≡ ls)
unfolding expanded
RunsOf-expanded (runs_of k rs r h) = (r, h)

-- The runs that `uniq` finds in lines stand for these lines, each run is of one line or more, and
-- no two neighbours are equal.
pub uniq-AreRuns :
    (ls : List Bytes) → AreRuns (runs_from [] 0 ls) × (expanded (runs_from [] 0 ls) ≡ ls)
unfolding expanded repeated runs_from
uniq-AreRuns [] = (no_runs, refl)
uniq-AreRuns (l ∷ ls) =
    subst (λ rs. AreRuns rs × (expanded rs ≡ l ∷ ls)) (sym (runs_from-first [] l ls))
      (RunsOf-expanded (runs_from-RunsOf l 0 ls))
