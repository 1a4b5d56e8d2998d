-- ===== src/Sed/Parse/Targets.antt =====
-- Where blocks and branches lead in a script that `parse` has accepted.

use websh.Base.{
  ℕ, zero, suc, ◌<◌, ◌≡◌, ◌≢◌, ◌⊎◌, refl, sym, ap, subst, ◌∙◌, List, [], ◌∷◌, ◌++◌, arith, ◌==◌,
  Bytes, Bool-cases, inl, inr, Option, some, length, get_elem?, get_elem?-lt, ==→eq,
}
use websh.Base.Result.{Result, ok, err}
use websh.Sed.Types.{Command, is_none}
use websh.Sed.Parse.Cursor.{Parser}
use websh.Sed.Parse.{
  Blocks, set_block, close_block, add_command, Round, over, further, added, parsed, round_at,
  parse_round, parse_loop, parse_command, skip_separators,
}

-- A block's `{` knows a `}` behind it.
pub record Closes (cmds : List Command) (i : ℕ) (c : Command) : Type 0 where
  pub last : Command
  pub behind : i < c.block
  pub found : get_elem? cmds c.block ≡ some last
  pub is_brace : last.name ≡ b'}'

abbrev pub IsOpen : ℕ → List ℕ → Type 0
IsOpen i [] = ⊥
IsOpen i (o ∷ opened) = (i ≡ o) ⊎ IsOpen i opened

module _ {ℓ} {A : Type ℓ} where
  pub get_elem?-append :
      (xs ys : List A) (i : ℕ) {a : A} → get_elem? xs i ≡ some a → get_elem? (xs ++ ys) i ≡ some a
  get_elem?-append [] ys i h = absurd (ground arith)
  get_elem?-append (x ∷ xs) ys zero h = h
  get_elem?-append (x ∷ xs) ys (suc i) h = get_elem?-append xs ys i h

  pub get_elem?-length : (xs ys : List A) (a : A) → get_elem? (xs ++ a ∷ ys) (length xs) ≡ some a
  get_elem?-length [] ys a = refl
  get_elem?-length (x ∷ xs) ys a = get_elem?-length xs ys a

  -- An element of a list with one more at its end.
  get_elem?-concat :
      (xs : List A) (x : A) (i : ℕ) {a : A}
      → get_elem? (xs ++ x ∷ []) i ≡ some a
      → (get_elem? xs i ≡ some a) ⊎ ((i ≡ length xs) × (x ≡ a))
  get_elem?-concat [] x zero h = inr (refl, ground arith)
  get_elem?-concat [] x (suc i) h = absurd (ground arith)
  get_elem?-concat (y ∷ xs) x zero h = inl h
  get_elem?-concat (y ∷ xs) x (suc i) h = elim (get_elem?-concat xs x i h) [
    | inl e ↦ inl e
    | inr (e, f) ↦ inr (ap suc e, f)
  ]

length-set_block : (cs : List Command) (o b : ℕ) → length (set_block cs o b) ≡ length cs
unfolding set_block
length-set_block [] o b = refl
length-set_block (c ∷ cs) zero b = refl
length-set_block (c ∷ cs) (suc o) b = ap suc (length-set_block cs o b)

-- An element of a list in which one block is set.
get_elem?-set_block :
    (cs : List Command) (o b i : ℕ) {c : Command}
    → get_elem? (set_block cs o b) i ≡ some c
    → ((i ≡ o) × (c.block ≡ b)) ⊎ ((i ≢ o) × (get_elem? cs i ≡ some c))
unfolding set_block
get_elem?-set_block [] o b i h = absurd (ground arith)
get_elem?-set_block (d ∷ cs) zero b zero h = inl (refl, ground arith)
get_elem?-set_block (d ∷ cs) zero b (suc i) h = inr (omega arith, h)
get_elem?-set_block (d ∷ cs) (suc o) b zero h = inr (omega arith, h)
get_elem?-set_block (d ∷ cs) (suc o) b (suc i) h = elim (get_elem?-set_block cs o b i h) [
  | inl (e, f) ↦ inl (ap suc e, f)
  | inr (e, f) ↦ inr (omega arith, f)
]

-- Its name stays.
set_block-name :
    (cs : List Command) (o b i : ℕ) (c : Command)
    → get_elem? cs i ≡ some c
    → (d : Command) × (get_elem? (set_block cs o b) i ≡ some d) × (d.name ≡ c.name)
unfolding set_block
set_block-name [] o b i c h = absurd (ground arith)
set_block-name (x ∷ cs) zero b zero c h = (record c { block = b }, ground arith, refl)
set_block-name (x ∷ cs) zero b (suc i) c h = (c, h, refl)
set_block-name (x ∷ cs) (suc o) b zero c h = (c, h, refl)
set_block-name (x ∷ cs) (suc o) b (suc i) c h = set_block-name cs o b i c h

Closes-append : (cs ds : List Command) (i : ℕ) (c : Command) → Closes cs i c → Closes (cs ++ ds) i c
Closes-append cs ds i c k = record {
  last = k.last;
  behind = k.behind;
  found = get_elem?-append cs ds c.block k.found;
  is_brace = k.is_brace;
}

Closes-set_block :
    (cs : List Command) (o b i : ℕ) (c : Command) → Closes cs i c → Closes (set_block cs o b) i c
Closes-set_block cs o b i c k =
    let (d, f, n) = set_block-name cs o b c.block k.last k.found in
    record { last = d; behind = k.behind; found = f; is_brace = n ∙ k.is_brace }

-- Every `{` read so far is open or knows its `}`.
abbrev pub Nested : Blocks → Type 0
Nested b =
    (i : ℕ) (c : Command)
    → get_elem? b.cmds i ≡ some c
    → c.name ≡ b'{'
    → IsOpen i b.opened ⊎ Closes b.cmds i c

Nested-open :
    (b : Blocks) (cmd : Command)
    → Nested b
    → Nested (record { cmds = b.cmds ++ cmd ∷ []; opened = length b.cmds ∷ b.opened })
Nested-open b cmd inv i c h n = elim (get_elem?-concat b.cmds cmd i h) [
  | inr (e, f) ↦ inl (inl e)
  | inl e ↦ elim (inv i c e n) [
    | inl o ↦ inl (inr o)
    | inr k ↦ inr (Closes-append b.cmds (cmd ∷ []) i c k)
  ]
]

Nested-other :
    (b : Blocks) (cmd : Command)
    → cmd.name ≢ b'{'
    → Nested b
    → Nested (record b { cmds = b.cmds ++ cmd ∷ [] })
Nested-other b cmd ne inv i c h n = elim (get_elem?-concat b.cmds cmd i h) [
  | inr (e, f) ↦ absurd (ne (ap (λ (x : Command). x.name) f ∙ n))
  | inl e ↦ elim (inv i c e n) [
    | inl o ↦ inl o
    | inr k ↦ inr (Closes-append b.cmds (cmd ∷ []) i c k)
  ]
]

Nested-close :
    (cmds : List Command) (o : ℕ) (opened : List ℕ) (cmd : Command)
    → cmd.name ≡ b'}'
    → Nested (record { cmds = cmds; opened = o ∷ opened })
    → Nested (record { cmds = set_block cmds o (length cmds) ++ cmd ∷ []; opened = opened })
Nested-close cmds o opened cmd brace inv i c h n =
    let set = set_block cmds o (length cmds) in
    let all = length-set_block cmds o (length cmds) in
    elim (get_elem?-concat set cmd i h) [
      | inr (e, f) ↦ absurd (ground arith)
      | inl e ↦ elim (get_elem?-set_block cmds o (length cmds) i e) [
        | inl (f, g) ↦ inr (record {
          last = cmd;
          behind = omega (arith, get_elem?-lt set i e);
          found = rw (g ∙ sym all) (get_elem?-length set [] cmd);
          is_brace = brace;
        })
        | inr (ne, f) ↦ elim (inv i c f n) [
          | inl (inl k) ↦ absurd (ne k)
          | inl (inr k) ↦ inl k
          | inr k ↦
              inr (Closes-append set (cmd ∷ []) i c (Closes-set_block cmds o (length cmds) i c k))
        ]
      ]
    ]

abbrev NestedResult : Result Blocks → Type 0
NestedResult (ok b) = Nested b
NestedResult (err e) = Unit

abbrev NestedRound : Round → Type 0
NestedRound (over r) = NestedResult r
NestedRound (further b s) = Nested b

close_block-Nested :
    (p : Parser) (b : Blocks) (cmd : Command) (rest : Bytes) (opened : List ℕ)
    → cmd.name ≡ b'}'
    → Nested (record { cmds = b.cmds; opened = opened })
    → NestedResult (close_block p b cmd rest opened)
unfolding close_block
close_block-Nested p b cmd rest [] e inv = tt
close_block-Nested p b cmd rest (o ∷ opened) e inv = Nested-close b.cmds o opened cmd e inv

add_command-Nested :
    (p : Parser) (b : Blocks) (cmd : Command) (rest : Bytes)
    → Nested b
    → NestedResult (add_command p b cmd rest)
unfolding add_command
add_command-Nested p b cmd rest inv = elim (Bool-cases (cmd.name == b'{')) [
  | inl e ↦ rw e (Nested-open b cmd inv)
  | inr e ↦ rw e (elim (Bool-cases (cmd.name == b'}')) [
    | inl f ↦ rw f (elim (Bool-cases (is_none cmd.a1.kind)) [
      | inl k ↦ rw k (close_block-Nested p b cmd rest b.opened (==→eq cmd.name b'}' f) inv)
      | inr k ↦ rw k tt
    ])
    | inr f ↦ rw f (Nested-other b cmd (λ k. ground arith) inv)
  ])
]

parsed-Nested :
    (p : Parser) (b : Blocks) (m : Result (Command × Bytes)) → Nested b → NestedRound (parsed p b m)
unfolding parsed added
parsed-Nested p b (err e) inv = tt
parsed-Nested p b (ok r) inv =
    at_blocks (add_command p b r.0 r.1) (add_command-Nested p b r.0 r.1 inv)
  where
    at_blocks : (m : Result Blocks) → NestedResult m → NestedRound (added r.1 m)
    at_blocks (ok b') k = k
    at_blocks (err e) k = tt

round_at-Nested : (p : Parser) (b : Blocks) (s : Bytes) → Nested b → NestedRound (round_at p b s)
unfolding round_at
round_at-Nested p b [] inv = inv
round_at-Nested p b (c ∷ s) inv = elim (Bool-cases (c == b'#')) [
  | inl e ↦ rw e inv
  | inr e ↦ rw e (parsed-Nested p b (parse_command p (c ∷ s)) inv)
]

pub parse_loop-Nested :
    (fuel : ℕ) (p : Parser) (b : Blocks) (s : Bytes) {b' : Blocks}
    → Nested b
    → parse_loop fuel p b s ≡ some (ok b')
    → Nested b'
unfolding parse_loop
parse_loop-Nested zero p b s inv e = absurd (ground arith)
parse_loop-Nested (suc fuel) p b s {b'} inv e =
    at_round (parse_round p b s) start e (λ c t. parse_loop-Nested fuel p c t)
  where
    start : NestedRound (parse_round p b s)
    start = unfold parse_round in round_at-Nested p b (skip_separators s) inv

    at_round :
        (r : Round)
        → NestedRound r
        → (elim r as (λ _. Option (Result Blocks)) [
          | over m ↦ some m
          | further c t ↦ parse_loop fuel p c t
        ])
          ≡ some (ok b')
        → ((c : Blocks) (t : Bytes) → Nested c → parse_loop fuel p c t ≡ some (ok b') → Nested b')
        → Nested b'
    at_round (over (ok c)) k h ih = let e' : c ≡ b' = cc in subst Nested e' k
    at_round (over (err x)) k h ih = absurd (ground arith)
    at_round (further c t) k h ih = ih c t k h
