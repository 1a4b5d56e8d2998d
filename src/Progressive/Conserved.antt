-- ===== src/Progressive/Conserved.antt =====
-- What a program reads through the filter: the terminal's input less whole events.
use websh.Base.{
  ◌&&◌, Splits-suc, ℕ, zero, suc, ◌+◌, ◌-◌, ◌≡◌, refl, sym, ap, ap₂, subst, ◌∙◌, Bool, true, false,
  Option, none, some, List, [], ◌∷◌, ◌++◌, ◌==◌, if◌then◌else◌, Bytes, index, Splits, index-Splits,
  length, take, drop, ltb, arith, append_assoc, append-nil, take-drop,
}
use websh.Progressive.Filter.{
  event_head, terminator, one_more, starts_with_backslash, Library, Event, deliver, hold, Taken,
  take_loop, take_input,
}

-- BEL and ST
pub data IsEnd : Bytes → Type 0 where
  bel : IsEnd (7 ∷ [])
  st : IsEnd (0x1b ∷ b'\\' ∷ [])

-- A text begins with an end.
abbrev StartsWithEnd : Bytes → Type 0
StartsWithEnd s = (end : Bytes) × (t : Bytes) × IsEnd end × (end ++ t ≡ s)

-- At no byte of the body there begins an end, in the body or reaching into what is behind it.
pub data NoEnd : Bytes → Bytes → Type 0 where
  over : (behind : Bytes) → NoEnd [] behind
  skip :
      (c : ℕ) (body behind : Bytes)
      → ¬ StartsWithEnd (c ∷ (body ++ behind))
      → NoEnd body behind
      → NoEnd (c ∷ body) behind

-- The input is what goes out, with whole events in it, and what is held behind it. The end of an
-- event is the first behind its head.
pub data Removes : Bytes → Bytes → Bytes → Type 0 where
  rest : (out held : Bytes) → Removes (out ++ held) out held
  event :
      (before body end more out held : Bytes)
      → IsEnd end
      → NoEnd body end
      → Removes more out held
      → Removes (before ++ (event_head ++ (body ++ (end ++ more)))) (before ++ out) held

-- An end of `k` bytes stands at `n`, and none before.
abbrev Ends : ℕ → ℕ → Bytes → Type 0
Ends n k s = (end : Bytes) × IsEnd end × (length end ≡ k) × Splits n end s × NoEnd (take n s) end

Ends-st : (c : ℕ) (s : Bytes) → (c == 0x1b && starts_with_backslash s) ≡ true → Ends 0 2 (c ∷ s)
Ends-st c [] h = ground (arith, h)
Ends-st c (d ∷ s) h =
    let e : 0x1b ≡ c = ground (arith, h) in
    let f : b'\\' ≡ d = ground (arith, h) in
    (0x1b ∷ b'\\' ∷ [], st, refl, ap₂ (λ x y. x ∷ y ∷ s) e f, over _)

-- what `terminator` asks of a byte and what is behind it
no_end :
    (c : ℕ) (s : Bytes)
    → (c == 7) ≡ false
    → (c == 0x1b && starts_with_backslash s) ≡ false
    → ¬ StartsWithEnd (c ∷ s)
no_end c s e f (_, t, bel, q) = let head : 7 ≡ c = cc in ground (arith, e, head)
no_end c s e f (_, t, st, q) =
    let head : 0x1b ≡ c = cc in
    let tail : b'\\' ∷ t ≡ s = cc in
    let begins : starts_with_backslash s ≡ true =
      subst (λ x. starts_with_backslash x ≡ true) tail refl in
    ground (arith, f, head, begins)

StartsWithEnd-append : (s t : Bytes) → StartsWithEnd s → StartsWithEnd (s ++ t)
StartsWithEnd-append s t h =
    (h.0, h.1 ++ t, h.2, sym (append_assoc h.0 h.1 t) ∙ ap (λ x. x ++ t) h.3)

Ends-suc :
    (c n k : ℕ) (s : Bytes)
    → (c == 7) ≡ false
    → (c == 0x1b && starts_with_backslash s) ≡ false
    → Ends n k s
    → Ends (suc n) k (c ∷ s)
Ends-suc c n k s e f r =
    let whole : ((c ∷ take n s) ++ r.0) ++ drop (n + length r.0) s ≡ c ∷ s =
      append_assoc (c ∷ take n s) r.0 (drop (n + length r.0) s) ∙ ap (λ x. c ∷ x) r.3 in
    let free : ¬ StartsWithEnd (c ∷ (take n s ++ r.0)) = λ z. no_end c s e f (
      subst StartsWithEnd whole
        (StartsWithEnd-append (c ∷ (take n s ++ r.0)) (drop (n + length r.0) s) z)) in
    (r.0, r.1, r.2, Splits-suc n c r.0 s r.3, skip c (take n s) r.0 free r.4)

terminator-some : (s : Bytes) (n k : ℕ) → terminator s ≡ some (n, k) → Ends n k s
unfolding terminator
terminator-some [] n k h = cc
terminator-some (c ∷ s) n k h =
    go (c == 7) (c == 0x1b && starts_with_backslash s) (terminator s)
      (λ m j e. terminator-some s m j e) refl refl refl h
  where
    go :
        (a b : Bool) (o : Option (ℕ × ℕ))
        → ((m j : ℕ) → terminator s ≡ some (m, j) → Ends m j s)
        → (c == 7) ≡ a
        → (c == 0x1b && starts_with_backslash s) ≡ b
        → terminator s ≡ o
        → (if a
            then some (0, 1)
            else if b
            then some (0, 2)
            else elim o [ none ↦ none | some r ↦ some (one_more r) ])
          ≡ some (n, k)
        → Ends n k (c ∷ s)
    go true b o ih e f g q =
        let z : 0 ≡ n = cc in
        let w : 1 ≡ k = cc in
        let t : 7 ≡ c = ground (arith, e) in
        subst (λ m. Ends m k (c ∷ s)) z
          (subst (λ m. Ends 0 m (c ∷ s)) w (7 ∷ [], bel, refl, ap (λ x. x ∷ s) t, over _))
    go false true o ih e f g q =
        let z : 0 ≡ n = cc in
        let w : 2 ≡ k = cc in
        subst (λ m. Ends m k (c ∷ s)) z (subst (λ m. Ends 0 m (c ∷ s)) w (Ends-st c s f))
    go false false none ih e f g q = cc
    go false false (some (m, j)) ih e f g q =
        let z : suc m ≡ n = cc in
        let w : j ≡ k = cc in
        subst (λ x. Ends x k (c ∷ s)) z
          (subst (λ x. Ends (suc m) x (c ∷ s)) w (Ends-suc c m j s e f (ih m j g)))

hold-append : (k : ℕ) (b : Bytes) → (hold k b).0 ++ (hold k b).1 ≡ b
unfolding hold
hold-append zero b = append-nil b
hold-append (suc k) b =
    ground (arith, hold, hold-append k b, take-drop (length b - suc k) b, append-nil b)

Removes-hold : (k : ℕ) (b : Bytes) → Removes b (hold k b).0 (hold k b).1
Removes-hold k b =
    subst (λ x. Removes x (hold k b).0 (hold k b).1) (hold-append k b)
      (rest (hold k b).0 (hold k b).1)

-- what `take` does where an event's head stands at `i`
abbrev behind_head : ℕ → Library → List Event → Bytes → ℕ → Option (ℕ × ℕ) → Taken
behind_head fuel l ch b i o =
    let tail = drop (i + length event_head) b in
    elim o as (λ _. Taken) [
      | none ↦ record { out = take i b; held = drop i b; channel = ch }
      | some (end, n) ↦
          let r = take_loop fuel l (deliver l (take end tail) ch) (drop (end + n) tail) in
          record r { out = take i b ++ r.out }
    ]

-- `take` on the fuel that is left
abbrev IsTaking : ℕ → Library → Type 0
IsTaking fuel l =
    (ch : List Event) (b : Bytes)
    → Removes b (take_loop fuel l ch b).out (take_loop fuel l ch b).held

behind_head-Removes :
    (fuel : ℕ) (l : Library) (ch : List Event) (b : Bytes) (i : ℕ) (o : Option (ℕ × ℕ))
    → IsTaking fuel l
    → index b event_head ≡ some i
    → terminator (drop (i + length event_head) b) ≡ o
    → Removes b (behind_head fuel l ch b i o).out (behind_head fuel l ch b i o).held
behind_head-Removes fuel l ch b i none ih e f =
    subst (λ x. Removes x (take i b) (drop i b)) (take-drop i b) (rest (take i b) (drop i b))
behind_head-Removes fuel l ch b i (some (n, k)) ih e f =
    let tail = drop (i + length event_head) b in
    let t = terminator-some tail n k f in
    let r = take_loop fuel l (deliver l (take n tail) ch) (drop (n + k) tail) in
    let whole : take n tail ++ (t.0 ++ drop (n + k) tail) ≡ tail =
      ap (λ m. take n tail ++ (t.0 ++ drop (n + m) tail)) (sym t.2) ∙ t.3 in
    subst (λ x. Removes x (take i b ++ r.out) r.held)
      (ap (λ x. take i b ++ (event_head ++ x)) whole ∙ index-Splits b event_head i e)
      (event (take i b) (take n tail) t.0 (drop (n + k) tail) r.out r.held t.1 t.4
        (ih (deliver l (take n tail) ch) (drop (n + k) tail)))

take_loop-Removes : (fuel : ℕ) (l : Library) → IsTaking fuel l
unfolding take_loop
take_loop-Removes zero l ch b = subst (λ x. Removes x b []) (append-nil b) (rest b [])
take_loop-Removes (suc fuel) l ch b =
    go (index b event_head) (λ ch' b'. take_loop-Removes fuel l ch' b') refl
  where
    go :
        (o : Option ℕ)
        → IsTaking fuel l
        → index b event_head ≡ o
        → (let t = elim o as (λ _. Taken) [
          | none ↦
              let k =
                if ltb (length b) (length event_head - 1)
                then length b
                else length event_head - 1 in
              let r = hold k b in record { out = r.0; held = r.1; channel = ch }
          | some i ↦ behind_head fuel l ch b i (terminator (drop (i + length event_head) b))
        ] in
            Removes b t.out t.held)
    go none ih e =
        Removes-hold
          (if ltb (length b) (length event_head - 1) then length b else length event_head - 1) b
    go (some i) ih e = behind_head-Removes fuel l ch b i _ ih e refl

Removes-front : (a b out held : Bytes) → Removes b out held → Removes (a ++ b) (a ++ out) held
Removes-front a b out held (rest _ _) =
    subst (λ x. Removes x (a ++ out) held) (append_assoc a out held) (rest (a ++ out) held)
Removes-front a b out held (event before body end more o _ z y q) =
    let s = event_head ++ (body ++ (end ++ more)) in
    subst (λ x. Removes x (a ++ (before ++ o)) held) (append_assoc a before s)
      (subst (λ x. Removes ((a ++ before) ++ s) x held) (append_assoc a before o)
        (event (a ++ before) body end more o held z y q))

-- One read behind another: what was held is taken again with what comes next.
pub Removes-append :
    (a b out held out' held' : Bytes)
    → Removes a out held
    → Removes (held ++ b) out' held'
    → Removes (a ++ b) (out ++ out') held'
Removes-append a b out held out' held' (rest _ _) r =
    subst (λ x. Removes x (out ++ out') held') (sym (append_assoc out held b))
      (Removes-front out (held ++ b) out' held' r)
Removes-append a b out held out' held' (event before body end more o _ z y q) r =
    let whole : (before ++ (event_head ++ (body ++ (end ++ more)))) ++ b
        ≡ before ++ (event_head ++ (body ++ (end ++ (more ++ b)))) =
      simp append_assoc in
    subst (λ x. Removes x ((before ++ o) ++ out') held') (sym whole)
      (subst (λ x. Removes (before ++ (event_head ++ (body ++ (end ++ (more ++ b))))) x held')
        (sym (append_assoc before o out'))
        (event before body end (more ++ b) (o ++ out') held' z y
          (Removes-append more b o held out' held' q r)))

pub take_input-Removes :
    (l : Library) (ch : List Event) (b : Bytes)
    → Removes b (take_input l ch b).out (take_input l ch b).held
unfolding take_input
take_input-Removes l ch b = take_loop-Removes (length b + 1) l ch b
