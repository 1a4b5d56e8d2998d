-- ===== src/Sed/Parse/Jumps.antt =====
-- Where the blocks and branches of an accepted script lead.
use mathlib.Core.Option
use native.Mathlib.Nat.{zero-add}
use websh.Base.{
  ℕ, zero, suc, ◌≡◌, ◌⊎◌, refl, sym, ap, subst, ◌∙◌, Bool, true, false, List, [], ◌∷◌, arith, Bytes,
  Bool-cases, inl, inr, Option, some, none, length, get_elem?, one_of, codes, equal, equal_iff,
}
use websh.Base.Result.{Result, ok, err, ◌>>=◌, plain, >>=-ok}
use websh.Sed.Types.{Command}
use websh.Sed.Parse.Targets.{Closes, Nested, IsOpen, parse_loop-Nested}
use websh.Sed.Parse.Cursor.{Parser}
use websh.Sed.Parse.{
  Blocks, parse_loop, find_label, collect_labels, resolve_command, resolve_all, finish_parse, parse,
}
use websh.Sed.Parse.Labels.{IsLabel, Known, Known-nil, collect_labels-Known}

module _ (count : ℕ) (labels : List (Bytes × ℕ)) where
  -- A resolved script: its first command and the rest.
  resolve_all-cons :
      (c : Command) (cs : List Command) {ds : List Command}
      → resolve_all count labels (c ∷ cs) ≡ ok ds
      → (d : Command) × (es : List Command) × (resolve_command count labels c ≡ ok d)
        × (resolve_all count labels cs ≡ ok es)
        × (ds ≡ d ∷ es)
  unfolding resolve_all
  resolve_all-cons c cs h =
      let (d, e, k) = >>=-ok (resolve_command count labels c) _ h in
      let (es, f, m) = >>=-ok (resolve_all count labels cs) _ k in (d, es, e, f, cc)

  -- Every resolved command comes from the command in its place.
  resolve_all-get_elem? :
      (cs : List Command) (i : ℕ) {ds : List Command} {d : Command}
      → resolve_all count labels cs ≡ ok ds
      → get_elem? ds i ≡ some d
      → (c : Command) × (get_elem? cs i ≡ some c) × (resolve_command count labels c ≡ ok d)
  resolve_all-get_elem? [] i {ds} {d} e h =
      let none' : [] ≡ ds = unfold resolve_all in cc in absurd (none-ne-some (rw (sym none') at h))
    where
      none-ne-some : get_elem? {A = Command} [] i ≡ some d → ⊥
      none-ne-some k = cc
  resolve_all-get_elem? (c ∷ cs) i {ds} {d} e h =
      let (d', es, r, later, same) = resolve_all-cons c cs e in
      at_index i (rw same at h) r later (λ j. resolve_all-get_elem? cs j)
    where
      at_index :
          {d' : Command} {es : List Command} (i : ℕ)
          → get_elem? (d' ∷ es) i ≡ some d
          → resolve_command count labels c ≡ ok d'
          → resolve_all count labels cs ≡ ok es
          → ((j : ℕ)
              → resolve_all count labels cs ≡ ok es
              → get_elem? es j ≡ some d
              → (c' : Command) × (get_elem? cs j ≡ some c')
                × (resolve_command count labels c' ≡ ok d))
          → (c' : Command) × (get_elem? (c ∷ cs) i ≡ some c')
            × (resolve_command count labels c' ≡ ok d)
      at_index zero k r later ih = (c, refl, r ∙ ap ok cc)
      at_index (suc j) k r later ih = ih j later k

  -- And the other way round.
  resolve_all-kept :
      (cs : List Command) (i : ℕ) {ds : List Command} {c : Command}
      → resolve_all count labels cs ≡ ok ds
      → get_elem? cs i ≡ some c
      → (d : Command) × (get_elem? ds i ≡ some d) × (resolve_command count labels c ≡ ok d)
  resolve_all-kept [] i e h = absurd (ground arith)
  resolve_all-kept (b ∷ cs) zero {ds} {c} e h =
      let (d, es, r, later, same) = resolve_all-cons b cs e in
      let k : b ≡ c = cc in
      (d, ap (λ l. get_elem? l 0) same, ap (resolve_command count labels) (sym k) ∙ r)
  resolve_all-kept (b ∷ cs) (suc i) {ds} {c} e h =
      let (d, es, r, later, same) = resolve_all-cons b cs e in
      let (d', f, g) = resolve_all-kept cs i later h in
      (d', ap (λ l. get_elem? l (suc i)) same ∙ f, g)

  resolve_all-length :
      (cs : List Command) {ds : List Command}
      → resolve_all count labels cs ≡ ok ds
      → length ds ≡ length cs
  resolve_all-length [] {ds} e =
      let none' : [] ≡ ds = unfold resolve_all in cc in ap length (sym none')
  resolve_all-length (c ∷ cs) e =
      let (d, es, r, later, same) = resolve_all-cons c cs e in
      ap length same ∙ ap suc (resolve_all-length cs later)

-- Resolving changes at most the block of a branch, and leads that one to its label or, without
-- one, behind the last command.
resolve_command-kept :
    (count : ℕ) (labels : List (Bytes × ℕ)) (c : Command) {d : Command}
    → resolve_command count labels c ≡ ok d
    → (d.name ≡ c.name)
      × (d.text ≡ c.text)
      × ((one_of (codes "btT") c.name ≡ false) → d.block ≡ c.block)
unfolding resolve_command
resolve_command-kept count labels c {d} e = (ground arith, ground arith, λ h. ground arith)

resolve_command-branch :
    (count : ℕ) (labels : List (Bytes × ℕ)) (c : Command) {d : Command}
    → resolve_command count labels c ≡ ok d
    → one_of (codes "btT") c.name ≡ true
    → ((equal c.text [] ≡ true) × (d.block ≡ count)) ⊎ (find_label c.text labels ≡ some d.block)
unfolding resolve_command
resolve_command-branch count labels c {d} e h = elim (Bool-cases (equal c.text [])) [
  | inl k ↦ inl (k, ground arith)
  | inr k ↦ inr (ground arith)
]

finish_parse-ok :
    (b : Blocks) {ds : List Command}
    → finish_parse b ≡ ok ds
    → (labels : List (Bytes × ℕ)) × (b.opened ≡ [])
      × (collect_labels 0 [] b.cmds ≡ ok labels)
      × (resolve_all (length b.cmds) labels b.cmds ≡ ok ds)
unfolding finish_parse
finish_parse-ok b {ds} h = at_opened b.opened h
  where
    at_opened :
        (opened : List ℕ)
        → (elim opened as (λ _. Result (List Command)) [
          | o ∷ _ ↦ err (plain "unmatched `{'")
          | [] ↦ collect_labels 0 [] b.cmds >>= λ labels. resolve_all (length b.cmds) labels b.cmds
        ])
          ≡ ok ds
        → (labels : List (Bytes × ℕ)) × (opened ≡ [])
          × (collect_labels 0 [] b.cmds ≡ ok labels)
          × (resolve_all (length b.cmds) labels b.cmds ≡ ok ds)
    at_opened [] k =
        let (labels, e, f) = >>=-ok (collect_labels 0 [] b.cmds) _ k in (labels, refl, e, f)
    at_opened (o ∷ opened) k = absurd (ground arith)

parse-ok :
    (compiles : Bytes → Bool) (src : Bytes) (ere : Bool) {ds : List Command}
    → parse compiles src ere ≡ some (ok ds)
    → (b : Blocks) × Nested b × (finish_parse b ≡ ok ds)
unfolding parse
parse-ok compiles src ere {ds} h =
    at_blocks (parse_loop (suc (length src)) p start src) h
      (λ b. parse_loop-Nested (suc (length src)) p start src opens)
  where
    p : Parser
    p = record { total = length src; ere = ere; compiles = compiles }

    start : Blocks
    start = record { cmds = []; opened = [] }

    opens : Nested start
    opens i c e n = absurd (ground arith)

    at_blocks :
        (o : Option (Result Blocks))
        → Option.map (λ r. r >>= finish_parse) o ≡ some (ok ds)
        → ((b : Blocks) → o ≡ some (ok b) → Nested b)
        → (b : Blocks) × Nested b × (finish_parse b ≡ ok ds)
    at_blocks none k inv = absurd (ground arith)
    at_blocks (some (err e)) k inv = absurd (ground arith)
    at_blocks (some (ok b)) k inv = let e : finish_parse b ≡ ok ds = cc in (b, inv b refl, e)

-- Where command `c`, at `i`, can jump to.
pub record JumpsRight (cmds : List Command) (i : ℕ) (c : Command) : Type 0 where
  pub block : c.name ≡ b'{' → Closes cmds i c
  pub branch :
      one_of (codes "btT") c.name ≡ true
      → ((c.text ≡ []) × (c.block ≡ length cmds)) ⊎ IsLabel cmds c.text c.block

module _ (b : Blocks) (labels : List (Bytes × ℕ)) {cmds : List Command} (nested : Nested b)
    (closed : b.opened ≡ []) (known : Known b.cmds labels)
    (resolved : resolve_all (length b.cmds) labels b.cmds ≡ ok cmds) where
  -- A label keeps its place.
  IsLabel-resolved : (l : Bytes) (i : ℕ) → IsLabel b.cmds l i → IsLabel cmds l i
  IsLabel-resolved l i k =
      let (d, f, r) = resolve_all-kept (length b.cmds) labels b.cmds i resolved k.found in
      let (name, text, _) = resolve_command-kept (length b.cmds) labels k.at r in
      record { at = d; found = f; is_colon = name ∙ k.is_colon; named = text ∙ k.named }

  Closes-resolved :
      (i : ℕ) (c₀ c : Command) → c.block ≡ c₀.block → Closes b.cmds i c₀ → Closes cmds i c
  Closes-resolved i c₀ c e k =
      let (d, f, r) = resolve_all-kept (length b.cmds) labels b.cmds c₀.block resolved k.found in
      let (name, _, _) = resolve_command-kept (length b.cmds) labels k.last r in
      record {
        last = d;
        behind = omega (arith, k.behind);
        found = ap (get_elem? cmds) e ∙ f;
        is_brace = name ∙ k.is_brace;
      }

  not-IsOpen : (i : ℕ) → ¬ IsOpen i b.opened
  not-IsOpen i o = subst (IsOpen i) closed o

  resolved-JumpsRight : (i : ℕ) (c : Command) → get_elem? cmds i ≡ some c → JumpsRight cmds i c
  resolved-JumpsRight i c at =
      let (c₀, at₀, r) = resolve_all-get_elem? (length b.cmds) labels b.cmds i resolved at in
      let (name, text, kept) = resolve_command-kept (length b.cmds) labels c₀ r in
      let all = resolve_all-length (length b.cmds) labels b.cmds resolved in
      record {
        block = λ n. elim (nested i c₀ at₀ (sym name ∙ n)) [
          | inl o ↦ absurd (not-IsOpen i o)
          | inr k ↦ Closes-resolved i c₀ c (kept (ground arith)) k
        ];
        branch = λ n.
            elim (resolve_command-branch (length b.cmds) labels c₀ r
              (ap (one_of (codes "btT")) (sym name) ∙ n)) [
                | inl (e, f) ↦ inl (text ∙ (equal_iff c₀.text []).0 e, f ∙ sym all)
                | inr f ↦ inr (
                    subst (λ l. IsLabel cmds l c.block) (sym text)
                      (IsLabel-resolved c₀.text c.block (known c₀.text c.block f)))
              ];
      }

-- In a script that is accepted every `{` knows a `}` behind it, and every branch leads to the label
-- that it names or, if it names none, behind the last command.
pub parse-JumpsRight :
    (compiles : Bytes → Bool) (src : Bytes) (ere : Bool) {cmds : List Command} (i : ℕ) (c : Command)
    → parse compiles src ere ≡ some (ok cmds)
    → get_elem? cmds i ≡ some c
    → JumpsRight cmds i c
parse-JumpsRight compiles src ere {cmds} i c h at =
    let (b, nested, finished) = parse-ok compiles src ere h in
    let (labels, closed, collected, resolved) = finish_parse-ok b finished in
    let known : Known b.cmds labels =
      collect_labels-Known b.cmds b.cmds 0 [] (λ j c' e. rw zero-add e) (Known-nil b.cmds)
        collected in
    resolved-JumpsRight b labels nested closed known resolved i c at
