-- ===== src/Sed/Exec/Forward.antt =====
-- A script whose blocks and branches all lead forward runs to its end.
use websh.Base.{
  ℕ, zero, suc, ◌+◌, ◌≤◌, ◌≡◌, ◌≢◌, refl, sym, ap, subst, ◌∙◌, Bool, true, List, [], ◌∷◌, arith,
  ◌==◌, ◌||◌, Bool-cases, inl, inr, Option, some, none, length, get_elem?, set, length-set,
  get_elem?-lt,
}
use websh.Base.Result.{Result, ok, err}
use websh.Sed.Types.{Command}
use websh.Sed.Host.{Host}
use websh.Sed.Ranges.Kept.{selected-Kept}
use websh.Sed.Ranges.{Selection, selected}
use websh.Sed.State.{State, Next, proceed, jump, stop, Action}
use websh.Sed.Commands.Script.{
  is_jump, JumpsBy, Keeps, Keeps-err, Keeps-proceed, Keeps-jump, is_jump-brace, run_command-Keeps,
}
use websh.Sed.Exec.{act_on, exec_step, exec_from, view_of, store_selection, bool_eq}

-- No command that jumps leads to itself or to one in front of it: it goes on behind its block, and
-- the first command has index `i`.
abbrev pub Forward : ℕ → List Command → Type 0
Forward i [] = Unit
Forward i (c ∷ cs) = (is_jump c.name ≡ true → i ≤ c.block) × Forward (suc i) cs

Forward-set :
    (cs : List Command) (i pc : ℕ) (c d : Command)
    → get_elem? cs pc ≡ some c
    → d.name ≡ c.name
    → d.block ≡ c.block
    → Forward i cs
    → Forward i (set cs pc d)
Forward-set [] i pc c d h n b f = tt
Forward-set (x ∷ cs) i zero c d h n b f = (λ j. ground (arith, f.0), f.1)
Forward-set (x ∷ cs) i (suc pc) c d h n b f = (f.0, Forward-set cs (suc i) pc c d h n b f.1)

Forward-get_elem? :
    (cs : List Command) (i pc : ℕ) {c : Command}
    → get_elem? cs pc ≡ some c
    → Forward i cs
    → is_jump c.name ≡ true
    → i + pc ≤ c.block
Forward-get_elem? [] i pc h f j = absurd (ground arith)
Forward-get_elem? (x ∷ cs) i zero {c} h f j = ground (arith, f.0)
Forward-get_elem? (x ∷ cs) i (suc pc) h f j = omega (arith, Forward-get_elem? cs (suc i) pc h f.1 j)

JumpsBy-same :
    (c d : Command) (n : Result Next)
    → d.name ≡ c.name
    → d.block ≡ c.block
    → JumpsBy d n
    → JumpsBy c n
unfolding JumpsBy
JumpsBy-same c d (ok (jump t)) n b (e, j) = (e ∙ b, ap is_jump (sym n) ∙ j)
JumpsBy-same c d (ok proceed) n b j = tt
JumpsBy-same c d (ok (stop a)) n b j = tt
JumpsBy-same c d (err e) n b j = tt

module _ (h : Host) (st : State) (pc : ℕ) (c : Command) where
  -- What a round of `exec` leaves of the script: the one command at `pc` may be another, of the
  -- same name and block.
  record Leaves (r : State × Result Next) : Type 0 where
    now : Command
    name : now.name ≡ c.name
    block : now.block ≡ c.block
    script : r.0.p.cmds ≡ set st.p.cmds pc now
    jumps : JumpsBy c r.1

  Leaves-of_Keeps :
      (d : Command) (r : State × Result Next)
      → d.name ≡ c.name
      → d.block ≡ c.block
      → Keeps (set st.p.cmds pc d) d r
      → Leaves r
  unfolding Keeps
  Leaves-of_Keeps d r n b (e, j) = record {
    now = d;
    name = n;
    block = b;
    script = e;
    jumps = JumpsBy-same c d r.1 n b j;
  }

  act_on-Leaves :
      (s : Selection) (v : Result Bool)
      → s.cmd.name ≡ c.name
      → s.cmd.block ≡ c.block
      → Leaves (act_on h st pc s v)
  unfolding act_on
  act_on-Leaves s (err e) n b =
      Leaves-of_Keeps s.cmd _ n b (Keeps-err _ s.cmd (store_selection st pc s) e refl)
  act_on-Leaves s (ok sel) n b = elim (Bool-cases (bool_eq sel s.cmd.negate)) [
    | inl skipped ↦ rw skipped (
        Leaves-of_Keeps s.cmd _ n b (elim (Bool-cases (s.cmd.name == b'{')) [
          | inl e ↦
              rw e (Keeps-jump _ s.cmd (store_selection st pc s) refl (is_jump-brace s.cmd.name e))
          | inr e ↦ rw e (Keeps-proceed _ s.cmd (store_selection st pc s) refl)
        ]))
    | inr runs ↦
        rw runs (Leaves-of_Keeps s.cmd _ n b (run_command-Keeps h (store_selection st pc s) s.cmd))
  ]

  set-same : (cs : List Command) (i : ℕ) → get_elem? cs i ≡ some c → cs ≡ set cs i c
  set-same [] i e = absurd (ground arith)
  set-same (x ∷ cs) zero e = ground arith
  set-same (x ∷ cs) (suc i) e = ap (λ r. x ∷ r) (set-same cs i e)

  exec_step-Leaves : get_elem? st.p.cmds pc ≡ some c → Leaves (exec_step h st pc c)
  unfolding exec_step JumpsBy
  exec_step-Leaves e = elim (Bool-cases (c.name == b'}' || c.name == b':')) [
    | inl mark ↦ rw mark (record {
      now = c;
      name = refl;
      block = refl;
      script = set-same st.p.cmds pc e;
      jumps = tt;
    })
    | inr acts ↦ rw acts (
        let k = selected-Kept h (view_of st) st.p.last_rx c in
        act_on-Leaves (selected h (view_of st) st.p.last_rx c)
          (selected h (view_of st) st.p.last_rx c).verdict k.0 k.1)
  ]

module _ (h : Host) where
  -- the goal for one fuel, at every place
  abbrev Ends : ℕ → Type 0
  Ends n =
      (pc : ℕ) (st : State)
      → Forward 0 st.p.cmds
      → length st.p.cmds ≤ n + pc
      → exec_from (suc n) h pc st ≢ none

  -- what follows one round
  goes_on : ℕ → ℕ → State × Result Next → Option (State × Result Action)
  unfolding exec_from
  goes_on n pc (st, err e) = some (st, err e)
  goes_on n pc (st, ok proceed) = exec_from n h (suc pc) st
  goes_on n pc (st, ok (jump t)) = exec_from n h (suc t) st
  goes_on n pc (st, ok (stop a)) = some (st, ok a)

  Leaves-Forward :
      (st : State) (pc : ℕ) (c : Command) (r : State × Result Next)
      → get_elem? st.p.cmds pc ≡ some c
      → Forward 0 st.p.cmds
      → Leaves h st pc c r
      → Forward 0 r.0.p.cmds
  Leaves-Forward st pc c r at f k =
      subst (λ cs. Forward 0 cs) (sym k.script)
        (Forward-set st.p.cmds 0 pc c k.now at k.name k.block f)

  Leaves-length :
      (st : State) (pc : ℕ) (c : Command) (r : State × Result Next)
      → Leaves h st pc c r
      → length r.0.p.cmds ≡ length st.p.cmds
  Leaves-length st pc c r k = ap length k.script ∙ length-set st.p.cmds pc k.now

  goes_on-Ends :
      (n pc : ℕ) (st : State) (c : Command) (r : State × Result Next)
      → Ends n
      → get_elem? st.p.cmds pc ≡ some c
      → Forward 0 st.p.cmds
      → length st.p.cmds ≤ suc n + pc
      → Leaves h st pc c r
      → goes_on (suc n) pc r ≢ none
  unfolding goes_on JumpsBy
  goes_on-Ends n pc st c (st', err e) ends at f l k = (λ q. absurd (ground arith))
  goes_on-Ends n pc st c (st', ok proceed) ends at f l k =
      ends (suc pc) st' (Leaves-Forward st pc c _ at f k)
        (omega (arith, Leaves-length st pc c _ k, l))
  goes_on-Ends n pc st c (st', ok (jump t)) ends at f l k =
      let same = k.jumps in
      let here = Forward-get_elem? st.p.cmds 0 pc at f same.1 in
      ends (suc t) st' (Leaves-Forward st pc c _ at f k)
        (omega (arith, Leaves-length st pc c _ k, l, here, same.0))
  goes_on-Ends n pc st c (st', ok (stop a)) ends at f l k = (λ q. absurd (ground arith))

  exec_from-goes_on :
      (n pc : ℕ) (st : State) (c : Command)
      → get_elem? st.p.cmds pc ≡ some c
      → exec_from (suc n) h pc st ≡ goes_on n pc (exec_step h st pc c)
  unfolding exec_from goes_on
  exec_from-goes_on n pc st c e = rw (exec_from, e) (outcome (exec_step h st pc c))
    where
      outcome :
          (r : State × Result Next)
          → elim r.1 [
            | err e ↦ some (r.0, err e)
            | ok proceed ↦ exec_from n h (suc pc) r.0
            | ok (jump t) ↦ exec_from n h (suc t) r.0
            | ok (stop a) ↦ some (r.0, ok a)
          ]
            ≡ goes_on n pc r
      outcome (st', err e) = refl
      outcome (st', ok proceed) = refl
      outcome (st', ok (jump t)) = refl
      outcome (st', ok (stop a)) = refl

  exec_from-none :
      (n pc : ℕ) (st : State) → get_elem? st.p.cmds pc ≡ none → exec_from (suc n) h pc st ≢ none
  unfolding exec_from
  exec_from-none n pc st e = rw (exec_from, e) (λ q. absurd (ground arith))

  exec_from-some :
      (n pc : ℕ) (st : State) (c : Command)
      → ((m : ℕ) → n ≡ suc m → Ends m)
      → get_elem? st.p.cmds pc ≡ some c
      → Forward 0 st.p.cmds
      → length st.p.cmds ≤ n + pc
      → exec_from (suc n) h pc st ≢ none
  exec_from-some zero pc st c ends e f l = absurd (omega (arith, get_elem?-lt st.p.cmds pc e, l))
  exec_from-some (suc m) pc st c ends e f l =
      subst (λ o. o ≢ none) (sym (exec_from-goes_on (suc m) pc st c e))
        (goes_on-Ends m pc st c (exec_step h st pc c) (ends m refl) e f l
          (exec_step-Leaves h st pc c e))

  exec_from-cases :
      (n pc : ℕ) (st : State)
      → ((m : ℕ) → n ≡ suc m → Ends m)
      → Forward 0 st.p.cmds
      → length st.p.cmds ≤ n + pc
      → (o : Option Command) → get_elem? st.p.cmds pc ≡ o
      → exec_from (suc n) h pc st ≢ none
  exec_from-cases n pc st ends f l none e = exec_from-none n pc st e
  exec_from-cases n pc st ends f l (some c) e = exec_from-some n pc st c ends e f l

  exec_from-Ends : (n : ℕ) → Ends n
  exec_from-Ends zero pc st f l =
      exec_from-cases zero pc st (λ m e. absurd (ground arith)) f l _ refl
  exec_from-Ends (suc n) pc st f l =
      exec_from-cases (suc n) pc st (λ m e. subst Ends (omega (arith, e)) (exec_from-Ends n)) f l _
        refl

-- Where every command that jumps has its target at or behind its own place, `exec` ends: as many
-- rounds as the script has commands, and one more, are enough, whatever the state and the answers
-- of the host.
pub exec_from-Forward :
    (h : Host) (st : State) → Forward 0 st.p.cmds → exec_from (suc (length st.p.cmds)) h 0 st ≢ none
exec_from-Forward h st f = exec_from-Ends h (length st.p.cmds) 0 st f (omega arith)
