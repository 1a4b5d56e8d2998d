-- ===== src/Sed/Parse/Labels.antt =====
-- The labels that `parse` collects lead to their commands.

use websh.Base.{
  ℕ, suc, ◌+◌, ◌≡◌, ◌⊎◌, refl, sym, subst, ◌∙◌, true, false, List, [], ◌∷◌, arith, ◌==◌, Bytes,
  Bool-cases, inl, inr, Option, some, none, get_elem?, equal, equal_iff, ==→eq,
}
use websh.Base.Result.{ok, err, Fault, with_text}
use websh.Sed.Types.{Command}
use websh.Sed.Parse.{find_label, collect_labels}

-- The command at `i` is the label `name`.
pub record IsLabel (cmds : List Command) (name : Bytes) (i : ℕ) : Type 0 where
  pub at : Command
  pub found : get_elem? cmds i ≡ some at
  pub is_colon : at.name ≡ b':'
  pub named : at.text ≡ name

-- Every label that is known leads to its command.
abbrev pub Known : List Command → List (Bytes × ℕ) → Type 0
Known cmds labels = (name : Bytes) (i : ℕ) → find_label name labels ≡ some i → IsLabel cmds name i

pub Known-nil : (cmds : List Command) → Known cmds []
unfolding find_label
Known-nil cmds name i h = absurd (ground arith)

Known-add :
    (cmds : List Command) (labels : List (Bytes × ℕ)) (l : Bytes) (j : ℕ)
    → IsLabel cmds l j
    → Known cmds labels
    → Known cmds ((l, j) ∷ labels)
unfolding find_label
Known-add cmds labels l j k known name i h = elim (Bool-cases (equal l name)) [
  | inl e ↦
      let same : j ≡ i = ground arith in
      subst (λ m. IsLabel cmds m i) ((equal_iff l name).0 e) (subst (IsLabel cmds l) same k)
  | inr e ↦ known name i (ground arith)
]

Option-cases {ℓ} : {A : Type ℓ} (o : Option A) → (o ≡ none) ⊎ ((a : A) × (o ≡ some a))
Option-cases none = inl refl
Option-cases (some a) = inr (a, refl)

-- The commands `back` stand in `cmds` from index `i` on.
abbrev pub StandsAt : List Command → List Command → ℕ → Type 0
StandsAt cmds back i =
    (j : ℕ) (c : Command) → get_elem? back j ≡ some c → get_elem? cmds (i + j) ≡ some c

StandsAt-tail :
    (cmds back : List Command) (c : Command) (i : ℕ)
    → StandsAt cmds (c ∷ back) i
    → StandsAt cmds back (suc i)
StandsAt-tail cmds back c i s j d h =
    let e : i + suc j ≡ suc i + j = omega arith in
    subst (λ (n : ℕ). get_elem? cmds n ≡ some d) e (s (suc j) d h)

StandsAt-head :
    (cmds back : List Command) (c : Command) (i : ℕ)
    → StandsAt cmds (c ∷ back) i
    → get_elem? cmds i ≡ some c
StandsAt-head cmds back c i s =
    let e : i + 0 ≡ i = omega arith in subst (λ (n : ℕ). get_elem? cmds n ≡ some c) e (s 0 c refl)

collect_labels-skip :
    (i : ℕ) (labels : List (Bytes × ℕ)) (c : Command) (back : List Command)
    → (c.name == b':') ≡ false
    → collect_labels i labels (c ∷ back) ≡ collect_labels (suc i) labels back
unfolding collect_labels
collect_labels-skip i labels c back h = rw h

collect_labels-add :
    (i : ℕ) (labels : List (Bytes × ℕ)) (c : Command) (back : List Command)
    → (c.name == b':') ≡ true
    → find_label c.text labels ≡ none
    → collect_labels i labels (c ∷ back) ≡ collect_labels (suc i) ((c.text, i) ∷ labels) back
unfolding collect_labels
collect_labels-add i labels c back h k = rw (h, k)

collect_labels-duplicate :
    (i : ℕ) (labels : List (Bytes × ℕ)) (c : Command) (back : List Command) (j : ℕ)
    → (c.name == b':') ≡ true
    → find_label c.text labels ≡ some j
    → collect_labels i labels (c ∷ back) ≡ err (with_text "duplicate label %q" c.text)
unfolding collect_labels
collect_labels-duplicate i labels c back j h k = rw (h, k)

pub collect_labels-Known :
    (cmds back : List Command) (i : ℕ) (labels : List (Bytes × ℕ)) {labels' : List (Bytes × ℕ)}
    → StandsAt cmds back i
    → Known cmds labels
    → collect_labels i labels back ≡ ok labels'
    → Known cmds labels'
collect_labels-Known cmds [] i labels {labels'} s known h =
    let e : labels ≡ labels' = unfold collect_labels in cc in subst (Known cmds) e known
collect_labels-Known cmds (c ∷ back) i labels {labels'} s known h =
    let tail = StandsAt-tail cmds back c i s in
    elim (Bool-cases (c.name == b':')) [
      | inr e ↦
          collect_labels-Known cmds back (suc i) labels tail known
            (sym (collect_labels-skip i labels c back e) ∙ h)
      | inl e ↦ elim (Option-cases (find_label c.text labels)) [
        | inl new ↦
            let here : IsLabel cmds c.text i = record {
              at = c;
              found = StandsAt-head cmds back c i s;
              is_colon = ==→eq c.name b':' e;
              named = refl;
            } in
            collect_labels-Known cmds back (suc i) ((c.text, i) ∷ labels) tail
              (Known-add cmds labels c.text i here known)
              (sym (collect_labels-add i labels c back e new) ∙ h)
        | inr (j, old) ↦
            absurd (err-ne-ok (sym (collect_labels-duplicate i labels c back j e old) ∙ h))
      ]
    ]
  where
    err-ne-ok : {e : Fault} → err e ≡ ok labels' → ⊥
    err-ne-ok k = cc
