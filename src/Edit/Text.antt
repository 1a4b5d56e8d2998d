-- ===== src/Edit/Text.antt =====
-- The editor against a text with a place in it: what is in front of the cursor, and behind it.
use websh.Base.{
  ℕ, zero, suc, ◌+◌, ◌<◌, ◌≤◌, ◌≡◌, ◌⊎◌, inl, inr, subst, refl, sym, ap, ap₂, ◌∙◌, List, [], ◌∷◌,
  ◌++◌, length, take, drop, true, arith, append_assoc, append-nil, take-drop,
}
use websh.Edit.Buffer.{EditorState, line_at, insert_rune, enter, backspace, delete}
use websh.Base.Parts.{take-length, drop-length, suc_plus, drop-more}
use websh.Edit.Lines.{line_at-length}
use websh.Edit.Places.{
  at, insert_rune-at, enter-at, delete-at, join-at, delete-at_end, backspace-at, backspace-at_start,
  backspace-at_top,
}

abbrev flat : List (List ℕ) → List ℕ
flat [] = []
flat (l ∷ ls) = l ++ b'\n' ∷ flat ls

abbrev flat_behind : List (List ℕ) → List ℕ
flat_behind [] = []
flat_behind (l ∷ ls) = b'\n' ∷ l ++ flat_behind ls

-- The text in front of the cursor and behind it.
abbrev pub view : EditorState → List ℕ × List ℕ
view s =
    let l = line_at s.lines s.cy in
    (flat (take s.cy s.lines) ++ take s.cx l, drop s.cx l ++ flat_behind (drop (s.cy + 1) s.lines))

abbrev pub without_last : List ℕ → List ℕ
without_last [] = []
without_last (c ∷ []) = []
without_last (c ∷ d ∷ s) = c ∷ without_last (d ∷ s)

abbrev place : List (List ℕ) → List ℕ → List ℕ → List (List ℕ) → List ℕ × List ℕ
place above left right below = (flat above ++ left, right ++ flat_behind below)

view-at :
    (s : EditorState) (above : List (List ℕ)) (left right : List ℕ) (below : List (List ℕ))
    → view (at s above left right below) ≡ place above left right below
view-at s above left right below =
    rw
      (
        line_at-length above (left ++ right) below,
        take-length above ((left ++ right) ∷ below),
        take-length left right,
        drop-length left right,
        drop-more 1 above ((left ++ right) ∷ below),
      )
      refl

-- A list is empty, or has a last element.
snoc {ℓ} : {A : Type ℓ} (xs : List A) → (xs ≡ []) ⊎ ((ys : List A) × (y : A) × (xs ≡ ys ++ y ∷ []))
snoc [] = inl refl
snoc (x ∷ xs) = elim (snoc xs) [
  | inl e ↦ inr ([], x, ap (◌∷◌ x) e)
  | inr (ys, y, e) ↦ inr (x ∷ ys, y, ap (◌∷◌ x) e)
]

without_last-append : (s : List ℕ) (c : ℕ) → without_last (s ++ c ∷ []) ≡ s
without_last-append [] c = refl
without_last-append (x ∷ []) c = refl
without_last-append (x ∷ y ∷ s) c = ap (◌∷◌ x) (without_last-append (y ∷ s) c)

flat-append : (xs : List (List ℕ)) (l : List ℕ) → flat (xs ++ l ∷ []) ≡ (flat xs ++ l) ++ b'\n' ∷ []
flat-append [] l = refl
flat-append (x ∷ xs) l = simp (flat-append xs l, append_assoc)

-- What the four keys do to the text in front of the cursor and behind it.
abbrev Keys : ℕ → EditorState → Type 0
Keys r s =
    (view (insert_rune r s) ≡ ((view s).0 ++ r ∷ [], (view s).1))
    × (view (enter s) ≡ ((view s).0 ++ b'\n' ∷ [], (view s).1))
    × (view (backspace s) ≡ (without_last (view s).0, (view s).1))
    × (view (delete s) ≡ ((view s).0, drop 1 (view s).1))

pair : {x y : List ℕ × List ℕ} → x.0 ≡ y.0 → x.1 ≡ y.1 → x ≡ y
pair p q = ap₂ (λ a b. (a, b)) p q

module _ (s : EditorState) where
  insert-view :
      (r : ℕ) (above : List (List ℕ)) (left right : List ℕ) (below : List (List ℕ))
      → view (insert_rune r (at s above left right below))
        ≡ ((flat above ++ left) ++ r ∷ [], right ++ flat_behind below)
  insert-view r above left right below =
      ap view (insert_rune-at s above left right below r)
      ∙ (view-at (record s { dirty = true }) above (left ++ r ∷ []) right below
          ∙ ap (λ x. (x, right ++ flat_behind below))
              (sym (append_assoc (flat above) left (r ∷ []))))

  enter-view :
      (above : List (List ℕ)) (left right : List ℕ) (below : List (List ℕ))
      → view (enter (at s above left right below))
        ≡ ((flat above ++ left) ++ b'\n' ∷ [], right ++ flat_behind below)
  enter-view above left right below =
      ap view (enter-at s above left right below)
      ∙ (view-at (record s { dirty = true }) (above ++ left ∷ []) [] right below
          ∙ ap (λ x. (x, right ++ flat_behind below)) (append-nil _ ∙ flat-append above left))

  delete-view :
      (above : List (List ℕ)) (left right : List ℕ) (below : List (List ℕ))
      → view (delete (at s above left right below))
        ≡ (flat above ++ left, drop 1 (right ++ flat_behind below))
  delete-view above left (c ∷ right) below =
      ap view (delete-at s above left right below c)
      ∙ view-at (record s { dirty = true }) above left right below
  delete-view above left [] (l ∷ below) =
      ap view (join-at s above left [] below l)
      ∙ view-at (record s { dirty = true }) above left l below
  delete-view above left [] [] =
      ap view (delete-at_end s above left [] []) ∙ view-at s above left [] []

  -- what `backspace` has to do
  abbrev Rubs : List (List ℕ) → List ℕ → List ℕ → List (List ℕ) → Type 0
  Rubs above left right below =
      view (backspace (at s above left right below))
      ≡ (without_last (flat above ++ left), right ++ flat_behind below)

  Rubs-last :
      (above : List (List ℕ)) (left : List ℕ) (c : ℕ) (right : List ℕ) (below : List (List ℕ))
      → Rubs above (left ++ c ∷ []) right below
  Rubs-last above left c right below =
      ap view (backspace-at s above left right below c)
      ∙ (view-at (record s { dirty = true }) above left right below
          ∙ ap (λ x. (x, right ++ flat_behind below))
              (sym (
                ap without_last (sym (append_assoc (flat above) left (c ∷ [])))
                ∙ without_last-append (flat above ++ left) c)))

  Rubs-start :
      (above : List (List ℕ)) (l right : List ℕ) (below : List (List ℕ))
      → Rubs (above ++ l ∷ []) [] right below
  Rubs-start above l right below =
      ap view (backspace-at_start s above [] right below l)
      ∙ (view-at (record s { dirty = true }) above l right below
          ∙ ap (λ x. (x, right ++ flat_behind below))
              (sym (
                ap without_last (append-nil (flat (above ++ l ∷ [])) ∙ flat-append above l)
                ∙ without_last-append (flat above ++ l) b'\n')))

  Rubs-all :
      (above : List (List ℕ)) (left right : List ℕ) (below : List (List ℕ))
      → Rubs above left right below
  Rubs-all above left right below = elim (snoc left) [
    | inr (left', c, e) ↦
        subst (λ x. Rubs above x right below) (sym e) (Rubs-last above left' c right below)
    | inl e ↦ elim (snoc above) [
      | inr (above', l, e') ↦
          subst (λ x. Rubs x left right below) (sym e')
            (subst (λ x. Rubs (above' ++ l ∷ []) x right below) (sym e)
              (Rubs-start above' l right below))
      | inl e' ↦
          subst (λ x. Rubs x left right below) (sym e')
            (subst (λ x. Rubs [] x right below) (sym e)
              (ap view (backspace-at_top s [] [] right below) ∙ view-at s [] [] right below))
    ]
  ]

  Keys-at :
      (r : ℕ) (above : List (List ℕ)) (left right : List ℕ) (below : List (List ℕ))
      → Keys r (at s above left right below)
  Keys-at r above left right below =
      let v = view-at s above left right below in
      (
        insert-view r above left right below ∙ sym (ap (λ x. (x.0 ++ r ∷ [], x.1)) v),
        enter-view above left right below ∙ sym (ap (λ x. (x.0 ++ b'\n' ∷ [], x.1)) v),
        Rubs-all above left right below ∙ sym (ap (λ x. (without_last x.0, x.1)) v),
        delete-view above left right below ∙ sym (ap (λ x. (x.0, drop 1 x.1)) v),
      )

length-take {ℓ} : {A : Type ℓ} (n : ℕ) (xs : List A) → n ≤ length xs → length (take n xs) ≡ n
length-take zero xs h = refl
length-take (suc n) [] h = ground arith
length-take (suc n) (x ∷ xs) h = ap suc (length-take n xs (omega arith))

lines-split :
    (y : ℕ) (ls : List (List ℕ)) → y < length ls → take y ls ++ line_at ls y ∷ drop (y + 1) ls ≡ ls
lines-split y [] h = ground arith
lines-split zero (l ∷ ls) h = refl
lines-split (suc y) (l ∷ ls) h =
    ap (λ n. (l ∷ take y ls) ++ line_at ls y ∷ drop n (l ∷ ls)) (suc_plus y 1)
    ∙ ap (◌∷◌ l) (lines-split y ls (omega arith))

-- A cursor in the text is at a place in it.
at-place :
    (s : EditorState)
    → s.cy < length s.lines
    → s.cx ≤ length (line_at s.lines s.cy)
    → (let l = line_at s.lines s.cy in
        at s (take s.cy s.lines) (take s.cx l) (drop s.cx l) (drop (s.cy + 1) s.lines))
      ≡ s
at-place s hy hx = simp (
  take-drop s.cx (line_at s.lines s.cy),
  lines-split s.cy s.lines hy,
  length-take s.cy s.lines (omega arith),
  length-take s.cx (line_at s.lines s.cy) hx,
)

-- With the cursor in the text, the four keys do to it what they do to one flat text with a place
-- in it: a rune and Enter add to what is in front of the cursor, backspace takes the last rune of
-- it, be it a line's end, and delete the first one behind it; with nothing there they do nothing.
pub keys-view :
    (r : ℕ) (s : EditorState)
    → s.cy < length s.lines
    → s.cx ≤ length (line_at s.lines s.cy)
    → (view (insert_rune r s) ≡ ((view s).0 ++ r ∷ [], (view s).1))
      × (view (enter s) ≡ ((view s).0 ++ b'\n' ∷ [], (view s).1))
      × (view (backspace s) ≡ (without_last (view s).0, (view s).1))
      × (view (delete s) ≡ ((view s).0, drop 1 (view s).1))
keys-view r s hy hx =
    let l = line_at s.lines s.cy in
    subst (Keys r) (at-place s hy hx)
      (Keys-at s r (take s.cy s.lines) (take s.cx l) (drop s.cx l) (drop (s.cy + 1) s.lines))
