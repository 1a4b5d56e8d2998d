-- ===== src/Edit/Places.antt =====
-- The keys of the editor at a place in the text.
use websh.Base.{ℕ, ◌≡◌, refl, List, [], ◌∷◌, ◌++◌, length, true, arith, append_assoc, append-nil}
use websh.Edit.Buffer.{EditorState, insert_rune, enter, backspace, delete, join_next}
use websh.Base.Parts.{take-length, drop-length, drop-more, take-more}
use websh.Edit.Lines.{
  line_at-more, line_at-length, set-length, length-last, ltb-suc, ltb_self, suc_minus_one, drop-suc,
  drop-suc_plus, take-suc, line_at-suc, ltb-inside, ltb-outside, ltb-inside_first,
  ltb-outside_first,
}

-- The state at a place: the lines above and below, and the two parts of the line of the cursor.
abbrev pub at : EditorState → List (List ℕ) → List ℕ → List ℕ → List (List ℕ) → EditorState
at s above left right below = record s {
  lines = above ++ (left ++ right) ∷ below;
  cy = length above;
  cx = length left;
}

module _ (s : EditorState) (above : List (List ℕ)) (left right : List ℕ)
    (below : List (List ℕ)) where
  pub insert_rune-at :
      (r : ℕ)
      → insert_rune r (at s above left right below)
        ≡ at (record s { dirty = true }) above (left ++ r ∷ []) right below
  unfolding insert_rune
  insert_rune-at r = simp (
    line_at-length above (left ++ right) below,
    take-length left right,
    drop-length left right,
    set-length above (left ++ right) (left ++ r ∷ right) below,
    length-last left r,
    append_assoc left (r ∷ []) right,
  )

  pub enter-at :
      enter (at s above left right below)
      ≡ at (record s { dirty = true }) (above ++ left ∷ []) [] right below
  unfolding enter
  enter-at = simp (
    line_at-length above (left ++ right) below,
    take-length left right,
    drop-length left right,
    set-length above (left ++ right) left below,
    take-more 1 above (left ∷ below),
    drop-more 1 above (left ∷ below),
    length-last above left,
  )

  pub delete-at :
      (c : ℕ)
      → delete (at s above left (c ∷ right) below)
        ≡ at (record s { dirty = true }) above left right below
  unfolding delete
  delete-at c = simp (
    line_at-length above (left ++ c ∷ right) below,
    ltb-inside_first left c right,
    take-length left (c ∷ right),
    drop-more 1 left (c ∷ right),
    set-length above (left ++ c ∷ right) (left ++ right) below,
  )

  pub join-at :
      (next : List ℕ)
      → delete (at s above left [] (next ∷ below))
        ≡ at (record s { dirty = true }) above left next below
  unfolding delete join_next
  join-at next = simp (
    append-nil left,
    line_at-length above left (next ∷ below),
    line_at-more 1 above (left ∷ next ∷ below),
    ltb_self (length left),
    ltb-inside 1 above (left ∷ next ∷ below) (omega arith),
    set-length above left (left ++ next) (next ∷ below),
    take-more 1 above ((left ++ next) ∷ next ∷ below),
    drop-more 2 above ((left ++ next) ∷ next ∷ below),
    append_assoc above ((left ++ next) ∷ []) below,
  )

  pub delete-at_end : delete (at s above left [] []) ≡ at s above left [] []
  unfolding delete
  delete-at_end = simp (
    line_at-length above (left ++ []) [],
    ltb-outside_first left,
    ltb-outside 1 above ((left ++ []) ∷ []) (omega arith),
  )

  pub backspace-at :
      (c : ℕ)
      → backspace (at s above (left ++ c ∷ []) right below)
        ≡ at (record s { dirty = true }) above left right below
  unfolding backspace
  backspace-at c = simp (
    length-last left c,
    append_assoc left (c ∷ []) right,
    line_at-length above (left ++ c ∷ right) below,
    ltb-suc (length left),
    suc_minus_one (length left),
    take-length left (c ∷ right),
    drop-suc left c right,
    set-length above (left ++ c ∷ right) (left ++ right) below,
  )

  pub backspace-at_start :
      (l : List ℕ)
      → backspace (at s (above ++ l ∷ []) [] right below)
        ≡ at (record s { dirty = true }) above l right below
  unfolding backspace
  backspace-at_start l = simp (
    length-last above l,
    append_assoc above (l ∷ []) (right ∷ below),
    line_at-length above l (right ∷ below),
    line_at-suc above l (right ∷ below),
    ltb-suc (length above),
    suc_minus_one (length above),
    set-length above l (l ++ right) (right ∷ below),
    take-suc above (l ++ right) (right ∷ below),
    drop-suc_plus 1 above (l ++ right) (right ∷ below),
    append_assoc above ((l ++ right) ∷ []) below,
  )

  pub backspace-at_top : backspace (at s [] [] right below) ≡ at s [] [] right below
  unfolding backspace
  backspace-at_top = refl
