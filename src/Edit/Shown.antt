-- ===== src/Edit/Shown.antt =====
-- The cursor stays in the text and on the screen.
use websh.Base.{
  ℕ, zero, suc, ◌+◌, ◌-◌, ◌<◌, ◌≤◌, ◌≡◌, refl, Bool, true, false, List, [], ◌∷◌, ◌++◌,
  if◌then◌else◌, Bytes, ltb, length, take, drop, set, Option, none, some, arith, length-set,
}
use websh.Base.Int.{ℤ}
use websh.Edit.Buffer.{
  EditorState, Files, Message, no_filename, save_error, saved, content, insert_rune, insert_runes,
  save, cut, enter, backspace, delete, join_next, line_at,
}
use websh.Edit.Screen.{Size, clamp, clamp_to, scroll}

-- The cursor is in the text, and the line and the column of it are shown.
pub record IsShown (z : Size) (s : EditorState) : Type 0 where
  pub in_text : s.cy < length s.lines
  pub in_line : s.cx ≤ length (line_at s.lines s.cy)
  pub below_top : s.top_y ≤ s.cy
  pub above_end : s.cy < s.top_y + z.text_rows
  pub right_of_left : s.left_x ≤ s.cx
  pub left_of_end : s.cx < s.left_x + z.cols

scroll-le : (size first n : ℕ) → 0 < size → scroll size first n ≤ n
unfolding scroll
scroll-le size first n h = ground (arith, scroll)

lt-scroll : (size first n : ℕ) → 0 < size → n < scroll size first n + size
unfolding scroll
lt-scroll size first n h = ground (arith, scroll)

clamp_to-le : (last : ℕ) (n : ℤ) → clamp_to last n ≤ last
clamp_to-le last n = ground arith

pub clamp-IsShown :
    (z : Size) (y x : ℤ) (s : EditorState)
    → 0 < z.cols
    → 0 < z.text_rows
    → 0 < length s.lines
    → IsShown z (clamp z y x s)
unfolding clamp
clamp-IsShown z y x s hc hr hl =
    let cy = clamp_to (length s.lines - 1) y in
    let cx = clamp_to (length (line_at s.lines cy)) x in
    record {
      in_text = omega (arith, clamp_to-le (length s.lines - 1) y);
      in_line = clamp_to-le (length (line_at s.lines cy)) x;
      below_top = scroll-le z.text_rows s.top_y cy hr;
      above_end = lt-scroll z.text_rows s.top_y cy hr;
      right_of_left = scroll-le z.cols s.left_x cx hc;
      left_of_end = lt-scroll z.cols s.left_x cx hc;
    }

-- There is a line.
pub record IsText (s : EditorState) : Type 0 where
  pub has_line : 0 < length s.lines

pub IsShown-IsText : (z : Size) (s : EditorState) → IsShown z s → IsText s
IsShown-IsText z s h = record { has_line = omega (arith, h.in_text) }

take-has_line {ℓ} :
    {A : Type ℓ} (n : ℕ) (xs ys : List A) → 0 < n → 0 < length xs → 0 < length (take n xs ++ ys)
take-has_line zero xs ys h k = ground arith
take-has_line (suc n) [] ys h k = ground arith
take-has_line (suc n) (x ∷ xs) ys h k = omega arith

set-has_line : (s : EditorState) (y : ℕ) (l : List ℕ) → IsText s → 0 < length (set s.lines y l)
set-has_line s y l h = omega (arith, length-set s.lines y l, h.has_line)

pub insert_rune-IsText : (r : ℕ) (s : EditorState) → IsText s → IsText (insert_rune r s)
unfolding insert_rune
insert_rune-IsText r s h = record { has_line = set-has_line s s.cy _ h }

pub insert_runes-IsText : (rs : List ℕ) (s : EditorState) → IsText s → IsText (insert_runes rs s)
unfolding insert_runes
insert_runes-IsText [] s h = h
insert_runes-IsText (r ∷ rs) s h =
    insert_runes-IsText rs (insert_rune r s) (insert_rune-IsText r s h)

IsText-if : (b : Bool) (s t : EditorState) → IsText s → IsText t → IsText (if b then s else t)
IsText-if true s t h k = h
IsText-if false s t h k = k

join_next-has_line : (s : EditorState) → IsText s → 0 < length (join_next s)
unfolding join_next
join_next-has_line s h = take-has_line (s.cy + 1) _ _ (omega arith) (set-has_line s s.cy _ h)

pub cut-IsText : (s : EditorState) → IsText s → IsText (cut s)
unfolding cut
cut-IsText s h = record {
  has_line = ground (
    arith,
    cut,
    h.has_line,
    set-has_line s s.cy (take s.cx (line_at s.lines s.cy)) h,
    join_next-has_line s h,
  );
}

pub enter-IsText : (s : EditorState) → IsText s → IsText (enter s)
unfolding enter
enter-IsText s h = record {
  has_line = take-has_line (s.cy + 1) _ _ (omega arith) (set-has_line s s.cy _ h);
}

pub backspace-IsText : (s : EditorState) → IsText s → IsText (backspace s)
unfolding backspace
backspace-IsText s h =
    IsText-if _ _ _ (record { has_line = set-has_line s s.cy _ h }) (go (ltb 0 s.cy) refl)
  where
    go :
        (b : Bool)
        → ltb 0 s.cy ≡ b
        → (let ls = set s.lines (s.cy - 1) (line_at s.lines (s.cy - 1) ++ line_at s.lines s.cy) in
            IsText (
              if b
              then record s {
                cx = length (line_at s.lines (s.cy - 1));
                lines = take s.cy ls ++ drop (s.cy + 1) ls;
                cy = s.cy - 1;
                dirty = true;
              }
              else s))
    go true e = record {
      has_line = take-has_line s.cy _ _ (ground arith) (set-has_line s (s.cy - 1) _ h);
    }
    go false e = h

pub delete-IsText : (s : EditorState) → IsText s → IsText (delete s)
unfolding delete
delete-IsText s h =
    IsText-if _ _ _ (record { has_line = set-has_line s s.cy _ h })
      (IsText-if _ _ _ (record { has_line = join_next-has_line s h }) h)

save-lines : (f : Files) (s : EditorState) → (save f s).lines ≡ s.lines
unfolding save
save-lines f s = ground (arith, save)

pub IsShown-if :
    (z : Size) (b : Bool) (s t : EditorState)
    → IsShown z s
    → IsShown z t
    → IsShown z (if b then s else t)
IsShown-if z true s t h k = h
IsShown-if z false s t h k = k

pub save-IsShown : (f : Files) (z : Size) (s : EditorState) → IsShown z s → IsShown z (save f s)
unfolding save
save-IsShown f z s h = IsShown-if z _ _ _ (same no_filename) (go (f.write s.filename _))
  where
    same : (m : Message) → IsShown z (record s { message = m })
    same m = record {
      in_text = h.in_text;
      in_line = h.in_line;
      below_top = h.below_top;
      above_end = h.above_end;
      right_of_left = h.right_of_left;
      left_of_end = h.left_of_end;
    }

    go :
        (o : Option Bytes)
        → IsShown z (elim o as (λ _. EditorState) [
          | some e ↦ record s { message = save_error e }
          | none ↦ record s {
            dirty = false;
            message = saved (length s.lines);
            file = some (content s.lines);
          }
        ])
    go none = record {
      in_text = h.in_text;
      in_line = h.in_line;
      below_top = h.below_top;
      above_end = h.above_end;
      right_of_left = h.right_of_left;
      left_of_end = h.left_of_end;
    }
    go (some e) = same (save_error e)
