-- ===== src/Edit/Returns.antt =====
-- Every key leaves the cursor in the text and on the screen, and the editor returns.
use websh.Base.{
  ℕ, zero, suc, ◌<◌, ◌≤◌, ◌≡◌, refl, ap, Bool, true, false, [], ◌∷◌, ◌++◌, ◌==◌, if◌then◌else◌,
  Bytes, leb, length, take, drop, Option, none, some, arith, ◌||◌,
}
use websh.Base.Int.{ℤ, pos}
use websh.Base.Utf8.{runes}
use websh.Edit.Buffer.{EditorState, Files, no_message, load, open_state}
use websh.Edit.Screen.{Size, size_of, clamp, draw}
use websh.Edit.Keys.{
  Round, Outcome, quits, skips, draws, read_byte, skip_byte, more_bytes, arrow_key, escape_key, key,
  finish, round, edit_loop, run_edit,
}
use websh.Edit.Shown.{
  IsShown, clamp-IsShown, IsText, IsShown-IsText, insert_rune-IsText, insert_runes-IsText,
  cut-IsText, enter-IsText, backspace-IsText, delete-IsText, IsShown-if, save-IsShown,
}

-- A key leaves the text with a line, the state as it is shown where nothing is drawn, and at most
-- `n` bytes of the input.
data IsOutcome (z : Size) (n : ℕ) : Outcome → Type 0 where
  quits_shown : (s : EditorState) → IsShown z s → IsOutcome z n (quits s)
  skips_shown :
      (s : EditorState) (rest : Bytes)
      → length rest ≤ n
      → IsShown z s
      → IsOutcome z n (skips s rest)
  draws_text :
      (s : EditorState) (y x : ℤ) (rest : Bytes)
      → length rest ≤ n
      → IsText s
      → IsOutcome z n (draws s y x rest)

IsOutcome-if :
    (z : Size) (n : ℕ) (b : Bool) (o p : Outcome)
    → IsOutcome z n o
    → IsOutcome z n p
    → IsOutcome z n (if b then o else p)
IsOutcome-if z n true o p h k = h
IsOutcome-if z n false o p h k = k

length-read_byte : (s : Bytes) → length (read_byte s).1 ≤ length s
length-read_byte [] = omega arith
length-read_byte (c ∷ s) = omega arith

length-drop : (n : ℕ) (s : Bytes) → length (drop n s) ≤ length s
length-drop zero s = omega arith
length-drop (suc n) [] = omega arith
length-drop (suc n) (c ∷ s) = omega (arith, length-drop n s)

arrow_key-IsOutcome :
    (z : Size) (n : ℕ) (s : EditorState) (b : ℕ) (rest : Bytes)
    → length rest ≤ n
    → IsText s
    → IsOutcome z n (arrow_key z s b rest)
unfolding arrow_key
arrow_key-IsOutcome z n s b rest r h =
    let skipped : length (skip_byte rest) ≤ n = omega (arith, length-read_byte rest) in
    IsOutcome-if z n (b == b'A') _ _ (draws_text _ _ _ _ r h) (
      IsOutcome-if z n (b == b'B') _ _ (draws_text _ _ _ _ r h) (
        IsOutcome-if z n (b == b'C') _ _ (draws_text _ _ _ _ r h) (
          IsOutcome-if z n (b == b'D') _ _ (draws_text _ _ _ _ r h) (
            IsOutcome-if z n (b == b'H') _ _ (draws_text _ _ _ _ r h) (
              IsOutcome-if z n (b == b'F') _ _ (draws_text _ _ _ _ r h) (
                IsOutcome-if z n (b == b'3') _ _ (draws_text _ _ _ _ skipped (delete-IsText s h)) (
                  IsOutcome-if z n (b == b'5') _ _ (draws_text _ _ _ _ skipped h) (
                    IsOutcome-if z n (b == b'6') _ _ (draws_text _ _ _ _ skipped h)
                      (draws_text _ _ _ _ r h)))))))))

escape_key-IsOutcome :
    (z : Size) (s : EditorState) (rest : Bytes)
    → IsShown z s
    → IsOutcome z (length rest) (escape_key z s rest)
unfolding escape_key
escape_key-IsOutcome z s rest h =
    let r = read_byte rest in
    let first : length r.1 ≤ length rest = length-read_byte rest in
    let second : length (read_byte r.1).1 ≤ length rest = omega (arith, length-read_byte r.1) in
    IsOutcome-if z (length rest) (r.0 == b'[' || r.0 == b'O')
      (arrow_key z s (read_byte r.1).0 (read_byte r.1).1) (skips s r.1)
      (arrow_key-IsOutcome z _ s (read_byte r.1).0 (read_byte r.1).1 second (IsShown-IsText z s h))
      (skips_shown s r.1 first h)

key-IsOutcome :
    (f : Files) (z : Size) (s : EditorState) (c : ℕ) (rest : Bytes)
    → IsShown z s
    → IsOutcome z (length rest) (key f z s c rest)
unfolding key
key-IsOutcome f z s c rest h =
    let t = IsShown-IsText z s h in
    let saved_shown = save-IsShown f z s h in
    let n = length rest in
    let all : length rest ≤ length rest = omega arith in
    IsOutcome-if z n (c == 0x11) _ _ (quits_shown _ (IsShown-if z _ _ _ saved_shown h)) (
      IsOutcome-if z n (c == 0x13) _ _ (draws_text _ _ _ _ all (IsShown-IsText z _ saved_shown)) (
        IsOutcome-if z n (c == 3) _ _ (quits_shown _ h) (
          IsOutcome-if z n (c == 0x0b) _ _ (draws_text _ _ _ _ all (cut-IsText s t)) (
            IsOutcome-if z n (c == b'\r' || c == b'\n') _ _
              (draws_text _ _ _ _ all (enter-IsText s t))
              (IsOutcome-if z n (c == 0x7f || c == 8) _ _
                (draws_text _ _ _ _ all (backspace-IsText s t))
                (IsOutcome-if z n (c == b'\t') _ _
                  (draws_text _ _ _ _ all (insert_rune-IsText _ s t))
                  (IsOutcome-if z n (c == 0x1b) _ _ (escape_key-IsOutcome z s rest h) (
                    IsOutcome-if z n (leb 32 c) _ _
                      (draws_text _ _ _ _ (length-drop (more_bytes c) rest)
                        (insert_runes-IsText (runes (c ∷ take (more_bytes c) rest)) s t))
                      (draws_text _ _ _ _ all t)))))))))

-- What a round leaves: the state as it is shown, and at most `n` bytes of the input.
record IsRound (z : Size) (n : ℕ) (r : Round) : Type 0 where
  shown : IsShown z r.state
  shorter : (left : Bytes) → r.input ≡ some left → length left ≤ n

finish-IsRound :
    (z : Size) (n : ℕ) (o : Outcome)
    → 0 < z.cols
    → 0 < z.text_rows
    → IsOutcome z n o
    → IsRound z n (finish z o)
unfolding finish
finish-IsRound z n o hc hr (quits_shown s h) = record { shown = h; shorter = λ left e. cc }
finish-IsRound z n o hc hr (skips_shown s rest le h) = record {
  shown = h;
  shorter = λ left e. ground (arith, e);
}
finish-IsRound z n o hc hr (draws_text s y x rest le h) = record {
  shown = clamp-IsShown z y x s hc hr h.has_line;
  shorter = λ left e. ground (arith, e);
}

round-IsRound :
    (f : Files) (z : Size) (s : EditorState) (c : ℕ) (rest : Bytes)
    → 0 < z.cols
    → 0 < z.text_rows
    → IsShown z s
    → IsRound z (length rest) (round f z s c rest)
unfolding round
round-IsRound f z s c rest hc hr h =
    finish-IsRound z (length rest) (key f z (record s { message = no_message }) c rest) hc hr (
      key-IsOutcome f z (record s { message = no_message }) c rest
        (record {
          in_text = h.in_text;
          in_line = h.in_line;
          below_top = h.below_top;
          above_end = h.above_end;
          right_of_left = h.right_of_left;
          left_of_end = h.left_of_end;
        }))

edit_loop-IsShown :
    (fuel : ℕ) (f : Files) (z : Size) (s : EditorState) (input : Bytes)
    → 0 < z.cols
    → 0 < z.text_rows
    → IsShown z s
    → length input ≤ fuel
    → (q : EditorState × Bytes) × (edit_loop fuel f z s input ≡ some q) × IsShown z q.0
unfolding edit_loop
edit_loop-IsShown fuel f z s [] hc hr h le = ((s, []), refl, h)
edit_loop-IsShown zero f z s (c ∷ rest) hc hr h le = ground arith
edit_loop-IsShown (suc fuel) f z s (c ∷ rest) hc hr h le =
    let p = round-IsRound f z s c rest hc hr h in
    go (round f z s c rest).input p.shown
      (λ left e.
        edit_loop-IsShown fuel f z (round f z s c rest).state left hc hr p.shown
          (omega (arith, p.shorter left e)))
      refl
  where
    go :
        (o : Option Bytes)
        → IsShown z (round f z s c rest).state
        → ((left : Bytes)
            → (round f z s c rest).input ≡ some left
            → (q : EditorState × Bytes) × (edit_loop fuel f z (round f z s c rest).state left
                ≡ some q)
              × IsShown z q.0)
        → (round f z s c rest).input ≡ o
        → (q : EditorState × Bytes) × (elim o as (λ _. Option (EditorState × Bytes)) [
          | none ↦ some ((round f z s c rest).state, (round f z s c rest).drawn)
          | some left ↦ elim (edit_loop fuel f z (round f z s c rest).state left) [
            | none ↦ none
            | some q ↦ some (q.0, (round f z s c rest).drawn ++ q.1)
          ]
        ]
            ≡ some q)
          × IsShown z q.0
    go none h ih e = (_, refl, h)
    go (some left) h ih e =
        let r = ih left e in ((r.0.0, (round f z s c rest).drawn ++ r.0.1), rw r.1 refl, r.2)

size_of-text_rows : (cols rows : ℕ) → 0 < (size_of cols rows).text_rows
unfolding size_of
size_of-text_rows cols rows = ground (arith, size_of)

open_state-has_line : (name text : Bytes) → 0 < length (open_state name text).lines
unfolding open_state load
open_state-has_line name text = omega arith

-- On a screen with a column, the editor returns on any input and any file, and leaves the cursor
-- in the text and on the screen.
pub run_edit-IsShown :
    (f : Files) (cols rows : ℕ) (name text input : Bytes)
    → 0 < cols
    → (q : EditorState × Bytes) × (run_edit f (size_of cols rows) name text input ≡ some q)
      × IsShown (size_of cols rows) q.0
unfolding run_edit size_of
run_edit-IsShown f cols rows name text input columns =
    let z = size_of cols rows in
    let hr = size_of-text_rows cols rows in
    let hc : 0 < z.cols = columns in
    let s = clamp z (pos 0) (pos 0) (open_state name text) in
    let h =
      clamp-IsShown z (pos 0) (pos 0) (open_state name text) hc hr
        (open_state-has_line name text) in
    let r = edit_loop-IsShown (length input) f z s input hc hr h (omega arith) in
    (
      (r.0.0, draw z s ++ r.0.1),
      ap
          (λ o. elim o as (λ _. Option (EditorState × Bytes)) [
            | none ↦ none
            | some q ↦ some (q.0, draw z s ++ q.1)
          ])
          r.1,
      r.2,
    )
