-- ===== src/Editor/Keys/Bounds.antt =====
-- The cursor stays in the line, and the history's index in the history, whatever key is pressed.
use websh.Base.{
  ℕ, zero, suc, ◌+◌, ◌-◌, ◌≤◌, ◌≡◌, refl, sym, subst, Bool, true, false, none, some, List, [], ◌∷◌,
  ◌++◌, ◌==◌, arith, if◌then◌else◌, ltb, length, take, drop, length-append, Bool-cases, inl, inr,
}
use websh.Editor.Keys.Drawn.{core, change-core, move_to-core, settle-core, insert_end-core}
use websh.Editor.State.{echo, Terminal, Editor, emit, change, move_to, settle}
use websh.Editor.Keys.{
  insert_inside, insert_end, insert, remove_back, backspace, kill_start, kill_end, delete_here,
  back_blanks, back_word, delete_word, recall, previous, following, step_cursor, handle_csi,
}

-- The cursor is at a place of the line, and the history's index at a line of it or behind the last.
unfoldable pub IsValid : Editor → Type 0
IsValid e = (e.cursor ≤ length e.buf) × (e.hist_idx ≤ length e.history)

pub IsValid-core : (a b : Editor) → core a ≡ core b → IsValid b → IsValid a
unfolding core IsValid
IsValid-core a b p v = subst IsValid (sym p) v

pub IsValid-if :
    (b : Bool) (x y : Editor)
    → (b ≡ true → IsValid x)
    → (b ≡ false → IsValid y)
    → IsValid (if b then x else y)
IsValid-if true x y v w = v refl
IsValid-if false x y v w = w refl

length-take : (i : ℕ) (xs : List ℕ) → i ≤ length xs → length (take i xs) ≡ i
length-take zero xs h = refl
length-take (suc i) [] h = absurd (omega arith)
length-take (suc i) (x ∷ xs) h = omega (arith, length-take i xs (omega arith))

-- A place in the part of a line that is kept is a place in the new line.
kept_front : (i j : ℕ) (xs ys : List ℕ) → i ≤ j → j ≤ length xs → i ≤ length (take i xs ++ ys)
kept_front i j xs ys a b =
    omega (arith, length-append (take i xs) ys, length-take i xs (omega arith), a, b)

kept_inserted :
    (i : ℕ) (xs rs ys : List ℕ) → i ≤ length xs → i + length rs ≤ length (take i xs ++ (rs ++ ys))
kept_inserted i xs rs ys h =
    omega (arith, length-append (take i xs) (rs ++ ys), length-append rs ys, length-take i xs h)

back_blanks-le : (buf : List ℕ) (i : ℕ) → back_blanks buf i ≤ i
unfolding back_blanks
back_blanks-le buf zero = omega arith
back_blanks-le buf (suc i) = ground (arith, back_blanks-le buf i)

back_word-le : (buf : List ℕ) (i : ℕ) → back_word buf i ≤ i
unfolding back_word
back_word-le buf zero = omega arith
back_word-le buf (suc i) = ground (arith, back_word-le buf i)

module _ (e : Editor) (v : IsValid e) where
  pub insert_inside-IsValid : (rs : List ℕ) → IsValid (insert_inside rs e)
  unfolding insert_inside IsValid
  insert_inside-IsValid rs = (kept_inserted e.cursor e.buf rs (drop e.cursor e.buf) v.0, v.1)

  remove_back-IsValid : IsValid (remove_back e)
  unfolding remove_back IsValid
  remove_back-IsValid =
      (kept_front (e.cursor - 1) e.cursor e.buf (drop e.cursor e.buf) (omega arith) v.0, v.1)

  pub kill_start-IsValid : IsValid (kill_start e)
  unfolding kill_start IsValid
  kill_start-IsValid = (omega arith, v.1)

  pub kill_end-IsValid : IsValid (kill_end e)
  unfolding kill_end IsValid
  kill_end-IsValid = (omega (arith, length-take e.cursor e.buf v.0), v.1)

  delete_here-IsValid : IsValid (delete_here e)
  unfolding delete_here IsValid
  delete_here-IsValid =
      (kept_front e.cursor e.cursor e.buf (drop (e.cursor + 1) e.buf) (omega arith) v.0, v.1)

  pub delete_word-IsValid : IsValid (delete_word e)
  unfolding delete_word IsValid
  delete_word-IsValid = (
    kept_front (back_word e.buf (back_blanks e.buf e.cursor)) e.cursor e.buf (drop e.cursor e.buf)
        (omega
          (arith, back_word-le e.buf (back_blanks e.buf e.cursor), back_blanks-le e.buf e.cursor))
        v.0,
    v.1,
  )

  previous-IsValid : IsValid (previous e)
  unfolding previous recall IsValid
  previous-IsValid = elim (Bool-cases (e.hist_idx == length e.history)) [
    | inl k ↦ rw k (omega arith, omega (arith, v.1))
    | inr k ↦ rw k (omega arith, omega (arith, v.1))
  ]

  following-IsValid : (ltb e.hist_idx (length e.history)) ≡ true → IsValid (following e)
  unfolding following recall IsValid
  following-IsValid h = (omega arith, ground (arith, h))

module _ (t : Terminal) (e : Editor) (v : IsValid e) where
  pub change-IsValid : (f : Editor → Editor) → IsValid (f e) → IsValid (change t f e)
  change-IsValid f w = IsValid-core (change t f e) (f e) (change-core t e f) w

  pub move_to-IsValid : (i : ℕ) → i ≤ length e.buf → IsValid (move_to t i e)
  move_to-IsValid i h =
      IsValid-core (move_to t i e) (record e { cursor = i }) (move_to-core t e i)
        (unfold IsValid in (h, v.1))

  pub settle-IsValid : IsValid (settle t e)
  settle-IsValid = IsValid-core (settle t e) e (settle-core t e) v

  insert_end-IsValid : (rs : List ℕ) → IsValid (insert_end t rs e)
  insert_end-IsValid rs =
      IsValid-core (insert_end t rs e)
        (record e { buf = e.buf ++ rs; cursor = e.cursor + length rs }) (insert_end-core t e rs)
        (unfold IsValid in (omega (arith, length-append e.buf rs, v.0), v.1))

  pub insert-IsValid : (rs : List ℕ) → IsValid (insert t rs e)
  unfolding insert
  insert-IsValid rs =
      IsValid-if (ltb e.cursor (length e.buf)) _ _
        (λ _. change-IsValid (insert_inside rs) (insert_inside-IsValid e v rs))
        (λ _. insert_end-IsValid rs)

  removed : IsValid (change t remove_back e)
  removed = change-IsValid remove_back (remove_back-IsValid e v)

  backspace-if : IsValid (
      if e.cursor == length e.buf
      then emit (echo (0x08 ∷ b' ' ∷ 0x08 ∷ [])) (remove_back e)
      else change t remove_back e)
  backspace-if =
      IsValid-if (e.cursor == length e.buf) _ _ (λ _. unfold IsValid in remove_back-IsValid e v)
        (λ _. removed)

  pub backspace-IsValid : IsValid (backspace t e)
  unfolding backspace
  backspace-IsValid =
      IsValid-if (e.cursor == 0) _ _ (λ _. v)
        (λ _.
          elim t.prompt
            as (λ o. IsValid (elim o [
              | none ↦
                  if e.cursor == length e.buf
                  then emit (echo (0x08 ∷ b' ' ∷ 0x08 ∷ [])) (remove_back e)
                  else change t remove_back e
              | some _ ↦ change t remove_back e
            ])) [ none ↦ backspace-if | some _ ↦ removed ])

  step_cursor-IsValid : (i letter : ℕ) → i ≤ length e.buf → IsValid (step_cursor t i letter e)
  unfolding step_cursor
  step_cursor-IsValid i letter h =
      elim t.prompt
        as (λ o. IsValid (elim o [
          | none ↦ emit (echo (0x1b ∷ b'[' ∷ letter ∷ [])) (record e { cursor = i })
          | some _ ↦ move_to t i e
        ])) [ none ↦ unfold IsValid in (h, v.1) | some _ ↦ move_to-IsValid i h ]

  up-IsValid : IsValid (change t previous e)
  up-IsValid = change-IsValid previous (previous-IsValid e v)

  down-IsValid : ltb e.hist_idx (length e.history) ≡ true → IsValid (change t following e)
  down-IsValid h = change-IsValid following (following-IsValid e v h)

  deleted : IsValid (change t delete_here e)
  deleted = change-IsValid delete_here (delete_here-IsValid e v)

  right-IsValid : ltb e.cursor (length e.buf) ≡ true → IsValid (step_cursor t (e.cursor + 1) b'C' e)
  right-IsValid h = step_cursor-IsValid (e.cursor + 1) b'C' (ground (arith, h))

  left-IsValid : IsValid (step_cursor t (e.cursor - 1) b'D' e)
  left-IsValid = step_cursor-IsValid (e.cursor - 1) b'D' (unfold IsValid in omega (arith, v.0))

  home-IsValid : IsValid (move_to t 0 e)
  home-IsValid = move_to-IsValid 0 (omega arith)

  pub end-IsValid : IsValid (move_to t (length e.buf) e)
  end-IsValid = move_to-IsValid (length e.buf) (omega arith)

  pub handle_csi-IsValid : (seq : List ℕ) → IsValid (handle_csi t seq e)
  unfolding handle_csi
  handle_csi-IsValid seq =
      search
        (
          IsValid-if, up-IsValid, down-IsValid, right-IsValid, left-IsValid, home-IsValid,
          end-IsValid, deleted, v,
        )
        depth 30
